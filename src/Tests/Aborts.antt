-- ===== src/Tests/Aborts.antt =====
-- A run of the theorem on aborted steps, on a cluster with room for one object; and of that on the order of
-- runner pods.
use argo_rollouts_k6_plugin.Base.{
  Text, pos, codes, [], ◌∷◌, Bool, false, Option, none, some, ok, err, ◌≡◌, ◌⊎◌, refl, ◌==◌,
}
use mathlib.Core.List.Permᴰ
use argo_rollouts_k6_plugin.Provider.Errors.{Fault}
use argo_rollouts_k6_plugin.Provider.Config.{
  validate_provider, clear_injected, is_grafana_cloud, validate_k6_operator,
}
use argo_rollouts_k6_plugin.Step.Types.{Host, StepContext, StepState, zero_state}
use argo_rollouts_k6_plugin.Step.Config.{parse_config, populate_from_rollout}
use argo_rollouts_k6_plugin.Step.Plugin.{load_state, abort, terminate}
use argo_rollouts_k6_plugin.Cloud.Types.{CloudApi}
use argo_rollouts_k6_plugin.Operator.RunId.{decode_run_id, gvr_for_resource}
use argo_rollouts_k6_plugin.Base.Strings.{split_n}
use argo_rollouts_k6_plugin.Operator.ExitCode.{judge_pods, exit_code_to_run_state}
use argo_rollouts_k6_plugin.Operator.Types.{Pod}
use argo_rollouts_k6_plugin.Provider.Interface.{running, errored}
use argo_rollouts_k6_plugin.Operator.ExitCode.Order.{
  Any, PendingPod, BrokenPod, judge_pods-unordered,
}
use argo_rollouts_k6_plugin.Operator.Client.{OperatorWorld, ensure_client}
use argo_rollouts_k6_plugin.Operator.Plugin.{stop_run, delete_cr, need_dyn_client, settle_delete}
use argo_rollouts_k6_plugin.Operator.Plugin.Objects.{has_run}
use argo_rollouts_k6_plugin.Cmd.Wiring.{step_main}
use argo_rollouts_k6_plugin.Cmd.Aborts.{abort-gone}
use argo_rollouts_k6_plugin.Tests.Fixtures.{platform, local_config, host_for, pod}
use argo_rollouts_k6_plugin.Tests.Objects.{small, small-Cluster, at_first}

abbrev down : Fault
down = record { not_found = false; text = codes "down" }

-- The cloud is out of reach.
abbrev no_cloud : CloudApi platform Bool
no_cloud = record {
  start = λ url token test stack w. (err down, w);
  retrieve = λ url token run stack w. (err down, w);
  abort_run = λ url token run stack w. (err down, w);
  check_url = λ url. none;
  http_get = λ url token stack limit w. (err down, w);
  unmarshal_aggregate = λ t. err down;
  parse_int = λ t. err down;
  format_int = λ n. codes "7";
}

-- A clock that stands still.
abbrev still_host : Host platform (OperatorWorld small)
still_host = record {
  now = λ w. (pos 9, w);
  format_time = (host_for local_config).format_time;
  parse_time = (host_for local_config).parse_time;
  parse_duration = (host_for local_config).parse_duration;
  decode_config = (host_for local_config).decode_config;
  encode_state = (host_for local_config).encode_state;
  decode_state = (host_for local_config).decode_state;
}

abbrev state : StepState
state = record zero_state { run_id = codes "shop/testruns/k6-web"; triggered_at = 3 ∷ [] }

abbrev context : Option StepContext
context = some (record { config = codes "{}"; status = still_host.encode_state state })

abbrev no_env : Text → Text
no_env name = []

accepted : parse_config still_host context ≡ ok local_config
unfolding parse_config validate_provider clear_injected is_grafana_cloud validate_k6_operator ◌==◌
accepted = refl

loaded : load_state still_host (still_host.encode_state state) ≡ ok state
unfolding load_state
loaded = refl

abort-gone_example :
    let plugin = (step_main no_cloud small no_env).impl in
    (has_run small small-Cluster
        (codes "shop/testruns/k6-web")
        (abort still_host plugin.provider none context at_first).1.1
      ≡ false)
    × (terminate still_host plugin.provider none context at_first
        ≡ abort still_host plugin.provider none context at_first)
unfolding stop_run delete_cr decode_run_id split_n ◌==◌ gvr_for_resource need_dyn_client
    ensure_client settle_delete populate_from_rollout
abort-gone_example =
    abort-gone no_cloud small no_env small-Cluster still_host none context {s = state} at_first
      accepted refl loaded refl refl

judge_pods-unordered_example :
    (judge_pods (codes "k6-web") (pod (pos 0) ∷ pod (pos 99) ∷ [])
      ≡ judge_pods (codes "k6-web") (pod (pos 99) ∷ pod (pos 0) ∷ []))
    ⊎ (Any PendingPod (pod (pos 0) ∷ pod (pos 99) ∷ [])
        × Any BrokenPod (pod (pos 0) ∷ pod (pos 99) ∷ []))
judge_pods-unordered_example =
    judge_pods-unordered (codes "k6-web") (pod (pos 0) ∷ pod (pos 99) ∷ [])
      (pod (pos 99) ∷ pod (pos 0) ∷ []) (Permᴰ.swap refl refl)

-- Of a pod that still runs and one that has crashed, the first that is listed decides.
abbrev waiting : Pod
waiting = record (pod (pos 0)) {
  container_statuses = record { name = codes "k6"; restart_count = pos 0; terminated = none } ∷ [];
}

waiting-first : judge_pods (codes "k6-web") (waiting ∷ pod (pos 1) ∷ []) ≡ ok running
unfolding judge_pods
waiting-first = refl

waiting-last : judge_pods (codes "k6-web") (pod (pos 1) ∷ waiting ∷ []) ≡ ok errored
unfolding judge_pods exit_code_to_run_state
waiting-last = refl
