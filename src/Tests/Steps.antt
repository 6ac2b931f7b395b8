-- ===== src/Tests/Steps.antt =====
-- Runs of the step plugin's theorems.
use argo_rollouts_k6_plugin.Base.{
  Text, ℕ, pos, codes, List, [], ◌∷◌, ◌++◌, Option, none, some, ok, err, ◌≡◌, ◌≢◌, ◌↔◌, ◌⊎◌, refl,
  ◌≤◌, ◌+◌, ◌-ℤ◌, ◌==◌, ◌<ℤ◌, ◌≤ℤ◌,
}
use argo_rollouts_k6_plugin.Provider.Errors.{nil_pointer}
use argo_rollouts_k6_plugin.Provider.Config.{
  PluginConfig, validate_provider, clear_injected, is_grafana_cloud, validate_k6_operator,
}
use argo_rollouts_k6_plugin.Provider.Interface.{passed, Provider}
use argo_rollouts_k6_plugin.Step.Types.{
  StepState, zero_state, Rollout, StepContext, empty_result, default_timeout, max_timeout, Host,
}
use argo_rollouts_k6_plugin.Step.Traced.{traced, traced_host, triggers, polled, triggered}
use argo_rollouts_k6_plugin.Step.Config.{parse_config, parse_timeout, populate_from_rollout}
use argo_rollouts_k6_plugin.Step.Plugin.{load_state, abort, terminate}
use argo_rollouts_k6_plugin.Step.Starts.{NamesRuns}
use argo_rollouts_k6_plugin.Step.Reconcile.{reconcile, reconcile_once, fresh, triggers-le-failed}
use argo_rollouts_k6_plugin.Step.Resumed.{Started}
use argo_rollouts_k6_plugin.Step.Phases.{parse_timeout_iff}
use argo_rollouts_k6_plugin.Step.Orphan.{Orphans, run_orphaned, stop_call, terminate_stops}
use argo_rollouts_k6_plugin.Tests.Fixtures.{
  platform, local_config, host_for, host_for-IsCodec, backend,
}

abbrev host : Host platform ℕ
host = host_for local_config

abbrev passing : Provider platform ℕ
passing = backend (ok passed)

abbrev rollout : Rollout
rollout = record { name = codes "web"; uid = codes "u"; namespace = codes "shop" }

abbrev rollouts : List (Option Rollout)
rollouts = some rollout ∷ none ∷ some rollout ∷ []

passing-NamesRuns : NamesRuns passing
passing-NamesRuns cfg w h = cc

triggers-le-failed_example :
    let l = reconcile (traced_host host) (traced passing) (codes "{}") rollouts (fresh 5) in
    triggers l.world.0 ≤ 1 + l.failed
triggers-le-failed_example =
    triggers-le-failed host passing (host_for-IsCodec local_config) passing-NamesRuns (codes "{}")
      rollouts 5

-- A run that was started at the time 3.
abbrev started_state : StepState
started_state = record zero_state { run_id = codes "r1"; triggered_at = 3 ∷ [] }

abbrev started_context : Option StepContext
started_context = some (record { config = codes "{}"; status = host.encode_state started_state })

abbrev run_config : PluginConfig platform
run_config = record local_config { rollout_name = codes "web"; rollout_uid = codes "u" }

started :
    (P : Provider platform ℕ)
    → Started host P (some rollout) started_context run_config default_timeout started_state (pos 3)
unfolding parse_config parse_timeout populate_from_rollout load_state clear_injected
    validate_provider is_grafana_cloud ◌==◌ validate_k6_operator
started P = record {
  parsed = local_config;
  accepted = refl;
  populated = refl;
  limited = refl;
  loaded = refl;
  named = refl;
  dated = refl;
}

abbrev silent : Provider platform ℕ
silent = backend (err nil_pointer)

orphans : Orphans host silent (codes "{}") (some rollout) run_config (codes "r1") nil_pointer 5 7
unfolding parse_config parse_timeout populate_from_rollout clear_injected validate_provider
    is_grafana_cloud ◌==◌ validate_k6_operator ◌-ℤ◌
orphans = record {
  parsed = local_config;
  timeout = default_timeout;
  dated = pos 5;
  accepted = refl;
  populated = refl;
  triggering = refl;
  limited = refl;
  started = 5;
  start = refl;
  stamped = refl;
  early = refl;
  answer = refl;
}

run_orphaned_example :
    reconcile_once
      (traced_host host)
      (traced silent)
      (codes "{}")
      (some rollout)
      (record { status = []; failed = 0; world = ([], 5) })
    ≡ record {
      status = [];
      failed = 1;
      world = (polled (codes "r1") ∷ triggered (some (codes "r1")) ∷ [], 7);
    }
run_orphaned_example = run_orphaned host silent (codes "{}") (some rollout) [] 0 orphans

terminate_stops_example :
    let (reply, w) =
      terminate (traced_host host) (traced passing) (some rollout) started_context ([], 9) in
    (reply ≡ (empty_result, none))
    × (w.0 ≡ stop_call host passing started_context ++ [])
    × (abort (traced_host host) (traced passing) (some rollout) started_context ([], 9)
        ≡ (reply, w))
terminate_stops_example = terminate_stops host passing (some rollout) started_context [] 9

abbrev minute : Text
minute = 60 ∷ []

parse_timeout_iff_example : (parse_timeout host minute ≡ ok (pos 60)) ↔ (
    (minute ≡ []) × (pos 60 ≡ default_timeout)
    ⊎ (minute ≢ [])
      × (host.parse_duration minute ≡ ok (pos 60))
      × (pos 0 <ℤ pos 60)
      × (pos 60 ≤ℤ max_timeout))
parse_timeout_iff_example = parse_timeout_iff host minute (pos 60)

accepted : parse_config host started_context ≡ ok local_config
unfolding parse_config clear_injected validate_provider is_grafana_cloud ◌==◌ validate_k6_operator
accepted = refl
