-- ===== src/Tests/Protocols.antt =====
-- Runs of the theorems on the step plugin's protocol and on its end, on the backend of the unit tests.
use argo_rollouts_k6_plugin.Base.{
  Text, ℕ, pos, codes, List, [], ◌∷◌, none, some, ok, true, ◌≡◌, ◌≤◌, refl, arith, ◌==◌,
}
use argo_rollouts_k6_plugin.Provider.Interface.{Provider}
use argo_rollouts_k6_plugin.Provider.Mock.{unset_mock, mock_provider}
use argo_rollouts_k6_plugin.Provider.Config.{
  PluginConfig, validate_provider, clear_injected, is_grafana_cloud, validate_k6_operator,
}
use argo_rollouts_k6_plugin.Step.Types.{Host, StepState, zero_state}
use argo_rollouts_k6_plugin.Step.Config.{parse_config, parse_timeout}
use argo_rollouts_k6_plugin.Step.Plugin.{load_state}
use argo_rollouts_k6_plugin.Step.Traced.{traced, traced_host, cleanups}
use argo_rollouts_k6_plugin.Step.Starts.{NamesRuns}
use argo_rollouts_k6_plugin.Step.Reconcile.{Loop, fresh}
use argo_rollouts_k6_plugin.Step.Protocol.{Follows, stage_of}
use argo_rollouts_k6_plugin.Step.Control.{Request, call_run, call_terminate, call_abort, control}
use argo_rollouts_k6_plugin.Step.Control.Refine.{IsGiven, control-Follows, control-cleanups}
use argo_rollouts_k6_plugin.Step.Deadline.{ends_within, Ticks, Polling}
use argo_rollouts_k6_plugin.Step.Deadline.Final.{run-ends_within}
use argo_rollouts_k6_plugin.Tests.Fixtures.{platform, local_config, host_for, host_for-IsCodec}

abbrev mock : Provider platform ℕ
mock = mock_provider unset_mock

mock-NamesRuns : NamesRuns mock
mock-NamesRuns cfg w h = cc

abbrev host : Host platform ℕ
host = host_for local_config

abbrev requests : List Request
requests = call_run none ∷ call_abort none ∷ call_run none ∷ call_terminate none ∷ []

control-Follows_example :
    let l = control (traced_host host) (traced mock) (codes "{}") requests (fresh 5) in
    Follows (λ t. t) (IsGiven host (codes "{}")) (stage_of (load_state host l.status)) l.world.0
control-Follows_example =
    control-Follows host mock (host_for-IsCodec local_config) mock-NamesRuns (codes "{}") requests 5

control-cleanups_example :
    cleanups (control (traced_host host) (traced mock) (codes "{}") requests (fresh 5)).world.0 ≤ 1
control-cleanups_example =
    control-cleanups host mock (host_for-IsCodec local_config) mock-NamesRuns (codes "{}") requests
      5

-- A timeout of two nanoseconds, on a run that was started at the time 3.
abbrev hasty_config : PluginConfig platform
hasty_config = record local_config { timeout = 2 ∷ [] }

abbrev hasty_host : Host platform ℕ
hasty_host = host_for hasty_config

abbrev started_state : StepState
started_state = record zero_state { run_id = codes "r1"; triggered_at = 3 ∷ [] }

abbrev polled_loop : Loop ℕ
polled_loop = record { status = hasty_host.encode_state started_state; failed = 0; world = 4 }

hasty_host-Ticks : Ticks hasty_host mock (λ w. w) 1
hasty_host-Ticks = record {
  shows = λ w. refl;
  goes_on = λ w. omega arith;
  keeps_get = λ cfg run_id w. omega arith;
}

hasty_host-accepts :
    (status : Text)
    → parse_config hasty_host (some (record { config = codes "{}"; status = status }))
      ≡ ok hasty_config
unfolding parse_config validate_provider clear_injected is_grafana_cloud validate_k6_operator ◌==◌
hasty_host-accepts status = refl

polled_loop-Polling : Polling hasty_host mock 3 polled_loop.status
unfolding load_state
polled_loop-Polling = record { state = started_state; loaded = refl; named = refl; dated = refl }

hasty_host-limited : parse_timeout hasty_host hasty_config.timeout ≡ ok (pos 2)
unfolding parse_timeout
hasty_host-limited = refl

run-ends_within_example :
    ends_within hasty_host mock (codes "{}") (none ∷ none ∷ none ∷ []) polled_loop ≡ true
run-ends_within_example =
    run-ends_within hasty_host mock (host_for-IsCodec hasty_config) (λ text t h. refl)
      hasty_host-Ticks (codes "{}") hasty_host-accepts hasty_host-limited 3 none (none ∷ none ∷ [])
      polled_loop polled_loop-Polling (omega arith)
