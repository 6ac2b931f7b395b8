-- ===== src/Tests/Executables.antt =====
-- Runs of the theorems on the executables, over the stand-ins of the two backends.
use argo_rollouts_k6_plugin.Base.{
  Text, pos, codes, List, [], ◌∷◌, Option, none, some, ◌≡◌, ◌≤◌, ◌+◌, ◌++◌, ◌==◌, refl, negsuc,
  if◌then◌else◌,
}
use argo_rollouts_k6_plugin.Provider.Router.Laws.{SameCalls, requested}
use argo_rollouts_k6_plugin.Step.Types.{Rollout}
use argo_rollouts_k6_plugin.Step.Traced.{traced, traced_host, cleanups, triggers}
use argo_rollouts_k6_plugin.Step.Reconcile.{reconcile, fresh}
use argo_rollouts_k6_plugin.Operator.Client.{OperatorState}
use argo_rollouts_k6_plugin.Cmd.Logging.{logging_level, to_lower, level_warn}
use argo_rollouts_k6_plugin.Cmd.Worlds.{host_beside}
use argo_rollouts_k6_plugin.Cmd.Wiring.{
  main_provider, step_main, at_start, base_url_of, cloud_options,
}
use argo_rollouts_k6_plugin.Cloud.Options.{new_grafana_cloud_provider}
use argo_rollouts_k6_plugin.Cmd.Laws.{
  backend_named, main_provider-SameCalls, step_main-Counts, PrintsInts,
}
use argo_rollouts_k6_plugin.Tests.Fixtures.{cluster, local_config, host_for, host_for-IsCodec}
use argo_rollouts_k6_plugin.Tests.Clouds.{api}

-- Only the log level is set.
abbrev env : Text → Text
env name = if name == codes "LOG_LEVEL" then codes "WaRn" else []

level_of_warn : logging_level (env (codes "LOG_LEVEL")) ≡ level_warn
unfolding logging_level to_lower ◌==◌
level_of_warn = refl

level_of_dotted : logging_level (codes "warn" ++ (196 ∷ 176 ∷ codes "ng")) ≡ level_warn
unfolding logging_level to_lower ◌==◌
level_of_dotted = refl

no_base_url : base_url_of (env (codes "K6_BASE_URL")) ≡ []
unfolding base_url_of cloud_options new_grafana_cloud_provider ◌==◌
no_base_url = refl

given_base_url : base_url_of (codes "http://mock") ≡ codes "http://mock"
unfolding base_url_of cloud_options new_grafana_cloud_provider
given_base_url = refl

main_provider-SameCalls_example :
    SameCalls
      (main_provider api cluster env)
      (backend_named api cluster env (requested local_config))
      local_config
main_provider-SameCalls_example = main_provider-SameCalls api cluster env local_config

api-PrintsInts : PrintsInts api
api-PrintsInts (pos n) h = cc
api-PrintsInts (negsuc n) h = cc

abbrev rollouts : List (Option Rollout)
rollouts =
    none ∷ some (record { name = codes "web"; uid = codes "u"; namespace = codes "shop" }) ∷ []

step_main-Counts_example :
    let plugin = (step_main api cluster env).impl in
    let l =
      reconcile
        (traced_host (host_beside (OperatorState cluster) (host_for local_config)))
        (traced plugin.provider)
        (codes "{}")
        rollouts
        (fresh (at_start cluster 5)) in
    (cleanups l.world.0 ≤ 1) × (triggers l.world.0 ≤ 1 + l.failed)
step_main-Counts_example =
    step_main-Counts api cluster env api-PrintsInts (host_for local_config)
      (host_for-IsCodec local_config) (codes "{}") rollouts 5
