-- ===== src/Cmd/Aborts.antt =====
-- What is left of a run on the cluster when the controller aborts or terminates the step.
use argo_rollouts_k6_plugin.Base.{
  Text, ◌≡◌, refl, ap, ◌∙◌, false, true, is_empty, Option, none, some, ok, ◌==◌, ==_refl, arith,
}
use argo_rollouts_k6_plugin.Provider.Config.{Platform, PluginConfig, k6_operator}
use argo_rollouts_k6_plugin.Provider.Router.Laws.{requested}
use argo_rollouts_k6_plugin.Step.Types.{Host, Rollout, StepContext, StepState}
use argo_rollouts_k6_plugin.Step.Config.{parse_config, populate_from_rollout}
use argo_rollouts_k6_plugin.Step.Plugin.{load_state, status_text, stop_active_run, abort, terminate}
use argo_rollouts_k6_plugin.Provider.Interface.{Provider}
use argo_rollouts_k6_plugin.Cloud.Types.{CloudApi}
use argo_rollouts_k6_plugin.Operator.Types.{Kube}
use argo_rollouts_k6_plugin.Operator.Client.{OperatorWorld}
use argo_rollouts_k6_plugin.Operator.Plugin.{cleanup, stop_run}
use argo_rollouts_k6_plugin.Operator.Plugin.Objects.{Cluster, has_run, cleanup-gone}
use argo_rollouts_k6_plugin.Cmd.Wiring.{main_provider, step_main}
use argo_rollouts_k6_plugin.Cmd.Laws.{main_provider-SameCalls}

requested-populate :
    {X : Platform} (cfg : PluginConfig X) (rollout : Option Rollout)
    → requested (populate_from_rollout cfg rollout) ≡ requested cfg
unfolding populate_from_rollout
requested-populate cfg none = refl
requested-populate cfg (some r) = ground arith

requested-k6_operator :
    {X : Platform} (cfg : PluginConfig X)
    → cfg.provider ≡ k6_operator
    → (k6_operator == requested cfg) ≡ true
requested-k6_operator cfg named = rw named (==_refl k6_operator)

module _ {X : Platform} {W : Type 0} (H : Host X W) (P : Provider X W) where
  stop_active_run_loaded :
      (rollout : Option Rollout) (ctx : Option StepContext) {cfg : PluginConfig X} {s : StepState}
      (w : W)
      → parse_config H ctx ≡ ok cfg
      → load_state H (status_text ctx) ≡ ok s
      → is_empty s.run_id ≡ false
      → stop_active_run H P rollout ctx w
        ≡ (P.stop_run (populate_from_rollout cfg rollout) s.run_id w).1
  unfolding stop_active_run
  stop_active_run_loaded rollout ctx w parsed loaded named =
      rw (stop_active_run, parsed, loaded, named) refl

module _ {X : Platform} {W : Type 0} (A : CloudApi X W) (K : Kube X W) (env : Text → Text)
    (C : Cluster K) (H : Host X (OperatorWorld K)) where
  -- If the step executable aborts or terminates a step on the k6 operator, and `StopRun` returns no error, the
  -- object of the run that the status names is gone behind it or marked for deletion. This supposes a
  -- valid configuration, a status that is read, and what Kubernetes documents of a deletion.
  pub abort-gone :
      (rollout : Option Rollout) (ctx : Option StepContext) {cfg : PluginConfig X} {s : StepState}
      (world : OperatorWorld K)
      → parse_config H ctx ≡ ok cfg
      → cfg.provider ≡ k6_operator
      → load_state H (status_text ctx) ≡ ok s
      → is_empty s.run_id ≡ false
      → (stop_run K none (populate_from_rollout cfg rollout) s.run_id world).0 ≡ ok tt
      → let plugin = (step_main A K env).impl in
        (has_run K C s.run_id (abort H plugin.provider rollout ctx world).1.1 ≡ false)
        × (terminate H plugin.provider rollout ctx world
            ≡ abort H plugin.provider rollout ctx world)
  unfolding abort terminate step_main cleanup stop_run
  abort-gone rollout ctx {cfg} {s} world parsed operator loaded named deleted =
      let cfg' = populate_from_rollout cfg rollout in
      let stopped =
        stop_active_run_loaded H (main_provider A K env) rollout ctx world parsed loaded named in
      let local =
        ap (λ name. k6_operator == name) (requested-populate cfg rollout)
        ∙ requested-k6_operator cfg operator in
      let same = (rw local at (main_provider-SameCalls A K env cfg')).stop s.run_id in
      let gone = (cleanup-gone K C none cfg' s.run_id world deleted).0 in
      (rw (stopped, same) gone, refl)
