-- ===== src/Step/Control.antt =====
-- The controller: it calls `Run`, `Terminate` and `Abort` in any order, each with the status that the
-- calls before it left.
pub mod Polls
pub mod Refine
use argo_rollouts_k6_plugin.Base.{Text, List, [], ◌∷◌, Option, some, ◌+◌}
use argo_rollouts_k6_plugin.Provider.Config.{Platform}
use argo_rollouts_k6_plugin.Provider.Interface.{Provider}
use argo_rollouts_k6_plugin.Step.Types.{Host, Reply, Rollout, StepContext}
use argo_rollouts_k6_plugin.Step.Plugin.{run, terminate, abort}
use argo_rollouts_k6_plugin.Step.Starts.{failures, next_status}
use argo_rollouts_k6_plugin.Step.Reconcile.{Loop}

-- A call, with the rollout that the controller passes.
pub data Request : Type 0 where
  call_run call_terminate call_abort : Option Rollout → Request

module _ {X : Platform} {W : Type 0} (H : Host X W) (P : Provider X W) where
  abbrev pub serve : Request → Option StepContext → W → Reply × W
  serve (call_run rollout) = run H P rollout
  serve (call_terminate rollout) = terminate H P rollout
  serve (call_abort rollout) = abort H P rollout

  abbrev pub control_once : Text → Request → Loop W → Loop W
  control_once config request l =
      let (reply, w) =
        serve request (some (record { config = config; status = l.status })) l.world in
      record { status = next_status l.status reply; failed = l.failed + failures reply; world = w }

  unfoldable pub control : Text → List Request → Loop W → Loop W
  control config [] l = l
  control config (request ∷ requests) l = control config requests (control_once config request l)
