-- ===== src/Step/Reconcile.antt =====
-- Repeated calls of the step plugin's `Run`, each with the status that the calls before it left.
use argo_rollouts_k6_plugin.Base.{Text, ℕ, ◌+◌, ◌≤◌, List, [], ◌∷◌, Option, some, arith}
use argo_rollouts_k6_plugin.Provider.Config.{Platform}
use argo_rollouts_k6_plugin.Provider.Interface.{Provider}
use argo_rollouts_k6_plugin.Step.Types.{Host, IsCodec, Rollout, StepContext}
use argo_rollouts_k6_plugin.Step.Traced.{Traced, traced, traced_host, cleanups, triggers}
use argo_rollouts_k6_plugin.Step.Plugin.{run, load_state}
use argo_rollouts_k6_plugin.Step.Starts.{
  NamesRuns, failures, next_status, owed, due, run_body-Accounts,
}

-- The controller between two calls: the status that it keeps, how many calls failed with an RPC
-- error, and the world.
pub record Loop (W : Type 0) : Type 0 where
  pub status : Text
  pub failed : ℕ
  pub world : W

module _ {X : Platform} {W : Type 0} (H : Host X W) (P : Provider X W) (config : Text) where
  abbrev context : Text → Option StepContext
  context status = some (record { config = config; status = status })

  abbrev pub reconcile_once : Option Rollout → Loop W → Loop W
  reconcile_once rollout l =
      let (reply, w) = run H P rollout (context l.status) l.world in
      record { status = next_status l.status reply; failed = l.failed + failures reply; world = w }

  -- One call for each rollout of the list, which is what the controller passes in that call.
  unfoldable pub reconcile : List (Option Rollout) → Loop W → Loop W
  reconcile [] l = l
  reconcile (rollout ∷ rollouts) l = reconcile rollouts (reconcile_once rollout l)

-- No call was made yet.
abbrev pub fresh : {W : Type 0} → W → Loop (Traced W)
fresh w = record { status = []; failed = 0; world = ([], w) }

module _ {X : Platform} {W : Type 0} (H : Host X W) (P : Provider X W) (codec : IsCodec H)
    (names : NamesRuns P) (config : Text) where
  record Balanced (l : Loop (Traced W)) : Type 0 where
    cleaning : cleanups l.world.0 + owed (load_state H l.status) ≤ 1
    starting : triggers l.world.0 + due (load_state H l.status) ≤ 1 + l.failed

  reconcile_once-Balanced :
      (rollout : Option Rollout) (l : Loop (Traced W))
      → Balanced l
      → Balanced (reconcile_once (traced_host H) (traced P) config rollout l)
  unfolding run
  reconcile_once-Balanced rollout l b =
      let a = run_body-Accounts H P codec names rollout config l.status l.world.0 l.world.1 in
      record {
        cleaning = omega (arith, a.cleaning, b.cleaning);
        starting = omega (arith, a.starting, b.starting);
      }

  reconcile-Balanced :
      (rollouts : List (Option Rollout)) (l : Loop (Traced W))
      → Balanced l
      → Balanced (reconcile (traced_host H) (traced P) config rollouts l)
  unfolding reconcile
  reconcile-Balanced [] l b = b
  reconcile-Balanced (rollout ∷ rollouts) l b =
      reconcile-Balanced rollouts _ (reconcile_once-Balanced rollout l b)

  fresh-Balanced : (w : W) → Balanced (fresh w)
  unfolding load_state
  fresh-Balanced w = record { cleaning = omega arith; starting = omega arith }

  -- However often the controller calls `Run` with the last status that a call returned, and whatever
  -- else the backend answers, `Cleanup` is called at most once, if `TriggerRun` returns no empty run ID
  -- and the encoded state is decoded as the JSON library documents.
  pub cleanup_at_most_once :
      (rollouts : List (Option Rollout)) (w : W)
      → cleanups (reconcile (traced_host H) (traced P) config rollouts (fresh w)).world.0 ≤ 1
  cleanup_at_most_once rollouts w =
      omega (arith, (reconcile-Balanced rollouts (fresh w) (fresh-Balanced w)).cleaning)

  -- However often the controller calls `Run` with the last status that a call returned, `TriggerRun` is
  -- called at most once more than calls of `Run` failed with an RPC error, if `TriggerRun` returns no
  -- empty run ID and the encoded state is decoded as the JSON library documents.
  pub triggers-le-failed :
      (rollouts : List (Option Rollout)) (w : W)
      → let l = reconcile (traced_host H) (traced P) config rollouts (fresh w) in
        triggers l.world.0 ≤ 1 + l.failed
  triggers-le-failed rollouts w =
      omega (arith, (reconcile-Balanced rollouts (fresh w) (fresh-Balanced w)).starting)
