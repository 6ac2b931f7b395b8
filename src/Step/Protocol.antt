-- ===== src/Step/Protocol.antt =====
-- The protocol that the step plugin keeps on a backend, as an abstract machine: what it has with the
-- backend at a time, and the calls that lead there. Of the plugin's code it knows nothing.
use argo_rollouts_k6_plugin.Base.{
  Text, ℕ, ◌+◌, ◌≤◌, ◌≡◌, ◌↔◌, is_empty, if◌then◌else◌, List, [], ◌∷◌, Bool, true, false, none,
  some, Result, ok, err, arith,
}
use argo_rollouts_k6_plugin.Provider.Errors.{Fault}
use argo_rollouts_k6_plugin.Step.Types.{StepState}
use argo_rollouts_k6_plugin.Step.Traced.{Call, triggered, polled, stopped, cleaned, cleanups}

-- No run, or a run: whether its ID is saved in the status, the ID, and whether it was cleaned up.
pub data Stage : Type 0 where
  idle : Stage
  working : Bool → Text → Bool → Stage

-- The logs, the newest call first, that lead to a stage. `store` is what saving makes of an ID,
-- and `Given` says which runs may be taken over that were not started here.
pub data Follows (store : Text → Text) (Given : Text → Type 0) : Stage → List Call → Type 0 where
  begin_log : Follows store Given idle []
  fail_start :
      {log : List Call}
      → Follows store Given idle log
      → Follows store Given idle (triggered none ∷ log)
  start :
      {log : List Call} {run_id : Text}
      → is_empty run_id ≡ false
      → Follows store Given idle log
      → Follows store Given (working false run_id false) (triggered (some run_id) ∷ log)
  take_over :
      {log : List Call} {run_id : Text}
      → is_empty run_id ≡ false
      → Given run_id
      → Follows store Given idle log
      → Follows store Given (working false run_id false) log
  watch :
      {log : List Call} {saved cleaned_up : Bool} {run_id : Text}
      → Follows store Given (working saved run_id cleaned_up) log
      → Follows store Given (working saved run_id cleaned_up) (polled run_id ∷ log)
  stop :
      {log : List Call} {saved cleaned_up : Bool} {run_id : Text}
      → Follows store Given (working saved run_id cleaned_up) log
      → Follows store Given (working saved run_id cleaned_up) (stopped run_id ∷ log)
  clean :
      {log : List Call} {saved : Bool} {run_id : Text}
      → Follows store Given (working saved run_id false) (polled run_id ∷ log)
      → Follows store Given (working saved run_id true) (cleaned run_id ∷ polled run_id ∷ log)
  save :
      {log : List Call} {saved cleaned_up : Bool} {run_id : Text}
      → Follows store Given (working saved run_id cleaned_up) log
      → Follows store Given (working true (store run_id) cleaned_up) log
  -- A run that was not saved is lost.
  lose :
      {log : List Call} {run_id : Text}
      → Follows store Given (working false run_id false) log
      → Follows store Given idle log

-- The stage that a loaded status stands for.
abbrev pub stage_of_state : StepState → Stage
stage_of_state s = if is_empty s.run_id then idle else working true s.run_id s.cleanup_done

abbrev pub stage_of : Result Fault StepState → Stage
stage_of (ok s) = stage_of_state s
stage_of (err e) = idle

-- What is still to be cleaned up at a stage.
abbrev left : Stage → ℕ
left idle = 1
left (working saved run_id cleaned_up) = if cleaned_up then 0 else 1

module _ {store : Text → Text} {Given : Text → Type 0} where
  -- A log of the protocol cleans up at most once, and not at all while the flag is down.
  pub Follows-cleanups :
      {stage : Stage} {log : List Call}
      → Follows store Given stage log
      → cleanups log + left stage ≤ 1
  Follows-cleanups begin_log = omega arith
  Follows-cleanups (fail_start f) = Follows-cleanups f
  Follows-cleanups (start named f) = Follows-cleanups f
  Follows-cleanups (take_over named given f) = Follows-cleanups f
  Follows-cleanups (watch f) = Follows-cleanups f
  Follows-cleanups (stop f) = Follows-cleanups f
  Follows-cleanups (clean f) = omega (arith, Follows-cleanups f)
  Follows-cleanups (save f) = Follows-cleanups f
  Follows-cleanups (lose f) = Follows-cleanups f

  -- A flag that is known to be down.
  pub lowered :
      {log : List Call} {run_id : Text} {up : Bool}
      → up ≡ false
      → Follows store Given (working false run_id up) log
        ↔ Follows store Given (working false run_id false) log
  lowered {log} {run_id} {up} down = rw down (λ f. f, λ f. f)
