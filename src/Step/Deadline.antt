-- ===== src/Step/Deadline.antt =====
-- A controller that keeps calling `Run` on a run that was started, a clock, and when the step ends.
pub mod Final
use argo_rollouts_k6_plugin.Base.{
  Text, ℤ, ℕ, pos, ◌-ℤ◌, ltbℤ, ◌≡◌, ◌∙◌, ◌≤◌, ◌<◌, ◌+◌, ◌*◌, ◌^◌, ◌⊎◌, inl, inr, refl, is_empty,
  if◌then◌else◌, List, [], ◌∷◌, Option, none, some, ok, err, Bool, true, false, ◌||◌, arith,
  Bool-cases, Result-cases, length, suc,
}
use argo_rollouts_k6_plugin.Provider.Errors.{Err}
use argo_rollouts_k6_plugin.Provider.Config.{Platform, PluginConfig}
use argo_rollouts_k6_plugin.Provider.Interface.{Provider, RunResult, RunState, running}
use argo_rollouts_k6_plugin.Step.Types.{
  Host, IsCodec, StepContext, StepState, Reply, Rollout, StepPhase, phase_successful, phase_failed,
  max_timeout, second, default_timeout,
}
use argo_rollouts_k6_plugin.Step.Config.{parse_config, parse_timeout, populate_from_rollout}
use argo_rollouts_k6_plugin.Step.Phases.{parse_timeout_iff}
use argo_rollouts_k6_plugin.Step.Plugin.{
  load_state, conclude, poll, run, saturate, needs_cleanup, reply_of, time_out, observed, reply_for,
  fold_reply,
}
use argo_rollouts_k6_plugin.Step.Starts.{
  next_status, load_state-encode_state, next_status-encode_state,
}
use argo_rollouts_k6_plugin.Step.Reconcile.{Loop, reconcile_once}
use argo_rollouts_k6_plugin.Step.Resumed.{Started, is_late, after_clock, run_of_Started, is_running}

-- The phases behind which the controller does not call `Run` again.
abbrev pub is_final : StepPhase → Bool
is_final phase_successful = true
is_final phase_failed = true
is_final _ = false

module _ {X : Platform} {W : Type 0} (H : Host X W) (P : Provider X W) where
  abbrev pub reply_at : Text → Option Rollout → Loop W → Reply × W
  reply_at config rollout l =
      run H P rollout (some (record { config = config; status = l.status })) l.world

  -- Whether one of the calls returns a final phase.
  unfoldable pub ends_within : Text → List (Option Rollout) → Loop W → Bool
  ends_within config [] l = false
  ends_within config (rollout ∷ rollouts) l =
      is_final (reply_at config rollout l).0.0.phase
      || ends_within config rollouts (reconcile_once H P config rollout l)

  -- A clock that shows how many nanoseconds have passed, and goes on by `tick` at least with each
  -- reading; the backend does not turn it back.
  pub record Ticks (clock : W → ℕ) (tick : ℕ) : Type 0 where
    pub shows : (w : W) → (H.now w).0 ≡ pos (clock w)
    pub goes_on : (w : W) → clock w + tick ≤ clock (H.now w).1
    pub keeps_get :
        (cfg : PluginConfig X) (run_id : Text) (w : W)
        → clock w ≤ clock (P.get_run_result cfg run_id w).1

  -- A time that is read is written in ASCII, which JSON keeps.
  abbrev pub KeepsTimes : IsCodec H → Type 0
  KeepsTimes codec = (text : Text) (t : ℤ) → H.parse_time text ≡ ok t → codec.coerce text ≡ text

  -- The controller's status is that of a run that was started at the time `t`.
  pub record Polling (t : ℕ) (status : Text) : Type 0 where
    pub state : StepState
    pub loaded : load_state H status ≡ ok state
    pub named : is_empty state.run_id ≡ false
    pub dated : H.parse_time state.triggered_at ≡ ok (pos t)
