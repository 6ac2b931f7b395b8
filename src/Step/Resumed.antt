-- ===== src/Step/Resumed.antt =====
-- What a call of `Run` on a run that was started before returns and does, and the calls that stop it.
use argo_rollouts_k6_plugin.Base.{
  ℤ, ◌-ℤ◌, ltbℤ, ◌≡◌, is_empty, if◌then◌else◌, Option, some, ok, err, Bool, true, false,
}
use argo_rollouts_k6_plugin.Provider.Errors.{Err}
use argo_rollouts_k6_plugin.Provider.Config.{Platform, PluginConfig}
use argo_rollouts_k6_plugin.Provider.Interface.{Provider, RunState, running}
use argo_rollouts_k6_plugin.Step.Types.{
  Host, StepContext, StepState, Rollout, empty_result, get_run_result_error,
}
use argo_rollouts_k6_plugin.Step.Config.{parse_config, parse_timeout, populate_from_rollout}
use argo_rollouts_k6_plugin.Step.Plugin.{
  load_state, ensure_started, elapsed_since, time_out, poll, run_started, run_configured, run_body,
  run, saturate, status_text, reply_of,
}

abbrev pub is_running : RunState → Bool
is_running running = true
is_running _ = false

module _ {X : Platform} {W : Type 0} (H : Host X W) (P : Provider X W) where
  -- A context with a valid configuration and the state of a run that was started at the time `t`.
  pub record Started (rollout : Option Rollout) (ctx : Option StepContext) (cfg : PluginConfig X)
      (timeout : ℤ) (s : StepState) (t : ℤ) : Type 0 where
    pub parsed : PluginConfig X
    pub accepted : parse_config H ctx ≡ ok parsed
    pub populated : populate_from_rollout parsed rollout ≡ cfg
    pub limited : parse_timeout H cfg.timeout ≡ ok timeout
    pub loaded : load_state H (status_text ctx) ≡ ok s
    pub named : is_empty s.run_id ≡ false
    pub dated : H.parse_time s.triggered_at ≡ ok t

  -- Whether the deadline has passed at the time that the clock shows, and the world behind it.
  abbrev pub is_late : ℤ → ℤ → W → Bool
  is_late timeout t w = ltbℤ timeout (saturate ((H.now w).0 -ℤ t))

  abbrev pub after_clock : W → W
  after_clock w = (H.now w).1

  module _ {rollout : Option Rollout} {ctx : Option StepContext} {cfg : PluginConfig X}
      {timeout : ℤ} {s : StepState} {t : ℤ} (started : Started rollout ctx cfg timeout s t) where
    elapsed_since_of_Started :
        (w : W)
        → elapsed_since H s.triggered_at w ≡ (ok (saturate ((H.now w).0 -ℤ t)), after_clock w)
    unfolding elapsed_since
    elapsed_since_of_Started w = rw (started.dated, elapsed_since)

    pub run_of_Started :
        (w : W)
        → run H P rollout ctx w
          ≡ reply_of (
              if is_late timeout t w
              then time_out H P cfg timeout s (after_clock w)
              else poll H P cfg s (after_clock w))
    unfolding run run_body run_configured ensure_started run_started
    run_of_Started w = rw (
      started.accepted,
      started.populated,
      started.limited,
      started.loaded,
      started.named,
      elapsed_since_of_Started w,
    )

    -- Before the deadline of such a run, where `GetRunResult` fails, `Run` returns an RPC error and no status, and
    -- makes no other call.
    run_unanswered :
        (w w' : W) (e : Err)
        → is_late timeout t w ≡ false
        → P.get_run_result cfg s.run_id (after_clock w) ≡ (err e, w')
        → run H P rollout ctx w ≡ ((empty_result, some (get_run_result_error e)), w')
    unfolding poll
    run_unanswered w w' e early answer = rw (run_of_Started w, early, answer)
