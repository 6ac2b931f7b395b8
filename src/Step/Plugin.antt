-- ===== src/Step/Plugin.antt =====
-- `Run`, `Terminate` and `Abort` of internal/step/step.go. The early returns of `Run` are errors of
-- the effect, so that its body reads from top to bottom.
use argo_rollouts_k6_plugin.Base.{
  Text, ℤ, pos, negsuc, ◌-ℤ◌, ltbℤ, is_empty, if◌then◌else◌, Bool, true, false, not, ◌&&◌, Option,
  none, some, Result, ok, err, wrap_error, Eff, ◌>>=◌, pure, wrapping, codes, ◌^◌, ◌-◌, [],
}
use argo_rollouts_k6_plugin.Provider.Errors.{Err, Fault}
use argo_rollouts_k6_plugin.Provider.Config.{Platform, PluginConfig}
use argo_rollouts_k6_plugin.Provider.Interface.{
  Provider, RunResult, RunState, running, passed, failed, errored, aborted, state_name,
}
use argo_rollouts_k6_plugin.Step.Types.{
  Host, StepContext, StepState, zero_state, StepPhase, phase_running, phase_successful,
  phase_failed, StepMessage, no_message, run_errored, run_aborted, error_text, timed_out_after,
  empty_result, RpcError, unmarshal_step_state, parse_triggered_at, trigger_run_error,
  get_run_result_error, Reply, Rollout, requeue_interval,
}
use argo_rollouts_k6_plugin.Step.Config.{parse_config, parse_timeout, populate_from_rollout}

abbrev pub phase_of : RunState → StepPhase
phase_of running = phase_running
phase_of passed = phase_successful
phase_of _ = phase_failed

abbrev pub message_of : RunState → StepMessage
message_of errored = run_errored
message_of aborted = run_aborted
message_of _ = no_message

abbrev pub requeue_of : RunState → ℤ
requeue_of running = requeue_interval
requeue_of _ = pos 0

-- `state.FinalStatus` behind the `switch`: a running run leaves it alone.
abbrev pub final_status_of : RunState → Text → Text
final_status_of running old = old
final_status_of s old = state_name s

abbrev pub is_success_path : RunState → Bool
is_success_path passed = true
is_success_path failed = true
is_success_path errored = true
is_success_path _ = false

-- The test of the cleanup hook, `isSuccessPathTerminal` and the guards beside it.
unfoldable pub needs_cleanup : RunState → StepState → Bool
needs_cleanup run state =
    is_success_path run && (not state.cleanup_done && not (is_empty state.run_id))

-- A `time.Duration` holds 64 bits, and `time.Since` stops at its ends.
abbrev pub saturate : ℤ → ℤ
saturate d =
    if ltbℤ (pos (2 ^ 63 - 1)) d
    then pos (2 ^ 63 - 1)
    else if ltbℤ d (negsuc (2 ^ 63 - 1))
    then negsuc (2 ^ 63 - 1)
    else d

abbrev pub failed_with : Err → Reply
failed_with e = (record empty_result { phase = phase_failed; message = error_text e }, none)

abbrev pub rpc_failure : RpcError → Reply
rpc_failure e = (empty_result, some e)

-- A result, or the early return, is the reply.
abbrev pub fold_reply : Result Reply Reply → Reply
fold_reply (ok r) = r
fold_reply (err r) = r

abbrev pub reply_of : {W : Type 0} → Result Reply Reply × W → Reply × W
reply_of (r, w) = (fold_reply r, w)

abbrev pub status_text : Option StepContext → Text
status_text none = []
status_text (some ctx) = ctx.status

module _ {X : Platform} where
  abbrev pub observed : RunResult X → StepState → StepState
  observed result state = record state {
    test_run_url = result.test_run_url;
    final_status = final_status_of result.state state.final_status;
  }

module _ {X : Platform} {W : Type 0} (H : Host X W) where
  unfoldable pub load_state : Text → Result Fault StepState
  load_state status = if is_empty status then ok zero_state else H.decode_state status

  abbrev stamp : StepState → Text → Eff W Reply StepState
  stamp state run_id w =
      let (t, w') = H.now w in
      (ok (record state { run_id = run_id; triggered_at = H.format_time t }), w')

  -- How long ago the run was triggered.
  unfoldable pub elapsed_since : Text → Eff W Reply ℤ
  elapsed_since triggered_at w = elim (H.parse_time triggered_at) [
    | err e ↦ (err (rpc_failure (parse_triggered_at e)), w)
    | ok t ↦ let (n, w') = H.now w in (ok (saturate (n -ℤ t)), w')
  ]

  abbrev pub reply_for : RunState → StepState → Reply
  reply_for run state = (
    record {
      phase = phase_of run;
      message = message_of run;
      requeue_after = requeue_of run;
      status = H.encode_state state;
    },
    none,
  )

module _ {X : Platform} {W : Type 0} (H : Host X W) (P : Provider X W) where
  -- The run ID of a first call.
  unfoldable pub obtain_run : PluginConfig X → Eff W Reply Text
  obtain_run cfg w =
      if is_empty cfg.test_run_id
      then wrapping (λ e. rpc_failure (trigger_run_error e)) (P.trigger_run cfg) w
      else (ok cfg.test_run_id, w)

  -- A first call is one whose state has no run ID.
  unfoldable pub ensure_started : PluginConfig X → StepState → Eff W Reply StepState
  ensure_started cfg state w =
      if is_empty state.run_id
      then (do run_id ← obtain_run cfg; stamp H state run_id) w
      else (ok state, w)

  -- The branch of an exceeded timeout; an error of `StopRun` is only logged.
  unfoldable pub time_out : PluginConfig X → ℤ → StepState → Eff W Reply Reply
  time_out cfg timeout state w =
      let (_, w') = P.stop_run cfg state.run_id w in
      (
        ok (
          record {
            phase = phase_failed;
            message = timed_out_after timeout;
            requeue_after = pos 0;
            status = H.encode_state (record state { final_status = codes "TimedOut" });
          },
          none,
        ),
        w',
      )

  -- Everything behind `GetRunResult`; an error of `Cleanup` is only logged.
  unfoldable pub conclude : PluginConfig X → StepState → RunResult X → Eff W Reply Reply
  conclude cfg old result w =
      let state = observed result old in
      if needs_cleanup result.state state
      then (
        ok (reply_for H result.state (record state { cleanup_done = true })),
        (P.cleanup cfg state.run_id w).1,
      )
      else (ok (reply_for H result.state state), w)

  unfoldable pub poll : PluginConfig X → StepState → Eff W Reply Reply
  poll cfg state = do
    result ←
        wrapping (λ e. rpc_failure (get_run_result_error e)) (P.get_run_result cfg state.run_id)
    conclude cfg state result

  unfoldable pub run_started : PluginConfig X → ℤ → StepState → Eff W Reply Reply
  run_started cfg timeout state = do
    elapsed ← elapsed_since H state.triggered_at
    λ w. if ltbℤ timeout elapsed then time_out cfg timeout state w else poll cfg state w

  -- `Run` behind `populateFromRollout`.
  unfoldable pub run_configured : PluginConfig X → Text → Eff W Reply Reply
  run_configured cfg status = do
    timeout ← pure (wrap_error failed_with (parse_timeout H cfg.timeout))
    loaded ← pure (wrap_error (λ f. rpc_failure (unmarshal_step_state f)) (load_state H status))
    state ← ensure_started cfg loaded
    run_started cfg timeout state

  unfoldable pub run_body : Option Rollout → Option StepContext → Eff W Reply Reply
  run_body rollout ctx = do
    parsed ← pure (wrap_error failed_with (parse_config H ctx))
    run_configured (populate_from_rollout parsed rollout) (status_text ctx)

  unfoldable pub run : Option Rollout → Option StepContext → W → Reply × W
  unfolding run_body
  run rollout ctx w = reply_of (run_body rollout ctx w)

  -- `StopRun` on the run of the persisted state, if there is one.
  abbrev pub stop_loaded : PluginConfig X → Result Fault StepState → W → W
  stop_loaded cfg (err e) w = w
  stop_loaded cfg (ok state) w =
      if is_empty state.run_id then w else (P.stop_run cfg state.run_id w).1

  unfoldable pub stop_active_run : Option Rollout → Option StepContext → W → W
  stop_active_run rollout ctx w = elim (parse_config H ctx) [
    | err e ↦ w
    | ok cfg ↦ stop_loaded (populate_from_rollout cfg rollout) (load_state H (status_text ctx)) w
  ]

  unfoldable pub terminate : Option Rollout → Option StepContext → W → Reply × W
  terminate rollout ctx w = ((empty_result, none), stop_active_run rollout ctx w)

  unfoldable pub abort : Option Rollout → Option StepContext → W → Reply × W
  abort rollout ctx w = ((empty_result, none), stop_active_run rollout ctx w)
