-- ===== src/Step/Ends.antt =====
-- How a started call of the step plugin ends: what it adds to the log, and the state it returns.
use argo_rollouts_k6_plugin.Base.{
  ℤ, ℕ, ltbℤ, ◌+◌, ◌≤◌, ◌≡◌, inl, inr, refl, if◌then◌else◌, List, [], ◌∷◌, none, some, Result, ok,
  err, true, false, arith, Bool-cases, Result-cases, codes, ◌-ℤ◌,
}
use argo_rollouts_k6_plugin.Provider.Errors.{Fault}
use argo_rollouts_k6_plugin.Provider.Config.{Platform, PluginConfig}
use argo_rollouts_k6_plugin.Provider.Interface.{Provider, RunResult, RunState}
use argo_rollouts_k6_plugin.Step.Types.{
  get_run_result_error, parse_triggered_at, Host, StepState, RpcError, Reply,
}
use argo_rollouts_k6_plugin.Step.Traced.{
  Call, polled, Traced, traced, traced_host, cleanups, triggers,
}
use argo_rollouts_k6_plugin.Step.Plugin.{
  fold_reply, rpc_failure, saturate, needs_cleanup, elapsed_since, time_out, observed, conclude,
  poll, run_started,
}

abbrev pub pending : StepState → ℕ
pending s = if s.cleanup_done then 0 else 1

pub needs_cleanup-pending :
    (verdict : RunState) (s : StepState) → needs_cleanup verdict s ≡ true → s.cleanup_done ≡ false
unfolding needs_cleanup
needs_cleanup-pending verdict s e = ground arith

module _ {X : Platform} {W : Type 0} (H : Host X W) (P : Provider X W) where
  -- A started call fails with an RPC error and no status, or it returns a state of the same run,
  -- and `Cleanup` is called only where that state says for the first time that it was.
  pub data Ends (s : StepState) (cleans starts : ℕ) (out : Result Reply Reply × Traced W)
      : Type 0 where
    broken :
        (fold_reply out.0).0.status ≡ []
        → (e : RpcError) → (fold_reply out.0).1 ≡ some e
        → cleanups out.1.0 ≡ cleans
        → triggers out.1.0 ≡ starts
        → Ends s cleans starts out
    settled :
        (s' : StepState)
        → fold_reply out.0 ≡ (record (fold_reply out.0).0 { status = H.encode_state s' }, none)
        → s'.run_id ≡ s.run_id
        → cleanups out.1.0 + pending s' ≤ cleans + pending s
        → triggers out.1.0 ≡ starts
        → Ends s cleans starts out

  conclude-Ends :
      (cfg : PluginConfig X) (s : StepState) (result : RunResult X) (log : List Call) (w : W)
      → Ends s
          (cleanups log)
          (triggers log)
          (conclude (traced_host H) (traced P) cfg s result (log, w))
  unfolding conclude
  conclude-Ends cfg s result log w =
      elim (Bool-cases (needs_cleanup result.state (observed result s))) [
        | inl e ↦ rw e (
            settled (record (observed result s) { cleanup_done = true }) refl refl
              (ground (arith, needs_cleanup-pending result.state (observed result s) e)) refl)
        | inr e ↦ rw e (settled (observed result s) refl refl (omega arith) refl)
      ]

  poll-Ends :
      (cfg : PluginConfig X) (s : StepState) (log : List Call) (w : W)
      → Ends s (cleanups log) (triggers log) (poll (traced_host H) (traced P) cfg s (log, w))
  unfolding poll
  poll-Ends cfg s log w = elim (Result-cases (P.get_run_result cfg s.run_id w).0) [
    | inl (result, e) ↦ rw e (conclude-Ends cfg s result (polled s.run_id ∷ log) _)
    | inr (e, failed) ↦ rw failed (broken refl (get_run_result_error e) refl refl refl)
  ]

  time_out-Ends :
      (cfg : PluginConfig X) (timeout : ℤ) (s : StepState) (log : List Call) (w : W)
      → Ends s
          (cleanups log)
          (triggers log)
          (time_out (traced_host H) (traced P) cfg timeout s (log, w))
  unfolding time_out
  time_out-Ends cfg timeout s log w =
      settled (record s { final_status = codes "TimedOut" }) refl refl (omega arith) refl

  pub elapsed_since_ok :
      (s : StepState) (t : ℤ) (log : List Call) (w : W)
      → H.parse_time s.triggered_at ≡ ok t
      → elapsed_since (traced_host H) s.triggered_at (log, w)
        ≡ (ok (saturate ((H.now w).0 -ℤ t)), (log, (H.now w).1))
  unfolding elapsed_since
  elapsed_since_ok s t log w h = rw (h, elapsed_since)

  pub elapsed_since_err :
      (s : StepState) (e : Fault) (log : List Call) (w : W)
      → H.parse_time s.triggered_at ≡ err e
      → elapsed_since (traced_host H) s.triggered_at (log, w)
        ≡ (err (rpc_failure (parse_triggered_at e)), (log, w))
  unfolding elapsed_since
  elapsed_since_err s e log w h = rw (h, elapsed_since)

  pub run_started-Ends :
      (cfg : PluginConfig X) (timeout : ℤ) (s : StepState) (log : List Call) (w : W)
      → Ends s
          (cleanups log)
          (triggers log)
          (run_started (traced_host H) (traced P) cfg timeout s (log, w))
  unfolding run_started
  run_started-Ends cfg timeout s log w = elim (Result-cases (H.parse_time s.triggered_at)) [
    | inr (e, bad) ↦
        rw (elapsed_since_err s e log w bad) (broken refl (parse_triggered_at e) refl refl refl)
    | inl (t, good) ↦
        rw (elapsed_since_ok s t log w good)
          (elim (Bool-cases (ltbℤ timeout (saturate ((H.now w).0 -ℤ t)))) [
            | inl late ↦ rw late (time_out-Ends cfg timeout s log _)
            | inr early ↦ rw early (poll-Ends cfg s log _)
          ])
  ]
