-- ===== src/Step/Control/Polls.antt =====
-- A call on a run that was started keeps the protocol.
use argo_rollouts_k6_plugin.Base.{
  ℤ, Text, ltbℤ, ◌≡◌, inl, inr, refl, List, [], ◌∷◌, Result, Bool, true, Bool-cases, Result-cases,
  codes, ◌-ℤ◌,
}
use argo_rollouts_k6_plugin.Provider.Config.{Platform, PluginConfig}
use argo_rollouts_k6_plugin.Provider.Interface.{Provider, RunResult}
use argo_rollouts_k6_plugin.Step.Types.{Host, StepState, Reply}
use argo_rollouts_k6_plugin.Step.Traced.{Call, polled, Traced, traced, traced_host}
use argo_rollouts_k6_plugin.Step.Protocol.{Follows, working, watch, stop, clean}
use argo_rollouts_k6_plugin.Step.Plugin.{
  fold_reply, needs_cleanup, time_out, observed, conclude, poll, run_started, saturate,
}
use argo_rollouts_k6_plugin.Step.Ends.{needs_cleanup-pending, elapsed_since_ok, elapsed_since_err}

module _ {X : Platform} {W : Type 0} (H : Host X W) (P : Provider X W) (store : Text → Text)
    (Given : Text → Type 0) where
  abbrev pub Keeps : Bool → StepState → List Call → Type 0
  Keeps saved s log = Follows store Given (working saved s.run_id s.cleanup_done) log

  -- Either no status is returned and nothing was cleaned up, or the status is that of the same run.
  pub data Kept (saved : Bool) (s : StepState) (out : Result Reply Reply × Traced W) : Type 0 where
    unsaved : (fold_reply out.0).0.status ≡ [] → Keeps saved s out.1.0 → Kept saved s out
    saved_as :
        (s' : StepState)
        → (fold_reply out.0).0.status ≡ H.encode_state s'
        → s'.run_id ≡ s.run_id
        → Keeps saved s' out.1.0
        → Kept saved s out

  conclude-Kept :
      (saved : Bool) (cfg : PluginConfig X) (s : StepState) (result : RunResult X) (log : List Call)
      (w : W)
      → Keeps saved s (polled s.run_id ∷ log)
      → Kept saved s (conclude (traced_host H) (traced P) cfg s result (polled s.run_id ∷ log, w))
  unfolding conclude
  conclude-Kept saved cfg s result log w f =
      elim (Bool-cases (needs_cleanup result.state (observed result s))) [
        | inl e ↦
            let down = needs_cleanup-pending result.state (observed result s) e in
            rw e (
              saved_as (record (observed result s) { cleanup_done = true }) refl refl
                (clean (rw down at f)))
        | inr e ↦ rw e (saved_as (observed result s) refl refl f)
      ]

  poll-Kept :
      (saved : Bool) (cfg : PluginConfig X) (s : StepState) (log : List Call) (w : W)
      → Keeps saved s log
      → Kept saved s (poll (traced_host H) (traced P) cfg s (log, w))
  unfolding poll
  poll-Kept saved cfg s log w f = elim (Result-cases (P.get_run_result cfg s.run_id w).0) [
    | inl (result, e) ↦ rw e (conclude-Kept saved cfg s result log _ (watch f))
    | inr (e, failed) ↦ rw failed (unsaved refl (watch f))
  ]

  time_out-Kept :
      (saved : Bool) (cfg : PluginConfig X) (timeout : ℤ) (s : StepState) (log : List Call) (w : W)
      → Keeps saved s log
      → Kept saved s (time_out (traced_host H) (traced P) cfg timeout s (log, w))
  unfolding time_out
  time_out-Kept saved cfg timeout s log w f =
      saved_as (record s { final_status = codes "TimedOut" }) refl refl (stop f)

  pub run_started-Kept :
      (saved : Bool) (cfg : PluginConfig X) (timeout : ℤ) (s : StepState) (log : List Call) (w : W)
      → Keeps saved s log
      → Kept saved s (run_started (traced_host H) (traced P) cfg timeout s (log, w))
  unfolding run_started
  run_started-Kept saved cfg timeout s log w f = elim (Result-cases (H.parse_time s.triggered_at)) [
    | inr (e, bad) ↦ rw (elapsed_since_err H P s e log w bad) (unsaved refl f)
    | inl (t, good) ↦
        rw (elapsed_since_ok H P s t log w good)
          (elim (Bool-cases (ltbℤ timeout (saturate ((H.now w).0 -ℤ t)))) [
            | inl late ↦ rw late (time_out-Kept saved cfg timeout s log _ f)
            | inr early ↦ rw early (poll-Kept saved cfg s log _ f)
          ])
  ]
