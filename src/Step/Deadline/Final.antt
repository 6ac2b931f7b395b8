-- ===== src/Step/Deadline/Final.antt =====
-- The final phase is reached: how a call of `Run` on a run that was started goes on, and that some call
-- ends it.
use argo_rollouts_k6_plugin.Base.{
  Text, ℕ, pos, ◌-ℤ◌, ltbℤ, ◌≡◌, ◌∙◌, ◌≤◌, ◌<◌, ◌+◌, ◌*◌, ◌⊎◌, inl, inr, refl, is_empty, List, [],
  ◌∷◌, Option, none, some, ok, Bool, true, false, ◌||◌, arith, Bool-cases, Result-cases, length,
  suc,
}
use argo_rollouts_k6_plugin.Provider.Config.{Platform, PluginConfig}
use argo_rollouts_k6_plugin.Provider.Interface.{Provider, RunResult, RunState, running}
use argo_rollouts_k6_plugin.Step.Types.{Host, IsCodec, StepState, Reply, Rollout, second}
use argo_rollouts_k6_plugin.Step.Config.{parse_config, parse_timeout, populate_from_rollout}
use argo_rollouts_k6_plugin.Step.Phases.{parse_timeout_iff}
use argo_rollouts_k6_plugin.Step.Plugin.{
  load_state, conclude, poll, saturate, needs_cleanup, reply_of, time_out, observed, reply_for,
  fold_reply,
}
use argo_rollouts_k6_plugin.Step.Starts.{
  next_status, load_state-encode_state, next_status-encode_state,
}
use argo_rollouts_k6_plugin.Step.Reconcile.{Loop, reconcile_once}
use argo_rollouts_k6_plugin.Step.Resumed.{Started, is_late, after_clock, run_of_Started, is_running}
use argo_rollouts_k6_plugin.Step.Deadline.{
  is_final, reply_at, ends_within, Ticks, KeepsTimes, Polling,
}

populate_from_rollout-timeout :
    {X : Platform} (cfg : PluginConfig X) (rollout : Option Rollout)
    → (populate_from_rollout cfg rollout).timeout ≡ cfg.timeout
unfolding populate_from_rollout
populate_from_rollout-timeout cfg none = refl
populate_from_rollout-timeout cfg (some r) = ground arith

-- A time that lies further back than the longest timeout allows is late.
saturate-late :
    (now t timeout : ℕ)
    → timeout ≤ 7200 * second
    → t + timeout < now
    → ltbℤ (pos timeout) (saturate (pos now -ℤ pos t)) ≡ true
unfolding ◌-ℤ◌
saturate-late now t timeout small late = ground arith

either_true : (a : Bool) {b : Bool} → b ≡ true → (a || b) ≡ true
either_true a {b} h = ground arith

-- One tick less is needed behind a call.
enough_later :
    (due now later tick n : ℕ)
    → due < now + suc n * tick
    → now + tick ≤ later
    → due < later + n * tick
enough_later due now later tick n h k = omega (arith, h, k)

is_running-cases : (s : RunState) → (s ≡ running) ⊎ (is_running s ≡ false)
is_running-cases s = ground arith

module _ {X : Platform} {W : Type 0} (H : Host X W) (P : Provider X W) (cfg : PluginConfig X)
    (s : StepState) (result : RunResult X) (w : W) where
  conclude_running :
      result.state ≡ running
      → conclude H P cfg s result w ≡ (ok (reply_for H running (observed result s)), w)
  unfolding conclude needs_cleanup
  conclude_running same = rw same refl

  conclude_ended :
      is_running result.state ≡ false
      → is_final (fold_reply (conclude H P cfg s result w).0).0.phase ≡ true
  unfolding conclude needs_cleanup
  conclude_ended ended = ground arith

module _ {X : Platform} {W : Type 0} (H : Host X W) (P : Provider X W) (codec : IsCodec H)
    (times : KeepsTimes H P codec) {clock : W → ℕ} {tick : ℕ} (ticks : Ticks H P clock tick)
    (config : Text) {cfg : PluginConfig X} {timeout : ℕ}
    (accepted : (status : Text)
      → parse_config H (some (record { config = config; status = status })) ≡ ok cfg)
    (limited : parse_timeout H cfg.timeout ≡ ok (pos timeout)) where
  timeout_small : timeout ≤ 7200 * second
  timeout_small = ground (arith, (parse_timeout_iff H cfg.timeout (pos timeout)).0 limited)

  started_of_Polling :
      (t : ℕ) (l : Loop W) (rollout : Option Rollout) (p : Polling H P t l.status)
      → Started H P rollout
          (some (record { config = config; status = l.status }))
          (populate_from_rollout cfg rollout)
          (pos timeout)
          p.state
          (pos t)
  started_of_Polling t l rollout p = record {
    parsed = cfg;
    accepted = accepted l.status;
    populated = refl;
    limited = rw (populate_from_rollout-timeout cfg rollout) limited;
    loaded = p.loaded;
    named = p.named;
    dated = p.dated;
  }

  late-is_final :
      (t : ℕ) (l : Loop W) (rollout : Option Rollout)
      → Polling H P t l.status
      → t + timeout < clock l.world
      → is_final (reply_at H P config rollout l).0.0.phase ≡ true
  unfolding time_out
  late-is_final t l rollout p late =
      let is_behind : is_late H P (pos timeout) (pos t) l.world ≡ true =
        rw (ticks.shows l.world) (saturate-late (clock l.world) t timeout timeout_small late) in
      rw (run_of_Started H P (started_of_Polling t l rollout p) l.world, is_behind) refl

  -- Between two calls: the run is still polled, and the clock has gone on.
  record Advances (t : ℕ) (w : W) (status : Text) (w' : W) : Type 0 where
    polling : Polling H P t status
    later : clock w + tick ≤ clock w'

  Polling-encode_state :
      (t : ℕ) (status : Text) (s : StepState) (reply : Reply)
      → is_empty s.run_id ≡ false
      → H.parse_time s.triggered_at ≡ ok (pos t)
      → reply.0.status ≡ H.encode_state s
      → Polling H P t (next_status status reply)
  Polling-encode_state t status s reply named dated same =
      rw (next_status-encode_state H codec s status reply same) (record {
        state = _;
        loaded = load_state-encode_state H codec s ∙ codec.decode-encode s;
        named = ground (arith, codec.coerce_nil s.run_id);
        dated = rw (times s.triggered_at (pos t) dated) dated;
      })

  conclude-Advances :
      (t : ℕ) (status : Text) (cfg' : PluginConfig X) (s : StepState) (result : RunResult X)
      (w w' : W)
      → is_empty s.run_id ≡ false
      → H.parse_time s.triggered_at ≡ ok (pos t)
      → clock w + tick ≤ clock w'
      → let (reply, w2) = reply_of (conclude H P cfg' s result w') in
        (is_final reply.0.phase ≡ true) ⊎ Advances t w (next_status status reply) w2
  unfolding conclude needs_cleanup
  conclude-Advances t status cfg' s result w w' named dated later =
      elim (is_running-cases result.state) [
        | inr ended ↦ inl (conclude_ended H P cfg' s result w' ended)
        | inl same ↦ rw (conclude_running H P cfg' s result w' same) (
            inr (record {
              polling =
                  Polling-encode_state t status (observed result s)
                    (reply_for H running (observed result s)) named dated refl;
              later = later;
            }))
      ]

  poll-Advances :
      (t : ℕ) (status : Text) (cfg' : PluginConfig X) (s : StepState) (w : W)
      → Polling H P t status
      → load_state H status ≡ ok s
      → is_empty s.run_id ≡ false
      → H.parse_time s.triggered_at ≡ ok (pos t)
      → let (reply, w') = reply_of (poll H P cfg' s (after_clock H P w)) in
        (is_final reply.0.phase ≡ true) ⊎ Advances t w (next_status status reply) w'
  unfolding poll
  poll-Advances t status cfg' s w p loaded named dated =
      let w' = after_clock H P w in
      let more : clock w + tick ≤ clock (P.get_run_result cfg' s.run_id w').1 =
        omega (arith, ticks.goes_on w, ticks.keeps_get cfg' s.run_id w') in
      elim (Result-cases (P.get_run_result cfg' s.run_id w').0) [
        | inl (result, answer) ↦
            rw (poll, answer) (conclude-Advances t status cfg' s result w _ named dated more)
        | inr (e, failed) ↦ rw (poll, failed) (inr (record { polling = p; later = more }))
      ]

  reconcile_once-Advances :
      (t : ℕ) (l : Loop W) (rollout : Option Rollout)
      → Polling H P t l.status
      → let l' = reconcile_once H P config rollout l in
        (is_final (reply_at H P config rollout l).0.0.phase ≡ true)
        ⊎ Advances t l.world l'.status l'.world
  unfolding time_out
  reconcile_once-Advances t l rollout p =
      let run_is = run_of_Started H P (started_of_Polling t l rollout p) l.world in
      elim (Bool-cases (is_late H P (pos timeout) (pos t) l.world)) [
        | inl late ↦ inl (rw (run_is, late) refl)
        | inr early ↦
            rw (run_is, early)
              (poll-Advances t l.status (populate_from_rollout cfg rollout) p.state l.world p
                p.loaded p.named p.dated)
      ]

  -- A controller that goes on calling `Run` on a run that was started at the time `t` gets a final phase
  -- from one of its calls, once there are enough of them for the clock to pass the deadline, whatever
  -- the backend answers, errors included. This supposes that the clock goes on by `tick` at least
  -- with each reading and the backend does not turn it back, that the step's configuration is valid, and
  -- that the encoded state is decoded as the JSON library documents.
  pub run-ends_within :
      (t : ℕ) (rollout : Option Rollout) (rollouts : List (Option Rollout)) (l : Loop W)
      → Polling H P t l.status
      → t + timeout < clock l.world + length rollouts * tick
      → ends_within H P config (rollout ∷ rollouts) l ≡ true
  unfolding ends_within
  run-ends_within t rollout [] l p enough =
      rw (late-is_final t l rollout p (omega (arith, enough))) refl
  run-ends_within t rollout (next ∷ rollouts) l p enough =
      elim (reconcile_once-Advances t l rollout p) [
        | inl final ↦ rw final refl
        | inr a ↦
            let rest =
              run-ends_within t next rollouts (reconcile_once H P config rollout l) a.polling
                (enough_later _ (clock l.world) _ tick (length rollouts) enough a.later) in
            either_true _ rest
      ]
