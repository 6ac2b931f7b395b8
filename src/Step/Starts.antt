-- ===== src/Step/Starts.antt =====
-- One call of `Run` in the traced world: what it adds to the log, and the status that it leaves.
use argo_rollouts_k6_plugin.Base.{
  Text, ℤ, ℕ, ◌+◌, ◌≤◌, ◌≡◌, ◌≢◌, inl, inr, refl, is_empty, if◌then◌else◌, List, [], Option, none,
  some, Result, ok, err, false, arith, Bool-cases, Result-cases, continue, ap,
}
use argo_rollouts_k6_plugin.Provider.Errors.{Fault}
use argo_rollouts_k6_plugin.Provider.Config.{Platform, PluginConfig}
use argo_rollouts_k6_plugin.Provider.Interface.{Provider}
use argo_rollouts_k6_plugin.Step.Types.{
  Host, IsCodec, StepContext, StepState, RpcError, Reply, Rollout, trigger_run_error,
  unmarshal_step_state,
}
use argo_rollouts_k6_plugin.Step.Config.{parse_config, parse_timeout, populate_from_rollout}
use argo_rollouts_k6_plugin.Step.Traced.{Call, Traced, traced, traced_host, cleanups, triggers}
use argo_rollouts_k6_plugin.Step.Plugin.{
  fold_reply, failed_with, load_state, obtain_run, ensure_started, run_started, rpc_failure,
  run_configured, run_body,
}
use argo_rollouts_k6_plugin.Step.Ends.{pending, Ends, broken, settled, run_started-Ends}

abbrev pub unstarted : StepState → ℕ
unstarted s = if is_empty s.run_id then 1 else 0

abbrev pub failures : Reply → ℕ
failures (r, none) = 0
failures (r, some e) = 1

-- `TriggerRun` returns no empty run ID.
abbrev pub NamesRuns : {X : Platform} {W : Type 0} → Provider X W → Type 0
NamesRuns {X} {W} P = (cfg : PluginConfig X) (w : W) → (P.trigger_run cfg w).0 ≢ ok []

module _ {X : Platform} {W : Type 0} (H : Host X W) (P : Provider X W) where
  -- What a first call has done before its deadline is checked.
  data Starts (s : StepState) (cleans starts : ℕ) (out : Result Reply StepState × Traced W)
      : Type 0 where
    unable :
        (e : RpcError)
        → out.0 ≡ err (rpc_failure e)
        → cleanups out.1.0 ≡ cleans
        → triggers out.1.0 ≤ starts + 1
        → Starts s cleans starts out
    able :
        (s' : StepState)
        → out.0 ≡ ok s'
        → is_empty s'.run_id ≡ false
        → pending s' ≡ pending s
        → cleanups out.1.0 ≡ cleans
        → triggers out.1.0 ≤ starts + unstarted s
        → Starts s cleans starts out

  -- What a call of `Run` on a loaded state does.
  data Ran (s : StepState) (cleans starts : ℕ) (out : Result Reply Reply × Traced W) : Type 0 where
    lost :
        (fold_reply out.0).0.status ≡ []
        → cleanups out.1.0 ≡ cleans
        → triggers out.1.0 ≤ starts + failures (fold_reply out.0)
        → Ran s cleans starts out
    kept :
        (s' : StepState)
        → (fold_reply out.0).0.status ≡ H.encode_state s'
        → is_empty s'.run_id ≡ false
        → cleanups out.1.0 + pending s' ≤ cleans + pending s
        → triggers out.1.0 ≤ starts + unstarted s
        → Ran s cleans starts out

  module _ (names : NamesRuns P) where
    ensure_started-Starts :
        (cfg : PluginConfig X) (s : StepState) (log : List Call) (w : W)
        → Starts s
            (cleanups log)
            (triggers log)
            (ensure_started (traced_host H) (traced P) cfg s (log, w))
    unfolding ensure_started obtain_run
    ensure_started-Starts cfg s log w = elim (Bool-cases (is_empty s.run_id)) [
      | inr old ↦ rw old (able s refl old refl refl (omega arith))
      | inl new ↦ elim (Bool-cases (is_empty cfg.test_run_id)) [
        | inr given ↦ rw (new, given) (able _ refl given refl refl (omega arith))
        | inl absent ↦ elim (Result-cases (P.trigger_run cfg w).0) [
          | inr (e, bad) ↦
              rw (new, absent, bad) (unable (trigger_run_error e) refl refl (omega arith))
          | inl (run_id, good) ↦
              rw (new, absent, good)
                (able _ refl (ground (arith, names cfg w)) refl refl (ground arith))
        ]
      ]
    ]

    settled-Ran :
        (s s' : StepState) (cleans cleans' starts starts' : ℕ) (out : Result Reply Reply × Traced W)
        → is_empty s'.run_id ≡ false
        → pending s' ≡ pending s
        → cleans' ≡ cleans
        → starts' ≤ starts + unstarted s
        → Ends H P s' cleans' starts' out
        → Ran s cleans starts out
    settled-Ran s s' cleans cleans' starts starts' out named same eq few
          (broken no_status e failed c t) =
        lost no_status (omega arith) (ground arith)
    settled-Ran s s' cleans cleans' starts starts' out named same eq few
          (settled s'' reply same_run c t) =
        kept s'' (ap (λ (r : Reply). r.0.status) reply) (rw same_run named) (omega arith)
          (omega arith)

    advance-Ran :
        (cfg : PluginConfig X) (timeout : ℤ) (s : StepState) (log : List Call) (w : W)
        → Ran s (cleanups log) (triggers log) (
            continue
              (run_started (traced_host H) (traced P) cfg timeout)
              (ensure_started (traced_host H) (traced P) cfg s (log, w)))
    advance-Ran cfg timeout s log w = go _ (ensure_started-Starts cfg s log w)
      where
        go :
            (out : Result Reply StepState × Traced W)
            → Starts s (cleanups log) (triggers log) out
            → Ran s
                (cleanups log)
                (triggers log)
                (continue (run_started (traced_host H) (traced P) cfg timeout) out)
        go (r, (log', w')) (unable e failed c t) = rw failed (lost refl c t)
        go (r, (log', w')) (able s' started named same c t) = rw started (
            settled-Ran s s' _ _ _ _ _ named same c t (run_started-Ends H P cfg timeout s' log' w'))

-- The status that the next call gets: the last one that a call returned.
abbrev pub next_status : Text → Reply → Text
next_status old r = if is_empty r.0.status then old else r.0.status

abbrev pub owed : Result Fault StepState → ℕ
owed (ok s) = pending s
owed (err e) = 0

abbrev pub due : Result Fault StepState → ℕ
due (ok s) = unstarted s
due (err e) = 0

module _ {X : Platform} {W : Type 0} (H : Host X W) where
  -- What a call with a status adds to the counts, against what the status that follows it leaves to
  -- be done.
  pub record Accounts (status : Text) (cleans starts : ℕ) (out : Result Reply Reply × Traced W)
      : Type 0 where
    pub cleaning :
        cleanups out.1.0 + owed (load_state H (next_status status (fold_reply out.0)))
        ≤ cleans + owed (load_state H status)
    pub starting :
        triggers out.1.0 + due (load_state H (next_status status (fold_reply out.0)))
        ≤ starts + due (load_state H status) + failures (fold_reply out.0)

  module _ (codec : IsCodec H) (s : StepState) where
    pub load_state-encode_state :
        load_state H (H.encode_state s) ≡ H.decode_state (H.encode_state s)
    unfolding load_state
    load_state-encode_state = ground (arith, codec.encode-ne-nil s)

    owed-encode_state : owed (load_state H (H.encode_state s)) ≡ pending s
    owed-encode_state = rw (load_state-encode_state, codec.decode-encode s)

    due-encode_state : is_empty s.run_id ≡ false → due (load_state H (H.encode_state s)) ≡ 0
    due-encode_state named =
        rw (load_state-encode_state, codec.decode-encode s)
          (ground (arith, codec.coerce_nil s.run_id))

    pub next_status-encode_state :
        (old : Text) (r : Reply)
        → r.0.status ≡ H.encode_state s
        → next_status old r ≡ H.encode_state s
    next_status-encode_state old r e = rw e (ground (arith, codec.encode-ne-nil s))

  Ran-Accounts :
      (P : Provider X W) (codec : IsCodec H) (status : Text) (s : StepState) (cleans starts : ℕ)
      (out : Result Reply Reply × Traced W)
      → load_state H status ≡ ok s
      → Ran H P s cleans starts out
      → Accounts status cleans starts out
  Ran-Accounts P codec status s cleans starts out loaded (lost no_status c t) = record {
    cleaning = rw (no_status, loaded) (omega arith);
    starting = rw (no_status, loaded) (omega arith);
  }
  Ran-Accounts P codec status s cleans starts out loaded (kept s' reply named c t) =
      let same = next_status-encode_state codec s' status (fold_reply out.0) reply in
      record {
        cleaning = rw (same, loaded) (omega (arith, owed-encode_state codec s'));
        starting = rw (same, loaded) (omega (arith, due-encode_state codec s' named));
      }

  -- A call that returns no status and touches nothing.
  idle-Accounts :
      (status : Text) (log : List Call) (r : Reply) (w : W)
      → r.0.status ≡ []
      → Accounts status (cleanups log) (triggers log) (err r, (log, w))
  idle-Accounts status log r w e = record {
    cleaning = rw e (omega arith);
    starting = rw e (omega arith);
  }

  pub load_state-traced_host :
      (status : Text) → load_state (traced_host H) status ≡ load_state H status
  unfolding load_state
  load_state-traced_host status = refl

module _ {X : Platform} {W : Type 0} (H : Host X W) (P : Provider X W) (codec : IsCodec H)
    (names : NamesRuns P) where
  run_configured-Accounts :
      (cfg : PluginConfig X) (status : Text) (log : List Call) (w : W)
      → Accounts H status
          (cleanups log)
          (triggers log)
          (run_configured (traced_host H) (traced P) cfg status (log, w))
  unfolding run_configured
  run_configured-Accounts cfg status log w =
      elim (Result-cases (parse_timeout (traced_host H) cfg.timeout)) [
        | inr (e, bad) ↦ rw bad (idle-Accounts H status log (failed_with e) w refl)
        | inl (timeout, good) ↦ elim (Result-cases (load_state H status)) [
          | inr (e, bad) ↦
              rw (good, load_state-traced_host H status, bad)
                (idle-Accounts H status log (rpc_failure (unmarshal_step_state e)) w refl)
          | inl (s, loaded) ↦
              rw (good, load_state-traced_host H status, loaded)
                (Ran-Accounts H P codec status s _ _ _ loaded
                  (advance-Ran H P names cfg timeout s log w))
        ]
      ]

  pub run_body-Accounts :
      (rollout : Option Rollout) (config status : Text) (log : List Call) (w : W)
      → Accounts H status (cleanups log) (triggers log) (
          run_body
            (traced_host H)
            (traced P)
            rollout
            (some (record { config = config; status = status }))
            (log, w))
  unfolding run_body
  run_body-Accounts rollout config status log w =
      let ctx : Option StepContext = some (record { config = config; status = status }) in
      elim (Result-cases (parse_config (traced_host H) ctx)) [
        | inr (e, bad) ↦ rw bad (idle-Accounts H status log (failed_with e) w refl)
        | inl (parsed, good) ↦
            rw good (run_configured-Accounts (populate_from_rollout parsed rollout) status log w)
      ]
