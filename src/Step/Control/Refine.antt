-- ===== src/Step/Control/Refine.antt =====
-- The step plugin refines the protocol: the calls that it makes on a backend, whatever the controller
-- requests, are a log of the abstract machine, and the status is the stage that the log leads to.
use argo_rollouts_k6_plugin.Base.{
  Text, ℤ, ◌≤◌, ◌≡◌, ◌∙◌, inl, inr, refl, is_empty, List, [], ◌∷◌, Option, none, some, Result, ok,
  err, true, false, arith, Bool-cases, Result-cases, continue, Bool,
}
use argo_rollouts_k6_plugin.Provider.Config.{Platform, PluginConfig}
use argo_rollouts_k6_plugin.Provider.Interface.{Provider}
use argo_rollouts_k6_plugin.Step.Types.{
  Host, IsCodec, StepContext, StepState, Reply, Rollout, zero_state, trigger_run_error,
}
use argo_rollouts_k6_plugin.Step.Config.{parse_config, parse_timeout, populate_from_rollout}
use argo_rollouts_k6_plugin.Step.Traced.{Call, Traced, traced, traced_host, cleanups}
use argo_rollouts_k6_plugin.Step.Protocol.{
  Follows, Follows-cleanups, lowered, idle, working, begin_log, fail_start, start, take_over, stop,
  save, lose, stage_of,
}
use argo_rollouts_k6_plugin.Step.Plugin.{
  fold_reply, load_state, obtain_run, ensure_started, run_started, rpc_failure, run_configured,
  run_body, run, terminate, abort, stop_active_run, stop_loaded,
}
use argo_rollouts_k6_plugin.Step.Starts.{
  NamesRuns, next_status, load_state-encode_state, load_state-traced_host, next_status-encode_state,
}
use argo_rollouts_k6_plugin.Step.Reconcile.{Loop, fresh}
use argo_rollouts_k6_plugin.Step.Control.{
  Request, call_run, call_terminate, call_abort, control, control_once,
}
use argo_rollouts_k6_plugin.Step.Control.Polls.{Keeps, Kept, unsaved, saved_as, run_started-Kept}

-- The run that a step's configuration names, to be judged without being started.
abbrev pub IsGiven : {X : Platform} {W : Type 0} → Host X W → Text → Text → Type 0
IsGiven {X} H config run_id =
    (cfg : PluginConfig X) × (parse_config H (some (record { config = config; status = [] }))
      ≡ ok cfg)
    × (run_id ≡ cfg.test_run_id)

module _ {X : Platform} {W : Type 0} (H : Host X W) (P : Provider X W) (codec : IsCodec H)
    (names : NamesRuns P) (config : Text) where
  -- The status and the log that the controller and the backend have between two calls.
  data Agrees (status : Text) (log : List Call) : Type 0 where
    at_rest : status ≡ [] → Follows codec.coerce (IsGiven H config) idle log → Agrees status log
    at_work :
        (s : StepState)
        → load_state H status ≡ ok s
        → is_empty s.run_id ≡ false
        → Follows codec.coerce (IsGiven H config) (working true s.run_id s.cleanup_done) log
        → Agrees status log

  -- The state behind the start of a run, which is not saved yet if the call started it.
  data Begun (out : Result Reply StepState × Traced W) : Type 0 where
    unable :
        (r : Reply)
        → out.0 ≡ err r
        → r.0.status ≡ []
        → Follows codec.coerce (IsGiven H config) idle out.1.0
        → Begun out
    able :
        (s : StepState)
        → out.0 ≡ ok s
        → is_empty s.run_id ≡ false
        → s.cleanup_done ≡ false
        → Follows codec.coerce (IsGiven H config) (working false s.run_id false) out.1.0
        → Begun out

  obtain_run-Begun :
      (cfg : PluginConfig X) (log : List Call) (w : W)
      → IsGiven H config cfg.test_run_id
      → Follows codec.coerce (IsGiven H config) idle log
      → Begun (ensure_started (traced_host H) (traced P) cfg zero_state (log, w))
  unfolding ensure_started obtain_run
  obtain_run-Begun cfg log w is_given f = elim (Bool-cases (is_empty cfg.test_run_id)) [
    | inr given ↦ rw given (able _ refl given refl (take_over given is_given f))
    | inl absent ↦ elim (Result-cases (P.trigger_run cfg w).0) [
      | inr (e, bad) ↦
          rw (absent, bad) (unable (rpc_failure (trigger_run_error e)) refl refl (fail_start f))
      | inl (run_id, good) ↦
          let named : is_empty run_id ≡ false = ground (arith, names cfg w) in
          rw (absent, good) (able _ refl named refl (start named f))
    ]
  ]

  Kept-Agrees :
      (saved : Bool) (status : Text) (s : StepState) (out : Result Reply Reply × Traced W)
      → is_empty s.run_id ≡ false
      → (Keeps H P codec.coerce (IsGiven H config) saved s out.1.0 → Agrees status out.1.0)
      → Kept H P codec.coerce (IsGiven H config) saved s out
      → Agrees (next_status status (fold_reply out.0)) out.1.0
  Kept-Agrees saved status s out named back (unsaved none_new f) = rw none_new (back f)
  Kept-Agrees saved status s out named back (saved_as s' reply same f) =
      let named' : is_empty s'.run_id ≡ false = rw same named in
      rw (next_status-encode_state H codec s' status (fold_reply out.0) reply) (
        at_work _ (load_state-encode_state H codec s' ∙ codec.decode-encode s')
          (ground (arith, codec.coerce_nil s'.run_id)) (save f))

  Begun-Agrees :
      (cfg : PluginConfig X) (timeout : ℤ) (out : Result Reply StepState × Traced W)
      → Begun out
      → let out' = continue (run_started (traced_host H) (traced P) cfg timeout) out in
        Agrees (next_status [] (fold_reply out'.0)) out'.1.0
  Begun-Agrees cfg timeout (r, (log, w)) (unable reply failed none_new f) =
      rw (failed, none_new) (at_rest refl f)
  Begun-Agrees cfg timeout (r, (log, w)) (able s started named down f) = rw started (
      Kept-Agrees false [] s _ named (λ f'. at_rest refl (lose ((lowered down).0 f')))
        (run_started-Kept H P codec.coerce (IsGiven H config) false cfg timeout s log w
          ((lowered down).1 f)))

  resumed-Agrees :
      (cfg : PluginConfig X) (timeout : ℤ) (status : Text) (s : StepState) (log : List Call) (w : W)
      → load_state H status ≡ ok s
      → is_empty s.run_id ≡ false
      → Follows codec.coerce (IsGiven H config) (working true s.run_id s.cleanup_done) log
      → let out =
          continue
            (run_started (traced_host H) (traced P) cfg timeout)
            (ensure_started (traced_host H) (traced P) cfg s (log, w)) in
        Agrees (next_status status (fold_reply out.0)) out.1.0
  unfolding ensure_started
  resumed-Agrees cfg timeout status s log w loaded named f =
      rw (ensure_started, named)
        (Kept-Agrees true status s _ named (at_work s loaded named)
          (run_started-Kept H P codec.coerce (IsGiven H config) true cfg timeout s log w f))

  -- A call that returns no status and touches nothing.
  idle-Agrees :
      (status : Text) (log : List Call) (r : Reply)
      → r.0.status ≡ []
      → Agrees status log
      → Agrees (next_status status r) log
  idle-Agrees status log r e a = rw e a

  load_state-nil : load_state (traced_host H) [] ≡ ok zero_state
  unfolding load_state
  load_state-nil = refl

  run_limited-Agrees :
      (cfg : PluginConfig X) (timeout : ℤ) (status : Text) (log : List Call) (w : W)
      → IsGiven H config cfg.test_run_id
      → parse_timeout (traced_host H) cfg.timeout ≡ ok timeout
      → Agrees status log
      → let out = run_configured (traced_host H) (traced P) cfg status (log, w) in
        Agrees (next_status status (fold_reply out.0)) out.1.0
  unfolding run_configured
  run_limited-Agrees cfg timeout status log w is_given good (at_rest none_yet f) =
      rw (run_configured, good, none_yet, load_state-nil)
        (Begun-Agrees cfg timeout _ (obtain_run-Begun cfg log w is_given f))
  run_limited-Agrees cfg timeout status log w is_given good (at_work s loaded named f) =
      rw (run_configured, good, load_state-traced_host H status, loaded)
        (resumed-Agrees cfg timeout status s log w loaded named f)

  run_configured-Agrees :
      (cfg : PluginConfig X) (status : Text) (log : List Call) (w : W)
      → IsGiven H config cfg.test_run_id
      → Agrees status log
      → let out = run_configured (traced_host H) (traced P) cfg status (log, w) in
        Agrees (next_status status (fold_reply out.0)) out.1.0
  unfolding run_configured
  run_configured-Agrees cfg status log w is_given a =
      elim (Result-cases (parse_timeout (traced_host H) cfg.timeout)) [
        | inr (e, bad) ↦ rw bad a
        | inl (timeout, good) ↦ run_limited-Agrees cfg timeout status log w is_given good a
      ]

  test_run_id-populate :
      (cfg : PluginConfig X) (rollout : Option Rollout)
      → (populate_from_rollout cfg rollout).test_run_id ≡ cfg.test_run_id
  unfolding populate_from_rollout
  test_run_id-populate cfg none = refl
  test_run_id-populate cfg (some r) = ground arith

  run-Agrees :
      (rollout : Option Rollout) (status : Text) (log : List Call) (w : W)
      → Agrees status log
      → let (reply, world) =
          run
            (traced_host H)
            (traced P)
            rollout
            (some (record { config = config; status = status }))
            (log, w) in
        Agrees (next_status status reply) world.0
  unfolding run run_body parse_config
  run-Agrees rollout status log w a =
      let ctx : Option StepContext = some (record { config = config; status = status }) in
      elim (Result-cases (parse_config (traced_host H) ctx)) [
        | inr (e, bad) ↦ rw bad a
        | inl (parsed, good) ↦ rw good (
            run_configured-Agrees (populate_from_rollout parsed rollout) status log w
              (parsed, good, test_run_id-populate parsed rollout) a)
      ]

  stop_loaded-Agrees :
      (cfg : PluginConfig X) (status : Text) (log : List Call) (w : W)
      → Agrees status log
      → Agrees status
          (stop_loaded
            (traced_host H)
            (traced P)
            cfg
            (load_state (traced_host H) status)
            (log, w)).0
  stop_loaded-Agrees cfg status log w (at_rest none_yet f) =
      rw (none_yet, load_state-nil) (at_rest refl f)
  stop_loaded-Agrees cfg status log w (at_work s loaded named f) =
      rw (load_state-traced_host H status, loaded, named) (at_work s loaded named (stop f))

  stop_active_run-Agrees :
      (rollout : Option Rollout) (status : Text) (log : List Call) (w : W)
      → Agrees status log
      → Agrees status
          (stop_active_run
            (traced_host H)
            (traced P)
            rollout
            (some (record { config = config; status = status }))
            (log, w)).0
  unfolding stop_active_run
  stop_active_run-Agrees rollout status log w a =
      let ctx : Option StepContext = some (record { config = config; status = status }) in
      elim (Result-cases (parse_config (traced_host H) ctx)) [
        | inr (e, bad) ↦ rw (stop_active_run, bad) a
        | inl (parsed, good) ↦
            rw (stop_active_run, good)
              (stop_loaded-Agrees (populate_from_rollout parsed rollout) status log w a)
      ]

  control_once-Agrees :
      (request : Request) (l : Loop (Traced W))
      → Agrees l.status l.world.0
      → let l' = control_once (traced_host H) (traced P) config request l in
        Agrees l'.status l'.world.0
  unfolding terminate abort
  control_once-Agrees (call_run rollout) l a = run-Agrees rollout l.status l.world.0 l.world.1 a
  control_once-Agrees (call_terminate rollout) l a =
      stop_active_run-Agrees rollout l.status l.world.0 l.world.1 a
  control_once-Agrees (call_abort rollout) l a =
      stop_active_run-Agrees rollout l.status l.world.0 l.world.1 a

  control-Agrees :
      (requests : List Request) (l : Loop (Traced W))
      → Agrees l.status l.world.0
      → let l' = control (traced_host H) (traced P) config requests l in Agrees l'.status l'.world.0
  unfolding control
  control-Agrees [] l a = a
  control-Agrees (request ∷ requests) l a =
      control-Agrees requests _ (control_once-Agrees request l a)

  Follows-of_Agrees :
      (status : Text) (log : List Call)
      → Agrees status log
      → Follows codec.coerce (IsGiven H config) (stage_of (load_state H status)) log
  unfolding load_state
  Follows-of_Agrees status log (at_rest none_yet f) = rw none_yet f
  Follows-of_Agrees status log (at_work s loaded named f) = rw (loaded, named) f

  -- Whatever the controller requests of `Run`, `Terminate` and `Abort`, in any order and each with the last
  -- status that a call returned, the calls on the backend are a log of the protocol, and the status
  -- stands for the stage that this log leads to. In particular all calls behind the start of a run are on
  -- the run ID that `TriggerRun` answered, or on the one that the configuration names, as the JSON
  -- library keeps it, and `Cleanup` directly follows a poll. This supposes that `TriggerRun` returns no
  -- empty run ID, and that the encoded state is decoded as the JSON library documents.
  pub control-Follows :
      (requests : List Request) (w : W)
      → let l = control (traced_host H) (traced P) config requests (fresh w) in
        Follows codec.coerce (IsGiven H config) (stage_of (load_state H l.status)) l.world.0
  control-Follows requests w =
      let l = control (traced_host H) (traced P) config requests (fresh w) in
      Follows-of_Agrees l.status l.world.0
        (control-Agrees requests (fresh w) (at_rest refl begin_log))

  -- However the controller mixes `Run`, `Terminate` and `Abort`, `Cleanup` is called at most once, under
  -- the same conditions.
  pub control-cleanups :
      (requests : List Request) (w : W)
      → cleanups (control (traced_host H) (traced P) config requests (fresh w)).world.0 ≤ 1
  control-cleanups requests w = omega (arith, Follows-cleanups (control-Follows requests w))
