-- ===== src/Step/Orphan.antt =====
-- A first call of `Run` whose poll fails, and the calls `Terminate` and `Abort`.
use argo_rollouts_k6_plugin.Base.{
  Text, ℕ, ◌+◌, ◌++◌, ◌-ℤ◌, ℤ, ◌≡◌, refl, is_empty, if◌then◌else◌, List, [], ◌∷◌, Option, none,
  some, ok, err, true, false, arith,
}
use argo_rollouts_k6_plugin.Provider.Errors.{Err}
use argo_rollouts_k6_plugin.Provider.Config.{Platform, PluginConfig}
use argo_rollouts_k6_plugin.Provider.Interface.{Provider}
use argo_rollouts_k6_plugin.Step.Types.{
  Host, StepContext, StepState, zero_state, Rollout, empty_result, get_run_result_error,
}
use argo_rollouts_k6_plugin.Step.Config.{parse_config, parse_timeout, populate_from_rollout}
use argo_rollouts_k6_plugin.Step.Traced.{Call, triggered, stopped, polled, traced, traced_host}
use argo_rollouts_k6_plugin.Step.Plugin.{
  load_state, obtain_run, ensure_started, elapsed_since, poll, run_started, run_configured,
  run_body, run, terminate, abort, stop_active_run, status_text, saturate, rpc_failure,
}
use argo_rollouts_k6_plugin.Step.Resumed.{is_late, after_clock}
use argo_rollouts_k6_plugin.Step.Reconcile.{reconcile_once}

module _ {X : Platform} {W : Type 0} (H : Host X W) (P : Provider X W) where
  abbrev context : Text → Text → Option StepContext
  context config status = some (record { config = config; status = status })

  -- A first call that triggers a run, and whose poll of that run fails.
  pub record Orphans (config : Text) (rollout : Option Rollout) (cfg : PluginConfig X)
      (run_id : Text) (e : Err) (w w' : W) : Type 0 where
    pub parsed : PluginConfig X
    pub timeout : ℤ
    pub dated : ℤ
    pub accepted : parse_config (traced_host H) (context config []) ≡ ok parsed
    pub populated : populate_from_rollout parsed rollout ≡ cfg
    pub triggering : is_empty cfg.test_run_id ≡ true
    pub limited : parse_timeout (traced_host H) cfg.timeout ≡ ok timeout
    pub started : W
    pub start : P.trigger_run cfg w ≡ (ok run_id, started)
    pub stamped : H.parse_time (H.format_time (H.now started).0) ≡ ok dated
    pub early : is_late H P timeout dated (after_clock H P started) ≡ false
    pub answer :
        P.get_run_result cfg run_id (after_clock H P (after_clock H P started)) ≡ (err e, w')

  module _ {config : Text} {rollout : Option Rollout} {cfg : PluginConfig X} {run_id : Text}
      {e : Err} {w w' : W} (o : Orphans config rollout cfg run_id e w w') (log : List Call) where
    first_state : StepState
    first_state = record zero_state {
      run_id = run_id;
      triggered_at = H.format_time (H.now o.started).0;
    }

    ensure_started_of_Orphans :
        ensure_started (traced_host H) (traced P) cfg zero_state (log, w)
        ≡ (ok first_state, (triggered (some run_id) ∷ log, after_clock H P o.started))
    unfolding ensure_started obtain_run first_state
    ensure_started_of_Orphans = rw (o.triggering, o.start)

    elapsed_since_of_Orphans :
        elapsed_since
          (traced_host H)
          (H.format_time (H.now o.started).0)
          (triggered (some run_id) ∷ log, after_clock H P o.started)
        ≡ (
          ok (saturate ((H.now (after_clock H P o.started)).0 -ℤ o.dated)),
          (triggered (some run_id) ∷ log, after_clock H P (after_clock H P o.started)),
        )
    unfolding elapsed_since
    elapsed_since_of_Orphans = rw (o.stamped, elapsed_since)

    run_started_of_Orphans :
        run_started
          (traced_host H)
          (traced P)
          cfg
          o.timeout
          first_state
          (triggered (some run_id) ∷ log, after_clock H P o.started)
        ≡ (
          err (rpc_failure (get_run_result_error e)),
          (polled run_id ∷ triggered (some run_id) ∷ log, w'),
        )
    unfolding run_started poll first_state
    run_started_of_Orphans = rw (elapsed_since_of_Orphans, o.early, o.answer)

    run_configured_of_Orphans : run_configured (traced_host H) (traced P) cfg [] (log, w) ≡ (
      err (rpc_failure (get_run_result_error e)),
      (polled run_id ∷ triggered (some run_id) ∷ log, w'),
    )
    unfolding run_configured load_state
    run_configured_of_Orphans = rw (o.limited, ensure_started_of_Orphans) run_started_of_Orphans

    run_of_Orphans : run (traced_host H) (traced P) rollout (context config []) (log, w) ≡ (
      rpc_failure (get_run_result_error e),
      (polled run_id ∷ triggered (some run_id) ∷ log, w'),
    )
    unfolding run run_body
    run_of_Orphans = rw (o.accepted, o.populated, run_configured_of_Orphans)

  -- Where the first call of `Run` triggers a run and `GetRunResult` then fails, the run ID is lost: the
  -- status that the controller keeps is still empty.
  pub run_orphaned :
      (config : Text) (rollout : Option Rollout) {cfg : PluginConfig X} {run_id : Text} {e : Err}
      (log : List Call) (failed : ℕ) {w w' : W}
      → Orphans config rollout cfg run_id e w w'
      → reconcile_once
          (traced_host H)
          (traced P)
          config
          rollout
          (record { status = []; failed = failed; world = (log, w) })
        ≡ record {
          status = [];
          failed = failed + 1;
          world = (polled run_id ∷ triggered (some run_id) ∷ log, w');
        }
  run_orphaned config rollout log failed o = rw (run_of_Orphans o log)

  -- What stopping does to a log: nothing, or one `StopRun` on the run of the persisted state.
  abbrev pub stop_call : Option StepContext → List Call
  stop_call ctx = elim (parse_config H ctx) [
    | err e ↦ []
    | ok cfg ↦ elim (load_state H (status_text ctx)) [
      | err e ↦ []
      | ok s ↦ if is_empty s.run_id then [] else stopped s.run_id ∷ []
    ]
  ]

  stop_active_run-stop_call :
      (rollout : Option Rollout) (ctx : Option StepContext) (log : List Call) (w : W)
      → (stop_active_run (traced_host H) (traced P) rollout ctx (log, w)).0 ≡ stop_call ctx ++ log
  unfolding stop_active_run load_state parse_config
  stop_active_run-stop_call rollout ctx log w = ground arith

  -- `Terminate` and `Abort` never fail, return an empty result and do the same. The only call that they
  -- make is `StopRun` on the run of the persisted state, if the configuration is accepted and the
  -- state is read and has one.
  pub terminate_stops :
      (rollout : Option Rollout) (ctx : Option StepContext) (log : List Call) (w : W)
      → let (reply, w') = terminate (traced_host H) (traced P) rollout ctx (log, w) in
        (reply ≡ (empty_result, none))
        × (w'.0 ≡ stop_call ctx ++ log)
        × (abort (traced_host H) (traced P) rollout ctx (log, w) ≡ (reply, w'))
  unfolding terminate abort
  terminate_stops rollout ctx log w = (refl, stop_active_run-stop_call rollout ctx log w, refl)
