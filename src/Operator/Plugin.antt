-- ===== src/Operator/Plugin.antt =====
-- The operations of the operator backend, of internal/provider/operator/operator.go.
pub mod Runs
pub mod Results
pub mod Objects
pub mod Others
pub mod Quiet
pub mod Ledger
use argo_rollouts_k6_plugin.Base.{
  Text, ℕ, codes, is_empty, lookup, if◌then◌else◌, ◌==◌, Bool, true, false, ◌||◌, Option, none,
  some, Result, ok, err, Eff, ◌>>=◌, ◌>>◌, pure, return, wrap_error, wrapping, List, [], Dict,
}
use argo_rollouts_k6_plugin.Provider.Errors.{
  Err, Fault, get_config_map, script_key_missing, script_key_empty, convert_plz, convert_test_run,
  create_plz, create_test_run, invalid_run_id, get_resource, delete_resource, unknown_resource,
}
use argo_rollouts_k6_plugin.Provider.Config.{
  Platform, PluginConfig, ConfigMapRef, validate_k6_operator,
}
use argo_rollouts_k6_plugin.Provider.Interface.{
  Provider, RunResult, RunState, running, passed, failed, errored, aborted, result_of,
}
use argo_rollouts_k6_plugin.Operator.Types.{Kube, Gvr, TestRun}
use argo_rollouts_k6_plugin.Operator.RunId.{
  RunId, testruns, privateloadzones, test_run_gvr, plz_gvr, encode_run_id, decode_run_id,
  gvr_for_resource,
}
use argo_rollouts_k6_plugin.Operator.TestRun.{
  test_run_name, hash_input, build_test_run, build_private_load_zone, is_cloud_connected,
}
use argo_rollouts_k6_plugin.Operator.ExitCode.{stage_to_run_state, check_runner_exit_codes}
use argo_rollouts_k6_plugin.Operator.Client.{
  OperatorState, OperatorWorld, ensure_client, deref, LogReader, ensure_log_reader,
}
use argo_rollouts_k6_plugin.Operator.Summary.{SummaryMetrics, parse_summary_from_pods}

-- The checks of `readScript` on the ConfigMap's data.
abbrev pub find_script : Text → ConfigMapRef → Dict Text → Result Err Text
find_script ns ref entries = elim (lookup ref.key entries) [
  | none ↦ err (script_key_missing ref.key ns ref.name)
  | some script ↦ if is_empty script then err (script_key_empty ref.key ns ref.name) else ok script
]

-- `GetRunResult` reads metrics for these states only.
abbrev pub has_metrics : RunState → Bool
has_metrics passed = true
has_metrics failed = true
has_metrics _ = false

abbrev pub is_passed : RunState → Bool
is_passed passed = true
is_passed _ = false

-- An error of the exit codes is only logged, and makes the run errored.
abbrev pub state_of_exit : Result Err RunState → RunState
state_of_exit (ok s) = s
state_of_exit (err e) = errored

module _ {X : Platform} where
  abbrev pub namespace_of : PluginConfig X → Text
  namespace_of cfg = if is_empty cfg.namespace then codes "default" else cfg.namespace

  abbrev pub rollout_of : PluginConfig X → Text
  rollout_of cfg = if is_empty cfg.rollout_name then codes "unknown" else cfg.rollout_name

  -- The metrics of the summaries; an error of them is only logged.
  abbrev pub with_metrics : Result Err (SummaryMetrics X) → RunResult X → RunResult X
  with_metrics (err e) result = result
  with_metrics (ok m) result = record result {
    http_req_failed = m.http_req_failed;
    http_req_duration = m.http_req_duration;
    http_reqs = m.http_reqs;
  }

-- The text of a stage that may be absent.
abbrev pub stage_text : Option Text → Text
stage_text none = []
stage_text (some s) = s

abbrev pub gvr_of : RunId → Result Err Gvr
gvr_of id = elim (gvr_for_resource id.resource) [
  | none ↦ err (unknown_resource id.resource)
  | some gvr ↦ ok gvr
]

-- `decodeRunID`, with the error's prefix.
abbrev pub decoded : Text → Result Err RunId
decoded run_id = wrap_error invalid_run_id (decode_run_id run_id)

-- `k8serrors.IsNotFound` counts as success.
abbrev pub ignoring_not_found : RunId → Result Fault (Unit {0}) → Result Err (Unit {0})
ignoring_not_found id (ok u) = ok u
ignoring_not_found id (err e) =
    if e.not_found then ok tt else err (delete_resource id.resource id.namespace id.name e)

module _ {X : Platform} {W : Type 0} (K : Kube X W) (reader : Option (LogReader K)) where
  abbrev OpEff : Type 0 → Type 0
  OpEff A = Eff (OperatorWorld K) Err A

  -- A call on the cluster.
  abbrev pub lift : {E A : Type 0} → Eff W E A → Eff (OperatorWorld K) E A
  lift m (p, w) = let (r, w') = m w in (r, (p, w'))

  unfoldable pub need_client : OpEff K.Client
  need_client = do both ← ensure_client K; pure (deref both.0)

  unfoldable pub need_dyn_client : OpEff K.DynClient
  need_dyn_client = do both ← ensure_client K; pure (deref both.1)

  unfoldable pub read_script : PluginConfig X → OpEff Text
  read_script cfg = do
    client ← need_client
    ref ← pure (deref cfg.config_map_ref)
    entries ←
        wrapping (get_config_map (namespace_of cfg) ref.name)
          (lift (K.get_config_map client (namespace_of cfg) ref.name))
    pure (find_script (namespace_of cfg) ref entries)

  -- `testRunName`, with the clock that it reads.
  unfoldable pub new_cr_name : PluginConfig X → OpEff Text
  new_cr_name cfg (p, w) =
      let (nanos, w') = K.now_nanos w in
      let short = K.hash_prefix (hash_input (namespace_of cfg) (rollout_of cfg) nanos) in
      (ok (test_run_name (rollout_of cfg) short), (p, w'))

  -- The run ID of a created object, which has the name that the API server answers.
  abbrev pub run_id_of : PluginConfig X → Text → Text → Text
  run_id_of cfg resource name =
      encode_run_id (record { namespace = namespace_of cfg; resource = resource; name = name })

  -- The creation of an object, with the error that it fails with.
  unfoldable pub create_object :
      PluginConfig X → K.DynClient → Gvr → (Fault → Err) → K.Object → OpEff Text
  create_object cfg dyn gvr error object = do
    created ← wrapping error (lift (K.create dyn gvr (namespace_of cfg) object))
    return (run_id_of cfg gvr.resource created)

  unfoldable pub create_plz_run : PluginConfig X → K.DynClient → Text → OpEff Text
  create_plz_run cfg dyn cr_name = do
    object ← pure (
        wrap_error convert_plz
          (K.plz_object (build_private_load_zone cfg (namespace_of cfg) cr_name)))
    create_object cfg dyn plz_gvr (create_plz (namespace_of cfg) cr_name) object

  unfoldable pub create_test_run_run :
      PluginConfig X → ConfigMapRef → K.DynClient → Text → OpEff Text
  create_test_run_run cfg ref dyn cr_name = do
    object ← pure (
        wrap_error convert_test_run
          (K.test_run_object (build_test_run cfg ref.name ref.key (namespace_of cfg) cr_name)))
    create_object cfg dyn test_run_gvr (create_test_run (namespace_of cfg) cr_name) object

  -- `TriggerRun` from the CR's name on. The reference is not nil, since the configuration is valid.
  unfoldable pub create_named : PluginConfig X → K.DynClient → Text → OpEff Text
  create_named cfg dyn cr_name = do
    ref ← pure (deref cfg.config_map_ref)
    if is_cloud_connected cfg
        then create_plz_run cfg dyn cr_name
        else create_test_run_run cfg ref dyn cr_name

  -- `TriggerRun` behind the two checks.
  unfoldable pub create_run : PluginConfig X → OpEff Text
  create_run cfg = do dyn ← need_dyn_client; cr_name ← new_cr_name cfg; create_named cfg dyn cr_name

  unfoldable pub trigger_run : PluginConfig X → OpEff Text
  trigger_run cfg = do
    valid ← pure (validate_k6_operator cfg)
    script ← read_script cfg
    create_run cfg

  -- The result for a state, with the metrics where the state has some.
  unfoldable pub report : K.Client → RunId → RunState → OpEff (RunResult X)
  report client id state (p, w) =
      let result = result_of X state [] (is_passed state) in
      let (metrics, w') =
        parse_summary_from_pods K (ensure_log_reader K reader client) client id.namespace id.name
          w in
      if has_metrics state then (ok (with_metrics metrics result), (p, w')) else (ok result, (p, w))

  -- A finished run is judged by its exit codes. Where these cannot be read the run is errored, and the
  -- result is returned at once.
  unfoldable pub judge_stage : K.Client → RunId → Text → OpEff (RunResult X)
  judge_stage client id stage (p, w) =
      let (exit, w') = check_runner_exit_codes K client id.namespace id.name w in
      if stage == codes "finished"
      then report client id (state_of_exit exit) (p, w')
      else report client id (stage_to_run_state stage) (p, w)

  unfoldable pub get_run_result : PluginConfig X → Text → OpEff (RunResult X)
  get_run_result cfg run_id = do
    id ← pure (decoded run_id)
    gvr ← pure (gvr_of id)
    both ← ensure_client K
    client ← pure (deref both.0)
    dyn ← pure (deref both.1)
    object ←
        wrapping (get_resource id.resource id.namespace id.name)
          (lift (K.get dyn gvr id.namespace id.name))
    judge_stage client id (stage_text (K.stage object))

  -- The call of `Delete`.
  unfoldable pub settle_delete : K.DynClient → Gvr → RunId → OpEff (Unit {0})
  settle_delete client gvr id (p, w) =
      let (r, w') = K.delete client gvr id.namespace id.name w in (ignoring_not_found id r, (p, w'))

  unfoldable pub delete_cr : Text → OpEff (Unit {0})
  delete_cr run_id = do
    id ← pure (decoded run_id)
    gvr ← pure (gvr_of id)
    client ← need_dyn_client
    settle_delete client gvr id

  unfoldable pub stop_run : PluginConfig X → Text → OpEff (Unit {0})
  stop_run cfg run_id = delete_cr run_id

  unfoldable pub cleanup : PluginConfig X → Text → OpEff (Unit {0})
  cleanup cfg run_id = delete_cr run_id

  abbrev pub operator_provider : Provider X (OperatorWorld K)
  operator_provider = record {
    trigger_run = trigger_run;
    get_run_result = get_run_result;
    stop_run = stop_run;
    cleanup = cleanup;
    name = codes "k6-operator";
  }
