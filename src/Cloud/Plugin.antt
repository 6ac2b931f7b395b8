-- ===== src/Cloud/Plugin.antt =====
-- internal/provider/cloud/cloud.go: the operations of the Grafana Cloud backend. It has no state but
-- its base URL, which is empty for the default one.
use argo_rollouts_k6_plugin.Base.{
  Text, ℤ, pos, ◌^◌, ◌-◌, ltbℤ, codes, ◌||◌, not, if◌then◌else◌, Bool, true, false, Result, ok, err,
  wrapping, Eff, ◌>>=◌, pure, return, ◌++◌,
}
use argo_rollouts_k6_plugin.Provider.Errors.{
  Err, invalid_test_id, invalid_stack_id, invalid_cloud_run_id, trigger_for_test, get_result_for,
  stop_run_of,
}
use argo_rollouts_k6_plugin.Provider.Config.{Platform, PluginConfig}
use argo_rollouts_k6_plugin.Provider.Interface.{
  Provider, RunResult, RunState, passed, failed, result_of,
}
use argo_rollouts_k6_plugin.Cloud.Types.{CloudApi, TestRunStatus}
use argo_rollouts_k6_plugin.Cloud.States.{map_to_run_state, is_threshold_passed}
use argo_rollouts_k6_plugin.Cloud.Metrics.{query_aggregate_metric}

-- `math.MaxInt32`
abbrev pub max_int32 : ℤ
max_int32 = pos (2 ^ 31 - 1)

-- The states whose metrics are queried.
abbrev pub is_judged : RunState → Bool
is_judged passed = true
is_judged failed = true
is_judged _ = false

abbrev pub run_url : Text → Text
run_url run_id = codes "https://app.k6.io/runs/" ++ run_id

module _ {X : Platform} where
  -- The fields that the queries fill, as functions on the result.
  abbrev set_failed : X.Float64 → RunResult X → RunResult X
  set_failed v r = record r { http_req_failed = v }

  abbrev set_p50 : X.Float64 → RunResult X → RunResult X
  set_p50 v r = record r { http_req_duration = record r.http_req_duration { p50 = v } }

  abbrev set_p95 : X.Float64 → RunResult X → RunResult X
  set_p95 v r = record r { http_req_duration = record r.http_req_duration { p95 = v } }

  abbrev set_p99 : X.Float64 → RunResult X → RunResult X
  set_p99 v r = record r { http_req_duration = record r.http_req_duration { p99 = v } }

  abbrev set_reqs : X.Float64 → RunResult X → RunResult X
  set_reqs v r = record r { http_reqs = v }

  -- A value is stored; an error is only logged.
  abbrev pub store :
      (X.Float64 → RunResult X → RunResult X) → Result Err X.Float64 → RunResult X → RunResult X
  store set (ok v) r = set v r
  store set (err e) r = r

module _ {X : Platform} {W : Type 0} (A : CloudApi X W) (base : Text) where
  -- An ID is a positive number that 32 bits hold.
  unfoldable pub check_id : (Text → Err) → Text → Result Err ℤ
  check_id error id = elim (A.parse_int id) [
    | err e ↦ err (error id)
    | ok n ↦ if not (ltbℤ (pos 0) n) || ltbℤ max_int32 n then err (error id) else ok n
  ]

  unfoldable pub trigger_run : PluginConfig X → Eff W Err Text
  trigger_run cfg = do
    test_id ← pure (check_id invalid_test_id cfg.test_id)
    stack_id ← pure (check_id invalid_stack_id cfg.stack_id)
    run_id ← wrapping (trigger_for_test cfg.test_id) (A.start base cfg.api_token test_id stack_id)
    return (A.format_int run_id)

  unfoldable pub query_into :
      PluginConfig X
      → Text
      → Text
      → Text
      → (X.Float64 → RunResult X → RunResult X)
      → RunResult X
      → W
      → RunResult X × W
  query_into cfg run_id name func set r w =
      let (v, w') =
        query_aggregate_metric A base cfg run_id (record { metric_name = name; query_func = func })
          w in
      (store set v r, w')

  unfoldable pub populate_aggregate_metrics :
      PluginConfig X → Text → RunResult X → W → RunResult X × W
  populate_aggregate_metrics cfg run_id r0 w0 =
      let ask = query_into cfg run_id in
      let (r1, w1) = ask (codes "http_req_failed") (codes "rate") set_failed r0 w0 in
      let duration = ask (codes "http_req_duration") in
      let (r2, w2) = duration (codes "histogram_quantile(0.50)") set_p50 r1 w1 in
      let (r3, w3) = duration (codes "histogram_quantile(0.95)") set_p95 r2 w2 in
      let (r4, w4) = duration (codes "histogram_quantile(0.99)") set_p99 r3 w3 in
      ask (codes "http_reqs") (codes "rate") set_reqs r4 w4

  -- `GetRunResult` behind the answer of the API.
  unfoldable pub judge_run : PluginConfig X → Text → TestRunStatus → Eff W Err (RunResult X)
  judge_run cfg run_id run w =
      let state = map_to_run_state run.status_type run.result in
      let bare = result_of X state (run_url run_id) (is_threshold_passed run.result) in
      let (full, w') = populate_aggregate_metrics cfg run_id bare w in
      if is_judged state then (ok full, w') else (ok bare, w)

  unfoldable pub get_run_result : PluginConfig X → Text → Eff W Err (RunResult X)
  get_run_result cfg run_id = do
    run ← pure (check_id invalid_cloud_run_id run_id)
    stack_id ← pure (check_id invalid_stack_id cfg.stack_id)
    status ← wrapping (get_result_for run_id) (A.retrieve base cfg.api_token run stack_id)
    judge_run cfg run_id status

  unfoldable pub stop_run : PluginConfig X → Text → Eff W Err (Unit {0})
  stop_run cfg run_id = do
    run ← pure (check_id invalid_cloud_run_id run_id)
    stack_id ← pure (check_id invalid_stack_id cfg.stack_id)
    wrapping (stop_run_of run_id) (A.abort_run base cfg.api_token run stack_id)

  unfoldable pub cleanup : PluginConfig X → Text → Eff W Err (Unit {0})
  cleanup cfg run_id = return tt

  abbrev pub cloud_provider : Provider X W
  cloud_provider = record {
    trigger_run = trigger_run;
    get_run_result = get_run_result;
    stop_run = stop_run;
    cleanup = cleanup;
    name = codes "grafana-cloud-k6";
  }
