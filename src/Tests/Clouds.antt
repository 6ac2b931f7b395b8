-- ===== src/Tests/Clouds.antt =====
-- Runs of the theorems on the Grafana Cloud backend.
use argo_rollouts_k6_plugin.Base.{
  Text, ℕ, ℤ, pos, negsuc, suc, zero, codes, [], ◌∷◌, none, some, Result, ok, err, ◌≡◌, refl, true,
  false, Option, ◌↔◌, ◌++◌, ◌≢◌, ◌⊎◌, ◌^◌,
}
use argo_rollouts_k6_plugin.Provider.Errors.{Fault}
use argo_rollouts_k6_plugin.Provider.Config.{PluginConfig}
use argo_rollouts_k6_plugin.Provider.Interface.{RunResult}
use argo_rollouts_k6_plugin.Cloud.Types.{CloudApi, TestRunStatus}
use argo_rollouts_k6_plugin.Cloud.Metrics.{AggregateMetricQuery, query_aggregate_metric, query_url}
use argo_rollouts_k6_plugin.Cloud.Queries.{
  requesting, IsInert, base_of, query_aggregate_metric-requests,
}
use argo_rollouts_k6_plugin.Cloud.Plugin.{check_id, get_run_result}
use argo_rollouts_k6_plugin.Cloud.Laws.{IsStateOf, get_run_result-judged}
use argo_rollouts_k6_plugin.Tests.Fixtures.{platform, local_config}

abbrev fault : Fault
fault = record { not_found = false; text = codes "no number" }

abbrev read_int : Text → Result Fault ℤ
read_int (zero ∷ n ∷ []) = ok (pos n)
read_int (suc s ∷ n ∷ []) = ok (negsuc n)
read_int _ = err fault

abbrev write_int : ℤ → Text
write_int (pos n) = 0 ∷ n ∷ []
write_int (negsuc n) = 1 ∷ n ∷ []

abbrev done : TestRunStatus
done = record { status_type = codes "completed"; result = some (codes "passed") }

-- Numbers are two codes, a sign and a number; every query fails.
abbrev pub api : CloudApi platform ℕ
api = record {
  start = λ url token test stack w. (ok (pos 12), suc w);
  retrieve = λ url token run stack w. (ok done, suc w);
  abort_run = λ url token run stack w. (ok tt, suc w);
  check_url = λ url. none;
  http_get = λ url token stack limit w. (err fault, suc w);
  unmarshal_aggregate = λ t. err fault;
  parse_int = read_int;
  format_int = write_int;
}

abbrev cloud_config : PluginConfig platform
cloud_config = record local_config {
  test_id = write_int (pos 3);
  stack_id = write_int (pos 4);
  api_token = codes "t";
}

get_run_result-judged_example :
    (r : RunResult platform) × ((get_run_result api [] cloud_config (write_int (pos 12)) 0).0
      ≡ ok r)
    × IsStateOf (codes "completed") (some (codes "passed")) r.state
    × ((r.thresholds_passed ≡ true)
        ↔ (◌≡◌ {A = Option Text} (some (codes "passed")) (some (codes "passed"))))
    × (r.test_run_url ≡ codes "https://app.k6.io/runs/" ++ write_int (pos 12))
unfolding check_id
get_run_result-judged_example =
    get_run_result-judged api [] cloud_config (write_int (pos 12)) 0 1 refl refl refl

abbrev requests_query : AggregateMetricQuery
requests_query = record { metric_name = codes "http_reqs"; query_func = codes "rate" }

query_aggregate_metric-requests_example :
    let log' =
      (query_aggregate_metric
        (requesting api)
        []
        cloud_config
        (codes "7")
        requests_query
        ([], 0)).1.0 in
    (log' ≡ [])
    ⊎ (log' ≡ (query_url (base_of []) (codes "7") requests_query, 2 ^ 20) ∷ [])
      × IsInert requests_query.metric_name
      × IsInert requests_query.query_func
      × (requests_query.metric_name ≢ [])
      × (requests_query.query_func ≢ [])
query_aggregate_metric-requests_example =
    query_aggregate_metric-requests api [] cloud_config (codes "7") requests_query [] 0
