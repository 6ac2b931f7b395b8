-- ===== src/Cloud/Metrics.antt =====
-- internal/provider/cloud/metrics.go: the aggregate metrics of a run.
use argo_rollouts_k6_plugin.Base.{
  Text, ℕ, ◌^◌, eqb, leb, is_empty, codes, ◌==◌, ◌||◌, ◌&&◌, not, all, if◌then◌else◌, Bool, none,
  some, Result, ok, err, wrap_error, wrapping, Eff, ◌>>=◌, pure, List, [], ◌∷◌, ◌++◌,
}
use argo_rollouts_k6_plugin.Provider.Errors.{
  Err, invalid_metric_name, invalid_query_function, v5_request, v5_query, v5_read, v5_parse,
  v5_status, aggregate_failed, unexpected_value_type, v5_float,
}
use argo_rollouts_k6_plugin.Provider.Config.{Platform, PluginConfig}
use argo_rollouts_k6_plugin.Cloud.Types.{
  CloudApi, Response, JsonValue, number, string, other, AggregateResponse,
}

abbrev pub default_base_url : Text
default_base_url = codes "https://api.k6.io"

abbrev pub max_response_body_size : ℕ
max_response_body_size = 2 ^ 20

-- The characters that may stand in a metric parameter.
abbrev pub is_param_char : ℕ → Bool
is_param_char c =
    (leb b'a' c && leb c b'z')
    || ((leb b'A' c && leb c b'Z')
        || ((leb b'0' c && leb c b'9')
            || (eqb c b'_' || (eqb c b'.' || (eqb c b'(' || eqb c b')')))))

unfoldable pub is_valid_metric_param : Text → Bool
is_valid_metric_param s = not (is_empty s) && all is_param_char s

pub record AggregateMetricQuery : Type 0 where
  pub metric_name : Text
  pub query_func : Text

abbrev pub query_url : Text → Text → AggregateMetricQuery → Text
query_url base run_id query =
    base
    ++ (codes "/cloud/v5/test_runs/"
        ++ (run_id
            ++ (codes "/query_aggregate_k6(metric='"
                ++ (query.metric_name ++ (codes "',query='" ++ (query.query_func ++ codes "')"))))))

-- The two checks of `QueryAggregateMetric`.
abbrev pub check_query : AggregateMetricQuery → Result Err (Unit {0})
check_query query =
    if not (is_valid_metric_param query.metric_name)
    then err (invalid_metric_name query.metric_name)
    else if not (is_valid_metric_param query.query_func)
    then err (invalid_query_function query.query_func)
    else ok tt

module _ {X : Platform} where
  abbrev value_of : JsonValue X → Result Err X.Float64
  value_of (number v) = ok v
  value_of (string s) = wrap_error v5_float (X.parse_float s)
  value_of (other type) = err (unexpected_value_type type)

  -- The second value of the first row, and 0 where there is none.
  abbrev first_value : List (List (JsonValue X)) → Result Err X.Float64
  first_value ((time ∷ v ∷ rest) ∷ rows) = value_of v
  first_value _ = ok X.float_zero

  abbrev aggregate_value : AggregateResponse X → Result Err X.Float64
  aggregate_value response =
      if not (response.status == codes "success")
      then err (aggregate_failed response.status)
      else elim response.results [ [] ↦ ok X.float_zero | (rows ∷ others) ↦ first_value rows ]

module _ {X : Platform} {W : Type 0} (A : CloudApi X W) where
  unfoldable pub parse_aggregate_value : Text → Result Err X.Float64
  parse_aggregate_value body = elim (A.unmarshal_aggregate body) [
    | err e ↦ err (v5_parse e)
    | ok response ↦ aggregate_value response
  ]

  abbrev pub read_response : Response → Result Err X.Float64
  read_response response =
      if not (eqb response.status_code 200)
      then err (v5_status response.status_code response.body)
      else elim response.failure [
        | some e ↦ err (v5_read e)
        | none ↦ parse_aggregate_value response.body
      ]

  abbrev pub checked_url : Text → Result Err Text
  checked_url url = elim (A.check_url url) [ some e ↦ err (v5_request e) | none ↦ ok url ]

  -- `base` is the backend's base URL, which may be empty.
  unfoldable pub query_aggregate_metric :
      Text → PluginConfig X → Text → AggregateMetricQuery → Eff W Err X.Float64
  query_aggregate_metric base cfg run_id query = do
    checked ← pure (check_query query)
    url ←
        pure
          (checked_url (query_url (if is_empty base then default_base_url else base) run_id query))
    response ← wrapping v5_query (A.http_get url cfg.api_token cfg.stack_id max_response_body_size)
    pure (read_response response)
