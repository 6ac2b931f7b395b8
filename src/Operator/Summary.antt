-- ===== src/Operator/Summary.antt =====
-- internal/provider/operator/summary.go: k6's end-of-run summary in the logs of the runner pods, and
-- the metrics in it.
pub mod Search
pub mod Laws
pub mod Complete
pub mod Pods
use argo_rollouts_k6_plugin.Base.{
  Text, ℕ, ◌+◌, ◌*◌, codes, is_empty, lookup, lookup_or, if◌then◌else◌, Option, none, some, Result,
  ok, err, Eff, ◌>>=◌, wrapping, List, [], ◌∷◌, Dict,
}
use argo_rollouts_k6_plugin.Provider.Errors.{Err, Fault, list_summary_pods, no_runner_pods}
use argo_rollouts_k6_plugin.Provider.Config.{Platform}
use argo_rollouts_k6_plugin.Provider.Interface.{Percentiles, zero_percentiles}
use argo_rollouts_k6_plugin.Operator.Types.{Kube, Pod, Summary, SummaryMetric}
use argo_rollouts_k6_plugin.Operator.ExitCode.{runner_selector}
use argo_rollouts_k6_plugin.Operator.Client.{LogReader}
use argo_rollouts_k6_plugin.Operator.Summary.Search.{find_summary_json}

pub record SummaryMetrics (X : Platform) : Type 0 where
  pub http_req_failed : X.Float64
  pub http_req_duration : Percentiles X
  pub http_reqs : X.Float64
  pub http_reqs_count : X.Float64
  pub http_req_failed_count : X.Float64

abbrev pub zero_metrics : (X : Platform) → SummaryMetrics X
zero_metrics X = record {
  http_req_failed = X.float_zero;
  http_req_duration = zero_percentiles X;
  http_reqs = X.float_zero;
  http_reqs_count = X.float_zero;
  http_req_failed_count = X.float_zero;
}

-- The six sums of `aggregateMetrics`.
pub record Totals (X : Platform) : Type 0 where
  pub count : X.Float64
  pub failed : X.Float64
  pub rate : X.Float64
  pub p50 : X.Float64
  pub p95 : X.Float64
  pub p99 : X.Float64

module _ {X : Platform} where
  -- `metric.Values[key]`
  abbrev pub value : Text → SummaryMetric X → X.Float64
  value key metric = lookup_or X.float_zero key metric.values

  -- The metrics of a document; a nil map lacks every key.
  abbrev pub metric_of : Text → Summary X → Option (SummaryMetric X)
  metric_of key summary = elim summary.metrics [ none ↦ none | some m ↦ lookup key m ]

  -- "med", or else "p(50)".
  abbrev pub median : SummaryMetric X → X.Float64
  median metric = elim (lookup (codes "med") metric.values) [
    | some v ↦ v
    | none ↦ value (codes "p(50)") metric
  ]

  abbrev extract_failed : Option (SummaryMetric X) → X.Float64
  extract_failed none = X.float_zero
  extract_failed (some metric) = value (codes "rate") metric

  abbrev extract_duration : Option (SummaryMetric X) → Percentiles X
  extract_duration none = zero_percentiles X
  extract_duration (some metric) = record {
    p50 = median metric;
    p95 = value (codes "p(95)") metric;
    p99 = value (codes "p(99)") metric;
  }

  -- The two blocks for "http_reqs", with the failure rate that was extracted before them.
  abbrev extract_reqs : X.Float64 → Percentiles X → Option (SummaryMetric X) → SummaryMetrics X
  extract_reqs rate duration none = record (zero_metrics X) {
    http_req_failed = rate;
    http_req_duration = duration;
  }
  extract_reqs rate duration (some metric) = record {
    http_req_failed = rate;
    http_req_duration = duration;
    http_reqs = value (codes "rate") metric;
    http_reqs_count = value (codes "count") metric;
    http_req_failed_count = X.float_mul rate (value (codes "count") metric);
  }

  unfoldable pub extract_metrics_from_summary : Summary X → SummaryMetrics X
  extract_metrics_from_summary summary =
      extract_reqs (extract_failed (metric_of (codes "http_req_failed") summary))
        (extract_duration (metric_of (codes "http_req_duration") summary))
        (metric_of (codes "http_reqs") summary)

  -- The body of the loop.
  abbrev pub add_pod : Totals X → SummaryMetrics X → Totals X
  add_pod t m =
      let weighted = λ (sum v : X.Float64). X.float_add sum (X.float_mul v m.http_reqs_count) in
      record {
        count = X.float_add t.count m.http_reqs_count;
        failed = X.float_add t.failed m.http_req_failed_count;
        rate = X.float_add t.rate m.http_reqs;
        p50 = weighted t.p50 m.http_req_duration.p50;
        p95 = weighted t.p95 m.http_req_duration.p95;
        p99 = weighted t.p99 m.http_req_duration.p99;
      }

  abbrev pub sum_pods : Totals X → List (SummaryMetrics X) → Totals X
  sum_pods t [] = t
  sum_pods t (m ∷ ms) = sum_pods (add_pod t m) ms

  abbrev pub zero_totals : Totals X
  zero_totals = record {
    count = X.float_zero;
    failed = X.float_zero;
    rate = X.float_zero;
    p50 = X.float_zero;
    p95 = X.float_zero;
    p99 = X.float_zero;
  }

  abbrev pub averages : Totals X → SummaryMetrics X
  averages t = if X.float_is_zero t.count then zero_metrics X else record (zero_metrics X) {
    http_req_failed = X.float_div t.failed t.count;
    http_req_duration = record {
      p50 = X.float_div t.p50 t.count;
      p95 = X.float_div t.p95 t.count;
      p99 = X.float_div t.p99 t.count;
    };
    http_reqs = t.rate;
    http_reqs_count = t.count;
  }

  unfoldable pub aggregate_metrics : List (SummaryMetrics X) → SummaryMetrics X
  aggregate_metrics [] = zero_metrics X
  aggregate_metrics (m ∷ []) = m
  aggregate_metrics (m ∷ n ∷ ms) = averages (sum_pods zero_totals (m ∷ n ∷ ms))

module _ {X : Platform} {W : Type 0} (K : Kube X W) where
  -- `readPodLogs`: the last 100 lines, and 64 KB.
  abbrev pub read_pod_logs : LogReader K → Text → Text → Eff W Err Text
  read_pod_logs reader namespace pod = reader namespace pod 100 (64 * 1024)

  -- What one pod adds: nothing where its logs cannot be read, or hold no summary that can be parsed.
  unfoldable pub pod_metrics : Result Err Text → Option (SummaryMetrics X)
  pod_metrics (err e) = none
  pod_metrics (ok logs) = elim (find_summary_json K.unmarshal_summary logs) [
    | err e ↦ none
    | ok none ↦ none
    | ok (some summary) ↦ some (extract_metrics_from_summary summary)
  ]

  abbrev pub append_some : {A : Type 0} → Option A → List A → List A
  append_some none l = l
  append_some (some a) l = a ∷ l

  -- The loop over the pods; it fails at none of them.
  unfoldable pub collect_pods : LogReader K → Text → List Pod → W → List (SummaryMetrics X) × W
  collect_pods reader ns [] w = ([], w)
  collect_pods reader ns (pod ∷ pods) w =
      let (logs, w') = read_pod_logs reader ns pod.name w in
      let (rest, w'') = collect_pods reader ns pods w' in (append_some (pod_metrics logs) rest, w'')

  abbrev pub summarize :
      LogReader K → Text → Text → List Pod → W → Result Err (SummaryMetrics X) × W
  summarize reader ns test_run_name [] w = (err (no_runner_pods test_run_name), w)
  summarize reader ns test_run_name (pod ∷ pods) w =
      let (collected, w') = collect_pods reader ns (pod ∷ pods) w in
      (ok (aggregate_metrics collected), w')

  unfoldable pub parse_summary_from_pods :
      LogReader K → K.Client → Text → Text → Eff W Err (SummaryMetrics X)
  parse_summary_from_pods reader client ns test_run_name = do
    pods ← wrapping list_summary_pods (K.list_pods client ns (runner_selector test_run_name))
    summarize reader ns test_run_name pods
