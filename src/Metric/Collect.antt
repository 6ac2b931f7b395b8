-- ===== src/Metric/Collect.antt =====
-- What `GarbageCollect` of the metric plugin cleans up.
use argo_rollouts_k6_plugin.Base.{
  Text, is_empty, ◌==◌, if◌then◌else◌, some, ok, List, [], ◌∷◌, ◌++◌, ◌≡◌, refl, inl, inr,
  Bool-cases,
}
use argo_rollouts_k6_plugin.Provider.Config.{Platform, PluginConfig}
use argo_rollouts_k6_plugin.Provider.Interface.{Provider}
use argo_rollouts_k6_plugin.Step.Traced.{Call, cleaned, Traced, traced, keeping}
use argo_rollouts_k6_plugin.Metric.Types.{
  AnalysisRun, Measurement, Metric, MetricHost, MetricResult,
}
use argo_rollouts_k6_plugin.Metric.Config.{parse_config, populate_from_analysis_run}
use argo_rollouts_k6_plugin.Metric.Plugin.{
  run_id_in, collect_measurements, collect_results, garbage_collect,
}

module _ {X : Platform} {W : Type 0} where
  -- The host in a world with a log.
  abbrev pub traced_metric_host : MetricHost X W → MetricHost X (Traced W)
  traced_metric_host H = record {
    now = λ (log, w). keeping (H.now w) log;
    add = H.add;
    interval = H.interval;
    decode_config = H.decode_config;
    mark_error = λ m e (log, w). keeping (H.mark_error m e w) log;
  }

-- The run IDs that measurements hold, in their order, without the empty ones.
abbrev pub run_ids : List Measurement → List Text
run_ids [] = []
run_ids (m ∷ ms) =
    let rest = run_ids ms in
    if is_empty (run_id_in m.metadata) then rest else run_id_in m.metadata ∷ rest

-- Those of the results of a metric.
abbrev pub run_ids_of : Text → List MetricResult → List Text
run_ids_of name [] = []
run_ids_of name (result ∷ results) =
    let rest = run_ids_of name results in
    if result.name == name then run_ids result.measurements ++ rest else rest

-- A log with one `Cleanup` for each run ID on top, the last one first.
abbrev pub all_cleaned : List Text → List Call → List Call
all_cleaned [] log = log
all_cleaned (run_id ∷ rest) log = all_cleaned rest (cleaned run_id ∷ log)

all_cleaned-append :
    (ids more : List Text) (log : List Call)
    → all_cleaned (ids ++ more) log ≡ all_cleaned more (all_cleaned ids log)
all_cleaned-append [] more log = refl
all_cleaned-append (run_id ∷ ids) more log = all_cleaned-append ids more (cleaned run_id ∷ log)

module _ {X : Platform} {W : Type 0} (H : MetricHost X W) where
  pub parse_config-traced :
      (metric : Metric) → parse_config (traced_metric_host H) metric ≡ parse_config H metric
  unfolding parse_config
  parse_config-traced metric = refl

module _ {X : Platform} {W : Type 0} (H : MetricHost X W) (P : Provider X W) where
  collect_measurements-run_ids :
      (cfg : PluginConfig X) (ms : List Measurement) (log : List Call) (w : W)
      → (collect_measurements (traced_metric_host H) (traced P) cfg ms (log, w)).0
        ≡ all_cleaned (run_ids ms) log
  unfolding collect_measurements
  collect_measurements-run_ids cfg [] log w = refl
  collect_measurements-run_ids cfg (m ∷ ms) log w =
      elim (Bool-cases (is_empty (run_id_in m.metadata))) [
        | inl absent ↦ rw (collect_measurements, absent) (collect_measurements-run_ids cfg ms log w)
        | inr present ↦
            rw (collect_measurements, present)
              (collect_measurements-run_ids cfg ms (cleaned (run_id_in m.metadata) ∷ log)
                (P.cleanup cfg (run_id_in m.metadata) w).1)
      ]

  collect_results-run_ids :
      (cfg : PluginConfig X) (metric : Metric) (results : List MetricResult) (log : List Call)
      (w : W)
      → (collect_results (traced_metric_host H) (traced P) cfg metric results (log, w)).0
        ≡ all_cleaned (run_ids_of metric.name results) log
  unfolding collect_results
  collect_results-run_ids cfg metric [] log w = refl
  collect_results-run_ids cfg metric (result ∷ results) log w =
      elim (Bool-cases (result.name == metric.name)) [
        | inl same ↦
            rw
              (
                collect_results,
                same,
                all_cleaned-append (run_ids result.measurements) (run_ids_of metric.name results)
                    log,
              )
              (rw (← collect_measurements-run_ids cfg result.measurements log w)
                (collect_results-run_ids cfg metric results _ _))
        | inr other ↦ rw (collect_results, other) (collect_results-run_ids cfg metric results log w)
      ]

  -- With a valid configuration `GarbageCollect` calls `Cleanup` once for every measurement of the metric
  -- that holds a run ID, in their order and whatever `Cleanup` answers, and makes no other call.
  pub garbage_collect-run_ids :
      (ar : AnalysisRun) (metric : Metric) {cfg : PluginConfig X} (log : List Call) (w : W)
      → parse_config H metric ≡ ok cfg
      → (garbage_collect (traced_metric_host H) (traced P) (some ar) metric (log, w)).0
        ≡ all_cleaned (run_ids_of metric.name ar.metric_results) log
  unfolding garbage_collect
  garbage_collect-run_ids ar metric {cfg} log w h =
      rw (garbage_collect, parse_config-traced H metric, h)
        (collect_results-run_ids (populate_from_analysis_run cfg (some ar)) metric ar.metric_results
          log w)
