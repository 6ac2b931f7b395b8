-- ===== src/Metric/Plugin.antt =====
-- `Run`, `Resume`, `Terminate` and `GarbageCollect` of internal/metric/metric.go. An early return with
-- an error carries the measurement that is marked with it.
use argo_rollouts_k6_plugin.Base.{
  Text, ℤ, is_empty, codes, ◌==◌, lookup_or, insert, if◌then◌else◌, Option, none, some, Result, ok,
  err, wrap_error, wrapping, Eff, ◌>>=◌, pure, throw, List, [], ◌∷◌, Dict,
}
use argo_rollouts_k6_plugin.Provider.Errors.{Err, run_id_missing}
use argo_rollouts_k6_plugin.Provider.Config.{Platform, PluginConfig}
use argo_rollouts_k6_plugin.Provider.Interface.{
  Provider, RunResult, RunState, running, passed, failed, errored, aborted, state_name,
}
use argo_rollouts_k6_plugin.Metric.Types.{
  AnalysisPhase, analysis_running, analysis_successful, analysis_failed, analysis_error,
  MetricMessage, raw, run_ended, measurement_terminated, Measurement, MetricResult, AnalysisRun,
  Metric, MetricHost,
}
use argo_rollouts_k6_plugin.Metric.Config.{
  parse_config, populate_from_analysis_run, extract_metric_value,
}

abbrev run_id_key : Text
run_id_key = codes "runId"

-- `m.Metadata["runId"]`, which reads a nil map as an empty one.
abbrev pub run_id_in : Option (Dict Text) → Text
run_id_in none = []
run_id_in (some metadata) = lookup_or [] run_id_key metadata

-- `metadata[key] = value`, where the map is not nil.
abbrev pub noted : Text → Text → Option (Dict Text) → Dict Text
noted key value none = (key, value) ∷ []
noted key value (some metadata) = insert key value metadata

abbrev pub note : Text → Text → Measurement → Measurement
note key value m = record m { metadata = some (noted key value m.metadata) }

-- A nil map becomes an empty one.
abbrev pub map_of : Option (Dict Text) → Dict Text
map_of none = []
map_of (some metadata) = metadata

abbrev pub with_metadata : Measurement → Measurement
with_metadata m = record m { metadata = some (map_of m.metadata) }

-- The measurement that `Run` starts with.
abbrev pub started_measurement : ℤ → Measurement
started_measurement t = record {
  phase = analysis_running;
  message = raw [];
  started_at = some t;
  finished_at = none;
  resume_at = none;
  value = [];
  metadata = some [];
}

abbrev pub phase_of : RunState → AnalysisPhase
phase_of running = analysis_running
phase_of passed = analysis_successful
phase_of failed = analysis_failed
phase_of errored = analysis_error
phase_of aborted = analysis_error

-- Errored and aborted runs say so; the other states leave the message alone.
abbrev pub message_for : RunState → Text → MetricMessage → MetricMessage
message_for errored run_id old = run_ended errored run_id
message_for aborted run_id old = run_ended aborted run_id
message_for _ run_id old = old

-- What fails, with the measurement to be marked.
abbrev pub Broken : Type 0
Broken = Measurement × Err

module _ {X : Platform} {W : Type 0} (H : MetricHost X W) where
  abbrev pub marked : Result Broken Measurement × W → Measurement × W
  marked (ok m, w) = (m, w)
  marked (err (m, e), w) = H.mark_error m e w

  unfoldable pub set_resume_at : Measurement → Metric → W → Measurement × W
  set_resume_at m metric w =
      if is_empty metric.interval then (m, w) else elim (H.interval metric.interval) [
        | err e ↦ (m, w)
        | ok d ↦ let (t, w') = H.now w in (record m { resume_at = some (H.add t d) }, w')
      ]

  abbrev pub finish : Measurement → W → Measurement × W
  finish m w = let (t, w') = H.now w in (record m { finished_at = some t }, w')

  -- The `switch` of `Resume`: a running measurement is resumed later, any other has ended.
  unfoldable pub settle : RunState → Text → Metric → Measurement → W → Measurement × W
  settle state run_id metric m w =
      let m' = record m { phase = phase_of state; message = message_for state run_id m.message } in
      elim state [ running ↦ set_resume_at m' metric w | _ ↦ finish m' w ]

module _ {X : Platform} {W : Type 0} (H : MetricHost X W) (P : Provider X W) where
  -- The run that `Run` attaches to, or starts.
  unfoldable pub obtain_run : PluginConfig X → Eff W Err Text
  obtain_run cfg w =
      if is_empty cfg.test_run_id then P.trigger_run cfg w else (ok cfg.test_run_id, w)

  -- `Run` behind `populateFromAnalysisRun`.
  unfoldable pub attach : PluginConfig X → Metric → Measurement → Eff W Broken Measurement
  attach cfg metric m = do
    run_id ← wrapping (λ e. (m, e)) (obtain_run cfg)
    λ w. let (m', w') = set_resume_at H (note run_id_key run_id m) metric w in (ok m', w')

  unfoldable pub run_from : Option AnalysisRun → Metric → Measurement → Eff W Broken Measurement
  run_from ar metric m = do
    cfg ← pure (wrap_error (λ e. (m, e)) (parse_config H metric))
    attach (populate_from_analysis_run cfg ar) metric m

  unfoldable pub run : Option AnalysisRun → Metric → W → Measurement × W
  run ar metric w =
      let (t, w') = H.now w in marked H (run_from ar metric (started_measurement t) w')

  -- `Resume` behind `GetRunResult`.
  unfoldable pub evaluate :
      PluginConfig X → Text → Metric → Measurement → RunResult X → Eff W Broken Measurement
  evaluate cfg run_id metric m result w =
      let noted =
        note (codes "runState") (state_name result.state)
          (note (codes "testRunURL") result.test_run_url m) in
      elim (extract_metric_value result cfg.metric cfg.aggregation) [
        | err e ↦ (err (noted, e), w)
        | ok v ↦
            let text = X.format_float v in
            let valued = note (codes "metricValue") text (record noted { value = text }) in
            let (m', w') = settle H result.state run_id metric valued w in (ok m', w')
      ]

  unfoldable pub poll : PluginConfig X → Text → Metric → Measurement → Eff W Broken Measurement
  poll cfg run_id metric m = do
    result ← wrapping (λ e. (m, e)) (P.get_run_result cfg run_id)
    evaluate cfg run_id metric m result

  unfoldable pub resume_from : Option AnalysisRun → Metric → Measurement → Eff W Broken Measurement
  resume_from ar metric m = do
    cfg ← pure (wrap_error (λ e. (m, e)) (parse_config H metric))
    if is_empty (run_id_in m.metadata)
        then throw (with_metadata m, run_id_missing)
        else poll (populate_from_analysis_run cfg ar) (run_id_in m.metadata) metric
            (with_metadata m)

  unfoldable pub resume : Option AnalysisRun → Metric → Measurement → W → Measurement × W
  resume ar metric m w = marked H (resume_from ar metric m w)

  -- An error of `StopRun` is only logged.
  abbrev stop_known : PluginConfig X → Text → W → W
  stop_known cfg run_id w = if is_empty run_id then w else (P.stop_run cfg run_id w).1

  unfoldable pub terminate : Option AnalysisRun → Metric → Measurement → W → Measurement × W
  terminate ar metric m w = elim (parse_config H metric) [
    | err e ↦ H.mark_error m e w
    | ok cfg ↦
        finish H
          (record (with_metadata m) { phase = analysis_error; message = measurement_terminated })
          (stop_known (populate_from_analysis_run cfg ar) (run_id_in m.metadata) w)
  ]

  -- The inner loop of `GarbageCollect`; an error of `Cleanup` is only logged.
  unfoldable pub collect_measurements : PluginConfig X → List Measurement → W → W
  collect_measurements cfg [] w = w
  collect_measurements cfg (m ∷ ms) w =
      let run_id = run_id_in m.metadata in
      collect_measurements cfg ms (if is_empty run_id then w else (P.cleanup cfg run_id w).1)

  unfoldable pub collect_results : PluginConfig X → Metric → List MetricResult → W → W
  collect_results cfg metric [] w = w
  collect_results cfg metric (result ∷ results) w =
      collect_results cfg metric results
        (if result.name == metric.name then collect_measurements cfg result.measurements w else w)

  -- It never returns an error, so that it is what it does to the world.
  unfoldable pub garbage_collect : Option AnalysisRun → Metric → W → W
  garbage_collect none metric w = w
  garbage_collect (some ar) metric w = elim (parse_config H metric) [
    | err e ↦ w
    | ok cfg ↦ collect_results (populate_from_analysis_run cfg (some ar)) metric ar.metric_results w
  ]
