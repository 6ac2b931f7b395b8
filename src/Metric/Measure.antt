-- ===== src/Metric/Measure.antt =====
-- What `Run`, `Resume` and `Terminate` of the metric plugin return and call.
use argo_rollouts_k6_plugin.Base.{
  Text, is_empty, ◌==◌, if◌then◌else◌, false, Option, none, some, ok, err, List, [], ◌∷◌, ◌++◌, ◌≡◌,
  ◌↔◌, refl, inl, inr, Bool-cases, arith, ◌∙◌, Result-cases, lookup, insert, lookup_or,
  lookup-insert, Dict, codes, ap,
}
use argo_rollouts_k6_plugin.Provider.Config.{Platform, PluginConfig}
use argo_rollouts_k6_plugin.Provider.Interface.{
  Provider, RunResult, RunState, running, passed, failed, errored, aborted, state_name,
}
use argo_rollouts_k6_plugin.Step.Traced.{Call, triggered, stopped, traced, answer_of}
use argo_rollouts_k6_plugin.Metric.Types.{
  AnalysisRun, Measurement, Metric, MetricHost, MarksErrors, analysis_running, analysis_successful,
  analysis_failed, analysis_error,
}
use argo_rollouts_k6_plugin.Metric.Config.{
  parse_config, populate_from_analysis_run, extract_metric_value,
}
use argo_rollouts_k6_plugin.Metric.Plugin.{
  started_measurement, run_id_in, note, noted, map_of, obtain_run, run_from, attach, marked, run,
  evaluate, poll, resume_from, resume, terminate, settle, set_resume_at, with_metadata, phase_of,
}
use argo_rollouts_k6_plugin.Metric.Collect.{traced_metric_host, parse_config-traced}

pub run_id_in-noted :
    (key value : Text) (metadata : Option (Dict Text))
    → (key == codes "runId") ≡ false
    → run_id_in (some (noted key value metadata)) ≡ run_id_in metadata
unfolding lookup_or lookup
run_id_in-noted key value none h = ground (arith, h)
run_id_in-noted key value (some d) h = ground (arith, lookup-insert key (codes "runId") value d, h)

pub run_id_in-map_of :
    (metadata : Option (Dict Text)) → run_id_in (some (map_of metadata)) ≡ run_id_in metadata
unfolding lookup_or lookup
run_id_in-map_of none = refl
run_id_in-map_of (some d) = refl

run_id_in-insert : (run_id : Text) → run_id_in (some (insert (codes "runId") run_id [])) ≡ run_id
unfolding insert lookup lookup_or ◌==◌
run_id_in-insert run_id = refl

phase_of_iff :
    (s : RunState)
    → ((phase_of s ≡ analysis_running) ↔ (s ≡ running))
      × ((phase_of s ≡ analysis_successful) ↔ (s ≡ passed))
      × ((phase_of s ≡ analysis_failed) ↔ (s ≡ failed))
phase_of_iff running = ground arith
phase_of_iff passed = ground arith
phase_of_iff failed = ground arith
phase_of_iff errored = ground arith
phase_of_iff aborted = ground arith

module _ {X : Platform} {W : Type 0} (H : MetricHost X W) (P : Provider X W) where
  pub test_run_id-populate :
      (cfg : PluginConfig X) (ar : Option AnalysisRun)
      → (populate_from_analysis_run cfg ar).test_run_id ≡ cfg.test_run_id
  unfolding populate_from_analysis_run
  test_run_id-populate cfg none = refl
  test_run_id-populate cfg (some ar) = ground arith

  -- A measurement with the same phase, value and metadata.
  record Keeps (m m' : Measurement) : Type 0 where
    phases : m'.phase ≡ m.phase
    values : m'.value ≡ m.value
    notes : m'.metadata ≡ m.metadata

  set_resume_at-Keeps :
      (m : Measurement) (metric : Metric) (w : W) → Keeps m (set_resume_at H m metric w).0
  unfolding set_resume_at
  set_resume_at-Keeps m metric w = record {
    phases = ground arith;
    values = ground arith;
    notes = ground arith;
  }

  pub set_resume_at-log :
      (m : Measurement) (metric : Metric) (log : List Call) (w : W)
      → (set_resume_at (traced_metric_host H) m metric (log, w)).1.0 ≡ log
  unfolding set_resume_at
  set_resume_at-log m metric log w = ground arith

  abbrev pub trigger_call : PluginConfig X → W → List Call
  trigger_call cfg w =
      if is_empty cfg.test_run_id then triggered (answer_of (P.trigger_run cfg w).0) ∷ [] else []

  attach-trigger_call :
      (cfg : PluginConfig X) (metric : Metric) (m : Measurement) (log : List Call) (w : W)
      → (marked
          (traced_metric_host H)
          (attach (traced_metric_host H) (traced P) cfg metric m (log, w))).1.0
        ≡ trigger_call cfg w ++ log
  unfolding attach obtain_run
  attach-trigger_call cfg metric m log w = elim (Bool-cases (is_empty cfg.test_run_id)) [
    | inr named ↦ rw named (set_resume_at-log _ metric log _)
    | inl unnamed ↦ elim (Result-cases (P.trigger_run cfg w).0) [
      | inr (e, refused) ↦ rw (unnamed, refused) refl
      | inl (run_id, made) ↦
          rw (unnamed, made) (set_resume_at-log _ metric (triggered (some run_id) ∷ log) _)
    ]
  ]

  -- `TriggerRun`, exactly if the configuration is valid and names no run to attach to.
  abbrev pub run_calls : Option AnalysisRun → Metric → W → List Call
  run_calls ar metric w = elim (parse_config H metric) [
    | err e ↦ []
    | ok cfg ↦ trigger_call (populate_from_analysis_run cfg ar) (H.now w).1
  ]

  -- `Run` calls `TriggerRun` once if the configuration is valid and names no run to attach to, and makes
  -- no other call.
  pub run-run_calls :
      (ar : Option AnalysisRun) (metric : Metric) (log : List Call) (w : W)
      → (run (traced_metric_host H) (traced P) ar metric (log, w)).1.0
        ≡ run_calls ar metric w ++ log
  unfolding run run_from
  run-run_calls ar metric log w = elim (Result-cases (parse_config H metric)) [
    | inr (e, bad) ↦ rw (run_calls, parse_config-traced H metric, bad) refl
    | inl (cfg, good) ↦
        rw (run_calls, parse_config-traced H metric, good)
          (attach-trigger_call (populate_from_analysis_run cfg ar) metric _ log _)
  ]

  settle-Keeps :
      (state : RunState) (run_id : Text) (metric : Metric) (m : Measurement) (w : W)
      → let m' = (settle H state run_id metric m w).0 in
        (m'.phase ≡ phase_of state) × (m'.value ≡ m.value) × (m'.metadata ≡ m.metadata)
  unfolding settle
  settle-Keeps running run_id metric m w =
      let k = set_resume_at-Keeps (record m { phase = analysis_running }) metric w in
      (k.phases, k.values, k.notes)
  settle-Keeps passed run_id metric m w = (refl, refl, refl)
  settle-Keeps failed run_id metric m w = (refl, refl, refl)
  settle-Keeps errored run_id metric m w = (refl, refl, refl)
  settle-Keeps aborted run_id metric m w = (refl, refl, refl)

  -- Everything behind `GetRunResult`, on a measurement with this map.
  pub evaluate_lem :
      (cfg : PluginConfig X) (run_id : Text) (metric : Metric) (m : Measurement)
      (result : RunResult X) {v : X.Float64} (w : W)
      → extract_metric_value result cfg.metric cfg.aggregation ≡ ok v
      → let m' = (marked H (evaluate H P cfg run_id metric m result w)).0 in
        (m'.phase ≡ phase_of result.state)
        × (m'.value ≡ X.format_float v)
        × (run_id_in m'.metadata ≡ run_id_in m.metadata)
  unfolding evaluate ◌==◌
  evaluate_lem cfg run_id metric m result {v} w h =
      let (phases, values, notes) = settle-Keeps result.state run_id metric _ w in
      let polled_map = noted (codes "testRunURL") result.test_run_url m.metadata in
      let stated_map = noted (codes "runState") (state_name result.state) (some polled_map) in
      rw (evaluate, h)
        (
          phases,
          values,
          ap run_id_in notes
              ∙ run_id_in-noted (codes "metricValue") (X.format_float v) (some stated_map) refl
              ∙ run_id_in-noted (codes "runState") (state_name result.state) (some polled_map) refl
              ∙ run_id_in-noted (codes "testRunURL") result.test_run_url m.metadata refl,
        )

  -- Where `GetRunResult` answers and the result has the wanted metric, the measurement's phase is
  -- `Running`, `Successful` or `Failed` exactly if the run is running, passed or failed, its value is the
  -- metric's, and the run ID in its metadata is still the one that was polled.
  pub resume_polled :
      (ar : Option AnalysisRun) (metric : Metric) (m : Measurement) {cfg : PluginConfig X}
      {result : RunResult X} {v : X.Float64} (w w' : W)
      → parse_config H metric ≡ ok cfg
      → is_empty (run_id_in m.metadata) ≡ false
      → P.get_run_result (populate_from_analysis_run cfg ar) (run_id_in m.metadata) w
        ≡ (ok result, w')
      → extract_metric_value result
          (populate_from_analysis_run cfg ar).metric
          (populate_from_analysis_run cfg ar).aggregation
        ≡ ok v
      → let m' = (resume H P ar metric m w).0 in
        ((m'.phase ≡ analysis_running) ↔ (result.state ≡ running))
        × ((m'.phase ≡ analysis_successful) ↔ (result.state ≡ passed))
        × ((m'.phase ≡ analysis_failed) ↔ (result.state ≡ failed))
        × (m'.value ≡ X.format_float v)
        × (run_id_in m'.metadata ≡ run_id_in m.metadata)
  unfolding resume resume_from poll
  resume_polled ar metric m {cfg} {result} w w' parsed named answer valued =
      let (phases, values, notes) =
        evaluate_lem (populate_from_analysis_run cfg ar) (run_id_in m.metadata) metric
          (with_metadata m) result w' valued in
      let (is_running, is_passed, is_failed) = phase_of_iff result.state in
      rw (parsed, named, answer, phases)
        (is_running, is_passed, is_failed, values, notes ∙ run_id_in-map_of m.metadata)

  -- `Terminate` always returns a measurement with the phase `Error`, a refused configuration included, if
  -- the controller's `MarkMeasurementError` sets that phase.
  terminate_errored :
      MarksErrors H
      → (ar : Option AnalysisRun) (metric : Metric) (m : Measurement) (w : W)
      → (terminate H P ar metric m w).0.phase ≡ analysis_error
  unfolding terminate
  terminate_errored marks ar metric m w = elim (Result-cases (parse_config H metric)) [
    | inr (e, bad) ↦ rw (terminate, bad) (marks.marks_phase m e w)
    | inl (cfg, good) ↦ rw (terminate, good) refl
  ]

  -- `StopRun` on the run of the measurement, if the configuration is valid and there is one.
  abbrev pub stop_calls : Metric → Measurement → List Call
  stop_calls metric m = elim (parse_config H metric) [
    | err e ↦ []
    | ok cfg ↦ if is_empty (run_id_in m.metadata) then [] else stopped (run_id_in m.metadata) ∷ []
  ]

  -- The only call that `Terminate` makes is `StopRun` on the run of the measurement, if the configuration
  -- is valid and the measurement has one.
  terminate-stop_calls :
      (ar : Option AnalysisRun) (metric : Metric) (m : Measurement) (log : List Call) (w : W)
      → (terminate (traced_metric_host H) (traced P) ar metric m (log, w)).1.0
        ≡ stop_calls metric m ++ log
  unfolding terminate
  terminate-stop_calls ar metric m log w = elim (Result-cases (parse_config H metric)) [
    | inr (e, bad) ↦ rw (terminate, stop_calls, parse_config-traced H metric, bad) refl
    | inl (cfg, good) ↦ elim (Bool-cases (is_empty (run_id_in m.metadata))) [
      | inl absent ↦ rw (terminate, stop_calls, parse_config-traced H metric, good, absent) refl
      | inr present ↦ rw (terminate, stop_calls, parse_config-traced H metric, good, present) refl
    ]
  ]

  -- Where the configuration is valid and there is a run to attach to or `TriggerRun` starts one, `Run`
  -- returns a running measurement that holds the run's ID.
  pub run_holds_run_id :
      (ar : Option AnalysisRun) (metric : Metric) {cfg : PluginConfig X} {run_id : Text} (w w' : W)
      → parse_config H metric ≡ ok cfg
      → obtain_run H P (populate_from_analysis_run cfg ar) (H.now w).1 ≡ (ok run_id, w')
      → let m = (run H P ar metric w).0 in
        (m.phase ≡ analysis_running) × (run_id_in m.metadata ≡ run_id)
  unfolding run run_from attach
  run_holds_run_id ar metric {cfg} {run_id} w w' parsed obtained =
      let k =
        set_resume_at-Keeps (note (codes "runId") run_id (started_measurement (H.now w).0)) metric
          w' in
      rw (parsed, obtained) (k.phases, ap run_id_in k.notes ∙ run_id_in-insert run_id)
