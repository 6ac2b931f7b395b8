-- ===== src/Metric/Lifecycle.antt =====
-- A measurement of the metric plugin from `Run` over any number of `Resume`s to `GarbageCollect`.
use argo_rollouts_k6_plugin.Base.{
  Text, ℕ, zero, suc, inl, inr, is_empty, ◌==◌, ==_refl, false, true, Option, some, ok, List, [],
  ◌∷◌, ◌++◌, ◌≡◌, refl, ◌∙◌, ap, Result-cases, codes, length,
}
use argo_rollouts_k6_plugin.Provider.Errors.{Err}
use argo_rollouts_k6_plugin.Provider.Config.{Platform, PluginConfig}
use argo_rollouts_k6_plugin.Provider.Interface.{
  Provider, RunResult, RunState, running, passed, failed, errored, aborted, state_name,
}
use argo_rollouts_k6_plugin.Step.Traced.{Call, triggered, polled, cleaned, Traced, traced}
use argo_rollouts_k6_plugin.Metric.Types.{
  AnalysisRun, Measurement, Metric, MetricHost, MetricResult,
}
use argo_rollouts_k6_plugin.Metric.Config.{
  parse_config, populate_from_analysis_run, extract_metric_value,
}
use argo_rollouts_k6_plugin.Metric.Plugin.{
  run_id_in, noted, marked, evaluate, poll, resume_from, resume, settle, with_metadata, run,
  garbage_collect, obtain_run,
}
use argo_rollouts_k6_plugin.Metric.Collect.{
  traced_metric_host, parse_config-traced, all_cleaned, run_ids_of, garbage_collect-run_ids,
}
use argo_rollouts_k6_plugin.Metric.Measure.{
  trigger_call, evaluate_lem, run_id_in-noted, run_id_in-map_of, set_resume_at-log,
  run_holds_run_id, run-run_calls, run_calls, test_run_id-populate,
}

module _ {X : Platform} {W : Type 0} (H : MetricHost X W) where
  -- `MarkMeasurementError` leaves the metadata alone.
  pub record KeepsMetadata : Type 0 where
    pub keeps : (m : Measurement) (e : Err) (w : W) → (H.mark_error m e w).0.metadata ≡ m.metadata

module _ {X : Platform} {W : Type 0} (H : MetricHost X W) (P : Provider X W) where
  -- `Resume`, once for each AnalysisRun, on the measurement that the call before returned.
  unfoldable pub resume_all : List (Option AnalysisRun) → Metric → Measurement → W → Measurement × W
  resume_all [] metric m w = (m, w)
  resume_all (ar ∷ ars) metric m w =
      let (m', w') = resume H P ar metric m w in resume_all ars metric m' w'

-- A log with `n` polls of a run on top.
abbrev pub polls : ℕ → Text → List Call → List Call
polls zero run_id log = log
polls (suc n) run_id log = polls n run_id (polled run_id ∷ log)

-- The results that the controller keeps of one metric with one measurement.
abbrev pub results_with : Metric → Measurement → List MetricResult
results_with metric m = record { name = metric.name; measurements = m ∷ [] } ∷ []

run_ids_of-results_with :
    (metric : Metric) (m : Measurement) {run_id : Text}
    → run_id_in m.metadata ≡ run_id
    → is_empty run_id ≡ false
    → run_ids_of metric.name (results_with metric m) ≡ run_id ∷ []
run_ids_of-results_with metric m same named = rw (==_refl metric.name, same, named) refl

module _ {X : Platform} {W : Type 0} (H : MetricHost X W) (P : Provider X W)
    (keeping_notes : KeepsMetadata H) where
  settle-log :
      (state : RunState) (run_id : Text) (metric : Metric) (m : Measurement) (log : List Call)
      (w : W)
      → (settle (traced_metric_host H) state run_id metric m (log, w)).1.0 ≡ log
  unfolding settle
  settle-log running run_id metric m log w = set_resume_at-log H P _ metric log w
  settle-log passed run_id metric m log w = refl
  settle-log failed run_id metric m log w = refl
  settle-log errored run_id metric m log w = refl
  settle-log aborted run_id metric m log w = refl

  -- What a measurement and the log behind a call say: the run ID is still this one, and this is the log.
  record Holds (run_id : Text) (log : List Call) (out : Measurement × Traced W) : Type 0 where
    holds : run_id_in out.0.metadata ≡ run_id
    logged : out.1.0 ≡ log

  evaluate-Holds :
      (cfg : PluginConfig X) (run_id : Text) (metric : Metric) (m : Measurement)
      (result : RunResult X) (log : List Call) (w : W)
      → Holds (run_id_in m.metadata) log (
          marked
            (traced_metric_host H)
            (evaluate (traced_metric_host H) (traced P) cfg run_id metric m result (log, w)))
  unfolding evaluate ◌==◌
  evaluate-Holds cfg run_id metric m result log w =
      elim (Result-cases (extract_metric_value result cfg.metric cfg.aggregation)) [
        | inl (v, h) ↦
            let (phases, values, held) =
              evaluate_lem (traced_metric_host H) (traced P) cfg run_id metric m result (log, w)
                h in
            record {
              holds = held;
              logged = rw (evaluate, h) (settle-log result.state run_id metric _ log w);
            }
        | inr (e, h) ↦
            let polled_map = noted (codes "testRunURL") result.test_run_url m.metadata in
            rw (evaluate, h)
              (record {
                holds =
                    ap run_id_in (keeping_notes.keeps _ e w)
                    ∙ run_id_in-noted (codes "runState") (state_name result.state) (some polled_map)
                        refl
                    ∙ run_id_in-noted (codes "testRunURL") result.test_run_url m.metadata refl;
                logged = refl;
              })
      ]

  resume-Holds :
      (ar : Option AnalysisRun) (metric : Metric) (m : Measurement) {cfg : PluginConfig X}
      (log : List Call) (w : W)
      → parse_config H metric ≡ ok cfg
      → is_empty (run_id_in m.metadata) ≡ false
      → let run_id = run_id_in m.metadata in
        Holds run_id
          (polled run_id ∷ log)
          (resume (traced_metric_host H) (traced P) ar metric m (log, w))
  unfolding resume resume_from poll
  resume-Holds ar metric m {cfg} log w parsed named =
      let cfg' = populate_from_analysis_run cfg ar in
      let run_id = run_id_in m.metadata in
      elim (Result-cases (P.get_run_result cfg' run_id w).0) [
        | inl (result, answer) ↦
            let h =
              evaluate-Holds cfg' run_id metric (with_metadata m) result (polled run_id ∷ log)
                (P.get_run_result cfg' run_id w).1 in
            rw (parse_config-traced H metric, parsed, named, answer)
              (record { holds = h.holds ∙ run_id_in-map_of m.metadata; logged = h.logged })
        | inr (e, bad) ↦
            rw (parse_config-traced H metric, parsed, named, bad)
              (record {
                holds = ap run_id_in (keeping_notes.keeps _ e _) ∙ run_id_in-map_of m.metadata;
                logged = refl;
              })
      ]

  -- However often the controller resumes a measurement that holds a run ID, with a valid configuration, each
  -- `Resume` polls that run once and makes no other call, and the measurement still holds the ID, whatever
  -- the polls answer, errors included. This supposes that the controller's `MarkMeasurementError`
  -- leaves the metadata alone.
  pub resume_all-polls :
      (ars : List (Option AnalysisRun)) (metric : Metric) (m : Measurement) {cfg : PluginConfig X}
      {run_id : Text} (log : List Call) (w : W)
      → parse_config H metric ≡ ok cfg
      → run_id_in m.metadata ≡ run_id
      → is_empty run_id ≡ false
      → let (m', w') = resume_all (traced_metric_host H) (traced P) ars metric m (log, w) in
        (run_id_in m'.metadata ≡ run_id) × (w'.0 ≡ polls (length ars) run_id log)
  unfolding resume_all
  resume_all-polls [] metric m log w parsed same named = (same, refl)
  resume_all-polls (ar ∷ ars) metric m {cfg} {run_id} log w parsed same named =
      let out = resume (traced_metric_host H) (traced P) ar metric m (log, w) in
      let h = resume-Holds ar metric m log w parsed (rw same named) in
      let (holds, logged) =
        resume_all-polls ars metric out.0 out.1.0 out.1.1 parsed (h.holds ∙ same) named in
      (holds, logged ∙ ap (polls (length ars) run_id) (h.logged ∙ ap (λ t. polled t ∷ log) same))

  obtain_run-triggered :
      (cfg : PluginConfig X) {run_id : Text} (log : List Call) (w : W) {w' : W}
      → is_empty cfg.test_run_id ≡ true
      → P.trigger_run cfg w ≡ (ok run_id, w')
      → obtain_run (traced_metric_host H) (traced P) cfg (log, w)
        ≡ (ok run_id, (triggered (some run_id) ∷ log, w'))
  unfolding obtain_run
  obtain_run-triggered cfg log w fresh started = rw (fresh, started) refl

  run_calls-fresh :
      (ar : Option AnalysisRun) (metric : Metric) {cfg : PluginConfig X} {run_id : Text} (w : W)
      {w' : W}
      → parse_config H metric ≡ ok cfg
      → is_empty cfg.test_run_id ≡ true
      → P.trigger_run (populate_from_analysis_run cfg ar) (H.now w).1 ≡ (ok run_id, w')
      → run_calls H P ar metric w ≡ triggered (some run_id) ∷ []
  run_calls-fresh ar metric {cfg} w parsed fresh started =
      let unnamed = ap is_empty (test_run_id-populate H P cfg ar) ∙ fresh in
      rw (run_calls, parsed, trigger_call, unnamed, started) refl

  -- The life of a run that the metric plugin started: `Run` calls `TriggerRun`, each `Resume` polls the run,
  -- and `GarbageCollect` on the measurement that the last of them returned calls `Cleanup` on it; there is
  -- no other call. This supposes a valid configuration that names no run to attach to, a run ID that is
  -- not empty, and that the controller's `MarkMeasurementError` leaves the metadata alone.
  pub lifecycle-calls :
      (ar : Option AnalysisRun) (ars : List (Option AnalysisRun)) (collected : AnalysisRun)
      (metric : Metric) {cfg : PluginConfig X} {run_id : Text} (log : List Call) (w w' : W)
      → parse_config H metric ≡ ok cfg
      → is_empty cfg.test_run_id ≡ true
      → P.trigger_run (populate_from_analysis_run cfg ar) (H.now w).1 ≡ (ok run_id, w')
      → is_empty run_id ≡ false
      → let H' = traced_metric_host H in
        let P' = traced P in
        let (m, w1) = run H' P' ar metric (log, w) in
        let (m', w2) = resume_all H' P' ars metric m w1 in
        collected.metric_results ≡ results_with metric m'
        → (garbage_collect H' P' (some collected) metric w2).0
          ≡ cleaned run_id ∷ polls (length ars) run_id (triggered (some run_id) ∷ log)
  lifecycle-calls ar ars collected metric {cfg} {run_id} log w w' parsed fresh started named kept =
      let H' = traced_metric_host H in
      let P' = traced P in
      let first = run H' P' ar metric (log, w) in
      let (phase, held) =
        run_holds_run_id H' P' ar metric (log, w) (triggered (some run_id) ∷ log, w')
          (parse_config-traced H metric ∙ parsed)
          (obtain_run-triggered (populate_from_analysis_run cfg ar) log (H.now w).1
            (ap is_empty (test_run_id-populate H P cfg ar) ∙ fresh) started) in
      let (held', logged) =
        resume_all-polls ars metric first.0 first.1.0 first.1.1 parsed held named in
      let last = resume_all H' P' ars metric first.0 first.1 in
      garbage_collect-run_ids H P collected metric last.1.0 last.1.1 parsed
      ∙ ap (λ results. all_cleaned (run_ids_of metric.name results) last.1.0) kept
      ∙ ap (λ ids. all_cleaned ids last.1.0) (run_ids_of-results_with metric last.0 held' named)
      ∙ ap (λ calls. cleaned run_id ∷ calls) logged
      ∙ ap (λ calls. cleaned run_id ∷ polls (length ars) run_id calls)
          (run-run_calls H P ar metric log w
            ∙ ap (λ calls. calls ++ log) (run_calls-fresh ar metric w parsed fresh started))
