-- ===== src/Tests/Measures.antt =====
-- Runs of the metric plugin's theorems.
use argo_rollouts_k6_plugin.Base.{
  Text, ℕ, pos, suc, codes, [], ◌∷◌, some, ok, ◌≡◌, ◌≢◌, ◌↔◌, refl, ◌==◌, lookup, lookup_or, insert,
  true, none,
}
use argo_rollouts_k6_plugin.Provider.Config.{
  PluginConfig, clear_injected, validate_provider, is_grafana_cloud, validate_k6_operator,
}
use argo_rollouts_k6_plugin.Provider.Interface.{Provider, passed, running, failed}
use argo_rollouts_k6_plugin.Step.Traced.{Traced, cleaned, triggered, traced}
use argo_rollouts_k6_plugin.Metric.Lifecycle.{
  KeepsMetadata, resume_all, polls, results_with, resume_all-polls, lifecycle-calls,
}
use argo_rollouts_k6_plugin.Metric.Types.{
  AnalysisRun, Measurement, Metric, MetricHost, of_error, analysis_running, analysis_successful,
  analysis_failed, analysis_error, plugin_name,
}
use argo_rollouts_k6_plugin.Provider.Config.Laws.{IsAccepted}
use argo_rollouts_k6_plugin.Metric.Config.{
  parse_config, parse_config-accepts, populate_from_analysis_run, extract_metric_value,
}
use argo_rollouts_k6_plugin.Metric.Plugin.{
  run_id_in, note, started_measurement, run, resume, garbage_collect,
}
use argo_rollouts_k6_plugin.Metric.Collect.{
  traced_metric_host, all_cleaned, run_ids_of, garbage_collect-run_ids,
}
use argo_rollouts_k6_plugin.Metric.Measure.{resume_polled}
use argo_rollouts_k6_plugin.Tests.Fixtures.{platform, local_config, backend}

abbrev thresholds_config : PluginConfig platform
thresholds_config = record local_config { metric = codes "thresholds" }

abbrev metric_host : MetricHost platform ℕ
metric_host = record {
  now = λ w. (pos w, suc w);
  add = λ t d. d;
  interval = λ t. ok (pos 30);
  decode_config = λ t. ok thresholds_config;
  mark_error = λ m e w. (record m { phase = analysis_error; message = of_error e }, w);
}

abbrev metric : Metric
metric = record {
  name = codes "load";
  interval = codes "30s";
  plugin = (plugin_name, codes "{}") ∷ [];
}

abbrev measured : Measurement
measured = note (codes "runId") (codes "r1") (started_measurement (pos 3))

abbrev analysis : AnalysisRun
analysis = record {
  name = codes "a";
  uid = codes "v";
  namespace = codes "shop";
  owner_references =
      record { kind = codes "Rollout"; name = codes "web"; controller = some true } ∷ [];
  metric_results =
      record { name = codes "other"; measurements = measured ∷ [] }
      ∷ record { name = codes "load"; measurements = measured ∷ started_measurement (pos 9) ∷ [] }
      ∷ [];
}

abbrev passing : Provider platform ℕ
passing = backend (ok passed)

accepted : parse_config metric_host metric ≡ ok thresholds_config
unfolding parse_config lookup ◌==◌ clear_injected validate_provider is_grafana_cloud
    validate_k6_operator
accepted = refl

parse_config-accepts_example :
    (text : Text) × (raw : PluginConfig platform) × (lookup plugin_name metric.plugin ≡ some text)
    × (metric_host.decode_config text ≡ ok raw)
    × (thresholds_config ≡ record raw {
      rollout_name = [];
      analysis_run_name = [];
      analysis_run_uid = [];
      rollout_uid = [];
    })
    × (codes "thresholds" ≢ [])
    × IsAccepted thresholds_config
parse_config-accepts_example = parse_config-accepts metric_host metric accepted

garbage_collect-run_ids_example :
    (garbage_collect
      (traced_metric_host metric_host)
      (traced passing)
      (some analysis)
      metric
      ([], 0)).0
    ≡ all_cleaned (run_ids_of (codes "load") analysis.metric_results) []
garbage_collect-run_ids_example =
    garbage_collect-run_ids metric_host passing analysis metric [] 0 accepted

resume_polled_example :
    let m' = (resume metric_host passing (some analysis) metric measured 0).0 in
    ((m'.phase ≡ analysis_running) ↔ (passed ≡ running))
    × ((m'.phase ≡ analysis_successful) ↔ (passed ≡ passed))
    × ((m'.phase ≡ analysis_failed) ↔ (passed ≡ failed))
    × (m'.value ≡ 0 ∷ [])
    × (run_id_in m'.metadata ≡ run_id_in measured.metadata)
unfolding populate_from_analysis_run extract_metric_value lookup_or insert ◌==◌
resume_polled_example =
    resume_polled metric_host passing (some analysis) metric measured 0 0 accepted refl refl refl

metric_host-KeepsMetadata : KeepsMetadata metric_host
metric_host-KeepsMetadata = record { keeps = λ m e w. refl }

resume_all-polls_example :
    let (m', w') =
      resume_all
        (traced_metric_host metric_host)
        (traced passing)
        (none ∷ some analysis ∷ [])
        metric
        measured
        ([], 5) in
    (run_id_in m'.metadata ≡ codes "r1") × (w'.0 ≡ polls 2 (codes "r1") [])
unfolding ◌==◌ lookup lookup_or insert
resume_all-polls_example =
    resume_all-polls metric_host passing metric_host-KeepsMetadata (none ∷ some analysis ∷ [])
      metric measured [] 5 accepted refl refl

-- What the plugin is left with behind a `Run` and a `Resume`.
abbrev left_over : Measurement × Traced ℕ
left_over =
    let first = run (traced_metric_host metric_host) (traced passing) none metric ([], 0) in
    resume_all (traced_metric_host metric_host) (traced passing) (none ∷ []) metric first.0 first.1

abbrev collected : AnalysisRun
collected = record analysis { metric_results = results_with metric left_over.0 }

lifecycle-calls_example :
    (garbage_collect
      (traced_metric_host metric_host)
      (traced passing)
      (some collected)
      metric
      left_over.1).0
    ≡ cleaned (codes "r1") ∷ polls 1 (codes "r1") (triggered (some (codes "r1")) ∷ [])
unfolding populate_from_analysis_run
lifecycle-calls_example =
    lifecycle-calls metric_host passing metric_host-KeepsMetadata none (none ∷ []) collected metric
      [] 0 1 accepted refl refl refl refl
