-- ===== src/Metric/Config.antt =====
-- `parseConfig`, `populateFromAnalysisRun` and `extractMetricValue` of internal/metric/metric.go.
use argo_rollouts_k6_plugin.Base.{
  Text, is_empty, codes, ◌==◌, lookup, if◌then◌else◌, ◌&&◌, Bool, false, Option, none, some, Result,
  ok, err, List, [], ◌∷◌, ◌≡◌, ◌≢◌, arith, inl, inr, Option-cases, Result-cases,
}
use argo_rollouts_k6_plugin.Provider.Errors.{
  Err, plugin_config_missing, unmarshal_config, metric_required, aggregation_required,
  unsupported_aggregation, unsupported_metric,
}
use argo_rollouts_k6_plugin.Provider.Config.{
  Platform, PluginConfig, clear_injected, validate_provider,
}
use argo_rollouts_k6_plugin.Provider.Config.Laws.{IsAccepted, validate_provider_sound}
use argo_rollouts_k6_plugin.Provider.Interface.{RunResult, Percentiles}
use argo_rollouts_k6_plugin.Metric.Types.{AnalysisRun, Owner, Metric, MetricHost, plugin_name}

-- The owner that the loop stops at.
abbrev pub is_rollout_controller : Owner → Bool
is_rollout_controller owner =
    owner.kind == codes "Rollout" && elim owner.controller [ none ↦ false | some flag ↦ flag ]

-- The name of the first such owner.
abbrev pub rollout_owner : List Owner → Option Text
rollout_owner [] = none
rollout_owner (owner ∷ owners) =
    let rest = rollout_owner owners in if is_rollout_controller owner then some owner.name else rest

module _ {X : Platform} where
  -- The configuration with the name of the owning Rollout, if there is one.
  abbrev pub named_after : Option Text → PluginConfig X → PluginConfig X
  named_after none cfg = cfg
  named_after (some name) cfg = record cfg { rollout_name = name }

  unfoldable pub populate_from_analysis_run : PluginConfig X → Option AnalysisRun → PluginConfig X
  populate_from_analysis_run cfg none = cfg
  populate_from_analysis_run cfg (some ar) =
      named_after (rollout_owner ar.owner_references) (record cfg {
        analysis_run_name = ar.name;
        analysis_run_uid = ar.uid;
        namespace = if is_empty cfg.namespace then ar.namespace else cfg.namespace;
      })

  -- The checks behind `json.Unmarshal`.
  abbrev check_config : PluginConfig X → Result Err (PluginConfig X)
  check_config cfg =
      if is_empty cfg.metric
      then err metric_required
      else elim (validate_provider cfg) [ ok _ ↦ ok cfg | err e ↦ err e ]

  -- The percentile that an aggregation names.
  abbrev pub percentile : Percentiles X → Text → Result Err X.Float64
  percentile p aggregation =
      if aggregation == codes "p50"
      then ok p.p50
      else if aggregation == codes "p95"
      then ok p.p95
      else if aggregation == codes "p99"
      then ok p.p99
      else if is_empty aggregation
      then err aggregation_required
      else err (unsupported_aggregation aggregation)

  unfoldable pub extract_metric_value : RunResult X → Text → Text → Result Err X.Float64
  extract_metric_value result metric aggregation =
      if metric == codes "thresholds"
      then ok (if result.thresholds_passed then X.float_one else X.float_zero)
      else if metric == codes "http_req_failed"
      then ok result.http_req_failed
      else if metric == codes "http_req_duration"
      then percentile result.http_req_duration aggregation
      else if metric == codes "http_reqs"
      then ok result.http_reqs
      else err (unsupported_metric metric)

module _ {X : Platform} {W : Type 0} (H : MetricHost X W) where
  unfoldable pub parse_config : Metric → Result Err (PluginConfig X)
  parse_config metric = elim (lookup plugin_name metric.plugin) [
    | none ↦ err plugin_config_missing
    | some text ↦ elim (H.decode_config text) [
      | err e ↦ err (unmarshal_config e)
      | ok cfg ↦ check_config (clear_injected cfg)
    ]
  ]

  check_config_sound :
      (raw : PluginConfig X) {cfg : PluginConfig X}
      → check_config raw ≡ ok cfg
      → (raw.metric ≢ []) × (validate_provider raw ≡ ok tt) × (cfg ≡ raw)
  check_config_sound raw h = ground arith

  -- An accepted configuration is the user's JSON, but for the four fields of the identity, which are empty
  -- whatever the JSON says. It names a metric. For Grafana Cloud it has a token, a stack and a test or a
  -- run; for the k6 operator it names a ConfigMap and a key of it, and its parallelism is not negative.
  pub parse_config-accepts :
      (metric : Metric) {cfg : PluginConfig X}
      → parse_config metric ≡ ok cfg
      → (text : Text) × (raw : PluginConfig X) × (lookup plugin_name metric.plugin ≡ some text)
        × (H.decode_config text ≡ ok raw)
        × (cfg ≡ record raw {
          rollout_name = [];
          analysis_run_name = [];
          analysis_run_uid = [];
          rollout_uid = [];
        })
        × (cfg.metric ≢ [])
        × IsAccepted cfg
  unfolding parse_config clear_injected
  parse_config-accepts metric {cfg} h = elim (Option-cases (lookup plugin_name metric.plugin)) [
    | inl absent ↦ absurd (ground arith)
    | inr (text, present) ↦ elim (Result-cases (H.decode_config text)) [
      | inr (e, bad) ↦ absurd (ground arith)
      | inl (raw, good) ↦
          let (named, valid, same) =
            check_config_sound (clear_injected raw) (rw (parse_config, present, good) at h) in
          (
            text,
            raw,
            present,
            good,
            same,
            rw same named,
            rw same (validate_provider_sound (clear_injected raw) valid),
          )
    ]
  ]
