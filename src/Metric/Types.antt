-- ===== src/Metric/Types.antt =====
-- The data of internal/metric/metric.go: the controller's analysis types, as far as the plugin reads or
-- writes them, and what it uses of Go's library and of the controller's.
use argo_rollouts_k6_plugin.Base.{Text, ℤ, Bool, List, Option, Dict, Result, codes, ◌≡◌}
use argo_rollouts_k6_plugin.Provider.Errors.{Err, Fault}
use argo_rollouts_k6_plugin.Provider.Config.{Platform, PluginConfig}
use argo_rollouts_k6_plugin.Provider.Interface.{RunState}

-- `unset` is the empty phase.
pub data AnalysisPhase : Type 0 where
  unset analysis_running analysis_successful analysis_failed analysis_error : AnalysisPhase

-- `raw` is any other message.
pub data MetricMessage : Type 0 where
  raw : Text → MetricMessage
  of_error : Err → MetricMessage
  run_ended : RunState → Text → MetricMessage
  measurement_terminated : MetricMessage

-- `metadata` is `none` for a nil map.
pub record Measurement : Type 0 where
  pub phase : AnalysisPhase
  pub message : MetricMessage
  pub started_at : Option ℤ
  pub finished_at : Option ℤ
  pub resume_at : Option ℤ
  pub value : Text
  pub metadata : Option (Dict Text)

pub record MetricResult : Type 0 where
  pub name : Text
  pub measurements : List Measurement

pub record Owner : Type 0 where
  pub kind : Text
  pub name : Text
  pub controller : Option Bool

pub record AnalysisRun : Type 0 where
  pub name : Text
  pub uid : Text
  pub namespace : Text
  pub owner_references : List Owner
  pub metric_results : List MetricResult

-- `plugin` is `metric.Provider.Plugin`, the raw configurations by plugin.
pub record Metric : Type 0 where
  pub name : Text
  pub interval : Text
  pub plugin : Dict Text

abbrev pub plugin_name : Text
plugin_name = codes "jmichalek132/k6"

-- `mark_error` is `metricutil.MarkMeasurementError`, which reads the clock.
pub record MetricHost (X : Platform) (W : Type 0) : Type 0 where
  pub now : W → ℤ × W
  pub add : ℤ → ℤ → ℤ
  pub interval : Text → Result Fault ℤ
  pub decode_config : Text → Result Fault (PluginConfig X)
  pub mark_error : Measurement → Err → W → Measurement × W

-- What `MarkMeasurementError` documents: the phase and the message of the error.
pub record MarksErrors {X : Platform} {W : Type 0} (H : MetricHost X W) : Type 0 where
  pub marks_phase :
      (m : Measurement) (e : Err) (w : W) → (H.mark_error m e w).0.phase ≡ analysis_error
  pub marks_message :
      (m : Measurement) (e : Err) (w : W) → (H.mark_error m e w).0.message ≡ of_error e
