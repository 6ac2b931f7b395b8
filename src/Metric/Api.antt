-- ===== src/Metric/Api.antt =====
-- `K6MetricProvider` of internal/metric/metric.go as the RPC server holds it: its only field, and the
-- methods that say who it is.
use argo_rollouts_k6_plugin.Base.{Text, Option, none, Dict, []}
use argo_rollouts_k6_plugin.Provider.Errors.{Err}
use argo_rollouts_k6_plugin.Provider.Config.{Platform}
use argo_rollouts_k6_plugin.Provider.Interface.{Provider}
use argo_rollouts_k6_plugin.Metric.Types.{Metric, plugin_name}

pub record K6MetricProvider (X : Platform) (W : Type 0) : Type 0 where
  pub provider : Provider X W

module _ {X : Platform} {W : Type 0} where
  abbrev pub new_metric_provider : Provider X W → K6MetricProvider X W
  new_metric_provider p = record { provider = p }

  -- No error.
  abbrev pub init_plugin : K6MetricProvider X W → Option Err
  init_plugin k = none

  abbrev pub plugin_type : K6MetricProvider X W → Text
  plugin_type k = plugin_name

  -- An empty map.
  abbrev pub get_metadata : K6MetricProvider X W → Metric → Dict Text
  get_metadata k metric = []
