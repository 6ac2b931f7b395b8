-- ===== src/Cmd/Wiring.antt =====
-- `main` of cmd/metric-plugin/main.go and of cmd/step-plugin/main.go: how each executable puts the
-- plugin on top of the router and the router on top of the two backends, and what it serves. The
-- environment is a function, which is empty where a variable is not set.
use argo_rollouts_k6_plugin.Base.{Text, ℕ, codes, is_empty, if◌then◌else◌, List, [], ◌∷◌, none}
use argo_rollouts_k6_plugin.Provider.Config.{Platform, grafana_cloud, k6_operator}
use argo_rollouts_k6_plugin.Provider.Interface.{Provider}
use argo_rollouts_k6_plugin.Provider.Router.{Router, new_router, with_provider, as_provider}
use argo_rollouts_k6_plugin.Cloud.Types.{CloudApi}
use argo_rollouts_k6_plugin.Cloud.Options.{CloudOption, with_base_url, new_grafana_cloud_provider}
use argo_rollouts_k6_plugin.Cloud.Plugin.{cloud_provider}
use argo_rollouts_k6_plugin.Operator.Types.{Kube}
use argo_rollouts_k6_plugin.Operator.Client.{OperatorState, OperatorWorld, new_operator}
use argo_rollouts_k6_plugin.Operator.Plugin.{operator_provider}
use argo_rollouts_k6_plugin.Cmd.Logging.{Level, logging_level}
use argo_rollouts_k6_plugin.Cmd.Worlds.{api_beside}
use argo_rollouts_k6_plugin.Step.Api.{K6StepPlugin, new_step_plugin}
use argo_rollouts_k6_plugin.Metric.Api.{K6MetricProvider, new_metric_provider}

pub record HandshakeConfig : Type 0 where
  pub protocol_version : ℕ
  pub magic_cookie_key : Text
  pub magic_cookie_value : Text

abbrev handshake_for : Text → HandshakeConfig
handshake_for value = record {
  protocol_version = 1;
  magic_cookie_key = codes "ARGO_ROLLOUTS_RPC_PLUGIN";
  magic_cookie_value = value;
}

abbrev pub metric_handshake : HandshakeConfig
metric_handshake = handshake_for (codes "metricprovider")

abbrev pub step_handshake : HandshakeConfig
step_handshake = handshake_for (codes "step")

-- What `main` gives to `goPlugin.Serve`, with the level of the logger: `plugin` is the name that the
-- implementation is registered under.
pub record Served (I : Type 0) : Type 0 where
  pub level : Level
  pub handshake : HandshakeConfig
  pub plugin : Text
  pub impl : I

unfoldable pub cloud_options : Text → List CloudOption
cloud_options url = if is_empty url then [] else with_base_url url ∷ []

-- The base URL of the Grafana Cloud backend, by the value of `K6_BASE_URL`.
unfoldable pub base_url_of : Text → Text
base_url_of url = let p = new_grafana_cloud_provider (cloud_options url) in p.base_url

module _ {X : Platform} {W : Type 0} (A : CloudApi X W) (K : Kube X W) (env : Text → Text) where
  abbrev pub cloud_backend : Provider X (OperatorWorld K)
  cloud_backend =
      cloud_provider (api_beside (OperatorState K) A) (base_url_of (env (codes "K6_BASE_URL")))

  abbrev pub operator_backend : Provider X (OperatorWorld K)
  operator_backend = operator_provider K none

  unfoldable pub main_router : Router X (OperatorWorld K)
  main_router =
      new_router (
        with_provider grafana_cloud cloud_backend ∷ with_provider k6_operator operator_backend ∷ [])

  abbrev pub main_provider : Provider X (OperatorWorld K)
  main_provider = as_provider main_router

  unfoldable pub step_main : Served (K6StepPlugin X (OperatorWorld K))
  step_main = record {
    level = logging_level (env (codes "LOG_LEVEL"));
    handshake = step_handshake;
    plugin = codes "RpcStepPlugin";
    impl = new_step_plugin main_provider;
  }

  unfoldable pub metric_main : Served (K6MetricProvider X (OperatorWorld K))
  metric_main = record {
    level = logging_level (env (codes "LOG_LEVEL"));
    handshake = metric_handshake;
    plugin = codes "RpcMetricProviderPlugin";
    impl = new_metric_provider main_provider;
  }

-- The world in which an executable starts: the operator backend has made no clients.
abbrev pub at_start : {X : Platform} {W : Type 0} (K : Kube X W) → W → OperatorWorld K
at_start K w = (new_operator K, w)
