-- ===== src/Provider/Mock.antt =====
-- internal/provider/providertest/mock.go: the backend of the unit tests, whose operations are functions
-- that a test sets, or defaults.
use argo_rollouts_k6_plugin.Base.{Text, codes, [], false, Option, none, some, Eff, return}
use argo_rollouts_k6_plugin.Provider.Errors.{Err}
use argo_rollouts_k6_plugin.Provider.Config.{Platform, PluginConfig}
use argo_rollouts_k6_plugin.Provider.Interface.{Provider, RunResult, running, result_of}

-- A nil function is `none`.
pub record MockProvider (X : Platform) (W : Type 0) : Type 0 where
  pub trigger_run_fn : Option (PluginConfig X → Eff W Err Text)
  pub get_run_result_fn : Option (PluginConfig X → Text → Eff W Err (RunResult X))
  pub stop_run_fn : Option (PluginConfig X → Text → Eff W Err (Unit {0}))
  pub cleanup_fn : Option (PluginConfig X → Text → Eff W Err (Unit {0}))

-- `&MockProvider{}`
abbrev pub unset_mock : {X : Platform} {W : Type 0} → MockProvider X W
unset_mock = record {
  trigger_run_fn = none;
  get_run_result_fn = none;
  stop_run_fn = none;
  cleanup_fn = none;
}

abbrev or_default : {A : Type 0} → Option A → A → A
or_default none default = default
or_default (some f) default = f

module _ {X : Platform} {W : Type 0} where
  abbrev pub mock_provider : MockProvider X W → Provider X W
  mock_provider m = record {
    trigger_run = or_default m.trigger_run_fn (λ cfg. return (codes "mock-run-123"));
    get_run_result =
        or_default m.get_run_result_fn (λ cfg run_id. return (result_of X running [] false));
    stop_run = or_default m.stop_run_fn (λ cfg run_id. return tt);
    cleanup = or_default m.cleanup_fn (λ cfg run_id. return tt);
    name = codes "mock";
  }
