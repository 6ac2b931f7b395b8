-- ===== src/Provider/Router.antt =====
-- internal/provider/router.go: the router that hands each call to the backend that the
-- configuration names.
pub mod Laws
use argo_rollouts_k6_plugin.Base.{
  Text, Dict, lookup, insert, keys, is_empty, codes, if◌then◌else◌, List, [], ◌∷◌, none, some,
  Result, ok, err, Eff, pure, ◌>>=◌,
}
use argo_rollouts_k6_plugin.Base.Sort.{sort_strings}
use argo_rollouts_k6_plugin.Provider.Errors.{Err, unknown_provider}
use argo_rollouts_k6_plugin.Provider.Config.{Platform, PluginConfig, grafana_cloud}
use argo_rollouts_k6_plugin.Provider.Interface.{Provider, RunResult}

pub record Router (X : Platform) (W : Type 0) : Type 0 where
  pub providers : Dict (Provider X W)
  pub fallback : Text

abbrev pub RouterOption : Platform → Type 0 → Type 0
RouterOption X W = Router X W → Router X W

module _ {X : Platform} {W : Type 0} where
  abbrev pub with_provider : Text → Provider X W → RouterOption X W
  with_provider name p r = record r { providers = insert name p r.providers }

  -- The loop of `NewRouter` over its options.
  abbrev pub apply_options : List (RouterOption X W) → Router X W → Router X W
  apply_options [] r = r
  apply_options (opt ∷ opts) r = apply_options opts (opt r)

  unfoldable pub new_router : List (RouterOption X W) → Router X W
  new_router opts = apply_options opts (record { providers = []; fallback = grafana_cloud })

  -- The name that `resolve` looks up.
  unfoldable pub provider_name : Router X W → PluginConfig X → Text
  provider_name r cfg = if is_empty cfg.provider then r.fallback else cfg.provider

  unfoldable pub resolve : Router X W → PluginConfig X → Result Err (Provider X W)
  resolve r cfg =
      let name = provider_name r cfg in
      elim (lookup name r.providers) [
        | none ↦ err (unknown_provider name (sort_strings (keys r.providers)))
        | some p ↦ ok p
      ]

  unfoldable pub route_trigger_run : Router X W → PluginConfig X → Eff W Err Text
  route_trigger_run r cfg = do p ← pure (resolve r cfg); p.trigger_run cfg

  unfoldable pub route_get_run_result : Router X W → PluginConfig X → Text → Eff W Err (RunResult X)
  route_get_run_result r cfg run_id = do p ← pure (resolve r cfg); p.get_run_result cfg run_id

  unfoldable pub route_stop_run : Router X W → PluginConfig X → Text → Eff W Err (Unit {0})
  route_stop_run r cfg run_id = do p ← pure (resolve r cfg); p.stop_run cfg run_id

  unfoldable pub route_cleanup : Router X W → PluginConfig X → Text → Eff W Err (Unit {0})
  route_cleanup r cfg run_id = do p ← pure (resolve r cfg); p.cleanup cfg run_id

  unfoldable pub as_provider : Router X W → Provider X W
  unfolding route_trigger_run route_get_run_result route_stop_run route_cleanup
  as_provider r = record {
    trigger_run = route_trigger_run r;
    get_run_result = route_get_run_result r;
    stop_run = route_stop_run r;
    cleanup = route_cleanup r;
    name = codes "router";
  }
