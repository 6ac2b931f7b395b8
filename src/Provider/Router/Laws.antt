-- ===== src/Provider/Router/Laws.antt =====
-- Which backend a call reaches, and what the error of an unknown one says.
use mathlib.Core.List.{Perm}
use argo_rollouts_k6_plugin.Base.{
  Text, Dict, lookup, lookup-insert, keys, ◌==◌, if◌then◌else◌, List, [], ◌∷◌, Option, none, ap,
  Bool, true, false, some, ok, err, ◌≡◌, refl, ◌∙◌, arith, is_empty,
}
use argo_rollouts_k6_plugin.Base.Sort.{
  contains, contains-sort_strings, sort_strings, IsSorted, sort_strings-IsSorted,
  sort_strings_of_perm,
}
use argo_rollouts_k6_plugin.Provider.Errors.{Err, unknown_provider}
use argo_rollouts_k6_plugin.Provider.Config.{Platform, PluginConfig, grafana_cloud}
use argo_rollouts_k6_plugin.Provider.Interface.{Provider}
use argo_rollouts_k6_plugin.Provider.Router.{
  Router, RouterOption, with_provider, apply_options, new_router, provider_name, resolve,
  as_provider,
}

-- The last entry for a name.
abbrev pub latest : {P : Type 0} → Text → List (Text × P) → Option P
latest k [] = none
latest k ((j, p) ∷ regs) = elim (latest k regs) [
  | some q ↦ some q
  | none ↦ if j == k then some p else none
]

-- The name that a configuration asks for.
abbrev pub requested : {X : Platform} → PluginConfig X → Text
requested cfg = if is_empty cfg.provider then grafana_cloud else cfg.provider

abbrev pub is_some : {P : Type 0} → Option P → Bool
is_some none = false
is_some (some p) = true

contains-keys : {P : Type 0} (k : Text) (d : Dict P) → contains k (keys d) ≡ is_some (lookup k d)
unfolding keys lookup
contains-keys k [] = refl
contains-keys k ((j, p) ∷ d) = ground (arith, contains-keys k d)

module _ {X : Platform} {W : Type 0} where
  abbrev pub registrations : List (Text × Provider X W) → List (RouterOption X W)
  registrations [] = []
  registrations ((name, p) ∷ regs) = with_provider name p ∷ registrations regs

  lookup-apply_options :
      (k : Text) (regs : List (Text × Provider X W)) (r : Router X W)
      → lookup k (apply_options (registrations regs) r).providers
        ≡ elim (latest k regs) [ some q ↦ some q | none ↦ lookup k r.providers ]
  lookup-apply_options k [] r = refl
  lookup-apply_options k ((j, p) ∷ regs) r =
      ground
        (arith, lookup-apply_options k regs (with_provider j p r), lookup-insert j k p r.providers)

  fallback-apply_options :
      (regs : List (Text × Provider X W)) (r : Router X W)
      → (apply_options (registrations regs) r).fallback ≡ r.fallback
  fallback-apply_options [] r = refl
  fallback-apply_options ((j, p) ∷ regs) r = fallback-apply_options regs (with_provider j p r)

  abbrev pub router_of : List (Text × Provider X W) → Router X W
  router_of regs = new_router (registrations regs)

  lookup-router_of :
      (k : Text) (regs : List (Text × Provider X W))
      → lookup k (router_of regs).providers ≡ latest k regs
  unfolding new_router lookup
  lookup-router_of k regs =
      ground
        (arith, lookup-apply_options k regs (record { providers = []; fallback = grafana_cloud }))

  provider_name-router_of :
      (regs : List (Text × Provider X W)) (cfg : PluginConfig X)
      → provider_name (router_of regs) cfg ≡ requested cfg
  unfolding new_router provider_name
  provider_name-router_of regs cfg =
      ground
        (arith, fallback-apply_options regs (record { providers = []; fallback = grafana_cloud }))

  abbrev pub names_of : List (Text × Provider X W) → List Text
  names_of regs = sort_strings (keys (router_of regs).providers)

  pub resolve-router_of :
      (regs : List (Text × Provider X W)) (cfg : PluginConfig X)
      → resolve (router_of regs) cfg ≡ elim (latest (requested cfg) regs) [
        | none ↦ err (unknown_provider (requested cfg) (names_of regs))
        | some p ↦ ok p
      ]
  unfolding resolve
  resolve-router_of regs cfg =
      ground (arith, provider_name-router_of regs cfg, lookup-router_of (requested cfg) regs)

  -- Two backends, or the errors of two, behave alike on a configuration.
  pub record SameCalls (p q : Provider X W) (cfg : PluginConfig X) : Type 0 where
    pub trigger : p.trigger_run cfg ≡ q.trigger_run cfg
    pub get : (run_id : Text) → p.get_run_result cfg run_id ≡ q.get_run_result cfg run_id
    pub stop : (run_id : Text) → p.stop_run cfg run_id ≡ q.stop_run cfg run_id
    pub clean : (run_id : Text) → p.cleanup cfg run_id ≡ q.cleanup cfg run_id

  -- A backend on which every call fails with the same error and touches nothing.
  abbrev pub failing : Err → Provider X W
  failing e = record {
    trigger_run = λ cfg w. (err e, w);
    get_run_result = λ cfg run_id w. (err e, w);
    stop_run = λ cfg run_id w. (err e, w);
    cleanup = λ cfg run_id w. (err e, w);
    name = [];
  }

  pub SameCalls-of_ok :
      (r : Router X W) (cfg : PluginConfig X) (p : Provider X W)
      → resolve r cfg ≡ ok p
      → SameCalls (as_provider r) p cfg
  unfolding as_provider
  SameCalls-of_ok r cfg p h = record {
    trigger = rw h;
    get = λ run_id. rw h;
    stop = λ run_id. rw h;
    clean = λ run_id. rw h;
  }

  pub SameCalls-of_err :
      (r : Router X W) (cfg : PluginConfig X) (e : Err)
      → resolve r cfg ≡ err e
      → SameCalls (as_provider r) (failing e) cfg
  unfolding as_provider
  SameCalls-of_err r cfg e h = record {
    trigger = rw h;
    get = λ run_id. rw h;
    stop = λ run_id. rw h;
    clean = λ run_id. rw h;
  }

  -- A router built by `NewRouter` makes every call of a configuration on the backend that was
  -- registered last under the requested name, where an empty name requests "grafana-cloud".
  pub router-dispatch :
      (regs : List (Text × Provider X W)) (cfg : PluginConfig X) {p : Provider X W}
      → latest (requested cfg) regs ≡ some p
      → SameCalls (as_provider (router_of regs)) p cfg
  router-dispatch regs cfg {p} h =
      SameCalls-of_ok (router_of regs) cfg p (rw (resolve-router_of regs cfg, h))

  -- Where nothing is registered under the requested name, every call fails with the same error and
  -- leaves the world as it was. The error shows that name and a sorted list, which holds a name
  -- exactly if something is registered under it.
  pub router-unknown :
      (regs : List (Text × Provider X W)) (cfg : PluginConfig X)
      → latest (requested cfg) regs ≡ none
      → (names : List Text) × SameCalls
          (as_provider (router_of regs))
          (failing (unknown_provider (requested cfg) names))
          cfg
        × IsSorted names
        × ((k : Text) → contains k names ≡ is_some (latest k regs))
  router-unknown regs cfg h = (
    names_of regs,
    SameCalls-of_err (router_of regs) cfg _ (rw (resolve-router_of regs cfg, h)),
    sort_strings-IsSorted _,
    λ k. contains-sort_strings k _ ∙ contains-keys k _ ∙ ap is_some (lookup-router_of k regs),
  )

  provider_name-eq :
      (r s : Router X W) (cfg : PluginConfig X)
      → r.fallback ≡ s.fallback
      → provider_name r cfg ≡ provider_name s cfg
  unfolding provider_name
  provider_name-eq r s cfg f = ground arith

  -- The error of an unknown name does not depend on the order in which the map of backends lists
  -- its names.
  resolve-unknown_order :
      (r s : Router X W) (cfg : PluginConfig X)
      → Perm (keys r.providers) (keys s.providers)
      → r.fallback ≡ s.fallback
      → lookup (provider_name r cfg) r.providers ≡ none
      → lookup (provider_name s cfg) s.providers ≡ none
      → resolve r cfg ≡ resolve s cfg
  unfolding resolve
  resolve-unknown_order r s cfg p f absent missing =
      ground (arith, provider_name-eq r s cfg f, sort_strings_of_perm p)
