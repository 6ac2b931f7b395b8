-- ===== src/Tests/Routes.antt =====
-- Runs of the theorems on the router.
use argo_rollouts_k6_plugin.Base.{Text, ℕ, pos, codes, List, [], ◌∷◌, ok, ◌==◌, ◌≡◌, refl}
use argo_rollouts_k6_plugin.Base.Sort.{IsSorted, contains}
use argo_rollouts_k6_plugin.Provider.Errors.{unknown_provider}
use argo_rollouts_k6_plugin.Provider.Interface.{Provider, passed, failed}
use argo_rollouts_k6_plugin.Provider.Router.{as_provider}
use argo_rollouts_k6_plugin.Provider.Router.Laws.{
  SameCalls, failing, latest, is_some, router_of, router-dispatch, router-unknown,
}
use argo_rollouts_k6_plugin.Tests.Fixtures.{platform, config_for, local_config, backend}

abbrev registered : List (Text × Provider platform ℕ)
registered =
    (codes "k6-operator", backend (ok passed)) ∷ (codes "k6-operator", backend (ok failed)) ∷ []

router-dispatch_example :
    SameCalls (as_provider (router_of registered)) (backend (ok failed)) local_config
unfolding ◌==◌
router-dispatch_example = router-dispatch registered local_config refl

router-unknown_example :
    (names : List Text) × SameCalls
      (as_provider (router_of registered))
      (failing (unknown_provider (codes "other") names))
      (config_for (codes "other") (pos 1))
    × IsSorted names
    × ((k : Text) → contains k names ≡ is_some (latest k registered))
unfolding ◌==◌
router-unknown_example = router-unknown registered (config_for (codes "other") (pos 1)) refl
