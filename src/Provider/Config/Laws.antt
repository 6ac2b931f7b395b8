-- ===== src/Provider/Config/Laws.antt =====
-- What validation accepts.
use argo_rollouts_k6_plugin.Base.{
  ◌≡◌, ◌≢◌, ◌↔◌, ◌⊎◌, ◌≤ℤ◌, ◌==◌, ==_iff, pos, [], some, ok, true, false, Option-cases, Bool-cases,
  arith, inl, inr, codes,
}
use argo_rollouts_k6_plugin.Provider.Config.{
  Platform, ConfigMapRef, PluginConfig, validate_k6_operator, validate_provider,
  validate_grafana_cloud, is_grafana_cloud,
}

abbrev pub HasScript : {X : Platform} → PluginConfig X → Type 0
HasScript c =
    (ref : ConfigMapRef) × (c.config_map_ref ≡ some ref)
    × (ref.name ≢ [])
    × (ref.key ≢ [])
    × (pos 0 ≤ℤ c.parallelism)

abbrev pub IsCloud : {X : Platform} → PluginConfig X → Type 0
IsCloud c = (c.provider ≡ []) ⊎ (c.provider ≡ codes "grafana-cloud")

abbrev pub HasCredentials : {X : Platform} → PluginConfig X → Type 0
HasCredentials c =
    (c.api_token ≢ []) × (c.stack_id ≢ []) × ((c.test_id ≢ []) ⊎ (c.test_run_id ≢ []))

-- What each provider wants; nothing is wanted for a provider that is neither of the two.
pub data IsAccepted {X : Platform} (c : PluginConfig X) : Type 0 where
  for_cloud : IsCloud c → HasCredentials c → IsAccepted c
  for_operator : c.provider ≡ codes "k6-operator" → HasScript c → IsAccepted c
  for_other : ¬ IsCloud c → c.provider ≢ codes "k6-operator" → IsAccepted c

module _ {X : Platform} (c : PluginConfig X) where
  pub validate_k6_operator_sound : validate_k6_operator c ≡ ok tt → HasScript c
  unfolding validate_k6_operator
  validate_k6_operator_sound h = elim (Option-cases c.config_map_ref) [
    | inl absent ↦ ground arith
    | inr (ref, present) ↦ (ref, present, ground arith, ground arith, ground arith)
  ]

  validate_k6_operator_complete : HasScript c → validate_k6_operator c ≡ ok tt
  unfolding validate_k6_operator
  validate_k6_operator_complete h = ground arith

  -- The operator configurations that are accepted are those that name a ConfigMap and a key of it, and
  -- whose parallelism is not negative.
  validate_k6_operator_iff : (validate_k6_operator c ≡ ok tt) ↔ HasScript c
  validate_k6_operator_iff = (validate_k6_operator_sound, validate_k6_operator_complete)

  IsCloud-of_true : is_grafana_cloud c ≡ true → IsCloud c
  unfolding is_grafana_cloud
  IsCloud-of_true h = ground (arith, ==_iff c.provider (codes "grafana-cloud"))

  IsCloud-of_false : is_grafana_cloud c ≡ false → ¬ IsCloud c
  unfolding is_grafana_cloud
  IsCloud-of_false h cloud = ground (arith, ==_iff c.provider (codes "grafana-cloud"))

  validate_grafana_cloud_sound : validate_grafana_cloud c ≡ ok tt → HasCredentials c
  unfolding validate_grafana_cloud
  validate_grafana_cloud_sound h = ground arith

  pub validate_provider_sound : validate_provider c ≡ ok tt → IsAccepted c
  unfolding validate_provider
  validate_provider_sound h = elim (Bool-cases (is_grafana_cloud c)) [
    | inl cloud ↦ for_cloud (IsCloud-of_true cloud) (validate_grafana_cloud_sound (rw cloud at h))
    | inr other ↦ elim (Bool-cases (c.provider == codes "k6-operator")) [
      | inl operator ↦
          for_operator ((==_iff c.provider (codes "k6-operator")).0 operator)
            (validate_k6_operator_sound (rw (other, operator) at h))
      | inr neither ↦
          for_other (IsCloud-of_false other)
            λ same. absurd (ground (arith, ==_iff c.provider (codes "k6-operator")))
    ]
  ]
