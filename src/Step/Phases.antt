-- ===== src/Step/Phases.antt =====
-- What single calls of the step plugin return and do.
use argo_rollouts_k6_plugin.Base.{
  Text, ◌⊎◌, ℤ, pos, ◌<ℤ◌, ◌≤ℤ◌, ◌≡◌, ◌≢◌, ◌↔◌, [], Option, none, some, ok, arith,
}
use argo_rollouts_k6_plugin.Provider.Config.{
  Platform, PluginConfig, clear_injected, validate_provider,
}
use argo_rollouts_k6_plugin.Step.Types.{Host, StepContext, Rollout, default_timeout, max_timeout}
use argo_rollouts_k6_plugin.Step.Config.{parse_config, parse_timeout, populate_from_rollout}

module _ {X : Platform} {W : Type 0} (H : Host X W) where
  abbrev Allowed : Text → ℤ → Type 0
  Allowed s d =
      (s ≡ []) × (d ≡ default_timeout)
      ⊎ (s ≢ []) × (H.parse_duration s ≡ ok d) × (pos 0 <ℤ d) × (d ≤ℤ max_timeout)

  parse_timeout_sound : (s : Text) (d : ℤ) → parse_timeout H s ≡ ok d → Allowed s d
  unfolding parse_timeout
  parse_timeout_sound s d h = ground arith

  parse_timeout_complete : (s : Text) (d : ℤ) → Allowed s d → parse_timeout H s ≡ ok d
  unfolding parse_timeout
  parse_timeout_complete s d h = ground arith

  -- `parseTimeout` accepts exactly the empty text, which stands for five minutes, and the durations
  -- above 0 and up to two hours.
  pub parse_timeout_iff :
      (s : Text) (d : ℤ)
      → (parse_timeout H s ≡ ok d) ↔ (
          (s ≡ []) × (d ≡ default_timeout)
          ⊎ (s ≢ []) × (H.parse_duration s ≡ ok d) × (pos 0 <ℤ d) × (d ≤ℤ max_timeout))
  unfolding parse_timeout
  parse_timeout_iff s d = (parse_timeout_sound s d, parse_timeout_complete s d)

  -- An accepted configuration has passed the validation of its provider, and holds no identity that
  -- the user could have written.
  parse_config_sound :
      (ctx : Option StepContext) {cfg : PluginConfig X}
      → parse_config H ctx ≡ ok cfg
      → (validate_provider cfg ≡ ok tt) × (clear_injected cfg ≡ cfg)
  unfolding parse_config clear_injected
  parse_config_sound none h = cc
  parse_config_sound (some ctx) {cfg} h = ground arith

  -- A step's configuration that carries a Rollout's UID carries its name, whatever the Rollout is.
  populate_from_rollout_named :
      (ctx : Option StepContext) (rollout : Option Rollout) {cfg : PluginConfig X}
      → parse_config H ctx ≡ ok cfg
      → (populate_from_rollout cfg rollout).rollout_uid ≢ []
      → (populate_from_rollout cfg rollout).rollout_name ≢ []
  unfolding populate_from_rollout clear_injected
  populate_from_rollout_named ctx none h u = absurd (u (ground (arith, parse_config_sound ctx h)))
  populate_from_rollout_named ctx (some r) h u = ground (arith, parse_config_sound ctx h)
