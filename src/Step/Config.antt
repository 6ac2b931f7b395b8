-- ===== src/Step/Config.antt =====
-- `parseConfig`, `parseTimeout` and `populateFromRollout` of internal/step/step.go.
use argo_rollouts_k6_plugin.Base.{
  Text, ℤ, pos, ltbℤ, is_empty, if◌then◌else◌, Option, none, some, Result, ok, err, ◌&&◌, not,
}
use argo_rollouts_k6_plugin.Provider.Errors.{
  Err, step_config_missing, unmarshal_config, invalid_timeout, timeout_not_positive,
  timeout_too_long,
}
use argo_rollouts_k6_plugin.Provider.Config.{
  Platform, PluginConfig, clear_injected, validate_provider,
}
use argo_rollouts_k6_plugin.Step.Types.{Host, StepContext, Rollout, default_timeout, max_timeout}

module _ {X : Platform} where
  -- The configuration if `validate_provider` accepts it.
  abbrev pub validated : PluginConfig X → Result Err (PluginConfig X)
  validated cfg = elim (validate_provider cfg) [ ok _ ↦ ok cfg | err e ↦ err e ]

  unfoldable pub populate_from_rollout : PluginConfig X → Option Rollout → PluginConfig X
  populate_from_rollout cfg none = cfg
  populate_from_rollout cfg (some r) =
      let namespace = if is_empty cfg.namespace then r.namespace else cfg.namespace in
      if not (is_empty r.uid) && is_empty r.name
      then record cfg { namespace = namespace }
      else record cfg { rollout_name = r.name; rollout_uid = r.uid; namespace = namespace }

module _ {X : Platform} {W : Type 0} (H : Host X W) where
  abbrev decode_raw : Text → Result Err (PluginConfig X)
  decode_raw raw = elim (H.decode_config raw) [
    | err e ↦ err (unmarshal_config e)
    | ok cfg ↦ validated (clear_injected cfg)
  ]

  unfoldable pub parse_config : Option StepContext → Result Err (PluginConfig X)
  parse_config none = err step_config_missing
  parse_config (some ctx) =
      if is_empty ctx.config then err step_config_missing else decode_raw ctx.config

  -- The two range tests of `parseTimeout`.
  abbrev check_timeout : Text → ℤ → Result Err ℤ
  check_timeout s d =
      if not (ltbℤ (pos 0) d)
      then err (timeout_not_positive s)
      else if ltbℤ max_timeout d
      then err (timeout_too_long d)
      else ok d

  unfoldable pub parse_timeout : Text → Result Err ℤ
  parse_timeout s = if is_empty s then ok default_timeout else elim (H.parse_duration s) [
    | err e ↦ err (invalid_timeout s e)
    | ok d ↦ check_timeout s d
  ]
