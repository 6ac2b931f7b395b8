-- ===== src/Provider/Config.antt =====
-- internal/provider/config.go: the plugin's configuration and its validation.
pub mod Laws
use argo_rollouts_k6_plugin.Base.{
  Text, ℤ, pos, ltbℤ, Bool, true, false, ◌||◌, ◌&&◌, Option, none, some, List, [], is_empty, ◌==◌,
  codes, if◌then◌else◌, Result, ok, err,
}
use argo_rollouts_k6_plugin.Provider.Errors.{
  Err, Fault, test_id_required, api_token_required, stack_id_required, config_map_ref_required,
  config_map_name_required, config_map_key_required, negative_parallelism,
}

-- What the program takes from elsewhere as data: Go's `float64` with the operations that the
-- program uses, and two Kubernetes types that it only passes on.
pub record Platform : Type 1 where
  pub Float64 : Type 0
  pub float_zero : Float64
  pub float_one : Float64
  pub float_add : Float64 → Float64 → Float64
  pub float_mul : Float64 → Float64 → Float64
  pub float_div : Float64 → Float64 → Float64
  pub float_is_zero : Float64 → Bool
  pub format_float : Float64 → Text
  pub parse_float : Text → Result Fault Float64
  pub Resources : Type 0
  pub EnvVar : Type 0

pub record ConfigMapRef : Type 0 where
  pub name : Text
  pub key : Text

pub record PluginConfig (X : Platform) : Type 0 where
  pub test_run_id : Text
  pub test_id : Text
  pub api_token : Text
  pub stack_id : Text
  pub timeout : Text
  pub metric : Text
  pub aggregation : Text
  pub provider : Text
  pub config_map_ref : Option ConfigMapRef
  pub namespace : Text
  pub parallelism : ℤ
  pub resources : Option X.Resources
  pub runner_image : Text
  pub env : List X.EnvVar
  pub arguments : List Text
  -- Tagged `json:"-"`: set by the plugin, never by the user's JSON.
  pub rollout_name : Text
  pub analysis_run_name : Text
  pub analysis_run_uid : Text
  pub rollout_uid : Text

abbrev pub grafana_cloud : Text
grafana_cloud = codes "grafana-cloud"

abbrev pub k6_operator : Text
k6_operator = codes "k6-operator"

-- The checks behind the `nil` test of `ValidateK6Operator`.
validate_script : ConfigMapRef → ℤ → Result Err (Unit {0})
validate_script ref parallelism =
    if is_empty ref.name
    then err config_map_name_required
    else if is_empty ref.key
    then err config_map_key_required
    else if ltbℤ parallelism (pos 0)
    then err (negative_parallelism parallelism)
    else ok tt

module _ {X : Platform} where
  unfoldable pub is_grafana_cloud : PluginConfig X → Bool
  is_grafana_cloud c = is_empty c.provider || c.provider == grafana_cloud

  unfoldable pub validate_grafana_cloud : PluginConfig X → Result Err (Unit {0})
  validate_grafana_cloud c =
      if is_empty c.test_id && is_empty c.test_run_id
      then err test_id_required
      else if is_empty c.api_token
      then err api_token_required
      else if is_empty c.stack_id
      then err stack_id_required
      else ok tt

  unfoldable pub validate_k6_operator : PluginConfig X → Result Err (Unit {0})
  unfolding validate_script
  validate_k6_operator c = elim c.config_map_ref [
    | none ↦ err config_map_ref_required
    | some ref ↦ validate_script ref c.parallelism
  ]

  -- The checks that the two `parseConfig` functions share: by provider, and none for a provider
  -- that they do not know.
  unfoldable pub validate_provider : PluginConfig X → Result Err (Unit {0})
  validate_provider c =
      if is_grafana_cloud c
      then validate_grafana_cloud c
      else if c.provider == k6_operator
      then validate_k6_operator c
      else ok tt

  -- `json.Unmarshal` leaves the fields tagged `json:"-"` at their zero value.
  unfoldable pub clear_injected : PluginConfig X → PluginConfig X
  clear_injected c = record c {
    rollout_name = [];
    analysis_run_name = [];
    analysis_run_uid = [];
    rollout_uid = [];
  }
