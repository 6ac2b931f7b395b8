-- ===== src/Operator/TestRun.antt =====
-- The custom resources that the backend creates, of internal/provider/operator/testrun.go.
pub mod Laws
use argo_rollouts_k6_plugin.Base.{
  Text, ℕ, ℤ, pos, ◌-◌, codes, take, length, leb, ltb, eqb, is_empty, if◌then◌else◌, int32, is_zero,
  List, [], ◌∷◌, ◌++◌, Option, none, some, not, ◌&&◌, ◌||◌, Bool, Dict, insert, map,
}
use argo_rollouts_k6_plugin.Base.Strings.{trim_right, join}
use argo_rollouts_k6_plugin.Provider.Config.{Platform, PluginConfig}
use argo_rollouts_k6_plugin.Operator.Types.{
  Kube, ObjectMeta, OwnerReference, TestRun, PrivateLoadZone,
}

-- The cutset ".-_" of `sanitizeLabelValue`.
abbrev pub is_punctuation : ℕ → Bool
is_punctuation c = eqb c b'.' || (eqb c b'-' || eqb c b'_')

unfoldable pub sanitize_label_value : Text → Text
sanitize_label_value v = trim_right is_punctuation (take 63 v)

abbrev pub max_rollout_len : ℕ
max_rollout_len = 253 - 12

-- `fmt.Sprintf("%s/%s/%d", namespace, rolloutName, nanos)`; `decimal` prints the clock.
abbrev pub hash_input : Text → Text → Text → Text
hash_input namespace rollout_name decimal = namespace ++ (b'/' ∷ (rollout_name ++ (b'/' ∷ decimal)))

-- `short` is the hash, as eight hexadecimal digits.
unfoldable pub test_run_name : Text → Text → Text
test_run_name rollout_name short =
    codes "k6-" ++ (take max_rollout_len rollout_name ++ (b'-' ∷ short))

module _ {X : Platform} where
  unfoldable pub parent_owner_ref : PluginConfig X → List OwnerReference
  parent_owner_ref cfg =
      if not (is_empty cfg.analysis_run_uid)
      then record {
        api_version = codes "argoproj.io/v1alpha1";
        kind = codes "AnalysisRun";
        name = cfg.analysis_run_name;
        uid = cfg.analysis_run_uid;
      }
        ∷ []
      else if not (is_empty cfg.rollout_uid)
      then record {
        api_version = codes "argoproj.io/v1alpha1";
        kind = codes "Rollout";
        name = cfg.rollout_name;
        uid = cfg.rollout_uid;
      }
        ∷ []
      else []

  abbrev pub object_meta : PluginConfig X → Text → Text → ObjectMeta
  object_meta cfg namespace cr_name = record {
    name = cr_name;
    namespace = namespace;
    labels =
        (codes "app.kubernetes.io/managed-by", codes "argo-rollouts-k6-plugin")
        ∷ (codes "k6-plugin/rollout", sanitize_label_value cfg.rollout_name)
        ∷ [];
    owner_references = parent_owner_ref cfg;
  }

  unfoldable pub build_test_run : PluginConfig X → Text → Text → Text → Text → TestRun X
  build_test_run cfg script_cm_name script_key namespace cr_name = record {
    api_version = codes "k6.io/v1alpha1";
    kind = codes "TestRun";
    meta = object_meta cfg namespace cr_name;
    script_name = script_cm_name;
    script_file = script_key;
    parallelism = if is_zero cfg.parallelism then pos 1 else int32 cfg.parallelism;
    runner_image = cfg.runner_image;
    runner_env = cfg.env;
    runner_resources = cfg.resources;
    arguments = join cfg.arguments (codes " ");
    cleanup = [];
  }

  unfoldable pub build_private_load_zone : PluginConfig X → Text → Text → PrivateLoadZone X
  build_private_load_zone cfg namespace cr_name = record {
    api_version = codes "k6.io/v1alpha1";
    kind = codes "PrivateLoadZone";
    meta = object_meta cfg namespace cr_name;
    token = cfg.api_token;
    image = cfg.runner_image;
    resources = cfg.resources;
  }

  unfoldable pub is_cloud_connected : PluginConfig X → Bool
  is_cloud_connected cfg = not (is_empty cfg.api_token) && not (is_empty cfg.stack_id)
