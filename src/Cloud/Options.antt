-- ===== src/Cloud/Options.antt =====
-- internal/provider/cloud/cloud.go: the backend's only field, and the options that it is made with.
use argo_rollouts_k6_plugin.Base.{Text, List, [], ◌∷◌}

pub record GrafanaCloudProvider : Type 0 where
  pub base_url : Text

abbrev pub CloudOption : Type 0
CloudOption = GrafanaCloudProvider → GrafanaCloudProvider

abbrev pub with_base_url : Text → CloudOption
with_base_url url p = record p { base_url = url }

apply_options : List CloudOption → GrafanaCloudProvider → GrafanaCloudProvider
apply_options [] p = p
apply_options (opt ∷ opts) p = apply_options opts (opt p)

unfoldable pub new_grafana_cloud_provider : List CloudOption → GrafanaCloudProvider
unfolding apply_options
new_grafana_cloud_provider opts = apply_options opts (record { base_url = [] })
