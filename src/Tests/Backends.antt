-- ===== src/Tests/Backends.antt =====
-- Runs of the theorems on the operator backend.
use argo_rollouts_k6_plugin.Base.{
  Text, Result, ℕ, pos, codes, List, [], ◌∷◌, ◌++◌, none, some, ok, ◌≡◌, ◌≢◌, ◌↔◌, ◌⊎◌, inl, refl,
  ◌≤◌, ◌<◌, ◌*◌, ◌^◌, true, false, arith, length, Lacks, ◌==◌, lookup, Yields_of_ok,
}
use argo_rollouts_k6_plugin.Provider.Errors.{Fault}
use argo_rollouts_k6_plugin.Provider.Config.{PluginConfig, validate_k6_operator}
use argo_rollouts_k6_plugin.Provider.Interface.{passed, failed, result_of}
use argo_rollouts_k6_plugin.Operator.Types.{Pod, Summary}
use argo_rollouts_k6_plugin.Operator.RunId.{
  RunId, IsRunId, encode_run_id, decode_run_id, decode-encode, decode_run_id_sound,
  gvr_for_resource, testruns,
}
use argo_rollouts_k6_plugin.Operator.TestRun.{
  sanitize_label_value, test_run_name, build_test_run, is_cloud_connected,
}
use argo_rollouts_k6_plugin.Operator.TestRun.Laws.{
  IsLabelValue, sanitize_label_value-IsLabelValue, length-test_run_name, build_test_run_parallelism,
  build_test_run_wraps,
}
use argo_rollouts_k6_plugin.Operator.ExitCode.{judge_pods, check_runner_exit_codes}
use argo_rollouts_k6_plugin.Operator.ExitCode.Laws.{
  AllContainers, Exited, Finished, judge_pods-passed_iff, judge_pods-verdict_iff,
}
use argo_rollouts_k6_plugin.Operator.Client.{
  k8s_read_logs, read_stream, OperatorWorld, new_operator, ensure_client,
}
use argo_rollouts_k6_plugin.Operator.Plugin.{
  trigger_run, get_run_result, read_script, need_client, need_dyn_client, create_run, new_cr_name,
  create_named, create_test_run_run, create_object, judge_stage, report,
}
use argo_rollouts_k6_plugin.Base.Strings.{split_n, split, join}
use argo_rollouts_k6_plugin.Operator.Summary.{
  parse_summary_from_pods, aggregate_metrics, collect_pods, pod_metrics,
}
use argo_rollouts_k6_plugin.Operator.Summary.Search.{find_summary_json, is_summary, ends_object}
use argo_rollouts_k6_plugin.Base.Space.{trim_space}
use argo_rollouts_k6_plugin.Operator.Summary.Laws.{find_summary_json_sound}
use argo_rollouts_k6_plugin.Operator.Plugin.Runs.{NamesPlainly, trigger_run-decode_run_id}
use argo_rollouts_k6_plugin.Operator.Plugin.Results.{get_run_result-IsReport}
use argo_rollouts_k6_plugin.Tests.Fixtures.{platform, config_for, local_config, cluster, pod}

abbrev run_id : RunId
run_id = record { namespace = codes "shop"; resource = testruns; name = codes "k6-web" }

run_id-IsRunId : IsRunId run_id
run_id-IsRunId = record {
  namespace_plain = omega arith;
  resource_known = inl refl;
  name_plain = omega arith;
}

decode-encode_example : decode_run_id (encode_run_id run_id) ≡ ok run_id
decode-encode_example = decode-encode run_id run_id-IsRunId

decode_run_id_sound_example : (encode_run_id run_id ≡ encode_run_id run_id) × IsRunId run_id
decode_run_id_sound_example =
    decode_run_id_sound (encode_run_id run_id) (decode-encode run_id run_id-IsRunId)

abbrev pods : List Pod
pods = pod (pos 0) ∷ pod (pos 99) ∷ []

judge_pods-passed_iff_example :
    (judge_pods (codes "t") pods ≡ ok passed) ↔ ((pods ≢ []) × AllContainers (Exited (pos 0)) pods)
judge_pods-passed_iff_example = judge_pods-passed_iff (codes "t") pods

judge_pods-verdict_iff_example :
    ((judge_pods (codes "t") pods ≡ ok passed) ⊎ (judge_pods (codes "t") pods ≡ ok failed))
    ↔ ((pods ≢ []) × AllContainers Finished pods)
judge_pods-verdict_iff_example = judge_pods-verdict_iff (codes "t") pods

abbrev label : Text
label = codes "web-"

sanitize_label_value-IsLabelValue_example : IsLabelValue (sanitize_label_value label)
sanitize_label_value-IsLabelValue_example =
    sanitize_label_value-IsLabelValue label (refl, (refl, (refl, (refl, tt)))) refl

length-test_run_name_example :
    (length (test_run_name label (codes "0a1b2c3d")) ≤ 253)
    × ((front : Text) × (test_run_name label (codes "0a1b2c3d")
          ≡ front ++ (b'-' ∷ codes "0a1b2c3d")))
length-test_run_name_example = length-test_run_name label (codes "0a1b2c3d") refl

build_test_run_parallelism_example :
    let wanted = (build_test_run local_config [] [] [] []).parallelism in
    (◌≡◌ {A = ℕ} 2 0) × (wanted ≡ pos 1) ⊎ (0 < 2) × (wanted ≡ pos 2)
build_test_run_parallelism_example =
    build_test_run_parallelism local_config 2 [] [] [] [] refl (omega arith)

abbrev huge : PluginConfig platform
huge = config_for (codes "k6-operator") (pos (1 * 2 ^ 32))

build_test_run_wraps_example : (build_test_run huge [] [] [] []).parallelism ≡ pos 0
build_test_run_wraps_example = build_test_run_wraps huge 0 [] [] [] [] refl

abbrev world : OperatorWorld cluster
world = (new_operator cluster, 0)

cluster-NamesPlainly : NamesPlainly cluster none
cluster-NamesPlainly dyn gvr ns object w name h =
    Yields_of_ok (Lacks b'/') (cluster.create dyn gvr ns object w) h (omega arith)

trigger_run-decode_run_id_example :
    (id : RunId) × (decode_run_id (codes "shop/testruns/k6-web") ≡ ok id)
    × (id.namespace ≡ codes "shop")
    × (id.resource ≡ testruns)
    × (codes "shop/testruns/k6-web" ≢ [])
unfolding trigger_run validate_k6_operator read_script need_client ensure_client lookup ◌==◌
    create_run need_dyn_client new_cr_name create_named is_cloud_connected create_test_run_run
    create_object encode_run_id
trigger_run-decode_run_id_example =
    trigger_run-decode_run_id cluster none cluster-NamesPlainly local_config world (omega arith)
      refl

get_run_result-IsReport_example :
    ((true ≡ true) ↔ (passed ≡ passed))
    × (◌≡◌ {A = Text} [] [])
    × ((passed ≡ passed)
        ⊎ ((passed ≡ failed)
            ⊎ (result_of platform passed [] true ≡ result_of platform passed [] false)))
unfolding get_run_result decode_run_id split_n ◌==◌ gvr_for_resource ensure_client judge_stage
    report check_runner_exit_codes judge_pods parse_summary_from_pods aggregate_metrics collect_pods
    pod_metrics find_summary_json k8s_read_logs read_stream
get_run_result-IsReport_example =
    get_run_result-IsReport cluster none local_config (codes "shop/testruns/k6-web") world refl

abbrev whole : Summary platform
whole = record { metrics = some []; root_group = some (codes "{}") }

abbrev parse_any : Text → Result Fault (Summary platform)
parse_any t = ok whole

abbrev log_text : Text
log_text = codes "x" ++ (b'\n' ∷ codes "{}")

find_summary_json_sound_example :
    (above : List Text) × (block : List Text) × (below : List Text) × (split log_text b'\n'
      ≡ above ++ (block ++ below))
    × (parse_any (join block (codes "\n")) ≡ ok whole)
    × (is_summary whole ≡ true)
unfolding find_summary_json split ends_object trim_space
find_summary_json_sound_example = find_summary_json_sound parse_any log_text refl
