-- ===== src/Tests/Objects.antt =====
-- Runs of the theorems on the objects that the operator backend leaves, and on the summaries of the pods.
use argo_rollouts_k6_plugin.Base.{
  Text, pos, codes, [], ◌∷◌, Bool, true, false, none, some, Result, ok, ◌≡◌, refl, arith, lookup,
  ◌==◌,
}
use argo_rollouts_k6_plugin.Base.Strings.{split, split_n}
use argo_rollouts_k6_plugin.Base.Space.{trim_space}
use argo_rollouts_k6_plugin.Provider.Errors.{Fault}
use argo_rollouts_k6_plugin.Provider.Config.{validate_k6_operator}
use argo_rollouts_k6_plugin.Operator.Types.{Kube, Summary}
use argo_rollouts_k6_plugin.Operator.RunId.{
  testruns, encode_run_id, decode_run_id, gvr_for_resource,
}
use argo_rollouts_k6_plugin.Operator.TestRun.{is_cloud_connected}
use argo_rollouts_k6_plugin.Operator.Client.{OperatorWorld, LogReader, new_operator, ensure_client}
use argo_rollouts_k6_plugin.Operator.Plugin.{
  trigger_run, stop_run, cleanup, delete_cr, settle_delete, need_dyn_client, read_script,
  need_client, create_run, new_cr_name, create_named, create_test_run_run, create_object,
}
use argo_rollouts_k6_plugin.Operator.Plugin.Objects.{
  Cluster, has_run, cleanup-gone, trigger_run-has_run,
}
use argo_rollouts_k6_plugin.Operator.Summary.{
  aggregate_metrics, collect_pods, parse_summary_from_pods,
}
use argo_rollouts_k6_plugin.Operator.Summary.Search.{ends_object, find_summary_json}
use argo_rollouts_k6_plugin.Operator.Summary.Complete.{find_summary_json_complete}
use argo_rollouts_k6_plugin.Operator.Summary.Pods.{Silent, empty, parse_summary_from_pods-Silent}
use argo_rollouts_k6_plugin.Tests.Fixtures.{platform, local_config, pod}

abbrev pub parsed_summary : Summary platform
parsed_summary = record { metrics = some []; root_group = some [] }

-- A cluster with room for one object; the world is whether it is there.
abbrev pub small : Kube platform Bool
small = record {
  Config = Unit {0};
  Client = Unit {0};
  DynClient = Unit {0};
  Object = Unit {0};
  Stream = Unit {0};
  in_cluster_config = λ w. (ok tt, w);
  new_client = λ c w. (ok tt, w);
  new_dyn_client = λ c w. (ok tt, w);
  get_config_map = λ c ns name w. (ok ((codes "test.js", codes "x") ∷ []), w);
  list_pods = λ c ns sel w. (ok (pod (pos 0) ∷ pod (pos 99) ∷ []), w);
  open_logs = λ c ns name lines bytes w. (ok tt, w);
  read_all = λ stream w. (ok [], w);
  close = λ stream w. w;
  test_run_object = λ t. ok tt;
  plz_object = λ t. ok tt;
  create = λ c gvr ns o w. (ok (codes "k6-web"), true);
  get = λ c gvr ns name w. (ok tt, w);
  delete = λ c gvr ns name w. (ok tt, false);
  stage = λ o. none;
  now_nanos = λ w. (codes "7", w);
  hash_prefix = λ t. codes "0a1b2c3d";
  unmarshal_summary = λ t. ok parsed_summary;
}

pub ok-name :
    {t : Text} → ◌≡◌ {A = Result Fault Text} (ok (codes "k6-web")) (ok t) → codes "k6-web" ≡ t
ok-name h = cc

pub small-Cluster : Cluster small
small-Cluster = record {
  has = λ w gvr ns name. w;
  creates = λ dyn gvr ns object w name h. (refl, rw⁻¹ (ok-name h) (ground arith));
  deletes = λ dyn gvr ns name w h. refl;
  misses = λ dyn gvr ns name w e h. cc;
}

abbrev pub started_id : Text
started_id =
    encode_run_id (record { namespace = codes "shop"; resource = testruns; name = codes "k6-web" })

abbrev pub at_first : OperatorWorld small
at_first = (new_operator small, true)

abbrev nothing_there : OperatorWorld small
nothing_there = (new_operator small, false)

cleanup-gone_example :
    (has_run small small-Cluster started_id
        (cleanup small none local_config started_id at_first).1.1
      ≡ false)
    × (stop_run small none local_config started_id at_first
        ≡ cleanup small none local_config started_id at_first)
unfolding cleanup delete_cr decode_run_id split_n encode_run_id ◌==◌ gvr_for_resource
    need_dyn_client ensure_client settle_delete
cleanup-gone_example = cleanup-gone small small-Cluster none local_config started_id at_first refl

trigger_run-has_run_example :
    has_run small small-Cluster started_id (trigger_run small none local_config nothing_there).1.1
    ≡ true
unfolding trigger_run validate_k6_operator read_script need_client ensure_client lookup ◌==◌
    create_run need_dyn_client new_cr_name create_named is_cloud_connected create_test_run_run
    create_object encode_run_id
trigger_run-has_run_example =
    trigger_run-has_run small small-Cluster none local_config nothing_there (omega arith) refl

find_summary_json_complete_example :
    find_summary_json small.unmarshal_summary (codes "done\n{}\n") ≡ ok (some parsed_summary)
unfolding split ends_object trim_space
find_summary_json_complete_example =
    find_summary_json_complete small.unmarshal_summary refl (codes "done\n{}\n") ([] ∷ []) []
      (codes "done" ∷ []) (codes "{}") refl refl (refl, tt) refl refl refl

-- A reader that finds all logs empty.
abbrev empty_logs : LogReader small
empty_logs ns name lines bytes w = (ok [], w)

first-Silent : Silent small empty_logs (codes "shop") (pod (pos 0)) true
unfolding find_summary_json
first-Silent = record { useless = empty [] refl; unchanged = refl }

parse_summary_from_pods-Silent_example :
    parse_summary_from_pods small empty_logs tt (codes "shop") (codes "k6-web") true ≡ (
      ok (
          aggregate_metrics
            (collect_pods small empty_logs (codes "shop") (pod (pos 99) ∷ []) true).0),
      (collect_pods small empty_logs (codes "shop") (pod (pos 99) ∷ []) true).1,
    )
unfolding collect_pods
parse_summary_from_pods-Silent_example =
    parse_summary_from_pods-Silent small empty_logs (codes "shop") tt (codes "k6-web") []
      (pod (pos 99) ∷ []) (pod (pos 0)) true true refl first-Silent
