-- ===== src/Tests/Crowds.antt =====
-- A run of the theorem on the ledger of runs, on a cluster that keeps many objects.
use argo_rollouts_k6_plugin.Base.{
  Text, codes, [], ◌∷◌, List, Bool, true, false, ◌&&◌, ◌||◌, not, none, ok, ◌≡◌, refl, arith, inl,
  inr, Bool-cases, ◌==◌, ==_iff,
}
use argo_rollouts_k6_plugin.Operator.Types.{Kube, Gvr}
use argo_rollouts_k6_plugin.Operator.RunId.{test_run_gvr}
use argo_rollouts_k6_plugin.Operator.Client.{OperatorWorld, new_operator}
use argo_rollouts_k6_plugin.Operator.Plugin.Objects.{Cluster, has_run}
use argo_rollouts_k6_plugin.Operator.Plugin.Others.{Place, Isolated}
use argo_rollouts_k6_plugin.Operator.Plugin.Ledger.{
  Call, trigger, poll, clean, Ledger, perform_all, perform_all-Ledger,
}
use argo_rollouts_k6_plugin.Tests.Fixtures.{platform, local_config}
use argo_rollouts_k6_plugin.Tests.Objects.{small, ok-name, started_id}

-- Which objects there are.
abbrev Objects : Type 0
Objects = Gvr → Text → Text → Bool

is_same : Gvr → Text → Text → Gvr → Text → Text → Bool
is_same g ns name g' ns' name' =
    (g.group == g'.group)
    && ((g.version == g'.version)
        && ((g.resource == g'.resource) && ((ns == ns') && (name == name'))))

is_same-true : (g : Gvr) (ns name : Text) → is_same g ns name g ns name ≡ true
unfolding is_same
is_same-true g ns name = ground (
  arith,
  ==_iff g.group g.group,
  ==_iff g.version g.version,
  ==_iff g.resource g.resource,
  ==_iff ns ns,
  ==_iff name name,
)

is_same_sound :
    (p q : Place) → is_same p.gvr p.namespace p.name q.gvr q.namespace q.name ≡ true → p ≡ q
unfolding is_same
is_same_sound p q h = ground (
  arith,
  ==_iff p.gvr.group q.gvr.group,
  ==_iff p.gvr.version q.gvr.version,
  ==_iff p.gvr.resource q.gvr.resource,
  ==_iff p.namespace q.namespace,
  ==_iff p.name q.name,
)

add : Gvr → Text → Text → Objects → Objects
add g ns name w = λ g' ns' name'. is_same g ns name g' ns' name' || w g' ns' name'

remove : Gvr → Text → Text → Objects → Objects
remove g ns name w = λ g' ns' name'. not (is_same g ns name g' ns' name') && w g' ns' name'

abbrev large : Kube platform Objects
large = record {
  Config = Unit {0};
  Client = Unit {0};
  DynClient = Unit {0};
  Object = Unit {0};
  Stream = Unit {0};
  in_cluster_config = λ w. (ok tt, w);
  new_client = λ c w. (ok tt, w);
  new_dyn_client = λ c w. (ok tt, w);
  get_config_map = λ c ns name w. (ok ((codes "test.js", codes "x") ∷ []), w);
  list_pods = λ c ns sel w. (ok [], w);
  open_logs = λ c ns name lines bytes w. (ok tt, w);
  read_all = λ stream w. (ok [], w);
  close = λ stream w. w;
  test_run_object = λ t. ok tt;
  plz_object = λ t. ok tt;
  create = λ c gvr ns o w. (ok (codes "k6-web"), add gvr ns (codes "k6-web") w);
  get = λ c gvr ns name w. (ok tt, w);
  delete = λ c gvr ns name w. (ok tt, remove gvr ns name w);
  stage = λ o. none;
  now_nanos = λ w. (codes "7", w);
  hash_prefix = λ t. codes "0a1b2c3d";
  unmarshal_summary = small.unmarshal_summary;
}

large-Cluster : Cluster large
unfolding add remove
large-Cluster = record {
  has = λ w. w;
  creates = λ dyn gvr ns object w name h. (
    rw⁻¹ (ok-name h) (rw (is_same-true gvr ns (codes "k6-web")) refl),
    rw⁻¹ (ok-name h) (ground arith),
  );
  deletes = λ dyn gvr ns name w h. rw (is_same-true gvr ns name) refl;
  misses = λ dyn gvr ns name w e h. cc;
}

large-Isolated : Isolated large large-Cluster
unfolding remove large-Cluster
large-Isolated = record {
  delete_keeps = λ dyn p q w distinct.
      elim (Bool-cases (is_same p.gvr p.namespace p.name q.gvr q.namespace q.name)) [
        | inl same ↦ absurd (distinct (is_same_sound p q same))
        | inr differ ↦ rw differ refl
      ];
  create_keeps = λ dyn gvr ns object w name other h distinct.
      elim (Bool-cases (is_same gvr ns (codes "k6-web") other.gvr other.namespace other.name)) [
        | inl same ↦ absurd (
            distinct (
              rw⁻¹ (ok-name h) (
                is_same_sound (record { gvr = gvr; namespace = ns; name = codes "k6-web" }) other
                  same)))
        | inr differ ↦ rw differ refl
      ];
  create_spares = λ dyn gvr ns object w other h. ground arith;
  quiet = λ objects. record {
    config_keeps = λ w h. h;
    client_keeps = λ c w h. h;
    dyn_keeps = λ c w h. h;
    config_map_keeps = λ c ns name w h. h;
    pods_keeps = λ c ns selector w h. h;
    open_keeps = λ c ns pod lines bytes w h. h;
    read_keeps = λ s w h. h;
    close_keeps = λ s w h. h;
    get_keeps = λ dyn gvr ns name w h. h;
    clock_keeps = λ w h. h;
  };
}

-- Two runs.
abbrev both : OperatorWorld large
both = (
  new_operator large,
  add test_run_gvr (codes "shop") (codes "a")
      (add test_run_gvr (codes "shop") (codes "b") (λ g ns n. false)),
)

-- The run that is started, polled and cleaned up, beside them.
abbrev calls : List (Call platform)
calls = trigger local_config ∷ poll local_config started_id ∷ clean local_config started_id ∷ []

perform_all-Ledger_example :
    Ledger started_id
      (perform_all large calls both).0
      (has_run large large-Cluster started_id both.1)
      (has_run large large-Cluster started_id (perform_all large calls both).1.1)
perform_all-Ledger_example =
    perform_all-Ledger large large-Cluster large-Isolated started_id calls both (omega arith, tt)
