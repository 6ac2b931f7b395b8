-- ===== src/Operator/Plugin/Runs.antt =====
-- What starting and deleting runs on the operator backend promise.
use argo_rollouts_k6_plugin.Base.{
  Text, Lacks, ◌≡◌, ◌≢◌, ◌⊎◌, inl, inr, refl, subst, arith, if◌then◌else◌, Option, ok, err, [], ◌∷◌,
  Bool-cases, Option-cases, Leaves, Leaves-continue, Leaves_of_ok, wrap_error-eq-ok, wrap_error,
  wrapping, return, ◌>>=◌, ◌++◌, ℕ,
}
use argo_rollouts_k6_plugin.Provider.Errors.{
  Err, Fault, convert_plz, convert_test_run, create_plz, create_test_run,
}
use argo_rollouts_k6_plugin.Provider.Config.{Platform, PluginConfig, validate_k6_operator}
use argo_rollouts_k6_plugin.Operator.Types.{Kube, Gvr}
use argo_rollouts_k6_plugin.Operator.RunId.{
  plz_gvr, test_run_gvr, RunId, testruns, privateloadzones, encode_run_id, decode_run_id,
  decode-encode,
}
use argo_rollouts_k6_plugin.Operator.TestRun.{is_cloud_connected}
use argo_rollouts_k6_plugin.Operator.Client.{OperatorWorld, LogReader}
use argo_rollouts_k6_plugin.Operator.Plugin.Quiet.{
  Quiet, anything_quiet, read_script-keeps, need_dyn_client-keeps, new_cr_name-keeps,
}
use argo_rollouts_k6_plugin.Operator.Plugin.{
  namespace_of, need_dyn_client, new_cr_name, read_script, create_run, trigger_run, create_object,
  create_plz_run, create_test_run_run, create_named, run_id_of, lift,
}

append-ne-nil : (c : ℕ) (s t : Text) → s ++ (c ∷ t) ≢ []
append-ne-nil c [] t h = cc
append-ne-nil c (d ∷ s) t h = cc

pub encode_run_id-ne-nil : (id : RunId) → encode_run_id id ≢ []
unfolding encode_run_id
encode_run_id-ne-nil id = append-ne-nil b'/' id.namespace _

module _ {X : Platform} {W : Type 0} (K : Kube X W) (reader : Option (LogReader K)) where
  -- An invalid configuration is refused before the cluster is asked anything: not even the clients are
  -- made.
  trigger_run_invalid :
      (cfg : PluginConfig X) {e : Err} (world : OperatorWorld K)
      → validate_k6_operator cfg ≡ err e
      → trigger_run K reader cfg world ≡ (err e, world)
  unfolding trigger_run
  trigger_run_invalid cfg world h = rw h

  -- The resource that a configuration asks for.
  abbrev pub gvr_for : PluginConfig X → Gvr
  gvr_for cfg = if is_cloud_connected cfg then plz_gvr else test_run_gvr

  abbrev pub resource_for : PluginConfig X → Text
  resource_for cfg = (gvr_for cfg).resource

  -- The API server answers a creation with a name, and leaves the cluster, as a condition says.
  abbrev pub Names : (Gvr → Text → Text → W → Type 0) → Type 0
  Names Q =
      (dyn : K.DynClient) (gvr : Gvr) (ns : Text) (object : K.Object) (w : W) (name : Text)
      → (K.create dyn gvr ns object w).0 ≡ ok name
      → Q gvr ns name (K.create dyn gvr ns object w).1

  -- The name holds no slash.
  abbrev pub NamesPlainly : Type 0
  NamesPlainly = Names (λ gvr ns name w. Lacks b'/' name)

  -- The identity of a run that was created for a configuration.
  abbrev pub IsTriggered :
      (Gvr → Text → Text → W → Type 0) → PluginConfig X → Text → OperatorWorld K → Type 0
  IsTriggered Q cfg run_id (p, w) =
      (name : Text) × (run_id
        ≡ encode_run_id
            (record { namespace = namespace_of cfg; resource = resource_for cfg; name = name }))
      × Q (gvr_for cfg) (namespace_of cfg) name w

  -- The same for a creation on a cluster of which something is known.
  abbrev pub NamesIn : (W → Type 0) → (Gvr → Text → Text → W → Type 0) → Type 0
  NamesIn R Q =
      (dyn : K.DynClient) (gvr : Gvr) (ns : Text) (object : K.Object) (w : W) (name : Text)
      → R w
      → (K.create dyn gvr ns object w).0 ≡ ok name
      → Q gvr ns name (K.create dyn gvr ns object w).1

  module _ (R : W → Type 0) (quiet : Quiet K R) (Q : Gvr → Text → Text → W → Type 0) where
    create_object-IsTriggered :
        NamesIn R Q
        → (cfg : PluginConfig X) (dyn : K.DynClient) (gvr : Gvr) (error : Fault → Err)
          (object : K.Object) (world : OperatorWorld K)
        → gvr ≡ gvr_for cfg
        → R world.1
        → Leaves (IsTriggered Q cfg) (create_object K reader cfg dyn gvr error object world)
    unfolding create_object
    create_object-IsTriggered plain cfg dyn gvr error object world same known =
        Leaves-continue (IsTriggered Q cfg)
          (λ created. return (run_id_of K reader cfg gvr.resource created))
          (wrapping error (lift K reader (K.create dyn gvr (namespace_of cfg) object)) world)
          λ created answer. (
            created,
            rw same refl,
            subst
                (λ g.
                  Q g (namespace_of cfg) created
                    (K.create dyn gvr (namespace_of cfg) object world.1).1)
                same (plain dyn gvr _ _ _ created known (wrap_error-eq-ok _ _ answer)),
          )

    create_named-IsTriggered :
        NamesIn R Q
        → (cfg : PluginConfig X) (dyn : K.DynClient) (cr_name : Text) (world : OperatorWorld K)
        → R world.1
        → Leaves (IsTriggered Q cfg) (create_named K reader cfg dyn cr_name world)
    unfolding create_named create_plz_run create_test_run_run is_cloud_connected create_object
    create_named-IsTriggered plain cfg dyn cr_name world known =
        elim (Option-cases cfg.config_map_ref) [
          | inl absent ↦ rw absent tt
          | inr (ref, present) ↦ elim (Bool-cases (is_cloud_connected cfg)) [
            | inl cloud ↦
                rw (present, cloud)
                  (Leaves-continue (IsTriggered Q cfg)
                    (create_object K reader cfg dyn plz_gvr (create_plz (namespace_of cfg) cr_name))
                    (wrap_error convert_plz _, world)
                    λ object _.
                      create_object-IsTriggered plain cfg dyn plz_gvr _ object world (rw cloud refl)
                        known)
            | inr local ↦
                rw (present, local)
                  (Leaves-continue (IsTriggered Q cfg)
                    (create_object K reader cfg dyn test_run_gvr
                      (create_test_run (namespace_of cfg) cr_name))
                    (wrap_error convert_test_run _, world)
                    λ object _.
                      create_object-IsTriggered plain cfg dyn test_run_gvr _ object world
                        (rw local refl) known)
          ]
        ]

    create_run-IsTriggered :
        NamesIn R Q
        → (cfg : PluginConfig X) (world : OperatorWorld K) → R world.1
        → Leaves (IsTriggered Q cfg) (create_run K reader cfg world)
    unfolding create_run
    create_run-IsTriggered plain cfg world known =
        Leaves-continue (IsTriggered Q cfg)
          (λ dyn. do cr_name ← new_cr_name K reader cfg; create_named K reader cfg dyn cr_name)
          (need_dyn_client K reader world)
          λ dyn _.
            Leaves-continue (IsTriggered Q cfg) (create_named K reader cfg dyn)
              (new_cr_name K reader cfg _)
              λ cr_name _. create_named-IsTriggered plain cfg dyn cr_name _ (
                new_cr_name-keeps K R quiet reader cfg _
                  (need_dyn_client-keeps K R quiet reader world known))

    pub trigger_run-IsTriggered_from :
        NamesIn R Q
        → (cfg : PluginConfig X) (world : OperatorWorld K) → R world.1
        → Leaves (IsTriggered Q cfg) (trigger_run K reader cfg world)
    unfolding trigger_run
    trigger_run-IsTriggered_from plain cfg world known =
        Leaves-continue (IsTriggered Q cfg)
          (λ valid. do script ← read_script K reader cfg; create_run K reader cfg)
          (validate_k6_operator cfg, world)
          λ valid _.
            Leaves-continue (IsTriggered Q cfg) (λ script. create_run K reader cfg)
              (read_script K reader cfg _)
              λ script _.
                create_run-IsTriggered plain cfg _ (read_script-keeps K R quiet reader cfg _ known)

  pub trigger_run-IsTriggered :
      (Q : Gvr → Text → Text → W → Type 0)
      → Names Q
      → (cfg : PluginConfig X) (world : OperatorWorld K)
      → Leaves (IsTriggered Q cfg) (trigger_run K reader cfg world)
  trigger_run-IsTriggered Q plain cfg world =
      trigger_run-IsTriggered_from (λ w. Unit {0}) (anything_quiet K) Q
        (λ dyn gvr ns object w name _. plain dyn gvr ns object w name) cfg world tt

  pub known_resource :
      (cfg : PluginConfig X) → (resource_for cfg ≡ testruns) ⊎ (resource_for cfg ≡ privateloadzones)
  known_resource cfg = ground arith

  -- The run ID that `TriggerRun` returns is not empty, and is decoded to the namespace
  -- of the run and to its resource, a `PrivateLoadZone` exactly if the configuration has Grafana Cloud
  -- credentials. This supposes that neither the namespace nor the answered names hold a slash.
  pub trigger_run-decode_run_id :
      NamesPlainly
      → (cfg : PluginConfig X) (world : OperatorWorld K) {run_id : Text}
      → Lacks b'/' (namespace_of cfg)
      → (trigger_run K reader cfg world).0 ≡ ok run_id
      → (id : RunId) × (decode_run_id run_id ≡ ok id)
        × (id.namespace ≡ namespace_of cfg)
        × (id.resource ≡ resource_for cfg)
        × (run_id ≢ [])
  trigger_run-decode_run_id plain cfg world {run_id} ns_plain h =
      let (name, encoded, name_plain) =
        Leaves_of_ok (IsTriggered (λ gvr ns name w. Lacks b'/' name) cfg)
          (trigger_run K reader cfg world) h
          (trigger_run-IsTriggered (λ gvr ns name w. Lacks b'/' name) plain cfg world) in
      let id : RunId = record {
        namespace = namespace_of cfg;
        resource = resource_for cfg;
        name = name;
      } in
      let back : decode_run_id (encode_run_id id) ≡ ok id = decode-encode id (record {
        namespace_plain = ns_plain;
        resource_known = known_resource cfg;
        name_plain = name_plain;
      }) in
      (id, rw encoded back, refl, refl, rw encoded (encode_run_id-ne-nil id))
