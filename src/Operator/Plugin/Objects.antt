-- ===== src/Operator/Plugin/Objects.antt =====
-- Which objects the operator backend leaves on the cluster.
use argo_rollouts_k6_plugin.Base.{
  Text, Lacks, Bool, true, false, ◌≡◌, refl, ◌∙◌, if◌then◌else◌, Option, ok, err, Leaves,
  Leaves_of_ok, Leaves-continue, inl, inr, Result-cases, Bool-cases, ◌==◌, wrap_error-eq-ok,
}
use argo_rollouts_k6_plugin.Provider.Errors.{Fault}
use argo_rollouts_k6_plugin.Provider.Config.{Platform, PluginConfig}
use argo_rollouts_k6_plugin.Operator.Types.{Kube, Gvr}
use argo_rollouts_k6_plugin.Operator.RunId.{
  RunId, decode_run_id, encode_run_id, decode-encode, gvr_for_resource, plz_gvr, test_run_gvr,
}
use argo_rollouts_k6_plugin.Operator.TestRun.{is_cloud_connected}
use argo_rollouts_k6_plugin.Operator.Client.{OperatorWorld, LogReader}
use argo_rollouts_k6_plugin.Operator.Plugin.{
  namespace_of, trigger_run, stop_run, cleanup, delete_cr, settle_delete, need_dyn_client, decoded,
  gvr_of,
}
use argo_rollouts_k6_plugin.Operator.Plugin.Runs.{
  IsTriggered, trigger_run-IsTriggered, resource_for, known_resource,
}

-- Each of the two resources is the one that its name stands for.
pub gvr_of-resource :
    (cloud : Bool) (ns name : Text)
    → let gvr = if cloud then plz_gvr else test_run_gvr in
      gvr_of (record { namespace = ns; resource = gvr.resource; name = name }) ≡ ok gvr
unfolding gvr_for_resource ◌==◌
gvr_of-resource true ns name = refl
gvr_of-resource false ns name = refl

module _ {X : Platform} {W : Type 0} (K : Kube X W) where
  -- Which objects there are that are not marked for deletion, by resource, namespace and name, and what
  -- Kubernetes documents of a creation and a deletion: a deletion that fails as not found leaves no
  -- such object either.
  pub record Cluster : Type 0 where
    pub has : W → Gvr → Text → Text → Bool
    pub creates :
        (dyn : K.DynClient) (gvr : Gvr) (ns : Text) (object : K.Object) (w : W) (name : Text)
        → (K.create dyn gvr ns object w).0 ≡ ok name
        → (has (K.create dyn gvr ns object w).1 gvr ns name ≡ true) × Lacks b'/' name
    pub deletes :
        (dyn : K.DynClient) (gvr : Gvr) (ns name : Text) (w : W)
        → (K.delete dyn gvr ns name w).0 ≡ ok tt
        → has (K.delete dyn gvr ns name w).1 gvr ns name ≡ false
    pub misses :
        (dyn : K.DynClient) (gvr : Gvr) (ns name : Text) (w : W) (e : Fault)
        → (K.delete dyn gvr ns name w).0 ≡ err e
        → e.not_found ≡ true
        → has (K.delete dyn gvr ns name w).1 gvr ns name ≡ false

  module _ (C : Cluster) where
    -- Whether the object of a run ID is there.
    abbrev pub has_object : RunId → W → Bool
    has_object id w = elim (gvr_of id) [ err e ↦ false | ok gvr ↦ C.has w gvr id.namespace id.name ]

    abbrev pub has_run : Text → W → Bool
    has_run run_id w = elim (decode_run_id run_id) [ err e ↦ false | ok id ↦ has_object id w ]

    pub has_run_of_decoded :
        (run_id : Text) {id : RunId} {gvr : Gvr} (w : W)
        → decode_run_id run_id ≡ ok id
        → gvr_of id ≡ ok gvr
        → has_run run_id w ≡ C.has w gvr id.namespace id.name
    has_run_of_decoded run_id w good known = rw (has_run, good, has_object, known) refl

    module _ (reader : Option (LogReader K)) where
      abbrev NoRun : Text → Unit {0} → OperatorWorld K → Type 0
      NoRun run_id u (p, w) = has_run run_id w ≡ false

      settle_delete-NoRun :
          (run_id : Text) (dyn : K.DynClient) {gvr : Gvr} {id : RunId} (world : OperatorWorld K)
          → decode_run_id run_id ≡ ok id
          → gvr_of id ≡ ok gvr
          → Leaves (NoRun run_id) (settle_delete K reader dyn gvr id world)
      unfolding settle_delete
      settle_delete-NoRun run_id dyn {gvr} {id} (p, w) decodes known =
          let same =
            has_run_of_decoded run_id (K.delete dyn gvr id.namespace id.name w).1 decodes known in
          elim (Result-cases (K.delete dyn gvr id.namespace id.name w).0) [
            | inl (u, good) ↦ rw good (same ∙ C.deletes dyn gvr id.namespace id.name w good)
            | inr (e, bad) ↦ elim (Bool-cases e.not_found) [
              | inl absent ↦
                  rw (bad, absent) (same ∙ C.misses dyn gvr id.namespace id.name w e bad absent)
              | inr other ↦ rw (bad, other) tt
            ]
          ]

      delete_cr-NoRun :
          (run_id : Text) (world : OperatorWorld K)
          → Leaves (NoRun run_id) (delete_cr K reader run_id world)
      unfolding delete_cr
      delete_cr-NoRun run_id world =
          Leaves-continue (NoRun run_id) _ (decoded run_id, world)
            λ id decodes.
              Leaves-continue (NoRun run_id) _ (gvr_of id, world)
                λ gvr known.
                  Leaves-continue (NoRun run_id) (λ dyn. settle_delete K reader dyn gvr id)
                    (need_dyn_client K reader world)
                    λ dyn _. settle_delete-NoRun run_id dyn _ (wrap_error-eq-ok _ _ decodes) known

      -- Where `Cleanup` returns no error, the object that the run ID names is gone behind it or marked for
      -- deletion, whether it was there before or not. `StopRun` is the same operation.
      pub cleanup-gone :
          (cfg : PluginConfig X) (run_id : Text) (world : OperatorWorld K)
          → (cleanup K reader cfg run_id world).0 ≡ ok tt
          → (has_run run_id (cleanup K reader cfg run_id world).1.1 ≡ false)
            × (stop_run K reader cfg run_id world ≡ cleanup K reader cfg run_id world)
      unfolding stop_run cleanup
      cleanup-gone cfg run_id world h = (
        Leaves_of_ok (NoRun run_id) (delete_cr K reader run_id world) h
            (delete_cr-NoRun run_id world),
        refl,
      )

      -- The run ID that `TriggerRun` returns names an object that is on the cluster behind it, not marked for deletion. This supposes
      -- that the namespace holds no slash.
      pub trigger_run-has_run :
          (cfg : PluginConfig X) (world : OperatorWorld K) {run_id : Text}
          → Lacks b'/' (namespace_of cfg)
          → (trigger_run K reader cfg world).0 ≡ ok run_id
          → has_run run_id (trigger_run K reader cfg world).1.1 ≡ true
      trigger_run-has_run cfg world {run_id} ns_plain h =
          let Made : Gvr → Text → Text → W → Type 0 =
            λ gvr ns name w. (C.has w gvr ns name ≡ true) × Lacks b'/' name in
          let (name, encoded, (there, plain)) =
            Leaves_of_ok (IsTriggered K reader Made cfg) (trigger_run K reader cfg world) h
              (trigger_run-IsTriggered K reader Made C.creates cfg world) in
          let id : RunId = record {
            namespace = namespace_of cfg;
            resource = resource_for K reader cfg;
            name = name;
          } in
          rw encoded (
            has_run_of_decoded (encode_run_id id) _
              (decode-encode id (record {
                namespace_plain = ns_plain;
                resource_known = known_resource K reader cfg;
                name_plain = plain;
              }))
              (gvr_of-resource (is_cloud_connected cfg) (namespace_of cfg) name)
            ∙ there)
