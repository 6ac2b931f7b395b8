-- ===== src/Operator/Plugin/Others.antt =====
-- Runs do not disturb each other: deleting one leaves the objects of the others alone.
use argo_rollouts_k6_plugin.Base.{
  Text, Bool, true, ◌≡◌, ◌≢◌, inl, inr, refl, sym, ◌∙◌, ap, Option, Result, ok, err, Result-cases,
  continue, wrap_error-eq-ok,
}
use argo_rollouts_k6_plugin.Provider.Errors.{Err}
use argo_rollouts_k6_plugin.Provider.Config.{Platform, PluginConfig}
use argo_rollouts_k6_plugin.Operator.Types.{Kube, Gvr}
use argo_rollouts_k6_plugin.Operator.RunId.{
  RunId, decode_run_id, decode_run_id_sound, encode_run_id, gvr_for_decoded,
}
use argo_rollouts_k6_plugin.Operator.Client.{OperatorWorld, LogReader}
use argo_rollouts_k6_plugin.Operator.Plugin.{
  cleanup, delete_cr, settle_delete, need_dyn_client, decoded, gvr_of,
}
use argo_rollouts_k6_plugin.Operator.Plugin.Quiet.{Quiet, need_dyn_client-keeps}
use argo_rollouts_k6_plugin.Operator.Plugin.Objects.{
  Cluster, has_run, has_object, has_run_of_decoded,
}

-- Where an object stands.
pub record Place : Type 0 where
  pub gvr : Gvr
  pub namespace : Text
  pub name : Text

abbrev pub place_of : RunId → Gvr → Place
place_of id gvr = record { gvr = gvr; namespace = id.namespace; name = id.name }

gvr_of-named :
    (run_id : Text) {id : RunId} {gvr : Gvr}
    → decode_run_id run_id ≡ ok id
    → gvr_of id ≡ ok gvr
    → gvr.resource ≡ id.resource
gvr_of-named run_id {id} {gvr} good known =
    let (g, found, named) = gvr_for_decoded run_id good in
    let same : ◌≡◌ {A = Result Err Gvr} (ok g) (ok gvr) = rw⁻¹ known (rw (gvr_of, found) refl) in cc

-- Two decoded run IDs that stand for one place are one run ID.
pub decoded-place :
    (run_id other : Text) {id id' : RunId} {gvr gvr' : Gvr}
    → decode_run_id run_id ≡ ok id
    → decode_run_id other ≡ ok id'
    → gvr_of id ≡ ok gvr
    → gvr_of id' ≡ ok gvr'
    → place_of id gvr ≡ place_of id' gvr'
    → run_id ≡ other
decoded-place run_id other {id} {id'} {gvr} {gvr'} good good' known known' same =
    let named = gvr_of-named run_id good known in
    let named' = gvr_of-named other good' known' in
    let equal : id ≡ id' = cc in
    sym (decode_run_id_sound run_id good).0
    ∙ (ap encode_run_id equal ∙ (decode_run_id_sound other good').0)

module _ {X : Platform} {W : Type 0} (K : Kube X W) (C : Cluster K) where
  abbrev pub there : Place → W → Bool
  there place w = C.has w place.gvr place.namespace place.name

  -- A deletion changes no object but the one it is for, a creation that is answered none but the one that is
  -- named, and no creation takes an object away. Only these two calls change what objects there are.
  pub record Isolated : Type 0 where
    pub delete_keeps :
        (dyn : K.DynClient) (place other : Place) (w : W)
        → place ≢ other
        → there other (K.delete dyn place.gvr place.namespace place.name w).1 ≡ there other w
    pub create_keeps :
        (dyn : K.DynClient) (gvr : Gvr) (ns : Text) (object : K.Object) (w : W) (name : Text)
        (other : Place)
        → (K.create dyn gvr ns object w).0 ≡ ok name
        → (record { gvr = gvr; namespace = ns; name = name }) ≢ other
        → there other (K.create dyn gvr ns object w).1 ≡ there other w
    pub create_spares :
        (dyn : K.DynClient) (gvr : Gvr) (ns : Text) (object : K.Object) (w : W) (other : Place)
        → there other w ≡ true
        → there other (K.create dyn gvr ns object w).1 ≡ true
    pub quiet : (objects : Gvr → Text → Text → Bool) → Quiet K (λ w. C.has w ≡ objects)

  module _ (isolated : Isolated) (reader : Option (LogReader K)) (other : Text) where
    abbrev Kept : {A : Type 0} → OperatorWorld K → Result Err A × OperatorWorld K → Type 0
    Kept world out = has_run K C other out.1.1 ≡ has_run K C other world.1

    -- What keeps every object but one keeps the runs that it is not of.
    pub has_run-keeps :
        (w w' : W)
        → ((id : RunId) (gvr : Gvr)
            → decode_run_id other ≡ ok id
            → gvr_of id ≡ ok gvr
            → there (place_of id gvr) w' ≡ there (place_of id gvr) w)
        → has_run K C other w' ≡ has_run K C other w
    has_run-keeps w w' keeps = elim (Result-cases (decode_run_id other)) [
      | inr (e, bad) ↦ rw (has_run, bad) refl
      | inl (id, good) ↦ elim (Result-cases (gvr_of id)) [
        | inr (e, unknown) ↦ rw (has_run, good, has_object, unknown) refl
        | inl (gvr, known) ↦
            has_run_of_decoded K C other w' good known
            ∙ (keeps id gvr good known ∙ sym (has_run_of_decoded K C other w good known))
      ]
    ]

    continue-Kept :
        {A B : Type 0} (world : OperatorWorld K)
        (f : B → OperatorWorld K → Result Err A × OperatorWorld K)
        (out : Result Err B × OperatorWorld K)
        → Kept world out
        → ((b : B) (world' : OperatorWorld K)
            → out.0 ≡ ok b
            → has_run K C other world'.1 ≡ has_run K C other world.1
            → Kept world (f b world'))
        → Kept world (continue f out)
    continue-Kept world f (ok b, world') kept then = then b world' refl kept
    continue-Kept world f (err e, world') kept then = kept

    settle_delete-Kept :
        (run_id : Text) (dyn : K.DynClient) {id : RunId} {gvr : Gvr} (world : OperatorWorld K)
        → run_id ≢ other
        → decode_run_id run_id ≡ ok id
        → gvr_of id ≡ ok gvr
        → Kept world (settle_delete K reader dyn gvr id world)
    unfolding settle_delete
    settle_delete-Kept run_id dyn {id} {gvr} (p, w) distinct good known =
        has_run-keeps w (K.delete dyn gvr id.namespace id.name w).1 λ id' gvr' good' known'.
          isolated.delete_keeps dyn (place_of id gvr) (place_of id' gvr') w
            λ same. distinct (decoded-place run_id other good good' known known' same)

    need_dyn_client-Kept : (world : OperatorWorld K) → Kept world (need_dyn_client K reader world)
    need_dyn_client-Kept world =
        has_run-keeps world.1 (need_dyn_client K reader world).1.1 λ id gvr _ _.
          ap (λ has. has gvr id.namespace id.name)
            (need_dyn_client-keeps K (λ w. C.has w ≡ C.has world.1) (isolated.quiet (C.has world.1))
              reader world refl)

    -- A call of `Cleanup` for one run, whatever it answers, changes nothing about whether the object of
    -- another run ID is there. This supposes that a deletion changes no object but the one it is for, and
    -- that only the calls that create and delete objects change any.
    pub cleanup-others :
        (cfg : PluginConfig X) (run_id : Text) (world : OperatorWorld K)
        → run_id ≢ other
        → has_run K C other (cleanup K reader cfg run_id world).1.1 ≡ has_run K C other world.1
    unfolding cleanup delete_cr
    cleanup-others cfg run_id world distinct =
        continue-Kept world _ (decoded run_id, world) refl
          λ id world' decodes kept.
            continue-Kept world _ (gvr_of id, world') kept
              λ gvr world'' known kept'.
                continue-Kept world (λ dyn. settle_delete K reader dyn gvr id)
                  (need_dyn_client K reader world'') (need_dyn_client-Kept world'' ∙ kept')
                  λ dyn later _ kept''.
                    settle_delete-Kept run_id dyn later distinct (wrap_error-eq-ok _ _ decodes)
                      known
                    ∙ kept''
