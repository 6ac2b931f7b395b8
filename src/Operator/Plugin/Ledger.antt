-- ===== src/Operator/Plugin/Ledger.antt =====
-- What the operator backend promises of the runs on the cluster, as an abstract ledger, for calls in any
-- order and for any number of runs.
use argo_rollouts_k6_plugin.Base.{
  Text, Lacks, Bool, true, false, ◌≡◌, ◌≢◌, ◌⊎◌, inl, inr, refl, sym, ◌∙◌, ap, arith, ◌&&◌, ◌||◌,
  not, ◌==◌, ==_iff, none, Result, ok, err, List, [], ◌∷◌, Result-cases, Bool-cases, Leaves_of_ok,
}
use argo_rollouts_k6_plugin.Provider.Errors.{Err}
use argo_rollouts_k6_plugin.Provider.Config.{Platform, PluginConfig}
use argo_rollouts_k6_plugin.Operator.Types.{Kube, Gvr}
use argo_rollouts_k6_plugin.Operator.RunId.{RunId, decode_run_id, decode-encode, encode_run_id}
use argo_rollouts_k6_plugin.Operator.TestRun.{is_cloud_connected}
use argo_rollouts_k6_plugin.Operator.Client.{OperatorWorld}
use argo_rollouts_k6_plugin.Operator.Plugin.{
  namespace_of, gvr_of, trigger_run, get_run_result, stop_run, cleanup,
}
use argo_rollouts_k6_plugin.Operator.Plugin.Runs.{
  IsTriggered, trigger_run-IsTriggered_from, resource_for, known_resource,
}
use argo_rollouts_k6_plugin.Operator.Plugin.Quiet.{Quiet_of}
use argo_rollouts_k6_plugin.Operator.Plugin.Quiet.Starts.{trigger_run-keeps}
use argo_rollouts_k6_plugin.Operator.Plugin.Quiet.Polls.{get_run_result-keeps}
use argo_rollouts_k6_plugin.Operator.Plugin.Objects.{
  Cluster, has_run, has_object, has_run_of_decoded, cleanup-gone, trigger_run-has_run,
  gvr_of-resource,
}
use argo_rollouts_k6_plugin.Operator.Plugin.Others.{
  Place, place_of, there, Isolated, has_run-keeps, decoded-place, cleanup-others,
}

-- What a call did, as its caller sees it.
pub data Entry : Type 0 where
  started : Text → Entry
  not_started : Entry
  polled : Entry
  removed : Text → Entry
  not_removed : Text → Entry

-- Which entries may take a run from being there or not to being there or not.
abbrev pub Allows : Text → Entry → Bool → Bool → Type 0
Allows run (started id) before after = after ≡ ((id == run) || before)
Allows run not_started before after = (before ≡ false) ⊎ (after ≡ true)
Allows run polled before after = after ≡ before
Allows run (removed id) before after = after ≡ (not (id == run) && before)
Allows run (not_removed id) before after = ((id == run) ≡ true) ⊎ (after ≡ before)

pub data Ledger (run : Text) : List Entry → Bool → Bool → Type 0 where
  nothing : {now : Bool} → Ledger run [] now now
  entry :
      {e : Entry} {rest : List Entry} {before between after : Bool}
      → Allows run e before between
      → Ledger run rest between after
      → Ledger run (e ∷ rest) before after

pub data Call (X : Platform) : Type 0 where
  trigger : PluginConfig X → Call X
  poll : PluginConfig X → Text → Call X
  stop : PluginConfig X → Text → Call X
  clean : PluginConfig X → Text → Call X

abbrev start_entry : Result Err Text → Entry
start_entry (ok id) = started id
start_entry (err e) = not_started

abbrev removal_entry : Text → Result Err (Unit {0}) → Entry
removal_entry id (ok u) = removed id
removal_entry id (err e) = not_removed id

-- The namespaces of all calls hold no slash.
abbrev pub ArePlain : {X : Platform} → List (Call X) → Type 0
ArePlain [] = Unit
ArePlain (trigger cfg ∷ calls) = Lacks b'/' (namespace_of cfg) × ArePlain calls
ArePlain (_ ∷ calls) = ArePlain calls

module _ {X : Platform} {W : Type 0} (K : Kube X W) where
  unfoldable pub perform : Call X → OperatorWorld K → Entry × OperatorWorld K
  perform (trigger cfg) world =
      let (r, world') = trigger_run K none cfg world in (start_entry r, world')
  perform (poll cfg id) world = (polled, (get_run_result K none cfg id world).1)
  perform (stop cfg id) world =
      let (r, world') = stop_run K none cfg id world in (removal_entry id r, world')
  perform (clean cfg id) world =
      let (r, world') = cleanup K none cfg id world in (removal_entry id r, world')

  unfoldable pub perform_all : List (Call X) → OperatorWorld K → List Entry × OperatorWorld K
  perform_all [] world = ([], world)
  perform_all (call ∷ calls) world =
      let (e, world') = perform call world in
      let (rest, world'') = perform_all calls world' in (e ∷ rest, world'')

  module _ (C : Cluster K) (isolated : Isolated K C) (run : Text) where
    abbrev run_in : (Gvr → Text → Text → Bool) → Bool
    run_in has = elim (decode_run_id run) [
      | err e ↦ false
      | ok id ↦ elim (gvr_of id) [ err e ↦ false | ok gvr ↦ has gvr id.namespace id.name ]
    ]

    poll-Allows :
        (cfg : PluginConfig X) (id : Text) (world : OperatorWorld K)
        → has_run K C run (get_run_result K none cfg id world).1.1 ≡ has_run K C run world.1
    poll-Allows cfg id world = ap run_in (
        get_run_result-keeps K (λ w. C.has w ≡ C.has world.1) (isolated.quiet (C.has world.1)) cfg
          id world refl)

    clean-Allows :
        (cfg : PluginConfig X) (id : Text) (world : OperatorWorld K)
        → Allows run
            (removal_entry id (cleanup K none cfg id world).0)
            (has_run K C run world.1)
            (has_run K C run (cleanup K none cfg id world).1.1)
    clean-Allows cfg id world = elim (Bool-cases (id == run)) [
      | inl same ↦ elim (Result-cases (cleanup K none cfg id world).0) [
        | inl (u, good) ↦
            rw (good, same)
              (rw⁻¹ ((==_iff id run).0 same) (cleanup-gone K C none cfg id world good).0)
        | inr (e, bad) ↦ rw bad (inl same)
      ]
      | inr differ ↦
          let kept =
            cleanup-others K C isolated none run cfg id world
              λ same. absurd (ground (arith, ==_iff id run)) in
          elim (Result-cases (cleanup K none cfg id world).0) [
            | inl (u, good) ↦ rw (good, differ) kept
            | inr (e, bad) ↦ rw bad (inr kept)
          ]
    ]

    -- The objects of this world, but for one place.
    abbrev Beside : W → Gvr → Text → Text → W → Type 0
    Beside w0 gvr ns name w =
        Lacks b'/' name
        × ((other : Place)
            → (record { gvr = gvr; namespace = ns; name = name }) ≢ other
            → there K C other w ≡ there K C other w0)

    create-Beside :
        (w0 : W) (dyn : K.DynClient) (gvr : Gvr) (ns : Text) (object : K.Object) (w : W)
        (name : Text)
        → C.has w ≡ C.has w0
        → (K.create dyn gvr ns object w).0 ≡ ok name
        → Beside w0 gvr ns name (K.create dyn gvr ns object w).1
    create-Beside w0 dyn gvr ns object w name same answer = (
      (C.creates dyn gvr ns object w name answer).1,
      λ other distinct.
          isolated.create_keeps dyn gvr ns object w name other answer distinct
          ∙ ap (λ has. has other.gvr other.namespace other.name) same,
    )

    started-others :
        (cfg : PluginConfig X) (world : OperatorWorld K) (id : Text)
        → Lacks b'/' (namespace_of cfg)
        → (trigger_run K none cfg world).0 ≡ ok id
        → id ≢ run
        → has_run K C run (trigger_run K none cfg world).1.1 ≡ has_run K C run world.1
    started-others cfg world id plain good distinct =
        let (name, encoded, (name_plain, kept)) =
          Leaves_of_ok (IsTriggered K none (Beside world.1) cfg) (trigger_run K none cfg world) good
            (trigger_run-IsTriggered_from K none (λ w. C.has w ≡ C.has world.1)
              (isolated.quiet (C.has world.1)) (Beside world.1) (create-Beside world.1) cfg world
              refl) in
        let made : RunId = record {
          namespace = namespace_of cfg;
          resource = resource_for K none cfg;
          name = name;
        } in
        let decodes = decode-encode made (record {
          namespace_plain = plain;
          resource_known = known_resource K none cfg;
          name_plain = name_plain;
        }) in
        has_run-keeps K C isolated none run world.1 (trigger_run K none cfg world).1.1
          λ id' gvr' good' known'. kept (place_of id' gvr') λ same. distinct (
            encoded
            ∙ decoded-place (encode_run_id made) run decodes good'
                (gvr_of-resource (is_cloud_connected cfg) (namespace_of cfg) name) known' same)

    create-spares :
        (dyn : K.DynClient) (gvr : Gvr) (ns : Text) (object : K.Object) (w : W)
        → has_run K C run w ≡ true
        → has_run K C run (K.create dyn gvr ns object w).1 ≡ true
    create-spares dyn gvr ns object w h = elim (Result-cases (decode_run_id run)) [
      | inr (e, bad) ↦ rw (has_run, bad) refl ∙ h
      | inl (id, good) ↦ elim (Result-cases (gvr_of id)) [
        | inr (e, unknown) ↦ rw (has_run, good, has_object, unknown) refl ∙ h
        | inl (g, known) ↦
            has_run_of_decoded K C run _ good known
            ∙ isolated.create_spares dyn gvr ns object w (place_of id g)
                (sym (has_run_of_decoded K C run w good known) ∙ h)
      ]
    ]

    not_started-Allows :
        (cfg : PluginConfig X) (world : OperatorWorld K)
        → Allows run not_started
            (has_run K C run world.1)
            (has_run K C run (trigger_run K none cfg world).1.1)
    not_started-Allows cfg world = elim (Bool-cases (has_run K C run world.1)) [
      | inr absent ↦ inl absent
      | inl present ↦ inr (
          trigger_run-keeps K (λ w. has_run K C run w ≡ true)
            (Quiet_of K C.has (λ has. run_in has ≡ true) isolated.quiet) create-spares none cfg
            world present)
    ]

    start-Allows :
        (cfg : PluginConfig X) (world : OperatorWorld K)
        → Lacks b'/' (namespace_of cfg)
        → Allows run
            (start_entry (trigger_run K none cfg world).0)
            (has_run K C run world.1)
            (has_run K C run (trigger_run K none cfg world).1.1)
    start-Allows cfg world plain = elim (Result-cases (trigger_run K none cfg world).0) [
      | inl (id, good) ↦ elim (Bool-cases (id == run)) [
        | inl same ↦
            rw (good, same)
              (rw⁻¹ ((==_iff id run).0 same) (trigger_run-has_run K C none cfg world plain good))
        | inr differ ↦
            rw (good, differ)
              (started-others cfg world id plain good
                λ same. absurd (ground (arith, ==_iff id run)))
      ]
      | inr (e, bad) ↦ rw bad (not_started-Allows cfg world)
    ]

    -- Whatever calls are made on the backend, for this and for other runs and in any order: whether the
    -- object of the run is there is what the ledger of the calls allows. A call that is answered starts or
    -- removes the run that it is for and no other; a poll changes nothing; a start that fails takes nothing
    -- away, and a removal that fails leaves the other runs alone. This supposes that no namespace holds a
    -- slash, and what Kubernetes documents of creations and deletions.
    pub perform_all-Ledger :
        (calls : List (Call X)) (world : OperatorWorld K)
        → ArePlain calls
        → let (log, world') = perform_all calls world in
          Ledger run log (has_run K C run world.1) (has_run K C run world'.1)
    unfolding perform_all perform stop_run cleanup
    perform_all-Ledger [] world plain = nothing
    perform_all-Ledger (trigger cfg ∷ calls) world (here, plain) =
        entry (start-Allows cfg world here) (perform_all-Ledger calls _ plain)
    perform_all-Ledger (poll cfg id ∷ calls) world plain =
        entry (poll-Allows cfg id world) (perform_all-Ledger calls _ plain)
    perform_all-Ledger (stop cfg id ∷ calls) world plain =
        entry (clean-Allows cfg id world) (perform_all-Ledger calls _ plain)
    perform_all-Ledger (clean cfg id ∷ calls) world plain =
        entry (clean-Allows cfg id world) (perform_all-Ledger calls _ plain)
