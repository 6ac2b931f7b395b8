-- ===== src/Operator/RunId.antt =====
-- Run IDs: `encodeRunID`, `decodeRunID` and `gvrForResource` of internal/provider/operator/testrun.go.
use argo_rollouts_k6_plugin.Base.{
  Text, codes, ◌==◌, ◌==◌, ==_iff, Lacks, ◌≡◌, ◌⊎◌, inl, inr, refl, sym, if◌then◌else◌, not, ◌&&◌,
  List, [], ◌∷◌, ◌++◌, Option, none, some, Result, ok, err, arith,
}
use argo_rollouts_k6_plugin.Base.Strings.{
  split_n, contains_byte, contains_byte-false, contains_byte_of_Lacks, split_n-three,
  split_n-three_sound,
}
use argo_rollouts_k6_plugin.Provider.Errors.{Err, run_id_format, run_id_slash}
use argo_rollouts_k6_plugin.Operator.Types.{Gvr}

abbrev pub testruns : Text
testruns = codes "testruns"

abbrev pub privateloadzones : Text
privateloadzones = codes "privateloadzones"

abbrev pub test_run_gvr : Gvr
test_run_gvr = record { group = codes "k6.io"; version = codes "v1alpha1"; resource = testruns }

abbrev pub plz_gvr : Gvr
plz_gvr = record { group = codes "k6.io"; version = codes "v1alpha1"; resource = privateloadzones }

pub record RunId : Type 0 where
  pub namespace : Text
  pub resource : Text
  pub name : Text

unfoldable pub encode_run_id : RunId → Text
encode_run_id id = id.namespace ++ (b'/' ∷ (id.resource ++ (b'/' ∷ id.name)))

-- The checks of `decodeRunID` on three parts.
decode_parts : Text → RunId → Result Err RunId
decode_parts run_id id =
    if not (id.resource == testruns) && not (id.resource == privateloadzones)
    then err (run_id_format run_id)
    else if contains_byte b'/' id.name
    then err (run_id_slash run_id)
    else ok id

decode_list : Text → List Text → Result Err RunId
unfolding decode_parts
decode_list run_id (namespace ∷ resource ∷ name ∷ []) =
    decode_parts run_id (record { namespace = namespace; resource = resource; name = name })
decode_list run_id _ = err (run_id_format run_id)

unfoldable pub decode_run_id : Text → Result Err RunId
unfolding decode_list
decode_run_id run_id = decode_list run_id (split_n run_id b'/' 2)

-- `none` is the panic on an unknown resource.
unfoldable pub gvr_for_resource : Text → Option Gvr
gvr_for_resource resource =
    if resource == testruns
    then some test_run_gvr
    else if resource == privateloadzones
    then some plz_gvr
    else none

-- What a run ID of the backend names.
pub record IsRunId (id : RunId) : Type 0 where
  pub namespace_plain : Lacks b'/' id.namespace
  pub resource_known : (id.resource ≡ testruns) ⊎ (id.resource ≡ privateloadzones)
  pub name_plain : Lacks b'/' id.name

Lacks-of_known :
    (resource : Text) → (resource ≡ testruns) ⊎ (resource ≡ privateloadzones) → Lacks b'/' resource
Lacks-of_known resource (inl e) = rw e (omega arith)
Lacks-of_known resource (inr e) = rw e (omega arith)

decode_parts_of_IsRunId : (run_id : Text) (id : RunId) → IsRunId id → decode_parts run_id id ≡ ok id
unfolding decode_parts
decode_parts_of_IsRunId run_id id v = ground (
  arith,
  v.resource_known,
  ==_iff id.resource testruns,
  ==_iff id.resource privateloadzones,
  contains_byte_of_Lacks b'/' id.name v.name_plain,
)

-- Decoding an encoded identity gives it back, if neither the namespace nor the name holds a slash and
-- the resource is one of the two that the backend knows.
pub decode-encode : (id : RunId) → IsRunId id → decode_run_id (encode_run_id id) ≡ ok id
unfolding decode_run_id encode_run_id
decode-encode id v =
    rw
      (split_n-three b'/' _ _ id.name v.namespace_plain
        (Lacks-of_known id.resource v.resource_known))
      (decode_parts_of_IsRunId _ id v)

decode_parts_sound :
    (run_id : Text) (id id' : RunId)
    → decode_parts run_id id ≡ ok id'
    → (id ≡ id')
      × ((id.resource ≡ testruns) ⊎ (id.resource ≡ privateloadzones))
      × Lacks b'/' id.name
unfolding decode_parts
decode_parts_sound run_id id id' h = (
  ground (arith, ==_iff id.resource testruns),
  ground (arith, ==_iff id.resource testruns, ==_iff id.resource privateloadzones),
  contains_byte-false b'/' id.name (ground (arith, ==_iff id.resource testruns)),
)

decode_list_sound :
    (run_id : Text) (parts : List Text) (id : RunId)
    → split_n run_id b'/' 2 ≡ parts
    → decode_list run_id parts ≡ ok id
    → (encode_run_id id ≡ run_id) × IsRunId id
unfolding decode_list encode_run_id
decode_list_sound run_id (a ∷ b ∷ c ∷ []) id split h =
    let (same, known, plain) = decode_parts_sound run_id _ id h in
    let (spelled, left, middle) = split_n-three_sound b'/' run_id a b c split in
    rw (← same)
      (sym spelled, record { namespace_plain = left; resource_known = known; name_plain = plain })
decode_list_sound run_id _ id split h = cc

-- Every run ID that is decoded is the encoding of what it is decoded to, which is a slash-free
-- namespace, a known resource and a slash-free name.
pub decode_run_id_sound :
    (run_id : Text) {id : RunId}
    → decode_run_id run_id ≡ ok id
    → (encode_run_id id ≡ run_id) × IsRunId id
unfolding decode_run_id
decode_run_id_sound run_id {id} h = decode_list_sound run_id _ id refl h

-- `gvrForResource` never panics on a decoded run ID, and gives the resource that the ID names.
pub gvr_for_decoded :
    (run_id : Text) {id : RunId}
    → decode_run_id run_id ≡ ok id
    → (gvr : Gvr) × (gvr_for_resource id.resource ≡ some gvr) × (gvr.resource ≡ id.resource)
unfolding gvr_for_resource ◌==◌
gvr_for_decoded run_id {id} h = elim (decode_run_id_sound run_id h).1.resource_known [
  | inl e ↦ (test_run_gvr, rw e refl, sym e)
  | inr e ↦ (plz_gvr, rw e refl, sym e)
]
