-- ===== src/Operator/TestRun/Laws.antt =====
-- What the created resources look like.
use argo_rollouts_k6_plugin.Base.{
  Text, ℕ, pos, suc, zero, ◌*◌, ◌^◌, ◌≤◌, ◌<◌, ◌≡◌, ◌≢◌, ◌⊎◌, refl, length, length-append,
  length-take, take, int32, codes, [], ◌∷◌, ◌++◌, Bool, true, All, All-take, leb, ◌||◌, ◌&&◌, arith,
}
use argo_rollouts_k6_plugin.Base.Strings.{trim_right}
use argo_rollouts_k6_plugin.Provider.Config.{Platform, PluginConfig}
use argo_rollouts_k6_plugin.Operator.Types.{OwnerReference}
use argo_rollouts_k6_plugin.Operator.TestRun.{
  is_punctuation, sanitize_label_value, test_run_name, parent_owner_ref, build_test_run,
}

-- A letter or a digit.
abbrev pub is_alphanumeric : ℕ → Bool
is_alphanumeric c =
    (leb b'a' c && leb c b'z') || ((leb b'A' c && leb c b'Z') || (leb b'0' c && leb c b'9'))

-- What a Kubernetes label value may hold.
abbrev pub LabelChar : ℕ → Type 0
LabelChar c = (is_alphanumeric c || is_punctuation c) ≡ true

abbrev pub EndsWell : Text → Type 0
EndsWell [] = Unit
EndsWell (c ∷ []) = is_alphanumeric c ≡ true
EndsWell (c ∷ d ∷ s) = EndsWell (d ∷ s)

abbrev pub StartsWell : Text → Type 0
StartsWell [] = Unit
StartsWell (c ∷ s) = is_alphanumeric c ≡ true

-- The rule for a label value: at most 63 characters, and an alphanumeric one at either end.
pub record IsLabelValue (s : Text) : Type 0 where
  pub short : length s ≤ 63
  pub chars : All LabelChar s
  pub starts : StartsWell s
  pub ends : EndsWell s

length-trim_right : (p : ℕ → Bool) (s : Text) → length (trim_right p s) ≤ length s
unfolding trim_right
length-trim_right p [] = omega arith
length-trim_right p (c ∷ s) = ground (arith, length-trim_right p s)

All-trim_right : (p : ℕ → Bool) (s : Text) → All LabelChar s → All LabelChar (trim_right p s)
unfolding trim_right
All-trim_right p [] h = tt
All-trim_right p (c ∷ s) h = ground (arith, All-trim_right p s h.1)

StartsWell-trim_right : (p : ℕ → Bool) (s : Text) → StartsWell s → StartsWell (trim_right p s)
unfolding trim_right
StartsWell-trim_right p [] h = tt
StartsWell-trim_right p (c ∷ s) h = ground arith

StartsWell-take : (n : ℕ) (s : Text) → StartsWell s → StartsWell (take n s)
StartsWell-take zero s h = tt
StartsWell-take (suc n) [] h = tt
StartsWell-take (suc n) (c ∷ s) h = h

EndsWell-trim_right : (s : Text) → All LabelChar s → EndsWell (trim_right is_punctuation s)
unfolding trim_right
EndsWell-trim_right [] h = tt
EndsWell-trim_right (c ∷ s) h = ground (arith, EndsWell-trim_right s h.1)

-- The label of a name that consists of label characters and begins with a letter or a digit is a valid
-- label value.
pub sanitize_label_value-IsLabelValue :
    (v : Text) → All LabelChar v → StartsWell v → IsLabelValue (sanitize_label_value v)
unfolding sanitize_label_value
sanitize_label_value-IsLabelValue v h s =
    let kept = All-take LabelChar 63 v h in
    record {
      short = omega (arith, length-trim_right is_punctuation (take 63 v), length-take {0} 63 v);
      chars = All-trim_right is_punctuation (take 63 v) kept;
      starts = StartsWell-trim_right is_punctuation (take 63 v) (StartsWell-take 63 v s);
      ends = EndsWell-trim_right (take 63 v) kept;
    }

-- With a hash of eight digits the name of a resource fits the 253 characters of a Kubernetes name,
-- however long the Rollout's name is, and ends with the whole hash.
pub length-test_run_name :
    (rollout_name short : Text)
    → length short ≡ 8
    → (length (test_run_name rollout_name short) ≤ 253)
      × ((front : Text) × (test_run_name rollout_name short ≡ front ++ (b'-' ∷ short)))
unfolding test_run_name
length-test_run_name rollout_name short h = (
  omega (
    arith,
    length-append {0} (take 241 rollout_name) (b'-' ∷ short),
    length-take {0} 241 rollout_name,
  ),
  (codes "k6-" ++ take 241 rollout_name, refl),
)

module _ {X : Platform} (cfg : PluginConfig X) where
  -- An owner reference carries a UID; it names the AnalysisRun if the configuration has its UID, and
  -- the Rollout if it has only that one's.
  parent_owner_ref_uid :
      (ref : OwnerReference)
      → parent_owner_ref cfg ≡ ref ∷ []
      → (ref.uid ≢ [])
        × ((ref.uid ≡ cfg.analysis_run_uid) × (ref.name ≡ cfg.analysis_run_name)
            ⊎ (cfg.analysis_run_uid ≡ [])
              × (ref.uid ≡ cfg.rollout_uid)
              × (ref.name ≡ cfg.rollout_name))
  unfolding parent_owner_ref
  parent_owner_ref_uid ref h = ground arith

  -- For a parallelism from 0 up to the greatest `int32`, the `TestRun` asks for as many runners as the
  -- configuration says, or for one where that is 0.
  pub build_test_run_parallelism :
      (n : ℕ) (cm key namespace name : Text)
      → cfg.parallelism ≡ pos n
      → n < 2 ^ 31
      → let wanted = (build_test_run cfg cm key namespace name).parallelism in
        (n ≡ 0) × (wanted ≡ pos 1) ⊎ (0 < n) × (wanted ≡ pos n)
  unfolding build_test_run int32
  build_test_run_parallelism n cm key namespace name e h = ground arith

  -- A parallelism that is a positive multiple of 2 ^ 32 becomes 0 in the `TestRun`.
  pub build_test_run_wraps :
      (k : ℕ) (cm key namespace name : Text)
      → cfg.parallelism ≡ pos (suc k * 2 ^ 32)
      → (build_test_run cfg cm key namespace name).parallelism ≡ pos 0
  unfolding build_test_run int32
  build_test_run_wraps k cm key namespace name e = rw e (ground arith)
