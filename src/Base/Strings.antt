-- ===== src/Base/Strings.antt =====
-- What the source uses of Go's package strings, over bytes.
use argo_rollouts_k6_plugin.Base.Tests.{eqb, if◌then◌else◌, Bool-cases}
use argo_rollouts_k6_plugin.Base.Lists.{is_empty, any}
use argo_rollouts_k6_plugin.Base.Texts.{Text, Lacks}
use Prim.Native.Nat.{ℕ, zero, suc}
use mathlib.Core.Path.{◌≡◌, refl, sym, ◌∙◌, ap}
use mathlib.Core.Logic.{inl, inr}
use mathlib.Core.Bool.{Bool, true, false, ◌&&◌}
use mathlib.Core.List.{List, [], ◌∷◌, ◌++◌, append-nil, append_assoc}
use native.Mathlib.Omega.{arith}

-- `n` is how many cuts are left, `cur` the part that is being read.
cuts : ℕ → ℕ → Text → Text → List Text
cuts n sep cur [] = cur ∷ []
cuts zero sep cur (c ∷ s) = (cur ++ (c ∷ s)) ∷ []
cuts (suc n) sep cur (c ∷ s) = elim (eqb c sep) [
  | true ↦ cur ∷ cuts n sep [] s
  | false ↦ cuts (suc n) sep (cur ++ (c ∷ [])) s
]

-- `strings.SplitN(s, sep, n + 1)` at a separator of one byte.
unfoldable pub split_n : Text → ℕ → ℕ → List Text
unfolding cuts
split_n s sep n = cuts n sep [] s

split_from : ℕ → Text → Text → List Text
split_from sep cur [] = cur ∷ []
split_from sep cur (c ∷ s) = elim (eqb c sep) [
  | true ↦ cur ∷ split_from sep [] s
  | false ↦ split_from sep (cur ++ (c ∷ [])) s
]

-- `strings.Split(s, sep)` at a separator of one byte.
unfoldable pub split : Text → ℕ → List Text
unfolding split_from
split s sep = split_from sep [] s

-- `strings.Join`
unfoldable pub join : List Text → Text → Text
join [] sep = []
join (p ∷ []) sep = p
join (p ∷ q ∷ ps) sep = p ++ (sep ++ join (q ∷ ps) sep)

-- `strings.Contains(s, c)` for one byte.
abbrev pub contains_byte : ℕ → Text → Bool
contains_byte b s = any (λ c. eqb c b) s

-- `strings.TrimRight` by a set of ASCII bytes.
unfoldable pub trim_right : (ℕ → Bool) → Text → Text
trim_right p [] = []
trim_right p (c ∷ s) = let rest = trim_right p s in if is_empty rest && p c then [] else c ∷ rest

pub contains_byte-false : (b : ℕ) (s : Text) → contains_byte b s ≡ false → Lacks b s
contains_byte-false b [] h = tt
contains_byte-false b (c ∷ s) h = ground (arith, contains_byte-false b s)

pub contains_byte_of_Lacks : (b : ℕ) (s : Text) → Lacks b s → contains_byte b s ≡ false
contains_byte_of_Lacks b [] h = refl
contains_byte_of_Lacks b (c ∷ s) h = ground (arith, contains_byte_of_Lacks b s h.1)

pub Lacks-append : (b : ℕ) (s t : Text) → Lacks b s → Lacks b t → Lacks b (s ++ t)
Lacks-append b [] t hs ht = ht
Lacks-append b (c ∷ s) t hs ht = (hs.0, Lacks-append b s t hs.1 ht)

-- A part that lacks the separator is cut off whole.
cuts-append :
    (n sep : ℕ) (p rest cur : Text)
    → Lacks sep p
    → cuts (suc n) sep cur (p ++ (sep ∷ rest)) ≡ (cur ++ p) ∷ cuts n sep [] rest
unfolding cuts
cuts-append n sep [] rest cur h = rw append-nil (ground arith)
cuts-append n sep (c ∷ p) rest cur h =
    ground (arith, cuts-append n sep p rest (cur ++ (c ∷ [])) h.1, append_assoc cur (c ∷ []) p)

cuts-zero : (sep : ℕ) (s : Text) → cuts zero sep [] s ≡ s ∷ []
unfolding cuts
cuts-zero sep [] = refl
cuts-zero sep (c ∷ s) = refl

pub split_n-three :
    (sep : ℕ) (a b c : Text)
    → Lacks sep a
    → Lacks sep b
    → split_n (a ++ (sep ∷ (b ++ (sep ∷ c)))) sep 2 ≡ a ∷ b ∷ c ∷ []
unfolding split_n
split_n-three sep a b c ha hb =
    rw (cuts-append 1 sep a _ [] ha, cuts-append 0 sep b _ [] hb, cuts-zero)

-- The text that some parts spell.
abbrev spelled : ℕ → List Text → Text
spelled sep [] = []
spelled sep (p ∷ []) = p
spelled sep (p ∷ q ∷ ps) = p ++ (sep ∷ spelled sep (q ∷ ps))

-- The parts before the last lack the separator.
abbrev AllButLast : ℕ → List Text → Type 0
AllButLast sep [] = Unit
AllButLast sep (p ∷ []) = Unit
AllButLast sep (p ∷ q ∷ ps) = Lacks sep p × AllButLast sep (q ∷ ps)

cuts-ne-nil : (n sep : ℕ) (cur s : Text) → is_empty (cuts n sep cur s) ≡ false
unfolding cuts
cuts-ne-nil zero sep cur [] = refl
cuts-ne-nil zero sep cur (c ∷ s) = refl
cuts-ne-nil (suc n) sep cur [] = refl
cuts-ne-nil (suc n) sep cur (c ∷ s) = ground (arith, cuts-ne-nil (suc n) sep (cur ++ (c ∷ [])) s)

spelled-cons :
    (sep : ℕ) (p : Text) (ps : List Text)
    → is_empty ps ≡ false
    → spelled sep (p ∷ ps) ≡ p ++ (sep ∷ spelled sep ps)
spelled-cons sep p [] h = cc
spelled-cons sep p (q ∷ ps) h = refl

AllButLast-cons :
    (sep : ℕ) (p : Text) (ps : List Text)
    → Lacks sep p
    → AllButLast sep ps
    → AllButLast sep (p ∷ ps)
AllButLast-cons sep p [] h k = tt
AllButLast-cons sep p (q ∷ ps) h k = (h, k)

spelled-cuts : (n sep : ℕ) (cur s : Text) → spelled sep (cuts n sep cur s) ≡ cur ++ s
unfolding cuts
spelled-cuts zero sep cur [] = sym (append-nil cur)
spelled-cuts zero sep cur (c ∷ s) = refl
spelled-cuts (suc n) sep cur [] = sym (append-nil cur)
spelled-cuts (suc n) sep cur (c ∷ s) = ground (
  arith,
  spelled-cons sep cur (cuts n sep [] s) (cuts-ne-nil n sep [] s),
  spelled-cuts n sep [] s,
  spelled-cuts (suc n) sep (cur ++ (c ∷ [])) s,
  append_assoc cur (c ∷ []) s,
)

cuts_at_sep :
    (n sep c : ℕ) (cur s : Text)
    → eqb c sep ≡ true
    → cuts (suc n) sep cur (c ∷ s) ≡ cur ∷ cuts n sep [] s
unfolding cuts
cuts_at_sep n sep c cur s e = ground arith

cuts_past :
    (n sep c : ℕ) (cur s : Text)
    → eqb c sep ≡ false
    → cuts (suc n) sep cur (c ∷ s) ≡ cuts (suc n) sep (cur ++ (c ∷ [])) s
unfolding cuts
cuts_past n sep c cur s e = ground arith

AllButLast-cuts : (n sep : ℕ) (cur s : Text) → Lacks sep cur → AllButLast sep (cuts n sep cur s)
AllButLast-cuts zero sep cur [] h = unfold cuts in tt
AllButLast-cuts zero sep cur (c ∷ s) h = unfold cuts in tt
AllButLast-cuts (suc n) sep cur [] h = unfold cuts in tt
AllButLast-cuts (suc n) sep cur (c ∷ s) h = elim (Bool-cases (eqb c sep)) [
  | inl e ↦
      rw (cuts_at_sep n sep c cur s e) (AllButLast-cons sep cur _ h (AllButLast-cuts n sep [] s tt))
  | inr e ↦ rw (cuts_past n sep c cur s e) (
      AllButLast-cuts (suc n) sep (cur ++ (c ∷ [])) s
        (Lacks-append sep cur (c ∷ []) h (ground arith, tt)))
]

-- Three parts spell the text, and the first two lack the separator.
pub split_n-three_sound :
    (sep : ℕ) (s a b c : Text)
    → split_n s sep 2 ≡ a ∷ b ∷ c ∷ []
    → (s ≡ a ++ (sep ∷ (b ++ (sep ∷ c)))) × Lacks sep a × Lacks sep b
unfolding split_n
split_n-three_sound sep s a b c h =
    let parts = rw h at (AllButLast-cuts 2 sep [] s tt) in
    (sym (spelled-cuts 2 sep [] s) ∙ ap (spelled sep) h, parts.0, parts.1.0)
