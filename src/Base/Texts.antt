-- ===== src/Base/Texts.antt =====
-- Go's strings and byte slices: lists of bytes. A dictionary is an association list.
use Prim.Native.Nat.{ℕ}
use Prim.Native.Char.{code}
use Prim.Native.String.{String}
use mathlib.Core.Path.{◌≡◌, refl}
use mathlib.Core.Logic.{◌≢◌, ◌↔◌}
use mathlib.Core.Bool.{Bool, true, false, ◌&&◌}
use mathlib.Core.Option.{Option, none, some}
use mathlib.Core.List.{List, [], ◌∷◌}
use native.Mathlib.Omega.{arith}
use argo_rollouts_k6_plugin.Base.Tests.{eqb, if◌then◌else◌}

abbrev pub Text : Type 0
Text = List ℕ

-- The bytes of an ASCII literal.
abbrev pub codes : String → Text
codes String.[] = []
codes (String.◌∷◌ c s) = code c ∷ codes s

infix 50 ◌==◌
unfoldable pub ◌==◌ : Text → Text → Bool
[] == [] = true
[] == (d ∷ t) = false
(c ∷ s) == [] = false
(c ∷ s) == (d ∷ t) = eqb c d && s == t

pub ==_refl : (s : Text) → (s == s) ≡ true
unfolding ◌==◌
==_refl [] = refl
==_refl (c ∷ s) = ground (arith, ==_refl s)

pub eq_of_== : (s t : Text) → (s == t) ≡ true → s ≡ t
unfolding ◌==◌
eq_of_== [] [] h = refl
eq_of_== [] (d ∷ t) h = cc
eq_of_== (c ∷ s) [] h = cc
eq_of_== (c ∷ s) (d ∷ t) h = ground (arith, eq_of_== s t)

pub ==_iff : (s t : Text) → ((s == t) ≡ true) ↔ (s ≡ t)
==_iff s t = (eq_of_== s t, λ e. ground (arith, ==_refl s))

pub ==_false : (s t : Text) → s ≢ t → (s == t) ≡ false
==_false s t h = ground (arith, ==_iff s t)

abbrev pub Lacks : ℕ → Text → Type 0
Lacks b [] = Unit
Lacks b (c ∷ s) = (c ≢ b) × Lacks b s

abbrev pub Dict : Type 0 → Type 0
Dict V = List (Text × V)

module _ {V : Type 0} where
  -- `found, ok := dict[key]`
  unfoldable pub lookup : Text → Dict V → Option V
  lookup key [] = none
  lookup key (entry ∷ rest) = if entry.0 == key then some entry.1 else lookup key rest

  -- `dict[key] = value`
  unfoldable pub insert : Text → V → Dict V → Dict V
  insert key value [] = (key, value) ∷ []
  insert key value (entry ∷ rest) =
      if entry.0 == key then (entry.0, value) ∷ rest else entry ∷ insert key value rest

  -- `m[k]`, which is the zero value where `k` is absent.
  unfoldable pub lookup_or : V → Text → Dict V → V
  unfolding lookup
  lookup_or zero_value k m = elim (lookup k m) [ none ↦ zero_value | some v ↦ v ]

  -- `for k := range m`
  unfoldable pub keys : Dict V → List Text
  keys [] = []
  keys ((k, v) ∷ m) = k ∷ keys m

  pub lookup-insert :
      (key other : Text) (value : V) (dict : Dict V)
      → lookup other (insert key value dict)
        ≡ (if key == other then some value else lookup other dict)
  unfolding lookup insert
  lookup-insert key other value [] = refl
  lookup-insert key other value (entry ∷ rest) = ground (
    arith,
    lookup-insert key other value rest,
    ==_iff entry.0 key,
    ==_iff entry.0 other,
    ==_iff key other,
  )
