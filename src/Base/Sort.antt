-- ===== src/Base/Sort.antt =====
-- `sort.Strings`: texts in the order of their bytes. The result of sorting does not depend on the
-- algorithm, so an insertion sort stands for it.
use mathlib.Core.List.{Perm, Permᴰ}
use mathlib.Core.List.Perm
use mathlib.Core.Logic.{∥∥₁_elim}
use mathlib.Core.Path.{◌≡◌, refl, ◌∙◌}
use mathlib.Core.Logic.{◌⊎◌, inl, inr}
use mathlib.Core.Bool.{Bool, true, false, ◌&&◌, ◌||◌}
use mathlib.Core.List.{List, [], ◌∷◌}
use native.Mathlib.Omega.{arith}
use native.Mathlib.Nat.{ℕ_set}
use argo_rollouts_k6_plugin.Base.Tests.{eqb, ltb, if◌then◌else◌, Bool-cases}
use argo_rollouts_k6_plugin.Base.Texts.{Text, ◌==◌}

unfoldable pub text_le : Text → Text → Bool
text_le [] t = true
text_le (c ∷ s) [] = false
text_le (c ∷ s) (d ∷ t) = ltb c d || (eqb c d && text_le s t)

insert_sorted : Text → List Text → List Text
insert_sorted a [] = a ∷ []
insert_sorted a (b ∷ l) = if text_le a b then a ∷ b ∷ l else b ∷ insert_sorted a l

unfoldable pub sort_strings : List Text → List Text
unfolding insert_sorted
sort_strings [] = []
sort_strings (a ∷ l) = insert_sorted a (sort_strings l)

abbrev pub IsSorted : List Text → Type 0
IsSorted [] = Unit
IsSorted (a ∷ []) = Unit
IsSorted (a ∷ b ∷ l) = (text_le a b ≡ true) × IsSorted (b ∷ l)

text_le_total : (s t : Text) → (text_le s t ≡ true) ⊎ (text_le t s ≡ true)
unfolding text_le
text_le_total [] t = inl refl
text_le_total (c ∷ s) [] = inr refl
text_le_total (c ∷ s) (d ∷ t) = ground (arith, text_le_total s t)

text_le_trans : (s t u : Text) → text_le s t ≡ true → text_le t u ≡ true → text_le s u ≡ true
unfolding text_le
text_le_trans [] t u p q = refl
text_le_trans (c ∷ s) [] u p q = cc
text_le_trans (c ∷ s) (d ∷ t) [] p q = cc
text_le_trans (c ∷ s) (d ∷ t) (e ∷ u) p q = ground (arith, text_le_trans s t u)

text_le_antisymm : (s t : Text) → text_le s t ≡ true → text_le t s ≡ true → s ≡ t
unfolding text_le
text_le_antisymm [] [] p q = refl
text_le_antisymm [] (d ∷ t) p q = cc
text_le_antisymm (c ∷ s) [] p q = cc
text_le_antisymm (c ∷ s) (d ∷ t) p q = ground (arith, text_le_antisymm s t)

insert_sorted-IsSorted : (a : Text) (l : List Text) → IsSorted l → IsSorted (insert_sorted a l)
unfolding insert_sorted
insert_sorted-IsSorted a [] h = tt
insert_sorted-IsSorted a (b ∷ []) h = ground (arith, text_le_total a b)
insert_sorted-IsSorted a (b ∷ c ∷ l) (p, h) =
    ground (arith, text_le_total a b, insert_sorted-IsSorted a (c ∷ l) h)

pub sort_strings-IsSorted : (l : List Text) → IsSorted (sort_strings l)
unfolding sort_strings
sort_strings-IsSorted [] = tt
sort_strings-IsSorted (a ∷ l) = insert_sorted-IsSorted a (sort_strings l) (sort_strings-IsSorted l)

insert_sorted-perm : (a : Text) (l : List Text) → Perm (insert_sorted a l) (a ∷ l)
unfolding insert_sorted
insert_sorted-perm a [] = Perm.refl (a ∷ [])
insert_sorted-perm a (b ∷ l) = elim (Bool-cases (text_le a b)) [
  | inl p ↦ rw p (Perm.refl (a ∷ b ∷ l))
  | inr q ↦ rw q (Perm.trans (Perm.cons b (insert_sorted-perm a l)) (Perm.swap a b l))
]

pub sort_strings-perm : (l : List Text) → Perm (sort_strings l) l
unfolding sort_strings
sort_strings-perm [] = Perm.refl []
sort_strings-perm (a ∷ l) =
    Perm.trans (insert_sorted-perm a (sort_strings l)) (Perm.cons a (sort_strings-perm l))

insert_sorted_comm :
    (a b : Text) (l : List Text)
    → insert_sorted a (insert_sorted b l) ≡ insert_sorted b (insert_sorted a l)
unfolding insert_sorted
insert_sorted_comm a b [] = ground (arith, text_le_total a b, text_le_antisymm a b)
insert_sorted_comm a b (c ∷ l) = ground (
  arith,
  text_le_total a b,
  text_le_antisymm a b,
  text_le_trans a b c,
  text_le_trans b a c,
  insert_sorted_comm a b l,
)

sort_strings_Permᴰ : {l m : List Text} → Permᴰ l m → sort_strings l ≡ sort_strings m
unfolding sort_strings
sort_strings_Permᴰ Permᴰ.nil = refl
sort_strings_Permᴰ (Permᴰ.cons {a} {b} e p) = cc (sort_strings_Permᴰ p)
sort_strings_Permᴰ (Permᴰ.swap {a} {b} {l = k} e f) = insert_sorted_comm a b (sort_strings k) ∙ cc
sort_strings_Permᴰ (Permᴰ.trans p q) = sort_strings_Permᴰ p ∙ sort_strings_Permᴰ q

Texts-set : IsSet (List Text)
Texts-set = hlevel ℕ_set

-- Sorting forgets the order in which the texts came.
pub sort_strings_of_perm : {l m : List Text} → Perm l m → sort_strings l ≡ sort_strings m
sort_strings_of_perm p = ∥∥₁_elim p (Texts-set _ _) sort_strings_Permᴰ

abbrev pub contains : Text → List Text → Bool
contains k [] = false
contains k (j ∷ l) = j == k || contains k l

contains-insert_sorted :
    (k a : Text) (l : List Text) → contains k (insert_sorted a l) ≡ (a == k || contains k l)
unfolding insert_sorted
contains-insert_sorted k a [] = refl
contains-insert_sorted k a (b ∷ l) = ground (arith, contains-insert_sorted k a l)

pub contains-sort_strings : (k : Text) (l : List Text) → contains k (sort_strings l) ≡ contains k l
unfolding sort_strings
contains-sort_strings k [] = refl
contains-sort_strings k (a ∷ l) =
    ground (arith, contains-insert_sorted k a (sort_strings l), contains-sort_strings k l)
