-- ===== src/Base/Space.antt =====
-- `strings.TrimSpace` on the bytes of a UTF-8 text: the white space of Unicode.
use argo_rollouts_k6_plugin.Base.Tests.{eqb, leb, if◌then◌else◌}
use argo_rollouts_k6_plugin.Base.Texts.{Text}
use Prim.Native.Nat.{ℕ}
use mathlib.Core.Bool.{Bool, ◌&&◌, ◌||◌}
use mathlib.Core.List.{[], ◌∷◌, reverse}

-- Tab, newline, vertical tab, form feed, carriage return and blank.
abbrev pub is_space : ℕ → Bool
is_space c = (leb 9 c && leb c 13) || eqb c 32

-- U+0085 and U+00A0.
abbrev is_space_of_two : ℕ → ℕ → Bool
is_space_of_two a b = eqb a 0xc2 && (eqb b 0x85 || eqb b 0xa0)

-- U+1680, U+2000 to U+200A, U+2028, U+2029, U+202F, U+205F and U+3000.
abbrev is_space_of_three : ℕ → ℕ → ℕ → Bool
is_space_of_three a b c =
    (eqb a 0xe1 && (eqb b 0x9a && eqb c 0x80))
    || ((eqb a 0xe2
          && ((eqb b 0x80
                && ((leb 0x80 c && leb c 0x8a) || (eqb c 0xa8 || (eqb c 0xa9 || eqb c 0xaf))))
              || (eqb b 0x81 && eqb c 0x9f)))
        || (eqb a 0xe3 && (eqb b 0x80 && eqb c 0x80)))

-- Strips white space of one, two and three bytes from the front.
strip : (ℕ → ℕ → Bool) → (ℕ → ℕ → ℕ → Bool) → Text → Text
strip two three [] = []
strip two three (a ∷ []) = if is_space a then [] else a ∷ []
strip two three (a ∷ b ∷ []) =
    let rest = strip two three (b ∷ []) in
    if is_space a then rest else if two a b then [] else a ∷ b ∷ []
strip two three (a ∷ b ∷ c ∷ s) =
    let after_one = strip two three (b ∷ c ∷ s) in
    let after_two = strip two three (c ∷ s) in
    let after_three = strip two three s in
    if is_space a
    then after_one
    else if two a b
    then after_two
    else if three a b c
    then after_three
    else a ∷ b ∷ c ∷ s

trim_left_space : Text → Text
trim_left_space = strip is_space_of_two is_space_of_three

-- From the back the bytes come in reverse.
trim_right_space : Text → Text
trim_right_space s =
    reverse (strip (λ b a. is_space_of_two a b) (λ c b a. is_space_of_three a b c) (reverse s))

unfoldable pub trim_space : Text → Text
unfolding trim_left_space trim_right_space strip
trim_space s = trim_right_space (trim_left_space s)
