-- ===== src/Operator/Summary/Search.antt =====
-- `findSummaryJSON` of internal/provider/operator/summary.go: the search for the summary, from the last
-- line of a log to the first.
use argo_rollouts_k6_plugin.Base.{
  Text, ℕ, suc, ◌+◌, eqb, is_empty, if◌then◌else◌, Bool, true, false, not, ◌&&◌, Option, none, some,
  Result, ok, err, List, [], ◌∷◌, codes, any,
}
use argo_rollouts_k6_plugin.Base.Strings.{split, join, contains_byte}
use argo_rollouts_k6_plugin.Base.Space.{trim_space}
use mathlib.Core.List.{reverse}
use argo_rollouts_k6_plugin.Provider.Errors.{Err, Fault, truncated_json, malformed_json}
use argo_rollouts_k6_plugin.Provider.Config.{Platform}
use argo_rollouts_k6_plugin.Operator.Types.{Summary}

abbrev pub count_byte : ℕ → Text → ℕ
count_byte b [] = 0
count_byte b (c ∷ s) = let rest = count_byte b s in if eqb c b then suc rest else rest

abbrev pub last_is : ℕ → Text → Bool
last_is b [] = false
last_is b (c ∷ []) = eqb c b
last_is b (c ∷ d ∷ s) = last_is b (d ∷ s)

-- A line that may end a JSON object: without its white space it ends with a closing brace. An empty
-- line does not.
unfoldable pub ends_object : Text → Bool
ends_object line =
    let trimmed = trim_space line in if is_empty trimmed then false else last_is b'}' trimmed

-- What the search returns.
abbrev pub Found : Platform → Type 0
Found X = Result Err (Option (Summary X))

module _ {X : Platform} where
  -- Both keys that tell a summary from other JSON.
  abbrev pub is_summary : Summary X → Bool
  is_summary s = elim s.metrics [
    | none ↦ false
    | some m ↦ elim s.root_group [ none ↦ false | some r ↦ true ]
  ]

  -- A parsed block: the search returns it, or goes on with the last parse error.
  abbrev pub judge : Result Fault (Summary X) → Option Err → (Option Err → Found X) → Found X
  judge (err e) last_error again = again (some (malformed_json e))
  judge (ok s) last_error again = if is_summary s then ok (some s) else again last_error

  module _ (unmarshal : Text → Result Fault (Summary X)) where
    -- One line of a block, above the lines in `block`. `opens` and `closes` count the braces below it:
    -- the depth of the source is their difference.
    unfoldable pub settle :
        ℕ
        → ℕ
        → List Text
        → Text
        → Option Err
        → (Option Err → Found X)
        → (ℕ → ℕ → List Text → Found X)
        → Found X
    settle opens closes block line last_error again more =
        let opens' = opens + count_byte b'{' line in
        let closes' = closes + count_byte b'}' line in
        if eqb opens' closes'
        then judge (unmarshal (join (line ∷ block) (codes "\n"))) last_error again
        else more opens' closes' (line ∷ block)

    -- The end of the search: the last parse error, a log with a brace and no object in it, or nothing.
    unfoldable pub finish : List Text → Option Err → Bool → Found X
    finish lines (some e) found_candidate = err e
    finish lines none found_candidate =
        if not found_candidate && any (contains_byte b'{') lines
        then err truncated_json
        else ok none

    -- The outer loop over the lines above, and the inner one, which is inside a block.
    unfoldable mutual
      pub scan : List Text → Option Err → Bool → List Text → Found X
      scan lines last_error found [] = finish lines last_error found
      scan lines last_error found (line ∷ above) = elim (ends_object line) [
        | false ↦ scan lines last_error found above
        | true ↦
            settle 0 0 [] line last_error (λ e. scan lines e true above)
              (λ opens closes block. collect lines last_error opens closes block above)
      ]

      pub collect : List Text → Option Err → ℕ → ℕ → List Text → List Text → Found X
      collect lines last_error opens closes block [] = err truncated_json
      collect lines last_error opens closes block (line ∷ above) =
          settle opens closes block line last_error (λ e. scan lines e true above)
            (λ o c b. collect lines last_error o c b above)

    unfoldable pub find_summary_json : Text → Found X
    unfolding scan settle finish
    find_summary_json logs =
        if is_empty logs
        then ok none
        else let lines = split logs 10 in scan lines none false (reverse lines)
