-- ===== src/Operator/Summary/Complete.antt =====
-- Which summaries the search finds: it does not miss the last one of a log.
use argo_rollouts_k6_plugin.Base.{
  Text, ℕ, ◌+◌, eqb, Bool, true, false, Option, none, some, Result, ok, List, [], ◌∷◌, ◌++◌, codes,
  ◌≡◌, is_empty, All, refl,
}
use argo_rollouts_k6_plugin.Base.Strings.{split, join}
use mathlib.Core.List.{reverse, reverse_aux}
use argo_rollouts_k6_plugin.Provider.Errors.{Err, Fault}
use argo_rollouts_k6_plugin.Provider.Config.{Platform}
use argo_rollouts_k6_plugin.Operator.Types.{Summary}
use argo_rollouts_k6_plugin.Operator.Summary.Search.{
  count_byte, ends_object, is_summary, settle, scan, collect, find_summary_json,
}

-- A line and the lines above it, the nearest first, close an object at the last of them and not before:
-- the braces are balanced there for the first time, with `opens` and `closes` of them below.
abbrev pub Closes : ℕ → ℕ → Text → List Text → Type 0
Closes opens closes line [] =
    eqb (opens + count_byte b'{' line) (closes + count_byte b'}' line) ≡ true
Closes opens closes line (next ∷ ups) =
    let opens' = opens + count_byte b'{' line in
    let closes' = closes + count_byte b'}' line in
    (eqb opens' closes' ≡ false) × Closes opens' closes' next ups

abbrev pub EndsNone : Text → Type 0
EndsNone line = ends_object line ≡ false

module _ {X : Platform} (unmarshal : Text → Result Fault (Summary X)) where
  scan-EndsNone :
      (lines below rest : List Text) (last : Option Err) (found : Bool)
      → All EndsNone below
      → scan unmarshal lines last found (below ++ rest) ≡ scan unmarshal lines last found rest
  unfolding scan
  scan-EndsNone lines [] rest last found h = refl
  scan-EndsNone lines (line ∷ below) rest last found (other, h) =
      rw (scan, other) (scan-EndsNone lines below rest last found h)

module _ {X : Platform} (unmarshal : Text → Result Fault (Summary X)) {s : Summary X}
    (complete : is_summary s ≡ true) where
  settle-Closes :
      (lines above block : List Text) (opens closes : ℕ) (line : Text) (ups : List Text)
      (last : Option Err)
      → Closes opens closes line ups
      → unmarshal (join (reverse_aux ups (line ∷ block)) (codes "\n")) ≡ ok s
      → settle unmarshal opens closes block line last
          (λ e. scan unmarshal lines e true (ups ++ above))
          (λ o c b. collect unmarshal lines last o c b (ups ++ above))
        ≡ ok (some s)
  unfolding settle collect
  settle-Closes lines above block opens closes line [] last balanced parsed =
      rw (balanced, parsed, complete) refl
  settle-Closes lines above block opens closes line (next ∷ ups) last (unbalanced, more) parsed =
      rw unbalanced (settle-Closes lines above (line ∷ block) _ _ next ups last more parsed)

  scan-Closes :
      (lines above ups : List Text) (line : Text) (last : Option Err) (found : Bool)
      → ends_object line ≡ true
      → Closes 0 0 line ups
      → unmarshal (join (reverse_aux ups (line ∷ [])) (codes "\n")) ≡ ok s
      → scan unmarshal lines last found (line ∷ (ups ++ above)) ≡ ok (some s)
  unfolding scan
  scan-Closes lines above ups line last found ends closes parsed =
      rw (scan, ends) (settle-Closes lines above [] 0 0 line ups last closes parsed)

  -- A summary is found if it is the last object in the log: below it no line ends with a closing brace,
  -- its own last line does, its braces are balanced from that line up where it begins and not
  -- before, and its lines are parsed to it. What stands above it does not matter. The lines are given
  -- from the last to the first.
  pub find_summary_json_complete :
      (logs : Text) (below ups above : List Text) (line : Text)
      → is_empty logs ≡ false
      → reverse (split logs b'\n') ≡ below ++ (line ∷ (ups ++ above))
      → All EndsNone below
      → ends_object line ≡ true
      → Closes 0 0 line ups
      → unmarshal (join (reverse_aux ups (line ∷ [])) (codes "\n")) ≡ ok s
      → find_summary_json unmarshal logs ≡ ok (some s)
  unfolding find_summary_json
  find_summary_json_complete logs below ups above line some_text placed none_below ends closes
        parsed =
      rw
        (
          some_text,
          placed,
          scan-EndsNone unmarshal (split logs b'\n') below (line ∷ (ups ++ above)) none false
              none_below,
        )
        (scan-Closes (split logs b'\n') above ups line none false ends closes parsed)
