-- ===== src/Operator/Summary/Laws.antt =====
-- What the search for a summary finds.
use argo_rollouts_k6_plugin.Base.{
  Text, ℕ, ◌+◌, eqb, Bool, true, false, Option, none, some, Result, ok, err, List, [], ◌∷◌, ◌++◌,
  codes, ◌≡◌, sym, subst, ◌∙◌, inl, inr, Bool-cases, Result-cases, arith,
}
use argo_rollouts_k6_plugin.Base.Strings.{split, join}
use mathlib.Core.List.{reverse, reverse_aux, reverse_aux-eq, reverse-reverse}
use argo_rollouts_k6_plugin.Provider.Errors.{Err, Fault, malformed_json}
use argo_rollouts_k6_plugin.Provider.Config.{Platform}
use argo_rollouts_k6_plugin.Operator.Types.{Summary}
use argo_rollouts_k6_plugin.Operator.Summary.Search.{
  count_byte, ends_object, Found, is_summary, judge, settle, finish, scan, collect,
  find_summary_json,
}

module _ {X : Platform} (unmarshal : Text → Result Fault (Summary X)) where
  -- A summary that is parsed from consecutive lines of the log.
  pub record IsFound (lines : List Text) (s : Summary X) : Type 0 where
    pub above : List Text
    pub block : List Text
    pub below : List Text
    pub placed : lines ≡ reverse_aux above (block ++ below)
    pub parsed : unmarshal (join block (codes "\n")) ≡ ok s
    pub complete : is_summary s ≡ true

  -- What a search returns, if it returns a summary.
  abbrev Finds : List Text → Found X → Type 0
  Finds lines (ok (some s)) = IsFound lines s
  Finds lines (ok none) = Unit
  Finds lines (err e) = Unit

  judge-Finds :
      (lines above block below : List Text) (last : Option Err) (again : Option Err → Found X)
      → lines ≡ reverse_aux above (block ++ below)
      → ((e : Option Err) → Finds lines (again e))
      → Finds lines (judge (unmarshal (join block (codes "\n"))) last again)
  judge-Finds lines above block below last again placed more =
      elim (Result-cases (unmarshal (join block (codes "\n")))) [
        | inr (e, bad) ↦ rw bad (more (some (malformed_json e)))
        | inl (s, good) ↦ elim (Bool-cases (is_summary s)) [
          | inl complete ↦
              rw (good, complete)
                (record {
                  above = above;
                  block = block;
                  below = below;
                  placed = placed;
                  parsed = good;
                  complete = complete;
                })
          | inr partial ↦ rw (good, partial) (more last)
        ]
      ]

  settle-Finds :
      (lines above block below : List Text) (line : Text) (o c : ℕ) (last : Option Err)
      (again : Option Err → Found X) (more : ℕ → ℕ → List Text → Found X)
      → lines ≡ reverse_aux (line ∷ above) (block ++ below)
      → ((e : Option Err) → Finds lines (again e))
      → ((o c : ℕ) → Finds lines (more o c (line ∷ block)))
      → Finds lines (settle unmarshal o c block line last again more)
  unfolding settle
  settle-Finds lines above block below line o c last again more placed h k =
      elim (Bool-cases (eqb (o + count_byte b'{' line) (c + count_byte b'}' line))) [
        | inl balanced ↦
            rw balanced (judge-Finds lines above (line ∷ block) below last again placed h)
        | inr open_still ↦ rw open_still (k _ _)
      ]

  finish-Finds :
      (lines : List Text) (last : Option Err) (found : Bool)
      → Finds lines (finish unmarshal lines last found)
  unfolding finish
  finish-Finds lines (some e) found = tt
  finish-Finds lines none found = ground arith

  mutual
    unfolding scan collect

    scan-Finds :
        (lines above below : List Text) (last : Option Err) (found : Bool)
        → lines ≡ reverse_aux above below
        → Finds lines (scan unmarshal lines last found above)
    scan-Finds lines [] below last found placed = finish-Finds lines last found
    scan-Finds lines (line ∷ above) below last found placed = elim (Bool-cases (ends_object line)) [
      | inr other ↦ rw (scan, other) (scan-Finds lines above (line ∷ below) last found placed)
      | inl ends ↦
          rw (scan, ends)
            (settle-Finds lines above [] below line 0 0 last _ _ placed
              (λ e. scan-Finds lines above (line ∷ below) e true placed)
              (λ o c. collect-Finds lines above (line ∷ []) below last o c placed))
    ]

    collect-Finds :
        (lines above block below : List Text) (last : Option Err) (o c : ℕ)
        → lines ≡ reverse_aux above (block ++ below)
        → Finds lines (collect unmarshal lines last o c block above)
    collect-Finds lines [] block below last o c placed = tt
    collect-Finds lines (line ∷ above) block below last o c placed =
        settle-Finds lines above block below line o c last _ _ placed
          (λ e. scan-Finds lines above (line ∷ (block ++ below)) e true placed)
          (λ o c. collect-Finds lines above (line ∷ block) below last o c placed)

  -- A summary that is found stands in consecutive lines of the log: these are parsed to it, and it has
  -- both the metrics and the root group.
  pub find_summary_json_sound :
      (logs : Text) {s : Summary X}
      → find_summary_json unmarshal logs ≡ ok (some s)
      → (above : List Text) × (block : List Text) × (below : List Text) × (split logs b'\n'
          ≡ above ++ (block ++ below))
        × (unmarshal (join block (codes "\n")) ≡ ok s)
        × (is_summary s ≡ true)
  unfolding find_summary_json
  find_summary_json_sound [] h = cc
  find_summary_json_sound (c ∷ logs) {s} h =
      let lines = split (c ∷ logs) b'\n' in
      let found : IsFound lines s =
        subst (Finds lines) h
          (scan-Finds lines (reverse lines) [] none false (sym (reverse-reverse lines))) in
      (
        reverse found.above,
        found.block,
        found.below,
        found.placed ∙ reverse_aux-eq found.above (found.block ++ found.below),
        found.parsed,
        found.complete,
      )
