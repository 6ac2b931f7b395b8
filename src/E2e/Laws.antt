-- ===== src/E2e/Laws.antt =====
-- What the server of the end-to-end tests answers.
use argo_rollouts_k6_plugin.Base.{
  Text, ℕ, ℤ, pos, negsuc, zero, suc, eqb, length, ◌+◌, ◌^◌, ◌<◌, ◌≤◌, Bool, false, if◌then◌else◌,
  some, List, [], ◌∷◌, ◌≡◌, ◌≢◌, refl, arith, inl, inr, Option-cases,
}
use argo_rollouts_k6_plugin.E2e.{
  RunResponse, Request, test_run, Route, reset, start_run, abort_run, aggregate_query, get_run,
  health, unknown, route, Counters, bump, get_elem?, response_at, run_responses, poll_run,
  polled_id, handle, handle_on, serve,
}

-- The response behind so many others, or else the last one.
abbrev pub nth_or_last : RunResponse → List RunResponse → ℕ → RunResponse
nth_or_last first [] n = first
nth_or_last first (next ∷ rest) zero = first
nth_or_last first (next ∷ rest) (suc n) = nth_or_last next rest n

get_elem?-nth :
    (first : RunResponse) (rest : List RunResponse) (n : ℕ)
    → n ≤ length rest
    → get_elem? (first ∷ rest) n ≡ some (nth_or_last first rest n)
get_elem?-nth first [] zero h = refl
get_elem?-nth first [] (suc n) h = absurd (omega arith)
get_elem?-nth first (next ∷ rest) zero h = refl
get_elem?-nth first (next ∷ rest) (suc n) h = get_elem?-nth next rest n (omega arith)

get_elem?-last :
    (first : RunResponse) (rest : List RunResponse) (n : ℕ)
    → length rest ≤ n
    → get_elem? (first ∷ rest) (length rest) ≡ some (nth_or_last first rest n)
get_elem?-last first [] n h = refl
get_elem?-last first (next ∷ rest) zero h = absurd (omega arith)
get_elem?-last first (next ∷ rest) (suc n) h = get_elem?-last next rest n (omega arith)

response_at-nth_or_last :
    (first : RunResponse) (rest : List RunResponse) (n : ℕ)
    → suc n < 2 ^ 63
    → response_at (first ∷ rest) (suc n) ≡ some (nth_or_last first rest n)
response_at-nth_or_last first rest n small =
    ground (arith, get_elem?-nth first rest n, get_elem?-last first rest n)

abbrev is_run : ℤ → ℕ → Bool
is_run (pos k) run = eqb k run
is_run (negsuc k) run = false

module _ (scan_int : Text → ℤ) (run : ℕ) where
  -- How often the run was polled since the counters were reset, by the requests since then.
  abbrev tallied : Route → Request → ℕ → ℕ
  tallied reset r n = 0
  tallied get_run r n = if is_run (polled_id scan_int r) run then suc n else n
  tallied _ r n = n

  abbrev pub polls : List Request → ℕ → ℕ
  polls [] n = n
  polls (r ∷ rs) n = polls rs (tallied (route r) r n)

  poll_run-tallied :
      (id : ℤ) (counters : Counters) {first : RunResponse} {rest : List RunResponse}
      → run_responses run ≡ some (first ∷ rest)
      → suc (counters run) < 2 ^ 63
      → (poll_run id counters).1 run ≡ (if is_run id run then suc (counters run) else counters run)
  poll_run-tallied (negsuc n) counters known small = refl
  poll_run-tallied (pos k) counters known small = elim (Option-cases (run_responses k)) [
    | inl absent ↦ let differ : k ≢ run = λ same. absurd cc in rw (poll_run, absent) (ground arith)
    | inr (responses, present) ↦ rw (poll_run, present) (ground arith)
  ]

  tallied-le : (t : Route) (r : Request) (n : ℕ) → tallied t r n ≤ suc n
  tallied-le reset r n = omega arith
  tallied-le start_run r n = omega arith
  tallied-le abort_run r n = omega arith
  tallied-le aggregate_query r n = omega arith
  tallied-le get_run r n = ground arith
  tallied-le health r n = omega arith
  tallied-le unknown r n = omega arith

  bump-same :
      (counters : Counters) (n : ℕ)
      → counters run ≡ n
      → suc n < 2 ^ 63
      → bump run counters run ≡ suc n
  bump-same counters n same small = ground arith

  handle-tallied :
      (r : Request) (counters : Counters) {first : RunResponse} {rest : List RunResponse}
      → run_responses run ≡ some (first ∷ rest)
      → suc (counters run) < 2 ^ 63
      → (handle scan_int r counters).1 run ≡ tallied (route r) r (counters run)
  unfolding handle
  handle-tallied r counters known small = handle_on-tallied (route r)
    where
      handle_on-tallied :
          (t : Route) → (handle_on scan_int t r counters).1 run ≡ tallied t r (counters run)
      handle_on-tallied reset = refl
      handle_on-tallied start_run = refl
      handle_on-tallied abort_run = refl
      handle_on-tallied aggregate_query = refl
      handle_on-tallied get_run = poll_run-tallied (polled_id scan_int r) counters known small
      handle_on-tallied health = refl
      handle_on-tallied unknown = refl

  serve-polls :
      (rs : List Request) (counters : Counters) {first : RunResponse} {rest : List RunResponse}
      → run_responses run ≡ some (first ∷ rest)
      → counters run + length rs < 2 ^ 63
      → (serve scan_int rs counters run ≡ polls rs (counters run))
        × (polls rs (counters run) ≤ counters run + length rs)
  unfolding serve
  serve-polls [] counters known small = (refl, omega arith)
  serve-polls (r ∷ rs) counters known small =
      let same = handle-tallied r counters known (omega arith) in
      let step : (handle scan_int r counters).1 run ≤ suc (counters run) =
        rw same (tallied-le (route r) r (counters run)) in
      let (ih, bound) = serve-polls rs (handle scan_int r counters).1 known (omega (arith, step)) in
      rw⁻¹ same (ih, omega (arith, step, bound))

  -- Whatever requests were served before: a poll of a configured run is answered with the response that
  -- stands behind as many others in its list as the run was polled since the counters were last reset,
  -- and with the last one once there are no more. This supposes that the requests are too few for a counter
  -- of 64 bits to overflow.
  pub handle-in_order :
      (rs : List Request) (r : Request) {first : RunResponse} {rest : List RunResponse}
      → run_responses run ≡ some (first ∷ rest)
      → route r ≡ get_run
      → polled_id scan_int r ≡ pos run
      → suc (length rs) < 2 ^ 63
      → (handle scan_int r (serve scan_int rs (λ id. 0))).0 ≡ (
          let response = nth_or_last first rest (polls rs 0) in
          test_run run response.status_type response.result)
  unfolding handle
  handle-in_order rs r {first} {rest} known get id small =
      let (same, bound) = serve-polls rs (λ id. 0) known (omega arith) in
      let few : suc (polls rs 0) < 2 ^ 63 = omega (arith, bound) in
      rw
        (
          get,
          id,
          poll_run,
          known,
          bump-same (serve scan_int rs (λ id. 0)) (polls rs 0) same few,
          response_at-nth_or_last first rest (polls rs 0) few,
        )
        refl
