-- ===== src/E2e.antt =====
-- The server of the end-to-end tests, of e2e/mock/main.go, which stands in for the k6 Cloud API. The
-- body of an answer is what varies in it; the constant fields that the API's client wants beside it,
-- headers and log lines are left out.
pub mod Laws
use argo_rollouts_k6_plugin.Base.{
  Text, ℕ, ℤ, pos, negsuc, codes, eqb, ltb, leb, length, ◌+◌, ◌-◌, ◌%◌, ◌^◌, ◌==◌, ◌&&◌, ◌||◌, Bool,
  true, false, is_empty, if◌then◌else◌, Option, none, some, List, [], ◌∷◌, ◌++◌, lookup, Dict, suc,
  zero,
}
use argo_rollouts_k6_plugin.Base.Strings.{split}

-- `strings.HasPrefix`, `strings.Contains`, `strings.HasSuffix` and `strings.TrimPrefix`
has_prefix : Text → Text → Bool
has_prefix s [] = true
has_prefix [] (c ∷ p) = false
has_prefix (d ∷ s) (c ∷ p) = eqb d c && has_prefix s p

contains_text : Text → Text → Bool
unfolding has_prefix
contains_text [] p = is_empty p
contains_text (c ∷ s) p = has_prefix (c ∷ s) p || contains_text s p

has_suffix : Text → Text → Bool
has_suffix [] p = is_empty p
has_suffix (c ∷ s) p = ((c ∷ s) == p) || has_suffix s p

trim_slash : Text → Text
trim_slash [] = []
trim_slash (c ∷ s) = if eqb c b'/' then s else c ∷ s

-- The loop of `segmentAfter`.
segment_in : Text → List Text → Text
segment_in key (p ∷ q ∷ parts) = if p == key then q else segment_in key (q ∷ parts)
segment_in key _ = []

unfoldable pub segment_after : Text → Text → Text
unfolding segment_in trim_slash
segment_after path key = segment_in key (split (trim_slash path) b'/')

-- `testToRun`
abbrev test_to_run : Dict ℕ
test_to_run =
    (codes "100", 1001) ∷ (codes "101", 1002) ∷ (codes "200", 2001) ∷ (codes "201", 2002) ∷ []

pub record RunResponse : Type 0 where
  pub status_type : Text
  pub result : Option Text

abbrev still_running : RunResponse
still_running = record { status_type = codes "running"; result = none }

abbrev ended : Text → RunResponse
ended result = record { status_type = codes "completed"; result = some result }

-- `runConfigs`, without the counters.
unfoldable pub run_responses : ℕ → Option (List RunResponse)
run_responses run =
    if eqb run 1001
    then some (still_running ∷ ended (codes "passed") ∷ [])
    else if eqb run 1002
    then some (still_running ∷ ended (codes "failed") ∷ [])
    else if eqb run 2001
    then some (still_running ∷ still_running ∷ ended (codes "passed") ∷ [])
    else if eqb run 2002
    then some (still_running ∷ ended (codes "failed") ∷ [])
    else none

-- `runAggregates`, with the values as `%g` prints them.
record AggregateValues : Type 0 where
  http_req_failed : Text
  http_req_duration : Text
  http_reqs : Text

run_aggregates : ℕ → Option AggregateValues
run_aggregates run =
    if eqb run 1001
    then some (record {
      http_req_failed = codes "0.001";
      http_req_duration = codes "150";
      http_reqs = codes "500";
    })
    else if eqb run 1002
    then some (record {
      http_req_failed = codes "0.15";
      http_req_duration = codes "2500";
      http_reqs = codes "50";
    })
    else if eqb run 2001
    then some (record {
      http_req_failed = codes "0";
      http_req_duration = codes "100";
      http_reqs = codes "1000";
    })
    else none

pub record Request : Type 0 where
  pub method : Text
  pub path : Text
  pub raw_query : Text

-- `panicked` is the index out of range of a counter that has overflowed.
pub data Answer : Type 0 where
  ok_empty : Answer
  healthy : Answer
  not_found : Answer
  no_test : Text → Answer
  no_run : ℤ → Answer
  test_run : ℕ → Text → Option Text → Answer
  no_values : Answer
  one_value : Text → Answer
  panicked : Answer

-- The branches of `handler`.
pub data Route : Type 0 where
  reset : Route
  start_run : Route
  abort_run : Route
  aggregate_query : Route
  get_run : Route
  health : Route
  unknown : Route

unfoldable pub route : Request → Route
unfolding contains_text has_suffix
route r =
    let post = r.method == codes "POST" in
    let get = r.method == codes "GET" in
    let path = r.path in
    if post && (path == codes "/reset")
    then reset
    else if post && (contains_text path (codes "/load_tests/") && has_suffix path (codes "/start"))
    then start_run
    else if post && (contains_text path (codes "/test_runs/") && has_suffix path (codes "/abort"))
    then abort_run
    else if get && contains_text path (codes "/query_aggregate_k6")
    then aggregate_query
    else if get && contains_text path (codes "/test_runs/")
    then get_run
    else if get && ((path == codes "/health") || (path == codes "/"))
    then health
    else unknown

-- `l[n]`
abbrev pub get_elem? : {A : Type 0} → List A → ℕ → Option A
get_elem? [] n = none
get_elem? (x ∷ xs) zero = some x
get_elem? (x ∷ xs) (suc n) = get_elem? xs n

-- The counters of the runs, each an `atomic.Int64` as its 64 bits.
abbrev pub Counters : Type 0
Counters = ℕ → ℕ

-- `counter.Add(1)` of one run
abbrev pub bump : ℕ → Counters → Counters
bump run counters other = if eqb other run then (counters other + 1) % 2 ^ 64 else counters other

-- `responses[idx]`, for the counter behind the addition; `none` is an index below 0.
abbrev pub response_at : List RunResponse → ℕ → Option RunResponse
response_at responses counter =
    if eqb counter 0 || leb (2 ^ 63) counter
    then none
    else let idx = counter - 1 in
      get_elem? responses (if leb (length responses) idx then length responses - 1 else idx)

abbrev body_of : ℕ → Option RunResponse → Answer
body_of run none = panicked
body_of run (some response) = test_run run response.status_type response.result

unfoldable pub handle_start_test_run : Text → Answer
unfolding segment_after
handle_start_test_run path =
    let test = segment_after path (codes "load_tests") in
    elim (lookup test test_to_run) [
      | none ↦ no_test test
      | some run ↦ test_run run (codes "created") none
    ]

-- The run with an ID that was scanned.
abbrev pub poll_run : ℤ → Counters → Answer × Counters
poll_run (negsuc n) counters = (no_run (negsuc n), counters)
poll_run (pos run) counters = elim (run_responses run) [
  | none ↦ (no_run (pos run), counters)
  | some responses ↦
      let counters' = bump run counters in
      (body_of run (response_at responses (counters' run)), counters')
]

value_for : Text → AggregateValues → Text
unfolding contains_text
value_for url metrics =
    if contains_text url (codes "http_req_failed")
    then metrics.http_req_failed
    else if contains_text url (codes "http_req_duration")
    then metrics.http_req_duration
    else if contains_text url (codes "http_reqs")
    then metrics.http_reqs
    else codes "0"

aggregate_for : Text → ℤ → Answer
unfolding run_aggregates value_for
aggregate_for url (negsuc n) = no_values
aggregate_for url (pos run) = elim (run_aggregates run) [
  | none ↦ no_values
  | some metrics ↦ one_value (value_for url metrics)
]

-- `fmt.Sscanf(s, "%d", &runID)`, 0 where nothing is scanned, is a parameter.
module _ (scan_int : Text → ℤ) where
  abbrev pub polled_id : Request → ℤ
  polled_id r = scan_int (segment_after r.path (codes "test_runs"))

  unfoldable pub handle_aggregate_query : Request → Answer
  unfolding aggregate_for
  handle_aggregate_query r =
      let url = if is_empty r.raw_query then r.path else r.path ++ (b'?' ∷ r.raw_query) in
      aggregate_for url (polled_id r)

  abbrev pub handle_on : Route → Request → Counters → Answer × Counters
  handle_on reset r counters = (ok_empty, λ run. 0)
  handle_on start_run r counters = (handle_start_test_run r.path, counters)
  handle_on abort_run r counters = (ok_empty, counters)
  handle_on aggregate_query r counters = (handle_aggregate_query r, counters)
  handle_on get_run r counters = poll_run (polled_id r) counters
  handle_on health r counters = (healthy, counters)
  handle_on unknown r counters = (not_found, counters)

  unfoldable pub handle : Request → Counters → Answer × Counters
  handle r counters = handle_on (route r) r counters

  unfoldable pub serve : List Request → Counters → Counters
  serve [] counters = counters
  serve (r ∷ rs) counters = serve rs (handle r counters).1
