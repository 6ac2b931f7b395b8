-- ===== src/Cloud/Types.antt =====
-- What the Grafana Cloud backend calls: the k6 Cloud API, HTTP, JSON and `strconv`.
use argo_rollouts_k6_plugin.Base.{
  Text, ℤ, ℕ, List, Option, Result, ok, Eff, ◌≡◌, ◌≤ℤ◌, pos, negsuc, ◌^◌, ◌-◌,
}
use argo_rollouts_k6_plugin.Provider.Errors.{Fault}
use argo_rollouts_k6_plugin.Provider.Config.{Platform}

-- `result` is `none` for a run without one.
pub record TestRunStatus : Type 0 where
  pub status_type : Text
  pub result : Option Text

-- `failure` is the error of reading the body, behind what was read of it.
pub record Response : Type 0 where
  pub status_code : ℕ
  pub body : Text
  pub failure : Option Fault

-- A JSON value; `other` shows its Go type.
pub data JsonValue (X : Platform) : Type 0 where
  number : X.Float64 → JsonValue X
  string : Text → JsonValue X
  other : Text → JsonValue X

-- Each result has its rows of values.
pub record AggregateResponse (X : Platform) : Type 0 where
  pub status : Text
  pub results : List (List (List (JsonValue X)))

-- The first two arguments of a call are the base URL and the token.
pub record CloudApi (X : Platform) (W : Type 0) : Type 0 where
  pub start : Text → Text → ℤ → ℤ → Eff W Fault ℤ
  pub retrieve : Text → Text → ℤ → ℤ → Eff W Fault TestRunStatus
  pub abort_run : Text → Text → ℤ → ℤ → Eff W Fault (Unit {0})
  -- `http.NewRequestWithContext`, which parses the URL.
  pub check_url : Text → Option Fault
  -- URL, token, stack ID, and how many bytes of the body are read at most.
  pub http_get : Text → Text → Text → ℕ → Eff W Fault Response
  pub unmarshal_aggregate : Text → Result Fault (AggregateResponse X)
  -- `strconv.ParseInt(s, 10, 64)` and `strconv.FormatInt(n, 10)`
  pub parse_int : Text → Result Fault ℤ
  pub format_int : ℤ → Text

-- A formatted integer of 64 bits is parsed back.
pub record ParsesInts {X : Platform} {W : Type 0} (A : CloudApi X W) : Type 0 where
  pub parse-format :
      (n : ℤ)
      → negsuc (2 ^ 63 - 1) ≤ℤ n
      → n ≤ℤ pos (2 ^ 63 - 1)
      → A.parse_int (A.format_int n) ≡ ok n
