-- ===== src/Provider/Interface.antt =====
-- internal/provider/provider.go: the states and the result of a run, and the interface that every
-- backend implements. A backend is a record of operations over a world `W`, which stands for all
-- that the calls read and change.
use argo_rollouts_k6_plugin.Base.{Text, Bool, true, false, codes, Eff}
use argo_rollouts_k6_plugin.Provider.Errors.{Err}
use argo_rollouts_k6_plugin.Provider.Config.{Platform, PluginConfig}

pub data RunState : Type 0 where
  running passed failed errored aborted : RunState

unfoldable pub is_terminal : RunState → Bool
is_terminal running = false
is_terminal _ = true

-- `string(state)`
unfoldable pub state_name : RunState → Text
state_name running = codes "Running"
state_name passed = codes "Passed"
state_name failed = codes "Failed"
state_name errored = codes "Errored"
state_name aborted = codes "Aborted"

pub record Percentiles (X : Platform) : Type 0 where
  pub p50 : X.Float64
  pub p95 : X.Float64
  pub p99 : X.Float64

pub record RunResult (X : Platform) : Type 0 where
  pub state : RunState
  pub test_run_url : Text
  pub thresholds_passed : Bool
  pub http_req_failed : X.Float64
  pub http_req_duration : Percentiles X
  pub http_reqs : X.Float64

-- The zero value of a Go struct.
abbrev pub zero_percentiles : (X : Platform) → Percentiles X
zero_percentiles X = record { p50 = X.float_zero; p95 = X.float_zero; p99 = X.float_zero }

abbrev pub result_of : (X : Platform) → RunState → Text → Bool → RunResult X
result_of X s url ok = record {
  state = s;
  test_run_url = url;
  thresholds_passed = ok;
  http_req_failed = X.float_zero;
  http_req_duration = zero_percentiles X;
  http_reqs = X.float_zero;
}

pub record Provider (X : Platform) (W : Type 0) : Type 0 where
  pub trigger_run : PluginConfig X → Eff W Err Text
  pub get_run_result : PluginConfig X → Text → Eff W Err (RunResult X)
  pub stop_run : PluginConfig X → Text → Eff W Err (Unit {0})
  pub cleanup : PluginConfig X → Text → Eff W Err (Unit {0})
  pub name : Text
