-- ===== src/Step/Types.antt =====
-- The data of internal/step/step.go, and what the step plugin uses of Go's library and of the
-- controller: JSON, the clock and durations.
use argo_rollouts_k6_plugin.Base.{
  ◌≡◌, ◌≢◌, ok, Text, Bool, ℤ, ℕ, pos, ◌*◌, ◌^◌, Option, Result, [], false,
}
use argo_rollouts_k6_plugin.Provider.Errors.{Err, Fault}
use argo_rollouts_k6_plugin.Provider.Config.{Platform, PluginConfig}

pub record StepState : Type 0 where
  pub run_id : Text
  pub triggered_at : Text
  pub test_run_url : Text
  pub final_status : Text
  pub cleanup_done : Bool

-- `var state stepState`
abbrev pub zero_state : StepState
zero_state = record {
  run_id = [];
  triggered_at = [];
  test_run_url = [];
  final_status = [];
  cleanup_done = false;
}

-- `unset` is the empty phase of a zero `RpcStepResult`.
pub data StepPhase : Type 0 where
  unset phase_running phase_successful phase_failed : StepPhase

pub data StepMessage : Type 0 where
  no_message run_errored run_aborted : StepMessage
  error_text : Err → StepMessage
  timed_out_after : ℤ → StepMessage

pub record StepResult : Type 0 where
  pub phase : StepPhase
  pub message : StepMessage
  pub requeue_after : ℤ
  pub status : Text

-- A `types.RpcError` whose `ErrorString` is not empty.
pub data RpcError : Type 0 where
  unmarshal_step_state parse_triggered_at : Fault → RpcError
  trigger_run_error get_run_result_error : Err → RpcError

abbrev pub empty_result : StepResult
empty_result = record { phase = unset; message = no_message; requeue_after = pos 0; status = [] }

-- What a call of the plugin returns.
abbrev pub Reply : Type 0
Reply = StepResult × Option RpcError

pub record StepContext : Type 0 where
  pub config : Text
  pub status : Text

pub record Rollout : Type 0 where
  pub name : Text
  pub uid : Text
  pub namespace : Text

-- Times and durations are counts of nanoseconds; a time counts from the Unix epoch.
pub record Host (X : Platform) (W : Type 0) : Type 0 where
  pub now : W → ℤ × W
  pub format_time : ℤ → Text
  pub parse_time : Text → Result Fault ℤ
  pub parse_duration : Text → Result Fault ℤ
  pub decode_config : Text → Result Fault (PluginConfig X)
  pub encode_state : StepState → Text
  pub decode_state : Text → Result Fault StepState

-- `encoding/json` on the state: a struct never encodes to nothing, and decodes to itself but for
-- bytes of its texts that are no UTF-8, which are replaced and never removed.
pub record IsCodec {X : Platform} {W : Type 0} (H : Host X W) : Type 0 where
  pub coerce : Text → Text
  pub coerce_nil : (t : Text) → coerce t ≡ [] → t ≡ []
  pub encode-ne-nil : (s : StepState) → H.encode_state s ≢ []
  pub decode-encode :
      (s : StepState)
      → H.decode_state (H.encode_state s)
        ≡ ok (record {
          run_id = coerce s.run_id;
          triggered_at = coerce s.triggered_at;
          test_run_url = coerce s.test_run_url;
          final_status = coerce s.final_status;
          cleanup_done = s.cleanup_done;
        })

abbrev pub second : ℕ
second = 10 ^ 9

abbrev pub default_timeout : ℤ
default_timeout = pos (300 * second)

abbrev pub max_timeout : ℤ
max_timeout = pos (7200 * second)

abbrev pub requeue_interval : ℤ
requeue_interval = pos (15 * second)
