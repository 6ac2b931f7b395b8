-- ===== src/Step/Traced.antt =====
-- A backend that keeps a log of the calls made on it, the newest first, and a host to go with it.
use argo_rollouts_k6_plugin.Base.{Text, List, [], ◌∷◌, ℕ, suc, Option, none, some, Result, ok, err}
use argo_rollouts_k6_plugin.Provider.Config.{Platform}
use argo_rollouts_k6_plugin.Provider.Interface.{Provider}
use argo_rollouts_k6_plugin.Step.Types.{Host}

pub data Call : Type 0 where
  -- With the run ID that was answered, if one was.
  triggered : Option Text → Call
  polled : Text → Call
  stopped : Text → Call
  cleaned : Text → Call

abbrev pub Traced : Type 0 → Type 0
Traced W = List Call × W

-- The value of a result that is no error.
abbrev pub answer_of : {E A : Type 0} → Result E A → Option A
answer_of (ok a) = some a
answer_of (err e) = none

module _ {W : Type 0} where
  abbrev pub logging : {A : Type 0} → Call → A × W → List Call → A × Traced W
  logging c (a, w) log = (a, (c ∷ log, w))

  abbrev pub logging_answer :
      {E A : Type 0} → (Option A → Call) → Result E A × W → List Call → Result E A × Traced W
  logging_answer c (r, w) log = (r, (c (answer_of r) ∷ log, w))

  abbrev pub keeping : {A : Type 0} → A × W → List Call → A × Traced W
  keeping (a, w) log = (a, (log, w))

module _ {X : Platform} {W : Type 0} where
  abbrev pub traced : Provider X W → Provider X (Traced W)
  traced P = record {
    trigger_run = λ cfg (log, w). logging_answer triggered (P.trigger_run cfg w) log;
    get_run_result =
        λ cfg run_id (log, w). logging (polled run_id) (P.get_run_result cfg run_id w) log;
    stop_run = λ cfg run_id (log, w). logging (stopped run_id) (P.stop_run cfg run_id w) log;
    cleanup = λ cfg run_id (log, w). logging (cleaned run_id) (P.cleanup cfg run_id w) log;
    name = P.name;
  }

  abbrev pub traced_host : Host X W → Host X (Traced W)
  traced_host H = record {
    now = λ (log, w). keeping (H.now w) log;
    format_time = H.format_time;
    parse_time = H.parse_time;
    parse_duration = H.parse_duration;
    decode_config = H.decode_config;
    encode_state = H.encode_state;
    decode_state = H.decode_state;
  }

abbrev pub cleanups : List Call → ℕ
cleanups [] = 0
cleanups (cleaned run_id ∷ log) = suc (cleanups log)
cleanups (triggered answer ∷ log) = cleanups log
cleanups (polled run_id ∷ log) = cleanups log
cleanups (stopped run_id ∷ log) = cleanups log

abbrev pub triggers : List Call → ℕ
triggers [] = 0
triggers (triggered answer ∷ log) = suc (triggers log)
triggers (cleaned run_id ∷ log) = triggers log
triggers (polled run_id ∷ log) = triggers log
triggers (stopped run_id ∷ log) = triggers log
