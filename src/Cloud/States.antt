-- ===== src/Cloud/States.antt =====
-- internal/provider/cloud/types.go: the states of the k6 Cloud API.
use argo_rollouts_k6_plugin.Base.{
  Text, codes, ◌==◌, ◌||◌, if◌then◌else◌, Bool, false, Option, none, some,
}
use argo_rollouts_k6_plugin.Provider.Interface.{RunState, running, passed, failed, errored, aborted}

-- The `switch` on the result of a completed run.
abbrev verdict_of : Text → RunState
verdict_of result =
    if result == codes "passed"
    then passed
    else if result == codes "failed"
    then failed
    else if result == codes "error"
    then errored
    else errored

-- The states before a run is completed.
abbrev is_active : Text → Bool
is_active status_type =
    status_type == codes "created"
    || (status_type == codes "queued"
        || (status_type == codes "initializing"
            || (status_type == codes "running" || status_type == codes "processing_metrics")))

unfoldable pub map_to_run_state : Text → Option Text → RunState
map_to_run_state status_type result =
    if is_active status_type
    then running
    else if status_type == codes "completed"
    then elim result [ none ↦ errored | some r ↦ verdict_of r ]
    else if status_type == codes "aborted"
    then aborted
    else errored

unfoldable pub is_threshold_passed : Option Text → Bool
is_threshold_passed none = false
is_threshold_passed (some result) = result == codes "passed"
