-- ===== src/Operator/ExitCode.antt =====
-- internal/provider/operator/exitcode.go: a run's verdict from the exit codes of its runner pods.
pub mod Laws
pub mod Order
use argo_rollouts_k6_plugin.Base.{
  Text, ℤ, pos, negsuc, ltbℤ, eqb, codes, ◌==◌, ◌||◌, Bool, true, false, is_empty, if◌then◌else◌,
  List, [], ◌∷◌, ◌++◌, Option, none, some, Result, ok, err, Eff, ◌>>=◌, pure, wrapping,
}
use argo_rollouts_k6_plugin.Provider.Errors.{Err, list_runner_pods, no_runner_pods}
use argo_rollouts_k6_plugin.Provider.Config.{Platform}
use argo_rollouts_k6_plugin.Provider.Interface.{RunState, running, passed, failed, errored}
use argo_rollouts_k6_plugin.Operator.Types.{Kube, Pod, ContainerStatus}

abbrev is_code : ℤ → ℤ → Bool
is_code (pos a) (pos b) = eqb a b
is_code (negsuc a) (negsuc b) = eqb a b
is_code _ _ = false

unfoldable pub exit_code_to_run_state : ℤ → RunState
exit_code_to_run_state code =
    if is_code code (pos 0) then passed else if is_code code (pos 99) then failed else errored

unfoldable pub stage_to_run_state : Text → RunState
stage_to_run_state stage =
    if stage == codes "initialization"
      || (stage == codes "initialized" || (stage == codes "created" || stage == codes "started"))
    then running
    else if stage == codes "stopped"
    then running
    else if stage == codes "finished"
    then running
    else if stage == codes "error"
    then errored
    else if is_empty stage
    then running
    else running

-- Where a loop of `checkRunnerExitCodes` is: it has returned, or it goes on with the worst verdict.
pub data Scan : Type 0 where
  returned : RunState → Scan
  worst : RunState → Scan

-- The body of the inner loop behind its two guards.
abbrev weigh : RunState → RunState → Scan
weigh w errored = returned errored
weigh w failed = worst failed
weigh w _ = worst w

check_container : RunState → ContainerStatus → Scan
check_container w cs =
    if ltbℤ (pos 0) cs.restart_count then returned errored else elim cs.terminated [
      | none ↦ returned running
      | some code ↦ weigh w (exit_code_to_run_state code)
    ]

check_containers : RunState → List ContainerStatus → Scan
check_containers w [] = worst w
check_containers w (cs ∷ rest) = elim (check_container w cs) [
  | returned s ↦ returned s
  | worst w' ↦ check_containers w' rest
]

pub check_pod : RunState → Pod → Scan
check_pod w pod =
    if is_empty pod.container_statuses
    then returned running
    else check_containers w pod.container_statuses

pub check_pods : RunState → List Pod → RunState
check_pods w [] = w
check_pods w (pod ∷ pods) = elim (check_pod w pod) [
  | returned s ↦ s
  | worst w' ↦ check_pods w' pods
]

-- The verdict on the listed pods; no pod at all is an error.
unfoldable pub judge_pods : Text → List Pod → Result Err RunState
unfolding check_pods check_pod check_containers check_container exit_code_to_run_state
judge_pods test_run_name pods =
    if is_empty pods then err (no_runner_pods test_run_name) else ok (check_pods passed pods)

abbrev pub runner_selector : Text → Text
runner_selector test_run_name = codes "app=k6,k6_cr=" ++ (test_run_name ++ codes ",runner=true")

module _ {X : Platform} {W : Type 0} (K : Kube X W) where
  open K use {Client, list_pods}

  unfoldable pub check_runner_exit_codes : Client → Text → Text → Eff W Err RunState
  check_runner_exit_codes client ns test_run_name = do
    pods ← wrapping list_runner_pods (list_pods client ns (runner_selector test_run_name))
    pure (judge_pods test_run_name pods)
