-- ===== src/Operator/ExitCode/Laws.antt =====
-- What a verdict of passed or failed means.
use argo_rollouts_k6_plugin.Base.{
  Text, ℤ, pos, ◌≤ℤ◌, List, [], ◌∷◌, some, Result, ok, ◌≡◌, ◌≢◌, ◌↔◌, ◌⊎◌, All, arith, refl, inl,
  inr, ap, sym, ◌∙◌,
}
use mathlib.Core.List.{cons-ne-nil}
use argo_rollouts_k6_plugin.Provider.Errors.{Err}
use argo_rollouts_k6_plugin.Provider.Interface.{RunState, passed, failed}
use argo_rollouts_k6_plugin.Operator.Types.{Pod, ContainerStatus}
use argo_rollouts_k6_plugin.Operator.ExitCode.{
  exit_code_to_run_state, Scan, returned, worst, check_container, check_containers, check_pod,
  check_pods, judge_pods,
}

-- A container that was never restarted and has ended with this code.
abbrev pub Exited : ℤ → ContainerStatus → Type 0
Exited code cs = (cs.restart_count ≤ℤ pos 0) × (cs.terminated ≡ some code)

abbrev pub Finished : ContainerStatus → Type 0
Finished cs = Exited (pos 0) cs ⊎ Exited (pos 99) cs

abbrev pub AllContainers : (ContainerStatus → Type 0) → List Pod → Type 0
AllContainers P pods =
    All (λ pod. (pod.container_statuses ≢ []) × All P pod.container_statuses) pods

abbrev pub IsVerdict : RunState → Type 0
IsVerdict s = (s ≡ passed) ⊎ (s ≡ failed)

abbrev decided : RunState → Result Err RunState
decided v = ok v

ok-injective : {v w : RunState} → decided v ≡ ok w → v ≡ w
ok-injective h = cc

passed-check_containers :
    (w : RunState) (l : List ContainerStatus)
    → check_containers w l ≡ worst passed
    → (w ≡ passed) × All (Exited (pos 0)) l
unfolding check_containers check_container exit_code_to_run_state
passed-check_containers w [] h = ground arith
passed-check_containers w (cs ∷ l) h =
    ground (arith, passed-check_containers w l, passed-check_containers failed l)

Finished-check_containers :
    (w v : RunState) (l : List ContainerStatus) → check_containers w l ≡ worst v → All Finished l
unfolding check_containers check_container exit_code_to_run_state
Finished-check_containers w v [] h = tt
Finished-check_containers w v (cs ∷ l) h =
    ground (arith, Finished-check_containers w v l, Finished-check_containers failed v l)

returned-check_containers :
    (w v : RunState) (l : List ContainerStatus) → check_containers w l ≡ returned v → ¬ IsVerdict v
unfolding check_containers check_container exit_code_to_run_state
returned-check_containers w v [] h = ground arith
returned-check_containers w v (cs ∷ l) h =
    ground (arith, returned-check_containers w v l, returned-check_containers failed v l)

check_containers_passed :
    (w : RunState) (l : List ContainerStatus)
    → All (Exited (pos 0)) l
    → check_containers w l ≡ worst w
unfolding check_containers check_container exit_code_to_run_state
check_containers_passed w [] h = refl
check_containers_passed w (cs ∷ l) h = ground (arith, check_containers_passed w l)

check_containers-Finished :
    (w : RunState) (l : List ContainerStatus)
    → IsVerdict w
    → All Finished l
    → (check_containers w l ≡ worst passed) ⊎ (check_containers w l ≡ worst failed)
unfolding check_containers check_container exit_code_to_run_state
check_containers-Finished w [] k h = ground arith
check_containers-Finished w (cs ∷ l) k h =
    ground (arith, check_containers-Finished w l, check_containers-Finished failed l)

worst-check_pod :
    (w v : RunState) (pod : Pod)
    → check_pod w pod ≡ worst v
    → (pod.container_statuses ≢ []) × (check_containers w pod.container_statuses ≡ worst v)
unfolding check_pod
worst-check_pod w v pod h = ground arith

returned-check_pod : (w v : RunState) (pod : Pod) → check_pod w pod ≡ returned v → ¬ IsVerdict v
unfolding check_pod
returned-check_pod w v pod h = ground (arith, returned-check_containers w v pod.container_statuses)

pub Scan-cases : (s : Scan) → ((v : RunState) × (s ≡ returned v)) ⊎ ((v : RunState) × (s ≡ worst v))
Scan-cases (returned v) = inl (v, refl)
Scan-cases (worst v) = inr (v, refl)

pub check_pods_returned :
    (w v : RunState) (pod : Pod) (pods : List Pod)
    → check_pod w pod ≡ returned v
    → check_pods w (pod ∷ pods) ≡ v
unfolding check_pods
check_pods_returned w v pod pods e = ground arith

pub check_pods_worst :
    (w v : RunState) (pod : Pod) (pods : List Pod)
    → check_pod w pod ≡ worst v
    → check_pods w (pod ∷ pods) ≡ check_pods v pods
unfolding check_pods
check_pods_worst w v pod pods e = ground arith

passed-check_pods :
    (w : RunState) (pods : List Pod)
    → check_pods w pods ≡ passed
    → (w ≡ passed) × AllContainers (Exited (pos 0)) pods
passed-check_pods w [] h = unfold check_pods in (h, tt)
passed-check_pods w (pod ∷ pods) h = elim (Scan-cases (check_pod w pod)) [
  | inl (v, e) ↦
      absurd (returned-check_pod w v pod e (inl (sym (check_pods_returned w v pod pods e) ∙ h)))
  | inr (v, e) ↦
      let (v_passed, rest) = passed-check_pods v pods (sym (check_pods_worst w v pod pods e) ∙ h) in
      let (some_container, scanned) = worst-check_pod w v pod e in
      let (w_passed, exited) =
        passed-check_containers w pod.container_statuses (scanned ∙ ap worst v_passed) in
      (w_passed, ((some_container, exited), rest))
]

Finished-check_pods :
    (w : RunState) (pods : List Pod) → IsVerdict (check_pods w pods) → AllContainers Finished pods
Finished-check_pods w [] h = tt
Finished-check_pods w (pod ∷ pods) h = elim (Scan-cases (check_pod w pod)) [
  | inl (v, e) ↦
      absurd (returned-check_pod w v pod e (rw (check_pods_returned w v pod pods e) at h))
  | inr (v, e) ↦
      let (some_container, scanned) = worst-check_pod w v pod e in
      (
        (some_container, Finished-check_containers w v pod.container_statuses scanned),
        Finished-check_pods v pods (rw (check_pods_worst w v pod pods e) at h),
      )
]

check_pods_passed :
    (w : RunState) (pods : List Pod) → AllContainers (Exited (pos 0)) pods → check_pods w pods ≡ w
unfolding check_pods check_pod
check_pods_passed w [] h = refl
check_pods_passed w (pod ∷ pods) ((c, cs), h) =
    ground (arith, check_containers_passed w pod.container_statuses cs, check_pods_passed w pods h)

check_pods-Finished :
    (w : RunState) (pods : List Pod)
    → IsVerdict w
    → AllContainers Finished pods
    → IsVerdict (check_pods w pods)
unfolding check_pods check_pod
check_pods-Finished w [] k h = k
check_pods-Finished w (pod ∷ pods) k ((c, cs), h) = ground (
  arith,
  check_containers-Finished w pod.container_statuses k cs,
  check_pods-Finished passed pods (inl refl) h,
  check_pods-Finished failed pods (inr refl) h,
)

-- A run passed exactly if there is a runner pod, every pod lists a container, and every container has
-- ended with exit code 0 and was never restarted.
pub judge_pods-passed_iff :
    (name : Text) (pods : List Pod)
    → (judge_pods name pods ≡ ok passed) ↔ ((pods ≢ []) × AllContainers (Exited (pos 0)) pods)
unfolding judge_pods
judge_pods-passed_iff name [] = (λ h. cc, λ h. absurd (h.0 refl))
judge_pods-passed_iff name (pod ∷ pods) = (
  λ h. (cons-ne-nil pod pods, (passed-check_pods passed (pod ∷ pods) (ok-injective h)).1),
  λ h. ap ok (check_pods_passed passed (pod ∷ pods) h.1),
)

ok-or : (v : RunState) → IsVerdict v → (decided v ≡ ok passed) ⊎ (decided v ≡ ok failed)
ok-or v h = ground arith

IsVerdict-of_ok : (v : RunState) → (decided v ≡ ok passed) ⊎ (decided v ≡ ok failed) → IsVerdict v
IsVerdict-of_ok v h = ground arith

-- A run has a verdict, passed or failed, exactly if there is a runner pod, every pod lists a
-- container, and every container has ended with exit code 0 or 99 and was never restarted.
pub judge_pods-verdict_iff :
    (name : Text) (pods : List Pod)
    → ((judge_pods name pods ≡ ok passed) ⊎ (judge_pods name pods ≡ ok failed))
      ↔ ((pods ≢ []) × AllContainers Finished pods)
unfolding judge_pods
judge_pods-verdict_iff name [] = (λ h. ground arith, λ h. absurd (h.0 refl))
judge_pods-verdict_iff name (pod ∷ pods) = (
  λ h. (cons-ne-nil pod pods, Finished-check_pods passed (pod ∷ pods) (IsVerdict-of_ok _ h)),
  λ h. ok-or _ (check_pods-Finished passed (pod ∷ pods) (inl refl) h.1),
)
