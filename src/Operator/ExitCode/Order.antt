-- ===== src/Operator/ExitCode/Order.antt =====
-- What the order in which the API server lists the runner pods can change.
use argo_rollouts_k6_plugin.Base.{
  Text, ℤ, pos, negsuc, ℕ, ltbℤ, false, Option-cases, Bool-cases, ◌<ℤ◌, ◌≤ℤ◌, List, [], ◌∷◌, none,
  some, Result, ok, ◌≡◌, ◌≢◌, ◌↔◌, ◌⊎◌, inl, inr, refl, sym, ◌∙◌, ap, subst, All, arith,
}
use mathlib.Core.List.{Permᴰ, cons-ne-nil}
use mathlib.Core.List.Permᴰ
use argo_rollouts_k6_plugin.Provider.Errors.{Err}
use argo_rollouts_k6_plugin.Provider.Interface.{RunState, running, passed, failed, errored}
use argo_rollouts_k6_plugin.Operator.Types.{Pod, ContainerStatus}
use argo_rollouts_k6_plugin.Operator.ExitCode.{
  is_code, exit_code_to_run_state, returned, worst, check_container, check_containers, check_pod,
  check_pods, judge_pods,
}
use argo_rollouts_k6_plugin.Operator.ExitCode.Laws.{
  IsVerdict, Scan-cases, check_pods_returned, check_pods_worst, judge_pods-passed_iff,
  judge_pods-verdict_iff,
}

abbrev pub Any : {A : Type 0} → (A → Type 0) → List A → Type 0
Any P [] = ⊥
Any P (x ∷ xs) = P x ⊎ Any P xs

-- A container that has not ended, and was never restarted.
abbrev pub Pending : ContainerStatus → Type 0
Pending cs = (cs.restart_count ≤ℤ pos 0) × (cs.terminated ≡ none)

-- A container that was restarted, or has ended with a code that is neither 0 nor 99.
abbrev pub Broken : ContainerStatus → Type 0
Broken cs =
    (pos 0 <ℤ cs.restart_count)
    ⊎ ((code : ℤ) × (cs.terminated ≡ some code) × (code ≢ pos 0) × (code ≢ pos 99))

abbrev pub PendingPod : Pod → Type 0
PendingPod pod = (pod.container_statuses ≡ []) ⊎ Any Pending pod.container_statuses

abbrev pub BrokenPod : Pod → Type 0
BrokenPod pod = Any Broken pod.container_statuses

-- Why a scan has returned before its end.
abbrev Reason : Type 0 → Type 0 → RunState → Type 0
Reason Waits Breaks v = ((v ≡ running) × Waits) ⊎ ((v ≡ errored) × Breaks)

is_code-ne : (a : ℤ) (n : ℕ) → is_code a (pos n) ≡ false → a ≢ pos n
is_code-ne (pos m) n h e = absurd (ground arith)
is_code-ne (negsuc m) n h e = cc

check_container-returned :
    (w v : RunState) (cs : ContainerStatus)
    → check_container w cs ≡ returned v
    → Reason (Pending cs) (Broken cs) v
unfolding check_container exit_code_to_run_state
check_container-returned w v cs h = elim (Bool-cases (ltbℤ (pos 0) cs.restart_count)) [
  | inl restarted ↦ inr (ground arith, inl (ground arith))
  | inr once ↦ elim (Option-cases cs.terminated) [
    | inl waits ↦ inl (ground arith, (ground arith, waits))
    | inr (code, ended) ↦ elim (Bool-cases (is_code code (pos 0))) [
      | inl good ↦ absurd (ground arith)
      | inr bad ↦ elim (Bool-cases (is_code code (pos 99))) [
        | inl crossed ↦ absurd (ground arith)
        | inr odd ↦
            inr (ground arith, inr (code, ended, is_code-ne code 0 bad, is_code-ne code 99 odd))
      ]
    ]
  ]
]

check_containers-returned :
    (w v : RunState) (l : List ContainerStatus)
    → check_containers w l ≡ returned v
    → Reason (Any Pending l) (Any Broken l) v
unfolding check_containers
check_containers-returned w v [] h = absurd (ground arith)
check_containers-returned w v (cs ∷ l) h = elim (Scan-cases (check_container w cs)) [
  | inl (s, e) ↦
      let same : s ≡ v = ground arith in
      elim (check_container-returned w s cs e) [
        | inl (waits, here) ↦ inl (rw⁻¹ same waits, inl here)
        | inr (breaks, here) ↦ inr (rw⁻¹ same breaks, inl here)
      ]
  | inr (w', e) ↦ elim (check_containers-returned w' v l (ground arith)) [
    | inl (waits, there) ↦ inl (waits, inr there)
    | inr (breaks, there) ↦ inr (breaks, inr there)
  ]
]

check_pod-returned :
    (w v : RunState) (pod : Pod)
    → check_pod w pod ≡ returned v
    → Reason (PendingPod pod) (BrokenPod pod) v
unfolding check_pod
check_pod-returned w v pod h = ground (arith, check_containers-returned w v pod.container_statuses)

check_containers-IsVerdict :
    (w v : RunState) (l : List ContainerStatus)
    → IsVerdict w
    → check_containers w l ≡ worst v
    → IsVerdict v
unfolding check_containers check_container exit_code_to_run_state
check_containers-IsVerdict w v [] k h = ground arith
check_containers-IsVerdict w v (cs ∷ l) k h =
    ground (arith, check_containers-IsVerdict w v l, check_containers-IsVerdict failed v l)

check_pod-IsVerdict :
    (w v : RunState) (pod : Pod) → IsVerdict w → check_pod w pod ≡ worst v → IsVerdict v
unfolding check_pod
check_pod-IsVerdict w v pod k h =
    ground (arith, check_containers-IsVerdict w v pod.container_statuses)

-- What is found of the pods where they have no verdict.
check_pods-Reason :
    (w : RunState) (pods : List Pod)
    → IsVerdict w
    → IsVerdict (check_pods w pods)
      ⊎ Reason (Any PendingPod pods) (Any BrokenPod pods) (check_pods w pods)
check_pods-Reason w [] k = inl (unfold check_pods in k)
check_pods-Reason w (pod ∷ pods) k = elim (Scan-cases (check_pod w pod)) [
  | inl (v, e) ↦ elim (check_pod-returned w v pod e) [
    | inl (waits, here) ↦ inr (inl (check_pods_returned w v pod pods e ∙ waits, inl here))
    | inr (breaks, here) ↦ inr (inr (check_pods_returned w v pod pods e ∙ breaks, inl here))
  ]
  | inr (v, e) ↦
      let same = check_pods_worst w v pod pods e in
      elim (check_pods-Reason v pods (check_pod-IsVerdict w v pod k e)) [
        | inl verdict ↦ inl (rw same verdict)
        | inr (inl (waits, there)) ↦ inr (inl (same ∙ waits, inr there))
        | inr (inr (breaks, there)) ↦ inr (inr (same ∙ breaks, inr there))
      ]
]

All-Permᴰ : {A : Type 0} (P : A → Type 0) {l m : List A} → Permᴰ l m → All P l → All P m
All-Permᴰ P Permᴰ.nil h = h
All-Permᴰ P (Permᴰ.cons e d) (p, h) = (subst P e p, All-Permᴰ P d h)
All-Permᴰ P (Permᴰ.swap e f) (p, (q, h)) = (subst P f q, (subst P e p, h))
All-Permᴰ P (Permᴰ.trans d e) h = All-Permᴰ P e (All-Permᴰ P d h)

Any-Permᴰ : {A : Type 0} (P : A → Type 0) {l m : List A} → Permᴰ l m → Any P l → Any P m
Any-Permᴰ P Permᴰ.nil h = h
Any-Permᴰ P (Permᴰ.cons e d) (inl p) = inl (subst P e p)
Any-Permᴰ P (Permᴰ.cons e d) (inr h) = inr (Any-Permᴰ P d h)
Any-Permᴰ P (Permᴰ.swap e f) (inl p) = inr (inl (subst P e p))
Any-Permᴰ P (Permᴰ.swap e f) (inr (inl q)) = inl (subst P f q)
Any-Permᴰ P (Permᴰ.swap e f) (inr (inr h)) = inr (inr h)
Any-Permᴰ P (Permᴰ.trans d e) h = Any-Permᴰ P e (Any-Permᴰ P d h)

Permᴰ-ne-nil : {A : Type 0} {l m : List A} → Permᴰ l m → l ≢ [] → m ≢ []
Permᴰ-ne-nil Permᴰ.nil h = h
Permᴰ-ne-nil (Permᴰ.cons e d) h = cons-ne-nil _ _
Permᴰ-ne-nil (Permᴰ.swap e f) h = cons-ne-nil _ _
Permᴰ-ne-nil (Permᴰ.trans d e) h = Permᴰ-ne-nil e (Permᴰ-ne-nil d h)

abbrev Decides : Result Err RunState → Type 0
Decides r = (r ≡ ok passed) ⊎ (r ≡ ok failed)

-- The same for what is returned of a list that is not empty.
abbrev Outcome : List Pod → Result Err RunState → Type 0
Outcome pods r =
    Decides r ⊎ (((r ≡ ok running) × Any PendingPod pods) ⊎ ((r ≡ ok errored) × Any BrokenPod pods))

judge_pods-Outcome :
    (name : Text) (pod : Pod) (pods : List Pod)
    → Outcome (pod ∷ pods) (judge_pods name (pod ∷ pods))
unfolding judge_pods
judge_pods-Outcome name pod pods = elim (check_pods-Reason passed (pod ∷ pods) (inl refl)) [
  | inl (inl e) ↦ inl (inl (ap ok e))
  | inl (inr e) ↦ inl (inr (ap ok e))
  | inr (inl (e, found)) ↦ inr (inl (ap ok e, found))
  | inr (inr (e, found)) ↦ inr (inr (ap ok e, found))
]

Outcome-eq :
    (l m : List Pod) (a b : Result Err RunState)
    → (Any BrokenPod m → Any BrokenPod l)
    → (Any PendingPod m → Any PendingPod l)
    → (a ≡ ok passed) ↔ (b ≡ ok passed)
    → Decides a ↔ Decides b
    → Outcome l a
    → Outcome m b
    → (a ≡ b) ⊎ (Any PendingPod l × Any BrokenPod l)
Outcome-eq l m a b broken pending p d (inl decided) ob = inl (ground arith)
Outcome-eq l m a b broken pending p d (inr (inl (waits, found))) (inl decided) =
    absurd (ground arith)
Outcome-eq l m a b broken pending p d (inr (inl (waits, found))) (inr (inl (waits', found'))) =
    inl (waits ∙ sym waits')
Outcome-eq l m a b broken pending p d (inr (inl (waits, found))) (inr (inr (breaks, found'))) =
    inr (found, broken found')
Outcome-eq l m a b broken pending p d (inr (inr (breaks, found))) (inl decided) =
    absurd (ground arith)
Outcome-eq l m a b broken pending p d (inr (inr (breaks, found))) (inr (inl (waits, found'))) =
    inr (pending found', found)
Outcome-eq l m a b broken pending p d (inr (inr (breaks, found))) (inr (inr (breaks', found'))) =
    inl (breaks ∙ sym breaks')

-- The answer for the runner pods is the same in whatever order the API server lists them, unless there are
-- both a pod with a container that has not ended, or with none at all, and a pod with a container that
-- was restarted or has ended with a code that is neither 0 nor 99.
pub judge_pods-unordered :
    (name : Text) (l m : List Pod)
    → Permᴰ l m
    → (judge_pods name l ≡ judge_pods name m) ⊎ (Any PendingPod l × Any BrokenPod l)
judge_pods-unordered name [] [] d = inl refl
judge_pods-unordered name [] (pod ∷ m) d =
    absurd (Permᴰ-ne-nil (Permᴰ.symm d) (cons-ne-nil pod m) refl)
judge_pods-unordered name (pod ∷ l) [] d = absurd (Permᴰ-ne-nil d (cons-ne-nil pod l) refl)
judge_pods-unordered name (pod ∷ l) (pod' ∷ m) d =
    let back = Permᴰ.symm d in
    let there : (P : Pod → Type 0)
        → ((pod ∷ l) ≢ []) × All P (pod ∷ l)
        → ((pod' ∷ m) ≢ []) × All P (pod' ∷ m) =
      λ P h. (Permᴰ-ne-nil d h.0, All-Permᴰ P d h.1) in
    let here : (P : Pod → Type 0)
        → ((pod' ∷ m) ≢ []) × All P (pod' ∷ m)
        → ((pod ∷ l) ≢ []) × All P (pod ∷ l) =
      λ P h. (Permᴰ-ne-nil back h.0, All-Permᴰ P back h.1) in
    let (to_passed, of_passed) = judge_pods-passed_iff name (pod ∷ l) in
    let (to_passed', of_passed') = judge_pods-passed_iff name (pod' ∷ m) in
    let (to_verdict, of_verdict) = judge_pods-verdict_iff name (pod ∷ l) in
    let (to_verdict', of_verdict') = judge_pods-verdict_iff name (pod' ∷ m) in
    Outcome-eq (pod ∷ l) (pod' ∷ m) _ _ (Any-Permᴰ BrokenPod back) (Any-Permᴰ PendingPod back)
      (λ h. of_passed' (there _ (to_passed h)), λ h. of_passed (here _ (to_passed' h)))
      (λ h. of_verdict' (there _ (to_verdict h)), λ h. of_verdict (here _ (to_verdict' h)))
      (judge_pods-Outcome name pod l) (judge_pods-Outcome name pod' m)
