-- ===== src/Cloud/Laws.antt =====
-- What the Grafana Cloud backend answers.
use argo_rollouts_k6_plugin.Base.{
  Text, ℤ, pos, ◌<ℤ◌, ◌≤ℤ◌, codes, ◌==◌, ==_iff, Option, none, some, Result, ok, err, ◌≡◌, ◌↔◌, ◌∙◌,
  refl, ap, arith, true, ◌⊎◌, ◌++◌, negsuc, ◌^◌, ◌-◌, inl, inr, Bool-cases,
}
use argo_rollouts_k6_plugin.Provider.Errors.{Err, invalid_cloud_run_id, invalid_stack_id}
use argo_rollouts_k6_plugin.Provider.Config.{Platform, PluginConfig}
use argo_rollouts_k6_plugin.Provider.Interface.{
  RunResult, RunState, running, passed, failed, aborted, result_of,
}
use argo_rollouts_k6_plugin.Cloud.Types.{CloudApi, TestRunStatus}
use argo_rollouts_k6_plugin.Cloud.States.{map_to_run_state, is_threshold_passed}
use argo_rollouts_k6_plugin.Cloud.Plugin.{
  max_int32, run_url, is_judged, store, check_id, query_into, populate_aggregate_metrics, judge_run,
  get_run_result,
}

-- The states of the API in which a run is not over.
abbrev pub IsActive : Text → Type 0
IsActive t =
    (t ≡ codes "created")
    ⊎ ((t ≡ codes "queued")
        ⊎ ((t ≡ codes "initializing") ⊎ ((t ≡ codes "running") ⊎ (t ≡ codes "processing_metrics"))))

-- What the API says of a run, and the state that stands for it. Anything else that it says is an error.
pub record IsStateOf (status_type : Text) (result : Option Text) (s : RunState) : Type 0 where
  pub when_passed :
      (s ≡ passed) ↔ ((status_type ≡ codes "completed") × (result ≡ some (codes "passed")))
  pub when_failed :
      (s ≡ failed) ↔ ((status_type ≡ codes "completed") × (result ≡ some (codes "failed")))
  pub when_aborted : (s ≡ aborted) ↔ (status_type ≡ codes "aborted")
  pub when_running : (s ≡ running) ↔ IsActive status_type

map_to_run_state-passed_or_failed :
    (status_type : Text) (result : Option Text)
    → ((map_to_run_state status_type result ≡ passed)
        → (status_type ≡ codes "completed") × (result ≡ some (codes "passed")))
      × ((map_to_run_state status_type result ≡ failed)
          → (status_type ≡ codes "completed") × (result ≡ some (codes "failed")))
unfolding map_to_run_state
map_to_run_state-passed_or_failed t none = (λ h. ground arith, λ h. ground arith)
map_to_run_state-passed_or_failed t (some r) = (
  λ h. ground (arith, ==_iff t (codes "completed"), ==_iff r (codes "passed")),
  λ h. ground (arith, ==_iff t (codes "completed"), ==_iff r (codes "failed")),
)

map_to_run_state-aborted :
    (status_type : Text) (result : Option Text)
    → map_to_run_state status_type result ≡ aborted
    → status_type ≡ codes "aborted"
unfolding map_to_run_state
map_to_run_state-aborted t none h = ground (arith, ==_iff t (codes "aborted"))
map_to_run_state-aborted t (some r) h = ground (arith, ==_iff t (codes "aborted"))

map_to_run_state-running :
    (status_type : Text) (result : Option Text)
    → map_to_run_state status_type result ≡ running
    → IsActive status_type
unfolding map_to_run_state
map_to_run_state-running t none h = ground (
  arith,
  ==_iff t (codes "created"),
  ==_iff t (codes "queued"),
  ==_iff t (codes "initializing"),
  ==_iff t (codes "running"),
  ==_iff t (codes "processing_metrics"),
)
map_to_run_state-running t (some r) h = ground (
  arith,
  ==_iff t (codes "created"),
  ==_iff t (codes "queued"),
  ==_iff t (codes "initializing"),
  ==_iff t (codes "running"),
  ==_iff t (codes "processing_metrics"),
)

map_to_run_state-IsActive :
    (status_type : Text) (result : Option Text)
    → IsActive status_type
    → map_to_run_state status_type result ≡ running
unfolding map_to_run_state ◌==◌
map_to_run_state-IsActive t result (inl e) = rw e refl
map_to_run_state-IsActive t result (inr (inl e)) = rw e refl
map_to_run_state-IsActive t result (inr (inr (inl e))) = rw e refl
map_to_run_state-IsActive t result (inr (inr (inr (inl e)))) = rw e refl
map_to_run_state-IsActive t result (inr (inr (inr (inr e)))) = rw e refl

map_to_run_state-IsStateOf :
    (status_type : Text) (result : Option Text)
    → IsStateOf status_type result (map_to_run_state status_type result)
unfolding map_to_run_state ◌==◌
map_to_run_state-IsStateOf t result = record {
  when_passed = (
    (map_to_run_state-passed_or_failed t result).0,
    λ (completed, verdict). rw (completed, verdict) refl,
  );
  when_failed = (
    (map_to_run_state-passed_or_failed t result).1,
    λ (completed, verdict). rw (completed, verdict) refl,
  );
  when_aborted = (map_to_run_state-aborted t result, λ e. rw e refl);
  when_running = (map_to_run_state-running t result, map_to_run_state-IsActive t result);
}

some-injective : (r : Text) {t : Text} → ◌≡◌ {A = Option Text} (some r) (some t) → r ≡ t
some-injective r h = cc

is_threshold_passed_iff :
    (result : Option Text) → (is_threshold_passed result ≡ true) ↔ (result ≡ some (codes "passed"))
unfolding is_threshold_passed
is_threshold_passed_iff none = (λ h. cc, λ h. cc)
is_threshold_passed_iff (some r) = (
  λ h. ap some ((==_iff r (codes "passed")).0 h),
  λ h. (==_iff r (codes "passed")).1 (some-injective r h),
)

module _ {X : Platform} where
  -- Two results with the same verdict, whatever their metrics are.
  record SameVerdict (r r' : RunResult X) : Type 0 where
    states : r'.state ≡ r.state
    thresholds : r'.thresholds_passed ≡ r.thresholds_passed
    urls : r'.test_run_url ≡ r.test_run_url

  store-SameVerdict :
      (set : X.Float64 → RunResult X → RunResult X)
      → ((v : X.Float64) (r : RunResult X) → SameVerdict r (set v r))
      → (answer : Result Err X.Float64) (r : RunResult X) → SameVerdict r (store set answer r)
  store-SameVerdict set keeps (ok v) r = keeps v r
  store-SameVerdict set keeps (err e) r = record { states = refl; thresholds = refl; urls = refl }

  SameVerdict-trans : (a b c : RunResult X) → SameVerdict a b → SameVerdict b c → SameVerdict a c
  SameVerdict-trans a b c p q = record {
    states = q.states ∙ p.states;
    thresholds = q.thresholds ∙ p.thresholds;
    urls = q.urls ∙ p.urls;
  }

module _ {X : Platform} {W : Type 0} (A : CloudApi X W) (base : Text) where
  query_into-SameVerdict :
      (cfg : PluginConfig X) (run_id name func : Text) (set : X.Float64 → RunResult X → RunResult X)
      → ((v : X.Float64) (r : RunResult X) → SameVerdict r (set v r))
      → (r : RunResult X) (w : W) → SameVerdict r (query_into A base cfg run_id name func set r w).0
  unfolding query_into
  query_into-SameVerdict cfg run_id name func set keeps r w = store-SameVerdict set keeps _ r

  populate_aggregate_metrics-SameVerdict :
      (cfg : PluginConfig X) (run_id : Text) (r : RunResult X) (w : W)
      → SameVerdict r (populate_aggregate_metrics A base cfg run_id r w).0
  unfolding populate_aggregate_metrics
  populate_aggregate_metrics-SameVerdict cfg run_id r w =
      SameVerdict-trans _ _ _
        (query_into-SameVerdict cfg run_id _ _ _
          (λ v r. record { states = refl; thresholds = refl; urls = refl }) _ _)
        (SameVerdict-trans _ _ _
          (query_into-SameVerdict cfg run_id _ _ _
            (λ v r. record { states = refl; thresholds = refl; urls = refl }) _ _)
          (SameVerdict-trans _ _ _
            (query_into-SameVerdict cfg run_id _ _ _
              (λ v r. record { states = refl; thresholds = refl; urls = refl }) _ _)
            (SameVerdict-trans _ _ _
              (query_into-SameVerdict cfg run_id _ _ _
                (λ v r. record { states = refl; thresholds = refl; urls = refl }) _ _)
              (query_into-SameVerdict cfg run_id _ _ _
                (λ v r. record { states = refl; thresholds = refl; urls = refl }) _ _))))

  get_run_result-answer :
      (cfg : PluginConfig X) (run_id : Text) {run stack : ℤ} {status : TestRunStatus} (w w' : W)
      → check_id A base invalid_cloud_run_id run_id ≡ ok run
      → check_id A base invalid_stack_id cfg.stack_id ≡ ok stack
      → A.retrieve base cfg.api_token run stack w ≡ (ok status, w')
      → (r : RunResult X) × ((get_run_result A base cfg run_id w).0 ≡ ok r)
        × (r.state ≡ map_to_run_state status.status_type status.result)
        × (r.thresholds_passed ≡ is_threshold_passed status.result)
        × (r.test_run_url ≡ run_url run_id)
  unfolding get_run_result judge_run
  get_run_result-answer cfg run_id {run} {stack} {status} w w' valid valid_stack answer =
      let state = map_to_run_state status.status_type status.result in
      let bare : RunResult X =
        result_of X state (run_url run_id) (is_threshold_passed status.result) in
      elim (Bool-cases (is_judged state)) [
        | inl judged ↦
            let full = (populate_aggregate_metrics A base cfg run_id bare w').0 in
            let same = populate_aggregate_metrics-SameVerdict cfg run_id bare w' in
            (
              full,
              rw (valid, valid_stack, answer, judged) refl,
              same.states,
              same.thresholds,
              same.urls,
            )
        | inr bare_only ↦ (bare, rw (valid, valid_stack, answer, bare_only) refl, refl, refl, refl)
      ]

  -- Where both IDs are valid and the API answers, so does the backend, whatever the queries of the metrics
  -- answer. The run is passed or failed exactly if the API says that it is completed with the result
  -- "passed" or "failed", aborted exactly if the API says "aborted", and running exactly if it says "created",
  -- "queued", "initializing", "running" or "processing_metrics". The thresholds are passed exactly if the
  -- result is "passed". The URL is the run's page.
  pub get_run_result-judged :
      (cfg : PluginConfig X) (run_id : Text) {run stack : ℤ} {status : TestRunStatus} (w w' : W)
      → check_id A base invalid_cloud_run_id run_id ≡ ok run
      → check_id A base invalid_stack_id cfg.stack_id ≡ ok stack
      → A.retrieve base cfg.api_token run stack w ≡ (ok status, w')
      → (r : RunResult X) × ((get_run_result A base cfg run_id w).0 ≡ ok r)
        × IsStateOf status.status_type status.result r.state
        × ((r.thresholds_passed ≡ true) ↔ (status.result ≡ some (codes "passed")))
        × (r.test_run_url ≡ codes "https://app.k6.io/runs/" ++ run_id)
  get_run_result-judged cfg run_id {status = status} w w' valid valid_stack answer =
      let (r, good, state, thresholds, url) =
        get_run_result-answer cfg run_id w w' valid valid_stack answer in
      (
        r,
        good,
        rw state (map_to_run_state-IsStateOf status.status_type status.result),
        rw thresholds (is_threshold_passed_iff status.result),
        url,
      )

  -- The API answers with an `int32`.
  abbrev pub AnswersInt32 : Type 0
  AnswersInt32 =
      (url token : Text) (test stack : ℤ) (w : W) (n : ℤ)
      → (A.start url token test stack w).0 ≡ ok n
      → (negsuc (2 ^ 31 - 1) ≤ℤ n) × (n ≤ℤ max_int32)

  -- The run that a run ID stands for is the one that the API answered to the start of the configured test.
  abbrev pub IsStarted : PluginConfig X → W → Text → W → Type 0
  IsStarted cfg w run_id w' =
      (test : ℤ) × (stack : ℤ) × (n : ℤ) × (A.parse_int cfg.test_id ≡ ok test)
      × (A.parse_int cfg.stack_id ≡ ok stack)
      × (A.start base cfg.api_token test stack w ≡ (ok n, w'))
      × (run_id ≡ A.format_int n)
      × ((check_id A base invalid_cloud_run_id run_id ≡ ok n) ↔ (pos 0 <ℤ n))
