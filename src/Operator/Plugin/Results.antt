-- ===== src/Operator/Plugin/Results.antt =====
-- What polling a run on the operator backend promises.
use argo_rollouts_k6_plugin.Base.{
  Text, codes, ◌==◌, ◌≡◌, ◌⊎◌, ◌↔◌, inl, inr, refl, arith, true, false, Option, Result, ok, err, [],
  Bool-cases, Yields, Yields-continue, Yields_of_ok, wrapping,
}
use argo_rollouts_k6_plugin.Provider.Errors.{Err, get_resource}
use argo_rollouts_k6_plugin.Provider.Config.{Platform, PluginConfig}
use argo_rollouts_k6_plugin.Provider.Interface.{
  RunResult, RunState, running, passed, failed, errored, aborted, result_of,
}
use argo_rollouts_k6_plugin.Operator.Types.{Kube}
use argo_rollouts_k6_plugin.Operator.RunId.{RunId}
use argo_rollouts_k6_plugin.Operator.Client.{
  OperatorWorld, ensure_client, deref, LogReader, ensure_log_reader,
}
use argo_rollouts_k6_plugin.Operator.Summary.{SummaryMetrics, parse_summary_from_pods}
use argo_rollouts_k6_plugin.Operator.Plugin.{
  decoded, gvr_of, report, judge_stage, get_run_result, is_passed, has_metrics, with_metrics, lift,
  stage_text,
}

module _ {X : Platform} {W : Type 0} (K : Kube X W) (reader : Option (LogReader K)) where
  -- What every result of the backend has in common.
  pub record IsReport (r : RunResult X) : Type 0 where
    pub thresholds : (r.thresholds_passed ≡ true) ↔ (r.state ≡ passed)
    pub no_url : r.test_run_url ≡ []
    pub no_metrics : has_metrics r.state ≡ false → r ≡ result_of X r.state [] false

  has_metrics-only : (s : RunState) → has_metrics s ≡ true → (s ≡ passed) ⊎ (s ≡ failed)
  has_metrics-only s h = ground arith

  bare-IsReport : (s : RunState) → IsReport (result_of X s [] (is_passed s))
  bare-IsReport running = record {
    thresholds = ground arith;
    no_url = refl;
    no_metrics = λ h. refl;
  }
  bare-IsReport passed = record { thresholds = ground arith; no_url = refl; no_metrics = λ h. cc }
  bare-IsReport failed = record { thresholds = ground arith; no_url = refl; no_metrics = λ h. cc }
  bare-IsReport errored = record {
    thresholds = ground arith;
    no_url = refl;
    no_metrics = λ h. refl;
  }
  bare-IsReport aborted = record {
    thresholds = ground arith;
    no_url = refl;
    no_metrics = λ h. refl;
  }

  with_metrics-IsReport :
      (s : RunState) (m : Result Err (SummaryMetrics X))
      → has_metrics s ≡ true
      → IsReport (with_metrics m (result_of X s [] (is_passed s)))
  with_metrics-IsReport s (ok m) h = record {
    thresholds = (bare-IsReport s).thresholds;
    no_url = refl;
    no_metrics = λ lacks. cc;
  }
  with_metrics-IsReport s (err e) h = bare-IsReport s

  report-IsReport :
      (client : K.Client) (id : RunId) (s : RunState) (world : OperatorWorld K)
      → Yields IsReport (report K reader client id s world)
  unfolding report
  report-IsReport client id s (p, w) = elim (Bool-cases (has_metrics s)) [
    | inl has ↦ rw has (
        with_metrics-IsReport s
          (parse_summary_from_pods K (ensure_log_reader K reader client) client id.namespace id.name
            w).0
          has)
    | inr lacks ↦ rw lacks (bare-IsReport s)
  ]

  judge_stage-IsReport :
      (client : K.Client) (id : RunId) (stage : Text) (world : OperatorWorld K)
      → Yields IsReport (judge_stage K reader client id stage world)
  unfolding judge_stage
  judge_stage-IsReport client id stage (p, w) = elim (Bool-cases (stage == codes "finished")) [
    | inl has ↦ rw has (report-IsReport client id _ _)
    | inr lacks ↦ rw lacks (report-IsReport client id _ _)
  ]

  poll-IsReport :
      (cfg : PluginConfig X) (run_id : Text) (world : OperatorWorld K)
      → Yields IsReport (get_run_result K reader cfg run_id world)
  unfolding get_run_result
  poll-IsReport cfg run_id world =
      Yields-continue IsReport _ (decoded run_id, world)
        λ id w1 _.
          Yields-continue IsReport _ (gvr_of id, w1)
            λ gvr w2 _. Yields-continue IsReport _ (ensure_client K w2) λ both w3 _.
              Yields-continue IsReport _ (deref both.0, w3)
                λ client w4 _.
                  Yields-continue IsReport _ (deref both.1, w4)
                    λ dyn w5 _.
                      Yields-continue IsReport
                        (λ object. judge_stage K reader client id (stage_text (K.stage object)))
                        (wrapping (get_resource id.resource id.namespace id.name)
                          (lift K reader (K.get dyn gvr id.namespace id.name)) w5)
                        λ object w6 _.
                          judge_stage-IsReport client id (stage_text (K.stage object)) w6

  -- In every result of `GetRunResult` the thresholds are passed exactly if the state is passed, there is
  -- no URL, and there are metrics only if the run passed or failed: the result of a run in any other
  -- state, one that still runs included, has all metrics at zero.
  pub get_run_result-IsReport :
      (cfg : PluginConfig X) (run_id : Text) (world : OperatorWorld K) {r : RunResult X}
      → (get_run_result K reader cfg run_id world).0 ≡ ok r
      → ((r.thresholds_passed ≡ true) ↔ (r.state ≡ passed))
        × (r.test_run_url ≡ [])
        × ((r.state ≡ passed) ⊎ ((r.state ≡ failed) ⊎ (r ≡ result_of X r.state [] false)))
  get_run_result-IsReport cfg run_id world {r} h =
      let is =
        Yields_of_ok IsReport (get_run_result K reader cfg run_id world) h
          (poll-IsReport cfg run_id world) in
      (
        is.thresholds,
        is.no_url,
        elim (Bool-cases (has_metrics r.state)) [
          | inl has ↦ elim (has_metrics-only r.state has) [ inl p ↦ inl p | inr f ↦ inr (inl f) ]
          | inr lacks ↦ inr (inr (is.no_metrics lacks))
        ],
      )
