-- ===== src/Operator/Plugin/Quiet/Polls.antt =====
-- Polling a run keeps what the calls that only read keep.
use argo_rollouts_k6_plugin.Base.{
  Text, ℕ, ◌*◌, ◌==◌, inl, inr, codes, none, List, [], ◌∷◌, Bool-cases, continue-keeps, wrapping,
}
use argo_rollouts_k6_plugin.Provider.Errors.{
  get_resource, stream_logs, read_logs, list_runner_pods, list_summary_pods,
}
use argo_rollouts_k6_plugin.Provider.Config.{Platform, PluginConfig}
use argo_rollouts_k6_plugin.Provider.Interface.{RunState}
use argo_rollouts_k6_plugin.Operator.Types.{Kube, Pod}
use argo_rollouts_k6_plugin.Operator.RunId.{RunId}
use argo_rollouts_k6_plugin.Operator.Client.{
  OperatorWorld, ensure_client, deref, read_stream, k8s_read_logs,
}
use argo_rollouts_k6_plugin.Operator.ExitCode.{runner_selector, check_runner_exit_codes}
use argo_rollouts_k6_plugin.Operator.Summary.{collect_pods, summarize, parse_summary_from_pods}
use argo_rollouts_k6_plugin.Operator.Plugin.{
  lift, get_run_result, judge_stage, report, has_metrics, stage_text, decoded, gvr_of,
}
use argo_rollouts_k6_plugin.Operator.Plugin.Quiet.{Quiet, Good, connect-keeps}

module _ {X : Platform} {W : Type 0} (K : Kube X W) where
  module _ (R : W → Type 0) (quiet : Quiet K R) where
    k8s_read_logs-keeps :
        (client : K.Client) (ns pod : Text) (lines bytes : ℕ) (w : W)
        → R w
        → R (k8s_read_logs K client ns pod lines bytes w).1
    unfolding k8s_read_logs read_stream
    k8s_read_logs-keeps client ns pod lines bytes w h =
        continue-keeps R (read_stream K (read_logs ns pod))
          (wrapping (stream_logs ns pod) (K.open_logs client ns pod lines bytes) w)
          (quiet.open_keeps client ns pod lines bytes w h)
          λ stream w' good.
            quiet.close_keeps stream (K.read_all stream w').1 (quiet.read_keeps stream w' good)

    collect_pods-keeps :
        (client : K.Client) (ns : Text) (pods : List Pod) (w : W)
        → R w
        → R (collect_pods K (k8s_read_logs K client) ns pods w).1
    unfolding collect_pods
    collect_pods-keeps client ns [] w h = h
    collect_pods-keeps client ns (pod ∷ pods) w h =
        collect_pods-keeps client ns pods _
          (k8s_read_logs-keeps client ns pod.name 100 (64 * 1024) w h)

    summarize-keeps :
        (client : K.Client) (ns name : Text) (pods : List Pod) (w : W)
        → R w
        → R (summarize K (k8s_read_logs K client) ns name pods w).1
    summarize-keeps client ns name [] w h = h
    summarize-keeps client ns name (pod ∷ pods) w h = collect_pods-keeps client ns (pod ∷ pods) w h

    parse_summary_from_pods-keeps :
        (client : K.Client) (ns name : Text) (w : W)
        → R w
        → R (parse_summary_from_pods K (k8s_read_logs K client) client ns name w).1
    unfolding parse_summary_from_pods
    parse_summary_from_pods-keeps client ns name w h =
        continue-keeps R (summarize K (k8s_read_logs K client) ns name)
          (wrapping list_summary_pods (K.list_pods client ns (runner_selector name)) w)
          (quiet.pods_keeps client ns (runner_selector name) w h)
          λ pods w' good. summarize-keeps client ns name pods w' good

    check_runner_exit_codes-keeps :
        (client : K.Client) (ns name : Text) (w : W)
        → R w
        → R (check_runner_exit_codes K client ns name w).1
    unfolding check_runner_exit_codes
    check_runner_exit_codes-keeps client ns name w h =
        continue-keeps R _
          (wrapping list_runner_pods (K.list_pods client ns (runner_selector name)) w)
          (quiet.pods_keeps client ns (runner_selector name) w h) λ pods w' good. good

    report-keeps :
        (client : K.Client) (id : RunId) (state : RunState) (world : OperatorWorld K)
        → R world.1
        → R (report K none client id state world).1.1
    unfolding report
    report-keeps client id state (p, w) h = elim (Bool-cases (has_metrics state)) [
      | inl judged ↦ rw judged (parse_summary_from_pods-keeps client id.namespace id.name w h)
      | inr other ↦ rw other h
    ]

    judge_stage-keeps :
        (client : K.Client) (id : RunId) (stage : Text) (world : OperatorWorld K)
        → R world.1
        → R (judge_stage K none client id stage world).1.1
    unfolding judge_stage
    judge_stage-keeps client id stage (p, w) h = elim (Bool-cases (stage == codes "finished")) [
      | inl finished ↦ rw finished (
          report-keeps client id _ (p, (check_runner_exit_codes K client id.namespace id.name w).1)
            (check_runner_exit_codes-keeps client id.namespace id.name w h))
      | inr other ↦ rw other (report-keeps client id _ (p, w) h)
    ]

    -- Polling a run keeps all that the calls that only read keep, whatever it answers.
    pub get_run_result-keeps :
        (cfg : PluginConfig X) (run_id : Text) (world : OperatorWorld K)
        → R world.1
        → R (get_run_result K none cfg run_id world).1.1
    unfolding get_run_result
    get_run_result-keeps cfg run_id world h =
        continue-keeps (Good K R quiet none) _ (decoded run_id, world) h
          λ id world' h'.
            continue-keeps (Good K R quiet none) _ (gvr_of id, world') h'
              λ gvr world'' h''.
                continue-keeps (Good K R quiet none) _ (ensure_client K world'')
                  (connect-keeps K R quiet none world'' h'')
                  λ both w3 h3.
                    continue-keeps (Good K R quiet none) _ (deref both.0, w3) h3
                      λ client w4 h4.
                        continue-keeps (Good K R quiet none) _ (deref both.1, w4) h4
                          λ dyn w5 h5.
                            continue-keeps (Good K R quiet none) _
                              (wrapping (get_resource id.resource id.namespace id.name)
                                (lift K none (K.get dyn gvr id.namespace id.name)) w5)
                              (quiet.get_keeps dyn gvr id.namespace id.name w5.1 h5)
                              λ object w6 h6.
                                judge_stage-keeps client id (stage_text (K.stage object)) w6 h6
