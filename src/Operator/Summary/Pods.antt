-- ===== src/Operator/Summary/Pods.antt =====
-- The metrics of several pods: what a pod adds, and that a pod without a summary does not count.
use argo_rollouts_k6_plugin.Base.{Text, ◌≡◌, refl, none, Result, ok, err, List, [], ◌∷◌, ◌++◌}
use argo_rollouts_k6_plugin.Provider.Config.{Platform}
use argo_rollouts_k6_plugin.Operator.Types.{Kube, Pod}
use argo_rollouts_k6_plugin.Operator.ExitCode.{runner_selector}
use argo_rollouts_k6_plugin.Operator.Client.{LogReader}
use argo_rollouts_k6_plugin.Operator.Summary.Search.{find_summary_json}
use argo_rollouts_k6_plugin.Provider.Errors.{Err}
use argo_rollouts_k6_plugin.Operator.Summary.{
  aggregate_metrics, read_pod_logs, pod_metrics, collect_pods, summarize, parse_summary_from_pods,
}

module _ {X : Platform} {W : Type 0} (K : Kube X W) (reader : LogReader K) (ns : Text) where
  -- The logs cannot be read, or a summary in them cannot be parsed, or they hold none.
  pub data Useless : Result Err Text → Type 0 where
    unreadable : (e : Err) → Useless (err e)
    unparsed :
        (logs : Text) (e : Err)
        → find_summary_json K.unmarshal_summary logs ≡ err e
        → Useless (ok logs)
    empty : (logs : Text) → find_summary_json K.unmarshal_summary logs ≡ ok none → Useless (ok logs)

  -- The pod has no summary in this world, and its logs are read without a change of the world.
  pub record Silent (pod : Pod) (w : W) : Type 0 where
    pub useless : Useless (read_pod_logs K reader ns pod.name w).0
    pub unchanged : (read_pod_logs K reader ns pod.name w).1 ≡ w

  pod_metrics-Useless : (logs : Result Err Text) → Useless logs → pod_metrics K logs ≡ none
  unfolding pod_metrics
  pod_metrics-Useless _ (unreadable e) = refl
  pod_metrics-Useless _ (unparsed logs e bad) = rw (pod_metrics, bad) refl
  pod_metrics-Useless _ (empty logs nothing) = rw (pod_metrics, nothing) refl

  abbrev after_pods : List Pod → W → W
  after_pods pods w = (collect_pods K reader ns pods w).1

  collect_pods-Silent :
      (before after : List Pod) (pod : Pod) (w : W)
      → Silent pod (after_pods before w)
      → collect_pods K reader ns (before ++ (pod ∷ after)) w
        ≡ collect_pods K reader ns (before ++ after) w
  unfolding collect_pods
  collect_pods-Silent [] after pod w silent =
      rw (pod_metrics-Useless _ silent.useless, silent.unchanged) refl
  collect_pods-Silent (first ∷ before) after pod w silent =
      rw (collect_pods-Silent before after pod _ silent) refl

  -- `summarize` for pods that are not none.
  summarize-some :
      (name : Text) (before after : List Pod) (pod : Pod) (w : W)
      → summarize K reader ns name (before ++ (pod ∷ after)) w ≡ (
        ok (aggregate_metrics (collect_pods K reader ns (before ++ (pod ∷ after)) w).0),
        (collect_pods K reader ns (before ++ (pod ∷ after)) w).1,
      )
  summarize-some name [] after pod w = refl
  summarize-some name (first ∷ before) after pod w = refl

  -- A pod whose logs cannot be read, or hold no summary that can be parsed, does not count: the metrics
  -- are those of the other pods, and no error is returned. This supposes that reading its logs does
  -- not change the world.
  pub parse_summary_from_pods-Silent :
      (client : K.Client) (name : Text) (before after : List Pod) (pod : Pod) (w w' : W)
      → K.list_pods client ns (runner_selector name) w ≡ (ok (before ++ (pod ∷ after)), w')
      → Silent pod (after_pods before w')
      → parse_summary_from_pods K reader client ns name w ≡ (
        ok (aggregate_metrics (collect_pods K reader ns (before ++ after) w').0),
        (collect_pods K reader ns (before ++ after) w').1,
      )
  unfolding parse_summary_from_pods
  parse_summary_from_pods-Silent client name before after pod w w' listed silent = rw (
    listed,
    summarize-some name before after pod w',
    collect_pods-Silent before after pod w' silent,
  )
