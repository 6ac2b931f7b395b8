-- ===== src/Operator/Plugin/Quiet.antt =====
-- What the operations of the operator backend keep of the cluster, if the calls that only read do.
pub mod Polls
pub mod Starts
use argo_rollouts_k6_plugin.Base.{
  Text, ℕ, ◌*◌, Bool, true, false, ◌≡◌, refl, sym, subst, ◌==◌, inl, inr, codes, Option, none, some,
  Result, ok, err, List, [], ◌∷◌, Bool-cases, continue, continue-keeps, wrapping, wrap_error, pure,
  ◌>>=◌, if◌then◌else◌,
}
use argo_rollouts_k6_plugin.Provider.Errors.{
  Err, Fault, get_config_map, get_resource, stream_logs, read_logs, list_runner_pods,
  list_summary_pods,
}
use argo_rollouts_k6_plugin.Provider.Config.{Platform, PluginConfig, validate_k6_operator}
use argo_rollouts_k6_plugin.Provider.Interface.{RunState}
use argo_rollouts_k6_plugin.Operator.Types.{Kube, Gvr, Pod}
use argo_rollouts_k6_plugin.Operator.RunId.{RunId, plz_gvr, test_run_gvr}
use argo_rollouts_k6_plugin.Operator.TestRun.{is_cloud_connected}
use argo_rollouts_k6_plugin.Operator.Client.{
  OperatorWorld, OperatorState, LogReader, ensure_client, ensure_client-keeps, deref, read_stream,
  k8s_read_logs,
}
use argo_rollouts_k6_plugin.Operator.ExitCode.{runner_selector, check_runner_exit_codes}
use argo_rollouts_k6_plugin.Operator.Summary.{collect_pods, summarize, parse_summary_from_pods}
use argo_rollouts_k6_plugin.Operator.Plugin.{
  namespace_of, need_client, need_dyn_client, read_script, new_cr_name, lift, get_run_result,
  judge_stage, report, has_metrics, stage_text, state_of_exit, decoded, gvr_of, find_script,
  create_object, create_named, create_plz_run, create_test_run_run, create_run, trigger_run,
}

module _ {X : Platform} {W : Type 0} (K : Kube X W) where
  -- Every call but those that create and delete objects keeps what is known of the cluster.
  pub record Quiet (R : W → Type 0) : Type 0 where
    pub config_keeps : (w : W) → R w → R (K.in_cluster_config w).1
    pub client_keeps : (c : K.Config) (w : W) → R w → R (K.new_client c w).1
    pub dyn_keeps : (c : K.Config) (w : W) → R w → R (K.new_dyn_client c w).1
    pub config_map_keeps :
        (c : K.Client) (ns name : Text) (w : W) → R w → R (K.get_config_map c ns name w).1
    pub pods_keeps :
        (c : K.Client) (ns selector : Text) (w : W) → R w → R (K.list_pods c ns selector w).1
    pub open_keeps :
        (c : K.Client) (ns pod : Text) (lines bytes : ℕ) (w : W)
        → R w
        → R (K.open_logs c ns pod lines bytes w).1
    pub read_keeps : (s : K.Stream) (w : W) → R w → R (K.read_all s w).1
    pub close_keeps : (s : K.Stream) (w : W) → R w → R (K.close s w)
    pub get_keeps :
        (dyn : K.DynClient) (gvr : Gvr) (ns name : Text) (w : W)
        → R w
        → R (K.get dyn gvr ns name w).1
    pub clock_keeps : (w : W) → R w → R (K.now_nanos w).1

  -- What is kept of a view is kept of all that is a matter of that view.
  pub Quiet_of :
      {V : Type 0} (view : W → V) (P : V → Type 0)
      → ((v : V) → Quiet (λ w. view w ≡ v))
      → Quiet (λ w. P (view w))
  Quiet_of view P quiet = record {
    config_keeps = λ w h. subst P (sym ((quiet (view w)).config_keeps w refl)) h;
    client_keeps = λ c w h. subst P (sym ((quiet (view w)).client_keeps c w refl)) h;
    dyn_keeps = λ c w h. subst P (sym ((quiet (view w)).dyn_keeps c w refl)) h;
    config_map_keeps =
        λ c ns name w h. subst P (sym ((quiet (view w)).config_map_keeps c ns name w refl)) h;
    pods_keeps =
        λ c ns selector w h. subst P (sym ((quiet (view w)).pods_keeps c ns selector w refl)) h;
    open_keeps = λ c ns pod lines bytes w h.
        subst P (sym ((quiet (view w)).open_keeps c ns pod lines bytes w refl)) h;
    read_keeps = λ s w h. subst P (sym ((quiet (view w)).read_keeps s w refl)) h;
    close_keeps = λ s w h. subst P (sym ((quiet (view w)).close_keeps s w refl)) h;
    get_keeps =
        λ dyn gvr ns name w h. subst P (sym ((quiet (view w)).get_keeps dyn gvr ns name w refl)) h;
    clock_keeps = λ w h. subst P (sym ((quiet (view w)).clock_keeps w refl)) h;
  }

  -- Nothing is known.
  pub anything_quiet : Quiet (λ w. Unit {0})
  anything_quiet = record {
    config_keeps = λ w h. h;
    client_keeps = λ c w h. h;
    dyn_keeps = λ c w h. h;
    config_map_keeps = λ c ns name w h. h;
    pods_keeps = λ c ns selector w h. h;
    open_keeps = λ c ns pod lines bytes w h. h;
    read_keeps = λ s w h. h;
    close_keeps = λ s w h. h;
    get_keeps = λ dyn gvr ns name w h. h;
    clock_keeps = λ w h. h;
  }

  module _ (R : W → Type 0) (quiet : Quiet R) (reader : Option (LogReader K)) where
    abbrev pub Good : OperatorWorld K → Type 0
    Good world = R world.1

    pub connect-keeps : (world : OperatorWorld K) → Good world → Good (ensure_client K world).1
    connect-keeps world h =
        ensure_client-keeps K R quiet.config_keeps quiet.client_keeps quiet.dyn_keeps world h

    pub need_client-keeps :
        (world : OperatorWorld K) → Good world → Good (need_client K reader world).1
    unfolding need_client
    need_client-keeps world h =
        continue-keeps Good _ (ensure_client K world) (connect-keeps world h) λ both w good. good

    pub need_dyn_client-keeps :
        (world : OperatorWorld K) → Good world → Good (need_dyn_client K reader world).1
    unfolding need_dyn_client
    need_dyn_client-keeps world h =
        continue-keeps Good _ (ensure_client K world) (connect-keeps world h) λ both w good. good

    pub new_cr_name-keeps :
        (cfg : PluginConfig X) (world : OperatorWorld K)
        → Good world
        → Good (new_cr_name K reader cfg world).1
    unfolding new_cr_name
    new_cr_name-keeps cfg (p, w) h = quiet.clock_keeps w h

    pub read_script-keeps :
        (cfg : PluginConfig X) (world : OperatorWorld K)
        → Good world
        → Good (read_script K reader cfg world).1
    unfolding read_script
    read_script-keeps cfg world h =
        continue-keeps Good _ (need_client K reader world) (need_client-keeps world h)
          λ client w good.
            continue-keeps Good _ (deref cfg.config_map_ref, w) good
              λ ref w' good'.
                continue-keeps Good _
                  (wrapping (get_config_map (namespace_of cfg) ref.name)
                    (lift K reader (K.get_config_map client (namespace_of cfg) ref.name)) w')
                  (quiet.config_map_keeps client (namespace_of cfg) ref.name w'.1 good')
                  λ entries w'' good''. good''
