-- ===== src/Operator/Plugin/Quiet/Starts.antt =====
-- Starting a run keeps what the calls that only read keep, and the creation.
use argo_rollouts_k6_plugin.Base.{
  Text, inl, inr, Option, Result, ok, err, Bool-cases, continue, continue-keeps, wrapping,
}
use argo_rollouts_k6_plugin.Provider.Errors.{Err, Fault}
use argo_rollouts_k6_plugin.Provider.Config.{Platform, PluginConfig, validate_k6_operator}
use argo_rollouts_k6_plugin.Operator.Types.{Kube, Gvr}
use argo_rollouts_k6_plugin.Operator.RunId.{plz_gvr, test_run_gvr}
use argo_rollouts_k6_plugin.Operator.TestRun.{is_cloud_connected}
use argo_rollouts_k6_plugin.Operator.Client.{OperatorWorld, LogReader, deref}
use argo_rollouts_k6_plugin.Operator.Plugin.{
  namespace_of, need_dyn_client, read_script, new_cr_name, lift, create_object, create_named,
  create_plz_run, create_test_run_run, create_run, trigger_run,
}
use argo_rollouts_k6_plugin.Operator.Plugin.Quiet.{
  Quiet, Good, need_dyn_client-keeps, new_cr_name-keeps, read_script-keeps,
}

module _ {X : Platform} {W : Type 0} (K : Kube X W) where
  -- `TriggerRun` keeps what the creation keeps, too.
  module _ (R : W → Type 0) (quiet : Quiet K R)
      (create_keeps : (dyn : K.DynClient) (gvr : Gvr) (ns : Text) (object : K.Object) (w : W)
        → R w
        → R (K.create dyn gvr ns object w).1)
      (reader : Option (LogReader K)) where
    create_object-keeps :
        (cfg : PluginConfig X) (dyn : K.DynClient) (gvr : Gvr) (error : Fault → Err)
        (object : Result Err K.Object) (world : OperatorWorld K)
        → R world.1
        → R (continue (create_object K reader cfg dyn gvr error) (object, world)).1.1
    unfolding create_object
    create_object-keeps cfg dyn gvr error (err e) world h = h
    create_object-keeps cfg dyn gvr error (ok object) world h =
        continue-keeps (Good K R quiet reader) _
          (wrapping error (lift K reader (K.create dyn gvr (namespace_of cfg) object)) world)
          (create_keeps dyn gvr (namespace_of cfg) object world.1 h) λ name w good. good

    create_named-keeps :
        (cfg : PluginConfig X) (dyn : K.DynClient) (cr_name : Text) (world : OperatorWorld K)
        → R world.1
        → R (create_named K reader cfg dyn cr_name world).1.1
    unfolding create_named create_plz_run create_test_run_run
    create_named-keeps cfg dyn cr_name world h =
        continue-keeps (Good K R quiet reader) _ (deref cfg.config_map_ref, world) h
          λ ref w good. elim (Bool-cases (is_cloud_connected cfg)) [
            | inl cloud ↦ rw cloud (create_object-keeps cfg dyn plz_gvr _ _ w good)
            | inr local ↦ rw local (create_object-keeps cfg dyn test_run_gvr _ _ w good)
          ]

    pub trigger_run-keeps :
        (cfg : PluginConfig X) (world : OperatorWorld K)
        → R world.1
        → R (trigger_run K reader cfg world).1.1
    unfolding trigger_run create_run
    trigger_run-keeps cfg world h =
        continue-keeps (Good K R quiet reader) _ (validate_k6_operator cfg, world) h
          λ valid w good.
            continue-keeps (Good K R quiet reader) (λ script. create_run K reader cfg)
              (read_script K reader cfg w) (read_script-keeps K R quiet reader cfg w good)
              λ script w2 good2.
                continue-keeps (Good K R quiet reader) _ (need_dyn_client K reader w2)
                  (need_dyn_client-keeps K R quiet reader w2 good2)
                  λ dyn w3 good3.
                    continue-keeps (Good K R quiet reader) (create_named K reader cfg dyn)
                      (new_cr_name K reader cfg w3)
                      (new_cr_name-keeps K R quiet reader cfg w3 good3)
                      λ cr_name w4 good4. create_named-keeps cfg dyn cr_name w4 good4
