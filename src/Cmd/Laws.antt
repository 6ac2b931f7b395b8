-- ===== src/Cmd/Laws.antt =====
-- What the executables promise.
use argo_rollouts_k6_plugin.Base.{
  Text, Option, ◌≤◌, ◌+◌, keys, insert, ◌≡◌, ◌≢◌, refl, ok, err, [], ◌∷◌, ◌==◌, if◌then◌else◌,
  codes, Yields, Yields-continue, Yields_of_ok, Yields-of_Leaves, none, some, arith, inl, inr,
  Bool-cases, Option-cases, ℤ, wrapping, return, List, Result-cases,
}
use argo_rollouts_k6_plugin.Base.Sort.{sort_strings}
use argo_rollouts_k6_plugin.Provider.Errors.{
  unknown_provider, trigger_for_test, invalid_test_id, invalid_stack_id,
}
use argo_rollouts_k6_plugin.Provider.Config.{Platform, PluginConfig, grafana_cloud, k6_operator}
use argo_rollouts_k6_plugin.Provider.Interface.{Provider}
use argo_rollouts_k6_plugin.Provider.Router.{new_router}
use argo_rollouts_k6_plugin.Provider.Router.Laws.{
  SameCalls, failing, requested, router_of, resolve-router_of, SameCalls-of_ok, SameCalls-of_err,
  names_of,
}
use argo_rollouts_k6_plugin.Step.Types.{Host, IsCodec, Rollout}
use argo_rollouts_k6_plugin.Step.Traced.{traced, traced_host, cleanups, triggers}
use argo_rollouts_k6_plugin.Step.Reconcile.{
  reconcile, fresh, cleanup_at_most_once, triggers-le-failed,
}
use argo_rollouts_k6_plugin.Cmd.Worlds.{api_beside, host_beside}
use argo_rollouts_k6_plugin.Operator.Plugin.{operator_provider}
use argo_rollouts_k6_plugin.Operator.Plugin.Runs.{
  IsTriggered, trigger_run-IsTriggered, encode_run_id-ne-nil,
}
use argo_rollouts_k6_plugin.Step.Starts.{NamesRuns}
use argo_rollouts_k6_plugin.Cloud.Types.{CloudApi}
use argo_rollouts_k6_plugin.Cloud.Plugin.{check_id, trigger_run}
use argo_rollouts_k6_plugin.Operator.Types.{Kube, Gvr}
use argo_rollouts_k6_plugin.Operator.Client.{OperatorWorld, OperatorState}
use argo_rollouts_k6_plugin.Cmd.Wiring.{
  at_start, step_main, cloud_backend, operator_backend, main_router, main_provider,
}

module _ {X : Platform} {W : Type 0} (A : CloudApi X W) (K : Kube X W) (env : Text → Text) where
  abbrev registered : List (Text × Provider X (OperatorWorld K))
  registered = (grafana_cloud, cloud_backend A K env) ∷ (k6_operator, operator_backend A K env) ∷ []

  main_router-registered : main_router A K env ≡ router_of registered
  unfolding main_router
  main_router-registered = refl

  -- The backend of a name.
  abbrev pub backend_named : Text → Provider X (OperatorWorld K)
  backend_named name =
      if k6_operator == name
      then operator_backend A K env
      else if grafana_cloud == name
      then cloud_backend A K env
      else failing (unknown_provider name (grafana_cloud ∷ k6_operator ∷ []))

  names_of-registered : names_of registered ≡ grafana_cloud ∷ k6_operator ∷ []
  unfolding new_router keys insert ◌==◌ sort_strings argo_rollouts_k6_plugin.Base.Sort.text_le
  names_of-registered = refl

  -- The executable makes every call of a configuration on the operator backend if the provider is
  -- "k6-operator", and on the Grafana Cloud backend if it is "grafana-cloud" or empty. Any other
  -- provider is an error, which names the two that there are and leaves the world as it was.
  pub main_provider-SameCalls :
      (cfg : PluginConfig X) → SameCalls (main_provider A K env) (backend_named (requested cfg)) cfg
  main_provider-SameCalls cfg =
      let routed = resolve-router_of registered cfg in
      elim (Bool-cases (k6_operator == requested cfg)) [
        | inl local ↦
            rw (main_router-registered, local)
              (SameCalls-of_ok (router_of registered) cfg _ (rw (routed, local)))
        | inr other ↦ elim (Bool-cases (grafana_cloud == requested cfg)) [
          | inl remote ↦
              rw (main_router-registered, other, remote)
                (SameCalls-of_ok (router_of registered) cfg _ (rw (routed, other, remote)))
          | inr unknown ↦
              rw (main_router-registered, other, unknown)
                (SameCalls-of_err (router_of registered) cfg _
                  (rw (routed, other, unknown, names_of-registered)))
        ]
      ]

-- What `strconv.FormatInt` returns is never empty.
abbrev pub PrintsInts : {X : Platform} {W : Type 0} → CloudApi X W → Type 0
PrintsInts A = (n : ℤ) → A.format_int n ≢ []

abbrev IsNamed : Text → Type 0
IsNamed run_id = run_id ≢ []

module _ {X : Platform} {W S : Type 0} where
  host_beside-IsCodec : (H : Host X W) → IsCodec H → IsCodec (host_beside S H)
  host_beside-IsCodec H codec = record {
    coerce = codec.coerce;
    coerce_nil = codec.coerce_nil;
    encode-ne-nil = codec.encode-ne-nil;
    decode-encode = codec.decode-encode;
  }

module _ {X : Platform} {W : Type 0} where
  NamesRuns-of_Yields :
      (P : Provider X W)
      → ((cfg : PluginConfig X) (w : W) → Yields IsNamed (P.trigger_run cfg w))
      → NamesRuns P
  NamesRuns-of_Yields P yields cfg w h =
      Yields_of_ok IsNamed (P.trigger_run cfg w) h (yields cfg w) refl

  cloud-IsNamed :
      (A : CloudApi X W) (base : Text)
      → PrintsInts A
      → (cfg : PluginConfig X) (w : W) → Yields IsNamed (trigger_run A base cfg w)
  unfolding trigger_run
  cloud-IsNamed A base prints cfg w =
      Yields-continue IsNamed _ (check_id A base invalid_test_id cfg.test_id, w)
        λ test w1 _.
          Yields-continue IsNamed _ (check_id A base invalid_stack_id cfg.stack_id, w1)
            λ stack w2 _.
              Yields-continue IsNamed (λ n. return (A.format_int n))
                (wrapping (trigger_for_test cfg.test_id) (A.start base cfg.api_token test stack) w2)
                λ n w3 started. prints n

  operator-IsNamed :
      (K : Kube X W) (cfg : PluginConfig X) (world : OperatorWorld K)
      → Yields IsNamed ((operator_provider K none).trigger_run cfg world)
  operator-IsNamed K cfg world =
      let Any : Gvr → Text → Text → W → Type 0 = λ gvr ns name w. Unit in
      Yields-of_Leaves (IsTriggered K none Any cfg) IsNamed
        (λ run_id w (name, encoded, u). rw encoded (encode_run_id-ne-nil _))
        ((operator_provider K none).trigger_run cfg world)
        (trigger_run-IsTriggered K none Any (λ dyn gvr ns object w name h. tt) cfg world)

module _ {X : Platform} {W : Type 0} (A : CloudApi X W) (K : Kube X W) (env : Text → Text)
    (prints : PrintsInts A) where
  backend_named-IsNamed :
      (name : Text) (cfg : PluginConfig X) (world : OperatorWorld K)
      → Yields IsNamed ((backend_named A K env name).trigger_run cfg world)
  backend_named-IsNamed name cfg world = elim (Bool-cases (k6_operator == name)) [
    | inl local ↦ rw local (operator-IsNamed K cfg world)
    | inr other ↦ elim (Bool-cases (grafana_cloud == name)) [
      | inl remote ↦
          rw (other, remote) (cloud-IsNamed (api_beside (OperatorState K) A) _ prints cfg world)
      | inr unknown ↦ rw (other, unknown) tt
    ]
  ]

  main_provider-NamesRuns : NamesRuns (main_provider A K env)
  main_provider-NamesRuns = NamesRuns-of_Yields (main_provider A K env) (λ cfg world.
      rw (main_provider-SameCalls A K env cfg).trigger
        (backend_named-IsNamed (requested cfg) cfg world))

  -- However often the controller calls `Run` of the step executable with the last status that a call
  -- returned, and whatever the two backends answer, `Cleanup` is called at most once, and
  -- `TriggerRun` at most once more than calls of `Run` failed with an RPC error. This supposes that
  -- formatted integers are not empty, and that the encoded state is decoded as the JSON library
  -- documents.
  pub step_main-Counts :
      (H : Host X W)
      → IsCodec H
      → (config : Text) (rollouts : List (Option Rollout)) (w : W)
      → let plugin = (step_main A K env).impl in
        let l =
          reconcile
            (traced_host (host_beside (OperatorState K) H))
            (traced plugin.provider)
            config
            rollouts
            (fresh (at_start K w)) in
        (cleanups l.world.0 ≤ 1) × (triggers l.world.0 ≤ 1 + l.failed)
  unfolding step_main
  step_main-Counts H codec config rollouts w =
      let H' = host_beside (OperatorState K) H in
      let same = host_beside-IsCodec H codec in
      (
        cleanup_at_most_once H' (main_provider A K env) same main_provider-NamesRuns config rollouts
            (at_start K w),
        triggers-le-failed H' (main_provider A K env) same main_provider-NamesRuns config rollouts
            (at_start K w),
      )
