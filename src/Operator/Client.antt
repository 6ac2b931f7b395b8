-- ===== src/Operator/Client.antt =====
-- The clients of the operator backend, of internal/provider/operator/operator.go: `ensureClient` with
-- its `sync.Once`, and the log reader.
use argo_rollouts_k6_plugin.Base.{
  Text, ℕ, Bool, true, false, if◌then◌else◌, Option, none, some, Result, ok, err, Eff, ◌≡◌, refl,
  arith, inl, inr, Bool-cases, Result-cases, wrap_error, wrapping, ◌>>=◌,
}
use argo_rollouts_k6_plugin.Provider.Errors.{
  Err, Fault, in_cluster_config, client_config, dynamic_config, nil_pointer, stream_logs, read_logs,
}
use argo_rollouts_k6_plugin.Provider.Config.{Platform}
use argo_rollouts_k6_plugin.Operator.Types.{Kube}

-- A nil pointer is `none`, and its use a panic.
abbrev pub deref : {A : Type 0} → Option A → Result Err A
deref none = err nil_pointer
deref (some a) = ok a

module _ {X : Platform} {W : Type 0} (K : Kube X W) where
  -- `K6OperatorProvider`, without the reader that only tests inject.
  pub record OperatorState : Type 0 where
    pub once_done : Bool
    pub client : Option K.Client
    pub dyn_client : Option K.DynClient
    pub client_err : Option Err

  abbrev pub OperatorWorld : Type 0
  OperatorWorld = OperatorState × W

  -- `&K6OperatorProvider{}`
  abbrev pub new_operator : OperatorState
  new_operator = record { once_done = false; client = none; dyn_client = none; client_err = none }

  -- `WithClient` and `WithDynClient`
  abbrev pub with_client : K.Client → OperatorState → OperatorState
  with_client c p = record p { client = some c; once_done = true }

  abbrev pub with_dyn_client : K.DynClient → OperatorState → OperatorState
  with_dyn_client c p = record p { dyn_client = some c }

  -- The function that `clientOnce` runs, by its three calls.
  store_dyn_client : OperatorState → Result Fault K.DynClient × W → OperatorWorld
  store_dyn_client p (err e, w) = (record p { client_err = some (dynamic_config e) }, w)
  store_dyn_client p (ok d, w) = (record p { dyn_client = some d }, w)

  store_client : OperatorState → K.Config → Result Fault K.Client × W → OperatorWorld
  store_client p cfg (err e, w) = (record p { client_err = some (client_config e) }, w)
  store_client p cfg (ok c, w) =
      store_dyn_client (record p { client = some c }) (K.new_dyn_client cfg w)

  initialize : OperatorState → Result Fault K.Config × W → OperatorWorld
  initialize p (err e, w) = (record p { client_err = some (in_cluster_config e) }, w)
  initialize p (ok cfg, w) = store_client p cfg (K.new_client cfg w)

  -- `clientOnce.Do`
  run_once : OperatorWorld → OperatorWorld
  run_once (p, w) =
      if p.once_done
      then (p, w)
      else initialize (record p { once_done = true }) (K.in_cluster_config w)

  abbrev pub clients : OperatorState → Result Err (Option K.Client × Option K.DynClient)
  clients p = elim p.client_err [ some e ↦ err e | none ↦ ok (p.client, p.dyn_client) ]

  unfoldable pub ensure_client : Eff OperatorWorld Err (Option K.Client × Option K.DynClient)
  unfolding run_once initialize store_client store_dyn_client
  ensure_client world = let world' = run_once world in (clients world'.0, world')

  -- Reads the logs of a pod of a namespace, with a number of lines and of bytes at most.
  abbrev pub LogReader : Type 0
  LogReader = Text → Text → ℕ → ℕ → Eff W Err Text

  -- `ReadLogs` of `k8sPodLogReader`: the stream is closed whether it could be read or not.
  unfoldable pub read_stream : (Fault → Err) → K.Stream → Eff W Err Text
  read_stream error stream w =
      let (text, w') = K.read_all stream w in (wrap_error error text, K.close stream w')

  unfoldable pub k8s_read_logs : K.Client → LogReader
  k8s_read_logs client ns pod lines bytes = do
    stream ← wrapping (stream_logs ns pod) (K.open_logs client ns pod lines bytes)
    read_stream (read_logs ns pod) stream

  -- `ensureLogReader`: `none` where no reader was injected.
  abbrev pub ensure_log_reader : Option LogReader → K.Client → LogReader
  ensure_log_reader none client = k8s_read_logs client
  ensure_log_reader (some reader) client = reader

  initialize-once_done :
      (p : OperatorState) (r : Result Fault K.Config × W)
      → p.once_done ≡ true
      → (initialize p r).0.once_done ≡ true
  unfolding initialize store_client store_dyn_client
  initialize-once_done p (err e, w) h = h
  initialize-once_done p (ok cfg, w) h = ground arith

  run_once-once_done : (world : OperatorWorld) → (run_once world).0.once_done ≡ true
  unfolding run_once
  run_once-once_done (p, w) =
      ground
        (arith, initialize-once_done (record p { once_done = true }) (K.in_cluster_config w) refl)

  -- The clients are made once: a call behind a first one gives the same answer, its error included, and
  -- touches neither the state nor the cluster, whatever happened there in between.
  ensure_client_once :
      (world : OperatorWorld) (later : W)
      → let (answer, world') = ensure_client world in
        ensure_client (world'.0, later) ≡ (answer, (world'.0, later))
  unfolding ensure_client
  ensure_client_once world later = rw (run_once-once_done world)

  initialize-Ready :
      (p : OperatorState) (r : Result Fault K.Config × W) {c : Option K.Client}
      {d : Option K.DynClient}
      → p.client_err ≡ none
      → clients (initialize p r).0 ≡ ok (c, d)
      → (client : K.Client) × (dyn : K.DynClient) × (c ≡ some client) × (d ≡ some dyn)
  unfolding initialize store_client store_dyn_client
  initialize-Ready p (err e, w) none_yet h = cc
  initialize-Ready p (ok cfg, w) {c} {d} none_yet h = elim (Result-cases (K.new_client cfg w).0) [
    | inr (e, bad) ↦ absurd (ground arith)
    | inl (client, made) ↦ elim (Result-cases (K.new_dyn_client cfg (K.new_client cfg w).1).0) [
      | inr (e, bad) ↦ absurd (ground arith)
      | inl (dyn, made_dyn) ↦ (client, dyn, ground arith, ground arith)
    ]
  ]

  -- A backend made with no option gives two clients that are not nil, or an error.
  ensure_client_ready :
      (w : W) {c : Option K.Client} {d : Option K.DynClient}
      → (ensure_client (new_operator, w)).0 ≡ ok (c, d)
      → (client : K.Client) × (dyn : K.DynClient) × (c ≡ some client) × (d ≡ some dyn)
  unfolding ensure_client
  ensure_client_ready w h =
      initialize-Ready (record new_operator { once_done = true }) (K.in_cluster_config w) refl h

  -- What `ensureClient` keeps of the cluster, if each of its three calls does.
  module _ (R : W → Type 0) (config_keeps : (w : W) → R w → R (K.in_cluster_config w).1)
      (client_keeps : (c : K.Config) (w : W) → R w → R (K.new_client c w).1)
      (dyn_keeps : (c : K.Config) (w : W) → R w → R (K.new_dyn_client c w).1) where
    store_dyn_client-keeps :
        (p : OperatorState) (r : Result Fault K.DynClient × W) → R r.1 → R (store_dyn_client p r).1
    unfolding store_dyn_client
    store_dyn_client-keeps p (err e, w) h = h
    store_dyn_client-keeps p (ok d, w) h = h

    store_client-keeps :
        (p : OperatorState) (c : K.Config) (r : Result Fault K.Client × W)
        → R r.1
        → R (store_client p c r).1
    unfolding store_client
    store_client-keeps p c (err e, w) h = h
    store_client-keeps p c (ok client, w) h =
        store_dyn_client-keeps (record p { client = some client }) (K.new_dyn_client c w)
          (dyn_keeps c w h)

    initialize-keeps :
        (p : OperatorState) (r : Result Fault K.Config × W) → R r.1 → R (initialize p r).1
    unfolding initialize
    initialize-keeps p (err e, w) h = h
    initialize-keeps p (ok c, w) h = store_client-keeps p c (K.new_client c w) (client_keeps c w h)

    pub ensure_client-keeps : (world : OperatorWorld) → R world.1 → R (ensure_client world).1.1
    unfolding ensure_client run_once
    ensure_client-keeps (p, w) h = elim (Bool-cases p.once_done) [
      | inl done ↦ rw done h
      | inr first ↦ rw first (
          initialize-keeps (record p { once_done = true }) (K.in_cluster_config w)
            (config_keeps w h))
    ]
