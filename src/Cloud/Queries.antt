-- ===== src/Cloud/Queries.antt =====
-- Which HTTP requests the query of a metric makes, of internal/provider/cloud/metrics.go.
use argo_rollouts_k6_plugin.Base.{
  Text, ℕ, List, [], ◌∷◌, Option, none, some, Result, ok, err, ◌≡◌, ◌≢◌, ◌⊎◌, ◌^◌, Bool, inl, inr,
  refl, true, arith, all, is_empty, ◌&&◌, if◌then◌else◌, Bool-cases, Lacks, continue, pure, Eff,
  ◌>>=◌, wrapping, ap,
}
use argo_rollouts_k6_plugin.Provider.Errors.{Err, Fault, v5_query, v5_request}
use argo_rollouts_k6_plugin.Provider.Config.{Platform, PluginConfig}
use argo_rollouts_k6_plugin.Cloud.Types.{CloudApi}
use argo_rollouts_k6_plugin.Cloud.Metrics.{
  AggregateMetricQuery, default_base_url, is_param_char, is_valid_metric_param,
  max_response_body_size, query_aggregate_metric, query_url, read_response,
}

-- A request: its URL, and how many bytes of the answer are read at most.
abbrev pub Request : Type 0
Request = Text × ℕ

module _ {X : Platform} {W : Type 0} where
  -- The API in a world with a log of the requests, the newest first.
  abbrev pub requesting : CloudApi X W → CloudApi X (List Request × W)
  requesting A = record {
    start = λ url token test stack (log, w).
        let (r, w') = A.start url token test stack w in (r, (log, w'));
    retrieve = λ url token run stack (log, w).
        let (r, w') = A.retrieve url token run stack w in (r, (log, w'));
    abort_run = λ url token run stack (log, w).
        let (r, w') = A.abort_run url token run stack w in (r, (log, w'));
    check_url = A.check_url;
    http_get = λ url token stack limit (log, w).
        let (r, w') = A.http_get url token stack limit w in (r, ((url, limit) ∷ log, w'));
    unmarshal_aggregate = A.unmarshal_aggregate;
    parse_int = A.parse_int;
    format_int = A.format_int;
  }

-- Nothing in the text closes a quoted parameter, starts a path segment, a query or a fragment, or is an
-- escape.
pub record IsInert (t : Text) : Type 0 where
  pub quote : Lacks 39 t
  pub slash : Lacks b'/' t
  pub question : Lacks b'?' t
  pub fragment : Lacks b'#' t
  pub escape : Lacks b'%' t

inert_char :
    (c : ℕ) → is_param_char c ≡ true → (c ≢ 39) × (c ≢ b'/') × (c ≢ b'?') × (c ≢ b'#') × (c ≢ b'%')
inert_char c h = ground arith

and_split : {a b : Bool} → (a && b) ≡ true → (a ≡ true) × (b ≡ true)
and_split h = ground arith

all-IsInert : (t : Text) → all is_param_char t ≡ true → IsInert t
all-IsInert [] h = record { quote = tt; slash = tt; question = tt; fragment = tt; escape = tt }
all-IsInert (c ∷ t) h =
    let (first, others) = and_split h in
    let (quote, slash, question, fragment, escape) = inert_char c first in
    let rest = all-IsInert t others in
    record {
      quote = (quote, rest.quote);
      slash = (slash, rest.slash);
      question = (question, rest.question);
      fragment = (fragment, rest.fragment);
      escape = (escape, rest.escape);
    }

valid-IsInert : (t : Text) → is_valid_metric_param t ≡ true → IsInert t
unfolding is_valid_metric_param
valid-IsInert t h = all-IsInert t (and_split h).1

abbrev pub base_of : Text → Text
base_of base = if is_empty base then default_base_url else base

valid-ne-nil : (t : Text) → is_valid_metric_param t ≡ true → t ≢ []
unfolding is_valid_metric_param
valid-ne-nil t h = ground arith

module _ {W E A B : Type 0} where
  continue-pure :
      (f : A → Result E B) (out : Result E A × W) → (continue (λ a. pure (f a)) out).1 ≡ out.1
  continue-pure f (ok a, w) = refl
  continue-pure f (err e, w) = refl

module _ {X : Platform} {W : Type 0} (A : CloudApi X W) where
  -- `QueryAggregateMetric` behind its two checks, by what the check of the URL says.
  abbrev send : PluginConfig X → Text → Option Fault → Eff (List Request × W) Err X.Float64
  send cfg url checked = do
    sent ← pure (elim checked [ some e ↦ err (v5_request e) | none ↦ ok url ])
    response ←
        wrapping v5_query
          ((requesting A).http_get sent cfg.api_token cfg.stack_id max_response_body_size)
    pure (read_response (requesting A) response)

  send-requests :
      (cfg : PluginConfig X) (url : Text) (checked : Option Fault) (log : List Request) (w : W)
      → let log' = (send cfg url checked (log, w)).1.0 in
        (log' ≡ log) ⊎ (log' ≡ (url, 2 ^ 20) ∷ log)
  send-requests cfg url (some e) log w = inl refl
  send-requests cfg url none log w =
      inr (ap (λ (world : List Request × W). world.0) (continue-pure _ _))

  -- A query makes at most one request. If it makes one, the URL is that of the query, both parameters in it
  -- are inert texts that are not empty, and no more than a mebibyte of the answer is read.
  pub query_aggregate_metric-requests :
      (base : Text) (cfg : PluginConfig X) (run_id : Text) (query : AggregateMetricQuery)
      (log : List Request) (w : W)
      → let log' = (query_aggregate_metric (requesting A) base cfg run_id query (log, w)).1.0 in
        (log' ≡ log)
        ⊎ (log' ≡ (query_url (base_of base) run_id query, 2 ^ 20) ∷ log)
          × IsInert query.metric_name
          × IsInert query.query_func
          × (query.metric_name ≢ [])
          × (query.query_func ≢ [])
  unfolding query_aggregate_metric
  query_aggregate_metric-requests base cfg run_id query log w =
      elim (Bool-cases (is_valid_metric_param query.metric_name)) [
        | inr bad ↦ inl (rw (send, bad) refl)
        | inl name ↦ elim (Bool-cases (is_valid_metric_param query.query_func)) [
          | inr bad ↦ inl (rw (name, bad) refl)
          | inl func ↦
              let url = query_url (base_of base) run_id query in
              rw (name, func)
                (elim (send-requests cfg url (A.check_url url) log w) [
                  | inl none_sent ↦ inl none_sent
                  | inr sent ↦ inr (
                    sent,
                    valid-IsInert query.metric_name name,
                    valid-IsInert query.query_func func,
                    valid-ne-nil query.metric_name name,
                    valid-ne-nil query.query_func func,
                  )
                ])
        ]
      ]
