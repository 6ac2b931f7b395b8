-- ===== src/Cmd/Worlds.antt =====
-- One world for both backends: the operator backend's state beside what they share.
use argo_rollouts_k6_plugin.Provider.Config.{Platform}
use argo_rollouts_k6_plugin.Step.Types.{Host}
use argo_rollouts_k6_plugin.Metric.Types.{MetricHost}
use argo_rollouts_k6_plugin.Cloud.Types.{CloudApi}

module _ {S W A : Type 0} where
  -- A call that leaves the state alone.
  abbrev pub beside : (W → A × W) → S × W → A × (S × W)
  beside m (s, w) = let (a, w') = m w in (a, (s, w'))

module _ {X : Platform} {W : Type 0} (S : Type 0) where
  abbrev pub api_beside : CloudApi X W → CloudApi X (S × W)
  api_beside A = record {
    start = λ url token test stack. beside (A.start url token test stack);
    retrieve = λ url token run stack. beside (A.retrieve url token run stack);
    abort_run = λ url token run stack. beside (A.abort_run url token run stack);
    check_url = A.check_url;
    http_get = λ url token stack limit. beside (A.http_get url token stack limit);
    unmarshal_aggregate = A.unmarshal_aggregate;
    parse_int = A.parse_int;
    format_int = A.format_int;
  }

  abbrev pub host_beside : Host X W → Host X (S × W)
  host_beside H = record {
    now = beside H.now;
    format_time = H.format_time;
    parse_time = H.parse_time;
    parse_duration = H.parse_duration;
    decode_config = H.decode_config;
    encode_state = H.encode_state;
    decode_state = H.decode_state;
  }

  abbrev pub metric_host_beside : MetricHost X W → MetricHost X (S × W)
  metric_host_beside H = record {
    now = beside H.now;
    add = H.add;
    interval = H.interval;
    decode_config = H.decode_config;
    mark_error = λ m e. beside (H.mark_error m e);
  }
