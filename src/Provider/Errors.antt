-- ===== src/Provider/Errors.antt =====
-- The errors of the program, one constructor for each message that it formats, with the values that
-- the message shows. An error of a called library is a `Fault`.
use argo_rollouts_k6_plugin.Base.{Text, Bool, ℕ, ℤ, List}

-- `not_found` is what `k8serrors.IsNotFound` answers.
pub record Fault : Type 0 where
  pub not_found : Bool
  pub text : Text

pub data Err : Type 0 where
  -- config.go
  test_id_required api_token_required stack_id_required : Err
  config_map_ref_required config_map_name_required config_map_key_required : Err
  negative_parallelism : ℤ → Err
  -- router.go
  unknown_provider : Text → List Text → Err
  -- cloud.go
  invalid_test_id invalid_stack_id invalid_cloud_run_id : Text → Err
  trigger_for_test get_result_for stop_run_of : Text → Fault → Err
  -- metrics.go
  invalid_metric_name invalid_query_function : Text → Err
  v5_request v5_query v5_read v5_parse : Fault → Err
  v5_status : ℕ → Text → Err
  aggregate_failed unexpected_value_type : Text → Err
  v5_float : Fault → Err
  -- operator.go
  in_cluster_config client_config dynamic_config : Fault → Err
  get_config_map : Text → Text → Fault → Err
  script_key_missing script_key_empty : Text → Text → Text → Err
  convert_plz convert_test_run : Fault → Err
  create_plz create_test_run : Text → Text → Fault → Err
  invalid_run_id : Err → Err
  get_resource delete_resource : Text → Text → Text → Fault → Err
  -- A panic on a nil client or a nil ConfigMap reference.
  nil_pointer : Err
  -- testrun.go; `unknown_resource` is the panic of `gvrForResource`.
  unknown_resource : Text → Err
  run_id_format run_id_slash : Text → Err
  -- exitcode.go and summary.go
  list_runner_pods list_summary_pods : Fault → Err
  no_runner_pods : Text → Err
  truncated_json : Err
  malformed_json : Fault → Err
  stream_logs read_logs : Text → Text → Fault → Err
  -- metric.go
  plugin_config_missing metric_required run_id_missing aggregation_required : Err
  unmarshal_config : Fault → Err
  unsupported_aggregation unsupported_metric : Text → Err
  -- step.go
  step_config_missing : Err
  invalid_timeout : Text → Fault → Err
  timeout_not_positive : Text → Err
  timeout_too_long : ℤ → Err
