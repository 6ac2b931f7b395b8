-- ===== src/Tests/Fixtures.antt =====
-- The stand-ins of the tests: a platform, a host, backends and a cluster.
use argo_rollouts_k6_plugin.Base.{
  Text, ℕ, ℤ, suc, zero, pos, negsuc, codes, eqb, ◌+◌, ◌*◌, [], ◌∷◌, Bool, true, false, none, some,
  Result, ok, err, ◌≡◌, ◌≢◌, refl,
}
use argo_rollouts_k6_plugin.Provider.Errors.{Err, Fault}
use argo_rollouts_k6_plugin.Provider.Config.{Platform, PluginConfig, ConfigMapRef}
use argo_rollouts_k6_plugin.Provider.Interface.{Provider, RunState, result_of}
use argo_rollouts_k6_plugin.Step.Types.{Host, IsCodec, StepState}
use argo_rollouts_k6_plugin.Operator.Types.{Kube, Pod, ContainerStatus}

abbrev fault : Fault
fault = record { not_found = false; text = codes "down" }

-- Natural numbers in place of floats.
abbrev pub platform : Platform
platform = record {
  Float64 = ℕ;
  float_zero = 0;
  float_one = 1;
  float_add = λ a b. a + b;
  float_mul = λ a b. a * b;
  float_div = λ a b. a;
  float_is_zero = λ a. eqb a 0;
  format_float = λ a. a ∷ [];
  parse_float = λ t. ok 0;
  Resources = Unit {0};
  EnvVar = Unit {0};
}

abbrev pub script : ConfigMapRef
script = record { name = codes "scripts"; key = codes "test.js" }

-- A configuration for a backend, with a script.
abbrev pub config_for : Text → ℤ → PluginConfig platform
config_for backend parallelism = record {
  test_run_id = [];
  test_id = [];
  api_token = [];
  stack_id = [];
  timeout = [];
  metric = [];
  aggregation = [];
  provider = backend;
  config_map_ref = some script;
  namespace = codes "shop";
  parallelism = parallelism;
  resources = none;
  runner_image = [];
  env = [];
  arguments = [];
  rollout_name = [];
  analysis_run_name = [];
  analysis_run_uid = [];
  rollout_uid = [];
}

abbrev pub local_config : PluginConfig platform
local_config = config_for (codes "k6-operator") (pos 2)

-- A text as its characters' successors, closed by a 0.
abbrev write_field : Text → Text → Text
write_field [] rest = 0 ∷ rest
write_field (c ∷ s) rest = suc c ∷ write_field s rest

abbrev read_field : Text → Text × Text
read_field [] = ([], [])
read_field (zero ∷ rest) = ([], rest)
read_field (suc c ∷ s) = let (field, rest) = read_field s in (c ∷ field, rest)

read-write_field : (s rest : Text) → read_field (write_field s rest) ≡ (s, rest)
read-write_field [] rest = refl
read-write_field (c ∷ s) rest = rw (read-write_field s rest) refl

pub write_field-ne-nil : (s rest : Text) → write_field s rest ≢ []
write_field-ne-nil [] rest h = cc
write_field-ne-nil (c ∷ s) rest h = cc

abbrev write_bool : Bool → Text
write_bool true = 1 ∷ []
write_bool false = []

abbrev read_bool : Text → Bool
read_bool [] = false
read_bool (c ∷ s) = true

abbrev write_state : StepState → Text
write_state s = write_field s.run_id (
    write_field s.triggered_at
      (write_field s.test_run_url (write_field s.final_status (write_bool s.cleanup_done))))

abbrev read_state : Text → StepState
read_state text =
    let (run_id, a) = read_field text in
    let (triggered_at, b) = read_field a in
    let (test_run_url, c) = read_field b in
    let (final_status, d) = read_field c in
    record {
      run_id = run_id;
      triggered_at = triggered_at;
      test_run_url = test_run_url;
      final_status = final_status;
      cleanup_done = read_bool d;
    }

read-write_bool : (b : Bool) → read_bool (write_bool b) ≡ b
read-write_bool true = refl
read-write_bool false = refl

pub read-write_state : (s : StepState) → read_state (write_state s) ≡ s
read-write_state s = rw (
  read-write_field s.run_id _,
  read-write_field s.triggered_at _,
  read-write_field s.test_run_url _,
  read-write_field s.final_status _,
  read-write_bool s.cleanup_done,
)

-- The world is the clock.
abbrev pub host_for : PluginConfig platform → Host platform ℕ
host_for cfg = record {
  now = λ w. (pos w, suc w);
  format_time = λ t. elim t [ pos n ↦ n ∷ [] | negsuc n ↦ [] ];
  parse_time = λ t. elim t [ [] ↦ err fault | (n ∷ s) ↦ ok (pos n) ];
  parse_duration = λ t. elim t [ [] ↦ err fault | (n ∷ s) ↦ ok (pos n) ];
  decode_config = λ t. ok cfg;
  encode_state = write_state;
  decode_state = λ t. ok (read_state t);
}

abbrev pub host_for-IsCodec : (cfg : PluginConfig platform) → IsCodec (host_for cfg)
host_for-IsCodec cfg = record {
  coerce = λ t. t;
  coerce_nil = λ t h. h;
  encode-ne-nil = λ s. write_field-ne-nil s.run_id _;
  decode-encode = λ s. rw (read-write_state s) refl;
}

-- A backend whose runs are all in one state, or cannot be polled.
abbrev pub backend : Result Err RunState → Provider platform ℕ
backend answer = record {
  trigger_run = λ cfg w. (ok (codes "r1"), w);
  get_run_result = λ cfg run_id w. elim answer [
    | ok s ↦ (ok (result_of platform s [] false), w)
    | err e ↦ (err e, w)
  ];
  stop_run = λ cfg run_id w. (ok tt, w + 100);
  cleanup = λ cfg run_id w. (ok tt, w + 200);
  name = codes "test";
}

abbrev pub container : ℤ → ContainerStatus
container code = record { name = codes "k6"; restart_count = pos 0; terminated = some code }

abbrev pub pod : ℤ → Pod
pod code = record { name = codes "p"; container_statuses = container code ∷ [] }

-- A cluster where everything succeeds; the world counts the calls that change it.
abbrev pub cluster : Kube platform ℕ
cluster = record {
  Config = Unit {0};
  Client = Unit {0};
  DynClient = Unit {0};
  Object = Unit {0};
  Stream = Unit {0};
  in_cluster_config = λ w. (ok tt, w);
  new_client = λ c w. (ok tt, w);
  new_dyn_client = λ c w. (ok tt, w);
  get_config_map = λ c ns name w. (ok ((codes "test.js", codes "x") ∷ []), w);
  list_pods = λ c ns sel w. (ok (pod (pos 0) ∷ []), w);
  open_logs = λ c ns name lines bytes w. (ok tt, w);
  read_all = λ stream w. (ok [], w);
  close = λ stream w. w;
  test_run_object = λ t. ok tt;
  plz_object = λ t. ok tt;
  create = λ c gvr ns o w. (ok (codes "k6-web"), suc w);
  get = λ c gvr ns name w. (ok tt, w);
  delete = λ c gvr ns name w. (ok tt, suc w);
  stage = λ o. some (codes "finished");
  now_nanos = λ w. (codes "7", w);
  hash_prefix = λ t. codes "0a1b2c3d";
  unmarshal_summary = λ t. err fault;
}
