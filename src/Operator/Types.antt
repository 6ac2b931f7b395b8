-- ===== src/Operator/Types.antt =====
-- The Kubernetes objects that the operator backend reads and writes, and the API that it calls.
use argo_rollouts_k6_plugin.Base.{Text, ℤ, ℕ, List, Option, Dict, Eff, Result}
use argo_rollouts_k6_plugin.Provider.Errors.{Fault}
use argo_rollouts_k6_plugin.Provider.Config.{Platform}

pub record Gvr : Type 0 where
  pub group : Text
  pub version : Text
  pub resource : Text

pub record OwnerReference : Type 0 where
  pub api_version : Text
  pub kind : Text
  pub name : Text
  pub uid : Text

pub record ObjectMeta : Type 0 where
  pub name : Text
  pub namespace : Text
  pub labels : Dict Text
  pub owner_references : List OwnerReference

-- `resources` is `none` for the zero `ResourceRequirements`.
pub record TestRun (X : Platform) : Type 0 where
  pub api_version : Text
  pub kind : Text
  pub meta : ObjectMeta
  pub script_name : Text
  pub script_file : Text
  pub parallelism : ℤ
  pub runner_image : Text
  pub runner_env : List X.EnvVar
  pub runner_resources : Option X.Resources
  pub arguments : Text
  pub cleanup : Text

pub record PrivateLoadZone (X : Platform) : Type 0 where
  pub api_version : Text
  pub kind : Text
  pub meta : ObjectMeta
  pub token : Text
  pub image : Text
  pub resources : Option X.Resources

-- `terminated` is the exit code of a container that has ended.
pub record ContainerStatus : Type 0 where
  pub name : Text
  pub restart_count : ℤ
  pub terminated : Option ℤ

pub record Pod : Type 0 where
  pub name : Text
  pub container_statuses : List ContainerStatus

-- The top of a `handleSummary` document. An absent map or a JSON `null` is a nil map; a metric's
-- values are read like a map that lacks every key.
pub record SummaryMetric (X : Platform) : Type 0 where
  pub values : Dict X.Float64

pub record Summary (X : Platform) : Type 0 where
  pub metrics : Option (Dict (SummaryMetric X))
  pub root_group : Option Text

-- Kubernetes and the libraries that call it. `W` is the cluster with all that may change there.
pub record Kube (X : Platform) (W : Type 0) : Type 1 where
  pub Config : Type 0
  pub Client : Type 0
  pub DynClient : Type 0
  pub Object : Type 0
  pub Stream : Type 0
  pub in_cluster_config : Eff W Fault Config
  pub new_client : Config → Eff W Fault Client
  pub new_dyn_client : Config → Eff W Fault DynClient
  pub get_config_map : Client → Text → Text → Eff W Fault (Dict Text)
  -- namespace, label selector
  pub list_pods : Client → Text → Text → Eff W Fault (List Pod)
  -- namespace, pod, tail lines, byte limit
  pub open_logs : Client → Text → Text → ℕ → ℕ → Eff W Fault Stream
  -- `io.ReadAll`, and `Close`, whose error is ignored.
  pub read_all : Stream → Eff W Fault Text
  pub close : Stream → W → W
  pub test_run_object : TestRun X → Result Fault Object
  pub plz_object : PrivateLoadZone X → Result Fault Object
  -- The answer is the name of the created object.
  pub create : DynClient → Gvr → Text → Object → Eff W Fault Text
  pub get : DynClient → Gvr → Text → Text → Eff W Fault Object
  pub delete : DynClient → Gvr → Text → Text → Eff W Fault (Unit {0})
  -- `unstructured.NestedString(object, "status", "stage")`, `none` where it is absent or no string.
  pub stage : Object → Option Text
  -- `time.Now().UnixNano()`, as `%d` prints it.
  pub now_nanos : W → Text × W
  -- The hexadecimal digits of the first four bytes of the SHA-256 sum.
  pub hash_prefix : Text → Text
  pub unmarshal_summary : Text → Result Fault (Summary X)
