-- ===== src/Lib.antt =====
-- A model of the argo-rollouts-k6-plugin, two Argo Rollouts plugins that start k6 load tests and judge
-- a rollout by them, and of what its core promises.
--
-- The program has two plugins over one interface. The step plugin (internal/step/step.go) starts a run
-- and polls it, with its state in the status that the controller hands back. The metric plugin
-- (internal/metric/metric.go) does the same for an analysis. Both call a `Provider`
-- (internal/provider/provider.go), which is a router (internal/provider/router.go) that hands each call
-- to the backend that the configuration (internal/provider/config.go) names: Grafana Cloud
-- (internal/provider/cloud) or the k6 operator (internal/provider/operator).
--
-- Files and code:
--   Base/...              tests, lists, texts as lists of bytes, integers, errors and effects, sorting,
--                         and the functions of Go's `strings` and `sort` that the program calls
--   Provider/Errors       the error messages, one constructor for each
--   Provider/Config       `PluginConfig`, `ValidateGrafanaCloud`, `ValidateK6Operator`
--   Provider/Interface    `RunState`, `RunResult`, and `Provider` as a record of effects over a world
--   Provider/Router       `Router`: `NewRouter`, `WithProvider`, `resolve` and the four calls
--   Provider/Mock         internal/provider/providertest/mock.go, the backend of the unit tests
--   Step/Types            `stepState`, results, and `Host`: JSON, the clock, durations
--   Step/Config           `parseConfig`, `parseTimeout`, `populateFromRollout`
--   Step/Plugin           `Run`, `Terminate`, `Abort`; an early return is an error of the effect
--   Step/Traced, Ends, Starts, Reconcile   the calls made on a backend, counted over repeated `Run`s
--   Step/Resumed, Phases, Orphan           single calls
--   Step/Protocol         an abstract machine for the calls on a backend, with the logs that it allows
--   Step/Control          `Run`, `Terminate` and `Abort` in any order, and that they refine the machine
--   Step/Deadline         a clock, and that a controller that keeps calling `Run` sees the step end
--   Step/Api, Metric/Api  the plugins as the RPC server holds them
--   Operator/Types        the Kubernetes objects, and `Kube`: the calls on the cluster
--   Operator/RunId, TestRun   internal/provider/operator/testrun.go
--   Operator/ExitCode and below   internal/provider/operator/exitcode.go; Order is about the order of the pods
--   Operator/Summary and below   internal/provider/operator/summary.go
--   Operator/Client, Plugin   internal/provider/operator/operator.go, with `sync.Once` as a flag
--   Operator/Plugin/Objects   which objects are on the cluster behind a creation and a deletion
--   Operator/Plugin/Others    the same for the objects of other runs
--   Operator/Plugin/Quiet     what `TriggerRun` and `GetRunResult` leave as it was
--   Operator/Plugin/Ledger    the backend as a ledger of runs, and that all calls on it keep to it
--   Metric/Types, Config, Plugin   internal/metric/metric.go, with the controller's analysis types
--   Metric/Collect, Measure        the calls that it makes, and what it returns
--   Metric/Lifecycle      a measurement from `Run` over its `Resume`s to `GarbageCollect`
--   Cloud/Types           the k6 Cloud API, HTTP and `strconv`, as `CloudApi`
--   Cloud/States, Metrics, Plugin   internal/provider/cloud/types.go, metrics.go and cloud.go
--   Cloud/Options         the options that cloud.go makes the backend with
--   Cloud/Laws, Queries   what that backend answers, and what it asks HTTP for
--   Cmd/Logging, Wiring   cmd/metric-plugin/main.go and cmd/step-plugin/main.go: the log level, the two
--                         backends, the router and what is served
--   Cmd/Worlds, Laws      one world for both backends, and the step plugin on top of them
--   Cmd/Aborts            what an abort of the step plugin leaves on the cluster
--   E2e, E2e/Laws         e2e/mock/main.go, the server that stands in for the k6 Cloud API in tests
--   Tests/...             concrete runs
--
-- State is passed explicitly. An operation maps a world to a result and a world; what the world is, the
-- theorems leave open, so that they hold for every backend, cluster and clock. A text is the list of
-- its bytes. Floats, Kubernetes resource requirements, JSON, time formats, durations and SHA-256 are
-- parameters. All loops recurse on the list that they walk over, so that no fuel is needed: the search
-- for a summary recurses on the lines above the one it is at.
--
-- Not modelled: log lines, the deadlines of contexts (a backend that exceeds one fails), the RPC
-- layer of go-plugin, concurrent requests to the test server, and concurrent calls of one backend beyond
-- `sync.Once`.
pub mod Base
pub mod Provider
pub mod Step
pub mod Metric
pub mod Cloud
pub mod Operator
pub mod Cmd
pub mod E2e
pub mod Tests
