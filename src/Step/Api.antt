-- ===== src/Step/Api.antt =====
-- `K6StepPlugin` of internal/step/step.go as the RPC server holds it: its only field, and the methods
-- that say who it is.
use argo_rollouts_k6_plugin.Base.{Text, codes, Option, none}
use argo_rollouts_k6_plugin.Provider.Config.{Platform}
use argo_rollouts_k6_plugin.Provider.Interface.{Provider}
use argo_rollouts_k6_plugin.Step.Types.{RpcError}

pub record K6StepPlugin (X : Platform) (W : Type 0) : Type 0 where
  pub provider : Provider X W

module _ {X : Platform} {W : Type 0} where
  abbrev pub new_step_plugin : Provider X W → K6StepPlugin X W
  new_step_plugin p = record { provider = p }

  -- No error.
  abbrev pub init_plugin : K6StepPlugin X W → Option RpcError
  init_plugin k = none

  abbrev pub plugin_type : K6StepPlugin X W → Text
  plugin_type k = codes "jmichalek132/k6-step"
