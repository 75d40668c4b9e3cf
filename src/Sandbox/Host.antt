-- ===== src/Sandbox/Host.antt =====
-- What surrounds the sandbox manager, over a world `W`: the runtime, the agent, the clock, the
-- generators of identifiers and the template resolver.
pub mod Laws
use edvabe.Prelude.{String, Option}
use edvabe.Prelude.Int.{ℤ}
use edvabe.Prelude.Result.{Result}
use edvabe.Runtime.{Runtime, Fault}
use edvabe.Agent.{AgentProvider}

pub record TemplateResolution : Type 0 where
  pub image_tag : String
  pub start_cmd : String
  pub ready_cmd : String
  pub cpu_count : ℤ
  pub memory_mb : ℤ

pub record Host (W : Type 0) : Type 0 where
  pub rt : Runtime W
  pub ap : AgentProvider W
  pub now : W → ℤ × W
  pub new_sandbox_id : W → String × W
  pub new_envd_token : W → String × W
  pub new_traffic_token : W → String × W
  pub resolver : Option (String → W → Result Fault TemplateResolution)
