-- ===== src/Runtime.antt =====
-- internal/runtime/runtime.go: the types that the sandbox manager exchanges with a container
-- runtime, and the interface itself over a world `W` (the host's containers, the clock and all else
-- that a call may read or change). `context.Context` is not modelled: no call is cancelled.
pub mod Laws
pub mod Noop
use edvabe.Prelude.{ℕ, String, Option, List}
use edvabe.Prelude.Int.{ℤ}
use edvabe.Prelude.Dict.{Dict}
use edvabe.Prelude.Result.{Result}

-- An error of the runtime or the agent: its text.
abbrev pub Fault : Type 0
Fault = String

-- The prefix under which a runtime stamps the caller's metadata (`LabelMetaPrefix`).
abbrev pub label_meta_prefix : String
label_meta_prefix = "edvabe.meta."

pub data ContainerState : Type 0 where
  running paused stopped : ContainerState

-- A nil map is `none`.
pub record ManagedContainer : Type 0 where
  pub sandbox_id : String
  pub container_id : String
  pub image : String
  pub labels : Dict String
  pub env_vars : Dict String
  pub state : ContainerState
  pub cpu_count : ℤ
  pub memory_mb : ℤ
  pub created_at : ℤ
  pub agent_host : String
  pub agent_port : ℤ

pub record CreateRequest : Type 0 where
  pub sandbox_id : String
  pub image : String
  pub env_vars : Option (Dict String)
  pub metadata : Option (Dict String)
  pub timeout : ℤ
  pub agent_port : ℤ
  pub agent_token : String
  pub start_cmd : String
  pub ready_cmd : String
  pub cpu_count : ℤ
  pub memory_mb : ℤ
  pub labels : Option (Dict String)

pub record SandboxHandle : Type 0 where
  pub container_id : String
  pub agent_host : String
  pub agent_port : ℤ
  pub created_at : ℤ

abbrev pub Reply : Type 0 → Type 0 → Type 0
Reply W A = Result Fault A × W

-- The calls of `runtime.Runtime` that the manager makes.
pub record Runtime (W : Type 0) : Type 0 where
  pub create : CreateRequest → W → Reply W SandboxHandle
  pub destroy : String → W → Reply W Unit
  pub pause : String → W → Reply W Unit
  pub unpause : String → W → Reply W Unit
  pub stop : String → W → Reply W Unit
  pub start : String → W → Reply W Unit
  pub commit : String → String → W → Reply W Unit
  pub agent_endpoint : String → W → Reply W (String × ℤ)
  pub list_managed : W → Reply W (List ManagedContainer)
