-- ===== src/Sandbox.antt =====
-- internal/sandbox: the registry of active sandboxes and their lifecycle. This file has the types
-- of sandbox.go and the errors and constants of manager.go. Instants are nanoseconds since Go's
-- zero `time.Time`, durations are nanoseconds.
pub mod Labels
pub mod Host
pub mod Manager
use edvabe.Prelude.{ℕ, String, Bool, true, false, Option, none}
use edvabe.Prelude.Int.{ℤ, pos}
use edvabe.Prelude.Dict.{Dict}
use edvabe.Runtime.{Fault}

pub data State : Type 0 where
  running paused : State

-- `unpaused` is the empty string of a sandbox that is not paused.
pub data PauseMode : Type 0 where
  unpaused frozen stopped : PauseMode

-- `OnTimeoutMode` is any string: a label may hold any.
abbrev pub on_timeout_kill : String
on_timeout_kill = "kill"

abbrev pub on_timeout_pause : String
on_timeout_pause = "pause"

-- A nil map is `none`.
pub record Sandbox : Type 0 where
  pub id : String
  pub template_id : String
  pub alias : String
  pub container_id : String
  pub agent_host : String
  pub agent_port : ℤ
  pub envd_token : String
  pub traffic_token : String
  pub state : State
  pub pause_mode : PauseMode
  pub paused_at : ℤ
  pub on_timeout : String
  pub metadata : Option (Dict String)
  pub env_vars : Option (Dict String)
  pub created_at : ℤ
  pub expires_at : ℤ
  pub cpu_count : ℤ
  pub memory_mb : ℤ

abbrev pub zero_time : ℤ
zero_time = pos 0

abbrev pub is_paused : State → Bool
is_paused running = false
is_paused paused = true

-- `failed op id e` is the wrapped error of a call that went wrong: the operation with its stage, the
-- sandbox and the cause.
pub data Error : Type 0 where
  not_found expired : Error
  failed : String → String → Fault → Error

abbrev pub default_image : String
default_image = "edvabe/base:latest"

abbrev pub default_domain : String
default_domain = "localhost:3000"

abbrev pub default_timeout : ℤ
default_timeout = pos 300_000_000_000

abbrev pub default_freeze_duration : ℤ
default_freeze_duration = pos 86_400_000_000_000

abbrev pub default_max_frozen : ℤ
default_max_frozen = pos 10

abbrev pub default_stopped_gc_after : ℤ
default_stopped_gc_after = pos 2_592_000_000_000_000

abbrev pub default_user : String
default_user = "user"

abbrev pub default_workdir : String
default_workdir = "/home/user"
