-- ===== src/Agent.antt =====
-- internal/agent/agent.go: the in-sandbox agent as the sandbox manager calls it.
use edvabe.Prelude.{String, Option}
use edvabe.Prelude.Int.{ℤ}
use edvabe.Prelude.Dict.{Dict}
use edvabe.Runtime.{Reply}

-- The fields that the manager fills; volume mounts and the hyperloop address stay empty.
pub record InitConfig : Type 0 where
  pub access_token : String
  pub env_vars : Option (Dict String)
  pub default_user : String
  pub default_workdir : String

-- An endpoint is the pair of a host and a port, for `http://<host>:<port>`.
abbrev pub Endpoint : Type 0
Endpoint = String × ℤ

-- `wait_ready` takes the endpoint, the command, the access token and the deadline of its context.
pub record AgentProvider (W : Type 0) : Type 0 where
  pub port : ℤ
  pub ping : Endpoint → W → Reply W Unit
  pub init_agent : Endpoint → InitConfig → W → Reply W Unit
  pub wait_ready : Endpoint → String → String → ℤ → W → Reply W Unit
