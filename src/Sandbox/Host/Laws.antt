-- ===== src/Sandbox/Host/Laws.antt =====
-- A host whose runtime keeps its promises, and whose agent, clock and generators move no container.
use edvabe.Prelude.{String, Option}
use edvabe.Prelude.Int.{ℤ}
use edvabe.Runtime.{ContainerState}
use edvabe.Runtime.Laws.{IsQuiet, IsRuntime}
use edvabe.Agent.{Endpoint, InitConfig}
use edvabe.Sandbox.Host.{Host}

module _ {W : Type 0} (view : W → String → Option ContainerState) (Sound : W → Type 0) where
  pub record IsHost (h : Host W) : Type 0 where
    pub runtime : IsRuntime view Sound h.rt
    pub now_quiet : (w : W) → Sound w → IsQuiet view Sound w (h.now w).1
    pub sandbox_id_quiet : (w : W) → Sound w → IsQuiet view Sound w (h.new_sandbox_id w).1
    pub envd_token_quiet : (w : W) → Sound w → IsQuiet view Sound w (h.new_envd_token w).1
    pub traffic_token_quiet : (w : W) → Sound w → IsQuiet view Sound w (h.new_traffic_token w).1
    pub ping_quiet : (at : Endpoint) (w : W) → Sound w → IsQuiet view Sound w (h.ap.ping at w).1
    pub init_quiet :
        (at : Endpoint) (c : InitConfig) (w : W)
        → Sound w
        → IsQuiet view Sound w (h.ap.init_agent at c w).1
    pub ready_quiet :
        (at : Endpoint) (cmd token : String) (t : ℤ) (w : W)
        → Sound w
        → IsQuiet view Sound w (h.ap.wait_ready at cmd token t w).1
