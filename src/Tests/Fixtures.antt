-- ===== src/Tests/Fixtures.antt =====
-- A host over the in-memory runtime, with a counter for a clock, an agent that always answers and
-- two names for new sandboxes; and a manager with sandboxes on it.
use edvabe.Prelude.{ℕ, suc, ltb, if◌then◌else◌, none, [], ◌∷◌, refl, Bool, false}
use edvabe.Prelude.Int.{ℤ, pos}
use edvabe.Prelude.Dict.{lookup}
use edvabe.Prelude.Result.{ok}
use edvabe.Runtime.{Reply}
use edvabe.Runtime.Laws.{IsQuiet}
use edvabe.Runtime.Noop.{Entry, Noop, noop_runtime}
use edvabe.Runtime.Noop.Keeps.{noop_view, IsNoop, noop_runtime-IsRuntime}
use edvabe.Sandbox.{Sandbox, State, PauseMode, unpaused, frozen}
use edvabe.Sandbox.Host.{Host}
use edvabe.Sandbox.Host.Laws.{IsHost}
use edvabe.Sandbox.Manager.{Manager, Options, new_manager, put}
use edvabe.Sandbox.Manager.Registry.{IsRegistry, put-IsRegistry, new_manager-IsRegistry}
use edvabe.Sandbox.Manager.Create.{CreateOptions}

abbrev pub World : Type 0
World = Noop × ℕ

abbrev pub tick : ℕ → ℤ × ℕ
tick c = (pos c, suc c)

abbrev pub answer : {A : Type 0} → A → World → Reply World A
answer a w = (ok a, w)

abbrev pub host : Host World
host = record {
  rt = noop_runtime tick;
  ap = record {
    port = pos 49983;
    ping = λ at. answer tt;
    init_agent = λ at c. answer tt;
    wait_ready = λ at cmd token t. answer tt;
  };
  now = λ (r, c). (pos c, (r, suc c));
  new_sandbox_id = λ (r, c). ((if ltb c 3 then "isb_a" else "isb_b"), (r, suc c));
  new_envd_token = λ w. ("ea_1", w);
  new_traffic_token = λ w. ("ta_1", w);
  resolver = none;
}

later : (r : Noop) (c c' : ℕ) → IsNoop (r, c) → IsQuiet noop_view IsNoop (r, c) (r, c')
later r c c' s = record { sound = record { unique = s.unique; sane = s.sane }; same = λ j. refl }

pub host-IsHost : IsHost noop_view IsNoop host
host-IsHost = record {
  runtime = noop_runtime-IsRuntime tick;
  now_quiet = λ w s. later w.0 w.1 (suc w.1) s;
  sandbox_id_quiet = λ w s. later w.0 w.1 (suc w.1) s;
  envd_token_quiet = λ w s. later w.0 w.1 w.1 s;
  traffic_token_quiet = λ w s. later w.0 w.1 w.1 s;
  ping_quiet = λ at w s. later w.0 w.1 w.1 s;
  init_quiet = λ at c w s. later w.0 w.1 w.1 s;
  ready_quiet = λ at cmd token t w s. later w.0 w.1 w.1 s;
}

abbrev pub empty_world : World
empty_world = (record { sandboxes = []; images = [] }, 0)

pub empty_world-IsNoop : IsNoop empty_world
unfolding lookup
empty_world-IsNoop = record { unique = tt; sane = λ k v h. cc }

abbrev pub entry : Bool → Entry
entry parked = record {
  handle = record {
    container_id = "noop-isb_a";
    agent_host = "127.0.0.1";
    agent_port = pos 49983;
    created_at = pos 0;
  };
  image = "edvabe/base:latest";
  env_vars = none;
  labels = [];
  start_cmd = "";
  ready_cmd = "";
  cpu_count = pos 0;
  memory_mb = pos 0;
  is_paused = parked;
  is_stopped = false;
}

-- One container, and the clock at 5.
abbrev pub world : Bool → World
world parked = (record { sandboxes = ("isb_a", entry parked) ∷ []; images = [] }, 5)

abbrev pub sandbox : State → PauseMode → ℤ → ℤ → Sandbox
sandbox state mode paused_at expires_at = record {
  id = "isb_a";
  template_id = "base";
  alias = "";
  container_id = "noop-isb_a";
  agent_host = "127.0.0.1";
  agent_port = pos 49983;
  envd_token = "ea_1";
  traffic_token = "ta_1";
  state = state;
  pause_mode = mode;
  paused_at = paused_at;
  on_timeout = "pause";
  metadata = none;
  env_vars = none;
  created_at = pos 0;
  expires_at = expires_at;
  cpu_count = pos 0;
  memory_mb = pos 0;
}

abbrev pub running_sandbox : Sandbox
running_sandbox = sandbox State.running unpaused (pos 0) (pos 100)

abbrev pub frozen_sandbox : Sandbox
frozen_sandbox = sandbox State.paused frozen (pos 2) (pos 3)

abbrev pub options : Options
options = record {
  base_image = "";
  domain = "";
  freeze_duration = pos 0;
  max_frozen = pos 0;
  stopped_gc_after = pos 0;
}

abbrev pub create_options : CreateOptions
create_options = record {
  template_id = "";
  alias = "";
  metadata = none;
  env_vars = none;
  timeout = pos 4;
  on_timeout = "pause";
  cpu_count = pos 0;
  memory_mb = pos 0;
}

abbrev pub running_manager : Manager
running_manager = put "isb_a" running_sandbox (new_manager options)

abbrev pub frozen_manager : Manager
frozen_manager = put "isb_a" frozen_sandbox (new_manager options)

pub running_manager-IsRegistry : IsRegistry running_manager
running_manager-IsRegistry =
    put-IsRegistry "isb_a" running_sandbox (new_manager options) (refl, (refl, refl))
      (new_manager-IsRegistry options)

pub frozen_manager-IsRegistry : IsRegistry frozen_manager
frozen_manager-IsRegistry =
    put-IsRegistry "isb_a" frozen_sandbox (new_manager options) (refl, λ e. cc)
      (new_manager-IsRegistry options)
