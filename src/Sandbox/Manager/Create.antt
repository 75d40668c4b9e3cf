-- ===== src/Sandbox/Manager/Create.antt =====
-- `Manager.Create`: a container, a handshake with its agent, and the new entry of the registry.
pub mod Outcomes
use edvabe.Prelude.{String, Option, none, some, ◌==◌, if◌then◌else◌}
use edvabe.Prelude.Int.{ℤ, pos, ◌+ℤ◌, leb_ℤ, ltb_ℤ}
use edvabe.Prelude.Dict.{Dict}
use edvabe.Prelude.Result.{Result, ok, err}
use edvabe.Runtime.{Fault, CreateRequest, SandboxHandle}
use edvabe.Agent.{InitConfig}
use edvabe.Sandbox.{
  Sandbox, State, unpaused, zero_time, failed, default_timeout, default_user, default_workdir,
  on_timeout_kill,
}
use edvabe.Sandbox.Labels.{build_sandbox_labels}
use edvabe.Sandbox.Host.{Host, TemplateResolution}
use edvabe.Sandbox.Manager.{Manager, Outcome, put, or_default_text}

pub record CreateOptions : Type 0 where
  pub template_id : String
  pub alias : String
  pub metadata : Option (Dict String)
  pub env_vars : Option (Dict String)
  pub timeout : ℤ
  pub on_timeout : String
  pub cpu_count : ℤ
  pub memory_mb : ℤ

-- A positive override wins, a negative one lifts the limit, zero leaves the template's.
unfoldable pub limit_of : ℤ → ℤ → ℤ
limit_of override template =
    if ltb_ℤ (pos 0) override then override else if ltb_ℤ override (pos 0) then pos 0 else template

unfoldable pub clone_map : Option (Dict String) → Option (Dict String)
clone_map none = none
clone_map (some m) = some m

-- The options after the defaults of `Create`.
unfoldable pub with_defaults : CreateOptions → CreateOptions
with_defaults opts = record opts {
  timeout = if leb_ℤ opts.timeout (pos 0) then default_timeout else opts.timeout;
  on_timeout = or_default_text opts.on_timeout on_timeout_kill;
  template_id = or_default_text opts.template_id "base";
}

-- What `Create` knows of the sandbox before it has a container.
unfoldable pub draft : CreateOptions → String → String → String → Sandbox
draft opts id envd traffic = record {
  id = id;
  template_id = opts.template_id;
  alias = opts.alias;
  container_id = "";
  agent_host = "";
  agent_port = pos 0;
  envd_token = envd;
  traffic_token = traffic;
  state = State.running;
  pause_mode = unpaused;
  paused_at = zero_time;
  on_timeout = opts.on_timeout;
  metadata = clone_map opts.metadata;
  env_vars = clone_map opts.env_vars;
  created_at = zero_time;
  expires_at = zero_time;
  cpu_count = pos 0;
  memory_mb = pos 0;
}

module _ {W : Type 0} (h : Host W) where
  -- The template's image and commands, or the base image for a template that is not known.
  unfoldable pub resolve_template : Manager → String → W → TemplateResolution
  resolve_template m template_id w =
      let base : TemplateResolution = record {
        image_tag = m.base_image;
        start_cmd = "";
        ready_cmd = "";
        cpu_count = pos 0;
        memory_mb = pos 0;
      } in
      elim h.resolver [
        | none ↦ base
        | some resolve ↦ elim (resolve template_id w) [
          | err _ ↦ base
          | ok r ↦ record r { image_tag = or_default_text r.image_tag m.base_image }
        ]
      ]

  -- Ping, init and, if the template has a ready command, the ready probe: the first fault with the
  -- stage that it ended.
  unfoldable pub handshake :
      String × ℤ → InitConfig → String → ℤ → W → Result (String × Fault) (Unit {0}) × W
  handshake endpoint config ready_cmd timeout w =
      let (pinged, w1) = h.ap.ping endpoint w in
      let (inited, w2) = h.ap.init_agent endpoint config w1 in
      let (probed, w3) = h.ap.wait_ready endpoint ready_cmd config.access_token timeout w2 in
      elim pinged [
        | err e ↦ (err ("create: agent ping", e), w1)
        | ok _ ↦ elim inited [
          | err e ↦ (err ("create: agent init", e), w2)
          | ok _ ↦
              if ready_cmd == ""
              then (ok tt, w2)
              else elim probed [ err e ↦ (err ("create: ready probe", e), w3) | ok _ ↦ (ok tt, w3) ]
        ]
      ]

  unfoldable pub request :
      CreateOptions → TemplateResolution → String → String → String → CreateRequest
  unfolding draft
  request opts res id envd traffic = record {
    sandbox_id = id;
    image = res.image_tag;
    env_vars = opts.env_vars;
    metadata = opts.metadata;
    timeout = opts.timeout;
    agent_port = h.ap.port;
    agent_token = envd;
    start_cmd = res.start_cmd;
    ready_cmd = res.ready_cmd;
    cpu_count = limit_of opts.cpu_count res.cpu_count;
    memory_mb = limit_of opts.memory_mb res.memory_mb;
    labels = some (build_sandbox_labels (draft opts id envd traffic));
  }

  -- The container exists: shake hands with its agent, and remove the container if that fails.
  unfoldable pub enlist :
      CreateOptions → TemplateResolution → Sandbox → SandboxHandle → Manager → W → Outcome W Sandbox
  enlist opts res d handle m w =
      let config : InitConfig = record {
        access_token = d.envd_token;
        env_vars = opts.env_vars;
        default_user = default_user;
        default_workdir = default_workdir;
      } in
      let endpoint : String × ℤ = (handle.agent_host, handle.agent_port) in
      let (greeted, w1) = handshake endpoint config res.ready_cmd opts.timeout w in
      let (removed, w2) = h.rt.destroy d.id w1 in
      let (now, w3) = h.now w1 in
      elim greeted [
        | err (stage, e) ↦ (err (failed stage d.id e), m, w2)
        | ok _ ↦
            let s : Sandbox = record d {
              container_id = handle.container_id;
              agent_host = handle.agent_host;
              agent_port = handle.agent_port;
              created_at = now;
              expires_at = now +ℤ opts.timeout;
              cpu_count = limit_of opts.cpu_count res.cpu_count;
              memory_mb = limit_of opts.memory_mb res.memory_mb;
            } in
            (ok s, put d.id s m, w3)
      ]

  unfoldable pub create : CreateOptions → Manager → W → Outcome W Sandbox
  create given m w =
      let opts = with_defaults given in
      let res = resolve_template m opts.template_id w in
      let (id, w1) = h.new_sandbox_id w in
      let (envd, w2) = h.new_envd_token w1 in
      let (traffic, w3) = h.new_traffic_token w2 in
      let (made, w4) = h.rt.create (request opts res id envd traffic) w3 in
      elim made [
        | err e ↦ (err (failed "create: runtime" id e), m, w4)
        | ok handle ↦ enlist opts res (draft opts id envd traffic) handle m w4
      ]
