-- ===== src/Sandbox/Manager/Create/Outcomes.antt =====
-- The outcomes of `Create`: what a success registers, and that a failure registers nothing.
use edvabe.Prelude.{String, ◌≡◌, ◌≢◌, ◌⊎◌, refl, Option, none, some, arith, inl, inr, eq_iff}
use edvabe.Prelude.Int.{ℤ, pos, ◌+ℤ◌, ◌<ℤ◌, ◌≤ℤ◌}
use edvabe.Prelude.Dict.{Dict}
use edvabe.Prelude.Result.{Result, ok, err, Result-cases}
use edvabe.Runtime.{SandboxHandle}
use edvabe.Agent.{InitConfig}
use edvabe.Sandbox.{Sandbox, State, Error, default_user, default_workdir}
use edvabe.Sandbox.Host.{Host, TemplateResolution}
use edvabe.Sandbox.Manager.{Manager, put, or_default_text}
use edvabe.Sandbox.Manager.Registry.{IsEntry, IsRegistry, put-IsRegistry}
use edvabe.Sandbox.Manager.Create.{
  CreateOptions, limit_of, with_defaults, draft, resolve_template, request, clone_map, enlist,
  handshake, create,
}

-- The text that was given, or one that stands for an empty one.
abbrev pub IsGivenOr : String → String → String → Type 0
IsGivenOr default' given s = ((given ≢ "") × (s ≡ given)) ⊎ ((given ≡ "") × (s ≡ default'))

-- A positive number that was given wins, a negative one means no limit, zero the template's.
abbrev pub IsLimit : ℤ → ℤ → ℤ → Type 0
IsLimit template given n =
    ((pos 0 <ℤ given) × (n ≡ given))
    ⊎ ((given <ℤ pos 0) × (n ≡ pos 0))
    ⊎ ((given ≡ pos 0) × (n ≡ template))

-- The new sandbox, as the caller asked for it.
pub record IsAsked (given : CreateOptions) (find : String → TemplateResolution) (s : Sandbox)
    : Type 0 where
  pub entry : IsEntry s.id s
  pub runs : s.state ≡ State.running
  pub template : IsGivenOr "base" given.template_id s.template_id
  pub alias : s.alias ≡ given.alias
  pub mode : IsGivenOr "kill" given.on_timeout s.on_timeout
  pub metadata : s.metadata ≡ given.metadata
  pub env_vars : s.env_vars ≡ given.env_vars
  pub deadline :
      ((pos 0 <ℤ given.timeout) × (s.expires_at ≡ s.created_at +ℤ given.timeout))
      ⊎ ((given.timeout ≤ℤ pos 0) × (s.expires_at ≡ s.created_at +ℤ pos 300_000_000_000))
  pub cpu : IsLimit (find s.template_id).cpu_count given.cpu_count s.cpu_count
  pub memory : IsLimit (find s.template_id).memory_mb given.memory_mb s.memory_mb

-- Either an error with the registry as it was, or a sandbox with the registry in which it stands
-- under the identifier.
abbrev pub CreateOutcome :
    CreateOptions
    → (String → TemplateResolution)
    → String
    → Manager
    → Result Error Sandbox
    → Manager
    → Type 0
CreateOutcome given find id m (ok s) m' = IsAsked given find s × (s.id ≡ id) × (m' ≡ put s.id s m)
CreateOutcome given find id m (err e) m' = m' ≡ m

CreateOutcome-IsRegistry :
    (given : CreateOptions) (find : String → TemplateResolution) (id : String) (m : Manager)
    (r : Result Error Sandbox) (m' : Manager)
    → CreateOutcome given find id m r m'
    → IsRegistry m
    → IsRegistry m'
CreateOutcome-IsRegistry given find id m (ok s) m' (asked, named, e) v =
    rw e (put-IsRegistry s.id s m asked.entry v)
CreateOutcome-IsRegistry given find id m (err f) m' e v = rw e v

limit_of-IsLimit : (template given : ℤ) → IsLimit template given (limit_of given template)
unfolding limit_of
limit_of-IsLimit template given = ground arith

or_default_text-IsGivenOr :
    (default' given : String) → IsGivenOr default' given (or_default_text given default')
or_default_text-IsGivenOr default' given = ground (arith, eq_iff given "")

clone_map-eq : (d : Option (Dict String)) → clone_map d ≡ d
unfolding clone_map
clone_map-eq none = refl
clone_map-eq (some d) = refl

-- What `Create` puts together once the agent has answered.
enlisted-IsAsked :
    (given : CreateOptions) (find : String → TemplateResolution) (id envd traffic : String)
    (handle : SandboxHandle) (now : ℤ)
    → let opts = with_defaults given in
      let res = find opts.template_id in
      IsAsked given find (record (draft opts id envd traffic) {
        container_id = handle.container_id;
        agent_host = handle.agent_host;
        agent_port = handle.agent_port;
        created_at = now;
        expires_at = now +ℤ opts.timeout;
        cpu_count = limit_of opts.cpu_count res.cpu_count;
        memory_mb = limit_of opts.memory_mb res.memory_mb;
      })
unfolding draft with_defaults
enlisted-IsAsked given find id envd traffic handle now = record {
  entry = ground arith;
  runs = refl;
  template = or_default_text-IsGivenOr "base" given.template_id;
  alias = refl;
  mode = or_default_text-IsGivenOr "kill" given.on_timeout;
  metadata = clone_map-eq given.metadata;
  env_vars = clone_map-eq given.env_vars;
  deadline = ground arith;
  cpu = limit_of-IsLimit _ given.cpu_count;
  memory = limit_of-IsLimit _ given.memory_mb;
}

module _ {W : Type 0} (h : Host W) where
  enlist-CreateOutcome :
      (given : CreateOptions) (find : String → TemplateResolution) (id envd traffic : String)
      (handle : SandboxHandle) (m : Manager) (w : W)
      → let opts = with_defaults given in
        let r = enlist h opts (find opts.template_id) (draft opts id envd traffic) handle m w in
        CreateOutcome given find id m r.0 r.1
  unfolding enlist draft
  enlist-CreateOutcome given find id envd traffic handle m w =
      let opts = with_defaults given in
      let d = draft opts id envd traffic in
      let config : InitConfig = record {
        access_token = d.envd_token;
        env_vars = opts.env_vars;
        default_user = default_user;
        default_workdir = default_workdir;
      } in
      let (greeted, w1) =
        handshake h (handle.agent_host, handle.agent_port) config (find opts.template_id).ready_cmd
          opts.timeout w in
      elim (Result-cases greeted) [
        | inl (_, e) ↦
            rw (e, enlist)
              (enlisted-IsAsked given find id envd traffic handle (h.now w1).0, refl, refl)
        | inr ((stage, f), e) ↦ rw (e, enlist) refl
      ]

  -- `Create` either fails and leaves the registry alone, or puts one running sandbox into it, under
  -- the identifier that the generator gives (in place of what stands there, were it in use). The
  -- sandbox has the alias, metadata and environment asked for; the template and the timeout mode
  -- asked for, or base and kill where the text is empty; a deadline that lies the timeout after its
  -- creation, or five minutes if the timeout is not positive; and cores and megabytes that are those
  -- asked for if positive, 0 if negative, and the template's if 0.
  pub create-CreateOutcome :
      (given : CreateOptions) (m : Manager) (w : W)
      → let r = create h given m w in
        CreateOutcome given (λ t. resolve_template h m t w) (h.new_sandbox_id w).0 m r.0 r.1
  unfolding create
  create-CreateOutcome given m w =
      let opts = with_defaults given in
      let find : String → TemplateResolution = λ t. resolve_template h m t w in
      let (id, w1) = h.new_sandbox_id w in
      let (envd, w2) = h.new_envd_token w1 in
      let (traffic, w3) = h.new_traffic_token w2 in
      let (made, w4) = h.rt.create (request h opts (find opts.template_id) id envd traffic) w3 in
      elim (Result-cases made) [
        | inl (handle, e) ↦
            rw (e, create) (enlist-CreateOutcome given find id envd traffic handle m w4)
        | inr (f, e) ↦ rw (e, create)
      ]

  pub create-IsRegistry :
      (given : CreateOptions) (m : Manager) (w : W)
      → IsRegistry m
      → IsRegistry (create h given m w).1
  create-IsRegistry given m w v =
      CreateOutcome-IsRegistry given _ _ m (create h given m w).0 (create h given m w).1
        (create-CreateOutcome given m w) v

-- The deadline of a new sandbox lies after its creation, whatever timeout was asked for.
with_defaults-timeout : (given : CreateOptions) → pos 0 <ℤ (with_defaults given).timeout
unfolding with_defaults
with_defaults-timeout given = ground arith
