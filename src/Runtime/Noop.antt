-- ===== src/Runtime/Noop.antt =====
-- internal/runtime/noop/noop.go: the in-memory runtime. Its state is a table of entries and a set of
-- image tags; the rest of the world, `C`, only has to tell the time. The mutex is not modelled: a
-- call is one step. Error texts quote the identifier as it stands, without the escapes of `%q`.
pub mod Keeps
use edvabe.Prelude.{
  zero, suc, String, ◌+++◌, Option, none, some, Bool, true, false, List, [], ◌∷◌, ◌==◌,
  if◌then◌else◌,
}
use edvabe.Prelude.Int.{ℤ, pos, negsuc}
use edvabe.Prelude.Dict.{Dict, lookup, insert, delete}
use edvabe.Prelude.Result.{Result, ok, err}
use edvabe.Runtime.{
  Fault, ContainerState, ManagedContainer, CreateRequest, SandboxHandle, Reply, Runtime,
  label_meta_prefix, running, paused, stopped,
}

pub record Entry : Type 0 where
  pub handle : SandboxHandle
  pub image : String
  pub env_vars : Option (Dict String)
  pub labels : Dict String
  pub start_cmd : String
  pub ready_cmd : String
  pub cpu_count : ℤ
  pub memory_mb : ℤ
  pub is_paused : Bool
  pub is_stopped : Bool

-- An image tag is in the set when it maps to true.
pub record Noop : Type 0 where
  pub sandboxes : Dict Entry
  pub images : Dict Bool

unfoldable pub new_noop : Noop
new_noop = record { sandboxes = []; images = [] }

unfoldable pub copy_map : Option (Dict String) → Option (Dict String)
copy_map none = none
copy_map (some m) = some m

abbrev pub or_empty : Option (Dict String) → Dict String
or_empty none = []
or_empty (some m) = m

-- The caller's metadata, stamped into the labels.
unfoldable pub stamp : Dict String → Dict String → Dict String
stamp [] labels = labels
stamp ((k, v) ∷ rest) labels = stamp rest (insert (label_meta_prefix +++ k) v labels)

abbrev pub not_found : String → Fault
not_found id = "noop: sandbox \"" +++ id +++ "\" not found"

-- Zero stands for the agent's usual port.
abbrev pub port_of : ℤ → ℤ
port_of (pos zero) = pos 49983
port_of (pos (suc n)) = pos (suc n)
port_of (negsuc n) = negsuc n

unfoldable pub entry_of : ℤ → CreateRequest → Entry
entry_of now q = record {
  handle = record {
    container_id = "noop-" +++ q.sandbox_id;
    agent_host = "127.0.0.1";
    agent_port = port_of q.agent_port;
    created_at = now;
  };
  image = q.image;
  env_vars = copy_map q.env_vars;
  labels = stamp (or_empty q.metadata) (or_empty (copy_map q.labels));
  start_cmd = q.start_cmd;
  ready_cmd = q.ready_cmd;
  cpu_count = q.cpu_count;
  memory_mb = q.memory_mb;
  is_paused = false;
  is_stopped = false;
}

unfoldable pub state_of_entry : Entry → ContainerState
state_of_entry e = if e.is_stopped then stopped else if e.is_paused then paused else running

unfoldable pub managed_of : String → Entry → ManagedContainer
managed_of id e = record {
  sandbox_id = id;
  container_id = e.handle.container_id;
  image = e.image;
  labels = e.labels;
  env_vars = or_empty (copy_map e.env_vars);
  state = state_of_entry e;
  cpu_count = e.cpu_count;
  memory_mb = e.memory_mb;
  created_at = e.handle.created_at;
  agent_host = elim (state_of_entry e) [ stopped ↦ "" | _ ↦ e.handle.agent_host ];
  agent_port = e.handle.agent_port;
}

unfoldable pub managed_all : Dict Entry → List ManagedContainer
managed_all [] = []
managed_all ((id, e) ∷ rest) = managed_of id e ∷ managed_all rest

abbrev pub set_paused : Entry → Entry
set_paused e = record e { is_paused = true }

abbrev pub set_unpaused : Entry → Entry
set_unpaused e = record e { is_paused = false }

abbrev pub set_stopped : Entry → Entry
set_stopped e = record e { is_stopped = true; is_paused = false }

abbrev pub set_started : Entry → Entry
set_started e = record e { is_stopped = false }

module _ {C : Type 0} (now : C → ℤ × C) where
  abbrev World : Type 0
  World = Noop × C

  abbrev with_sandboxes : Dict Entry → World → World
  with_sandboxes d (r, c) = (record r { sandboxes = d }, c)

  unfoldable pub create : CreateRequest → World → Reply World SandboxHandle
  create q (r, c) =
      let (at, c') = now c in
      let e = entry_of at q in
      if q.sandbox_id == ""
      then (err "noop: SandboxID is required", (r, c))
      else elim (lookup q.sandbox_id r.sandboxes) [
        | some _ ↦ (err ("noop: sandbox \"" +++ q.sandbox_id +++ "\" already exists"), (r, c))
        | none ↦ (ok e.handle, with_sandboxes (insert q.sandbox_id e r.sandboxes) (r, c'))
      ]

  unfoldable pub destroy : String → World → Reply World Unit
  destroy id (r, c) = elim (lookup id r.sandboxes) [
    | none ↦ (err (not_found id), (r, c))
    | some _ ↦ (ok tt, with_sandboxes (delete id r.sandboxes) (r, c))
  ]

  -- The entry is changed in place, or it is an error that there is none.
  unfoldable pub change : (Entry → Entry) → String → World → Reply World Unit
  change f id (r, c) = elim (lookup id r.sandboxes) [
    | none ↦ (err (not_found id), (r, c))
    | some e ↦ (ok tt, with_sandboxes (insert id (f e) r.sandboxes) (r, c))
  ]

  unfoldable pub commit : String → String → World → Reply World Unit
  commit id tag (r, c) = elim (lookup id r.sandboxes) [
    | none ↦ (err (not_found id), (r, c))
    | some _ ↦ (ok tt, (record r { images = insert tag true r.images }, c))
  ]

  unfoldable pub build_image : String → World → Reply World Unit
  build_image tag (r, c) =
      if tag == ""
      then (err "noop: BuildRequest.Tag is required", (r, c))
      else (ok tt, (record r { images = insert tag true r.images }, c))

  unfoldable pub agent_endpoint : String → World → Reply World (String × ℤ)
  agent_endpoint id (r, c) = elim (lookup id r.sandboxes) [
    | none ↦ (err (not_found id), (r, c))
    | some e ↦ (ok (e.handle.agent_host, e.handle.agent_port), (r, c))
  ]

  unfoldable pub noop_runtime : Runtime World
  noop_runtime = record {
    create = create;
    destroy = destroy;
    pause = change set_paused;
    unpause = change set_unpaused;
    stop = change set_stopped;
    start = change set_started;
    commit = commit;
    agent_endpoint = agent_endpoint;
    list_managed = λ w. (ok (managed_all w.0.sandboxes), w);
  }
