-- ===== src/Api/Control/Sandboxes.antt =====
-- internal/api/control/sandboxes.go: the handlers of sandboxes over the manager. `Json` has what
-- encoding/json makes of a body, `stats` is the runtime's Stats and `format_time` the clock's format
-- that Snapshot uses.
use edvabe.Prelude.{
  ℕ, suc, ◌-◌, ◌*◌, ◌%◌, String, Bool, false, Option, none, some, List, [], ◌∷◌, ◌==◌, ◌||◌, ltb,
  if◌then◌else◌,
}
use edvabe.Prelude.Int.{ℤ, pos, negsuc, leb_ℤ, sub_ℕ}
use edvabe.Prelude.Dict.{Dict}
use edvabe.Prelude.Result.{ok, err}
use edvabe.Sandbox.{
  Sandbox, State, Error, not_found, expired, failed, on_timeout_kill, on_timeout_pause,
}
use edvabe.Sandbox.Manager.{Manager, Outcome, list, or_default_text}
use edvabe.Sandbox.Manager.Snapshot.{SnapshotInfo}
use edvabe.Text.{trim_prefix}
use edvabe.Text.Split.{contains, split_all, trim_space, trim_suffix}
use edvabe.Api.{Request, Reply, replied, write_error, first_value}
use edvabe.Api.Control.Listing.{filter_states, sort_listed, list_page}

-- A missing `lifecycle` is `none`; the fields that no code reads are left out.
pub record NewSandboxRequest : Type 0 where
  pub template_id : String
  pub alias : String
  pub timeout : ℤ
  pub metadata : Option (Dict String)
  pub env_vars : Option (Dict String)
  pub auto_pause : Bool
  pub lifecycle : Option String
  pub cpu_count : ℤ
  pub memory_mb : ℤ

pub record Json : Type 0 where
  pub decode_new_sandbox : String → Option NewSandboxRequest
  pub decode_timeout : String → Option ℤ
  pub decode_name : String → Option String
  pub decode_duration : String → Option ℤ

pub record SandboxResponse : Type 0 where
  pub sandbox_id : String
  pub template_id : String
  pub alias : String
  pub aliases : List String
  pub client_id : String
  pub envd_version : String
  pub envd_access_token : String
  pub traffic_access_token : String
  pub domain : String
  pub metadata : Option (Dict String)
  pub started_at : ℤ
  pub end_at : ℤ

-- The share of the processor and the memory in use, which only pass through, are left out.
pub record Stats : Type 0 where
  pub memory_limit_mb : ℤ
  pub disk_used_mb : ℤ

-- The fields that are the same in every reply are left out.
pub record SandboxDetail : Type 0 where
  pub sandbox : SandboxResponse
  pub state : State
  pub cpu_count : ℤ
  pub memory_mb : ℤ
  pub disk_size_mb : ℤ
  pub on_timeout : String
  pub auto_resume : Bool
  pub env_vars : Option (Dict String)

-- `page` has the token of the next one.
pub data Payload : Type 0 where
  sandbox_body : SandboxResponse → Payload
  detail : SandboxDetail → Payload
  page : List SandboxResponse → Option String → Payload
  snapshot_body : SnapshotInfo → Payload
  no_logs : Payload
  metrics : List Stats → Payload
  batch_metrics : Dict (List Stats) → Payload

-- The value of an int64 that a product leaves.
unfoldable pub wrap64 : ℤ → ℤ
wrap64 n =
    let residue : ℕ = elim n [
      | pos a ↦ a % 18_446_744_073_709_551_616
      | negsuc a ↦ 18_446_744_073_709_551_615 - a % 18_446_744_073_709_551_616
    ] in
    if ltb residue 9_223_372_036_854_775_808
    then pos residue
    else sub_ℕ residue 18_446_744_073_709_551_616

-- time.Duration(n) * time.Second
unfoldable pub seconds : ℤ → ℤ
seconds (pos n) = wrap64 (pos (n * 1_000_000_000))
seconds (negsuc n) = wrap64 (negsuc (suc n * 1_000_000_000 - 1))

unfoldable pub resolve_on_timeout : NewSandboxRequest → String
resolve_on_timeout req =
    let by_flag = if req.auto_pause then on_timeout_pause else on_timeout_kill in
    elim req.lifecycle [
      | none ↦ by_flag
      | some mode ↦
          if mode == on_timeout_pause
          then on_timeout_pause
          else if mode == on_timeout_kill
          then on_timeout_kill
          else by_flag
    ]

unfoldable pub to_sandbox_response : Manager → String → Sandbox → SandboxResponse
to_sandbox_response m version s = record {
  sandbox_id = s.id;
  template_id = s.template_id;
  alias = s.alias;
  aliases = if s.alias == "" then [] else s.alias ∷ [];
  client_id = "local";
  envd_version = version;
  envd_access_token = s.envd_token;
  traffic_access_token = s.traffic_token;
  domain = m.domain;
  metadata = s.metadata;
  started_at = s.created_at;
  end_at = s.expires_at;
}

abbrev is_zero : ℤ → Bool
is_zero n = if leb_ℤ n (pos 0) then leb_ℤ (pos 0) n else false

unfoldable pub to_sandbox_detail : Manager → String → Sandbox → Stats → SandboxDetail
to_sandbox_detail m version s stats = record {
  sandbox = to_sandbox_response m version s;
  state = s.state;
  cpu_count = s.cpu_count;
  memory_mb = if is_zero s.memory_mb then stats.memory_limit_mb else s.memory_mb;
  disk_size_mb = stats.disk_used_mb;
  on_timeout = or_default_text s.on_timeout on_timeout_kill;
  auto_resume = s.on_timeout == on_timeout_pause;
  env_vars = s.env_vars;
}

abbrev pub responses : Manager → String → List Sandbox → List SandboxResponse
responses m version [] = []
responses m version (s ∷ ss) = to_sandbox_response m version s ∷ responses m version ss

unfoldable pub write_manager_error : Error → Reply Payload
write_manager_error not_found = write_error 404
write_manager_error expired = write_error 410
write_manager_error (failed op id e) = write_error 500

-- Get and Delete know one error by its status.
unfoldable pub found_or_fault : Error → Reply Payload
found_or_fault not_found = write_error 404
found_or_fault e = write_error 500

unfoldable pub sandbox_id_from_path : String → String
sandbox_id_from_path path = trim_prefix path "/sandboxes/"

unfoldable pub id_before : String → String → String
id_before suffix path = trim_suffix (sandbox_id_from_path path) suffix

abbrev pub is_bad_id : String → Bool
is_bad_id id = id == "" || contains "/" id

abbrev pub Served : Type 0 → Type 0
Served W = Reply Payload × Manager × W

-- What the manager has answered, as a reply.
abbrev pub reply_of :
    {W : Type 0} {A : Type 0}
    → (Error → Reply Payload)
    → (A → Manager → Reply Payload)
    → Outcome W A
    → Served W
reply_of fault body (ok a, m, w) = (body a m, m, w)
reply_of fault body (err e, m, w) = (fault e, m, w)

-- The names in the state filter of a listing.
abbrev drop_empty : List String → List String
drop_empty [] = []
drop_empty (s ∷ ss) = if trim_space s == "" then drop_empty ss else trim_space s ∷ drop_empty ss

unfoldable pub parse_state_filter : String → List String
parse_state_filter raw = if raw == "" then [] else drop_empty (split_all "," raw)

unfoldable pub list_sandboxes : Manager → String → Request → Reply Payload
list_sandboxes m version r =
    let all =
      sort_listed (filter_states (parse_state_filter (first_value "state" r.query)) (list m)) in
    elim (list_page (first_value "nextToken" r.query) (first_value "limit" r.query) all) [
      | none ↦ write_error 400
      | some (shown, next) ↦ replied 200 (page (responses m version shown) next)
    ]
