-- ===== src/Sandbox/Labels.antt =====
-- internal/sandbox/labels.go: what a sandbox stamps on its container, and how a sandbox is read
-- back from a container after a restart.
use edvabe.Prelude.{String, Option, none, some, [], ◌∷◌, ◌==◌, if◌then◌else◌}
use edvabe.Prelude.Dict.{Dict, lookup, insert}
use edvabe.Text.{has_prefix, trim_prefix}
use edvabe.Runtime.{ContainerState, ManagedContainer, label_meta_prefix}
use edvabe.Sandbox.{Sandbox, State, PauseMode, unpaused, frozen, zero_time}

abbrev pub label_template_id : String
label_template_id = "edvabe.sandbox.template.id"

abbrev pub label_template_alias : String
label_template_alias = "edvabe.sandbox.template.alias"

abbrev pub label_token_envd : String
label_token_envd = "edvabe.sandbox.token.envd"

abbrev pub label_token_traffic : String
label_token_traffic = "edvabe.sandbox.token.traffic"

abbrev pub label_on_timeout : String
label_on_timeout = "edvabe.sandbox.ontimeout"

abbrev pub label_image_template_id : String
label_image_template_id = "edvabe.template.id"

unfoldable pub build_sandbox_labels : Sandbox → Dict String
build_sandbox_labels s =
    let labels : Dict String =
      insert label_token_traffic s.traffic_token
        (insert label_token_envd s.envd_token (insert label_template_id s.template_id [])) in
    let labels' : Dict String =
      if s.alias == "" then labels else insert label_template_alias s.alias labels in
    if s.on_timeout == "" then labels' else insert label_on_timeout s.on_timeout labels'

-- labels[k], with the empty string for a missing key
unfoldable pub read_label : String → Dict String → String
read_label k labels = elim (lookup k labels) [ none ↦ "" | some v ↦ v ]

abbrev pub nil_if_empty : Dict String → Option (Dict String)
nil_if_empty [] = none
nil_if_empty (e ∷ m) = some (e ∷ m)

-- The metadata loop; `out` is the map being filled.
unfoldable pub collect_metadata : Dict String → Dict String → Dict String
collect_metadata [] out = out
collect_metadata ((k, v) ∷ labels) out =
    collect_metadata labels (
      if has_prefix k label_meta_prefix
      then insert (trim_prefix k label_meta_prefix) v out
      else out)

unfoldable pub extract_metadata_from_labels : Dict String → Option (Dict String)
unfolding collect_metadata
extract_metadata_from_labels labels = nil_if_empty (collect_metadata labels [])

unfoldable pub collect_env_vars : Dict String → Dict String → Dict String
collect_env_vars [] out = out
collect_env_vars ((k, v) ∷ env) out =
    collect_env_vars env (if has_prefix k "EDVABE_" then out else insert k v out)

unfoldable pub extract_user_env_vars : Dict String → Option (Dict String)
unfolding collect_env_vars
extract_user_env_vars env = nil_if_empty (collect_env_vars env [])

abbrev pub state_of : ContainerState → State
state_of ContainerState.running = State.running
state_of ContainerState.paused = State.paused
state_of ContainerState.stopped = State.paused

abbrev pub mode_of : ContainerState → PauseMode
mode_of ContainerState.running = unpaused
mode_of ContainerState.paused = frozen
mode_of ContainerState.stopped = PauseMode.stopped

-- `paused_at` and `expires_at` are left at the zero instant for the caller to fill.
unfoldable pub sandbox_from_managed : ManagedContainer → Sandbox
sandbox_from_managed mc = record {
  id = mc.sandbox_id;
  template_id =
      if read_label label_template_id mc.labels == ""
      then read_label label_image_template_id mc.labels
      else read_label label_template_id mc.labels;
  alias = read_label label_template_alias mc.labels;
  container_id = mc.container_id;
  agent_host = mc.agent_host;
  agent_port = mc.agent_port;
  envd_token = read_label label_token_envd mc.labels;
  traffic_token = read_label label_token_traffic mc.labels;
  state = state_of mc.state;
  pause_mode = mode_of mc.state;
  paused_at = zero_time;
  on_timeout = read_label label_on_timeout mc.labels;
  metadata = extract_metadata_from_labels mc.labels;
  env_vars = extract_user_env_vars mc.env_vars;
  created_at = mc.created_at;
  expires_at = zero_time;
  cpu_count = mc.cpu_count;
  memory_mb = mc.memory_mb;
}
