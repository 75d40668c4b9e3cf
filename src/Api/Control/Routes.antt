-- ===== src/Api/Control/Routes.antt =====
-- internal/api/control/sandboxes.go: one function per handler; router.go: which one a request
-- reaches. A handler gives its reply with the manager and the world after it.
use edvabe.Prelude.{String, Bool, Option, none, some, List, [], ◌∷◌, ◌==◌, ◌&&◌, if◌then◌else◌}
use edvabe.Prelude.Int.{ℤ, pos, leb_ℤ, ltb_ℤ}
use edvabe.Prelude.Dict.{Dict, insert}
use edvabe.Prelude.Result.{Result, ok, err}
use edvabe.Runtime.{Fault}
use edvabe.Sandbox.{default_timeout}
use edvabe.Sandbox.Host.{Host}
use edvabe.Sandbox.Manager.{Manager, get, destroy, set_timeout, connect, pause}
use edvabe.Sandbox.Manager.Create.{CreateOptions, create}
use edvabe.Sandbox.Manager.Snapshot.{snapshot}
use edvabe.Text.{has_prefix, trim_prefix}
use edvabe.Text.Split.{split_all, trim_space, has_suffix, trim_suffix}
use edvabe.Api.{Request, replied, no_body, write_error, page_not_found, first_value}
use edvabe.Api.Control.Sandboxes.{
  NewSandboxRequest, Json, Stats, sandbox_body, detail, snapshot_body, no_logs, metrics,
  batch_metrics, Served, reply_of, seconds, resolve_on_timeout, to_sandbox_response,
  to_sandbox_detail, write_manager_error, found_or_fault, sandbox_id_from_path, id_before,
  is_bad_id, list_sandboxes,
}

unfoldable pub options_of_request : NewSandboxRequest → CreateOptions
options_of_request req = record {
  template_id = req.template_id;
  alias = req.alias;
  metadata = req.metadata;
  env_vars = req.env_vars;
  timeout = seconds req.timeout;
  on_timeout = resolve_on_timeout req;
  cpu_count = req.cpu_count;
  memory_mb = req.memory_mb;
}

-- What a body that need not be there decodes to; `none` is one that does not decode. A body without
-- a positive length is not looked at.
abbrev pub optional : {A : Type 0} → A → (String → Option A) → ℤ → String → Option A
optional none_given decode length body =
    if ltb_ℤ (pos 0) length then decode body else some none_given

pub data Endpoint : Type 0 where
  post_sandboxes list_all batch_of_metrics one_metrics logs_of get_one delete_one post_timeout
        post_connect post_pause post_resume post_snapshots post_refreshes put_network nowhere :
      Endpoint

abbrev is_request : String → String → Request → Bool
is_request method path r = r.method == method && r.path == path

abbrev ends_with : String → String → Request → Bool
ends_with method suffix r = r.method == method && has_suffix r.path suffix

-- The first case of the router that fits.
unfoldable pub endpoint : Request → Endpoint
endpoint r =
    if is_request "POST" "/sandboxes" r
    then post_sandboxes
    else if is_request "GET" "/v2/sandboxes" r
    then list_all
    else if is_request "GET" "/sandboxes/metrics" r
    then batch_of_metrics
    else if ends_with "GET" "/metrics" r && has_prefix r.path "/sandboxes/"
    then one_metrics
    else if ends_with "GET" "/logs" r && has_prefix r.path "/v2/sandboxes/"
    then logs_of
    else if r.method == "GET" && has_prefix r.path "/sandboxes/"
    then get_one
    else if r.method == "DELETE" && has_prefix r.path "/sandboxes/"
    then delete_one
    else if ends_with "POST" "/timeout" r
    then post_timeout
    else if ends_with "POST" "/connect" r
    then post_connect
    else if ends_with "POST" "/pause" r
    then post_pause
    else if ends_with "POST" "/resume" r
    then post_resume
    else if ends_with "POST" "/snapshots" r
    then post_snapshots
    else if ends_with "POST" "/refreshes" r
    then post_refreshes
    else if ends_with "PUT" "/network" r
    then put_network
    else nowhere

module _ {W : Type 0} (h : Host W) (version : String) (json : Json)
    (stats : String → W → Result Fault Stats × W) (format_time : ℤ → String) where
  unfoldable pub create_sandbox : String → Manager → W → Served W
  create_sandbox body m w = elim (json.decode_new_sandbox body) [
    | none ↦ (write_error 400, m, w)
    | some req ↦
        reply_of (λ e. write_error 500)
          (λ s m'. replied 201 (sandbox_body (to_sandbox_response m' version s)))
          (create h (options_of_request req) m w)
  ]

  unfoldable pub get_sandbox : String → Manager → W → Served W
  get_sandbox path m w =
      let id = sandbox_id_from_path path in
      let (measured, w') = stats id w in
      if is_bad_id id then (page_not_found, m, w) else elim (get m id) [
        | err e ↦ (found_or_fault e, m, w)
        | ok s ↦ elim measured [
          | err e ↦ (write_error 500, m, w')
          | ok st ↦ (replied 200 (detail (to_sandbox_detail m version s st)), m, w')
        ]
      ]

  unfoldable pub delete_sandbox : String → Manager → W → Served W
  delete_sandbox path m w =
      let id = sandbox_id_from_path path in
      let done = reply_of found_or_fault (λ _ _. no_body 204) (destroy h id m w) in
      if is_bad_id id then (page_not_found, m, w) else done

  -- The manager's call on a good identifier with a body that decodes.
  unfoldable pub set_sandbox_timeout : String → String → Manager → W → Served W
  set_sandbox_timeout path body m w =
      let id = id_before "/timeout" path in
      if is_bad_id id then (page_not_found, m, w) else elim (json.decode_timeout body) [
        | none ↦ (write_error 400, m, w)
        | some t ↦
            reply_of write_manager_error (λ _ _. no_body 204) (set_timeout h id (seconds t) m w)
      ]

  unfoldable pub connected : String → ℤ → Manager → W → Served W
  connected id t m w =
      reply_of write_manager_error
        (λ s m'. replied 200 (sandbox_body (to_sandbox_response m' version s))) (connect h id t m w)

  unfoldable pub connect_sandbox : String → String → Manager → W → Served W
  connect_sandbox path body m w =
      let id = id_before "/connect" path in
      if is_bad_id id then (page_not_found, m, w) else elim (json.decode_timeout body) [
        | none ↦ (write_error 400, m, w)
        | some t ↦ connected id (seconds t) m w
      ]

  unfoldable pub resume_sandbox : String → ℤ → String → Manager → W → Served W
  resume_sandbox path length body m w =
      let id = id_before "/resume" path in
      if is_bad_id id
      then (page_not_found, m, w)
      else elim (optional (pos 0) json.decode_timeout length body) [
        | none ↦ (write_error 400, m, w)
        | some t ↦
            connected id (if leb_ℤ (seconds t) (pos 0) then default_timeout else seconds t) m w
      ]

  unfoldable pub pause_sandbox : String → Manager → W → Served W
  pause_sandbox path m w =
      let id = id_before "/pause" path in
      let done = reply_of write_manager_error (λ _ _. no_body 204) (pause h id m w) in
      if is_bad_id id then (page_not_found, m, w) else done

  unfoldable pub snapshot_sandbox : String → ℤ → String → Manager → W → Served W
  snapshot_sandbox path length body m w =
      let id = id_before "/snapshots" path in
      if is_bad_id id
      then (page_not_found, m, w)
      else elim (optional "" json.decode_name length body) [
        | none ↦ (write_error 400, m, w)
        | some name ↦
            reply_of write_manager_error (λ info _. replied 201 (snapshot_body info))
              (snapshot h format_time id name m w)
      ]

  -- What is done when the sandbox is there, for handlers that look no further.
  unfoldable pub when_known : String → Manager → W → Served W → Served W
  when_known id m w next =
      if is_bad_id id
      then (page_not_found, m, w)
      else elim (get m id) [ err e ↦ (write_manager_error e, m, w) | ok s ↦ next ]

  unfoldable pub update_sandbox_network : String → Manager → W → Served W
  update_sandbox_network path m w = when_known (id_before "/network" path) m w (no_body 204, m, w)

  unfoldable pub get_sandbox_logs : String → Manager → W → Served W
  get_sandbox_logs path m w =
      when_known (trim_suffix (trim_prefix path "/v2/sandboxes/") "/logs") m w
        (replied 200 no_logs, m, w)

  abbrev measured_of : Result Fault Stats → List Stats
  measured_of (ok st) = st ∷ []
  measured_of (err e) = []

  unfoldable pub get_sandbox_metrics : String → Manager → W → Served W
  get_sandbox_metrics path m w =
      let id = id_before "/metrics" path in
      let (measured, w') = stats id w in
      when_known id m w (replied 200 (metrics (measured_of measured)), m, w')

  -- The loop over the identifiers asked for.
  unfoldable pub batch : List String → Manager → Dict (List Stats) → W → Dict (List Stats) × W
  batch [] m result w = (result, w)
  batch (raw ∷ ids) m result w =
      let id = trim_space raw in
      let (measured, w') = stats id w in
      let skipped = batch ids m result w in
      let unknown = batch ids m (insert id [] result) w in
      let known = batch ids m (insert id (measured_of measured) result) w' in
      if id == "" then skipped else elim (get m id) [ err _ ↦ unknown | ok _ ↦ known ]

  unfoldable pub get_batch_sandbox_metrics : Request → Manager → W → Served W
  get_batch_sandbox_metrics r m w =
      let (result, w') = batch (split_all "," (first_value "sandbox_ids" r.query)) m [] w in
      (replied 200 (batch_metrics result), m, w')

  -- A body that does not decode counts as no duration.
  unfoldable pub refresh_sandbox : String → ℤ → String → Manager → W → Served W
  refresh_sandbox path length body m w =
      let id = id_before "/refreshes" path in
      let duration : ℤ = elim (optional (pos 0) json.decode_duration length body) [
        | none ↦ pos 0
        | some d ↦ d
      ] in
      let done =
        reply_of write_manager_error (λ _ _. no_body 204)
          (set_timeout h id (seconds duration) m w) in
      if is_bad_id id
      then (page_not_found, m, w)
      else if ltb_ℤ (pos 0) duration
      then done
      else (no_body 204, m, w)

  unfoldable pub handle : Endpoint → Request → Manager → W → Served W
  handle post_sandboxes r m w = create_sandbox r.body m w
  handle list_all r m w = (list_sandboxes m version r, m, w)
  handle batch_of_metrics r m w = get_batch_sandbox_metrics r m w
  handle one_metrics r m w = get_sandbox_metrics r.path m w
  handle logs_of r m w = get_sandbox_logs r.path m w
  handle get_one r m w = get_sandbox r.path m w
  handle delete_one r m w = delete_sandbox r.path m w
  handle post_timeout r m w = set_sandbox_timeout r.path r.body m w
  handle post_connect r m w = connect_sandbox r.path r.body m w
  handle post_pause r m w = pause_sandbox r.path m w
  handle post_resume r m w = resume_sandbox r.path r.content_length r.body m w
  handle post_snapshots r m w = snapshot_sandbox r.path r.content_length r.body m w
  handle post_refreshes r m w = refresh_sandbox r.path r.content_length r.body m w
  handle put_network r m w = update_sandbox_network r.path m w
  handle nowhere r m w = (page_not_found, m, w)

  -- A request that the outer switch of the router has taken for one about sandboxes, by its path; its
  -- key is looked at first.
  unfoldable pub serve : Request → Manager → W → Served W
  serve r m w =
      if first_value "X-Api-Key" r.headers == ""
      then (write_error 401, m, w)
      else handle (endpoint r) r m w
