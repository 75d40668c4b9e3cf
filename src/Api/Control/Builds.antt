-- ===== src/Api/Control/Builds.antt =====
-- internal/api/control/builds.go: the handlers of template builds over the template store and the
-- manager of builds, which calls back into the store. `decode` is what encoding/json makes of a body,
-- `now` what the manager's clock gives.
pub mod Starting
use Prim.Native.String.{String, ◌++◌ as ◌+++◌}
use edvabe.Prelude.{
  ℕ, ◌≡◌, Bool, true, false, Option, none, some, List, [], ◌∷◌, ◌==◌, ◌||◌, ◌&&◌, if◌then◌else◌,
}
use edvabe.Prelude.Int.{ℤ, pos, negsuc}
use edvabe.Prelude.Dict.{insert}
use edvabe.Prelude.Result.{Result, ok, err}
use edvabe.Template.{Template, BuildStatus, latest_ready}
use edvabe.Template.Store.{
  Store, StoreError, unknown, Files, find_template, resolve_name_or_id, update_meta,
}
use edvabe.Builder.Spec.{BuildSpec}
use edvabe.Builder.RingBuffer.{LogEntry}
use edvabe.Builder.Manager.{
  Manager, EnqueueSpec, RunningBuild, BuildError, Phase, enqueue, status, logs,
}
use edvabe.Builder.Manager.History.{System}
use edvabe.Text.{has_prefix, trim_prefix}
use edvabe.Text.Split.{cut_text, contains, trim_suffix}
use edvabe.Text.Decimal.{atoi, itoa}
use edvabe.Api.{Request, Reply, replied, no_body, write_error, page_not_found, first_value}

-- The template's and the build's identifiers, what follows the latter still attached.
unfoldable pub parse_build_path : String → String → String → Option (String × String)
parse_build_path path template_prefix separator =
    if has_prefix path template_prefix
    then elim (cut_text separator (trim_prefix path template_prefix)) [
      | none ↦ none
      | some (template_id, tail) ↦
          if template_id == "" || (contains "/" template_id || tail == "")
          then none
          else some (template_id, tail)
    ]
    else none

-- parseOffset and parseLimit, which read alike.
unfoldable pub parse_count : String → Option ℤ
parse_count raw =
    if raw == ""
    then some (pos 0)
    else elim (atoi raw) [ none ↦ none | some (negsuc n) ↦ none | some (pos n) ↦ some (pos n) ]

abbrev pub user_image : String → String
user_image id = "edvabe/user-" +++ (id +++ ":latest")

-- What `startBuild` writes to the template.
unfoldable pub with_commands : BuildSpec → Template → Template
with_commands req t = record t {
  start_cmd = if req.start_cmd == "" then t.start_cmd else req.start_cmd;
  ready_cmd = if req.ready_cmd == "" then t.ready_cmd else req.ready_cmd;
  image_tag = user_image t.id;
}

-- The image of the parent template, or the status of the refusal.
unfoldable pub parent_image_of : Store → String → Result ℕ String
parent_image_of s from_template =
    if from_template == "" then ok "" else elim (resolve_name_or_id s from_template) [
      | err _ ↦ err 400
      | ok parent ↦ elim (latest_ready parent.builds) [
        | none ↦ err 409
        | some _ ↦ ok (user_image parent.id)
      ]
    ]

-- The manager of builds with its goroutines, and the store as what its callback changes.
abbrev pub Server : Type 0 → Type 0
Server W = System (Store × W)

module _ {W : Type 0} (fs : Files W) (decode : String → Option BuildSpec) (now : ℤ) where
  -- The last step: the build is handed to the manager, which starts its goroutine.
  unfoldable pub hand_over : EnqueueSpec → Server W → Reply Unit × Server W
  hand_over req s = elim (enqueue req now s.manager) [
    | err _ ↦ (write_error 409, s)
    | ok m ↦ (
      no_body 202,
      record s { manager = m; threads = insert req.build_id (Phase.spawned req) s.threads },
    )
  ]

  -- With a template that is there and a body that decodes.
  unfoldable pub begin_build : Template → String → BuildSpec → Server W → Reply Unit × Server W
  begin_build tpl build_id req s =
      if req.from_image == "" && req.from_template == ""
      then (write_error 400, s)
      else elim (parent_image_of s.world.0 req.from_template) [
        | err code ↦ (write_error code, s)
        | ok parent_image ↦
            let (updated, store, w) =
              update_meta fs tpl.id (with_commands req) s.world.0 s.world.1 in
            let s' : Server W = record s { world = (store, w) } in
            elim updated [
              | err _ ↦ (write_error 500, s')
              | ok _ ↦
                  hand_over
                    (record {
                      template_id = tpl.id;
                      build_id = build_id;
                      spec = req;
                      parent_image = parent_image;
                    })
                    s'
            ]
      ]

  unfoldable pub start_build : String → String → Server W → Reply Unit × Server W
  start_build path body s = elim (parse_build_path path "/v2/templates/" "/builds/") [
    | none ↦ (page_not_found, s)
    | some (template_id, build_id) ↦ elim (find_template s.world.0 template_id) [
      | err unknown ↦ (write_error 404, s)
      | err _ ↦ (write_error 500, s)
      | ok tpl ↦ elim (decode body) [
        | none ↦ (write_error 400, s)
        | some req ↦ begin_build tpl build_id req s
      ]
    ]
  ]

-- The reason is there for a failed build only; the lines' messages are those of its entries.
pub record BuildStatusResponse : Type 0 where
  pub build_id : String
  pub template_id : String
  pub status : BuildStatus
  pub reason : Option String
  pub log_entries : List LogEntry

abbrev pub reason_of : RunningBuild → Option String
reason_of b = elim b.status [ BuildStatus.error ↦ some b.reason | _ ↦ none ]

-- A build of the template that the path names, or the refusal.
unfoldable pub build_of : {V : Type 0} → String → String → Manager V → Result ℕ RunningBuild
build_of template_id build_id m = elim (status build_id m) [
  | err BuildError.build_not_found ↦ err 404
  | err _ ↦ err 500
  | ok b ↦ if b.template_id == template_id then ok b else err 404
]

-- `none` is the panic of the ring buffer's loop.
unfoldable pub get_build_status :
    {V : Type 0} → Request → Manager V → Option (Reply BuildStatusResponse)
get_build_status r m = elim (parse_build_path r.path "/templates/" "/builds/") [
  | none ↦ some page_not_found
  | some (template_id, tail) ↦ elim (parse_count (first_value "logsOffset" r.query)) [
    | none ↦ some (write_error 400)
    | some offset ↦ elim (parse_count (first_value "limit" r.query)) [
      | none ↦ some (write_error 400)
      | some limit ↦
          let build_id = trim_suffix tail "/status" in
          elim (build_of template_id build_id m) [
            | err code ↦ some (write_error code)
            | ok b ↦ elim (logs build_id offset limit m) [
              | err _ ↦ some (write_error 500)
              | ok none ↦ none
              | ok (some (entries, _)) ↦ some (
                  replied 200 (record {
                    build_id = b.build_id;
                    template_id = b.template_id;
                    status = b.status;
                    reason = reason_of b;
                    log_entries = entries;
                  }))
            ]
          ]
    ]
  ]
]

-- The entries and X-Next-Cursor.
unfoldable pub get_build_logs :
    {V : Type 0} → Request → Manager V → Option (Reply (List LogEntry × String))
get_build_logs r m = elim (parse_build_path r.path "/templates/" "/builds/") [
  | none ↦ some page_not_found
  | some (template_id, tail) ↦
      let build_id = trim_suffix tail "/logs" in
      elim (build_of template_id build_id m) [
        | err code ↦ some (write_error code)
        | ok b ↦ elim (parse_count (first_value "cursor" r.query)) [
          | none ↦ some (write_error 400)
          | some offset ↦ elim (parse_count (first_value "limit" r.query)) [
            | none ↦ some (write_error 400)
            | some limit ↦ elim (logs build_id offset limit m) [
              | err _ ↦ some (write_error 500)
              | ok none ↦ none
              | ok (some (entries, next)) ↦ some (replied 200 (entries, itoa next))
            ]
          ]
        ]
      ]
]
