-- ===== src/Api/Control/Templates.antt =====
-- internal/api/control/templates.go: the handlers of templates over the template store. `decode` is
-- what encoding/json makes of a body. Of the build that `createTemplate` makes, the identifier and the
-- instant come from the store's world.
pub mod Creating
use Prim.Native.String.{String}
use edvabe.Prelude.{
  ℕ, Bool, true, false, Option, none, some, List, [], ◌∷◌, ◌==◌, ◌||◌, if◌then◌else◌, map,
}
use edvabe.Prelude.Int.{ℤ, pos, ltb_ℤ}
use edvabe.Prelude.Result.{Result, ok, err}
use edvabe.Template.{Template, Build, BuildStatus}
use edvabe.Template.Store.{
  Store, StoreError, unknown, alias_taken, Files, NewTemplate, Changed, create_template,
  resolve_alias, resolve_name_or_id, delete_template, update_meta, append_build,
}
use edvabe.Template.Store.Listing.{list_of}
use edvabe.Text.{trim_prefix}
use edvabe.Text.Split.{contains}
use edvabe.Api.{Reply, replied, no_body, write_error, page_not_found}

pub record TemplateBuildRequest : Type 0 where
  pub name : String
  pub tags : List String
  pub cpu_count : ℤ
  pub memory_mb : ℤ

pub record TemplateBuildResponse : Type 0 where
  pub template_id : String
  pub build_id : String
  pub names : List String
  pub tags : List String
  pub aliases : List String
  pub is_public : Bool

pub record TemplateListItem : Type 0 where
  pub template_id : String
  pub name : String
  pub alias : String
  pub aliases : List String
  pub tags : List String
  pub cpu_count : ℤ
  pub memory_mb : ℤ
  pub is_public : Bool
  pub created_at : ℤ
  pub updated_at : ℤ

-- The summaries of the builds have all the fields of the builds.
pub record TemplateWithBuilds : Type 0 where
  pub item : TemplateListItem
  pub builds : List Build

pub record TemplateAliasResponse : Type 0 where
  pub template_id : String
  pub is_public : Bool

-- A field that is not there is `none`.
pub record TemplateUpdateRequest : Type 0 where
  pub is_public : Option Bool
  pub tags : Option (List String)

unfoldable pub template_id_from_path : String → String → String
template_id_from_path path prefix =
    let trimmed = trim_prefix path prefix in
    if trimmed == "" || contains "/" trimmed then "" else trimmed

unfoldable pub alias_slice : Template → List String
alias_slice t = if t.alias == "" then [] else t.alias ∷ []

abbrev pub last_of : List Build → Option Build
last_of [] = none
last_of (b ∷ []) = some b
last_of (b ∷ c ∷ bs) = last_of (c ∷ bs)

-- The end of the last build or, failing that, its start, if it lies after the creation.
unfoldable pub updated_at : Template → ℤ
updated_at t = elim (last_of t.builds) [
  | none ↦ t.created_at
  | some b ↦
      let by_start = if ltb_ℤ t.created_at b.started_at then b.started_at else t.created_at in
      elim b.finished_at [ none ↦ by_start | some f ↦ if ltb_ℤ t.created_at f then f else by_start ]
]

unfoldable pub to_template_list_item : Template → TemplateListItem
to_template_list_item t = record {
  template_id = t.id;
  name = t.name;
  alias = t.alias;
  aliases = alias_slice t;
  tags = t.tags;
  cpu_count = t.cpu_count;
  memory_mb = t.memory_mb;
  is_public = t.is_public;
  created_at = t.created_at;
  updated_at = updated_at t;
}

unfoldable pub to_template_with_builds : Template → TemplateWithBuilds
to_template_with_builds t = record { item = to_template_list_item t; builds = t.builds }

unfoldable pub new_template_of : TemplateBuildRequest → NewTemplate
new_template_of req = record {
  name = req.name;
  alias = "";
  tags = req.tags;
  cpu_count = req.cpu_count;
  memory_mb = req.memory_mb;
}

unfoldable pub waiting_build_of : String → ℤ → Build
waiting_build_of id now = record {
  id = id;
  status = BuildStatus.waiting;
  reason = "";
  started_at = now;
  finished_at = none;
}

unfoldable pub updated_by : TemplateUpdateRequest → Template → Template
updated_by req t = record t {
  is_public = elim req.is_public [ none ↦ t.is_public | some p ↦ p ];
  tags = elim req.tags [ none ↦ t.tags | some ts ↦ ts ];
}

-- The status of an error of the store, where a missing template is told apart.
unfoldable pub status_of_store : StoreError → ℕ
status_of_store unknown = 404
status_of_store e = 500

unfoldable pub list_templates : Store → Reply (List TemplateListItem)
list_templates s = replied 200 (map to_template_list_item (list_of s))

unfoldable pub get_template : String → Store → Reply TemplateWithBuilds
get_template path s =
    let id = template_id_from_path path "/templates/" in
    if id == "" then page_not_found else elim (resolve_name_or_id s id) [
      | err e ↦ write_error (status_of_store e)
      | ok t ↦ replied 200 (to_template_with_builds t)
    ]

unfoldable pub resolve_alias_of : String → Store → Reply TemplateAliasResponse
resolve_alias_of path s =
    let alias = trim_prefix path "/templates/aliases/" in
    if alias == "" || contains "/" alias then page_not_found else elim (resolve_alias s alias) [
      | err e ↦ write_error (status_of_store e)
      | ok t ↦ replied 200 (record { template_id = t.id; is_public = t.is_public })
    ]

module _ {W : Type 0} (fs : Files W) where
  -- The template that a name stands for, made if there is none, or the status of the refusal.
  unfoldable pub named_template : TemplateBuildRequest → Store → W → Result ℕ Template × Store × W
  named_template req s w =
      let (made, s', w') = create_template fs (new_template_of req) s w in
      elim made [
        | ok t ↦ (ok t, s', w')
        | err alias_taken ↦ elim (resolve_alias s' req.name) [
          | err _ ↦ (err 409, s', w')
          | ok t ↦ (ok t, s', w')
        ]
        | err _ ↦ (err 500, s', w')
      ]

  -- The build is made known before the reply.
  unfoldable pub mint_build : Template → Store → W → Reply TemplateBuildResponse × Store × W
  mint_build t s w =
      let (build_id, w1) = fs.new_build_id w in
      let (now, w2) = fs.now w1 in
      let (added, s', w') = append_build fs t.id (waiting_build_of build_id now) s w2 in
      elim added [
        | err _ ↦ (write_error 500, s', w')
        | ok _ ↦ (
          replied 201 (record {
            template_id = t.id;
            build_id = build_id;
            names = t.name ∷ [];
            tags = t.tags;
            aliases = alias_slice t;
            is_public = t.is_public;
          }),
          s',
          w',
        )
      ]

  unfoldable pub post_template :
      (String → Option TemplateBuildRequest)
      → String
      → Store
      → W
      → Reply TemplateBuildResponse × Store × W
  post_template decode body s w = elim (decode body) [
    | none ↦ (write_error 400, s, w)
    | some req ↦
        let (found, s', w') = named_template req s w in
        let minted = λ (t : Template). mint_build t s' w' in
        if req.name == ""
        then (write_error 400, s, w)
        else elim found [ err code ↦ (write_error code, s', w') | ok t ↦ minted t ]
  ]

  unfoldable pub remove_template : String → Store → W → Reply Unit × Store × W
  remove_template path s w =
      let id = template_id_from_path path "/templates/" in
      if id == "" then (page_not_found, s, w) else elim (resolve_name_or_id s id) [
        | err e ↦ (write_error (status_of_store e), s, w)
        | ok t ↦
            let (r, s', w') = delete_template fs t.id s w in
            elim r [ err _ ↦ (write_error 500, s', w') | ok _ ↦ (no_body 204, s', w') ]
      ]

  unfoldable pub patch_template :
      (String → Option TemplateUpdateRequest)
      → String
      → String
      → Store
      → W
      → Reply TemplateListItem × Store × W
  patch_template decode path body s w =
      let id = template_id_from_path path "/v2/templates/" in
      if id == "" then (page_not_found, s, w) else elim (decode body) [
        | none ↦ (write_error 400, s, w)
        | some req ↦ elim (resolve_name_or_id s id) [
          | err e ↦ (write_error (status_of_store e), s, w)
          | ok t ↦
              let (r, s', w') = update_meta fs t.id (updated_by req) s w in
              elim r [
                | err _ ↦ (write_error 500, s', w')
                | ok u ↦ (replied 200 (to_template_list_item u), s', w')
              ]
        ]
      ]
