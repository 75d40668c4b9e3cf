-- ===== src/Template/Store.antt =====
-- internal/template/store.go: the registry of templates with its index of aliases, over a world `W`
-- of files, clock and identifiers. The mutex is not modelled: a call is one step. Values are not
-- shared, so `clone` has no part here.
pub mod Index
pub mod Keeps
pub mod Creation
pub mod Listing
use edvabe.Prelude.{
  String, Bool, true, false, Option, none, some, List, [], ◌∷◌, ◌++◌, ◌==◌, not, ◌&&◌,
  if◌then◌else◌,
}
use edvabe.Prelude.Int.{ℤ, pos, ltb_ℤ}
use edvabe.Prelude.Dict.{Dict, lookup, insert, delete}
use edvabe.Prelude.Result.{Result, ok, err}
use edvabe.Template.{Template, Build, BuildStatus}

-- `io` has the fault of a file; `panicked` is a nil pointer that is dereferenced.
pub data StoreError : Type 0 where
  unknown alias_taken panicked : StoreError
  io : String → StoreError

-- `read_file` gives `none` for a file that does not exist. `write_file` marshals the templates,
-- makes the directory, writes a part file and renames it. A null in the file parses to `none`.
pub record Files (W : Type 0) : Type 0 where
  pub read_file : String → W → Option (Result String String)
  pub parse : String → Result String (List (Option Template))
  pub write_file : String → List Template → W → Result String (Unit {0}) × W
  pub now : W → ℤ × W
  pub new_template_id : W → String × W
  pub new_build_id : W → String × W

pub record Store : Type 0 where
  pub path : String
  pub templates : Dict Template
  pub aliases : Dict String

unfoldable pub index : String → String → Dict String → Dict String
index alias id aliases = if alias == "" then aliases else insert alias id aliases

unfoldable pub unindex : String → Dict String → Dict String
unindex alias aliases = if alias == "" then aliases else delete alias aliases

-- The alias goes if it is this template's.
unfoldable pub release : String → String → Dict String → Dict String
release alias id aliases =
    let mine : Bool = elim (lookup alias aliases) [ none ↦ false | some owner ↦ owner == id ] in
    if not (alias == "") && mine then delete alias aliases else aliases

-- The alias is another template's.
unfoldable pub is_taken : String → String → Dict String → Bool
is_taken alias id aliases =
    let other : Bool = elim (lookup alias aliases) [
      | none ↦ false
      | some owner ↦ not (owner == id)
    ] in
    not (alias == "") && other

-- The loop of `load`.
unfoldable pub load_all : List (Option Template) → Store → Store
load_all [] s = s
load_all (none ∷ ts) s = load_all ts s
load_all (some t ∷ ts) s =
    let skipped = load_all ts s in
    let added = load_all ts (record s {
      templates = insert t.id t s.templates;
      aliases = index t.alias t.id s.aliases;
    }) in
    if t.id == "" then skipped else added

-- `sort.Slice` by `CreatedAt`.
unfoldable pub insert_by_creation : Template → List Template → List Template
insert_by_creation t [] = t ∷ []
insert_by_creation t (u ∷ us) =
    let later = insert_by_creation t us in
    if ltb_ℤ u.created_at t.created_at then u ∷ later else t ∷ u ∷ us

unfoldable pub sorted_templates : Dict Template → List Template
sorted_templates [] = []
sorted_templates ((id, t) ∷ rest) = insert_by_creation t (sorted_templates rest)

-- The first build with the identifier, changed.
unfoldable pub change_build : String → (Build → Build) → List Build → Option (List Build)
change_build id f [] = none
change_build id f (b ∷ bs) =
    let later = change_build id f bs in
    if b.id == id then some (f b ∷ bs) else elim later [ none ↦ none | some bs' ↦ some (b ∷ bs') ]

pub record SeedOptions : Type 0 where
  pub alias : String
  pub image_tag : String
  pub start_cmd : String
  pub ready_cmd : String

pub record NewTemplate : Type 0 where
  pub name : String
  pub alias : String
  pub tags : List String
  pub cpu_count : ℤ
  pub memory_mb : ℤ

abbrev pub alias_or_name : NewTemplate → String
alias_or_name opts = if opts.alias == "" then opts.name else opts.alias

abbrev pub seeded : SeedOptions → String → ℤ → String → ℤ → Template
seeded opts id created build_id started = record {
  id = id;
  name = opts.alias;
  tags = [];
  alias = opts.alias;
  cpu_count = pos 0;
  memory_mb = pos 0;
  start_cmd = opts.start_cmd;
  ready_cmd = opts.ready_cmd;
  image_tag = opts.image_tag;
  is_public = false;
  created_at = created;
  builds =
      record {
        id = build_id;
        status = BuildStatus.ready;
        reason = "";
        started_at = started;
        finished_at = none;
      }
      ∷ [];
}

abbrev pub blank : NewTemplate → String → ℤ → Template
blank opts id now = record {
  id = id;
  name = opts.name;
  tags = opts.tags;
  alias = alias_or_name opts;
  cpu_count = opts.cpu_count;
  memory_mb = opts.memory_mb;
  start_cmd = "";
  ready_cmd = "";
  image_tag = "";
  is_public = false;
  created_at = now;
  builds = [];
}

unfoldable pub find_template : Store → String → Result StoreError Template
find_template s id = elim (lookup id s.templates) [ none ↦ err unknown | some t ↦ ok t ]

unfoldable pub resolve_alias : Store → String → Result StoreError Template
unfolding find_template
resolve_alias s alias = elim (lookup alias s.aliases) [
  | none ↦ err unknown
  | some id ↦ find_template s id
]

unfoldable pub resolve_name_or_id : Store → String → Result StoreError Template
unfolding resolve_alias
resolve_name_or_id s name =
    if name == ""
    then err unknown
    else elim (lookup name s.templates) [ some t ↦ ok t | none ↦ resolve_alias s name ]

abbrev pub Changed : Type 0 → Type 0 → Type 0
Changed W A = Result StoreError A × Store × W

module _ {W : Type 0} (fs : Files W) where
  unfoldable pub load : Store → W → Result StoreError Store
  load s w = if s.path == "" then ok s else elim (fs.read_file s.path w) [
    | none ↦ ok s
    | some (err e) ↦ err (io e)
    | some (ok data') ↦
        if data' == ""
        then ok s
        else elim (fs.parse data') [ err e ↦ err (io e) | ok ts ↦ ok (load_all ts s) ]
  ]

  unfoldable pub new_store : String → W → Result StoreError Store
  new_store path w = load (record { path = path; templates = []; aliases = [] }) w

  unfoldable pub flush : Store → W → Result String (Unit {0}) × W
  flush s w =
      if s.path == "" then (ok tt, w) else fs.write_file s.path (sorted_templates s.templates) w

  -- A flush whose fault is returned with the store as it has become.
  unfoldable pub flushed : {A : Type 0} → A → Store → Store → W → Changed W A
  flushed a s undone w =
      let (r, w') = flush s w in elim r [ ok _ ↦ (ok a, s, w') | err e ↦ (err (io e), undone, w') ]

  unfoldable pub seed_built_in : SeedOptions → Store → W → Changed W Unit
  seed_built_in opts s w =
      let (id, w1) = fs.new_template_id w in
      let (created, w2) = fs.now w1 in
      let (build_id, w3) = fs.new_build_id w2 in
      let (started, w4) = fs.now w3 in
      let t = seeded opts id created build_id started in
      let s' : Store = record s {
        templates = insert id t s.templates;
        aliases = insert opts.alias id s.aliases;
      } in
      elim (lookup opts.alias s.aliases) [
        | none ↦ flushed tt s' s' w4
        | some old ↦ elim (lookup old s.templates) [
          | none ↦ (err panicked, s, w)
          | some u ↦
              let u' : Template = record u {
                image_tag = opts.image_tag;
                start_cmd = opts.start_cmd;
                ready_cmd = opts.ready_cmd;
              } in
              let s1 : Store = record s { templates = insert old u' s.templates } in
              flushed tt s1 s1 w
        ]
      ]

  unfoldable pub create_template : NewTemplate → Store → W → Changed W Template
  create_template opts s w =
      let alias = alias_or_name opts in
      let (id, w1) = fs.new_template_id w in
      let (now, w2) = fs.now w1 in
      let t = blank opts id now in
      let s' : Store = record s {
        templates = insert id t s.templates;
        aliases = index alias id s.aliases;
      } in
      let undone : Store = record s {
        templates = delete id s'.templates;
        aliases = unindex alias s'.aliases;
      } in
      let added = flushed t s' undone w2 in
      if alias == ""
      then added
      else elim (lookup alias s.aliases) [ some _ ↦ (err alias_taken, s, w) | none ↦ added ]

  unfoldable pub delete_template : String → Store → W → Changed W Unit
  delete_template id s w = elim (lookup id s.templates) [
    | none ↦ (err unknown, s, w)
    | some t ↦
        let s' : Store = record s {
          templates = delete id s.templates;
          aliases = release t.alias id s.aliases;
        } in
        let restored : Store = record s' {
          templates = insert id t s'.templates;
          aliases = index t.alias id s'.aliases;
        } in
        flushed tt s' restored w
  ]

  -- `mutator` leaves the identifier alone, as its caller promises.
  unfoldable pub update_meta : String → (Template → Template) → Store → W → Changed W Template
  update_meta id mutator s w = elim (lookup id s.templates) [
    | none ↦ (err unknown, s, w)
    | some t ↦
        let t' = mutator t in
        let back : Template = record t' { alias = t.alias } in
        let same : Store = record s { templates = insert id t' s.templates } in
        let refused : Store = record s { templates = insert id back s.templates } in
        let moved : Store = record same {
          aliases = unindex t.alias (index t'.alias id s.aliases);
        } in
        if t'.alias == t.alias
        then flushed t' same same w
        else if is_taken t'.alias id s.aliases
        then (err alias_taken, refused, w)
        else flushed t' moved moved w
  ]

  unfoldable pub append_build : String → Build → Store → W → Changed W Build
  append_build id build s w = elim (lookup id s.templates) [
    | none ↦ (err unknown, s, w)
    | some t ↦
        let t' : Template = record t { builds = t.builds ++ (build ∷ []) } in
        flushed build (record s { templates = insert id t' s.templates }) s w
  ]

  unfoldable pub update_build : String → String → (Build → Build) → Store → W → Changed W Unit
  update_build id build_id mutator s w = elim (lookup id s.templates) [
    | none ↦ (err unknown, s, w)
    | some t ↦ elim (change_build build_id mutator t.builds) [
      | none ↦ (err unknown, s, w)
      | some bs ↦
          let s' : Store = record s {
            templates = insert id (record t { builds = bs }) s.templates;
          } in
          flushed tt s' s' w
    ]
  ]
