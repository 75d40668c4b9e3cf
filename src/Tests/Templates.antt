-- ===== src/Tests/Templates.antt =====
-- A store whose file can be written until the clock stands at 5.
use edvabe.Prelude.{
  ◌++◌, false, ℕ, suc, ◌≡◌, ◌≢◌, ◌⊎◌, ◌+++◌, refl, none, some, [], ◌∷◌, ltb, if◌then◌else◌, arith,
  eq_iff,
}
use edvabe.Prelude.Int.{pos}
use edvabe.Prelude.Dict.{lookup}
use edvabe.Prelude.Result.{ok, err}
use edvabe.Template.{Template, Build, BuildStatus, latest_ready}
use edvabe.Api.{replied}
use edvabe.Api.Control.Templates.{
  TemplateBuildRequest, TemplateBuildResponse, post_template, named_template, new_template_of,
  mint_build, waiting_build_of, alias_slice,
}
use edvabe.Api.Control.Templates.Creating.{post_template-waiting}
use edvabe.Prelude.Dict.{insert}
use edvabe.Template.Store.{
  Store, io, Files, NewTemplate, blank, flush, flushed, create_template, append_build,
  find_template, resolve_alias,
}
use edvabe.Template.Resolver.{resolve, resolve_template-alias}
use edvabe.Sandbox.Host.{Host}
use edvabe.Sandbox.Manager.{new_manager}
use edvabe.Sandbox.Manager.Create.{resolve_template}
use edvabe.Tests.Fixtures.{World, host, options, empty_world}
use edvabe.Template.Store.Keeps.{IsStore, StoreCall, store_after, store_after-IsStore}
use edvabe.Template.Store.Creation.{create_template-resolve, create_template-undone}

abbrev pub files : Files ℕ
files = record {
  read_file = λ path w. none;
  parse = λ text'. ok [];
  write_file = λ path ts w. (if ltb w 5 then ok tt else err "disk full", suc w);
  now = λ w. (pos w, suc w);
  new_template_id = λ w. ("tpl_1", w);
  new_build_id = λ w. ("bld_1", w);
}

abbrev other_files : Files ℕ
other_files = record files { new_template_id = λ w. ("tpl_2", w) }

abbrev empty_store : Store
empty_store = record { path = "templates.json"; templates = []; aliases = [] }

empty_store-IsStore : IsStore empty_store
unfolding lookup
empty_store-IsStore = record {
  named = λ k v e. cc;
  no_empty = refl;
  indexed = λ j a e. cc;
  owned = λ j a e. cc;
}

abbrev pub new_template : NewTemplate
new_template = record {
  name = "python";
  alias = "";
  tags = [];
  cpu_count = pos 2;
  memory_mb = pos 512;
}

not_in_use : lookup "tpl_1" empty_store.templates ≡ none
unfolding lookup
not_in_use = refl

store_after-IsStore_example :
    IsStore (store_after files (StoreCall.creates new_template) empty_store 0)
store_after-IsStore_example =
    store_after-IsStore files (StoreCall.creates new_template) empty_store 0 tt not_in_use
      empty_store-IsStore

abbrev created_template : Template
created_template = blank new_template "tpl_1" (pos 0)

created_ok : (create_template files new_template empty_store 0).0 ≡ ok created_template
unfolding create_template flushed flush lookup
created_ok = refl

create_template-resolve_example :
    let s' = (create_template files new_template empty_store 0).1 in
    (find_template s' "tpl_1" ≡ ok created_template)
    × (resolve_alias s' "python" ≡ ok created_template)
create_template-resolve_example =
    create_template-resolve files new_template empty_store 0 created_template created_ok (λ e. cc)

created_err : (create_template files new_template empty_store 9).0 ≡ err (io "disk full")
unfolding create_template flushed flush lookup
created_err = refl

create_template-undone_example :
    let s' = (create_template files new_template empty_store 9).1 in
    (lookup "tpl_1" s'.templates ≡ lookup "tpl_1" empty_store.templates)
    × (lookup "python" s'.aliases ≡ lookup "python" empty_store.aliases)
create_template-undone_example =
    create_template-undone files new_template empty_store 9 (io "disk full") not_in_use created_err
      "tpl_1" "python"

abbrev pub stored : Store
stored = record {
  path = "";
  templates = ("tpl_1", created_template) ∷ [];
  aliases = ("python", "tpl_1") ∷ [];
}

pub stored-IsStore : IsStore stored
unfolding lookup
stored-IsStore = record {
  named = λ k x e. ground (arith, e, eq_iff "tpl_1" k);
  no_empty = refl;
  indexed = λ j a e ne. ground (arith, e, eq_iff "tpl_1" j, eq_iff "python" a);
  owned = λ j a e. ground (arith, e, eq_iff "tpl_1" j, eq_iff "python" a);
}

abbrev store_host : Host World
store_host = record host { resolver = some (λ name w. resolve stored name) }

alias_known : lookup "python" stored.aliases ≡ some "tpl_1"
unfolding lookup
alias_known = refl

no_such_id : lookup "python" stored.templates ≡ none
unfolding lookup
no_such_id = refl

resolve_template-alias_example :
    let res = resolve_template store_host (new_manager options) "python" empty_world in
    (t : Template) × (lookup "tpl_1" stored.templates ≡ some t)
    × (t.alias ≡ "python")
    × (res.start_cmd ≡ t.start_cmd)
    × (res.ready_cmd ≡ t.ready_cmd)
    × (res.cpu_count ≡ t.cpu_count)
    × (res.memory_mb ≡ t.memory_mb)
    × (((t.image_tag ≢ "") × (res.image_tag ≡ t.image_tag))
        ⊎ ((t.image_tag ≡ "")
            × (b : Build) × (latest_ready t.builds ≡ some b)
            × (res.image_tag ≡ "edvabe/user-" +++ t.id +++ ":latest"))
        ⊎ ((t.image_tag ≡ "")
            × (latest_ready t.builds ≡ none)
            × (res.image_tag ≡ (new_manager options).base_image)))
resolve_template-alias_example =
    resolve_template-alias store_host (new_manager options) empty_world stored "python" "tpl_1" refl
      stored-IsStore alias_known no_such_id

-- The name of a template that is there is asked for again.
abbrev python_request : TemplateBuildRequest
python_request = record { name = "python"; tags = []; cpu_count = pos 1; memory_mb = pos 256 }

abbrev python_response : TemplateBuildResponse
python_response = record {
  template_id = "tpl_1";
  build_id = "bld_1";
  names = "python" ∷ [];
  tags = [];
  aliases = "python" ∷ [];
  is_public = false;
}

another_id : lookup (other_files.new_template_id 0).0 stored.templates ≡ none
unfolding lookup
another_id = refl

answered_201 :
    (post_template other_files (λ body. some python_request) "{}" stored 0).0
    ≡ replied 201 python_response
unfolding post_template named_template new_template_of mint_build waiting_build_of create_template
    append_build flushed flush lookup insert resolve_alias find_template alias_slice
answered_201 = refl

post_template-waiting_example :
    let s' = (post_template other_files (λ body. some python_request) "{}" stored 0).1 in
    (t : Template) × (b : Build) × (resolve_alias s' "python"
      ≡ ok (record t { builds = t.builds ++ (b ∷ []) }))
    × (t.id ≡ "tpl_1")
    × (b.id ≡ "bld_1")
    × (b.status ≡ BuildStatus.waiting)
    × ((resolve_alias stored "python" ≡ ok t)
        ⊎ ((lookup "python" stored.aliases ≡ none) × (t.alias ≡ "python") × (t.builds ≡ [])))
post_template-waiting_example =
    post_template-waiting other_files (λ body. some python_request) "{}" stored 0 python_request 201
      python_response stored-IsStore another_id refl answered_201
