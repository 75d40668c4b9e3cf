-- ===== src/Template/Resolver.antt =====
-- internal/template/resolver.go: the store as the template resolver of the sandbox manager.
use text.Mathlib.TextLemmas.{nil≢cons, append-ne-nil_of_right_ne-nil}
use edvabe.Prelude.{
  Option-cases, Bool-cases, inl, inr, ◌⊎◌, refl, sym, ap, ◌≢◌, String, ◌+++◌, ◌≡◌, none, some, ◌==◌,
  eq_iff, if◌then◌else◌, arith,
}
use edvabe.Prelude.Dict.{lookup}
use edvabe.Prelude.Result.{Result, ok, err}
use edvabe.Runtime.{Fault}
use edvabe.Sandbox.Host.{Host, TemplateResolution}
use edvabe.Sandbox.Manager.{Manager, or_default_text}
use edvabe.Sandbox.Manager.Create.{resolve_template}
use edvabe.Template.{Template, Build, latest_ready}
use edvabe.Template.Store.{Store, find_template, resolve_alias, resolve_name_or_id}
use edvabe.Template.Store.Keeps.{IsStore}

-- The stored tag; without one, the tag of the build if one is ready; or none.
unfoldable pub image_tag_of : Template → String
image_tag_of t =
    if t.image_tag == ""
    then elim (latest_ready t.builds) [ none ↦ "" | some _ ↦ "edvabe/user-" +++ t.id +++ ":latest" ]
    else t.image_tag

abbrev pub resolution_of : Template → TemplateResolution
resolution_of t = record {
  image_tag = image_tag_of t;
  start_cmd = t.start_cmd;
  ready_cmd = t.ready_cmd;
  cpu_count = t.cpu_count;
  memory_mb = t.memory_mb;
}

-- A lookup in the store fails only for a template that it does not know. The store is never nil.
unfoldable pub resolve : Store → String → Result Fault TemplateResolution
resolve s name = elim (resolve_name_or_id s name) [
  | err _ ↦ err "sandbox: template not found"
  | ok t ↦ ok (resolution_of t)
]

default_image-ne_empty : (id : String) → "edvabe/user-" +++ id +++ ":latest" ≢ ""
default_image-ne_empty id e =
    append-ne-nil_of_right_ne-nil _ (append-ne-nil_of_right_ne-nil id (λ c. nil≢cons (sym c))) e

image_tag_of-default :
    (base : String) (t : Template)
    → let tag = or_default_text (image_tag_of t) base in
      ((t.image_tag ≢ "") × (tag ≡ t.image_tag))
      ⊎ ((t.image_tag ≡ "")
          × (b : Build) × (latest_ready t.builds ≡ some b)
          × (tag ≡ "edvabe/user-" +++ t.id +++ ":latest"))
      ⊎ ((t.image_tag ≡ "") × (latest_ready t.builds ≡ none) × (tag ≡ base))
unfolding image_tag_of
image_tag_of-default base t = elim (Bool-cases (t.image_tag == "")) [
  | inr written ↦
      inl ((λ c. ground (arith, c, written, eq_iff t.image_tag "")), ground (arith, written))
  | inl unwritten ↦ elim (Option-cases (latest_ready t.builds)) [
    | inr (b, ready) ↦ inr (
        inl (
          (eq_iff t.image_tag "").0 unwritten,
          b,
          ready,
          ground (
            arith,
            unwritten,
            ready,
            default_image-ne_empty t.id,
            eq_iff ("edvabe/user-" +++ t.id +++ ":latest") "",
          ),
        ))
    | inl unready ↦
        inr (inr ((eq_iff t.image_tag "").0 unwritten, unready, rw (unwritten, unready) refl))
  ]
]

module _ {W : Type 0} (h : Host W) (m : Manager) (w : W) (s : Store) where
  -- A manager whose resolver is a store with an exact index resolves an alias of the store, which
  -- is not also an identifier, to the template that has the alias: the template's start command,
  -- ready command, cores and megabytes, and as the image the tag that is written down for the
  -- template; or, without one, edvabe/user-<identifier>:latest if a build of it is ready, and the
  -- manager's base image if none is.
  pub resolve_template-alias :
      (alias id : String)
      → h.resolver ≡ some (λ name w'. resolve s name)
      → IsStore s
      → lookup alias s.aliases ≡ some id
      → lookup alias s.templates ≡ none
      → let res = resolve_template h m alias w in
        (t : Template) × (lookup id s.templates ≡ some t)
        × (t.alias ≡ alias)
        × (res.start_cmd ≡ t.start_cmd)
        × (res.ready_cmd ≡ t.ready_cmd)
        × (res.cpu_count ≡ t.cpu_count)
        × (res.memory_mb ≡ t.memory_mb)
        × (((t.image_tag ≢ "") × (res.image_tag ≡ t.image_tag))
            ⊎ ((t.image_tag ≡ "")
                × (b : Build) × (latest_ready t.builds ≡ some b)
                × (res.image_tag ≡ "edvabe/user-" +++ t.id +++ ":latest"))
            ⊎ ((t.image_tag ≡ "")
                × (latest_ready t.builds ≡ none)
                × (res.image_tag ≡ m.base_image)))
  unfolding resolve_template resolve resolve_name_or_id resolve_alias find_template image_tag_of
  resolve_template-alias alias id wired v known no_id =
      elim (Option-cases (lookup id s.templates)) [
        | inl gone ↦ absurd (ground (arith, gone, known, v.owned id alias))
        | inr (t, at) ↦
            let res : resolve_template h m alias w ≡ record (resolution_of t) {
              image_tag = or_default_text (image_tag_of t) m.base_image;
            } =
              ground (arith, wired, at, known, no_id, v.no_empty, eq_iff alias "") in
            (
              t,
              at,
              ground (arith, at, known, v.owned id alias),
              ap (λ r. r.start_cmd) res,
              ap (λ r. r.ready_cmd) res,
              ap (λ r. r.cpu_count) res,
              ap (λ r. r.memory_mb) res,
              rw (ap (λ r. r.image_tag) res) (image_tag_of-default m.base_image t),
            )
      ]
