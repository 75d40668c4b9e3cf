-- ===== src/Api/Control/Templates/Creating.antt =====
-- What a request for a template leaves in the store, whether the name is new or in use.
use Prim.Native.String.{String}
use edvabe.Prelude.{
  ℕ, ◌⊎◌, ◌≡◌, ◌≢◌, refl, sym, ◌∙◌, ap, subst, Option, none, some, [], ◌∷◌, ◌++◌, ◌==◌, eq_iff,
  arith, inl, inr, Option-cases, Bool-cases,
}
use edvabe.Prelude.Dict.{lookup, lookup-insert_self}
use edvabe.Prelude.Result.{ok, Result-cases}
use edvabe.Template.{Template, Build, BuildStatus}
use edvabe.Template.Store.{
  Store, Files, flushed, create_template, find_template, resolve_alias, append_build,
}
use edvabe.Template.Store.Keeps.{IsStore, StoreCall, store_after, store_after-IsStore}
use edvabe.Template.Store.Creation.{create_template-resolve}
use edvabe.Api.{replied}
use edvabe.Api.Control.Templates.{
  TemplateBuildRequest, TemplateBuildResponse, new_template_of, waiting_build_of, named_template,
  mint_build, post_template,
}

resolve_alias-id :
    (s : Store) (alias : String) (t : Template)
    → IsStore s
    → resolve_alias s alias ≡ ok t
    → (lookup alias s.aliases ≡ some t.id) × (lookup t.id s.templates ≡ some t)
unfolding resolve_alias find_template
resolve_alias-id s alias t v found = elim (Option-cases (lookup alias s.aliases)) [
  | inl free ↦ absurd (ground (arith, found, free))
  | inr (id, owned) ↦ elim (Option-cases (lookup id s.templates)) [
    | inl gone ↦ absurd (ground (arith, found, owned, gone))
    | inr (u, at) ↦
        let same : u ≡ t = ground (arith, found, owned, at) in
        let mine : id ≡ t.id = sym (v.named id u at) ∙ ap (λ x. x.id) same in
        (owned ∙ ap some mine, ap (λ i. lookup i s.templates) (sym mine) ∙ at ∙ ap some same)
  ]
]

module _ {W : Type 0} (fs : Files W) where
  created-alias :
      (req : TemplateBuildRequest) (s : Store) (w : W) (t : Template)
      → (create_template fs (new_template_of req) s w).0 ≡ ok t
      → t.alias ≡ req.name
  unfolding create_template flushed new_template_of
  created-alias req s w t made = ground (arith, made)

  named_template-same :
      (req : TemplateBuildRequest) (s : Store) (w : W)
      → (named_template fs req s w).1 ≡ (create_template fs (new_template_of req) s w).1
  unfolding named_template
  named_template-same req s w = ground arith

  named_template-alias :
      (req : TemplateBuildRequest) (s : Store) (w : W) (t : Template)
      → req.name ≢ ""
      → (named_template fs req s w).0 ≡ ok t
      → resolve_alias (named_template fs req s w).1 req.name ≡ ok t
  unfolding named_template
  named_template-alias req s w t named found =
      elim (Result-cases (create_template fs (new_template_of req) s w).0) [
        | inl (u, made) ↦
            let its = created-alias req s w u made in
            ground (
              arith,
              made,
              found,
              subst (λ a. resolve_alias (create_template fs (new_template_of req) s w).1 a ≡ ok u)
                  its
                  (create_template-resolve fs (new_template_of req) s w u made
                    (λ e. named (sym its ∙ e))).1,
            )
        | inr (e, failed) ↦
            elim (Result-cases
              (resolve_alias (create_template fs (new_template_of req) s w).1 req.name)) [
                | inl (u, known) ↦ ground (arith, failed, found, known)
                | inr (f, lost) ↦ absurd (ground (arith, failed, found, lost))
              ]
      ]

  -- Where the template comes from.
  named_template-origin :
      (req : TemplateBuildRequest) (s : Store) (w : W) (t : Template)
      → req.name ≢ ""
      → (named_template fs req s w).0 ≡ ok t
      → (resolve_alias s req.name ≡ ok t)
        ⊎ ((lookup req.name s.aliases ≡ none) × (t.alias ≡ req.name) × (t.builds ≡ []))
  unfolding named_template create_template flushed new_template_of
  named_template-origin req s w t named found = elim (Option-cases (lookup req.name s.aliases)) [
    | inr (id, owned) ↦ inl (ground (arith, found, owned, named, eq_iff req.name ""))
    | inl free ↦ inr (
      free,
      ground (arith, found, free, named, eq_iff req.name ""),
      ground (arith, found, free, named, eq_iff req.name ""),
    )
  ]

  -- A build that is put behind the others of a template.
  append_build-alias :
      (name : String) (t : Template) (b c : Build) (s : Store) (w : W)
      → IsStore s
      → resolve_alias s name ≡ ok t
      → (append_build fs t.id b s w).0 ≡ ok c
      → resolve_alias (append_build fs t.id b s w).1 name
        ≡ ok (record t { builds = t.builds ++ (b ∷ []) })
  unfolding append_build flushed resolve_alias find_template
  append_build-alias name t b c s w v found added =
      let (owned, at) = resolve_alias-id s name t v found in
      ground (
        arith,
        owned,
        at,
        added,
        lookup-insert_self t.id (record t { builds = t.builds ++ (b ∷ []) }) s.templates,
      )

  -- The name leads to the template with one more build, which waits.
  abbrev IsWaiting : String → Template → TemplateBuildResponse → Store → Type 0
  IsWaiting name t r s =
      (b : Build) × (resolve_alias s name ≡ ok (record t { builds = t.builds ++ (b ∷ []) }))
      × (t.id ≡ r.template_id)
      × (b.id ≡ r.build_id)
      × (b.status ≡ BuildStatus.waiting)

  mint_build-IsWaiting :
      (name : String) (t : Template) (s : Store) (w : W) (code : ℕ) (r : TemplateBuildResponse)
      → IsStore s
      → resolve_alias s name ≡ ok t
      → (mint_build fs t s w).0 ≡ replied code r
      → IsWaiting name t r (mint_build fs t s w).1
  unfolding mint_build waiting_build_of
  mint_build-IsWaiting name t s w code r v found answered =
      let w1 = (fs.new_build_id w).1 in
      let b = waiting_build_of (fs.new_build_id w).0 (fs.now w1).0 in
      let w2 = (fs.now w1).1 in
      elim (Result-cases ((append_build fs t.id b s w2).0)) [
        | inr (e, failed) ↦ absurd (ground (arith, answered, failed))
        | inl (c, added) ↦ (
          b,
          ground (arith, added, append_build-alias name t b c s w2 v found added),
          ground (arith, answered, added),
          ground (arith, answered, added),
          refl,
        )
      ]

  -- A request for a template by its name that is answered with a body. If the name is an alias of the
  -- store before the request, the template is the one that it leads to there, with all its builds;
  -- otherwise it is one without builds whose alias is the name. Afterwards the name leads to that
  -- template with one more build behind its builds, which is waiting; the identifiers of the answer
  -- are those of the template and of the build. The aliases of the store must be in step with its
  -- templates, and the identifier that the generator gives must not be in use.
  pub post_template-waiting :
      (decode : String → Option TemplateBuildRequest) (body : String) (s : Store) (w : W)
      (req : TemplateBuildRequest) (code : ℕ) (r : TemplateBuildResponse)
      → IsStore s
      → lookup (fs.new_template_id w).0 s.templates ≡ none
      → decode body ≡ some req
      → (post_template fs decode body s w).0 ≡ replied code r
      → (t : Template) × (b : Build) × (resolve_alias (post_template fs decode body s w).1 req.name
          ≡ ok (record t { builds = t.builds ++ (b ∷ []) }))
        × (t.id ≡ r.template_id)
        × (b.id ≡ r.build_id)
        × (b.status ≡ BuildStatus.waiting)
        × ((resolve_alias s req.name ≡ ok t)
            ⊎ ((lookup req.name s.aliases ≡ none) × (t.alias ≡ req.name) × (t.builds ≡ [])))
  unfolding post_template
  post_template-waiting decode body s w req code r v fresh reads answered =
      elim (Bool-cases (req.name == "")) [
        | inl empty ↦ absurd (ground (arith, answered, reads, empty))
        | inr other ↦ elim (Result-cases (named_template fs req s w).0) [
          | inr (status, refused) ↦ absurd (ground (arith, answered, reads, other, refused))
          | inl (t, found) ↦
              let (_, s', w') = named_template fs req s w in
              let minted : post_template fs decode body s w ≡ mint_build fs t s' w' =
                unfold post_template in ground (arith, reads, other, found) in
              let (b, leads, same, its, waits) =
                subst (λ x. IsWaiting req.name t r x.1) (sym minted)
                  (mint_build-IsWaiting req.name t s' w' code r
                    (subst IsStore (sym (named_template-same req s w)) (
                      unfold store_after in
                      store_after-IsStore fs (StoreCall.creates (new_template_of req)) s w tt fresh
                        v))
                    (named_template-alias req s w t
                      (λ e. ground (arith, e, other, eq_iff req.name "")) found)
                    (ap (λ x. x.0) (sym minted) ∙ answered)) in
              (
                t,
                b,
                leads,
                same,
                its,
                waits,
                named_template-origin req s w t (λ e. ground (arith, e, other, eq_iff req.name ""))
                    found,
              )
        ]
      ]
