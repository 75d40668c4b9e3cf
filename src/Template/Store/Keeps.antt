-- ===== src/Template/Store/Keeps.antt =====
-- Every call on the store keeps the index in step with the templates, whatever becomes of the file.
use edvabe.Prelude.{
  String, ◌≡◌, ◌≢◌, refl, ◌∙◌, subst, ◌⊎◌, inl, inr, none, ◌==◌, eq_iff, arith, Bool-cases,
  Option-cases,
}
use edvabe.Prelude.Dict.{Dict, lookup, insert, delete, lookup-insert_self, lookup-delete_self}
use edvabe.Template.{Template, Build}
use edvabe.Template.Store.{
  Store, Files, index, unindex, alias_or_name, NewTemplate, SeedOptions, flushed, create_template,
  delete_template, update_meta, append_build, update_build, seed_built_in, change_build, seeded,
  blank, is_taken,
}
use edvabe.Template.Store.Index.{
  IsIndex, add-IsIndex, remove-IsIndex, keep-IsIndex, move-IsIndex, release-eq-unindex, released,
  free-alias,
}

abbrev pub IsStore : Store → Type 0
IsStore s = IsIndex s.templates s.aliases

index-named :
    (alias id : String) (names : Dict String)
    → alias ≢ ""
    → index alias id names ≡ insert alias id names
unfolding index
index-named alias id names named = ground (arith, named, eq_iff alias "")

module _ {W : Type 0} (fs : Files W) where
  flushed-IsStore :
      {A : Type 0} (a : A) (s undone : Store) (w : W)
      → IsStore s
      → IsStore undone
      → IsStore (flushed fs a s undone w).1
  unfolding flushed
  flushed-IsStore a s undone w v v' = ground (arith, v, v')

  append_build-IsStore :
      (id : String) (b : Build) (s : Store) (w : W)
      → IsStore s
      → IsStore (append_build fs id b s w).1
  unfolding append_build
  append_build-IsStore id b s w v = elim (Option-cases (lookup id s.templates)) [
    | inl gone ↦ rw (gone, append_build) v
    | inr (t, at) ↦
        rw (at, append_build)
          (flushed-IsStore b _ s w
            (keep-IsIndex s.templates s.aliases v id t _ (v.named id t at) at refl) v)
  ]

  update_build-IsStore :
      (id build_id : String) (f : Build → Build) (s : Store) (w : W)
      → IsStore s
      → IsStore (update_build fs id build_id f s w).1
  unfolding update_build
  update_build-IsStore id build_id f s w v = elim (Option-cases (lookup id s.templates)) [
    | inl gone ↦ rw (gone, update_build) v
    | inr (t, at) ↦ elim (Option-cases (change_build build_id f t.builds)) [
      | inl none' ↦ rw (at, none', update_build) v
      | inr (bs, found) ↦
          let v' =
            keep-IsIndex s.templates s.aliases v id t (record t { builds = bs }) (v.named id t at)
              at refl in
          rw (at, found, update_build) (flushed-IsStore tt _ _ w v' v')
    ]
  ]

  -- The identifier that the generator gives is not in use.
  seed_built_in-IsStore :
      (opts : SeedOptions) (s : Store) (w : W)
      → lookup (fs.new_template_id w).0 s.templates ≡ none
      → opts.alias ≢ ""
      → IsStore s
      → IsStore (seed_built_in fs opts s w).1
  unfolding seed_built_in
  seed_built_in-IsStore opts s w fresh named v =
      let (id, w1) = fs.new_template_id w in
      let (created, w2) = fs.now w1 in
      let (build_id, w3) = fs.new_build_id w2 in
      let (started, w4) = fs.now w3 in
      let t = seeded opts id created build_id started in
      elim (Option-cases (lookup opts.alias s.aliases)) [
        | inl free ↦
            let v' =
              subst (IsIndex _) (index-named opts.alias _ s.aliases named)
                (add-IsIndex s.templates s.aliases v id t refl fresh (inr free)) in
            rw (free, seed_built_in) (flushed-IsStore tt _ _ _ v' v')
        | inr (old, taken) ↦ elim (Option-cases (lookup old s.templates)) [
          | inl gone ↦ rw (taken, gone, seed_built_in) v
          | inr (u, at) ↦
              let v' = keep-IsIndex s.templates s.aliases v old u _ (v.named old u at) at refl in
              rw (taken, at, seed_built_in) (flushed-IsStore tt _ _ w v' v')
        ]
      ]

  create_template-IsStore :
      (opts : NewTemplate) (s : Store) (w : W)
      → lookup (fs.new_template_id w).0 s.templates ≡ none
      → IsStore s
      → IsStore (create_template fs opts s w).1
  unfolding create_template
  create_template-IsStore opts s w fresh v =
      let (id, w1) = fs.new_template_id w in
      let (now, w2) = fs.now w1 in
      let t = blank opts id now in
      let keep = λ (free : (t.alias ≡ "") ⊎ (lookup t.alias s.aliases ≡ none)).
        let v' = add-IsIndex s.templates s.aliases v id t refl fresh free in
        flushed-IsStore t
          (record s { templates = insert id t s.templates; aliases = index t.alias id s.aliases })
          (record s {
            templates = delete id (insert id t s.templates);
            aliases = unindex t.alias (index t.alias id s.aliases);
          })
          w2 v'
          (remove-IsIndex (insert id t s.templates) (index t.alias id s.aliases) v' id t
            (lookup-insert_self id t s.templates)) in
      elim (Bool-cases (alias_or_name opts == "")) [
        | inl empty ↦ rw (empty, create_template) (keep (inl ((eq_iff _ _).0 empty)))
        | inr named ↦ elim (Option-cases (lookup (alias_or_name opts) s.aliases)) [
          | inl free ↦ rw (named, free, create_template) (keep (inr free))
          | inr (owner, taken) ↦ rw (named, taken, create_template) v
        ]
      ]

  delete_template-IsStore :
      (id : String) (s : Store) (w : W) → IsStore s → IsStore (delete_template fs id s w).1
  unfolding delete_template
  delete_template-IsStore id s w v = elim (Option-cases (lookup id s.templates)) [
    | inl gone ↦ rw (gone, delete_template) v
    | inr (t, at) ↦
        let gone' = remove-IsIndex s.templates s.aliases v id t at in
        let back =
          add-IsIndex (delete id s.templates) (unindex t.alias s.aliases) gone' id t
            (v.named id t at) (lookup-delete_self id s.templates)
            (released s.templates s.aliases v id t) in
        rw (at, release-eq-unindex s.templates s.aliases v id t at, delete_template)
          (flushed-IsStore tt _ _ w gone' back)
  ]

  update_meta-IsStore :
      (id : String) (f : Template → Template) (s : Store) (w : W)
      → ((t : Template) → (f t).id ≡ t.id)
      → IsStore s
      → IsStore (update_meta fs id f s w).1
  unfolding update_meta
  update_meta-IsStore id f s w own v = elim (Option-cases (lookup id s.templates)) [
    | inl gone ↦ rw (gone, update_meta) v
    | inr (t, at) ↦
        let mine = own t ∙ v.named id t at in
        elim (Bool-cases ((f t).alias == t.alias)) [
          | inl same ↦
              let v' =
                keep-IsIndex s.templates s.aliases v id t (f t) mine at ((eq_iff _ _).0 same) in
              rw (at, same, update_meta) (flushed-IsStore (f t) _ _ w v' v')
          | inr new ↦
              let differ : (f t).alias ≢ t.alias =
                λ e. ground (arith, e, new, eq_iff (f t).alias t.alias) in
              elim (Bool-cases (is_taken (f t).alias id s.aliases)) [
                | inl taken ↦
                    rw (at, new, taken, update_meta)
                      (keep-IsIndex s.templates s.aliases v id t (record (f t) { alias = t.alias })
                        mine at refl)
                | inr free ↦
                    let v' =
                      move-IsIndex s.templates s.aliases v id t (f t) mine at differ
                        (free-alias s.templates s.aliases v id t (f t).alias at differ free) in
                    rw (at, new, free, update_meta) (flushed-IsStore (f t) _ _ w v' v')
              ]
        ]
  ]

-- The calls that change a store.
pub data StoreCall : Type 0 where
  seeds : SeedOptions → StoreCall
  creates : NewTemplate → StoreCall
  deletes : String → StoreCall
  updates_meta : String → (Template → Template) → StoreCall
  appends_build : String → Build → StoreCall
  updates_build : String → String → (Build → Build) → StoreCall

-- A built-in template has an alias, and a mutator leaves the identifier alone.
abbrev pub IsProper : StoreCall → Type 0
IsProper (seeds opts) = opts.alias ≢ ""
IsProper (updates_meta id f) = (t : Template) → (f t).id ≡ t.id
IsProper _ = Unit

module _ {W : Type 0} (fs : Files W) where
  unfoldable pub store_after : StoreCall → Store → W → Store
  store_after (seeds opts) s w = (seed_built_in fs opts s w).1
  store_after (creates opts) s w = (create_template fs opts s w).1
  store_after (deletes id) s w = (delete_template fs id s w).1
  store_after (updates_meta id f) s w = (update_meta fs id f s w).1
  store_after (appends_build id b) s w = (append_build fs id b s w).1
  store_after (updates_build id build_id f) s w = (update_build fs id build_id f s w).1

  -- Every call that changes a store with an exact index, whether it succeeds, is refused or fails
  -- to write the file, keeps the index exact: each alias in use leads to its one template, and
  -- nothing else is in the index. The next identifier must not be in use yet, a built-in template
  -- must have an alias, and a mutator must leave the identifier alone.
  pub store_after-IsStore :
      (c : StoreCall) (s : Store) (w : W)
      → IsProper c
      → lookup (fs.new_template_id w).0 s.templates ≡ none
      → IsStore s
      → IsStore (store_after c s w)
  unfolding store_after
  store_after-IsStore (seeds opts) s w p fresh v = seed_built_in-IsStore fs opts s w fresh p v
  store_after-IsStore (creates opts) s w p fresh v = create_template-IsStore fs opts s w fresh v
  store_after-IsStore (deletes id) s w p fresh v = delete_template-IsStore fs id s w v
  store_after-IsStore (updates_meta id f) s w p fresh v = update_meta-IsStore fs id f s w p v
  store_after-IsStore (appends_build id b) s w p fresh v = append_build-IsStore fs id b s w v
  store_after-IsStore (updates_build id build_id f) s w p fresh v =
      update_build-IsStore fs id build_id f s w v
