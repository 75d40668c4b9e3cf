-- ===== src/Template/Store/Creation.antt =====
-- `Store.Create`: what a success makes visible, and that a failure is undone.
use edvabe.Prelude.{String, ◌≡◌, ◌≢◌, none, eq_iff, arith}
use edvabe.Prelude.Dict.{lookup, insert, lookup-insert, lookup-delete, lookup-insert_self}
use edvabe.Prelude.Result.{ok, err}
use edvabe.Template.{Template}
use edvabe.Template.Store.{
  Store, StoreError, Files, index, unindex, NewTemplate, flushed, create_template, blank,
  find_template, resolve_alias,
}

module _ {W : Type 0} (fs : Files W) (opts : NewTemplate) (s : Store) (w : W) where
  -- A template with an alias that `Create` returns is found under its identifier and under its
  -- alias.
  pub create_template-resolve :
      (t : Template)
      → (create_template fs opts s w).0 ≡ ok t
      → t.alias ≢ ""
      → let s' = (create_template fs opts s w).1 in
        (find_template s' t.id ≡ ok t) × (resolve_alias s' t.alias ≡ ok t)
  unfolding create_template flushed find_template resolve_alias index
  create_template-resolve t done named =
      let (id, w1) = fs.new_template_id w in
      let (now, w2) = fs.now w1 in
      let t0 = blank opts id now in
      ground (
        arith,
        done,
        named,
        lookup-insert_self id t0 s.templates,
        lookup-insert_self t0.alias id s.aliases,
        eq_iff t0.alias "",
      )

  -- A `Create` that fails, because the alias is taken or the file cannot be written, leaves every
  -- template and every alias as it was, if the identifier that it drew was not in use.
  pub create_template-undone :
      (e : StoreError)
      → lookup (fs.new_template_id w).0 s.templates ≡ none
      → (create_template fs opts s w).0 ≡ err e
      → let s' = (create_template fs opts s w).1 in
        (id alias : String)
        → (lookup id s'.templates ≡ lookup id s.templates)
          × (lookup alias s'.aliases ≡ lookup alias s.aliases)
  unfolding create_template flushed index unindex
  create_template-undone e fresh failed j a =
      let (id, w1) = fs.new_template_id w in
      let (now, w2) = fs.now w1 in
      let t0 = blank opts id now in
      let ts = insert id t0 s.templates in
      let names = insert t0.alias id s.aliases in
      ground (
        arith,
        failed,
        fresh,
        lookup-delete id j ts,
        lookup-insert id j t0 s.templates,
        lookup-delete t0.alias a names,
        lookup-insert t0.alias a id s.aliases,
        eq_iff id j,
        eq_iff t0.alias a,
        eq_iff t0.alias "",
      )
