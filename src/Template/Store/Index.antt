-- ===== src/Template/Store/Index.antt =====
-- The index of aliases against the templates.
use edvabe.Prelude.{
  String, ◌≡◌, ◌≢◌, ◌⊎◌, inl, inr, false, Option, none, some, ◌==◌, eq_iff, eq_refl, arith,
  if◌then◌else◌, Option-cases,
}
use edvabe.Prelude.Dict.{
  Dict, lookup, insert, delete, lookup-insert, lookup-delete, Everywhere, Everywhere-insert,
  Everywhere-delete,
}
use edvabe.Template.{Template}
use edvabe.Template.Store.{index, unindex, release, is_taken}

-- The alias of the template with the identifier.
abbrev pub alias_at : String → Dict Template → Option String
alias_at id templates = elim (lookup id templates) [ none ↦ none | some t ↦ some t.alias ]

-- Every template stands under its own identifier, and the index maps exactly the aliases in use,
-- each to its template; the empty alias is no alias.
pub record IsIndex (templates : Dict Template) (aliases : Dict String) : Type 0 where
  pub named : Everywhere (λ id t. t.id ≡ id) templates
  pub no_empty : lookup "" aliases ≡ none
  pub indexed :
      (id alias : String)
      → alias_at id templates ≡ some alias
      → alias ≢ ""
      → lookup alias aliases ≡ some id
  pub owned :
      (id alias : String) → lookup alias aliases ≡ some id → alias_at id templates ≡ some alias

alias_at-insert :
    (id j : String) (t : Template) (ts : Dict Template)
    → alias_at j (insert id t ts) ≡ (if id == j then some t.alias else alias_at j ts)
alias_at-insert id j t ts = ground (arith, lookup-insert id j t ts)

alias_at-delete :
    (id j : String) (ts : Dict Template)
    → alias_at j (delete id ts) ≡ (if id == j then none else alias_at j ts)
alias_at-delete id j ts = ground (arith, lookup-delete id j ts)

module _ (ts : Dict Template) (names : Dict String) (v : IsIndex ts names) (id : String)
    (t : Template) where
  -- A new template under a fresh identifier, with a free alias or none.
  pub add-IsIndex :
      t.id ≡ id
      → lookup id ts ≡ none
      → (t.alias ≡ "") ⊎ (lookup t.alias names ≡ none)
      → IsIndex (insert id t ts) (index t.alias id names)
  unfolding index unindex
  add-IsIndex own fresh free = record {
    named = Everywhere-insert _ id t ts own v.named;
    no_empty = ground (arith, v.no_empty, lookup-insert t.alias "" id names, eq_iff t.alias "");
    indexed = λ j a at ne. ground (
      arith,
      at,
      ne,
      fresh,
      free,
      alias_at-insert id j t ts,
      v.indexed j a,
      lookup-insert t.alias a id names,
      eq_iff id j,
      eq_iff t.alias a,
      eq_iff t.alias "",
    );
    owned = λ j a at. ground (
      arith,
      at,
      fresh,
      free,
      alias_at-insert id j t ts,
      v.owned j a,
      lookup-insert t.alias a id names,
      eq_iff id j,
      eq_iff t.alias a,
      eq_iff t.alias "",
    );
  }

  pub remove-IsIndex : lookup id ts ≡ some t → IsIndex (delete id ts) (unindex t.alias names)
  unfolding index unindex
  remove-IsIndex here = record {
    named = Everywhere-delete _ id ts v.named;
    no_empty = ground (arith, v.no_empty, lookup-delete t.alias "" names);
    indexed = λ j a at ne. ground (
      arith,
      at,
      ne,
      here,
      alias_at-delete id j ts,
      v.indexed j a,
      v.indexed id t.alias,
      lookup-delete t.alias a names,
      eq_iff id j,
      eq_iff t.alias a,
      eq_iff t.alias "",
    );
    owned = λ j a at. ground (
      arith,
      at,
      here,
      alias_at-delete id j ts,
      v.owned j a,
      v.no_empty,
      lookup-delete t.alias a names,
      eq_iff id j,
      eq_iff t.alias a,
      eq_iff t.alias "",
    );
  }

  -- A change that leaves the alias alone.
  pub keep-IsIndex :
      (t' : Template)
      → t'.id ≡ id
      → lookup id ts ≡ some t
      → t'.alias ≡ t.alias
      → IsIndex (insert id t' ts) names
  keep-IsIndex t' own here same = record {
    named = Everywhere-insert _ id t' ts own v.named;
    no_empty = v.no_empty;
    indexed = λ j a at ne. ground (
      arith,
      at,
      ne,
      here,
      same,
      alias_at-insert id j t' ts,
      v.indexed j a,
      v.indexed id t.alias,
      eq_iff id j,
    );
    owned = λ j a at.
        ground (arith, at, here, same, alias_at-insert id j t' ts, v.owned j a, eq_iff id j);
  }

  -- A change of the alias to one that is free, or to none.
  pub move-IsIndex :
      (t' : Template)
      → t'.id ≡ id
      → lookup id ts ≡ some t
      → t'.alias ≢ t.alias
      → (t'.alias ≡ "") ⊎ (lookup t'.alias names ≡ none)
      → IsIndex (insert id t' ts) (unindex t.alias (index t'.alias id names))
  unfolding index unindex
  move-IsIndex t' own here new free = record {
    named = Everywhere-insert _ id t' ts own v.named;
    no_empty = ground (
      arith,
      v.no_empty,
      lookup-insert t'.alias "" id names,
      eq_iff t'.alias "",
      lookup-delete t.alias "" (index t'.alias id names),
    );
    indexed = λ j a at ne. ground (
      arith,
      at,
      ne,
      here,
      new,
      free,
      alias_at-insert id j t' ts,
      v.indexed j a,
      v.indexed id t.alias,
      v.no_empty,
      lookup-delete t.alias a (index t'.alias id names),
      lookup-insert t'.alias a id names,
      eq_iff id j,
      eq_iff t.alias a,
      eq_iff t.alias "",
      eq_iff t'.alias a,
      eq_iff t'.alias "",
    );
    owned = λ j a at. ground (
      arith,
      at,
      here,
      new,
      free,
      alias_at-insert id j t' ts,
      v.owned j a,
      v.indexed id t.alias,
      v.no_empty,
      lookup-delete t.alias a (index t'.alias id names),
      lookup-insert t'.alias a id names,
      eq_iff id j,
      eq_iff t.alias a,
      eq_iff t.alias "",
      eq_iff t'.alias a,
      eq_iff t'.alias "",
    );
  }

  -- What `Delete` takes out of the index is the template's alias.
  pub release-eq-unindex : lookup id ts ≡ some t → release t.alias id names ≡ unindex t.alias names
  unfolding release unindex
  release-eq-unindex here =
      ground (arith, here, v.indexed id t.alias, eq_iff t.alias "", eq_refl id)

  -- An alias that no other template has, if it is not the template's own, is free.
  pub free-alias :
      (alias : String)
      → lookup id ts ≡ some t
      → alias ≢ t.alias
      → is_taken alias id names ≡ false
      → (alias ≡ "") ⊎ (lookup alias names ≡ none)
  unfolding is_taken
  free-alias alias here new not_taken = elim (Option-cases (lookup alias names)) [
    | inl free ↦ inr free
    | inr (owner, e) ↦
        ground (arith, here, e, new, not_taken, v.owned id alias, eq_iff owner id, eq_iff alias "")
  ]

  pub released : (t.alias ≡ "") ⊎ (lookup t.alias (unindex t.alias names) ≡ none)
  unfolding unindex
  released = ground (arith, lookup-delete t.alias t.alias names, eq_iff t.alias "", eq_refl t.alias)
