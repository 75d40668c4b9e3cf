-- ===== src/Sandbox/Manager/Reaper/Order.antt =====
-- The order of the frozen sandboxes by the instant of their pause, and the cap on their number.
use edvabe.Prelude.{
  ◌-◌, String, ◌≡◌, refl, ◌∙◌, ◌⊎◌, [], ◌∷◌, none, some, arith, ◌==◌, eq_iff, length, if◌then◌else◌,
}
use edvabe.Prelude.Int.{ℤ, pos_part}
use edvabe.Prelude.Dict.{lookup, Unique, lookup-take, Unique-take}
use edvabe.Sandbox.{Sandbox}
use edvabe.Sandbox.Manager.Reaper.{Entries, insert_by_pause, sort_by_pause, excess_frozen}

lookup-insert_by_pause :
    (id : String) (s : Sandbox) (es : Entries) (j : String)
    → lookup id es ≡ none
    → lookup j (insert_by_pause (id, s) es) ≡ (if id == j then some s else lookup j es)
unfolding insert_by_pause lookup
lookup-insert_by_pause id s [] j fresh = refl
lookup-insert_by_pause id s ((k, t) ∷ es) j fresh =
    ground (arith, lookup-insert_by_pause id s es j, eq_iff id j, eq_iff k j, eq_iff k id)

insert_by_pause-Unique :
    (id : String) (s : Sandbox) (es : Entries)
    → lookup id es ≡ none
    → Unique es
    → Unique (insert_by_pause (id, s) es)
unfolding insert_by_pause lookup
insert_by_pause-Unique id s [] fresh u = (refl, tt)
insert_by_pause-Unique id s ((k, t) ∷ es) fresh (new, u) = ground (
  arith,
  insert_by_pause-Unique id s es,
  lookup-insert_by_pause id s es k,
  eq_iff k id,
  eq_iff id k,
)

pub lookup-sort_by_pause :
    (es : Entries) (j : String) → Unique es → lookup j (sort_by_pause es) ≡ lookup j es
unfolding sort_by_pause lookup
lookup-sort_by_pause [] j u = refl
lookup-sort_by_pause ((id, s) ∷ es) j (fresh, u) = ground (
  arith,
  lookup-sort_by_pause es j u,
  lookup-sort_by_pause es id u,
  lookup-insert_by_pause id s (sort_by_pause es) j,
)

pub sort_by_pause-Unique : (es : Entries) → Unique es → Unique (sort_by_pause es)
unfolding sort_by_pause
sort_by_pause-Unique [] u = tt
sort_by_pause-Unique ((id, s) ∷ es) (fresh, u) =
    insert_by_pause-Unique id s (sort_by_pause es) (lookup-sort_by_pause es id u ∙ fresh)
      (sort_by_pause-Unique es u)

-- What is demoted for the cap is a held sandbox, and none twice.
pub lookup-excess_frozen :
    (max : ℤ) (es : Entries) (j : String)
    → Unique es
    → (lookup j (excess_frozen max es) ≡ none) ⊎ (lookup j (excess_frozen max es) ≡ lookup j es)
unfolding excess_frozen lookup
lookup-excess_frozen max es j u = ground (
  arith,
  lookup-take j (length es - pos_part max) (sort_by_pause es),
  lookup-sort_by_pause es j u,
)

pub excess_frozen-Unique : (max : ℤ) (es : Entries) → Unique es → Unique (excess_frozen max es)
unfolding excess_frozen
excess_frozen-Unique max es u =
    ground
      (arith, Unique-take (length es - pos_part max) (sort_by_pause es), sort_by_pause-Unique es u)
