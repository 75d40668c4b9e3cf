-- ===== src/Sandbox/Manager/Reaper/Scan.antt =====
-- The scan of the registry: which list an entry lands on, and what it leaves of the registry.
use edvabe.Prelude.{
  String, ◌≡◌, refl, [], ◌∷◌, Bool, true, false, Option, none, some, arith, eq_iff,
}
use edvabe.Prelude.Int.{ℤ}
use edvabe.Prelude.Dict.{lookup, Unique}
use edvabe.Sandbox.{Sandbox}
use edvabe.Sandbox.Manager.{Manager}
use edvabe.Sandbox.Manager.Reaper.{
  Verdict, kill, freeze, demote, collect, hold, verdict, Entries, scan,
}

-- The verdicts after which the scan leaves the entry in the registry.
abbrev pub stays : Verdict → Bool
stays kill = false
stays collect = false
stays _ = true

abbrev pub is_freeze : Verdict → Bool
is_freeze freeze = true
is_freeze _ = false

abbrev pub is_demote : Verdict → Bool
is_demote demote = true
is_demote _ = false

abbrev pub is_hold : Verdict → Bool
is_hold hold = true
is_hold _ = false

module _ (m : Manager) (now : ℤ) where
  -- The entry if its verdict is one of those asked for.
  abbrev pub picked : (Verdict → Bool) → Option Sandbox → Option Sandbox
  picked f none = none
  picked f (some s) = elim (f (verdict m now s)) [ true ↦ some s | false ↦ none ]

  pub lookup-kept :
      (es : Entries) (j : String)
      → Unique es
      → lookup j (scan m now es).kept ≡ picked stays (lookup j es)
  unfolding scan lookup
  lookup-kept [] j u = refl
  lookup-kept ((id, s) ∷ rest) j (fresh, u) = ground (arith, lookup-kept rest j u, eq_iff id j)

  pub lookup-to_pause :
      (es : Entries) (j : String)
      → Unique es
      → lookup j (scan m now es).to_pause ≡ picked is_freeze (lookup j es)
  unfolding scan lookup
  lookup-to_pause [] j u = refl
  lookup-to_pause ((id, s) ∷ rest) j (fresh, u) =
      ground (arith, lookup-to_pause rest j u, eq_iff id j)

  pub lookup-to_demote :
      (es : Entries) (j : String)
      → Unique es
      → lookup j (scan m now es).to_demote ≡ picked is_demote (lookup j es)
  unfolding scan lookup
  lookup-to_demote [] j u = refl
  lookup-to_demote ((id, s) ∷ rest) j (fresh, u) =
      ground (arith, lookup-to_demote rest j u, eq_iff id j)

  pub lookup-frozen_held :
      (es : Entries) (j : String)
      → Unique es
      → lookup j (scan m now es).frozen_held ≡ picked is_hold (lookup j es)
  unfolding scan lookup
  lookup-frozen_held [] j u = refl
  lookup-frozen_held ((id, s) ∷ rest) j (fresh, u) =
      ground (arith, lookup-frozen_held rest j u, eq_iff id j)

  pub kept-Unique : (es : Entries) → Unique es → Unique (scan m now es).kept
  unfolding scan
  kept-Unique [] u = tt
  kept-Unique ((id, s) ∷ rest) (fresh, u) =
      ground (arith, lookup-kept rest id u, kept-Unique rest u)

  pub to_pause-Unique : (es : Entries) → Unique es → Unique (scan m now es).to_pause
  unfolding scan
  to_pause-Unique [] u = tt
  to_pause-Unique ((id, s) ∷ rest) (fresh, u) =
      ground (arith, lookup-to_pause rest id u, to_pause-Unique rest u)

  pub to_demote-Unique : (es : Entries) → Unique es → Unique (scan m now es).to_demote
  unfolding scan
  to_demote-Unique [] u = tt
  to_demote-Unique ((id, s) ∷ rest) (fresh, u) =
      ground (arith, lookup-to_demote rest id u, to_demote-Unique rest u)

  pub frozen_held-Unique : (es : Entries) → Unique es → Unique (scan m now es).frozen_held
  unfolding scan
  frozen_held-Unique [] u = tt
  frozen_held-Unique ((id, s) ∷ rest) (fresh, u) =
      ground (arith, lookup-frozen_held rest id u, frozen_held-Unique rest u)
