-- ===== src/Sandbox/Manager/Reaper/Phases.antt =====
-- What the two loops of runtime calls make of the registry, whatever the runtime answers.
use edvabe.Prelude.{String, ◌≡◌, refl, ◌⊎◌, [], ◌∷◌, Option, none, some, arith, eq_iff}
use edvabe.Prelude.Int.{ℤ}
use edvabe.Prelude.Dict.{lookup, lookup-insert, lookup-delete, Unique}
use edvabe.Sandbox.{Sandbox, State, PauseMode, frozen}
use edvabe.Sandbox.Host.{Host}
use edvabe.Sandbox.Manager.{Manager, put, drop_sandbox}
use edvabe.Sandbox.Manager.Reaper.{Entries, pause_all, demote_all}

abbrev pub frozen_at : ℤ → Sandbox → Sandbox
frozen_at now s = record s { state = State.paused; pause_mode = frozen; paused_at = now }

abbrev pub stopped_at : ℤ → Sandbox → Sandbox
stopped_at now s = record s { pause_mode = PauseMode.stopped; paused_at = now }

-- An entry of the list is dropped or frozen now; any other is as it was.
abbrev pub PausedOr : ℤ → Option Sandbox → Option Sandbox → Option Sandbox → Type 0
PausedOr now none before after = after ≡ before
PausedOr now (some s) before after = (after ≡ none) ⊎ (after ≡ some (frozen_at now s))

-- An entry of the list is as it was or stopped now; any other is as it was.
abbrev pub DemotedOr : ℤ → Option Sandbox → Option Sandbox → Option Sandbox → Type 0
DemotedOr now none before after = after ≡ before
DemotedOr now (some s) before after = (after ≡ before) ⊎ (after ≡ some (stopped_at now s))

module _ {W : Type 0} (h : Host W) (now : ℤ) where
  pub pause_all-PausedOr :
      (es : Entries) (m : Manager) (w : W) (j : String)
      → Unique es
      → PausedOr now
          (lookup j es)
          (lookup j m.sandboxes)
          (lookup j (pause_all h now es m w).1.sandboxes)
  unfolding pause_all lookup
  pause_all-PausedOr [] m w j u = refl
  pause_all-PausedOr ((id, s) ∷ rest) m w j (fresh, u) =
      let (r, w1) = h.rt.pause id w in
      ground (
        arith,
        eq_iff id j,
        lookup-insert id j (frozen_at now s) m.sandboxes,
        lookup-delete id j m.sandboxes,
        pause_all-PausedOr rest (put id (frozen_at now s) m) w1 j u,
        pause_all-PausedOr rest (drop_sandbox id m) (h.rt.destroy id w1).1 j u,
      )

  pub demote_all-DemotedOr :
      (es : Entries) (m : Manager) (w : W) (j : String)
      → Unique es
      → DemotedOr now
          (lookup j es)
          (lookup j m.sandboxes)
          (lookup j (demote_all h now es m w).1.sandboxes)
  unfolding demote_all lookup
  demote_all-DemotedOr [] m w j u = refl
  demote_all-DemotedOr ((id, s) ∷ rest) m w j (fresh, u) =
      let (r, w1) = h.rt.stop id w in
      ground (
        arith,
        eq_iff id j,
        lookup-insert id j (stopped_at now s) m.sandboxes,
        demote_all-DemotedOr rest (put id (stopped_at now s) m) w1 j u,
        demote_all-DemotedOr rest m w1 j u,
      )
