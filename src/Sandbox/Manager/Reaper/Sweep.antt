-- ===== src/Sandbox/Manager/Reaper/Sweep.antt =====
-- One sweep of `EnforceTimeouts` as a function of each entry's verdict, whatever the runtime
-- answers.
use edvabe.Prelude.{String, ◌≡◌, refl, subst, ◌⊎◌, List, [], ◌∷◌, Option, none, some, arith}
use edvabe.Prelude.Int.{ℤ, ◌<ℤ◌}
use edvabe.Prelude.Dict.{lookup, lookup-append, Unique, Unique-append, Unique-insert, Unique-delete}
use edvabe.Sandbox.{Sandbox, State}
use edvabe.Sandbox.Host.{Host}
use edvabe.Sandbox.Manager.{Manager, put, drop_sandbox}
use edvabe.Sandbox.Manager.Registry.{IsEntry, IsRegistry}
use edvabe.Sandbox.Manager.Reaper.{
  Verdict, kill, freeze, demote, collect, hold, keep, verdict, Entries, Plan, scan, plan_of,
  excess_frozen, pause_all, demote_all, enforce_timeouts, destroy_all,
}
use edvabe.Sandbox.Manager.Reaper.Scan.{
  lookup-kept, lookup-to_pause, lookup-to_demote, lookup-frozen_held, kept-Unique, to_pause-Unique,
  to_demote-Unique, frozen_held-Unique, picked, stays, is_freeze, is_demote, is_hold,
}
use edvabe.Sandbox.Manager.Reaper.Order.{lookup-excess_frozen, excess_frozen-Unique}
use edvabe.Sandbox.Manager.Reaper.Phases.{
  frozen_at, stopped_at, PausedOr, DemotedOr, pause_all-PausedOr, demote_all-DemotedOr,
}

-- What may become of an entry: by its verdict, and by what the runtime answers.
abbrev pub Fate : ℤ → Verdict → Sandbox → Option Sandbox → Type 0
Fate now kill s after = after ≡ none
Fate now collect s after = after ≡ none
Fate now keep s after = after ≡ some s
Fate now freeze s after = (after ≡ none) ⊎ (after ≡ some (frozen_at now s))
Fate now demote s after = (after ≡ some s) ⊎ (after ≡ some (stopped_at now s))
Fate now hold s after = (after ≡ some s) ⊎ (after ≡ some (stopped_at now s))

abbrev pub FateOf : Manager → ℤ → Option Sandbox → Option Sandbox → Type 0
FateOf m now none after = after ≡ none
FateOf m now (some s) after = Fate now (verdict m now s) s after

module _ (m : Manager) (now : ℤ) (u : Unique m.sandboxes) where
  pub lookup-demoted :
      (j : String)
      → lookup j (plan_of m now).to_demote ≡ elim (lookup j (scan m now m.sandboxes).to_demote) [
        | none ↦ lookup j (excess_frozen m.max_frozen (scan m now m.sandboxes).frozen_held)
        | some s ↦ some s
      ]
  unfolding plan_of
  lookup-demoted j = lookup-append j _ _

  -- No sandbox is demoted both for its age and for the cap.
  pub demoted-Unique : Unique (plan_of m now).to_demote
  unfolding plan_of
  demoted-Unique =
      let p = scan m now m.sandboxes in
      Unique-append p.to_demote (excess_frozen m.max_frozen p.frozen_held)
        (to_demote-Unique m now m.sandboxes u)
        (excess_frozen-Unique m.max_frozen p.frozen_held (frozen_held-Unique m now m.sandboxes u))
        λ j present. ground (
          arith,
          present,
          lookup-to_demote m now m.sandboxes j u,
          lookup-frozen_held m now m.sandboxes j u,
          lookup-excess_frozen m.max_frozen p.frozen_held j
              (frozen_held-Unique m now m.sandboxes u),
        )

-- The lists of the plan and the two loops, put together for one entry.
FateOf-parts :
    (m : Manager) (now : ℤ) (before paused demoted capped kept mid after : Option Sandbox)
    → kept ≡ picked m now stays before
    → paused ≡ picked m now is_freeze before
    → demoted ≡ elim (picked m now is_demote before) [ none ↦ capped | some s ↦ some s ]
    → (capped ≡ none) ⊎ (capped ≡ picked m now is_hold before)
    → PausedOr now paused kept mid
    → DemotedOr now demoted mid after
    → FateOf m now before after
FateOf-parts m now none paused demoted capped kept mid after ek ep ed ec hp hd = ground arith
FateOf-parts m now (some s) paused demoted capped kept mid after ek ep ed ec hp hd = ground arith

module _ {W : Type 0} (h : Host W) (m : Manager) (w : W) (v : IsRegistry m) where
  -- A sweep of a registry that is in order does to each sandbox what its verdict asks, whatever
  -- the runtime answers: one to kill or to collect is gone, one to freeze is frozen or gone, one
  -- to demote or held against the cap is stopped or as it was, one to keep is as it was; and no
  -- sandbox appears.
  pub enforce_timeouts-FateOf :
      (j : String)
      → FateOf m (h.now w).0 (lookup j m.sandboxes) (lookup j (enforce_timeouts h m w).1.sandboxes)
  unfolding enforce_timeouts
  enforce_timeouts-FateOf j =
      FateOf-parts m now (lookup j m.sandboxes) (lookup j p.to_pause)
        (lookup j (plan_of m now).to_demote) (lookup j (excess_frozen m.max_frozen p.frozen_held))
        (lookup j p.kept) (lookup j mid.1.sandboxes) _ (lookup-kept m now m.sandboxes j v.unique)
        (lookup-to_pause m now m.sandboxes j v.unique)
        (rw (← lookup-to_demote m now m.sandboxes j v.unique) (lookup-demoted m now v.unique j))
        (ground (
          arith,
          lookup-frozen_held m now m.sandboxes j v.unique,
          lookup-excess_frozen m.max_frozen p.frozen_held j
              (frozen_held-Unique m now m.sandboxes v.unique),
        ))
        (unfold plan_of in
          pause_all-PausedOr h now p.to_pause (record m { sandboxes = p.kept }) w2 j
            (to_pause-Unique m now m.sandboxes v.unique))
        (demote_all-DemotedOr h now (plan_of m now).to_demote mid.1 mid.2 j
          (demoted-Unique m now v.unique))
    where
      now : ℤ
      now = (h.now w).0

      p : Plan
      p = scan m now m.sandboxes

      w2 : W
      w2 = destroy_all h (plan_of m now).to_kill (h.now w).1

      mid : List String × Manager × W
      mid =
          pause_all h now (plan_of m now).to_pause (record m { sandboxes = (plan_of m now).kept })
            w2

module _ {W : Type 0} (h : Host W) (now : ℤ) where
  pause_all-Unique :
      (es : Entries) (m : Manager) (w : W)
      → Unique m.sandboxes
      → Unique (pause_all h now es m w).1.sandboxes
  unfolding pause_all
  pause_all-Unique [] m w u = u
  pause_all-Unique ((id, s) ∷ rest) m w u =
      let (r, w1) = h.rt.pause id w in
      ground (
        arith,
        pause_all-Unique rest (put id (frozen_at now s) m) w1
            (Unique-insert id (frozen_at now s) m.sandboxes u),
        pause_all-Unique rest (drop_sandbox id m) (h.rt.destroy id w1).1
            (Unique-delete id m.sandboxes u),
      )

  demote_all-Unique :
      (es : Entries) (m : Manager) (w : W)
      → Unique m.sandboxes
      → Unique (demote_all h now es m w).1.sandboxes
  unfolding demote_all
  demote_all-Unique [] m w u = u
  demote_all-Unique ((id, s) ∷ rest) m w u =
      let (r, w1) = h.rt.stop id w in
      ground (
        arith,
        demote_all-Unique rest (put id (stopped_at now s) m) w1
            (Unique-insert id (stopped_at now s) m.sandboxes u),
        demote_all-Unique rest m w1 u,
      )

-- A sandbox that is frozen or stopped by the sweep is in a phase.
Fate-IsEntry :
    (m : Manager) (now : ℤ) (id : String) (s s' : Sandbox)
    → IsEntry id s
    → Fate now (verdict m now s) s (some s')
    → IsEntry id s'
unfolding verdict
Fate-IsEntry m now id s s' e fate = ground arith

Fate-live :
    (m : Manager) (now : ℤ) (s s' : Sandbox)
    → Fate now (verdict m now s) s (some s')
    → s'.state ≡ State.running
    → now <ℤ s'.expires_at
unfolding verdict
Fate-live m now s s' fate runs = ground arith

-- What is in the registry after a sweep was there before.
abbrev pub Origin : Manager → ℤ → Option Sandbox → Sandbox → Type 0
Origin m now before s' = (s : Sandbox) × (before ≡ some s) × Fate now (verdict m now s) s (some s')

FateOf-Origin :
    (m : Manager) (now : ℤ) (before after : Option Sandbox) (s' : Sandbox)
    → FateOf m now before after
    → after ≡ some s'
    → Origin m now before s'
FateOf-Origin m now none after s' fate at = absurd (cc fate)
FateOf-Origin m now (some s) after s' fate at =
    (s, refl, subst (Fate now (verdict m now s) s) at fate)

module _ {W : Type 0} (h : Host W) (m : Manager) (w : W) (v : IsRegistry m) where
  sweep-Origin :
      (id : String) (s' : Sandbox)
      → lookup id (enforce_timeouts h m w).1.sandboxes ≡ some s'
      → Origin m (h.now w).0 (lookup id m.sandboxes) s'
  sweep-Origin id s' at =
      FateOf-Origin m (h.now w).0 (lookup id m.sandboxes)
        (lookup id (enforce_timeouts h m w).1.sandboxes) s' (enforce_timeouts-FateOf h m w v id) at

  sweep-Unique : Unique (enforce_timeouts h m w).1.sandboxes
  unfolding enforce_timeouts plan_of
  sweep-Unique =
      demote_all-Unique h (h.now w).0 (plan_of m (h.now w).0).to_demote mid.1 mid.2
        (pause_all-Unique h (h.now w).0 _ _ _ (kept-Unique m (h.now w).0 m.sandboxes v.unique))
    where
      mid : List String × Manager × W
      mid =
          pause_all h (h.now w).0 (plan_of m (h.now w).0).to_pause
            (record m { sandboxes = (plan_of m (h.now w).0).kept })
            (destroy_all h (plan_of m (h.now w).0).to_kill (h.now w).1)

  pub enforce_timeouts-IsRegistry : IsRegistry (enforce_timeouts h m w).1
  enforce_timeouts-IsRegistry = record {
    unique = sweep-Unique;
    entries = λ id s' at.
        let (s, e, fate) = sweep-Origin id s' at in
        Fate-IsEntry m (h.now w).0 id s s' (v.entries id s e) fate;
  }

  -- After a sweep of a registry that is in order no running sandbox in it has reached its
  -- deadline, even if calls of the runtime have failed.
  pub enforce_timeouts-live :
      (id : String) (s' : Sandbox)
      → lookup id (enforce_timeouts h m w).1.sandboxes ≡ some s'
      → s'.state ≡ State.running
      → (h.now w).0 <ℤ s'.expires_at
  enforce_timeouts-live id s' at runs =
      let (s, e, fate) = sweep-Origin id s' at in Fate-live m (h.now w).0 s s' fate runs
