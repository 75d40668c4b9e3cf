-- ===== src/Sandbox/Manager/Containers/Sweeping.antt =====
-- A sweep and the containers.
use edvabe.Prelude.{
  String, ◌≡◌, refl, sym, ◌∙◌, subst, ◌⊎◌, inl, inr, none, some, Bool, true, false, arith, Option,
  List, [], ◌∷◌, ◌==◌, eq_iff, eq_refl, if◌then◌else◌,
}
use edvabe.Prelude.Int.{ℤ}
use edvabe.Prelude.Dict.{lookup, lookup-insert, lookup-delete, Unique}
use edvabe.Prelude.Result.{Result-cases}
use edvabe.Runtime.{ContainerState}
use edvabe.Sandbox.{Sandbox, State}
use edvabe.Sandbox.Host.{Host}
use edvabe.Sandbox.Host.Laws.{IsHost}
use edvabe.Sandbox.Manager.{Manager, put, drop_sandbox}
use edvabe.Sandbox.Manager.Registry.{IsRegistry}
use edvabe.Sandbox.Manager.Reaper.{
  Verdict, kill, collect, verdict, Entries, Plan, scan, plan_of, destroy_all, pause_all, demote_all,
  enforce_timeouts,
}
use edvabe.Sandbox.Manager.Reaper.Scan.{
  lookup-kept, lookup-to_pause, lookup-to_demote, lookup-frozen_held, to_pause-Unique,
  frozen_held-Unique, picked, stays, is_freeze, is_demote, is_hold,
}
use edvabe.Sandbox.Manager.Reaper.Order.{lookup-excess_frozen}
use edvabe.Sandbox.Manager.Reaper.Phases.{frozen_at, stopped_at}
use edvabe.Sandbox.Manager.Reaper.Sweep.{lookup-demoted, demoted-Unique, enforce_timeouts-FateOf}
use edvabe.Sandbox.Manager.Containers.{
  Fits, IsTracked, quiet-IsTracked, put-IsTracked, drop_sandbox-IsTracked, moved-IsTracked,
}

abbrev mem : String → List String → Bool
mem j [] = false
mem j (id ∷ ids) = if id == j then true else mem j ids

abbrev is_kill : Verdict → Bool
is_kill kill = true
is_kill _ = false

abbrev is_collect : Verdict → Bool
is_collect collect = true
is_collect _ = false

module _ (m : Manager) (now : ℤ) where
  abbrev judged : (Verdict → Bool) → Option Sandbox → Bool
  judged f none = false
  judged f (some s) = f (verdict m now s)

  mem-to_kill :
      (es : Entries) (j : String)
      → Unique es
      → mem j (scan m now es).to_kill ≡ judged is_kill (lookup j es)
  unfolding scan lookup
  mem-to_kill [] j u = refl
  mem-to_kill ((id, s) ∷ rest) j (fresh, u) = ground (arith, mem-to_kill rest j u, eq_iff id j)

  mem-to_gc :
      (es : Entries) (j : String)
      → Unique es
      → mem j (scan m now es).to_gc ≡ judged is_collect (lookup j es)
  unfolding scan lookup
  mem-to_gc [] j u = refl
  mem-to_gc ((id, s) ∷ rest) j (fresh, u) = ground (arith, mem-to_gc rest j u, eq_iff id j)

  picked-freeze :
      (o : Option Sandbox) (s : Sandbox)
      → picked m now is_freeze o ≡ some s
      → (picked m now stays o ≡ some s) × (s.state ≡ State.running)
  unfolding verdict
  picked-freeze none s e = ground arith
  picked-freeze (some s') s e = ground arith

  picked-demote :
      (o : Option Sandbox) (s : Sandbox)
      → (picked m now is_demote o ≡ some s) ⊎ (picked m now is_hold o ≡ some s)
      → s.state ≡ State.paused
  unfolding verdict
  picked-demote none s e = ground arith
  picked-demote (some s') s e = ground arith

module _ {W : Type 0} (view : W → String → Option ContainerState) (Sound : W → Type 0) (h : Host W)
    (lawful : IsHost view Sound h) where
  -- Containers that no sandbox of the registry has may go.
  destroy_all-IsTracked :
      (ids : List String) (m : Manager) (w : W)
      → ((j : String) → mem j ids ≡ true → lookup j m.sandboxes ≡ none)
      → IsTracked view Sound m w
      → IsTracked view Sound m (destroy_all h ids w)
  unfolding destroy_all
  destroy_all-IsTracked [] m w gone t = t
  destroy_all-IsTracked (id ∷ ids) m w gone t =
      let moved = lawful.runtime.destroy_moves id w t.sound in
      let w1 = (h.rt.destroy id w).1 in
      destroy_all-IsTracked ids m w1 (λ j e. gone j (ground (arith, e)))
        (moved-IsTracked view Sound id m w w1 moved.sound moved.others
          (λ s at. absurd (ground (arith, at, gone id, eq_refl id))) t)

  module _ (now : ℤ) where
    pause_all-IsTracked :
        (es : Entries) (m : Manager) (w : W)
        → Unique es
        → ((j : String) (s : Sandbox)
            → lookup j es ≡ some s
            → (lookup j m.sandboxes ≡ some s) × (s.state ≡ State.running))
        → IsTracked view Sound m w
        → let r = pause_all h now es m w in IsTracked view Sound r.1 r.2
    unfolding pause_all lookup
    pause_all-IsTracked [] m w u due t = t
    pause_all-IsTracked ((id, s) ∷ rest) m w (fresh, u) due t =
        let here = due id s (ground (arith, eq_refl id)) in
        let moved = lawful.runtime.pause_moves id w t.sound (ground (arith, t.fits id s, here)) in
        let w1 = (h.rt.pause id w).1 in
        elim (Result-cases (h.rt.pause id w).0) [
          | inl (_, done) ↦
              rw (done, pause_all)
                (pause_all-IsTracked rest (put id (frozen_at now s) m) w1 u
                  (λ j s' at. ground (
                    arith,
                    at,
                    fresh,
                    due j s',
                    eq_iff id j,
                    lookup-insert id j (frozen_at now s) m.sandboxes,
                  ))
                  (put-IsTracked view Sound id (frozen_at now s) m w w1 moved.sound moved.others
                    (inl (moved.done tt done)) t))
          | inr (f, failed) ↦
              let w2 = (h.rt.destroy id w1).1 in
              let moved' = lawful.runtime.destroy_moves id w1 moved.sound in
              rw (failed, pause_all)
                (pause_all-IsTracked rest (drop_sandbox id m) w2 u
                  (λ j s' at.
                    ground
                      (arith, at, fresh, due j s', eq_iff id j, lookup-delete id j m.sandboxes))
                  (drop_sandbox-IsTracked view Sound id m w w2 moved'.sound
                    (λ j ne. moved'.others j ne ∙ moved.others j ne) t))
        ]

    demote_all-IsTracked :
        (es : Entries) (m : Manager) (w : W)
        → Unique es
        → ((j : String) (s : Sandbox) → lookup j es ≡ some s → s.state ≡ State.paused)
        → IsTracked view Sound m w
        → let r = demote_all h now es m w in IsTracked view Sound r.1 r.2
    unfolding demote_all lookup
    demote_all-IsTracked [] m w u parked t = t
    demote_all-IsTracked ((id, s) ∷ rest) m w (fresh, u) parked t =
        let here = parked id s (ground (arith, eq_refl id)) in
        let others : (j : String) (s' : Sandbox)
            → lookup j rest ≡ some s'
            → s'.state ≡ State.paused =
          λ j s' at. ground (arith, at, fresh, parked j s', eq_iff id j) in
        let moved = lawful.runtime.stop_moves id w t.sound in
        let w1 = (h.rt.stop id w).1 in
        elim (Result-cases (h.rt.stop id w).0) [
          | inl (_, done) ↦
              rw (done, demote_all)
                (demote_all-IsTracked rest (put id (stopped_at now s) m) w1 u others (
                  put-IsTracked view Sound id (stopped_at now s) m w w1 moved.sound moved.others
                    (inl (rw here (moved.done tt done))) t))
          | inr (f, failed) ↦
              rw (failed, demote_all)
                (demote_all-IsTracked rest m w1 u others (
                  moved-IsTracked view Sound id m w w1 moved.sound moved.others
                    (λ s1 at.
                      subst (λ c. Fits c s1) (sym (moved.failed f failed)) (t.fits id s1 at))
                    t))
        ]

  pub enforce_timeouts-IsTracked :
      (m : Manager) (w : W)
      → IsRegistry m
      → IsTracked view Sound m w
      → let r = enforce_timeouts h m w in IsTracked view Sound r.1 r.2
  unfolding enforce_timeouts plan_of
  enforce_timeouts-IsTracked m w v t =
      destroy_all-IsTracked p.to_gc last.1 last.2
        (λ j listed. ground (
          arith,
          listed,
          mem-to_gc m now m.sandboxes j v.unique,
          enforce_timeouts-FateOf h m w v j,
        ))
        t4
    where
      now : ℤ
      now = (h.now w).0

      p : Plan
      p = scan m now m.sandboxes

      start : Manager
      start = record m { sandboxes = p.kept }

      w1 : W
      w1 = (h.now w).1

      w2 : W
      w2 = destroy_all h p.to_kill w1

      mid : List String × Manager × W
      mid = pause_all h now p.to_pause start w2

      last : List String × Manager × W
      last = demote_all h now (plan_of m now).to_demote mid.1 mid.2

      t1 : IsTracked view Sound start w1
      t1 =
          let q = lawful.now_quiet w t.sound in
          record {
            sound = q.sound;
            fits = λ id s at. ground (
              arith,
              at,
              lookup-kept m now m.sandboxes id v.unique,
              (quiet-IsTracked view Sound m w w1 q t).fits id s,
            );
          }

      t2 : IsTracked view Sound start w2
      t2 =
          destroy_all-IsTracked p.to_kill start w1
            (λ j listed. ground (
              arith,
              listed,
              mem-to_kill m now m.sandboxes j v.unique,
              lookup-kept m now m.sandboxes j v.unique,
            ))
            t1

      t3 : IsTracked view Sound mid.1 mid.2
      t3 =
          pause_all-IsTracked now p.to_pause start w2 (to_pause-Unique m now m.sandboxes v.unique)
            (λ j s at. ground (
              arith,
              at,
              lookup-to_pause m now m.sandboxes j v.unique,
              lookup-kept m now m.sandboxes j v.unique,
              picked-freeze m now (lookup j m.sandboxes) s,
            ))
            t2

      t4 : IsTracked view Sound last.1 last.2
      t4 =
          demote_all-IsTracked now (plan_of m now).to_demote mid.1 mid.2
            (demoted-Unique m now v.unique)
            (λ j s at. ground (
              arith,
              at,
              lookup-demoted m now v.unique j,
              lookup-to_demote m now m.sandboxes j v.unique,
              lookup-frozen_held m now m.sandboxes j v.unique,
              lookup-excess_frozen m.max_frozen p.frozen_held j
                  (frozen_held-Unique m now m.sandboxes v.unique),
              picked-demote m now (lookup j m.sandboxes) s,
            ))
            t3
