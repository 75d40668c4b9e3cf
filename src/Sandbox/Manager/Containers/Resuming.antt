-- ===== src/Sandbox/Manager/Containers/Resuming.antt =====
-- `Resume` and `Connect` keep the registry in step with the containers.
use edvabe.Prelude.{String, ◌≡◌, refl, subst, ◌⊎◌, inl, inr, some, arith, Option, Option-cases}
use edvabe.Prelude.Int.{ℤ, ◌+ℤ◌}
use edvabe.Prelude.Dict.{lookup}
use edvabe.Prelude.Result.{Result-cases}
use edvabe.Runtime.{ContainerState}
use edvabe.Sandbox.{Sandbox, State}
use edvabe.Sandbox.Host.{Host}
use edvabe.Sandbox.Host.Laws.{IsHost}
use edvabe.Sandbox.Manager.{Manager, awake, wake, connect, resume}
use edvabe.Sandbox.Manager.Registry.{IsRegistry}
use edvabe.Sandbox.Manager.Containers.{
  Fits, IsTracked, quiet-IsTracked, put-IsTracked, moved-IsTracked,
}
use edvabe.Sandbox.Manager.Containers.Waking.{wake-Woken}

same_entry :
    (id : String) (m : Manager) (s s' : Sandbox)
    → lookup id m.sandboxes ≡ some s
    → lookup id m.sandboxes ≡ some s'
    → s ≡ s'
same_entry id m s s' e e' = cc

pub State-cases : (st : State) → (st ≡ State.running) ⊎ (st ≡ State.paused)
State-cases State.running = inl refl
State-cases State.paused = inr refl

module _ {W : Type 0} (view : W → String → Option ContainerState) (Sound : W → Type 0) (h : Host W)
    (lawful : IsHost view Sound h) where
  pub resume-IsTracked :
      (id : String) (m : Manager) (w : W)
      → IsRegistry m
      → IsTracked view Sound m w
      → let r = resume h id m w in IsTracked view Sound r.1 r.2
  unfolding resume
  resume-IsTracked id m w v t = elim (Option-cases (lookup id m.sandboxes)) [
    | inl e ↦ rw (e, resume) t
    | inr (s, e) ↦ elim (State-cases s.state) [
      | inl runs ↦ ground (arith, e, runs, t)
      | inr parked ↦
          let woken =
            wake-Woken view Sound h lawful id s w t.sound (v.entries id s e).0 parked
              (t.fits id s e) in
          elim (Result-cases (wake h id s w).0) [
            | inl (s', up) ↦ ground (
              arith,
              e,
              parked,
              up,
              put-IsTracked view Sound id (awake s') m w (wake h id s w).1 woken.sound woken.others
                  (inr (woken.up s' up)) t,
            )
            | inr (f, down) ↦ ground (
              arith,
              e,
              parked,
              down,
              moved-IsTracked view Sound id m w (wake h id s w).1 woken.sound woken.others
                  (λ s1 at.
                    subst (λ x. Fits (view (wake h id s w).1 id) x) (same_entry id m s s1 e at)
                      (woken.half f down))
                  t,
            )
          ]
    ]
  ]

  pub connect-IsTracked :
      (id : String) (timeout : ℤ) (m : Manager) (w : W)
      → IsRegistry m
      → IsTracked view Sound m w
      → let r = connect h id timeout m w in IsTracked view Sound r.1 r.2
  unfolding connect
  connect-IsTracked id timeout m w v t = elim (Option-cases (lookup id m.sandboxes)) [
    | inl e ↦ rw (e, connect) t
    | inr (s, e) ↦
        let q = lawful.now_quiet w t.sound in
        let w1 = (h.now w).1 in
        let t1 = quiet-IsTracked view Sound m w w1 q t in
        let s1 : Sandbox = record s { expires_at = (h.now w).0 +ℤ timeout } in
        elim (State-cases s.state) [
          | inl runs ↦ ground (
            arith,
            e,
            runs,
            t1,
            put-IsTracked view Sound id s1 m w1 w1 q.sound (λ j _. refl) (t1.fits id s e) t1,
          )
          | inr parked ↦
              let woken =
                wake-Woken view Sound h lawful id s1 w1 q.sound (v.entries id s e).0 parked
                  (t1.fits id s e) in
              let w2 = (wake h id s1 w1).1 in
              elim (Result-cases (wake h id s1 w1).0) [
                | inl (s', up) ↦ ground (
                  arith,
                  e,
                  parked,
                  up,
                  put-IsTracked view Sound id (awake s') m w1 w2 woken.sound woken.others
                      (inr (woken.up s' up)) t1,
                )
                | inr (f, down) ↦ ground (
                  arith,
                  e,
                  parked,
                  down,
                  put-IsTracked view Sound id s1 m w1 w2 woken.sound woken.others
                      (woken.half f down) t1,
                )
              ]
        ]
  ]
