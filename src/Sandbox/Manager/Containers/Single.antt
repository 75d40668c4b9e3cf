-- ===== src/Sandbox/Manager/Containers/Single.antt =====
-- The calls on one sandbox keep the registry in step with the containers.
use edvabe.Prelude.{
  String, ◌≡◌, ◌≢◌, refl, sym, ◌∙◌, subst, ◌⊎◌, inl, inr, some, arith, Option, Option-cases,
}
use edvabe.Prelude.Int.{ℤ, ◌+ℤ◌}
use edvabe.Prelude.Dict.{lookup}
use edvabe.Prelude.Result.{Result-cases}
use edvabe.Runtime.{ContainerState}
use edvabe.Sandbox.{Sandbox, State, PauseMode, unpaused, frozen}
use edvabe.Sandbox.Host.{Host}
use edvabe.Sandbox.Host.Laws.{IsHost}
use edvabe.Sandbox.Manager.{Manager, destroy, set_timeout, pause, halt, stop}
use edvabe.Sandbox.Manager.Containers.{
  Fits, IsTracked, quiet-IsTracked, put-IsTracked, drop_sandbox-IsTracked, moved-IsTracked,
}
use edvabe.Sandbox.Manager.Containers.Resuming.{State-cases}

Frozen-cases : (mode : PauseMode) → (mode ≡ frozen) ⊎ (mode ≢ frozen)
Frozen-cases unpaused = inr (λ e. cc)
Frozen-cases frozen = inl refl
Frozen-cases PauseMode.stopped = inr (λ e. cc)

-- A frozen sandbox has a container that is paused or runs.
frozen-Fits :
    (s : Sandbox) (c : Option ContainerState)
    → s.pause_mode ≡ frozen
    → Fits c s
    → (c ≡ some ContainerState.paused) ⊎ (c ≡ some ContainerState.running)
frozen-Fits s c e fits = ground arith

module _ {W : Type 0} (view : W → String → Option ContainerState) (Sound : W → Type 0) (h : Host W)
    (lawful : IsHost view Sound h) where
  pub destroy-IsTracked :
      (id : String) (m : Manager) (w : W)
      → IsTracked view Sound m w
      → let r = destroy h id m w in IsTracked view Sound r.1 r.2
  unfolding destroy
  destroy-IsTracked id m w t =
      let law = lawful.runtime.destroy_moves id w t.sound in
      ground (
        arith,
        t,
        drop_sandbox-IsTracked view Sound id m w (h.rt.destroy id w).1 law.sound law.others t,
      )

  pub set_timeout-IsTracked :
      (id : String) (timeout : ℤ) (m : Manager) (w : W)
      → IsTracked view Sound m w
      → let r = set_timeout h id timeout m w in IsTracked view Sound r.1 r.2
  unfolding set_timeout
  set_timeout-IsTracked id timeout m w t = elim (Option-cases (lookup id m.sandboxes)) [
    | inl e ↦ rw (e, set_timeout) t
    | inr (s, e) ↦
        let q = lawful.now_quiet w t.sound in
        let t1 = quiet-IsTracked view Sound m w (h.now w).1 q t in
        let s' : Sandbox = record s { expires_at = (h.now w).0 +ℤ timeout } in
        ground (
          arith,
          t1,
          put-IsTracked view Sound id s' m (h.now w).1 (h.now w).1 q.sound (λ j _. refl)
              (t1.fits id s e) t1,
        )
  ]

  pub pause-IsTracked :
      (id : String) (m : Manager) (w : W)
      → IsTracked view Sound m w
      → let r = pause h id m w in IsTracked view Sound r.1 r.2
  unfolding pause
  pause-IsTracked id m w t = elim (Option-cases (lookup id m.sandboxes)) [
    | inl e ↦ rw (e, pause) t
    | inr (s, e) ↦ elim (State-cases s.state) [
      | inr parked ↦ ground (arith, e, parked, t)
      | inl runs ↦
          let moved =
            lawful.runtime.pause_moves id w t.sound (ground (arith, t.fits id s e, runs)) in
          let w1 = (h.rt.pause id w).1 in
          let q = lawful.now_quiet w1 moved.sound in
          let s' : Sandbox = record s {
            state = State.paused;
            pause_mode = frozen;
            paused_at = (h.now w1).0;
          } in
          elim (Result-cases (h.rt.pause id w).0) [
            | inl (_, done) ↦ ground (
              arith,
              e,
              runs,
              done,
              put-IsTracked view Sound id s' m w (h.now w1).1 q.sound
                  (λ j ne. q.same j ∙ moved.others j ne) (inl (q.same id ∙ moved.done tt done)) t,
            )
            | inr (f, failed) ↦ ground (
              arith,
              e,
              runs,
              failed,
              moved-IsTracked view Sound id m w w1 moved.sound moved.others
                  (λ s1 at. subst (λ c. Fits c s1) (sym (moved.failed f failed)) (t.fits id s1 at))
                  t,
            )
          ]
    ]
  ]

  halt-IsTracked :
      (id : String) (s : Sandbox) (m : Manager) (w : W)
      → IsTracked view Sound m w
      → let r = halt h id s m w in IsTracked view Sound r.1 r.2
  unfolding halt
  halt-IsTracked id s m w t =
      let moved = lawful.runtime.stop_moves id w t.sound in
      let w1 = (h.rt.stop id w).1 in
      let q = lawful.now_quiet w1 moved.sound in
      let s' : Sandbox = record s {
        state = State.paused;
        pause_mode = PauseMode.stopped;
        paused_at = (h.now w1).0;
      } in
      elim (Result-cases (h.rt.stop id w).0) [
        | inl (_, done) ↦ ground (
          arith,
          done,
          put-IsTracked view Sound id s' m w (h.now w1).1 q.sound
              (λ j ne. q.same j ∙ moved.others j ne) (inl (q.same id ∙ moved.done tt done)) t,
        )
        | inr (f, failed) ↦ ground (
          arith,
          failed,
          moved-IsTracked view Sound id m w w1 moved.sound moved.others
              (λ s1 at. subst (λ c. Fits c s1) (sym (moved.failed f failed)) (t.fits id s1 at)) t,
        )
      ]

  pub stop-IsTracked :
      (id : String) (m : Manager) (w : W)
      → IsTracked view Sound m w
      → let r = stop h id m w in IsTracked view Sound r.1 r.2
  unfolding stop
  stop-IsTracked id m w t = elim (Option-cases (lookup id m.sandboxes)) [
    | inl e ↦ rw (e, stop) t
    | inr (s, e) ↦ elim (Frozen-cases s.pause_mode) [
      | inr other ↦ ground (arith, e, other, t, halt-IsTracked id s m w t)
      | inl frozen' ↦
          let here = frozen-Fits s (view w id) frozen' (t.fits id s e) in
          let moved = lawful.runtime.unpause_moves id w t.sound here in
          let w1 = (h.rt.unpause id w).1 in
          elim (Result-cases (h.rt.unpause id w).0) [
            | inl (_, done) ↦
                let t1 =
                  moved-IsTracked view Sound id m w w1 moved.sound moved.others
                    (λ s1 at. inr (moved.done tt done)) t in
                ground (arith, e, frozen', done, t, halt-IsTracked id s m w1 t1)
            | inr (f, failed) ↦
                let t1 =
                  moved-IsTracked view Sound id m w w1 moved.sound moved.others
                    (λ s1 at.
                      subst (λ c. Fits c s1) (sym (moved.failed f failed)) (t.fits id s1 at))
                    t in
                ground (arith, e, frozen', failed, t, t1)
          ]
    ]
  ]
