-- ===== src/Sandbox/Manager/Containers/Waking.antt =====
-- Waking a parked sandbox: its container runs in the end, or after a failure stays or runs.
use edvabe.Prelude.{String, ◌≡◌, ◌≢◌, refl, sym, ◌∙◌, subst, ◌⊎◌, inl, inr, some, arith, Option}
use edvabe.Prelude.Result.{Result, ok, err, Result-cases}
use edvabe.Runtime.{ContainerState}
use edvabe.Runtime.Laws.{IsQuiet}
use edvabe.Sandbox.{Sandbox, State, PauseMode, unpaused, frozen}
use edvabe.Sandbox.Host.{Host}
use edvabe.Sandbox.Host.Laws.{IsHost}
use edvabe.Sandbox.Manager.{init_config, resume_stopped, thaw, wake}
use edvabe.Sandbox.Manager.Containers.{Fits, Apart}

module _ {W : Type 0} (view : W → String → Option ContainerState) (Sound : W → Type 0) (h : Host W)
    (lawful : IsHost view Sound h) where
  -- What waking leaves of the world.
  pub record Woken (id : String) (s : Sandbox) (w : W) (r : Result String Sandbox × W)
      : Type 0 where
    pub sound : Sound r.1
    pub others : Apart view Sound id w r.1
    pub up : (s' : Sandbox) → r.0 ≡ ok s' → view r.1 id ≡ some ContainerState.running
    pub half : (e : String) → r.0 ≡ err e → Fits (view r.1 id) s

  -- A world in which only this container has moved, and runs.
  record IsUp (id : String) (w w' : W) : Type 0 where
    sound : Sound w'
    others : Apart view Sound id w w'
    up : view w' id ≡ some ContainerState.running

  quiet-IsUp : (id : String) (w w1 w2 : W) → IsUp id w w1 → IsQuiet view Sound w1 w2 → IsUp id w w2
  quiet-IsUp id w w1 w2 a q = record {
    sound = q.sound;
    others = λ j ne. q.same j ∙ a.others j ne;
    up = q.same id ∙ a.up;
  }

  IsUp-Woken :
      (id : String) (s : Sandbox) (w w' : W) (r : Result String Sandbox)
      → IsUp id w w'
      → Woken id s w (r, w')
  IsUp-Woken id s w w' r a = record {
    sound = a.sound;
    others = a.others;
    up = λ _ _. a.up;
    half = λ _ _. inr a.up;
  }

  start-IsUp :
      (id : String) (w : W)
      → Sound w
      → (view w id ≡ some ContainerState.stopped) ⊎ (view w id ≡ some ContainerState.running)
      → (h.rt.start id w).0 ≡ ok tt
      → IsUp id w (h.rt.start id w).1
  start-IsUp id w sound here e =
      let moved = lawful.runtime.start_moves id w sound here in
      record { sound = moved.sound; others = moved.others; up = moved.done tt e }

  -- `resume_stopped` may fail with the container awake already.
  resume_stopped-Woken :
      (s : Sandbox) (w : W)
      → Sound w
      → (view w s.id ≡ some ContainerState.stopped) ⊎ (view w s.id ≡ some ContainerState.running)
      → Fits (view w s.id) s
      → Woken s.id s w (resume_stopped h s w)
  unfolding resume_stopped
  resume_stopped-Woken s w sound here fits =
      let moved = lawful.runtime.start_moves s.id w sound here in
      let w1 = (h.rt.start s.id w).1 in
      let w2 = (h.rt.agent_endpoint s.id w1).1 in
      elim (Result-cases (h.rt.start s.id w).0) [
        | inr (e, failed) ↦
            rw (failed, resume_stopped)
              (record {
                sound = moved.sound;
                others = moved.others;
                up = λ s' q. cc;
                half = λ _ _. subst (λ c. Fits c s) (sym (moved.failed e failed)) fits;
              })
        | inl (_, started) ↦
            let a1 = start-IsUp s.id w sound here started in
            let a2 =
              quiet-IsUp s.id w w1 w2 a1 (lawful.runtime.endpoint_quiet s.id w1 moved.sound) in
            elim (Result-cases (h.rt.agent_endpoint s.id w1).0) [
              | inr (e, lost) ↦ rw (started, lost, resume_stopped) (IsUp-Woken s.id s w w2 _ a2)
              | inl (at, found) ↦
                  let w3 = (h.ap.ping at w2).1 in
                  let w4 = (h.ap.init_agent at (init_config s) w3).1 in
                  let a3 = quiet-IsUp s.id w w2 w3 a2 (lawful.ping_quiet at w2 a2.sound) in
                  let a4 =
                    quiet-IsUp s.id w w3 w4 a3 (lawful.init_quiet at (init_config s) w3 a3.sound) in
                  elim (Result-cases (h.ap.ping at w2).0) [
                    | inr (e, mute) ↦
                        rw (started, found, mute, resume_stopped) (IsUp-Woken s.id s w w3 _ a3)
                    | inl (_, pinged) ↦
                        elim (Result-cases (h.ap.init_agent at (init_config s) w3).0) [
                          | inr (e, refused) ↦
                              rw (started, found, pinged, refused, resume_stopped)
                                (IsUp-Woken s.id s w w4 _ a4)
                          | inl (_, inited) ↦
                              rw (started, found, pinged, inited, resume_stopped)
                                (IsUp-Woken s.id s w w4 _ a4)
                        ]
                  ]
            ]
      ]

  thaw-Woken :
      (id : String) (s : Sandbox) (w : W)
      → Sound w
      → (view w id ≡ some ContainerState.paused) ⊎ (view w id ≡ some ContainerState.running)
      → Fits (view w id) s
      → Woken id s w (thaw h id s w)
  unfolding thaw
  thaw-Woken id s w sound here fits =
      let moved = lawful.runtime.unpause_moves id w sound here in
      elim (Result-cases (h.rt.unpause id w).0) [
        | inl (_, done) ↦
            rw (done, thaw)
              (record {
                sound = moved.sound;
                others = moved.others;
                up = λ _ _. moved.done tt done;
                half = λ e q. cc;
              })
        | inr (e, failed) ↦
            rw (failed, thaw)
              (record {
                sound = moved.sound;
                others = moved.others;
                up = λ s' q. cc;
                half = λ _ _. subst (λ c. Fits c s) (sym (moved.failed e failed)) fits;
              })
      ]

  Stopped-cases : (mode : PauseMode) → (mode ≡ PauseMode.stopped) ⊎ (mode ≢ PauseMode.stopped)
  Stopped-cases unpaused = inr (λ e. cc)
  Stopped-cases frozen = inr (λ e. cc)
  Stopped-cases PauseMode.stopped = inl refl

  wake-stopped :
      (id : String) (s : Sandbox) (w : W)
      → s.pause_mode ≡ PauseMode.stopped
      → wake h id s w ≡ resume_stopped h s w
  unfolding wake
  wake-stopped id s w e = ground (arith, e)

  wake-frozen :
      (id : String) (s : Sandbox) (w : W)
      → s.pause_mode ≢ PauseMode.stopped
      → wake h id s w ≡ thaw h id s w
  unfolding wake
  wake-frozen id s w e = ground (arith, e)

  pub wake-Woken :
      (id : String) (s : Sandbox) (w : W)
      → Sound w
      → s.id ≡ id
      → s.state ≡ State.paused
      → Fits (view w id) s
      → Woken id s w (wake h id s w)
  wake-Woken id s w sound named parked fits = elim (Stopped-cases s.pause_mode) [
    | inl e ↦
        let fits' = subst (λ k. Fits (view w k) s) (sym named) fits in
        subst (λ k. Woken k s w (wake h id s w)) named
          (subst (Woken s.id s w) (sym (wake-stopped id s w e))
            (resume_stopped-Woken s w sound (ground (arith, fits', parked, e)) fits'))
    | inr e ↦
        subst (Woken id s w) (sym (wake-frozen id s w e))
          (thaw-Woken id s w sound (ground (arith, fits, parked, e)) fits)
  ]
