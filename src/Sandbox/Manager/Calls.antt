-- ===== src/Sandbox/Manager/Calls.antt =====
-- Every call keeps the registry in shape, whatever the runtime, the agent and the clock answer.
use edvabe.Prelude.{String, ◌≡◌, refl, ◌∙◌, arith, Option-cases, inl, inr}
use edvabe.Prelude.Int.{ℤ, ◌+ℤ◌}
use edvabe.Prelude.Dict.{lookup}
use edvabe.Prelude.Result.{ok, Result-cases}
use edvabe.Sandbox.{Sandbox, State, PauseMode, frozen}
use edvabe.Sandbox.Host.{Host}
use edvabe.Sandbox.Manager.{
  Manager, awake, destroy, set_timeout, resume_stopped, wake, connect, pause, halt, stop, resume,
}
use edvabe.Sandbox.Manager.Registry.{IsEntry, IsRegistry, put-IsRegistry, drop_sandbox-IsRegistry}

module _ {W : Type 0} (h : Host W) where
  -- Waking changes the endpoint at most.
  id-wake : (id : String) (s s' : Sandbox) (w : W) → (wake h id s w).0 ≡ ok s' → s'.id ≡ s.id
  unfolding wake resume_stopped
  id-wake id s s' w e = ground arith

  pub set_timeout-IsRegistry :
      (id : String) (timeout : ℤ) (m : Manager) (w : W)
      → IsRegistry m
      → IsRegistry (set_timeout h id timeout m w).1
  unfolding set_timeout
  set_timeout-IsRegistry id timeout m w v = elim (Option-cases (lookup id m.sandboxes)) [
    | inl e ↦ rw (e, set_timeout) v
    | inr (s, e) ↦
        let now = (h.now w).0 in
        ground (
          arith,
          put-IsRegistry id (record s { expires_at = now +ℤ timeout }) m (v.entries id s e) v,
        )
  ]

  pub destroy-IsRegistry :
      (id : String) (m : Manager) (w : W) → IsRegistry m → IsRegistry (destroy h id m w).1
  unfolding destroy
  destroy-IsRegistry id m w v = ground (arith, drop_sandbox-IsRegistry id m v)

  pub pause-IsRegistry :
      (id : String) (m : Manager) (w : W) → IsRegistry m → IsRegistry (pause h id m w).1
  unfolding pause
  pause-IsRegistry id m w v = elim (Option-cases (lookup id m.sandboxes)) [
    | inl e ↦ rw (e, pause) v
    | inr (s, e) ↦
        let now = (h.now (h.rt.pause id w).1).0 in
        let s' : Sandbox = record s {
          state = State.paused;
          pause_mode = frozen;
          paused_at = now;
        } in
        ground (arith, put-IsRegistry id s' m ((v.entries id s e).0, λ q. cc) v)
  ]

  halt-IsRegistry :
      (id : String) (s : Sandbox) (m : Manager) (w : W)
      → s.id ≡ id
      → IsRegistry m
      → IsRegistry (halt h id s m w).1
  unfolding halt
  halt-IsRegistry id s m w named v =
      let now = (h.now (h.rt.stop id w).1).0 in
      let s' : Sandbox = record s {
        state = State.paused;
        pause_mode = PauseMode.stopped;
        paused_at = now;
      } in
      ground (arith, put-IsRegistry id s' m (named, λ q. cc) v)

  pub stop-IsRegistry :
      (id : String) (m : Manager) (w : W) → IsRegistry m → IsRegistry (stop h id m w).1
  unfolding stop
  stop-IsRegistry id m w v = elim (Option-cases (lookup id m.sandboxes)) [
    | inl e ↦ rw (e, stop) v
    | inr (s, e) ↦
        let named = (v.entries id s e).0 in
        ground (
          arith,
          halt-IsRegistry id s m w named v,
          halt-IsRegistry id s m (h.rt.unpause id w).1 named v,
        )
  ]

  -- A sandbox that woke up stands under its identifier and runs.
  awake-IsEntry :
      (id : String) (s s' : Sandbox) (w : W)
      → s.id ≡ id
      → (wake h id s w).0 ≡ ok s'
      → IsEntry id (awake s')
  awake-IsEntry id s s' w named woken = (id-wake id s s' w woken ∙ named, (refl, refl))

  pub resume-IsRegistry :
      (id : String) (m : Manager) (w : W) → IsRegistry m → IsRegistry (resume h id m w).1
  unfolding resume
  resume-IsRegistry id m w v = elim (Option-cases (lookup id m.sandboxes)) [
    | inl e ↦ rw (e, resume) v
    | inr (s, e) ↦ elim (Result-cases (wake h id s w).0) [
      | inl (s', r) ↦
          let entry = awake-IsEntry id s s' w (v.entries id s e).0 r in
          ground (arith, put-IsRegistry id (awake s') m entry v)
      | inr (f, r) ↦ ground (arith, v)
    ]
  ]

  pub connect-IsRegistry :
      (id : String) (timeout : ℤ) (m : Manager) (w : W)
      → IsRegistry m
      → IsRegistry (connect h id timeout m w).1
  unfolding connect
  connect-IsRegistry id timeout m w v = elim (Option-cases (lookup id m.sandboxes)) [
    | inl e ↦ rw (e, connect) v
    | inr (s, e) ↦
        let s1 : Sandbox = record s { expires_at = (h.now w).0 +ℤ timeout } in
        let renewed = put-IsRegistry id s1 m (v.entries id s e) v in
        elim (Result-cases (wake h id s1 (h.now w).1).0) [
          | inl (s', r) ↦
              let entry = awake-IsEntry id s1 s' (h.now w).1 (v.entries id s e).0 r in
              ground (arith, renewed, put-IsRegistry id (awake s') m entry v)
          | inr (f, r) ↦ ground (arith, renewed)
        ]
  ]
