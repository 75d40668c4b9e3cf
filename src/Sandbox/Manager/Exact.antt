-- ===== src/Sandbox/Manager/Exact.antt =====
-- What the calls on one sandbox promise their callers: deadlines, pauses and what an error leaves.
use edvabe.Prelude.{String, ◌≡◌, ◌≢◌, some, arith}
use edvabe.Prelude.Int.{ℤ, ◌+ℤ◌, ◌<ℤ◌}
use edvabe.Prelude.Dict.{lookup, lookup-insert_self}
use edvabe.Prelude.Result.{ok, err}
use edvabe.Sandbox.{Sandbox, State, frozen, expired}
use edvabe.Sandbox.Host.{Host}
use edvabe.Sandbox.Manager.{Manager, put, set_timeout, wake, connect, pause}
use edvabe.Sandbox.Manager.Registry.{IsRegistry}
use edvabe.Sandbox.Manager.Calls.{set_timeout-IsRegistry}
use edvabe.Sandbox.Manager.Reaper.{verdict, enforce_timeouts}
use edvabe.Sandbox.Manager.Reaper.Sweep.{enforce_timeouts-FateOf}

module _ {W : Type 0} (h : Host W) (id : String) (m : Manager) (w : W) where
  -- In a registry that is in order, a running sandbox whose `Pause` succeeds and whose container
  -- can be unpaused at the following `Connect` is returned by it, and registered, as it was
  -- before, but for the deadline, which lies one timeout after the instant of the `Connect`.
  pub connect-pause :
      (s : Sandbox) (timeout : ℤ)
      → IsRegistry m
      → lookup id m.sandboxes ≡ some s
      → s.state ≡ State.running
      → (h.rt.pause id w).0 ≡ ok tt
      → let (_, m1, w1) = pause h id m w in
        (h.rt.unpause id (h.now w1).1).0 ≡ ok tt
        → let again : Sandbox = record s { expires_at = (h.now w1).0 +ℤ timeout } in
          let r = connect h id timeout m1 w1 in
          (r.0 ≡ ok again) × (lookup id r.1.sandboxes ≡ some again)
  unfolding pause connect wake
  connect-pause s timeout v at runs e e' =
      let now = (h.now (h.rt.pause id w).1).0 in
      let s1 : Sandbox = record s { state = State.paused; pause_mode = frozen; paused_at = now } in
      let again : Sandbox = record s { expires_at = (h.now (pause h id m w).2).0 +ℤ timeout } in
      ground (
        arith,
        at,
        runs,
        e,
        e',
        v.entries id s at,
        lookup-insert_self id s1 m.sandboxes,
        lookup-insert_self id again (put id s1 m).sandboxes,
      )

  -- A registered sandbox that is paused is never refused as expired, however long ago its
  -- deadline was: `Connect` may only fail for another reason, and `SetTimeout` succeeds.
  pub paused-not-expired :
      (s : Sandbox) (timeout : ℤ)
      → lookup id m.sandboxes ≡ some s
      → s.state ≡ State.paused
      → ((connect h id timeout m w).0 ≢ err expired) × ((set_timeout h id timeout m w).0 ≡ ok tt)
  unfolding connect set_timeout
  paused-not-expired s timeout at parked =
      (λ e. ground (arith, at, parked, e), ground (arith, at, parked))

  -- In a registry that is in order, a running sandbox whose `SetTimeout` succeeds is, after a
  -- sweep at an instant before the new deadline, exactly as the call has left it.
  pub set_timeout-keep :
      (s : Sandbox) (timeout : ℤ) (w' : W)
      → IsRegistry m
      → lookup id m.sandboxes ≡ some s
      → s.state ≡ State.running
      → (set_timeout h id timeout m w).0 ≡ ok tt
      → (h.now w').0 <ℤ (h.now w).0 +ℤ timeout
      → lookup id (enforce_timeouts h (set_timeout h id timeout m w).1 w').1.sandboxes
        ≡ some (record s { expires_at = (h.now w).0 +ℤ timeout })
  unfolding set_timeout verdict
  set_timeout-keep s timeout w' v at runs done before = ground (
    arith,
    at,
    runs,
    done,
    lookup-insert_self id (record s { expires_at = (h.now w).0 +ℤ timeout }) m.sandboxes,
    enforce_timeouts-FateOf h (set_timeout h id timeout m w).1 w'
        (set_timeout-IsRegistry h id timeout m w v) id,
  )
