-- ===== src/Tests/Manager.antt =====
-- The sandbox manager's calls on one sandbox, and its sweeps.
use edvabe.Prelude.{String, ◌≡◌, ◌≢◌, refl, List, [], ◌∷◌, some, true, false, length, ◌+◌, ℕ, arith}
use edvabe.Prelude.Int.{pos, ◌+ℤ◌, ◌<ℤ◌}
use edvabe.Prelude.Dict.{lookup, insert}
use edvabe.Prelude.Result.{ok, err}
use edvabe.Runtime.Noop.{managed_all, noop_runtime, change}
use edvabe.Sandbox.{Sandbox, expired}
use edvabe.Sandbox.Manager.{new_manager, connect, pause, set_timeout}
use edvabe.Sandbox.Manager.Create.{resolve_template, create}
use edvabe.Sandbox.Manager.Create.Outcomes.{CreateOutcome, create-CreateOutcome}
use edvabe.Sandbox.Manager.Reaper.{
  enforce_timeouts, excess_frozen, verdict, scan, plan_of, pause_all, demote_all, destroy_all,
}
use edvabe.Sandbox.Manager.Reaper.Cap.{WithinCap, excess_frozen-WithinCap}
use edvabe.Sandbox.Manager.Reaper.Sweep.{FateOf, enforce_timeouts-FateOf, enforce_timeouts-live}
use edvabe.Sandbox.Manager.Registry.{IsRegistry}
use edvabe.Sandbox.Manager.Rehydrate.{rehydrate}
use edvabe.Sandbox.Manager.Rehydrate.Adoption.{
  find_container, revived, or_else, timeout_of, rehydrate_lem, rehydrate_twice,
}
use edvabe.Sandbox.Manager.History.{Call, run, run-new_manager-IsRegistry}
use edvabe.Sandbox.Manager.Exact.{connect-pause, paused-not-expired, set_timeout-keep}
use edvabe.Tests.Fixtures.{
  host, world, empty_world, running_sandbox, frozen_sandbox, options, create_options,
  running_manager, frozen_manager, running_manager-IsRegistry,
}

abbrev day_of_calls : List Call
day_of_calls =
    Call.creates create_options
    ∷ Call.pauses "isb_a"
    ∷ Call.stops "isb_a"
    ∷ Call.sweeps
    ∷ Call.connects "isb_a" (pos 9)
    ∷ []

run-new_manager-IsRegistry_example :
    IsRegistry (run host day_of_calls (new_manager options) empty_world).0
run-new_manager-IsRegistry_example =
    run-new_manager-IsRegistry host options day_of_calls empty_world

enforce_timeouts-FateOf_example :
    FateOf running_manager
      (pos 5)
      (lookup "isb_a" running_manager.sandboxes)
      (lookup "isb_a" (enforce_timeouts host running_manager (world false)).1.sandboxes)
enforce_timeouts-FateOf_example =
    enforce_timeouts-FateOf host running_manager (world false) running_manager-IsRegistry "isb_a"

kept_by_sweep :
    lookup "isb_a" (enforce_timeouts host running_manager (world false)).1.sandboxes
    ≡ some running_sandbox
unfolding enforce_timeouts lookup insert new_manager verdict scan plan_of excess_frozen pause_all
    demote_all destroy_all
kept_by_sweep = refl

enforce_timeouts-live_example : pos 5 <ℤ running_sandbox.expires_at
enforce_timeouts-live_example =
    enforce_timeouts-live host running_manager (world false) running_manager-IsRegistry "isb_a"
      running_sandbox kept_by_sweep refl

excess_frozen-WithinCap_example :
    (left : List (String × Sandbox)) × WithinCap
      (pos 1)
      (("isb_a", frozen_sandbox) ∷ ("isb_b", frozen_sandbox) ∷ [])
      (excess_frozen (pos 1) (("isb_a", frozen_sandbox) ∷ ("isb_b", frozen_sandbox) ∷ []))
      left
excess_frozen-WithinCap_example =
    excess_frozen-WithinCap (pos 1) (("isb_a", frozen_sandbox) ∷ ("isb_b", frozen_sandbox) ∷ [])
      (omega arith)

create-CreateOutcome_example :
    CreateOutcome create_options
      (λ t. resolve_template host (new_manager options) t empty_world)
      (host.new_sandbox_id empty_world).0
      (new_manager options)
      (create host create_options (new_manager options) empty_world).0
      (create host create_options (new_manager options) empty_world).1
create-CreateOutcome_example =
    create-CreateOutcome host create_options (new_manager options) empty_world

listed : (host.rt.list_managed (world false)).0 ≡ ok (managed_all (world false).0.sandboxes)
unfolding noop_runtime
listed = refl

rehydrate_lem_example :
    ((id : String)
      → lookup id (rehydrate host (pos 7) (new_manager options) (world false)).1.sandboxes
        ≡ or_else (lookup id (new_manager options).sandboxes) (
            revived
              (pos 5)
              (timeout_of (pos 7))
              (find_container id (managed_all (world false).0.sandboxes))))
    × ((n : ℕ) × ((rehydrate host (pos 7) (new_manager options) (world false)).0 ≡ ok n)
        × (n + length (new_manager options).sandboxes
            ≡ length (rehydrate host (pos 7) (new_manager options) (world false)).1.sandboxes))
unfolding noop_runtime
rehydrate_lem_example =
    rehydrate_lem host (pos 7) (new_manager options) (world false)
      (managed_all (world false).0.sandboxes) listed

rehydrate_twice_example :
    ((rehydrate host
        (pos 7)
        (rehydrate host (pos 7) (new_manager options) (world false)).1
        (world false)).0
      ≡ ok 0)
    × ((rehydrate host
          (pos 7)
          (rehydrate host (pos 7) (new_manager options) (world false)).1
          (world false)).1
        ≡ (rehydrate host (pos 7) (new_manager options) (world false)).1)
rehydrate_twice_example =
    rehydrate_twice host (pos 7) (new_manager options) (world false)
      (managed_all (world false).0.sandboxes) (pos 7) (world false) listed listed

registered : lookup "isb_a" running_manager.sandboxes ≡ some running_sandbox
unfolding lookup insert new_manager
registered = refl

registered_frozen : lookup "isb_a" frozen_manager.sandboxes ≡ some frozen_sandbox
unfolding lookup insert new_manager
registered_frozen = refl

paused_ok : (host.rt.pause "isb_a" (world false)).0 ≡ ok tt
unfolding noop_runtime change lookup
paused_ok = refl

thawed_ok :
    let w1 = (pause host "isb_a" running_manager (world false)).2 in
    (host.rt.unpause "isb_a" (host.now w1).1).0 ≡ ok tt
unfolding pause noop_runtime change lookup insert new_manager
thawed_ok = refl

connect-pause_example :
    let (_, m1, w1) = pause host "isb_a" running_manager (world false) in
    let again : Sandbox = record running_sandbox { expires_at = (host.now w1).0 +ℤ pos 7 } in
    let r = connect host "isb_a" (pos 7) m1 w1 in
    (r.0 ≡ ok again) × (lookup "isb_a" r.1.sandboxes ≡ some again)
connect-pause_example =
    connect-pause host "isb_a" running_manager (world false) running_sandbox (pos 7)
      running_manager-IsRegistry registered refl paused_ok thawed_ok

paused-not-expired_example :
    ((connect host "isb_a" (pos 7) frozen_manager (world true)).0 ≢ err expired)
    × ((set_timeout host "isb_a" (pos 7) frozen_manager (world true)).0 ≡ ok tt)
paused-not-expired_example =
    paused-not-expired host "isb_a" frozen_manager (world true) frozen_sandbox (pos 7)
      registered_frozen refl

renewed_ok : (set_timeout host "isb_a" (pos 50) running_manager (world false)).0 ≡ ok tt
unfolding set_timeout lookup insert new_manager
renewed_ok = refl

set_timeout-keep_example :
    lookup "isb_a"
      (enforce_timeouts host
        (set_timeout host "isb_a" (pos 50) running_manager (world false)).1
        (world false)).1.sandboxes
    ≡ some (record running_sandbox { expires_at = pos 5 +ℤ pos 50 })
unfolding ◌+ℤ◌
set_timeout-keep_example =
    set_timeout-keep host "isb_a" running_manager (world false) running_sandbox (pos 50)
      (world false) running_manager-IsRegistry registered refl renewed_ok (omega arith)
