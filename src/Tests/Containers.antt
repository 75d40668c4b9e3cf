-- ===== src/Tests/Containers.antt =====
-- The registry and the containers, over the in-memory runtime.
use edvabe.Prelude.{
  String, ◌≡◌, ◌≢◌, refl, List, [], ◌∷◌, none, some, false, arith, Option-cases, inl, inr,
}
use edvabe.Prelude.Int.{pos, ◌+ℤ◌}
use edvabe.Prelude.Dict.{lookup}
use edvabe.Prelude.Result.{ok, err}
use edvabe.Runtime.{ContainerState}
use edvabe.Runtime.Laws.{IsRuntime}
use edvabe.Runtime.Noop.{noop_runtime, create, destroy, entry_of}
use edvabe.Runtime.Noop.Keeps.{noop_view, IsNoop, noop_runtime-IsRuntime}
use edvabe.Sandbox.{Sandbox, State, unpaused, Error, failed}
use edvabe.Sandbox.Manager.{new_manager}
use edvabe.Sandbox.Manager.Create.{
  create as create_sandbox, with_defaults, draft, request, enlist, handshake, resolve_template,
  limit_of, clone_map,
}
use edvabe.Sandbox.Manager.History.{Call, run}
use edvabe.Sandbox.Manager.Containers.{IsTracked}
use edvabe.Sandbox.Manager.Containers.Birth.{create-running, create-leaks_nothing}
use edvabe.Sandbox.Manager.Containers.Always.{run-new_manager-IsTracked}
use edvabe.Tests.Fixtures.{
  host, host-IsHost, tick, World, world, empty_world, empty_world-IsNoop, options, create_options,
  sandbox,
}

noop_runtime-IsRuntime_example : IsRuntime noop_view IsNoop (noop_runtime tick)
noop_runtime-IsRuntime_example = noop_runtime-IsRuntime tick

abbrev calls : List Call
calls =
    Call.creates create_options
    ∷ Call.pauses "isb_a"
    ∷ Call.sweeps
    ∷ Call.rehydrates (pos 9)
    ∷ Call.resumes "isb_a"
    ∷ []

run-new_manager-IsTracked_example :
    let r = run host calls (new_manager options) empty_world in IsTracked noop_view IsNoop r.0 r.1
run-new_manager-IsTracked_example =
    run-new_manager-IsTracked noop_view IsNoop host host-IsHost options calls empty_world
      empty_world-IsNoop

abbrev born : Sandbox
born = record (sandbox State.running unpaused (pos 0) (pos 6)) { created_at = pos 2 }

born_ok : (create_sandbox host create_options (new_manager options) empty_world).0 ≡ ok born
unfolding create_sandbox with_defaults draft request enlist handshake resolve_template limit_of
    clone_map noop_runtime create entry_of lookup new_manager ◌+ℤ◌
born_ok = refl

create-running_example :
    let w' = (create_sandbox host create_options (new_manager options) empty_world).2 in
    (noop_view empty_world "isb_a" ≡ none)
    × (noop_view w' "isb_a" ≡ some ContainerState.running)
    × ((j : String) → "isb_a" ≢ j → noop_view w' j ≡ noop_view empty_world j)
create-running_example =
    create-running noop_view IsNoop host host-IsHost create_options (new_manager options)
      empty_world born empty_world-IsNoop born_ok

-- The container of another sandbox has the name that comes next.
abbrev taken_world : World
taken_world = ((world false).0, 0)

taken_world-IsNoop : IsNoop taken_world
unfolding lookup
taken_world-IsNoop = record { unique = (refl, tt); sane = λ k v at. ground (arith, at) }

can_destroy :
    (j : String) (w : World) (c : ContainerState)
    → noop_view w j ≡ some c
    → (host.rt.destroy j w).0 ≡ ok tt
unfolding noop_runtime destroy
can_destroy j (r, k) c e = elim (Option-cases (lookup j r.sandboxes)) [
  | inl gone ↦ absurd (ground (arith, gone, e))
  | inr (x, at) ↦ ground (arith, at)
]

abbrev name_taken : Error
name_taken = failed "create: runtime" "isb_a" "noop: sandbox \"isb_a\" already exists"

taken_err :
    (create_sandbox host create_options (new_manager options) taken_world).0 ≡ err name_taken
unfolding create_sandbox request noop_runtime create lookup new_manager
taken_err = refl

create-leaks_nothing_example :
    noop_view (create_sandbox host create_options (new_manager options) taken_world).2 "isb_a"
    ≡ noop_view taken_world "isb_a"
create-leaks_nothing_example =
    create-leaks_nothing noop_view IsNoop host host-IsHost create_options (new_manager options)
      taken_world name_taken taken_world-IsNoop can_destroy taken_err "isb_a"
