-- ===== src/Sandbox/Manager/Registry.antt =====
-- What holds of the registry at all times, whatever the runtime and the agent answer.
use edvabe.Prelude.{String, ◌≡◌, ◌≢◌}
use edvabe.Prelude.Int.{ℤ}
use edvabe.Prelude.Dict.{
  lookup, Everywhere, Everywhere-insert, Everywhere-delete, Unique, Unique-insert, Unique-delete,
}
use edvabe.Sandbox.{Sandbox, State, PauseMode, unpaused, zero_time}
use edvabe.Sandbox.Manager.{Manager, Options, new_manager, put, drop_sandbox}

-- A running sandbox has no pause mode and no pause instant; a paused one is frozen or stopped.
abbrev pub InPhase : State → PauseMode → ℤ → Type 0
InPhase State.running mode at = (mode ≡ unpaused) × (at ≡ zero_time)
InPhase State.paused mode at = mode ≢ unpaused

-- An entry stands under its own identifier and is in a phase.
abbrev pub IsEntry : String → Sandbox → Type 0
IsEntry id s = (s.id ≡ id) × InPhase s.state s.pause_mode s.paused_at

pub record IsRegistry (m : Manager) : Type 0 where
  pub unique : Unique m.sandboxes
  pub entries : Everywhere IsEntry m.sandboxes

pub put-IsRegistry :
    (id : String) (s : Sandbox) (m : Manager)
    → IsEntry id s
    → IsRegistry m
    → IsRegistry (put id s m)
put-IsRegistry id s m e v = record {
  unique = Unique-insert id s m.sandboxes v.unique;
  entries = Everywhere-insert IsEntry id s m.sandboxes e v.entries;
}

pub drop_sandbox-IsRegistry :
    (id : String) (m : Manager) → IsRegistry m → IsRegistry (drop_sandbox id m)
drop_sandbox-IsRegistry id m v = record {
  unique = Unique-delete id m.sandboxes v.unique;
  entries = Everywhere-delete IsEntry id m.sandboxes v.entries;
}

pub new_manager-IsRegistry : (opts : Options) → IsRegistry (new_manager opts)
unfolding new_manager lookup
new_manager-IsRegistry opts = record { unique = tt; entries = λ k v h. cc }
