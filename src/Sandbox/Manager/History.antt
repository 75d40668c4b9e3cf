-- ===== src/Sandbox/Manager/History.antt =====
-- Any sequence of calls, the watchdog's sweeps among them, over any host.
use edvabe.Prelude.{String, List, [], ◌∷◌}
use edvabe.Prelude.Int.{ℤ}
use edvabe.Sandbox.Host.{Host}
use edvabe.Sandbox.Manager.{
  Manager, Options, new_manager, destroy, set_timeout, connect, pause, stop, resume,
}
use edvabe.Sandbox.Manager.Create.{CreateOptions, create}
use edvabe.Sandbox.Manager.Rehydrate.{rehydrate}
use edvabe.Sandbox.Manager.Reaper.{enforce_timeouts}
use edvabe.Sandbox.Manager.Registry.{IsRegistry, new_manager-IsRegistry}
use edvabe.Sandbox.Manager.Calls.{
  destroy-IsRegistry, set_timeout-IsRegistry, connect-IsRegistry, pause-IsRegistry, stop-IsRegistry,
  resume-IsRegistry,
}
use edvabe.Sandbox.Manager.Create.Outcomes.{create-IsRegistry}
use edvabe.Sandbox.Manager.Rehydrate.Adoption.{rehydrate-IsRegistry}
use edvabe.Sandbox.Manager.Reaper.Sweep.{enforce_timeouts-IsRegistry}

-- `sweeps` is one tick of `Manager.Run`.
pub data Call : Type 0 where
  creates : CreateOptions → Call
  destroys : String → Call
  sets_timeout : String → ℤ → Call
  connects : String → ℤ → Call
  pauses : String → Call
  stops : String → Call
  resumes : String → Call
  rehydrates : ℤ → Call
  sweeps : Call

abbrev pub state_after {ℓ} : {R : Type ℓ} {W : Type 0} → R × Manager × W → Manager × W
state_after (r, m, w) = (m, w)

module _ {W : Type 0} (h : Host W) where
  unfoldable pub step : Call → Manager → W → Manager × W
  step (creates opts) m w = state_after (create h opts m w)
  step (destroys id) m w = state_after (destroy h id m w)
  step (sets_timeout id t) m w = state_after (set_timeout h id t m w)
  step (connects id t) m w = state_after (connect h id t m w)
  step (pauses id) m w = state_after (pause h id m w)
  step (stops id) m w = state_after (stop h id m w)
  step (resumes id) m w = state_after (resume h id m w)
  step (rehydrates t) m w = state_after (rehydrate h t m w)
  step sweeps m w = state_after (enforce_timeouts h m w)

  unfoldable pub run : List Call → Manager → W → Manager × W
  run [] m w = (m, w)
  run (c ∷ cs) m w = let (m', w') = step c m w in run cs m' w'

  pub step-IsRegistry : (c : Call) (m : Manager) (w : W) → IsRegistry m → IsRegistry (step c m w).0
  unfolding step
  step-IsRegistry (creates opts) m w v = create-IsRegistry h opts m w v
  step-IsRegistry (destroys id) m w v = destroy-IsRegistry h id m w v
  step-IsRegistry (sets_timeout id t) m w v = set_timeout-IsRegistry h id t m w v
  step-IsRegistry (connects id t) m w v = connect-IsRegistry h id t m w v
  step-IsRegistry (pauses id) m w v = pause-IsRegistry h id m w v
  step-IsRegistry (stops id) m w v = stop-IsRegistry h id m w v
  step-IsRegistry (resumes id) m w v = resume-IsRegistry h id m w v
  step-IsRegistry (rehydrates t) m w v = rehydrate-IsRegistry h t m w v
  step-IsRegistry sweeps m w v = enforce_timeouts-IsRegistry h m w v

  run-IsRegistry : (cs : List Call) (m : Manager) (w : W) → IsRegistry m → IsRegistry (run cs m w).0
  unfolding run
  run-IsRegistry [] m w v = v
  run-IsRegistry (c ∷ cs) m w v =
      let (m', w') = step c m w in run-IsRegistry cs m' w' (step-IsRegistry c m w v)

  -- After any sequence of calls and sweeps on a new manager, whatever the runtime, the agent and the
  -- clock answer: no identifier is registered twice, every sandbox stands under its own, a running
  -- one has no pause mode and no pause instant, and a paused one is frozen or stopped.
  pub run-new_manager-IsRegistry :
      (opts : Options) (cs : List Call) (w : W) → IsRegistry (run cs (new_manager opts) w).0
  run-new_manager-IsRegistry opts cs w =
      run-IsRegistry cs (new_manager opts) w (new_manager-IsRegistry opts)
