-- ===== src/Sandbox/Manager/Containers/Always.antt =====
-- The registry and the containers after any sequence of calls on a lawful host.
use edvabe.Prelude.{String, List, [], ◌∷◌, Option}
use edvabe.Prelude.Dict.{lookup}
use edvabe.Runtime.{ContainerState}
use edvabe.Sandbox.Host.{Host}
use edvabe.Sandbox.Host.Laws.{IsHost}
use edvabe.Sandbox.Manager.{Manager, Options, new_manager}
use edvabe.Sandbox.Manager.Registry.{IsRegistry, new_manager-IsRegistry}
use edvabe.Sandbox.Manager.History.{
  Call, creates, destroys, sets_timeout, connects, pauses, stops, resumes, rehydrates, sweeps, step,
  run, step-IsRegistry,
}
use edvabe.Sandbox.Manager.Containers.{IsTracked}
use edvabe.Sandbox.Manager.Containers.Single.{
  destroy-IsTracked, set_timeout-IsTracked, pause-IsTracked, stop-IsTracked,
}
use edvabe.Sandbox.Manager.Containers.Resuming.{resume-IsTracked, connect-IsTracked}
use edvabe.Sandbox.Manager.Containers.Arrivals.{create-IsTracked, rehydrate-IsTracked}
use edvabe.Sandbox.Manager.Containers.Sweeping.{enforce_timeouts-IsTracked}

new_manager-IsTracked :
    {W : Type 0} (view : W → String → Option ContainerState) (Sound : W → Type 0) (opts : Options)
    (w : W)
    → Sound w
    → IsTracked view Sound (new_manager opts) w
unfolding new_manager lookup
new_manager-IsTracked view Sound opts w sound = record { sound = sound; fits = λ id s at. cc }

module _ {W : Type 0} (view : W → String → Option ContainerState) (Sound : W → Type 0) (h : Host W)
    (lawful : IsHost view Sound h) where
  step-IsTracked :
      (c : Call) (m : Manager) (w : W)
      → IsRegistry m
      → IsTracked view Sound m w
      → let r = step h c m w in IsTracked view Sound r.0 r.1
  unfolding step
  step-IsTracked (creates opts) m w v t = create-IsTracked view Sound h lawful opts m w t
  step-IsTracked (destroys id) m w v t = destroy-IsTracked view Sound h lawful id m w t
  step-IsTracked (sets_timeout id d) m w v t = set_timeout-IsTracked view Sound h lawful id d m w t
  step-IsTracked (connects id d) m w v t = connect-IsTracked view Sound h lawful id d m w v t
  step-IsTracked (pauses id) m w v t = pause-IsTracked view Sound h lawful id m w t
  step-IsTracked (stops id) m w v t = stop-IsTracked view Sound h lawful id m w t
  step-IsTracked (resumes id) m w v t = resume-IsTracked view Sound h lawful id m w v t
  step-IsTracked (rehydrates d) m w v t = rehydrate-IsTracked view Sound h lawful d m w t
  step-IsTracked sweeps m w v t = enforce_timeouts-IsTracked view Sound h lawful m w v t

  run-IsTracked :
      (cs : List Call) (m : Manager) (w : W)
      → IsRegistry m
      → IsTracked view Sound m w
      → let r = run h cs m w in IsTracked view Sound r.0 r.1
  unfolding run
  run-IsTracked [] m w v t = t
  run-IsTracked (c ∷ cs) m w v t =
      let (m', w') = step h c m w in
      run-IsTracked cs m' w' (step-IsRegistry h c m w v) (step-IsTracked c m w v t)

  -- After any sequence of calls and sweeps on a new manager over a host that keeps its promises,
  -- in a world that is sound for them, every registered sandbox has a container, and that
  -- container is in the state that the registry records or runs.
  pub run-new_manager-IsTracked :
      (opts : Options) (cs : List Call) (w : W)
      → Sound w
      → let r = run h cs (new_manager opts) w in IsTracked view Sound r.0 r.1
  run-new_manager-IsTracked opts cs w sound =
      run-IsTracked cs (new_manager opts) w (new_manager-IsRegistry opts)
        (new_manager-IsTracked view Sound opts w sound)
