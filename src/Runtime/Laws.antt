-- ===== src/Runtime/Laws.antt =====
-- What the manager relies on of its host: each call of the runtime moves the state of one container
-- as its comment in runtime.go says, a call that fails moves none, a name that is taken is refused,
-- and the calls of the agent and the clock move no container.
use edvabe.Prelude.{String, ◌≡◌, ◌∙◌, ◌≢◌, ◌⊎◌, Option, none, some, List, All}
use edvabe.Prelude.Result.{ok, err}
use edvabe.Runtime.{
  Fault, ContainerState, running, paused, stopped, ManagedContainer, CreateRequest, Reply, Runtime,
}

module _ {W : Type 0} (view : W → String → Option ContainerState) (Sound : W → Type 0) where
  -- A call on one container; `after` is what a success makes of it.
  pub record Moves {A : Type 0} (id : String) (after : Option ContainerState) (w : W)
      (r : Reply W A) : Type 0 where
    pub sound : Sound r.1
    pub done : (a : A) → r.0 ≡ ok a → view r.1 id ≡ after
    pub failed : (e : Fault) → r.0 ≡ err e → view r.1 id ≡ view w id
    pub others : (j : String) → id ≢ j → view r.1 j ≡ view w j

  -- A step of the world that moves no container.
  pub record IsQuiet (w w' : W) : Type 0 where
    pub sound : Sound w'
    pub same : (j : String) → view w' j ≡ view w j

  -- `pause` is for a running container; `unpause` and `start` find a container that is already awake
  -- as they would leave it.
  pub record IsRuntime (rt : Runtime W) : Type 0 where
    pub create_moves :
        (q : CreateRequest) (w : W) → Sound w → Moves q.sandbox_id (some running) w (rt.create q w)
    pub create_taken :
        (q : CreateRequest) (w : W) (c : ContainerState)
        → Sound w
        → view w q.sandbox_id ≡ some c
        → (e : Fault) × ((rt.create q w).0 ≡ err e)
    pub destroy_moves : (id : String) (w : W) → Sound w → Moves id none w (rt.destroy id w)
    pub pause_moves :
        (id : String) (w : W)
        → Sound w
        → view w id ≡ some running
        → Moves id (some paused) w (rt.pause id w)
    pub unpause_moves :
        (id : String) (w : W)
        → Sound w
        → (view w id ≡ some paused) ⊎ (view w id ≡ some running)
        → Moves id (some running) w (rt.unpause id w)
    pub stop_moves : (id : String) (w : W) → Sound w → Moves id (some stopped) w (rt.stop id w)
    pub start_moves :
        (id : String) (w : W)
        → Sound w
        → (view w id ≡ some stopped) ⊎ (view w id ≡ some running)
        → Moves id (some running) w (rt.start id w)
    pub endpoint_quiet : (id : String) (w : W) → Sound w → IsQuiet w (rt.agent_endpoint id w).1
    pub list_quiet : (w : W) → Sound w → IsQuiet w (rt.list_managed w).1
    pub list_states :
        (w : W) (mcs : List ManagedContainer)
        → Sound w
        → (rt.list_managed w).0 ≡ ok mcs
        → All (λ mc. view w mc.sandbox_id ≡ some mc.state) mcs

  pub IsQuiet-trans : (w w1 w2 : W) → IsQuiet w w1 → IsQuiet w1 w2 → IsQuiet w w2
  IsQuiet-trans w w1 w2 p q = record { sound = q.sound; same = λ j. q.same j ∙ p.same j }
