-- ===== src/Sandbox/Manager/Containers.antt =====
-- The registry against the containers of the host: every registered sandbox has a container, in the
-- state that the registry records or awake.
pub mod Waking
pub mod Resuming
pub mod Single
pub mod Birth
pub mod Arrivals
pub mod Sweeping
pub mod Always
use edvabe.Prelude.{
  String, ◌≡◌, ◌≢◌, refl, sym, ◌∙◌, subst, ◌⊎◌, inl, inr, none, some, Bool, true, false, arith,
  Option, Bool-cases, ◌==◌, eq_iff,
}
use edvabe.Prelude.Dict.{Dict, lookup, insert, delete, lookup-insert, lookup-delete}
use edvabe.Runtime.{ContainerState}
use edvabe.Runtime.Laws.{IsQuiet}
use edvabe.Sandbox.{Sandbox, State, PauseMode, unpaused, frozen}
use edvabe.Sandbox.Manager.{Manager, put, drop_sandbox}

-- The container that a sandbox in such a phase should have.
abbrev pub container_of : State → PauseMode → ContainerState
container_of State.running mode = ContainerState.running
container_of State.paused PauseMode.stopped = ContainerState.stopped
container_of State.paused _ = ContainerState.paused

-- The container is as recorded, or it runs: a call that wakes a sandbox may fail half way.
abbrev pub Fits : Option ContainerState → Sandbox → Type 0
Fits c s = (c ≡ some (container_of s.state s.pause_mode)) ⊎ (c ≡ some ContainerState.running)

module _ {W : Type 0} (view : W → String → Option ContainerState) (Sound : W → Type 0) where
  pub record IsTracked (m : Manager) (w : W) : Type 0 where
    pub sound : Sound w
    pub fits : (id : String) (s : Sandbox) → lookup id m.sandboxes ≡ some s → Fits (view w id) s

  abbrev pub Apart : String → W → W → Type 0
  Apart id w w' = (j : String) → id ≢ j → view w' j ≡ view w j

  pub quiet-IsTracked :
      (m : Manager) (w w' : W) → IsQuiet view Sound w w' → IsTracked m w → IsTracked m w'
  quiet-IsTracked m w w' q t = record {
    sound = q.sound;
    fits = λ id s at. subst (λ c. Fits c s) (sym (q.same id)) (t.fits id s at);
  }

  pub put-IsTracked :
      (id : String) (s' : Sandbox) (m : Manager) (w w' : W)
      → Sound w'
      → Apart id w w'
      → Fits (view w' id) s'
      → IsTracked m w
      → IsTracked (put id s' m) w'
  put-IsTracked id s' m w w' ok apart new t = record {
    sound = ok;
    fits = λ j s at. elim (Bool-cases (id == j)) [
      | inl same ↦ ground (arith, at, eq_iff id j, lookup-insert id j s' m.sandboxes, new)
      | inr other ↦
          ground (arith, at, eq_iff id j, lookup-insert id j s' m.sandboxes, apart j, t.fits j s)
    ];
  }

  pub drop_sandbox-IsTracked :
      (id : String) (m : Manager) (w w' : W)
      → Sound w'
      → Apart id w w'
      → IsTracked m w
      → IsTracked (drop_sandbox id m) w'
  drop_sandbox-IsTracked id m w w' ok apart t = record {
    sound = ok;
    fits = λ j s at.
        ground (arith, at, eq_iff id j, lookup-delete id j m.sandboxes, apart j, t.fits j s);
  }

  -- The registry stays, and one container has moved to where it still fits.
  pub moved-IsTracked :
      (id : String) (m : Manager) (w w' : W)
      → Sound w'
      → Apart id w w'
      → ((s : Sandbox) → lookup id m.sandboxes ≡ some s → Fits (view w' id) s)
      → IsTracked m w
      → IsTracked m w'
  moved-IsTracked id m w w' ok apart here t = record {
    sound = ok;
    fits = λ j s at. elim (Bool-cases (id == j)) [
      | inl same ↦
          let e = (eq_iff id j).0 same in
          subst (λ k. Fits (view w' k) s) e
            (here s (subst (λ k. lookup k m.sandboxes ≡ some s) (sym e) at))
      | inr other ↦ ground (arith, at, eq_iff id j, apart j, t.fits j s)
    ];
  }
