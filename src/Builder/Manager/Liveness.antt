-- ===== src/Builder/Manager/Liveness.antt =====
-- A build can always be brought to its end by its own goroutine alone, once the executor answers.
use edvabe.Prelude.{true, ◌≡◌, String, Option, none, some, List, ◌∷◌}
use edvabe.Prelude.Int.{ℤ}
use edvabe.Prelude.Dict.{lookup}
use edvabe.Template.{BuildStatus}
use edvabe.Builder.Manager.{
  Manager, RunningBuild, Phase, spawned, announced, executing, returned, ended, announces, closes,
  opens_log, returns, status,
}
use edvabe.Builder.Manager.History.{System, Event, moves, after}
use edvabe.Builder.Manager.Moving.{IsOver}

-- The moves that bring a goroutine from a phase to its end, on top of a history, when the executor
-- answers with `outcome`.
abbrev pub to_the_end : String → Phase → Option String → ℤ → List Event → List Event
to_the_end id ended outcome now es = es
to_the_end id returned outcome now es = moves id closes ∷ es
to_the_end id (executing spec) outcome now es =
    moves id closes ∷ moves id (returns outcome now) ∷ es
to_the_end id (announced req) outcome now es =
    moves id closes ∷ moves id (returns outcome now) ∷ moves id (opens_log now) ∷ es
to_the_end id (spawned req) outcome now es =
    moves id closes
    ∷ moves id (returns outcome now)
    ∷ moves id (opens_log now)
    ∷ moves id announces
    ∷ es

abbrev pub IsVerdict : Option String → RunningBuild → Type 0
IsVerdict none b = (b.status ≡ BuildStatus.ready) × (b.reason ≡ "")
IsVerdict (some e) b = (b.status ≡ BuildStatus.error) × (b.reason ≡ e)

-- A build in the executor or before it takes the outcome; a later one has its outcome already.
abbrev pub TakesOutcome : Phase → Option String → RunningBuild → Type 0
TakesOutcome returned outcome b = IsOver b
TakesOutcome ended outcome b = IsOver b
TakesOutcome _ outcome b = IsVerdict outcome b

module _ {W : Type 0} (s0 : System W) (id : String) (outcome : Option String) (now : ℤ) where
  -- The system that a history leads to, with the build at its end.
  abbrev EndsWith : (RunningBuild → Type 0) → List Event → Type 0
  EndsWith P es =
      (t : System W) × (b : RunningBuild) × (after es s0 ≡ some t)
      × (lookup id t.manager.builds ≡ some b)
      × (b.done ≡ true)
      × P b
