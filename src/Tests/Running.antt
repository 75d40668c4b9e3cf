-- ===== src/Tests/Running.antt =====
-- The manager of builds: two builds, interleaved.
use edvabe.Prelude.{ℕ, ◌≡◌, ◌≢◌, refl, ◌⊎◌, String, false, true, none, some, List, [], ◌∷◌}
use edvabe.Prelude.Int.{pos}
use edvabe.Prelude.Dict.{lookup, insert}
use edvabe.Prelude.Result.{ok, err}
use edvabe.Template.{BuildStatus, Build, Template}
use edvabe.Template.Store.{Store, blank}
use edvabe.Tests.Templates.{files, new_template}
use edvabe.Builder.Manager.Completion.{complete, find_build, returns-persisted}
use edvabe.Builder.Spec.{BuildSpec}
use edvabe.Builder.RingBuffer.{new_ring_buffer, append}
use edvabe.Builder.RingBuffer.History.{log_page}
use edvabe.Builder.Manager.{
  Manager, ManagerOptions, RunningBuild, BuildResult, EnqueueSpec, Phase, announces, closes,
  opens_log, emits, returns, go, notify, queued, enqueue, sprintf, left_over, log_line, start_line,
  final_line, sink_entry, set_status, finish, result_of, executor_spec, status, logs, wait,
  finished, build_not_found,
}
use edvabe.Builder.Manager.History.{
  System, Event, enqueues, moves, take_turn, after, started, log_of,
}
use edvabe.Builder.Manager.Moving.{IsOver}
use edvabe.Builder.Manager.Lifecycle.{IsTracked, after-IsTracked}
use edvabe.Builder.Manager.Logs.{logs-eq-log_page}
use edvabe.Builder.Manager.Progress.{after-closed}

abbrev log_only : ManagerOptions (List BuildResult)
log_only = record {
  executor = true;
  result_image_format = "";
  log_capacity = pos 3;
  on_complete = some (◌∷◌);
}

abbrev idle : Manager (List BuildResult)
idle = record {
  result_image_format = "edvabe/user-%s:latest";
  log_capacity = pos 3;
  on_complete = some (◌∷◌);
  builds = [];
}

abbrev pub spec : BuildSpec
spec = record {
  from_image = "python:3.12";
  from_template = "";
  from_image_registry = none;
  steps = [];
  start_cmd = "";
  ready_cmd = "";
  force = false;
}

abbrev asked : String → EnqueueSpec
asked id = record { template_id = "tpl_1"; build_id = id; spec = spec; parent_image = "" }

-- The first build fails; the second, registered later, is in its executor. The latest event first.
abbrev both : List Event
both =
    moves "b1" closes
    ∷ moves "b2" (opens_log (pos 6))
    ∷ moves "b1" (returns (some "exit 1") (pos 5))
    ∷ moves "b2" announces
    ∷ moves "b1"
        (emits (record { timestamp = pos 0; level = ""; source = ""; message = "hello" }) (pos 4))
    ∷ moves "b1" (opens_log (pos 3))
    ∷ enqueues (asked "b1") (pos 3)
    ∷ enqueues (asked "b2") (pos 2)
    ∷ moves "b1" announces
    ∷ enqueues (asked "b1") (pos 1)
    ∷ []

abbrev reached : System (List BuildResult)
reached = elim (after both (started idle [])) [ some s ↦ s | none ↦ started idle [] ]

both-after : after both (started idle []) ≡ some reached
unfolding after take_turn go enqueue queued notify lookup insert finish set_status log_line sprintf
    result_of start_line final_line sink_entry executor_spec append new_ring_buffer
both-after = refl

format_lem : sprintf "edvabe/user-%s:latest" false (some "tpl_1") ≡ "edvabe/user-tpl_1:latest"
unfolding sprintf left_over
format_lem = refl

after-IsTracked_example : IsTracked both reached "b1"
after-IsTracked_example = after-IsTracked both idle [] reached refl both-after "b1"

logs-eq-log_page_example :
    ((b : RunningBuild) × (status "b1" reached.manager ≡ ok b)
      × (logs "b1" (pos 1) (pos 2) reached.manager
          ≡ ok (
              some (
                log_page b.logs.capacity
                  (log_of "b1" b.template_id b.result_tag both)
                  (pos 1)
                  (pos 2)))))
    ⊎ ((status "b1" reached.manager ≡ err build_not_found)
        × (logs "b1" (pos 1) (pos 2) reached.manager ≡ err build_not_found)
        × ((template_id tag : String) → log_of "b1" template_id tag both ≡ []))
logs-eq-log_page_example =
    logs-eq-log_page both idle [] reached refl both-after "b1" (pos 1) (pos 2)

after-closed_example :
    (b : RunningBuild) × (status "b1" reached.manager ≡ ok b)
    × IsOver b
    × (b.finished_at ≢ none)
    × (wait "b1" reached.manager ≡ ok finished)
after-closed_example = after-closed both idle [] reached refl both-after "b1" refl

second : Phase
second = Phase.executing (record {
  template_id = "tpl_1";
  build_id = "b2";
  result_image = "edvabe/user-tpl_1:latest";
  spec = spec;
  parent_image = "";
})

-- A store with the template and its first build, which waits.
abbrev waiting_build : Build
waiting_build = record {
  id = "b1";
  status = BuildStatus.waiting;
  reason = "";
  started_at = pos 1;
  finished_at = none;
}

abbrev waiting_template : Template
waiting_template = record (blank new_template "tpl_1" (pos 0)) { builds = waiting_build ∷ [] }

abbrev stored_build : Store
stored_build = record {
  path = "templates.json";
  templates = ("tpl_1", waiting_template) ∷ [];
  aliases = ("python", "tpl_1") ∷ [];
}

abbrev pub persisting : Manager (Store × ℕ)
persisting = record {
  result_image_format = "edvabe/user-%s:latest";
  log_capacity = pos 3;
  on_complete = some (complete files);
  builds = [];
}

abbrev started_b1 : List Event
started_b1 =
    moves "b1" (opens_log (pos 3)) ∷ moves "b1" announces ∷ enqueues (asked "b1") (pos 1) ∷ []

abbrev in_executor : System (Store × ℕ)
in_executor = elim (after started_b1 (started persisting (stored_build, 0))) [
  | some s ↦ s
  | none ↦ started persisting (stored_build, 0)
]

abbrev out_of_executor : System (Store × ℕ)
out_of_executor = elim (take_turn (moves "b1" (returns none (pos 7))) in_executor) [
  | some s ↦ s
  | none ↦ in_executor
]

abbrev b1_running : RunningBuild
b1_running = elim (lookup "b1" in_executor.manager.builds) [
  | some b ↦ b
  | none ↦ queued (asked "b1") (pos 1) persisting
]

in_executor-after : after started_b1 (started persisting (stored_build, 0)) ≡ some in_executor
unfolding second after take_turn go enqueue queued notify lookup insert finish set_status log_line
    sprintf result_of start_line final_line sink_entry executor_spec append new_ring_buffer
in_executor-after = refl

returned-after : take_turn (moves "b1" (returns none (pos 7))) in_executor ≡ some out_of_executor
unfolding second after take_turn go enqueue queued notify lookup insert finish set_status log_line
    sprintf result_of start_line final_line sink_entry executor_spec append new_ring_buffer
returned-after = refl

b1-known : status "b1" in_executor.manager ≡ ok b1_running
unfolding status second after take_turn go enqueue queued notify lookup insert finish set_status
    log_line sprintf result_of start_line final_line sink_entry executor_spec append new_ring_buffer
b1-known = refl

tpl_1-known : lookup b1_running.template_id in_executor.world.0.templates ≡ some waiting_template
unfolding second after take_turn go enqueue queued notify lookup insert finish set_status log_line
    sprintf result_of start_line final_line sink_entry executor_spec append new_ring_buffer
tpl_1-known = refl

returns-persisted_example :
    (r' : RunningBuild) × (tpl' : Template) × (b' : Build) × (status "b1" out_of_executor.manager
      ≡ ok r')
    × (lookup b1_running.template_id out_of_executor.world.0.templates ≡ some tpl')
    × (find_build "b1" tpl'.builds ≡ some b')
    × (b'.status ≡ r'.status)
    × (b'.reason ≡ r'.reason)
    × (b'.finished_at ≢ none)
returns-persisted_example =
    returns-persisted files started_b1 persisting (stored_build, 0) in_executor out_of_executor refl
      refl in_executor-after "b1" none (pos 7) returned-after b1_running b1-known waiting_template
      tpl_1-known waiting_build refl
