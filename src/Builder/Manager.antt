-- ===== src/Builder/Manager.antt =====
-- internal/template/builder/manager.go: the builds and their states. A method takes the manager and
-- returns it; what the clock gives is an argument. `run`, the goroutine of a build, is `go`: one
-- clause for each stretch of it between two points where another goroutine may come in.
pub mod History
pub mod Moving
pub mod Lifecycle
pub mod Logs
pub mod Progress
pub mod Liveness
pub mod Completion
use Prim.Native.Nat.{compare, Ordering}
use Prim.Native.Char.{Char, code}
use edvabe.Prelude.{
  ℕ, String, ◌+++◌, Bool, true, false, ◌==◌, if◌then◌else◌, Option, none, some, List, [], ◌∷◌,
}
use edvabe.Prelude.Int.{ℤ, pos, negsuc, leb_ℤ}
use edvabe.Prelude.Dict.{Dict, lookup, insert}
use edvabe.Prelude.Result.{Result, ok, err}
use edvabe.Template.{BuildStatus}
use edvabe.Builder.Spec.{BuildSpec}
use edvabe.Builder.RingBuffer.{LogEntry, RingBuffer, new_ring_buffer, append, read}

pub record ExecutorSpec : Type 0 where
  pub template_id : String
  pub build_id : String
  pub result_image : String
  pub spec : BuildSpec
  pub parent_image : String

pub record EnqueueSpec : Type 0 where
  pub template_id : String
  pub build_id : String
  pub spec : BuildSpec
  pub parent_image : String

pub record BuildResult : Type 0 where
  pub template_id : String
  pub build_id : String
  pub status : BuildStatus
  pub reason : String

-- `executor` is whether one is given: what it does is up to the moves `emits` and `returns`.
pub record ManagerOptions (W : Type 0) : Type 0 where
  pub executor : Bool
  pub result_image_format : String
  pub log_capacity : ℤ
  pub on_complete : Option (BuildResult → W → W)

-- `cancelled` and `done` are whether the context is cancelled and the channel closed.
pub record RunningBuild : Type 0 where
  pub template_id : String
  pub build_id : String
  pub status : BuildStatus
  pub reason : String
  pub result_tag : String
  pub started_at : ℤ
  pub finished_at : Option ℤ
  pub logs : RingBuffer
  pub cancelled : Bool
  pub done : Bool

pub record Manager (W : Type 0) : Type 0 where
  pub result_image_format : String
  pub log_capacity : ℤ
  pub on_complete : Option (BuildResult → W → W)
  pub builds : Dict RunningBuild

pub data BuildError : Type 0 where
  build_not_found no_executor : BuildError
  already_exists : String → BuildError

unfoldable pub new_manager : {W : Type 0} → ManagerOptions W → Result BuildError (Manager W)
new_manager opts =
    if opts.executor
    then ok (record {
      result_image_format =
          if opts.result_image_format == ""
          then "edvabe/user-%s:latest"
          else opts.result_image_format;
      log_capacity = if leb_ℤ opts.log_capacity (pos 0) then pos 5000 else opts.log_capacity;
      on_complete = opts.on_complete;
      builds = [];
    })
    else err no_executor

abbrev is_char : Char → ℕ → Bool
is_char c n = elim (compare (code c) n) [ Ordering.eq ↦ true | _ ↦ false ]

-- What `fmt.Sprintf` puts at the end for an argument that the format has not used.
unfoldable pub left_over : Option String → String
left_over none = ""
left_over (some arg) = "%!(EXTRA string=" +++ (arg +++ ")")

-- `fmt.Sprintf` with one text as argument, for formats with no verb but `%s` and `%%`. The flag says
-- that a percent sign has just been read, and the option is the argument while it is not used.
unfoldable pub sprintf : String → Bool → Option String → String
sprintf String.[] true left = "%!(NOVERB)" +++ left_over left
sprintf String.[] false left = left_over left
sprintf (String.◌∷◌ c rest) false left =
    let plain = sprintf rest false left in
    let verb = sprintf rest true left in if is_char c 37 then verb else String.◌∷◌ c plain
sprintf (String.◌∷◌ c rest) true none =
    let later = sprintf rest false none in
    if is_char c 115 then "%!s(MISSING)" +++ later else String.◌∷◌ c later
sprintf (String.◌∷◌ c rest) true (some arg) =
    let later = sprintf rest false (some arg) in
    let used = sprintf rest false none in if is_char c 115 then arg +++ used else String.◌∷◌ c later

-- rb.logs.Append(entry)
unfoldable pub log_line : LogEntry → RunningBuild → RunningBuild
log_line entry b = record b { logs = (append b.logs entry).0 }

abbrev pub own_line : ℤ → String → String → LogEntry
own_line now level message = record {
  timestamp = now;
  level = level;
  source = "";
  message = message;
}

unfoldable pub start_line : ℤ → String → LogEntry
start_line now template_id = own_line now "info" ("Starting build for template " +++ template_id)

-- The last line of a build; `some` has the executor's error.
unfoldable pub final_line : ℤ → Option String → String → LogEntry
final_line now none tag = own_line now "info" ("Build complete: " +++ tag)
final_line now (some e) tag = own_line now "error" ("Build failed: " +++ e)

abbrev is_zero : ℤ → Bool
is_zero (pos ℕ.zero) = true
is_zero _ = false

-- What the executor's sink makes of an entry.
unfoldable pub sink_entry : ℤ → LogEntry → LogEntry
sink_entry now e = record e {
  timestamp = if is_zero e.timestamp then now else e.timestamp;
  level = if e.level == "" then "info" else e.level;
}

unfoldable pub set_status : BuildStatus → String → RunningBuild → RunningBuild
set_status status reason b = record b { status = status; reason = reason }

-- The stretch of `run` under the lock, after the executor has returned.
unfoldable pub finish : ℤ → Option String → RunningBuild → RunningBuild
finish now none b =
    log_line (final_line now none b.result_tag)
      (record b { finished_at = some now; status = BuildStatus.ready })
finish now (some e) b =
    log_line (final_line now (some e) b.result_tag)
      (record b { finished_at = some now; status = BuildStatus.error; reason = e })

-- What OnComplete is called with.
unfoldable pub result_of : Option String → RunningBuild → BuildResult
result_of none b = record {
  template_id = b.template_id;
  build_id = b.build_id;
  status = BuildStatus.ready;
  reason = "";
}
result_of (some e) b = record {
  template_id = b.template_id;
  build_id = b.build_id;
  status = BuildStatus.error;
  reason = e;
}

-- Where the goroutine of a build stands: before it takes the lock for the first time, before its
-- first line, in the executor, past its critical section, past its end.
pub data Phase : Type 0 where
  spawned announced : EnqueueSpec → Phase
  executing : ExecutorSpec → Phase
  returned ended : Phase

pub data Move : Type 0 where
  announces closes : Move
  opens_log : ℤ → Move
  emits : LogEntry → ℤ → Move
  returns : Option String → ℤ → Move

unfoldable pub executor_spec : EnqueueSpec → RunningBuild → ExecutorSpec
executor_spec req b = record {
  template_id = req.template_id;
  build_id = req.build_id;
  result_image = b.result_tag;
  spec = req.spec;
  parent_image = req.parent_image;
}

-- The goroutine's next stretch; `none` is a move that it does not make where it stands.
unfoldable pub go : Move → Phase → RunningBuild → Option (Phase × RunningBuild)
go announces (spawned req) b = some (announced req, set_status BuildStatus.building "" b)
go (opens_log now) (announced req) b =
    some (executing (executor_spec req b), log_line (start_line now req.template_id) b)
go (emits entry now) (executing spec) b = some (executing spec, log_line (sink_entry now entry) b)
go (returns outcome now) (executing spec) b = some (returned, finish now outcome b)
go closes returned b = some (ended, record b { done = true })
go move phase b = none

unfoldable pub notify : {W : Type 0} → Option (BuildResult → W → W) → Move → RunningBuild → W → W
notify (some call) (returns outcome now) b w = call (result_of outcome b) w
notify _ _ b w = w

pub data WaitOutcome : Type 0 where
  finished still_running : WaitOutcome

module _ {W : Type 0} where
  -- A build as it enters the map.
  unfoldable pub queued : EnqueueSpec → ℤ → Manager W → RunningBuild
  queued req now m = record {
    template_id = req.template_id;
    build_id = req.build_id;
    status = BuildStatus.waiting;
    reason = "";
    result_tag = sprintf m.result_image_format false (some req.template_id);
    started_at = now;
    finished_at = none;
    logs = new_ring_buffer m.log_capacity;
    cancelled = false;
    done = false;
  }

  unfoldable pub enqueue : EnqueueSpec → ℤ → Manager W → Result BuildError (Manager W)
  enqueue req now m = elim (lookup req.build_id m.builds) [
    | some b ↦ err (already_exists req.build_id)
    | none ↦ ok (record m { builds = insert req.build_id (queued req now m) m.builds })
  ]

  -- The snapshot has the fields of the build but its log and its channel.
  unfoldable pub status : String → Manager W → Result BuildError RunningBuild
  status id m = elim (lookup id m.builds) [ none ↦ err build_not_found | some b ↦ ok b ]

  -- The inner `none` is the panic of the ring buffer's loop.
  unfoldable pub logs : String → ℤ → ℤ → Manager W → Result BuildError (Option (List LogEntry × ℕ))
  logs id offset limit m = elim (lookup id m.builds) [
    | none ↦ err build_not_found
    | some b ↦ ok (read b.logs offset limit)
  ]

  -- A caller that waits goes on when the channel is closed; its own context is not modelled.
  unfoldable pub wait : String → Manager W → Result BuildError WaitOutcome
  wait id m = elim (lookup id m.builds) [
    | none ↦ err build_not_found
    | some b ↦ ok (if b.done then finished else still_running)
  ]

  unfoldable pub cancel : String → Manager W → Result BuildError (Manager W)
  cancel id m = elim (lookup id m.builds) [
    | none ↦ err build_not_found
    | some b ↦ ok (record m { builds = insert id (record b { cancelled = true }) m.builds })
  ]
