-- ===== src/Builder/Manager/History.antt =====
-- internal/template/builder/manager.go: the manager with its goroutines, interleaved in any order.
use edvabe.Prelude.{
  String, ◌==◌, if◌then◌else◌, Option, none, some, List, [], ◌∷◌, ◌++◌, ◌≡◌, inl, inr, ◌⊎◌, true,
  false, Option-cases, arith,
}
use edvabe.Prelude.Int.{ℤ}
use edvabe.Prelude.Dict.{Dict, lookup, insert, lookup-insert}
use edvabe.Prelude.Result.{ok, err}
use edvabe.Builder.RingBuffer.{LogEntry}
use edvabe.Builder.Manager.{
  Manager, EnqueueSpec, Phase, spawned, Move, announces, closes, opens_log, emits, returns, go,
  notify, RunningBuild, queued, enqueue, cancel, start_line, sink_entry, final_line,
}

-- A goroutine has its build by pointer. No build is ever taken out of the map or replaced, so the
-- pointer is the map's entry under the build's identifier. `world` is what OnComplete changes.
pub record System (W : Type 0) : Type 0 where
  pub manager : Manager W
  pub threads : Dict Phase
  pub world : W

pub data Event : Type 0 where
  enqueues : EnqueueSpec → ℤ → Event
  cancels : String → Event
  moves : String → Move → Event

-- What the goroutine of a build says to its log, given the template and the tag of the build.
abbrev pub said : String → String → Move → List LogEntry
said template_id tag announces = []
said template_id tag closes = []
said template_id tag (opens_log now) = start_line now template_id ∷ []
said template_id tag (emits entry now) = sink_entry now entry ∷ []
said template_id tag (returns outcome now) = final_line now outcome tag ∷ []

abbrev pub said_in : String → String → String → Event → List LogEntry
said_in id template_id tag (moves j move) = if j == id then said template_id tag move else []
said_in id template_id tag _ = []

-- All that a build has ever logged in a history, whose latest event stands first.
abbrev pub log_of : String → String → String → List Event → List LogEntry
log_of id template_id tag [] = []
log_of id template_id tag (e ∷ es) = log_of id template_id tag es ++ said_in id template_id tag e

pub lookup-insert_other :
    {V : Type 0} (i j : String) (v : V) (d : Dict V)
    → (i == j) ≡ false
    → lookup j (insert i v d) ≡ lookup j d
lookup-insert_other i j v d h = ground (arith, h, lookup-insert i j v d)

module _ {W : Type 0} where
  -- An event that cannot happen gives `none`; a refused call changes nothing.
  unfoldable pub take_turn : Event → System W → Option (System W)
  take_turn (enqueues req now) s = elim (enqueue req now s.manager) [
    | err _ ↦ some s
    | ok m ↦ some (record s { manager = m; threads = insert req.build_id (spawned req) s.threads })
  ]
  take_turn (cancels id) s = elim (cancel id s.manager) [
    | err _ ↦ some s
    | ok m ↦ some (record s { manager = m })
  ]
  take_turn (moves id move) s = elim (lookup id s.threads) [
    | none ↦ none
    | some phase ↦ elim (lookup id s.manager.builds) [
      | none ↦ none
      | some b ↦ elim (go move phase b) [
        | none ↦ none
        | some (phase', b') ↦ some (record {
          manager = record s.manager { builds = insert id b' s.manager.builds };
          threads = insert id phase' s.threads;
          world = notify s.manager.on_complete move b' s.world;
        })
      ]
    ]
  ]

  -- What a goroutine's move does to the system.
  pub record Turned (s t : System W) (id : String) (move : Move) : Type 0 where
    pub phase : Phase
    pub next : Phase
    pub build : RunningBuild
    pub build_after : RunningBuild
    pub at : lookup id s.manager.builds ≡ some build
    pub thread : lookup id s.threads ≡ some phase
    pub went : go move phase build ≡ some (next, build_after)
    pub builds_after : t.manager.builds ≡ insert id build_after s.manager.builds
    pub threads_after : t.threads ≡ insert id next s.threads
    pub world_after : t.world ≡ notify s.manager.on_complete move build_after s.world
    pub same_call : t.manager.on_complete ≡ s.manager.on_complete

  pub take_turn-Turned :
      (s t : System W) (id : String) (move : Move)
      → take_turn (moves id move) s ≡ some t
      → Turned s t id move
  unfolding take_turn
  take_turn-Turned s t id move h = elim (Option-cases (lookup id s.threads)) [
    | inl none_there ↦ absurd (ground (arith, h, none_there))
    | inr (phase, thread) ↦ elim (Option-cases (lookup id s.manager.builds)) [
      | inl none_there ↦ absurd (ground (arith, h, none_there, thread))
      | inr (b, at) ↦ elim (Option-cases (go move phase b)) [
        | inl stuck ↦ absurd (ground (arith, h, at, thread, stuck))
        | inr ((next, b'), went) ↦ record {
          phase = phase;
          next = next;
          build = b;
          build_after = b';
          at = at;
          thread = thread;
          went = went;
          builds_after = ground (arith, h, at, thread, went);
          threads_after = ground (arith, h, at, thread, went);
          world_after = ground (arith, h, at, thread, went);
          same_call = ground (arith, h, at, thread, went);
        }
      ]
    ]
  ]

  pub take_turn-Enqueued :
      (s t : System W) (req : EnqueueSpec) (now : ℤ)
      → take_turn (enqueues req now) s ≡ some t
      → (s ≡ t)
        ⊎ ((lookup req.build_id s.manager.builds ≡ none)
            × (t.manager.builds ≡ insert req.build_id (queued req now s.manager) s.manager.builds)
            × (t.threads ≡ insert req.build_id (spawned req) s.threads)
            × (t.manager.on_complete ≡ s.manager.on_complete)
            × (t.world ≡ s.world))
  unfolding take_turn enqueue
  take_turn-Enqueued s t req now h = elim (Option-cases (lookup req.build_id s.manager.builds)) [
    | inl fresh ↦ inr (
      fresh,
      ground (arith, h, fresh),
      ground (arith, h, fresh),
      ground (arith, h, fresh),
      ground (arith, h, fresh),
    )
    | inr (b, at) ↦ inl (ground (arith, h, at))
  ]

  pub take_turn-Cancelled :
      (s t : System W) (id : String)
      → take_turn (cancels id) s ≡ some t
      → (s ≡ t)
        ⊎ ((b : RunningBuild) × (lookup id s.manager.builds ≡ some b)
            × (t.manager.builds ≡ insert id (record b { cancelled = true }) s.manager.builds)
            × (t.threads ≡ s.threads)
            × (t.manager.on_complete ≡ s.manager.on_complete)
            × (t.world ≡ s.world))
  unfolding take_turn cancel
  take_turn-Cancelled s t id h = elim (Option-cases (lookup id s.manager.builds)) [
    | inl missing ↦ inl (ground (arith, h, missing))
    | inr (b, at) ↦ inr (
      b,
      at,
      ground (arith, h, at),
      ground (arith, h, at),
      ground (arith, h, at),
      ground (arith, h, at),
    )
  ]

  -- A history with its latest event first.
  unfoldable pub after : List Event → System W → Option (System W)
  after [] s = some s
  after (e ∷ es) s = elim (after es s) [ none ↦ none | some t ↦ take_turn e t ]

  abbrev pub started : Manager W → W → System W
  started m w = record { manager = m; threads = []; world = w }
