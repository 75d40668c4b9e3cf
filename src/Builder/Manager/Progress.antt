-- ===== src/Builder/Manager/Progress.antt =====
-- A build comes to its end: what a goroutine still has to do, counted in moves, whatever the other
-- goroutines do, and how a build stands whose goroutine has nothing left to do.
use edvabe.Prelude.{
  from_some, ℕ, ◌+◌, ◌≡◌, ◌≢◌, refl, sym, ap, subst, ◌∙◌, ◌⊎◌, inl, inr, String, ◌==◌, eq_iff,
  eq_refl, if◌then◌else◌, Option, none, some, List, [], ◌∷◌, arith, Option-cases, Bool-cases,
}
use edvabe.Prelude.Int.{ℤ}
use edvabe.Prelude.Dict.{lookup, insert, lookup-insert_self}
use edvabe.Prelude.Result.{ok}
use edvabe.Builder.Manager.{
  Manager, RunningBuild, EnqueueSpec, Phase, spawned, announced, executing, returned, ended, Move,
  announces, closes, opens_log, emits, returns, go, notify, status, wait, finished,
}
use edvabe.Builder.Manager.History.{
  System, Event, enqueues, cancels, moves, take_turn, after, started, Turned, take_turn-Turned,
  take_turn-Enqueued, take_turn-Cancelled, lookup-insert_other,
}
use edvabe.Builder.Manager.Moving.{IsOver}
use edvabe.Builder.Manager.Lifecycle.{IsBuild, IsTracked, after-IsTracked}

-- How many moves are left, the executor's lines not counted.
abbrev pub moves_left : Phase → ℕ
moves_left (spawned req) = 4
moves_left (announced req) = 3
moves_left (executing spec) = 2
moves_left returned = 1
moves_left ended = 0

abbrev pub weight : Move → ℕ
weight (emits entry now) = 0
weight _ = 1

abbrev pub weight_in : String → Event → ℕ
weight_in id (moves j move) = if j == id then weight move else 0
weight_in id _ = 0

-- How many moves, the executor's lines not counted, the goroutine of a build has made.
abbrev pub moves_made : String → List Event → ℕ
moves_made id [] = 0
moves_made id (e ∷ es) = weight_in id e + moves_made id es

abbrev Weighs : Move → Phase → Option (Phase × RunningBuild) → Type 0
Weighs move phase none = Unit
Weighs move phase (some (next, b)) = weight move + moves_left next ≡ moves_left phase

go-Weighs : (move : Move) (phase : Phase) (b : RunningBuild) → Weighs move phase (go move phase b)
unfolding go
go-Weighs announces (spawned req) b = refl
go-Weighs (opens_log now) (announced req) b = refl
go-Weighs (emits entry now) (executing spec) b = refl
go-Weighs (returns outcome now) (executing spec) b = refl
go-Weighs closes returned b = refl
go-Weighs _ _ b = tt

module _ {W : Type 0} where
  abbrev IsCounted : List Event → System W → String → Type 0
  IsCounted es s id =
      ((lookup id s.threads ≡ none) × (moves_made id es ≡ 0))
      ⊎ ((phase : Phase) × (lookup id s.threads ≡ some phase)
          × (moves_made id es + moves_left phase ≡ 4))

  uncounted :
      (e : Event) (es : List Event) (s t : System W) (id : String)
      → lookup id t.threads ≡ lookup id s.threads
      → weight_in id e ≡ 0
      → IsCounted es s id
      → IsCounted (e ∷ es) t id
  uncounted e es s t id same light v = elim v [
    | inl (missing, made) ↦ inl (same ∙ missing, omega arith)
    | inr (phase, thread, made) ↦ inr (phase, same ∙ thread, omega arith)
  ]

  moved-IsCounted :
      (es : List Event) (s t : System W) (id : String) (move : Move)
      → take_turn (moves id move) s ≡ some t
      → (j : String) → IsCounted es s id
      → IsCounted es s j
      → IsCounted (moves id move ∷ es) t j
  moved-IsCounted es s t id move h j own v =
      let r = take_turn-Turned s t id move h in
      elim (Bool-cases (id == j)) [
        | inl same ↦ subst (IsCounted (moves id move ∷ es) t) ((eq_iff id j).0 same) (elim own [
          | inl (missing, made) ↦ absurd (ground (arith, missing, r.thread))
          | inr (phase, thread, made) ↦ inr (
            r.next,
            ap (lookup id) r.threads_after ∙ lookup-insert_self id r.next s.threads,
            counted r (
                subst (λ p. moves_made id es + moves_left p ≡ 4) (from_some (sym thread ∙ r.thread))
                  made),
          )
        ])
        | inr other ↦
            uncounted (moves id move) es s t j
              (ap (lookup j) r.threads_after ∙ lookup-insert_other id j r.next s.threads other)
              (ground (arith, other)) v
      ]
    where
      counted :
          (r : Turned s t id move)
          → moves_made id es + moves_left r.phase ≡ 4
          → moves_made id (moves id move ∷ es) + moves_left r.next ≡ 4
      counted r made =
          rw (eq_refl id)
            (omega (arith, subst (Weighs move r.phase) r.went (go-Weighs move r.phase r.build)))

  enqueued-IsCounted :
      (es : List Event) (s t : System W) (req : EnqueueSpec) (now : ℤ) (j : String)
      → take_turn (enqueues req now) s ≡ some t
      → IsTracked es s j
      → IsCounted es s j
      → IsCounted (enqueues req now ∷ es) t j
  enqueued-IsCounted es s t req now j h tracked v = elim (take_turn-Enqueued s t req now h) [
    | inl same ↦
        uncounted (enqueues req now) es s t j (ap (λ u. lookup j u.threads) (sym same)) refl v
    | inr (fresh, _, threads_after, _, _) ↦ elim (Bool-cases (req.build_id == j)) [
      | inl same ↦ elim v [
        | inl (missing, made) ↦ inr (
          spawned req,
          ap (lookup j) threads_after
              ∙ ap (λ i. lookup i (insert req.build_id (spawned req) s.threads))
                  (sym ((eq_iff req.build_id j).0 same))
              ∙ lookup-insert_self req.build_id (spawned req) s.threads,
          omega (arith, made),
        )
        | inr (phase, thread, made) ↦ absurd (elim tracked [
          | inl (_, missing, _) ↦ ground (arith, missing, thread)
          | inr (b, _, at, _, _) ↦ ground (arith, at, fresh, (eq_iff req.build_id j).0 same)
        ])
      ]
      | inr other ↦
          uncounted (enqueues req now) es s t j
            (ap (lookup j) threads_after ∙ lookup-insert_other req.build_id j _ s.threads other)
            refl v
    ]
  ]

  cancelled-IsCounted :
      (es : List Event) (s t : System W) (id j : String)
      → take_turn (cancels id) s ≡ some t
      → IsCounted es s j
      → IsCounted (cancels id ∷ es) t j
  cancelled-IsCounted es s t id j h v =
      uncounted (cancels id) es s t j
        (elim (take_turn-Cancelled s t id h) [
          | inl same ↦ ap (λ u. lookup j u.threads) (sym same)
          | inr (b, _, _, threads_after, _, _) ↦ ap (lookup j) threads_after
        ])
        refl v

  take_turn-IsCounted :
      (e : Event) (es : List Event) (s t : System W)
      → take_turn e s ≡ some t
      → ((j : String) → IsTracked es s j)
      → ((j : String) → IsCounted es s j)
      → (j : String) → IsCounted (e ∷ es) t j
  take_turn-IsCounted (enqueues req now) es s t h tracked v j =
      enqueued-IsCounted es s t req now j h (tracked j) (v j)
  take_turn-IsCounted (cancels id) es s t h tracked v j = cancelled-IsCounted es s t id j h (v j)
  take_turn-IsCounted (moves id move) es s t h tracked v j =
      moved-IsCounted es s t id move h j (v id) (v j)

  after-IsCounted :
      (es : List Event) (m : Manager W) (w : W) (t : System W)
      → m.builds ≡ []
      → after es (started m w) ≡ some t
      → (id : String) → IsCounted es t id
  unfolding after lookup
  after-IsCounted [] m w t empty h id =
      inl (ap (λ u. lookup id u.threads) (sym (from_some h)), refl)
  after-IsCounted (e ∷ es) m w t empty h id = elim (Option-cases (after es (started m w))) [
    | inl stuck ↦ absurd (ground (arith, h, stuck))
    | inr (s, before) ↦
        take_turn-IsCounted e es s t (ground (arith, h, before))
          (after-IsTracked es m w s empty before) (after-IsCounted es m w s empty before) id
  ]

  abbrev IsClosed : System W → String → Type 0
  IsClosed t id =
      (b : RunningBuild) × (status id t.manager ≡ ok b)
      × IsOver b
      × (b.finished_at ≢ none)
      × (wait id t.manager ≡ ok finished)

  ended-IsClosed :
      (es : List Event) (t : System W) (id : String) (b : RunningBuild) (phase : Phase)
      → moves_left phase ≡ 0
      → lookup id t.manager.builds ≡ some b
      → IsBuild es id phase b
      → IsClosed t id
  unfolding status wait
  ended-IsClosed es t id b ended none_left at v =
      (b, rw (status, at) refl, v.staged.0, v.staged.1, rw (wait, at, v.staged.2) refl)
  ended-IsClosed es t id b (spawned req) none_left at v = absurd (omega arith)
  ended-IsClosed es t id b (announced req) none_left at v = absurd (omega arith)
  ended-IsClosed es t id b (executing spec) none_left at v = absurd (omega arith)
  ended-IsClosed es t id b returned none_left at v = absurd (omega arith)

  -- In every history of a manager without builds, once the goroutine of a build has made four moves
  -- besides the executor's lines, the build is ready without a reason or in error, it has its
  -- finishing instant, and whoever waits for it goes on.
  pub after-closed :
      (es : List Event) (m : Manager W) (w : W) (t : System W)
      → m.builds ≡ []
      → after es (started m w) ≡ some t
      → (id : String) → moves_made id es ≡ 4
      → (b : RunningBuild) × (status id t.manager ≡ ok b)
        × IsOver b
        × (b.finished_at ≢ none)
        × (wait id t.manager ≡ ok finished)
  after-closed es m w t empty h id four = elim (after-IsCounted es m w t empty h id) [
    | inl (missing, made) ↦ absurd (omega arith)
    | inr (phase, thread, made) ↦ elim (after-IsTracked es m w t empty h id) [
      | inl (_, missing, _) ↦ absurd (ground (arith, missing, thread))
      | inr (b, other, at, thread', v) ↦
          ended-IsClosed es t id b other
            (ap moves_left (from_some (sym thread' ∙ thread)) ∙ omega (arith, made, four)) at v
    ]
  ]

  -- A move that the goroutine can make is made.
  pub turn-go :
      (s : System W) (id : String) (move : Move) (phase next : Phase) (b b' : RunningBuild)
      → lookup id s.manager.builds ≡ some b
      → lookup id s.threads ≡ some phase
      → go move phase b ≡ some (next, b')
      → (t : System W) × (take_turn (moves id move) s ≡ some t)
        × (lookup id t.manager.builds ≡ some b')
        × (lookup id t.threads ≡ some next)
  unfolding take_turn
  turn-go s id move phase next b b' at thread went = (
    record {
      manager = record s.manager { builds = insert id b' s.manager.builds };
      threads = insert id next s.threads;
      world = notify s.manager.on_complete move b' s.world;
    },
    ground (arith, at, thread, went),
    lookup-insert_self id b' s.manager.builds,
    lookup-insert_self id next s.threads,
  )
