-- ===== src/Builder/Manager/Lifecycle.antt =====
-- The invariant of the builds: each has its goroutine, its status is the one of where the goroutine
-- stands, and its ring of lines stands for all that the goroutine has said.
use edvabe.Prelude.{
  from_some, ◌≡◌, refl, sym, ◌∙◌, ap, ap₂, subst, ◌⊎◌, inl, inr, String, true, ◌==◌, eq_iff,
  eq_refl, none, some, List, [], ◌∷◌, ◌++◌, arith, Option-cases, Bool-cases,
}
use edvabe.Prelude.Int.{ℤ}
use edvabe.Prelude.Dict.{lookup, lookup-insert_self}
use edvabe.Builder.RingBuffer.{new_ring_buffer}
use edvabe.Builder.RingBuffer.History.{Represents, new_ring_buffer-Represents}
use edvabe.Builder.Manager.{
  Manager, RunningBuild, EnqueueSpec, Phase, spawned, announced, executing, returned, ended, Move,
  queued,
}
use edvabe.Builder.Manager.History.{
  System, Event, enqueues, cancels, moves, said, said_in, log_of, take_turn, after, started, Turned,
  take_turn-Turned, take_turn-Enqueued, take_turn-Cancelled, lookup-insert_other,
}
use edvabe.Builder.Manager.Moving.{Agrees, Fits, go-Fits, append_end}

pub record IsBuild (es : List Event) (id : String) (phase : Phase) (b : RunningBuild) : Type 0 where
  pub identified : b.build_id ≡ id
  pub staged : Agrees phase b
  pub logged : Represents b.logs (log_of id b.template_id b.result_tag es)

cancelled-Agrees :
    (phase : Phase) (b : RunningBuild)
    → Agrees phase b
    → Agrees phase (record b { cancelled = true })
cancelled-Agrees (spawned req) b v = v
cancelled-Agrees (announced req) b v = v
cancelled-Agrees (executing spec) b v = v
cancelled-Agrees returned b v = v
cancelled-Agrees ended b v = v

cancelled-IsBuild :
    (es : List Event) (id : String) (phase : Phase) (b : RunningBuild)
    → IsBuild es id phase b
    → IsBuild (cancels id ∷ es) id phase (record b { cancelled = true })
cancelled-IsBuild es id phase b v = record {
  identified = v.identified;
  staged = cancelled-Agrees phase b v.staged;
  logged = subst (Represents b.logs) (sym (append_end _)) v.logged;
}

said_in_own :
    (id template_id tag : String) (move : Move)
    → said_in id template_id tag (moves id move) ≡ said template_id tag move
said_in_own id template_id tag move = rw (eq_refl id) refl

module _ {W : Type 0} where
  -- An identifier has its goroutine and its build, or neither and nothing said.
  abbrev pub IsTracked : List Event → System W → String → Type 0
  IsTracked es s id =
      ((lookup id s.manager.builds ≡ none)
        × (lookup id s.threads ≡ none)
        × ((template_id tag : String) → log_of id template_id tag es ≡ []))
      ⊎ ((b : RunningBuild) × (phase : Phase) × (lookup id s.manager.builds ≡ some b)
          × (lookup id s.threads ≡ some phase)
          × IsBuild es id phase b)

  -- An event that leaves an identifier alone.
  unsaid :
      (e : Event) (es : List Event) (s t : System W) (id : String)
      → lookup id t.manager.builds ≡ lookup id s.manager.builds
      → lookup id t.threads ≡ lookup id s.threads
      → ((template_id tag : String) → said_in id template_id tag e ≡ [])
      → IsTracked es s id
      → IsTracked (e ∷ es) t id
  unsaid e es s t id same_build same_thread quiet v = elim v [
    | inl (no_build, no_thread, no_log) ↦
        inl
          (same_build ∙ no_build, same_thread ∙ no_thread, λ g k. ap₂ ◌++◌ (no_log g k) (quiet g k))
    | inr (b, phase, at, thread, w) ↦ inr (
      b,
      phase,
      same_build ∙ at,
      same_thread ∙ thread,
      record {
        identified = w.identified;
        staged = w.staged;
        logged =
            subst (Represents b.logs)
              (sym (
                ap (λ l. log_of id b.template_id b.result_tag es ++ l)
                  (quiet b.template_id b.result_tag)
                ∙ append_end (log_of id b.template_id b.result_tag es)))
              w.logged;
      },
    )
  ]

  pub tracked_at :
      (es : List Event) (s : System W) (id : String) (b : RunningBuild) (phase : Phase)
      → IsTracked es s id
      → lookup id s.manager.builds ≡ some b
      → lookup id s.threads ≡ some phase
      → IsBuild es id phase b
  tracked_at es s id b phase v at thread = elim v [
    | inl (no_build, no_thread, no_log) ↦ absurd (ground (arith, no_build, at))
    | inr (c, other, at', thread', w) ↦
        subst (λ p. IsBuild es id p b) (from_some (sym thread' ∙ thread))
          (subst (IsBuild es id other) (from_some (sym at' ∙ at)) w)
  ]

  moved_build :
      (es : List Event) (s t : System W) (id : String) (move : Move) (r : Turned s t id move)
      → IsBuild es id r.phase r.build
      → IsBuild (moves id move ∷ es) id r.next r.build_after
  moved_build es s t id move r v =
      let m = subst (Fits move r.build) r.went (go-Fits move r.phase r.build v.staged) in
      record {
        identified = m.same_id ∙ v.identified;
        staged = m.staged;
        logged =
            subst (Represents r.build_after.logs)
              (ap (λ l. log_of id r.build.template_id r.build.result_tag es ++ l)
                  (sym (said_in_own id r.build.template_id r.build.result_tag move))
                ∙ ap₂ (λ g k. log_of id g k (moves id move ∷ es)) (sym m.same_template)
                    (sym m.same_tag))
              (m.logged _ v.logged);
      }

  moved-IsTracked :
      (es : List Event) (s t : System W) (id : String) (move : Move)
      → take_turn (moves id move) s ≡ some t
      → ((j : String) → IsTracked es s j)
      → (j : String) → IsTracked (moves id move ∷ es) t j
  moved-IsTracked es s t id move h v j =
      let r = take_turn-Turned s t id move h in
      elim (Bool-cases (id == j)) [
        | inl same ↦ subst (IsTracked (moves id move ∷ es) t) ((eq_iff id j).0 same) (
            inr (
              r.build_after,
              r.next,
              ap (lookup id) r.builds_after ∙ lookup-insert_self id r.build_after s.manager.builds,
              ap (lookup id) r.threads_after ∙ lookup-insert_self id r.next s.threads,
              moved_build es s t id move r
                  (tracked_at es s id r.build r.phase (v id) r.at r.thread),
            ))
        | inr other ↦
            unsaid (moves id move) es s t j
              (ap (lookup j) r.builds_after
                ∙ lookup-insert_other id j r.build_after s.manager.builds other)
              (ap (lookup j) r.threads_after ∙ lookup-insert_other id j r.next s.threads other)
              (λ g k. ground (arith, other)) (v j)
      ]

  queued-IsBuild :
      (es : List Event) (s : System W) (req : EnqueueSpec) (now : ℤ)
      → lookup req.build_id s.manager.builds ≡ none
      → IsTracked es s req.build_id
      → IsBuild (enqueues req now ∷ es) req.build_id (spawned req) (queued req now s.manager)
  unfolding queued
  queued-IsBuild es s req now fresh v = record {
    identified = refl;
    staged = (refl, refl, refl, refl, refl);
    logged = elim v [
      | inl (no_build, no_thread, no_log) ↦
          subst (Represents (new_ring_buffer s.manager.log_capacity))
            (sym (append_end (log_of req.build_id req.template_id _ es) ∙ no_log req.template_id _))
            (new_ring_buffer-Represents s.manager.log_capacity)
      | inr (b, phase, at, thread, w) ↦ absurd (ground (arith, fresh, at))
    ];
  }

  enqueued-IsTracked :
      (es : List Event) (s t : System W) (req : EnqueueSpec) (now : ℤ)
      → take_turn (enqueues req now) s ≡ some t
      → ((j : String) → IsTracked es s j)
      → (j : String) → IsTracked (enqueues req now ∷ es) t j
  enqueued-IsTracked es s t req now h v j = elim (take_turn-Enqueued s t req now h) [
    | inl same ↦
        unsaid (enqueues req now) es s t j (ap (λ u. lookup j u.manager.builds) (sym same))
          (ap (λ u. lookup j u.threads) (sym same)) (λ g k. refl) (v j)
    | inr (fresh, builds_after, threads_after, _, _) ↦ elim (Bool-cases (req.build_id == j)) [
      | inl same ↦ subst (IsTracked (enqueues req now ∷ es) t) ((eq_iff req.build_id j).0 same) (
          inr (
            queued req now s.manager,
            spawned req,
            ap (lookup req.build_id) builds_after
                ∙ lookup-insert_self req.build_id _ s.manager.builds,
            ap (lookup req.build_id) threads_after ∙ lookup-insert_self req.build_id _ s.threads,
            queued-IsBuild es s req now fresh (v req.build_id),
          ))
      | inr other ↦
          unsaid (enqueues req now) es s t j
            (ap (lookup j) builds_after
              ∙ lookup-insert_other req.build_id j _ s.manager.builds other)
            (ap (lookup j) threads_after ∙ lookup-insert_other req.build_id j _ s.threads other)
            (λ g k. refl) (v j)
    ]
  ]

  cancelled-IsTracked :
      (es : List Event) (s t : System W) (id : String)
      → take_turn (cancels id) s ≡ some t
      → ((j : String) → IsTracked es s j)
      → (j : String) → IsTracked (cancels id ∷ es) t j
  cancelled-IsTracked es s t id h v j = elim (take_turn-Cancelled s t id h) [
    | inl same ↦
        unsaid (cancels id) es s t j (ap (λ u. lookup j u.manager.builds) (sym same))
          (ap (λ u. lookup j u.threads) (sym same)) (λ g k. refl) (v j)
    | inr (b, at, builds_after, threads_after, _, _) ↦ elim (Bool-cases (id == j)) [
      | inl same ↦ subst (IsTracked (cancels id ∷ es) t) ((eq_iff id j).0 same) (elim (v id) [
        | inl (no_build, no_thread, no_log) ↦ absurd (ground (arith, no_build, at))
        | inr (c, phase, at', thread, w) ↦ inr (
          record b { cancelled = true },
          phase,
          ap (lookup id) builds_after ∙ lookup-insert_self id _ s.manager.builds,
          ap (lookup id) threads_after ∙ thread,
          cancelled-IsBuild es id phase b (tracked_at es s id b phase (v id) at thread),
        )
      ])
      | inr other ↦
          unsaid (cancels id) es s t j
            (ap (lookup j) builds_after ∙ lookup-insert_other id j _ s.manager.builds other)
            (ap (lookup j) threads_after) (λ g k. refl) (v j)
    ]
  ]

  take_turn-IsTracked :
      (e : Event) (es : List Event) (s t : System W)
      → take_turn e s ≡ some t
      → ((j : String) → IsTracked es s j)
      → (j : String) → IsTracked (e ∷ es) t j
  take_turn-IsTracked (enqueues req now) es s t h v = enqueued-IsTracked es s t req now h v
  take_turn-IsTracked (cancels id) es s t h v = cancelled-IsTracked es s t id h v
  take_turn-IsTracked (moves id move) es s t h v = moved-IsTracked es s t id move h v

  -- In every history of calls and of goroutines' moves on a manager without builds, interleaved in
  -- any order: an identifier is either unknown and has logged nothing, or has one build and one
  -- goroutine. The build's status, reason, finishing instant and channel are those of where its
  -- goroutine stands, and its ring of lines represents all that was ever said of the build.
  pub after-IsTracked :
      (es : List Event) (m : Manager W) (w : W) (t : System W)
      → m.builds ≡ []
      → after es (started m w) ≡ some t
      → (id : String) → IsTracked es t id
  unfolding after lookup
  after-IsTracked [] m w t empty h id =
      subst (λ u. IsTracked [] u id) (from_some h) (inl (rw empty refl, refl, λ g k. refl))
  after-IsTracked (e ∷ es) m w t empty h id = elim (Option-cases (after es (started m w))) [
    | inl stuck ↦ absurd (ground (arith, h, stuck))
    | inr (s, before) ↦
        take_turn-IsTracked e es s t (ground (arith, h, before))
          (after-IsTracked es m w s empty before) id
  ]
