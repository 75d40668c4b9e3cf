-- ===== src/Runtime/Noop/Keeps.antt =====
-- The in-memory runtime keeps the promises of the interface.
use edvabe.Prelude.{
  String, ◌≡◌, refl, subst, inl, inr, Option, none, some, true, false, [], ◌∷◌, ◌==◌, eq_iff,
  eq_refl, arith, All, Bool-cases, Option-cases,
}
use edvabe.Prelude.Int.{ℤ}
use edvabe.Prelude.Dict.{
  Dict, lookup, lookup-insert, lookup-delete, Unique, Unique-insert, Unique-delete, Everywhere,
  Everywhere-insert, Everywhere-delete,
}
use edvabe.Prelude.Result.{err}
use edvabe.Runtime.{Fault, ContainerState, CreateRequest, Reply, running, paused, stopped}
use edvabe.Runtime.Laws.{Moves, IsQuiet, IsRuntime}
use edvabe.Runtime.Noop.{
  Entry, Noop, state_of_entry, entry_of, managed_of, managed_all, set_paused, set_unpaused,
  set_stopped, set_started, create, destroy, change, agent_endpoint, noop_runtime,
}

-- The state that `ListManaged` reports for a name.
abbrev pub noop_view : {C : Type 0} → Noop × C → String → Option ContainerState
noop_view (r, c) id = elim (lookup id r.sandboxes) [
  | none ↦ none
  | some e ↦ some (state_of_entry e)
]

abbrev pub IsSane : String → Entry → Type 0
IsSane id e = e.is_stopped ≡ true → e.is_paused ≡ false

-- No name twice, and no entry both stopped and paused.
pub record IsNoop {C : Type 0} (w : Noop × C) : Type 0 where
  pub unique : Unique w.0.sandboxes
  pub sane : Everywhere IsSane w.0.sandboxes

entry_of-IsSane : (now : ℤ) (q : CreateRequest) → IsSane q.sandbox_id (entry_of now q)
unfolding entry_of
entry_of-IsSane now q = λ e. cc

entry_of-running : (now : ℤ) (q : CreateRequest) → state_of_entry (entry_of now q) ≡ running
unfolding entry_of state_of_entry
entry_of-running now q = refl

-- Each container listed is seen in its state.
managed_all-states :
    (d es : Dict Entry)
    → ((id : String) (e : Entry) → lookup id es ≡ some e → lookup id d ≡ some e)
    → Unique es
    → All
        (λ mc.
          elim (lookup mc.sandbox_id d) [ none ↦ none | some e ↦ some (state_of_entry e) ]
          ≡ some mc.state)
        (managed_all es)
unfolding managed_all managed_of lookup
managed_all-states d [] within u = tt
managed_all-states d ((id, e) ∷ rest) within (fresh, u) = (
  ground (arith, within id e, eq_refl id),
  managed_all-states d rest (λ j e' at. ground (arith, at, fresh, within j e', eq_iff id j)) u,
)

module _ {C : Type 0} (now : C → ℤ × C) where
  abbrev Moved :
      {A : Type 0} → String → Option ContainerState → Noop × C → Reply (Noop × C) A → Type 0
  Moved id after w r = Moves noop_view IsNoop id after w r

  quiet : (w : Noop × C) (c : C) → IsNoop w → IsQuiet noop_view IsNoop w (w.0, c)
  quiet w c s = record { sound = record { unique = s.unique; sane = s.sane }; same = λ j. refl }

  failed_moves :
      {A : Type 0} (id : String) (after : Option ContainerState) (w : Noop × C) (f : Fault)
      → IsNoop w
      → Moved {A = A} id after w (err f, w)
  failed_moves id after w f s = record {
    sound = s;
    done = λ a e. cc;
    failed = λ _ _. refl;
    others = λ _ _. refl;
  }

  create_moves :
      (q : CreateRequest) (w : Noop × C)
      → IsNoop w
      → Moved q.sandbox_id (some running) w (create now q w)
  unfolding create
  create_moves q (r, c) s = elim (Bool-cases (q.sandbox_id == "")) [
    | inl empty ↦ rw (empty, create) (failed_moves _ _ (r, c) _ s)
    | inr named ↦ elim (Option-cases (lookup q.sandbox_id r.sandboxes)) [
      | inr (e, taken) ↦ rw (named, taken, create) (failed_moves _ _ (r, c) _ s)
      | inl free ↦
          let e = entry_of (now c).0 q in
          rw (named, free, create)
            (record {
              sound = record {
                unique = Unique-insert q.sandbox_id e r.sandboxes s.unique;
                sane =
                    Everywhere-insert IsSane q.sandbox_id e r.sandboxes
                      (entry_of-IsSane (now c).0 q) s.sane;
              };
              done = λ a _. ground (
                arith,
                lookup-insert q.sandbox_id q.sandbox_id e r.sandboxes,
                eq_refl q.sandbox_id,
                entry_of-running (now c).0 q,
              );
              failed = λ f bad. cc;
              others = λ j ne.
                  ground
                    (arith, ne, lookup-insert q.sandbox_id j e r.sandboxes, eq_iff q.sandbox_id j);
            })
    ]
  ]

  create_taken :
      (q : CreateRequest) (w : Noop × C) (c : ContainerState)
      → noop_view w q.sandbox_id ≡ some c
      → (e : Fault) × ((create now q w).0 ≡ err e)
  unfolding create
  create_taken q (r, k) c at = elim (Bool-cases (q.sandbox_id == "")) [
    | inl empty ↦ rw (empty, create) (_, refl)
    | inr named ↦ elim (Option-cases (lookup q.sandbox_id r.sandboxes)) [
      | inr (e, taken) ↦ rw (named, taken, create) (_, refl)
      | inl free ↦ absurd (ground (arith, at, free))
    ]
  ]

  change_moves :
      (f : Entry → Entry) (after : ContainerState) (id : String) (w : Noop × C)
      → IsNoop w
      → ((e : Entry)
          → lookup id w.0.sandboxes ≡ some e
          → (state_of_entry (f e) ≡ after) × IsSane id (f e))
      → Moved id (some after) w (change now f id w)
  unfolding change
  change_moves f after id (r, c) s good = elim (Option-cases (lookup id r.sandboxes)) [
    | inl gone ↦ rw (gone, change) (failed_moves _ _ (r, c) _ s)
    | inr (e, at) ↦
        let (state, sane) = good e at in
        rw (at, change)
          (record {
            sound = record {
              unique = Unique-insert id (f e) r.sandboxes s.unique;
              sane = Everywhere-insert IsSane id (f e) r.sandboxes sane s.sane;
            };
            done = λ _ _. ground (arith, lookup-insert id id (f e) r.sandboxes, eq_refl id, state);
            failed = λ g bad. cc;
            others = λ j ne. ground (arith, ne, lookup-insert id j (f e) r.sandboxes, eq_iff id j);
          })
  ]

  destroy_moves : (id : String) (w : Noop × C) → IsNoop w → Moved id none w (destroy now id w)
  unfolding destroy
  destroy_moves id (r, c) s = elim (Option-cases (lookup id r.sandboxes)) [
    | inl gone ↦ rw (gone, destroy) (failed_moves _ _ (r, c) _ s)
    | inr (e, at) ↦
        rw (at, destroy)
          (record {
            sound = record {
              unique = Unique-delete id r.sandboxes s.unique;
              sane = Everywhere-delete IsSane id r.sandboxes s.sane;
            };
            done = λ _ _. ground (arith, lookup-delete id id r.sandboxes, eq_refl id);
            failed = λ g bad. cc;
            others = λ j ne. ground (arith, ne, lookup-delete id j r.sandboxes, eq_iff id j);
          })
  ]

  endpoint-IsQuiet :
      (id : String) (w : Noop × C)
      → IsNoop w
      → IsQuiet noop_view IsNoop w (agent_endpoint now id w).1
  unfolding agent_endpoint
  endpoint-IsQuiet id (r, c) s = elim (Option-cases (lookup id r.sandboxes)) [
    | inl gone ↦ rw (gone, agent_endpoint) (quiet (r, c) c s)
    | inr (e, at) ↦ rw (at, agent_endpoint) (quiet (r, c) c s)
  ]

  -- The in-memory runtime, in a world that has no name twice and no entry both stopped and paused,
  -- keeps that so and does all that the manager relies on of a runtime.
  pub noop_runtime-IsRuntime : IsRuntime noop_view IsNoop (noop_runtime now)
  unfolding noop_runtime state_of_entry
  noop_runtime-IsRuntime = record {
    create_moves = create_moves;
    create_taken = λ q w c _ at. create_taken q w c at;
    destroy_moves = destroy_moves;
    pause_moves = λ id w s up. change_moves set_paused paused id w s λ e at. ground (arith, up, at);
    unpause_moves =
        λ id w s was. change_moves set_unpaused running id w s λ e at. ground (arith, was, at);
    stop_moves = λ id w s. change_moves set_stopped stopped id w s λ e at. (refl, λ _. refl);
    start_moves = λ id w s was.
        change_moves set_started running id w s λ e at. ground (arith, was, at, s.sane id e);
    endpoint_quiet = endpoint-IsQuiet;
    list_quiet = λ w s. quiet w w.1 s;
    list_states = λ w mcs s listed.
        subst (All (λ mc. noop_view w mc.sandbox_id ≡ some mc.state)) (cc listed)
          (managed_all-states w.0.sandboxes w.0.sandboxes (λ id e at. at) s.unique);
  }
