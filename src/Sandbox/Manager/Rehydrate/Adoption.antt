-- ===== src/Sandbox/Manager/Rehydrate/Adoption.antt =====
-- `Rehydrate` adds the containers that the registry lacks, and nothing else.
use edvabe.Prelude.{
  ℕ, suc, ◌+◌, String, ◌≡◌, ◌≢◌, refl, sym, subst, Option, none, some, List, [], ◌∷◌, arith, All,
  length, ◌==◌, eq_iff, Option-cases, inl, inr, if◌then◌else◌,
}
use edvabe.Prelude.Int.{ℤ, pos, leb_ℤ}
use edvabe.Prelude.Dict.{
  Dict, lookup, insert, lookup-insert, lookup-insert_self, length-insert_new, Unique, Unique-insert,
  Everywhere, Everywhere-insert,
}
use edvabe.Prelude.Result.{ok, Result-cases}
use edvabe.Runtime.{ManagedContainer}
use edvabe.Sandbox.{Sandbox, default_timeout}
use edvabe.Sandbox.Host.{Host}
use edvabe.Sandbox.Manager.{Manager}
use edvabe.Sandbox.Manager.Registry.{IsEntry, IsRegistry}
use edvabe.Sandbox.Manager.Rehydrate.{revive, adopt_all, rehydrate}

-- A revived sandbox is in the phase of its container.
pub revive-IsEntry :
    (now timeout : ℤ) (mc : ManagedContainer) → IsEntry mc.sandbox_id (revive now timeout mc)
unfolding revive
revive-IsEntry now timeout mc = ground arith

-- The first container of the list with the identifier.
abbrev pub find_container : String → List ManagedContainer → Option ManagedContainer
find_container id [] = none
find_container id (mc ∷ rest) = if mc.sandbox_id == id then some mc else find_container id rest

abbrev pub revived : ℤ → ℤ → Option ManagedContainer → Option Sandbox
revived now timeout none = none
revived now timeout (some mc) = some (revive now timeout mc)

abbrev pub or_else : Option Sandbox → Option Sandbox → Option Sandbox
or_else none b = b
or_else (some a) b = some a

module _ (now timeout : ℤ) where
  -- An entry that was there stays as it was; a container that had none gets one, from the first
  -- report of it.
  pub lookup-adopt_all :
      (mcs : List ManagedContainer) (d : Dict Sandbox) (n : ℕ) (id : String)
      → lookup id (adopt_all now timeout mcs d n).0
        ≡ or_else (lookup id d) (revived now timeout (find_container id mcs))
  unfolding adopt_all
  lookup-adopt_all [] d n id = ground arith
  lookup-adopt_all (mc ∷ rest) d n id =
      let s = revive now timeout mc in
      let d' = insert mc.sandbox_id s d in
      ground (
        arith,
        lookup-adopt_all rest d n id,
        lookup-adopt_all rest d' (suc n) id,
        lookup-insert mc.sandbox_id id s d,
        eq_iff mc.sandbox_id id,
      )

  adopt_all-Unique :
      (mcs : List ManagedContainer) (d : Dict Sandbox) (n : ℕ)
      → Unique d
      → Unique (adopt_all now timeout mcs d n).0
  unfolding adopt_all
  adopt_all-Unique [] d n u = u
  adopt_all-Unique (mc ∷ rest) d n u =
      let s = revive now timeout mc in
      ground (
        arith,
        adopt_all-Unique rest d n u,
        adopt_all-Unique rest (insert mc.sandbox_id s d) (suc n)
            (Unique-insert mc.sandbox_id s d u),
      )

  adopt_all-Everywhere :
      (mcs : List ManagedContainer) (d : Dict Sandbox) (n : ℕ)
      → Everywhere IsEntry d
      → Everywhere IsEntry (adopt_all now timeout mcs d n).0
  unfolding adopt_all
  adopt_all-Everywhere [] d n e = e
  adopt_all-Everywhere (mc ∷ rest) d n e = elim (Option-cases (lookup mc.sandbox_id d)) [
    | inl new ↦
        let s = revive now timeout mc in
        rw (new, adopt_all)
          (adopt_all-Everywhere rest (insert mc.sandbox_id s d) (suc n)
            (Everywhere-insert IsEntry mc.sandbox_id s d (revive-IsEntry now timeout mc) e))
    | inr (s, old) ↦ rw (old, adopt_all) (adopt_all-Everywhere rest d n e)
  ]

  -- The count is how many entries the registry has gained.
  adopt_all-count :
      (mcs : List ManagedContainer) (d : Dict Sandbox) (n : ℕ)
      → let r = adopt_all now timeout mcs d n in r.1 + length d ≡ n + length r.0
  unfolding adopt_all
  adopt_all-count [] d n = refl
  adopt_all-count (mc ∷ rest) d n =
      let d' = insert mc.sandbox_id (revive now timeout mc) d in
      ground (
        arith,
        adopt_all-count rest d n,
        adopt_all-count rest d' (suc n),
        length-insert_new mc.sandbox_id (revive now timeout mc) d,
      )

  adopt_all-new :
      (mc : ManagedContainer) (rest : List ManagedContainer) (d : Dict Sandbox) (n : ℕ)
      → lookup mc.sandbox_id d ≡ none
      → adopt_all now timeout (mc ∷ rest) d n
        ≡ adopt_all now timeout rest (insert mc.sandbox_id (revive now timeout mc) d) (suc n)
  unfolding adopt_all
  adopt_all-new mc rest d n e = rw (e, adopt_all)

  adopt_all-old :
      (mc : ManagedContainer) (rest : List ManagedContainer) (d : Dict Sandbox) (n : ℕ)
      → lookup mc.sandbox_id d ≢ none
      → adopt_all now timeout (mc ∷ rest) d n ≡ adopt_all now timeout rest d n
  unfolding adopt_all
  adopt_all-old mc rest d n e = ground (arith, e)

  abbrev AllPresent : List ManagedContainer → Dict Sandbox → Type 0
  AllPresent mcs d = All (λ mc. lookup mc.sandbox_id d ≢ none) mcs

  -- Afterwards every container of the list has an entry.
  adopt_all-present :
      (mcs : List ManagedContainer) (d : Dict Sandbox) (n : ℕ)
      → AllPresent mcs (adopt_all now timeout mcs d n).0
  adopt_all-present [] d n = tt
  adopt_all-present (mc ∷ rest) d n = elim (Option-cases (lookup mc.sandbox_id d)) [
    | inl new ↦
        let s = revive now timeout mc in
        let d' = insert mc.sandbox_id s d in
        subst (λ r. AllPresent (mc ∷ rest) r.0) (sym (adopt_all-new mc rest d n new))
          (
            ground (
              arith,
              lookup-adopt_all rest d' (suc n) mc.sandbox_id,
              lookup-insert_self mc.sandbox_id s d,
            ),
            adopt_all-present rest d' (suc n),
          )
    | inr (s, old) ↦
        subst (λ r. AllPresent (mc ∷ rest) r.0) (sym (adopt_all-old mc rest d n (λ e. cc)))
          (ground (arith, lookup-adopt_all rest d n mc.sandbox_id), adopt_all-present rest d n)
  ]

  -- Where every container has an entry there is nothing to add.
  adopt_all-nothing :
      (mcs : List ManagedContainer) (d : Dict Sandbox) (n : ℕ)
      → AllPresent mcs d
      → adopt_all now timeout mcs d n ≡ (d, n)
  unfolding adopt_all
  adopt_all-nothing [] d n a = refl
  adopt_all-nothing (mc ∷ rest) d n (present, a) =
      ground (arith, adopt_all-nothing rest d n a, present)

abbrev pub timeout_of : ℤ → ℤ
timeout_of given = if leb_ℤ given (pos 0) then default_timeout else given

module _ {W : Type 0} (h : Host W) (given : ℤ) (m : Manager) (w : W) where
  pub rehydrate-IsRegistry : IsRegistry m → IsRegistry (rehydrate h given m w).1
  unfolding rehydrate
  rehydrate-IsRegistry v = elim (Result-cases (h.rt.list_managed w).0) [
    | inl (mcs, e) ↦
        rw (e, rehydrate)
          (record {
            unique = adopt_all-Unique _ _ mcs m.sandboxes 0 v.unique;
            entries = adopt_all-Everywhere _ _ mcs m.sandboxes 0 v.entries;
          })
    | inr (f, e) ↦ rw (e, rehydrate) v
  ]

  -- When the runtime lists its containers, `Rehydrate` leaves a sandbox in the registry exactly
  -- as it is, a container that has none gets the sandbox read back from it, no other entry
  -- appears, and the result counts the entries gained.
  pub rehydrate_lem :
      (mcs : List ManagedContainer)
      → (h.rt.list_managed w).0 ≡ ok mcs
      → let now = (h.now (h.rt.list_managed w).1).0 in
        let r = rehydrate h given m w in
        ((id : String)
          → lookup id r.1.sandboxes
            ≡ or_else
                (lookup id m.sandboxes)
                (revived now (timeout_of given) (find_container id mcs)))
        × ((n : ℕ) × (r.0 ≡ ok n) × (n + length m.sandboxes ≡ length r.1.sandboxes))
  unfolding rehydrate
  rehydrate_lem mcs e =
      let now = (h.now (h.rt.list_managed w).1).0 in
      (
        λ id. ground (arith, e, lookup-adopt_all now (timeout_of given) mcs m.sandboxes 0 id),
        (
          (adopt_all now (timeout_of given) mcs m.sandboxes 0).1,
          ground (arith, e),
          ground (arith, e, adopt_all-count now (timeout_of given) mcs m.sandboxes 0),
        ),
      )

  -- When the runtime lists the same containers twice, a second `Rehydrate` adds nothing.
  pub rehydrate_twice :
      (mcs : List ManagedContainer) (given' : ℤ) (w' : W)
      → (h.rt.list_managed w).0 ≡ ok mcs
      → (h.rt.list_managed w').0 ≡ ok mcs
      → let m' = (rehydrate h given m w).1 in
        let again = rehydrate h given' m' w' in (again.0 ≡ ok 0) × (again.1 ≡ m')
  unfolding rehydrate
  rehydrate_twice mcs given' w' e e' =
      let now = (h.now (h.rt.list_managed w).1).0 in
      let d = (adopt_all now (timeout_of given) mcs m.sandboxes 0).0 in
      ground (
        arith,
        e,
        e',
        adopt_all-nothing (h.now (h.rt.list_managed w').1).0 (timeout_of given') mcs d 0
            (adopt_all-present now (timeout_of given) mcs m.sandboxes 0),
      )
