-- ===== src/Sandbox/Manager/Containers/Arrivals.antt =====
-- The calls that bring sandboxes in, `Create` and `Rehydrate`, and the containers.
use edvabe.Prelude.{
  String, ◌≡◌, sym, subst, inl, inr, some, arith, Option, Option-cases, List, [], ◌∷◌, All, ◌==◌,
  eq_iff, Bool-cases, if◌then◌else◌,
}
use edvabe.Prelude.Int.{ℤ, pos, leb_ℤ}
use edvabe.Prelude.Dict.{lookup}
use edvabe.Prelude.Result.{ok, Result-cases}
use edvabe.Runtime.{ContainerState, ManagedContainer}
use edvabe.Runtime.Laws.{IsQuiet-trans}
use edvabe.Sandbox.{default_timeout}
use edvabe.Sandbox.Labels.{sandbox_from_managed}
use edvabe.Sandbox.Host.{Host, TemplateResolution}
use edvabe.Sandbox.Host.Laws.{IsHost}
use edvabe.Sandbox.Manager.{Manager}
use edvabe.Sandbox.Manager.Create.{CreateOptions, resolve_template, create}
use edvabe.Sandbox.Manager.Create.Outcomes.{CreateOutcome, create-CreateOutcome}
use edvabe.Sandbox.Manager.Rehydrate.{revive, adopt_all, rehydrate}
use edvabe.Sandbox.Manager.Rehydrate.Adoption.{find_container, lookup-adopt_all}
use edvabe.Sandbox.Manager.Containers.{
  container_of, IsTracked, Apart, quiet-IsTracked, put-IsTracked, moved-IsTracked,
}
use edvabe.Sandbox.Manager.Containers.Birth.{create-Born}

-- A revived sandbox is recorded in the state that its container was reported in.
revive-container_of :
    (now timeout : ℤ) (mc : ManagedContainer)
    → container_of (revive now timeout mc).state (revive now timeout mc).pause_mode ≡ mc.state
unfolding revive sandbox_from_managed
revive-container_of now timeout mc = ground arith

-- The container that is found has the name, and whatever holds of all of the list.
found-All :
    (P : ManagedContainer → Type 0) (mcs : List ManagedContainer) (id : String)
    (mc : ManagedContainer)
    → find_container id mcs ≡ some mc
    → All P mcs
    → (mc.sandbox_id ≡ id) × P mc
found-All P [] id mc e ps = absurd (cc e)
found-All P (c ∷ rest) id mc e (p, ps) = elim (Bool-cases (c.sandbox_id == id)) [
  | inl same ↦ ground (arith, same, e, p, eq_iff c.sandbox_id id)
  | inr other ↦ ground (arith, other, e, found-All P rest id mc, ps)
]

module _ {W : Type 0} (view : W → String → Option ContainerState) (Sound : W → Type 0) (h : Host W)
    (lawful : IsHost view Sound h) where
  pub create-IsTracked :
      (given : CreateOptions) (m : Manager) (w : W)
      → IsTracked view Sound m w
      → let r = create h given m w in IsTracked view Sound r.1 r.2
  create-IsTracked given m w t =
      let born = create-Born view Sound h lawful given m w t.sound in
      let outcome = create-CreateOutcome h given m w in
      let id = (h.new_sandbox_id w).0 in
      let find : String → TemplateResolution = λ t. resolve_template h m t w in
      elim (Result-cases (create h given m w).0) [
        | inl (s, e) ↦
            let new : CreateOutcome given find id m (ok s) (create h given m w).1 =
              subst (λ x. CreateOutcome given find id m x (create h given m w).1) e outcome in
            subst (λ x. IsTracked view Sound x (create h given m w).2) (sym new.2)
              (put-IsTracked view Sound s.id s m w (create h given m w).2 born.sound
                (subst (λ i. Apart view Sound i w (create h given m w).2) (sym (born.named s e))
                  born.others)
                (inr (born.success s e).1) t)
        | inr (f, e) ↦
            let new : (create h given m w).1 ≡ m =
              subst (λ x. CreateOutcome given find id m x (create h given m w).1) e outcome in
            subst (λ x. IsTracked view Sound x (create h given m w).2) (sym new)
              (moved-IsTracked view Sound id m w (create h given m w).2 born.sound born.others
                (λ s at. ground (
                  arith,
                  t.fits id s at,
                  born.taken (container_of s.state s.pause_mode),
                  born.taken ContainerState.running,
                ))
                t)
      ]

  adopt_all-IsTracked :
      (now timeout : ℤ) (mcs : List ManagedContainer) (m : Manager) (w : W)
      → All (λ mc. view w mc.sandbox_id ≡ some mc.state) mcs
      → IsTracked view Sound m w
      → IsTracked view Sound
          (record m { sandboxes = (adopt_all now timeout mcs m.sandboxes 0).0 })
          w
  adopt_all-IsTracked now timeout mcs m w states t = record {
    sound = t.sound;
    fits = λ id s at.
        let e = lookup-adopt_all now timeout mcs m.sandboxes 0 id in
        elim (Option-cases (lookup id m.sandboxes)) [
          | inr (s0, old) ↦ ground (arith, at, e, old, t.fits id s)
          | inl new ↦ elim (Option-cases (find_container id mcs)) [
            | inl nowhere ↦ ground (arith, at, e, new, nowhere)
            | inr (mc, found) ↦
                let there = found-All _ mcs id mc found states in
                ground (arith, at, e, new, found, there, revive-container_of now timeout mc)
          ]
        ];
  }

  pub rehydrate-IsTracked :
      (given : ℤ) (m : Manager) (w : W)
      → IsTracked view Sound m w
      → let r = rehydrate h given m w in IsTracked view Sound r.1 r.2
  unfolding rehydrate
  rehydrate-IsTracked given m w t =
      let timeout : ℤ = if leb_ℤ given (pos 0) then default_timeout else given in
      let w1 = (h.rt.list_managed w).1 in
      let q1 = lawful.runtime.list_quiet w t.sound in
      let t1 = quiet-IsTracked view Sound m w w1 q1 t in
      elim (Result-cases (h.rt.list_managed w).0) [
        | inr (e, failed) ↦ rw (failed, rehydrate) t1
        | inl (mcs, listed) ↦
            let adopted =
              adopt_all-IsTracked (h.now w1).0 timeout mcs m w
                (lawful.runtime.list_states w mcs t.sound listed) t in
            let q2 = IsQuiet-trans view Sound w w1 (h.now w1).1 q1 (lawful.now_quiet w1 q1.sound) in
            rw (listed, rehydrate) (quiet-IsTracked view Sound _ w (h.now w1).1 q2 adopted)
      ]
