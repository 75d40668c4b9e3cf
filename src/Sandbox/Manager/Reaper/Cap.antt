-- ===== src/Sandbox/Manager/Reaper/Cap.antt =====
-- The cap on frozen sandboxes: which are demoted for it.
use mathlib.Core.List.{Perm}
use mathlib.Core.List.Perm
use edvabe.Prelude.{
  ℕ, zero, suc, ◌-◌, String, ◌≡◌, refl, ◌∙◌, ap, ◌⊎◌, inl, inr, [], ◌∷◌, ◌++◌, true, arith, All,
  All-drop, Bool-cases, take, drop, length, take-append-drop, length-drop,
}
use edvabe.Prelude.Int.{ℤ, pos, pos_part, ltb_ℤ, ◌≤ℤ◌, ◌<ℤ◌}
use edvabe.Sandbox.{Sandbox}
use edvabe.Sandbox.Manager.Reaper.{Entries, insert_by_pause, sort_by_pause, excess_frozen}

-- Paused no later than the other.
abbrev pub NoLater : String × Sandbox → String × Sandbox → Type 0
NoLater e f = e.1.paused_at ≤ℤ f.1.paused_at

abbrev pub Ascending : Entries → Type 0
Ascending [] = Unit
Ascending (e ∷ es) = All (NoLater e) es × Ascending es

insert_by_pause-perm : (e : String × Sandbox) (es : Entries) → Perm (insert_by_pause e es) (e ∷ es)
unfolding insert_by_pause
insert_by_pause-perm e [] = Perm.refl (e ∷ [])
insert_by_pause-perm e (f ∷ es) = elim (Bool-cases (ltb_ℤ f.1.paused_at e.1.paused_at)) [
  | inl later ↦ rw later (Perm.trans (Perm.cons f (insert_by_pause-perm e es)) (Perm.swap e f es))
  | inr sooner ↦ rw sooner (Perm.refl (e ∷ f ∷ es))
]

sort_by_pause-perm : (es : Entries) → Perm (sort_by_pause es) es
unfolding sort_by_pause
sort_by_pause-perm [] = Perm.refl []
sort_by_pause-perm (e ∷ es) =
    Perm.trans (insert_by_pause-perm e (sort_by_pause es)) (Perm.cons e (sort_by_pause-perm es))

length-insert_by_pause :
    (e : String × Sandbox) (es : Entries) → length (insert_by_pause e es) ≡ suc (length es)
unfolding insert_by_pause
length-insert_by_pause e [] = refl
length-insert_by_pause e (f ∷ es) = ground (arith, length-insert_by_pause e es)

length-sort_by_pause : (es : Entries) → length (sort_by_pause es) ≡ length es
unfolding sort_by_pause
length-sort_by_pause [] = refl
length-sort_by_pause (e ∷ es) =
    length-insert_by_pause e (sort_by_pause es) ∙ ap suc (length-sort_by_pause es)

All-insert_by_pause :
    (P : String × Sandbox → Type 0) (e : String × Sandbox) (es : Entries)
    → P e
    → All P es
    → All P (insert_by_pause e es)
unfolding insert_by_pause
All-insert_by_pause P e [] new old = (new, tt)
All-insert_by_pause P e (f ∷ es) new (first, old) =
    elim (Bool-cases (ltb_ℤ f.1.paused_at e.1.paused_at)) [
      | inl later ↦ rw later (first, All-insert_by_pause P e es new old)
      | inr sooner ↦ rw sooner (new, (first, old))
    ]

All-NoLater :
    (e f : String × Sandbox) (es : Entries) → NoLater e f → All (NoLater f) es → All (NoLater e) es
All-NoLater e f [] h a = tt
All-NoLater e f (g ∷ es) h (first, rest) = (omega arith, All-NoLater e f es h rest)

insert_by_pause-Ascending :
    (e : String × Sandbox) (es : Entries) → Ascending es → Ascending (insert_by_pause e es)
unfolding insert_by_pause
insert_by_pause-Ascending e [] a = (tt, tt)
insert_by_pause-Ascending e (f ∷ es) (first, a) =
    elim (Bool-cases (ltb_ℤ f.1.paused_at e.1.paused_at)) [
      | inl later ↦ rw later (
        All-insert_by_pause (NoLater f) e es (ground arith) first,
        insert_by_pause-Ascending e es a,
      )
      | inr sooner ↦
          let le : NoLater e f = ground arith in
          rw sooner ((le, All-NoLater e f es le first), (first, a))
    ]

sort_by_pause-Ascending : (es : Entries) → Ascending (sort_by_pause es)
unfolding sort_by_pause
sort_by_pause-Ascending [] = tt
sort_by_pause-Ascending (e ∷ es) =
    insert_by_pause-Ascending e (sort_by_pause es) (sort_by_pause-Ascending es)

-- In an ascending list the first entries are no later than the rest.
take-NoLater-drop :
    (c : ℕ) (es : Entries) → Ascending es → All (λ e. All (NoLater e) (drop c es)) (take c es)
take-NoLater-drop zero es a = tt
take-NoLater-drop (suc c) [] a = tt
take-NoLater-drop (suc c) (e ∷ es) (first, a) =
    (All-drop (NoLater e) c es first, take-NoLater-drop c es a)

-- What the cap leaves frozen: all but the demoted, at most `max` in number, exactly `max` if any
-- was demoted, and none of them paused before a demoted one.
pub record WithinCap (max : ℤ) (held demoted left : Entries) : Type 0 where
  pub parts : Perm (demoted ++ left) held
  pub bounded : pos (length left) ≤ℤ max
  pub full : (demoted ≡ []) ⊎ (pos (length left) ≡ max)
  pub oldest : All (λ e. All (NoLater e) left) demoted

-- With a cap in force, the held sandboxes fall into those demoted and those left: no more than
-- the cap are left, just as many as the cap if any is demoted, and no sandbox that is left was
-- paused before a demoted one.
pub excess_frozen-WithinCap :
    (max : ℤ) (held : Entries)
    → pos 0 <ℤ max
    → (left : Entries) × WithinCap max held (excess_frozen max held) left
unfolding excess_frozen
excess_frozen-WithinCap max held on = elim (Bool-cases (ltb_ℤ max (pos (length held)))) [
  | inl over ↦
      let c = length held - pos_part max in
      let sorted = sort_by_pause held in
      rw (in_force, over)
        (
          drop c sorted,
          record {
            parts = rw (take-append-drop c sorted) (sort_by_pause-perm held);
            bounded = ground (arith, length-drop c sorted, length-sort_by_pause held);
            full = inr (ground (arith, length-drop c sorted, length-sort_by_pause held));
            oldest = take-NoLater-drop c sorted (sort_by_pause-Ascending held);
          },
        )
  | inr under ↦
      rw (in_force, under)
        (
          held,
          record { parts = Perm.refl held; bounded = ground arith; full = inl refl; oldest = tt },
        )
]
  where
    in_force : ltb_ℤ (pos 0) max ≡ true
    in_force = ground arith
