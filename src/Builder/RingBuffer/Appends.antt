-- ===== src/Builder/RingBuffer/Appends.antt =====
-- `Append` keeps the ring in step with the log: while it fills, and once entries drop off.
use native.Mathlib.Nat.{mod-lt, mod-eq_of_lt, mod-add-mod, mod-eq-sub-mod, mod_self}
use native.Mathlib.Decide.{dec_lt}
use edvabe.Prelude.{
  ℕ, suc, ◌+◌, ◌-◌, ◌%◌, ◌≤◌, ◌<◌, ◌≡◌, ◌≢◌, sym, ◌∙◌, ap, inl, inr, List, [], ◌∷◌, ◌++◌, arith,
  length, length-append, length-set, get_elem?, get_elem?-append_left, get_elem?-append_end,
  get_elem?-set_self, get_elem?-set_ne, set, lt→ltb, ≤→ltb,
}
use edvabe.Builder.RingBuffer.{LogEntry, RingBuffer, append}
use edvabe.Builder.RingBuffer.History.{Represents}

-- Fewer than `c` steps round a ring of `c` slots do not come back to the same slot.
round_ne : (c h k : ℕ) → h < c → suc k < c → (h + suc k) % c ≢ h
round_ne c h k hh hk = elim (dec_lt (h + suc k) c) [
  | yes p ↦ omega (arith, mod-eq_of_lt p)
  | no p ↦ omega (
    arith,
    mod-eq-sub-mod {n = h + suc k} {m = c} (omega arith),
    mod-eq_of_lt {n = h + suc k - c} {m = c} (omega arith),
  )
]

slot_ne : (c i w : ℕ) → 0 < c → i < w → w < i + c → w % c ≢ i % c
slot_ne c i w pos before near e =
    round_ne c (i % c) (w - i - 1) (mod-lt i pos) (omega arith)
      (mod-add-mod i c (suc (w - i - 1)) ∙ ap (λ k. k % c) same ∙ e)
  where
    same : i + suc (w - i - 1) ≡ w
    same = omega arith

-- The ring has a free slot: the entry goes behind the others.
grown : RingBuffer → LogEntry → RingBuffer
grown rb e = record rb { entries = rb.entries ++ (e ∷ []); written = rb.written + 1 }

-- The ring is full: the entry takes the place of the oldest.
turned : RingBuffer → LogEntry → RingBuffer
turned rb e = record rb {
  entries = set rb.entries rb.head e;
  head = (rb.head + 1) % rb.capacity;
  written = rb.written + 1;
}

module _ (rb : RingBuffer) (log : List LogEntry) (e : LogEntry) (v : Represents rb log) where
  grown-holds :
      length rb.entries < rb.capacity
      → rb.written ≡ length rb.entries
      → (i : ℕ) → i < rb.written + 1
      → get_elem? (rb.entries ++ (e ∷ [])) (i % rb.capacity) ≡ get_elem? (log ++ (e ∷ [])) i
  grown-holds room same i h =
      rw (mod-eq_of_lt {n = i} {m = rb.capacity} (omega arith)) (elim (dec_lt i rb.written) [
        | yes old ↦
            get_elem?-append_left rb.entries (e ∷ []) i (omega arith)
            ∙ ap (get_elem? rb.entries) (sym (mod-eq_of_lt (omega arith)))
            ∙ v.holds i (omega arith) old
            ∙ sym (get_elem?-append_left log (e ∷ []) i (omega (arith, v.counted)))
        | no new ↦
            get_elem?-append_end rb.entries e i (omega arith)
            ∙ sym (get_elem?-append_end log e i (omega (arith, v.counted)))
      ])

  grown-Represents :
      length rb.entries < rb.capacity
      → rb.head ≡ 0
      → rb.written ≡ length rb.entries
      → Represents (grown rb e) (log ++ (e ∷ []))
  unfolding grown
  grown-Represents room start same = record {
    room = v.room;
    counted = omega (arith, v.counted, length-append log (e ∷ []));
    shape = elim (dec_lt (length rb.entries + 1) rb.capacity) [
      | yes left ↦ inl (omega (arith, longer), start, omega (arith, longer))
      | no filled ↦ inr (
        omega (arith, longer),
        start ∙ sym wrapped ∙ ap (λ k. k % rb.capacity) (omega (arith, longer)),
        omega arith,
      )
    ];
    holds = λ i lo hi. grown-holds room same i hi;
  }
    where
      longer : length (rb.entries ++ (e ∷ [])) ≡ length rb.entries + 1
      longer = length-append rb.entries (e ∷ [])

      wrapped : rb.capacity % rb.capacity ≡ 0
      wrapped = mod_self rb.capacity

  turned-holds :
      length rb.entries ≡ rb.capacity
      → rb.head ≡ rb.written % rb.capacity
      → (i : ℕ) → rb.written + 1 ≤ i + rb.capacity
      → i < rb.written + 1
      → get_elem? (set rb.entries rb.head e) (i % rb.capacity) ≡ get_elem? (log ++ (e ∷ [])) i
  turned-holds full at i lo hi = elim (dec_lt i rb.written) [
    | yes old ↦
        get_elem?-set_ne rb.entries rb.head (i % rb.capacity) e
          (λ q. slot_ne rb.capacity i rb.written v.room old (omega arith) (sym at ∙ q))
        ∙ v.holds i (omega arith) old
        ∙ sym (get_elem?-append_left log (e ∷ []) i (omega (arith, v.counted)))
    | no new ↦
        ap (λ k. get_elem? (set rb.entries rb.head e) (k % rb.capacity)) (last new)
        ∙ ap (get_elem? (set rb.entries rb.head e)) (sym at)
        ∙ get_elem?-set_self rb.entries rb.head e (omega (arith, mod-lt rb.written v.room))
        ∙ sym (get_elem?-append_end log e i (omega (arith, v.counted)))
  ]
    where
      last : ¬ (i < rb.written) → i ≡ rb.written
      last new = omega arith

  turned-Represents :
      length rb.entries ≡ rb.capacity
      → rb.head ≡ rb.written % rb.capacity
      → rb.capacity ≤ rb.written
      → Represents (turned rb e) (log ++ (e ∷ []))
  unfolding turned
  turned-Represents full at enough = record {
    room = v.room;
    counted = omega (arith, v.counted, length-append log (e ∷ []));
    shape = inr (
      omega (arith, length-set rb.entries rb.head e),
      ap (λ k. (k + 1) % rb.capacity) at ∙ mod-add-mod rb.written rb.capacity 1,
      omega arith,
    );
    holds = λ i lo hi. turned-holds full at i (omega (arith, length-set rb.entries rb.head e)) hi;
  }

  -- Appending to a ring that stands for a log gives a ring that stands for the log with the entry
  -- at its end, and the index returned is the entry's place in that log.
  pub append-Represents :
      Represents (append rb e).0 (log ++ (e ∷ [])) × ((append rb e).1 ≡ length log)
  unfolding append grown turned
  append-Represents = elim v.shape [
    | inl (room, start, same) ↦ rw (lt→ltb _ _ room) (grown-Represents room start same, v.counted)
    | inr (full, at, enough) ↦
        rw (≤→ltb (length rb.entries) rb.capacity (omega arith))
          (turned-Represents full at enough, v.counted)
  ]
