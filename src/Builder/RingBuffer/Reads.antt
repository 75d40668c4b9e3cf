-- ===== src/Builder/RingBuffer/Reads.antt =====
-- `Read` gives the page of the log that its callers understand by it.
use native.Mathlib.Nat.{mod-eq_of_lt, mod-add-mod, add-mod_right}
use edvabe.Prelude.{
  ℕ, zero, suc, ◌+◌, ◌-◌, ◌%◌, ◌≤◌, ◌<◌, ◌≡◌, refl, sym, ◌∙◌, ap, inl, inr, some, List, arith,
  length, length-drop, length-take, take_all, get_elem?_in, drop-eq-cons, take, drop, lt→ltb, ≤→ltb,
}
use edvabe.Prelude.Int.{ℤ, pos_part}
use edvabe.Builder.RingBuffer.{LogEntry, RingBuffer, physical, read_loop, snap, clamp_limit, read}
use edvabe.Builder.RingBuffer.History.{Represents, at_most, start_of, log_page}

module _ (rb : RingBuffer) (log : List LogEntry) (v : Represents rb log) where
  -- The oldest entry held is `capacity` entries back, or the very first.
  earliest-eq : rb.written - length rb.entries ≡ length log - rb.capacity
  earliest-eq = elim v.shape [
    | inl (room, _, same) ↦ omega (arith, v.counted)
    | inr (full, _, _) ↦ omega (arith, v.counted)
  ]

  -- The slot that `Read` computes is the one where `Append` has put the entry.
  physical-eq :
      (i : ℕ)
      → rb.written - length rb.entries ≤ i
      → i < rb.written
      → physical rb (rb.written - length rb.entries) i ≡ i % rb.capacity
  unfolding physical
  physical-eq i lo hi = elim v.shape [
    | inl (room, _, same) ↦ rw (lt→ltb _ _ room) (sym (mod-eq_of_lt (omega arith)))
    | inr (full, at, enough) ↦ rw (≤→ltb (length rb.entries) rb.capacity (omega arith)) (
        ap (λ k. (k + (i - (rb.written - length rb.entries))) % rb.capacity) at
        ∙ mod-add-mod rb.written rb.capacity (i - (rb.written - length rb.entries))
        ∙ ap (λ k. k % rb.capacity) (around full enough)
        ∙ add-mod_right i rb.capacity)
  ]
    where
      around :
          length rb.entries ≡ rb.capacity
          → rb.capacity ≤ rb.written
          → rb.written + (i - (rb.written - length rb.entries)) ≡ i + rb.capacity
      around full enough = omega arith

  -- The loop never leaves the buffer, and gives the entries of the log in order.
  read_loop-eq :
      (k i : ℕ)
      → rb.written - length rb.entries ≤ i
      → i + k ≤ rb.written
      → read_loop rb (rb.written - length rb.entries) k i ≡ some (take k (drop i log))
  unfolding read_loop
  read_loop-eq zero i lo hi = refl
  read_loop-eq (suc k) i lo hi =
      let (e, at) = get_elem?_in log i (omega (arith, v.counted)) in
      ground (
        arith,
        physical-eq i lo,
        v.holds i lo,
        at,
        drop-eq-cons log i e at,
        read_loop-eq k (suc i) (omega arith) (omega arith),
      )

  snap-eq : (offset : ℤ) → snap rb offset ≡ start_of rb.capacity offset (length log)
  unfolding snap
  snap-eq offset = rw earliest-eq (ground arith)

  clamp_limit-le : (limit : ℤ) (available : ℕ) → clamp_limit limit available ≤ available
  unfolding clamp_limit
  clamp_limit-le limit available = ground arith

  -- The entries that `Read` takes are those of the page, and as many as it says.
  at_most-eq :
      (limit : ℤ) (es : List LogEntry)
      → (take (clamp_limit limit (length es)) es ≡ at_most limit es)
        × (clamp_limit limit (length es) ≡ length (at_most limit es))
  unfolding clamp_limit
  at_most-eq limit es = ground (
    arith,
    take_all (length es) es,
    take_all (pos_part limit) es,
    length-take (pos_part limit) es,
  )

  -- On a ring that stands for a log, `Read` never indexes out of range, whatever the offset and
  -- the limit, and returns the page of the log and the cursor behind it.
  pub read-eq-log_page :
      (offset limit : ℤ) → read rb offset limit ≡ some (log_page rb.capacity log offset limit)
  unfolding read
  read-eq-log_page offset limit =
      let start = start_of rb.capacity offset (length log) in
      let count = clamp_limit limit (rb.written - start) in
      ground (
        arith,
        snap-eq offset,
        v.counted,
        earliest-eq,
        clamp_limit-le limit (rb.written - start),
        read_loop-eq count start,
        at_most-eq limit (drop start log),
        length-drop start log,
      )
