-- ===== src/Builder/RingBuffer/History.antt =====
-- The log that a ring buffer stands for: every entry ever appended, oldest first; the ring holds
-- the last `capacity` of them.
use edvabe.Prelude.{
  ℕ, ◌-◌, ◌%◌, ◌≤◌, ◌<◌, ◌≡◌, ◌⊎◌, List, [], arith, length, get_elem?, take, drop, leb, ltb,
  if◌then◌else◌, ◌+◌, inl, refl,
}
use edvabe.Prelude.Int.{ℤ, pos, pos_part, leb_ℤ}
use edvabe.Builder.RingBuffer.{LogEntry, RingBuffer, new_ring_buffer}

pub record Represents (rb : RingBuffer) (log : List LogEntry) : Type 0 where
  pub room : 0 < rb.capacity
  pub counted : rb.written ≡ length log
  pub shape :
      ((length rb.entries < rb.capacity) × (rb.head ≡ 0) × (rb.written ≡ length rb.entries))
      ⊎ ((length rb.entries ≡ rb.capacity)
          × (rb.head ≡ rb.written % rb.capacity)
          × (rb.capacity ≤ rb.written))
  pub holds :
      (i : ℕ)
      → rb.written - length rb.entries ≤ i
      → i < rb.written
      → get_elem? rb.entries (i % rb.capacity) ≡ get_elem? log i

-- A page of the log as the callers of `Read` understand it: start at the offset or at the oldest
-- entry held, whichever is later, and give at most `limit` entries, all if it is not positive.
abbrev pub at_most : ℤ → List LogEntry → List LogEntry
at_most limit es = if leb_ℤ limit (pos 0) then es else take (pos_part limit) es

abbrev pub start_of : ℕ → ℤ → ℕ → ℕ
start_of capacity offset total =
    if ltb (pos_part offset) (total - capacity) then total - capacity else pos_part offset

abbrev pub log_page : ℕ → List LogEntry → ℤ → ℤ → List LogEntry × ℕ
log_page capacity log offset limit =
    let start = start_of capacity offset (length log) in
    let page = at_most limit (drop start log) in
    if leb (length log) start then ([], length log) else (page, start + length page)

-- A new buffer stands for the empty log.
pub new_ring_buffer-Represents : (capacity : ℤ) → Represents (new_ring_buffer capacity) []
unfolding new_ring_buffer
new_ring_buffer-Represents capacity = record {
  room = ground arith;
  counted = refl;
  shape = inl (ground arith, refl, refl);
  holds = λ i h k. elim k [ ];
}
