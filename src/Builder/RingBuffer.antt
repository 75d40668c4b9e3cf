-- ===== src/Builder/RingBuffer.antt =====
-- internal/template/builder/ringbuf.go: the bounded log buffer of a build. Offsets and counts are
-- non-negative `int`s far below 2^63, so they are native numbers; an offset or a limit that a caller
-- passes may be negative and is an integer.
pub mod History
pub mod Appends
pub mod Reads
pub mod Polling
use edvabe.Prelude.{
  ℕ, zero, suc, ◌+◌, ◌-◌, ◌%◌, String, Bool, ◌||◌, Option, none, some, List, [], ◌∷◌, ◌++◌, ltb,
  leb, if◌then◌else◌, length, get_elem?, set,
}
use edvabe.Prelude.Int.{ℤ, pos, pos_part, leb_ℤ, ltb_ℤ}

pub record LogEntry : Type 0 where
  pub timestamp : ℤ
  pub level : String
  pub source : String
  pub message : String

pub record RingBuffer : Type 0 where
  pub capacity : ℕ
  pub entries : List LogEntry
  pub head : ℕ
  pub written : ℕ

unfoldable pub new_ring_buffer : ℤ → RingBuffer
new_ring_buffer capacity = record {
  capacity = if leb_ℤ capacity (pos 0) then 5000 else pos_part capacity;
  entries = [];
  head = 0;
  written = 0;
}

-- The buffer afterwards, and the absolute index that the entry got.
unfoldable pub append : RingBuffer → LogEntry → RingBuffer × ℕ
append rb entry = (
  if ltb (length rb.entries) rb.capacity
      then record rb { entries = rb.entries ++ (entry ∷ []); written = rb.written + 1 }
      else record rb {
        entries = set rb.entries rb.head entry;
        head = (rb.head + 1) % rb.capacity;
        written = rb.written + 1;
      },
  rb.written,
)

-- The slot of the entry with an absolute index.
unfoldable pub physical : RingBuffer → ℕ → ℕ → ℕ
physical rb earliest absolute =
    if ltb (length rb.entries) rb.capacity
    then absolute
    else (rb.head + (absolute - earliest)) % rb.capacity

-- The loop of `Read` with the rounds left; `none` is an index out of range, which panics.
unfoldable pub read_loop : RingBuffer → ℕ → ℕ → ℕ → Option (List LogEntry)
read_loop rb earliest zero absolute = some []
read_loop rb earliest (suc rounds) absolute =
    let rest = read_loop rb earliest rounds (suc absolute) in
    elim (get_elem? rb.entries (physical rb earliest absolute)) [
      | none ↦ none
      | some e ↦ elim rest [ none ↦ none | some es ↦ some (e ∷ es) ]
    ]

-- The offset that a read starts from: never negative, never before the oldest entry held.
unfoldable pub snap : RingBuffer → ℤ → ℕ
snap rb offset =
    let from = if ltb_ℤ offset (pos 0) then 0 else pos_part offset in
    let earliest = rb.written - length rb.entries in if ltb from earliest then earliest else from

unfoldable pub clamp_limit : ℤ → ℕ → ℕ
clamp_limit limit available =
    if leb_ℤ limit (pos 0) || ltb_ℤ (pos available) limit then available else pos_part limit

-- The entries, and the cursor of the next call.
unfoldable pub read : RingBuffer → ℤ → ℤ → Option (List LogEntry × ℕ)
read rb offset limit =
    let start = snap rb offset in
    let count = clamp_limit limit (rb.written - start) in
    if leb rb.written start
    then some ([], rb.written)
    else elim (read_loop rb (rb.written - length rb.entries) count start) [
      | none ↦ none
      | some out ↦ some (out, start + count)
    ]

unfoldable pub len : RingBuffer → ℕ
len rb = length rb.entries

unfoldable pub total_written : RingBuffer → ℕ
total_written rb = rb.written
