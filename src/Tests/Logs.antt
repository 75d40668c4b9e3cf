-- ===== src/Tests/Logs.antt =====
-- The build log: a ring of two entries.
use edvabe.Prelude.{◌≡◌, ◌≤◌, List, [], ◌∷◌, ◌++◌, some, length, arith}
use edvabe.Prelude.Int.{ℤ, pos, negsuc}
use edvabe.Builder.RingBuffer.{LogEntry, RingBuffer, new_ring_buffer, append, read}
use edvabe.Builder.RingBuffer.History.{Represents, log_page, new_ring_buffer-Represents}
use edvabe.Builder.RingBuffer.Appends.{append-Represents}
use edvabe.Builder.RingBuffer.Reads.{read-eq-log_page}
use edvabe.Builder.RingBuffer.Polling.{
  append_all, poll_all, concat, append_all-Represents, poll_all-eq-concat,
}

abbrev line : ℤ → LogEntry
line at = record { timestamp = at; level = "info"; source = "builder"; message = "step" }

abbrev lines : List LogEntry
lines = line (pos 1) ∷ line (pos 2) ∷ line (pos 3) ∷ []

abbrev ring : RingBuffer
ring = append_all (new_ring_buffer (pos 2)) lines

ring-Represents : Represents ring lines
ring-Represents =
    append_all-Represents lines (new_ring_buffer (pos 2)) [] (new_ring_buffer-Represents (pos 2))

read-eq-log_page_example :
    read ring (negsuc 0) (pos 5) ≡ some (log_page ring.capacity lines (negsuc 0) (pos 5))
read-eq-log_page_example = read-eq-log_page ring lines ring-Represents (negsuc 0) (pos 5)

append-Represents_example :
    Represents (append ring (line (pos 4))).0 (lines ++ (line (pos 4) ∷ []))
    × ((append ring (line (pos 4))).1 ≡ length lines)
append-Represents_example = append-Represents ring lines (line (pos 4)) ring-Represents

batches_fit : (1 ≤ ring.capacity) × ((2 ≤ ring.capacity) × Unit {0})
unfolding new_ring_buffer append
batches_fit = (omega arith, (omega arith, tt))

poll_all-eq-concat_example :
    poll_all ring (length lines) ((line (pos 4) ∷ []) ∷ (line (pos 5) ∷ line (pos 6) ∷ []) ∷ [])
    ≡ some (concat ((line (pos 4) ∷ []) ∷ (line (pos 5) ∷ line (pos 6) ∷ []) ∷ []))
poll_all-eq-concat_example =
    poll_all-eq-concat ((line (pos 4) ∷ []) ∷ (line (pos 5) ∷ line (pos 6) ∷ []) ∷ []) ring lines
      ring-Represents batches_fit
