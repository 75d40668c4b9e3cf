-- ===== src/Builder/RingBuffer/Polling.antt =====
-- A client that polls `/status?logsOffset=N`: between two polls the build writes some entries, and
-- the cursor of one poll is the offset of the next.
use edvabe.Prelude.{
  ℕ, ◌≤◌, ◌≡◌, refl, sym, subst, ◌∙◌, ap, Option, none, some, List, [], ◌∷◌, ◌++◌, arith, length,
  length-append, drop-append, All,
}
use mathlib.Core.List.{append_assoc, append-nil}
use edvabe.Prelude.Int.{pos}
use edvabe.Builder.RingBuffer.{LogEntry, RingBuffer, append, read}
use edvabe.Builder.RingBuffer.History.{Represents, log_page}
use edvabe.Builder.RingBuffer.Appends.{append-Represents}
use edvabe.Builder.RingBuffer.Reads.{read-eq-log_page}

abbrev pub append_all : RingBuffer → List LogEntry → RingBuffer
append_all rb [] = rb
append_all rb (e ∷ es) = append_all (append rb e).0 es

-- What the client has collected when the last of the batches has been written and polled.
abbrev pub poll_all : RingBuffer → ℕ → List (List LogEntry) → Option (List LogEntry)
poll_all rb cursor [] = some []
poll_all rb cursor (batch ∷ batches) =
    let after = append_all rb batch in
    elim (read after (pos cursor) (pos 0)) [
      | none ↦ none
      | some (page, next) ↦ elim (poll_all after next batches) [
        | none ↦ none
        | some rest ↦ some (page ++ rest)
      ]
    ]

abbrev pub concat : List (List LogEntry) → List LogEntry
concat [] = []
concat (b ∷ bs) = b ++ concat bs

capacity-append : (rb : RingBuffer) (e : LogEntry) → (append rb e).0.capacity ≡ rb.capacity
unfolding append
capacity-append rb e = ground arith

capacity-append_all :
    (es : List LogEntry) (rb : RingBuffer) → (append_all rb es).capacity ≡ rb.capacity
capacity-append_all [] rb = refl
capacity-append_all (e ∷ es) rb = capacity-append_all es (append rb e).0 ∙ capacity-append rb e

pub append_all-Represents :
    (es : List LogEntry) (rb : RingBuffer) (log : List LogEntry)
    → Represents rb log
    → Represents (append_all rb es) (log ++ es)
append_all-Represents [] rb log v = rw append-nil v
append_all-Represents (e ∷ es) rb log v =
    rw (append_assoc log (e ∷ []) es) at
      (append_all-Represents es (append rb e).0 (log ++ (e ∷ [])) (append-Represents rb log e v).0)

-- Entries written since the cursor, no more than the ring holds, make up the next page.
log_page-append :
    (capacity : ℕ) (log batch : List LogEntry)
    → length batch ≤ capacity
    → log_page capacity (log ++ batch) (pos (length log)) (pos 0) ≡ (batch, length (log ++ batch))
log_page-append capacity log [] fits = rw append-nil (ground arith)
log_page-append capacity log (e ∷ es) fits =
    ground (arith, length-append log (e ∷ es), drop-append log (e ∷ es))

-- On a ring that stands for a log, a client that starts at the end of the log and polls each time
-- before more than `capacity` further entries have been written gets every entry once, in the
-- order in which the build wrote them, and no read fails.
pub poll_all-eq-concat :
    (batches : List (List LogEntry)) (rb : RingBuffer) (log : List LogEntry)
    → Represents rb log
    → All (λ b. length b ≤ rb.capacity) batches
    → poll_all rb (length log) batches ≡ some (concat batches)
poll_all-eq-concat [] rb log v fits = refl
poll_all-eq-concat (batch ∷ batches) rb log v (fits, rest) =
    ground (arith, page, poll_all-eq-concat batches after (log ++ batch) stands fits')
  where
    after : RingBuffer
    after = append_all rb batch

    stands : Represents after (log ++ batch)
    stands = append_all-Represents batch rb log v

    fits' : All (λ b. length b ≤ after.capacity) batches
    fits' = subst (λ c. All (λ b. length b ≤ c) batches) (sym (capacity-append_all batch rb)) rest

    page : read after (pos (length log)) (pos 0) ≡ some (batch, length (log ++ batch))
    page =
        read-eq-log_page after (log ++ batch) stands (pos (length log)) (pos 0)
        ∙ ap some
            (log_page-append after.capacity log batch (rw (capacity-append_all batch rb) fits))
