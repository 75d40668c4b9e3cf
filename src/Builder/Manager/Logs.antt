-- ===== src/Builder/Manager/Logs.antt =====
-- `Manager.Logs` and `Manager.Status` in any history: what a client that polls a build is shown.
use edvabe.Prelude.{◌≡◌, refl, ap, ◌⊎◌, inl, inr, String, some, List, [], arith}
use edvabe.Prelude.Int.{ℤ}
use edvabe.Prelude.Result.{ok, err}
use edvabe.Builder.RingBuffer.History.{log_page}
use edvabe.Builder.RingBuffer.Reads.{read-eq-log_page}
use edvabe.Builder.Manager.{Manager, RunningBuild, build_not_found, status, logs}
use edvabe.Builder.Manager.History.{System, Event, log_of, after, started}
use edvabe.Builder.Manager.Lifecycle.{after-IsTracked}

module _ {W : Type 0} where
  -- In every history of a manager without builds, a client that asks for a build's lines never makes
  -- the buffer panic: it gets the page of all that the build has ever logged, from the offset or from
  -- the oldest line held, and the cursor behind it. Of an unknown build, which has logged nothing, it
  -- gets the error, and so it does when it asks for the status.
  pub logs-eq-log_page :
      (es : List Event) (m : Manager W) (w : W) (t : System W)
      → m.builds ≡ []
      → after es (started m w) ≡ some t
      → (id : String) (offset limit : ℤ)
      → ((b : RunningBuild) × (status id t.manager ≡ ok b)
          × (logs id offset limit t.manager
              ≡ ok (
                  some (
                    log_page b.logs.capacity
                      (log_of id b.template_id b.result_tag es)
                      offset
                      limit))))
        ⊎ ((status id t.manager ≡ err build_not_found)
            × (logs id offset limit t.manager ≡ err build_not_found)
            × ((template_id tag : String) → log_of id template_id tag es ≡ []))
  unfolding status logs
  logs-eq-log_page es m w t empty h id offset limit = elim (after-IsTracked es m w t empty h id) [
    | inl (missing, _, silent) ↦ inr (ground (arith, missing), ground (arith, missing), silent)
    | inr (b, phase, at, thread, v) ↦ inl (
      b,
      rw (status, at) refl,
      rw (logs, at)
          (ap ok (
            read-eq-log_page b.logs (log_of id b.template_id b.result_tag es) v.logged offset
              limit)),
    )
  ]
