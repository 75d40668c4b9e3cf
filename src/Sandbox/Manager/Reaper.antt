-- ===== src/Sandbox/Manager/Reaper.antt =====
-- `Manager.EnforceTimeouts`: one sweep over the registry. It decides under the lock what is due,
-- then makes the runtime calls.
pub mod Scan
pub mod Order
pub mod Phases
pub mod Cap
pub mod Sweep
use edvabe.Prelude.{◌-◌, String, Bool, List, [], ◌∷◌, ◌++◌, ◌&&◌, ◌==◌, if◌then◌else◌, length, take}
use edvabe.Prelude.Int.{ℤ, pos, pos_part, ◌-ℤ◌, leb_ℤ, ltb_ℤ}
use edvabe.Prelude.Dict.{Dict}
use edvabe.Prelude.Result.{ok, err}
use edvabe.Sandbox.{Sandbox, State, PauseMode, unpaused, frozen, is_paused, on_timeout_pause}
use edvabe.Sandbox.Host.{Host}
use edvabe.Sandbox.Manager.{Manager, put, drop_sandbox}

-- What the sweep does with one entry. `hold` counts a frozen sandbox towards the cap.
pub data Verdict : Type 0 where
  kill freeze demote collect hold keep : Verdict

-- A limit that is in force (positive) and reached since the instant.
abbrev pub is_over : ℤ → ℤ → ℤ → Bool
is_over limit now since = ltb_ℤ (pos 0) limit && leb_ℤ limit (now -ℤ since)

abbrev pub parked_verdict : Manager → ℤ → Sandbox → PauseMode → Verdict
parked_verdict m now s frozen = if is_over m.freeze_duration now s.paused_at then demote else hold
parked_verdict m now s PauseMode.stopped =
    if is_over m.stopped_gc_after now s.paused_at then collect else keep
parked_verdict m now s unpaused = keep

unfoldable pub verdict : Manager → ℤ → Sandbox → Verdict
verdict m now s =
    if is_paused s.state
    then parked_verdict m now s s.pause_mode
    else if ltb_ℤ now s.expires_at
    then keep
    else if s.on_timeout == on_timeout_pause
    then freeze
    else kill

abbrev pub Entries : Type 0
Entries = Dict Sandbox

-- What the scan of the registry collects; `kept` is the registry after its deletions.
pub record Plan : Type 0 where
  pub to_kill : List String
  pub to_pause : Entries
  pub to_demote : Entries
  pub to_gc : List String
  pub frozen_held : Entries
  pub kept : Entries

abbrev pub empty_plan : Plan
empty_plan = record {
  to_kill = [];
  to_pause = [];
  to_demote = [];
  to_gc = [];
  frozen_held = [];
  kept = [];
}

abbrev pub plan_entry : String → Sandbox → Verdict → Plan → Plan
plan_entry id s kill p = record p { to_kill = id ∷ p.to_kill }
plan_entry id s freeze p = record p { to_pause = (id, s) ∷ p.to_pause; kept = (id, s) ∷ p.kept }
plan_entry id s demote p = record p { to_demote = (id, s) ∷ p.to_demote; kept = (id, s) ∷ p.kept }
plan_entry id s collect p = record p { to_gc = id ∷ p.to_gc }
plan_entry id s hold p = record p { frozen_held = (id, s) ∷ p.frozen_held; kept = (id, s) ∷ p.kept }
plan_entry id s keep p = record p { kept = (id, s) ∷ p.kept }

unfoldable pub scan : Manager → ℤ → Entries → Plan
scan m now [] = empty_plan
scan m now ((id, s) ∷ rest) = plan_entry id s (verdict m now s) (scan m now rest)

-- `sort.Slice` by `PausedAt`: which of two equal instants comes first is open, as is the order of
-- the registry that the scan has met them in.
unfoldable pub insert_by_pause : String × Sandbox → Entries → Entries
insert_by_pause e [] = e ∷ []
insert_by_pause e (f ∷ rest) =
    let later = insert_by_pause e rest in
    if ltb_ℤ f.1.paused_at e.1.paused_at then f ∷ later else e ∷ f ∷ rest

unfoldable pub sort_by_pause : Entries → Entries
sort_by_pause [] = []
sort_by_pause (e ∷ rest) = insert_by_pause e (sort_by_pause rest)

-- The oldest of the frozen sandboxes beyond the cap.
unfoldable pub excess_frozen : ℤ → Entries → Entries
excess_frozen max_frozen held =
    if ltb_ℤ (pos 0) max_frozen && ltb_ℤ max_frozen (pos (length held))
    then take (length held - pos_part max_frozen) (sort_by_pause held)
    else []

unfoldable pub plan_of : Manager → ℤ → Plan
plan_of m now =
    let p = scan m now m.sandboxes in
    record p { to_demote = p.to_demote ++ excess_frozen m.max_frozen p.frozen_held }

module _ {W : Type 0} (h : Host W) where
  -- The calls of `Destroy`, their errors ignored.
  unfoldable pub destroy_all : List String → W → W
  destroy_all [] w = w
  destroy_all (id ∷ ids) w = destroy_all ids (h.rt.destroy id w).1

  -- The sandboxes that the loop touched, with the registry and the world after it.
  abbrev pub Swept : Type 0
  Swept = List String × Manager × W

  abbrev pub touch : String → Swept → Swept
  touch id (ids, m, w) = (id ∷ ids, m, w)

  -- A sandbox that cannot be paused is destroyed.
  unfoldable pub pause_all : ℤ → Entries → Manager → W → Swept
  pause_all now [] m w = ([], m, w)
  pause_all now ((id, s) ∷ rest) m w =
      let (r, w1) = h.rt.pause id w in
      let dropped = pause_all now rest (drop_sandbox id m) (h.rt.destroy id w1).1 in
      let paused' : Sandbox = record s {
        state = State.paused;
        pause_mode = frozen;
        paused_at = now;
      } in
      let done = pause_all now rest (put id paused' m) w1 in
      elim r [ err _ ↦ touch id dropped | ok _ ↦ touch id done ]

  -- A sandbox that cannot be stopped stays as it is until the next sweep.
  unfoldable pub demote_all : ℤ → Entries → Manager → W → Swept
  demote_all now [] m w = ([], m, w)
  demote_all now ((id, s) ∷ rest) m w =
      let (r, w1) = h.rt.stop id w in
      let skipped = demote_all now rest m w1 in
      let stopped' : Sandbox = record s { pause_mode = PauseMode.stopped; paused_at = now } in
      let done = demote_all now rest (put id stopped' m) w1 in
      elim r [ err _ ↦ skipped | ok _ ↦ touch id done ]

  unfoldable pub enforce_timeouts : Manager → W → Swept
  enforce_timeouts m w =
      let (now, w1) = h.now w in
      let p = plan_of m now in
      let w2 = destroy_all p.to_kill w1 in
      let (paused_ids, m3, w3) = pause_all now p.to_pause (record m { sandboxes = p.kept }) w2 in
      let (demoted_ids, m4, w4) = demote_all now p.to_demote m3 w3 in
      (p.to_kill ++ (paused_ids ++ (demoted_ids ++ p.to_gc)), m4, destroy_all p.to_gc w4)
