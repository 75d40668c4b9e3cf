-- ===== src/Sandbox/Manager/Snapshot.antt =====
-- `Manager.Snapshot`: the writable layer of a container as a new image. `format_time` is Go's
-- `Format` with the layout 20060102-150405.
use edvabe.Prelude.{String, ◌+++◌, none, some, ◌==◌, if◌then◌else◌}
use edvabe.Prelude.Int.{ℤ}
use edvabe.Prelude.Dict.{lookup}
use edvabe.Prelude.Result.{ok, err}
use edvabe.Sandbox.{not_found, failed}
use edvabe.Sandbox.Host.{Host}
use edvabe.Sandbox.Manager.{Manager, Outcome}

pub record SnapshotInfo : Type 0 where
  pub name : String
  pub image_tag : String
  pub created_at : ℤ

module _ {W : Type 0} (h : Host W) (format_time : ℤ → String) where
  -- The clock is read for the name only if none is given.
  unfoldable pub snapshot : String → String → Manager → W → Outcome W SnapshotInfo
  snapshot id given m w =
      let (stamp, w1) = h.now w in
      let name = if given == "" then "snap-" +++ format_time stamp else given in
      let named = if given == "" then w1 else w in
      let tag = "edvabe/snapshot-" +++ (id +++ (":" +++ name)) in
      let (r, w2) = h.rt.commit id tag named in
      let (now, w3) = h.now w2 in
      elim (lookup id m.sandboxes) [
        | none ↦ (err not_found, m, w)
        | some _ ↦ elim r [
          | err e ↦ (err (failed "snapshot" id e), m, w2)
          | ok _ ↦ (ok (record { name = name; image_tag = tag; created_at = now }), m, w3)
        ]
      ]
