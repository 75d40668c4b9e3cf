-- ===== src/Sandbox/Manager/Rehydrate.antt =====
-- `Manager.Rehydrate`: the registry rebuilt from the containers that the runtime manages.
pub mod Adoption
use edvabe.Prelude.{ℕ, suc, none, some, List, [], ◌∷◌, if◌then◌else◌}
use edvabe.Prelude.Int.{ℤ, pos, ◌+ℤ◌, leb_ℤ}
use edvabe.Prelude.Dict.{Dict, lookup, insert}
use edvabe.Prelude.Result.{ok, err}
use edvabe.Runtime.{ManagedContainer}
use edvabe.Sandbox.{Sandbox, is_paused, failed, default_timeout, on_timeout_kill}
use edvabe.Sandbox.Labels.{sandbox_from_managed}
use edvabe.Sandbox.Host.{Host}
use edvabe.Sandbox.Manager.{Manager, Outcome, or_default_text}

-- The sandbox of one container: a paused one counts its pause from now, and its deadline lies in
-- the past; a running one gets a fresh deadline.
unfoldable pub revive : ℤ → ℤ → ManagedContainer → Sandbox
unfolding sandbox_from_managed
revive now timeout mc =
    let s = sandbox_from_managed mc in
    let dated : Sandbox =
      if is_paused s.state
      then record s { paused_at = now; expires_at = mc.created_at }
      else record s { expires_at = now +ℤ timeout } in
    record dated { on_timeout = or_default_text dated.on_timeout on_timeout_kill }

-- The loop over the containers: the registry, and how many were added.
unfoldable pub adopt_all : ℤ → ℤ → List ManagedContainer → Dict Sandbox → ℕ → Dict Sandbox × ℕ
adopt_all now timeout [] sandboxes n = (sandboxes, n)
adopt_all now timeout (mc ∷ rest) sandboxes n =
    let skip = adopt_all now timeout rest sandboxes n in
    let added =
      adopt_all now timeout rest (insert mc.sandbox_id (revive now timeout mc) sandboxes) (suc n) in
    elim (lookup mc.sandbox_id sandboxes) [ some _ ↦ skip | none ↦ added ]

module _ {W : Type 0} (h : Host W) where
  unfoldable pub rehydrate : ℤ → Manager → W → Outcome W ℕ
  rehydrate given m w =
      let timeout : ℤ = if leb_ℤ given (pos 0) then default_timeout else given in
      let (listed, w1) = h.rt.list_managed w in
      let (now, w2) = h.now w1 in
      elim listed [
        | err e ↦ (err (failed "rehydrate: list managed" "" e), m, w1)
        | ok managed ↦
            let (sandboxes, n) = adopt_all now timeout managed m.sandboxes 0 in
            (ok n, record m { sandboxes = sandboxes }, w2)
      ]
