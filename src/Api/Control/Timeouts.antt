-- ===== src/Api/Control/Timeouts.antt =====
-- Timeouts that come over HTTP: the seconds of a request as a duration, and what SetTimeout answers.
use Prim.Native.String.{String, ◌++◌ as ◌+++◌}
use native.Mathlib.Nat.{mod-eq_of_lt}
use edvabe.Prelude.{ℕ, ◌*◌, ◌≤◌, ◌≡◌, ◌≢◌, false, none, some, eq_iff, if◌then◌else◌, arith}
use edvabe.Prelude.Int.{ℤ, pos, negsuc, ◌+ℤ◌, ◌<ℤ◌, ◌≤ℤ◌}
use edvabe.Prelude.Dict.{lookup}
use edvabe.Prelude.Result.{Result}
use edvabe.Runtime.{Fault}
use edvabe.Sandbox.Host.{Host}
use edvabe.Sandbox.Manager.{Manager, put, has_lapsed, set_timeout}
use edvabe.Text.Split.{contains}
use edvabe.Text.Affixes.{trim_prefix-append, trim_suffix-append}
use edvabe.Api.{no_body, write_error}
use edvabe.Api.Control.Sandboxes.{
  Json, Stats, seconds, wrap64, id_before, sandbox_id_from_path, write_manager_error,
}
use edvabe.Api.Control.Routes.{set_sandbox_timeout}

wrap64-range :
    (n : ℤ)
    → (wrap64 n <ℤ pos 9_223_372_036_854_775_808) × (negsuc 9_223_372_036_854_775_807 ≤ℤ wrap64 n)
unfolding wrap64
wrap64-range (pos n) = ground arith
wrap64-range (negsuc n) = ground arith

-- The seconds of a request always become a duration that fits 64 bits.
pub seconds-range :
    (n : ℤ)
    → (seconds n <ℤ pos 9_223_372_036_854_775_808) × (negsuc 9_223_372_036_854_775_807 ≤ℤ seconds n)
unfolding seconds
seconds-range (pos n) = wrap64-range _
seconds-range (negsuc n) = wrap64-range _

-- Up to 9,223,372,036 seconds, the duration is exactly that many seconds.
pub seconds-exact : (n : ℕ) → n ≤ 9_223_372_036 → seconds (pos n) ≡ pos (n * 1_000_000_000)
unfolding seconds wrap64
seconds-exact n h =
    ground
      (arith, mod-eq_of_lt {n = n * 1_000_000_000} {m = 18_446_744_073_709_551_616} (omega arith))

-- Every branch of a request to set the timeout of a sandbox by its path, for an identifier without a
-- slash, a body that decodes and at most 9,223,372,036 seconds: 404 for an unknown sandbox, 410 for
-- one that has run out, which both change nothing, and otherwise 204 with the deadline that many
-- seconds from now.
pub set_sandbox_timeout-replies :
    {W : Type 0} (h : Host W) (version : String) (json : Json)
    (stats : String → W → Result Fault Stats × W) (format_time : ℤ → String) (id body : String)
    (n : ℕ) (m : Manager) (w : W)
    → id ≢ ""
    → contains "/" id ≡ false
    → json.decode_timeout body ≡ some (pos n)
    → n ≤ 9_223_372_036
    → set_sandbox_timeout h version json stats format_time
        ("/sandboxes/" +++ (id +++ "/timeout"))
        body
        m
        w
      ≡ elim (lookup id m.sandboxes) [
        | none ↦ (write_error 404, m, w)
        | some s ↦
            let (now, w') = h.now w in
            if has_lapsed now s then (write_error 410, m, w') else (
              no_body 204,
              put id (record s { expires_at = now +ℤ pos (n * 1_000_000_000) }) m,
              w',
            )
      ]
unfolding set_sandbox_timeout set_timeout write_manager_error
set_sandbox_timeout-replies h version json stats format_time id body n m w named plain reads fits =
    ground (arith, before, named, eq_iff id "", plain, reads, seconds-exact n fits)
  where
    before : id_before "/timeout" ("/sandboxes/" +++ (id +++ "/timeout")) ≡ id
    before =
        unfold id_before in
        unfold sandbox_id_from_path in
        (rw (trim_prefix-append "/sandboxes/" (id +++ "/timeout"))
          (trim_suffix-append id "/timeout"))
