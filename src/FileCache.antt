-- ===== src/FileCache.antt =====
-- internal/template/filecache/signer.go: upload tokens. `mac payload` is the unpadded base64 text of
-- the HMAC of a payload under the signer's secret, by packages that are not part of the repository.
-- The clock gives nanoseconds since 1970 and does not stand before that year.
pub mod Blobs
use Prim.Native.String.{String, ◌++◌ as ◌+++◌}
use edvabe.Prelude.{
  ℕ, ◌+◌, ◌/◌, ◌≤◌, ◌<◌, ◌≡◌, ◌↔◌, false, none, some, ◌==◌, eq_iff, eq_refl, if◌then◌else◌, arith,
  inl, inr, Option-cases,
}
use edvabe.Prelude.Int.{ℤ, pos, negsuc, pos_part, leb_ℤ, ltb_ℤ}
use edvabe.Prelude.Result.{Result, ok, err}
use edvabe.Text.Split.{cut, contains, cut-append}
use edvabe.Text.Decimal.{atoi, itoa, format_int, int_limit, atoi-itoa, atoi-range}

pub data TokenError : Type 0 where
  invalid_token : TokenError

pub record Signer : Type 0 where
  pub mac : String → String
  pub ttl : ℕ

-- Of the options, `Now` is an argument of the calls.
unfoldable pub new_signer : (String → String) → ℤ → Signer
new_signer mac ttl = record {
  mac = mac;
  ttl = if leb_ℤ ttl (pos 0) then 300_000_000_000 else pos_part ttl;
}

-- Time.Unix
abbrev pub unix : ℕ → ℕ
unix now = now / 1_000_000_000

unfoldable pub sign_with_expiry : Signer → String → ℤ → String
sign_with_expiry s hash exp =
    s.mac (hash +++ ("." +++ format_int exp)) +++ String.◌∷◌ "." (format_int exp)

unfoldable pub sign : Signer → ℕ → String → String
sign s now hash = sign_with_expiry s hash (pos (unix (now + s.ttl)))

unfoldable pub verify : Signer → ℕ → String → String → Result TokenError (Unit {0})
verify s now hash token = elim (cut "." token) [
  | none ↦ err invalid_token
  | some (_, expiry) ↦ elim (atoi expiry) [
    | none ↦ err invalid_token
    | some exp ↦
        if ltb_ℤ exp (pos (unix now))
        then err invalid_token
        else if sign_with_expiry s hash exp == token
        then ok tt
        else err invalid_token
  ]
]

-- A token is accepted for a hash exactly when it is the signer's own token for that hash with an
-- expiry of at most 64 bits that is not over, given that the base64 text of a signature has no dot.
pub verify_iff :
    (s : Signer) (now : ℕ) (hash token : String)
    → ((payload : String) → contains "." (s.mac payload) ≡ false)
    → (verify s now hash token ≡ ok tt) ↔ (
        (exp : ℕ) × (exp < int_limit)
        × (unix now ≤ exp)
        × (token ≡ sign_with_expiry s hash (pos exp)))
unfolding verify sign_with_expiry format_int
verify_iff s now hash token plain = (accepted, own)
  where
    accepted :
        verify s now hash token ≡ ok tt
        → (exp : ℕ) × (exp < int_limit)
          × (unix now ≤ exp)
          × (token ≡ sign_with_expiry s hash (pos exp))
    accepted h = elim (Option-cases (cut "." token)) [
      | inl whole ↦ absurd (ground (arith, h, whole))
      | inr ((sig, expiry), parts) ↦ elim (Option-cases (atoi expiry)) [
        | inl bad ↦ absurd (ground (arith, h, parts, bad))
        | inr (negsuc n, read) ↦ absurd (ground (arith, h, parts, read))
        | inr (pos n, read) ↦ (
          n,
          atoi-range expiry n read,
          ground (arith, h, parts, read),
          ground (arith, h, parts, read, eq_iff (sign_with_expiry s hash (pos n)) token),
        )
      ]
    ]

    own :
        (exp : ℕ) × (exp < int_limit)
          × (unix now ≤ exp)
          × (token ≡ sign_with_expiry s hash (pos exp))
        → verify s now hash token ≡ ok tt
    own (exp, small, later, is_own) = rw is_own (
        ground (
          arith,
          cut-append "." (s.mac (hash +++ ("." +++ itoa exp))) (itoa exp) (plain _),
          atoi-itoa exp small,
          later,
          eq_refl (sign_with_expiry s hash (pos exp)),
        ))

-- A token that has just been signed is accepted for its hash until its time to live is over, to the
-- second, and no longer, as long as the instant of its expiry fits 64 bits and the base64 text of a
-- signature has no dot.
pub verify-sign :
    (s : Signer) (signed now : ℕ) (hash : String)
    → ((payload : String) → contains "." (s.mac payload) ≡ false)
    → unix (signed + s.ttl) < int_limit
    → verify s now hash (sign s signed hash)
      ≡ (if ltb_ℤ (pos (unix (signed + s.ttl))) (pos (unix now)) then err invalid_token else ok tt)
unfolding verify sign sign_with_expiry format_int
verify-sign s signed now hash plain small = ground (
  arith,
  cut-append "." (s.mac (hash +++ ("." +++ itoa (unix (signed + s.ttl)))))
      (itoa (unix (signed + s.ttl))) (plain _),
  atoi-itoa (unix (signed + s.ttl)) small,
  eq_refl (sign_with_expiry s hash (pos (unix (signed + s.ttl)))),
)
