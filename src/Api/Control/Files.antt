-- ===== src/Api/Control/Files.antt =====
-- internal/api/control/files.go: upload links and uploads. `now` is the signer's clock; whether the
-- request came over TLS is an argument.
use Prim.Native.String.{String, ◌++◌ as ◌+++◌}
use text.Mathlib.TextLemmas.{nil≢cons, cons-append, append-ne-nil_of_right_ne-nil}
use edvabe.Prelude.{
  from_some, refl, ℕ, ◌+◌, ◌<◌, ◌≤◌, ◌≡◌, ◌≢◌, sym, ◌∙◌, ap, subst, ◌⊎◌, inl, inr, Bool, true,
  false, Option, none, some, ◌==◌, eq_iff, ◌||◌, ◌&&◌, not, if◌then◌else◌, arith, Bool-cases,
}
use edvabe.Prelude.Result.{ok, err, Result-cases}
use edvabe.Template.Store.{Store, unknown, find_template}
use edvabe.FileCache.{Signer, sign, sign_with_expiry, verify, unix, verify-sign}
use edvabe.FileCache.Blobs.{Disk, valid_hash, has, put, contains-valid_hash, valid_hash-ne_empty}
use edvabe.Text.{has_prefix, trim_prefix}
use edvabe.Text.Split.{cut, cut-append, contains, contains-append, trim_right}
use edvabe.Text.Affixes.{trim_prefix-append}
use edvabe.Text.Decimal.{int_limit}
use edvabe.Api.{Request, Reply, replied, no_body, write_error, page_not_found, first_value}

pub record FileUploadLink : Type 0 where
  pub present : Bool
  pub url : String

-- The template and the hash in /templates/{templateID}/files/{hash}.
unfoldable pub parse_template_file_path : String → Option (String × String)
parse_template_file_path path =
    if has_prefix path "/templates/"
    then elim (cut "/" (trim_prefix path "/templates/")) [
      | none ↦ none
      | some (template_id, rest) ↦ elim (cut "/" rest) [
        | none ↦ none
        | some (word, hash) ↦
            if not (word == "files") || (template_id == "" || hash == "")
            then none
            else some (template_id, hash)
      ]
    ]
    else none

unfoldable pub infer_base : Bool → Request → String
infer_base tls r =
    let forwarded = first_value "X-Forwarded-Proto" r.headers in
    let other_host = first_value "X-Forwarded-Host" r.headers in
    let scheme = if forwarded == "" then (if tls then "https" else "http") else forwarded in
    let host = if other_host == "" then r.host else other_host in scheme +++ ("://" +++ host)

abbrev pub upload_path : String → String
upload_path hash = "/_upload/" +++ hash

module _ {W : Type 0} (d : Disk W) (signer : Signer) (now : ℕ) where
  unfoldable pub get_file_upload_link : String → Bool → Store → Request → W → Reply FileUploadLink
  get_file_upload_link public_base tls s r w = elim (parse_template_file_path r.path) [
    | none ↦ page_not_found
    | some (template_id, hash) ↦ elim (find_template s template_id) [
      | err unknown ↦ write_error 404
      | err _ ↦ write_error 500
      | ok _ ↦ elim (has d hash w) [
        | err _ ↦ write_error 400
        | ok true ↦ replied 200 (record { present = true; url = "" })
        | ok false ↦
            let base = if public_base == "" then infer_base tls r else public_base in
            replied 200 (record {
              present = false;
              url =
                  trim_right "/" base
                  +++ (upload_path hash +++ ("?token=" +++ sign signer now hash));
            })
      ]
    ]
  ]

  unfoldable pub upload_file : Request → W → Reply (Unit {0}) × W
  upload_file r w =
      let hash = trim_prefix r.path "/_upload/" in
      let token = first_value "token" r.query in
      let (stored, w') = put d hash r.body w in
      if not (r.method == "PUT") && not (r.method == "POST")
      then (write_error 405, w)
      else if hash == "" || contains "/" hash
      then (page_not_found, w)
      else if token == ""
      then (write_error 401, w)
      else elim (verify signer now hash token) [
        | err _ ↦ (write_error 401, w)
        | ok _ ↦ elim stored [ err _ ↦ (write_error 500, w') | ok _ ↦ (no_body 204, w') ]
      ]

  -- A request to upload leaves the disk as it is, or it has a token that the signer accepts for its
  -- hash, which is 64 hexadecimal digits and has no slash.
  pub upload_file-guarded :
      (r : Request) (w : W)
      → ((upload_file r w).1 ≡ w)
        ⊎ ((verify signer now (trim_prefix r.path "/_upload/") (first_value "token" r.query)
              ≡ ok tt)
            × (valid_hash (trim_prefix r.path "/_upload/") ≡ true)
            × (contains "/" (trim_prefix r.path "/_upload/") ≡ false))
  unfolding upload_file put
  upload_file-guarded r w =
      let hash = trim_prefix r.path "/_upload/" in
      elim (Result-cases (verify signer now hash (first_value "token" r.query))) [
        | inr (e, refused) ↦ inl (ground (arith, refused))
        | inl (_, accepted) ↦ elim (Bool-cases (valid_hash hash)) [
          | inl valid ↦
              inr (ground (arith, accepted), valid, contains-valid_hash "/" hash refl valid)
          | inr bad ↦ inl (ground (arith, accepted, bad))
        ]
      ]

sign-ne_empty : (signer : Signer) (now : ℕ) (hash : String) → sign signer now hash ≢ ""
unfolding sign sign_with_expiry
sign-ne_empty signer now hash e = append-ne-nil_of_right_ne-nil _ (λ c. nil≢cons (sym c)) e

module _ {W : Type 0} (d : Disk W) (signer : Signer) where
  missing-valid_hash : (hash : String) (w : W) → has d hash w ≡ ok false → valid_hash hash ≡ true
  unfolding has
  missing-valid_hash hash w h = ground (arith, h)

  linked-url :
      (now : ℕ) (public_base : String) (tls : Bool) (s : Store) (r : Request) (w : W)
      (template_id hash url : String)
      → parse_template_file_path r.path ≡ some (template_id, hash)
      → get_file_upload_link d signer now public_base tls s r w
        ≡ replied 200 (record { present = false; url = url })
      → (valid_hash hash ≡ true)
        × (url
            ≡ trim_right "/" (if public_base == "" then infer_base tls r else public_base)
              +++ (upload_path hash +++ ("?token=" +++ sign signer now hash)))
  unfolding get_file_upload_link
  linked-url now public_base tls s r w template_id hash url parsed linked =
      elim (Result-cases (find_template s template_id)) [
        | inr (e, gone) ↦ absurd (ground (arith, linked, parsed, gone))
        | inl (t, found) ↦ elim (Result-cases (has d hash w)) [
          | inr (e, broken) ↦ absurd (ground (arith, linked, parsed, found, broken))
          | inl (true, there) ↦ absurd (ground (arith, linked, parsed, found, there))
          | inl (false, absent) ↦
              (missing-valid_hash hash w absent, ground (arith, linked, parsed, found, absent))
        ]
      ]

  -- A client that takes a link apart at the question mark, the origin taken off, has the path and the
  -- token of the link.
  link_parts :
      (now : ℕ) (origin hash path token : String)
      → valid_hash hash ≡ true
      → cut "?" (
          trim_prefix
            (origin +++ (upload_path hash +++ ("?token=" +++ sign signer now hash)))
            origin)
        ≡ some (path, "token=" +++ token)
      → (path ≡ upload_path hash) × (token ≡ sign signer now hash)
  link_parts now origin hash path token valid parts =
      let made = sign signer now hash in
      let no_mark : contains "?" (upload_path hash) ≡ false =
        contains-append "?" "/_upload/" hash
        ∙ rw (contains-valid_hash "?" hash refl valid) (unfold contains in refl) in
      let whole : some (upload_path hash, "token=" +++ made) ≡ some (path, "token=" +++ token) =
        sym (cut-append "?" (upload_path hash) ("token=" +++ made) no_mark)
        ∙ ap (λ x. cut "?" (upload_path hash +++ x)) (sym (cons-append "?" "token=" made))
        ∙ ap (cut "?") (sym (trim_prefix-append origin (upload_path hash +++ ("?token=" +++ made))))
        ∙ parts in
      (
        sym (ap (λ x. x.0) (from_some whole)),
        sym (trim_prefix-append "token=" token)
            ∙ ap (λ x. trim_prefix x "token=") (sym (ap (λ x. x.1) (from_some whole)))
            ∙ trim_prefix-append "token=" made,
      )

  -- When a request for an upload link is answered with one, an upload to that link, before the token's
  -- time to live is over, is not refused: its outcome is that of putting its body into the cache under
  -- the hash that was asked about. The upload is to the link if its path and its token are the parts
  -- of the link's text before and behind the question mark, the origin taken off. The instant of the
  -- expiry must fit 64 bits, and the base64 text of a signature must have no dot.
  pub upload_file-linked :
      (now later : ℕ) (public_base : String) (tls : Bool) (s : Store) (r upload : Request)
      (w w' : W) (template_id hash url : String)
      → ((payload : String) → contains "." (signer.mac payload) ≡ false)
      → unix (now + signer.ttl) < int_limit
      → unix later ≤ unix (now + signer.ttl)
      → parse_template_file_path r.path ≡ some (template_id, hash)
      → get_file_upload_link d signer now public_base tls s r w
        ≡ replied 200 (record { present = false; url = url })
      → upload.method ≡ "PUT"
      → cut "?" (
          trim_prefix url
            (trim_right "/" (if public_base == "" then infer_base tls r else public_base)))
        ≡ some (upload.path, "token=" +++ first_value "token" upload.query)
      → upload_file d signer later upload w' ≡ elim (put d hash upload.body w').0 [
        | err _ ↦ (write_error 500, (put d hash upload.body w').1)
        | ok _ ↦ (no_body 204, (put d hash upload.body w').1)
      ]
  unfolding upload_file
  upload_file-linked now later public_base tls s r upload w w' template_id hash url plain small
        in_time parsed linked method parts =
      let origin = trim_right "/" (if public_base == "" then infer_base tls r else public_base) in
      let (valid, url_is) =
        linked-url now public_base tls s r w template_id hash url parsed linked in
      let (path, token) =
        link_parts now origin hash upload.path (first_value "token" upload.query) valid (
          subst
            (λ u.
              cut "?" (trim_prefix u origin)
              ≡ some (upload.path, "token=" +++ first_value "token" upload.query))
            url_is parts) in
      let at : trim_prefix upload.path "/_upload/" ≡ hash =
        ap (λ p. trim_prefix p "/_upload/") path ∙ trim_prefix-append "/_upload/" hash in
      rw (at, method, token)
        (ground (
          arith,
          contains-valid_hash "/" hash refl valid,
          valid_hash-ne_empty hash valid,
          eq_iff hash "",
          sign-ne_empty signer now hash,
          eq_iff (sign signer now hash) "",
          verify-sign signer now later hash plain small,
          in_time,
        ))
