-- ===== src/Tests/Uploads.antt =====
-- Upload links and uploads, with a list of the stored hashes as the disk.
use edvabe.Prelude.{
  ◌+++◌, ◌≡◌, ◌⊎◌, refl, String, Bool, true, false, some, List, [], ◌∷◌, ◌==◌, if◌then◌else◌, arith,
}
use edvabe.Prelude.Int.{pos}
use edvabe.Prelude.Dict.{lookup}
use edvabe.Prelude.Result.{ok, err}
use edvabe.Text.{strip_prefix, has_prefix, trim_prefix}
use edvabe.Text.Split.{cut, contains, trim_right, reverse_onto}
use edvabe.Text.Decimal.{format_int, itoa, digits}
use edvabe.Template.Store.{find_template}
use edvabe.FileCache.{sign, sign_with_expiry, verify}
use edvabe.FileCache.Blobs.{Disk, there, missing, hex_digits, valid_hash, has, put}
use edvabe.Api.{Request, replied, no_body, write_error, first_value}
use edvabe.Api.Control.Files.{
  parse_template_file_path, get_file_upload_link, upload_path, upload_file, upload_file-guarded,
  upload_file-linked,
}
use edvabe.Tests.Templates.{stored}
use edvabe.Tests.Requests.{signer, no_dot}

abbrev is_stored : String → List String → Bool
is_stored hash [] = false
is_stored hash (other ∷ others) = if other == hash then true else is_stored hash others

abbrev disk : Disk (List String)
disk = record {
  stat = λ hash w. if is_stored hash w then there else missing;
  create_temp = λ w. (ok ".put-1.part", w);
  write_temp = λ temp content w. (ok tt, w);
  rename = λ temp hash w. (ok tt, hash ∷ w);
  remove = λ temp w. w;
}

abbrev some_hash : String
some_hash = "0123456789abcdef0123456789abcdef0123456789abcdef0123456789abcdef"

abbrev for_link : Request
for_link = record {
  method = "GET";
  path = "/templates/tpl_1/files/0123456789abcdef0123456789abcdef0123456789abcdef0123456789abcdef";
  host = "localhost:3000";
  headers = [];
  query = [];
  body = "";
  content_length = pos 0;
}

abbrev for_upload : Request
for_upload = record {
  method = "PUT";
  path = upload_path some_hash;
  host = "localhost:3000";
  headers = [];
  query = ("token", sign signer 5_000_000_000 some_hash) ∷ [];
  body = "tar";
  content_length = pos 3;
}

upload_file-guarded_example :
    ((upload_file disk signer 6_000_000_000 for_upload []).1 ≡ [])
    ⊎ ((verify signer 6_000_000_000
            (trim_prefix for_upload.path "/_upload/")
            (first_value "token" for_upload.query)
          ≡ ok tt)
        × (valid_hash (trim_prefix for_upload.path "/_upload/") ≡ true)
        × (contains "/" (trim_prefix for_upload.path "/_upload/") ≡ false))
upload_file-guarded_example = upload_file-guarded disk signer 6_000_000_000 for_upload []

path_of_link : parse_template_file_path for_link.path ≡ some ("tpl_1", some_hash)
unfolding parse_template_file_path has_prefix trim_prefix strip_prefix cut
path_of_link = refl

abbrev the_url : String
the_url =
    "http://localhost:3000/_upload/0123456789abcdef0123456789abcdef0123456789abcdef0123456789abcdef?token=c2ln.605"

linked :
    get_file_upload_link disk signer 5_000_000_000 "http://localhost:3000/" false stored for_link []
    ≡ replied 200 (record { present = false; url = the_url })
unfolding get_file_upload_link parse_template_file_path has_prefix trim_prefix strip_prefix cut
    find_template lookup has valid_hash hex_digits trim_right reverse_onto sign sign_with_expiry
    format_int itoa digits
linked = refl

parts_of_link :
    cut "?" (trim_prefix the_url (trim_right "/" "http://localhost:3000/"))
    ≡ some (for_upload.path, "token=" +++ first_value "token" for_upload.query)
unfolding cut trim_prefix strip_prefix trim_right reverse_onto first_value lookup sign
    sign_with_expiry format_int itoa digits
parts_of_link = refl

upload_file-linked_example :
    upload_file disk signer 6_000_000_000 for_upload [] ≡ elim (put disk some_hash "tar" []).0 [
      | err _ ↦ (write_error 500, (put disk some_hash "tar" []).1)
      | ok _ ↦ (no_body 204, (put disk some_hash "tar" []).1)
    ]
upload_file-linked_example =
    upload_file-linked disk signer 5_000_000_000 6_000_000_000 "http://localhost:3000/" false stored
      for_link for_upload [] [] "tpl_1" some_hash the_url no_dot (omega arith) (omega arith)
      path_of_link linked refl parts_of_link
