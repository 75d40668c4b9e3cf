-- ===== src/FileCache/Blobs.antt =====
-- internal/template/filecache/filecache.go: blobs by their hash, over what package os gives. The file
-- of a blob is named by its hash; `W` is the disk.
use Prim.Native.Char.{Char, code}
use Prim.Native.String.{String}
use text.Mathlib.TextLemmas.{nil≢cons}
use edvabe.Prelude.{
  sym, ◌≢◌, ℕ, suc, zero, ◌≡◌, refl, Bool, true, false, ◌&&◌, ◌||◌, leb, if◌then◌else◌, arith,
}
use edvabe.Prelude.Result.{Result, ok, err}
use edvabe.Text.Split.{contains}

-- What `os.Stat` says of the file of a blob.
pub data Stat : Type 0 where
  there missing : Stat
  unreadable : String → Stat

-- `write_temp` copies the input into a temporary file and closes it.
pub record Disk (W : Type 0) : Type 0 where
  pub stat : String → W → Stat
  pub create_temp : W → Result String String × W
  pub write_temp : String → String → W → Result String (Unit {0}) × W
  pub rename : String → String → W → Result String (Unit {0}) × W
  pub remove : String → W → W

pub data CacheError : Type 0 where
  invalid_hash : CacheError
  disk : String → CacheError

abbrev pub is_hex : Char → Bool
is_hex c = (leb 48 (code c) && leb (code c) 57) || (leb 97 (code c) && leb (code c) 102)

-- So many hexadecimal digits in lower case, and nothing else.
unfoldable pub hex_digits : ℕ → String → Bool
hex_digits zero String.[] = true
hex_digits zero (String.◌∷◌ c s) = false
hex_digits (suc n) String.[] = false
hex_digits (suc n) (String.◌∷◌ c s) = let rest = hex_digits n s in is_hex c && rest

-- ^[0-9a-f]{64}$
unfoldable pub valid_hash : String → Bool
valid_hash hash = hex_digits 64 hash

module _ {W : Type 0} (d : Disk W) where
  unfoldable pub has : String → W → Result CacheError Bool
  has hash w =
      if valid_hash hash
      then elim (d.stat hash w) [
        | there ↦ ok true
        | missing ↦ ok false
        | unreadable e ↦ err (disk e)
      ]
      else err invalid_hash

  -- The last step: the file moves into place. If it cannot, another may have been there first.
  unfoldable pub settle : String → String → W → Result CacheError (Unit {0}) × W
  settle temp hash w =
      let (renamed, w') = d.rename temp hash w in
      elim renamed [
        | ok _ ↦ (ok tt, w')
        | err e ↦ elim (d.stat hash w') [
          | there ↦ (ok tt, w')
          | _ ↦ (err (disk e), d.remove temp w')
        ]
      ]

  unfoldable pub write_blob : String → String → W → Result CacheError (Unit {0}) × W
  write_blob hash content w =
      let (made, w1) = d.create_temp w in
      elim made [
        | err e ↦ (err (disk e), w1)
        | ok temp ↦
            let (written, w2) = d.write_temp temp content w1 in
            elim written [ err e ↦ (err (disk e), d.remove temp w2) | ok _ ↦ settle temp hash w2 ]
      ]

  -- A blob that is there is kept.
  unfoldable pub put : String → String → W → Result CacheError (Unit {0}) × W
  put hash content w =
      let fresh = write_blob hash content w in
      if valid_hash hash
      then elim (d.stat hash w) [ there ↦ (ok tt, w) | _ ↦ fresh ]
      else (err invalid_hash, w)

hex_digits-plain :
    (c : Char) (n : ℕ) (s : String)
    → is_hex c ≡ false
    → hex_digits n s ≡ true
    → contains c s ≡ false
unfolding hex_digits contains
hex_digits-plain c zero String.[] odd h = refl
hex_digits-plain c zero (String.◌∷◌ d s) odd h = absurd (ground (arith, h))
hex_digits-plain c (suc n) String.[] odd h = refl
hex_digits-plain c (suc n) (String.◌∷◌ d s) odd h =
    ground (arith, odd, h, hex_digits-plain c n s odd)

-- A hash has no character that is not a hexadecimal digit: no slash, so that it names a file of the
-- cache's own directory, and no question mark.
pub contains-valid_hash :
    (c : Char) (hash : String) → is_hex c ≡ false → valid_hash hash ≡ true → contains c hash ≡ false
unfolding valid_hash
contains-valid_hash c hash odd h = hex_digits-plain c 64 hash odd h

pub valid_hash-ne_empty : (hash : String) → valid_hash hash ≡ true → hash ≢ ""
unfolding valid_hash hex_digits
valid_hash-ne_empty String.[] h e = absurd (ground (arith, h))
valid_hash-ne_empty (String.◌∷◌ c s) h e = nil≢cons (sym e)
