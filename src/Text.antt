-- ===== src/Text.antt =====
-- What the Go code uses of package strings, on texts as sequences of code points.
pub mod Split
pub mod Decimal
pub mod Affixes
use Prim.Native.Char.{Char, code}
use Prim.Native.String.{String}
use edvabe.Prelude.{Bool, true, false, Option, none, some}
use Prim.Native.Nat.{compare, Ordering}

abbrev pub char_eq : Char → Char → Bool
char_eq c d = elim (compare (code c) (code d)) [ Ordering.eq ↦ true | _ ↦ false ]

-- The text behind a prefix, if it has it.
unfoldable pub strip_prefix : String → String → Option String
strip_prefix String.[] s = some s
strip_prefix (String.◌∷◌ c p) String.[] = none
strip_prefix (String.◌∷◌ c p) (String.◌∷◌ d s) =
    let rest = strip_prefix p s in elim (char_eq c d) [ true ↦ rest | false ↦ none ]

-- strings.HasPrefix(s, p)
unfoldable pub has_prefix : String → String → Bool
has_prefix s p = elim (strip_prefix p s) [ none ↦ false | some _ ↦ true ]

-- strings.TrimPrefix(s, p)
unfoldable pub trim_prefix : String → String → String
trim_prefix s p = elim (strip_prefix p s) [ none ↦ s | some rest ↦ rest ]
