-- ===== src/Text/Split.antt =====
-- What the Go code uses of package strings to take texts apart.
use Prim.Native.Char.{Char, code}
use Prim.Native.String.{String, ◌++◌ as ◌+++◌}
use text.Mathlib.TextLemmas.{nil-append, cons-append}
use native.Mathlib.Omega.{arith}
use edvabe.Prelude.{
  ◌≡◌, ap, Bool, true, false, Option, none, some, leb, if◌then◌else◌, ◌&&◌, ◌||◌, ◌∙◌, ◌-◌, List,
  [], ◌∷◌, get_elem?,
}
use edvabe.Text.{strip_prefix, char_eq}

-- strings.SplitN(s, c, 2) for one character: what stands before its first occurrence and behind it.
unfoldable pub cut : Char → String → Option (String × String)
cut c String.[] = none
cut c (String.◌∷◌ d s) =
    let later = cut c s in
    if char_eq c d
    then some (String.[], s)
    else elim later [ none ↦ none | some (before, behind) ↦ some (String.◌∷◌ d before, behind) ]

-- strings.Split(s, c) for one character.
unfoldable pub split_all : Char → String → List String
split_all c String.[] = "" ∷ []
split_all c (String.◌∷◌ d s) =
    let later = split_all c s in
    if char_eq c d
    then "" ∷ later
    else elim later [ [] ↦ String.◌∷◌ d "" ∷ [] | piece ∷ pieces ↦ String.◌∷◌ d piece ∷ pieces ]

abbrev pub is_space : Char → Bool
is_space c = leb 9 (code c) && leb (code c) 13 || char_eq c " "

unfoldable pub trim_left : String → String
trim_left String.[] = ""
trim_left (String.◌∷◌ c s) = let rest = trim_left s in if is_space c then rest else String.◌∷◌ c s

unfoldable pub contains : Char → String → Bool
contains c String.[] = false
contains c (String.◌∷◌ d s) = let later = contains c s in if char_eq c d then true else later

unfoldable pub reverse_onto : String → String → String
reverse_onto String.[] t = t
reverse_onto (String.◌∷◌ c s) t = reverse_onto s (String.◌∷◌ c t)

abbrev pub reversed : String → String
reversed s = reverse_onto s ""

-- The text before a suffix, if it has it.
unfoldable pub strip_suffix : String → String → Option String
strip_suffix p s = elim (strip_prefix (reversed p) (reversed s)) [
  | none ↦ none
  | some rest ↦ some (reversed rest)
]

-- strings.TrimSpace(s), for texts whose blanks are those of ASCII.
unfoldable pub trim_space : String → String
trim_space s = reversed (trim_left (reversed (trim_left s)))

abbrev pub skip : Char → String → String
skip c String.[] = ""
skip c (String.◌∷◌ d s) = if char_eq c d then skip c s else String.◌∷◌ d s

-- strings.TrimRight(s, c) for one character.
unfoldable pub trim_right : Char → String → String
trim_right c s = reversed (skip c (reversed s))

unfoldable pub has_suffix : String → String → Bool
has_suffix s p = elim (strip_suffix p s) [ none ↦ false | some _ ↦ true ]

-- strings.TrimSuffix(s, p)
unfoldable pub trim_suffix : String → String → String
trim_suffix s p = elim (strip_suffix p s) [ none ↦ s | some rest ↦ rest ]

-- strings.Cut for a separator that is a text; strings.Index with what follows.
unfoldable pub cut_text : String → String → Option (String × String)
cut_text sep String.[] = elim (strip_prefix sep "") [ none ↦ none | some rest ↦ some ("", rest) ]
cut_text sep (String.◌∷◌ c s) =
    let later = cut_text sep s in
    elim (strip_prefix sep (String.◌∷◌ c s)) [
      | some rest ↦ some ("", rest)
      | none ↦ elim later [
        | none ↦ none
        | some (before, behind) ↦ some (String.◌∷◌ c before, behind)
      ]
    ]

abbrev pub letters : List Char
letters =
    "a" ∷ "b" ∷ "c" ∷ "d" ∷ "e" ∷ "f" ∷ "g" ∷ "h" ∷ "i" ∷ "j" ∷ "k" ∷ "l" ∷ "m" ∷ "n" ∷ "o" ∷ "p"
    ∷ "q" ∷ "r" ∷ "s" ∷ "t" ∷ "u" ∷ "v" ∷ "w" ∷ "x" ∷ "y" ∷ "z" ∷ []

abbrev pub lower : Char → Char
lower c =
    if leb 65 (code c) && leb (code c) 90
    then elim (get_elem? letters (code c - 65)) [ none ↦ c | some d ↦ d ]
    else c

-- strings.ToLower(s), for texts whose capitals are those of ASCII.
unfoldable pub to_lower : String → String
to_lower String.[] = String.[]
to_lower (String.◌∷◌ c s) = String.◌∷◌ (lower c) (to_lower s)

pub char_eq_refl : (c : Char) → char_eq c c ≡ true
char_eq_refl c = ground arith

-- The first occurrence is the one that stands behind a text without any.
pub cut-append :
    (c : Char) (s t : String) → contains c s ≡ false → cut c (s +++ String.◌∷◌ c t) ≡ some (s, t)
unfolding cut contains
cut-append c String.[] t h =
    ap (cut c) (nil-append (String.◌∷◌ c t)) ∙ ground (arith, char_eq_refl c)
cut-append c (String.◌∷◌ d s) t h =
    ap (cut c) (cons-append d s (String.◌∷◌ c t)) ∙ ground (arith, h, cut-append c s t)

pub contains-append :
    (c : Char) (s t : String) → contains c (s +++ t) ≡ contains c s || contains c t
unfolding contains
contains-append c String.[] t = ap (contains c) (nil-append t)
contains-append c (String.◌∷◌ d s) t =
    ap (contains c) (cons-append d s t) ∙ ground (arith, contains-append c s t)

-- What stands before the first occurrence is the first piece.
pub split_all-append :
    (c : Char) (s t : String)
    → contains c s ≡ false
    → split_all c (s +++ String.◌∷◌ c t) ≡ s ∷ split_all c t
unfolding split_all contains
split_all-append c String.[] t h =
    ap (split_all c) (nil-append (String.◌∷◌ c t)) ∙ ground (arith, char_eq_refl c)
split_all-append c (String.◌∷◌ d s) t h =
    ap (split_all c) (cons-append d s (String.◌∷◌ c t)) ∙ ground (arith, h, split_all-append c s t)
