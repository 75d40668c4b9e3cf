-- ===== src/Text/Affixes.antt =====
-- Taking off a prefix or a suffix that has been put on.
use Prim.Native.Char.{Char}
use Prim.Native.String.{String, ◌++◌ as ◌+++◌}
use text.Mathlib.TextLemmas.{nil-append, cons-append, append_assoc}
use edvabe.Prelude.{◌≡◌, refl, sym, ◌∙◌, ap, arith, none, some, false}
use edvabe.Text.{char_eq, strip_prefix, trim_prefix}
use edvabe.Text.Split.{reverse_onto, reversed, strip_suffix, trim_suffix, char_eq_refl}

pub strip_prefix-append : (p s : String) → strip_prefix p (p +++ s) ≡ some s
unfolding strip_prefix
strip_prefix-append String.[] s = ap some (nil-append s)
strip_prefix-append (String.◌∷◌ c p) s =
    ap (strip_prefix (String.◌∷◌ c p)) (cons-append c p s)
    ∙ ground (arith, char_eq_refl c, strip_prefix-append p s)

pub trim_prefix-append : (p s : String) → trim_prefix (p +++ s) p ≡ s
unfolding trim_prefix
trim_prefix-append p s = ground (arith, strip_prefix-append p s)

reverse_onto-append :
    (s t u : String) → reverse_onto (s +++ t) u ≡ reverse_onto t (reverse_onto s u)
unfolding reverse_onto
reverse_onto-append String.[] t u = ap (λ x. reverse_onto x u) (nil-append t)
reverse_onto-append (String.◌∷◌ c s) t u =
    ap (λ x. reverse_onto x u) (cons-append c s t) ∙ reverse_onto-append s t (String.◌∷◌ c u)

reverse_onto-eq : (s t : String) → reverse_onto s t ≡ reversed s +++ t
unfolding reverse_onto
reverse_onto-eq String.[] t = sym (nil-append t)
reverse_onto-eq (String.◌∷◌ c s) t =
    reverse_onto-eq s (String.◌∷◌ c t)
    ∙ ap (λ x. reversed s +++ x) (sym (ap (String.◌∷◌ c) (nil-append t)) ∙ sym (cons-append c "" t))
    ∙ sym (append_assoc (reversed s) (String.◌∷◌ c "") t)
    ∙ ap (λ x. x +++ t) (sym (reverse_onto-eq s (String.◌∷◌ c "")))

reversed-reverse_onto : (s t : String) → reverse_onto (reverse_onto s t) "" ≡ reverse_onto t s
unfolding reverse_onto
reversed-reverse_onto String.[] t = refl
reversed-reverse_onto (String.◌∷◌ c s) t = reversed-reverse_onto s (String.◌∷◌ c t)

reversed-reversed : (s : String) → reversed (reversed s) ≡ s
unfolding reverse_onto
reversed-reversed s = reversed-reverse_onto s ""

strip_suffix-append : (s p : String) → strip_suffix p (s +++ p) ≡ some s
unfolding strip_suffix
strip_suffix-append s p = ground (
  arith,
  reverse_onto-append s p "" ∙ reverse_onto-eq p (reversed s),
  strip_prefix-append (reversed p) (reversed s),
  reversed-reversed s,
)

pub trim_suffix-append : (s p : String) → trim_suffix (s +++ p) p ≡ s
unfolding trim_suffix
trim_suffix-append s p = ground (arith, strip_suffix-append s p)

-- A text whose first character is another one does not have the prefix.
pub strip_prefix-other :
    (c d : Char) (p q s : String)
    → char_eq c d ≡ false
    → strip_prefix (String.◌∷◌ c p) (String.◌∷◌ d q +++ s) ≡ none
unfolding strip_prefix
strip_prefix-other c d p q s other =
    ap (strip_prefix (String.◌∷◌ c p)) (cons-append d q s) ∙ ground (arith, other)
