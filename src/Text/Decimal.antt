-- ===== src/Text/Decimal.antt =====
-- What the Go code uses of package strconv: decimal texts and the 64-bit integers that they stand
-- for.
use Prim.Native.Char.{Char, code}
use Prim.Native.String.{String, ◌++◌ as ◌+++◌}
use text.Mathlib.TextLemmas.{nil-append, cons-append}
use native.Mathlib.Omega.{arith}
use edvabe.Prelude.{
  ℕ, zero, suc, ◌+◌, ◌-◌, ◌*◌, ◌/◌, ◌%◌, ◌<◌, ◌≡◌, refl, sym, ◌∙◌, ap, Bool, true, false, Option,
  none, some, ltb, leb, if◌then◌else◌, ◌&&◌, Bool-cases, not-ltb, inl, inr, List, [], ◌∷◌,
  get_elem?,
}
use edvabe.Prelude.Int.{ℤ, pos, negsuc}
use edvabe.Text.{char_eq}
use edvabe.Text.Split.{contains, contains-append}

abbrev pub figures : List Char
figures = "0" ∷ "1" ∷ "2" ∷ "3" ∷ "4" ∷ "5" ∷ "6" ∷ "7" ∷ "8" ∷ "9" ∷ []

abbrev pub digit : ℕ → Char
digit d = elim (get_elem? figures d) [ none ↦ "0" | some c ↦ c ]

-- `fuel` bounds the digits; `n + 1` is always enough.
unfoldable pub digits : ℕ → ℕ → String
digits zero n = ""
digits (suc fuel) n =
    let higher = digits fuel (n / 10) in
    let last = String.◌∷◌ (digit (n % 10)) "" in if ltb n 10 then last else higher +++ last

-- strconv.Itoa of a number that is not negative.
unfoldable pub itoa : ℕ → String
itoa n = digits (suc n) n

abbrev is_digit : Char → Bool
is_digit c = leb 48 (code c) && leb (code c) 57

-- The number that the digits stand for, on top of those read before.
unfoldable pub read_digits : ℕ → String → Option ℕ
read_digits acc String.[] = some acc
read_digits acc (String.◌∷◌ c s) =
    let later = read_digits (acc * 10 + (code c - 48)) s in if is_digit c then later else none

unfoldable pub unsigned : String → Option ℕ
unsigned String.[] = none
unsigned (String.◌∷◌ c s) = read_digits 0 (String.◌∷◌ c s)

abbrev pub int_limit : ℕ
int_limit = 9_223_372_036_854_775_808

abbrev fit_pos : Option ℕ → Option ℤ
fit_pos none = none
fit_pos (some n) = if ltb n int_limit then some (pos n) else none

abbrev negated : ℕ → ℤ
negated zero = pos 0
negated (suc n) = negsuc n

abbrev fit_neg : Option ℕ → Option ℤ
fit_neg none = none
fit_neg (some n) = if leb n int_limit then some (negated n) else none

-- strconv.Atoi(s) and strconv.ParseInt(s, 10, 64), on a platform where an int has 64 bits.
unfoldable pub atoi : String → Option ℤ
atoi String.[] = none
atoi (String.◌∷◌ c s) =
    if char_eq c "-"
    then fit_neg (unsigned s)
    else if char_eq c "+"
    then fit_pos (unsigned s)
    else fit_pos (unsigned (String.◌∷◌ c s))

code-digit : (d : ℕ) → d < 10 → code (digit d) ≡ 48 + d
code-digit zero h = refl
code-digit (suc zero) h = refl
code-digit (suc (suc zero)) h = refl
code-digit (suc (suc (suc zero))) h = refl
code-digit (suc (suc (suc (suc zero)))) h = refl
code-digit (suc (suc (suc (suc (suc zero))))) h = refl
code-digit (suc (suc (suc (suc (suc (suc zero)))))) h = refl
code-digit (suc (suc (suc (suc (suc (suc (suc zero))))))) h = refl
code-digit (suc (suc (suc (suc (suc (suc (suc (suc zero)))))))) h = refl
code-digit (suc (suc (suc (suc (suc (suc (suc (suc (suc zero))))))))) h = refl
code-digit (suc (suc (suc (suc (suc (suc (suc (suc (suc (suc d)))))))))) h = absurd (omega arith)

digit-is_digit : (d : ℕ) → d < 10 → is_digit (digit d) ≡ true
digit-is_digit d h = rw (code-digit d h) (ground arith)

read_digits-append :
    (acc : ℕ) (s : String) (c : Char)
    → read_digits acc (s +++ String.◌∷◌ c "") ≡ elim (read_digits acc s) [
      | none ↦ none
      | some n ↦ if is_digit c then some (n * 10 + (code c - 48)) else none
    ]
unfolding read_digits
read_digits-append acc String.[] c = ap (read_digits acc) (nil-append (String.◌∷◌ c ""))
read_digits-append acc (String.◌∷◌ d s) c =
    ap (read_digits acc) (cons-append d s (String.◌∷◌ c ""))
    ∙ ground (arith, read_digits-append (acc * 10 + (code d - 48)) s c)

read_digits-digits : (fuel n : ℕ) → n < fuel → read_digits 0 (digits fuel n) ≡ some n
unfolding digits read_digits
read_digits-digits zero n h = absurd (omega arith)
read_digits-digits (suc fuel) n h = elim (Bool-cases (ltb n 10)) [
  | inl small ↦ rw small (ground (arith, last_code, last_digit))
  | inr large ↦ rw large (
      read_digits-append 0 (digits fuel (n / 10)) (digit (n % 10))
      ∙ ground (
        arith,
        read_digits-digits fuel (n / 10) (omega (arith, not-ltb n 10 large)),
        last_code,
        last_digit,
      ))
]
  where
    last_code : code (digit (n % 10)) ≡ 48 + n % 10
    last_code = code-digit (n % 10) (omega arith)

    last_digit : is_digit (digit (n % 10)) ≡ true
    last_digit = digit-is_digit (n % 10) (omega arith)

-- A decimal text starts with a digit.
digits-cons :
    (fuel n : ℕ)
    → n < fuel
    → (c : Char) × (s : String) × (digits fuel n ≡ String.◌∷◌ c s) × (is_digit c ≡ true)
unfolding digits
digits-cons zero n h = absurd (omega arith)
digits-cons (suc fuel) n h = elim (Bool-cases (ltb n 10)) [
  | inl small ↦ (digit (n % 10), "", rw small refl, digit-is_digit (n % 10) (omega arith))
  | inr large ↦
      let (c, s, starts, good) = digits-cons fuel (n / 10) (omega (arith, not-ltb n 10 large)) in
      (
        c,
        s +++ String.◌∷◌ (digit (n % 10)) "",
        rw large (
            ap (λ t. t +++ String.◌∷◌ (digit (n % 10)) "") starts
            ∙ cons-append c s (String.◌∷◌ (digit (n % 10)) "")),
        good,
      )
]

-- Nothing but digits stands in it.
contains-digits : (x : Char) (fuel n : ℕ) → is_digit x ≡ false → contains x (digits fuel n) ≡ false
unfolding digits contains
contains-digits x zero n h = refl
contains-digits x (suc fuel) n h = elim (Bool-cases (ltb n 10)) [
  | inl small ↦ rw small (ground (arith, h, code-digit (n % 10) (omega arith)))
  | inr large ↦ rw large (
      contains-append x (digits fuel (n / 10)) (String.◌∷◌ (digit (n % 10)) "")
      ∙ ground (arith, h, code-digit (n % 10) (omega arith), contains-digits x fuel (n / 10) h))
]

pub contains-itoa : (x : Char) (n : ℕ) → is_digit x ≡ false → contains x (itoa n) ≡ false
unfolding itoa
contains-itoa x n h = contains-digits x (suc n) n h

pub itoa-cons :
    (n : ℕ) → (c : Char) × (s : String) × (itoa n ≡ String.◌∷◌ c s) × (is_digit c ≡ true)
unfolding itoa
itoa-cons n = digits-cons (suc n) n (omega arith)

-- A number below 2^63 that is written in decimal and read again is the number.
pub atoi-itoa : (n : ℕ) → n < int_limit → atoi (itoa n) ≡ some (pos n)
unfolding atoi unsigned itoa
atoi-itoa n h =
    let (c, s, starts, good) = itoa-cons n in
    let read : read_digits 0 (String.◌∷◌ c s) ≡ some n =
      ap (read_digits 0) (sym starts) ∙ read_digits-digits (suc n) n (omega arith) in
    rw starts (ground (arith, good, read, h))

-- strconv.FormatInt(i, 10)
unfoldable pub format_int : ℤ → String
format_int (pos n) = itoa n
format_int (negsuc n) = String.◌∷◌ "-" (itoa (suc n))

fit_pos-range : (o : Option ℕ) (n : ℕ) → fit_pos o ≡ some (pos n) → n < int_limit
fit_pos-range none n h = absurd (ground (arith, h))
fit_pos-range (some k) n h = ground (arith, h)

fit_neg-range : (o : Option ℕ) (n : ℕ) → fit_neg o ≡ some (pos n) → n < int_limit
fit_neg-range none n h = absurd (ground (arith, h))
fit_neg-range (some zero) n h = ground (arith, h)
fit_neg-range (some (suc k)) n h = absurd (ground (arith, h))

-- What is read fits 64 bits.
pub atoi-range : (s : String) (n : ℕ) → atoi s ≡ some (pos n) → n < int_limit
unfolding atoi
atoi-range String.[] n h = absurd (ground (arith, h))
atoi-range (String.◌∷◌ c s) n h = ground (
  arith,
  fit_neg-range (unsigned s) n,
  fit_pos-range (unsigned s) n,
  fit_pos-range (unsigned (String.◌∷◌ c s)) n,
)
