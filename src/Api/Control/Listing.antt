-- ===== src/Api/Control/Listing.antt =====
-- internal/api/control/sandboxes.go, listSandboxes: the filter, the order and the pages of a
-- listing, and what a client gets that follows the tokens.
use Prim.Native.String.{String, compare}
use Prim.Native.Nat.{Ordering}
use native.Mathlib.Nat.{zero-add, suc-add}
use edvabe.Prelude.{
  ℕ, zero, suc, ◌+◌, ◌-◌, ◌≤◌, ◌<◌, ◌≡◌, refl, sym, ◌∙◌, ap, Bool, true, false, Option, none, some,
  ◌==◌, eq_iff, ◌&&◌, ◌||◌, if◌then◌else◌, List, [], ◌∷◌, ◌++◌, arith, inl, inr, Bool-cases, length,
  take, drop, min, length-drop, take-append-drop, ltb, ltb→lt,
}
use edvabe.Prelude.Int.{pos, negsuc, ltb_ℤ, leb_ℤ}
use edvabe.Sandbox.{Sandbox, State}
use edvabe.Text.Decimal.{atoi, itoa, int_limit, atoi-itoa}
use edvabe.Api.Dispatch.{itoa-ne_empty}

-- The order by creation and, among equals, by identifier.
unfoldable pub is_before : Sandbox → Sandbox → Bool
is_before a b =
    let same = leb_ℤ a.created_at b.created_at && leb_ℤ b.created_at a.created_at in
    if same
    then elim (compare a.id b.id) [ Ordering.lt ↦ true | _ ↦ false ]
    else ltb_ℤ a.created_at b.created_at

unfoldable pub insert_listed : Sandbox → List Sandbox → List Sandbox
insert_listed s [] = s ∷ []
insert_listed s (t ∷ ts) =
    let later = insert_listed s ts in if is_before t s then t ∷ later else s ∷ t ∷ ts

-- sort.Slice
unfoldable pub sort_listed : List Sandbox → List Sandbox
sort_listed [] = []
sort_listed (s ∷ ss) = insert_listed s (sort_listed ss)

abbrev pub name_of_state : State → String
name_of_state State.running = "running"
name_of_state State.paused = "paused"

abbrev pub names_state : List String → State → Bool
names_state [] st = false
names_state (n ∷ ns) st = n == name_of_state st || names_state ns st

-- The sandboxes whose state is asked for; an empty filter asks for all.
unfoldable pub filter_states : List String → List Sandbox → List Sandbox
filter_states [] ss = ss
filter_states (n ∷ ns) [] = []
filter_states (n ∷ ns) (s ∷ ss) =
    let rest = filter_states (n ∷ ns) ss in if names_state (n ∷ ns) s.state then s ∷ rest else rest

-- A number in the query: absent, refused, or there.
pub data QueryNumber : Type 0 where
  not_given invalid : QueryNumber
  given : ℕ → QueryNumber

unfoldable pub query_number : String → QueryNumber
query_number raw =
    if raw == ""
    then not_given
    else elim (atoi raw) [ none ↦ invalid | some (negsuc n) ↦ invalid | some (pos n) ↦ given n ]

module _ {A : Type 0} where
  unfoldable pub page_at : ℕ → ℕ → List A → List A × Option String
  page_at offset limit items =
      let page = drop offset items in
      if ltb limit (length page)
      then (take limit page, some (itoa (offset + limit)))
      else (page, none)

  -- The page and X-Next-Token; `none` is the reply 400.
  unfoldable pub list_page : String → String → List A → Option (List A × Option String)
  list_page next limit items = elim (query_number next) [
    | invalid ↦ none
    | not_given ↦ elim (query_number limit) [
      | invalid ↦ none
      | not_given ↦ some (page_at 0 (length items) items)
      | given l ↦ some (page_at 0 l items)
    ]
    | given o ↦
        let offset = min o (length items) in
        elim (query_number limit) [
          | invalid ↦ none
          | not_given ↦ some (page_at offset (length items) items)
          | given l ↦ some (page_at offset l items)
        ]
  ]

  -- A client that follows the tokens until there is none, with at most `fuel` requests.
  unfoldable pub follow : ℕ → String → String → List A → Option (List A)
  follow zero next limit items = none
  follow (suc fuel) next limit items = elim (list_page next limit items) [
    | none ↦ none
    | some (page, none) ↦ some page
    | some (page, some token) ↦ elim (follow fuel token limit items) [
      | none ↦ none
      | some rest ↦ some (page ++ rest)
    ]
  ]

no_token : query_number "" ≡ not_given
unfolding query_number
no_token = refl

query_number-itoa : (n : ℕ) → n < int_limit → query_number (itoa n) ≡ given n
unfolding query_number
query_number-itoa n h = ground (arith, atoi-itoa n h, itoa-ne_empty n, eq_iff (itoa n) "")

module _ {A : Type 0} where
  drop_nil : (n : ℕ) → drop {A = A} n [] ≡ []
  drop_nil zero = refl
  drop_nil (suc n) = refl

  drop-add : (a b : ℕ) (xs : List A) → drop (a + b) xs ≡ drop b (drop a xs)
  drop-add zero b xs = ap (λ n. drop n xs) (zero-add b)
  drop-add (suc a) b [] = ap (λ n. drop n []) (suc-add a b) ∙ sym (drop_nil b)
  drop-add (suc a) b (x ∷ xs) = ap (λ n. drop n (x ∷ xs)) (suc-add a b) ∙ drop-add a b xs

  list_page-given :
      (o l : ℕ) (items : List A)
      → o ≤ length items
      → length items < int_limit
      → l < int_limit
      → list_page (itoa o) (itoa l) items ≡ some (page_at o l items)
  unfolding list_page
  list_page-given o l items inside small fits =
      ground (arith, query_number-itoa o (omega arith), query_number-itoa l fits, least)
    where
      least : min o (length items) ≡ o
      least = omega arith

  list_page-first :
      (l : ℕ) (items : List A)
      → length items < int_limit
      → l < int_limit
      → list_page "" (itoa l) items ≡ list_page (itoa 0) (itoa l) items
  list_page-first l items small fits =
      first ∙ sym (list_page-given 0 l items (omega arith) small fits)
    where
      first : list_page "" (itoa l) items ≡ some (page_at 0 l items)
      first = unfold list_page in ground (arith, query_number-itoa l fits, no_token)

  follow-first :
      (fuel : ℕ) (next other limit : String) (items : List A)
      → list_page next limit items ≡ list_page other limit items
      → follow (suc fuel) next limit items ≡ follow (suc fuel) other limit items
  unfolding follow
  follow-first fuel next other limit items h = ground (arith, h)

  follow-drop :
      (fuel o k : ℕ) (items : List A)
      → o ≤ length items
      → length items < int_limit
      → suc k < int_limit
      → length items - o < fuel
      → follow fuel (itoa o) (itoa (suc k)) items ≡ some (drop o items)
  unfolding follow page_at
  follow-drop zero o k items inside small fits enough = absurd (omega arith)
  follow-drop (suc fuel) o k items inside small fits enough =
      elim (Bool-cases (ltb (suc k) (length (drop o items)))) [
        | inl more ↦ ground (
          arith,
          list_page-given o (suc k) items inside small fits,
          more,
          follow-drop fuel (o + suc k) k items (room more) small fits (less more),
          sym (drop-add o (suc k) items),
          take-append-drop (suc k) (drop o items),
        )
        | inr last ↦ ground (arith, list_page-given o (suc k) items inside small fits, last)
      ]
    where
      room : ltb (suc k) (length (drop o items)) ≡ true → o + suc k ≤ length items
      room more = omega (arith, ltb→lt _ _ more, length-drop o items)

      less : ltb (suc k) (length (drop o items)) ≡ true → length items - (o + suc k) < fuel
      less more = omega (arith, ltb→lt _ _ more, length-drop o items)

  -- A client that asks for a listing with a positive limit below 2^63 and follows X-Next-Token until
  -- there is none gets every entry exactly once and in order, as long as the listing does not change
  -- and is shorter than 2^63; it makes at most one request more than there are entries.
  pub follow-all :
      (k : ℕ) (items : List A)
      → suc k < int_limit
      → length items < int_limit
      → follow (suc (length items)) "" (itoa (suc k)) items ≡ some items
  follow-all k items fits small =
      follow-first (length items) "" (itoa 0) (itoa (suc k)) items
        (list_page-first (suc k) items small fits)
      ∙ follow-drop (suc (length items)) 0 k items (omega arith) small fits (omega arith)
