-- ===== src/Prelude/Dict.antt =====
-- Go's `map[string]V` as an association list: a read, a write, `delete`, and the order in which
-- `range` visits the entries (a lemma about any list speaks of any order).
use Prim.Native.String.{String}
use mathlib.Core.Path.{◌≡◌, refl, subst}
use mathlib.Core.Logic.{◌≢◌, ◌⊎◌, inl, inr}
use mathlib.Core.Option.{Option, none, some}
use mathlib.Core.List.{List, [], ◌∷◌, ◌++◌}
use native.Mathlib.Omega.{arith}
use text.Mathlib.Text.{◌==◌}
use text.Mathlib.TextEquality.{eq_iff}
use edvabe.Prelude.Tests.{if◌then◌else◌, Bool-cases}
use edvabe.Prelude.Lists.{take, length}
use Prim.Native.Nat.{ℕ, zero, suc}

abbrev pub Dict {ℓ} : Type ℓ → Type ℓ
Dict V = List (String × V)

module _ {ℓ} {V : Type ℓ} where
  -- v, ok := m[key]
  unfoldable pub lookup : String → Dict V → Option V
  lookup key [] = none
  lookup key ((stored, value) ∷ others) = if stored == key then some value else lookup key others

  -- m[key] = value
  unfoldable pub insert : String → V → Dict V → Dict V
  insert key value [] = (key, value) ∷ []
  insert key value ((stored, old) ∷ others) =
      let later = insert key value others in
      if stored == key then (key, value) ∷ others else (stored, old) ∷ later

  -- delete(m, key)
  unfoldable pub delete : String → Dict V → Dict V
  delete key [] = []
  delete key ((stored, value) ∷ others) =
      let later = delete key others in if stored == key then later else (stored, value) ∷ later

  -- A write is seen at its own key and nowhere else.
  pub lookup-insert :
      (written read : String) (value : V) (dict : Dict V)
      → lookup read (insert written value dict)
        ≡ (if written == read then some value else lookup read dict)
  unfolding lookup insert
  lookup-insert written read value [] = refl
  lookup-insert written read value ((stored, old) ∷ others) = ground (
    arith,
    lookup-insert written read value others,
    eq_iff stored written,
    eq_iff stored read,
    eq_iff written read,
  )

  pub lookup-delete :
      (k j : String) (m : Dict V) → lookup j (delete k m) ≡ (if k == j then none else lookup j m)
  unfolding lookup delete
  lookup-delete k j [] = ground arith
  lookup-delete k j ((i, w) ∷ m) =
      ground (arith, eq_iff k j, eq_iff i k, eq_iff i j, lookup-delete k j m)

  pub lookup-insert_self : (k : String) (v : V) (m : Dict V) → lookup k (insert k v m) ≡ some v
  lookup-insert_self k v m = ground (arith, lookup-insert k k v m, eq_iff k k)

  pub lookup-insert_ne :
      (k j : String) (v : V) (m : Dict V) → k ≢ j → lookup j (insert k v m) ≡ lookup j m
  lookup-insert_ne k j v m h = ground (arith, lookup-insert k j v m, eq_iff k j)

  pub lookup-delete_self : (k : String) (m : Dict V) → lookup k (delete k m) ≡ none
  lookup-delete_self k m = ground (arith, lookup-delete k k m, eq_iff k k)

  pub lookup-delete_ne : (k j : String) (m : Dict V) → k ≢ j → lookup j (delete k m) ≡ lookup j m
  lookup-delete_ne k j m h = ground (arith, lookup-delete k j m, eq_iff k j)

-- A fact about every entry.
abbrev pub Everywhere {ℓ κ} : {V : Type ℓ} → (String → V → Type κ) → Dict V → Type (ℓ ⊔ κ)
Everywhere {V} P m = (k : String) (v : V) → lookup k m ≡ some v → P k v

module _ {ℓ κ} {V : Type ℓ} (P : String → V → Type κ) where
  pub Everywhere-insert :
      (k : String) (v : V) (m : Dict V) → P k v → Everywhere P m → Everywhere P (insert k v m)
  Everywhere-insert k v m new old j x at = elim (Bool-cases (k == j)) [
    | inl same ↦
        subst (λ i. P i x) ((eq_iff k j).0 same)
          (subst (P k) (ground (arith, lookup-insert k j v m)) new)
    | inr other ↦ old j x (ground (arith, lookup-insert k j v m))
  ]

  pub Everywhere-delete : (k : String) (m : Dict V) → Everywhere P m → Everywhere P (delete k m)
  Everywhere-delete k m old j x at = old j x (ground (arith, lookup-delete k j m))

-- No key stands twice, as in every Go map.
module _ {ℓ} {V : Type ℓ} where
  abbrev pub Unique : Dict V → Type ℓ
  Unique [] = Unit
  Unique ((k, v) ∷ m) = (lookup k m ≡ none) × Unique m

  pub Unique-insert : (k : String) (v : V) (m : Dict V) → Unique m → Unique (insert k v m)
  unfolding insert
  Unique-insert k v [] u = (unfold lookup in refl, tt)
  Unique-insert k v ((j, w) ∷ m) (fresh, u) = elim (Bool-cases (j == k)) [
    | inl same ↦ rw same (subst (λ i. lookup i m ≡ none) ((eq_iff j k).0 same) fresh, u)
    | inr other ↦
        rw other
          (ground (arith, lookup-insert k j v m, eq_iff k j, eq_iff j k), Unique-insert k v m u)
  ]

  pub Unique-delete : (k : String) (m : Dict V) → Unique m → Unique (delete k m)
  unfolding delete
  Unique-delete k [] u = tt
  Unique-delete k ((j, w) ∷ m) (fresh, u) = elim (Bool-cases (j == k)) [
    | inl same ↦ rw same (Unique-delete k m u)
    | inr other ↦ rw other (ground (arith, lookup-delete k j m), Unique-delete k m u)
  ]

module _ {ℓ} {V : Type ℓ} where
  pub lookup-append :
      (k : String) (m n : Dict V)
      → lookup k (m ++ n) ≡ elim (lookup k m) [ none ↦ lookup k n | some v ↦ some v ]
  unfolding lookup
  lookup-append k [] n = refl
  lookup-append k ((j, v) ∷ m) n = ground (arith, lookup-append k m n)

  pub lookup-take :
      (k : String) (c : ℕ) (m : Dict V)
      → (lookup k (take c m) ≡ none) ⊎ (lookup k (take c m) ≡ lookup k m)
  unfolding lookup
  lookup-take k zero m = inl refl
  lookup-take k (suc c) [] = inl refl
  lookup-take k (suc c) ((j, v) ∷ m) = ground (arith, lookup-take k c m)

  pub Unique-take : (c : ℕ) (m : Dict V) → Unique m → Unique (take c m)
  Unique-take zero m u = tt
  Unique-take (suc c) [] u = tt
  Unique-take (suc c) ((k, v) ∷ m) (fresh, u) =
      (ground (arith, lookup-take k c m), Unique-take c m u)

  pub Unique-append :
      (m n : Dict V)
      → Unique m
      → Unique n
      → ((k : String) → lookup k m ≢ none → lookup k n ≡ none)
      → Unique (m ++ n)
  unfolding lookup
  Unique-append [] n um un apart = un
  Unique-append ((j, v) ∷ m) n (fresh, um) un apart = (
    ground (arith, lookup-append j m n, apart j, eq_iff j j),
    Unique-append m n um un (λ k present. ground (arith, apart k, eq_iff j k)),
  )

  pub length-insert_new :
      (k : String) (v : V) (m : Dict V) → lookup k m ≡ none → length (insert k v m) ≡ suc (length m)
  unfolding lookup insert
  length-insert_new k v [] h = refl
  length-insert_new k v ((j, w) ∷ m) h = ground (arith, length-insert_new k v m)
