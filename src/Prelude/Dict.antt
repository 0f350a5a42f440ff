-- ===== src/Prelude/Dict.antt =====
-- A Go map with string keys, as an association list without repeated keys.
use mathlib.Core.Path.{◌≡◌, refl}
use mathlib.Core.Bool.{Bool, true, false}
use mathlib.Core.Option.{Option, none, some}
use mathlib.Core.List.{List, [], ◌∷◌}
use Prim.Native.Nat.{ℕ, ◌+◌, ◌≤◌}
use native.Mathlib.Omega.{arith}
use go_judge.Prelude.Tests.{if◌then◌else◌}
use go_judge.Prelude.Lists.{length}
use go_judge.Prelude.Text.{Bytes, bytes_eq, bytes_eq_iff}

abbrev pub Dict {ℓ} : Type ℓ → Type ℓ
Dict V = List (Bytes × V)

module _ {ℓ} {V : Type ℓ} where
  -- `m[k]` with its `ok`.
  unfoldable pub lookup : Bytes → Dict V → Option V
  lookup k [] = none
  lookup k ((j, v) ∷ m) = if bytes_eq j k then some v else lookup k m

  -- `m[k] = v`.
  unfoldable pub insert : Bytes → V → Dict V → Dict V
  insert k v [] = (k, v) ∷ []
  insert k v ((j, w) ∷ m) = if bytes_eq j k then (j, v) ∷ m else (j, w) ∷ insert k v m

  -- `delete(m, k)`.
  unfoldable pub delete : Bytes → Dict V → Dict V
  delete k [] = []
  delete k ((j, w) ∷ m) = let rest = delete k m in if bytes_eq j k then rest else (j, w) ∷ rest

  -- `_, ok := m[k]`.
  abbrev pub is_some : Option V → Bool
  is_some none = false
  is_some (some v) = true

  unfoldable pub has : Bytes → Dict V → Bool
  unfolding lookup
  has k m = is_some (lookup k m)

  -- No key stands twice, so `length` counts the keys.
  abbrev pub IsUnique : Dict V → Type ℓ
  IsUnique [] = Unit
  IsUnique ((k, v) ∷ m) = (has k m ≡ false) × IsUnique m

  pub lookup-insert :
      (k j : Bytes) (v : V) (m : Dict V)
      → lookup j (insert k v m) ≡ (if bytes_eq k j then some v else lookup j m)
  unfolding lookup insert
  lookup-insert k j v [] = refl
  lookup-insert k j v ((i, w) ∷ m) =
      ground (arith, bytes_eq_iff k j, bytes_eq_iff i k, bytes_eq_iff i j, lookup-insert k j v m)

  pub lookup-delete :
      (k j : Bytes) (m : Dict V)
      → lookup j (delete k m) ≡ (if bytes_eq k j then none else lookup j m)
  unfolding lookup delete
  lookup-delete k j [] = ground arith
  lookup-delete k j ((i, w) ∷ m) =
      ground (arith, bytes_eq_iff k j, bytes_eq_iff i k, bytes_eq_iff i j, lookup-delete k j m)

  pub has-insert :
      (k j : Bytes) (v : V) (m : Dict V)
      → has j (insert k v m) ≡ (if bytes_eq k j then true else has j m)
  unfolding has
  has-insert k j v m = ground (arith, lookup-insert k j v m)

  pub has-delete :
      (k j : Bytes) (m : Dict V) → has j (delete k m) ≡ (if bytes_eq k j then false else has j m)
  unfolding has
  has-delete k j m = ground (arith, lookup-delete k j m)

  pub has-lookup : (k : Bytes) (m : Dict V) {v : V} → lookup k m ≡ some v → has k m ≡ true
  unfolding has
  has-lookup k m h = ground arith

  pub lookup-has : (k : Bytes) (m : Dict V) → has k m ≡ false → lookup k m ≡ none
  unfolding has
  lookup-has k m h = ground arith

  pub has-lookup-none : (k : Bytes) (m : Dict V) → lookup k m ≡ none → has k m ≡ false
  unfolding has
  has-lookup-none k m h = ground arith

  pub insert-IsUnique : (k : Bytes) (v : V) (m : Dict V) → IsUnique m → IsUnique (insert k v m)
  unfolding insert has lookup
  insert-IsUnique k v [] u = (refl, tt)
  insert-IsUnique k v ((i, w) ∷ m) u =
      ground
        (arith, bytes_eq_iff i k, bytes_eq_iff k i, has-insert k i v m, insert-IsUnique k v m u.1)

  pub delete-IsUnique : (k : Bytes) (m : Dict V) → IsUnique m → IsUnique (delete k m)
  unfolding delete
  delete-IsUnique k [] u = tt
  delete-IsUnique k ((i, w) ∷ m) u = ground (arith, has-delete k i m, delete-IsUnique k m u.1)

  -- Deleting a key that is not there changes nothing.
  pub delete_absent : (k : Bytes) (m : Dict V) → has k m ≡ false → delete k m ≡ m
  unfolding delete has lookup
  delete_absent k [] h = refl
  delete_absent k ((i, w) ∷ m) h = ground (arith, delete_absent k m)

  -- The sum of a measure over the entries.
  unfoldable pub total : (V → ℕ) → Dict V → ℕ
  total f [] = 0
  total f ((k, v) ∷ m) = f v + total f m

  pub total-insert :
      (f : V → ℕ) (k : Bytes) (v : V) (m : Dict V)
      → has k m ≡ false
      → total f (insert k v m) ≡ total f m + f v
  unfolding total insert has lookup
  total-insert f k v [] h = omega arith
  total-insert f k v ((i, w) ∷ m) h = ground (arith, total-insert f k v m)

  -- Writing a key that is there exchanges its measure.
  pub total-insert_present :
      (f : V → ℕ) (k : Bytes) (v w : V) (m : Dict V)
      → lookup k m ≡ some w
      → total f (insert k v m) + f w ≡ total f m + f v
  unfolding total insert lookup
  total-insert_present f k v w [] h = cc
  total-insert_present f k v w ((i, x) ∷ m) h = ground (arith, total-insert_present f k v w m)

  pub total-delete :
      (f : V → ℕ) (k : Bytes) (v : V) (m : Dict V)
      → IsUnique m
      → lookup k m ≡ some v
      → total f (delete k m) + f v ≡ total f m
  unfolding total delete lookup
  total-delete f k v [] u h = cc
  total-delete f k v ((i, w) ∷ m) u h =
      ground (arith, bytes_eq_iff i k, delete_absent k m, total-delete f k v m u.1)

  -- The number of keys is the sum of ones.
  pub length-total : (m : Dict V) → length m ≡ total (λ _. 1) m
  unfolding total
  length-total [] = refl
  length-total ((k, v) ∷ m) = omega (arith, length-total m)

  pub length-insert :
      (k : Bytes) (v : V) (m : Dict V) → has k m ≡ false → length (insert k v m) ≡ length m + 1
  unfolding insert has lookup
  length-insert k v [] h = omega arith
  length-insert k v ((i, w) ∷ m) h = ground (arith, length-insert k v m)

  pub length-insert_present :
      (k : Bytes) (v : V) (m : Dict V) → has k m ≡ true → length (insert k v m) ≡ length m
  unfolding insert has lookup
  length-insert_present k v [] h = cc
  length-insert_present k v ((i, w) ∷ m) h = ground (arith, length-insert_present k v m)

  pub length-delete :
      (k : Bytes) (m : Dict V) → IsUnique m → has k m ≡ true → length (delete k m) + 1 ≡ length m
  unfolding delete has lookup
  length-delete k [] u h = cc
  length-delete k ((i, w) ∷ m) u h =
      ground (arith, bytes_eq_iff i k, delete_absent k m, length-delete k m u.1)

  pub length-delete-le : (k : Bytes) (m : Dict V) → length (delete k m) ≤ length m
  unfolding delete
  length-delete-le k [] = omega arith
  length-delete-le k ((i, w) ∷ m) = ground (arith, length-delete-le k m)
