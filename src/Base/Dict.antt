-- ===== src/Base/Dict.antt =====
-- `std::map` from texts, as a list of entries in the order of their keys.
pub mod Behind
use Prim.Native.Nat.{compare, Ordering}
use mathlib.Core.Path.{◌≡◌, refl}
use mathlib.Core.Option.{Option, none, some}
use mathlib.Core.List.{List, [], ◌∷◌}
use native.Mathlib.Omega.{arith}
use nazg.Base.Tests.{if◌then◌else◌}
use nazg.Base.Text.{Bytes, ◌=ᵇ◌, =ᵇ_iff}

-- The order of `std::string`.
abbrev pub compare_bytes : Bytes → Bytes → Ordering
compare_bytes [] [] = Ordering.eq
compare_bytes [] (y ∷ ys) = Ordering.lt
compare_bytes (x ∷ xs) [] = Ordering.gt
compare_bytes (x ∷ xs) (y ∷ ys) = elim (compare x y) [
  | Ordering.lt ↦ Ordering.lt
  | Ordering.eq ↦ compare_bytes xs ys
  | Ordering.gt ↦ Ordering.gt
]

pub compare_bytes-eq : (s t : Bytes) → compare_bytes s t ≡ Ordering.eq → s ≡ t
compare_bytes-eq [] [] h = refl
compare_bytes-eq [] (y ∷ ys) h = cc
compare_bytes-eq (x ∷ xs) [] h = cc
compare_bytes-eq (x ∷ xs) (y ∷ ys) h = ground (arith, compare_bytes-eq xs ys)

pub compare_bytes_refl : (s : Bytes) → compare_bytes s s ≡ Ordering.eq
compare_bytes_refl [] = refl
compare_bytes_refl (x ∷ xs) = ground (arith, compare_bytes_refl xs)

abbrev pub Dict {ℓ} : Type ℓ → Type ℓ
Dict V = List (Bytes × V)

module _ {ℓ} {V : Type ℓ} where
  abbrev pub lookup : Bytes → Dict V → Option V
  lookup k [] = none
  lookup k ((j, v) ∷ m) = if j =ᵇ k then some v else lookup k m

  -- `m[k] = v`
  abbrev pub insert : Bytes → V → Dict V → Dict V
  insert k v [] = (k, v) ∷ []
  insert k v ((j, w) ∷ m) = elim (compare_bytes k j) [
    | Ordering.lt ↦ (k, v) ∷ (j, w) ∷ m
    | Ordering.eq ↦ (k, v) ∷ m
    | Ordering.gt ↦ (j, w) ∷ insert k v m
  ]

  abbrev pub keys : Dict V → List Bytes
  keys [] = []
  keys ((j, v) ∷ m) = j ∷ keys m

  pub lookup-insert :
      (k i : Bytes) (v : V) (m : Dict V)
      → lookup i (insert k v m) ≡ (if k =ᵇ i then some v else lookup i m)
  lookup-insert k i v [] = refl
  lookup-insert k i v ((j, w) ∷ m) = ground (
    arith,
    compare_bytes-eq k j,
    compare_bytes_refl k,
    =ᵇ_iff k i,
    =ᵇ_iff j i,
    lookup-insert k i v m,
  )

pub compare_bytes-flip :
    (s t : Bytes) → compare_bytes s t ≡ Ordering.gt → compare_bytes t s ≡ Ordering.lt
compare_bytes-flip [] [] h = ground arith
compare_bytes-flip [] (y ∷ ys) h = ground arith
compare_bytes-flip (x ∷ xs) [] h = refl
compare_bytes-flip (x ∷ xs) (y ∷ ys) h = ground (arith, compare_bytes-flip xs ys)

pub compare_bytes_trans :
    (s t u : Bytes)
    → compare_bytes s t ≡ Ordering.lt
    → compare_bytes t u ≡ Ordering.lt
    → compare_bytes s u ≡ Ordering.lt
compare_bytes_trans [] [] u h k = ground arith
compare_bytes_trans [] (y ∷ ys) [] h k = ground arith
compare_bytes_trans [] (y ∷ ys) (z ∷ zs) h k = refl
compare_bytes_trans (x ∷ xs) [] u h k = ground arith
compare_bytes_trans (x ∷ xs) (y ∷ ys) [] h k = ground arith
compare_bytes_trans (x ∷ xs) (y ∷ ys) (z ∷ zs) h k = ground (arith, compare_bytes_trans xs ys zs)

module _ {ℓ} {V : Type ℓ} where
  -- The key stands before all keys of the map.
  abbrev pub IsBefore : Bytes → Dict V → Type 0
  IsBefore k [] = Unit
  IsBefore k ((j, v) ∷ m) = (compare_bytes k j ≡ Ordering.lt) × IsBefore k m

  -- Every key stands before the keys behind it, as in every `std::map`.
  abbrev pub IsSorted : Dict V → Type 0
  IsSorted [] = Unit
  IsSorted ((j, v) ∷ m) = IsBefore j m × IsSorted m

  pub IsBefore-trans :
      (k j : Bytes) (m : Dict V) → compare_bytes k j ≡ Ordering.lt → IsBefore j m → IsBefore k m
  IsBefore-trans k j [] h b = tt
  IsBefore-trans k j ((i, v) ∷ m) h b =
      (compare_bytes_trans k j i h b.0, IsBefore-trans k j m h b.1)

  insert-IsBefore :
      (k j : Bytes) (v : V) (m : Dict V)
      → compare_bytes j k ≡ Ordering.lt
      → IsBefore j m
      → IsBefore j (insert k v m)
  insert-IsBefore k j v [] h b = (h, tt)
  insert-IsBefore k j v ((i, w) ∷ m) h b = ground (arith, insert-IsBefore k j v m h b.1)

  pub insert-IsSorted : (k : Bytes) (v : V) (m : Dict V) → IsSorted m → IsSorted (insert k v m)
  insert-IsSorted k v [] s = (tt, tt)
  insert-IsSorted k v ((j, w) ∷ m) s = ground (
    arith,
    compare_bytes-eq k j,
    compare_bytes-flip k j,
    IsBefore-trans k j m,
    insert-IsBefore k j v m,
    insert-IsSorted k v m s.1,
  )

  pub lookup_before : (k : Bytes) (m : Dict V) → IsBefore k m → lookup k m ≡ none
  lookup_before k [] b = refl
  lookup_before k ((j, v) ∷ m) b =
      ground (arith, compare_bytes_refl k, =ᵇ_iff j k, lookup_before k m b.1)
