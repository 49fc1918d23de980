-- ===== src/Base/Dict/Behind.antt =====
-- A key that stands behind all keys of a map is inserted at its end.
use Prim.Native.Nat.{Ordering}
use mathlib.Core.Path.{◌≡◌, refl}
use mathlib.Core.List.{[], ◌∷◌, ◌++◌}
use native.Mathlib.Omega.{arith}
use nazg.Base.Text.{Bytes}
use nazg.Base.Dict.{Dict, insert, IsBefore, compare_bytes}

compare_bytes-flip_lt :
    (s t : Bytes) → compare_bytes s t ≡ Ordering.lt → compare_bytes t s ≡ Ordering.gt
compare_bytes-flip_lt [] [] h = ground arith
compare_bytes-flip_lt [] (y ∷ ys) h = refl
compare_bytes-flip_lt (x ∷ xs) [] h = ground arith
compare_bytes-flip_lt (x ∷ xs) (y ∷ ys) h = ground (arith, compare_bytes-flip_lt xs ys)

module _ {ℓ} {V : Type ℓ} where
  -- Every key stands before a key.
  abbrev pub AreBefore : Dict V → Bytes → Type 0
  AreBefore [] k = Unit
  AreBefore ((j, v) ∷ m) k = (compare_bytes j k ≡ Ordering.lt) × AreBefore m k

  pub insert_last :
      (k : Bytes) (v : V) (m : Dict V) → AreBefore m k → insert k v m ≡ m ++ (k, v) ∷ []
  insert_last k v [] h = refl
  insert_last k v ((j, w) ∷ m) h =
      ground (arith, compare_bytes-flip_lt j k h.0, insert_last k v m h.1)

  AreBefore-concat :
      (m : Dict V) (j : Bytes) (v : V) (k : Bytes)
      → AreBefore m k
      → compare_bytes j k ≡ Ordering.lt
      → AreBefore (m ++ (j, v) ∷ []) k
  AreBefore-concat [] j v k h l = (l, tt)
  AreBefore-concat ((i, w) ∷ m) j v k h l = (h.0, AreBefore-concat m j v k h.1 l)

  -- All keys of the first map stand before those of the second.
  abbrev pub AllBefore : Dict V → Dict V → Type 0
  AllBefore m [] = Unit
  AllBefore m ((k, v) ∷ params) = AreBefore m k × AllBefore m params

  pub AllBefore-concat :
      (m : Dict V) (j : Bytes) (v : V) (params : Dict V)
      → AllBefore m params
      → IsBefore j params
      → AllBefore (m ++ (j, v) ∷ []) params
  AllBefore-concat m j v [] h b = tt
  AllBefore-concat m j v ((k, w) ∷ params) h b =
      (AreBefore-concat m j v k h.0 b.0, AllBefore-concat m j v params h.1 b.1)

  pub AllBefore-nil : (params : Dict V) → AllBefore [] params
  AllBefore-nil [] = tt
  AllBefore-nil (kv ∷ params) = (tt, AllBefore-nil params)
