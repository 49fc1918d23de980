-- ===== src/Base/Lists.antt =====
-- Lists under native indices, and Boolean membership of numbers with duplicate-freeness.
use Prim.Native.Nat.{ℕ, zero, suc, ◌+◌, ◌<◌}
use mathlib.Core.Path.{◌≡◌, refl}
use mathlib.Core.Bool.{Bool, true, false, not, ◌&&◌, ◌||◌}
use mathlib.Core.List.{List, [], ◌∷◌, ◌++◌}
use mathlib.Core.Option.{Option, none, some}
use native.Mathlib.Omega.{arith}
use nazg.Base.Tests.{◌==◌, if◌then◌else◌, ==_iff}

module _ {ℓ} {A : Type ℓ} where
  abbrev pub length : List A → ℕ
  length [] = 0
  length (x ∷ xs) = suc (length xs)

  abbrev pub get_elem? : List A → ℕ → Option A
  get_elem? [] i = none
  get_elem? (x ∷ xs) zero = some x
  get_elem? (x ∷ xs) (suc i) = get_elem? xs i

  abbrev pub take : ℕ → List A → List A
  take zero xs = []
  take (suc n) [] = []
  take (suc n) (x ∷ xs) = x ∷ take n xs

  abbrev pub drop : ℕ → List A → List A
  drop zero xs = xs
  drop (suc n) [] = []
  drop (suc n) (x ∷ xs) = drop n xs

  pub length-append : (xs ys : List A) → length (xs ++ ys) ≡ length xs + length ys
  length-append [] ys = omega arith
  length-append (x ∷ xs) ys = omega (arith, length-append xs ys)

-- Every element has the property.
module _ {ℓ κ} {A : Type ℓ} (P : A → Type κ) where
  abbrev pub All : List A → Type κ
  All [] = Unit
  All (x ∷ xs) = P x × All xs

  pub All-append : (xs ys : List A) → All xs → All ys → All (xs ++ ys)
  All-append [] ys _ hy = hy
  All-append (x ∷ xs) ys h hy = (h.0, All-append xs ys h.1 hy)

abbrev pub contains : ℕ → List ℕ → Bool
contains a [] = false
contains a (x ∷ xs) = x == a || contains a xs

-- No number stands twice.
abbrev pub IsDistinct : List ℕ → Type 0
IsDistinct [] = Unit
IsDistinct (x ∷ xs) = (contains x xs ≡ false) × IsDistinct xs

-- The list without the first occurrence of a number.
abbrev pub erase : ℕ → List ℕ → List ℕ
erase a [] = []
erase a (x ∷ xs) = if x == a then xs else x ∷ erase a xs

-- A number put directly behind the first occurrence of another.
abbrev pub insert_after : ℕ → ℕ → List ℕ → List ℕ
insert_after a b [] = []
insert_after a b (x ∷ xs) = if x == a then x ∷ b ∷ xs else x ∷ insert_after a b xs

-- The two lists have no number in common.
abbrev pub AreDisjoint : List ℕ → List ℕ → Type 0
AreDisjoint xs ys = All (λ x. contains x ys ≡ false) xs

pub contains-append :
    (a : ℕ) (xs ys : List ℕ) → contains a (xs ++ ys) ≡ (contains a xs || contains a ys)
contains-append a [] ys = refl
contains-append a (x ∷ xs) ys = ground (arith, contains-append a xs ys)

pub erase-append_left :
    (a : ℕ) (xs ys : List ℕ) → contains a xs ≡ true → erase a (xs ++ ys) ≡ erase a xs ++ ys
erase-append_left a [] ys h = ground arith
erase-append_left a (x ∷ xs) ys h = ground (arith, erase-append_left a xs ys)

pub erase-append_right :
    (a : ℕ) (xs ys : List ℕ) → contains a xs ≡ false → erase a (xs ++ ys) ≡ xs ++ erase a ys
erase-append_right a [] ys h = refl
erase-append_right a (x ∷ xs) ys h = ground (arith, erase-append_right a xs ys)

pub insert_after-append_left :
    (a b : ℕ) (xs ys : List ℕ)
    → contains a xs ≡ true
    → insert_after a b (xs ++ ys) ≡ insert_after a b xs ++ ys
insert_after-append_left a b [] ys h = ground arith
insert_after-append_left a b (x ∷ xs) ys h = ground (arith, insert_after-append_left a b xs ys)

pub insert_after-append_right :
    (a b : ℕ) (xs ys : List ℕ)
    → contains a xs ≡ false
    → insert_after a b (xs ++ ys) ≡ xs ++ insert_after a b ys
insert_after-append_right a b [] ys h = refl
insert_after-append_right a b (x ∷ xs) ys h = ground (arith, insert_after-append_right a b xs ys)

pub contains-insert_after :
    (c a b : ℕ) (xs : List ℕ)
    → contains c (insert_after a b xs) ≡ (contains c xs || (contains a xs && (b == c)))
contains-insert_after c a b [] = refl
contains-insert_after c a b (x ∷ xs) = ground (arith, contains-insert_after c a b xs)

pub insert_after-IsDistinct :
    (a b : ℕ) (xs : List ℕ)
    → contains b xs ≡ false
    → IsDistinct xs
    → IsDistinct (insert_after a b xs)
insert_after-IsDistinct a b [] h d = tt
insert_after-IsDistinct a b (x ∷ xs) h d =
    ground (arith, insert_after-IsDistinct a b xs, contains-insert_after x a b xs)

pub IsDistinct-append_left : (xs ys : List ℕ) → IsDistinct (xs ++ ys) → IsDistinct xs
IsDistinct-append_left [] ys d = tt
IsDistinct-append_left (x ∷ xs) ys d =
    ground (arith, contains-append x xs ys, IsDistinct-append_left xs ys d.1)

pub IsDistinct-append_right : (xs ys : List ℕ) → IsDistinct (xs ++ ys) → IsDistinct ys
IsDistinct-append_right [] ys d = d
IsDistinct-append_right (x ∷ xs) ys d = IsDistinct-append_right xs ys d.1

pub contains-IsDistinct :
    (a : ℕ) (xs ys : List ℕ) → IsDistinct (xs ++ ys) → contains a xs ≡ true → contains a ys ≡ false
contains-IsDistinct a [] ys d h = ground arith
contains-IsDistinct a (x ∷ xs) ys d h =
    ground (arith, contains-append x xs ys, ==_iff x a, contains-IsDistinct a xs ys d.1)

pub length-insert_after :
    (a b : ℕ) (xs : List ℕ) → contains a xs ≡ true → length (insert_after a b xs) ≡ length xs + 1
length-insert_after a b [] h = ground arith
length-insert_after a b (x ∷ xs) h = ground (arith, length-insert_after a b xs)

pub length-erase :
    (a : ℕ) (xs : List ℕ) → contains a xs ≡ true → length (erase a xs) + 1 ≡ length xs
length-erase a [] h = ground arith
length-erase a (x ∷ xs) h = ground (arith, length-erase a xs)

-- Of a list without duplicates, `erase` leaves every other element.
pub contains-erase :
    (c a : ℕ) (xs : List ℕ)
    → IsDistinct xs
    → contains c (erase a xs) ≡ (contains c xs && not (a == c))
contains-erase c a [] d = refl
contains-erase c a (x ∷ xs) d =
    ground (arith, contains-erase c a xs d.1, ==_iff x a, ==_iff x c, ==_iff a c)

pub erase-IsDistinct : (a : ℕ) (xs : List ℕ) → IsDistinct xs → IsDistinct (erase a xs)
erase-IsDistinct a [] d = tt
erase-IsDistinct a (x ∷ xs) d = ground (arith, erase-IsDistinct a xs d.1, contains-erase x a xs d.1)

pub length-contains : (a : ℕ) (xs : List ℕ) → contains a xs ≡ true → 0 < length xs
length-contains a [] h = cc
length-contains a (x ∷ xs) h = omega arith

pub contains-erase_ne :
    (c a : ℕ) (xs : List ℕ) → (a == c) ≡ false → contains c (erase a xs) ≡ contains c xs
contains-erase_ne c a [] h = refl
contains-erase_ne c a (x ∷ xs) h =
    ground (arith, contains-erase_ne c a xs h, ==_iff x a, ==_iff x c, ==_iff a c)

pub IsDistinct-concat :
    (xs : List ℕ) (a : ℕ) → IsDistinct xs → contains a xs ≡ false → IsDistinct (xs ++ a ∷ [])
IsDistinct-concat [] a d h = (refl, tt)
IsDistinct-concat (x ∷ xs) a d h =
    ground
      (arith, contains-append x xs (a ∷ []), IsDistinct-concat xs a d.1, ==_iff x a, ==_iff a x)
