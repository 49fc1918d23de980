-- ===== src/Base/Members.antt =====
-- Members of lists: those of a list that is gathered, in order, from the members of another.
use mathlib.Core.Path.{◌≡◌, refl, subst, sym}
use mathlib.Core.Logic.{◌⊎◌, inl, inr}
use mathlib.Core.Bool.{Bool, true, false, ◌||◌}
use mathlib.Core.List.{List, [], ◌∷◌, ◌++◌}
use mathlib.Core.List.Memᴰ.{Memᴰ, head, tail}
use native.Mathlib.Omega.{arith}
use nazg.Base.Tests.{Bool-cases}
use mathlib.Core.Option.{Option, none, some}
use nazg.Base.Dict.{Dict, lookup, keys}
use nazg.Base.Text.{Bytes, ◌=ᵇ◌, =ᵇ_iff}

module _ {ℓ} {A : Type ℓ} where
  pub mem-append : (a : A) (xs ys : List A) → Memᴰ a (xs ++ ys) → Memᴰ a xs ⊎ Memᴰ a ys
  mem-append a [] ys m = inr m
  mem-append a (x ∷ xs) ys (head e) = inl (head e)
  mem-append a (x ∷ xs) ys (tail m) = elim (mem-append a xs ys m) [
    | inl l ↦ inl (tail l)
    | inr r ↦ inr r
  ]

  pub mem_left : (a : A) (xs ys : List A) → Memᴰ a xs → Memᴰ a (xs ++ ys)
  mem_left a [] ys m = elim m [ ]
  mem_left a (x ∷ xs) ys (head e) = head e
  mem_left a (x ∷ xs) ys (tail m) = tail (mem_left a xs ys m)

  pub mem_right : (a : A) (xs ys : List A) → Memᴰ a ys → Memᴰ a (xs ++ ys)
  mem_right a [] ys m = m
  mem_right a (x ∷ xs) ys m = tail (mem_right a xs ys m)

module _ {ℓ κ} {A : Type ℓ} {B : Type κ} where
  -- What nested loops append to one list.
  abbrev pub gather : (A → List B) → List A → List B
  gather f [] = []
  gather f (x ∷ xs) = f x ++ gather f xs

  pub gather-mem :
      (f : A → List B) (a : A) (b : B) (xs : List A)
      → Memᴰ a xs
      → Memᴰ b (f a)
      → Memᴰ b (gather f xs)
  gather-mem f a b [] h m = elim h [ ]
  gather-mem f a b (x ∷ xs) (head e) m =
      mem_left b (f x) (gather f xs) (subst (λ c. Memᴰ b (f c)) e m)
  gather-mem f a b (x ∷ xs) (tail h) m = mem_right b (f x) (gather f xs) (gather-mem f a b xs h m)

  pub mem-gather :
      (f : A → List B) (b : B) (xs : List A)
      → Memᴰ b (gather f xs)
      → (a : A) × Memᴰ a xs × Memᴰ b (f a)
  mem-gather f b [] m = elim m [ ]
  mem-gather f b (x ∷ xs) m = elim (mem-append b (f x) (gather f xs) m) [
    | inl here ↦ (x, head refl, here)
    | inr later ↦ let (a, h, n) = mem-gather f b xs later in (a, tail h, n)
  ]

-- Whether a text is one of a list.
abbrev pub contains_bytes : Bytes → List Bytes → Bool
contains_bytes s [] = false
contains_bytes s (t ∷ ts) = t =ᵇ s || contains_bytes s ts

pub contains_bytes→mem : (s : Bytes) (ts : List Bytes) → contains_bytes s ts ≡ true → Memᴰ s ts
contains_bytes→mem s [] h = cc
contains_bytes→mem s (t ∷ ts) h = elim (Bool-cases (t =ᵇ s)) [
  | inl e ↦ head (sym ((=ᵇ_iff t s).0 e))
  | inr ne ↦ tail (contains_bytes→mem s ts (ground arith))
]

pub mem→contains_bytes : (s : Bytes) (ts : List Bytes) → Memᴰ s ts → contains_bytes s ts ≡ true
mem→contains_bytes s [] m = elim m [ ]
mem→contains_bytes s (t ∷ ts) (head e) = ground (arith, =ᵇ_iff t s)
mem→contains_bytes s (t ∷ ts) (tail m) = ground (arith, mem→contains_bytes s ts m)

abbrev pub single {ℓ} : {A : Type ℓ} → A → List A
single x = x ∷ []

pub mem-single {ℓ} : {A : Type ℓ} (a b : A) → Memᴰ a (single b) → a ≡ b
mem-single a b (head e) = e
mem-single a b (tail m) = elim m [ ]

abbrev pub is_there {ℓ} : {V : Type ℓ} → Option V → Bool
is_there none = false
is_there (some value) = true

pub lookup-keys {ℓ} :
    {V : Type ℓ} (key : Bytes) (m : Dict V) → is_there (lookup key m) ≡ contains_bytes key (keys m)
lookup-keys key [] = refl
lookup-keys key ((k, v) ∷ m) = ground (arith, lookup-keys key m)

pub contains_bytes-append :
    (s : Bytes) (ts us : List Bytes)
    → contains_bytes s (ts ++ us) ≡ (contains_bytes s ts || contains_bytes s us)
contains_bytes-append s [] us = refl
contains_bytes-append s (t ∷ ts) us = ground (arith, contains_bytes-append s ts us)

-- No text stands twice.
abbrev pub AreDistinctTexts : List Bytes → Type 0
AreDistinctTexts [] = Unit
AreDistinctTexts (t ∷ ts) = (contains_bytes t ts ≡ false) × AreDistinctTexts ts

pub AreDistinctTexts-concat :
    (ts : List Bytes) (t : Bytes)
    → AreDistinctTexts ts
    → contains_bytes t ts ≡ false
    → AreDistinctTexts (ts ++ t ∷ [])
AreDistinctTexts-concat [] t d h = (refl, tt)
AreDistinctTexts-concat (u ∷ ts) t d h = ground (
  arith,
  contains_bytes-append u ts (t ∷ []),
  AreDistinctTexts-concat ts t d.1,
  =ᵇ_iff t u,
  =ᵇ_iff u t,
)
