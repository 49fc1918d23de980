-- ===== src/Base/Getline.antt =====
-- `std::getline`: the lines of a text. A last line without its end counts, an empty one does not.
use Prim.Native.Nat.{ℕ}
use mathlib.Core.Path.{◌≡◌, refl}
use mathlib.Core.Logic.{◌⊎◌, inl, inr}
use mathlib.Core.Bool.{false}
use mathlib.Core.List.{List, [], ◌∷◌, ◌++◌}
use native.Mathlib.Omega.{arith}
use nazg.Base.Lists.{contains}
use nazg.Base.Tests.{◌==◌, if◌then◌else◌, Bool-cases}
use nazg.Base.Text.{Bytes}

abbrev pub add_to_first : ℕ → List Bytes → List Bytes
add_to_first c [] = (c ∷ []) ∷ []
add_to_first c (line ∷ lines) = (c ∷ line) ∷ lines

unfoldable pub split_lines : Bytes → List Bytes
split_lines [] = []
split_lines (c ∷ s) =
    let rest = split_lines s in if c == b'\n' then [] ∷ rest else add_to_first c rest

-- The lines of a text that is ended by a line end.
abbrev pub ended_lines : Bytes → List Bytes
ended_lines s = split_lines (s ++ b'\n' ∷ [])

-- A text without a line end is one line.
pub split_lines-line :
    (s t : Bytes) → contains b'\n' s ≡ false → split_lines (s ++ b'\n' ∷ t) ≡ s ∷ split_lines t
unfolding split_lines
split_lines-line [] t h = refl
split_lines-line (c ∷ s) t h = ground (arith, split_lines-line s t)

ended_lines-cons : (s : Bytes) → (x : Bytes) × (xs : List Bytes) × (ended_lines s ≡ x ∷ xs)
unfolding split_lines
ended_lines-cons [] = ([], [], refl)
ended_lines-cons (c ∷ s) =
    let (x, xs, e) = ended_lines-cons s in
    elim (Bool-cases (c == b'\n')) [
      | inl ends ↦ ([], ended_lines s, rw ends refl)
      | inr goes ↦ (c ∷ x, xs, rw (goes, e) refl)
    ]

-- A line end between two texts.
pub split_lines-append :
    (s t : Bytes) → split_lines (s ++ b'\n' ∷ t) ≡ ended_lines s ++ split_lines t
unfolding split_lines
split_lines-append [] t = refl
split_lines-append (c ∷ s) t =
    let (x, xs, e) = ended_lines-cons s in ground (arith, split_lines-append s t, e)

-- The line end adds nothing, or an empty line.
pub ended_lines-cases :
    (s : Bytes) → (ended_lines s ≡ split_lines s) ⊎ (ended_lines s ≡ split_lines s ++ [] ∷ [])
unfolding split_lines
ended_lines-cases [] = inr refl
ended_lines-cases (c ∷ s) = elim (Bool-cases (c == b'\n')) [
  | inl ends ↦ elim (ended_lines-cases s) [
    | inl e ↦ inl (ground (arith, e, ends))
    | inr e ↦ inr (ground (arith, e, ends))
  ]
  | inr goes ↦ elim (ended_lines-cases s) [
    | inl e ↦ inl (ground (arith, e, goes))
    | inr e ↦ longer (split_lines s) refl e
  ]
]
  where
    longer :
        (xs : List Bytes)
        → split_lines s ≡ xs
        → ended_lines s ≡ split_lines s ++ [] ∷ []
        → (ended_lines (c ∷ s) ≡ split_lines (c ∷ s))
          ⊎ (ended_lines (c ∷ s) ≡ split_lines (c ∷ s) ++ [] ∷ [])
    longer [] h e = elim (Bool-cases (c == b'\n')) [
      | inl ends ↦ inr (ground (arith, e, ends, h))
      | inr goes ↦ inl (ground (arith, e, goes, h))
    ]
    longer (x ∷ xs) h e = inr (ground (arith, e, h))
