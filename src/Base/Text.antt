-- ===== src/Base/Text.antt =====
-- Texts as lists of bytes: the bytes of a literal, equality, trimming, cutting and unquoting.
use Prim.Native.Nat.{ℕ, ◌+◌}
use Prim.Native.Char.{code}
use Prim.Native.String.{String}
use mathlib.Core.Path.{◌≡◌, refl}
use mathlib.Core.Logic.{◌↔◌}
use mathlib.Core.Bool.{Bool, true, false, ◌&&◌, ◌||◌}
use mathlib.Core.List.{List, [], ◌∷◌, ◌++◌}
use mathlib.Core.Option.{Option, none, some}
use native.Mathlib.Omega.{arith}
use nazg.Base.Lists.{contains}
use nazg.Base.Tests.{◌==◌, leb, if◌then◌else◌}

abbrev pub Bytes : Type 0
Bytes = List ℕ

-- The bytes of an ASCII literal.
abbrev pub codes : String → Bytes
codes String.[] = []
codes (String.◌∷◌ c s) = code c ∷ codes s

infix 50 ◌=ᵇ◌
abbrev pub ◌=ᵇ◌ : Bytes → Bytes → Bool
[] =ᵇ [] = true
[] =ᵇ (y ∷ ys) = false
(x ∷ xs) =ᵇ [] = false
(x ∷ xs) =ᵇ (y ∷ ys) = (x == y) && (xs =ᵇ ys)

pub =ᵇ_iff : (s t : Bytes) → ((s =ᵇ t) ≡ true) ↔ (s ≡ t)
=ᵇ_iff [] [] = ground arith
=ᵇ_iff [] (y ∷ ys) = ground arith
=ᵇ_iff (x ∷ xs) [] = ground arith
=ᵇ_iff (x ∷ xs) (y ∷ ys) = ground (arith, =ᵇ_iff xs ys)

pub =ᵇ_refl : (s : Bytes) → (s =ᵇ s) ≡ true
=ᵇ_refl s = (=ᵇ_iff s s).1 refl

-- The text without the leading bytes that pass the test.
abbrev pub drop_front : (ℕ → Bool) → Bytes → Bytes
drop_front p [] = []
drop_front p (c ∷ s) = if p c then drop_front p s else c ∷ s

abbrev pub is_empty : Bytes → Bool
is_empty [] = true
is_empty (c ∷ s) = false

-- The text without the trailing bytes that pass the test.
abbrev pub drop_end : (ℕ → Bool) → Bytes → Bytes
drop_end p [] = []
drop_end p (c ∷ s) = let r = drop_end p s in if is_empty r && p c then [] else c ∷ r

-- The text before the first occurrence of a byte and the text behind it, if there is one.
abbrev pub cut_at : ℕ → Bytes → Option (Bytes × Bytes)
cut_at b [] = none
cut_at b (c ∷ s) =
    if c == b
    then some ([], s)
    else elim (cut_at b s) [ none ↦ none | some (before, behind) ↦ some (c ∷ before, behind) ]

-- A byte at the end of a text, 0 if there is none.
abbrev pub back : Bytes → ℕ
back [] = 0
back (c ∷ []) = c
back (c ∷ d ∷ s) = back (d ∷ s)

-- The text without its last byte.
abbrev pub drop_last : Bytes → Bytes
drop_last [] = []
drop_last (c ∷ []) = []
drop_last (c ∷ d ∷ s) = c ∷ drop_last (d ∷ s)

-- The inside of a text that stands between two quotes of one kind, and any other text as it is.
abbrev pub unquote : Bytes → Bytes
unquote [] = []
unquote (c ∷ []) = c ∷ []
unquote (c ∷ d ∷ s) =
    if (c == b'"' && back (d ∷ s) == b'"') || (c == b'\'' && back (d ∷ s) == b'\'')
    then drop_last (d ∷ s)
    else c ∷ d ∷ s

pub back-concat : (s : Bytes) (c : ℕ) → back (s ++ c ∷ []) ≡ c
back-concat [] c = refl
back-concat (d ∷ []) c = refl
back-concat (d ∷ e ∷ s) c = back-concat (e ∷ s) c

pub drop_last-concat : (s : Bytes) (c : ℕ) → drop_last (s ++ c ∷ []) ≡ s
drop_last-concat [] c = refl
drop_last-concat (d ∷ []) c = refl
drop_last-concat (d ∷ e ∷ s) c = rw (drop_last-concat (e ∷ s) c)

pub drop_end-concat :
    (p : ℕ → Bool) (s : Bytes) (c : ℕ) → p c ≡ false → drop_end p (s ++ c ∷ []) ≡ s ++ c ∷ []
drop_end-concat p [] c h = ground arith
drop_end-concat p (d ∷ []) c h = ground arith
drop_end-concat p (d ∷ e ∷ s) c h = ground (arith, drop_end-concat p (e ∷ s) c h)

-- Trailing bytes that pass the test change nothing.
pub drop_end-drop :
    (p : ℕ → Bool) (s : Bytes) (c : ℕ) → p c ≡ true → drop_end p (s ++ c ∷ []) ≡ drop_end p s
drop_end-drop p [] c h = ground arith
drop_end-drop p (d ∷ s) c h = ground (arith, drop_end-drop p s c h)

pub drop_end_idem : (p : ℕ → Bool) (s : Bytes) → drop_end p (drop_end p s) ≡ drop_end p s
drop_end_idem p [] = refl
drop_end_idem p (c ∷ s) = ground (arith, drop_end_idem p s)

pub drop_front_idem : (p : ℕ → Bool) (s : Bytes) → drop_front p (drop_front p s) ≡ drop_front p s
drop_front_idem p [] = refl
drop_front_idem p (c ∷ s) = ground (arith, drop_front_idem p s)

-- `std::tolower` on an ASCII byte.
abbrev pub to_lower : ℕ → ℕ
to_lower c = if leb b'A' c && leb c b'Z' then c + 32 else c

pub cut_at-append :
    (b : ℕ) (k r : Bytes) → contains b k ≡ false → cut_at b (k ++ b ∷ r) ≡ some (k, r)
cut_at-append b [] r h = ground (arith)
cut_at-append b (c ∷ k) r h = ground (arith, cut_at-append b k r)
