-- ===== src/Base/Split.antt =====
-- `std::getline` with a separator: the parts of a text between occurrences of a byte. A last part
-- without its separator counts, an empty one does not.
use Prim.Native.Nat.{ℕ}
use mathlib.Core.Path.{◌≡◌}
use mathlib.Core.Bool.{false}
use mathlib.Core.List.{List, [], ◌∷◌, ◌++◌}
use native.Mathlib.Omega.{arith}
use nazg.Base.Getline.{add_to_first}
use nazg.Base.Lists.{contains}
use nazg.Base.Tests.{◌==◌, if◌then◌else◌}
use nazg.Base.Text.{Bytes}

unfoldable pub split_on : ℕ → Bytes → List Bytes
split_on b [] = []
split_on b (c ∷ s) = let rest = split_on b s in if c == b then [] ∷ rest else add_to_first c rest

-- A part without the separator, in front of one.
pub split_on-part :
    (b : ℕ) (s t : Bytes) → contains b s ≡ false → split_on b (s ++ b ∷ t) ≡ s ∷ split_on b t
unfolding split_on
split_on-part b [] t h = ground arith
split_on-part b (c ∷ s) t h = ground (arith, split_on-part b s t)

-- The last part.
pub split_on-last :
    (b c : ℕ) (s : Bytes) → contains b (c ∷ s) ≡ false → split_on b (c ∷ s) ≡ (c ∷ s) ∷ []
unfolding split_on
split_on-last b c [] h = ground arith
split_on-last b c (d ∷ s) h = ground (arith, split_on-last b d s)
