-- ===== src/Base/Words.antt =====
-- `stream >> word`: the words of a text, which are its longest parts without white space.
use Prim.Native.Nat.{ℕ}
use mathlib.Core.Path.{◌≡◌, refl, ap, ◌∙◌}
use mathlib.Core.Logic.{inl, inr}
use mathlib.Core.Bool.{Bool, true, false, not, ◌&&◌, ◌||◌}
use mathlib.Core.List.{List, [], ◌∷◌, ◌++◌}
use native.Mathlib.Omega.{arith}
use nazg.Base.Getline.{add_to_first}
use nazg.Base.Tests.{◌==◌, leb, if◌then◌else◌, Bool-cases}
use nazg.Base.Text.{Bytes, is_empty}

-- `std::isspace` in the classic locale.
abbrev pub is_whitespace : ℕ → Bool
is_whitespace c = c == b' ' || (leb 9 c && leb c 13)

-- The text goes on with a byte of a word.
abbrev pub is_in_word : Bytes → Bool
is_in_word [] = false
is_in_word (c ∷ s) = not (is_whitespace c)

unfoldable pub words : Bytes → List Bytes
words [] = []
words (c ∷ s) =
    let rest = words s in
    if is_whitespace c then rest else if is_in_word s then add_to_first c rest else (c ∷ []) ∷ rest

-- A word: a text that is not empty and holds no white space.
abbrev pub all_in_word : Bytes → Bool
all_in_word [] = true
all_in_word (c ∷ s) = not (is_whitespace c) && all_in_word s

abbrev pub is_word : Bytes → Bool
is_word s = not (is_empty s) && all_in_word s

-- A word in front of a space is the first word.
pub words-word : (w s : Bytes) → is_word w ≡ true → words (w ++ b' ' ∷ s) ≡ w ∷ words s
unfolding words
words-word [] s h = cc
words-word (c ∷ []) s h = ground arith
words-word (c ∷ d ∷ w) s h = ground (arith, words-word (d ∷ w) s)

-- Words joined by single spaces, with one behind the last.
abbrev pub join_words : List Bytes → Bytes
join_words [] = []
join_words (w ∷ ws) = w ++ b' ' ∷ join_words ws

abbrev pub AreWords : List Bytes → Type 0
AreWords [] = Unit
AreWords (w ∷ ws) = (is_word w ≡ true) × AreWords ws

pub words-join_words : (ws : List Bytes) → AreWords ws → words (join_words ws) ≡ ws
words-join_words [] h = unfold words in refl
words-join_words (w ∷ ws) h =
    words-word w (join_words ws) h.0 ∙ ap (λ r. w ∷ r) (words-join_words ws h.1)

add_to_first-AreWords :
    (c : ℕ) (ws : List Bytes) → is_whitespace c ≡ false → AreWords ws → AreWords (add_to_first c ws)
add_to_first-AreWords c [] h a = ground arith
add_to_first-AreWords c (w ∷ ws) h a = ground arith

-- What is read consists of words.
pub words-AreWords : (s : Bytes) → AreWords (words s)
unfolding words
words-AreWords [] = tt
words-AreWords (c ∷ s) = elim (Bool-cases (is_whitespace c)) [
  | inl space ↦ rw space (words-AreWords s)
  | inr letter ↦ elim (Bool-cases (is_in_word s)) [
    | inl more ↦ rw (letter, more) (add_to_first-AreWords c (words s) letter (words-AreWords s))
    | inr last ↦ rw (letter, last) (ground arith, words-AreWords s)
  ]
]
