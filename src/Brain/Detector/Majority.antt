-- ===== src/Brain/Detector/Majority.antt =====
-- The language of a project is one that has the most files.
use nazg.Base.{ℕ, ◌≤◌, ◌<◌, ◌≡◌, false, arith, ◌⊎◌, inl, inr}
use native.Mathlib.Decide.{dec_lt}
use nazg.Brain.Detector.{
  Tree, Counts, count_languages, Language, cpp, c, python, rust, go, javascript, unknown,
  choose_language, detect_language,
}

abbrev pub count_of : Counts → Language → ℕ
count_of counts cpp = counts.cpp_count
count_of counts c = counts.c_count
count_of counts python = counts.py_count
count_of counts rust = counts.rs_count
count_of counts go = counts.go_count
count_of counts javascript = counts.js_count
count_of counts unknown = 0

choose_language-most :
    (counts : Counts) (language : Language)
    → count_of counts language ≤ count_of counts (choose_language counts)
unfolding choose_language
choose_language-most counts cpp = ground arith
choose_language-most counts c = ground arith
choose_language-most counts python = ground arith
choose_language-most counts rust = ground arith
choose_language-most counts go = ground arith
choose_language-most counts javascript = ground arith
choose_language-most counts unknown = ground arith

choose_language_pos :
    (counts : Counts)
    → (choose_language counts ≡ unknown) ⊎ (0 < count_of counts (choose_language counts))
unfolding choose_language
choose_language_pos counts = elim (dec_lt 0 (count_of counts (choose_language counts))) [
  | yes p ↦ inr p
  | no p ↦ inl (ground arith)
]

-- If the directory can be read, no language has more files that count than the one that is
-- detected; and the language is unknown, or at least one file of it counts.
pub detect_language-most :
    (tree : Tree) (language : Language)
    → tree.throws ≡ false
    → (count_of (count_languages tree.entries) language
        ≤ count_of (count_languages tree.entries) (detect_language tree))
      × ((detect_language tree ≡ unknown)
          ⊎ (0 < count_of (count_languages tree.entries) (detect_language tree)))
unfolding detect_language
detect_language-most tree language h = rw h (
  choose_language-most (count_languages tree.entries) language,
  choose_language_pos (count_languages tree.entries),
)
