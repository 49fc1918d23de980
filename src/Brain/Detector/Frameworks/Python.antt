-- ===== src/Brain/Detector/Frameworks/Python.antt =====
-- The tests of a Python project that are named `test_` and then something else.
use nazg.Base.{◌≡◌, refl, ap, Bool, false, List, [], ◌∷◌, ◌||◌, Bytes, codes, ◌=ᵇ◌, All, arith}
use nazg.Brain.Detector.{
  Tree, Entry, python, ends_with, name_matches, any_matches, detect_language, ProjectInfo,
}
use nazg.Brain.Detector.Frameworks.{detect, detect_python_tests}

-- A name that ends in `_test.py`, or the text of the other pattern itself.
abbrev pub is_test_name : Bytes → Bool
is_test_name name = name =ᵇ codes "test_*.py" || ends_with (codes "_test.py") name

abbrev IsNoTest : Entry → Type 0
IsNoTest entry = is_test_name entry.filename ≡ false

no_match :
    (entries : List Entry)
    → All IsNoTest entries
    → (any_matches (codes "test_*.py") entries ≡ false)
      × (any_matches (codes "*_test.py") entries ≡ false)
unfolding name_matches
no_match [] h = (refl, refl)
no_match (entry ∷ entries) h = ground (arith, no_match entries h.1)

no_python_tests :
    (tree : Tree) (info : ProjectInfo)
    → All IsNoTest tree.entries
    → tree.exists (codes "pytest.ini") ≡ false
    → tree.exists (codes "pyproject.toml") ≡ false
    → detect_python_tests tree info ≡ info
no_python_tests tree info h i p = let (a, b) = no_match tree.entries h in rw (i, p, a, b) refl

-- In a Python project without `pytest.ini` and `pyproject.toml` no tests are found, if no file has a
-- name that ends in `_test.py` or is the text `test_*.py` itself, star included: files such as
-- `test_app.py` do not count.
pub detect-no_python_tests :
    (tree : Tree)
    → detect_language tree ≡ python
    → tree.exists (codes "pytest.ini") ≡ false
    → tree.exists (codes "pyproject.toml") ≡ false
    → All (λ (entry : Entry). is_test_name entry.filename ≡ false) tree.entries
    → (detect tree).has_tests ≡ false
unfolding detect
detect-no_python_tests tree e i p h =
    rw e (ap (λ (info : ProjectInfo). info.has_tests) (no_python_tests tree _ h i p))
