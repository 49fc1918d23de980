-- ===== src/Brain/Detector.antt =====
-- modules/brain/src/detector.cpp: what kind of project stands in a directory. The file system is a
-- parameter, a `Tree`; names are relative to the root of the project. Logging is left out.
pub mod Names
pub mod Majority
pub mod Frameworks
use nazg.Base.{
  ℕ, ◌+◌, ◌-◌, Bool, true, false, Option, none, some, List, [], ◌∷◌, ◌++◌, ◌&&◌, ◌||◌, not, Bytes,
  codes, ◌=ᵇ◌, ◌==◌, ltb, leb, length, drop, take, back, drop_last, is_empty, if◌then◌else◌,
}
use nazg.Base.Find.{occurs}

pub record Entry : Type 0 where
  pub path : Bytes
  pub filename : Bytes
  pub extension : Bytes
  pub is_regular_file : Bool

-- `entries` are those that the recursive iteration gives, before it throws if it `throws`; `lines`
-- are those of a file, if it opens.
pub record Tree : Type 0 where
  pub root_path : Bytes
  pub exists : Bytes → Bool
  pub is_directory : Bytes → Bool
  pub lines : Bytes → Option (List Bytes)
  pub entries : List Entry
  pub throws : Bool

pub record ProjectInfo : Type 0 where
  pub root_path : Bytes
  pub language : Bytes
  pub build_system : Bytes
  pub scm : Bytes
  pub has_cmake : Bool
  pub has_git : Bool
  pub has_makefile : Bool
  pub tools : List Bytes
  pub has_tests : Bool
  pub test_framework : Bytes
  pub test_directory : Bytes

abbrev pub occurs_one : List Bytes → Bytes → Bool
occurs_one [] s = false
occurs_one (p ∷ ps) s = occurs p s || occurs_one ps s

unfoldable pub is_ignored : Bytes → Bool
is_ignored path =
    occurs_one
      (codes "/build/"
        ∷ codes "/node_modules/"
        ∷ codes "/.git/"
        ∷ codes "/target/"
        ∷ codes "/dist/"
        ∷ codes "/__pycache__/"
        ∷ codes "/.cache/"
        ∷ [])
      path

-- `ext_counts[ext]`
abbrev pub count_ext : Bytes → List Entry → ℕ
count_ext ext [] = 0
count_ext ext (entry ∷ entries) =
    (if (entry.is_regular_file && not (is_ignored entry.path))
        && (not (is_empty entry.extension) && entry.extension =ᵇ ext)
      then 1
      else 0)
    + count_ext ext entries

abbrev pub count_all : List Bytes → List Entry → ℕ
count_all [] entries = 0
count_all (ext ∷ exts) entries = count_ext ext entries + count_all exts entries

pub record Counts : Type 0 where
  pub cpp_count : ℕ
  pub c_count : ℕ
  pub py_count : ℕ
  pub rs_count : ℕ
  pub go_count : ℕ
  pub js_count : ℕ

pub data Language : Type 0 where
  cpp c python rust go javascript unknown : Language

unfoldable pub count_languages : List Entry → Counts
count_languages entries = record {
  cpp_count =
      count_all
        (codes ".cpp" ∷ codes ".cc" ∷ codes ".cxx" ∷ codes ".hpp" ∷ codes ".hh" ∷ codes ".hxx" ∷ [])
        entries;
  c_count = count_all (codes ".c" ∷ codes ".h" ∷ []) entries;
  py_count = count_ext (codes ".py") entries;
  rs_count = count_ext (codes ".rs") entries;
  go_count = count_ext (codes ".go") entries;
  js_count = count_all (codes ".js" ∷ codes ".ts" ∷ codes ".jsx" ∷ codes ".tsx" ∷ []) entries;
}

-- One `if` of the choice, on `max_count` and `language`.
abbrev pub consider : Bool → ℕ → Language → ℕ × Language → ℕ × Language
consider also count language (max_count, best) =
    if ltb max_count count && also then (count, language) else (max_count, best)

unfoldable pub choose_language : Counts → Language
choose_language counts =
    (consider true counts.js_count javascript (
      consider true counts.go_count go (
        consider true counts.rs_count rust (
          consider true counts.py_count python (
            consider (ltb counts.cpp_count counts.c_count) counts.c_count c
              (consider true counts.cpp_count cpp (0, unknown))))))).1

unfoldable pub detect_language : Tree → Language
unfolding count_languages choose_language
detect_language tree =
    if tree.throws then unknown else choose_language (count_languages tree.entries)

abbrev pub language_name : Language → Bytes
language_name cpp = codes "cpp"
language_name c = codes "c"
language_name python = codes "python"
language_name rust = codes "rust"
language_name go = codes "go"
language_name javascript = codes "javascript"
language_name unknown = codes "unknown"

unfoldable pub detect_build_system : Tree → Bytes
detect_build_system tree =
    if tree.exists (codes "CMakeLists.txt")
    then codes "cmake"
    else if tree.exists (codes "Makefile")
    then codes "make"
    else if tree.exists (codes "Cargo.toml")
    then codes "cargo"
    else if tree.exists (codes "package.json")
    then codes "npm"
    else if tree.exists (codes "build.gradle")
    then codes "gradle"
    else codes "unknown"

abbrev pub any_occurs : Bytes → List Bytes → Bool
any_occurs pattern [] = false
any_occurs pattern (line ∷ lines) = occurs pattern line || any_occurs pattern lines

abbrev pub file_contains : Tree → Bytes → Bytes → Bool
file_contains tree path pattern = elim (tree.lines path) [
  | none ↦ false
  | some lines ↦ any_occurs pattern lines
]

-- Found before an exception, a name counts.
abbrev pub name_occurs : Bytes → List Entry → Bool
name_occurs filename [] = false
name_occurs filename (entry ∷ entries) =
    (entry.is_regular_file && occurs filename entry.filename) || name_occurs filename entries

abbrev pub file_exists_in_tree : Tree → Bytes → Bool
file_exists_in_tree tree filename = name_occurs filename tree.entries

-- `compare(size - suffix.size(), suffix.size(), suffix) == 0`
abbrev pub ends_with : Bytes → Bytes → Bool
ends_with suffix name =
    leb (length suffix) (length name) && drop (length name - length suffix) name =ᵇ suffix

abbrev pub front : Bytes → ℕ
front [] = 0
front (x ∷ s) = x

unfoldable pub name_matches : Bytes → Bytes → Bool
name_matches pattern filename =
    if front pattern == b'*' && not (back pattern == b'*')
    then ends_with (drop 1 pattern) filename
    else if not (front pattern == b'*') && back pattern == b'*'
    then take (length (drop_last pattern)) filename =ᵇ drop_last pattern
    else filename =ᵇ pattern

abbrev pub any_matches : Bytes → List Entry → Bool
any_matches pattern [] = false
any_matches pattern (entry ∷ entries) =
    ((entry.is_regular_file
        && not (
            occurs_one (codes "/build/" ∷ codes "/node_modules/" ∷ codes "/.git/" ∷ []) entry.path))
      && name_matches pattern entry.filename)
    || any_matches pattern entries

abbrev pub has_files_matching : Tree → Bytes → Bool
has_files_matching tree pattern = any_matches pattern tree.entries
