-- ===== src/Brain/Detector/Frameworks.antt =====
-- modules/brain/src/detector.cpp: `detect_test_framework` and `detect`, and `store_facts` with the
-- facts that it writes.
pub mod Python
use nazg.Base.{
  ℕ, Bool, true, false, Option, none, some, List, [], ◌∷◌, ◌++◌, ◌&&◌, ◌||◌, not, Bytes, codes,
  ◌=ᵇ◌, is_empty, if◌then◌else◌,
}
use nazg.Brain.Detector.{
  Tree, ProjectInfo, detect_language, detect_build_system, language_name, file_contains,
  file_exists_in_tree, has_files_matching,
}

abbrev pub find_directory : Tree → List Bytes → Bytes
find_directory tree [] = []
find_directory tree (candidate ∷ candidates) =
    if tree.exists candidate && tree.is_directory candidate
    then candidate
    else find_directory tree candidates

abbrev pub with_framework : Bytes → ProjectInfo → ProjectInfo
with_framework name info = record info { test_framework = name; has_tests = true }

-- A step that finds a framework if the test holds.
abbrev pub when : Bool → Bytes → ProjectInfo → ProjectInfo
when test name info = if test then with_framework name info else info

abbrev pub detect_cpp_tests : Tree → ProjectInfo → ProjectInfo
detect_cpp_tests tree info =
    let cmake_path = codes "CMakeLists.txt" in
    when (file_exists_in_tree tree (codes "catch.hpp") || file_exists_in_tree tree (codes "catch2"))
      (codes "catch2")
      (when
        (info.has_cmake
          && (file_contains tree cmake_path (codes "GTest::")
              || file_contains tree cmake_path (codes "gtest")))
        (codes "gtest")
        (when
          (info.has_cmake
            && (file_contains tree cmake_path (codes "enable_testing")
                || file_contains tree cmake_path (codes "add_test")))
          (codes "ctest") info))

abbrev pub detect_python_tests : Tree → ProjectInfo → ProjectInfo
detect_python_tests tree info =
    if tree.exists (codes "pytest.ini") || tree.exists (codes "pyproject.toml")
    then with_framework (codes "pytest") info
    else when
        (has_files_matching tree (codes "test_*.py") || has_files_matching tree (codes "*_test.py"))
        (codes "pytest") info

abbrev pub detect_javascript_tests : Tree → ProjectInfo → ProjectInfo
detect_javascript_tests tree info =
    if file_contains tree (codes "package.json") (codes "jest")
    then with_framework (codes "jest") info
    else when (file_contains tree (codes "package.json") (codes "vitest")) (codes "vitest") info

unfoldable pub detect_test_framework : Tree → ProjectInfo → ProjectInfo
detect_test_framework tree info =
    let found : ProjectInfo = record info {
      test_directory =
          find_directory tree
            (codes "tests" ∷ codes "test" ∷ codes "__tests__" ∷ codes "spec" ∷ []);
    } in
    if info.language =ᵇ codes "cpp" || info.language =ᵇ codes "c"
    then detect_cpp_tests tree found
    else if info.language =ᵇ codes "python"
    then detect_python_tests tree found
    else if info.language =ᵇ codes "rust" && info.build_system =ᵇ codes "cargo"
    then with_framework (codes "cargo") found
    else if info.language =ᵇ codes "javascript"
    then detect_javascript_tests tree found
    else if info.language =ᵇ codes "go" && has_files_matching tree (codes "*_test.go")
    then with_framework (codes "go") found
    else found

abbrev pub tool : Bool → Bytes → List Bytes
tool has name = if has then name ∷ [] else []

unfoldable pub detect : Tree → ProjectInfo
unfolding detect_language detect_build_system detect_test_framework
detect tree =
    let has_cmake : Bool = tree.exists (codes "CMakeLists.txt") in
    let has_git : Bool = tree.exists (codes ".git") in
    let has_makefile : Bool = tree.exists (codes "Makefile") in
    let info : ProjectInfo = detect_test_framework tree (record {
      root_path = tree.root_path;
      language = language_name (detect_language tree);
      build_system = detect_build_system tree;
      scm = if has_git then codes "git" else codes "none";
      has_cmake = has_cmake;
      has_git = has_git;
      has_makefile = has_makefile;
      tools = [];
      has_tests = false;
      test_framework = [];
      test_directory = [];
    }) in
    record info {
      tools =
          tool has_cmake (codes "cmake")
          ++ (tool has_makefile (codes "make") ++ tool has_git (codes "git"));
    }

abbrev pub joined : List Bytes → Bytes
joined [] = []
joined (name ∷ []) = name
joined (name ∷ next ∷ names) = name ++ (b',' ∷ joined (next ∷ names))

abbrev pub flag : Bool → Bytes
flag b = if b then codes "true" else codes "false"

-- The facts that are set, in their order.
unfoldable pub store_facts : ProjectInfo → List (Bytes × Bytes)
store_facts info =
    (codes "language", info.language)
    ∷ (codes "build_system", info.build_system)
    ∷ (codes "scm", info.scm)
    ∷ (codes "has_cmake", flag info.has_cmake)
    ∷ (codes "has_git", flag info.has_git)
    ∷ ((if is_empty (joined info.tools) then [] else (codes "tools", joined info.tools) ∷ [])
        ++ (if info.has_tests
            then (codes "has_tests", codes "true")
              ∷ (codes "test_framework", info.test_framework)
              ∷ (if is_empty info.test_directory
                  then []
                  else (codes "test_directory", info.test_directory) ∷ [])
            else []))
