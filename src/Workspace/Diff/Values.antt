-- ===== src/Workspace/Diff/Values.antt =====
-- modules/workspace/src/manager.cpp, `compute_snapshot_diff`: the changed settings of the
-- environment and of the system.
use nazg.Base.{
  ◌≡◌, refl, Bool, true, Option, none, some, List, [], ◌∷◌, ◌++◌, ◌||◌, Bytes, codes, ◌=ᵇ◌, =ᵇ_iff,
  =ᵇ_refl, arith, if◌then◌else◌,
}
use nazg.Base.Dict.{Dict, lookup, insert, keys, lookup-insert}
use nazg.Base.Members.{contains_bytes, is_there, lookup-keys}
use nazg.Workspace.Diff.{value_or_missing, compare_keys, add_keys, compare_values}

-- The text that is reported for a key, if one is.
abbrev pub value_change : Option Bytes → Option Bytes → Option Bytes
value_change old new =
    if value_or_missing old =ᵇ value_or_missing new
    then none
    else some (value_or_missing old ++ codes " -> " ++ value_or_missing new)

abbrev or_before : Option Bytes → Option Bytes → Option Bytes
or_before none before = before
or_before (some change) before = some change

lookup-compare_keys :
    (old new : Dict Bytes) (key : Bytes) (ks : List Bytes) (changes : Dict Bytes)
    → lookup key (compare_keys old new ks changes) ≡ (
        if contains_bytes key ks
        then or_before (value_change (lookup key old) (lookup key new)) (lookup key changes)
        else lookup key changes)
lookup-compare_keys old new key [] changes = refl
lookup-compare_keys old new key (k ∷ ks) changes =
    let old_val = value_or_missing (lookup k old) in
    let new_val = value_or_missing (lookup k new) in
    let written = old_val ++ codes " -> " ++ new_val in
    ground (
      arith,
      =ᵇ_iff k key,
      lookup-insert k key written changes,
      lookup-compare_keys old new key ks
          (if old_val =ᵇ new_val then changes else insert k written changes),
    )

add_keys-is_there :
    (key : Bytes) (m : Dict Bytes) (ks : Dict Bool)
    → is_there (lookup key (add_keys m ks)) ≡ (is_there (lookup key m) || is_there (lookup key ks))
add_keys-is_there key [] ks = refl
add_keys-is_there key ((k, v) ∷ m) ks =
    ground (arith, add_keys-is_there key m (insert k true ks), lookup-insert k key true ks)

-- A key is reported exactly if its values differ, with `(missing)` in place of a value that is not
-- there, and with the old value and the new one.
pub lookup-compare_values :
    (old new : Dict Bytes) (key : Bytes)
    → lookup key (compare_values old new) ≡ value_change (lookup key old) (lookup key new)
unfolding compare_values
lookup-compare_values old new key = ground (
  arith,
  lookup-compare_keys old new key (keys (add_keys new (add_keys old []))) [],
  lookup-keys key (add_keys new (add_keys old [])),
  add_keys-is_there key new (add_keys old []),
  add_keys-is_there key old [],
  =ᵇ_refl (codes "(missing)"),
)
