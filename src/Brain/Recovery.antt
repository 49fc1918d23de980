-- ===== src/Brain/Recovery.antt =====
-- modules/brain/src/recovery.cpp: what is suggested for a failure. Numbers are written and read by
-- the standard library (`Numbers`): `stoll`, `stoi` and `stod` give `none` where they throw, and a
-- suggestion that throws is `none`. A confidence is an exact ratio where the code has a double.
-- The store and the pattern matcher answer through `Sources`; a row of the store has every column.
pub mod Params
pub mod Machine
pub mod Suggest
pub mod Execute
pub mod Auto
mod Examples
use nazg.Base.{
  ℕ, ◌+◌, ◌*◌, Bool, true, false, Option, none, some, List, [], ◌∷◌, ◌++◌, ◌&&◌, ◌||◌, not, Bytes,
  codes, ◌=ᵇ◌, ◌==◌, ltb, leb, is_empty, take, min, if◌then◌else◌,
}
use nazg.Base.Dict.{Dict, insert}
use nazg.Base.Find.{occurs}
use nazg.Brain.Similarity.{Ratio, ratio}
use nazg.Brain.Recovery.Params.{json_to_params}

-- `std::to_string`, `std::stoll` and `std::stoi` for the numbers that are not negative, `std::stod`.
pub record Numbers : Type 0 where
  pub to_string : ℕ → Bytes
  pub stoll : Bytes → Option ℕ
  pub stoi : Bytes → Option ℕ
  pub stod : Bytes → Option Ratio

pub data ActionType : Type 0 where
  restore_files restore_snapshot modify_config downgrade_dependency : ActionType
  restore_environment clean_build custom_command : ActionType

pub data RiskLevel : Type 0 where
  low medium high : RiskLevel

pub record RecoveryAction : Type 0 where
  pub id : ℕ
  pub type : ActionType
  pub description : Bytes
  pub params : Dict Bytes
  pub confidence_score : Ratio
  pub success_count : ℕ
  pub failure_count : ℕ
  pub avg_execution_time_ms : ℕ
  pub requires_confirmation : Bool
  pub risk_level : RiskLevel

-- `RecoveryAction action;` with its type and description.
abbrev pub new_action : ActionType → Bytes → RecoveryAction
new_action type description = record {
  id = 0;
  type = type;
  description = description;
  params = [];
  confidence_score = ratio 0 1;
  success_count = 0;
  failure_count = 0;
  avg_execution_time_ms = 0;
  requires_confirmation = true;
  risk_level = medium;
}

abbrev pub action_type_to_string : ActionType → Bytes
action_type_to_string restore_files = codes "restore_files"
action_type_to_string restore_snapshot = codes "restore_snapshot"
action_type_to_string modify_config = codes "modify_config"
action_type_to_string downgrade_dependency = codes "downgrade_dep"
action_type_to_string restore_environment = codes "restore_env"
action_type_to_string clean_build = codes "clean_build"
action_type_to_string custom_command = codes "custom_command"

abbrev pub string_to_action_type : Bytes → ActionType
string_to_action_type str =
    if str =ᵇ codes "restore_files"
    then restore_files
    else if str =ᵇ codes "restore_snapshot"
    then restore_snapshot
    else if str =ᵇ codes "modify_config"
    then modify_config
    else if str =ᵇ codes "downgrade_dep"
    then downgrade_dependency
    else if str =ᵇ codes "restore_env"
    then restore_environment
    else if str =ᵇ codes "clean_build"
    then clean_build
    else custom_command

abbrev pub with_reason : Bytes → Bytes → Bytes
with_reason description reason =
    if is_empty reason then description else description ++ (codes " (" ++ (reason ++ codes ")"))

abbrev pub create_restore_files_action : Numbers → ℕ → Bytes → RecoveryAction
create_restore_files_action nums snapshot_id reason =
    record (new_action restore_files
      (with_reason (codes "Restore files from snapshot #" ++ nums.to_string snapshot_id) reason)) {
        params = insert (codes "snapshot_id") (nums.to_string snapshot_id) [];
        requires_confirmation = true;
        risk_level = low;
      }

abbrev pub create_restore_snapshot_action : Numbers → ℕ → Bytes → RecoveryAction
create_restore_snapshot_action nums snapshot_id reason =
    record (new_action restore_snapshot (
      with_reason (codes "Restore workspace from snapshot #" ++ nums.to_string snapshot_id)
        reason)) {
          params = insert (codes "snapshot_id") (nums.to_string snapshot_id) [];
          requires_confirmation = true;
          risk_level = medium;
        }

abbrev pub create_clean_build_action : Bytes → RecoveryAction
create_clean_build_action reason =
    record (new_action clean_build
      (with_reason (codes "Clean build directory and rebuild") reason)) {
        requires_confirmation = false;
        risk_level = low;
      }

-- The columns of a row of the failures that are read.
pub record Failure : Type 0 where
  pub error_signature : Bytes
  pub error_message : Bytes
  pub failure_type : Bytes
  pub before_snapshot_id : Bytes
  pub resolved : Bytes
  pub resolution_type : Bytes
  pub resolution_snapshot_id : Bytes

pub record ActionRow : Type 0 where
  pub id : Bytes
  pub action_type : Bytes
  pub action_description : Bytes
  pub action_params_json : Bytes
  pub success_count : Bytes
  pub failure_count : Bytes
  pub avg_execution_time_ms : Bytes
  pub confidence_score : Bytes
  pub requires_user_confirmation : Bytes

-- What is read of a pattern and of a similar failure.
pub record KnownPattern : Type 0 where
  pub id : ℕ
  pub occurrence_count : ℕ
  pub failure_ids : List ℕ

pub record Similar : Type 0 where
  pub failure_id : ℕ
  pub similarity_score : Ratio
  pub was_resolved : Bool
  pub resolution_type : Bytes

-- The answers of the store and of the pattern matcher, if there is one, for a project, and
-- `std::sort` by the confidence.
pub record Sources : Type 0 where
  pub has_store : Bool
  pub has_matcher : Bool
  pub get_failure : ℕ → Option Failure
  pub matching_patterns : Failure → List KnownPattern
  pub get_pattern : ℕ → Option KnownPattern
  pub similar_failures : Failure → List Similar
  pub actions_for_pattern : ℕ → List ActionRow
  pub sort : List RecoveryAction → List RecoveryAction

infixl 5 ◌>>=◌
abbrev pub ◌>>=◌ {ℓ κ} : {A : Type ℓ} {B : Type κ} → Option A → (A → Option B) → Option B
none >>= k = none
some a >>= k = k a

pub parse_action : Numbers → ActionRow → Option RecoveryAction
parse_action nums row = do
  id ← nums.stoll row.id
  successes ← nums.stoi row.success_count
  failures ← nums.stoi row.failure_count
  time ← nums.stoll row.avg_execution_time_ms
  confidence ← nums.stod row.confidence_score
  some (record {
    id = id;
    type = string_to_action_type row.action_type;
    description = row.action_description;
    params = json_to_params row.action_params_json;
    confidence_score = confidence;
    success_count = successes;
    failure_count = failures;
    avg_execution_time_ms = time;
    requires_confirmation = row.requires_user_confirmation =ᵇ codes "1";
    risk_level = medium;
  })

abbrev pub parse_actions : Numbers → List ActionRow → Option (List RecoveryAction)
parse_actions nums [] = some []
parse_actions nums (row ∷ rows) = do
  action ← parse_action nums row
  actions ← parse_actions nums rows
  some (action ∷ actions)
