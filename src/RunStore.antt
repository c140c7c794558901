-- ===== src/RunStore.antt =====
-- backend/voice_console/run_store.py: the SQLite metadata store of conversations and runs, as two
-- tables whose rows stand in the order of their insertion. A method takes the readings of the clock
-- that it makes, and returns the store with its result. SQLite's own errors are `integrity_error`.
pub mod Sessions
pub mod Runs
pub mod Updates
pub mod Exclusion
pub mod Ownership
pub mod Examples
use hermes_voice_console.Prelude.{
  ℕ, Bool, true, false, Option, none, some, List, [], Text, text_Eq, ◌==◌, not, Result,
}

-- `ConnectionRunStore`
pub record ConnectionRunStore : Type 0 where
  pub active_run_id : Option Text

pub started : ConnectionRunStore → Text → ConnectionRunStore
started s run_id = record s { active_run_id = some run_id }

-- `a == b`, where either may be `None`
abbrev pub same_text : Option Text → Option Text → Bool
same_text none none = true
same_text (some a) (some b) = a == b
same_text _ _ = false

pub finished : ConnectionRunStore → Option Text → ConnectionRunStore
finished s none = record s { active_run_id = none }
finished s (some run_id) = elim (same_text (some run_id) s.active_run_id) [
  | true ↦ record s { active_run_id = none }
  | false ↦ s
]

pub record SessionRecord : Type 0 where
  pub conversation_id : Text
  pub target_name : Text
  pub hermes_session_id : Text
  pub memory_session_key : Text
  pub owner_key : Text
  pub title : Text
  pub created_at : ℕ
  pub updated_at : ℕ

-- The values that the program writes to the column `status`.
pub data Status : Type 0 where
  submitting running waiting_for_approval acceptance_unknown unrecoverable : Status
  completed failed cancelled rejected : Status

-- The values that the program writes to the column `failure_category`.
pub data Failure : Type 0 where
  ambiguous_submission submission_failed run_unrecoverable target_failed : Failure
  owner_acknowledged owner_acknowledged_unrecoverable : Failure

pub record RunRecord : Type 0 where
  pub local_turn_id : Text
  pub run_id : Option Text
  pub target_name : Text
  pub conversation_id : Text
  pub hermes_session_id : Text
  pub memory_session_key : Text
  pub owner_key : Text
  pub turn_id : Text
  pub status : Status
  pub last_sequence : ℕ
  pub failure_category : Option Failure
  pub created_at : ℕ
  pub updated_at : ℕ
  pub terminal_at : Option ℕ

pub record ConsoleStore : Type 0 where
  pub sessions : List SessionRecord
  pub runs : List RunRecord

pub data StoreError : Type 0 where
  key_error value_error integrity_error : StoreError

-- A method that writes to the store and may raise.
abbrev pub Writing : Type 0 → Type 0
Writing A = ConsoleStore × Result StoreError A

-- `completed`, `failed`, `cancelled`, `rejected`
abbrev pub is_terminal : Status → Bool
is_terminal completed = true
is_terminal failed = true
is_terminal cancelled = true
is_terminal rejected = true
is_terminal _ = false

abbrev pub is_completed : Status → Bool
is_completed completed = true
is_completed _ = false

abbrev pub is_acceptance_unknown : Status → Bool
is_acceptance_unknown acceptance_unknown = true
is_acceptance_unknown _ = false

abbrev pub is_unrecoverable : Status → Bool
is_unrecoverable unrecoverable = true
is_unrecoverable _ = false

-- `not value`, for a text that may be `None`
abbrev pub is_falsy : Option Text → Bool
is_falsy none = true
is_falsy (some t) = t == []

-- `AND column = ?`, which is added only if the value is truthy
abbrev pub matches_if_given : Option Text → Text → Bool
matches_if_given none t = true
matches_if_given (some v) t = elim (v == []) [ true ↦ true | false ↦ t == v ]
