-- ===== src/RunStore/Runs.antt =====
-- The runs of the store: the other methods of backend/voice_console/run_store.py.
use hermes_voice_console.Prelude.{
  ℕ, Bool, true, false, ◌&&◌, ◌||◌, not, Option, none, some, List, [], ◌∷◌, ◌++◌, Text, text_Eq,
  ◌==◌, ltb, Result, ok, err, if◌then◌else◌, first, any, select, update_where, count_where, latest,
  order_by,
}
use hermes_voice_console.RunStore.{
  SessionRecord, RunRecord, ConsoleStore, Status, failed, Failure, owner_acknowledged,
  owner_acknowledged_unrecoverable, StoreError, value_error, integrity_error, Writing, is_terminal,
  is_completed, is_acceptance_unknown, is_unrecoverable, is_falsy, matches_if_given,
}
use hermes_voice_console.RunStore.Sessions.{or_key_error}

-- `column = ?`, for a column that may be NULL
abbrev pub holds_text : Option Text → Text → Bool
holds_text none v = false
holds_text (some t) v = t == v

abbrev pub or_empty : Option Text → Text
or_empty none = []
or_empty (some t) = t

-- The row that `require_run` looks for: by the local turn id if that is given, else by the run id.
unfoldable pub is_run : Option Text → Option Text → Option Text → RunRecord → Bool
is_run local_turn_id run_id owner_key r =
    (if is_falsy local_turn_id
      then holds_text r.run_id (or_empty run_id)
      else r.local_turn_id == or_empty local_turn_id)
    && matches_if_given owner_key r.owner_key

unfoldable pub require_run :
    ConsoleStore → Option Text → Option Text → Option Text → Result StoreError RunRecord
unfolding is_run
require_run s local_turn_id run_id owner_key =
    if is_falsy local_turn_id && is_falsy run_id
    then err value_error
    else or_key_error (first (is_run local_turn_id run_id owner_key) s.runs)

-- The row that `insert_run` writes.
abbrev pub new_run : Text → Text → SessionRecord → Text → Status → ℕ → RunRecord
new_run local_turn_id target_name session turn_id status now = record {
  local_turn_id = local_turn_id;
  run_id = none;
  target_name = target_name;
  conversation_id = session.conversation_id;
  hermes_session_id = session.hermes_session_id;
  memory_session_key = session.memory_session_key;
  owner_key = session.owner_key;
  turn_id = turn_id;
  status = status;
  last_sequence = 0;
  failure_category = none;
  created_at = now;
  updated_at = now;
  terminal_at = none;
}

-- PRIMARY KEY(local_turn_id), and the foreign key to the conversation
unfoldable pub insert_run :
    ConsoleStore → Text → Text → SessionRecord → Text → Status → ℕ → Writing RunRecord
insert_run s local_turn_id target_name session turn_id status now =
    let row : RunRecord = new_run local_turn_id target_name session turn_id status now in
    let s' : ConsoleStore = record s { runs = s.runs ++ row ∷ [] } in
    if any (λ r. r.local_turn_id == local_turn_id) s.runs
      || not (any (λ c. c.conversation_id == session.conversation_id) s.sessions)
    then (s, err integrity_error)
    else (s', require_run s' (some local_turn_id) none (some session.owner_key))

-- The keyword arguments of `update_run`, with their defaults in `no_change`.
pub record Change : Type 0 where
  pub run_id : Option Text
  pub status : Option Status
  pub last_sequence : Option ℕ
  pub failure_category : Option Failure
  pub terminal : Bool

abbrev pub no_change : Change
no_change = record {
  run_id = none;
  status = none;
  last_sequence = none;
  failure_category = none;
  terminal = false;
}

-- The two readings of the clock that `update_run` makes.
pub record Stamp : Type 0 where
  pub updated : ℕ
  pub ended : ℕ

-- `SET column = ?`, only for a value that is not `None`
abbrev pub set_if_given {ℓ} : {A : Type ℓ} → Option A → A → A
set_if_given none old = old
set_if_given (some new) old = new

abbrev pub put_if_given {ℓ} : {A : Type ℓ} → Option A → Option A → Option A
put_if_given none old = old
put_if_given (some new) old = some new

unfoldable pub apply_change : Change → Stamp → RunRecord → RunRecord
apply_change c t r = record r {
  run_id = put_if_given c.run_id r.run_id;
  status = set_if_given c.status r.status;
  last_sequence = set_if_given c.last_sequence r.last_sequence;
  failure_category = put_if_given c.failure_category r.failure_category;
  updated_at = t.updated;
  terminal_at = if c.terminal then some t.ended else r.terminal_at;
}

-- UNIQUE(run_id): the new run id stands in a row other than the updated one.
unfoldable pub run_id_taken : ConsoleStore → Text → Option Text → Bool
run_id_taken s local_turn_id none = false
run_id_taken s local_turn_id (some v) =
    any (λ r. r.local_turn_id == local_turn_id) s.runs
    && any (λ r. not (r.local_turn_id == local_turn_id) && holds_text r.run_id v) s.runs

unfoldable pub update_run : ConsoleStore → Text → Change → Stamp → Writing RunRecord
update_run s local_turn_id c t =
    let s' : ConsoleStore = record s {
      runs = update_where (λ r. r.local_turn_id == local_turn_id) (apply_change c t) s.runs;
    } in
    if run_id_taken s local_turn_id c.run_id
    then (s, err integrity_error)
    else (s', require_run s' (some local_turn_id) none none)

-- A run of this conversation and owner that has not ended.
unfoldable pub locks : Text → Text → RunRecord → Bool
locks conversation_id owner_key r =
    r.conversation_id == conversation_id && r.owner_key == owner_key && not (is_terminal r.status)

unfoldable pub active_run_for_conversation : ConsoleStore → Text → Text → Option RunRecord
unfolding locks
active_run_for_conversation s conversation_id owner_key =
    latest (λ r. r.created_at) (select (locks conversation_id owner_key) s.runs)

unfoldable pub has_completed_run : ConsoleStore → Text → Text → Bool
has_completed_run s conversation_id owner_key =
    any
      (λ r.
        r.conversation_id == conversation_id && r.owner_key == owner_key && is_completed r.status)
      s.runs

-- A turn of this owner and target that Hermes may or may not have accepted.
unfoldable pub fences : Text → Text → RunRecord → Bool
fences owner_key target_name r =
    r.owner_key == owner_key && r.target_name == target_name && is_acceptance_unknown r.status

unfoldable pub acceptance_unknown_for_owner_target : ConsoleStore → Text → Text → Option RunRecord
unfolding fences
acceptance_unknown_for_owner_target s owner_key target_name =
    latest (λ r. r.created_at) (select (fences owner_key target_name) s.runs)

unfoldable pub list_recoverable_runs : ConsoleStore → List RunRecord
list_recoverable_runs s =
    order_by (λ r. r.created_at) (select (λ r. not (is_terminal r.status)) s.runs)

unfoldable pub acknowledge_unknown_run :
    ConsoleStore → Text → Stamp → Result StoreError RunRecord → Writing RunRecord
acknowledge_unknown_run s local_turn_id t (err e) = (s, err e)
acknowledge_unknown_run s local_turn_id t (ok run) =
    if not (is_acceptance_unknown run.status)
    then (s, err value_error)
    else update_run s local_turn_id
        (record no_change {
          status = some failed;
          failure_category = some owner_acknowledged;
          terminal = true;
        })
        t

unfoldable pub acknowledge_unknown : ConsoleStore → Text → Text → Stamp → Writing RunRecord
unfolding acknowledge_unknown_run
acknowledge_unknown s local_turn_id owner_key t =
    acknowledge_unknown_run s local_turn_id t
      (require_run s (some local_turn_id) none (some owner_key))

unfoldable pub acknowledge_lost_run :
    ConsoleStore → Stamp → Result StoreError RunRecord → Writing RunRecord
acknowledge_lost_run s t (err e) = (s, err e)
acknowledge_lost_run s t (ok run) =
    if not (is_unrecoverable run.status)
    then (s, err value_error)
    else update_run s run.local_turn_id
        (record no_change {
          status = some failed;
          failure_category = some owner_acknowledged_unrecoverable;
          terminal = true;
        })
        t

unfoldable pub acknowledge_unrecoverable : ConsoleStore → Text → Text → Stamp → Writing RunRecord
unfolding acknowledge_lost_run
acknowledge_unrecoverable s run_id owner_key t =
    acknowledge_lost_run s t (require_run s none (some run_id) (some owner_key))

-- `terminal_at IS NOT NULL AND terminal_at < ?`
abbrev pub ended_before : ℕ → Option ℕ → Bool
ended_before older_than none = false
ended_before older_than (some t) = ltb t older_than

unfoldable pub cleanup_terminal : ConsoleStore → ℕ → ConsoleStore × ℕ
cleanup_terminal s older_than = (
  record s { runs = select (λ r. not (ended_before older_than r.terminal_at)) s.runs },
  count_where (λ r. ended_before older_than r.terminal_at) s.runs,
)
