-- ===== src/RunStore/Examples.antt =====
-- Runs of the methods of backend/voice_console/run_store.py on a small store.
use hermes_voice_console.Prelude.{
  text_Eq, text_eq_iff, ◌==◌, update_where, count_where, select, latest, first, text_eq, any, ◌≡◌,
  ◌≢◌, refl, some, none, [], ◌∷◌, arith, Text, codes, ok, err, false,
}
use hermes_voice_console.RunStore.{
  SessionRecord, RunRecord, ConsoleStore, Status, running, acceptance_unknown, unrecoverable,
  integrity_error, key_error, failed, owner_acknowledged, owner_acknowledged_unrecoverable,
}
use hermes_voice_console.RunStore.Sessions.{create_session, adopt_hermes_session}
use hermes_voice_console.RunStore.Runs.{
  apply_change, run_id_taken, update_run, Stamp, require_run, acknowledge_unknown,
  acknowledge_unrecoverable, cleanup_terminal, active_run_for_conversation,
}
use hermes_voice_console.RunStore.Ownership.{Acknowledged, acknowledge_unknown_ok}

abbrev talk : SessionRecord
talk = record {
  conversation_id = codes "c1";
  target_name = codes "home";
  hermes_session_id = codes "s1";
  memory_session_key = codes "m1";
  owner_key = codes "o1";
  title = codes "Talk";
  created_at = 1;
  updated_at = 1;
}

abbrev run : Text → Text → Status → RunRecord
run local_turn_id run_id status = record {
  local_turn_id = local_turn_id;
  run_id = some run_id;
  target_name = codes "home";
  conversation_id = codes "c1";
  hermes_session_id = codes "s1";
  memory_session_key = codes "m1";
  owner_key = codes "o1";
  turn_id = codes "t1";
  status = status;
  last_sequence = 2;
  failure_category = none;
  created_at = 2;
  updated_at = 2;
  terminal_at = none;
}

abbrev store : ConsoleStore
store = record {
  sessions = talk ∷ [];
  runs =
      run (codes "l1") (codes "r1") acceptance_unknown
      ∷ run (codes "l2") (codes "r2") unrecoverable
      ∷ run (codes "l3") (codes "r3") running
      ∷ [];
}

apart : (a b : Text) → (a == b) ≡ false → a ≢ b
apart a b h e = ground (arith, text_eq_iff a b)

abbrev clock : Stamp
clock = record { updated = 5; ended = 6 }

create_session_twice :
    create_session store
      (codes "c2")
      (codes "home")
      (codes "s1")
      (codes "m2")
      (codes "o2")
      (codes "More")
      7
    ≡ (store, err integrity_error)
unfolding create_session any text_eq
create_session_twice = refl

adopt_other_owner :
    adopt_hermes_session store (codes "c1") (codes "o2") (codes "s9") 7 ≡ (store, err key_error)
unfolding adopt_hermes_session first text_eq
adopt_other_owner = refl

active_run_is_first :
    active_run_for_conversation store (codes "c1") (codes "o1")
    ≡ some (run (codes "l1") (codes "r1") acceptance_unknown)
unfolding active_run_for_conversation latest select text_eq
active_run_is_first = refl

cleanup_keeps_all : cleanup_terminal store 9 ≡ (store, 0)
unfolding cleanup_terminal select count_where
cleanup_keeps_all = refl

require_run_found :
    require_run store none (some (codes "r2")) (some (codes "o1"))
    ≡ ok (run (codes "l2") (codes "r2") unrecoverable)
unfolding require_run text_eq first
require_run_found = refl

-- The rows that the two acknowledgements leave.
abbrev ended_unknown : RunRecord
ended_unknown = record (run (codes "l1") (codes "r1") failed) {
  failure_category = some owner_acknowledged;
  updated_at = 5;
  terminal_at = some 6;
}

abbrev ended_lost : RunRecord
ended_lost = record (run (codes "l2") (codes "r2") failed) {
  failure_category = some owner_acknowledged_unrecoverable;
  updated_at = 5;
  terminal_at = some 6;
}

abbrev without_unknown : ConsoleStore
without_unknown = record store {
  runs =
      ended_unknown
      ∷ run (codes "l2") (codes "r2") unrecoverable
      ∷ run (codes "l3") (codes "r3") running
      ∷ [];
}

abbrev without_lost : ConsoleStore
without_lost = record store {
  runs =
      run (codes "l1") (codes "r1") acceptance_unknown
      ∷ ended_lost
      ∷ run (codes "l3") (codes "r3") running
      ∷ [];
}

unknown_acknowledged :
    acknowledge_unknown store (codes "l1") (codes "o1") clock ≡ (without_unknown, ok ended_unknown)
unfolding acknowledge_unknown require_run text_eq first update_run run_id_taken update_where
    apply_change
unknown_acknowledged = refl

lost_acknowledged :
    acknowledge_unrecoverable store (codes "r2") (codes "o1") clock ≡ (without_lost, ok ended_lost)
unfolding acknowledge_unrecoverable require_run text_eq first update_run run_id_taken update_where
    apply_change
lost_acknowledged = refl

acknowledge_unknown_ok_example :
    (old : RunRecord) × (require_run store (some (codes "l1")) none (some (codes "o1")) ≡ ok old)
    × (old.owner_key ≡ codes "o1")
    × (old.status ≡ acceptance_unknown)
    × Acknowledged store without_unknown (codes "l3") ended_unknown clock
unfolding text_eq
acknowledge_unknown_ok_example =
    acknowledge_unknown_ok store without_unknown (codes "l1") (codes "l3") (codes "o1") clock
      ended_unknown (λ e. cc) (apart (codes "l3") (codes "l1") refl) unknown_acknowledged
