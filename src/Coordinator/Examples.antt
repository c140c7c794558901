-- ===== src/Coordinator/Examples.antt =====
-- Small coordinators on which the steps of backend/voice_console/run_coordinator.py run.
pub mod Outcomes
use hermes_voice_console.Prelude.{
  select, latest, update_where, first, ℕ, zero, suc, ◌+◌, ◌≤◌, ◌<◌, ◌≡◌, refl, true, ◌&&◌, ◌||◌,
  not, some, none, [], ◌∷◌, arith, text_Eq, text_eq, codes, Result, ok, err, length, inr,
  if◌then◌else◌, ltb, count_where, any,
}
use hermes_voice_console.RunStore.{SessionRecord, RunRecord, running, StoreError, is_terminal}
use hermes_voice_console.RunStore.Runs.{
  is_run, has_completed_run, insert_run, active_run_for_conversation,
  acceptance_unknown_for_owner_target, apply_change, require_run, run_id_taken, update_run, Stamp,
  locks, fences, set_if_given,
}
use hermes_voice_console.RunStore.Updates.{row_of}
use hermes_voice_console.RunStore.Exclusion.{Exclusive}
use hermes_voice_console.SessionManager.{history_items, resolved_id, history, SessionDocument}
use hermes_voice_console.Coordinator.{
  EventType, Event, blank, Queue, new_queue, ActiveRun, Queues, Coordinator, get_active,
  agent_delta,
}
use hermes_voice_console.Coordinator.Emit.{
  event_change, emitted, emit, fan_out, is_terminal_event, status_of,
}
use hermes_voice_console.Coordinator.Subscribe.{replay}
use hermes_voice_console.Coordinator.Sequence.{IsRecent}
use hermes_voice_console.Coordinator.Numbering.{emit-IsRecent}
use hermes_voice_console.Coordinator.Replay.{replay-some, Replayed, replay-Replayed}
use hermes_voice_console.Coordinator.Delivery.{mem, after_event, fan_out_subscriber, fan_out_other}
use hermes_voice_console.Coordinator.Start.{
  has_both_roles, fail_ambiguous, close_turn, load_history, open_turn, start, World, accepted,
  ambiguous, acceptance_unknown_turn, StartError, register,
}
use hermes_voice_console.Coordinator.Exclusion.{Knows, emit-Exclusive, start-Exclusive}
use hermes_voice_console.Coordinator.Ambiguity.{start_after_ambiguous}
use hermes_voice_console.Coordinator.Fence.{is_fenced, is_locked, start_refused}

abbrev talk : SessionRecord
talk = record {
  conversation_id = codes "c1";
  target_name = codes "home";
  hermes_session_id = codes "s1";
  memory_session_key = codes "m1";
  owner_key = codes "o1";
  title = codes "Talk";
  created_at = 1;
  updated_at = 1;
}

abbrev under_way : RunRecord
under_way = record {
  local_turn_id = codes "l1";
  run_id = some (codes "r1");
  target_name = codes "home";
  conversation_id = codes "c1";
  hermes_session_id = codes "s1";
  memory_session_key = codes "m1";
  owner_key = codes "o1";
  turn_id = codes "t1";
  status = running;
  last_sequence = 2;
  failure_category = none;
  created_at = 2;
  updated_at = 2;
  terminal_at = none;
}

abbrev event : EventType → ℕ → Event
event type n = record {
  type = type;
  run_id = some (codes "r1");
  turn_id = none;
  sequence = n;
  body = blank;
}

-- A run with two events and one subscriber.
abbrev watched : ActiveRun
watched = record {
  run_record = under_way;
  max_events = 250;
  events = event agent_delta 1 ∷ event agent_delta 2 ∷ [];
  subscribers = 0 ∷ [];
}

abbrev queues : Queues
queues = record { at = λ q. new_queue 64; fresh = 1 }

abbrev home : Coordinator
home = record {
  store = record { sessions = talk ∷ []; runs = under_way ∷ [] };
  active = (codes "r1", 0) ∷ [];
  object = λ a. watched;
  fresh_object = 1;
  queues = queues;
  max_events = 250;
  terminal_retention_seconds = 7200;
}

-- The same coordinator before any run.
abbrev quiet : Coordinator
quiet = record home { store = record { sessions = talk ∷ []; runs = [] }; active = [] }

abbrev clock : Stamp
clock = record { updated = 5; ended = 6 }

abbrev empty_document : SessionDocument
empty_document = record { session_id = none; messages = none }

abbrev world : World
world = record {
  local_turn_id = codes "l1";
  inserted_at = 3;
  transport_made = true;
  answers = λ i. (some empty_document, 4);
  outcome = accepted (codes "r1");
  closed_at = clock;
  announced_at = clock;
}

quiet-Exclusive : Exclusive quiet.store
unfolding count_where
quiet-Exclusive conv owner = omega arith

home-Exclusive : Exclusive home.store
unfolding count_where
home-Exclusive conv owner = ground arith

start-Exclusive_example : Exclusive (start quiet (codes "home") talk (codes "t1") world).0.store
start-Exclusive_example =
    start-Exclusive quiet (codes "home") talk (codes "t1") world quiet-Exclusive

home_locked :
    (is_fenced home.store talk.owner_key (codes "home")
      || is_locked home.store talk.conversation_id talk.owner_key)
    ≡ true
unfolding any locks fences text_eq
home_locked = refl

start_refused_example :
    (e : StartError) × (start home (codes "home") talk (codes "t2") world ≡ (home, err e))
start_refused_example = start_refused home (codes "home") talk (codes "t2") world home_locked

watched-IsRecent : IsRecent watched
watched-IsRecent = record {
  short = omega arith;
  within = omega arith;
  ordered = (refl, (refl, tt));
}

abbrev delta : Event
delta = event agent_delta 0

-- The coordinator after one more delta.
abbrev later : Coordinator
later = (emit home 0 delta clock).0

later_ok : emit home 0 delta clock ≡ (later, ok tt)
unfolding emit emitted update_run run_id_taken event_change require_run text_eq first update_where
    apply_change
later_ok = refl

emit-IsRecent_example :
    IsRecent (later.object 0)
    × ((later.object 0).run_record.last_sequence ≡ (home.object 0).run_record.last_sequence + 1)
emit-IsRecent_example = emit-IsRecent home later 0 delta clock watched-IsRecent later_ok

home-Knows : Knows home 0
unfolding any text_eq
home-Knows = inr refl

emit-Exclusive_example : Exclusive (emit home 0 delta clock).0.store
emit-Exclusive_example = emit-Exclusive home 0 delta clock home-Knows home-Exclusive

replay-some_example :
    (q : Queue) × (replay watched 1 ≡ some q) × (q.maxsize ≡ 64) × (length q.items ≤ 63)
replay-some_example = replay-some watched 1

replay-Replayed_example :
    (q : Queue) × (replay watched 1 ≡ some q)
    × Replayed watched 1 watched.run_record.last_sequence q
replay-Replayed_example =
    replay-Replayed watched 1 watched-IsRecent (λ e. cc) (omega arith) (omega arith)

fan_out_subscriber_example :
    (((fan_out home 0 watched delta).queues.at 0).items ≡ after_event (home.queues.at 0) delta)
    × (mem 0 ((fan_out home 0 watched delta).object 0).subscribers
        ≡ ltb (length (home.queues.at 0).items) (home.queues.at 0).maxsize)
unfolding any
fan_out_subscriber_example = fan_out_subscriber home 0 watched delta 0 (refl, tt) refl
