-- ===== src/Coordinator/Emit.antt =====
-- `_emit` and `_terminal` of backend/voice_console/run_coordinator.py: an event gets the next
-- sequence number, goes into the bounded buffer, is recorded in the store and fans out.
use hermes_voice_console.Prelude.{
  ℕ, ◌+◌, Bool, true, false, ◌&&◌, not, Option, none, some, List, [], ◌∷◌, Result, ok, err,
  if◌then◌else◌,
}
use hermes_voice_console.RunStore.{
  RunRecord, ConsoleStore, Status, running, waiting_for_approval, completed, failed, cancelled,
  Failure, StoreError, is_terminal,
}
use hermes_voice_console.RunStore.Runs.{Change, no_change, Stamp, update_run}
use hermes_voice_console.Coordinator.{
  EventType, Event, put_nowait, ActiveRun, Queues, write_queue, push_bounded, Coordinator,
  pop_active, write_object, or_empty, agent_approval_request, agent_approval_responded,
  agent_approval_resolved, agent_completed, agent_failed, agent_stopped,
}

abbrev pub is_terminal_event : EventType → Bool
is_terminal_event agent_completed = true
is_terminal_event agent_failed = true
is_terminal_event agent_stopped = true
is_terminal_event _ = false

-- The status that the type of an event stands for.
abbrev pub status_of : EventType → Option Status
status_of agent_completed = some completed
status_of agent_failed = some failed
status_of agent_stopped = some cancelled
status_of agent_approval_request = some waiting_for_approval
status_of agent_approval_responded = some running
status_of agent_approval_resolved = some running
status_of _ = none

-- A run that has ended changes its status by a terminal event only.
unfoldable pub new_status : Status → EventType → Option Status
new_status old t = if is_terminal old && not (is_terminal_event t) then none else status_of t

unfoldable pub event_change : ActiveRun → Event → Change
event_change a e = record no_change {
  status = new_status a.run_record.status e.type;
  last_sequence = some (a.run_record.last_sequence + 1);
  terminal = is_terminal_event e.type;
}

-- `{**event, "sequence": sequence}`
unfoldable pub stamped : ActiveRun → Event → Event
stamped a e = record e { sequence = a.run_record.last_sequence + 1 }

-- The buffer has the event even if the store then refuses the update.
unfoldable pub buffered : ActiveRun → Event → ActiveRun
buffered a e = record a { events = push_bounded a.max_events a.events (stamped a e) }

-- One event to each subscriber; those whose queue is full are given up.
unfoldable pub publish : Queues → List ℕ → Event → Queues × List ℕ
publish h [] e = (h, [])
publish h (q ∷ qs) e = elim (put_nowait (h.at q) (some e)) [
  | none ↦ publish h qs e
  | some new ↦ let (h', kept) = publish (write_queue h q new) qs e in (h', q ∷ kept)
]

-- The end marker to each subscriber whose queue has room.
unfoldable pub publish_end : Queues → List ℕ → Queues
publish_end h [] = h
publish_end h (q ∷ qs) = elim (put_nowait (h.at q) none) [
  | none ↦ publish_end h qs
  | some new ↦ publish_end (write_queue h q new) qs
]

-- The fan-out, once the store has the event.
unfoldable pub fan_out : Coordinator → ℕ → ActiveRun → Event → Coordinator
fan_out c a run e =
    let (h, kept) = publish c.queues run.subscribers e in
    let c' = write_object c a (record run { subscribers = kept }) in
    if is_terminal_event e.type
    then record c' {
      queues = publish_end h kept;
      active = pop_active c.active (or_empty run.run_record.run_id);
    }
    else record c' { queues = h }

unfoldable pub emitted :
    Coordinator
    → ℕ
    → Event
    → ConsoleStore × Result StoreError RunRecord
    → Coordinator × Result StoreError (Unit {0})
emitted c a e (s, err x) =
    (write_object (record c { store = s }) a (buffered (c.object a) e), err x)
emitted c a e (s, ok row) = (
  fan_out (record c { store = s }) a (record (buffered (c.object a) e) { run_record = row })
      (stamped (c.object a) e),
  ok tt,
)

-- `_emit(active, event)`, for the object at `a`
unfoldable pub emit : Coordinator → ℕ → Event → Stamp → Coordinator × Result StoreError (Unit {0})
emit c a e t =
    let run = c.object a in
    emitted c a e (update_run c.store run.run_record.local_turn_id (event_change run e) t)

unfoldable pub ended :
    Coordinator
    → ℕ
    → Event
    → Stamp
    → ConsoleStore × Result StoreError RunRecord
    → Coordinator × Result StoreError (Unit {0})
ended c a e t (s, err x) = (record c { store = s }, err x)
ended c a e t (s, ok row) =
    emit (write_object (record c { store = s }) a (record (c.object a) { run_record = row })) a e t

-- `_terminal(active, event, status=…, failure_category=…)`
unfoldable pub terminal :
    Coordinator
    → ℕ
    → Event
    → Status
    → Option Failure
    → Stamp
    → Stamp
    → Coordinator × Result StoreError (Unit {0})
terminal c a e status failure t t' = ended c a e t' (
    update_run c.store (c.object a).run_record.local_turn_id
      (record no_change { status = some status; failure_category = failure }) t)
