-- ===== src/Realtime/Responses/Commands.antt =====
-- `parse_job_events` and `parse_command` of backend/voice_console/realtime/responses.py.
pub mod Sound
use hermes_voice_console.Prelude.{
  ℕ, Bool, List, [], ◌∷◌, Text, text_Eq, ◌==◌, codes, Result, ok, err, ◌>>=◌, ◌>>◌, guard,
}
use hermes_voice_console.Realtime.{Exn, invalid, mismatch}
use hermes_voice_console.Realtime.Json.{
  Json, boolean, integer, object, Items, nil, cons, Fields, get, same_keys, absent_or,
}
use hermes_voice_console.Realtime.Sanitize.{safe}
use hermes_voice_console.Realtime.Responses.{id_of, name_of}
use hermes_voice_console.Realtime.Responses.Events.{list_of}

-- `isinstance(v, int) and not isinstance(v, bool) and v >= 0`
abbrev pub natural : Text → Json → Result Exn ℕ
natural subject (integer n) = ok n
natural subject _ = err (invalid subject)

abbrev job_event : Text → Text → Json → Result Exn Fields
job_event conversation_id worker_job_id (object d) = do
  mine ← absent_or worker_job_id (get d (codes "worker_job_id"))
  guard mine (mismatch "worker event job")
  here ← absent_or conversation_id (get d (codes "conversation_id"))
  guard here (mismatch "worker event conversation")
  ok d
job_event conversation_id worker_job_id _ = err (invalid (codes "worker event"))

-- The loop over the events.
unfoldable pub job_events : (Text → Text) → Text → Text → Items → Result Exn (List Fields)
job_events lower conversation_id worker_job_id nil = ok []
job_events lower conversation_id worker_job_id (cons v vs) = do
  event ← job_event conversation_id worker_job_id (safe lower 0 v)
  events ← job_events lower conversation_id worker_job_id vs
  ok (event ∷ events)

pub record JobEvents : Type 0 where
  pub worker_job_id : Text
  pub events : List Fields
  pub last_event_id : ℕ

unfoldable pub parse_job_events : (Text → Text) → Fields → Text → Text → Result Exn JobEvents
parse_job_events lower d conversation_id worker_job_id = do
  jid ← id_of d (codes "worker_job_id")
  guard (jid == worker_job_id) (mismatch "worker job")
  vs ← list_of 500 (codes "worker event list") (get d (codes "events"))
  events ← job_events lower conversation_id worker_job_id vs
  cursor ← natural (codes "worker event cursor") (get d (codes "last_event_id"))
  ok (record { worker_job_id = worker_job_id; events = events; last_event_id = cursor })

abbrev pub command_keys : List Text
command_keys =
    codes "command_id"
    ∷ codes "worker_job_id"
    ∷ codes "acknowledgement"
    ∷ codes "revision"
    ∷ codes "operation"
    ∷ codes "control_signal_sent"
    ∷ []

abbrev pub acknowledgements : List Text
acknowledgements =
    codes "applied"
    ∷ codes "already_applied"
    ∷ codes "rejected_stale_revision"
    ∷ codes "rejected_terminal"
    ∷ codes "rejected_wrong_owner"
    ∷ codes "rejected_no_steering"
    ∷ codes "rejected_not_signaled"
    ∷ []

abbrev pub command_operations : List Text
command_operations = codes "refine" ∷ codes "redirect" ∷ codes "cancel" ∷ []

pub record CommandView : Type 0 where
  pub command_id : Text
  pub worker_job_id : Text
  pub acknowledgement : Text
  pub revision : ℕ
  pub operation : Text
  pub control_signal_sent : Bool

abbrev pub signal_of : Json → Result Exn Bool
signal_of (boolean b) = ok b
signal_of _ = err (invalid (codes "worker command control signal"))

unfoldable pub parse_command : Fields → Text → Text → Result Exn CommandView
parse_command d command_id worker_job_id = do
  cid ← id_of d (codes "command_id")
  guard (cid == command_id) (mismatch "command")
  jid ← id_of d (codes "worker_job_id")
  guard (jid == worker_job_id) (mismatch "command worker job")
  guard (same_keys d command_keys) (invalid (codes "worker command acknowledgement shape"))
  acknowledgement ←
      name_of acknowledgements (codes "worker command acknowledgement")
        (get d (codes "acknowledgement"))
  revision ← natural (codes "worker command revision") (get d (codes "revision"))
  operation ←
      name_of command_operations (codes "worker command operation") (get d (codes "operation"))
  signal ← signal_of (get d (codes "control_signal_sent"))
  ok (record {
    command_id = command_id;
    worker_job_id = worker_job_id;
    acknowledgement = acknowledgement;
    revision = revision;
    operation = operation;
    control_signal_sent = signal;
  })
