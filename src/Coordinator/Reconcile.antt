-- ===== src/Coordinator/Reconcile.antt =====
-- `_reconcile` and `_consume` of backend/voice_console/run_coordinator.py: the events of Hermes are
-- emitted until one ends the run; where the stream breaks off, Hermes is asked for the run's status.
use hermes_voice_console.Prelude.{
  ℕ, zero, suc, ◌+◌, Bool, true, false, ◌&&◌, ◌||◌, Option, none, some, List, [], ◌∷◌, map, Text,
  text_Eq, ◌==◌, codes, leb, Result, ok, err, if◌then◌else◌,
}
use hermes_voice_console.RunStore.{
  completed, failed, cancelled, unrecoverable, target_failed, run_unrecoverable, StoreError,
  is_terminal,
}
use hermes_voice_console.RunStore.Runs.{no_change, Stamp, update_run}
use hermes_voice_console.Coordinator
use hermes_voice_console.Coordinator.{
  EventType, Event, Body, ActiveRun, Coordinator, write_object, or_empty, agent_completed,
  agent_failed, agent_stopped, agent_approval_context_missing, notice, output, error, recovered,
}
use hermes_voice_console.Coordinator.Emit.{emit, ended, terminal, is_terminal_event}

-- What `get_run` answers: an error of the client, or the fields `status` and `output`.
pub data RunReply : Type 0 where
  api_error : RunReply
  document : Option Text → Option Text → RunReply

-- `str.lower` on the letters of ASCII; no other letter becomes one of a status word.
abbrev pub lower_char : ℕ → ℕ
lower_char c = if leb b'A' c && leb c b'Z' then c + 32 else c

pub data RemoteStatus : Type 0 where
  run_completed run_cancelled run_failed run_waiting run_other : RemoteStatus

unfoldable pub remote_status : Option Text → RemoteStatus
remote_status status =
    let word = map lower_char (or_empty status) in
    if word == codes "completed"
    then run_completed
    else if word == codes "cancelled" || word == codes "stopped"
    then run_cancelled
    else if word == codes "failed"
    then run_failed
    else if word == codes "waiting_for_approval"
    then run_waiting
    else run_other

-- An event of the coordinator about the run of the object.
abbrev pub event_of : Coordinator → ℕ → EventType → Body → Event
event_of c a type body = record {
  type = type;
  run_id = (c.object a).run_record.run_id;
  turn_id = some (c.object a).run_record.turn_id;
  sequence = 0;
  body = body;
}

-- The clock readings of one attempt: those of its first update, and those of its emission.
abbrev pub Stamps : Type 0
Stamps = Stamp × Stamp

-- Hermes does not expose the run.
unfoldable pub lose : Coordinator → ℕ → Stamps → Coordinator × Result StoreError (Unit {0})
lose c a (t, t') =
    ended c a
      (event_of c a Coordinator.run_unrecoverable
        (error (codes "Hermes no longer exposes this run; acknowledgement is required") false))
      t'
      (update_run c.store (c.object a).run_record.local_turn_id
        (record no_change {
          status = some unrecoverable;
          failure_category = some run_unrecoverable;
        })
        t)

abbrev pub waiting_notice : Body
waiting_notice =
    notice (codes "Approval details are unavailable after recovery; stop is the only safe action.")

-- One attempt; `none` goes on to the next.
unfoldable pub settle :
    Coordinator → ℕ → RunReply → Stamps → Option (Coordinator × Result StoreError (Unit {0}))
settle c a api_error ts = some (lose c a ts)
settle c a (document status out) (t, t') = elim (remote_status status) [
  | run_completed ↦
      some (
        terminal c a (event_of c a agent_completed (output (or_empty out) true)) completed none t
          t')
  | run_cancelled ↦ some (terminal c a (event_of c a agent_stopped recovered) cancelled none t t')
  | run_failed ↦ some (
      terminal c a (event_of c a agent_failed (error (codes "Hermes run failed") true)) failed
        (some target_failed) t t')
  | run_waiting ↦ some (emit c a (event_of c a agent_approval_context_missing waiting_notice) t')
  | run_other ↦ none
]

-- `for _attempt in range(…)`, from attempt `i` on
unfoldable pub poll :
    ℕ → ℕ → Coordinator → ℕ → (ℕ → RunReply × Stamps) → Coordinator × Result StoreError (Unit {0})
poll zero i c a replies = (c, ok tt)
poll (suc n) i c a replies =
    let rest = poll n (suc i) c a replies in
    elim (settle c a (replies i).0 (replies i).1) [ none ↦ rest | some done ↦ done ]

abbrev pub max_attempts : ℕ
max_attempts = 120

-- `_reconcile(active)`, for an object with a run id
unfoldable pub reconcile :
    Coordinator → ℕ → (ℕ → RunReply × Stamps) → Coordinator × Result StoreError (Unit {0})
unfolding poll
reconcile c a replies = poll max_attempts 0 c a replies

-- How the stream of events comes to its end: a terminal event, its own end, or an exception.
pub data Flow : Type 0 where
  returned exhausted raised : Flow

abbrev pub followed :
    Event → Coordinator × Result StoreError (Unit {0}) → Coordinator × Flow → Coordinator × Flow
followed e (c, err x) rest = (c, raised)
followed e (c, ok _) rest = if is_terminal_event e.type then (c, returned) else rest

-- `async for event in …`, with the clock readings of each emission; `broken` says that the stream
-- raises behind these events.
unfoldable pub stream : Coordinator → ℕ → List (Event × Stamp) → Bool → Coordinator × Flow
stream c a [] broken = (c, if broken then raised else exhausted)
stream c a ((e, t) ∷ es) broken =
    let marked : Event = record e { turn_id = some (c.object a).run_record.turn_id } in
    let step = emit c a marked t in
    let rest = stream step.0 a es broken in followed marked step rest

abbrev pub finished_stream :
    ℕ → (ℕ → RunReply × Stamps) → Coordinator × Flow → Coordinator × Result StoreError (Unit {0})
finished_stream a replies (c, returned) = (c, ok tt)
finished_stream a replies (c, exhausted) =
    if is_terminal (c.object a).run_record.status then (c, ok tt) else reconcile c a replies
finished_stream a replies (c, raised) = reconcile c a replies

-- `_consume(active)`, where nothing else runs in its waits and the task is not cancelled
unfoldable pub consume :
    Coordinator
    → ℕ
    → List (Event × Stamp)
    → Bool
    → (ℕ → RunReply × Stamps)
    → Coordinator × Result StoreError (Unit {0})
consume c a events broken replies = finished_stream a replies (stream c a events broken)
