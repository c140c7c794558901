-- ===== src/Coordinator.antt =====
-- backend/voice_console/run_coordinator.py: the state of the run coordinator. The objects that tasks
-- share stand in a heap: `_active` maps a run id to an `ActiveRun` object, whose subscribers are
-- queue objects. Locks are the atomic steps of the child modules.
pub mod Emit
pub mod Subscribe
pub mod Sequence
pub mod Numbering
pub mod Replay
pub mod Delivery
pub mod Start
pub mod Reconcile
pub mod Control
pub mod Lifecycle
pub mod Fence
pub mod Conversations
pub mod Inserted
pub mod Exclusion
pub mod Ambiguity
pub mod Examples
use hermes_voice_console.Prelude.{
  ℕ, ◌+◌, ◌-◌, Bool, true, false, Option, none, some, List, [], ◌∷◌, ◌++◌, Text, text_Eq, ◌==◌,
  nat_eq, ltb, if◌then◌else◌, length, drop, Result,
}
use hermes_voice_console.RunStore.{RunRecord, ConsoleStore, Status, StoreError}

-- The `type` of an event.
pub data EventType : Type 0 where
  agent_run_started agent_delta agent_tool_started agent_tool_completed agent_event : EventType
  agent_approval_request agent_approval_responded agent_approval_resolved : EventType
  agent_approval_context_missing agent_stop_requested : EventType
  agent_completed agent_failed agent_stopped : EventType
  run_unrecoverable run_snapshot : EventType

-- The other fields of an event, as far as the coordinator writes or reads them. What Hermes sends
-- besides is kept as the text of its JSON. The `gap` of a snapshot is always true.
pub data Body : Type 0 where
  blank : Body
  opaque : Text → Body
  notice : Text → Body
  session : Text → Body
  output : Text → Bool → Body
  error : Text → Bool → Body
  recovered : Body
  approval : Bool → Body
  result : Text → Body
  snapshot : Status → ℕ → Body

-- `sequence` is 0 in an event that has none: readers take `event.get("sequence") or 0`.
pub record Event : Type 0 where
  pub type : EventType
  pub run_id : Option Text
  pub turn_id : Option Text
  pub sequence : ℕ
  pub body : Body

-- `asyncio.Queue`; `none` is the end marker. The head is the next item to be read.
pub record Queue : Type 0 where
  pub maxsize : ℕ
  pub items : List (Option Event)

abbrev pub new_queue : ℕ → Queue
new_queue maxsize = record { maxsize = maxsize; items = [] }

-- `queue.put_nowait(item)`; `none` is `QueueFull`.
unfoldable pub put_nowait : Queue → Option Event → Option Queue
put_nowait q item =
    if ltb (length q.items) q.maxsize
    then some (record q { items = q.items ++ item ∷ [] })
    else none

-- The transport and the task of the object are not part of its state here.
pub record ActiveRun : Type 0 where
  pub run_record : RunRecord
  pub max_events : ℕ
  pub events : List Event
  pub subscribers : List ℕ

-- The queue objects by their addresses, which are given out in order.
pub record Queues : Type 0 where
  pub at : ℕ → Queue
  pub fresh : ℕ

unfoldable pub write_queue : Queues → ℕ → Queue → Queues
write_queue h q new = record h { at = λ a. if nat_eq a q then new else h.at a }

-- `deque(maxlen=n).append(x)`
unfoldable pub push_bounded : ℕ → List Event → Event → List Event
push_bounded max_events events e =
    let longer = events ++ e ∷ [] in drop (length longer - max_events) longer

-- `self._active`, with its objects and their queues, and the store
pub record Coordinator : Type 0 where
  pub store : ConsoleStore
  pub active : List (Text × ℕ)
  pub object : ℕ → ActiveRun
  pub fresh_object : ℕ
  pub queues : Queues
  pub max_events : ℕ
  pub terminal_retention_seconds : ℕ

-- `self._active.get(run_id)`
unfoldable pub get_active : List (Text × ℕ) → Text → Option ℕ
get_active [] run_id = none
get_active ((k, a) ∷ m) run_id = if k == run_id then some a else get_active m run_id

-- `self._active.pop(run_id, None)`
unfoldable pub pop_active : List (Text × ℕ) → Text → List (Text × ℕ)
pop_active [] run_id = []
pop_active ((k, a) ∷ m) run_id =
    let rest = pop_active m run_id in if k == run_id then rest else (k, a) ∷ rest

unfoldable pub write_object : Coordinator → ℕ → ActiveRun → Coordinator
write_object c a new = record c { object = λ b. if nat_eq b a then new else c.object b }

abbrev pub or_empty : Option Text → Text
or_empty none = []
or_empty (some t) = t
