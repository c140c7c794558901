-- ===== src/Coordinator/Subscribe.antt =====
-- `_subscribe_active`, `subscribe` and `unsubscribe` of backend/voice_console/run_coordinator.py: a
-- reader gets the buffered events that it has not seen, behind a snapshot if some are lost.
use hermes_voice_console.Prelude.{
  ℕ, suc, ◌+◌, ◌-◌, Bool, true, false, ◌&&◌, ◌||◌, not, Option, none, some, List, [], ◌∷◌, Text,
  text_Eq, nat_eq, ltb, length, drop, Result, ok, err, if◌then◌else◌, select,
}
use hermes_voice_console.RunStore.{RunRecord, StoreError, is_terminal}
use hermes_voice_console.RunStore.Runs.{require_run}
use hermes_voice_console.Coordinator.{
  Event, Queue, new_queue, put_nowait, ActiveRun, Queues, write_queue, Coordinator, get_active,
  write_object, run_snapshot, snapshot,
}

-- Every `put_nowait` of a list of items; `none` is `QueueFull`.
unfoldable pub put_all : Queue → List Event → Option Queue
put_all q [] = some q
put_all q (e ∷ es) = elim (put_nowait q (some e)) [ none ↦ none | some q' ↦ put_all q' es ]

unfoldable pub snapshot_of : RunRecord → Event
snapshot_of r = record {
  type = run_snapshot;
  run_id = r.run_id;
  turn_id = none;
  sequence = 0;
  body = snapshot r.status r.last_sequence;
}

-- The buffered events that the reader has not seen.
unfoldable pub pending : ℕ → List Event → List Event
pending last_sequence = select (λ e. ltb last_sequence e.sequence)

-- `last_sequence and last_sequence < oldest - 1`, or more pending than the queue takes
unfoldable pub has_gap : ℕ → ℕ → List Event → Bool
has_gap last_sequence oldest unseen =
    (not (nat_eq last_sequence 0) && ltb (last_sequence + 1) oldest) || ltb 62 (length unseen)

-- `pending[-62:]`
unfoldable pub last_62 : List Event → List Event
last_62 es = drop (length es - 62) es

unfoldable pub fill_with : ActiveRun → List Event → Bool → Option Queue
fill_with a unseen false = put_all (new_queue 64) unseen
fill_with a unseen true = elim (put_nowait (new_queue 64) (some (snapshot_of a.run_record))) [
  | none ↦ none
  | some q ↦ put_all q (last_62 unseen)
]

unfoldable pub fill_from : ActiveRun → ℕ → List Event → Option Queue
fill_from a last_sequence [] = some (new_queue 64)
fill_from a last_sequence (oldest ∷ rest) =
    let unseen = pending last_sequence (oldest ∷ rest) in
    fill_with a unseen (has_gap last_sequence oldest.sequence unseen)

-- The queue that `_subscribe_active` fills; `none` would be an uncaught `QueueFull`.
unfoldable pub replay : ActiveRun → ℕ → Option Queue
replay a last_sequence = fill_from a last_sequence a.events

-- A queue object at a new address.
unfoldable pub allocate : Queues → Queue → Queues × ℕ
unfolding write_queue
allocate h q = (record (write_queue h h.fresh q) { fresh = suc h.fresh }, h.fresh)

-- What `subscribe` raises.
pub data SubscribeError : Type 0 where
  refused : StoreError → SubscribeError
  queue_full : SubscribeError

unfoldable pub attach : Coordinator → ℕ → Option Queue → Coordinator × Result SubscribeError ℕ
unfolding allocate write_object
attach c a none = (c, err queue_full)
attach c a (some q) =
    let (h, address) = allocate c.queues q in
    let run = c.object a in
    (
      write_object (record c { queues = h }) a
          (record run { subscribers = address ∷ run.subscribers }),
      ok address,
    )

-- `_subscribe_active(active, last_sequence=…)`
unfoldable pub subscribe_active : Coordinator → ℕ → ℕ → Coordinator × Result SubscribeError ℕ
unfolding attach
subscribe_active c a last_sequence = attach c a (replay (c.object a) last_sequence)

-- The queue of a run that has no object any more: a snapshot, and the end if the run has ended.
unfoldable pub detached_queue : RunRecord → Text → Option Queue
unfolding snapshot_of
detached_queue r run_id =
    elim (put_nowait (new_queue 2) (some (record (snapshot_of r) { run_id = some run_id }))) [
      | none ↦ none
      | some q ↦ if is_terminal r.status then put_nowait q none else some q
    ]

detach : Coordinator → Option Queue → Coordinator × Result SubscribeError ℕ
unfolding allocate
detach c none = (c, err queue_full)
detach c (some q) = let (h, address) = allocate c.queues q in (record c { queues = h }, ok address)

subscribe_found :
    Coordinator
    → Text
    → ℕ
    → Result StoreError RunRecord
    → Option ℕ
    → Coordinator × Result SubscribeError ℕ
unfolding detach
subscribe_found c run_id last_sequence (err e) active = (c, err (refused e))
subscribe_found c run_id last_sequence (ok r) (some a) = subscribe_active c a last_sequence
subscribe_found c run_id last_sequence (ok r) none = detach c (detached_queue r run_id)

unfoldable pub subscribe : Coordinator → Text → Text → ℕ → Coordinator × Result SubscribeError ℕ
unfolding subscribe_found
subscribe c run_id owner_key last_sequence =
    subscribe_found c run_id last_sequence (require_run c.store none (some run_id) (some owner_key))
      (get_active c.active run_id)

discard : List ℕ → ℕ → List ℕ
discard qs q = select (λ x. not (nat_eq x q)) qs

unfoldable pub unsubscribe : Coordinator → Text → ℕ → Coordinator
unfolding discard write_object
unsubscribe c run_id q = elim (get_active c.active run_id) [
  | none ↦ c
  | some a ↦
      write_object c a (record (c.object a) { subscribers = discard (c.object a).subscribers q })
]
