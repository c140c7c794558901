-- ===== src/Coordinator/Start.antt =====
-- `start` of backend/voice_console/run_coordinator.py, in its three atomic parts: what stands before
-- the first wait, the three attempts to read the history, and what follows the answer of Hermes.
use hermes_voice_console.Prelude.{
  ℕ, zero, suc, Bool, true, false, ◌&&◌, ◌||◌, not, Option, none, some, List, [], ◌∷◌, Text,
  text_Eq, ◌==◌, Result, ok, err, if◌then◌else◌, any,
}
use hermes_voice_console.RunStore.{
  SessionRecord, RunRecord, ConsoleStore, Status, submitting, running, acceptance_unknown, rejected,
  ambiguous_submission, submission_failed, StoreError, key_error,
}
use hermes_voice_console.RunStore.Runs.{
  no_change, Stamp, update_run, insert_run, active_run_for_conversation, has_completed_run,
  acceptance_unknown_for_owner_target,
}
use hermes_voice_console.SessionManager.{
  SessionDocument, HistoryItem, user_role, assistant_role, history,
}
use hermes_voice_console.Coordinator.{
  Event, session, ActiveRun, Coordinator, write_object, pop_active, agent_run_started,
}
use hermes_voice_console.Coordinator.Emit.{emit}
use hermes_voice_console.Coordinator.Subscribe.{subscribe_active, SubscribeError}

-- What `start` raises. `hermes_failed` is an error of the client or of the history that was raised
-- again, `history_missing` the error of a history that stays incomplete.
pub data StartError : Type 0 where
  owner_target_locked : StartError
  conversation_locked : Status → StartError
  store_failed : StoreError → StartError
  acceptance_unknown_turn : Text → StartError
  hermes_failed history_missing : StartError
  queue_failed : SubscribeError → StartError

abbrev pub inserted :
    ConsoleStore × Result StoreError RunRecord → ConsoleStore × Result StartError RunRecord
inserted (s, err e) = (s, err (store_failed e))
inserted (s, ok r) = (s, ok r)

-- Up to `insert_run`: there is no wait in it.
unfoldable pub open_turn :
    ConsoleStore
    → Text
    → SessionRecord
    → Text
    → Text
    → ℕ
    → ConsoleStore × Result StartError RunRecord
open_turn s target_name c turn_id local_turn_id now =
    elim (acceptance_unknown_for_owner_target s c.owner_key target_name) [
      | some fence ↦ (s, err owner_target_locked)
      | none ↦ elim (active_run_for_conversation s c.conversation_id c.owner_key) [
        | some existing ↦ (s, err (conversation_locked existing.status))
        | none ↦ inserted (insert_run s local_turn_id target_name c turn_id submitting now)
      ]
    ]

-- `{"user", "assistant"}.issubset(roles)`
unfoldable pub has_both_roles : List HistoryItem → Bool
has_both_roles h = any (λ i. i.role == user_role) h && any (λ i. i.role == assistant_role) h

-- The answer to each attempt, with the clock reading of an adoption; `none` is an error of the client.
abbrev pub Answers : Type 0
Answers = ℕ → Option SessionDocument × ℕ

abbrev pub Loaded : Type 0
Loaded = ConsoleStore × Result StartError (SessionRecord × List HistoryItem)

abbrev pub judged :
    Bool → Loaded → ConsoleStore × Result StoreError (SessionRecord × List HistoryItem) → Loaded
judged has_prior rest (s, err e) = (s, err hermes_failed)
judged has_prior rest (s, ok (c, h)) =
    if not has_prior || has_both_roles h then (s, ok (c, h)) else rest

-- One attempt: every one asks for the `session` of the call itself. An error of the client is handled
-- as the store's are: the turn is rejected and the error raised again.
abbrev pub read_history :
    ConsoleStore
    → SessionRecord
    → Option SessionDocument × ℕ
    → ConsoleStore × Result StoreError (SessionRecord × List HistoryItem)
    → ConsoleStore × Result StoreError (SessionRecord × List HistoryItem)
read_history s c (none, now) failed_read = failed_read
read_history s c (some d, now) failed_read = history s c d now

-- `for attempt in range(…): … else: raise`, from attempt `i` on
unfoldable pub load_history : ℕ → ℕ → ConsoleStore → SessionRecord → Bool → Answers → Loaded
load_history zero i s c has_prior answers = (s, err history_missing)
load_history (suc n) i s c has_prior answers =
    let tried = read_history s c (answers i) (s, err key_error) in
    let rest = load_history n (suc i) tried.0 c has_prior answers in judged has_prior rest tried

-- The outcome of `transport.start`.
pub data Outcome : Type 0 where
  accepted : Text → Outcome
  ambiguous refused : Outcome

-- `raise` after the store has the status.
abbrev pub noted :
    Coordinator
    → StartError
    → ConsoleStore × Result StoreError RunRecord
    → Coordinator × Result StartError (RunRecord × ℕ)
noted c e (s, err x) = (record c { store = s }, err (store_failed x))
noted c e (s, ok r) = (record c { store = s }, err e)

-- `except HermesAmbiguousSubmission`
unfoldable pub fail_ambiguous :
    Coordinator → Text → Stamp → Coordinator × Result StartError (RunRecord × ℕ)
fail_ambiguous c local_turn_id t = noted c (acceptance_unknown_turn local_turn_id) (
    update_run c.store local_turn_id
      (record no_change {
        status = some acceptance_unknown;
        failure_category = some ambiguous_submission;
      })
      t)

-- `except Exception`
unfoldable pub fail_rejected :
    Coordinator → Text → StartError → Stamp → Coordinator × Result StartError (RunRecord × ℕ)
fail_rejected c local_turn_id e t = noted c e (
    update_run c.store local_turn_id
      (record no_change {
        status = some rejected;
        failure_category = some submission_failed;
        terminal = true;
      })
      t)

unfoldable pub started_event : RunRecord → Text → Text → Event
started_event r run_id turn_id = record {
  type = agent_run_started;
  run_id = some run_id;
  turn_id = some turn_id;
  sequence = 0;
  body = session r.hermes_session_id;
}

-- `ActiveRun(record, transport, …)` under a new address, and `self._active[run_id] = active`
unfoldable pub register : Coordinator → Text → RunRecord → Coordinator
register c run_id r =
    let run : ActiveRun = record {
      run_record = r;
      max_events = c.max_events;
      events = [];
      subscribers = [];
    } in
    record (write_object c c.fresh_object run) {
      active = (run_id, c.fresh_object) ∷ pop_active c.active run_id;
      fresh_object = suc c.fresh_object;
    }

abbrev pub announced :
    ℕ
    → ℕ
    → Coordinator × Result StoreError (Unit {0})
    → Coordinator × Result StartError (RunRecord × ℕ)
announced a q (c, err x) = (c, err (store_failed x))
announced a q (c, ok _) = (c, ok ((c.object a).run_record, q))

abbrev pub subscribed :
    ℕ
    → Event
    → Stamp
    → Coordinator × Result SubscribeError ℕ
    → Coordinator × Result StartError (RunRecord × ℕ)
subscribed a e t (c, err x) = (c, err (queue_failed x))
subscribed a e t (c, ok q) = announced a q (emit c a e t)

abbrev pub launched :
    Coordinator
    → Text
    → Text
    → Stamp
    → ConsoleStore × Result StoreError RunRecord
    → Coordinator × Result StartError (RunRecord × ℕ)
launched c run_id turn_id t (s, err x) = (record c { store = s }, err (store_failed x))
launched c run_id turn_id t (s, ok r) =
    subscribed c.fresh_object (started_event r run_id turn_id) t
      (subscribe_active (register (record c { store = s }) run_id r) c.fresh_object 0)

-- Behind the `try`: the run is stored, registered, subscribed to and announced.
unfoldable pub launch :
    Coordinator
    → Text
    → Text
    → Text
    → Stamp
    → Stamp
    → Coordinator × Result StartError (RunRecord × ℕ)
launch c local_turn_id run_id turn_id t t' = launched c run_id turn_id t' (
    update_run c.store local_turn_id
      (record no_change { run_id = some run_id; status = some running }) t)

unfoldable pub close_turn :
    Coordinator
    → Text
    → Text
    → Outcome
    → Stamp
    → Stamp
    → Coordinator × Result StartError (RunRecord × ℕ)
close_turn c local_turn_id turn_id (accepted run_id) t t' =
    launch c local_turn_id run_id turn_id t t'
close_turn c local_turn_id turn_id ambiguous t t' = fail_ambiguous c local_turn_id t
close_turn c local_turn_id turn_id refused t t' = fail_rejected c local_turn_id hermes_failed t

-- What the world answers to one call of `start`.
pub record World : Type 0 where
  pub local_turn_id : Text
  pub inserted_at : ℕ
  pub transport_made : Bool
  pub answers : Answers
  pub outcome : Outcome
  pub closed_at : Stamp
  pub announced_at : Stamp

abbrev pub submitted :
    Coordinator → Text → World → Loaded → Coordinator × Result StartError (RunRecord × ℕ)
submitted c turn_id w (s, err e) =
    fail_rejected (record c { store = s }) w.local_turn_id e w.closed_at
submitted c turn_id w (s, ok h) =
    close_turn (record c { store = s }) w.local_turn_id turn_id w.outcome w.closed_at w.announced_at

-- `self._transport(target)`, which raises outside of the `try` where the target has no key: the row of the
-- turn stays as it was inserted.
abbrev pub connected :
    Bool
    → Coordinator
    → Coordinator × Result StartError (RunRecord × ℕ)
    → Coordinator × Result StartError (RunRecord × ℕ)
connected true c started = started
connected false c started = (c, err hermes_failed)

abbrev pub opened :
    Coordinator
    → SessionRecord
    → Text
    → World
    → ConsoleStore × Result StartError RunRecord
    → Coordinator × Result StartError (RunRecord × ℕ)
opened c conv turn_id w (s, err e) = (record c { store = s }, err e)
opened c conv turn_id w (s, ok r) =
    connected w.transport_made (record c { store = s })
      (submitted c turn_id w (
        load_history 3 0 s conv (has_completed_run s conv.conversation_id conv.owner_key)
          w.answers))

-- `start`, where nothing else runs in its waits.
unfoldable pub start :
    Coordinator
    → Text
    → SessionRecord
    → Text
    → World
    → Coordinator × Result StartError (RunRecord × ℕ)
start c target_name conv turn_id w =
    opened c conv turn_id w
      (open_turn c.store target_name conv turn_id w.local_turn_id w.inserted_at)
