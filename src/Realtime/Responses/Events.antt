-- ===== src/Realtime/Responses/Events.antt =====
-- `parse_events` of backend/voice_console/realtime/responses.py: a page of the events of a session.
pub mod Sound
use hermes_voice_console.Prelude.{
  ℕ, Bool, true, ◌&&◌, ◌||◌, Option, none, some, List, [], ◌∷◌, Text, text_Eq, ◌==◌, codes, length,
  ltb, Result, ok, err, ◌>>=◌, ◌>>◌, guard, if◌then◌else◌,
}
use hermes_voice_console.Realtime.{Exn, invalid, mismatch}
use hermes_voice_console.Realtime.Json.{
  Json, null, boolean, text, array, object, Items, nil, cons, Fields, end, get, has_key, put,
  items_length, equals_text, is_null, truthy, absent_or, str_of,
}
use hermes_voice_console.Realtime.Contracts.{validate_identifier}
use hermes_voice_console.Realtime.Sanitize.{safe}
use hermes_voice_console.Realtime.Responses.{id_of}

-- An event as it is passed on. `copied` holds what the event tells of its session, generation and
-- time.
pub record EventView : Type 0 where
  pub event_id : Text
  pub event_type : Text
  pub conversation_id : Text
  pub copied : Fields
  pub payload : Json

pub record EventsView : Type 0 where
  pub conversation_id : Text
  pub events : List EventView
  pub last_event_id : Json

-- `not isinstance(raw, list) or len(raw) > limit`
abbrev pub list_of : ℕ → Text → Json → Result Exn Items
list_of limit subject (array vs) =
    if ltb limit (items_length vs) then err (invalid subject) else ok vs
list_of limit subject _ = err (invalid subject)

-- `not isinstance(v, str) or not v or len(v) > 128`
abbrev pub short_text : Text → Json → Result Exn Text
short_text subject (text t) = if t == [] || ltb 128 (length t) then err (invalid subject) else ok t
short_text subject _ = err (invalid subject)

-- `if v is not None: validate_identifier(str(v), key)`
unfoldable pub check_id : (Json → Text) → Text → Json → Result Exn (Unit {0})
check_id show key v =
    if is_null v then ok tt else (validate_identifier (str_of show v) key >>= λ _. ok tt)

check_ids : (Json → Text) → Fields → List Text → Result Exn (Unit {0})
check_ids show d [] = ok tt
check_ids show d (k ∷ ks) = do check_id show k (get d k); check_ids show d ks

abbrev payload_ids : List Text
payload_ids =
    codes "worker_job_id"
    ∷ codes "worker_attempt_id"
    ∷ codes "approval_id"
    ∷ codes "tool_call_id"
    ∷ []

unfoldable pub check_payload : (Json → Text) → Text → Json → Result Exn (Unit {0})
unfolding check_ids
check_payload show conversation_id (object d) = do
  mine ← absent_or conversation_id (get d (codes "conversation_id"))
  guard mine (mismatch "event payload conversation")
  check_ids show d payload_ids
check_payload show conversation_id _ = ok tt

-- `if key in raw: event[key] = _safe(raw[key])`, for each key
abbrev copy_keys : (Text → Text) → Fields → List Text → Fields → Fields
copy_keys lower raw [] event = event
copy_keys lower raw (k ∷ ks) event =
    copy_keys lower raw ks (if has_key raw k then put event k (safe lower 0 (get raw k)) else event)

-- `_safe(raw.get("payload") or {})`
unfoldable pub payload_of : (Text → Text) → Json → Json
payload_of lower v = safe lower 0 (if truthy v then v else object end)

unfoldable pub parse_event :
    (Text → Text) → (Json → Text) → Text → Text → Json → Result Exn EventView
parse_event lower show conversation_id session_id (object raw) = do
  event_id ← id_of raw (codes "event_id")
  guard (equals_text (get raw (codes "conversation_id")) conversation_id)
      (mismatch "event conversation")
  mine ← absent_or session_id (get raw (codes "realtime_session_id"))
  guard mine (mismatch "event session")
  event_type ← short_text (codes "event type") (get raw (codes "type"))
  check_payload show conversation_id (payload_of lower (get raw (codes "payload")))
  ok (record {
    event_id = event_id;
    event_type = event_type;
    conversation_id = conversation_id;
    copied =
        copy_keys lower raw
          (codes "realtime_session_id" ∷ codes "generation" ∷ codes "created_at" ∷ []) end;
    payload = payload_of lower (get raw (codes "payload"));
  })
parse_event lower show conversation_id session_id _ = err (invalid (codes "event"))

unfoldable pub parse_each :
    (Text → Text) → (Json → Text) → Text → Text → Items → Result Exn (List EventView)
parse_each lower show conversation_id session_id nil = ok []
parse_each lower show conversation_id session_id (cons v vs) = do
  event ← parse_event lower show conversation_id session_id v
  events ← parse_each lower show conversation_id session_id vs
  ok (event ∷ events)

-- `events and cursor != events[-1]["event_id"]`
unfoldable pub is_cursor : List EventView → Json → Bool
is_cursor [] cursor = true
is_cursor (e ∷ []) cursor = equals_text cursor e.event_id
is_cursor (e ∷ f ∷ es) cursor = is_cursor (f ∷ es) cursor

unfoldable pub parse_events :
    (Text → Text) → (Json → Text) → Fields → Text → Text → Result Exn EventsView
parse_events lower show d conversation_id session_id = do
  cid ← id_of d (codes "conversation_id")
  guard (cid == conversation_id) (mismatch "conversation")
  raw ← list_of 500 (codes "event list") (get d (codes "events"))
  events ← parse_each lower show conversation_id session_id raw
  guard (has_key d (codes "last_event_id") && is_cursor events (get d (codes "last_event_id")))
      (invalid (codes "event cursor"))
  check_id show (codes "last_event_id") (get d (codes "last_event_id"))
  ok (record {
    conversation_id = conversation_id;
    events = events;
    last_event_id = get d (codes "last_event_id");
  })
