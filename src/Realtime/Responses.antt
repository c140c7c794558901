-- ===== src/Realtime/Responses.antt =====
-- backend/voice_console/realtime/responses.py: what the proxy accepts of an answer of Hermes. The
-- parsers of sessions and of the states of a request are here, those of the results of the mutations
-- in a child module. A result is a value of `Reply`.
pub mod Results
pub mod Sound
pub mod Named
pub mod Events
pub mod Jobs
pub mod Commands
pub mod Snapshot
use hermes_voice_console.Prelude.{
  ℕ, String, Bool, true, false, not, ◌&&◌, ◌||◌, Option, none, some, List, [], ◌∷◌, ◌++◌, Text,
  text_Eq, ◌==◌, codes, length, ltb, take, starts_with, Result, ok, err, ◌>>=◌, ◌>>◌, guard,
  if◌then◌else◌,
}
use hermes_voice_console.Realtime.{
  Exn, type_error, invalid, mismatch, RequestState, in_progress, outcome_unknown,
}
use hermes_voice_console.Realtime.Json.{
  Json, null, boolean, integer, text, array, object, Fields, end, field, get, equals_text, name_in,
  one_of, truthy,
}
use hermes_voice_console.Realtime.Contracts.{validate_identifier}

-- `value == expected`, where nothing may be expected
abbrev pub expected : Option Text → Text → Bool
expected none t = true
expected (some u) t = t == u

abbrev pub id_text : Text → Json → Result Exn Text
id_text key (text t) = validate_identifier t key
id_text key _ = err (invalid key)

-- `_id(document, key)`
unfoldable pub id_of : Fields → Text → Result Exn Text
id_of d key = id_text key (get d key)

-- A name of the set, or `_invalid(subject)`; `TypeError` for what has no hash.
abbrev pub named : Text → Option Text → Result Exn Text
named subject none = err (invalid subject)
named subject (some t) = ok t

unfoldable pub name_of : List Text → Text → Json → Result Exn Text
name_of names subject v = do found ← name_in names v; named subject found

abbrev pub session_states : List Text
session_states =
    codes "provisioning"
    ∷ codes "controller_ready"
    ∷ codes "client_authorized"
    ∷ codes "active"
    ∷ codes "degraded"
    ∷ codes "closed"
    ∷ codes "failed"
    ∷ []

abbrev pub turn_modes : List Text
turn_modes = codes "server_vad" ∷ codes "automatic" ∷ codes "manual" ∷ []

abbrev pub operations : List Text
operations =
    codes "create"
    ∷ codes "activate"
    ∷ codes "input"
    ∷ codes "manual_audio_commit"
    ∷ codes "manual_audio_discard"
    ∷ codes "turn_mode_update"
    ∷ codes "interrupt"
    ∷ codes "approval"
    ∷ codes "delete"
    ∷ []

-- `isinstance(v, int) and not isinstance(v, bool) and v >= 1`
unfoldable pub generation_of : Json → Result Exn ℕ
generation_of (integer n) = if ltb n 1 then err (invalid (codes "session generation")) else ok n
generation_of _ = err (invalid (codes "session generation"))

abbrev pub answer_text : Json → Result Exn (Option Text)
answer_text (text t) =
    if not (starts_with t (codes "v=0")) || ltb 262144 (length t)
    then err (invalid (codes "SDP answer"))
    else ok (some t)
answer_text _ = err (invalid (codes "SDP answer"))

unfoldable pub sdp_of : Bool → Json → Result Exn (Option Text)
sdp_of true v = answer_text v
sdp_of false v = ok none

-- What `parse_session` returns.
pub record SessionView : Type 0 where
  pub contract_version : Text
  pub realtime_session_id : Text
  pub conversation_id : Text
  pub session_generation : ℕ
  pub state : Text
  pub turn_mode : Text
  pub answer_sdp : Option Text

-- `str(document.get("contract_version") or "1.0")[:16]`; `show` is Python's `str`
unfoldable pub version_of : (Json → Text) → Json → Text
version_of show v = take 16 (if truthy v then show v else codes "1.0")

unfoldable pub parse_session :
    (Json → Text) → Fields → Option Text → Option Text → Bool → Result Exn SessionView
parse_session show d conversation_id session_id include_sdp = do
  sid ← id_of d (codes "realtime_session_id")
  cid ← id_of d (codes "conversation_id")
  guard (expected session_id sid) (mismatch "session")
  guard (expected conversation_id cid) (mismatch "conversation")
  generation ← generation_of (get d (codes "session_generation"))
  state ← name_of session_states (codes "session state") (get d (codes "state"))
  turn_mode ← name_of turn_modes (codes "turn mode") (get d (codes "turn_mode"))
  answer ← sdp_of include_sdp (get d (codes "answer_sdp"))
  ok (record {
    contract_version = version_of show (get d (codes "contract_version"));
    realtime_session_id = sid;
    conversation_id = cid;
    session_generation = generation;
    state = state;
    turn_mode = turn_mode;
    answer_sdp = answer;
  })

-- A request that is not decided; `accepted` is always `False`.
pub record Pending : Type 0 where
  pub client_request_id : Text
  pub state : RequestState
  pub operation : Option Text

-- `state not in {"in_progress", "outcome_unknown"}`
abbrev waiting_state : Option Text → Option RequestState
waiting_state none = none
waiting_state (some t) = if t == codes "in_progress" then some in_progress else some outcome_unknown

unfoldable pub waiting_of : Json → Result Exn (Option RequestState)
waiting_of v = do
  found ← name_in (codes "in_progress" ∷ codes "outcome_unknown" ∷ []) v
  ok (waiting_state found)

abbrev pub same_operation : Option Text → Text → Result Exn (Option Text)
same_operation operation t =
    if expected operation t then ok (some t) else err (mismatch "request operation")

unfoldable pub operation_of : Option Text → Json → Result Exn (Option Text)
operation_of operation null = ok none
operation_of operation v = do
  t ← name_of operations (codes "request operation") v
  same_operation operation t

abbrev pub pending_of :
    Fields → Text → Option Text → Option RequestState → Result Exn (Option Pending)
pending_of d client_request_id operation none = ok none
pending_of d client_request_id operation (some s) = do
  o ← operation_of operation (get d (codes "operation"))
  ok (some (record { client_request_id = client_request_id; state = s; operation = o }))

unfoldable pub parse_request_state : Fields → Text → Option Text → Result Exn (Option Pending)
parse_request_state d client_request_id operation = do
  guard (equals_text (get d (codes "client_request_id")) client_request_id)
      (mismatch "client request")
  waiting ← waiting_of (get d (codes "state"))
  pending_of d client_request_id operation waiting
