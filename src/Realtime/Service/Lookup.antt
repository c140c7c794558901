-- ===== src/Realtime/Service/Lookup.antt =====
-- `request_result` of backend/voice_console/realtime/service.py, with `_parse_completed_request`: what
-- became of a request. A creation whose answer was lost is recorded here.
pub mod Requests
pub mod Recorded
use hermes_voice_console.Prelude.{
  ℕ, Bool, true, not, ◌&&◌, Option, none, some, [], Text, text_Eq, ◌==◌, codes, Result, ok, err,
  ◌>>=◌, ◌>>◌, guard, if◌then◌else◌,
}
use hermes_voice_console.RunStore
use hermes_voice_console.RunStore.Sessions
use hermes_voice_console.Realtime.{Exn, proxy_error}
use hermes_voice_console.Realtime.Json.{
  Json, text, Fields, get, equals_text, is_true, is_null, truthy,
}
use hermes_voice_console.Realtime.Contracts.{validate_identifier, validate_generation}
use hermes_voice_console.Realtime.Responses.{
  Pending, SessionView, parse_request_state, parse_session,
}
use hermes_voice_console.Realtime.Responses.Results.{
  Reply, undecided, activated, parse_activate_result, parse_input_result, parse_interrupt_result,
  parse_manual_audio_commit_result, parse_manual_audio_discard_result, parse_turn_mode_result,
  parse_approval_result, parse_delete_result,
}
use hermes_voice_console.Realtime.Store.{MappingStore, RequestKey, complete_request}
use hermes_voice_console.Realtime.Store.Sessions.{record_session}
use hermes_voice_console.Realtime.Service.{Proxy, Target, target, client}
use hermes_voice_console.Realtime.Service.Finish.{Stamps}
use hermes_voice_console.Realtime.Service.Creation.{or_not_found}

-- `str(v)`, where `show` is Python's `str` of what is no text
abbrev pub str_of : (Json → Text) → Json → Text
str_of show (text t) = t
str_of show v = show v

-- `validate_identifier(str(v or ""), "realtime_session_id")`
abbrev pub session_id_of : (Json → Text) → Json → Result Exn Text
session_id_of show v =
    validate_identifier (if truthy v then str_of show v else []) (codes "realtime_session_id")

abbrev pub has_state : Fields → Text → Bool
has_state d state = equals_text (get d (codes "state")) state

-- A rejection of an operation.
abbrev pub rejects : Fields → Text → Bool
rejects d operation =
    equals_text (get d (codes "operation")) operation && has_state d (codes "rejected")

abbrev pub session_result : (Json → Text) → Fields → Text → Text → Result Exn Reply
session_result show d conversation_id request = do
  v ← parse_session show d (some conversation_id) none true
  ok (activated v request)

abbrev pub delete_result : (Json → Text) → Fields → Text → Text → Result Exn Reply
delete_result show d conversation_id request = do
  sid ← session_id_of show (get d (codes "realtime_session_id"))
  parse_delete_result d conversation_id sid request

abbrev pub approval_result : (Json → Text) → Fields → Text → Result Exn Reply
approval_result show d request = do
  aid ← validate_identifier (str_of show (get d (codes "approval_id"))) (codes "approval_id")
  parse_approval_result d aid request

abbrev pub with_generation :
    (Json → Text) → Fields → (Text → ℕ → Result Exn Reply) → Result Exn Reply
with_generation show d parse = do
  sid ← session_id_of show (get d (codes "realtime_session_id"))
  generation ← validate_generation (get d (codes "session_generation"))
  parse sid generation

abbrev pub interrupt_result : (Json → Text) → Fields → Text → Result Exn Reply
interrupt_result show d request = do
  sid ← session_id_of show (get d (codes "realtime_session_id"))
  parse_interrupt_result d sid request

abbrev pub activate_result : (Json → Text) → Fields → Text → Text → Result Exn Reply
activate_result show d conversation_id request = do
  sid ← session_id_of show (get d (codes "realtime_session_id"))
  parse_activate_result show d conversation_id sid request

abbrev pub has : Fields → Text → Bool
has d key = not (is_null (get d key))

-- The branches, in their order.
abbrev pub result_for : (Json → Text) → Fields → Text → Text → Result Exn Reply
result_for show d conversation_id request =
    if has d (codes "answer_sdp")
    then session_result show d conversation_id request
    else if has_state d (codes "closed") && truthy (get d (codes "realtime_session_id"))
    then delete_result show d conversation_id request
    else if has d (codes "approval_id")
    then approval_result show d request
    else if is_true (get d (codes "audio_commit_requested"))
    then with_generation show d
        (λ sid generation. parse_manual_audio_commit_result d sid generation request)
    else if rejects d (codes "manual_audio_commit")
    then parse_manual_audio_commit_result d (codes "rejected") 1 request
    else if is_true (get d (codes "audio_discard_requested"))
    then with_generation show d
        (λ sid generation. parse_manual_audio_discard_result d sid generation request)
    else if rejects d (codes "manual_audio_discard")
    then parse_manual_audio_discard_result d (codes "rejected") 1 request
    else if has_state d (codes "accepted") && has d (codes "turn_mode")
    then with_generation show d (λ sid generation.
      parse_turn_mode_result d sid generation request (str_of show (get d (codes "turn_mode"))))
    else if rejects d (codes "turn_mode_update")
    then parse_turn_mode_result d (codes "rejected") 1 request (codes "rejected")
    else if is_true (get d (codes "interrupted"))
    then interrupt_result show d request
    else if is_true (get d (codes "accepted"))
    then parse_input_result d request
    else if truthy (get d (codes "realtime_session_id"))
        && truthy (get d (codes "session_generation"))
    then activate_result show d conversation_id request
    else err (
        proxy_error "invalid_target_response" (codes "Hermes returned an unknown request result")
          502)

-- `_parse_completed_request`
unfoldable pub parse_completed : (Json → Text) → Fields → Text → Text → Result Exn Reply
parse_completed show d conversation_id request = do
  _ ← parse_request_state d request none
  result_for show d conversation_id request

-- The row of the conversation, which `require_conversation` returns.
unfoldable pub conversation_row :
    Proxy → RunStore.ConsoleStore → Text → Text → Target → Result Exn RunStore.SessionRecord
conversation_row p console principal conversation_id t =
    or_not_found (
      Sessions.require_session console conversation_id (p.owner_key principal t.name) (some t.name))

abbrev pub settled_as :
    RequestKey
    → Reply
    → Stamps
    → MappingStore × Result Exn (Unit {0})
    → MappingStore × Result Exn Reply
settled_as k reply t (s, err e) = (s, err e)
settled_as k reply t (s, ok u) = (complete_request s k none t.settled, ok reply)

abbrev pub keep :
    MappingStore
    → Target
    → Text
    → Text
    → Stamps
    → SessionView
    → Result Exn RunStore.SessionRecord
    → MappingStore × Result Exn Reply
keep s g conversation_id request t v (err e) = (s, err e)
keep s g conversation_id request t v (ok c) =
    settled_as
      (record {
        owner_key = c.owner_key;
        target_name = g.name;
        scope_id = conversation_id;
        request_id = request;
      })
      (activated v request) t (record_session s v c.owner_key g.name request t.touched)

-- `if raw.get("answer_sdp") is not None`, where the result is a session
abbrev pub record_result :
    Proxy
    → RunStore.ConsoleStore
    → MappingStore
    → Text
    → Text
    → Target
    → Text
    → Stamps
    → Bool
    → Result Exn Reply
    → MappingStore × Result Exn Reply
record_result p console s principal conversation_id g request t answered (err e) = (s, err e)
record_result p console s principal conversation_id g request t true (ok (activated v r)) =
    keep s g conversation_id request t v (conversation_row p console principal conversation_id g)
record_result p console s principal conversation_id g request t _ (ok reply) = (s, ok reply)

abbrev pub looked_up :
    Proxy
    → RunStore.ConsoleStore
    → MappingStore
    → Text
    → Text
    → Target
    → Text
    → Stamps
    → Fields
    → Result Exn (Option Pending)
    → MappingStore × Result Exn Reply
looked_up p console s principal conversation_id g request t d (err e) = (s, err e)
looked_up p console s principal conversation_id g request t d (ok (some w)) = (s, ok (undecided w))
looked_up p console s principal conversation_id g request t d (ok none) =
    record_result p console s principal conversation_id g request t (has d (codes "answer_sdp"))
      (parse_completed p.show d conversation_id request)

-- Up to the wait: the target.
unfoldable pub read_lookup :
    Proxy → RunStore.ConsoleStore → Text → Text → Text → Text → Result Exn Target
read_lookup p console principal conversation_id request target_name = do
  _ ← validate_identifier conversation_id (codes "conversation_id")
  _ ← validate_identifier request (codes "client_request_id")
  g ← target p target_name
  _ ← conversation_row p console principal conversation_id g
  _ ← client g
  ok g

-- From the answer on.
abbrev pub answered_with :
    Proxy
    → RunStore.ConsoleStore
    → MappingStore
    → Text
    → Text
    → Text
    → Stamps
    → Result Exn Fields
    → Result Exn Target
    → MappingStore × Result Exn Reply
answered_with p console s principal conversation_id request t answer (err e) = (s, err e)
answered_with p console s principal conversation_id request t (err e) (ok g) = (s, err e)
answered_with p console s principal conversation_id request t (ok d) (ok g) =
    looked_up p console s principal conversation_id g request t d
      (parse_request_state d request none)

-- `request_result`
unfoldable pub request_result :
    Proxy
    → RunStore.ConsoleStore
    → MappingStore
    → Text
    → Text
    → Text
    → Text
    → Result Exn Fields
    → Stamps
    → MappingStore × Result Exn Reply
request_result p console s principal conversation_id request target_name answer t =
    answered_with p console s principal conversation_id request t answer
      (read_lookup p console principal conversation_id request target_name)
