-- ===== src/Realtime/Responses/Results.antt =====
-- The parsers of the results of mutations, of backend/voice_console/realtime/responses.py.
use hermes_voice_console.Prelude.{
  ℕ, Bool, false, ◌&&◌, ◌||◌, some, List, [], ◌∷◌, Text, text_Eq, ◌==◌, codes, Result, ok, err,
  ◌>>=◌, ◌>>◌, guard, if◌then◌else◌,
}
use hermes_voice_console.Realtime.{Exn, invalid, mismatch}
use hermes_voice_console.Realtime.Json.{
  Json, boolean, object, Fields, get, equals_text, equals_nat, is_true, is_false, same_keys,
}
use hermes_voice_console.Realtime.Responses.{
  id_of, name_of, SessionView, Pending, parse_session, parse_request_state,
}

-- What the proxy answers a mutation with. A result bears the id of its request; the ids of session and
-- conversation, the generation and the turn mode stand where the dictionary has them.
pub data Reply : Type 0 where
  undecided : Pending → Reply
  activated : SessionView → Text → Reply
  closed : Text → Text → Text → Reply
  input_accepted : Text → Reply
  interrupted : Text → Text → Reply
  rejected : Text → Text → Text → Reply
  committed discarded : Text → Text → ℕ → Reply
  turn_mode_set : Text → Text → ℕ → Text → Reply
  approval : Text → Text → Text → Bool → Reply

-- `result["client_request_id"]`
abbrev pub reply_request : Reply → Text
reply_request (undecided p) = p.client_request_id
reply_request (activated v request) = request
reply_request (closed sid cid request) = request
reply_request (input_accepted request) = request
reply_request (interrupted request sid) = request
reply_request (rejected request operation code) = request
reply_request (committed request sid generation) = request
reply_request (discarded request sid generation) = request
reply_request (turn_mode_set request sid generation mode) = request
reply_request (approval request approval_id state accepted) = request

-- `{"code": code}` and nothing else
abbrev is_error_code : Json → Text → Bool
is_error_code (object e) code =
    same_keys e (codes "code" ∷ []) && equals_text (get e (codes "code")) code
is_error_code _ code = false

-- The conditions of a rejected mutation, behind `state == "rejected"`.
unfoldable pub is_rejection : Fields → Text → Text → Bool
is_rejection d operation code =
    equals_text (get d (codes "operation")) operation
    && is_false (get d (codes "accepted"))
    && is_error_code (get d (codes "error")) code

-- `_id(document, "realtime_session_id") != session_id`
unfoldable pub same_session : Fields → Text → Result Exn (Unit {0})
same_session d session_id = do
  sid ← id_of d (codes "realtime_session_id")
  guard (sid == session_id) (mismatch "session")

unfoldable pub parse_closed : Fields → Text → Text → Result Exn (Unit {0})
parse_closed d conversation_id session_id = do
  same_session d session_id
  cid ← id_of d (codes "conversation_id")
  guard (cid == conversation_id) (mismatch "conversation")
  guard (equals_text (get d (codes "state")) (codes "closed"))
      (invalid (codes "closed session state"))

unfoldable pub parse_activate_result :
    (Json → Text) → Fields → Text → Text → Text → Result Exn Reply
parse_activate_result show d conversation_id session_id request = do
  _ ← parse_request_state d request (some (codes "activate"))
  v ← parse_session show d (some conversation_id) (some session_id) false
  guard (v.state == codes "active") (invalid (codes "activation state"))
  ok (activated v request)

unfoldable pub parse_delete_result : Fields → Text → Text → Text → Result Exn Reply
parse_delete_result d conversation_id session_id request = do
  _ ← parse_request_state d request (some (codes "delete"))
  parse_closed d conversation_id session_id
  ok (closed session_id conversation_id request)

unfoldable pub parse_input_result : Fields → Text → Result Exn Reply
parse_input_result d request = do
  _ ← parse_request_state d request (some (codes "input"))
  guard
      (is_true (get d (codes "accepted")) && equals_text (get d (codes "state")) (codes "accepted"))
      (invalid (codes "input acceptance"))
  ok (input_accepted request)

unfoldable pub parse_interrupt_result : Fields → Text → Text → Result Exn Reply
parse_interrupt_result d session_id request = do
  _ ← parse_request_state d request (some (codes "interrupt"))
  same_session d session_id
  guard
      (is_true (get d (codes "interrupted"))
        && equals_text (get d (codes "state")) (codes "accepted"))
      (invalid (codes "interrupt acceptance"))
  ok (interrupted request session_id)

unfoldable pub same_generation : Fields → Text → ℕ → Result Exn (Unit {0})
same_generation d session_id generation = do
  same_session d session_id
  guard (equals_nat (get d (codes "session_generation")) generation) (mismatch "session generation")

abbrev pub is_rejected : Fields → Bool
is_rejected d = equals_text (get d (codes "state")) (codes "rejected")

-- The two branches of a parser whose mutation may be rejected.
abbrev pub branch : Fields → Result Exn Reply → Result Exn Reply → Result Exn Reply
branch d refusal acceptance = if is_rejected d then refusal else acceptance

abbrev pub rejection : Fields → Text → Text → Text → Text → Result Exn Reply
rejection d request operation code subject =
    if is_rejection d operation code
    then ok (rejected request operation code)
    else err (invalid subject)

abbrev pub commitment : Fields → Text → ℕ → Text → Result Exn Reply
commitment d session_id generation request = do
  same_generation d session_id generation
  guard
      (equals_text (get d (codes "state")) (codes "accepted")
        && is_true (get d (codes "audio_commit_requested"))
        && is_true (get d (codes "response_requested")))
      (invalid (codes "manual audio commit acceptance"))
  ok (committed request session_id generation)

unfoldable pub parse_manual_audio_commit_result : Fields → Text → ℕ → Text → Result Exn Reply
parse_manual_audio_commit_result d session_id generation request = do
  _ ← parse_request_state d request (some (codes "manual_audio_commit"))
  branch d
      (rejection d request (codes "manual_audio_commit") (codes "audio_buffer_empty")
        (codes "manual audio commit rejection"))
      (commitment d session_id generation request)

abbrev pub disposal : Fields → Text → ℕ → Text → Result Exn Reply
disposal d session_id generation request = do
  same_generation d session_id generation
  guard
      (equals_text (get d (codes "state")) (codes "accepted")
        && is_true (get d (codes "audio_discard_requested")))
      (invalid (codes "manual audio discard acceptance"))
  ok (discarded request session_id generation)

unfoldable pub parse_manual_audio_discard_result : Fields → Text → ℕ → Text → Result Exn Reply
parse_manual_audio_discard_result d session_id generation request = do
  _ ← parse_request_state d request (some (codes "manual_audio_discard"))
  branch d
      (rejection d request (codes "manual_audio_discard") (codes "audio_discard_rejected")
        (codes "manual audio discard rejection"))
      (disposal d session_id generation request)

abbrev pub mode_change : Fields → Text → ℕ → Text → Text → Result Exn Reply
mode_change d session_id generation request turn_mode = do
  same_generation d session_id generation
  guard (equals_text (get d (codes "turn_mode")) turn_mode) (mismatch "turn mode")
  guard (equals_text (get d (codes "state")) (codes "accepted"))
      (invalid (codes "turn mode acceptance"))
  ok (turn_mode_set request session_id generation turn_mode)

abbrev pub rejection_keys : List Text
rejection_keys =
    codes "client_request_id"
    ∷ codes "operation"
    ∷ codes "state"
    ∷ codes "accepted"
    ∷ codes "error"
    ∷ []

unfoldable pub parse_turn_mode_result : Fields → Text → ℕ → Text → Text → Result Exn Reply
parse_turn_mode_result d session_id generation request turn_mode = do
  _ ← parse_request_state d request (some (codes "turn_mode_update"))
  branch d
      (if same_keys d rejection_keys
        then rejection d request (codes "turn_mode_update") (codes "turn_mode_rejected")
            (codes "turn mode rejection")
        else err (invalid (codes "turn mode rejection")))
      (mode_change d session_id generation request turn_mode)

abbrev pub approval_states : List Text
approval_states =
    codes "pending" ∷ codes "resolving" ∷ codes "resolved" ∷ codes "denied" ∷ codes "expired" ∷ []

-- `parse_approval`, whose `accepted` the caller writes anew
unfoldable pub parse_approval : Fields → Text → Result Exn Text
parse_approval d approval_id = do
  aid ← id_of d (codes "approval_id")
  guard (aid == approval_id) (mismatch "approval")
  name_of approval_states (codes "approval state") (get d (codes "state"))

abbrev pub accepted_of : Json → Result Exn Bool
accepted_of (boolean b) = ok b
accepted_of _ = err (invalid (codes "approval acceptance"))

unfoldable pub parse_approval_result : Fields → Text → Text → Result Exn Reply
parse_approval_result d approval_id request = do
  _ ← parse_request_state d request (some (codes "approval"))
  state ← parse_approval d approval_id
  guard (state == codes "resolved" || state == codes "denied")
      (invalid (codes "approval resolution state"))
  accepted ← accepted_of (get d (codes "accepted"))
  ok (approval request approval_id state accepted)
