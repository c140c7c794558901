-- ===== src/Realtime/Service/Creation.antt =====
-- `create_session` of backend/voice_console/realtime/service.py. It claims its request id, but goes on
-- whatever the claim says, since the SDP answer is not stored. It waits for Hermes twice: for the
-- compatibility of the target, and for the session.
pub mod Made
pub mod Modes
use hermes_voice_console.Prelude.{
  ℕ, Bool, true, Option, none, some, List, [], ◌∷◌, Text, text_Eq, ◌==◌, codes, Result, ok, err,
  ◌>>=◌, ◌>>◌, guard,
}
use hermes_voice_console.RunStore
use hermes_voice_console.RunStore.Sessions
use hermes_voice_console.Realtime.{Exn, proxy_error}
use hermes_voice_console.Realtime.Json.{Json, null, text, Fields, end, field, get, name_in}
use hermes_voice_console.Realtime.Contracts.{
  require_identifier, require_nonempty_string, validate_sdp,
}
use hermes_voice_console.Realtime.Responses.{
  Pending, SessionView, parse_request_state, parse_session,
}
use hermes_voice_console.Realtime.Store.{
  MappingStore, RequestKey, Claim, claim_request, set_request_state, complete_request,
}
use hermes_voice_console.Realtime.Store.Sessions.{record_session}
use hermes_voice_console.Realtime.Service.{Proxy, Target, target, client}
use hermes_voice_console.Realtime.Service.Finish.{Answers, submit, Stamps}

-- What `create_session` reads of its body, with the target.
pub record Creation : Type 0 where
  pub target : Target
  pub conversation_id : Text
  pub request_id : Text
  pub sdp_offer : Text

unfoldable pub read_creation : Proxy → Fields → Result Exn Creation
read_creation p body = do
  target_name ← require_identifier body (codes "target")
  conversation_id ← require_identifier body (codes "conversation_id")
  request_id ← require_identifier body (codes "client_request_id")
  offer ← require_nonempty_string body (codes "sdp_offer") 262144
  sdp_offer ← validate_sdp offer
  t ← target p target_name
  _ ← client t
  ok (record {
    target = t;
    conversation_id = conversation_id;
    request_id = request_id;
    sdp_offer = sdp_offer;
  })

-- `RealtimeCompatibility`: whether the target is compatible, and its reasons, joined.
pub record Compatibility : Type 0 where
  pub compatible : Bool
  pub reasons : Text

abbrev pub or_not_found :
    Result RunStore.StoreError RunStore.SessionRecord → Result Exn RunStore.SessionRecord
or_not_found (ok c) = ok c
or_not_found (err e) =
    err (proxy_error "conversation_not_found" (codes "Conversation not found") 404)

-- The row that `require_conversation` returns.
unfoldable pub conversation_of :
    Proxy → RunStore.ConsoleStore → Text → Creation → Result Exn RunStore.SessionRecord
conversation_of p console principal n = or_not_found (
    Sessions.require_session console n.conversation_id (p.owner_key principal n.target.name)
      (some n.target.name))

abbrev supported : Option Text → Result Exn (Option Text)
supported none = err (proxy_error "invalid_turn_mode" (codes "Unsupported turn mode") 400)
supported (some t) = ok (some t)

-- `if turn_mode is not None`
unfoldable pub turn_mode_of : Json → Result Exn (Option Text)
turn_mode_of null = ok none
turn_mode_of v = do found ← name_in (codes "server_vad" ∷ codes "manual" ∷ []) v; supported found

abbrev pub creation_key : RunStore.SessionRecord → Creation → RequestKey
creation_key c n = record {
  owner_key = c.owner_key;
  target_name = n.target.name;
  scope_id = n.conversation_id;
  request_id = n.request_id;
}

-- The payload that is claimed.
abbrev pub offered : Creation → Fields → Fields
offered n body =
    field (codes "sdp_offer") (text n.sdp_offer)
      (field (codes "turn_mode") (get body (codes "turn_mode")) end)

abbrev pub with_mode :
    Creation
    → Fields
    → RunStore.SessionRecord
    → MappingStore × Result Exn Claim
    → MappingStore × Result Exn RunStore.SessionRecord
with_mode n body c (s, err e) = (s, err e)
with_mode n body c (s, ok claim) =
    (s, do _ ← turn_mode_of (get body (codes "turn_mode")); _ ← client n.target; ok c)

abbrev pub claim_for :
    Proxy
    → MappingStore
    → Creation
    → Fields
    → ℕ
    → Result Exn RunStore.SessionRecord
    → MappingStore × Result Exn RunStore.SessionRecord
claim_for p s n body now (err e) = (s, err e)
claim_for p s n body now (ok c) =
    with_mode n body c
      (claim_request s (creation_key c n) (codes "create") (p.fingerprint (offered n body)) now)

-- From the answer about the target to the submission: the conversation, whose owner the caller is.
unfoldable pub claim_creation :
    Proxy
    → RunStore.ConsoleStore
    → MappingStore
    → Text
    → Fields
    → Creation
    → Result Exn Compatibility
    → ℕ
    → MappingStore × Result Exn RunStore.SessionRecord
claim_creation p console s principal body n answer now = claim_for p s n body now (do
  x ← answer
  guard x.compatible (proxy_error "realtime_contract_incompatible" x.reasons 409)
  conversation_of p console principal n)

-- What it returns.
pub data Created : Type 0 where
  undecided : Pending → Created
  created : SessionView → Text → Created

abbrev pub stored :
    Creation
    → RequestKey
    → SessionView
    → Stamps
    → MappingStore × Result Exn (Unit {0})
    → MappingStore × Result Exn Created
stored n k v t (s, err e) = (s, err e)
stored n k v t (s, ok u) = (complete_request s k none t.settled, ok (created v n.request_id))

abbrev pub viewed :
    MappingStore
    → RunStore.SessionRecord
    → Creation
    → Stamps
    → Result Exn SessionView
    → MappingStore × Result Exn Created
viewed s c n t (err e) = (s, err e)
viewed s c n t (ok v) =
    stored n (creation_key c n) v t
      (record_session s v c.owner_key n.target.name n.request_id t.touched)

abbrev pub answered :
    Proxy
    → MappingStore
    → RunStore.SessionRecord
    → Creation
    → Fields
    → Stamps
    → Result Exn (Option Pending)
    → MappingStore × Result Exn Created
answered p s c n d t (err e) = (s, err e)
answered p s c n d t (ok (some w)) =
    (set_request_state s (creation_key c n) w.state none t.settled, ok (undecided w))
answered p s c n d t (ok none) =
    viewed s c n t (parse_session p.show d (some n.conversation_id) none true)

abbrev pub concluded :
    Proxy
    → MappingStore
    → RunStore.SessionRecord
    → Creation
    → Stamps
    → Result Exn Fields
    → MappingStore × Result Exn Created
concluded p s c n t (err e) = (s, err e)
concluded p s c n t (ok d) =
    answered p s c n d t (parse_request_state d n.request_id (some (codes "create")))

-- From the submission on.
unfoldable pub finish_creation :
    Proxy
    → Creation
    → Answers
    → Stamps
    → MappingStore × Result Exn RunStore.SessionRecord
    → MappingStore × Result Exn Created
finish_creation p n a t (s, err e) = (s, err e)
finish_creation p n a t (s, ok c) = concluded p s c n t (submit (codes "create") a)

abbrev pub read_by :
    Proxy
    → RunStore.ConsoleStore
    → MappingStore
    → Text
    → Fields
    → Result Exn Compatibility
    → ℕ
    → Answers
    → Stamps
    → Result Exn Creation
    → MappingStore × Result Exn Created
read_by p console s principal body answer now a t (err e) = (s, err e)
read_by p console s principal body answer now a t (ok n) =
    finish_creation p n a t (claim_creation p console s principal body n answer now)

-- `create_session`, where nothing else runs in its waits.
unfoldable pub create_session :
    Proxy
    → RunStore.ConsoleStore
    → MappingStore
    → Text
    → Fields
    → Result Exn Compatibility
    → ℕ
    → Answers
    → Stamps
    → MappingStore × Result Exn Created
create_session p console s principal body answer now a t =
    read_by p console s principal body answer now a t (read_creation p body)
