-- ===== src/Realtime/Service.antt =====
-- backend/voice_console/realtime/service.py: the mutations of a Realtime session. A mutation is claimed
-- in the store, submitted to Hermes if the claim is new, looked up if it is not or if the submission
-- is ambiguous, and settled. It waits for Hermes between `begin` and `finish`; the four handlers of a
-- child module compose these.
pub mod Finish
pub mod Actions
pub mod Creation
pub mod Lookup
pub mod Events
pub mod Used
pub mod Once
pub mod Stored
pub mod Again
pub mod Owned
pub mod Permits
pub mod Replies
pub mod Concluded
pub mod Refused
use hermes_voice_console.Prelude.{
  ℕ, Bool, true, false, Option, none, some, List, [], ◌∷◌, Text, text_Eq, ◌==◌, codes, Result, ok,
  err, ◌>>=◌, ◌>>◌, guard, if◌then◌else◌,
}
use hermes_voice_console.RunStore
use hermes_voice_console.RunStore.Sessions
use hermes_voice_console.Realtime.{
  Exn, ProxyError, proxy, proxy_error, ambiguous_mutation, value_error, type_error, config_error,
  RequestState, complete, pending, in_progress, outcome_unknown,
}
use hermes_voice_console.Realtime.Json.{Json, Fields}
use hermes_voice_console.Realtime.Contracts.{validate_identifier}
use hermes_voice_console.Realtime.Responses.{Pending, parse_request_state}
use hermes_voice_console.Realtime.Responses.Results.{
  Reply, undecided, activated, parse_activate_result, parse_input_result, parse_interrupt_result,
  parse_manual_audio_commit_result, parse_manual_audio_discard_result, parse_turn_mode_result,
  parse_approval_result, parse_delete_result,
}
use hermes_voice_console.Realtime.Store.{
  MappingStore, SessionRow, RequestKey, Claim, fresh, seen, claim_request, set_request_state,
  complete_request, request_response,
}
use hermes_voice_console.Realtime.Store.Sessions.{require_session, update_session}

-- The fields of `TargetConfig` that the service reads; `has_key` says that an API key is configured.
pub record Target : Type 0 where
  pub name : Text
  pub realtime_enabled : Bool
  pub has_credentials : Bool

-- What the service is built with, and what it takes from elsewhere: the configured targets, the owner
-- key that an HMAC derives from a principal and a target, Python's `str`, and the hash of a payload.
pub record Proxy : Type 0 where
  pub targets : Text → Option Target
  pub owner_key : Text → Text → Text
  pub show : Json → Text
  pub fingerprint : Fields → Text

abbrev pub configured : Option Target → Result Exn Target
configured none = err config_error
configured (some t) = ok t

-- `target`
unfoldable pub target : Proxy → Text → Result Exn Target
target p target_name = do
  name ← validate_identifier target_name (codes "target")
  t ← configured (p.targets name)
  guard t.realtime_enabled
      (proxy_error "realtime_disabled" (codes "Realtime is disabled for this target") 409)
  ok t

abbrev pub conversation_found :
    Result RunStore.StoreError RunStore.SessionRecord → Result Exn (Unit {0})
conversation_found (ok c) = ok tt
conversation_found (err e) =
    err (proxy_error "conversation_not_found" (codes "Conversation not found") 404)

-- `require_conversation`
unfoldable pub require_conversation :
    Proxy → RunStore.ConsoleStore → Text → Target → Text → Result Exn (Unit {0})
require_conversation p console conversation_id t principal =
    conversation_found (
      Sessions.require_session console conversation_id (p.owner_key principal t.name) (some t.name))

-- `client`, whose constructor wants credentials
unfoldable pub client : Target → Result Exn (Unit {0})
client t =
    guard t.has_credentials
      (proxy_error "target_credentials_missing" (codes "Target credentials are missing") 502)

-- The mapping of a session that the principal owns, with its target.
unfoldable pub owned_row :
    Proxy
    → RunStore.ConsoleStore
    → MappingStore
    → Text
    → Text
    → Text
    → Result Exn (Target × SessionRow)
owned_row p console s session_id target_name principal = do
  _ ← validate_identifier session_id (codes "realtime_session_id")
  _ ← validate_identifier target_name (codes "target")
  t ← target p target_name
  m ← require_session s session_id (p.owner_key principal t.name) t.name
  _ ← require_conversation p console m.conversation_id t principal
  ok (t, m)

-- `_owned_mapping`
unfoldable pub owned_mapping :
    Proxy → RunStore.ConsoleStore → MappingStore → Text → Text → Text → Result Exn SessionRow
owned_mapping p console s session_id target_name principal = do
  owned ← owned_row p console s session_id target_name principal
  _ ← client owned.0
  ok owned.1

-- The mutations, with what their results are checked against besides the ids.
pub data Mutation : Type 0 where
  activate input interrupt commit discard delete : Mutation
  turn_mode approve : Text → Mutation

abbrev pub operation_name : Mutation → Text
operation_name activate = codes "activate"
operation_name input = codes "input"
operation_name interrupt = codes "interrupt"
operation_name commit = codes "manual_audio_commit"
operation_name discard = codes "manual_audio_discard"
operation_name delete = codes "delete"
operation_name (turn_mode mode) = codes "turn_mode_update"
operation_name (approve approval_id) = codes "approval"

-- A mutation that has passed its checks; `payload` is what the claim hashes.
pub record Prepared : Type 0 where
  pub mutation : Mutation
  pub mapping : SessionRow
  pub session_id : Text
  pub key : RequestKey
  pub generation : ℕ
  pub payload : Fields

-- How a handler goes on from its claim: with a stored reply, or by asking Hermes.
pub data Next : Type 0 where
  cached : Reply → Next
  submits looks_up : Next

abbrev pub or_look_up : Option Reply → Next
or_look_up none = looks_up
or_look_up (some r) = cached r

abbrev pub decide : MappingStore → RequestKey → Claim → Next
decide s k fresh = submits
decide s k (seen complete) = or_look_up (request_response s k)
decide s k (seen pending) = looks_up
decide s k (seen in_progress) = looks_up
decide s k (seen outcome_unknown) = looks_up

abbrev pub decided :
    Prepared → MappingStore × Result Exn Claim → MappingStore × Result Exn (Prepared × Next)
decided q (s, err e) = (s, err e)
decided q (s, ok c) = (s, ok (q, decide s q.key c))

-- Up to the first wait.
unfoldable pub begin :
    Proxy → MappingStore → Result Exn Prepared → ℕ → MappingStore × Result Exn (Prepared × Next)
begin p s (err e) now = (s, err e)
begin p s (ok q) now =
    decided q (claim_request s q.key (operation_name q.mutation) (p.fingerprint q.payload) now)
