-- ===== src/Realtime/Examples/Creations.antt =====
-- Calls of `create_session` of backend/voice_console/realtime/service.py on the small store.
use hermes_voice_console.Prelude.{
  ◌≡◌, ◌≢◌, refl, true, false, none, some, [], ◌∷◌, Text, text_Eq, text_eq, codes, ok, err, first,
  strip, lstrip, is_space, starts_with, contains, update_where,
}
use hermes_voice_console.RunStore
use hermes_voice_console.RunStore.Sessions
use hermes_voice_console.Realtime.{proxy, proxy_error, complete}
use hermes_voice_console.Realtime.Json.{one_of, get, Fields, text, integer, end, field}
use hermes_voice_console.Realtime.Responses.{
  expected, SessionView, parse_request_state, waiting_of, parse_session, id_of, generation_of,
  name_of, sdp_of, version_of,
}
use hermes_voice_console.Realtime.Responses.Sound.{ShownBy, parse_session_ok}
use hermes_voice_console.Realtime.Responses.Results.{activated}
use hermes_voice_console.Realtime.Store.{
  claim_request, reuses, is_request, set_request_state, complete_request, MappingStore, new_request,
  other_input,
}
use hermes_voice_console.Realtime.Store.Sessions.{record_session, has_id, made_by, new_session_row}
use hermes_voice_console.Realtime.Store.Claims.{row_of}
use hermes_voice_console.Realtime.Contracts.{
  validate_identifier, matches_identifier, require_identifier, require_nonempty_string,
  validate_sdp,
}
use hermes_voice_console.Realtime.Service.{Proxy, target, client}
use hermes_voice_console.Realtime.Service.Finish.{submit, Answers}
use hermes_voice_console.Realtime.Service.Creation.{
  Creation, Compatibility, read_creation, conversation_of, turn_mode_of, creation_key, offered,
  claim_creation, finish_creation, create_session, created,
}
use hermes_voice_console.Realtime.Service.Lookup.{
  request_result, read_lookup, conversation_row, parse_completed,
}
use hermes_voice_console.Realtime.Service.Lookup.Recorded.{Tells, request_result_ok}
use hermes_voice_console.Realtime.Service.Creation.Made.{OwnsConversation, Found, create_session_ok}
use hermes_voice_console.Realtime.Service.Creation.Modes.{claim_creation-unsupported}
use hermes_voice_console.Realtime.Examples.{
  service, console, store, session, home, field_text, clock, not_found,
}

-- A service whose hash keeps the turn mode.
abbrev proxy_of_modes : Proxy
proxy_of_modes = record service { fingerprint = λ d. field_text (get d (codes "turn_mode")) }

abbrev with_mode : Text → Fields
with_mode mode = field (codes "target") (text (codes "home")) (
    field (codes "conversation_id") (text (codes "c1")) (
      field (codes "client_request_id") (text (codes "q9")) (
        field (codes "sdp_offer") (text (codes "v=0"))
          (field (codes "turn_mode") (text mode) end))))

abbrev creation : Creation
creation = record {
  target = home;
  conversation_id = codes "c1";
  request_id = codes "q9";
  sdp_offer = codes "v=0";
}

abbrev talk : RunStore.SessionRecord
talk = record {
  conversation_id = codes "c1";
  target_name = codes "home";
  hermes_session_id = codes "s1";
  memory_session_key = codes "m1";
  owner_key = codes "o1";
  title = codes "Talk";
  created_at = 1;
  updated_at = 1;
}

abbrev opened_session : Fields
opened_session = field (codes "client_request_id") (text (codes "q9")) (
    field (codes "realtime_session_id") (text (codes "rt2")) (
      field (codes "conversation_id") (text (codes "c1")) (
        field (codes "session_generation") (integer 1) (
          field (codes "state") (text (codes "provisioning")) (
            field (codes "turn_mode") (text (codes "manual"))
              (field (codes "answer_sdp") (text (codes "v=0")) end))))))

abbrev opening : Answers
opening = record { submission = ok opened_session; lookup = err (proxy not_found) }

abbrev view : SessionView
view = record {
  contract_version = codes "1.0";
  realtime_session_id = codes "rt2";
  conversation_id = codes "c1";
  session_generation = 1;
  state = codes "provisioning";
  turn_mode = codes "manual";
  answer_sdp = some (codes "v=0");
}

abbrev compatible : Compatibility
compatible = record { compatible = true; reasons = [] }

abbrev created_store : MappingStore
created_store = record {
  sessions = session ∷ new_session_row view (codes "o1") (codes "home") (codes "q9") 4 ∷ [];
  requests =
      record (new_request (creation_key talk creation) (codes "create") (codes "manual") 3) {
        state = complete;
        updated_at = 5;
      }
      ∷ [];
}

session_created :
    create_session proxy_of_modes console store
      (codes "o1")
      (with_mode (codes "manual"))
      (ok compatible)
      3
      opening
      clock
    ≡ (created_store, ok (created view (codes "q9")))
unfolding create_session read_creation claim_creation conversation_of finish_creation turn_mode_of
    parse_session id_of generation_of name_of sdp_of version_of parse_request_state waiting_of
    one_of get submit target client validate_identifier matches_identifier require_identifier
    require_nonempty_string validate_sdp strip lstrip is_space starts_with contains first text_eq
    Sessions.require_session Sessions.is_session claim_request reuses is_request set_request_state
    complete_request record_session has_id made_by update_where
session_created = refl

create_session_ok_example :
    (n : Creation) × (c : RunStore.SessionRecord) × (read_creation proxy_of_modes
        (with_mode (codes "manual"))
      ≡ ok n)
    × OwnsConversation proxy_of_modes console (codes "o1") n c
    × ((codes "q9" ≡ n.request_id)
        × (view.conversation_id ≡ n.conversation_id)
        × Found created_store view c.owner_key n.target.name n.request_id)
create_session_ok_example =
    create_session_ok proxy_of_modes console store created_store (codes "o1")
      (with_mode (codes "manual")) (ok compatible) 3 opening clock view (codes "q9") session_created

conversation_owned : conversation_of proxy_of_modes console (codes "o1") creation ≡ ok talk
unfolding conversation_of Sessions.require_session Sessions.is_session first text_eq
conversation_owned = refl

unused_request : row_of store (codes "o1") (codes "home") (codes "q9") ≡ none
unfolding row_of first
unused_request = refl

modes_differ :
    proxy_of_modes.fingerprint (offered creation (with_mode (codes "automatic")))
    ≢ proxy_of_modes.fingerprint (offered creation (with_mode (codes "manual")))
unfolding get text_eq
modes_differ e = cc

automatic_unsupported :
    one_of (codes "server_vad" ∷ codes "manual" ∷ []) (codes "automatic") ≡ false
unfolding one_of text_eq
automatic_unsupported = refl

mode_read : get (with_mode (codes "automatic")) (codes "turn_mode") ≡ text (codes "automatic")
unfolding get text_eq
mode_read = refl

abbrev claimed_automatic : MappingStore
claimed_automatic = record store {
  requests = new_request (creation_key talk creation) (codes "create") (codes "automatic") 3 ∷ [];
}

automatic_claimed :
    (claim_creation proxy_of_modes console store
      (codes "o1")
      (with_mode (codes "automatic"))
      creation
      (ok compatible)
      3).0
    ≡ claimed_automatic
unfolding claim_creation conversation_of Sessions.require_session Sessions.is_session first text_eq
    claim_request reuses is_request turn_mode_of one_of get
automatic_claimed = refl

claim_creation-unsupported_example :
    ((claim_creation proxy_of_modes console store
        (codes "o1")
        (with_mode (codes "automatic"))
        creation
        (ok compatible)
        3).1
      ≡ err (proxy_error "invalid_turn_mode" (codes "Unsupported turn mode") 400))
    × (claim_creation proxy_of_modes console claimed_automatic
          (codes "o1")
          (with_mode (codes "manual"))
          creation
          (ok compatible)
          8
        ≡ (claimed_automatic, err other_input))
claim_creation-unsupported_example =
    claim_creation-unsupported proxy_of_modes console store claimed_automatic (codes "o1")
      (with_mode (codes "automatic")) (with_mode (codes "manual")) creation [] (codes "automatic") 3
      8 talk conversation_owned unused_request mode_read automatic_unsupported modes_differ
      automatic_claimed

session_parsed : parse_session service.show opened_session (some (codes "c1")) none true ≡ ok view
unfolding parse_session id_of generation_of name_of sdp_of version_of one_of get starts_with text_eq
    validate_identifier matches_identifier
session_parsed = refl

parse_session_ok_example :
    (expected none view.realtime_session_id ≡ true)
    × (expected (some (codes "c1")) view.conversation_id ≡ true)
    × ShownBy opened_session true view
parse_session_ok_example =
    parse_session_ok service.show opened_session (some (codes "c1")) none true view session_parsed

-- The answer to the creation was lost, and is looked up.
abbrev found_store : MappingStore
found_store = record created_store { requests = [] }

creation_found :
    request_result service console store
      (codes "o1")
      (codes "c1")
      (codes "q9")
      (codes "home")
      (ok opened_session)
      clock
    ≡ (found_store, ok (activated view (codes "q9")))
unfolding request_result read_lookup conversation_row parse_completed parse_session id_of
    generation_of name_of sdp_of version_of parse_request_state waiting_of one_of get target client
    validate_identifier matches_identifier starts_with first text_eq Sessions.require_session
    Sessions.is_session set_request_state complete_request record_session has_id made_by
    update_where
creation_found = refl

request_result_ok_example :
    Tells service console
      (codes "o1")
      (codes "c1")
      (codes "q9")
      (codes "home")
      store
      found_store
      (activated view (codes "q9"))
request_result_ok_example =
    request_result_ok service console (codes "o1") (codes "c1") (codes "q9") (codes "home") store
      (ok opened_session) clock found_store (activated view (codes "q9")) creation_found
