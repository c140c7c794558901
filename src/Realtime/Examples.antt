-- ===== src/Realtime/Examples.antt =====
-- A small Realtime service of backend/voice_console/realtime, its store and one call.
pub mod Parsed
pub mod Ledgers
pub mod Calls
pub mod Creations
pub mod Tables
use hermes_voice_console.Prelude.{
  ℕ, ◌-◌, ◌≤◌, ◌≡◌, refl, ap, ◌∙◌, true, false, none, some, List, [], ◌∷◌, Text, text_Eq, text_eq,
  ◌==◌, codes, arith, ok, err, first, update_where, count_where, if◌then◌else◌, strip, lstrip,
  is_space,
}
use hermes_voice_console.RunStore.Sessions
use hermes_voice_console.RunStore
use hermes_voice_console.Realtime.{ProxyError, proxy, ambiguous_mutation, pending, complete}
use hermes_voice_console.Realtime.Json.{
  one_of, Json, boolean, integer, text, Fields, end, field, get,
}
use hermes_voice_console.Realtime.Responses.{SessionView, parse_request_state, waiting_of}
use hermes_voice_console.Realtime.Responses.Results.{input_accepted, parse_input_result}
use hermes_voice_console.Realtime.Store.{
  SessionRow, RequestRow, MappingStore, RequestKey, claim_request, seen, reuses, is_request,
  set_request_state, complete_request, request_response, new_request,
}
use hermes_voice_console.Realtime.Store.Sessions.{
  require_session, is_owned, has_id, made_by, new_session_row, record_session,
}
use hermes_voice_console.Realtime.Store.Claims.{
  row_of, rows_of, Agrees, Conflicts, claim_request_used,
}
use hermes_voice_console.Realtime.Contracts.{
  validate_identifier, matches_identifier, require_identifier, require_nonempty_string,
  validate_generation,
}
use hermes_voice_console.Realtime.Service.{
  owned_mapping, owned_row, target, require_conversation, client, Proxy, Target, Prepared, input,
  submits, begin,
}
use hermes_voice_console.Realtime.Service.Finish.{
  finish, submit, conclude, result_of, touch, serve, Answers, Stamps,
}
use hermes_voice_console.Realtime.Service.Actions.{
  Call, input_action, session_action, prepare_action, forwarded,
}
use hermes_voice_console.Realtime.Service.Events.{
  acts, enter, Event, entered, finished, submissions, submitted_by, step,
}
use hermes_voice_console.Realtime.Store.Changes.{
  claimed, recorded, unchanged, called, HasUniqueRequests, changes-HasUniqueRequests,
}
use hermes_voice_console.Realtime.Store.Identity.{session_of, SameIdentity, change-SameIdentity}
use hermes_voice_console.Realtime.Store.Records.{Shows, require-record}
use hermes_voice_console.Realtime.Service.Used.{used, times}
use hermes_voice_console.Realtime.Service.Again.{serve-begin_again}
use hermes_voice_console.Realtime.Service.Refused.{serve_refused}
use hermes_voice_console.Realtime.Service.Once.{submissions-once}

abbrev home : Target
home = record { name = codes "home"; realtime_enabled = true; has_credentials = true }

abbrev field_text : Json → Text
field_text (text t) = t
field_text _ = []

-- A service with one target, whose owner keys are the principals and whose hash keeps one field.
abbrev service : Proxy
service = record {
  targets = λ name. if name == codes "home" then some home else none;
  owner_key = λ principal target. principal;
  show = λ v. field_text v;
  fingerprint = λ d. field_text (get d (codes "text"));
}

abbrev console : RunStore.ConsoleStore
console = record {
  sessions =
      record {
        conversation_id = codes "c1";
        target_name = codes "home";
        hermes_session_id = codes "s1";
        memory_session_key = codes "m1";
        owner_key = codes "o1";
        title = codes "Talk";
        created_at = 1;
        updated_at = 1;
      }
      ∷ [];
  runs = [];
}

abbrev session : SessionRow
session = record {
  realtime_session_id = codes "rt1";
  conversation_id = codes "c1";
  target_name = codes "home";
  owner_key = codes "o1";
  create_request_id = codes "q0";
  session_generation = 1;
  state = codes "active";
  last_event_id = none;
  created_at = 2;
  updated_at = 2;
}

abbrev store : MappingStore
store = record { sessions = session ∷ []; requests = [] }

abbrev call : Text → Call
call request_id = record {
  session_id = codes "rt1";
  target_name = codes "home";
  principal = codes "o1";
  body = field (codes "client_request_id") (text request_id) (
      field (codes "session_generation") (integer 1)
        (field (codes "text") (text (codes "Hello")) end));
}

abbrev key : RequestKey
key = record {
  owner_key = codes "o1";
  target_name = codes "home";
  scope_id = codes "rt1";
  request_id = codes "q1";
}

abbrev prepared : Prepared
prepared = record {
  mutation = input;
  mapping = session;
  session_id = codes "rt1";
  key = key;
  generation = 1;
  payload = forwarded session (codes "q1") 1 (field (codes "text") (text (codes "Hello")) end);
}

prepare_input : prepare_action service console store input_action (call (codes "q1")) ≡ ok prepared
unfolding prepare_action owned_mapping owned_row target require_conversation client require_session
    Sessions.require_session validate_identifier matches_identifier require_identifier
    require_nonempty_string validate_generation get first text_eq strip lstrip is_space is_owned
    Sessions.is_session
prepare_input = refl

abbrev clock : Stamps
clock = record { touched = 4; settled = 5 }

-- Hermes accepts the text; a lookup finds nothing.
abbrev not_found : ProxyError
not_found = record {
  code = codes "resource_not_found";
  message = codes "The requested resource was not found";
  status = 404;
}

abbrev accepted : Fields
accepted =
    field (codes "client_request_id") (text (codes "q1")) (
      field (codes "accepted") (boolean true) (field (codes "state") (text (codes "accepted")) end))

abbrev answers : Answers
answers = record { submission = ok accepted; lookup = err (proxy not_found) }

abbrev unavailable : ProxyError
unavailable = record {
  code = codes "target_unavailable";
  message = codes "Could not connect to the Hermes target";
  status = 503;
}

abbrev refusals : Answers
refusals = record { submission = err (proxy unavailable); lookup = err (proxy not_found) }

abbrev row : RequestRow
row = new_request key (codes "input") (codes "Hello") 3

abbrev claimed_store : MappingStore
claimed_store = record store { requests = row ∷ [] }

abbrev settled_store : MappingStore
settled_store = record store {
  requests =
      record row { state = complete; response = some (input_accepted (codes "q1")); updated_at = 5 }
      ∷ [];
}
