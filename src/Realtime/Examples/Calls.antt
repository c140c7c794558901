-- ===== src/Realtime/Examples/Calls.antt =====
-- Calls of the handlers of backend/voice_console/realtime/service.py on the small store.
use hermes_voice_console.Prelude.{
  ℕ, ◌+◌, ◌-◌, ◌≤◌, ◌≡◌, refl, ap, ◌∙◌, true, false, none, List, [], ◌∷◌, text_Eq, text_eq, codes,
  ok, err, first, update_where, strip, lstrip, is_space,
}
use hermes_voice_console.RunStore.Sessions
use hermes_voice_console.Realtime.{proxy, ambiguous_mutation}
use hermes_voice_console.Realtime.Json.{one_of, get}
use hermes_voice_console.Realtime.Responses.{parse_request_state, waiting_of}
use hermes_voice_console.Realtime.Responses.Results.{input_accepted, parse_input_result}
use hermes_voice_console.Realtime.Store.{
  claim_request, reuses, is_request, set_request_state, complete_request, request_response,
}
use hermes_voice_console.Realtime.Store.Sessions.{require_session, is_owned}
use hermes_voice_console.Realtime.Store.Claims.{row_of}
use hermes_voice_console.Realtime.Contracts.{
  validate_identifier, matches_identifier, require_identifier, require_nonempty_string,
  validate_generation,
}
use hermes_voice_console.Realtime.Service.{
  owned_mapping, owned_row, target, require_conversation, client, submits, begin,
}
use hermes_voice_console.Realtime.Service.Finish.{finish, submit, conclude, result_of, touch, serve}
use hermes_voice_console.Realtime.Service.Actions.{input_action, session_action, prepare_action}
use hermes_voice_console.Realtime.Service.Events.{
  acts, enter, Event, entered, finished, submissions, submitted_by, creations, step,
}
use hermes_voice_console.Realtime.Service.Used.{used, times}
use hermes_voice_console.Realtime.Service.Again.{serve-begin_again}
use hermes_voice_console.Realtime.Service.Refused.{serve_refused}
use hermes_voice_console.Realtime.Service.Permits.{Permits, enter-Permits}
use hermes_voice_console.Realtime.Service.Once.{submissions-once}
use hermes_voice_console.Realtime.Examples.{
  service, console, store, call, key, prepared, prepare_input, clock, not_found, answers,
  unavailable, refusals, claimed_store, settled_store,
}

-- The first call submits, and the reply is stored.
input_served :
    session_action service console store input_action (call (codes "q1")) 3 answers clock
    ≡ record { store = settled_store; submitted = true; reply = ok (input_accepted (codes "q1")) }
unfolding session_action begin claim_request first reuses text_eq serve finish submit conclude
    parse_request_state waiting_of one_of get result_of parse_input_result touch complete_request
    set_request_state update_where is_request prepare_action owned_mapping owned_row target
    require_conversation client require_session Sessions.require_session validate_identifier
    matches_identifier require_identifier require_nonempty_string validate_generation strip lstrip
    is_space is_owned Sessions.is_session
input_served = refl

abbrev entry : ℕ → Event
entry now = entered console (acts input_action (call (codes "q1"))) now

abbrev events : List Event
events = entry 3 ∷ entry 4 ∷ finished prepared submits answers clock ∷ entry 6 ∷ []

submissions_counted : submissions service store events ≡ key ∷ []
unfolding submissions submitted_by step enter begin claim_request first reuses text_eq finish submit
    conclude parse_request_state waiting_of one_of get result_of parse_input_result touch
    complete_request set_request_state update_where is_request request_response prepare_action
    owned_mapping owned_row target require_conversation client require_session
    Sessions.require_session validate_identifier matches_identifier require_identifier
    require_nonempty_string validate_generation strip lstrip is_space is_owned Sessions.is_session
submissions_counted = refl

submissions-once_example :
    times (codes "o1") (codes "home") (codes "q1") (submissions service store events)
    ≤ (1 - used (codes "o1") (codes "home") (codes "q1") store)
      + times (codes "o1") (codes "home") (codes "q1") (creations service store events)
submissions-once_example =
    submissions-once (codes "o1") (codes "home") (codes "q1") service store events

input_begun : begin service store (ok prepared) 3 ≡ (claimed_store, ok (prepared, submits))
unfolding begin claim_request first reuses text_eq get
input_begun = refl

entered_input :
    enter service console store (acts input_action (call (codes "q1"))) 3
    ≡ (claimed_store, ok (prepared, submits))
unfolding enter
entered_input = ap (λ x. begin service store x 3) prepare_input ∙ input_begun

enter-Permits_example : Permits service console (call (codes "q1")) prepared
enter-Permits_example =
    enter-Permits service console store claimed_store (acts input_action (call (codes "q1"))) 3
      prepared submits entered_input

input_replied :
    (serve service answers clock (begin service store (ok prepared) 3)).reply
    ≡ ok (input_accepted (codes "q1"))
unfolding serve finish submit conclude parse_request_state waiting_of one_of get result_of
    parse_input_result text_eq begin claim_request first reuses
input_replied = refl

serve-begin_again_example :
    serve service refusals clock (
      begin service
        (serve service answers clock (begin service store (ok prepared) 3)).store
        (ok prepared)
        8)
    ≡ record {
      store = (serve service answers clock (begin service store (ok prepared) 3)).store;
      submitted = false;
      reply = ok (input_accepted (codes "q1"));
    }
serve-begin_again_example =
    serve-begin_again service store prepared prepared 3 8 answers refusals clock clock
      (input_accepted (codes "q1")) (refl, refl, refl) input_replied refl

unused : row_of store (codes "o1") (codes "home") (codes "q1") ≡ none
unfolding row_of first
unused = refl

input_refused :
    (serve service refusals clock (begin service store (ok prepared) 3)).store ≡ claimed_store
unfolding serve finish submit conclude begin claim_request first reuses get text_eq
input_refused = refl

serve_refused_example :
    ((serve service refusals clock (begin service store (ok prepared) 3)).reply
      ≡ err (proxy unavailable))
    × (serve service refusals clock (begin service claimed_store (ok prepared) 8) ≡ record {
      store = claimed_store;
      submitted = false;
      reply = err (ambiguous_mutation (codes "input"));
    })
serve_refused_example =
    serve_refused service store claimed_store prepared prepared 3 8 refusals refusals clock clock
      unavailable not_found unused refl input_refused (refl, refl, refl) refl refl
