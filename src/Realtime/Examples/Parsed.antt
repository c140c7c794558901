-- ===== src/Realtime/Examples/Parsed.antt =====
-- Answers of Hermes to the proxy of backend/voice_console/realtime, at concrete inputs.
use hermes_voice_console.Prelude.{
  ◌≡◌, ◌↔◌, refl, true, some, [], ◌∷◌, Text, codes, ok, text_eq, contains, starts_with,
}
use hermes_voice_console.Realtime.Json.{
  Json, boolean, same_keys, integer, text, array, object, nil, cons, Fields, end, field, get,
  has_key, put, one_of, items_length, take_items,
}
use hermes_voice_console.Realtime.Contracts.{validate_identifier, matches_identifier}
use hermes_voice_console.Realtime.Sanitize.{safe, safe_text, has_marker}
use hermes_voice_console.Realtime.Sanitize.Clean.{IsClean, safe-IsClean}
use hermes_voice_console.Realtime.Responses.{id_of, name_of}
use hermes_voice_console.Realtime.Responses.Commands.{CommandView, parse_command}
use hermes_voice_console.Realtime.Responses.Commands.Sound.{Acknowledges, parse_command_iff}
use hermes_voice_console.Realtime.Responses.Events.{
  EventsView, check_id, check_payload, payload_of, parse_event, parse_each, is_cursor, parse_events,
}
use hermes_voice_console.Realtime.Responses.Events.Sound.{IsPage, parse_events_ok}
use hermes_voice_console.Realtime.Responses.Jobs.{
  parse_job, job_result, safe_selection, check_job, check_collection, check_items, check_owner,
  has_value, same_value, attempt_ids, check_attempts, elements,
}
use hermes_voice_console.Realtime.Responses.Jobs.Sound.{IsJobOf, parse_job_ok}

abbrev same_case : Text → Text
same_case t = t

abbrev shown : Json → Text
shown v = codes "1"

abbrev leaky : Json
leaky = object (
    field (codes "text") (text (codes "sk-1")) (
      field (codes "password") (text (codes "x"))
        (field (codes "choices") (array (cons (integer 1) nil)) end)))

safe-leaky :
    safe same_case 0 leaky
    ≡ object (
        field
          (codes "text")
          (text (codes "[redacted]"))
          (field (codes "choices") (array (cons (integer 1) nil)) end))
unfolding safe safe_text has_marker contains starts_with one_of take_items text_eq
safe-leaky = refl

safe-IsClean_example : IsClean same_case 7 (safe same_case 0 leaky)
safe-IsClean_example = safe-IsClean same_case leaky

abbrev page : Fields
page = field (codes "conversation_id") (text (codes "c")) (
    field (codes "events")
      (array (
        cons
          (object (
            field (codes "event_id") (text (codes "e")) (
              field (codes "conversation_id") (text (codes "c"))
                (field (codes "type") (text (codes "t")) end))))
          nil))
      (field (codes "last_event_id") (text (codes "e")) end))

abbrev page_view : EventsView
page_view = record {
  conversation_id = codes "c";
  events =
      record {
        event_id = codes "e";
        event_type = codes "t";
        conversation_id = codes "c";
        copied = end;
        payload = object end;
      }
      ∷ [];
  last_event_id = text (codes "e");
}

page_parsed : parse_events same_case shown page (codes "c") (codes "s") ≡ ok page_view
unfolding parse_events parse_each parse_event check_payload payload_of check_id is_cursor id_of
    validate_identifier matches_identifier get has_key items_length safe one_of text_eq
page_parsed = refl

parse_events_ok_example : IsPage same_case page (codes "c") page_view
parse_events_ok_example =
    parse_events_ok same_case shown page (codes "c") (codes "s") page_view page_parsed

abbrev attempt : Json
attempt = object (field (codes "worker_attempt_id") (text (codes "a")) end)

abbrev job : Fields
job = field (codes "worker_job_id") (text (codes "j")) (
    field (codes "conversation_key") (text (codes "c")) (
      field (codes "revision") (integer 2) (
        field (codes "attempts") (array (cons attempt nil))
          (field (codes "events") (array (cons attempt nil)) end))))

job_parsed : parse_job same_case shown job (codes "c") (some (codes "j")) ≡ ok job
unfolding parse_job job_result safe_selection check_job check_collection check_items check_owner
    has_value same_value attempt_ids check_attempts elements check_id id_of validate_identifier
    matches_identifier get put safe safe_text has_marker contains starts_with take_items one_of
    text_eq
job_parsed = refl

parse_job_ok_example : IsJobOf job (codes "c") (some (codes "j")) job
parse_job_ok_example =
    parse_job_ok same_case shown job (codes "c") (some (codes "j")) job job_parsed

abbrev acknowledgement : Fields
acknowledgement = field (codes "command_id") (text (codes "x")) (
    field (codes "worker_job_id") (text (codes "j")) (
      field (codes "acknowledgement") (text (codes "applied")) (
        field (codes "revision") (integer 3) (
          field (codes "operation") (text (codes "cancel"))
            (field (codes "control_signal_sent") (boolean true) end)))))

abbrev acknowledged : CommandView
acknowledged = record {
  command_id = codes "x";
  worker_job_id = codes "j";
  acknowledgement = codes "applied";
  revision = 3;
  operation = codes "cancel";
  control_signal_sent = true;
}

parse_command_iff_example :
    (parse_command acknowledgement (codes "x") (codes "j") ≡ ok acknowledged)
    ↔ Acknowledges acknowledgement (codes "x") (codes "j") acknowledged
parse_command_iff_example = parse_command_iff acknowledgement (codes "x") (codes "j") acknowledged

command_parsed : parse_command acknowledgement (codes "x") (codes "j") ≡ ok acknowledged
unfolding parse_command id_of name_of validate_identifier matches_identifier get same_keys has_key
    one_of text_eq
command_parsed = refl
