-- ===== src/Protocol/Examples.antt =====
-- Runs of the checks of backend/voice_console/protocol.py on small texts.
use hermes_voice_console.Prelude.{
  starts_with, contains, is_space, strip, text_eq, ◌≡◌, refl, true, some, Text, codes, ok, err,
}
use hermes_voice_console.Protocol.{
  is_turn_char, matches_turn_id, validate_turn_id, validate_session_key, protocol_error,
  bad_turn_id, stripped, sanitize_provider_error,
}
use hermes_voice_console.Protocol.TurnId.{IsTurnId, validate_turn_id-IsTurnId}

abbrev sent : Text
sent = codes " t-1 \n"

sent_accepted : validate_turn_id (some sent) true ≡ ok (codes "t-1")
unfolding validate_turn_id text_eq strip is_space matches_turn_id is_turn_char
sent_accepted = refl

validate_turn_id_bad :
    validate_turn_id (some (codes "t 1")) true
    ≡ err (protocol_error bad_turn_id "turn_id has invalid characters (allowed: A-Za-z0-9_.:-)")
unfolding validate_turn_id text_eq strip is_space matches_turn_id is_turn_char
validate_turn_id_bad = refl

validate_session_key_ok :
    validate_session_key (some (codes " k\t")) (codes "session_key") ≡ ok (codes "k")
unfolding validate_session_key text_eq strip is_space contains starts_with
validate_session_key_ok = refl

sanitize_plain : sanitize_provider_error (codes " no\n  route ") ≡ codes "no route"
unfolding sanitize_provider_error contains is_space text_eq starts_with
sanitize_plain = refl

sanitize_secret :
    sanitize_provider_error (codes "key sk-12")
    ≡ codes "provider failed; check server logs and credentials"
unfolding sanitize_provider_error contains is_space text_eq starts_with
sanitize_secret = refl

validate_turn_id-IsTurnId_example : IsTurnId (codes "t-1") × (codes "t-1" ≡ stripped (some sent))
validate_turn_id-IsTurnId_example =
    validate_turn_id-IsTurnId (some sent) (codes "t-1") sent_accepted
