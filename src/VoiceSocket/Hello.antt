-- ===== src/VoiceSocket/Hello.antt =====
-- The first message of a socket: `validate_hello` of backend/voice_console/protocol.py, and the branch
-- of `hello` of backend/voice_console/voice_socket.py.
use hermes_voice_console.Prelude.{
  String, Bool, true, false, not, ◌&&◌, ◌||◌, Option, none, some, List, [], ◌∷◌, Text, text_Eq,
  ◌==◌, codes, Result, ok, err, if◌then◌else◌,
}
use hermes_voice_console.Protocol.{
  VoiceProtocolError, protocol_error, unsupported_version, unsupported_mode, unsupported_format,
  unsupported_sample_rate, duplicate_hello, session_required, session_not_found,
  target_capability_missing, Code,
}
use hermes_voice_console.RunStore.{
  SessionRecord, RunRecord, is_acceptance_unknown, is_unrecoverable,
}
use hermes_voice_console.RunStore.Runs.{active_run_for_conversation}
use hermes_voice_console.Realtime.Json.{
  Json, Fields, array, object, text, get, has_key, equals_text, equals_nat, one_of, truthy, str_of,
}
use hermes_voice_console.VoiceSocket.{
  Failure, protocol, unexpected, Frame, ready, acceptance_unknown, unrecoverable, subscribe, call,
  World,
}
use hermes_voice_console.VoiceSocket.Step.{
  Step, ◌>>=◌, ◌>>◌, pure, get_socket, modify, emit, send_json, from, raise_if,
}

-- `msg.get(key, default) != default`
abbrev differs : Fields → Text → (Json → Bool) → Bool
differs d key is_default = has_key d key && not (is_default (get d key))

-- An error that is not recoverable.
abbrev pub fatal : Code → String → VoiceProtocolError
fatal c m = record { code = c; message = codes m; recoverable = false }

-- `mode in {"push_to_talk", "half_duplex"}`; nothing for a value that has no hash
abbrev known_mode : Json → Option Bool
known_mode (text t) = some (one_of (codes "push_to_talk" ∷ codes "half_duplex" ∷ []) t)
known_mode (array vs) = none
known_mode (object d) = none
known_mode _ = some false

check_mode : Option Bool → Result Failure (Unit {0})
check_mode none = err unexpected
check_mode (some true) = ok tt
check_mode (some false) = err (protocol (protocol_error unsupported_mode "unsupported mode"))

mode_of : Fields → Result Failure (Unit {0})
unfolding check_mode
mode_of d =
    if has_key d (codes "mode") then check_mode (known_mode (get d (codes "mode"))) else ok tt

-- The values that the messages show are left out.
unfoldable pub validate_hello : Fields → Step (Unit {0})
unfolding mode_of
validate_hello d = do
  raise_if (differs d (codes "version") (λ v. equals_nat v 1))
      (fatal unsupported_version "unsupported protocol version")
  from (mode_of d)
  raise_if (differs d (codes "input_format") (λ v. equals_text v (codes "pcm16")))
      (protocol_error unsupported_format "unsupported input_format")
  raise_if (differs d (codes "input_sample_rate") (λ v. equals_nat v 16000))
      (protocol_error unsupported_sample_rate "unsupported input_sample_rate")

-- `str(message.get(key) or "")`
unfoldable pub text_or_empty : World → Fields → Text → Text
text_or_empty w d key = if truthy (get d key) then str_of w.show (get d key) else []

abbrev pub found : Option SessionRecord → Result Failure SessionRecord
found (some r) = ok r
found none = err (protocol (protocol_error session_not_found "owned conversation was not found"))

abbrev pub locked_frame : Option RunRecord → List Frame
locked_frame none = []
locked_frame (some r) =
    if is_acceptance_unknown r.status
    then acceptance_unknown r.turn_id r.local_turn_id ∷ []
    else if is_unrecoverable r.status
    then unrecoverable r.run_id r.turn_id ∷ []
    else []

abbrev run_id_or : Option Text → Text → Text
run_id_or none t = t
run_id_or (some u) t = u

-- `elif not resume_run_id and locked_run and locked_run.run_id`
abbrev pub resumed_run : Text → Option RunRecord → Text
resumed_run asked none = asked
resumed_run asked (some r) =
    if is_acceptance_unknown r.status || is_unrecoverable r.status || not (asked == [])
    then asked
    else run_id_or r.run_id asked

unfoldable pub send_frames : List Frame → Step (Unit {0})
send_frames [] = pure tt
send_frames (f ∷ fs) = do send_json f; send_frames fs

unfoldable pub resume : World → Fields → Text → Text → Step (Unit {0})
resume w d owner_key run_id = if run_id == [] then pure tt else do
  from (w.follow run_id owner_key (get d (codes "last_sequence")))
  modify (λ s. record s { subscribed_run_id = some run_id })
  emit (call (subscribe run_id owner_key))

-- From the frame `ready` on.
unfoldable pub greeted : World → Fields → Text → SessionRecord → Step (Unit {0})
unfolding send_frames resume
greeted w d target session = do
  s ← get_socket
  send_json (ready target session.conversation_id s.speak_replies)
  send_frames (
      locked_frame
        (active_run_for_conversation w.store session.conversation_id (w.owner_key target)))
  resume w d (w.owner_key target) (
      resumed_run (text_or_empty w d (codes "resume_run_id"))
        (active_run_for_conversation w.store session.conversation_id (w.owner_key target)))

unfoldable pub hello : World → Fields → Step (Unit {0})
unfolding greeted
hello w d = do
  s ← get_socket
  raise_if s.hello_received (fatal duplicate_hello "hello is only allowed once per connection")
  validate_hello d
  raise_if
      (text_or_empty w d (codes "target") == []
        || text_or_empty w d (codes "conversation_id") == [])
      (protocol_error session_required "hello.target and hello.conversation_id are required")
  target ← from (w.targets (text_or_empty w d (codes "target")))
  modify (λ s'. record s' { target = some target })
  session ← from (found (w.sessions (text_or_empty w d (codes "conversation_id")) target))
  modify (λ s'. record s' {
    session = some session;
    speak_replies =
        if has_key d (codes "speak_replies")
        then truthy (get d (codes "speak_replies"))
        else w.speak_replies_default;
  })
  supports ← from (w.supports target)
  raise_if (not supports)
      (fatal target_capability_missing "target lacks required runs/event capabilities")
  modify (λ s'. record s' { hello_received = true })
  greeted w d target session
