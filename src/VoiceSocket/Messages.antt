-- ===== src/VoiceSocket/Messages.antt =====
-- What `handle_voice_socket` of backend/voice_console/voice_socket.py does for each type of message.
use hermes_voice_console.Prelude.{
  Bool, true, false, not, ◌&&◌, Option, none, some, List, [], ◌∷◌, Text, text_Eq, ◌==◌, codes,
  strip, is_some, Result, ok, err, if◌then◌else◌,
}
use hermes_voice_console.Protocol.{
  VoiceProtocolError, protocol_error, validate_turn_id, validate_input_text, conversation_locked,
  bad_run_id, bad_approval_decision, persistent_approval_disabled, approval_unavailable,
  unknown_type, internal_error, stt_unavailable, sanitize_provider_error,
}
use hermes_voice_console.Recording.{
  RecordingSession, Raising, start_recording, stop_recording, discard_recording, cancel,
}
use hermes_voice_console.RunStore.{SessionRecord}
use hermes_voice_console.RunStore.Runs.{active_run_for_conversation}
use hermes_voice_console.VoiceFilters.{filter_transcript}
use hermes_voice_console.Realtime.Json.{
  Json, Fields, get, equals_text, is_null, one_of, truthy, str_of,
}
use hermes_voice_console.VoiceSocket.{
  Failure, api_error, runtime_error, provider_unavailable, protocol, error, recording_started,
  recording_stopped, recording_discarded, transcript_final, text_accepted, unknown_acknowledged,
  unrecoverable_acknowledged, tts_cancelled, begin_run, approve, stop, acknowledge_unknown,
  acknowledge_unrecoverable, call, World,
}
use hermes_voice_console.VoiceSocket.Step.{
  Step, ◌>>=◌, ◌>>◌, get_socket, modify, emit, send_json, from, outcome_of, raise_if,
}
use hermes_voice_console.VoiceSocket.Hello.{text_or_empty}
use hermes_voice_console.VoiceSocket.Submit.{error_with}

-- The owned conversation of a message.
pub record Place : Type 0 where
  pub session : SessionRecord
  pub owner_key : Text

-- A method of the recording session.
unfoldable pub recording : {A : Type 0} → (RecordingSession → Raising A) → Step A
recording f s =
    let (recorder, r) = f s.recording_session in
    (record s { recording_session = recorder }, ([], outcome_of r))

-- A value that may be `None`, as the text that the checks take.
abbrev pub given : World → Json → Option Text
given w v = if is_null v then none else some (str_of w.show v)

unfoldable pub turn_id_of : World → Fields → Bool → Step Text
turn_id_of w d required =
    from (outcome_of (validate_turn_id (given w (get d (codes "turn_id"))) required))

-- `if active: raise VoiceProtocolError("conversation_locked", …)`; the status is left out
unfoldable pub require_unlocked : World → Place → Step (Unit {0})
require_unlocked w p =
    raise_if (is_some (active_run_for_conversation w.store p.session.conversation_id p.owner_key))
      (protocol_error conversation_locked "conversation is locked")

unfoldable pub start_message : World → Fields → Place → Step (Unit {0})
unfolding recording turn_id_of
start_message w d p = do
  require_unlocked w p
  turn_id ← turn_id_of w d true
  recording (λ r. start_recording r turn_id w.now)
  modify (λ s. record s { timer = some turn_id })
  send_json (recording_started turn_id)

-- The handlers around the transcription.
abbrev pub heard : Result Failure (Text × Text) → Result VoiceProtocolError (Text × Text)
heard (ok t) = ok t
heard (err (provider_unavailable m)) = err (error_with stt_unavailable (sanitize_provider_error m))
heard (err (protocol e)) = err e
heard (err _) = err (protocol_error internal_error "internal voice error")

unfoldable pub transcribed :
    World → Text → Result VoiceProtocolError (Text × Text) → Step (Unit {0})
transcribed w turn_id (err e) = send_json (error e)
transcribed w turn_id (ok (provider, transcript)) = do
  spoken ← from (outcome_of (filter_transcript w.lower transcript))
  text ← from (outcome_of (validate_input_text (some spoken) w.max_input_text_chars))
  send_json (transcript_final turn_id text provider)
  emit (call (begin_run turn_id text))

-- `finish_recording`: the timer goes before the turn is looked at
unfoldable pub finish_recording : World → Text → Step (Unit {0})
unfolding recording transcribed
finish_recording w turn_id = do
  modify (λ s. record s { timer = none })
  stopped ← recording (λ r. stop_recording r turn_id w.now)
  send_json (recording_stopped stopped.0)
  transcribed w stopped.0 (heard (w.spoken stopped.1))

unfoldable pub stop_message : World → Fields → Step (Unit {0})
unfolding turn_id_of
stop_message w d = do turn_id ← turn_id_of w d true; finish_recording w turn_id

unfoldable pub cancel_message : World → Fields → Step (Unit {0})
unfolding recording turn_id_of
cancel_message w d = do
  turn_id ← turn_id_of w d true
  modify (λ s. record s { timer = none })
  _ ← recording (λ r. discard_recording r turn_id)
  send_json (recording_discarded turn_id)

unfoldable pub submit_message : World → Fields → Place → Step (Unit {0})
unfolding turn_id_of
submit_message w d p = do
  require_unlocked w p
  turn_id ← turn_id_of w d true
  text ←
      from
        (outcome_of (validate_input_text (given w (get d (codes "text"))) w.max_input_text_chars))
  send_json (text_accepted turn_id)
  emit (call (begin_run turn_id text))

-- `str(message.get("run_id") or subscribed_run_id or "")`
abbrev pub run_of : World → Fields → Option Text → Text
run_of w d none = text_or_empty w d (codes "run_id")
run_of w d (some subscribed) =
    if truthy (get d (codes "run_id")) then text_or_empty w d (codes "run_id") else subscribed

abbrev pub allowed_decisions : List Text
allowed_decisions = codes "once" ∷ codes "session" ∷ codes "always" ∷ codes "deny" ∷ []

-- `except RuntimeError`, which takes `HermesApiError` too
abbrev pub unavailable : Result Failure (Unit {0}) → Result Failure (Unit {0})
unavailable (err (runtime_error m)) = err (protocol (error_with approval_unavailable m))
unavailable (err (api_error m)) = err (protocol (error_with approval_unavailable m))
unavailable r = r

unfoldable pub approve_message : World → Fields → Place → Step (Unit {0})
approve_message w d p = do
  s ← get_socket
  raise_if (run_of w d s.subscribed_run_id == []) (protocol_error bad_run_id "run_id is required")
  raise_if (not (one_of allowed_decisions (w.lower (strip (text_or_empty w d (codes "decision"))))))
      (protocol_error bad_approval_decision "decision must be once, session, always, or deny")
  raise_if
      (w.lower (strip (text_or_empty w d (codes "decision"))) == codes "always"
        && not w.allow_persistent_approvals)
      (protocol_error persistent_approval_disabled
        "persistent approvals are disabled by deployment policy")
  emit (
      call (
        approve (run_of w d s.subscribed_run_id)
          (w.lower (strip (text_or_empty w d (codes "decision")))) p.owner_key))
  from (
      unavailable (
        w.approval (run_of w d s.subscribed_run_id)
          (w.lower (strip (text_or_empty w d (codes "decision")))) p.owner_key))

unfoldable pub stop_run_message : World → Fields → Place → Step (Unit {0})
stop_run_message w d p = do
  s ← get_socket
  raise_if (run_of w d s.subscribed_run_id == []) (protocol_error bad_run_id "run_id is required")
  emit (call (stop (run_of w d s.subscribed_run_id) p.owner_key))
  from (w.stopping (run_of w d s.subscribed_run_id) p.owner_key)

unfoldable pub acknowledge_unknown_message : World → Fields → Place → Step (Unit {0})
acknowledge_unknown_message w d p = do
  raise_if (text_or_empty w d (codes "local_turn_id") == [])
      (protocol_error bad_run_id "local_turn_id is required")
  emit (call (acknowledge_unknown (text_or_empty w d (codes "local_turn_id")) p.owner_key))
  from (w.acknowledging_unknown (text_or_empty w d (codes "local_turn_id")) p.owner_key)
  send_json (unknown_acknowledged (text_or_empty w d (codes "local_turn_id")))

unfoldable pub acknowledge_unrecoverable_message : World → Fields → Place → Step (Unit {0})
acknowledge_unrecoverable_message w d p = do
  raise_if (text_or_empty w d (codes "run_id") == [])
      (protocol_error bad_run_id "run_id is required")
  emit (call (acknowledge_unrecoverable (text_or_empty w d (codes "run_id")) p.owner_key))
  from (w.acknowledging_unrecoverable (text_or_empty w d (codes "run_id")) p.owner_key)
  send_json (unrecoverable_acknowledged (text_or_empty w d (codes "run_id")))

-- `tts_session.cancel`
unfoldable pub cancel_speech_message : World → Fields → Step (Unit {0})
unfolding recording turn_id_of
cancel_speech_message w d = do
  turn_id ← turn_id_of w d false
  recording (λ r. cancel r (some turn_id) w.now)
  send_json (tts_cancelled turn_id)

-- The messages behind the check that the socket has been greeted.
unfoldable pub owned_message : World → Fields → Json → Place → Step (Unit {0})
owned_message w d type p =
    if equals_text type (codes "recording.start")
    then start_message w d p
    else if equals_text type (codes "recording.stop")
    then stop_message w d
    else if equals_text type (codes "recording.cancel")
    then cancel_message w d
    else if equals_text type (codes "text.submit")
    then submit_message w d p
    else if equals_text type (codes "approval.resolve")
    then approve_message w d p
    else if equals_text type (codes "agent.stop")
    then stop_run_message w d p
    else if equals_text type (codes "run.acceptance_unknown.acknowledge")
    then acknowledge_unknown_message w d p
    else if equals_text type (codes "run.unrecoverable.acknowledge")
    then acknowledge_unrecoverable_message w d p
    else if equals_text type (codes "tts.cancel")
    then cancel_speech_message w d
    else from (err (protocol (protocol_error unknown_type "unknown message type")))
