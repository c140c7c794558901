-- ===== src/VoiceSocket/Submit.antt =====
-- What backend/voice_console/voice_socket.py does behind the messages: `begin_run`,
-- `recording_timeout`, and the reading of a run by `stream_subscription`.
use hermes_voice_console.Prelude.{
  Bool, true, not, ◌&&◌, Option, none, some, List, [], ◌∷◌, Text, text_Eq, ◌==◌, codes, strip,
  Result, ok, err, if◌then◌else◌,
}
use hermes_voice_console.Protocol.{
  VoiceProtocolError, Code, protocol_error, conversation_locked, target_error, internal_error,
  recording_timeout, sanitize_provider_error,
}
use hermes_voice_console.Recording.{expire_if_active, is_cancelled}
use hermes_voice_console.Realtime.Json.{Json, Fields, get, equals_text, truthy, str_of}
use hermes_voice_console.VoiceSocket.{Frame, error, acceptance_unknown, Socket}
use hermes_voice_console.VoiceSocket.Approvals.{safe_approval_event}

-- An error with a text of another component.
abbrev pub error_with : Code → Text → VoiceProtocolError
error_with c m = record { code = c; message = m; recoverable = true }

-- What `runs.start` raises. `HermesApiError` is a `RuntimeError`.
pub data StartFailure : Type 0 where
  unknown : Text → StartFailure
  runtime api : Text → StartFailure
  other : StartFailure

-- `isinstance(exc, RuntimeError)`
abbrev is_runtime_error : StartFailure → Option Text
is_runtime_error (runtime m) = some m
is_runtime_error (api m) = some m
is_runtime_error _ = none

-- The clauses of `begin_run` behind `AcceptanceUnknown`, in their order.
abbrev clauses : StartFailure → Option Text → Frame
clauses e (some m) = error (error_with conversation_locked m)
clauses (api m) none = error (error_with target_error (sanitize_provider_error m))
clauses e none = error (protocol_error internal_error "internal target error")

abbrev except : Text → StartFailure → Frame
except turn_id (unknown local_turn_id) = acceptance_unknown turn_id local_turn_id
except turn_id e = clauses e (is_runtime_error e)

-- `begin_run`: the run that is subscribed then, and what is sent. The result of `runs.start` is the run
-- id of the record.
unfoldable pub begin_run : Text → Result StartFailure Text → Socket → Socket × List Frame
begin_run turn_id (ok run_id) s = (record s { subscribed_run_id = some run_id }, [])
begin_run turn_id (err e) s = (s, except turn_id e ∷ [])

-- `recording_timeout`, when its time is over
unfoldable pub recording_timed_out : Text → Socket → Socket × List Frame
recording_timed_out turn_id s =
    let (recorder, was_active) = expire_if_active s.recording_session turn_id in
    (
      record s { recording_session = recorder; timer = none },
      if was_active
          then error (protocol_error recording_timeout "recording exceeded max wall-clock duration")
            ∷ []
          else [],
    )

-- The loop of `stream_subscription` over the events up to the end marker: the events that are sent, and
-- the final text.
unfoldable pub stream_events : (Json → Text) → Bool → List Fields → Text → List Fields × Text
stream_events show persistent [] final_text = ([], final_text)
stream_events show persistent (e ∷ es) final_text =
    let event = safe_approval_event e persistent in
    let (sent, last) = stream_events show persistent es (
      if equals_text (get event (codes "type")) (codes "agent.completed")
      then (if truthy (get event (codes "text"))
          then str_of show (get event (codes "text"))
          else [])
      else final_text) in
    (event ∷ sent, last)

-- Whether the answer is spoken when the stream has ended.
unfoldable pub speaks : Bool → Socket → Text → Text → Bool
speaks allow_tts s turn_id final_text =
    allow_tts
    && s.open_socket
    && s.speak_replies
    && not (strip final_text == [])
    && not (is_cancelled s.recording_session turn_id)
