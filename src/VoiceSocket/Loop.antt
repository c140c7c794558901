-- ===== src/VoiceSocket/Loop.antt =====
-- The loop of `handle_voice_socket` of backend/voice_console/voice_socket.py: one frame that comes in.
use hermes_voice_console.Prelude.{
  ℕ, Bool, true, false, not, Option, none, some, List, [], ◌∷◌, ◌++◌, Text, text_Eq, codes, length,
  ltb, Result, ok, err, if◌then◌else◌,
}
use hermes_voice_console.Protocol.{
  VoiceProtocolError, protocol_error, bad_json, frame_too_large, no_hello, bad_target, target_error,
  internal_error, sanitize_provider_error,
}
use hermes_voice_console.Recording.{add_audio}
use hermes_voice_console.RunStore.{SessionRecord}
use hermes_voice_console.Realtime.Json.{Json, object, Fields, get, equals_text}
use hermes_voice_console.VoiceSocket.{
  Failure, config_error, api_error, protocol, error, pong, auth_refreshed, close, Output, send,
  call, Socket, World,
}
use hermes_voice_console.VoiceSocket.Step.{
  Outcome, Step, ◌>>=◌, ◌>>◌, get_socket, modify, emit, send_json, from, raise_if,
}
use hermes_voice_console.VoiceSocket.Hello.{hello, fatal}
use hermes_voice_console.VoiceSocket.Submit.{error_with}
use hermes_voice_console.VoiceSocket.Messages.{Place, owned_message, recording}

abbrev not_greeted : VoiceProtocolError
not_greeted = protocol_error no_hello "send hello before other messages"

-- `not hello_received or target is None or session is None`
abbrev pub place_of : World → Bool → Option Text → Option SessionRecord → Result Failure Place
place_of w true (some target) (some session) =
    ok (record { session = session; owner_key = w.owner_key target })
place_of w _ _ _ = err (protocol not_greeted)

-- `auth.refresh`: a token that is refused ends the loop
abbrev pub refreshed : Option ℕ → Step (Unit {0})
refreshed (some expires_at) = send_json (auth_refreshed expires_at)
refreshed none = do modify (λ s. record s { open_socket = false }); emit (call close)

unfoldable pub message : World → Fields → Step (Unit {0})
message w d =
    if equals_text (get d (codes "type")) (codes "auth.refresh")
    then refreshed (w.refresh (get d (codes "token")))
    else if equals_text (get d (codes "type")) (codes "ping")
    then send_json pong
    else if equals_text (get d (codes "type")) (codes "hello")
    then hello w d
    else do
      s ← get_socket
      p ← from (place_of w s.hello_received s.target s.session)
      owned_message w d (get d (codes "type")) p

-- `parse_json_frame`
abbrev pub object_of : Option Json → Result Failure Fields
object_of (some (object d)) = ok d
object_of (some _) = err (protocol (protocol_error bad_json "message must be a JSON object"))
object_of none = err (protocol (protocol_error bad_json "message was not valid JSON"))

unfoldable pub text_frame : World → Text → Step (Unit {0})
text_frame w t = do
  raise_if (ltb w.max_ws_text_chars (length t))
      (fatal frame_too_large "WebSocket text frame exceeds the configured limit")
  d ← from (object_of (w.decode t))
  message w d

-- The handlers of the loop.
abbrev pub error_of : Failure → VoiceProtocolError
error_of (config_error m) = record { code = bad_target; message = m; recoverable = false }
error_of (api_error m) = error_with target_error (sanitize_provider_error m)
error_of (protocol e) = e
error_of _ = protocol_error internal_error "internal voice error"

abbrev pub reported : Outcome (Unit {0}) → Socket × List Output
reported (s, (out, ok u)) = (s, out)
reported (s, (out, err e)) = (s, out ++ send (error (error_of e)) ∷ [])

-- `frame["bytes"]`
unfoldable pub audio_frame : World → List ℕ → Step (Unit {0})
unfolding recording
audio_frame w chunk = do
  s ← get_socket
  raise_if (not s.hello_received) (protocol_error no_hello "send hello before audio frames")
  recording (λ r. add_audio r chunk w.now)

-- What comes in.
pub data Incoming : Type 0 where
  disconnect other : Incoming
  bytes : List ℕ → Incoming
  text : Text → Incoming

unfoldable pub handle : World → Incoming → Socket → Socket × List Output
handle w disconnect s = (record s { open_socket = false }, [])
handle w other s = (s, [])
handle w (bytes chunk) s = reported (audio_frame w chunk s)
handle w (text t) s = reported (text_frame w t s)

-- The loop, over what comes in at each turn and what the socket meets then.
unfoldable pub run : List (World × Incoming) → Socket → Socket × List Output
run [] s = (s, [])
run ((w, i) ∷ steps) s =
    let (s', out) = handle w i s in
    let (last, more) = run steps s' in if s.open_socket then (last, out ++ more) else (s, [])
