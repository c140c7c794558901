-- ===== src/VoiceSocket.antt =====
-- backend/voice_console/voice_socket.py: the loop of one browser's socket. The state is what
-- `handle_voice_socket` keeps in its local variables; a frame that comes in is a step on it. What the
-- step sends, and what it starts or calls elsewhere, is a list in its order.
pub mod Step
pub mod Hello
pub mod Messages
pub mod Loop
pub mod Approvals
pub mod Submit
pub mod Keeps
pub mod Ends
pub mod Allowed
pub mod Greeted
pub mod Permitted
pub mod Locked
pub mod Offers
pub mod Examples
use hermes_voice_console.Prelude.{ℕ, Bool, false, Option, none, List, Text, Result}
use hermes_voice_console.Protocol.{VoiceProtocolError}
use hermes_voice_console.Recording.{RecordingSession}
use hermes_voice_console.RunStore.{SessionRecord, ConsoleStore}
use hermes_voice_console.Realtime.Json.{Json, Fields}

-- What ends a handler: `ConfigError`, `HermesApiError`, `VoiceProtocolError`, another `RuntimeError`,
-- `ProviderUnavailable`, and any other exception. The texts are `str(exc)`.
pub data Failure : Type 0 where
  config_error api_error runtime_error provider_unavailable : Text → Failure
  protocol : VoiceProtocolError → Failure
  unexpected : Failure

-- The frames that are sent.
pub data Frame : Type 0 where
  error : VoiceProtocolError → Frame
  pong : Frame
  auth_refreshed : ℕ → Frame
  ready : Text → Text → Bool → Frame
  acceptance_unknown : Text → Text → Frame
  unrecoverable : Option Text → Text → Frame
  recording_started recording_stopped recording_discarded : Text → Frame
  transcript_final : Text → Text → Text → Frame
  text_accepted : Text → Frame
  unknown_acknowledged unrecoverable_acknowledged : Text → Frame
  tts_cancelled : Text → Frame

-- What is called elsewhere: a run is begun or read, one is approved or stopped, a lock is taken off.
pub data Call : Type 0 where
  begin_run : Text → Text → Call
  subscribe : Text → Text → Call
  approve : Text → Text → Text → Call
  stop : Text → Text → Call
  acknowledge_unknown acknowledge_unrecoverable : Text → Text → Call
  close : Call

pub data Output : Type 0 where
  send : Frame → Output
  call : Call → Output

-- The local variables. `timer` is the turn that `recording_timeout_task` watches while it is not done.
pub record Socket : Type 0 where
  pub recording_session : RecordingSession
  pub hello_received : Bool
  pub target : Option Text
  pub session : Option SessionRecord
  pub subscribed_run_id : Option Text
  pub timer : Option Text
  pub speak_replies : Bool
  pub open_socket : Bool

-- What the loop meets at a frame: the configuration, the state of the console, the clock, and what the
-- calls return that it waits for. `decode` is `json.loads`, `show` is `str` and `lower` is
-- `str.lower`; `spoken` is `validate_spoken_audio` and then the transcription: the provider and the
-- text; `supports` is the probe of the capabilities; `follow` is `runs.subscribe` with the `int` of
-- the last sequence number.
pub record World : Type 0 where
  pub max_ws_text_chars : ℕ
  pub max_input_text_chars : ℕ
  pub speak_replies_default : Bool
  pub allow_persistent_approvals : Bool
  pub now : ℕ
  pub store : ConsoleStore
  pub decode : Text → Option Json
  pub show : Json → Text
  pub lower : Text → Text
  pub refresh : Json → Option ℕ
  pub targets : Text → Result Failure Text
  pub owner_key : Text → Text
  pub sessions : Text → Text → Option SessionRecord
  pub supports : Text → Result Failure Bool
  pub follow : Text → Text → Json → Result Failure (Unit {0})
  pub approval : Text → Text → Text → Result Failure (Unit {0})
  pub stopping : Text → Text → Result Failure (Unit {0})
  pub acknowledging_unknown : Text → Text → Result Failure (Unit {0})
  pub acknowledging_unrecoverable : Text → Text → Result Failure (Unit {0})
  pub spoken : List ℕ → Result Failure (Text × Text)
