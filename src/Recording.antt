-- ===== src/Recording.antt =====
-- backend/voice_console/voice_session.py: the recording state machine of one socket, and its bounded
-- record of cancelled turns. A method is a function from the session to the session and its result;
-- what was written before a raise stays written. Readings of the monotonic clock are arguments.
pub mod Cancelled
pub mod Invariant
pub mod Capture
pub mod Examples
use hermes_voice_console.Prelude.{
  ℕ, ◌+◌, ◌-◌, ◌||◌, String, Bool, true, false, ◌&&◌, not, Option, none, some, List, [], ◌∷◌, ◌++◌,
  Text, text_Eq, codes, length, ltb, ◌==◌, if◌then◌else◌, Result, ok, err,
}
use hermes_voice_console.Protocol.{
  VoiceProtocolError, protocol_error, bad_state, audio_outside_recording, recording_timeout,
  recording_too_large, turn_mismatch, empty_recording, validate_turn_id,
}

abbrev pub max_cancelled_turns : ℕ
max_cancelled_turns = 256

-- The fields of `VoiceConfig` that the recorder reads.
pub record VoiceConfig : Type 0 where
  pub max_recording_bytes : ℕ
  pub max_recording_wall_seconds : ℕ

pub data RecordingState : Type 0 where
  idle recording : RecordingState

pub record RecordingSession : Type 0 where
  pub config : VoiceConfig
  pub open config use *
  pub state : RecordingState
  pub turn_id : Option Text
  pub buf : List ℕ
  pub recording_started_at : ℕ
  pub cancelled : List (Text × ℕ)

-- `RecordingSession(config)`
abbrev pub new_session : VoiceConfig → RecordingSession
new_session c = record {
  config = c;
  state = idle;
  turn_id = none;
  buf = [];
  recording_started_at = 0;
  cancelled = [];
}

-- What a method that may raise returns.
abbrev pub Raising : Type 0 → Type 0
Raising A = RecordingSession × Result VoiceProtocolError A

abbrev pub is_recording : RecordingState → Bool
is_recording recording = true
is_recording idle = false

-- `value == key`, for a value that may be `None`
abbrev pub is_turn : Option Text → Text → Bool
is_turn none t = false
is_turn (some u) t = u == t

begin_turn : RecordingSession → ℕ → Result VoiceProtocolError Text → Raising (Unit {0})
begin_turn s now (err e) = (s, err e)
begin_turn s now (ok tid) = (
  record s { state = recording; turn_id = some tid; buf = []; recording_started_at = now },
  ok tt,
)

pub start_recording : RecordingSession → Text → ℕ → Raising (Unit {0})
unfolding begin_turn
start_recording s turn_id now =
    if is_recording s.state
    then (s, err (protocol_error bad_state "already recording"))
    else begin_turn s now (validate_turn_id (some turn_id) true)

pub expired : RecordingSession → ℕ → Bool
expired s now = ltb s.max_recording_wall_seconds (now - s.recording_started_at)

pub reset : RecordingSession → RecordingSession
reset s = record s { state = idle; turn_id = none; buf = [] }

pub add_audio : RecordingSession → List ℕ → ℕ → Raising (Unit {0})
unfolding expired reset
add_audio s chunk now =
    if not (is_recording s.state)
    then (
      s,
      err (
          protocol_error audio_outside_recording
            "binary audio frame received outside RECORDING state"),
    )
    else if expired s now
    then (
      reset s,
      err (protocol_error recording_timeout "recording exceeded max wall-clock duration"),
    )
    else if ltb s.max_recording_bytes (length s.buf + length chunk)
    then (
      reset s,
      err (protocol_error recording_too_large "recording exceeded max buffer / duration limit"),
    )
    else (record s { buf = s.buf ++ chunk }, ok tt)

-- `self.turn_id or tid`
active_turn : Option Text → Text → Text
active_turn none tid = tid
active_turn (some t) tid = if t == [] then tid else t

finish_turn : RecordingSession → ℕ → Result VoiceProtocolError Text → Raising (Text × List ℕ)
unfolding expired reset active_turn
finish_turn s now (err e) = (s, err e)
finish_turn s now (ok tid) =
    if not (is_turn s.turn_id tid)
    then (
      s,
      err (protocol_error turn_mismatch "recording.stop turn_id does not match active recording"),
    )
    else if expired s now
    then (
      reset s,
      err (protocol_error recording_timeout "recording exceeded max wall-clock duration"),
    )
    else if s.buf == []
    then (reset s, err (protocol_error empty_recording "no audio captured"))
    else (reset s, ok (active_turn s.turn_id tid, s.buf))

-- The state is `idle` wherever `stop_recording` names it.
pub stop_recording : RecordingSession → Text → ℕ → Raising (Text × List ℕ)
unfolding finish_turn
stop_recording s turn_id now =
    if not (is_recording s.state)
    then (s, err (protocol_error bad_state "cannot stop recording from idle"))
    else finish_turn s now (validate_turn_id (some turn_id) true)

pub expire_if_active : RecordingSession → Text → RecordingSession × Bool
unfolding reset
expire_if_active s turn_id =
    if is_recording s.state && is_turn s.turn_id turn_id then (reset s, true) else (s, false)

discard_turn : RecordingSession → Result VoiceProtocolError Text → Raising Bool
unfolding reset
discard_turn s (err e) = (s, err e)
discard_turn s (ok tid) =
    if is_recording s.state && is_turn s.turn_id tid then (reset s, ok true) else (s, ok false)

unfoldable pub discard_recording : RecordingSession → Text → Raising Bool
unfolding discard_turn
discard_recording s turn_id = discard_turn s (validate_turn_id (some turn_id) true)

-- `k in d`, for an `OrderedDict`, whose entries stand in their order
pub has_key : Text → List (Text × ℕ) → Bool
has_key k [] = false
has_key k ((j, v) ∷ d) = j == k || has_key k d

-- `d.pop(k, None)`
pub remove_key : Text → List (Text × ℕ) → List (Text × ℕ)
remove_key k [] = []
remove_key k ((j, v) ∷ d) = if j == k then d else (j, v) ∷ remove_key k d

-- `d[k] = v; d.move_to_end(k)`
put_last : Text → ℕ → List (Text × ℕ) → List (Text × ℕ)
unfolding remove_key
put_last k v d = remove_key k d ++ (k, v) ∷ []

-- `while len(d) > limit: d.popitem(last=False)`
evict : ℕ → List (Text × ℕ) → List (Text × ℕ)
evict limit [] = []
evict limit (e ∷ d) = if ltb limit (length (e ∷ d)) then evict limit d else e ∷ d

mark_cancelled : RecordingSession → ℕ → Result VoiceProtocolError Text → Raising (Unit {0})
unfolding put_last evict
mark_cancelled s now (err e) = (s, err e)
mark_cancelled s now (ok tid) =
    if tid == []
    then (s, ok tt)
    else (record s { cancelled = evict max_cancelled_turns (put_last tid now s.cancelled) }, ok tt)

-- `turn_id or ""`
abbrev pub or_empty : Option Text → Text
or_empty none = []
or_empty (some t) = t

pub cancel : RecordingSession → Option Text → ℕ → Raising (Unit {0})
unfolding mark_cancelled
cancel s turn_id now = mark_cancelled s now (validate_turn_id (some (or_empty turn_id)) false)

pub is_cancelled : RecordingSession → Text → Bool
unfolding has_key
is_cancelled s turn_id = has_key turn_id s.cancelled

pub forget_cancel : RecordingSession → Text → RecordingSession
unfolding remove_key
forget_cancel s turn_id = record s { cancelled = remove_key turn_id s.cancelled }
