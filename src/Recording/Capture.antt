-- ===== src/Recording/Capture.antt =====
-- What a recording hands on: the audio that was added since it began, and nothing else.
use hermes_voice_console.Prelude.{
  ℕ, ◌+◌, ◌-◌, ◌≤◌, ◌≡◌, ◌≢◌, refl, true, Option, none, some, List, [], ◌∷◌, ◌++◌, arith, Text,
  text_Eq, text_eq_iff, text_eq_refl, length, length-append, Result, ok, err, append_assoc,
  append-nil, ◌∙◌, ap, All, Bool-cases, inl, inr,
}
use hermes_voice_console.Protocol.{VoiceProtocolError}
use hermes_voice_console.Protocol.TurnId.{IsTurnId, IsTurnId-ne-nil, validate_turn_id_self}
use hermes_voice_console.Recording.{
  RecordingSession, RecordingState, idle, recording, start_recording, begin_turn, add_audio,
  stop_recording, finish_turn, reset, discard_recording, discard_turn, is_recording, is_turn,
  active_turn, cancel, mark_cancelled, expire_if_active, forget_cancel,
}
use hermes_voice_console.Recording.Invariant.{
  IsValid, Holds, Call, starts, stops, adds, expires, discards, forgets, cancels, call, calls,
}

-- The frames of one recording, each with the time at which it arrives.
abbrev pub Frames : Type 0
Frames = List (List ℕ × ℕ)

pub feed : RecordingSession → Frames → RecordingSession
feed s [] = s
feed s ((chunk, now) ∷ fs) = feed (add_audio s chunk now).0 fs

abbrev pub audio : Frames → List ℕ
audio [] = []
audio ((chunk, now) ∷ fs) = chunk ++ audio fs

-- Every frame arrives within the time limit.
abbrev pub InTime : ℕ → ℕ → Frames → Type 0
InTime started limit [] = Unit {0}
InTime started limit ((chunk, now) ∷ fs) = (now - started ≤ limit) × InTime started limit fs

add_audio_fits :
    (s : RecordingSession) (chunk : List ℕ) (now : ℕ)
    → s.state ≡ recording
    → now - s.recording_started_at ≤ s.max_recording_wall_seconds
    → length s.buf + length chunk ≤ s.max_recording_bytes
    → (add_audio s chunk now).0 ≡ record s { buf = s.buf ++ chunk }
unfolding add_audio
add_audio_fits s chunk now e t h = ground arith

feed_lem :
    (s : RecordingSession) (fs : Frames)
    → s.state ≡ recording
    → InTime s.recording_started_at s.max_recording_wall_seconds fs
    → length s.buf + length (audio fs) ≤ s.max_recording_bytes
    → feed s fs ≡ record s { buf = s.buf ++ audio fs }
unfolding feed
feed_lem s [] e t h = rw append-nil
feed_lem s ((chunk, now) ∷ fs) e t h =
    rw (add_audio_fits s chunk now e t.0 (omega (arith, h, length-append {0} chunk (audio fs)))) (
      feed_lem (record s { buf = s.buf ++ chunk }) fs e t.1
        (omega (arith, h, length-append {0} chunk (audio fs), length-append {0} s.buf chunk))
      ∙ rw append_assoc)

start_recording_idle :
    (s : RecordingSession) (t : Text) (started : ℕ)
    → s.state ≡ idle
    → IsTurnId t
    → (start_recording s t started).0
      ≡ record s { state = recording; turn_id = some t; buf = []; recording_started_at = started }
unfolding start_recording begin_turn
start_recording_idle s t started e v = rw (validate_turn_id_self t true v) (ground arith)

stop_recording_lem :
    (s : RecordingSession) (t : Text) (now : ℕ)
    → s.state ≡ recording
    → s.turn_id ≡ some t
    → IsTurnId t
    → now - s.recording_started_at ≤ s.max_recording_wall_seconds
    → s.buf ≢ []
    → stop_recording s t now ≡ (record s { state = idle; turn_id = none; buf = [] }, ok (t, s.buf))
unfolding stop_recording
stop_recording_lem s t now e u v h n =
    rw (validate_turn_id_self t true v)
      (ground (arith, text_eq_refl t, text_eq_iff s.buf [], text_eq_iff t [], IsTurnId-ne-nil t v))

module _ (s : RecordingSession) (t : Text) (started now : ℕ) (fs : Frames) (ready : s.state ≡ idle)
    (v : IsTurnId t) (frames_in_time : InTime started s.max_recording_wall_seconds fs)
    (in_time : now - started ≤ s.max_recording_wall_seconds)
    (fits : length (audio fs) ≤ s.max_recording_bytes) (heard : audio fs ≢ []) where
  -- An idle session that starts a turn with a well-formed id, takes frames that are within the limits
  -- of time and size and not all empty, and stops the turn in time, hands on the turn id with the
  -- frames in their order, and is idle again.
  pub stop-feed-start : stop_recording (feed (start_recording s t started).0 fs) t now ≡ (
    record s { state = idle; turn_id = none; buf = []; recording_started_at = started },
    ok (t, audio fs),
  )
  stop-feed-start =
      let s1 : RecordingSession = record s {
        state = recording;
        turn_id = some t;
        buf = [];
        recording_started_at = started;
      } in
      rw
        (
          start_recording_idle s t started ready v,
          feed_lem s1 fs refl frames_in_time (omega (arith, fits)),
        )
        (stop_recording_lem _ t now refl refl v in_time heard)

is_turn-eq : (o : Option Text) (u : Text) → is_turn o u ≡ true → o ≡ some u
is_turn-eq none u h = cc
is_turn-eq (some t) u h = ap some ((text_eq_iff t u).0 h)

active_turn_same : (o : Option Text) (u : Text) → is_turn o u ≡ true → active_turn o u ≡ u
unfolding active_turn
active_turn_same none u h = cc
active_turn_same (some t) u h = ground (arith, text_eq_iff t u)

Holds-fits :
    (state : RecordingState) (t : Option Text) (buf : List ℕ) (limit : ℕ)
    → Holds state t buf limit
    → length buf ≤ limit
Holds-fits idle t buf limit h = rw h.1 (omega arith)
Holds-fits recording none buf limit h = absurd h
Holds-fits recording (some t) buf limit h = h.1

finish_turn_ok :
    (s s' : RecordingSession) (r : Result VoiceProtocolError Text) (t : Text) (pcm : List ℕ)
    (now : ℕ)
    → IsValid s
    → s.state ≡ recording
    → finish_turn s now r ≡ (s', ok (t, pcm))
    → (s.turn_id ≡ some t)
      × (pcm ≡ s.buf)
      × (pcm ≢ [])
      × (length pcm ≤ s.max_recording_bytes)
      × (s' ≡ reset s)
unfolding finish_turn
finish_turn_ok s s' (err e) t pcm now v w h = cc
finish_turn_ok s s' (ok u) t pcm now v w h = ground (
  arith,
  text_eq_iff s.buf [],
  is_turn-eq s.turn_id u,
  active_turn_same s.turn_id u,
  Holds-fits s.state s.turn_id s.buf s.max_recording_bytes v.holds,
)

-- From a valid session, whatever turn id is sent: what `stop_recording` hands on is the active turn
-- with all its audio, which is not empty and within the limit of bytes, and the session is reset.
pub stop_recording_ok :
    (s s' : RecordingSession) (u t : Text) (pcm : List ℕ) (now : ℕ)
    → IsValid s
    → stop_recording s u now ≡ (s', ok (t, pcm))
    → (s.turn_id ≡ some t)
      × (pcm ≡ s.buf)
      × (pcm ≢ [])
      × (length pcm ≤ s.max_recording_bytes)
      × (s' ≡ reset s)
unfolding stop_recording
stop_recording_ok s s' u t pcm now v h = elim (Bool-cases (is_recording s.state)) [
  | inl e ↦ finish_turn_ok s s' _ t pcm now v (ground arith) (rw (e, stop_recording) at h)
  | inr e ↦ ground arith
]

-- A call that does not begin a recording.
abbrev pub BeginsNothing : Call → Type 0
BeginsNothing (starts t now) = ⊥
BeginsNothing _ = Unit {0}

discard_turn-idle :
    (s : RecordingSession) (r : Result VoiceProtocolError Text)
    → s.state ≡ idle
    → (discard_turn s r).0.state ≡ idle
unfolding discard_turn
discard_turn-idle s (err e) i = i
discard_turn-idle s (ok t) i = ground arith

mark_cancelled-idle :
    (s : RecordingSession) (now : ℕ) (r : Result VoiceProtocolError Text)
    → s.state ≡ idle
    → (mark_cancelled s now r).0.state ≡ idle
unfolding mark_cancelled
mark_cancelled-idle s now (err e) i = i
mark_cancelled-idle s now (ok t) i = ground arith

call-idle :
    (s : RecordingSession) (c : Call) → BeginsNothing c → s.state ≡ idle → (call s c).state ≡ idle
unfolding call add_audio stop_recording expire_if_active discard_recording forget_cancel cancel
call-idle s (starts t now) b e = absurd b
call-idle s (adds c now) b e = ground arith
call-idle s (stops t now) b e = ground arith
call-idle s (expires t) b e = ground arith
call-idle s (discards t) b e = discard_turn-idle s _ e
call-idle s (forgets t) b e = e
call-idle s (cancels t now) b e = mark_cancelled-idle s now _ e

calls-idle :
    (s : RecordingSession) (cs : List Call)
    → All BeginsNothing cs
    → s.state ≡ idle
    → (calls s cs).state ≡ idle
unfolding calls
calls-idle s [] b e = e
calls-idle s (c ∷ cs) b e = calls-idle (call s c) cs b.1 (call-idle s c b.0 e)
