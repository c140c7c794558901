-- ===== src/Recording/Invariant.antt =====
-- The invariant of a recording session, over any sequence of its operations.
use hermes_voice_console.Prelude.{
  ℕ, ◌≤◌, ◌≡◌, refl, true, Option, none, some, List, [], ◌∷◌, arith, Text, text_Eq, length,
  length-append, Result, ok, err, Bool-cases, inl, inr,
}
use hermes_voice_console.Protocol.{VoiceProtocolError, validate_turn_id}
use hermes_voice_console.Protocol.TurnId.{IsTurnId, validate_turn_id-IsTurnId}
use hermes_voice_console.Recording.{
  RecordingSession, RecordingState, VoiceConfig, idle, recording, new_session, start_recording,
  begin_turn, add_audio, stop_recording, finish_turn, expire_if_active, discard_recording,
  discard_turn, cancel, mark_cancelled, forget_cancel, is_recording,
}
use hermes_voice_console.Recording.Cancelled.{IsBounded, cancel-IsBounded, forget_cancel-IsBounded}

-- Idle: no turn and no audio. Recording: a well-formed turn id, and no more audio than allowed.
abbrev pub Holds : RecordingState → Option Text → List ℕ → ℕ → Type 0
Holds idle t buf limit = (t ≡ none) × (buf ≡ [])
Holds recording none buf limit = ⊥
Holds recording (some t) buf limit = IsTurnId t × (length buf ≤ limit)

pub record IsValid (s : RecordingSession) : Type 0 where
  pub holds : Holds s.state s.turn_id s.buf s.max_recording_bytes
  pub bounded : IsBounded s

-- One call of a method, with the reading of the clock that it takes.
pub data Call : Type 0 where
  starts stops : Text → ℕ → Call
  adds : List ℕ → ℕ → Call
  expires discards forgets : Text → Call
  cancels : Option Text → ℕ → Call

unfoldable pub call : RecordingSession → Call → RecordingSession
call s (starts t now) = (start_recording s t now).0
call s (stops t now) = (stop_recording s t now).0
call s (adds chunk now) = (add_audio s chunk now).0
call s (expires t) = (expire_if_active s t).0
call s (discards t) = (discard_recording s t).0
call s (forgets t) = forget_cancel s t
call s (cancels t now) = (cancel s t now).0

unfoldable pub calls : RecordingSession → List Call → RecordingSession
calls s [] = s
calls s (c ∷ cs) = calls (call s c) cs

-- The turn id that a method reads is well formed.
abbrev Reads : Result VoiceProtocolError Text → Type 0
Reads r = (t : Text) → r ≡ ok t → IsTurnId t

validate-Reads : (t : Text) → Reads (validate_turn_id (some t) true)
validate-Reads t u e = (validate_turn_id-IsTurnId (some t) u e).0

begin_turn-IsValid :
    (s : RecordingSession) (now : ℕ) (r : Result VoiceProtocolError Text)
    → IsValid s
    → Reads r
    → IsValid (begin_turn s now r).0
unfolding begin_turn
begin_turn-IsValid s now (err e) v h = v
begin_turn-IsValid s now (ok t) v h = record {
  holds = (h t refl, omega arith);
  bounded = record { distinct = v.bounded.distinct; few = v.bounded.few };
}

start-IsValid :
    (s : RecordingSession) (t : Text) (now : ℕ) → IsValid s → IsValid (start_recording s t now).0
unfolding start_recording
start-IsValid s t now v = elim (Bool-cases (is_recording s.state)) [
  | inl e ↦ rw e v
  | inr e ↦ rw e (begin_turn-IsValid s now _ v (validate-Reads t))
]

add-IsValid :
    (s : RecordingSession) (c : List ℕ) (now : ℕ) → IsValid s → IsValid (add_audio s c now).0
unfolding add_audio
add-IsValid s c now v = ground (arith, length-append {0} s.buf c)

finish_turn-IsValid :
    (s : RecordingSession) (now : ℕ) (r : Result VoiceProtocolError Text)
    → IsValid s
    → IsValid (finish_turn s now r).0
unfolding finish_turn
finish_turn-IsValid s now (err e) v = v
finish_turn-IsValid s now (ok t) v = ground arith

stop-IsValid :
    (s : RecordingSession) (t : Text) (now : ℕ) → IsValid s → IsValid (stop_recording s t now).0
unfolding stop_recording
stop-IsValid s t now v =
    ground (arith, finish_turn-IsValid s now (validate_turn_id (some t) true) v)

expire-IsValid : (s : RecordingSession) (t : Text) → IsValid s → IsValid (expire_if_active s t).0
unfolding expire_if_active
expire-IsValid s t v = ground arith

discard_turn-IsValid :
    (s : RecordingSession) (r : Result VoiceProtocolError Text)
    → IsValid s
    → IsValid (discard_turn s r).0
unfolding discard_turn
discard_turn-IsValid s (err e) v = v
discard_turn-IsValid s (ok t) v = ground arith

mark_cancelled-Holds :
    (s : RecordingSession) (now : ℕ) (r : Result VoiceProtocolError Text)
    → IsValid s
    → let s' = (mark_cancelled s now r).0 in Holds s'.state s'.turn_id s'.buf s'.max_recording_bytes
unfolding mark_cancelled
mark_cancelled-Holds s now (err e) v = v.holds
mark_cancelled-Holds s now (ok t) v = ground arith

-- Every call, failing or not, leaves a valid session.
call-IsValid : (s : RecordingSession) (c : Call) → IsValid s → IsValid (call s c)
unfolding call cancel discard_recording forget_cancel
call-IsValid s (starts t now) v = start-IsValid s t now v
call-IsValid s (stops t now) v = stop-IsValid s t now v
call-IsValid s (adds c now) v = add-IsValid s c now v
call-IsValid s (expires t) v = expire-IsValid s t v
call-IsValid s (discards t) v = discard_turn-IsValid s _ v
call-IsValid s (forgets t) v = record {
  holds = v.holds;
  bounded = forget_cancel-IsBounded s t v.bounded;
}
call-IsValid s (cancels t now) v = record {
  holds = mark_cancelled-Holds s now _ v;
  bounded = cancel-IsBounded s t now v.bounded;
}

calls-IsValid : (s : RecordingSession) (cs : List Call) → IsValid s → IsValid (calls s cs)
unfolding calls
calls-IsValid s [] v = v
calls-IsValid s (c ∷ cs) v = calls-IsValid (call s c) cs (call-IsValid s c v)

-- From a new session, whatever calls are made and whichever of them raise: an idle session has no
-- turn and no audio, a recording one has a well-formed turn id and at most the allowed bytes, and
-- at most 256 cancelled turns are kept, each once.
pub new_session-IsValid : (c : VoiceConfig) (cs : List Call) → IsValid (calls (new_session c) cs)
new_session-IsValid c cs =
    calls-IsValid (new_session c) cs
      (record { holds = (refl, refl); bounded = record { distinct = tt; few = omega arith } })
