-- ===== src/Recording/Examples.antt =====
-- Runs of the recorder of backend/voice_console/voice_session.py on small sessions.
use hermes_voice_console.Prelude.{
  is_space, strip, text_eq, ℕ, zero, suc, ◌≤◌, ◌≡◌, ◌≢◌, refl, false, some, List, [], ◌∷◌, arith,
  Text, text_Eq, codes, ok, length,
}
use hermes_voice_console.Protocol.{matches_turn_id, validate_turn_id, is_turn_char}
use hermes_voice_console.Protocol.TurnId.{IsTurnId}
use hermes_voice_console.Recording.{
  RecordingSession, VoiceConfig, new_session, recording, start_recording, stop_recording, reset,
  has_key,
}
use hermes_voice_console.Recording.Cancelled.{IsBounded, Distinct}
use hermes_voice_console.Recording.Invariant.{
  IsValid, Call, starts, adds, discards, cancels, calls, new_session-IsValid,
}
use hermes_voice_console.Recording.Capture.{feed, Frames, stop-feed-start, stop_recording_ok}

abbrev small : VoiceConfig
small = record { max_recording_bytes = 6; max_recording_wall_seconds = 30 }

abbrev turn : Text
turn = codes "t1"

turn-IsTurnId : IsTurnId turn
unfolding is_turn_char
turn-IsTurnId = record { chars = refl; nonempty = omega arith; short = omega arith }

abbrev frames : Frames
frames = (1 ∷ 2 ∷ [], 12) ∷ (3 ∷ [], 13) ∷ []

stop-feed-start_example :
    stop_recording (feed (start_recording (new_session small) turn 10).0 frames) turn 14
    ≡ (record (new_session small) { recording_started_at = 10 }, ok (turn, 1 ∷ 2 ∷ 3 ∷ []))
stop-feed-start_example =
    stop-feed-start (new_session small) turn 10 14 frames refl turn-IsTurnId
      (omega arith, (omega arith, tt)) (omega arith) (omega arith) (λ e. cc)

new_session-IsValid_example : IsValid (
    calls (new_session small) (starts turn 10 ∷ adds (1 ∷ 2 ∷ []) 11 ∷ cancels (some turn) 12 ∷ []))
new_session-IsValid_example =
    new_session-IsValid small (starts turn 10 ∷ adds (1 ∷ 2 ∷ []) 11 ∷ cancels (some turn) 12 ∷ [])

-- A session that is recording two samples.
abbrev busy : RecordingSession
busy = record (new_session small) {
  state = recording;
  turn_id = some turn;
  buf = 1 ∷ 2 ∷ [];
  recording_started_at = 10;
}

busy-IsValid : IsValid busy
busy-IsValid = record {
  holds = (turn-IsTurnId, omega arith);
  bounded = record { distinct = tt; few = omega arith };
}

busy_stopped : stop_recording busy turn 14 ≡ (reset busy, ok (turn, 1 ∷ 2 ∷ []))
unfolding stop_recording validate_turn_id text_eq strip is_space matches_turn_id is_turn_char
busy_stopped = refl

stop_recording_ok_example :
    (busy.turn_id ≡ some turn)
    × ((1 ∷ 2 ∷ []) ≡ busy.buf)
    × (◌≢◌ {A = List ℕ} (1 ∷ 2 ∷ []) [])
    × (length {A = ℕ} (1 ∷ 2 ∷ []) ≤ busy.max_recording_bytes)
    × (reset busy ≡ reset busy)
stop_recording_ok_example =
    stop_recording_ok busy (reset busy) turn turn (1 ∷ 2 ∷ []) 14 busy-IsValid busy_stopped

abbrev late : List Call
late = adds (1 ∷ 2 ∷ []) 11 ∷ discards turn ∷ []

-- A session with a cancelled turn.
abbrev with_cancelled : RecordingSession
with_cancelled = record (new_session small) { cancelled = (codes "t0", 5) ∷ [] }

with_cancelled-IsBounded : IsBounded with_cancelled
unfolding has_key
with_cancelled-IsBounded = record { distinct = (refl, tt); few = omega arith }

-- Turns with one letter each.
abbrev letters : ℕ → List (Text × ℕ)
letters zero = []
letters (suc n) = (n ∷ [], 0) ∷ letters n

length-letters : (n : ℕ) → length (letters n) ≡ n
length-letters zero = refl
length-letters (suc n) = omega (arith, length-letters n)

letters-new : (k n : ℕ) → n ≤ k → has_key (k ∷ []) (letters n) ≡ false
unfolding has_key text_eq
letters-new k zero h = refl
letters-new k (suc n) h = ground (arith, letters-new k n)

letters-Distinct : (n : ℕ) → Distinct (letters n)
letters-Distinct zero = tt
letters-Distinct (suc n) = (letters-new n n (omega arith), letters-Distinct n)

letters-turn : (n : ℕ) → has_key turn (letters n) ≡ false
unfolding has_key text_eq
letters-turn zero = refl
letters-turn (suc n) = ground (arith, letters-turn n)

-- A session that can remember no more turns.
abbrev full : RecordingSession
full = record (new_session small) { cancelled = letters 256 }

abbrev oldest : Text
oldest = 255 ∷ []
