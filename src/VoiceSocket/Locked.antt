-- ===== src/VoiceSocket/Locked.antt =====
-- A conversation with a run that is not over takes no other turn from the socket.
use hermes_voice_console.Prelude.{
  ◌≡◌, refl, ◌⊎◌, inl, inr, Bool, true, false, Option, some, [], ◌∷◌, Text, text_eq, codes, length,
  ltb, ok, err,
}
use hermes_voice_console.Protocol.{protocol_error, conversation_locked}
use hermes_voice_console.RunStore.{SessionRecord, RunRecord}
use hermes_voice_console.RunStore.Runs.{active_run_for_conversation}
use hermes_voice_console.Realtime.Json.{Json, Fields, object, get, text}
use hermes_voice_console.VoiceSocket.{Failure, protocol, send, error, Socket, World}
use hermes_voice_console.VoiceSocket.Step.{◌>>=◌, from, raise_if, get_socket}
use hermes_voice_console.VoiceSocket.Messages.{
  Place, require_unlocked, start_message, submit_message, owned_message,
}
use hermes_voice_console.VoiceSocket.Loop.{text as text_in, place_of, message, text_frame, handle}

-- The socket is greeted, for a conversation and a target.
abbrev pub IsAt : Socket → Text → SessionRecord → Type 0
IsAt s t r = (s.hello_received ≡ true) × (s.target ≡ some t) × (s.session ≡ some r)

-- A message that begins a turn, by voice or by text.
abbrev pub BeginsTurn : Json → Type 0
BeginsTurn v = (v ≡ text (codes "recording.start")) ⊎ (v ≡ text (codes "text.submit"))

abbrev refusal : Failure
refusal = protocol (protocol_error conversation_locked "conversation is locked")

owned_locked :
    (w : World) (d : Fields) (v : Json) (p : Place) (s : Socket) (run : RunRecord)
    → BeginsTurn v
    → active_run_for_conversation w.store p.session.conversation_id p.owner_key ≡ some run
    → owned_message w d v p s ≡ (s, ([], err refusal))
unfolding owned_message start_message submit_message require_unlocked ◌>>=◌ raise_if text_eq
owned_locked w d v p s run (inl type) active = rw (type, active) refl
owned_locked w d v p s run (inr type) active = rw (type, active) refl

place_of_greeted :
    (w : World) (b : Bool) (a : Option Text) (c : Option SessionRecord) (t : Text)
    (r : SessionRecord)
    → b ≡ true
    → a ≡ some t
    → c ≡ some r
    → place_of w b a c ≡ ok (record { session = r; owner_key = w.owner_key t })
place_of_greeted w b a c t r e f g = rw (e, f, g) refl

message_locked :
    (w : World) (d : Fields) (s : Socket) (p : Place) (run : RunRecord)
    → place_of w s.hello_received s.target s.session ≡ ok p
    → BeginsTurn (get d (codes "type"))
    → active_run_for_conversation w.store p.session.conversation_id p.owner_key ≡ some run
    → message w d s ≡ (s, ([], err refusal))
unfolding message ◌>>=◌ from get_socket text_eq
message_locked w d s p run placed (inl type) active =
    rw (type, placed, owned_locked w d (text (codes "recording.start")) p s run (inl refl) active)
      refl
message_locked w d s p run placed (inr type) active =
    rw (type, placed, owned_locked w d (text (codes "text.submit")) p s run (inr refl) active) refl

-- While a run of the conversation is not over, a message that begins a turn leaves the socket as it
-- was, calls nothing, and is answered with `conversation_locked`.
pub handle_locked :
    (w : World) (s : Socket) (x : Text) (d : Fields) (t : Text) (r : SessionRecord)
    (run : RunRecord)
    → IsAt s t r
    → ltb w.max_ws_text_chars (length x) ≡ false
    → w.decode x ≡ some (object d)
    → BeginsTurn (get d (codes "type"))
    → active_run_for_conversation w.store r.conversation_id (w.owner_key t) ≡ some run
    → handle w (text_in x) s
      ≡ (s, send (error (protocol_error conversation_locked "conversation is locked")) ∷ [])
unfolding handle text_frame ◌>>=◌ from raise_if
handle_locked w s x d t r run (g, e, f) short decoded begins active =
    rw
      (
        short,
        decoded,
        message_locked w d s _ run (place_of_greeted w _ _ _ t r g e f) begins active,
      )
      refl
