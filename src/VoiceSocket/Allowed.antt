-- ===== src/VoiceSocket/Allowed.antt =====
-- What a message to the socket of backend/voice_console/voice_socket.py can call.
use hermes_voice_console.Prelude.{
  ℕ, ◌≤◌, ◌≡◌, refl, inl, inr, true, false, not, ◌&&◌, Option, some, [], ◌∷◌, Text, text_Eq,
  text_eq, ◌==◌, codes, length, ltb, Bool-cases, arith, Result, ok, err, Yields,
}
use hermes_voice_console.Protocol.{VoiceProtocolError, validate_input_text, stripped}
use hermes_voice_console.Realtime.Json.{Json, Fields, get, one_of}
use hermes_voice_console.VoiceSocket.{
  begin_run, subscribe, approve, stop, acknowledge_unknown, acknowledge_unrecoverable, close,
  Output, send, call, Socket, World,
}
use hermes_voice_console.VoiceSocket.Step.{Step}
use hermes_voice_console.VoiceSocket.Messages.{
  Place, require_unlocked, start_message, finish_recording, stop_message, cancel_message,
  submit_message, allowed_decisions, approve_message, stop_run_message, acknowledge_unknown_message,
  acknowledge_unrecoverable_message, cancel_speech_message, owned_message, transcribed, turn_id_of,
  heard, given,
}
use hermes_voice_console.VoiceSocket.Keeps.{
  Keeps, bind-Keeps, raise_if-Keeps, raise_if_ok, if-Keeps, recording-Keeps, get_socket-Keeps,
  modify-Keeps, emit-Keeps, from-Keeps, checked_ok, not-false,
}

-- A call in the name of an owner: a run is begun with a text of 1 character at least and no more than
-- the limit; an approval has a run and a decision that is known, and is not permanent where the
-- deployment forbids that; a run that is stopped or acknowledged is named.
abbrev pub IsCall : World → Text → Output → Type 0
IsCall w owner (send f) = Unit
IsCall w owner (call (begin_run turn_id t)) = (1 ≤ length t) × (length t ≤ w.max_input_text_chars)
IsCall w owner (call (approve run_id decision o)) =
    ((run_id == []) ≡ false)
    × (one_of allowed_decisions decision ≡ true)
    × ((decision == codes "always" && not w.allow_persistent_approvals) ≡ false)
    × (o ≡ owner)
IsCall w owner (call (stop run_id o)) = ((run_id == []) ≡ false) × (o ≡ owner)
IsCall w owner (call (acknowledge_unknown id o)) = ((id == []) ≡ false) × (o ≡ owner)
IsCall w owner (call (acknowledge_unrecoverable id o)) = ((id == []) ≡ false) × (o ≡ owner)
IsCall w owner (call (subscribe run_id o)) = ⊥
IsCall w owner (call close) = ⊥

abbrev IsInput : ℕ → Text → Type 0
IsInput limit t = (1 ≤ length t) × (length t ≤ limit)

length_pos : (t : Text) → text_eq t [] ≡ false → 1 ≤ length t
unfolding text_eq
length_pos [] h = cc
length_pos (c ∷ t) h = omega arith

validate_input_text-IsInput :
    (v : Option Text) (limit : ℕ) → Yields (IsInput limit) (validate_input_text v limit)
unfolding validate_input_text text_eq
validate_input_text-IsInput v limit = elim (Bool-cases (text_eq (stripped v) [])) [
  | inl e ↦ rw e tt
  | inr e ↦ rw e (elim (Bool-cases (ltb limit (length (stripped v)))) [
    | inl f ↦ rw f tt
    | inr f ↦ rw f (length_pos (stripped v) e, ground arith)
  ])
]

module _ (w : World) (p : Place) where
  abbrev Made : {A : Type 0} → Step A → Socket → Type 0
  Made m s = Keeps (IsCall w p.owner_key) m s

  start_message-Made : (d : Fields) (s : Socket) → Made (start_message w d p) s
  unfolding start_message turn_id_of require_unlocked
  start_message-Made d s = bind-Keeps (raise_if-Keeps _ _) (λ _ _ _ _.
      bind-Keeps (from-Keeps _) (λ _ _ _ _.
        bind-Keeps (recording-Keeps _)
          (λ _ _ _ _. bind-Keeps (modify-Keeps _ (refl, refl, refl)) (λ _ _ _ _. emit-Keeps _ tt))))

  transcribed-Made :
      (turn_id : Text) (r : Result VoiceProtocolError (Text × Text)) (s : Socket)
      → Made (transcribed w turn_id r) s
  unfolding transcribed
  transcribed-Made turn_id (err e) s = emit-Keeps _ tt
  transcribed-Made turn_id (ok (provider, transcript)) s =
      bind-Keeps (from-Keeps _) (λ _ spoken _ _. bind-Keeps (from-Keeps _) (λ _ t _ e.
        bind-Keeps (emit-Keeps _ tt) (λ _ _ _ _. emit-Keeps _ (
          checked_ok _ _ _ _ _ _ (validate_input_text-IsInput (some spoken) w.max_input_text_chars)
            e))))

  finish_recording-Made : (turn_id : Text) (s : Socket) → Made (finish_recording w turn_id) s
  unfolding finish_recording
  finish_recording-Made turn_id s = bind-Keeps (modify-Keeps _ (refl, refl, refl)) (λ _ _ _ _.
      bind-Keeps (recording-Keeps _) (λ _ stopped _ _.
        bind-Keeps (emit-Keeps _ tt)
          (λ s3 _ _ _. transcribed-Made stopped.0 (heard (w.spoken stopped.1)) s3)))

  stop_message-Made : (d : Fields) (s : Socket) → Made (stop_message w d) s
  unfolding stop_message turn_id_of
  stop_message-Made d s = bind-Keeps (from-Keeps _) (λ s1 t _ _. finish_recording-Made t s1)

  cancel_message-Made : (d : Fields) (s : Socket) → Made (cancel_message w d) s
  unfolding cancel_message turn_id_of
  cancel_message-Made d s = bind-Keeps (from-Keeps _) (λ _ _ _ _.
      bind-Keeps (modify-Keeps _ (refl, refl, refl))
        (λ _ _ _ _. bind-Keeps (recording-Keeps _) (λ _ _ _ _. emit-Keeps _ tt)))

  submit_message-Made : (d : Fields) (s : Socket) → Made (submit_message w d p) s
  unfolding submit_message turn_id_of require_unlocked
  submit_message-Made d s = bind-Keeps (raise_if-Keeps _ _) (λ _ _ _ _.
      bind-Keeps (from-Keeps _) (λ _ _ _ _. bind-Keeps (from-Keeps _) (λ _ t _ e.
        bind-Keeps (emit-Keeps _ tt) (λ _ _ _ _. emit-Keeps _ (
          checked_ok _ _ _ _ _ _
            (validate_input_text-IsInput (given w (get d (codes "text"))) w.max_input_text_chars)
            e)))))

  approve_message-Made : (d : Fields) (s : Socket) → Made (approve_message w d p) s
  unfolding approve_message
  approve_message-Made d s = bind-Keeps get_socket-Keeps (λ _ _ _ _.
      bind-Keeps (raise_if-Keeps _ _) (λ _ _ _ named.
        bind-Keeps (raise_if-Keeps _ _) (λ _ _ _ known.
          bind-Keeps (raise_if-Keeps _ _) (λ _ _ _ permitted.
            bind-Keeps
              (emit-Keeps _ (
                raise_if_ok _ _ _ _ _ _ named,
                not-false _ (raise_if_ok _ _ _ _ _ _ known),
                raise_if_ok _ _ _ _ _ _ permitted,
                refl,
              ))
              (λ _ _ _ _. from-Keeps _)))))

  stop_run_message-Made : (d : Fields) (s : Socket) → Made (stop_run_message w d p) s
  unfolding stop_run_message
  stop_run_message-Made d s = bind-Keeps get_socket-Keeps (λ _ _ _ _.
      bind-Keeps (raise_if-Keeps _ _) (λ _ _ _ named.
        bind-Keeps (emit-Keeps _ (raise_if_ok _ _ _ _ _ _ named, refl)) (λ _ _ _ _. from-Keeps _)))

  acknowledge_unknown_message-Made :
      (d : Fields) (s : Socket) → Made (acknowledge_unknown_message w d p) s
  unfolding acknowledge_unknown_message
  acknowledge_unknown_message-Made d s = bind-Keeps (raise_if-Keeps _ _) (λ _ _ _ named.
      bind-Keeps (emit-Keeps _ (raise_if_ok _ _ _ _ _ _ named, refl))
        (λ _ _ _ _. bind-Keeps (from-Keeps _) (λ _ _ _ _. emit-Keeps _ tt)))

  acknowledge_unrecoverable_message-Made :
      (d : Fields) (s : Socket) → Made (acknowledge_unrecoverable_message w d p) s
  unfolding acknowledge_unrecoverable_message
  acknowledge_unrecoverable_message-Made d s = bind-Keeps (raise_if-Keeps _ _) (λ _ _ _ named.
      bind-Keeps (emit-Keeps _ (raise_if_ok _ _ _ _ _ _ named, refl))
        (λ _ _ _ _. bind-Keeps (from-Keeps _) (λ _ _ _ _. emit-Keeps _ tt)))

  cancel_speech_message-Made : (d : Fields) (s : Socket) → Made (cancel_speech_message w d) s
  unfolding cancel_speech_message turn_id_of
  cancel_speech_message-Made d s =
      bind-Keeps (from-Keeps _)
        (λ _ _ _ _. bind-Keeps (recording-Keeps _) (λ _ _ _ _. emit-Keeps _ tt))

  pub owned_message-Made :
      (d : Fields) (type : Json) (s : Socket) → Made (owned_message w d type p) s
  unfolding owned_message
  owned_message-Made d type s = if-Keeps _ (start_message-Made d s) (
      if-Keeps _ (stop_message-Made d s) (
        if-Keeps _ (cancel_message-Made d s) (
          if-Keeps _ (submit_message-Made d s) (
            if-Keeps _ (approve_message-Made d s) (
              if-Keeps _ (stop_run_message-Made d s) (
                if-Keeps _ (acknowledge_unknown_message-Made d s) (
                  if-Keeps _ (acknowledge_unrecoverable_message-Made d s)
                    (if-Keeps _ (cancel_speech_message-Made d s) (from-Keeps _)))))))))
