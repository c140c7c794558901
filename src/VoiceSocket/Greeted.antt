-- ===== src/VoiceSocket/Greeted.antt =====
-- Who is greeted by the socket of backend/voice_console/voice_socket.py, and in whose name it acts then.
use hermes_voice_console.Prelude.{
  ◌≡◌, refl, ap, ◌∙◌, ◌⊎◌, inl, inr, true, false, Option, none, some, List, [], ◌∷◌, Text, text_Eq,
  ◌==◌, codes, Bool-cases, ok,
}
use hermes_voice_console.RunStore.{SessionRecord}
use hermes_voice_console.Realtime.Json.{Fields}
use hermes_voice_console.VoiceSocket.{Frame, subscribe, close, Output, send, call, Socket, World}
use hermes_voice_console.VoiceSocket.Hello.{
  text_or_empty, hello, greeted, validate_hello, found, send_frames, resume,
}
use hermes_voice_console.VoiceSocket.Ends.{
  Ends, Keeps-Ends, Same-of, bind-Ends, get_socket-Ends, raise_if-Ends, from-Ends, modify-Ends,
}
use hermes_voice_console.VoiceSocket.Keeps.{
  Same, Keeps, bind-Keeps, raise_if-Keeps, get_socket-Keeps, modify-Keeps, emit-Keeps, from-Keeps,
  pure-Keeps, not-false,
}

-- What is called without a greeting: the reading of a run that is named, and the close of the socket.
abbrev pub IsGreeting : Output → Type 0
IsGreeting (send f) = Unit
IsGreeting (call (subscribe run_id o)) = (run_id == []) ≡ false
IsGreeting (call close) = Unit
IsGreeting (call _) = ⊥

validate_hello-Keeps : (d : Fields) (s : Socket) → Keeps IsGreeting (validate_hello d) s
unfolding validate_hello
validate_hello-Keeps d s = bind-Keeps (raise_if-Keeps _ _) (λ _ _ _ _.
    bind-Keeps (from-Keeps _)
      (λ _ _ _ _. bind-Keeps (raise_if-Keeps _ _) (λ _ _ _ _. raise_if-Keeps _ _)))

send_frames-Keeps : (fs : List Frame) (s : Socket) → Keeps IsGreeting (send_frames fs) s
unfolding send_frames
send_frames-Keeps [] s = pure-Keeps tt
send_frames-Keeps (f ∷ fs) s = bind-Keeps (emit-Keeps _ tt) (λ s' _ _ _. send_frames-Keeps fs s')

resume-Keeps :
    (w : World) (d : Fields) (owner_key run_id : Text) (s : Socket)
    → Keeps IsGreeting (resume w d owner_key run_id) s
unfolding resume
resume-Keeps w d owner_key run_id s = elim (Bool-cases (run_id == [])) [
  | inl e ↦ rw e (pure-Keeps tt)
  | inr e ↦ rw e (
      bind-Keeps (from-Keeps _)
        (λ _ _ _ _. bind-Keeps (modify-Keeps _ (refl, refl, refl)) (λ _ _ _ _. emit-Keeps _ e)))
]

greeted-Keeps :
    (w : World) (d : Fields) (t : Text) (r : SessionRecord) (s : Socket)
    → Keeps IsGreeting (greeted w d t r) s
unfolding greeted
greeted-Keeps w d t r s = bind-Keeps get_socket-Keeps (λ _ _ _ _.
    bind-Keeps (emit-Keeps _ tt)
      (λ s2 _ _ _. bind-Keeps (send_frames-Keeps _ s2) (λ s3 _ _ _. resume-Keeps w d _ _ s3)))

found_ok : (o : Option SessionRecord) (r : SessionRecord) → found o ≡ ok r → o ≡ some r
found_ok none r h = cc
found_ok (some x) r h = cc

-- The target is configured, the console gives this conversation to the
-- target's owner, and the target can carry it.
abbrev pub IsGranted : World → Text → SessionRecord → Type 0
IsGranted w t r =
    ((n : Text) × (w.targets n ≡ ok t))
    × ((c : Text) × (w.sessions c t ≡ some r))
    × (w.supports t ≡ ok true)

-- After a step: as before, or not greeted, or greeted for a conversation that is granted.
abbrev pub Advances : World → Socket → Socket → Type 0
Advances w s s' =
    Same s s'
    ⊎ ((s'.hello_received ≡ false)
        ⊎ ((s.hello_received ≡ false)
            × ((t : Text) × ((r : SessionRecord) × (s'.target ≡ some t)
                  × (s'.session ≡ some r)
                  × IsGranted w t r))))

-- The rest of the greeting, once the conversation is granted.
welcome-Ends :
    (w : World) (d : Fields) (s s' : Socket) (t : Text) (r : SessionRecord)
    → s.hello_received ≡ false
    → s'.target ≡ some t
    → s'.session ≡ some r
    → IsGranted w t r
    → Ends IsGreeting (Advances w s) (greeted w d t r) s'
welcome-Ends w d s s' t r h e g granted =
    Keeps-Ends (greeted-Keeps w d t r s')
      (λ s'' (_, e', g'). inr (inr (h, (t, (r, e' ∙ e, g' ∙ g, granted)))))

pub hello-Ends :
    (w : World) (d : Fields) (s : Socket) → Ends IsGreeting (Advances w s) (hello w d) s
unfolding hello
hello-Ends w d s = get_socket-Ends _ (
    raise_if-Ends _ _ _ as_before (λ new.
      bind-Ends (Keeps-Ends (validate_hello-Keeps d s) (λ s' same. inl same)) (λ s1 _ out e.
        let (same1, _, _) = Same-of (validate_hello-Keeps d s) e in
        let new1 = same1 ∙ new in
        raise_if-Ends _ _ _ (inr (inl new1)) (λ _. from-Ends _ _ (inr (inl new1)) (λ t configured.
          modify-Ends _ _ (
            from-Ends _ _ (inr (inl new1)) (λ r owned. modify-Ends _ _ (
              from-Ends _ _ (inr (inl new1)) (λ supports able.
                raise_if-Ends _ _ _ (inr (inl new1)) (λ capable. modify-Ends _ _ (
                  welcome-Ends w d s _ t r new refl refl (
                    (text_or_empty w d (codes "target"), configured),
                    (text_or_empty w d (codes "conversation_id"), found_ok _ r owned),
                    able ∙ ap ok (not-false supports capable),
                  ))))))))))))
  where
    as_before : Advances w s s
    as_before = inl (refl, refl, refl)
