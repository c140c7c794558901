-- ===== src/VoiceSocket/Permitted.antt =====
-- What the socket of backend/voice_console/voice_socket.py calls at a frame, and where it stands then.
use hermes_voice_console.Prelude.{
  ℕ, ◌≡◌, refl, sym, ◌∙◌, subst, ◌⊎◌, inl, inr, Bool, true, false, Option, none, some, List, [],
  ◌∷◌, All, Text, codes, arith, ok, err, Yields, Yields_ok, if◌then◌else◌,
}
use hermes_voice_console.RunStore.{SessionRecord}
use hermes_voice_console.Realtime.Json.{Fields, get}
use hermes_voice_console.VoiceSocket.{error, Output, send, Socket, World}
use hermes_voice_console.VoiceSocket.Step.{Outcome, Step}
use hermes_voice_console.VoiceSocket.Messages.{Place}
use hermes_voice_console.VoiceSocket.Loop.{
  disconnect, other, place_of, refreshed, message, text_frame, error_of, reported, audio_frame,
  Incoming, bytes, text, handle, run,
}
use hermes_voice_console.VoiceSocket.Keeps.{
  Keeps, All-append, bind-Keeps, modify-Keeps, emit-Keeps, recording-Keeps,
}
use hermes_voice_console.VoiceSocket.Ends.{
  Ends, Keeps-Ends, get_socket-Ends, raise_if-Ends, from-Ends, if-Ends,
}
use hermes_voice_console.VoiceSocket.Allowed.{IsCall, owned_message-Made}
use hermes_voice_console.VoiceSocket.Greeted.{IsGreeting, IsGranted, Advances, hello-Ends}

-- What one message puts out: the greeting's calls, or calls in the name of the owner of the socket's
-- target, which is greeted.
abbrev pub IsPermitted : World → Socket → Output → Type 0
IsPermitted w s o =
    IsGreeting o
    ⊎ ((t : Text) × ((r : SessionRecord) × (s.hello_received ≡ true)
          × (s.target ≡ some t)
          × (s.session ≡ some r)
          × IsCall w (w.owner_key t) o))

All-mono :
    (P Q : Output → Type 0) (xs : List Output) → ((o : Output) → P o → Q o) → All P xs → All Q xs
All-mono P Q [] h a = tt
All-mono P Q (x ∷ xs) h (p, a) = (h x p, All-mono P Q xs h a)

Ends-mono :
    {A : Type 0} {P Q : Output → Type 0} {R : Socket → Type 0} {m : Step A} {s : Socket}
    → ((o : Output) → P o → Q o)
    → Ends P R m s
    → Ends Q R m s
Ends-mono {P = P} {Q = Q} {m = m} {s = s} h k = record {
  stops = (All-mono P Q (m s).1.0 h k.stops.0, k.stops.1);
}

refreshed-Keeps : (o : Option ℕ) (s : Socket) → Keeps IsGreeting (refreshed o) s
refreshed-Keeps (some n) s = emit-Keeps _ tt
refreshed-Keeps none s = bind-Keeps (modify-Keeps _ (refl, refl, refl)) (λ _ _ _ _. emit-Keeps _ tt)

-- What the check of the greeting tells.
abbrev IsPlaceOf : World → Bool → Option Text → Option SessionRecord → Place → Type 0
IsPlaceOf w greeted target session p =
    (t : Text) × ((r : SessionRecord) × (greeted ≡ true)
      × (target ≡ some t)
      × (session ≡ some r)
      × (p.owner_key ≡ w.owner_key t))

place_of-IsPlaceOf :
    (w : World) (b : Bool) (t : Option Text) (r : Option SessionRecord)
    → Yields (IsPlaceOf w b t r) (place_of w b t r)
place_of-IsPlaceOf w true (some t) (some r) = (t, (r, refl, refl, refl, refl))
place_of-IsPlaceOf w true (some t) none = tt
place_of-IsPlaceOf w true none r = tt
place_of-IsPlaceOf w false t r = tt

message-Ends :
    (w : World) (d : Fields) (s : Socket) → Ends (IsPermitted w s) (Advances w s) (message w d) s
unfolding message
message-Ends w d s =
    if-Ends _
      (Ends-mono (λ o h. inl h)
        (Keeps-Ends (refreshed-Keeps (w.refresh (get d (codes "token"))) s) (λ s' same. inl same)))
      (if-Ends _ (Keeps-Ends (emit-Keeps _ (inl tt)) (λ s' same. inl same)) (
        if-Ends _ (Ends-mono (λ o h. inl h) (hello-Ends w d s)) (
          get_socket-Ends _ (
            from-Ends _ _ (inl (refl, refl, refl)) (λ p placed.
              let (t, (r, e, f, g, owner)) =
                Yields_ok (IsPlaceOf w s.hello_received s.target s.session)
                  (place_of w s.hello_received s.target s.session) p
                  (place_of-IsPlaceOf w s.hello_received s.target s.session) placed in
              Ends-mono (λ o h. inr (t, (r, e, f, g, subst (λ k. IsCall w k o) owner h)))
                (Keeps-Ends (owned_message-Made w p d (get d (codes "type")) s)
                  (λ s' same. inl same)))))))

text_frame-Ends :
    (w : World) (t : Text) (s : Socket) → Ends (IsPermitted w s) (Advances w s) (text_frame w t) s
unfolding text_frame
text_frame-Ends w t s =
    raise_if-Ends _ _ _ (inl (refl, refl, refl))
      (λ _. from-Ends _ _ (inl (refl, refl, refl)) (λ d _. message-Ends w d s))

audio_frame-Ends :
    (w : World) (chunk : List ℕ) (s : Socket)
    → Ends (IsPermitted w s) (Advances w s) (audio_frame w chunk) s
unfolding audio_frame
audio_frame-Ends w chunk s = get_socket-Ends _ (
    raise_if-Ends _ _ _ (inl (refl, refl, refl))
      (λ _. Keeps-Ends (recording-Keeps _) (λ s' same. inl same)))

-- Where a frame leaves the socket, and what it put out.
abbrev pub IsStep : World → Socket → Socket × List Output → Type 0
IsStep w s (s', out) = All (IsPermitted w s) out × Advances w s s'

reported-IsStep :
    (w : World) (s : Socket) (o : Outcome (Unit {0}))
    → All (IsPermitted w s) o.1.0
    → Advances w s o.0
    → IsStep w s (reported o)
reported-IsStep w s (s', (out, ok u)) all a = (all, a)
reported-IsStep w s (s', (out, err e)) all a =
    (All-append (IsPermitted w s) out (send (error (error_of e)) ∷ []) all (inl tt, tt), a)

-- At any frame the socket calls nothing, reads a run that is named or closes; or it has been greeted
-- before, and calls in the name of the owner of its target: a run is begun with a text of 1 character
-- at least and no more than the limit, an approval has a run and a decision that is known, and is
-- permanent only where the deployment allows it, and a run that is stopped or acknowledged is named.
-- The frame leaves the greeting as it is, or the socket not greeted, or it greets it for a configured
-- target that supports runs and a conversation that the console gives to the owner.
pub handle-IsStep : (w : World) (i : Incoming) (s : Socket) → IsStep w s (handle w i s)
unfolding handle
handle-IsStep w disconnect s = (tt, inl (refl, refl, refl))
handle-IsStep w other s = (tt, inl (refl, refl, refl))
handle-IsStep w (bytes chunk) s =
    let (all, a) = (audio_frame-Ends w chunk s).stops in
    reported-IsStep w s (audio_frame w chunk s) all a
handle-IsStep w (text t) s =
    let (all, a) = (text_frame-Ends w t s).stops in reported-IsStep w s (text_frame w t s) all a

-- The conversation is granted at one of the turns of the loop.
abbrev pub IsGrantedIn : List (World × Incoming) → Text → SessionRecord → Type 0
IsGrantedIn [] t r = ⊥
IsGrantedIn ((w, i) ∷ steps) t r = IsGranted w t r ⊎ IsGrantedIn steps t r

-- A socket that is greeted stands on a target and a conversation for which `G` holds.
abbrev Stands : (Text → SessionRecord → Type 0) → Socket → Type 0
Stands G s =
    s.hello_received ≡ true
    → (t : Text) × ((r : SessionRecord) × (s.target ≡ some t) × (s.session ≡ some r) × G t r)

advance-Stands :
    (G : Text → SessionRecord → Type 0) (w : World) (s s' : Socket)
    → Stands G s
    → Advances w s s'
    → Stands (λ t r. G t r ⊎ IsGranted w t r) s'
advance-Stands G w s s' h (inl (same, e, f)) g =
    let (t, (r, a, b, k)) = h (sym same ∙ g) in (t, (r, e ∙ a, f ∙ b, inl k))
advance-Stands G w s s' h (inr (inl new)) g = absurd (ground (arith, new, g))
advance-Stands G w s s' h (inr (inr (_, (t, (r, a, b, k))))) g = (t, (r, a, b, inr k))

if-Stands :
    (G : Text → SessionRecord → Type 0) (b : Bool) (x y : Socket × List Output)
    → Stands G x.0
    → Stands G y.0
    → Stands G (if b then x else y).0
if-Stands G true x y h k = h
if-Stands G false x y h k = k

run-Stands :
    (G : Text → SessionRecord → Type 0) (steps : List (World × Incoming)) (s : Socket)
    → Stands G s
    → Stands (λ t r. G t r ⊎ IsGrantedIn steps t r) (run steps s).0
unfolding run
run-Stands G [] s h = λ g. let (t, (r, a, b, k)) = h g in (t, (r, a, b, inl k))
run-Stands G ((w, i) ∷ steps) s h =
    if-Stands (λ t r. G t r ⊎ IsGrantedIn ((w, i) ∷ steps) t r) s.open_socket _ _
      (λ g.
        let (t, (r, a, b, k)) =
          run-Stands (λ t r. G t r ⊎ IsGranted w t r) steps (handle w i s).0
            (advance-Stands G w s (handle w i s).0 h (handle-IsStep w i s).1) g in
        (t, (r, a, b, apart k)))
      (λ g. let (t, (r, a, b, k)) = h g in (t, (r, a, b, inl k)))
  where
    apart : {A B C : Type 0} → (A ⊎ B) ⊎ C → A ⊎ (B ⊎ C)
    apart (inl (inl a)) = inl a
    apart (inl (inr b)) = inr (inl b)
    apart (inr c) = inr (inr c)

-- Over any frames: a socket that was not greeted at first and is in the end has a target that was
-- configured, a conversation that the console gave to the target's owner, and a target that supported
-- runs, all three at one of the turns of the loop.
pub run_granted :
    (steps : List (World × Incoming)) (s : Socket)
    → s.hello_received ≡ false
    → (run steps s).0.hello_received ≡ true
    → (t : Text) × ((r : SessionRecord) × ((run steps s).0.target ≡ some t)
        × ((run steps s).0.session ≡ some r)
        × IsGrantedIn steps t r)
run_granted steps s new g =
    let (t, (r, a, b, k)) =
      run-Stands (λ t r. ⊥) steps s (λ g'. absurd (ground (arith, new, g'))) g in
    (t, (r, a, b, only k))
  where
    only : {A : Type 0} → ⊥ ⊎ A → A
    only (inl x) = absurd x
    only (inr a) = a
