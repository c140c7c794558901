-- ===== src/VoiceSocket/Keeps.antt =====
-- Steps of backend/voice_console/voice_socket.py that leave the greeting of the socket alone, with what
-- they send and call.
use hermes_voice_console.Prelude.{
  Bool, true, false, not, ◌≡◌, refl, ◌∙◌, ap, List, [], ◌∷◌, ◌++◌, All, Result, ok, err, Yields,
  subst, if◌then◌else◌,
}
use hermes_voice_console.Protocol.{VoiceProtocolError}
use hermes_voice_console.Recording.{RecordingSession, Raising}
use hermes_voice_console.VoiceSocket.{Failure, Output, Socket}
use hermes_voice_console.VoiceSocket.Step.{
  Outcome, Step, continue, ◌>>=◌, pure, get_socket, modify, emit, from, raise_if, outcome_of,
}
use hermes_voice_console.VoiceSocket.Messages.{recording}

-- The greeting, the target and the conversation stay.
abbrev pub Same : Socket → Socket → Type 0
Same s s' =
    (s'.hello_received ≡ s.hello_received) × (s'.target ≡ s.target) × (s'.session ≡ s.session)

pub Same-trans : (s s' s'' : Socket) → Same s s' → Same s' s'' → Same s s''
Same-trans s s' s'' (a, b, c) (d, e, f) = (d ∙ a, e ∙ b, f ∙ c)

pub All-append :
    (P : Output → Type 0) (xs ys : List Output) → All P xs → All P ys → All P (xs ++ ys)
All-append P [] ys a b = b
All-append P (x ∷ xs) ys (p, a) b = (p, All-append P xs ys a b)

-- What holds of the outcome of a step at a socket.
abbrev pub Leaves : {A : Type 0} → (Output → Type 0) → Socket → Outcome A → Type 0
Leaves P s (s', (out, r)) = All P out × Same s s'

-- The step at a socket: what it puts out satisfies `P`, and the greeting stays.
pub record Keeps {A : Type 0} (P : Output → Type 0) (m : Step A) (s : Socket) : Type 0 where
  pub leaves : Leaves P s (m s)

continue-Leaves :
    {A B : Type 0} (P : Output → Type 0) (s : Socket) (o : Outcome A) (f : A → Step B)
    → Leaves P s o
    → ((s' : Socket) (a : A) (out : List Output) → o ≡ (s', (out, ok a)) → Keeps P (f a) s')
    → Leaves P s (continue o f)
continue-Leaves P s (s', (out, ok a)) f (all, same) h =
    let (more, rest) = (h s' a out refl).leaves in
    (All-append P out (f a s').1.0 all more, Same-trans s s' (f a s').0 same rest)
continue-Leaves P s (s', (out, err e)) f (all, same) h = (all, same)

module _ {P : Output → Type 0} {s : Socket} where
  pub bind-Keeps :
      {A B : Type 0} {m : Step A} {f : A → Step B}
      → Keeps P m s
      → ((s' : Socket) (a : A) (out : List Output) → m s ≡ (s', (out, ok a)) → Keeps P (f a) s')
      → Keeps P (m >>= f) s
  unfolding ◌>>=◌
  bind-Keeps {m = m} {f = f} k h = record { leaves = continue-Leaves P s (m s) f k.leaves h }

  pub pure-Keeps : {A : Type 0} (a : A) → Keeps P (pure a) s
  unfolding pure
  pure-Keeps a = record { leaves = (tt, (refl, refl, refl)) }

  pub get_socket-Keeps : Keeps P get_socket s
  unfolding get_socket
  get_socket-Keeps = record { leaves = (tt, (refl, refl, refl)) }

  pub modify-Keeps : (f : Socket → Socket) → Same s (f s) → Keeps P (modify f) s
  unfolding modify
  modify-Keeps f h = record { leaves = (tt, h) }

  pub emit-Keeps : (o : Output) → P o → Keeps P (emit o) s
  unfolding emit
  emit-Keeps o h = record { leaves = ((h, tt), (refl, refl, refl)) }

  pub from-Keeps : {A : Type 0} (r : Result Failure A) → Keeps P (from r) s
  unfolding from
  from-Keeps r = record { leaves = (tt, (refl, refl, refl)) }

  pub raise_if-Keeps : (b : Bool) (e : VoiceProtocolError) → Keeps P (raise_if b e) s
  unfolding raise_if
  raise_if-Keeps true e = record { leaves = (tt, (refl, refl, refl)) }
  raise_if-Keeps false e = record { leaves = (tt, (refl, refl, refl)) }

  pub if-Keeps :
      {A : Type 0} (b : Bool) {m n : Step A}
      → Keeps P m s
      → Keeps P n s
      → Keeps P (if b then m else n) s
  if-Keeps true h k = h
  if-Keeps false h k = k

  pub recording-Keeps : {A : Type 0} (f : RecordingSession → Raising A) → Keeps P (recording f) s
  unfolding recording
  recording-Keeps f = record { leaves = (tt, (refl, refl, refl)) }

-- What a check that did not raise tells.
pub raise_if_ok :
    (b : Bool) (e : VoiceProtocolError) (s s' : Socket) (u : Unit {0}) (out : List Output)
    → raise_if b e s ≡ (s', (out, ok u))
    → b ≡ false
unfolding raise_if
raise_if_ok true e s s' u out h = cc
raise_if_ok false e s s' u out h = refl

pub from_ok :
    {A : Type 0} (r : Result Failure A) (s s' : Socket) (a : A) (out : List Output)
    → from r s ≡ (s', (out, ok a))
    → r ≡ ok a
unfolding from
from_ok r s s' a out h = ap (λ o. o.1.1) h

outcome_of_ok :
    {A : Type 0} (P : A → Type 0) (r : Result VoiceProtocolError A) (a : A)
    → Yields P r
    → outcome_of r ≡ ok a
    → P a
outcome_of_ok P (ok b) a h e = subst (Yields P) e h
outcome_of_ok P (err x) a h e = subst (Yields P) e tt

pub checked_ok :
    {A : Type 0} (P : A → Type 0) (r : Result VoiceProtocolError A) (s s' : Socket) (a : A)
    (out : List Output)
    → Yields P r
    → from (outcome_of r) s ≡ (s', (out, ok a))
    → P a
checked_ok P r s s' a out h e = outcome_of_ok P r a h (from_ok (outcome_of r) s s' a out e)

pub not-false : (b : Bool) → not b ≡ false → b ≡ true
not-false true h = refl
not-false false h = cc
