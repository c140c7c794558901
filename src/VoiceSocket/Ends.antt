-- ===== src/VoiceSocket/Ends.antt =====
-- Steps of backend/voice_console/voice_socket.py by where they end: what they put out, and the socket
-- that they leave, whether they raise or not.
use hermes_voice_console.Prelude.{
  Bool, true, false, ◌≡◌, refl, subst, List, All, Result, ok, err, if◌then◌else◌,
}
use hermes_voice_console.Protocol.{VoiceProtocolError}
use hermes_voice_console.VoiceSocket.{Failure, Output, Socket}
use hermes_voice_console.VoiceSocket.Step.{
  Outcome, Step, continue, ◌>>=◌, get_socket, modify, emit, from, raise_if,
}
use hermes_voice_console.VoiceSocket.Keeps.{Same, Keeps, All-append}

abbrev Stops : {A : Type 0} → (Output → Type 0) → (Socket → Type 0) → Outcome A → Type 0
Stops P R (s, (out, r)) = All P out × R s

pub record Ends {A : Type 0} (P : Output → Type 0) (R : Socket → Type 0) (m : Step A) (s : Socket)
    : Type 0 where
  pub stops : Stops P R (m s)

continue-Stops :
    {A B : Type 0} (P : Output → Type 0) (R : Socket → Type 0) (o : Outcome A) (f : A → Step B)
    → Stops P R o
    → ((s' : Socket) (a : A) (out : List Output) → o ≡ (s', (out, ok a)) → Ends P R (f a) s')
    → Stops P R (continue o f)
continue-Stops P R (s', (out, ok a)) f (all, _) h =
    let (more, rest) = (h s' a out refl).stops in (All-append P out (f a s').1.0 all more, rest)
continue-Stops P R (s', (out, err e)) f (all, r) h = (all, r)

-- What a step that keeps the greeting tells of the socket behind it.
pub Same-of :
    {A : Type 0} {P : Output → Type 0} {m : Step A} {s s' : Socket}
    {o : List Output × Result Failure A}
    → Keeps P m s
    → m s ≡ (s', o)
    → Same s s'
Same-of {s = s} k e = subst (λ x. Same s x.0) e k.leaves.1

module _ {P : Output → Type 0} {R : Socket → Type 0} {s : Socket} where
  pub Keeps-Ends :
      {A : Type 0} {m : Step A} → Keeps P m s → ((s' : Socket) → Same s s' → R s') → Ends P R m s
  Keeps-Ends {m = m} k h = record { stops = (k.leaves.0, h (m s).0 k.leaves.1) }

  pub bind-Ends :
      {A B : Type 0} {m : Step A} {f : A → Step B}
      → Ends P R m s
      → ((s' : Socket) (a : A) (out : List Output) → m s ≡ (s', (out, ok a)) → Ends P R (f a) s')
      → Ends P R (m >>= f) s
  unfolding ◌>>=◌
  bind-Ends {m = m} {f = f} k h = record { stops = continue-Stops P R (m s) f k.stops h }

  pub get_socket-Ends :
      {B : Type 0} (f : Socket → Step B) → Ends P R (f s) s → Ends P R (get_socket >>= f) s
  unfolding ◌>>=◌ get_socket
  get_socket-Ends f k = record { stops = k.stops }

  pub from-Ends :
      {A B : Type 0} (r : Result Failure A) (f : A → Step B)
      → R s
      → ((a : A) → r ≡ ok a → Ends P R (f a) s)
      → Ends P R (from r >>= f) s
  unfolding ◌>>=◌ from
  from-Ends (ok a) f h k = record { stops = (k a refl).stops }
  from-Ends (err e) f h k = record { stops = (tt, h) }

  pub raise_if-Ends :
      {B : Type 0} (b : Bool) (e : VoiceProtocolError) (f : Unit {0} → Step B)
      → R s
      → (b ≡ false → Ends P R (f tt) s)
      → Ends P R (raise_if b e >>= f) s
  unfolding ◌>>=◌ raise_if
  raise_if-Ends true e f h k = record { stops = (tt, h) }
  raise_if-Ends false e f h k = record { stops = (k refl).stops }

  pub modify-Ends :
      {B : Type 0} (g : Socket → Socket) (f : Unit {0} → Step B)
      → Ends P R (f tt) (g s)
      → Ends P R (modify g >>= f) s
  unfolding ◌>>=◌ modify
  modify-Ends g f k = record { stops = k.stops }

  pub emit-Ends : (o : Output) → P o → R s → Ends P R (emit o) s
  unfolding emit
  emit-Ends o h r = record { stops = ((h, tt), r) }

  pub if-Ends :
      {A : Type 0} (b : Bool) {m n : Step A}
      → Ends P R m s
      → Ends P R n s
      → Ends P R (if b then m else n) s
  if-Ends true h k = h
  if-Ends false h k = k
