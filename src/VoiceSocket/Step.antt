-- ===== src/VoiceSocket/Step.antt =====
-- A handler of backend/voice_console/voice_socket.py that may raise: what it wrote and sent before
-- stays.
use hermes_voice_console.Prelude.{Bool, true, false, List, [], ◌∷◌, ◌++◌, Result, ok, err}
use hermes_voice_console.Protocol.{VoiceProtocolError}
use hermes_voice_console.VoiceSocket.{Failure, protocol, Output, send, Frame, Socket}

abbrev pub Outcome : Type 0 → Type 0
Outcome A = Socket × (List Output × Result Failure A)

abbrev pub Step : Type 0 → Type 0
Step A = Socket → Outcome A

abbrev pub after : {A : Type 0} → List Output → Outcome A → Outcome A
after out (s, (more, r)) = (s, (out ++ more, r))

abbrev pub continue : {A B : Type 0} → Outcome A → (A → Step B) → Outcome B
continue (s, (out, ok a)) f = after out (f a s)
continue (s, (out, err e)) f = (s, (out, err e))

infixl 5 ◌>>=◌ ◌>>◌
unfoldable pub ◌>>=◌ : {A B : Type 0} → Step A → (A → Step B) → Step B
◌>>=◌ m f s = continue (m s) f

abbrev pub ◌>>◌ : {B : Type 0} → Step (Unit {0}) → Step B → Step B
m >> k = m >>= λ _. k

unfoldable pub pure : {A : Type 0} → A → Step A
pure a s = (s, ([], ok a))

unfoldable pub get_socket : Step Socket
get_socket s = (s, ([], ok s))

unfoldable pub modify : (Socket → Socket) → Step (Unit {0})
modify f s = (f s, ([], ok tt))

unfoldable pub emit : Output → Step (Unit {0})
emit o s = (s, (o ∷ [], ok tt))

-- `await send_json(frame)`
abbrev pub send_json : Frame → Step (Unit {0})
send_json f = emit (send f)

-- A call that may raise.
unfoldable pub from : {A : Type 0} → Result Failure A → Step A
from r s = (s, ([], r))

abbrev pub outcome_of : {A : Type 0} → Result VoiceProtocolError A → Result Failure A
outcome_of (ok a) = ok a
outcome_of (err e) = err (protocol e)

-- `if b: raise e`
unfoldable pub raise_if : Bool → VoiceProtocolError → Step (Unit {0})
raise_if true e s = (s, ([], err (protocol e)))
raise_if false e s = (s, ([], ok tt))
