-- ===== src/Realtime/Service/Owned.antt =====
-- Whose sessions the handlers of backend/voice_console/realtime/service.py mutate.
use hermes_voice_console.Prelude.{
  ◌≡◌, subst, Option, none, some, Text, text_Eq, text_eq_iff, arith, codes, Result, ok, err,
  bind_ok, first, first_holds,
}
use hermes_voice_console.RunStore.{ConsoleStore}
use hermes_voice_console.Realtime.{Exn}
use hermes_voice_console.Realtime.Contracts.{validate_identifier}
use hermes_voice_console.Realtime.Store.{MappingStore, SessionRow}
use hermes_voice_console.Realtime.Store.Sessions.{require_session, is_owned, or_not_found}
use hermes_voice_console.Realtime.Service.{Proxy, Target, target, owned_row, require_conversation}
use hermes_voice_console.Realtime.Service.Actions.{Call}
use hermes_voice_console.Realtime.Service.Events.{Entry, acts, controls, approves, deletes}

-- The call that an entry makes.
abbrev pub call_of : Entry → Call
call_of (acts action c) = c
call_of (controls control c) = c
call_of (approves approval_id c) = c
call_of (deletes c) = c

-- The row is of the session that a call names, at the target that it names; its owner is the caller,
-- who owns the conversation too.
abbrev pub IsOwnedBy : Proxy → ConsoleStore → Call → Target → SessionRow → Type 0
IsOwnedBy p console c t m =
    (target p c.target_name ≡ ok t)
    × (m.realtime_session_id ≡ c.session_id)
    × (m.owner_key ≡ p.owner_key c.principal t.name)
    × (m.target_name ≡ t.name)
    × (require_conversation p console m.conversation_id t c.principal ≡ ok tt)

pub or_not_found_ok : (o : Option SessionRow) (m : SessionRow) → or_not_found o ≡ ok m → o ≡ some m
or_not_found_ok none m h = cc
or_not_found_ok (some x) m h = cc

abbrev pub Owns : Proxy → ConsoleStore → Call → Result Exn (Target × SessionRow) → Type 0
Owns p console c (ok (t, m)) = IsOwnedBy p console c t m
Owns p console c (err e) = Unit {0}

pub require_session_ok :
    (s : MappingStore) (sid o t : Text) (m : SessionRow)
    → require_session s sid o t ≡ ok m
    → (m.realtime_session_id ≡ sid) × (m.owner_key ≡ o) × (m.target_name ≡ t)
unfolding require_session is_owned
require_session_ok s sid o t m h =
    let held =
      first_holds (is_owned sid o t) s.sessions m
        (or_not_found_ok (first (is_owned sid o t) s.sessions) m h) in
    ground (
      arith,
      text_eq_iff m.realtime_session_id sid,
      text_eq_iff m.owner_key o,
      text_eq_iff m.target_name t,
    )

abbrev pub owned : Target → SessionRow → Result Exn (Target × SessionRow)
owned t m = ok (t, m)

pub owned_row_end :
    (p : Proxy) (console : ConsoleStore) (s : MappingStore) (c : Call) (t t' : Target)
    (m m' : SessionRow)
    → target p c.target_name ≡ ok t'
    → require_session s c.session_id (p.owner_key c.principal t'.name) t'.name ≡ ok m'
    → require_conversation p console m'.conversation_id t' c.principal ≡ ok tt
    → owned t' m' ≡ ok (t, m)
    → IsOwnedBy p console c t m
owned_row_end p console s c t t' m m' e found owns h =
    let (sid, owner, name) =
      require_session_ok s c.session_id (p.owner_key c.principal t'.name) t'.name m' found in
    subst (λ (x : Result Exn (Target × SessionRow)). Owns p console c x) h
      (e, sid, owner, name, owns)

pub owned_row_ok :
    (p : Proxy) (console : ConsoleStore) (s : MappingStore) (c : Call) (t : Target) (m : SessionRow)
    → owned_row p console s c.session_id c.target_name c.principal ≡ ok (t, m)
    → IsOwnedBy p console c t m
unfolding owned_row
owned_row_ok p console s c t m h =
    let (_, _, h1) =
      bind_ok (validate_identifier c.session_id (codes "realtime_session_id")) _ _ h in
    let (_, _, h2) = bind_ok (validate_identifier c.target_name (codes "target")) _ _ h1 in
    let (t', e, h3) = bind_ok (target p c.target_name) _ _ h2 in
    let (m', found, h4) =
      bind_ok (require_session s c.session_id (p.owner_key c.principal t'.name) t'.name) _ _ h3 in
    let (u, owns, h5) =
      bind_ok (require_conversation p console m'.conversation_id t' c.principal) _ _ h4 in
    owned_row_end p console s c t t' m m' e found owns h5

abbrev pub OwnsRow : Proxy → ConsoleStore → Call → Result Exn SessionRow → Type 0
OwnsRow p console c (ok m) = (t : Target) × IsOwnedBy p console c t m
OwnsRow p console c (err e) = Unit {0}
