-- ===== src/Realtime/Service/Creation/Made.antt =====
-- Whose a created session is.
use hermes_voice_console.Prelude.{
  ℕ, ◌≡◌, refl, subst, true, Option, none, some, Text, text_Eq, text_eq_iff, arith, codes, Result,
  ok, err, guard, first_holds, Yields, bind-Yields, Yields-mono, Yields-self,
}
use hermes_voice_console.RunStore
use hermes_voice_console.RunStore.Sessions
use hermes_voice_console.Realtime.{Exn}
use hermes_voice_console.Realtime.Json.{Fields, get}
use hermes_voice_console.Realtime.Responses.{Pending, SessionView, parse_session}
use hermes_voice_console.Realtime.Store.{
  SessionRow, MappingStore, RequestKey, Claim, complete_request, set_request_state,
}
use hermes_voice_console.Realtime.Store.Sessions.{record_session, require_session}
use hermes_voice_console.Realtime.Store.Records.{Shows, require-record}
use hermes_voice_console.Realtime.Service.{Proxy, Target, client}
use hermes_voice_console.Realtime.Service.Finish.{Answers, Stamps}
use hermes_voice_console.Realtime.Responses.Sound.{parse_session-Yields}
use hermes_voice_console.Realtime.Service.Creation.{
  Creation, read_creation, Compatibility, conversation_of, turn_mode_of, creation_key, with_mode,
  claim_for, claim_creation, Created, undecided, created, stored, viewed, answered, concluded,
  finish_creation, create_session, or_not_found, read_by,
}

-- The session of a view is found in the store by its owner, with what the view shows.
abbrev pub Found : MappingStore → SessionView → Text → Text → Text → Type 0
Found s v owner_key target_name request_id =
    (r : SessionRow) × (require_session s v.realtime_session_id owner_key target_name ≡ ok r)
    × Shows v owner_key target_name request_id r

-- What a creation returns for a conversation.
abbrev Made : RunStore.SessionRecord → Creation → MappingStore × Result Exn Created → Type 0
Made c n (s, err e) = Unit {0}
Made c n (s, ok (undecided w)) = Unit {0}
Made c n (s, ok (created v request)) =
    (request ≡ n.request_id)
    × (v.conversation_id ≡ n.conversation_id)
    × Found s v c.owner_key n.target.name n.request_id

pub complete_request-Found :
    (s : MappingStore) (k : RequestKey) (v : SessionView) (owner target request : Text) (now : ℕ)
    → Found s v owner target request
    → Found (complete_request s k none now) v owner target request
unfolding require_session complete_request set_request_state
complete_request-Found s k v owner target request now h = h

stored-Made :
    (s : MappingStore) (c : RunStore.SessionRecord) (n : Creation) (v : SessionView) (t : Stamps)
    (x : MappingStore × Result Exn (Unit {0}))
    → v.conversation_id ≡ n.conversation_id
    → record_session s v c.owner_key n.target.name n.request_id t.touched ≡ x
    → Made c n (stored n (creation_key c n) v t x)
stored-Made s c n v t (s', err e) cid h = tt
stored-Made s c n v t (s', ok u) cid h = (
  refl,
  cid,
  complete_request-Found s' (creation_key c n) v c.owner_key n.target.name n.request_id t.settled
      (require-record s s' v c.owner_key n.target.name n.request_id t.touched h),
)

viewed-Made :
    (s : MappingStore) (c : RunStore.SessionRecord) (n : Creation) (t : Stamps)
    (x : Result Exn SessionView)
    → Yields (λ (v : SessionView). v.conversation_id ≡ n.conversation_id) x
    → Made c n (viewed s c n t x)
viewed-Made s c n t (err e) h = tt
viewed-Made s c n t (ok v) h = stored-Made s c n v t _ h refl

parsed-conversation :
    (p : Proxy) (d : Fields) (n : Creation)
    → Yields
        (λ (v : SessionView). v.conversation_id ≡ n.conversation_id)
        (parse_session p.show d (some n.conversation_id) none true)
parsed-conversation p d n =
    Yields-mono _ _ _
      (λ (v : SessionView) h. (text_eq_iff v.conversation_id n.conversation_id).0 h.1)
      (parse_session-Yields p.show d (some n.conversation_id) none true)

answered-Made :
    (p : Proxy) (s : MappingStore) (c : RunStore.SessionRecord) (n : Creation) (d : Fields)
    (t : Stamps) (w : Result Exn (Option Pending))
    → Made c n (answered p s c n d t w)
answered-Made p s c n d t (err e) = tt
answered-Made p s c n d t (ok (some w)) = tt
answered-Made p s c n d t (ok none) = viewed-Made s c n t _ (parsed-conversation p d n)

concluded-Made :
    (p : Proxy) (s : MappingStore) (c : RunStore.SessionRecord) (n : Creation) (t : Stamps)
    (x : Result Exn Fields)
    → Made c n (concluded p s c n t x)
concluded-Made p s c n t (err e) = tt
concluded-Made p s c n t (ok d) = answered-Made p s c n d t _

-- The console's store has the conversation, for the owner key of the caller at the target.
abbrev pub Owns :
    Proxy → RunStore.ConsoleStore → Text → Text → Target → RunStore.SessionRecord → Type 0
Owns p console principal conversation_id g c =
    (Sessions.require_session console conversation_id (p.owner_key principal g.name) (some g.name)
      ≡ ok c)
    × (c.conversation_id ≡ conversation_id)
    × (c.owner_key ≡ p.owner_key principal g.name)

-- Who owns the conversation of a creation.
abbrev pub OwnsConversation :
    Proxy → RunStore.ConsoleStore → Text → Creation → RunStore.SessionRecord → Type 0
OwnsConversation p console principal n c = Owns p console principal n.conversation_id n.target c

row_found :
    (o : Option RunStore.SessionRecord) (c : RunStore.SessionRecord)
    → Sessions.or_key_error o ≡ ok c
    → o ≡ some c
row_found none c h = cc
row_found (some x) c h = cc

session_found :
    (console : RunStore.ConsoleStore) (conversation_id owner_key : Text) (target_name : Option Text)
    (c : RunStore.SessionRecord)
    → Sessions.require_session console conversation_id owner_key target_name ≡ ok c
    → Sessions.is_session conversation_id owner_key target_name c ≡ true
unfolding Sessions.require_session
session_found console conversation_id owner_key target_name c h =
    first_holds (Sessions.is_session conversation_id owner_key target_name) console.sessions c
      (row_found _ c h)

found_ok :
    (x : Result RunStore.StoreError RunStore.SessionRecord) (c : RunStore.SessionRecord)
    → or_not_found x ≡ ok c
    → x ≡ ok c
found_ok (ok y) c h = cc
found_ok (err e) c h = cc

-- A row that is found is of the conversation, the owner key and the target it was asked for by.
pub found-Owns :
    (p : Proxy) (console : RunStore.ConsoleStore) (principal conversation_id : Text) (g : Target)
    (c : RunStore.SessionRecord)
    → or_not_found (
        Sessions.require_session console conversation_id
          (p.owner_key principal g.name)
          (some g.name))
      ≡ ok c
    → Owns p console principal conversation_id g c
unfolding Sessions.is_session
found-Owns p console principal conversation_id g c h =
    let found = found_ok _ c h in
    let held =
      session_found console conversation_id (p.owner_key principal g.name) (some g.name) c found in
    (
      found,
      ground (arith, text_eq_iff c.conversation_id conversation_id),
      ground (arith, text_eq_iff c.owner_key (p.owner_key principal g.name)),
    )

conversation_of_ok :
    (p : Proxy) (console : RunStore.ConsoleStore) (principal : Text) (n : Creation)
    (c : RunStore.SessionRecord)
    → conversation_of p console principal n ≡ ok c
    → OwnsConversation p console principal n c
unfolding conversation_of
conversation_of_ok p console principal n c h =
    found-Owns p console principal n.conversation_id n.target c h

-- Where a creation goes on, the caller owns its conversation.
abbrev GoesOn :
    Proxy
    → RunStore.ConsoleStore
    → Text
    → Creation
    → MappingStore × Result Exn RunStore.SessionRecord
    → Type 0
GoesOn p console principal n (s, x) = Yields (OwnsConversation p console principal n) x

with_mode-GoesOn :
    (p : Proxy) (console : RunStore.ConsoleStore) (principal : Text) (n : Creation) (body : Fields)
    (c : RunStore.SessionRecord) (x : MappingStore × Result Exn Claim)
    → OwnsConversation p console principal n c
    → GoesOn p console principal n (with_mode n body c x)
with_mode-GoesOn p console principal n body c (s, err e) h = tt
with_mode-GoesOn p console principal n body c (s, ok x) h =
    bind-Yields _ (turn_mode_of (get body (codes "turn_mode"))) _
      (λ _ _. bind-Yields _ (client n.target) _ (λ _ _. h))

claim_for-GoesOn :
    (p : Proxy) (console : RunStore.ConsoleStore) (principal : Text) (s : MappingStore)
    (n : Creation) (body : Fields) (now : ℕ) (x : Result Exn RunStore.SessionRecord)
    → Yields (OwnsConversation p console principal n) x
    → GoesOn p console principal n (claim_for p s n body now x)
claim_for-GoesOn p console principal s n body now (err e) h = tt
claim_for-GoesOn p console principal s n body now (ok c) h =
    with_mode-GoesOn p console principal n body c _ h

claim_creation-GoesOn :
    (p : Proxy) (console : RunStore.ConsoleStore) (s : MappingStore) (principal : Text)
    (body : Fields) (n : Creation) (answer : Result Exn Compatibility) (now : ℕ)
    → GoesOn p console principal n (claim_creation p console s principal body n answer now)
unfolding claim_creation
claim_creation-GoesOn p console s principal body n answer now =
    claim_for-GoesOn p console principal s n body now _ (
      bind-Yields _ answer _ (λ x _. bind-Yields _ (guard x.compatible _) _ (λ _ _.
        Yields-mono _ _ _ (λ c h. conversation_of_ok p console principal n c h)
          (Yields-self (conversation_of p console principal n)))))

-- What `create_session` returns of a body.
abbrev MadeFor :
    Proxy → RunStore.ConsoleStore → Text → Fields → MappingStore × Result Exn Created → Type 0
MadeFor p console principal body (s, err e) = Unit {0}
MadeFor p console principal body (s, ok (undecided w)) = Unit {0}
MadeFor p console principal body (s, ok (created v request)) =
    (n : Creation) × (c : RunStore.SessionRecord) × (read_creation p body ≡ ok n)
    × OwnsConversation p console principal n c
    × Made c n (s, ok (created v request))

Made-MadeFor :
    (p : Proxy) (console : RunStore.ConsoleStore) (principal : Text) (body : Fields) (n : Creation)
    (c : RunStore.SessionRecord) (x : MappingStore × Result Exn Created)
    → read_creation p body ≡ ok n
    → OwnsConversation p console principal n c
    → Made c n x
    → MadeFor p console principal body x
Made-MadeFor p console principal body n c (s, err e) g o h = tt
Made-MadeFor p console principal body n c (s, ok (undecided w)) g o h = tt
Made-MadeFor p console principal body n c (s, ok (created v request)) g o h = (n, c, g, o, h)

finish_creation-MadeFor :
    (p : Proxy) (console : RunStore.ConsoleStore) (principal : Text) (body : Fields) (n : Creation)
    (a : Answers) (t : Stamps) (x : MappingStore × Result Exn RunStore.SessionRecord)
    → read_creation p body ≡ ok n
    → GoesOn p console principal n x
    → MadeFor p console principal body (finish_creation p n a t x)
unfolding finish_creation
finish_creation-MadeFor p console principal body n a t (s, err e) g h = tt
finish_creation-MadeFor p console principal body n a t (s, ok c) g h =
    Made-MadeFor p console principal body n c _ g h (concluded-Made p s c n t _)

read_by-MadeFor :
    (p : Proxy) (console : RunStore.ConsoleStore) (s : MappingStore) (principal : Text)
    (body : Fields) (answer : Result Exn Compatibility) (now : ℕ) (a : Answers) (t : Stamps)
    (x : Result Exn Creation)
    → read_creation p body ≡ x
    → MadeFor p console principal body (read_by p console s principal body answer now a t x)
read_by-MadeFor p console s principal body answer now a t (err e) h = tt
read_by-MadeFor p console s principal body answer now a t (ok n) h =
    finish_creation-MadeFor p console principal body n a t _ h
      (claim_creation-GoesOn p console s principal body n answer now)

-- A session that `create_session` returns is of the conversation that the body names, which the console's
-- store has for the owner key of the caller at the target that the body names, and bears the request
-- id of the body; and the mapping store has it then for that owner and target, with the generation and
-- the state that are returned.
pub create_session_ok :
    (p : Proxy) (console : RunStore.ConsoleStore) (s s' : MappingStore) (principal : Text)
    (body : Fields) (answer : Result Exn Compatibility) (now : ℕ) (a : Answers) (t : Stamps)
    (v : SessionView) (request : Text)
    → create_session p console s principal body answer now a t ≡ (s', ok (created v request))
    → (n : Creation) × (c : RunStore.SessionRecord) × (read_creation p body ≡ ok n)
      × OwnsConversation p console principal n c
      × ((request ≡ n.request_id)
          × (v.conversation_id ≡ n.conversation_id)
          × Found s' v c.owner_key n.target.name n.request_id)
unfolding create_session
create_session_ok p console s s' principal body answer now a t v request h =
    subst (MadeFor p console principal body) h
      (read_by-MadeFor p console s principal body answer now a t (read_creation p body) refl)
