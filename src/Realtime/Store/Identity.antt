-- ===== src/Realtime/Store/Identity.antt =====
-- Who a Realtime session belongs to: the identity that `record_session` writes and nothing changes.
use hermes_voice_console.Prelude.{
  ℕ, ◌-◌, ◌*◌, ◌<◌, ◌≡◌, ◌⊎◌, refl, ◌&&◌, codes, ltb, select, text_eq_iff, [], ◌∷◌, inl, inr, Bool,
  true, false, Option, none, some, List, Text, text_Eq, ◌==◌, arith, if◌then◌else◌, first,
  update_where, Bool-cases, first-update_some, first-append_some,
}
use hermes_voice_console.Realtime.Responses.{SessionView}
use hermes_voice_console.Realtime.Store.{
  SessionRow, MappingStore, open_store, RequestKey, claim_request, set_request_state,
  complete_request,
}
use hermes_voice_console.Realtime.Store.Sessions.{
  record_session, update_session, has_id, made_by, differs, names_other, upsert,
}
use hermes_voice_console.Realtime.Store.Changes.{Change, claimed, put, completed, recorded, updated}

-- The row of a session id.
unfoldable pub session_of : MappingStore → Text → Option SessionRow
session_of s session_id = first (has_id session_id) s.sessions

-- Two rows are of the same session of the same owner, made by the same request.
abbrev pub SameIdentity : SessionRow → SessionRow → Type 0
SameIdentity r q =
    (q.realtime_session_id ≡ r.realtime_session_id)
    × (q.conversation_id ≡ r.conversation_id)
    × (q.target_name ≡ r.target_name)
    × (q.owner_key ≡ r.owner_key)
    × (q.create_request_id ≡ r.create_request_id)

same : (r : SessionRow) → SameIdentity r r
same r = (refl, refl, refl, refl, refl)

if-SameIdentity :
    (b : Bool) (r q : SessionRow) → SameIdentity r q → SameIdentity r (if b then q else r)
if-SameIdentity true r q h = h
if-SameIdentity false r q h = same r

update-SameIdentity :
    (p : SessionRow → Bool) (f : SessionRow → SessionRow) (sid : Text) (rs : List SessionRow)
    (r : SessionRow)
    → ((x : SessionRow) → SameIdentity x (f x))
    → first (has_id sid) rs ≡ some r
    → (q : SessionRow) × (first (has_id sid) (update_where p f rs) ≡ some q) × SameIdentity r q
unfolding has_id
update-SameIdentity p f sid rs r k h = (
  _,
  first-update_some (λ (x : SessionRow). x.realtime_session_id == sid) p f rs r
      (λ x. rw ((k x).0) refl) h,
  if-SameIdentity (p r) r (f r) (k r),
)

upsert-SameIdentity :
    (s : MappingStore) (v : SessionView) (o t i : Text) (now : ℕ) (sid : Text) (r : SessionRow)
    (existing : Option SessionRow)
    → session_of s sid ≡ some r
    → (q : SessionRow) × (session_of (upsert s v o t i now existing) sid ≡ some q)
      × SameIdentity r q
unfolding session_of
upsert-SameIdentity s v o t i now sid r none h =
    (r, first-append_some (has_id sid) s.sessions _ r h, same r)
upsert-SameIdentity s v o t i now sid r (some old) h =
    update-SameIdentity (has_id v.realtime_session_id) _ sid s.sessions r
      (λ x. (refl, refl, refl, refl, refl)) h

pub claim_request-sessions :
    (s : MappingStore) (k : RequestKey) (operation fingerprint : Text) (now : ℕ)
    → (claim_request s k operation fingerprint now).0.sessions ≡ s.sessions
unfolding claim_request
claim_request-sessions s k operation fingerprint now = ground arith

record_session-SameIdentity :
    (s : MappingStore) (v : SessionView) (o t i : Text) (now : ℕ) (sid : Text) (r : SessionRow)
    → session_of s sid ≡ some r
    → (q : SessionRow) × (session_of (record_session s v o t i now).0 sid ≡ some q)
      × SameIdentity r q
unfolding record_session
record_session-SameIdentity s v o t i now sid r h =
    elim (Bool-cases
      (differs v.conversation_id t o i (first (has_id v.realtime_session_id) s.sessions))) [
        | inl e ↦ rw e (r, h, same r)
        | inr e ↦
            elim (Bool-cases (
              names_other v.realtime_session_id
                (first (made_by o t v.conversation_id i) s.sessions))) [
                  | inl g ↦ rw (e, g) (r, h, same r)
                  | inr g ↦ rw (e, g) (upsert-SameIdentity s v o t i now sid r _ h)
                ]
      ]

-- A method that is called on an open store.
method-SameIdentity :
    {s t : MappingStore} (session_id : Text) (r : SessionRow)
    → Change s t
    → session_of s session_id ≡ some r
    → (q : SessionRow) × (session_of t session_id ≡ some q) × SameIdentity r q
method-SameIdentity {s} sid r (claimed k operation fingerprint now) h =
    (r, unfold session_of in rw (claim_request-sessions s k operation fingerprint now) h, same r)
method-SameIdentity {s} sid r (put k state response now) h =
    unfold session_of in unfold set_request_state in (r, h, same r)
method-SameIdentity {s} sid r (completed k response now) h =
    unfold session_of in unfold complete_request in unfold set_request_state in (r, h, same r)
method-SameIdentity {s} sid r (recorded v o t i now) h =
    record_session-SameIdentity s v o t i now sid r h
method-SameIdentity {s} sid r (updated x state e now) h =
    unfold session_of in
    unfold update_session in
    update-SameIdentity (has_id x) _ sid s.sessions r (λ x. (refl, refl, refl, refl, refl)) h

first-select :
    (p q : SessionRow → Bool) (xs : List SessionRow) (x : SessionRow)
    → first p xs ≡ some x
    → q x ≡ true
    → first p (select q xs) ≡ some x
unfolding first select
first-select p q [] x h k = h
first-select p q (y ∷ ys) x h k = ground (arith, first-select p q ys x)

-- What changes a store: a method, or the clean-up where the database is opened anew.
pub data Transition (s : MappingStore) : MappingStore → Type 0 where
  called : {t : MappingStore} → Change s t → Transition s t
  opened : (now : ℕ) → Transition s (open_store s now)

-- The session is there still, of the same identity.
abbrev pub Stays : MappingStore → Text → SessionRow → Type 0
Stays t session_id r = (q : SessionRow) × (session_of t session_id ≡ some q) × SameIdentity r q

-- The clean-up may take the session away: it is closed and 30 days old.
abbrev pub IsCleared : MappingStore → MappingStore → SessionRow → Type 0
IsCleared s t r =
    (now : ℕ) × (t ≡ open_store s now)
    × (r.state ≡ codes "closed")
    × (r.updated_at < now - 30 * 86400)

-- No method changes the identity of a session that is recorded, and none removes it; the clean-up, where
-- the database is opened anew, keeps it too, unless it is closed and was not updated for 30 days.
pub change-SameIdentity :
    {s t : MappingStore} (session_id : Text) (r : SessionRow)
    → Transition s t
    → session_of s session_id ≡ some r
    → Stays t session_id r ⊎ IsCleared s t r
unfolding session_of open_store
change-SameIdentity sid r (called c) h = inl (method-SameIdentity sid r c h)
change-SameIdentity {s} sid r (opened now) h =
    elim (Bool-cases (r.state == codes "closed" && ltb r.updated_at (now - 30 * 86400))) [
      | inl e ↦ inr (now, refl, ground (arith, text_eq_iff r.state (codes "closed")), ground arith)
      | inr e ↦ inl (r, first-select (has_id sid) _ s.sessions r h (ground arith), same r)
    ]
