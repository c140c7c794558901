-- ===== src/Realtime/Store/Records.antt =====
-- `record_session` and `require_session`: what is recorded is found.
use hermes_voice_console.Prelude.{
  ℕ, ◌≡◌, refl, ap, inl, inr, true, false, Option, none, some, Text, text_Eq, text_eq_iff,
  text_eq_refl, arith, Result, ok, subst, first, first-update, Bool-cases, first-none, first_holds,
  first-append_fresh, first_stronger,
}
use hermes_voice_console.Realtime.{Exn}
use hermes_voice_console.Realtime.Responses.{SessionView}
use hermes_voice_console.Realtime.Store.{SessionRow, MappingStore}
use hermes_voice_console.Realtime.Store.Sessions.{
  record_session, require_session, has_id, made_by, is_owned, differs, names_other, upsert,
  new_session_row,
}
use hermes_voice_console.Realtime.Store.Identity.{session_of}

-- What a row has of a session view.
abbrev pub Shows : SessionView → Text → Text → Text → SessionRow → Type 0
Shows v owner_key target_name request_id r =
    (r.realtime_session_id ≡ v.realtime_session_id)
    × (r.conversation_id ≡ v.conversation_id)
    × (r.target_name ≡ target_name)
    × (r.owner_key ≡ owner_key)
    × (r.create_request_id ≡ request_id)
    × (r.session_generation ≡ v.session_generation)
    × (r.state ≡ v.state)

differs_none :
    (c t o i : Text) (r : SessionRow)
    → differs c t o i (some r) ≡ false
    → (r.conversation_id ≡ c) × (r.target_name ≡ t) × (r.owner_key ≡ o) × (r.create_request_id ≡ i)
differs_none c t o i r h = ground (
  arith,
  text_eq_iff r.conversation_id c,
  text_eq_iff r.target_name t,
  text_eq_iff r.owner_key o,
  text_eq_iff r.create_request_id i,
)

upsert-Shows :
    (s : MappingStore) (v : SessionView) (o t i : Text) (now : ℕ) (existing : Option SessionRow)
    → first (has_id v.realtime_session_id) s.sessions ≡ existing
    → differs v.conversation_id t o i existing ≡ false
    → (q : SessionRow) × (session_of (upsert s v o t i now existing) v.realtime_session_id ≡ some q)
      × Shows v o t i q
unfolding session_of has_id
upsert-Shows s v o t i now none h d = (
  new_session_row v o t i now,
  first-append_fresh (has_id v.realtime_session_id) s.sessions _
      (first-none (has_id v.realtime_session_id) s.sessions h) (text_eq_refl v.realtime_session_id),
  (refl, refl, refl, refl, refl, refl, refl),
)
upsert-Shows s v o t i now (some r) h d =
    let id =
      (text_eq_iff r.realtime_session_id v.realtime_session_id).0
        (first_holds (has_id v.realtime_session_id) s.sessions r h) in
    let (c, g, a, b) = differs_none v.conversation_id t o i r d in
    (
      _,
      first-update (has_id v.realtime_session_id) _ s.sessions r (λ y e. e) h,
      (id, c, g, a, b, refl, refl),
    )

is_owned_split :
    (sid o t : Text) (r : SessionRow)
    → r.realtime_session_id ≡ sid
    → r.target_name ≡ t
    → r.owner_key ≡ o
    → is_owned sid o t r ≡ true
unfolding is_owned
is_owned_split sid o t r a b c = ground (
  arith,
  text_eq_iff r.realtime_session_id sid,
  text_eq_iff r.target_name t,
  text_eq_iff r.owner_key o,
)

is_owned-has_id :
    (sid o t : Text) (r : SessionRow) → is_owned sid o t r ≡ true → has_id sid r ≡ true
unfolding is_owned has_id
is_owned-has_id sid o t r h = ground arith

owned_found :
    (s : MappingStore) (sid o t : Text) (r : SessionRow)
    → session_of s sid ≡ some r
    → r.realtime_session_id ≡ sid
    → r.target_name ≡ t
    → r.owner_key ≡ o
    → require_session s sid o t ≡ ok r
unfolding session_of require_session
owned_found s sid o t r h a b c =
    rw
      (first_stronger (has_id sid) (is_owned sid o t) s.sessions r
        (λ y e. is_owned-has_id sid o t y e) h (is_owned_split sid o t r a b c))
      refl

record_session_ok :
    (s t : MappingStore) (v : SessionView) (owner target request : Text) (now : ℕ)
    → record_session s v owner target request now ≡ (t, ok tt)
    → (q : SessionRow) × (session_of t v.realtime_session_id ≡ some q)
      × Shows v owner target request q
unfolding record_session
record_session_ok s t v owner target request now h =
    elim (Bool-cases (
      differs v.conversation_id target owner request
        (first (has_id v.realtime_session_id) s.sessions))) [
          | inl e ↦ ground arith
          | inr e ↦
              elim (Bool-cases (
                names_other v.realtime_session_id
                  (first (made_by owner target v.conversation_id request) s.sessions))) [
                    | inl g ↦ ground arith
                    | inr g ↦
                        subst
                          (λ (x : MappingStore).
                            (q : SessionRow) × (session_of x v.realtime_session_id ≡ some q)
                            × Shows v owner target request q)
                          (ap (λ (x : MappingStore × Result Exn (Unit {0})). x.0) (rw (e, g) at h))
                          (upsert-Shows s v owner target request now _ refl e)
                  ]
        ]

-- A session that is recorded for an owner, if the recording does not raise, is found by that owner and
-- target, with the conversation, the request, the generation and the state that were recorded.
pub require-record :
    (s t : MappingStore) (v : SessionView) (owner target request : Text) (now : ℕ)
    → record_session s v owner target request now ≡ (t, ok tt)
    → (r : SessionRow) × (require_session t v.realtime_session_id owner target ≡ ok r)
      × Shows v owner target request r
require-record s t v owner target request now h =
    let (r, found, shows) = record_session_ok s t v owner target request now h in
    (r, owned_found t v.realtime_session_id owner target r found shows.0 shows.2 shows.3, shows)
