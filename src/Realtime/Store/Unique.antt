-- ===== src/Realtime/Store/Unique.antt =====
-- The constraints of `realtime_sessions`, which `record_session` never comes up against.
use hermes_voice_console.Prelude.{
  ℕ, ◌≤◌, ◌≡◌, refl, sym, inl, inr, Bool, true, false, Option, none, some, List, [], ◌∷◌, ◌++◌,
  Text, text_Eq, text_eq_iff, ◌==◌, arith, first, any, update_where, count_where, Bool-cases,
  Option-cases, any_holds, first-none, count-append, count-any, count-update, count-select-le,
}
use hermes_voice_console.Realtime.Responses.{SessionView}
use hermes_voice_console.Realtime.Store.{
  SessionRow, MappingStore, open_store, set_request_state, complete_request,
}
use hermes_voice_console.Realtime.Store.Sessions.{
  record_session, update_session, has_id, made_by, differs, names_other, upsert, new_session_row,
}
use hermes_voice_console.Realtime.Store.Identity.{claim_request-sessions}
use hermes_voice_console.Realtime.Store.Changes.{
  Change, claimed, put, completed, recorded, updated, Changes, unchanged, called, opened,
}

-- PRIMARY KEY(realtime_session_id), UNIQUE(owner_key, target_name, conversation_id, create_request_id)
unfoldable pub HasUniqueSessions : MappingStore → Type 0
HasUniqueSessions s =
    ((session_id : Text) → count_where (has_id session_id) s.sessions ≤ 1)
    × ((o t c i : Text) → count_where (made_by o t c i) s.sessions ≤ 1)

made_by_same :
    (o t c i : Text) (v : SessionView) (owner target request : Text) (now : ℕ)
    → made_by o t c i (new_session_row v owner target request now) ≡ true
    → made_by o t c i ≡ made_by owner target v.conversation_id request
unfolding made_by
made_by_same o t c i v owner target request now h =
    rw
      (
        (text_eq_iff owner o).0 (ground arith),
        (text_eq_iff target t).0 (ground arith),
        (text_eq_iff v.conversation_id c).0 (ground arith),
        (text_eq_iff request i).0 (ground arith),
      )
      refl

names_other-has_id :
    (sid : Text) (r : SessionRow) → names_other sid (some r) ≡ false → has_id sid r ≡ true
unfolding has_id
names_other-has_id sid r h = ground arith

-- If the id of a view has no row, and no other session was made by its request, no session was.
unmade :
    (s : MappingStore) (v : SessionView) (owner target request : Text)
    → any (has_id v.realtime_session_id) s.sessions ≡ false
    → names_other v.realtime_session_id
        (first (made_by owner target v.conversation_id request) s.sessions)
      ≡ false
    → any (made_by owner target v.conversation_id request) s.sessions ≡ false
unmade s v owner target request h g =
    elim (Option-cases (first (made_by owner target v.conversation_id request) s.sessions)) [
      | inl e ↦ first-none (made_by owner target v.conversation_id request) s.sessions e
      | inr (r, e) ↦
          let found =
            any_holds (made_by owner target v.conversation_id request)
              (has_id v.realtime_session_id) s.sessions r e
              (names_other-has_id v.realtime_session_id r (rw e at g)) in
          ground (arith, found)
    ]

-- One row more, where a row that satisfies `p` comes only if there was none.
count_new :
    (p : SessionRow → Bool) (rs : List SessionRow) (x : SessionRow)
    → count_where p rs ≤ 1
    → (p x ≡ true → any p rs ≡ false)
    → count_where p (rs ++ x ∷ []) ≤ 1
unfolding count_where
count_new p rs x h k = ground (arith, count-append p rs (x ∷ []), count-any p rs, k)

same_id :
    (sid other : Text) (rs : List SessionRow)
    → (other == sid) ≡ true
    → any (has_id other) rs ≡ false
    → any (has_id sid) rs ≡ false
same_id sid other rs e h = rw (sym ((text_eq_iff other sid).0 e)) h

upsert_new-HasUniqueSessions :
    (s : MappingStore) (v : SessionView) (owner target request : Text) (now : ℕ)
    → any (has_id v.realtime_session_id) s.sessions ≡ false
    → any (made_by owner target v.conversation_id request) s.sessions ≡ false
    → HasUniqueSessions s
    → HasUniqueSessions (upsert s v owner target request now none)
unfolding HasUniqueSessions has_id
upsert_new-HasUniqueSessions s v owner target request now h g (a, b) = (
  λ sid.
      count_new (has_id sid) s.sessions (new_session_row v owner target request now) (a sid)
        (λ e. same_id sid v.realtime_session_id s.sessions e h),
  λ o t c i.
      count_new (made_by o t c i) s.sessions (new_session_row v owner target request now)
        (b o t c i) (λ e. rw (made_by_same o t c i v owner target request now e) g),
)

update-HasUniqueSessions :
    (s : MappingStore) (p : SessionRow → Bool) (f : SessionRow → SessionRow)
    → ((r : SessionRow) (sid : Text) → has_id sid (f r) ≡ has_id sid r)
    → ((r : SessionRow) (o t c i : Text) → made_by o t c i (f r) ≡ made_by o t c i r)
    → HasUniqueSessions s
    → HasUniqueSessions (record s { sessions = update_where p f s.sessions })
unfolding HasUniqueSessions
update-HasUniqueSessions s p f k l (a, b) = (
  λ sid. rw (count-update (has_id sid) p f s.sessions (λ x _. k x sid)) (a sid),
  λ o t c i. rw (count-update (made_by o t c i) p f s.sessions (λ x _. l x o t c i)) (b o t c i),
)

upsert-HasUniqueSessions :
    (s : MappingStore) (v : SessionView) (owner target request : Text) (now : ℕ)
    (existing : Option SessionRow)
    → first (has_id v.realtime_session_id) s.sessions ≡ existing
    → names_other v.realtime_session_id
        (first (made_by owner target v.conversation_id request) s.sessions)
      ≡ false
    → HasUniqueSessions s
    → HasUniqueSessions (upsert s v owner target request now existing)
upsert-HasUniqueSessions s v owner target request now none h g u =
    let free = first-none (has_id v.realtime_session_id) s.sessions h in
    upsert_new-HasUniqueSessions s v owner target request now free
      (unmade s v owner target request free g) u
upsert-HasUniqueSessions s v owner target request now (some r) h g u =
    unfold has_id in
    unfold made_by in
    update-HasUniqueSessions s (has_id v.realtime_session_id) _ (λ x sid. refl) (λ x o t c i. refl)
      u

record_session-HasUniqueSessions :
    (s : MappingStore) (v : SessionView) (owner target request : Text) (now : ℕ)
    → HasUniqueSessions s
    → HasUniqueSessions (record_session s v owner target request now).0
unfolding record_session
record_session-HasUniqueSessions s v owner target request now u =
    elim (Bool-cases (
      differs v.conversation_id target owner request
        (first (has_id v.realtime_session_id) s.sessions))) [
          | inl e ↦ rw e u
          | inr e ↦
              elim (Bool-cases (
                names_other v.realtime_session_id
                  (first (made_by owner target v.conversation_id request) s.sessions))) [
                    | inl g ↦ rw (e, g) u
                    | inr g ↦
                        rw (e, g) (upsert-HasUniqueSessions s v owner target request now _ refl g u)
                  ]
        ]

change-HasUniqueSessions :
    {s t : MappingStore} → Change s t → HasUniqueSessions s → HasUniqueSessions t
unfolding HasUniqueSessions
change-HasUniqueSessions {s} (claimed k operation fingerprint now) (a, b) =
    rw (claim_request-sessions s k operation fingerprint now) (a, b)
change-HasUniqueSessions {s} (put k state response now) (a, b) = unfold set_request_state in (a, b)
change-HasUniqueSessions {s} (completed k response now) (a, b) =
    unfold complete_request in unfold set_request_state in (a, b)
change-HasUniqueSessions {s} (recorded v owner target request now) u =
    record_session-HasUniqueSessions s v owner target request now u
change-HasUniqueSessions {s} (updated sid state e now) u =
    unfold update_session in
    unfold has_id in
    unfold made_by in update-HasUniqueSessions s (has_id sid) _ (λ x i. refl) (λ x o t c i. refl) u

open_store-HasUniqueSessions :
    (s : MappingStore) (now : ℕ) → HasUniqueSessions s → HasUniqueSessions (open_store s now)
unfolding HasUniqueSessions open_store
open_store-HasUniqueSessions s now (a, b) = (
  λ sid. omega (arith, a sid, count-select-le (has_id sid) _ s.sessions),
  λ o t c i. omega (arith, b o t c i, count-select-le (made_by o t c i) _ s.sessions),
)

-- Whatever methods are called, in any order: no two rows ever have the same session id, and no two the
-- same owner, target, conversation and creation request, if it was so at the start. The constraints
-- of the table, which the model does not check, are never violated.
pub changes-HasUniqueSessions :
    {s t : MappingStore} → Changes s t → HasUniqueSessions s → HasUniqueSessions t
changes-HasUniqueSessions unchanged u = u
changes-HasUniqueSessions (called cs c) u =
    change-HasUniqueSessions c (changes-HasUniqueSessions cs u)
changes-HasUniqueSessions (opened {t} cs now) u =
    open_store-HasUniqueSessions t now (changes-HasUniqueSessions cs u)
