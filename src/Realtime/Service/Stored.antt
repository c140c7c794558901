-- ===== src/Realtime/Service/Stored.antt =====
-- What `finish` stores for a request, and that a call finds it.
use hermes_voice_console.Prelude.{
  ℕ, ◌≡◌, refl, ap, subst, ◌∙◌, Bool, true, false, Option, none, some, [], ◌∷◌, ◌++◌, Text, text_Eq,
  text_eq_iff, text_eq_refl, arith, Result, ok, err, first-none, first-append_fresh,
  first-update_some, first_holds,
}
use hermes_voice_console.Realtime.{Exn, RequestState, complete}
use hermes_voice_console.Realtime.Json.{Fields}
use hermes_voice_console.Realtime.Responses.{Pending}
use hermes_voice_console.Realtime.Service.Once.{touch-requests}
use hermes_voice_console.Realtime.Responses.Results.{Reply, undecided}
use hermes_voice_console.Realtime.Store.{
  RequestRow, MappingStore, RequestKey, reuses, is_request, Claim, seen, new_request,
  set_request_state, complete_request, request_response,
}
use hermes_voice_console.Realtime.Store.Claims.{
  row_of, answer, Agrees, claim_request_row, same_scope, answer_same, is_request_split,
}
use hermes_voice_console.Realtime.Service.{
  Proxy, Prepared, Next, cached, submits, looks_up, begin, operation_name,
}
use hermes_voice_console.Realtime.Service.Finish.{
  finish, Answers, Stamps, touch, conclude, result_of, settled, completed,
}

-- The store has a row for a request, of that operation and that input.
abbrev pub Claimed : MappingStore → RequestKey → Text → Text → RequestRow → Type 0
Claimed s k operation fingerprint r =
    (row_of s k.owner_key k.target_name k.request_id ≡ some r) × Agrees k operation fingerprint r

pub Agrees-is_request :
    (s : MappingStore) (k : RequestKey) (operation fingerprint : Text) (r : RequestRow)
    → Claimed s k operation fingerprint r
    → is_request k r ≡ true
unfolding row_of
Agrees-is_request s k operation fingerprint r (h, (scope, _, _)) =
    is_request_split k r
      (first_holds (reuses k.owner_key k.target_name k.request_id) s.requests r h)
    ∙ (text_eq_iff r.scope_id k.scope_id).1 scope

-- A state that is set is that of the row.
pub set_request_state-Claimed :
    (s : MappingStore) (k : RequestKey) (operation fingerprint : Text) (r : RequestRow)
    (x : RequestState) (reply : Option Reply) (now : ℕ)
    → Claimed s k operation fingerprint r
    → Claimed
        (set_request_state s k x reply now)
        k
        operation
        fingerprint
        (record r { state = x; response = reply; updated_at = now })
unfolding row_of set_request_state reuses
set_request_state-Claimed s k operation fingerprint r x reply now (h, agrees) = (
  first-update_some (reuses k.owner_key k.target_name k.request_id) (is_request k) _ s.requests r
        (λ y. refl) h
      ∙ rw (Agrees-is_request s k operation fingerprint r (h, agrees)) refl,
  agrees,
)

-- A claim that is not refused has a row.
pub new_request-Claimed :
    (s : MappingStore) (k : RequestKey) (operation fingerprint : Text) (now : ℕ)
    → row_of s k.owner_key k.target_name k.request_id ≡ none
    → Claimed
        (record s { requests = s.requests ++ new_request k operation fingerprint now ∷ [] })
        k
        operation
        fingerprint
        (new_request k operation fingerprint now)
unfolding row_of reuses
new_request-Claimed s k operation fingerprint now h = (
  first-append_fresh (reuses k.owner_key k.target_name k.request_id) s.requests _
      (first-none _ s.requests h)
      (rw (text_eq_refl k.owner_key, text_eq_refl k.target_name, text_eq_refl k.request_id) refl),
  (refl, refl, refl),
)

-- The reply that is stored for a request.
abbrev pub Stored : MappingStore → RequestKey → Text → Text → Reply → Type 0
Stored s k operation fingerprint reply =
    (r : RequestRow) × Claimed s k operation fingerprint r
    × (r.state ≡ complete)
    × (r.response ≡ some reply)

pub request_response-Claimed :
    (s : MappingStore) (k : RequestKey) (operation fingerprint : Text) (r : RequestRow)
    → Claimed s k operation fingerprint r
    → request_response s k ≡ r.response
unfolding request_response row_of
request_response-Claimed s k operation fingerprint r (h, (scope, _, _)) =
    rw (same_scope k s.requests r h ((text_eq_iff r.scope_id k.scope_id).1 scope)) refl

-- Where a reply is stored, a call answers with it.
pub begin-Stored :
    (p : Proxy) (s : MappingStore) (q : Prepared) (now : ℕ) (reply : Reply)
    → Stored s q.key (operation_name q.mutation) (p.fingerprint q.payload) reply
    → begin p s (ok q) now ≡ (s, ok (q, cached reply))
unfolding begin
begin-Stored p s q now reply (r, claimed, is_complete, stored) =
    rw
      (
        claim_request_row s q.key (operation_name q.mutation) (p.fingerprint q.payload) now r
            claimed.0,
        answer_same q.key (operation_name q.mutation) (p.fingerprint q.payload) r claimed.1,
        is_complete,
        request_response-Claimed s q.key _ _ r claimed,
        stored,
      )
      refl

-- A reply that settles its request.
abbrev pub is_decided : Reply → Bool
is_decided (undecided w) = false
is_decided _ = true

pub touch-Claimed :
    (s : MappingStore) (q : Prepared) (reply : Reply) (t : Stamps) (k : RequestKey)
    (operation fingerprint : Text) (r : RequestRow)
    → Claimed s k operation fingerprint r
    → Claimed (touch s q reply t) k operation fingerprint r
unfolding row_of
touch-Claimed s q reply t k operation fingerprint r (h, agrees) =
    (rw (touch-requests s q reply t) h, agrees)

pub completed-Stored :
    (s s' : MappingStore) (q : Prepared) (t : Stamps) (x : Result Exn Reply)
    (operation fingerprint : Text) (r : RequestRow) (reply : Reply)
    → Claimed s q.key operation fingerprint r
    → completed s q t x ≡ (s', ok reply)
    → Stored s' q.key operation fingerprint reply
unfolding complete_request
completed-Stored s s' q t (err e) operation fingerprint r reply c h = cc
completed-Stored s s' q t (ok x) operation fingerprint r reply c h =
    subst (λ (m : MappingStore). Stored m q.key operation fingerprint reply)
      (ap (λ (m : MappingStore × Result Exn Reply). m.0) h)
      (
        _,
        set_request_state-Claimed (touch s q x t) q.key operation fingerprint r complete (some x)
            t.settled (touch-Claimed s q x t q.key operation fingerprint r c),
        refl,
        cc,
      )

pub settled-Stored :
    (p : Proxy) (s s' : MappingStore) (q : Prepared) (d : Fields) (t : Stamps)
    (w : Result Exn (Option Pending)) (operation fingerprint : Text) (r : RequestRow)
    (reply : Reply)
    → Claimed s q.key operation fingerprint r
    → settled p s q d t w ≡ (s', ok reply)
    → is_decided reply ≡ true
    → Stored s' q.key operation fingerprint reply
settled-Stored p s s' q d t (err e) operation fingerprint r reply c h b = cc
settled-Stored p s s' q d t (ok (some w)) operation fingerprint r reply c h b = ground arith
settled-Stored p s s' q d t (ok none) operation fingerprint r reply c h b =
    completed-Stored s s' q t (result_of p q d) operation fingerprint r reply c h

pub conclude-Stored :
    (p : Proxy) (s s' : MappingStore) (q : Prepared) (t : Stamps) (d : Result Exn Fields)
    (operation fingerprint : Text) (r : RequestRow) (reply : Reply)
    → Claimed s q.key operation fingerprint r
    → conclude p s q t d ≡ (s', ok reply)
    → is_decided reply ≡ true
    → Stored s' q.key operation fingerprint reply
unfolding conclude
conclude-Stored p s s' q t (err e) operation fingerprint r reply c h b = cc
conclude-Stored p s s' q t (ok d) operation fingerprint r reply c h b =
    settled-Stored p s s' q d t _ operation fingerprint r reply c h b

-- A reply that a handler goes on with is that of the row.
abbrev pub Caches : Next → RequestRow → Type 0
Caches (cached x) r = (r.state ≡ complete) × (r.response ≡ some x)
Caches submits r = Unit {0}
Caches looks_up r = Unit {0}

-- From the decision on: what is answered is stored.
pub finish-Stored :
    (p : Proxy) (s s' : MappingStore) (q : Prepared) (n : Next) (a : Answers) (t : Stamps)
    (operation fingerprint : Text) (r : RequestRow) (reply : Reply)
    → Claimed s q.key operation fingerprint r
    → Caches n r
    → finish p s q n a t ≡ (s', ok reply)
    → is_decided reply ≡ true
    → Stored s' q.key operation fingerprint reply
unfolding finish
finish-Stored p s s' q (cached x) a t operation fingerprint r reply c (is_complete, stored) h b =
    subst (λ (m : MappingStore). Stored m q.key operation fingerprint reply)
      (ap (λ (m : MappingStore × Result Exn Reply). m.0) h) (r, c, is_complete, cc)
finish-Stored p s s' q submits a t operation fingerprint r reply c k h b =
    conclude-Stored p s s' q t _ operation fingerprint r reply c h b
finish-Stored p s s' q looks_up a t operation fingerprint r reply c k h b =
    conclude-Stored p s s' q t _ operation fingerprint r reply c h b

-- What `begin` returns for a call that was prepared.
abbrev pub Begun : Proxy → Prepared → MappingStore × Result Exn (Prepared × Next) → Type 0
Begun p q (s, err e) = Unit {0}
Begun p q (s, ok (q', n)) =
    (q' ≡ q)
    × (r : RequestRow) × Claimed s q'.key (operation_name q.mutation) (p.fingerprint q.payload) r
    × Caches n r

pub answer-Agrees :
    (k : RequestKey) (operation fingerprint : Text) (r : RequestRow) (c : Claim)
    → answer k operation fingerprint r ≡ ok c
    → Agrees k operation fingerprint r × (c ≡ seen r.state)
answer-Agrees k operation fingerprint r c h = ground (
  arith,
  text_eq_iff r.scope_id k.scope_id,
  text_eq_iff r.operation operation,
  text_eq_iff r.fingerprint fingerprint,
)
