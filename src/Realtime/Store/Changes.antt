-- ===== src/Realtime/Store/Changes.antt =====
-- The changes that the methods of RealtimeMappingStore make, in any order, and what they all keep.
use hermes_voice_console.Prelude.{
  ℕ, ◌≤◌, ◌≡◌, refl, Option, Text, text_Eq, arith, Option-cases, inl, inr, count-update,
  count-select-le,
}
use hermes_voice_console.Realtime.{RequestState, complete}
use hermes_voice_console.Realtime.Responses.{SessionView}
use hermes_voice_console.Realtime.Responses.Results.{Reply}
use hermes_voice_console.Realtime.Store.{
  MappingStore, open_store, RequestKey, reuses, is_request, claim_request, set_request_state,
  complete_request,
}
use hermes_voice_console.Realtime.Store.Sessions.{record_session, update_session}
use hermes_voice_console.Realtime.Store.Claims.{
  row_of, rows_of, claim_request_unused, claim_request_row, count_claim,
}

-- One call of a method, whatever it returns.
pub data Change (s : MappingStore) : MappingStore → Type 0 where
  claimed :
      (k : RequestKey) (operation fingerprint : Text) (now : ℕ)
      → Change s (claim_request s k operation fingerprint now).0
  put :
      (k : RequestKey) (state : RequestState) (response : Option Reply) (now : ℕ)
      → Change s (set_request_state s k state response now)
  completed :
      (k : RequestKey) (response : Option Reply) (now : ℕ)
      → Change s (complete_request s k response now)
  recorded :
      (v : SessionView) (owner_key target_name request_id : Text) (now : ℕ)
      → Change s (record_session s v owner_key target_name request_id now).0
  updated :
      (session_id state : Text) (last_event_id : Option Text) (now : ℕ)
      → Change s (update_session s session_id state last_event_id now)

-- Any number of calls, between which the database may be closed and opened anew.
pub data Changes (s : MappingStore) : MappingStore → Type 0 where
  unchanged : Changes s s
  called : {t u : MappingStore} → Changes s t → Change t u → Changes s u
  opened : {t : MappingStore} → Changes s t → (now : ℕ) → Changes s (open_store t now)

-- A request id of an owner at a target has one row at most.
unfoldable pub HasUniqueRequests : MappingStore → Type 0
HasUniqueRequests s =
    (owner_key target_name request_id : Text) → rows_of owner_key target_name request_id s ≤ 1

claim_request-HasUniqueRequests :
    (s : MappingStore) (k : RequestKey) (operation fingerprint : Text) (now : ℕ)
    → HasUniqueRequests s
    → HasUniqueRequests (claim_request s k operation fingerprint now).0
unfolding HasUniqueRequests
claim_request-HasUniqueRequests s k operation fingerprint now u o t i =
    elim (Option-cases (row_of s k.owner_key k.target_name k.request_id)) [
      | inl e ↦
          rw (claim_request_unused s k operation fingerprint now e)
            (unfold rows_of in count_claim o t i s k operation fingerprint now e (u o t i))
      | inr (r, e) ↦ rw (claim_request_row s k operation fingerprint now r e) (u o t i)
    ]

set_request_state-rows_of :
    (s : MappingStore) (k : RequestKey) (state : RequestState) (response : Option Reply) (now : ℕ)
    (o t i : Text)
    → rows_of o t i (set_request_state s k state response now) ≡ rows_of o t i s
unfolding rows_of set_request_state reuses
set_request_state-rows_of s k state response now o t i =
    count-update (reuses o t i) (is_request k) _ s.requests (λ r e. refl)

complete_request-rows_of :
    (s : MappingStore) (k : RequestKey) (response : Option Reply) (now : ℕ) (o t i : Text)
    → rows_of o t i (complete_request s k response now) ≡ rows_of o t i s
unfolding complete_request
complete_request-rows_of s k response now o t i =
    set_request_state-rows_of s k complete response now o t i

pub record_session-requests :
    (s : MappingStore) (v : SessionView) (owner_key target_name request_id : Text) (now : ℕ)
    → (record_session s v owner_key target_name request_id now).0.requests ≡ s.requests
unfolding record_session
record_session-requests s v owner_key target_name request_id now = ground arith

open_store-rows_of-le :
    (s : MappingStore) (now : ℕ) (o t i : Text) → rows_of o t i (open_store s now) ≤ rows_of o t i s
unfolding rows_of open_store
open_store-rows_of-le s now o t i = count-select-le (reuses o t i) _ s.requests

pub change-HasUniqueRequests :
    {s t : MappingStore} → Change s t → HasUniqueRequests s → HasUniqueRequests t
unfolding HasUniqueRequests
change-HasUniqueRequests {s} (claimed k operation fingerprint now) u =
    claim_request-HasUniqueRequests s k operation fingerprint now u
change-HasUniqueRequests {s} (put k state response now) u =
    λ o t i. rw (set_request_state-rows_of s k state response now o t i) (u o t i)
change-HasUniqueRequests {s} (completed k response now) u =
    λ o t i. rw (complete_request-rows_of s k response now o t i) (u o t i)
change-HasUniqueRequests {s} (recorded v owner target request now) u =
    λ o t i. unfold rows_of in rw (record_session-requests s v owner target request now) (u o t i)
change-HasUniqueRequests {s} (updated sid state e now) u =
    λ o t i. unfold rows_of in unfold update_session in u o t i

open_store-HasUniqueRequests :
    (s : MappingStore) (now : ℕ) → HasUniqueRequests s → HasUniqueRequests (open_store s now)
unfolding HasUniqueRequests
open_store-HasUniqueRequests s now u o t i =
    omega (arith, u o t i, open_store-rows_of-le s now o t i)

-- Whatever methods are called, in any order, a store where every request id of an owner at a target has
-- one row at most stays such a store.
pub changes-HasUniqueRequests :
    {s t : MappingStore} → Changes s t → HasUniqueRequests s → HasUniqueRequests t
changes-HasUniqueRequests unchanged u = u
changes-HasUniqueRequests (called cs c) u =
    change-HasUniqueRequests c (changes-HasUniqueRequests cs u)
changes-HasUniqueRequests (opened {t} cs now) u =
    open_store-HasUniqueRequests t now (changes-HasUniqueRequests cs u)
