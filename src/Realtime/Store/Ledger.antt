-- ===== src/Realtime/Store/Ledger.antt =====
-- What the requests of RealtimeMappingStore promise, without rows: each request id of an owner at a
-- target has an entry or none.
use hermes_voice_console.Prelude.{
  ℕ, Bool, not, ◌&&◌, ◌||◌, Option, none, some, List, [], ◌∷◌, Text, text_Eq, ◌==◌, Result, ok, err,
  if◌then◌else◌,
}
use hermes_voice_console.Realtime.{Exn, RequestState, pending}
use hermes_voice_console.Realtime.Responses.Results.{Reply}
use hermes_voice_console.Realtime.Store.{
  MappingStore, RequestKey, Claim, fresh, seen, other_resource, other_input, claim_request,
  set_request_state, request_response,
}

pub record Entry : Type 0 where
  pub scope_id : Text
  pub operation : Text
  pub fingerprint : Text
  pub state : RequestState
  pub response : Option Reply

-- By owner, target and request id.
abbrev pub Ledger : Type 0
Ledger = Text → Text → Text → Option Entry

abbrev pub entry_at : Ledger → RequestKey → Option Entry
entry_at l k = l k.owner_key k.target_name k.request_id

abbrev pub is_at : RequestKey → Text → Text → Text → Bool
is_at k owner_key target_name request_id =
    k.owner_key == owner_key && k.target_name == target_name && k.request_id == request_id

abbrev pub put_entry : Ledger → RequestKey → Option Entry → Ledger
put_entry l k e owner_key target_name request_id =
    if is_at k owner_key target_name request_id then e else l owner_key target_name request_id

-- The calls of the store that a request goes through.
pub data Call : Type 0 where
  claim : RequestKey → Text → Text → ℕ → Call
  settle : RequestKey → RequestState → Option Reply → ℕ → Call
  look : RequestKey → Call

pub data Answer : Type 0 where
  claimed : Result Exn Claim → Answer
  settled : Answer
  looked : Option Reply → Answer

abbrev pub claim_entry : Ledger → RequestKey → Text → Text → Option Entry → Ledger × Answer
claim_entry l k operation fingerprint none = (
  put_entry l k (
      some (record {
        scope_id = k.scope_id;
        operation = operation;
        fingerprint = fingerprint;
        state = pending;
        response = none;
      })),
  claimed (ok fresh),
)
claim_entry l k operation fingerprint (some e) = (
  l,
  claimed (
      if not (e.scope_id == k.scope_id)
      then err other_resource
      else if not (e.operation == operation) || not (e.fingerprint == fingerprint)
      then err other_input
      else ok (seen e.state)),
)

abbrev pub settle_entry : RequestKey → RequestState → Option Reply → Option Entry → Option Entry
settle_entry k state response none = none
settle_entry k state response (some e) =
    some (if e.scope_id == k.scope_id then record e { state = state; response = response } else e)

abbrev pub look_entry : RequestKey → Option Entry → Option Reply
look_entry k none = none
look_entry k (some e) = if e.scope_id == k.scope_id then e.response else none

-- A call on the ledger, which knows nothing of the clock.
unfoldable pub on_ledger : Call → Ledger → Ledger × Answer
on_ledger (claim k operation fingerprint now) l =
    claim_entry l k operation fingerprint (entry_at l k)
on_ledger (settle k state response now) l =
    (put_entry l k (settle_entry k state response (entry_at l k)), settled)
on_ledger (look k) l = (l, looked (look_entry k (entry_at l k)))

-- The same call on the store.
unfoldable pub on_store : Call → MappingStore → MappingStore × Answer
on_store (claim k operation fingerprint now) s =
    let (t, r) = claim_request s k operation fingerprint now in (t, claimed r)
on_store (settle k state response now) s = (set_request_state s k state response now, settled)
on_store (look k) s = (s, looked (request_response s k))

unfoldable pub run_ledger : List Call → Ledger → List Answer
run_ledger [] l = []
run_ledger (c ∷ cs) l = let (m, a) = on_ledger c l in a ∷ run_ledger cs m

unfoldable pub run_store : List Call → MappingStore → List Answer
run_store [] s = []
run_store (c ∷ cs) s = let (t, a) = on_store c s in a ∷ run_store cs t
