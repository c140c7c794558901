-- ===== src/Realtime/Store.antt =====
-- backend/voice_console/realtime/store.py: who owns a Realtime session, and which requests were made.
-- The two tables are lists of rows in the order of insertion; of several rows that fit a query, the
-- first counts. A method takes the reading of the clock. `response_json` holds the reply that was
-- written. A failing database is not modelled.
pub mod Sessions
pub mod Claims
pub mod Changes
pub mod Identity
pub mod Records
pub mod Unique
pub mod Ledger
pub mod Views
pub mod Refines
use hermes_voice_console.Prelude.{
  ℕ, ◌-◌, ◌*◌, Bool, true, false, not, ◌&&◌, ◌||◌, Option, none, some, List, [], ◌∷◌, ◌++◌, Text,
  text_Eq, ◌==◌, codes, ltb, Result, ok, err, if◌then◌else◌, first, any, select, update_where,
}
use hermes_voice_console.Realtime.{
  Exn, proxy_error, RequestState, pending, in_progress, outcome_unknown, complete,
}
use hermes_voice_console.Realtime.Responses.{SessionView}
use hermes_voice_console.Realtime.Responses.Results.{Reply}

-- A row of `realtime_sessions`.
pub record SessionRow : Type 0 where
  pub realtime_session_id : Text
  pub conversation_id : Text
  pub target_name : Text
  pub owner_key : Text
  pub create_request_id : Text
  pub session_generation : ℕ
  pub state : Text
  pub last_event_id : Option Text
  pub created_at : ℕ
  pub updated_at : ℕ

-- A row of `realtime_requests`.
pub record RequestRow : Type 0 where
  pub owner_key : Text
  pub target_name : Text
  pub scope_id : Text
  pub request_id : Text
  pub operation : Text
  pub fingerprint : Text
  pub state : RequestState
  pub response : Option Reply
  pub created_at : ℕ
  pub updated_at : ℕ

pub record MappingStore : Type 0 where
  pub sessions : List SessionRow
  pub requests : List RequestRow

-- The clean-up of `__init__`: what was not touched for 30 days.
unfoldable pub open_store : MappingStore → ℕ → MappingStore
open_store s now = record {
  sessions =
      select (λ r. not (r.state == codes "closed" && ltb r.updated_at (now - 30 * 86400)))
        s.sessions;
  requests = select (λ r. not (ltb r.updated_at (now - 30 * 86400))) s.requests;
}

-- The identity of a request: what the four keyword arguments name.
pub record RequestKey : Type 0 where
  pub owner_key : Text
  pub target_name : Text
  pub scope_id : Text
  pub request_id : Text

-- `WHERE owner_key=? AND target_name=? AND request_id=?`
unfoldable pub reuses : Text → Text → Text → RequestRow → Bool
reuses owner_key target_name request_id r =
    r.owner_key == owner_key && r.target_name == target_name && r.request_id == request_id

-- `WHERE owner_key=? AND target_name=? AND scope_id=? AND request_id=?`
unfoldable pub is_request : RequestKey → RequestRow → Bool
is_request k r =
    r.owner_key == k.owner_key
    && r.target_name == k.target_name
    && r.scope_id == k.scope_id
    && r.request_id == k.request_id

-- What `claim_request` returns: `"new"`, or the state of the row.
pub data Claim : Type 0 where
  fresh : Claim
  seen : RequestState → Claim

abbrev pub new_request : RequestKey → Text → Text → ℕ → RequestRow
new_request k operation fingerprint now = record {
  owner_key = k.owner_key;
  target_name = k.target_name;
  scope_id = k.scope_id;
  request_id = k.request_id;
  operation = operation;
  fingerprint = fingerprint;
  state = pending;
  response = none;
  created_at = now;
  updated_at = now;
}

abbrev pub other_resource : Exn
other_resource =
    proxy_error "idempotency_conflict"
      (codes "The request ID was already used for another resource") 409

abbrev pub other_input : Exn
other_input =
    proxy_error "idempotency_conflict" (codes "The request ID was already used for different input")
      409

abbrev pub is_elsewhere : RequestKey → Option RequestRow → Bool
is_elsewhere k none = false
is_elsewhere k (some r) = not (r.scope_id == k.scope_id)

abbrev pub claim_row :
    MappingStore
    → RequestKey
    → Text
    → Text
    → ℕ
    → Option RequestRow
    → MappingStore × Result Exn Claim
claim_row s k operation fingerprint now none =
    (record s { requests = s.requests ++ new_request k operation fingerprint now ∷ [] }, ok fresh)
claim_row s k operation fingerprint now (some r) = (
  s,
  if not (r.operation == operation) || not (r.fingerprint == fingerprint)
      then err other_input
      else ok (seen r.state),
)

-- `claim_request`, in one immediate transaction; `fingerprint` is the hash of the payload
unfoldable pub claim_request :
    MappingStore → RequestKey → Text → Text → ℕ → MappingStore × Result Exn Claim
claim_request s k operation fingerprint now =
    if is_elsewhere k (first (reuses k.owner_key k.target_name k.request_id) s.requests)
    then (s, err other_resource)
    else claim_row s k operation fingerprint now (first (is_request k) s.requests)

-- `set_request_state`
unfoldable pub set_request_state :
    MappingStore → RequestKey → RequestState → Option Reply → ℕ → MappingStore
set_request_state s k state response now = record s {
  requests =
      update_where (is_request k)
        (λ r. record r { state = state; response = response; updated_at = now }) s.requests;
}

-- `complete_request`
unfoldable pub complete_request : MappingStore → RequestKey → Option Reply → ℕ → MappingStore
unfolding set_request_state
complete_request s k response now = set_request_state s k complete response now

abbrev pub response_of : Option RequestRow → Option Reply
response_of none = none
response_of (some r) = r.response

-- `request_response`
unfoldable pub request_response : MappingStore → RequestKey → Option Reply
request_response s k = response_of (first (is_request k) s.requests)
