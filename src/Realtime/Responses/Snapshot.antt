-- ===== src/Realtime/Responses/Snapshot.antt =====
-- `parse_snapshot` of backend/voice_console/realtime/responses.py: a conversation as a whole.
use hermes_voice_console.Prelude.{
  Bool, false, Option, none, some, List, [], ◌∷◌, Text, text_Eq, ◌==◌, codes, Result, ok, err,
  ◌>>=◌, ◌>>◌, guard, nat_eq, if◌then◌else◌,
}
use hermes_voice_console.Realtime.{Exn, invalid, mismatch}
use hermes_voice_console.Realtime.Json.{
  Json, integer, decimal, array, object, Items, nil, cons, Fields, get, has_key, same_keys,
  take_items,
}
use hermes_voice_console.Realtime.Sanitize.{safe_text, safe_items}
use hermes_voice_console.Realtime.Responses.{id_of, name_of, version_of, SessionView, parse_session}
use hermes_voice_console.Realtime.Responses.Events.{check_id, short_text}
use hermes_voice_console.Realtime.Responses.Jobs.{parse_jobs}

abbrev pub approval_keys : List Text
approval_keys =
    codes "approval_id"
    ∷ codes "state"
    ∷ codes "tool_call_id"
    ∷ codes "tool_name"
    ∷ codes "expires_at"
    ∷ []

abbrev pub open_states : List Text
open_states = codes "pending" ∷ codes "resolving" ∷ []

pub record ApprovalView : Type 0 where
  pub approval_id : Text
  pub state : Text
  pub tool_call_id : Text
  pub tool_name : Text
  pub expires_at : Json

-- `isinstance(v, (int, float)) and not isinstance(v, bool) and v > 0`; `positive` tells it of a float
-- that is no natural number.
unfoldable pub expiry_of : (Text → Bool) → Json → Result Exn Json
expiry_of positive (integer n) =
    if nat_eq n 0 then err (invalid (codes "pending approval expiry")) else ok (integer n)
expiry_of positive (decimal (some n) l) =
    if nat_eq n 0 then err (invalid (codes "pending approval expiry")) else ok (decimal (some n) l)
expiry_of positive (decimal none l) =
    if positive l then ok (decimal none l) else err (invalid (codes "pending approval expiry"))
expiry_of positive _ = err (invalid (codes "pending approval expiry"))

-- `_parse_pending_approval`
unfoldable pub parse_pending_approval :
    (Text → Text) → (Text → Bool) → Json → Result Exn ApprovalView
parse_pending_approval lower positive (object d) = do
  guard (same_keys d approval_keys) (invalid (codes "pending approval shape"))
  approval_id ← id_of d (codes "approval_id")
  tool_call_id ← id_of d (codes "tool_call_id")
  state ← name_of open_states (codes "pending approval state") (get d (codes "state"))
  tool_name ← short_text (codes "pending approval tool name") (get d (codes "tool_name"))
  expires_at ← expiry_of positive (get d (codes "expires_at"))
  ok (record {
    approval_id = approval_id;
    state = state;
    tool_call_id = tool_call_id;
    tool_name = safe_text lower tool_name;
    expires_at = expires_at;
  })
parse_pending_approval lower positive _ = err (invalid (codes "pending approval shape"))

unfoldable pub pending_approvals :
    (Text → Text) → (Text → Bool) → Items → Result Exn (List ApprovalView)
pending_approvals lower positive nil = ok []
pending_approvals lower positive (cons v vs) = do
  approval ← parse_pending_approval lower positive v
  approvals ← pending_approvals lower positive vs
  ok (approval ∷ approvals)

-- `document.get(key, [])`, which has to be a list
abbrev pub items_of : Text → Json → Result Exn Items
items_of subject (array vs) = ok vs
items_of subject _ = err (invalid subject)

unfoldable pub listed : Fields → Text → Text → Result Exn Items
listed d key subject = if has_key d key then items_of subject (get d key) else ok nil

abbrev pub session_in : (Json → Text) → Text → Json → Result Exn (Option SessionView)
session_in show conversation_id (object d) = do
  view ← parse_session show d (some conversation_id) none false
  ok (some view)
session_in show conversation_id _ = ok none

pub record Snapshot : Type 0 where
  pub contract_version : Text
  pub conversation_id : Text
  pub session : Option SessionView
  pub pending_approvals : List ApprovalView
  pub transcript : Items
  pub work_summary : Items
  pub worker_jobs : List Fields
  pub last_event_id : Json

unfoldable pub parse_snapshot :
    (Text → Text) → (Json → Text) → (Text → Bool) → Fields → Text → Result Exn Snapshot
parse_snapshot lower show positive d conversation_id = do
  cid ← id_of d (codes "conversation_id")
  guard (cid == conversation_id) (mismatch "conversation")
  session ← session_in show conversation_id (get d (codes "session"))
  raw_approvals ← listed d (codes "pending_approvals") (codes "pending_approvals")
  approvals ← pending_approvals lower positive (take_items 500 raw_approvals)
  transcript ← listed d (codes "transcript") (codes "transcript")
  work_summary ← listed d (codes "work_summary") (codes "work_summary")
  raw_jobs ← listed d (codes "worker_jobs") (codes "worker jobs")
  jobs ← parse_jobs lower show conversation_id (take_items 200 raw_jobs)
  check_id show (codes "last_event_id") (get d (codes "last_event_id"))
  ok (record {
    contract_version = version_of show (get d (codes "contract_version"));
    conversation_id = conversation_id;
    session = session;
    pending_approvals = approvals;
    transcript = safe_items lower 0 (take_items 500 transcript);
    work_summary = safe_items lower 0 (take_items 500 work_summary);
    worker_jobs = jobs;
    last_event_id = get d (codes "last_event_id");
  })
