-- ===== src/Realtime/Store/Sessions.antt =====
-- The table `realtime_sessions` of backend/voice_console/realtime/store.py: record_session,
-- require_session and update_session.
use hermes_voice_console.Prelude.{
  ℕ, Bool, false, not, ◌&&◌, Option, none, some, [], ◌∷◌, ◌++◌, Text, text_Eq, ◌==◌, codes, Result,
  ok, err, if◌then◌else◌, first, update_where,
}
use hermes_voice_console.Realtime.{Exn, proxy_error}
use hermes_voice_console.Realtime.Responses.{SessionView}
use hermes_voice_console.Realtime.Store.{SessionRow, MappingStore}

abbrev pub identity_mismatch : Text → Exn
identity_mismatch message = proxy_error "target_identity_mismatch" message 502

-- The identity of a session is not the expected one.
abbrev pub differs : Text → Text → Text → Text → Option SessionRow → Bool
differs conversation_id target_name owner_key request_id none = false
differs conversation_id target_name owner_key request_id (some r) = not (
    r.conversation_id == conversation_id
    && r.target_name == target_name
    && r.owner_key == owner_key
    && r.create_request_id == request_id)

abbrev pub names_other : Text → Option SessionRow → Bool
names_other session_id none = false
names_other session_id (some r) = not (r.realtime_session_id == session_id)

unfoldable pub has_id : Text → SessionRow → Bool
has_id session_id r = r.realtime_session_id == session_id

-- UNIQUE(owner_key, target_name, conversation_id, create_request_id)
unfoldable pub made_by : Text → Text → Text → Text → SessionRow → Bool
made_by owner_key target_name conversation_id request_id r =
    r.owner_key == owner_key
    && r.target_name == target_name
    && r.conversation_id == conversation_id
    && r.create_request_id == request_id

abbrev pub new_session_row : SessionView → Text → Text → Text → ℕ → SessionRow
new_session_row v owner_key target_name request_id now = record {
  realtime_session_id = v.realtime_session_id;
  conversation_id = v.conversation_id;
  target_name = target_name;
  owner_key = owner_key;
  create_request_id = request_id;
  session_generation = v.session_generation;
  state = v.state;
  last_event_id = none;
  created_at = now;
  updated_at = now;
}

-- `INSERT … ON CONFLICT(realtime_session_id) DO UPDATE`
abbrev pub upsert :
    MappingStore → SessionView → Text → Text → Text → ℕ → Option SessionRow → MappingStore
upsert s v owner_key target_name request_id now none = record s {
  sessions = s.sessions ++ new_session_row v owner_key target_name request_id now ∷ [];
}
upsert s v owner_key target_name request_id now (some old) = record s {
  sessions =
      update_where (has_id v.realtime_session_id)
        (λ r. record r {
          state = v.state;
          session_generation = v.session_generation;
          updated_at = now;
        })
        s.sessions;
}

-- `record_session`, in one immediate transaction
unfoldable pub record_session :
    MappingStore → SessionView → Text → Text → Text → ℕ → MappingStore × Result Exn (Unit {0})
record_session s v owner_key target_name request_id now =
    let existing = first (has_id v.realtime_session_id) s.sessions in
    if differs v.conversation_id target_name owner_key request_id existing
    then (
      s,
      err (
          identity_mismatch
            (codes "Hermes returned a session identifier owned by another request")),
    )
    else if names_other v.realtime_session_id
        (first (made_by owner_key target_name v.conversation_id request_id) s.sessions)
    then (
      s,
      err (identity_mismatch (codes "Hermes returned a different session for the same request")),
    )
    else (upsert s v owner_key target_name request_id now existing, ok tt)

unfoldable pub is_owned : Text → Text → Text → SessionRow → Bool
is_owned session_id owner_key target_name r =
    r.realtime_session_id == session_id && r.owner_key == owner_key && r.target_name == target_name

abbrev pub or_not_found : Option SessionRow → Result Exn SessionRow
or_not_found none =
    err (proxy_error "resource_not_found" (codes "The requested resource was not found") 404)
or_not_found (some r) = ok r

-- `require_session`
unfoldable pub require_session : MappingStore → Text → Text → Text → Result Exn SessionRow
require_session s session_id owner_key target_name =
    or_not_found (first (is_owned session_id owner_key target_name) s.sessions)

abbrev pub set_event : Option Text → Option Text → Option Text
set_event none old = old
set_event (some e) old = some e

-- `update_session`
unfoldable pub update_session : MappingStore → Text → Text → Option Text → ℕ → MappingStore
update_session s session_id state last_event_id now = record s {
  sessions =
      update_where (has_id session_id)
        (λ r. record r {
          state = state;
          last_event_id = set_event last_event_id r.last_event_id;
          updated_at = now;
        })
        s.sessions;
}
