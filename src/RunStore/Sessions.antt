-- ===== src/RunStore/Sessions.antt =====
-- The conversations of the store: `create_session`, `list_sessions`, `require_session` and
-- `adopt_hermes_session` of backend/voice_console/run_store.py.
use hermes_voice_console.Prelude.{
  ℕ, Bool, ◌&&◌, ◌||◌, not, Option, none, some, List, [], ◌∷◌, ◌++◌, Text, text_Eq, ◌==◌, Result,
  ok, err, if◌then◌else◌, first, any, select, update_where, order_by_desc,
}
use hermes_voice_console.RunStore.{
  SessionRecord, ConsoleStore, StoreError, key_error, integrity_error, Writing, matches_if_given,
}

-- The row that `require_session` and `list_sessions` look for.
unfoldable pub is_session : Text → Text → Option Text → SessionRecord → Bool
is_session conversation_id owner_key target_name r =
    r.conversation_id == conversation_id
    && r.owner_key == owner_key
    && matches_if_given target_name r.target_name

abbrev pub or_key_error {ℓ} : {A : Type ℓ} → Option A → Result StoreError A
or_key_error none = err key_error
or_key_error (some a) = ok a

unfoldable pub require_session :
    ConsoleStore → Text → Text → Option Text → Result StoreError SessionRecord
unfolding is_session
require_session s conversation_id owner_key target_name =
    or_key_error (first (is_session conversation_id owner_key target_name) s.sessions)

unfoldable pub list_sessions : ConsoleStore → Text → Option Text → List SessionRecord
list_sessions s owner_key target_name =
    order_by_desc (λ r. r.updated_at)
      (select (λ r. r.owner_key == owner_key && matches_if_given target_name r.target_name)
        s.sessions)

-- PRIMARY KEY(conversation_id), UNIQUE(target_name, hermes_session_id)
unfoldable pub clashes : Text → Text → Text → SessionRecord → Bool
clashes conversation_id target_name hermes_session_id r =
    r.conversation_id == conversation_id
    || (r.target_name == target_name && r.hermes_session_id == hermes_session_id)

unfoldable pub create_session :
    ConsoleStore → Text → Text → Text → Text → Text → Text → ℕ → Writing SessionRecord
unfolding clashes
create_session s conversation_id target_name hermes_session_id memory_session_key owner_key title
      now =
    let row : SessionRecord = record {
      conversation_id = conversation_id;
      target_name = target_name;
      hermes_session_id = hermes_session_id;
      memory_session_key = memory_session_key;
      owner_key = owner_key;
      title = title;
      created_at = now;
      updated_at = now;
    } in
    let s' : ConsoleStore = record s { sessions = s.sessions ++ row ∷ [] } in
    if any (clashes conversation_id target_name hermes_session_id) s.sessions
    then (s, err integrity_error)
    else (s', require_session s' conversation_id owner_key (some target_name))

-- The row that `adopt_hermes_session` updates.
unfoldable pub is_owned : Text → Text → SessionRecord → Bool
is_owned conversation_id owner_key r =
    r.conversation_id == conversation_id && r.owner_key == owner_key

-- Another conversation of the same target has the session already.
unfoldable pub is_taken : Text → Text → SessionRecord → Bool
is_taken hermes_session_id target_name r =
    r.target_name == target_name && r.hermes_session_id == hermes_session_id

-- `UPDATE sessions SET hermes_session_id = ?, updated_at = ?`, refused if it breaks
-- UNIQUE(target_name, hermes_session_id); `conversation_id` is the key, so one row at most fits.
unfoldable pub adopt_row :
    ConsoleStore → Text → Text → Text → ℕ → Option SessionRecord → Writing SessionRecord
unfolding is_owned is_taken
adopt_row s conversation_id owner_key hermes_session_id now none = (s, err key_error)
adopt_row s conversation_id owner_key hermes_session_id now (some old) =
    let s' : ConsoleStore = record s {
      sessions =
          update_where (is_owned conversation_id owner_key)
            (λ r. record r { hermes_session_id = hermes_session_id; updated_at = now }) s.sessions;
    } in
    if any
      (λ r.
        not (r.conversation_id == conversation_id) && is_taken hermes_session_id old.target_name r)
      s.sessions
    then (s, err integrity_error)
    else (s', require_session s' conversation_id owner_key none)

unfoldable pub adopt_hermes_session : ConsoleStore → Text → Text → Text → ℕ → Writing SessionRecord
unfolding adopt_row
adopt_hermes_session s conversation_id owner_key hermes_session_id now =
    adopt_row s conversation_id owner_key hermes_session_id now
      (first (is_owned conversation_id owner_key) s.sessions)
