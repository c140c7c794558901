-- ===== src/SessionManager.antt =====
-- backend/voice_console/session_manager.py: `history`, which follows a session that Hermes has moved
-- and keeps the messages of its two speakers. The owner keys and memory keys, which are HMACs, and
-- the creation of sessions in Hermes are not here.
use hermes_voice_console.Prelude.{
  ℕ, ◌&&◌, ◌||◌, not, Option, none, some, List, [], ◌∷◌, Text, text_Eq, ◌==◌, codes, strip, ok, err,
  if◌then◌else◌,
}
use hermes_voice_console.RunStore.{SessionRecord, ConsoleStore, Writing}
use hermes_voice_console.RunStore.Sessions.{adopt_hermes_session}

-- An entry of `messages` in what Hermes answers; a missing field or `null` is `none`.
pub data RawMessage : Type 0 where
  not_an_object : RawMessage
  message : Option Text → Option Text → RawMessage

-- The answer of `session_messages`; `messages` is `none` where it is missing or no list.
pub record SessionDocument : Type 0 where
  pub session_id : Option Text
  pub messages : Option (List RawMessage)

pub record HistoryItem : Type 0 where
  pub role : Text
  pub content : Text

abbrev pub user_role : Text
user_role = codes "user"

abbrev pub assistant_role : Text
assistant_role = codes "assistant"

-- `value or ""`
abbrev pub or_empty : Option Text → Text
or_empty none = []
or_empty (some t) = t

unfoldable pub history_items : List RawMessage → List HistoryItem
history_items [] = []
history_items (not_an_object ∷ ms) = history_items ms
history_items (message role content ∷ ms) =
    let rest = history_items ms in
    let text = strip (or_empty content) in
    if (or_empty role == user_role || or_empty role == assistant_role) && not (text == [])
    then record { role = or_empty role; content = text } ∷ rest
    else rest

abbrev listed : Option (List RawMessage) → List RawMessage
listed none = []
listed (some ms) = ms

-- `str(document.get("session_id") or session.hermes_session_id)`
unfoldable pub resolved_id : SessionDocument → SessionRecord → Text
resolved_id d s = if or_empty d.session_id == [] then s.hermes_session_id else or_empty d.session_id

unfoldable pub adopted :
    SessionDocument → Writing SessionRecord → Writing (SessionRecord × List HistoryItem)
adopted d (s, err e) = (s, err e)
adopted d (s, ok session) = (s, ok (session, history_items (listed d.messages)))

unfoldable pub history :
    ConsoleStore → SessionRecord → SessionDocument → ℕ → Writing (SessionRecord × List HistoryItem)
unfolding adopted resolved_id
history s session d now =
    if resolved_id d session == session.hermes_session_id
    then (s, ok (session, history_items (listed d.messages)))
    else adopted d (
        adopt_hermes_session s session.conversation_id session.owner_key (resolved_id d session)
          now)
