-- ===== src/Realtime/Service/Actions.antt =====
-- `session_action`, `manual_control`, `resolve_approval` and `delete_session` of
-- backend/voice_console/realtime/service.py. The names of actions and operations are those of the
-- routes.
use hermes_voice_console.Prelude.{
  ℕ, Bool, ◌||◌, Text, text_Eq, ◌==◌, codes, Result, ok, err, ◌>>=◌, ◌>>◌, guard,
}
use hermes_voice_console.RunStore.{ConsoleStore}
use hermes_voice_console.Realtime.{Exn, proxy_error}
use hermes_voice_console.Realtime.Json.{integer, text, Fields, end, field, get}
use hermes_voice_console.Realtime.Contracts.{
  validate_identifier, require_identifier, require_nonempty_string, validate_generation,
}
use hermes_voice_console.Realtime.Store.{MappingStore, SessionRow, RequestKey}
use hermes_voice_console.Realtime.Service.{
  Proxy, Target, owned_row, owned_mapping, client, Mutation, activate, input, interrupt, commit,
  discard, delete, turn_mode, approve, Prepared, Next, begin,
}
use hermes_voice_console.Realtime.Service.Finish.{Answers, Stamps, Served, serve}

-- One call: the session, the target, the principal and the body.
pub record Call : Type 0 where
  pub session_id : Text
  pub target_name : Text
  pub principal : Text
  pub body : Fields

abbrev pub key_of : SessionRow → Call → Text → Text → RequestKey
key_of m c scope_id request_id = record {
  owner_key = m.owner_key;
  target_name = c.target_name;
  scope_id = scope_id;
  request_id = request_id;
}

-- The fields that every body sent to Hermes has, and `rest`.
abbrev pub forwarded : SessionRow → Text → ℕ → Fields → Fields
forwarded m request_id generation rest = field (codes "client_request_id") (text request_id) (
    field (codes "conversation_id") (text m.conversation_id)
      (field (codes "session_generation") (integer generation) rest))

pub data Action : Type 0 where
  activate_action input_action interrupt_action : Action

abbrev pub mutation_of : Action → Mutation
mutation_of activate_action = activate
mutation_of input_action = input
mutation_of interrupt_action = interrupt

-- `if action == "input"`
abbrev pub action_fields : Action → Fields → Result Exn Fields
action_fields input_action body = do
  t ← require_nonempty_string body (codes "text") 32000
  ok (field (codes "text") (text t) end)
action_fields activate_action body = ok end
action_fields interrupt_action body = ok end

unfoldable pub prepare_action :
    Proxy → ConsoleStore → MappingStore → Action → Call → Result Exn Prepared
prepare_action p console s action c = do
  m ← owned_mapping p console s c.session_id c.target_name c.principal
  request_id ← require_identifier c.body (codes "client_request_id")
  generation ← validate_generation (get c.body (codes "session_generation"))
  rest ← action_fields action c.body
  ok (record {
    mutation = mutation_of action;
    mapping = m;
    session_id = c.session_id;
    key = key_of m c c.session_id request_id;
    generation = generation;
    payload = forwarded m request_id generation rest;
  })

unfoldable pub session_action :
    Proxy → ConsoleStore → MappingStore → Action → Call → ℕ → Answers → Stamps → Served
session_action p console s action c now a t =
    serve p a t (begin p s (prepare_action p console s action c) now)

pub data Control : Type 0 where
  commit_control discard_control mode_control : Control

-- `if operation == "turn_mode_update"`: the mutation, and the further field of the body
abbrev pub control_fields : Control → Fields → Result Exn (Mutation × Fields)
control_fields commit_control body = ok (commit, end)
control_fields discard_control body = ok (discard, end)
control_fields mode_control body = do
  mode ← require_nonempty_string body (codes "turn_mode") 16
  guard (mode == codes "automatic" || mode == codes "manual")
      (proxy_error "invalid_turn_mode" (codes "turn_mode must be automatic or manual") 400)
  ok (turn_mode mode, field (codes "turn_mode") (text mode) end)

unfoldable pub prepare_control :
    Proxy → ConsoleStore → MappingStore → Control → Call → Result Exn Prepared
prepare_control p console s control c = do
  m ← owned_mapping p console s c.session_id c.target_name c.principal
  request_id ← require_identifier c.body (codes "client_request_id")
  generation ← validate_generation (get c.body (codes "session_generation"))
  chosen ← control_fields control c.body
  ok (record {
    mutation = chosen.0;
    mapping = m;
    session_id = c.session_id;
    key = key_of m c c.session_id request_id;
    generation = generation;
    payload = forwarded m request_id generation chosen.1;
  })

unfoldable pub manual_control :
    Proxy → ConsoleStore → MappingStore → Control → Call → ℕ → Answers → Stamps → Served
manual_control p console s control c now a t =
    serve p a t (begin p s (prepare_control p console s control c) now)

abbrev pub is_choice : Text → Bool
is_choice t = t == codes "once" || t == codes "session" || t == codes "always" || t == codes "deny"

unfoldable pub prepare_approval :
    Proxy → ConsoleStore → MappingStore → Text → Call → Result Exn Prepared
prepare_approval p console s approval_id c = do
  _ ← validate_identifier approval_id (codes "approval_id")
  m ← owned_mapping p console s c.session_id c.target_name c.principal
  request_id ← require_identifier c.body (codes "client_request_id")
  choice ← require_nonempty_string c.body (codes "choice") 32
  guard (is_choice choice) (proxy_error "invalid_request" (codes "Unsupported approval choice") 400)
  generation ← validate_generation (get c.body (codes "session_generation"))
  ok (record {
    mutation = approve approval_id;
    mapping = m;
    session_id = c.session_id;
    key = key_of m c approval_id request_id;
    generation = generation;
    payload = forwarded m request_id generation (field (codes "choice") (text choice) end);
  })

unfoldable pub resolve_approval :
    Proxy → ConsoleStore → MappingStore → Text → Call → ℕ → Answers → Stamps → Served
resolve_approval p console s approval_id c now a t =
    serve p a t (begin p s (prepare_approval p console s approval_id c) now)

-- The claim of a deletion hashes an empty payload, and the client is made behind it.
unfoldable pub prepare_delete :
    Proxy → ConsoleStore → MappingStore → Call → Result Exn (Target × Prepared)
prepare_delete p console s c = do
  owned ← owned_row p console s c.session_id c.target_name c.principal
  request_id ← require_identifier c.body (codes "client_request_id")
  ok (
    owned.0,
    record {
      mutation = delete;
      mapping = owned.1;
      session_id = c.session_id;
      key = key_of owned.1 c c.session_id request_id;
      generation = 0;
      payload = end;
    },
  )

abbrev pub with_client :
    Result Exn (Unit {0})
    → MappingStore × Result Exn (Prepared × Next)
    → MappingStore × Result Exn (Prepared × Next)
with_client made (s, err e) = (s, err e)
with_client (ok _) (s, ok x) = (s, ok x)
with_client (err e) (s, ok x) = (s, err e)

unfoldable pub begin_delete :
    Proxy
    → MappingStore
    → Result Exn (Target × Prepared)
    → ℕ
    → MappingStore × Result Exn (Prepared × Next)
begin_delete p s (err e) now = (s, err e)
begin_delete p s (ok (t, q)) now = with_client (client t) (begin p s (ok q) now)

unfoldable pub delete_session :
    Proxy → ConsoleStore → MappingStore → Call → ℕ → Answers → Stamps → Served
delete_session p console s c now a t =
    serve p a t (begin_delete p s (prepare_delete p console s c) now)
