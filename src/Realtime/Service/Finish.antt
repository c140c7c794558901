-- ===== src/Realtime/Service/Finish.antt =====
-- The handlers of backend/voice_console/realtime/service.py from their wait on: the answer of Hermes, the
-- lookup, the parser of the result, and what is written to the store.
use hermes_voice_console.Prelude.{
  ℕ, Bool, true, false, Option, none, some, Text, text_Eq, ◌==◌, codes, Result, ok, err,
  if◌then◌else◌,
}
use hermes_voice_console.Realtime.{
  Exn, proxy, ambiguous_mutation, value_error, type_error, attribute_error, config_error,
}
use hermes_voice_console.Realtime.Json.{Fields}
use hermes_voice_console.Realtime.Responses.{Pending, parse_request_state}
use hermes_voice_console.Realtime.Responses.Results.{
  Reply, undecided, activated, parse_activate_result, parse_input_result, parse_interrupt_result,
  parse_manual_audio_commit_result, parse_manual_audio_discard_result, parse_turn_mode_result,
  parse_approval_result, parse_delete_result,
}
use hermes_voice_console.Realtime.Store.{MappingStore, set_request_state, complete_request}
use hermes_voice_console.Realtime.Store.Sessions.{update_session}
use hermes_voice_console.Realtime.Service.{
  Proxy, Mutation, operation_name, Prepared, Next, activate, input, interrupt, commit, discard,
  delete, turn_mode, approve, cached, submits, looks_up,
}

-- What Hermes answers to the submission and to the lookup, if they are made.
pub record Answers : Type 0 where
  pub submission : Result Exn Fields
  pub lookup : Result Exn Fields

-- `_lookup_request`
unfoldable pub lookup_request : Text → Result Exn Fields → Result Exn Fields
lookup_request operation (ok d) = ok d
lookup_request operation (err (proxy e)) =
    if e.code == codes "resource_not_found"
    then err (ambiguous_mutation operation)
    else err (proxy e)
lookup_request operation (err e) = err e

-- `except AmbiguousRealtimeMutation`
unfoldable pub submit : Text → Answers → Result Exn Fields
submit operation a = elim a.submission [
  | ok d ↦ ok d
  | err e ↦ elim e [
    | ambiguous_mutation o ↦ lookup_request operation a.lookup
    | proxy x ↦ err (proxy x)
    | value_error m ↦ err (value_error m)
    | type_error ↦ err type_error
    | attribute_error ↦ err attribute_error
    | config_error ↦ err config_error
  ]
]

-- The parser of the result of a mutation.
abbrev pub result_by : Proxy → Prepared → Fields → Mutation → Result Exn Reply
result_by p q d activate =
    parse_activate_result p.show d q.mapping.conversation_id q.session_id q.key.request_id
result_by p q d input = parse_input_result d q.key.request_id
result_by p q d interrupt = parse_interrupt_result d q.session_id q.key.request_id
result_by p q d commit =
    parse_manual_audio_commit_result d q.session_id q.generation q.key.request_id
result_by p q d discard =
    parse_manual_audio_discard_result d q.session_id q.generation q.key.request_id
result_by p q d delete =
    parse_delete_result d q.mapping.conversation_id q.session_id q.key.request_id
result_by p q d (turn_mode mode) =
    parse_turn_mode_result d q.session_id q.generation q.key.request_id mode
result_by p q d (approve approval_id) = parse_approval_result d approval_id q.key.request_id

unfoldable pub result_of : Proxy → Prepared → Fields → Result Exn Reply
result_of p q d = result_by p q d q.mutation

-- The clock at the updates of the session and of the request.
pub record Stamps : Type 0 where
  pub touched : ℕ
  pub settled : ℕ

-- `update_session`, which an activation and a deletion make.
unfoldable pub touch : MappingStore → Prepared → Reply → Stamps → MappingStore
touch s q (activated v request) t = update_session s q.session_id v.state none t.touched
touch s q (Reply.closed sid cid request) t =
    update_session s q.session_id (codes "closed") none t.touched
touch s q _ t = s

abbrev pub completed :
    MappingStore → Prepared → Stamps → Result Exn Reply → MappingStore × Result Exn Reply
completed s q t (err e) = (s, err e)
completed s q t (ok r) = (complete_request (touch s q r t) q.key (some r) t.settled, ok r)

abbrev pub settled :
    Proxy
    → MappingStore
    → Prepared
    → Fields
    → Stamps
    → Result Exn (Option Pending)
    → MappingStore × Result Exn Reply
settled p s q d t (err e) = (s, err e)
settled p s q d t (ok (some w)) =
    (set_request_state s q.key w.state (some (undecided w)) t.settled, ok (undecided w))
settled p s q d t (ok none) = completed s q t (result_of p q d)

-- From the answer on.
unfoldable pub conclude :
    Proxy → MappingStore → Prepared → Stamps → Result Exn Fields → MappingStore × Result Exn Reply
conclude p s q t (err e) = (s, err e)
conclude p s q t (ok d) =
    settled p s q d t (parse_request_state d q.key.request_id (some (operation_name q.mutation)))

-- From the decision on, in the store that the wait leaves.
unfoldable pub finish :
    Proxy → MappingStore → Prepared → Next → Answers → Stamps → MappingStore × Result Exn Reply
finish p s q (cached r) a t = (s, ok r)
finish p s q submits a t = conclude p s q t (submit (operation_name q.mutation) a)
finish p s q looks_up a t = conclude p s q t (lookup_request (operation_name q.mutation) a.lookup)

-- What a handler leaves: the store, whether it submitted the mutation, and its reply or exception.
pub record Served : Type 0 where
  pub store : MappingStore
  pub submitted : Bool
  pub reply : Result Exn Reply

abbrev pub is_submits : Next → Bool
is_submits submits = true
is_submits looks_up = false
is_submits (cached r) = false

abbrev served : Bool → MappingStore × Result Exn Reply → Served
served b (s, r) = record { store = s; submitted = b; reply = r }

-- A handler, where nothing else runs in its waits.
unfoldable pub serve :
    Proxy → Answers → Stamps → MappingStore × Result Exn (Prepared × Next) → Served
serve p a t (s, err e) = record { store = s; submitted = false; reply = err e }
serve p a t (s, ok (q, n)) = served (is_submits n) (finish p s q n a t)
