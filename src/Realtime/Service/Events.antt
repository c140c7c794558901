-- ===== src/Realtime/Service/Events.antt =====
-- What happens to the store of a running service, one atomic part at a time: the handlers of
-- backend/voice_console/realtime/service.py up to their wait and from it on, in any order, with the
-- other calls of RealtimeMappingStore between them. The console's own store may differ at each call.
use hermes_voice_console.Prelude.{ℕ, Option, List, [], ◌∷◌, ◌++◌, Text, Result, ok, err}
use hermes_voice_console.RunStore.{ConsoleStore, SessionRecord}
use hermes_voice_console.Realtime.{Exn, RequestState}
use hermes_voice_console.Realtime.Json.{Fields}
use hermes_voice_console.Realtime.Responses.Results.{Reply}
use hermes_voice_console.Realtime.Responses.{SessionView}
use hermes_voice_console.Realtime.Store.{MappingStore, RequestKey, set_request_state}
use hermes_voice_console.Realtime.Store.Sessions.{record_session, update_session}
use hermes_voice_console.Realtime.Service.{Proxy, Prepared, Next, cached, submits, looks_up, begin}
use hermes_voice_console.Realtime.Service.Creation.{
  Creation, Compatibility, creation_key, claim_creation,
}
use hermes_voice_console.Realtime.Service.Finish.{finish, Answers, Stamps}
use hermes_voice_console.Realtime.Service.Actions.{
  Call, Action, Control, prepare_action, prepare_control, prepare_approval, prepare_delete,
  begin_delete,
}

-- A handler is called.
pub data Entry : Type 0 where
  acts : Action → Call → Entry
  controls : Control → Call → Entry
  approves : Text → Call → Entry
  deletes : Call → Entry

-- The handler up to its wait.
unfoldable pub enter :
    Proxy → ConsoleStore → MappingStore → Entry → ℕ → MappingStore × Result Exn (Prepared × Next)
enter p console s (acts action c) now = begin p s (prepare_action p console s action c) now
enter p console s (controls control c) now = begin p s (prepare_control p console s control c) now
enter p console s (approves approval_id c) now =
    begin p s (prepare_approval p console s approval_id c) now
enter p console s (deletes c) now = begin_delete p s (prepare_delete p console s c) now

-- `created` is the part of `create_session` that claims its request, and then submits it whatever the claim
-- says. `recorded` and `put`, which is also `complete_request`, are its parts behind the answer and
-- those of `request_result`; `updated` is the part of `events`.
pub data Event : Type 0 where
  entered : ConsoleStore → Entry → ℕ → Event
  finished : Prepared → Next → Answers → Stamps → Event
  created : ConsoleStore → Text → Fields → Creation → Result Exn Compatibility → ℕ → Event
  recorded : SessionView → Text → Text → Text → ℕ → Event
  put : RequestKey → RequestState → Option Reply → ℕ → Event
  updated : Text → Text → Option Text → ℕ → Event

unfoldable pub step : Proxy → MappingStore → Event → MappingStore
step p s (entered console e now) = (enter p console s e now).0
step p s (finished q n a t) = (finish p s q n a t).0
step p s (created console principal body n answer now) =
    (claim_creation p console s principal body n answer now).0
step p s (recorded v owner_key target_name request_id now) =
    (record_session s v owner_key target_name request_id now).0
step p s (put k state response now) = set_request_state s k state response now
step p s (updated session_id state last_event_id now) =
    update_session s session_id state last_event_id now

-- The request that the handler submits to Hermes as it goes on.
abbrev pub submission : MappingStore × Result Exn (Prepared × Next) → List RequestKey
submission (s, err e) = []
submission (s, ok (q, submits)) = q.key ∷ []
submission (s, ok (q, looks_up)) = []
submission (s, ok (q, cached r)) = []

-- The request that a creation submits.
abbrev pub creation_of : Creation → MappingStore × Result Exn SessionRecord → List RequestKey
creation_of n (s, err e) = []
creation_of n (s, ok c) = creation_key c n ∷ []

unfoldable pub created_by : Proxy → MappingStore → Event → List RequestKey
created_by p s (created console principal body n answer now) =
    creation_of n (claim_creation p console s principal body n answer now)
created_by p s _ = []

unfoldable pub submitted_by : Proxy → MappingStore → Event → List RequestKey
submitted_by p s (entered console e now) = submission (enter p console s e now)
submitted_by p s (created console principal body n answer now) =
    creation_of n (claim_creation p console s principal body n answer now)
submitted_by p s _ = []

-- The requests that are submitted in the course of some events, in their order.
unfoldable pub submissions : Proxy → MappingStore → List Event → List RequestKey
submissions p s [] = []
submissions p s (e ∷ es) = submitted_by p s e ++ submissions p (step p s e) es

-- Those of them that creations submit.
unfoldable pub creations : Proxy → MappingStore → List Event → List RequestKey
creations p s [] = []
creations p s (e ∷ es) = created_by p s e ++ creations p (step p s e) es
