-- ===== src/Realtime/Service/Concluded.antt =====
-- What the reply of a handler says of the call.
use hermes_voice_console.Prelude.{
  ◌≡◌, refl, Option, none, some, Text, text_Eq, codes, guard, Yields, bind-Yields,
}
use hermes_voice_console.Realtime.{RequestState}
use hermes_voice_console.Realtime.Json.{Fields, get, equals_text}
use hermes_voice_console.Realtime.Responses.{
  Pending, waiting_of, pending_of, parse_request_state, operation_of,
}
use hermes_voice_console.Realtime.Responses.Results.{Reply}
use hermes_voice_console.Realtime.Responses.Named.{Names, IsOperation}
use hermes_voice_console.Realtime.Service.{Prepared}
use hermes_voice_console.Realtime.Service.Replies.{AnswersTo}

abbrev pub Bears : Text → Option Pending → Type 0
Bears request none = Unit {0}
Bears request (some w) = w.client_request_id ≡ request

pending_of-request :
    (d : Fields) (request : Text) (operation : Option Text) (x : Option RequestState)
    → Yields (Bears request) (pending_of d request operation x)
pending_of-request d request operation none = tt
pending_of-request d request operation (some s) =
    bind-Yields _ (operation_of operation (get d (codes "operation"))) _ (λ _ _. refl)

pub parse_request_state-Bears :
    (d : Fields) (request : Text) (operation : Option Text)
    → Yields (Bears request) (parse_request_state d request operation)
unfolding parse_request_state
parse_request_state-Bears d request operation =
    bind-Yields _ (guard (equals_text (get d (codes "client_request_id")) request) _) _ (λ _ _.
      bind-Yields _ (waiting_of (get d (codes "state"))) _
        (λ x _. pending_of-request d request operation x))

-- The request is the one that was asked with, and so is its operation, where one is named.
abbrev Waits : Fields → Text → Text → Option Pending → Type 0
Waits d request operation none = Unit {0}
Waits d request operation (some w) =
    (w.client_request_id ≡ request) × IsOperation (get d (codes "operation")) operation w.operation

-- What a document that passes `parse_request_state` says.
abbrev Passes : Fields → Text → Text → Option Pending → Type 0
Passes d request operation w =
    Names d (codes "client_request_id") request × Waits d request operation w

-- The reply is to what was asked, and stands in a document that names the request.
abbrev Answered : Prepared → Fields → Reply → Type 0
Answered q d reply = Names d (codes "client_request_id") q.key.request_id × AnswersTo q d reply
