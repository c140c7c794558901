-- ===== src/Realtime/Examples/Ledgers.antt =====
-- A request on the store of backend/voice_console/realtime/store.py and on the ledger.
use hermes_voice_console.Prelude.{
  ◌≡◌, refl, some, List, [], ◌∷◌, Text, codes, ok, err, arith, count_where, first, update_where,
  text_eq,
}
use hermes_voice_console.Realtime.{complete}
use hermes_voice_console.Realtime.Responses.Results.{input_accepted}
use hermes_voice_console.Realtime.Store.{
  MappingStore, RequestKey, fresh, seen, other_resource, claim_request, set_request_state,
  request_response, reuses, is_request,
}
use hermes_voice_console.Realtime.Store.Claims.{rows_of}
use hermes_voice_console.Realtime.Store.Changes.{HasUniqueRequests}
use hermes_voice_console.Realtime.Store.Ledger.{
  Call, claim, settle, look, claimed, settled, looked, on_store, run_store, run_ledger,
}
use hermes_voice_console.Realtime.Store.Views.{ledger_of}
use hermes_voice_console.Realtime.Store.Refines.{run_store-run_ledger}

abbrev at_session : Text → RequestKey
at_session scope = record {
  owner_key = codes "k";
  target_name = codes "home";
  scope_id = scope;
  request_id = codes "r";
}

abbrev calls : List Call
calls =
    claim (at_session (codes "s")) (codes "input") (codes "f") 1
    ∷ claim (at_session (codes "other")) (codes "input") (codes "f") 2
    ∷ settle (at_session (codes "s")) complete (some (input_accepted (codes "r"))) 3
    ∷ claim (at_session (codes "s")) (codes "input") (codes "f") 4
    ∷ look (at_session (codes "s"))
    ∷ []

abbrev no_rows : MappingStore
no_rows = record { sessions = []; requests = [] }

no_rows-HasUniqueRequests : HasUniqueRequests no_rows
unfolding HasUniqueRequests rows_of count_where
no_rows-HasUniqueRequests o t i = omega arith

answers_stored :
    run_store calls no_rows
    ≡ claimed (ok fresh)
      ∷ claimed (err other_resource)
      ∷ settled
      ∷ claimed (ok (seen complete))
      ∷ looked (some (input_accepted (codes "r")))
      ∷ []
unfolding run_store on_store claim_request set_request_state request_response reuses is_request
    first update_where text_eq
answers_stored = refl

run_store-run_ledger_example : run_store calls no_rows ≡ run_ledger calls (ledger_of no_rows)
run_store-run_ledger_example = run_store-run_ledger calls no_rows no_rows-HasUniqueRequests
