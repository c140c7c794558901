-- ===== src/Realtime/Examples/Tables.antt =====
-- Calls of the methods of RealtimeMappingStore on the small store.
use hermes_voice_console.Prelude.{
  ◌≡◌, ◌⊎◌, refl, none, some, [], ◌∷◌, text_Eq, text_eq, codes, arith, ok, first, count_where,
}
use hermes_voice_console.Realtime.{pending}
use hermes_voice_console.Realtime.Responses.{SessionView}
use hermes_voice_console.Realtime.Store.{SessionRow, MappingStore, claim_request, seen, reuses}
use hermes_voice_console.Realtime.Store.Sessions.{
  require_session, has_id, made_by, new_session_row, record_session,
}
use hermes_voice_console.Realtime.Store.Claims.{
  row_of, rows_of, Agrees, Conflicts, claim_request_used,
}
use hermes_voice_console.Realtime.Store.Changes.{
  claimed, recorded, unchanged, called, HasUniqueRequests, changes-HasUniqueRequests,
}
use hermes_voice_console.Realtime.Store.Identity.{
  session_of, Stays, IsCleared, called as by_method, change-SameIdentity,
}
use hermes_voice_console.Realtime.Store.Unique.{HasUniqueSessions, changes-HasUniqueSessions}
use hermes_voice_console.Realtime.Store.Records.{Shows, require-record}
use hermes_voice_console.Realtime.Examples.{session, store, key, row, claimed_store}

row_found : row_of claimed_store (codes "o1") (codes "home") (codes "q1") ≡ some row
unfolding row_of first reuses text_eq
row_found = refl

claim_request_used_example :
    ((claim_request claimed_store key (codes "input") (codes "Bye") 9).0 ≡ claimed_store)
    × (Agrees key (codes "input") (codes "Bye") row
        → (claim_request claimed_store key (codes "input") (codes "Bye") 9).1 ≡ ok (seen pending))
    × (¬ Agrees key (codes "input") (codes "Bye") row
        → Conflicts (claim_request claimed_store key (codes "input") (codes "Bye") 9).1)
claim_request_used_example =
    claim_request_used claimed_store key (codes "input") (codes "Bye") 9 row row_found

none_used : HasUniqueRequests store
unfolding HasUniqueRequests rows_of count_where
none_used owner target request = omega arith

changes-HasUniqueRequests_example :
    HasUniqueRequests
      (claim_request
        (claim_request store key (codes "input") (codes "Hello") 3).0
        key
        (codes "activate")
        []
        4).0
changes-HasUniqueRequests_example =
    changes-HasUniqueRequests
      (called (called unchanged (claimed key (codes "input") (codes "Hello") 3))
        (claimed key (codes "activate") [] 4))
      none_used

abbrev view : SessionView
view = record {
  contract_version = codes "1.0";
  realtime_session_id = codes "rt2";
  conversation_id = codes "c1";
  session_generation = 2;
  state = codes "provisioning";
  turn_mode = codes "manual";
  answer_sdp = none;
}

session_found : session_of store (codes "rt1") ≡ some session
unfolding session_of first has_id text_eq
session_found = refl

-- Another request for a session that is recorded is refused.
change-SameIdentity_example :
    let t =
      (record_session store
        (record view { realtime_session_id = codes "rt1" })
        (codes "o2")
        (codes "home")
        (codes "q9")
        7).0 in
    Stays t (codes "rt1") session ⊎ IsCleared store t session
change-SameIdentity_example =
    change-SameIdentity (codes "rt1") session
      (by_method (
        recorded (record view { realtime_session_id = codes "rt1" }) (codes "o2") (codes "home")
          (codes "q9") 7))
      session_found

abbrev recorded_store : MappingStore
recorded_store = record store {
  sessions = session ∷ new_session_row view (codes "o1") (codes "home") (codes "q9") 7 ∷ [];
}

view_recorded :
    record_session store view (codes "o1") (codes "home") (codes "q9") 7 ≡ (recorded_store, ok tt)
unfolding record_session first has_id made_by text_eq
view_recorded = refl

require-record_example :
    (r : SessionRow) × (require_session recorded_store (codes "rt2") (codes "o1") (codes "home")
      ≡ ok r)
    × Shows view (codes "o1") (codes "home") (codes "q9") r
require-record_example =
    require-record store recorded_store view (codes "o1") (codes "home") (codes "q9") 7
      view_recorded

one_session : HasUniqueSessions store
unfolding HasUniqueSessions count_where
one_session = (λ session_id. ground arith, λ owner target conversation request. ground arith)

changes-HasUniqueSessions_example :
    HasUniqueSessions (record_session store view (codes "o1") (codes "home") (codes "q9") 7).0
changes-HasUniqueSessions_example =
    changes-HasUniqueSessions
      (called unchanged (recorded view (codes "o1") (codes "home") (codes "q9") 7)) one_session
