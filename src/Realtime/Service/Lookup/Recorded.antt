-- ===== src/Realtime/Service/Lookup/Recorded.antt =====
-- What `request_result` records, and for whom.
use hermes_voice_console.Prelude.{
  ◌≡◌, refl, subst, ◌⊎◌, inl, inr, Bool, true, false, Option, none, some, Text, text_Eq, codes,
  Result, ok, err, Yields, bind-Yields, Yields_ok, Yields-mono, Yields-self,
}
use hermes_voice_console.RunStore
use hermes_voice_console.Realtime.{Exn}
use hermes_voice_console.Realtime.Json.{Fields}
use hermes_voice_console.Realtime.Contracts.{validate_identifier}
use hermes_voice_console.Realtime.Responses.{Pending, SessionView}
use hermes_voice_console.Realtime.Responses.Results.{
  Reply, reply_request, undecided, activated, closed, input_accepted, interrupted, rejected,
  committed, discarded, turn_mode_set, approval,
}
use hermes_voice_console.Realtime.Store.{MappingStore, RequestKey}
use hermes_voice_console.Realtime.Store.Sessions.{record_session}
use hermes_voice_console.Realtime.Store.Records.{require-record}
use hermes_voice_console.Realtime.Service.{Proxy, Target, target, client}
use hermes_voice_console.Realtime.Service.Finish.{Stamps}
use hermes_voice_console.Realtime.Service.Creation.Made.{
  Found, Owns, found-Owns, complete_request-Found,
}
use hermes_voice_console.Realtime.Service.Concluded.{Bears, parse_request_state-Bears}
use hermes_voice_console.Realtime.Service.Lookup.{
  has, conversation_row, settled_as, keep, record_result, looked_up, read_lookup, answered_with,
  request_result,
}
use hermes_voice_console.Realtime.Service.Lookup.Requests.{parse_completed-IsOfRequest}

module _ (p : Proxy) (console : RunStore.ConsoleStore)
    (principal conversation_id request target_name : Text) (s : MappingStore) where
  -- The caller owns the conversation at the target that is named.
  abbrev pub IsOwner : Target → RunStore.SessionRecord → Type 0
  IsOwner g c = (target p target_name ≡ ok g) × Owns p console principal conversation_id g c

  -- A session was recorded for the owner of the conversation.
  abbrev pub IsRecorded : Target → RunStore.SessionRecord → MappingStore → Reply → Type 0
  IsRecorded g c s' reply =
      (v : SessionView) × (reply ≡ activated v request) × Found s' v c.owner_key g.name request

  abbrev pub Tells : MappingStore → Reply → Type 0
  Tells s' reply =
      (reply_request reply ≡ request)
      × ((g : Target) × (c : RunStore.SessionRecord) × IsOwner g c
          × ((s' ≡ s) ⊎ IsRecorded g c s' reply))

  abbrev Told : MappingStore × Result Exn Reply → Type 0
  Told (s', x) = Yields (Tells s') x

  conversation_row-Owns :
      (g : Target)
      → Yields
          (Owns p console principal conversation_id g)
          (conversation_row p console principal conversation_id g)
  unfolding conversation_row
  conversation_row-Owns g =
      Yields-mono _ _ _ (found-Owns p console principal conversation_id g)
        (Yields-self (conversation_row p console principal conversation_id g))

  -- The target that a look-up goes on with, and the row of the conversation.
  abbrev Held : Target → Type 0
  Held g = (c : RunStore.SessionRecord) × IsOwner g c

  read_lookup-Held :
      Yields Held (read_lookup p console principal conversation_id request target_name)
  unfolding read_lookup
  read_lookup-Held =
      bind-Yields _ (validate_identifier conversation_id (codes "conversation_id")) _ (λ _ _.
        bind-Yields _ (validate_identifier request (codes "client_request_id")) _ (λ _ _.
          bind-Yields _ (target p target_name) _ (λ g named.
            bind-Yields _ (conversation_row p console principal conversation_id g) _ (λ c e.
              bind-Yields _ (client g) _ (λ _ _. (
                c,
                (
                  named,
                  Yields_ok (Owns p console principal conversation_id g) _ c
                      (conversation_row-Owns g) e,
                ),
              ))))))

  unchanged-Tells : (g : Target) (r : Reply) → Held g → reply_request r ≡ request → Tells s r
  unchanged-Tells g r (c, owner) h = (h, (g, c, owner, inl refl))

  settled_as-Told :
      (g : Target) (c : RunStore.SessionRecord) (k : RequestKey) (v : SessionView) (t : Stamps)
      (x : MappingStore × Result Exn (Unit {0}))
      → IsOwner g c
      → record_session s v c.owner_key g.name request t.touched ≡ x
      → Told (settled_as k (activated v request) t x)
  settled_as-Told g c k v t (s', err e) o h = tt
  settled_as-Told g c k v t (s', ok u) o h = (
    refl,
    (
      g,
      c,
      o,
      inr (
        v,
        refl,
        complete_request-Found s' k v c.owner_key g.name request t.settled
            (require-record s s' v c.owner_key g.name request t.touched h),
      ),
    ),
  )

  keep-Told :
      (g : Target) (t : Stamps) (v : SessionView) (x : Result Exn RunStore.SessionRecord)
      → target p target_name ≡ ok g
      → Yields (Owns p console principal conversation_id g) x
      → Told (keep s g conversation_id request t v x)
  keep-Told g t v (err e) n o = tt
  keep-Told g t v (ok c) n o = settled_as-Told g c _ v t _ (n, o) refl

  record_result-Told :
      (g : Target) (t : Stamps) (b : Bool) (x : Result Exn Reply)
      → Held g
      → Yields (λ (r : Reply). reply_request r ≡ request) x
      → Told (record_result p console s principal conversation_id g request t b x)
  record_result-Told g t b (err e) o h = tt
  record_result-Told g t true (ok (activated v r)) o h =
      keep-Told g t v (conversation_row p console principal conversation_id g) o.1.0
        (conversation_row-Owns g)
  record_result-Told g t true (ok (undecided w)) o h = unchanged-Tells g _ o h
  record_result-Told g t true (ok (closed sid cid r)) o h = unchanged-Tells g _ o h
  record_result-Told g t true (ok (input_accepted r)) o h = unchanged-Tells g _ o h
  record_result-Told g t true (ok (interrupted r sid)) o h = unchanged-Tells g _ o h
  record_result-Told g t true (ok (rejected r operation code)) o h = unchanged-Tells g _ o h
  record_result-Told g t true (ok (committed r sid n)) o h = unchanged-Tells g _ o h
  record_result-Told g t true (ok (discarded r sid n)) o h = unchanged-Tells g _ o h
  record_result-Told g t true (ok (turn_mode_set r sid n mode)) o h = unchanged-Tells g _ o h
  record_result-Told g t true (ok (approval r aid state accepted)) o h = unchanged-Tells g _ o h
  record_result-Told g t false (ok r) o h = unchanged-Tells g _ o h

  looked_up-Told :
      (g : Target) (t : Stamps) (d : Fields) (x : Result Exn (Option Pending))
      → Held g
      → Yields (Bears request) x
      → Told (looked_up p console s principal conversation_id g request t d x)
  looked_up-Told g t d (err e) o h = tt
  looked_up-Told g t d (ok (some w)) o h = unchanged-Tells g _ o h
  looked_up-Told g t d (ok none) o h =
      record_result-Told g t (has d (codes "answer_sdp")) _ o
        (parse_completed-IsOfRequest p.show d conversation_id request)

  answered_with-Told :
      (t : Stamps) (answer : Result Exn Fields) (x : Result Exn Target)
      → Yields Held x
      → Told (answered_with p console s principal conversation_id request t answer x)
  answered_with-Told t answer (err e) o = tt
  answered_with-Told t (err e) (ok g) o = tt
  answered_with-Told t (ok d) (ok g) o =
      looked_up-Told g t d _ o (parse_request_state-Bears d request none)

  -- Whatever Hermes answers: what `request_result` returns bears the request id that was asked for, and
  -- the console's store has the conversation that was asked for, for the owner key of the caller at
  -- the target that was named. Either the mapping store is unchanged, or the result is a session, which
  -- the mapping store has then for that owner and target, with the generation and the state that are
  -- returned.
  pub request_result_ok :
      (answer : Result Exn Fields) (t : Stamps) (s' : MappingStore) (reply : Reply)
      → request_result p console s principal conversation_id request target_name answer t
        ≡ (s', ok reply)
      → Tells s' reply
  unfolding request_result
  request_result_ok answer t s' reply h = subst Told h (
      answered_with-Told t answer
        (read_lookup p console principal conversation_id request target_name) read_lookup-Held)
