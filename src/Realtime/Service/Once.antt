-- ===== src/Realtime/Service/Once.antt =====
-- How often a request id is submitted, however the handlers and the creations interleave.
use hermes_voice_console.Prelude.{
  ℕ, ◌+◌, ◌-◌, ◌≤◌, ◌≡◌, refl, ap, ◌∙◌, inl, inr, Option, none, some, List, [], ◌∷◌, ◌++◌, Text,
  text_Eq, codes, arith, Result, ok, err, if◌then◌else◌, count_where, Option-cases, any-update,
  count-append,
}
use hermes_voice_console.Realtime.Json.{Fields}
use hermes_voice_console.Realtime.Responses.{Pending}
use hermes_voice_console.Realtime.{Exn, RequestState, complete}
use hermes_voice_console.Realtime.Responses.Results.{
  Reply, undecided, activated, input_accepted, interrupted, rejected, committed, discarded,
  turn_mode_set, approval,
}
use hermes_voice_console.Realtime.Store.{
  MappingStore, RequestKey, Claim, reuses, is_request, claim_request, set_request_state,
  complete_request,
}
use hermes_voice_console.Realtime.Store.Sessions.{update_session}
use hermes_voice_console.Realtime.Store.Claims.{row_of, claim_request_unused, claim_request_row}
use hermes_voice_console.Realtime.Store.Changes.{record_session-requests}
use hermes_voice_console.Realtime.Service.Creation.{
  Creation, Compatibility, creation_key, with_mode, claim_for, claim_creation, offered,
}
use hermes_voice_console.RunStore.{ConsoleStore, SessionRecord}
use hermes_voice_console.Realtime.Service.Used.{bears, used, times, claimed-used, enter-used}
use hermes_voice_console.Realtime.Service.{Proxy, Prepared, Next, cached, submits, looks_up}
use hermes_voice_console.Realtime.Service.Finish.{
  finish, Answers, Stamps, touch, result_of, conclude, settled, completed,
}
use hermes_voice_console.Realtime.Service.Events.{
  Event, entered, finished, created, recorded, put, updated, step, created_by, submitted_by,
  submissions, creations,
}

set_request_state-used :
    (o t i : Text) (s : MappingStore) (k : RequestKey) (x : RequestState) (r : Option Reply)
    (now : ℕ)
    → used o t i (set_request_state s k x r now) ≡ used o t i s
unfolding used set_request_state reuses
set_request_state-used o t i s k x r now =
    ap (λ b. if b then 1 else 0)
      (any-update (reuses o t i) (is_request k) _ s.requests (λ y e. refl))

complete_request-used :
    (o t i : Text) (s : MappingStore) (k : RequestKey) (r : Option Reply) (now : ℕ)
    → used o t i (complete_request s k r now) ≡ used o t i s
unfolding complete_request
complete_request-used o t i s k r now = set_request_state-used o t i s k complete r now

pub touch-requests :
    (s : MappingStore) (q : Prepared) (r : Reply) (t : Stamps)
    → (touch s q r t).requests ≡ s.requests
unfolding touch update_session
touch-requests s q (undecided w) t = refl
touch-requests s q (activated v request) t = refl
touch-requests s q (Reply.closed sid cid request) t = refl
touch-requests s q (input_accepted request) t = refl
touch-requests s q (interrupted request sid) t = refl
touch-requests s q (rejected request operation code) t = refl
touch-requests s q (committed request sid generation) t = refl
touch-requests s q (discarded request sid generation) t = refl
touch-requests s q (turn_mode_set request sid generation mode) t = refl
touch-requests s q (approval request approval_id state accepted) t = refl

touch-used :
    (o t i : Text) (s : MappingStore) (q : Prepared) (r : Reply) (x : Stamps)
    → used o t i (touch s q r x) ≡ used o t i s
unfolding used
touch-used o t i s q r x = rw (touch-requests s q r x) refl

completed-used :
    (o t i : Text) (s : MappingStore) (q : Prepared) (x : Stamps) (r : Result Exn Reply)
    → used o t i (completed s q x r).0 ≡ used o t i s
completed-used o t i s q x (err e) = refl
completed-used o t i s q x (ok r) =
    complete_request-used o t i (touch s q r x) q.key (some r) x.settled ∙ touch-used o t i s q r x

settled-used :
    (o t i : Text) (p : Proxy) (s : MappingStore) (q : Prepared) (d : Fields) (x : Stamps)
    (w : Result Exn (Option Pending))
    → used o t i (settled p s q d x w).0 ≡ used o t i s
settled-used o t i p s q d x (err e) = refl
settled-used o t i p s q d x (ok (some w)) =
    set_request_state-used o t i s q.key w.state (some (undecided w)) x.settled
settled-used o t i p s q d x (ok none) = completed-used o t i s q x (result_of p q d)

conclude-used :
    (o t i : Text) (p : Proxy) (s : MappingStore) (q : Prepared) (x : Stamps)
    (d : Result Exn Fields)
    → used o t i (conclude p s q x d).0 ≡ used o t i s
unfolding conclude
conclude-used o t i p s q x (err e) = refl
conclude-used o t i p s q x (ok d) = settled-used o t i p s q d x _

finish-used :
    (o t i : Text) (p : Proxy) (s : MappingStore) (q : Prepared) (n : Next) (a : Answers)
    (x : Stamps)
    → used o t i (finish p s q n a x).0 ≡ used o t i s
unfolding finish
finish-used o t i p s q (cached r) a x = refl
finish-used o t i p s q submits a x = conclude-used o t i p s q x _
finish-used o t i p s q looks_up a x = conclude-used o t i p s q x _

claim_request-used :
    (o t i : Text) (s : MappingStore) (k : RequestKey) (operation fingerprint : Text) (now : ℕ)
    → used o t i s ≤ used o t i (claim_request s k operation fingerprint now).0
claim_request-used o t i s k operation fingerprint now =
    elim (Option-cases (row_of s k.owner_key k.target_name k.request_id)) [
      | inl e ↦
          rw (claim_request_unused s k operation fingerprint now e)
            (omega (arith, claimed-used o t i s k operation fingerprint now e))
      | inr (r, e) ↦ rw (claim_request_row s k operation fingerprint now r e) (omega arith)
    ]

times_none : (o t i : Text) → times o t i [] ≡ 0
unfolding times count_where
times_none o t i = refl

-- A creation claims its request, if it comes to that, and the claim is never taken back.
with_mode-used :
    (o t i : Text) (n : Creation) (body : Fields) (c : SessionRecord) (m : ℕ)
    (x : MappingStore × Result Exn Claim)
    → m ≤ used o t i x.0
    → m ≤ used o t i (with_mode n body c x).0
with_mode-used o t i n body c m (s, err e) h = h
with_mode-used o t i n body c m (s, ok x) h = h

claim_for-used :
    (o t i : Text) (p : Proxy) (s : MappingStore) (n : Creation) (body : Fields) (now : ℕ)
    (x : Result Exn SessionRecord)
    → used o t i s ≤ used o t i (claim_for p s n body now x).0
claim_for-used o t i p s n body now (err e) = omega arith
claim_for-used o t i p s n body now (ok c) = with_mode-used o t i n body c (used o t i s) _ (
    claim_request-used o t i s (creation_key c n) (codes "create") (p.fingerprint (offered n body))
      now)

claim_creation-used :
    (o t i : Text) (p : Proxy) (console : ConsoleStore) (s : MappingStore) (principal : Text)
    (body : Fields) (n : Creation) (answer : Result Exn Compatibility) (now : ℕ)
    → used o t i s ≤ used o t i (claim_creation p console s principal body n answer now).0
unfolding claim_creation
claim_creation-used o t i p console s principal body n answer now =
    claim_for-used o t i p s n body now _

step-used :
    (o t i : Text) (p : Proxy) (s : MappingStore) (e : Event)
    → times o t i (submitted_by p s e) + used o t i s
      ≤ used o t i (step p s e) + times o t i (created_by p s e)
unfolding submitted_by created_by step
step-used o t i p s (entered console e now) =
    omega (arith, times_none o t i, enter-used o t i p console s e now)
step-used o t i p s (finished q n a x) =
    omega (arith, times_none o t i, finish-used o t i p s q n a x)
step-used o t i p s (created console principal body n answer now) =
    omega (arith, claim_creation-used o t i p console s principal body n answer now)
step-used o t i p s (recorded v owner target request now) =
    unfold used in
    rw (record_session-requests s v owner target request now, times_none o t i) (omega arith)
step-used o t i p s (put k x r now) =
    omega (arith, times_none o t i, set_request_state-used o t i s k x r now)
step-used o t i p s (updated sid state e now) =
    unfold used in unfold update_session in rw (times_none o t i) (omega arith)

times-append :
    (o t i : Text) (a b : List RequestKey) → times o t i (a ++ b) ≡ times o t i a + times o t i b
unfolding times
times-append o t i a b = count-append (bears o t i) a b

used-le : (o t i : Text) (s : MappingStore) → used o t i s ≤ 1
unfolding used
used-le o t i s = ground arith

submissions-le :
    (o t i : Text) (p : Proxy) (s : MappingStore) (es : List Event)
    → times o t i (submissions p s es) + used o t i s ≤ 1 + times o t i (creations p s es)
unfolding submissions creations
submissions-le o t i p s [] = omega (arith, times_none o t i, used-le o t i s)
submissions-le o t i p s (e ∷ es) = omega (
  arith,
  times-append o t i (submitted_by p s e) (submissions p (step p s e) es),
  times-append o t i (created_by p s e) (creations p (step p s e) es),
  step-used o t i p s e,
  submissions-le o t i p (step p s e) es,
)

-- While the database is open: however calls of the four handlers, creations and everything else that writes
-- to the store interleave, whatever Hermes answers, and from whatever store they start, a request id of
-- an owner at a target is submitted to Hermes at most once more than `create_session` submits it, which
-- does so each time that it comes past its claim, new or not. If the id has a row at the start,
-- nothing but `create_session` submits it.
pub submissions-once :
    (owner_key target_name request_id : Text) (p : Proxy) (s : MappingStore) (es : List Event)
    → times owner_key target_name request_id (submissions p s es)
      ≤ (1 - used owner_key target_name request_id s)
        + times owner_key target_name request_id (creations p s es)
submissions-once o t i p s es = omega (arith, submissions-le o t i p s es, used-le o t i s)
