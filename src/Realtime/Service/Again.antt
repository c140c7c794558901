-- ===== src/Realtime/Service/Again.antt =====
-- A call that is repeated after it was answered.
use hermes_voice_console.Prelude.{
  ℕ, ◌≡◌, refl, sym, ap, inl, inr, true, false, Option, none, some, text_Eq, Result, ok, err,
  Option-cases,
}
use hermes_voice_console.Realtime.{
  Exn, RequestState, pending, in_progress, outcome_unknown, complete,
}
use hermes_voice_console.Realtime.Responses.Results.{Reply}
use hermes_voice_console.Realtime.Store.{
  RequestRow, MappingStore, RequestKey, Claim, seen, request_response,
}
use hermes_voice_console.Realtime.Store.Claims.{
  row_of, answer, claim_request_unused, claim_request_row,
}
use hermes_voice_console.Realtime.Service.{
  Proxy, Prepared, Next, begin, decided, decide, or_look_up, operation_name,
}
use hermes_voice_console.Realtime.Service.Finish.{finish, Answers, Stamps, serve}
use hermes_voice_console.Realtime.Service.Stored.{
  new_request-Claimed, Stored, request_response-Claimed, begin-Stored, is_decided, Caches,
  finish-Stored, Begun, answer-Agrees,
}

or_look_up-Caches :
    (o : Option Reply) (r : RequestRow)
    → r.state ≡ complete
    → r.response ≡ o
    → Caches (or_look_up o) r
or_look_up-Caches none r e h = tt
or_look_up-Caches (some x) r e h = (e, h)

decide_state-Caches :
    (s : MappingStore) (k : RequestKey) (r : RequestRow) (x : RequestState)
    → r.state ≡ x
    → request_response s k ≡ r.response
    → Caches (decide s k (seen x)) r
decide_state-Caches s k r complete e h = or_look_up-Caches (request_response s k) r e (sym h)
decide_state-Caches s k r pending e h = tt
decide_state-Caches s k r in_progress e h = tt
decide_state-Caches s k r outcome_unknown e h = tt

decide-Caches :
    (s : MappingStore) (k : RequestKey) (r : RequestRow)
    → request_response s k ≡ r.response
    → Caches (decide s k (seen r.state)) r
decide-Caches s k r h = decide_state-Caches s k r r.state refl h

answered-Begun :
    (p : Proxy) (s : MappingStore) (q : Prepared) (r : RequestRow) (x : Result Exn Claim)
    → row_of s q.key.owner_key q.key.target_name q.key.request_id ≡ some r
    → answer q.key (operation_name q.mutation) (p.fingerprint q.payload) r ≡ x
    → Begun p q (decided q (s, x))
answered-Begun p s q r (err e) h g = tt
answered-Begun p s q r (ok c) h g =
    let (agrees, same) = answer-Agrees q.key _ _ r c g in
    (
      refl,
      r,
      (h, agrees),
      rw same (decide-Caches s q.key r (request_response-Claimed s q.key _ _ r (h, agrees))),
    )

begin-Begun :
    (p : Proxy) (s : MappingStore) (q : Prepared) (now : ℕ) → Begun p q (begin p s (ok q) now)
unfolding begin
begin-Begun p s q now =
    elim (Option-cases (row_of s q.key.owner_key q.key.target_name q.key.request_id)) [
      | inl e ↦
          rw
            (claim_request_unused s q.key (operation_name q.mutation) (p.fingerprint q.payload) now
              e)
            (refl, _, new_request-Claimed s q.key _ _ now e, tt)
      | inr (r, e) ↦
          rw
            (claim_request_row s q.key (operation_name q.mutation) (p.fingerprint q.payload) now r
              e)
            (answered-Begun p s q r _ e refl)
    ]

-- A handler that answers with a decided reply has stored it.
serve-Stored :
    (p : Proxy) (q : Prepared) (b : MappingStore × Result Exn (Prepared × Next)) (a : Answers)
    (t : Stamps) (reply : Reply)
    → Begun p q b
    → (serve p a t b).reply ≡ ok reply
    → is_decided reply ≡ true
    → Stored (serve p a t b).store q.key (operation_name q.mutation) (p.fingerprint q.payload) reply
unfolding serve
serve-Stored p q (s, err e) a t reply g h d = cc
serve-Stored p q (s, ok (q', n)) a t reply (same, r, claimed, caches) h d =
    rw (ap (λ (x : Prepared). x.key) (sym same)) (
      finish-Stored p s _ q' n a t _ _ r reply claimed caches (λ i. ((finish p s q' n a t).0, h i))
        d)

-- Two calls make the same request: the same key, operation and input.
abbrev pub SameRequest : Proxy → Prepared → Prepared → Type 0
SameRequest p q q' =
    (q'.key ≡ q.key)
    × (operation_name q'.mutation ≡ operation_name q.mutation)
    × (p.fingerprint q'.payload ≡ p.fingerprint q.payload)

-- If a call, after Hermes has answered it, ends with a reply that settles the request, then the same
-- request made again in the store that it leaves has the same reply, submits nothing and changes
-- nothing, whatever Hermes would answer.
pub serve-begin_again :
    (p : Proxy) (s : MappingStore) (q q' : Prepared) (now now' : ℕ) (a a' : Answers) (t t' : Stamps)
    (reply : Reply)
    → SameRequest p q q'
    → (serve p a t (begin p s (ok q) now)).reply ≡ ok reply
    → is_decided reply ≡ true
    → serve p a' t' (begin p (serve p a t (begin p s (ok q) now)).store (ok q') now') ≡ record {
      store = (serve p a t (begin p s (ok q) now)).store;
      submitted = false;
      reply = ok reply;
    }
unfolding serve
serve-begin_again p s q q' now now' a a' t t' reply (key, operation, input) h d =
    rw
      (begin-Stored p (serve p a t (begin p s (ok q) now)).store q' now' reply (
        rw (key, operation, input)
          (serve-Stored p q (begin p s (ok q) now) a t reply (begin-Begun p s q now) h d)))
      (unfold finish in refl)
