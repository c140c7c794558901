-- ===== src/Realtime/Service/Refused.antt =====
-- A submission that fails with an error that is not ambiguous, and the calls that repeat it.
use hermes_voice_console.Prelude.{
  ℕ, text_eq, ◌≡◌, refl, subst, false, none, [], ◌∷◌, ◌++◌, Text, text_Eq, codes, Result, ok, err,
}
use hermes_voice_console.Realtime.{Exn, ProxyError, proxy, ambiguous_mutation, pending}
use hermes_voice_console.Realtime.Json.{Fields}
use hermes_voice_console.Realtime.Store.{MappingStore, RequestRow, new_request}
use hermes_voice_console.Realtime.Store.Claims.{
  row_of, claim_request_unused, claim_request_row, answer_same,
}
use hermes_voice_console.Realtime.Service.{
  Proxy, Prepared, submits, looks_up, begin, operation_name,
}
use hermes_voice_console.Realtime.Service.Finish.{
  finish, Answers, Stamps, conclude, submit, lookup_request, serve,
}
use hermes_voice_console.Realtime.Service.Stored.{Claimed, new_request-Claimed}
use hermes_voice_console.Realtime.Service.Again.{SameRequest}

begin_unused :
    (p : Proxy) (s : MappingStore) (q : Prepared) (now : ℕ)
    → row_of s q.key.owner_key q.key.target_name q.key.request_id ≡ none
    → begin p s (ok q) now ≡ (
      record s {
        requests =
            s.requests
            ++ new_request q.key (operation_name q.mutation) (p.fingerprint q.payload) now ∷ [];
      },
      ok (q, submits),
    )
unfolding begin
begin_unused p s q now h =
    rw (claim_request_unused s q.key (operation_name q.mutation) (p.fingerprint q.payload) now h)
      refl

begin_again :
    (p : Proxy) (s : MappingStore) (q : Prepared) (now : ℕ) (r : RequestRow)
    → Claimed s q.key (operation_name q.mutation) (p.fingerprint q.payload) r
    → r.state ≡ pending
    → begin p s (ok q) now ≡ (s, ok (q, looks_up))
unfolding begin
begin_again p s q now r claimed h =
    rw
      (
        claim_request_row s q.key (operation_name q.mutation) (p.fingerprint q.payload) now r
            claimed.0,
        answer_same q.key (operation_name q.mutation) (p.fingerprint q.payload) r claimed.1,
        h,
      )
      refl

submit_refused :
    (operation : Text) (a : Answers) (e : ProxyError)
    → a.submission ≡ err (proxy e)
    → submit operation a ≡ err (proxy e)
unfolding submit
submit_refused operation a e h = rw h refl

lookup_unknown :
    (operation : Text) (x : Result Exn Fields) (e : ProxyError)
    → x ≡ err (proxy e)
    → e.code ≡ codes "resource_not_found"
    → lookup_request operation x ≡ err (ambiguous_mutation operation)
unfolding lookup_request text_eq
lookup_unknown operation x e h c = rw (h, c) refl

-- The store that a refused submission leaves has its claim.
serve_refused-Claimed :
    (p : Proxy) (s : MappingStore) (q : Prepared) (now : ℕ) (a : Answers) (t : Stamps)
    (e : ProxyError)
    → row_of s q.key.owner_key q.key.target_name q.key.request_id ≡ none
    → a.submission ≡ err (proxy e)
    → Claimed
        (serve p a t (begin p s (ok q) now)).store
        q.key
        (operation_name q.mutation)
        (p.fingerprint q.payload)
        (new_request q.key (operation_name q.mutation) (p.fingerprint q.payload) now)
unfolding serve finish conclude
serve_refused-Claimed p s q now a t e h x =
    rw (begin_unused p s q now h, submit_refused (operation_name q.mutation) a e x)
      (new_request-Claimed s q.key _ _ now h)

-- If the first submission of an unused request id fails with an error that is not ambiguous, the call
-- raises that error, and its claim stays. When the same request is made again and Hermes answers the
-- lookup that it does not know the request, the call submits nothing, leaves the store as it was and
-- raises AmbiguousRealtimeMutation.
pub serve_refused :
    (p : Proxy) (s s' : MappingStore) (q q' : Prepared) (now now' : ℕ) (a a' : Answers)
    (t t' : Stamps) (e e' : ProxyError)
    → row_of s q.key.owner_key q.key.target_name q.key.request_id ≡ none
    → a.submission ≡ err (proxy e)
    → (serve p a t (begin p s (ok q) now)).store ≡ s'
    → SameRequest p q q'
    → a'.lookup ≡ err (proxy e')
    → e'.code ≡ codes "resource_not_found"
    → ((serve p a t (begin p s (ok q) now)).reply ≡ err (proxy e))
      × (serve p a' t' (begin p s' (ok q') now') ≡ record {
        store = s';
        submitted = false;
        reply = err (ambiguous_mutation (operation_name q'.mutation));
      })
unfolding serve finish conclude
serve_refused p s s' q q' now now' a a' t t' e e' h x g (key, operation, input) y c = (
  rw (begin_unused p s q now h, submit_refused (operation_name q.mutation) a e x) refl,
  rw
      (
        begin_again p s' q' now'
            (new_request q.key (operation_name q.mutation) (p.fingerprint q.payload) now)
            (rw (key, operation, input)
              (subst
                (λ (m : MappingStore).
                  Claimed m q.key (operation_name q.mutation) (p.fingerprint q.payload)
                    (new_request q.key (operation_name q.mutation) (p.fingerprint q.payload) now))
                g (serve_refused-Claimed p s q now a t e h x)))
            refl,
        lookup_unknown (operation_name q'.mutation) a'.lookup e' y c,
      )
      refl,
)
