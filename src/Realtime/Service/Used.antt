-- ===== src/Realtime/Service/Used.antt =====
-- A handler submits a request only if its id had no row, and then the id has one.
use hermes_voice_console.Prelude.{
  ℕ, ◌+◌, ◌≤◌, ◌≡◌, refl, sym, inl, inr, Bool, true, false, ◌&&◌, none, some, List, [], ◌∷◌, ◌++◌,
  Text, text_Eq, text_eq_iff, ◌==◌, arith, Result, ok, err, if◌then◌else◌, any, count_where,
  Option-cases, first-none, any-append,
}
use hermes_voice_console.RunStore.{ConsoleStore}
use hermes_voice_console.Realtime.{
  Exn, RequestState, pending, in_progress, outcome_unknown, complete,
}
use hermes_voice_console.Realtime.Store.{
  RequestRow, MappingStore, RequestKey, reuses, seen, claim_request, new_request, request_response,
}
use hermes_voice_console.Realtime.Store.Claims.{
  row_of, answer, claim_request_unused, claim_request_row,
}
use hermes_voice_console.Realtime.Service.{
  Proxy, Target, Prepared, Next, begin, decided, decide, or_look_up, operation_name, client,
}
use hermes_voice_console.Realtime.Service.Actions.{begin_delete, with_client}
use hermes_voice_console.Realtime.Service.Events.{
  Entry, acts, controls, approves, deletes, enter, submission,
}

module _ (owner_key target_name request_id : Text) where
  -- The request id, of that owner at that target.
  unfoldable pub bears : RequestKey → Bool
  bears k = k.owner_key == owner_key && k.target_name == target_name && k.request_id == request_id

  -- 1 if the request id has a row.
  unfoldable pub used : MappingStore → ℕ
  used s = if any (reuses owner_key target_name request_id) s.requests then 1 else 0

  -- The number of submissions of the request id.
  unfoldable pub times : List RequestKey → ℕ
  times ks = count_where bears ks

reuses-new_request :
    (o t i : Text) (k : RequestKey) (operation fingerprint : Text) (now : ℕ)
    → reuses o t i (new_request k operation fingerprint now) ≡ bears o t i k
unfolding reuses bears
reuses-new_request o t i k operation fingerprint now = refl

bears-any :
    (o t i : Text) (k : RequestKey) (rs : List RequestRow)
    → bears o t i k ≡ true
    → any (reuses k.owner_key k.target_name k.request_id) rs ≡ false
    → any (reuses o t i) rs ≡ false
unfolding bears
bears-any o t i k rs h a =
    rw
      (
        sym ((text_eq_iff k.owner_key o).0 (ground arith)),
        sym ((text_eq_iff k.target_name t).0 (ground arith)),
        sym ((text_eq_iff k.request_id i).0 (ground arith)),
      )
      a

-- A new claim takes up a request id that had no row.
pub claimed-used :
    (o t i : Text) (s : MappingStore) (k : RequestKey) (operation fingerprint : Text) (now : ℕ)
    → row_of s k.owner_key k.target_name k.request_id ≡ none
    → times o t i (k ∷ []) + used o t i s
      ≤ used o t i
          (record s { requests = s.requests ++ new_request k operation fingerprint now ∷ [] })
unfolding times used count_where row_of any
claimed-used o t i s k operation fingerprint now h = ground (
  arith,
  bears-any o t i k s.requests,
  reuses-new_request o t i k operation fingerprint now,
  first-none (reuses k.owner_key k.target_name k.request_id) s.requests h,
  any-append (reuses o t i) s.requests (new_request k operation fingerprint now ∷ []),
)

decide_unsubmitted :
    (s u : MappingStore) (q : Prepared) (x : RequestState)
    → submission (s, ok (q, decide u q.key (seen x))) ≡ []
decide_unsubmitted s u q complete =
    elim (request_response u q.key) as (λ x. submission (s, ok (q, or_look_up x)) ≡ []) [
      | none ↦ refl
      | some r ↦ refl
    ]
decide_unsubmitted s u q pending = refl
decide_unsubmitted s u q in_progress = refl
decide_unsubmitted s u q outcome_unknown = refl

pub answer_unsubmitted :
    (s : MappingStore) (q : Prepared) (operation fingerprint : Text) (r : RequestRow)
    → (submission (decided q (s, answer q.key operation fingerprint r)) ≡ [])
      × ((decided q (s, answer q.key operation fingerprint r)).0 ≡ s)
answer_unsubmitted s q operation fingerprint r = ground (arith, decide_unsubmitted s s q r.state)

decided-used :
    (o t i : Text) (s : MappingStore) (q : Prepared) (operation fingerprint : Text) (now : ℕ)
    → times o t i (submission (decided q (claim_request s q.key operation fingerprint now)))
        + used o t i s
      ≤ used o t i (decided q (claim_request s q.key operation fingerprint now)).0
decided-used o t i s q operation fingerprint now =
    elim (Option-cases (row_of s q.key.owner_key q.key.target_name q.key.request_id)) [
      | inl e ↦
          rw (claim_request_unused s q.key operation fingerprint now e)
            (claimed-used o t i s q.key operation fingerprint now e)
      | inr (r, e) ↦
          let (none_sent, same) = answer_unsubmitted s q operation fingerprint r in
          rw (claim_request_row s q.key operation fingerprint now r e, none_sent, same)
            (unfold times in unfold count_where in omega arith)
    ]

begin-used :
    (o t i : Text) (p : Proxy) (s : MappingStore) (x : Result Exn Prepared) (now : ℕ)
    → times o t i (submission (begin p s x now)) + used o t i s ≤ used o t i (begin p s x now).0
unfolding begin
begin-used o t i p s (err e) now = unfold times in unfold count_where in omega arith
begin-used o t i p s (ok q) now =
    decided-used o t i s q (operation_name q.mutation) (p.fingerprint q.payload) now

-- A deletion whose client fails submits nothing.
with_client-used :
    (o t i : Text) (n : ℕ) (made : Result Exn (Unit {0}))
    (b : MappingStore × Result Exn (Prepared × Next))
    → times o t i (submission b) + n ≤ used o t i b.0
    → times o t i (submission (with_client made b)) + n ≤ used o t i (with_client made b).0
unfolding times count_where
with_client-used o t i n made (s, err e) h = h
with_client-used o t i n (ok _) (s, ok x) h = h
with_client-used o t i n (err e) (s, ok x) h = omega (arith, h)

begin_delete-used :
    (o t i : Text) (p : Proxy) (s : MappingStore) (x : Result Exn (Target × Prepared)) (now : ℕ)
    → times o t i (submission (begin_delete p s x now)) + used o t i s
      ≤ used o t i (begin_delete p s x now).0
unfolding begin_delete
begin_delete-used o t i p s (err e) now = unfold times in unfold count_where in omega arith
begin_delete-used o t i p s (ok (g, q)) now =
    with_client-used o t i (used o t i s) (client g) (begin p s (ok q) now)
      (begin-used o t i p s (ok q) now)

pub enter-used :
    (o t i : Text) (p : Proxy) (console : ConsoleStore) (s : MappingStore) (e : Entry) (now : ℕ)
    → times o t i (submission (enter p console s e now)) + used o t i s
      ≤ used o t i (enter p console s e now).0
unfolding enter
enter-used o t i p console s (acts action c) now = begin-used o t i p s _ now
enter-used o t i p console s (controls control c) now = begin-used o t i p s _ now
enter-used o t i p console s (approves approval_id c) now = begin-used o t i p s _ now
enter-used o t i p console s (deletes c) now = begin_delete-used o t i p s _ now
