-- ===== src/Realtime/Store/Refines.antt =====
-- The tables of backend/voice_console/realtime/store.py and the ledger, call by call.
use hermes_voice_console.Prelude.{
  ℕ, ◌≤◌, ◌≡◌, refl, sym, ap, ◌∙◌, inl, inr, Bool, true, false, none, some, List, [], ◌∷◌, Text,
  text_Eq, ◌==◌, arith, first, count_where, Bool-cases, Option-cases, first_holds,
}
use hermes_voice_console.Realtime.Store.{
  RequestRow, MappingStore, RequestKey, reuses, is_request, request_response,
}
use hermes_voice_console.Realtime.Store.Claims.{
  row_of, rows_of, claim_request_unused, claim_request_row, same_scope, is_request_split,
  is_request-reuses, is_request_unused,
}
use hermes_voice_console.Realtime.Store.Changes.{
  Change, HasUniqueRequests, change-HasUniqueRequests,
}
use hermes_voice_console.Realtime.Store.Changes
use hermes_voice_console.Realtime.Store.Ledger.{
  Ledger, Call, claim, settle, look, looked, look_entry, on_ledger, on_store, run_ledger, run_store,
}
use hermes_voice_console.Realtime.Store.Views.{
  entry_of, ledger_of, Views, claim-Views, settle-Views,
}

none_of :
    (p q : RequestRow → Bool) (xs : List RequestRow)
    → ((y : RequestRow) → q y ≡ true → p y ≡ true)
    → count_where p xs ≡ 0
    → first q xs ≡ none
unfolding first count_where
none_of p q [] k u = refl
none_of p q (y ∷ ys) k u = ground (arith, k y, none_of p q ys k)

-- With one row at most, a row of another scope hides none.
only_row :
    (p q : RequestRow → Bool) (xs : List RequestRow) (x : RequestRow)
    → ((y : RequestRow) → q y ≡ true → p y ≡ true)
    → count_where p xs ≤ 1
    → first p xs ≡ some x
    → q x ≡ false
    → first q xs ≡ none
unfolding first count_where
only_row p q [] x k u h e = refl
only_row p q (y ∷ ys) x k u h e = elim (Bool-cases (p y)) [
  | inl f ↦ ground (arith, f, none_of p q ys k)
  | inr f ↦ ground (arith, f, k y, only_row p q ys x k)
]

look_response :
    (s : MappingStore) (k : RequestKey)
    → HasUniqueRequests s
    → request_response s k
      ≡ look_entry k (entry_of (row_of s k.owner_key k.target_name k.request_id))
unfolding request_response HasUniqueRequests row_of rows_of
look_response s k u =
    elim (Option-cases (first (reuses k.owner_key k.target_name k.request_id) s.requests)) [
      | inl n ↦ rw (n, is_request_unused k s.requests n) refl
      | inr (y, g) ↦ elim (Bool-cases (y.scope_id == k.scope_id)) [
        | inl e ↦ rw (g, same_scope k s.requests y g e, e) refl
        | inr e ↦
            rw
              (
                g,
                e,
                only_row (reuses k.owner_key k.target_name k.request_id) (is_request k) s.requests y
                    (is_request-reuses k) (u k.owner_key k.target_name k.request_id) g
                    (is_request_split k y
                        (first_holds (reuses k.owner_key k.target_name k.request_id) s.requests y g)
                      ∙ e),
              )
              refl
      ]
    ]

on_store-keeps :
    (c : Call) (s : MappingStore) → HasUniqueRequests s → HasUniqueRequests (on_store c s).0
unfolding on_store
on_store-keeps (claim k op fp now) s u = change-HasUniqueRequests (Changes.claimed k op fp now) u
on_store-keeps (settle k x r now) s u = change-HasUniqueRequests (Changes.put k x r now) u
on_store-keeps (look k) s u = u

-- One call answers alike on the store and on the ledger, and leaves what it says alike.
abbrev Follows : Call → MappingStore → Ledger → Type 0
Follows c s l = ((on_store c s).1 ≡ (on_ledger c l).1) × Views (on_store c s).0 (on_ledger c l).0

claim-Follows :
    (k : RequestKey) (op fp : Text) (now : ℕ) (s : MappingStore) (l : Ledger)
    → Views s l
    → Follows (claim k op fp now) s l
unfolding on_store on_ledger
claim-Follows k op fp now s l v =
    elim (Option-cases (row_of s k.owner_key k.target_name k.request_id)) [
      | inl n ↦
          rw
            (
              claim_request_unused s k op fp now n,
              sym (v k.owner_key k.target_name k.request_id),
              n,
            )
            (refl, claim-Views s l k op fp now v n)
      | inr (y, g) ↦
          rw
            (claim_request_row s k op fp now y g, sym (v k.owner_key k.target_name k.request_id), g)
            (refl, v)
    ]

on_store-Follows :
    (c : Call) (s : MappingStore) (l : Ledger) → HasUniqueRequests s → Views s l → Follows c s l
unfolding on_store on_ledger
on_store-Follows (claim k op fp now) s l u v = claim-Follows k op fp now s l v
on_store-Follows (settle k x r now) s l u v = (refl, settle-Views s l k x r now v)
on_store-Follows (look k) s l u v = (
  ap looked (look_response s k u ∙ ap (look_entry k) (v k.owner_key k.target_name k.request_id)),
  v,
)

run_Views :
    (cs : List Call) (s : MappingStore) (l : Ledger)
    → HasUniqueRequests s
    → Views s l
    → run_store cs s ≡ run_ledger cs l
unfolding run_store run_ledger
run_Views [] s l u v = refl
run_Views (c ∷ cs) s l u v =
    let (same, next) = on_store-Follows c s l u v in
    let rest = run_Views cs (on_store c s).0 (on_ledger c l).0 (on_store-keeps c s u) next in
    ap (λ a. a ∷ run_store cs (on_store c s).0) same ∙ ap (λ as'. (on_ledger c l).1 ∷ as') rest

-- The store refines the ledger. Where every request id of an owner at a target has one row at most, any
-- claims, settlements and look-ups of requests, in any order, are answered by the tables as by a
-- dictionary with an entry for each request id: the rows, their order and the clock make no
-- difference.
pub run_store-run_ledger :
    (cs : List Call) (s : MappingStore)
    → HasUniqueRequests s
    → run_store cs s ≡ run_ledger cs (ledger_of s)
run_store-run_ledger cs s u = run_Views cs s (ledger_of s) u (λ o t i. refl)
