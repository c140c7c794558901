-- ===== src/Realtime/Store/Claims.antt =====
-- The claims of `claim_request`: when a claim is new, when it conflicts, and that a request id has one row.
use hermes_voice_console.Prelude.{
  ℕ, ◌≤◌, ◌≡◌, refl, sym, ap, ◌∙◌, ◌⊎◌, inl, inr, true, not, ◌||◌, Option, none, some, List, [],
  ◌∷◌, ◌++◌, Text, text_Eq, text_eq_iff, ◌==◌, arith, Result, ok, err, if◌then◌else◌, first,
  count_where, Bool-cases, first-none, count-append, count-any,
}
use hermes_voice_console.Realtime.{Exn}
use hermes_voice_console.Realtime.Store.{
  RequestRow, MappingStore, RequestKey, reuses, is_request, Claim, fresh, seen, new_request,
  other_resource, other_input, claim_request,
}

-- The row that a request id of an owner at a target has.
unfoldable pub row_of : MappingStore → Text → Text → Text → Option RequestRow
row_of s owner_key target_name request_id =
    first (reuses owner_key target_name request_id) s.requests

-- A claim agrees with the row that has its request id.
abbrev pub Agrees : RequestKey → Text → Text → RequestRow → Type 0
Agrees k operation fingerprint r =
    (r.scope_id ≡ k.scope_id) × (r.operation ≡ operation) × (r.fingerprint ≡ fingerprint)

pub is_request_split :
    (k : RequestKey) (r : RequestRow)
    → reuses k.owner_key k.target_name k.request_id r ≡ true
    → is_request k r ≡ (r.scope_id == k.scope_id)
unfolding reuses is_request
is_request_split k r h = ground arith

pub is_request-reuses :
    (k : RequestKey) (r : RequestRow)
    → is_request k r ≡ true
    → reuses k.owner_key k.target_name k.request_id r ≡ true
unfolding reuses is_request
is_request-reuses k r h = ground arith

-- A row of the same scope is the row of the query for the request.
pub same_scope :
    (k : RequestKey) (rs : List RequestRow) (r : RequestRow)
    → first (reuses k.owner_key k.target_name k.request_id) rs ≡ some r
    → (r.scope_id == k.scope_id) ≡ true
    → first (is_request k) rs ≡ some r
unfolding first
same_scope k [] r h e = cc
same_scope k (x ∷ rs) r h e =
    ground (arith, is_request_split k x, is_request-reuses k x, same_scope k rs r)

pub is_request_unused :
    (k : RequestKey) (rs : List RequestRow)
    → first (reuses k.owner_key k.target_name k.request_id) rs ≡ none
    → first (is_request k) rs ≡ none
unfolding first
is_request_unused k [] h = refl
is_request_unused k (x ∷ rs) h = ground (arith, is_request-reuses k x, is_request_unused k rs)

-- An unused request id is claimed: a pending row of it is the new last row.
pub claim_request_unused :
    (s : MappingStore) (k : RequestKey) (operation fingerprint : Text) (now : ℕ)
    → row_of s k.owner_key k.target_name k.request_id ≡ none
    → claim_request s k operation fingerprint now ≡ (
      record s { requests = s.requests ++ new_request k operation fingerprint now ∷ [] },
      ok fresh,
    )
unfolding claim_request row_of
claim_request_unused s k operation fingerprint now h = rw (h, is_request_unused k s.requests h) refl

-- The answer to a claim of a request id that has the row `r`.
abbrev pub answer : RequestKey → Text → Text → RequestRow → Result Exn Claim
answer k operation fingerprint r =
    if not (r.scope_id == k.scope_id)
    then err other_resource
    else if not (r.operation == operation) || not (r.fingerprint == fingerprint)
    then err other_input
    else ok (seen r.state)

pub claim_request_row :
    (s : MappingStore) (k : RequestKey) (operation fingerprint : Text) (now : ℕ) (r : RequestRow)
    → row_of s k.owner_key k.target_name k.request_id ≡ some r
    → claim_request s k operation fingerprint now ≡ (s, answer k operation fingerprint r)
unfolding claim_request row_of
claim_request_row s k operation fingerprint now r h = elim (Bool-cases (r.scope_id == k.scope_id)) [
  | inl e ↦ rw (h, e, same_scope k s.requests r h e) refl
  | inr e ↦ rw (h, e) refl
]

-- A claim is refused.
abbrev pub Conflicts : Result Exn Claim → Type 0
Conflicts x = (x ≡ err other_resource) ⊎ (x ≡ err other_input)

pub answer_same :
    (k : RequestKey) (operation fingerprint : Text) (r : RequestRow)
    → Agrees k operation fingerprint r
    → answer k operation fingerprint r ≡ ok (seen r.state)
answer_same k operation fingerprint r (a, b, c) = ground (
  arith,
  text_eq_iff r.scope_id k.scope_id,
  text_eq_iff r.operation operation,
  text_eq_iff r.fingerprint fingerprint,
)

answer-Conflicts :
    (k : RequestKey) (operation fingerprint : Text) (r : RequestRow)
    → ¬ Agrees k operation fingerprint r
    → Conflicts (answer k operation fingerprint r)
answer-Conflicts k operation fingerprint r n = ground (
  arith,
  n,
  text_eq_iff r.scope_id k.scope_id,
  text_eq_iff r.operation operation,
  text_eq_iff r.fingerprint fingerprint,
)

-- A claim of a request id that has a row does not change the store. It returns the state of the row if
-- the row is of the same scope, operation and input, and it is a conflict otherwise.
pub claim_request_used :
    (s : MappingStore) (k : RequestKey) (operation fingerprint : Text) (now : ℕ) (r : RequestRow)
    → row_of s k.owner_key k.target_name k.request_id ≡ some r
    → ((claim_request s k operation fingerprint now).0 ≡ s)
      × (Agrees k operation fingerprint r
          → (claim_request s k operation fingerprint now).1 ≡ ok (seen r.state))
      × (¬ Agrees k operation fingerprint r
          → Conflicts (claim_request s k operation fingerprint now).1)
claim_request_used s k operation fingerprint now r h =
    rw (claim_request_row s k operation fingerprint now r h)
      (refl, answer_same k operation fingerprint r, answer-Conflicts k operation fingerprint r)

-- The number of rows of a request id of an owner at a target.
unfoldable pub rows_of : Text → Text → Text → MappingStore → ℕ
rows_of owner_key target_name request_id s =
    count_where (reuses owner_key target_name request_id) s.requests

reuses_same :
    (o t i : Text) (k : RequestKey) (operation fingerprint : Text) (now : ℕ)
    → reuses o t i (new_request k operation fingerprint now) ≡ true
    → first (reuses k.owner_key k.target_name k.request_id) ≡ first (reuses o t i)
unfolding reuses
reuses_same o t i k operation fingerprint now h =
    rw
      (
        (text_eq_iff k.owner_key o).0 (ground arith),
        (text_eq_iff k.target_name t).0 (ground arith),
        (text_eq_iff k.request_id i).0 (ground arith),
      )
      refl

pub count_claim :
    (o t i : Text) (s : MappingStore) (k : RequestKey) (operation fingerprint : Text) (now : ℕ)
    → row_of s k.owner_key k.target_name k.request_id ≡ none
    → rows_of o t i s ≤ 1
    → count_where (reuses o t i) (s.requests ++ new_request k operation fingerprint now ∷ []) ≤ 1
unfolding rows_of count_where row_of
count_claim o t i s k operation fingerprint now h le =
    elim (Bool-cases (reuses o t i (new_request k operation fingerprint now))) [
      | inl e ↦
          let none_of =
            first-none (reuses o t i) s.requests (
              sym (ap (λ f. f s.requests) (reuses_same o t i k operation fingerprint now e)) ∙ h) in
          ground (
            arith,
            count-append (reuses o t i) s.requests (new_request k operation fingerprint now ∷ []),
            count-any (reuses o t i) s.requests none_of,
          )
      | inr e ↦ ground (
        arith,
        count-append (reuses o t i) s.requests (new_request k operation fingerprint now ∷ []),
      )
    ]
