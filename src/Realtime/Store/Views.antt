-- ===== src/Realtime/Store/Views.antt =====
-- What the rows of backend/voice_console/realtime/store.py say of each request id, behind its updates.
use hermes_voice_console.Prelude.{
  ℕ, ◌≡◌, refl, sym, ap, ◌∙◌, inl, inr, Bool, true, false, Option, none, some, List, [], ◌∷◌, ◌++◌,
  Text, text_Eq, text_eq_iff, ◌==◌, arith, if◌then◌else◌, first, Bool-cases, Option-cases,
  first-none, any-first, first_holds, first-append_some, first-update_some, any-update,
}
use hermes_voice_console.Realtime.{RequestState}
use hermes_voice_console.Realtime.Responses.Results.{Reply}
use hermes_voice_console.Realtime.Store.{
  RequestRow, MappingStore, RequestKey, reuses, is_request, new_request, set_request_state,
}
use hermes_voice_console.Realtime.Store.Claims.{row_of, is_request_split}
use hermes_voice_console.Realtime.Store.Ledger.{
  Entry, Ledger, entry_at, is_at, put_entry, claim_entry, settle_entry,
}

abbrev pub entry_of : Option RequestRow → Option Entry
entry_of none = none
entry_of (some r) = some (record {
  scope_id = r.scope_id;
  operation = r.operation;
  fingerprint = r.fingerprint;
  state = r.state;
  response = r.response;
})

-- What the rows say, with the rows forgotten.
abbrev pub ledger_of : MappingStore → Ledger
ledger_of s owner_key target_name request_id = entry_of (row_of s owner_key target_name request_id)

-- The ledger says what the rows say.
abbrev pub Views : MappingStore → Ledger → Type 0
Views s l = (o t i : Text) → entry_of (row_of s o t i) ≡ l o t i

first-append_none :
    (p : RequestRow → Bool) (xs : List RequestRow) (x : RequestRow)
    → first p xs ≡ none
    → first p (xs ++ x ∷ []) ≡ (if p x then some x else none)
unfolding first
first-append_none p [] x h = refl
first-append_none p (y ∷ ys) x h = ground (arith, first-append_none p ys x)

is_at-eq :
    (k : RequestKey) (o t i : Text)
    → is_at k o t i ≡ true
    → (k.owner_key ≡ o) × (k.target_name ≡ t) × (k.request_id ≡ i)
is_at-eq k o t i h =
    ground
      (arith, text_eq_iff k.owner_key o, text_eq_iff k.target_name t, text_eq_iff k.request_id i)

-- Where the identity is that of `k`, a function of the identity has the value that it has at `k`.
at_key :
    {A : Type 0} (g : Text → Text → Text → A) (k : RequestKey) (o t i : Text)
    → is_at k o t i ≡ true
    → g k.owner_key k.target_name k.request_id ≡ g o t i
at_key g k o t i h =
    let (a, b, c) = is_at-eq k o t i h in
    ap (λ z. g z k.target_name k.request_id) a
    ∙ ap (λ z. g o z k.request_id) b
    ∙ ap (λ z. g o t z) c

pub claim-Views :
    (s : MappingStore) (l : Ledger) (k : RequestKey) (op fp : Text) (now : ℕ)
    → Views s l
    → row_of s k.owner_key k.target_name k.request_id ≡ none
    → Views
        (record s { requests = s.requests ++ new_request k op fp now ∷ [] })
        (claim_entry l k op fp none).0
unfolding row_of reuses
claim-Views s l k op fp now v h o t i = elim (Bool-cases (is_at k o t i)) [
  | inl e ↦
      rw
        (
          first-append_none (reuses o t i) s.requests (new_request k op fp now)
              (sym (at_key (row_of s) k o t i e) ∙ h),
          e,
        )
        refl
  | inr e ↦ elim (Option-cases (first (reuses o t i) s.requests)) [
    | inl n ↦
        rw (first-append_none (reuses o t i) s.requests (new_request k op fp now) n, e)
          (ap entry_of (sym n) ∙ v o t i)
    | inr (y, g) ↦
        rw (first-append_some (reuses o t i) s.requests _ y g, e) (ap entry_of (sym g) ∙ v o t i)
  ]
]

elsewhere :
    (k : RequestKey) (o t i : Text) (y : RequestRow)
    → is_at k o t i ≡ false
    → reuses o t i y ≡ true
    → is_request k y ≡ false
unfolding reuses is_request
elsewhere k o t i y e h = ground (
  arith,
  text_eq_iff y.owner_key o,
  text_eq_iff y.owner_key k.owner_key,
  text_eq_iff k.owner_key o,
  text_eq_iff y.target_name t,
  text_eq_iff y.target_name k.target_name,
  text_eq_iff k.target_name t,
  text_eq_iff y.request_id i,
  text_eq_iff y.request_id k.request_id,
  text_eq_iff k.request_id i,
)

row_of-reuses :
    (s : MappingStore) (o t i : Text) (y : RequestRow)
    → row_of s o t i ≡ some y
    → reuses o t i y ≡ true
unfolding row_of
row_of-reuses s o t i y g = first_holds (reuses o t i) s.requests y g

same_none :
    (b : Bool) (k : RequestKey) (x : RequestState) (r : Option Reply)
    → none ≡ (if b then settle_entry k x r none else none)
same_none true k x r = refl
same_none false k x r = refl

-- The row of an identity behind an update.
updated_entry :
    (k : RequestKey) (x : RequestState) (r : Option Reply) (o t i : Text) (y : RequestRow) (now : ℕ)
    → reuses o t i y ≡ true
    → entry_of (
        some (if is_request k y then record y { state = x; response = r; updated_at = now } else y))
      ≡ (if is_at k o t i then settle_entry k x r (entry_of (some y)) else entry_of (some y))
updated_entry k x r o t i y now h = elim (Bool-cases (is_at k o t i)) [
  | inl e ↦
      rw (e, is_request_split k y (at_key (λ a b c. reuses a b c y) k o t i e ∙ h))
        (elim (Bool-cases (y.scope_id == k.scope_id)) [ inl f ↦ rw f refl | inr f ↦ rw f refl ])
  | inr e ↦ rw (e, elsewhere k o t i y e h) refl
]

-- The entry of an identity behind a settlement.
settled_entry :
    (l : Ledger) (k : RequestKey) (x : RequestState) (r : Option Reply) (o t i : Text)
    (e : Option Entry)
    → e ≡ l o t i
    → (if is_at k o t i then settle_entry k x r e else e)
      ≡ put_entry l k (settle_entry k x r (entry_at l k)) o t i
settled_entry l k x r o t i e h = elim (Bool-cases (is_at k o t i)) [
  | inl f ↦ rw f (ap (settle_entry k x r) (h ∙ sym (at_key l k o t i f)))
  | inr f ↦ rw f h
]

updated_none :
    (s : MappingStore) (k : RequestKey) (x : RequestState) (r : Option Reply) (now : ℕ)
    (o t i : Text)
    → row_of s o t i ≡ none
    → row_of (set_request_state s k x r now) o t i ≡ none
unfolding row_of set_request_state reuses
updated_none s k x r now o t i n = any-first _ _ (
    any-update (reuses o t i) (is_request k) _ s.requests (λ y e. refl)
    ∙ first-none (reuses o t i) s.requests n)

updated_row :
    (s : MappingStore) (k : RequestKey) (x : RequestState) (r : Option Reply) (now : ℕ)
    (o t i : Text) (y : RequestRow)
    → row_of s o t i ≡ some y
    → row_of (set_request_state s k x r now) o t i
      ≡ some (if is_request k y then record y { state = x; response = r; updated_at = now } else y)
unfolding row_of set_request_state reuses
updated_row s k x r now o t i y g =
    first-update_some (reuses o t i) (is_request k) _ s.requests y (λ z. refl) g

pub settle-Views :
    (s : MappingStore) (l : Ledger) (k : RequestKey) (x : RequestState) (r : Option Reply) (now : ℕ)
    → Views s l
    → Views (set_request_state s k x r now) (put_entry l k (settle_entry k x r (entry_at l k)))
settle-Views s l k x r now v o t i = elim (Option-cases (row_of s o t i)) [
  | inl n ↦ rw (updated_none s k x r now o t i n) (
      same_none (is_at k o t i) k x r
      ∙ settled_entry l k x r o t i none (ap entry_of (sym n) ∙ v o t i))
  | inr (y, g) ↦ rw (updated_row s k x r now o t i y g) (
      updated_entry k x r o t i y now (row_of-reuses s o t i y g)
      ∙ settled_entry l k x r o t i (entry_of (some y)) (ap entry_of (sym g) ∙ v o t i))
]
