-- ===== src/Realtime/Service/Permits.antt =====
-- The handlers act on sessions of the caller.
use hermes_voice_console.Prelude.{
  ℕ, ◌≡◌, refl, subst, Text, text_Eq, codes, Result, ok, err, guard, bind_ok,
}
use hermes_voice_console.RunStore.{ConsoleStore}
use hermes_voice_console.Realtime.{Exn}
use hermes_voice_console.Realtime.Json.{get}
use hermes_voice_console.Realtime.Contracts.{
  validate_identifier, require_identifier, validate_generation, require_nonempty_string,
}
use hermes_voice_console.Realtime.Store.{MappingStore, SessionRow, Claim}
use hermes_voice_console.Realtime.Service.{
  Proxy, Target, Prepared, Next, begin, decided, owned_row, owned_mapping, client,
}
use hermes_voice_console.Realtime.Service.Actions.{
  Call, Action, Control, action_fields, control_fields, is_choice, prepare_action, prepare_control,
  prepare_approval, prepare_delete, begin_delete, with_client,
}
use hermes_voice_console.Realtime.Service.Events.{Entry, acts, controls, approves, deletes, enter}
use hermes_voice_console.Realtime.Service.Owned.{call_of, IsOwnedBy, owned_row_ok, OwnsRow}

owned_mapping_ok :
    (p : Proxy) (console : ConsoleStore) (s : MappingStore) (c : Call) (m : SessionRow)
    → owned_mapping p console s c.session_id c.target_name c.principal ≡ ok m
    → (t : Target) × IsOwnedBy p console c t m
unfolding owned_mapping
owned_mapping_ok p console s c m h =
    let ((t, m'), found, h1) =
      bind_ok (owned_row p console s c.session_id c.target_name c.principal) _ _ h in
    let (_, _, h2) = bind_ok (client t) _ _ h1 in
    subst (λ (x : Result Exn SessionRow). OwnsRow p console c x) h2
      (t, owned_row_ok p console s c t m' found)

-- A prepared mutation is of a session of the caller, whose owner key its request has.
abbrev pub Permits : Proxy → ConsoleStore → Call → Prepared → Type 0
Permits p console c q =
    (t : Target) × IsOwnedBy p console c t q.mapping
    × (q.key.owner_key ≡ q.mapping.owner_key)
    × (q.key.target_name ≡ c.target_name)
    × (q.session_id ≡ c.session_id)

abbrev Permitted : Proxy → ConsoleStore → Call → Result Exn Prepared → Type 0
Permitted p console c (err e) = Unit {0}
Permitted p console c (ok q) = Permits p console c q

prepare_action-Permits :
    (p : Proxy) (console : ConsoleStore) (s : MappingStore) (action : Action) (c : Call)
    (q : Prepared)
    → prepare_action p console s action c ≡ ok q
    → Permits p console c q
unfolding prepare_action
prepare_action-Permits p console s action c q h =
    let (m, of_caller, h1) =
      bind_ok (owned_mapping p console s c.session_id c.target_name c.principal) _ _ h in
    let (_, _, h2) = bind_ok (require_identifier c.body (codes "client_request_id")) _ _ h1 in
    let (_, _, h3) =
      bind_ok (validate_generation (get c.body (codes "session_generation"))) _ _ h2 in
    let (_, _, h4) = bind_ok (action_fields action c.body) _ _ h3 in
    subst (λ (x : Result Exn Prepared). Permitted p console c x) h4
      (
        (owned_mapping_ok p console s c m of_caller).0,
        (owned_mapping_ok p console s c m of_caller).1,
        refl,
        refl,
        refl,
      )

prepare_control-Permits :
    (p : Proxy) (console : ConsoleStore) (s : MappingStore) (control : Control) (c : Call)
    (q : Prepared)
    → prepare_control p console s control c ≡ ok q
    → Permits p console c q
unfolding prepare_control
prepare_control-Permits p console s control c q h =
    let (m, of_caller, h1) =
      bind_ok (owned_mapping p console s c.session_id c.target_name c.principal) _ _ h in
    let (_, _, h2) = bind_ok (require_identifier c.body (codes "client_request_id")) _ _ h1 in
    let (_, _, h3) =
      bind_ok (validate_generation (get c.body (codes "session_generation"))) _ _ h2 in
    let (_, _, h4) = bind_ok (control_fields control c.body) _ _ h3 in
    subst (λ (x : Result Exn Prepared). Permitted p console c x) h4
      (
        (owned_mapping_ok p console s c m of_caller).0,
        (owned_mapping_ok p console s c m of_caller).1,
        refl,
        refl,
        refl,
      )

prepare_approval-Permits :
    (p : Proxy) (console : ConsoleStore) (s : MappingStore) (approval_id : Text) (c : Call)
    (q : Prepared)
    → prepare_approval p console s approval_id c ≡ ok q
    → Permits p console c q
unfolding prepare_approval
prepare_approval-Permits p console s approval_id c q h =
    let (_, _, h0) = bind_ok (validate_identifier approval_id (codes "approval_id")) _ _ h in
    let (m, of_caller, h1) =
      bind_ok (owned_mapping p console s c.session_id c.target_name c.principal) _ _ h0 in
    let (_, _, h2) = bind_ok (require_identifier c.body (codes "client_request_id")) _ _ h1 in
    let (choice, _, h3) = bind_ok (require_nonempty_string c.body (codes "choice") 32) _ _ h2 in
    let (_, _, h4) = bind_ok (guard (is_choice choice) _) _ _ h3 in
    let (_, _, h5) =
      bind_ok (validate_generation (get c.body (codes "session_generation"))) _ _ h4 in
    subst (λ (x : Result Exn Prepared). Permitted p console c x) h5
      (
        (owned_mapping_ok p console s c m of_caller).0,
        (owned_mapping_ok p console s c m of_caller).1,
        refl,
        refl,
        refl,
      )

abbrev PermittedDeletion : Proxy → ConsoleStore → Call → Result Exn (Target × Prepared) → Type 0
PermittedDeletion p console c (err e) = Unit {0}
PermittedDeletion p console c (ok (t, q)) = Permits p console c q

prepare_delete-Permits :
    (p : Proxy) (console : ConsoleStore) (s : MappingStore) (c : Call) (t : Target) (q : Prepared)
    → prepare_delete p console s c ≡ ok (t, q)
    → Permits p console c q
unfolding prepare_delete
prepare_delete-Permits p console s c t q h =
    let ((t', m), of_caller, h1) =
      bind_ok (owned_row p console s c.session_id c.target_name c.principal) _ _ h in
    let (_, _, h2) = bind_ok (require_identifier c.body (codes "client_request_id")) _ _ h1 in
    subst (λ (x : Result Exn (Target × Prepared)). PermittedDeletion p console c x) h2
      (t', owned_row_ok p console s c t' m of_caller, refl, refl, refl)

-- What `begin` returns is of the call that was prepared.
abbrev Entered : Proxy → ConsoleStore → Call → MappingStore × Result Exn (Prepared × Next) → Type 0
Entered p console c (s, err e) = Unit {0}
Entered p console c (s, ok (q, n)) = Permits p console c q

decided-Entered :
    (p : Proxy) (console : ConsoleStore) (c : Call) (q : Prepared)
    (x : MappingStore × Result Exn Claim)
    → Permits p console c q
    → Entered p console c (decided q x)
decided-Entered p console c q (s, err e) h = tt
decided-Entered p console c q (s, ok x) h = h

begin-Entered :
    (p : Proxy) (console : ConsoleStore) (c : Call) (s : MappingStore) (x : Result Exn Prepared)
    (now : ℕ)
    → ((q : Prepared) → x ≡ ok q → Permits p console c q)
    → Entered p console c (begin p s x now)
unfolding begin
begin-Entered p console c s (err e) now h = tt
begin-Entered p console c s (ok q) now h = decided-Entered p console c q _ (h q refl)

with_client-Entered :
    (p : Proxy) (console : ConsoleStore) (c : Call) (made : Result Exn (Unit {0}))
    (b : MappingStore × Result Exn (Prepared × Next))
    → Entered p console c b
    → Entered p console c (with_client made b)
with_client-Entered p console c made (s, err e) h = tt
with_client-Entered p console c (ok u) (s, ok x) h = h
with_client-Entered p console c (err e) (s, ok x) h = tt

begin_delete-Entered :
    (p : Proxy) (console : ConsoleStore) (c : Call) (s : MappingStore)
    (x : Result Exn (Target × Prepared)) (now : ℕ)
    → ((t : Target) (q : Prepared) → x ≡ ok (t, q) → Permits p console c q)
    → Entered p console c (begin_delete p s x now)
unfolding begin_delete
begin_delete-Entered p console c s (err e) now h = tt
begin_delete-Entered p console c s (ok (t, q)) now h =
    with_client-Entered p console c (client t) (begin p s (ok q) now) (
      begin-Entered p console c s (ok q) now (λ q' e. subst (Permitted p console c) e (h t q refl)))

enter-Entered :
    (p : Proxy) (console : ConsoleStore) (s : MappingStore) (e : Entry) (now : ℕ)
    → Entered p console (call_of e) (enter p console s e now)
unfolding enter
enter-Entered p console s (acts action c) now =
    begin-Entered p console c s _ now (prepare_action-Permits p console s action c)
enter-Entered p console s (controls control c) now =
    begin-Entered p console c s _ now (prepare_control-Permits p console s control c)
enter-Entered p console s (approves approval_id c) now =
    begin-Entered p console c s _ now (prepare_approval-Permits p console s approval_id c)
enter-Entered p console s (deletes c) now =
    begin_delete-Entered p console c s _ now (prepare_delete-Permits p console s c)

-- Where one of the four handlers goes past its claim, so that it submits, looks up or answers from the
-- store, the row it acts on is of the session and the target that the call names, the caller owns it
-- and its conversation, and the request is claimed with that owner's key.
pub enter-Permits :
    (p : Proxy) (console : ConsoleStore) (s s' : MappingStore) (e : Entry) (now : ℕ) (q : Prepared)
    (n : Next)
    → enter p console s e now ≡ (s', ok (q, n))
    → Permits p console (call_of e) q
enter-Permits p console s s' e now q n h =
    subst (λ x. Entered p console (call_of e) x) h (enter-Entered p console s e now)
