-- ===== src/Realtime/Service/Creation/Modes.antt =====
-- The turn mode of a creation, which is looked at behind the claim.
use hermes_voice_console.Prelude.{
  ℕ, ◌≡◌, ◌≢◌, refl, ap, sym, ◌∙◌, subst, true, false, none, some, [], ◌∷◌, ◌++◌, Text, text_Eq,
  text_eq_iff, arith, codes, Result, ok, err, text_eq_refl,
}
use hermes_voice_console.RunStore
use hermes_voice_console.Realtime.{Exn, proxy_error}
use hermes_voice_console.Realtime.Json.{Fields, get, text, one_of}
use hermes_voice_console.Realtime.Store.{
  MappingStore, RequestRow, RequestKey, new_request, other_input,
}
use hermes_voice_console.Realtime.Store.Claims.{
  row_of, answer, claim_request_unused, claim_request_row,
}
use hermes_voice_console.Realtime.Service.{Proxy}
use hermes_voice_console.Realtime.Service.Stored.{new_request-Claimed}
use hermes_voice_console.Realtime.Service.Creation.{
  Creation, conversation_of, turn_mode_of, creation_key, offered, with_mode, claim_for,
  claim_creation,
}

-- `claim_creation` for a compatible target and a conversation of the caller.
claim_creation_compatible :
    (p : Proxy) (console : RunStore.ConsoleStore) (s : MappingStore) (principal : Text)
    (body : Fields) (n : Creation) (reasons : Text) (now : ℕ) (c : RunStore.SessionRecord)
    → conversation_of p console principal n ≡ ok c
    → claim_creation p console s principal body n
        (ok (record { compatible = true; reasons = reasons }))
        now
      ≡ claim_for p s n body now (ok c)
unfolding claim_creation
claim_creation_compatible p console s principal body n reasons now c h = rw h refl

mode_refused :
    (m : Text)
    → one_of (codes "server_vad" ∷ codes "manual" ∷ []) m ≡ false
    → turn_mode_of (text m)
      ≡ err (proxy_error "invalid_turn_mode" (codes "Unsupported turn mode") 400)
unfolding turn_mode_of
mode_refused m h = rw h refl

other_payload :
    (k : RequestKey) (f g : Text) (now : ℕ)
    → f ≢ g
    → answer k (codes "create") g (new_request k (codes "create") f now) ≡ err other_input
other_payload k f g now n =
    rw (text_eq_refl k.scope_id, text_eq_refl (codes "create")) (ground (arith, text_eq_iff f g))

-- The row of the claim.
abbrev claimed_row : Proxy → RunStore.SessionRecord → Creation → Fields → ℕ → RequestRow
claimed_row p c n body now =
    new_request (creation_key c n) (codes "create") (p.fingerprint (offered n body)) now

claim_creation_refused :
    (p : Proxy) (console : RunStore.ConsoleStore) (s : MappingStore) (principal : Text)
    (body : Fields) (n : Creation) (reasons m : Text) (now : ℕ) (c : RunStore.SessionRecord)
    → conversation_of p console principal n ≡ ok c
    → row_of s c.owner_key n.target.name n.request_id ≡ none
    → get body (codes "turn_mode") ≡ text m
    → one_of (codes "server_vad" ∷ codes "manual" ∷ []) m ≡ false
    → claim_creation p console s principal body n
        (ok (record { compatible = true; reasons = reasons }))
        now
      ≡ (
        record s { requests = s.requests ++ claimed_row p c n body now ∷ [] },
        err (proxy_error "invalid_turn_mode" (codes "Unsupported turn mode") 400),
      )
claim_creation_refused p console s principal body n reasons m now c own h mode bad =
    claim_creation_compatible p console s principal body n reasons now c own
    ∙ ap (with_mode n body c) (
        claim_request_unused s (creation_key c n) (codes "create") (p.fingerprint (offered n body))
          now h)
    ∙ rw (mode, mode_refused m bad) refl

claim_creation_other :
    (p : Proxy) (console : RunStore.ConsoleStore) (s : MappingStore) (principal : Text)
    (body body' : Fields) (n : Creation) (reasons : Text) (now now' : ℕ)
    (c : RunStore.SessionRecord)
    → conversation_of p console principal n ≡ ok c
    → row_of s c.owner_key n.target.name n.request_id ≡ some (claimed_row p c n body now)
    → p.fingerprint (offered n body) ≢ p.fingerprint (offered n body')
    → claim_creation p console s principal body' n
        (ok (record { compatible = true; reasons = reasons }))
        now'
      ≡ (s, err other_input)
claim_creation_other p console s principal body body' n reasons now now' c own h differ =
    claim_creation_compatible p console s principal body' n reasons now' c own
    ∙ ap (with_mode n body' c) (
        claim_request_row s (creation_key c n) (codes "create") (p.fingerprint (offered n body'))
          now' (claimed_row p c n body now) h)
    ∙ rw
        (other_payload (creation_key c n) (p.fingerprint (offered n body))
          (p.fingerprint (offered n body')) now differ)
        refl

-- A creation with an unused request id, for a compatible target and a conversation of the caller, whose
-- turn mode is a text that is not supported, is refused; but its request id is claimed. The creation
-- with the same request id and another payload, which has the turn mode corrected, is refused too, as
-- a conflict.
pub claim_creation-unsupported :
    (p : Proxy) (console : RunStore.ConsoleStore) (s s' : MappingStore) (principal : Text)
    (body body' : Fields) (n : Creation) (reasons m : Text) (now now' : ℕ)
    (c : RunStore.SessionRecord)
    → conversation_of p console principal n ≡ ok c
    → row_of s c.owner_key n.target.name n.request_id ≡ none
    → get body (codes "turn_mode") ≡ text m
    → one_of (codes "server_vad" ∷ codes "manual" ∷ []) m ≡ false
    → p.fingerprint (offered n body) ≢ p.fingerprint (offered n body')
    → (claim_creation p console s principal body n
        (ok (record { compatible = true; reasons = reasons }))
        now).0
      ≡ s'
    → ((claim_creation p console s principal body n
          (ok (record { compatible = true; reasons = reasons }))
          now).1
        ≡ err (proxy_error "invalid_turn_mode" (codes "Unsupported turn mode") 400))
      × (claim_creation p console s' principal body' n
            (ok (record { compatible = true; reasons = reasons }))
            now'
          ≡ (s', err other_input))
claim_creation-unsupported p console s s' principal body body' n reasons m now now' c own h mode bad
      differ g =
    let refusal =
      claim_creation_refused p console s principal body n reasons m now c own h mode bad in
    let same =
      sym (ap (λ (x : MappingStore × Result Exn RunStore.SessionRecord). x.0) refusal) ∙ g in
    (
      ap (λ (x : MappingStore × Result Exn RunStore.SessionRecord). x.1) refusal,
      claim_creation_other p console s' principal body body' n reasons now now' c own
          (subst
            (λ (x : MappingStore).
              row_of x c.owner_key n.target.name n.request_id ≡ some (claimed_row p c n body now))
            same
            (new_request-Claimed s (creation_key c n) (codes "create")
              (p.fingerprint (offered n body)) now h).0)
          differ,
    )
