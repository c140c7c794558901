-- ===== src/RunStore/Ownership.antt =====
-- Acknowledgements: whose runs they end, and which.
use hermes_voice_console.Prelude.{
  ◌≡◌, ◌≢◌, refl, ap, sym, ◌∙◌, true, Option, none, some, [], arith, Text, text_Eq, text_eq_iff,
  ◌==◌, Result, ok, err, first, first_holds, first-update_other, Bool-cases, inl, inr,
}
use hermes_voice_console.RunStore.{
  RunRecord, ConsoleStore, StoreError, failed, acceptance_unknown, unrecoverable,
  is_acceptance_unknown, is_unrecoverable,
}
use hermes_voice_console.RunStore.Sessions.{or_key_error}
use hermes_voice_console.RunStore.Runs.{
  is_run, require_run, update_run, Stamp, Change, apply_change, acknowledge_unknown,
  acknowledge_unknown_run, acknowledge_unrecoverable, acknowledge_lost_run,
}
use hermes_voice_console.RunStore.Updates.{row_of, update_run_ok}

or_key_error_ok : (o : Option RunRecord) (r : RunRecord) → or_key_error o ≡ ok r → o ≡ some r
or_key_error_ok none r h = cc
or_key_error_ok (some x) r h = cc

require_run-first :
    (s : ConsoleStore) (k i o : Option Text) (r : RunRecord)
    → require_run s k i o ≡ ok r
    → first (is_run k i o) s.runs ≡ some r
unfolding require_run
require_run-first s k i o r h = ground (arith, or_key_error_ok (first (is_run k i o) s.runs) r)

is_run-owner :
    (k i : Option Text) (owner : Text) (r : RunRecord)
    → owner ≢ []
    → is_run k i (some owner) r ≡ true
    → r.owner_key ≡ owner
unfolding is_run
is_run-owner k i owner r n h = ground (arith, text_eq_iff owner [], text_eq_iff r.owner_key owner)

-- Whichever ids are given: a run that is required for an owner, by a key that is not empty, is that
-- owner's.
pub require_run-owner :
    (s : ConsoleStore) (k i : Option Text) (owner : Text) (r : RunRecord)
    → owner ≢ []
    → require_run s k i (some owner) ≡ ok r
    → r.owner_key ≡ owner
require_run-owner s k i owner r n h =
    is_run-owner k i owner r n
      (first_holds (is_run k i (some owner)) s.runs r (require_run-first s k i (some owner) r h))

-- An update leaves the row of every other local turn id as it was.
pub update_run-other :
    (s : ConsoleStore) (k j : Text) (c : Change) (t : Stamp)
    → j ≢ k
    → row_of (update_run s k c t).0 j ≡ row_of s j
unfolding update_run row_of apply_change
update_run-other s k j c t n =
    let kept =
      first-update_other (λ (r : RunRecord). r.local_turn_id == j) (λ r. r.local_turn_id == k)
        (apply_change c t) s.runs
        (λ r e. ground (arith, text_eq_iff r.local_turn_id k, text_eq_iff r.local_turn_id j))
        (λ r e. ground (arith, text_eq_iff r.local_turn_id k, text_eq_iff r.local_turn_id j)) in
    ground (arith, kept)

is_acceptance_unknown-eq :
    (r : RunRecord) → is_acceptance_unknown r.status ≡ true → r.status ≡ acceptance_unknown
is_acceptance_unknown-eq r h = ground arith

is_unrecoverable-eq : (r : RunRecord) → is_unrecoverable r.status ≡ true → r.status ≡ unrecoverable
is_unrecoverable-eq r h = ground arith

-- What the acknowledgement of a run leaves of it and of another run.
abbrev pub Acknowledged : ConsoleStore → ConsoleStore → Text → RunRecord → Stamp → Type 0
Acknowledged s s' j r t =
    (r.status ≡ failed) × (r.terminal_at ≡ some t.ended) × (row_of s' j ≡ row_of s j)

update_run-Acknowledged :
    (s s' : ConsoleStore) (k j : Text) (c : Change) (t : Stamp) (r : RunRecord)
    → c.status ≡ some failed
    → c.terminal ≡ true
    → j ≢ k
    → update_run s k c t ≡ (s', ok r)
    → Acknowledged s s' j r t
unfolding apply_change
update_run-Acknowledged s s' k j c t r f e n h =
    let (old, _, same) = update_run_ok s s' k c t r h in
    (
      ap (λ (x : RunRecord). x.status) same ∙ rw f refl,
      ap (λ (x : RunRecord). x.terminal_at) same ∙ rw e refl,
      ap (λ (x : ConsoleStore × Result StoreError RunRecord). row_of x.0 j) (sym h)
          ∙ update_run-other s k j c t n,
    )

acknowledge_unknown_run_ok :
    (s s' : ConsoleStore) (k j : Text) (t : Stamp) (r : RunRecord) (x : Result StoreError RunRecord)
    → j ≢ k
    → acknowledge_unknown_run s k t x ≡ (s', ok r)
    → (run : RunRecord) × (x ≡ ok run) × (run.status ≡ acceptance_unknown) × Acknowledged s s' j r t
unfolding acknowledge_unknown_run
acknowledge_unknown_run_ok s s' k j t r (err e) n h = cc
acknowledge_unknown_run_ok s s' k j t r (ok run) n h =
    elim (Bool-cases (is_acceptance_unknown run.status)) [
      | inl e ↦ (
        run,
        refl,
        is_acceptance_unknown-eq run e,
        update_run-Acknowledged s s' k j _ t r refl refl n (rw (e, acknowledge_unknown_run) at h),
      )
      | inr e ↦ ground arith
    ]

-- An acknowledgement by an owner key that is not empty, if it does not raise, was of a run of that
-- owner whose outcome was unknown. It ends the run as failed, and leaves the row of every other local
-- turn id as it was.
pub acknowledge_unknown_ok :
    (s s' : ConsoleStore) (k j owner : Text) (t : Stamp) (r : RunRecord)
    → owner ≢ []
    → j ≢ k
    → acknowledge_unknown s k owner t ≡ (s', ok r)
    → (run : RunRecord) × (require_run s (some k) none (some owner) ≡ ok run)
      × (run.owner_key ≡ owner)
      × (run.status ≡ acceptance_unknown)
      × Acknowledged s s' j r t
unfolding acknowledge_unknown
acknowledge_unknown_ok s s' k j owner t r o n h =
    let (run, found, unknown, done) = acknowledge_unknown_run_ok s s' k j t r _ n h in
    (run, found, require_run-owner s (some k) none owner run o found, unknown, done)

acknowledge_lost_run_ok :
    (s s' : ConsoleStore) (t : Stamp) (r : RunRecord) (x : Result StoreError RunRecord)
    → acknowledge_lost_run s t x ≡ (s', ok r)
    → (run : RunRecord) × (x ≡ ok run)
      × (run.status ≡ unrecoverable)
      × (r.status ≡ failed)
      × (r.terminal_at ≡ some t.ended)
unfolding acknowledge_lost_run apply_change
acknowledge_lost_run_ok s s' t r (err e) h = cc
acknowledge_lost_run_ok s s' t r (ok run) h = elim (Bool-cases (is_unrecoverable run.status)) [
  | inl e ↦
      let (old, _, same) =
        update_run_ok s s' run.local_turn_id _ t r (rw (e, acknowledge_lost_run) at h) in
      (
        run,
        refl,
        is_unrecoverable-eq run e,
        ap (λ (x : RunRecord). x.status) same,
        ap (λ (x : RunRecord). x.terminal_at) same,
      )
  | inr e ↦ ground arith
]

-- An acknowledgement of a lost run by an owner key that is not empty, if it does not raise, was of an
-- unrecoverable run of that owner, and ends it as failed.
pub acknowledge_unrecoverable_ok :
    (s s' : ConsoleStore) (run_id owner : Text) (t : Stamp) (r : RunRecord)
    → owner ≢ []
    → acknowledge_unrecoverable s run_id owner t ≡ (s', ok r)
    → (run : RunRecord) × (require_run s none (some run_id) (some owner) ≡ ok run)
      × (run.owner_key ≡ owner)
      × (run.status ≡ unrecoverable)
      × (r.status ≡ failed)
      × (r.terminal_at ≡ some t.ended)
unfolding acknowledge_unrecoverable
acknowledge_unrecoverable_ok s s' run_id owner t r o h =
    let (run, found, lost, st, at_end) = acknowledge_lost_run_ok s s' t r _ h in
    (run, found, require_run-owner s none (some run_id) owner run o found, lost, st, at_end)
