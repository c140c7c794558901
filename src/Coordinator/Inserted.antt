-- ===== src/Coordinator/Inserted.antt =====
-- The row that `insert_run` adds.
use hermes_voice_console.Prelude.{
  ℕ, ◌≡◌, ap, false, ◌&&◌, [], ◌∷◌, arith, Text, text_Eq, ◌==◌, Result, ok, err, any, any-append,
  any-and, Option-cases, inl, inr,
}
use hermes_voice_console.RunStore.{
  SessionRecord, RunRecord, ConsoleStore, is_terminal, StoreError, submitting, integrity_error,
}
use hermes_voice_console.RunStore.Runs.{
  insert_run, new_run, active_run_for_conversation, acceptance_unknown_for_owner_target,
}
use hermes_voice_console.RunStore.Exclusion.{has_ended}
use hermes_voice_console.Coordinator.Start.{open_turn, inserted, StartError}

pub inserted_ok :
    (x : ConsoleStore × Result StoreError RunRecord) (s : ConsoleStore) (r : RunRecord)
    → inserted x ≡ (s, ok r)
    → x.0 ≡ s
inserted_ok (s₀, err e) s r h = cc
inserted_ok (s₀, ok r₀) s r h = ap (λ p. p.0) h

pub inserted_refused :
    (s : ConsoleStore) (e : StoreError) (s' : ConsoleStore) (r : RunRecord)
    → inserted (s, err e) ≡ (s', ok r)
    → ⊥
inserted_refused s e s' r h = cc

pub kept_out :
    {s s' : ConsoleStore} {e : StartError} {r : RunRecord}
    → ◌≡◌ {A = ConsoleStore × Result StartError RunRecord} (s, err e) (s', ok r)
    → ⊥
kept_out h = cc

insert_run-has_ended :
    (s s' : ConsoleStore) (target : Text) (c : SessionRecord) (turn k : Text) (now : ℕ)
    (r : RunRecord)
    → inserted (insert_run s k target c turn submitting now) ≡ (s', ok r)
    → has_ended s' k ≡ false
unfolding insert_run any
insert_run-has_ended s s' target c turn k now r h = ground (
  arith,
  inserted_ok (insert_run s k target c turn submitting now) s' r h,
  inserted_refused s integrity_error s' r,
  any-append (λ (x : RunRecord). x.local_turn_id == k && is_terminal x.status) s.runs
      (new_run k target c turn submitting now ∷ []),
  any-and (λ (x : RunRecord). x.local_turn_id == k) (λ (x : RunRecord). is_terminal x.status)
      s.runs,
)

-- A row that has just been inserted has not ended, and no other has its local turn id.
pub open_turn-has_ended :
    (s s' : ConsoleStore) (target : Text) (c : SessionRecord) (turn k : Text) (now : ℕ)
    (r : RunRecord)
    → open_turn s target c turn k now ≡ (s', ok r)
    → has_ended s' k ≡ false
unfolding open_turn
open_turn-has_ended s s' target c turn k now r h =
    elim (Option-cases (acceptance_unknown_for_owner_target s c.owner_key target)) [
      | inr (fence, f) ↦ absurd (kept_out (rw (f, open_turn) at h))
      | inl f ↦ elim (Option-cases (active_run_for_conversation s c.conversation_id c.owner_key)) [
        | inr (old, o) ↦ absurd (kept_out (rw (f, o, open_turn) at h))
        | inl o ↦ insert_run-has_ended s s' target c turn k now r (rw (f, o, open_turn) at h)
      ]
    ]
