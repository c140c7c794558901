-- ===== src/Coordinator/Fence.antt =====
-- A turn that Hermes may have accepted fences its owner and target off.
use hermes_voice_console.Prelude.{
  ℕ, ◌≡◌, refl, ap, subst, Bool, true, false, ◌&&◌, ◌||◌, none, some, [], ◌∷◌, arith, Text, text_Eq,
  text_eq_refl, ◌==◌, ok, err, any, any-append, any-update_gain, latest-none, latest-some,
  Option-cases, inl, inr,
}
use hermes_voice_console.RunStore.{
  SessionRecord, RunRecord, ConsoleStore, submitting, acceptance_unknown, ambiguous_submission,
  integrity_error,
}
use hermes_voice_console.RunStore.Runs.{
  locks, fences, insert_run, new_run, run_id_taken, update_run, apply_change, Change, no_change,
  Stamp, active_run_for_conversation, acceptance_unknown_for_owner_target,
}
use hermes_voice_console.Coordinator.{Coordinator}
use hermes_voice_console.Coordinator.Start.{
  open_turn, start, World, StartError, inserted, owner_target_locked, conversation_locked,
}
use hermes_voice_console.Coordinator.Inserted.{inserted_ok, inserted_refused, kept_out}

-- A run of this owner and target has an unknown outcome.
abbrev pub is_fenced : ConsoleStore → Text → Text → Bool
is_fenced s owner target = any (fences owner target) s.runs

-- A run of this conversation and owner has not ended.
abbrev pub is_locked : ConsoleStore → Text → Text → Bool
is_locked s conv owner = any (locks conv owner) s.runs

fence-none :
    (s : ConsoleStore) (owner target : Text)
    → acceptance_unknown_for_owner_target s owner target ≡ none
    → is_fenced s owner target ≡ false
unfolding acceptance_unknown_for_owner_target
fence-none s owner target h = latest-none (λ r. r.created_at) (fences owner target) s.runs h

lock-some :
    (s : ConsoleStore) (conv owner : Text)
    → is_locked s conv owner ≡ true
    → (r : RunRecord) × (active_run_for_conversation s conv owner ≡ some r)
unfolding active_run_for_conversation
lock-some s conv owner h = latest-some (λ r. r.created_at) (locks conv owner) s.runs h

either : (a b : Bool) → (a || b) ≡ true → a ≡ false → b ≡ true
either a b h e = ground arith

open_turn_refused :
    (s : ConsoleStore) (target : Text) (c : SessionRecord) (turn k : Text) (now : ℕ)
    → (is_fenced s c.owner_key target || is_locked s c.conversation_id c.owner_key) ≡ true
    → (e : StartError) × (open_turn s target c turn k now ≡ (s, err e))
unfolding open_turn
open_turn_refused s target c turn k now h =
    elim (Option-cases (acceptance_unknown_for_owner_target s c.owner_key target)) [
      | inr (fence, f) ↦ (owner_target_locked, rw (f, open_turn) refl)
      | inl f ↦
          let locked = either _ _ h (fence-none s c.owner_key target f) in
          let (old, o) = lock-some s c.conversation_id c.owner_key locked in
          (conversation_locked old.status, rw (f, o, open_turn) refl)
    ]

-- While a run of the owner and target has an unknown outcome, or one of the conversation and owner is
-- under way, `start` raises and changes nothing, whatever Hermes would answer.
pub start_refused :
    (c : Coordinator) (target : Text) (conv : SessionRecord) (turn : Text) (w : World)
    → (is_fenced c.store conv.owner_key target
        || is_locked c.store conv.conversation_id conv.owner_key)
      ≡ true
    → (e : StartError) × (start c target conv turn w ≡ (c, err e))
unfolding start
start_refused c target conv turn w h =
    let (e, o) = open_turn_refused c.store target conv turn w.local_turn_id w.inserted_at h in
    (e, rw (o) refl)

-- A row with the local turn id, the owner and the target of a turn.
abbrev pub has_turn : ConsoleStore → Text → Text → Text → Bool
has_turn s k owner target =
    any (λ r. r.local_turn_id == k && (r.owner_key == owner && r.target_name == target)) s.runs

insert_run-has_turn :
    (s s' : ConsoleStore) (target : Text) (c : SessionRecord) (turn k : Text) (now : ℕ)
    (r : RunRecord)
    → inserted (insert_run s k target c turn submitting now) ≡ (s', ok r)
    → has_turn s' k c.owner_key target ≡ true
unfolding insert_run any
insert_run-has_turn s s' target c turn k now r h = ground (
  arith,
  inserted_ok (insert_run s k target c turn submitting now) s' r h,
  inserted_refused s integrity_error s' r,
  text_eq_refl k,
  text_eq_refl c.owner_key,
  text_eq_refl target,
  any-append
      (λ (x : RunRecord).
        x.local_turn_id == k && (x.owner_key == c.owner_key && x.target_name == target))
      s.runs (new_run k target c turn submitting now ∷ []),
)

pub open_turn-has_turn :
    (s s' : ConsoleStore) (target : Text) (c : SessionRecord) (turn k : Text) (now : ℕ)
    (r : RunRecord)
    → open_turn s target c turn k now ≡ (s', ok r)
    → has_turn s' k c.owner_key target ≡ true
unfolding open_turn
open_turn-has_turn s s' target c turn k now r h =
    elim (Option-cases (acceptance_unknown_for_owner_target s c.owner_key target)) [
      | inr (fence, f) ↦ absurd (kept_out (rw (f, open_turn) at h))
      | inl f ↦ elim (Option-cases (active_run_for_conversation s c.conversation_id c.owner_key)) [
        | inr (old, o) ↦ absurd (kept_out (rw (f, o, open_turn) at h))
        | inl o ↦ insert_run-has_turn s s' target c turn k now r (rw (f, o, open_turn) at h)
      ]
    ]

-- The change of `except HermesAmbiguousSubmission`.
abbrev pub unknown_change : Change
unknown_change = record no_change {
  status = some acceptance_unknown;
  failure_category = some ambiguous_submission;
}

unknown-fences :
    (t : Stamp) (owner target : Text) (r : RunRecord)
    → (r.owner_key == owner && r.target_name == target) ≡ true
    → fences owner target (apply_change unknown_change t r) ≡ true
unfolding fences apply_change
unknown-fences t owner target r h = ground arith

pub update_run-is_fenced :
    (s s' : ConsoleStore) (k owner target : Text) (t : Stamp) (r : RunRecord)
    → has_turn s k owner target ≡ true
    → update_run s k unknown_change t ≡ (s', ok r)
    → is_fenced s' owner target ≡ true
unfolding update_run run_id_taken
update_run-is_fenced s s' k owner target t r h u =
    subst (λ x. is_fenced x owner target ≡ true) (ap (λ p. p.0) u)
      (any-update_gain (λ x. x.owner_key == owner && x.target_name == target)
        (λ x. x.local_turn_id == k) (fences owner target) (apply_change unknown_change t) s.runs h
        (λ x _ p. unknown-fences t owner target x p))
