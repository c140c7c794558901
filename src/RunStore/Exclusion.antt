-- ===== src/RunStore/Exclusion.antt =====
-- At most one run of a conversation and owner is under way.
use hermes_voice_console.Prelude.{
  ℕ, ◌≤◌, ◌≡◌, Bool, true, false, ◌&&◌, Option, none, some, [], ◌∷◌, arith, Text, text_Eq,
  text_eq_iff, ◌==◌, if◌then◌else◌, any, update_where, count_where, count-update-le_guarded,
  count-update-le, count-append, count-any, inl, inr, ◌⊎◌,
}
use hermes_voice_console.RunStore.{SessionRecord, RunRecord, ConsoleStore, Status, is_terminal}
use hermes_voice_console.RunStore.Runs.{
  locks, new_run, insert_run, update_run, apply_change, Change, Stamp,
}

abbrev pub Exclusive : ConsoleStore → Type 0
Exclusive s =
    (conversation_id owner_key : Text) → count_where (locks conversation_id owner_key) s.runs ≤ 1

-- A row of the local turn id has ended.
abbrev pub has_ended : ConsoleStore → Text → Bool
has_ended s k = any (λ r. r.local_turn_id == k && is_terminal r.status) s.runs

-- The change gives a status that ends the run, or none.
abbrev pub ends_or_keeps : Option Status → Bool
ends_or_keeps none = true
ends_or_keeps (some st) = is_terminal st

change-locks :
    (c : Change) (t : Stamp) (conv owner : Text) (r : RunRecord)
    → (ends_or_keeps c.status ≡ true) ⊎ (is_terminal r.status ≡ false)
    → locks conv owner (apply_change c t r) ≡ true
    → locks conv owner r ≡ true
unfolding locks apply_change
change-locks c t conv owner r h l = ground arith

count-updated :
    (s : ConsoleStore) (k : Text) (c : Change) (t : Stamp) (conv owner : Text)
    → (ends_or_keeps c.status ≡ true) ⊎ (has_ended s k ≡ false)
    → count_where
        (locks conv owner)
        (update_where (λ r. r.local_turn_id == k) (apply_change c t) s.runs)
      ≤ count_where (locks conv owner) s.runs
count-updated s k c t conv owner (inl e) =
    count-update-le (locks conv owner) (λ r. r.local_turn_id == k) (apply_change c t) s.runs
      (λ r _ l. change-locks c t conv owner r (inl e) l)
count-updated s k c t conv owner (inr e) =
    count-update-le_guarded (locks conv owner) (λ r. r.local_turn_id == k)
      (λ r. is_terminal r.status) (apply_change c t) s.runs e
      (λ r _ n l. change-locks c t conv owner r (inr n) l)

pub update_run-Exclusive :
    (s : ConsoleStore) (k : Text) (c : Change) (t : Stamp)
    → Exclusive s
    → (ends_or_keeps c.status ≡ true) ⊎ (has_ended s k ≡ false)
    → Exclusive (update_run s k c t).0
unfolding update_run
update_run-Exclusive s k c t x h conv owner =
    ground (arith, x conv owner, count-updated s k c t conv owner h)

-- A new run locks its own conversation at most.
one_new_lock :
    (k target : Text) (c : SessionRecord) (turn : Text) (st : Status) (now : ℕ) (conv owner : Text)
    → count_where (locks conv owner) (new_run k target c turn st now ∷ [])
      ≤ (if c.conversation_id == conv && c.owner_key == owner then 1 else 0)
unfolding count_where locks
one_new_lock k target c turn st now conv owner = ground arith

pub insert_run-Exclusive :
    (s : ConsoleStore) (k target : Text) (c : SessionRecord) (turn : Text) (st : Status) (now : ℕ)
    → Exclusive s
    → any (locks c.conversation_id c.owner_key) s.runs ≡ false
    → Exclusive (insert_run s k target c turn st now).0
unfolding insert_run
insert_run-Exclusive s k target c turn st now x free conv owner =
    let row : RunRecord = new_run k target c turn st now in
    ground (
      arith,
      x conv owner,
      count-append (locks conv owner) s.runs (row ∷ []),
      count-any (locks conv owner) s.runs,
      one_new_lock k target c turn st now conv owner,
      text_eq_iff c.conversation_id conv,
      text_eq_iff c.owner_key owner,
    )
