-- ===== src/RunStore/Updates.antt =====
-- What `update_run` returns, and whose rows it leaves alone.
use hermes_voice_console.Prelude.{
  ◌≡◌, false, Option, none, some, List, [], ◌∷◌, arith, Text, text_Eq, ◌==◌, ok, first,
  update_where, Bool-cases, inl, inr, first_ext,
}
use hermes_voice_console.RunStore.{RunRecord, ConsoleStore}
use hermes_voice_console.RunStore.Runs.{
  Change, Stamp, apply_change, update_run, require_run, is_run,
}

-- The row of a local turn id.
unfoldable pub row_of : ConsoleStore → Text → Option RunRecord
row_of s k = first (λ r. r.local_turn_id == k) s.runs

is_run-local :
    (k : Text) (r : RunRecord)
    → (k == []) ≡ false
    → is_run (some k) none none r ≡ (r.local_turn_id == k)
unfolding is_run
is_run-local k r h = ground arith

require_run-row_of :
    (s : ConsoleStore) (k : Text) (r : RunRecord)
    → require_run s (some k) none none ≡ ok r
    → row_of s k ≡ some r
unfolding require_run row_of
require_run-row_of s k r h = elim (Bool-cases (k == [])) [
  | inl e ↦ ground arith
  | inr e ↦ ground (
    arith,
    first_ext (is_run (some k) none none) (λ (x : RunRecord). x.local_turn_id == k) s.runs
        (λ (x : RunRecord). is_run-local k x e),
  )
]

-- The row of a key, after an update of that key.
first_of_update :
    (k : Text) (c : Change) (t : Stamp) (rs : List RunRecord) (r : RunRecord)
    → first
        (λ x. x.local_turn_id == k)
        (update_where (λ x. x.local_turn_id == k) (apply_change c t) rs)
      ≡ some r
    → (old : RunRecord) × (first (λ x. x.local_turn_id == k) rs ≡ some old)
      × (r ≡ apply_change c t old)
unfolding first update_where apply_change
first_of_update k c t [] r h = cc
first_of_update k c t (x ∷ rs) r h = elim (Bool-cases (x.local_turn_id == k)) [
  | inl e ↦ (x, rw e, ground arith)
  | inr e ↦ rw e (first_of_update k c t rs r (ground arith))
]

-- A row that is updated is the old row with the change, and it is what `update_run` returns.
pub update_run_ok :
    (s s' : ConsoleStore) (k : Text) (c : Change) (t : Stamp) (r : RunRecord)
    → update_run s k c t ≡ (s', ok r)
    → (old : RunRecord) × (row_of s k ≡ some old) × (r ≡ apply_change c t old)
unfolding update_run
update_run_ok s s' k c t r h =
    unfold row_of in first_of_update k c t s.runs r (require_run-row_of s'' k r (ground arith))
  where
    s'' : ConsoleStore
    s'' = record s { runs = update_where (λ r. r.local_turn_id == k) (apply_change c t) s.runs }
