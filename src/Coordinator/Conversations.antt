-- ===== src/Coordinator/Conversations.antt =====
-- Reading the history writes to the conversations only.
use hermes_voice_console.Prelude.{
  ℕ, zero, suc, ◌≡◌, refl, ap, Bool, Option, none, some, List, arith, Text, text_Eq, ◌==◌, Result,
  ok, err, Bool-cases, inl, inr, ◌∙◌,
}
use hermes_voice_console.RunStore.{
  SessionRecord, RunRecord, ConsoleStore, Writing, StoreError, key_error,
}
use hermes_voice_console.RunStore.Sessions.{adopt_hermes_session, adopt_row}
use hermes_voice_console.SessionManager.{
  history, SessionDocument, HistoryItem, adopted, resolved_id,
}
use hermes_voice_console.Coordinator.Start.{load_history, read_history, judged, Loaded, Answers}

runs-adopt_row :
    (s : ConsoleStore) (conv owner id : Text) (now : ℕ) (o : Option SessionRecord)
    → (adopt_row s conv owner id now o).0.runs ≡ s.runs
unfolding adopt_row
runs-adopt_row s conv owner id now none = refl
runs-adopt_row s conv owner id now (some old) = ground arith

runs-adopted : (d : SessionDocument) (r : Writing SessionRecord) → (adopted d r).0 ≡ r.0
unfolding adopted
runs-adopted d (s, err e) = refl
runs-adopted d (s, ok c) = refl

runs-history :
    (s : ConsoleStore) (c : SessionRecord) (d : SessionDocument) (now : ℕ)
    → (history s c d now).0.runs ≡ s.runs
unfolding history adopt_hermes_session
runs-history s c d now = elim (Bool-cases (resolved_id d c == c.hermes_session_id)) [
  | inl e ↦ rw e refl
  | inr e ↦ rw e (
      ap (λ (x : ConsoleStore). x.runs)
        (runs-adopted d
          (adopt_hermes_session s c.conversation_id c.owner_key (resolved_id d c) now))
      ∙ runs-adopt_row s c.conversation_id c.owner_key (resolved_id d c) now _)
]

runs-read_history :
    (s : ConsoleStore) (c : SessionRecord) (answer : Option SessionDocument × ℕ)
    → (read_history s c answer (s, err key_error)).0.runs ≡ s.runs
runs-read_history s c (none, now) = refl
runs-read_history s c (some d, now) = runs-history s c d now

runs-judged :
    (rs : List RunRecord) (prior : Bool) (rest : Loaded)
    (tried : ConsoleStore × Result StoreError (SessionRecord × List HistoryItem))
    → rest.0.runs ≡ rs
    → tried.0.runs ≡ rs
    → (judged prior rest tried).0.runs ≡ rs
runs-judged rs prior rest (s, err e) p q = q
runs-judged rs prior rest (s, ok (c, h)) p q = ground arith

pub runs-load_history :
    (n i : ℕ) (s : ConsoleStore) (c : SessionRecord) (prior : Bool) (answers : Answers)
    → (load_history n i s c prior answers).0.runs ≡ s.runs
unfolding load_history
runs-load_history zero i s c prior answers = refl
runs-load_history (suc n) i s c prior answers =
    let tried = read_history s c (answers i) (s, err key_error) in
    let same : tried.0.runs ≡ s.runs = runs-read_history s c (answers i) in
    runs-judged s.runs prior (load_history n (suc i) tried.0 c prior answers) tried
      (runs-load_history n (suc i) tried.0 c prior answers ∙ same) same
