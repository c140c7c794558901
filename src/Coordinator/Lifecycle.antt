-- ===== src/Coordinator/Lifecycle.antt =====
-- How the status of a run changes: by its events, by approvals, by acknowledgements.
use hermes_voice_console.Prelude.{
  ℕ, zero, suc, ◌+◌, ◌<◌, ◌≡◌, refl, ap, false, ◌&&◌, not, none, some, List, [], ◌∷◌, arith, Text,
  text_Eq, Result, ok, if◌then◌else◌, ◌∙◌, ◌⊎◌,
}
use hermes_voice_console.RunStore.{RunRecord, running, Writing, is_terminal, StoreError}
use hermes_voice_console.RunStore.Runs.{
  apply_change, Stamp, set_if_given, acknowledge_unrecoverable,
}
use hermes_voice_console.RunStore.Updates.{update_run_ok, row_of}
use hermes_voice_console.Coordinator.{Event, ActiveRun, Coordinator, get_active, pop_active}
use hermes_voice_console.Coordinator.Emit.{
  emit, event_change, new_status, is_terminal_event, status_of,
}
use hermes_voice_console.Coordinator.Numbering.{emit-Emitted}
use hermes_voice_console.Coordinator.Reconcile.{
  settle, RunReply, Stamps, api_error, document, remote_status, run_other,
}
use hermes_voice_console.Coordinator.Control.{approve_after, acknowledge_lost_turn, stored}

changed-status :
    (run : ActiveRun) (e : Event) (t : Stamp) (old : RunRecord)
    → (apply_change (event_change run e) t old).status
      ≡ set_if_given (new_status run.run_record.status e.type) old.status
unfolding apply_change event_change
changed-status run e t old = refl

changed-terminal_at :
    (run : ActiveRun) (e : Event) (t : Stamp) (old : RunRecord)
    → (apply_change (event_change run e) t old).terminal_at
      ≡ (if is_terminal_event e.type then some t.ended else old.terminal_at)
unfolding apply_change event_change
changed-terminal_at run e t old = refl

-- After an emission that does not raise, the object has the row that the store had, with the status
-- that the event stands for, unless it stands for none or the run has ended and the event is no
-- terminal one. A terminal event dates the end of the run, no other event does.
pub emit-status :
    (c c' : Coordinator) (a : ℕ) (e : Event) (t : Stamp)
    → emit c a e t ≡ (c', ok tt)
    → (old : RunRecord) × (row_of c.store (c.object a).run_record.local_turn_id ≡ some old)
      × ((c'.object a).run_record.status ≡ (
          if is_terminal (c.object a).run_record.status && not (is_terminal_event e.type)
          then old.status
          else set_if_given (status_of e.type) old.status))
      × ((c'.object a).run_record.terminal_at
          ≡ (if is_terminal_event e.type then some t.ended else old.terminal_at))
unfolding new_status
emit-status c c' a e t h =
    let d = emit-Emitted c c' a e t h in
    let (old, found, r) = update_run_ok c.store c'.store _ _ t d.row d.saved in
    let same = d.run_record ∙ r in
    (
      old,
      found,
      ap (λ (x : RunRecord). x.status) same ∙ changed-status (c.object a) e t old ∙ ground arith,
      ap (λ (x : RunRecord). x.terminal_at) same ∙ changed-terminal_at (c.object a) e t old,
    )

-- An approval that Hermes answers, if its emission does not raise, makes every run `running` whose
-- object has not ended, whatever its status was: an unrecoverable run too.
pub approve-status :
    (c c' : Coordinator) (a : ℕ) (run_id answer : Text) (t : Stamp)
    → is_terminal (c.object a).run_record.status ≡ false
    → approve_after c a run_id answer t ≡ (c', ok tt)
    → (c'.object a).run_record.status ≡ running
unfolding approve_after
approve-status c c' a run_id answer t h e =
    let (old, _, st, _) = emit-status c c' a _ t (rw (h, approve_after) at e) in st ∙ rw h

pop_active-none : (m : List (Text × ℕ)) (k : Text) → get_active (pop_active m k) k ≡ none
unfolding get_active pop_active
pop_active-none [] k = refl
pop_active-none ((j, a) ∷ m) k = ground (arith, pop_active-none m k)

stored-active : (c : Coordinator) (w : Writing RunRecord) → (stored c w).0.active ≡ c.active
stored-active c (s, r) = refl

-- Whoever asks for it, and whether it is refused or not: an acknowledgement that a run is lost takes
-- the run out of the active ones.
pub acknowledge_lost_turn-active :
    (c : Coordinator) (run_id owner_key : Text) (t : Stamp)
    → get_active (acknowledge_lost_turn c run_id owner_key t).0.active run_id ≡ none
unfolding acknowledge_lost_turn
acknowledge_lost_turn-active c run_id owner_key t =
    let c' : Coordinator = record c { active = pop_active c.active run_id } in
    ap (λ m. get_active m run_id)
      (stored-active c' (acknowledge_unrecoverable c.store run_id owner_key t))
    ∙ pop_active-none c.active run_id

-- An answer that says no more of the run than that it goes on: its status is none of the five words.
abbrev pub IsUndecided : RunReply → Type 0
IsUndecided api_error = ⊥
IsUndecided (document status out) = remote_status status ≡ run_other

-- So are the answers number `i` up to `i + n`.
abbrev pub AreUndecided : (ℕ → RunReply × Stamps) → ℕ → ℕ → Type 0
AreUndecided replies i zero = Unit {0}
AreUndecided replies i (suc n) = IsUndecided (replies i).0 × AreUndecided replies (suc i) n

module _ (c : Coordinator) (a : ℕ) (replies : ℕ → RunReply × Stamps) where
  -- The first of the `n` answers from number `i` on that decides is acted on; if none does, nothing is
  -- changed.
  abbrev pub Follows : ℕ → ℕ → Coordinator × Result StoreError (Unit {0}) → Type 0
  Follows i n r =
      ((m : ℕ) × (m < n)
        × AreUndecided replies i m
        × (settle c a (replies (i + m)).0 (replies (i + m)).1 ≡ some r))
      ⊎ (AreUndecided replies i n × (r ≡ (c, ok tt)))
