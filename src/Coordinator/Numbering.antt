-- ===== src/Coordinator/Numbering.antt =====
-- Emission keeps the buffer of an active run recent.
use hermes_voice_console.Prelude.{ℕ, suc, ◌+◌, ◌≡◌, refl, ap, sym, ◌∙◌, arith, Result, ok, err}
use hermes_voice_console.RunStore.{RunRecord, ConsoleStore, StoreError}
use hermes_voice_console.RunStore.Runs.{Stamp, apply_change, update_run}
use hermes_voice_console.RunStore.Updates.{update_run_ok}
use hermes_voice_console.Coordinator.{Event, ActiveRun, Coordinator, push_bounded, write_object}
use hermes_voice_console.Coordinator.Emit.{
  emit, emitted, event_change, stamped, buffered, fan_out, publish,
}
use hermes_voice_console.Coordinator.Sequence.{IsRecent, push_bounded_lem}

pub fan_out-object :
    (c : Coordinator) (a : ℕ) (run : ActiveRun) (e : Event)
    → (fan_out c a run e).object a
      ≡ record run { subscribers = (publish c.queues run.subscribers e).1 }
unfolding fan_out write_object
fan_out-object c a run e = ground arith

pub fan_out-store :
    (c : Coordinator) (a : ℕ) (run : ActiveRun) (e : Event) → (fan_out c a run e).store ≡ c.store
unfolding fan_out write_object
fan_out-store c a run e = ground arith

-- What an emission that does not raise leaves behind.
pub record Emitted (c c' : Coordinator) (a : ℕ) (e : Event) (t : Stamp) : Type 0 where
  pub row : RunRecord
  pub saved :
      update_run c.store (c.object a).run_record.local_turn_id (event_change (c.object a) e) t
      ≡ (c'.store, ok row)
  pub run_record : (c'.object a).run_record ≡ row
  pub max_events : (c'.object a).max_events ≡ (c.object a).max_events
  pub events :
      (c'.object a).events
      ≡ push_bounded (c.object a).max_events (c.object a).events (stamped (c.object a) e)

emitted-Emitted :
    (c c' : Coordinator) (a : ℕ) (e : Event) (t : Stamp)
    (r : ConsoleStore × Result StoreError RunRecord)
    → update_run c.store (c.object a).run_record.local_turn_id (event_change (c.object a) e) t ≡ r
    → emitted c a e r ≡ (c', ok tt)
    → Emitted c c' a e t
unfolding emitted buffered
emitted-Emitted c c' a e t (s, err x) u h = cc
emitted-Emitted c c' a e t (s, ok row) u h =
    let run : ActiveRun = record (buffered (c.object a) e) { run_record = row } in
    let c₀ : Coordinator = record c { store = s } in
    let final : fan_out c₀ a run (stamped (c.object a) e) ≡ c' = ap (λ p. p.0) h in
    let obj : (c'.object a) ≡ record run {
      subscribers = (publish c₀.queues run.subscribers (stamped (c.object a) e)).1;
    } =
      ap (λ (x : Coordinator). x.object a) (sym final)
      ∙ fan_out-object c₀ a run (stamped (c.object a) e) in
    let st : c'.store ≡ s =
      ap (λ (x : Coordinator). x.store) (sym final)
      ∙ fan_out-store c₀ a run (stamped (c.object a) e) in
    record {
      row = row;
      saved = u ∙ ap (λ x. (x, ok row)) (sym st);
      run_record = ap (λ (x : ActiveRun). x.run_record) obj;
      max_events = ap (λ (x : ActiveRun). x.max_events) obj;
      events = ap (λ (x : ActiveRun). x.events) obj;
    }

pub emit-Emitted :
    (c c' : Coordinator) (a : ℕ) (e : Event) (t : Stamp)
    → emit c a e t ≡ (c', ok tt)
    → Emitted c c' a e t
unfolding emit
emit-Emitted c c' a e t h = emitted-Emitted c c' a e t _ refl h

change-sequence :
    (run : ActiveRun) (e : Event) (t : Stamp) (old : RunRecord)
    → (apply_change (event_change run e) t old).last_sequence ≡ run.run_record.last_sequence + 1
unfolding apply_change event_change
change-sequence run e t old = refl

-- An emission takes the next sequence number.
pub emit-last_sequence :
    (c c' : Coordinator) (a : ℕ) (e : Event) (t : Stamp)
    → emit c a e t ≡ (c', ok tt)
    → (c'.object a).run_record.last_sequence ≡ (c.object a).run_record.last_sequence + 1
emit-last_sequence c c' a e t h =
    let d = emit-Emitted c c' a e t h in
    let (old, _, r) = update_run_ok c.store c'.store _ _ t d.row d.saved in
    ap (λ (x : RunRecord). x.last_sequence) (d.run_record ∙ r)
    ∙ change-sequence (c.object a) e t old

-- An emission that does not raise keeps the buffer of its run recent: the last events, in order, with
-- consecutive sequence numbers that end at the last one, and no more than the bound. It takes the
-- next number.
pub emit-IsRecent :
    (c c' : Coordinator) (a : ℕ) (e : Event) (t : Stamp)
    → IsRecent (c.object a)
    → emit c a e t ≡ (c', ok tt)
    → IsRecent (c'.object a)
      × ((c'.object a).run_record.last_sequence ≡ (c.object a).run_record.last_sequence + 1)
unfolding stamped
emit-IsRecent c c' a e t v h =
    let d = emit-Emitted c c' a e t h in
    let n : ℕ = (c.object a).run_record.last_sequence in
    let next : (c'.object a).run_record.last_sequence ≡ n + 1 = emit-last_sequence c c' a e t h in
    let to_suc : (c'.object a).run_record.last_sequence ≡ suc n = omega (arith, next) in
    let pushed =
      push_bounded_lem (c.object a).max_events n (c.object a).events (stamped (c.object a) e)
        v.short v.ordered (omega arith) in
    (
      record {
        short = rw (d.events, to_suc) pushed.0;
        within = rw (d.events, d.max_events) pushed.1;
        ordered = rw (d.events, to_suc) pushed.2;
      },
      next,
    )
