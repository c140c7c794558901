-- ===== src/Coordinator/Exclusion.antt =====
-- The coordinator keeps one run under way for each conversation and owner.
use hermes_voice_console.Prelude.{
  ℕ, ◌≡◌, refl, subst, Bool, true, false, Option, none, some, arith, Text, text_Eq, Result, ok, err,
  any, Option-cases, inl, inr, ◌⊎◌, ◌∙◌, sym, latest-none,
}
use hermes_voice_console.RunStore.{
  SessionRecord, RunRecord, ConsoleStore, is_terminal, StoreError, submitting,
}
use hermes_voice_console.RunStore.Runs.{
  locks, insert_run, update_run, Stamp, active_run_for_conversation,
  acceptance_unknown_for_owner_target, has_completed_run,
}
use hermes_voice_console.RunStore.Exclusion.{
  Exclusive, has_ended, ends_or_keeps, update_run-Exclusive, insert_run-Exclusive,
}
use hermes_voice_console.Coordinator.{Event, Queue, ActiveRun, Coordinator, write_object}
use hermes_voice_console.Coordinator.Emit.{emit, emitted, event_change, new_status}
use hermes_voice_console.Coordinator.Numbering.{fan_out-store}
use hermes_voice_console.Coordinator.Subscribe.{subscribe_active, attach, SubscribeError}
use hermes_voice_console.Coordinator.Conversations.{runs-load_history}
use hermes_voice_console.Coordinator.Inserted.{open_turn-has_ended}
use hermes_voice_console.Coordinator.Start.{
  open_turn, load_history, inserted, noted, Loaded, launched, subscribed, announced, hermes_failed,
  close_turn, launch, fail_ambiguous, fail_rejected, register, started_event, start, World, Outcome,
  accepted, ambiguous, refused, StartError, submitted, opened, connected,
}

-- The store that a step of the coordinator leaves is the one that its update leaves.
emitted-store :
    (c : Coordinator) (a : ℕ) (e : Event) (r : ConsoleStore × Result StoreError RunRecord)
    → (emitted c a e r).0.store ≡ r.0
unfolding emitted write_object
emitted-store c a e (s, err x) = refl
emitted-store c a e (s, ok row) = fan_out-store _ a _ _

pub emit-store :
    (c : Coordinator) (a : ℕ) (e : Event) (t : Stamp)
    → (emit c a e t).0.store
      ≡ (update_run c.store (c.object a).run_record.local_turn_id (event_change (c.object a) e) t).0
unfolding emit
emit-store c a e t = emitted-store c a e _

-- The status of the store's rows is not ahead of the object's: if a row has ended, the object knows.
abbrev pub Knows : Coordinator → ℕ → Type 0
Knows c a =
    (is_terminal (c.object a).run_record.status ≡ true)
    ⊎ (has_ended c.store (c.object a).run_record.local_turn_id ≡ false)

event_change-keeps :
    (c : Coordinator) (a : ℕ) (e : Event)
    → Knows c a
    → (ends_or_keeps (event_change (c.object a) e).status ≡ true)
      ⊎ (has_ended c.store (c.object a).run_record.local_turn_id ≡ false)
unfolding event_change new_status
event_change-keeps c a e (inl t) = inl (ground arith)
event_change-keeps c a e (inr n) = inr n

-- Where at most one run of each conversation and owner is under way in the store, and the object has
-- ended or no row of its turn has, this is so after an emission too, whether it raises or not.
pub emit-Exclusive :
    (c : Coordinator) (a : ℕ) (e : Event) (t : Stamp)
    → Knows c a
    → Exclusive c.store
    → Exclusive (emit c a e t).0.store
emit-Exclusive c a e t k x =
    subst Exclusive (sym (emit-store c a e t))
      (update_run-Exclusive c.store _ _ t x (event_change-keeps c a e k))

inserted-store : (r : ConsoleStore × Result StoreError RunRecord) → (inserted r).0 ≡ r.0
inserted-store (s, err e) = refl
inserted-store (s, ok r) = refl

no_lock :
    (s : ConsoleStore) (c : SessionRecord)
    → active_run_for_conversation s c.conversation_id c.owner_key ≡ none
    → any (locks c.conversation_id c.owner_key) s.runs ≡ false
unfolding active_run_for_conversation
no_lock s c h = latest-none (λ r. r.created_at) (locks c.conversation_id c.owner_key) s.runs h

open_turn-Exclusive :
    (s : ConsoleStore) (target : Text) (c : SessionRecord) (turn k : Text) (now : ℕ)
    → Exclusive s
    → Exclusive (open_turn s target c turn k now).0
unfolding open_turn
open_turn-Exclusive s target c turn k now x =
    elim (Option-cases (acceptance_unknown_for_owner_target s c.owner_key target)) [
      | inr (fence, f) ↦ rw (f, open_turn) x
      | inl f ↦ elim (Option-cases (active_run_for_conversation s c.conversation_id c.owner_key)) [
        | inr (old, o) ↦ rw (f, o, open_turn) x
        | inl o ↦
            rw (f, o, open_turn)
              (subst Exclusive (sym (inserted-store (insert_run s k target c turn submitting now)))
                (insert_run-Exclusive s k target c turn submitting now x (no_lock s c o)))
      ]
    ]

noted-store :
    (c : Coordinator) (e : StartError) (r : ConsoleStore × Result StoreError RunRecord)
    → (noted c e r).0.store ≡ r.0
noted-store c e (s, err x) = refl
noted-store c e (s, ok r) = refl

attach-store : (c : Coordinator) (a : ℕ) (o : Option Queue) → (attach c a o).0.store ≡ c.store
unfolding attach write_object
attach-store c a none = refl
attach-store c a (some q) = refl

announced-store :
    (a q : ℕ) (r : Coordinator × Result StoreError (Unit {0}))
    → (announced a q r).0.store ≡ r.0.store
announced-store a q (c, err x) = refl
announced-store a q (c, ok _) = refl

-- The first event gives no status.
started-keeps :
    (run : ActiveRun) (r : RunRecord) (run_id turn : Text)
    → ends_or_keeps (event_change run (started_event r run_id turn)).status ≡ true
unfolding event_change new_status started_event
started-keeps run r run_id turn = ground arith

subscribed-Exclusive :
    (a : ℕ) (row : RunRecord) (run_id turn : Text) (t : Stamp)
    (r : Coordinator × Result SubscribeError ℕ)
    → Exclusive r.0.store
    → Exclusive (subscribed a (started_event row run_id turn) t r).0.store
subscribed-Exclusive a row run_id turn t (c, err x) h = h
subscribed-Exclusive a row run_id turn t (c, ok q) h =
    subst Exclusive
      (sym (
        announced-store a q (emit c a (started_event row run_id turn) t)
        ∙ emit-store c a (started_event row run_id turn) t))
      (update_run-Exclusive c.store _ _ t h (inl (started-keeps (c.object a) row run_id turn)))

launched-Exclusive :
    (c : Coordinator) (run_id turn : Text) (t : Stamp)
    (r : ConsoleStore × Result StoreError RunRecord)
    → Exclusive r.0
    → Exclusive (launched c run_id turn t r).0.store
unfolding subscribe_active register write_object
launched-Exclusive c run_id turn t (s, err x) h = h
launched-Exclusive c run_id turn t (s, ok row) h =
    subscribed-Exclusive c.fresh_object row run_id turn t _ (
      subst Exclusive
        (sym (attach-store (register (record c { store = s }) run_id row) c.fresh_object _)) h)

fail_rejected-Exclusive :
    (c : Coordinator) (k : Text) (e : StartError) (t : Stamp)
    → Exclusive c.store
    → Exclusive (fail_rejected c k e t).0.store
unfolding fail_rejected
fail_rejected-Exclusive c k e t x =
    subst Exclusive (sym (noted-store c e _)) (update_run-Exclusive c.store k _ t x (inl refl))

close_turn-Exclusive :
    (c : Coordinator) (k turn : Text) (o : Outcome) (t t' : Stamp)
    → Exclusive c.store
    → has_ended c.store k ≡ false
    → Exclusive (close_turn c k turn o t t').0.store
unfolding close_turn launch fail_ambiguous
close_turn-Exclusive c k turn (accepted run_id) t t' x h =
    launched-Exclusive c run_id turn t' _ (update_run-Exclusive c.store k _ t x (inr h))
close_turn-Exclusive c k turn ambiguous t t' x h =
    subst Exclusive (sym (noted-store c _ _)) (update_run-Exclusive c.store k _ t x (inr h))
close_turn-Exclusive c k turn refused t t' x h = fail_rejected-Exclusive c k hermes_failed t x

submitted-Exclusive :
    (c : Coordinator) (turn : Text) (w : World) (r : Loaded)
    → Exclusive r.0
    → has_ended r.0 w.local_turn_id ≡ false
    → Exclusive (submitted c turn w r).0.store
submitted-Exclusive c turn w (s, err e) x h =
    fail_rejected-Exclusive (record c { store = s }) w.local_turn_id e w.closed_at x
submitted-Exclusive c turn w (s, ok y) x h =
    close_turn-Exclusive (record c { store = s }) w.local_turn_id turn w.outcome _ _ x h

connected-Exclusive :
    (b : Bool) (c : Coordinator) (started : Coordinator × Result StartError (RunRecord × ℕ))
    → Exclusive c.store
    → Exclusive started.0.store
    → Exclusive (connected b c started).0.store
connected-Exclusive true c started x y = y
connected-Exclusive false c started x y = x

opened-Exclusive :
    (c : Coordinator) (conv : SessionRecord) (turn : Text) (w : World)
    (r : ConsoleStore × Result StartError RunRecord)
    → Exclusive r.0
    → ((row : RunRecord) → r.1 ≡ ok row → has_ended r.0 w.local_turn_id ≡ false)
    → Exclusive (opened c conv turn w r).0.store
opened-Exclusive c conv turn w (s, err e) x h = x
opened-Exclusive c conv turn w (s, ok row) x h =
    let prior = has_completed_run s conv.conversation_id conv.owner_key in
    let same = runs-load_history 3 0 s conv prior w.answers in
    connected-Exclusive w.transport_made (record c { store = s }) _ x
      (submitted-Exclusive c turn w (load_history 3 0 s conv prior w.answers)
        (λ v o. rw same (x v o)) (rw same (h row refl)))

-- Where at most one run of each conversation and owner is under way in the store, this is so after
-- `start` too, whatever Hermes answers and wherever it raises.
pub start-Exclusive :
    (c : Coordinator) (target : Text) (conv : SessionRecord) (turn : Text) (w : World)
    → Exclusive c.store
    → Exclusive (start c target conv turn w).0.store
unfolding start
start-Exclusive c target conv turn w x =
    opened-Exclusive c conv turn w _
      (open_turn-Exclusive c.store target conv turn w.local_turn_id w.inserted_at x)
      (λ row e.
        open_turn-has_ended c.store _ target conv turn w.local_turn_id w.inserted_at row
          (λ i. ((open_turn c.store target conv turn w.local_turn_id w.inserted_at).0, e i)))
