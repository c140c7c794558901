-- ===== src/Coordinator/Ambiguity.antt =====
-- A submission that Hermes may have accepted leaves its owner and target fenced off.
use hermes_voice_console.Prelude.{
  ℕ, zero, suc, ◌≡◌, refl, subst, sym, Bool, true, false, ◌||◌, not, List, Text, Result, ok, err,
  Bool-cases, Option-cases, inl, inr, arith,
}
use hermes_voice_console.RunStore.{
  SessionRecord, RunRecord, ConsoleStore, StoreError, submitting, key_error,
}
use hermes_voice_console.RunStore.Runs.{
  update_run, Stamp, insert_run, active_run_for_conversation, has_completed_run,
  acceptance_unknown_for_owner_target,
}
use hermes_voice_console.SessionManager.{HistoryItem}
use hermes_voice_console.Coordinator.{Coordinator, Event}
use hermes_voice_console.Coordinator.Subscribe.{SubscribeError}
use hermes_voice_console.Coordinator.Start.{
  open_turn, load_history, read_history, judged, Loaded, Answers, close_turn, launch, launched,
  subscribed, announced, fail_ambiguous, fail_rejected, start, World, Outcome, accepted, ambiguous,
  refused, StartError, acceptance_unknown_turn, owner_target_locked, conversation_locked,
  store_failed, hermes_failed, history_missing, queue_failed, submitted, opened, connected,
  inserted, noted, has_both_roles,
}
use hermes_voice_console.Coordinator.Emit.{emit}
use hermes_voice_console.Coordinator.Conversations.{runs-load_history}
use hermes_voice_console.Coordinator.Fence.{
  is_fenced, start_refused, has_turn, open_turn-has_turn, update_run-is_fenced, unknown_change,
}

-- Any error but `AcceptanceUnknown`.
abbrev pub IsPlain : StartError → Type 0
IsPlain (acceptance_unknown_turn k) = ⊥
IsPlain owner_target_locked = Unit {0}
IsPlain (conversation_locked s) = Unit {0}
IsPlain (store_failed e) = Unit {0}
IsPlain hermes_failed = Unit {0}
IsPlain history_missing = Unit {0}
IsPlain (queue_failed e) = Unit {0}

abbrev RaisesPlain {ℓ} : {A : Type ℓ} → Result StartError A → Type 0
RaisesPlain (ok x) = Unit {0}
RaisesPlain (err e) = IsPlain e

abbrev Started : Type 0
Started = Coordinator × Result StartError (RunRecord × ℕ)

-- If the call raises `AcceptanceUnknown`, the owner and target are fenced off.
abbrev FencesOff : Text → Text → Started → Type 0
FencesOff owner target (c, ok x) = Unit {0}
FencesOff owner target (c, err (acceptance_unknown_turn k)) = is_fenced c.store owner target ≡ true
FencesOff owner target (c, err owner_target_locked) = Unit {0}
FencesOff owner target (c, err (conversation_locked s)) = Unit {0}
FencesOff owner target (c, err (store_failed e)) = Unit {0}
FencesOff owner target (c, err hermes_failed) = Unit {0}
FencesOff owner target (c, err history_missing) = Unit {0}
FencesOff owner target (c, err (queue_failed e)) = Unit {0}

plain-FencesOff :
    (owner target : Text) (c : Coordinator) (e : StartError)
    → IsPlain e
    → FencesOff owner target (c, err e)
plain-FencesOff owner target c (acceptance_unknown_turn k) p = absurd p
plain-FencesOff owner target c owner_target_locked p = tt
plain-FencesOff owner target c (conversation_locked s) p = tt
plain-FencesOff owner target c (store_failed e) p = tt
plain-FencesOff owner target c hermes_failed p = tt
plain-FencesOff owner target c history_missing p = tt
plain-FencesOff owner target c (queue_failed e) p = tt

inserted-RaisesPlain : (r : ConsoleStore × Result StoreError RunRecord) → RaisesPlain (inserted r).1
inserted-RaisesPlain (s, err e) = tt
inserted-RaisesPlain (s, ok r) = tt

open_turn-RaisesPlain :
    (s : ConsoleStore) (target : Text) (c : SessionRecord) (turn k : Text) (now : ℕ)
    → RaisesPlain (open_turn s target c turn k now).1
unfolding open_turn
open_turn-RaisesPlain s target c turn k now =
    elim (Option-cases (acceptance_unknown_for_owner_target s c.owner_key target)) [
      | inr (fence, f) ↦ rw (f, open_turn) tt
      | inl f ↦ elim (Option-cases (active_run_for_conversation s c.conversation_id c.owner_key)) [
        | inr (old, o) ↦ rw (f, o, open_turn) tt
        | inl o ↦
            rw (f, o, open_turn)
              (inserted-RaisesPlain (insert_run s k target c turn submitting now))
      ]
    ]

judged-RaisesPlain :
    (prior : Bool) (rest : Loaded)
    (tried : ConsoleStore × Result StoreError (SessionRecord × List HistoryItem))
    → RaisesPlain rest.1
    → RaisesPlain (judged prior rest tried).1
judged-RaisesPlain prior rest (s, err e) p = tt
judged-RaisesPlain prior rest (s, ok (c, h)) p = elim (Bool-cases (not prior || has_both_roles h)) [
  | inl e ↦ rw e tt
  | inr e ↦ rw e p
]

load_history-RaisesPlain :
    (n i : ℕ) (s : ConsoleStore) (c : SessionRecord) (prior : Bool) (answers : Answers)
    → RaisesPlain (load_history n i s c prior answers).1
unfolding load_history
load_history-RaisesPlain zero i s c prior answers = tt
load_history-RaisesPlain (suc n) i s c prior answers =
    let tried = read_history s c (answers i) (s, err key_error) in
    judged-RaisesPlain prior (load_history n (suc i) tried.0 c prior answers) tried
      (load_history-RaisesPlain n (suc i) tried.0 c prior answers)

announced-FencesOff :
    (owner target : Text) (a q : ℕ) (r : Coordinator × Result StoreError (Unit {0}))
    → FencesOff owner target (announced a q r)
announced-FencesOff owner target a q (c, err x) = tt
announced-FencesOff owner target a q (c, ok _) = tt

subscribed-FencesOff :
    (owner target : Text) (a : ℕ) (e : Event) (t : Stamp)
    (r : Coordinator × Result SubscribeError ℕ)
    → FencesOff owner target (subscribed a e t r)
subscribed-FencesOff owner target a e t (c, err x) = tt
subscribed-FencesOff owner target a e t (c, ok q) =
    announced-FencesOff owner target a q (emit c a e t)

launched-FencesOff :
    (owner target : Text) (c : Coordinator) (run_id turn : Text) (t : Stamp)
    (r : ConsoleStore × Result StoreError RunRecord)
    → FencesOff owner target (launched c run_id turn t r)
launched-FencesOff owner target c run_id turn t (s, err x) = tt
launched-FencesOff owner target c run_id turn t (s, ok r) =
    subscribed-FencesOff owner target c.fresh_object _ t _

noted-FencesOff :
    (owner target : Text) (c : Coordinator) (e : StartError)
    (r : ConsoleStore × Result StoreError RunRecord)
    → IsPlain e
    → FencesOff owner target (noted c e r)
noted-FencesOff owner target c e (s, err x) p = tt
noted-FencesOff owner target c e (s, ok r) p =
    plain-FencesOff owner target (record c { store = s }) e p

noted_unknown-FencesOff :
    (owner target k : Text) (c : Coordinator) (t : Stamp)
    (r : ConsoleStore × Result StoreError RunRecord)
    → has_turn c.store k owner target ≡ true
    → update_run c.store k unknown_change t ≡ r
    → FencesOff owner target (noted c (acceptance_unknown_turn k) r)
noted_unknown-FencesOff owner target k c t (s, err x) h u = tt
noted_unknown-FencesOff owner target k c t (s, ok r) h u =
    update_run-is_fenced c.store s k owner target t r h u

close_turn-FencesOff :
    (owner target k turn : Text) (c : Coordinator) (o : Outcome) (t t' : Stamp)
    → has_turn c.store k owner target ≡ true
    → FencesOff owner target (close_turn c k turn o t t')
unfolding close_turn launch fail_ambiguous fail_rejected
close_turn-FencesOff owner target k turn c (accepted run_id) t t' h =
    launched-FencesOff owner target c run_id turn t' _
close_turn-FencesOff owner target k turn c ambiguous t t' h =
    noted_unknown-FencesOff owner target k c t _ h refl
close_turn-FencesOff owner target k turn c refused t t' h =
    noted-FencesOff owner target c hermes_failed _ tt

submitted-FencesOff :
    (owner target : Text) (c : Coordinator) (turn : Text) (w : World) (r : Loaded)
    → RaisesPlain r.1
    → has_turn r.0 w.local_turn_id owner target ≡ true
    → FencesOff owner target (submitted c turn w r)
unfolding fail_rejected
submitted-FencesOff owner target c turn w (s, err e) p h =
    noted-FencesOff owner target (record c { store = s }) e _ p
submitted-FencesOff owner target c turn w (s, ok x) p h =
    close_turn-FencesOff owner target w.local_turn_id turn (record c { store = s }) w.outcome _ _ h

connected-FencesOff :
    (owner target : Text) (b : Bool) (c : Coordinator)
    (started : Coordinator × Result StartError (RunRecord × ℕ))
    → FencesOff owner target started
    → FencesOff owner target (connected b c started)
connected-FencesOff owner target true c started h = h
connected-FencesOff owner target false c started h = plain-FencesOff owner target c hermes_failed tt

opened-FencesOff :
    (owner target : Text) (c : Coordinator) (conv : SessionRecord) (turn : Text) (w : World)
    (r : ConsoleStore × Result StartError RunRecord)
    → RaisesPlain r.1
    → ((row : RunRecord) → r.1 ≡ ok row → has_turn r.0 w.local_turn_id owner target ≡ true)
    → FencesOff owner target (opened c conv turn w r)
opened-FencesOff owner target c conv turn w (s, err e) p h =
    plain-FencesOff owner target (record c { store = s }) e p
opened-FencesOff owner target c conv turn w (s, ok row) p h =
    let prior = has_completed_run s conv.conversation_id conv.owner_key in
    connected-FencesOff owner target w.transport_made (record c { store = s }) _
      (submitted-FencesOff owner target c turn w (load_history 3 0 s conv prior w.answers)
        (load_history-RaisesPlain 3 0 s conv prior w.answers)
        (rw (runs-load_history 3 0 s conv prior w.answers) (h row refl)))

start-FencesOff :
    (c : Coordinator) (target : Text) (conv : SessionRecord) (turn : Text) (w : World)
    → FencesOff conv.owner_key target (start c target conv turn w)
unfolding start
start-FencesOff c target conv turn w =
    opened-FencesOff conv.owner_key target c conv turn w _
      (open_turn-RaisesPlain c.store target conv turn w.local_turn_id w.inserted_at)
      (λ row e.
        open_turn-has_turn c.store _ target conv turn w.local_turn_id w.inserted_at row
          (λ i. ((open_turn c.store target conv turn w.local_turn_id w.inserted_at).0, e i)))

-- Where `start` raises `AcceptanceUnknown`, a run of the owner and target stands in the store with an
-- unknown outcome.
pub start_ambiguous :
    (c c' : Coordinator) (target : Text) (conv : SessionRecord) (turn k : Text) (w : World)
    → start c target conv turn w ≡ (c', err (acceptance_unknown_turn k))
    → is_fenced c'.store conv.owner_key target ≡ true
start_ambiguous c c' target conv turn k w h =
    subst (FencesOff conv.owner_key target) h (start-FencesOff c target conv turn w)

-- Once `start` has raised `AcceptanceUnknown`, the next call for the same owner and target raises and
-- changes nothing, whatever its conversation, its turn and the answers of the world are.
pub start_after_ambiguous :
    (c c' : Coordinator) (target : Text) (conv later : SessionRecord) (turn k next : Text)
    (w w' : World)
    → start c target conv turn w ≡ (c', err (acceptance_unknown_turn k))
    → later.owner_key ≡ conv.owner_key
    → (e : StartError) × (start c' target later next w' ≡ (c', err e))
start_after_ambiguous c c' target conv later turn k next w w' h same =
    start_refused c' target later next w' (ground (arith, fenced))
  where
    fenced : is_fenced c'.store later.owner_key target ≡ true
    fenced =
        subst (λ o. is_fenced c'.store o target ≡ true) (sym same)
          (start_ambiguous c c' target conv turn k w h)
