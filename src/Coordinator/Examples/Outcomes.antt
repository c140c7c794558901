-- ===== src/Coordinator/Examples/Outcomes.antt =====
-- Runs of approvals, acknowledgements, reconciliations and ambiguous submissions.
use hermes_voice_console.Prelude.{
  select, latest, update_where, first, ℕ, zero, suc, ◌≡◌, refl, some, none, text_Eq, text_eq, codes,
  ok, err, any,
}
use hermes_voice_console.RunStore.{running}
use hermes_voice_console.RunStore.Runs.{
  is_run, has_completed_run, insert_run, active_run_for_conversation,
  acceptance_unknown_for_owner_target, apply_change, require_run, run_id_taken, update_run, locks,
  fences,
}
use hermes_voice_console.SessionManager.{history_items, resolved_id, history}
use hermes_voice_console.Coordinator.{Coordinator, get_active}
use hermes_voice_console.Coordinator.Emit.{event_change, emitted, emit}
use hermes_voice_console.Coordinator.Start.{
  has_both_roles, fail_ambiguous, close_turn, load_history, open_turn, start, World, ambiguous,
  acceptance_unknown_turn, StartError,
}
use hermes_voice_console.Coordinator.Ambiguity.{start_after_ambiguous}
use hermes_voice_console.Coordinator.Reconcile.{RunReply, document, Stamps}
use hermes_voice_console.Coordinator.Control.{approve_after, acknowledge_lost_turn}
use hermes_voice_console.Coordinator.Lifecycle.{approve-status, acknowledge_lost_turn-active}
use hermes_voice_console.Coordinator.Examples.{talk, home, quiet, clock, world}

abbrev approved : Coordinator
approved = (approve_after home 0 (codes "r1") (codes "once") clock).0

approved_ok : approve_after home 0 (codes "r1") (codes "once") clock ≡ (approved, ok tt)
unfolding approve_after emit emitted update_run run_id_taken event_change require_run text_eq first
    update_where apply_change
approved_ok = refl

approve-status_example : (approved.object 0).run_record.status ≡ running
approve-status_example =
    approve-status home approved 0 (codes "r1") (codes "once") clock refl approved_ok

acknowledge_lost_turn-active_example :
    get_active (acknowledge_lost_turn home (codes "r1") (codes "o2") clock).0.active (codes "r1")
    ≡ none
acknowledge_lost_turn-active_example =
    acknowledge_lost_turn-active home (codes "r1") (codes "o2") clock

-- Hermes says at first that the run is under way, and then that it is complete.
abbrev replies : ℕ → RunReply × Stamps
replies zero = (document (some (codes "running")) none, (clock, clock))
replies (suc i) = (document (some (codes "Completed")) (some (codes "done")), (clock, clock))

-- The submission may or may not have been accepted.
abbrev silent : World
silent = record world { outcome = ambiguous }

abbrev in_doubt : Coordinator
in_doubt = (start quiet (codes "home") talk (codes "t1") silent).0

in_doubt_raised :
    start quiet (codes "home") talk (codes "t1") silent
    ≡ (in_doubt, err (acceptance_unknown_turn (codes "l1")))
unfolding start open_turn acceptance_unknown_for_owner_target latest select
    active_run_for_conversation insert_run any text_eq require_run first load_history history
    has_completed_run close_turn fail_ambiguous update_run run_id_taken update_where apply_change
    fences is_run locks resolved_id history_items has_both_roles
in_doubt_raised = refl

start_after_ambiguous_example :
    (e : StartError) × (start in_doubt
        (codes "home")
        (record talk { conversation_id = codes "c2" })
        (codes "t2")
        world
      ≡ (in_doubt, err e))
start_after_ambiguous_example =
    start_after_ambiguous quiet in_doubt (codes "home") talk
      (record talk { conversation_id = codes "c2" }) (codes "t1") (codes "l1") (codes "t2") silent
      world in_doubt_raised refl
