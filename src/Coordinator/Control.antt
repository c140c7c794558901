-- ===== src/Coordinator/Control.antt =====
-- `approve`, `stop`, the acknowledgements and `recover` of
-- backend/voice_console/run_coordinator.py. What waits for Hermes is in two parts: up to the call, and
-- from its answer on.
use hermes_voice_console.Prelude.{
  ℕ, ◌-◌, Bool, true, false, ◌&&◌, ◌||◌, not, Option, none, some, List, [], ◌∷◌, Text, text_Eq,
  ◌==◌, codes, Result, ok, err, if◌then◌else◌,
}
use hermes_voice_console.RunStore.{
  RunRecord, StoreError, is_terminal, is_falsy, is_acceptance_unknown, is_unrecoverable, Writing,
}
use hermes_voice_console.RunStore.Runs.{
  Stamp, require_run, acknowledge_unknown, acknowledge_unrecoverable, cleanup_terminal,
  list_recoverable_runs, or_empty,
}
use hermes_voice_console.Coordinator.{
  EventType, Event, Body, Coordinator, get_active, pop_active, approval, result,
  agent_approval_request, agent_approval_resolved, agent_stop_requested,
}
use hermes_voice_console.Coordinator.Emit.{emit}
use hermes_voice_console.Coordinator.Start.{register}

pub data ControlError : Type 0 where
  store_raised : StoreError → ControlError
  context_unavailable : ControlError
  persistent_unauthorized : ControlError

abbrev is_request : EventType → Bool
is_request agent_approval_request = true
is_request _ = false

abbrev permits : Body → Bool
permits (approval b) = b
permits _ = false

-- `approval_events[-1].get("approval")` is an object whose `allow_permanent` is `True`
unfoldable pub allows_permanent : List Event → Bool → Bool
allows_permanent [] latest = latest
allows_permanent (e ∷ es) latest =
    allows_permanent es (if is_request e.type then permits e.body else latest)

abbrev pub checked_active :
    Coordinator → Text → Result StoreError RunRecord → Option ℕ → Result ControlError ℕ
checked_active c decision (err e) o = err (store_raised e)
checked_active c decision (ok r) none = err context_unavailable
checked_active c decision (ok r) (some a) =
    if decision == codes "always" && not (allows_permanent (c.object a).events false)
    then err persistent_unauthorized
    else ok a

-- `approve`, up to the call of Hermes: the object that the approval goes to
unfoldable pub approve_before : Coordinator → Text → Text → Text → Result ControlError ℕ
approve_before c run_id decision owner_key =
    checked_active c decision (require_run c.store none (some run_id) (some owner_key))
      (get_active c.active run_id)

-- `approve`, from the answer of Hermes on
unfoldable pub approve_after :
    Coordinator → ℕ → Text → Text → Stamp → Coordinator × Result StoreError (Unit {0})
approve_after c a run_id answer t =
    if is_terminal (c.object a).run_record.status
    then (c, ok tt)
    else emit c a
        (record {
          type = agent_approval_resolved;
          run_id = some run_id;
          turn_id = none;
          sequence = 0;
          body = result answer;
        })
        t

abbrev stoppable : Result StoreError RunRecord → Option ℕ → Result StoreError (Option ℕ)
stoppable (err e) o = err e
stoppable (ok r) o = ok o

-- `stop`, up to the call of Hermes: the object of the run, if it has one
unfoldable pub stop_before : Coordinator → Text → Text → Result StoreError (Option ℕ)
stop_before c run_id owner_key =
    stoppable (require_run c.store none (some run_id) (some owner_key)) (get_active c.active run_id)

-- `stop`, from the answer of Hermes on
unfoldable pub stop_after :
    Coordinator → Option ℕ → Text → Text → Stamp → Coordinator × Result StoreError (Unit {0})
stop_after c none run_id answer t = (c, ok tt)
stop_after c (some a) run_id answer t =
    emit c a
      (record {
        type = agent_stop_requested;
        run_id = some run_id;
        turn_id = none;
        sequence = 0;
        body = result answer;
      })
      t

abbrev pub stored : {A : Type 0} → Coordinator → Writing A → Coordinator × Result StoreError A
stored c (s, r) = (record c { store = s }, r)

-- `RunCoordinator.acknowledge_unknown`
unfoldable pub acknowledge_unknown_turn :
    Coordinator → Text → Text → Stamp → Coordinator × Result StoreError RunRecord
acknowledge_unknown_turn c local_turn_id owner_key t =
    stored c (acknowledge_unknown c.store local_turn_id owner_key t)

-- `RunCoordinator.acknowledge_unrecoverable`: the run leaves `_active` first.
unfoldable pub acknowledge_lost_turn :
    Coordinator → Text → Text → Stamp → Coordinator × Result StoreError RunRecord
acknowledge_lost_turn c run_id owner_key t =
    stored (record c { active = pop_active c.active run_id })
      (acknowledge_unrecoverable c.store run_id owner_key t)

-- The runs that `recover` takes up again.
unfoldable pub is_resumed : RunRecord → Bool
is_resumed r =
    not (is_falsy r.run_id || is_acceptance_unknown r.status || is_unrecoverable r.status)

unfoldable pub resume_all : Coordinator → List RunRecord → Coordinator
unfolding register
resume_all c [] = c
resume_all c (r ∷ rs) = resume_all (if is_resumed r then register c (or_empty r.run_id) r else c) rs

-- `recover`, up to the start of its tasks; the targets of the runs are configured
unfoldable pub recover : Coordinator → ℕ → Coordinator
unfolding resume_all
recover c now =
    let s = (cleanup_terminal c.store (now - c.terminal_retention_seconds)).0 in
    resume_all (record c { store = s }) (list_recoverable_runs s)
