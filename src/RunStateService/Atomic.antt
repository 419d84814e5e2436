-- ===== src/RunStateService/Atomic.antt =====
-- A method of `RunStateService` that raises has changed nothing.
use bulq.Common.{ℕ, Option, none, some}
use bulq.Model.{User, Run, RunParticipation}
use bulq.RunState.{RunState}
use bulq.Storage.{IdText}
use bulq.Storage.Rules.{IsAtomic, IsAtomic-bind_last, Reads, Returns, atomic_rules, returns_rules}
use bulq.Access.Reads.{access_reads, Returns-get_all_stores, Returns-get_run_by_id}
use bulq.Repo.Runs.{update_run_state, move_run, update_participation_ready}
use bulq.RunStateService.Transition.{transition_run_state}
use bulq.RunStateService.Methods.{
  validate_toggle_ready_request, toggle_user_ready_status, toggle_ready, force_confirm, cancel_run,
}

IsAtomic-move_run : (i : ℕ) (t : RunState) (r : Option Run) → IsAtomic (move_run i t r)
unfolding move_run
IsAtomic-move_run i t none = search atomic_rules
IsAtomic-move_run i t (some r) = search (atomic_rules, Returns-get_run_by_id)

pub IsAtomic-update_run_state : (i : ℕ) (t : RunState) → IsAtomic (update_run_state i t)
unfolding update_run_state
IsAtomic-update_run_state i t = search (atomic_rules, access_reads, IsAtomic-move_run)

pub IsAtomic-transition_run_state : (r : Run) (t : RunState) → IsAtomic (transition_run_state r t)
unfolding transition_run_state
IsAtomic-transition_run_state r t = search (
  atomic_rules, access_reads, IsAtomic-update_run_state, IsAtomic-bind_last, Returns-get_all_stores,
)

pub Reads-validate_toggle_ready_request :
    (run_id : IdText) (user : User) → Reads (validate_toggle_ready_request run_id user)
unfolding validate_toggle_ready_request
Reads-validate_toggle_ready_request run_id user = search access_reads depth 12

Returns-toggle_user_ready_status : (p : RunParticipation) → Returns (toggle_user_ready_status p)
unfolding toggle_user_ready_status update_participation_ready
Returns-toggle_user_ready_status p = search returns_rules

pub IsAtomic-toggle_ready : (run_id : IdText) (user : User) → IsAtomic (toggle_ready run_id user)
unfolding toggle_ready
IsAtomic-toggle_ready run_id user =
    search
      (
        atomic_rules, access_reads, Reads-validate_toggle_ready_request,
        Returns-toggle_user_ready_status,
      )
      depth 12

pub IsAtomic-force_confirm : (run_id : IdText) (user : User) → IsAtomic (force_confirm run_id user)
unfolding force_confirm
IsAtomic-force_confirm run_id user =
    search (atomic_rules, access_reads, IsAtomic-transition_run_state, IsAtomic-bind_last) depth 12

pub IsAtomic-cancel_run : (run_id : IdText) (user : User) → IsAtomic (cancel_run run_id user)
unfolding cancel_run
IsAtomic-cancel_run run_id user =
    search
      (
        atomic_rules, access_reads, IsAtomic-transition_run_state, IsAtomic-bind_last,
        Returns-get_all_stores,
      )
      depth 12
