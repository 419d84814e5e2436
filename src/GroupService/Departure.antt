-- ===== src/GroupService/Departure.antt =====
-- `_find_and_cancel_affected_runs`: what a member who goes leaves behind in the group's runs. The two
-- lists of runs that the source returns serve the broadcasts only.
use bulq.Common.{
  ℕ, Bool, false, not, Option, none, some, List, [], ◌∷◌, find?, ◌==◌, ◌&&◌, if◌then◌else◌,
}
use bulq.Error.{bad_request, group_member_removal_failed}
use bulq.RunState.{completed, cancelled, is_state, in_states}
use bulq.Model.{Run, RunParticipation, ProductBid, member_removed}
use bulq.Storage.{Action, pure, raise_if, emit, ◌>>=◌, ◌>>◌}
use bulq.Repo.Runs.{get_runs_by_group, get_run_participations, set_removed, set_cancelled}
use bulq.Repo.Bids.{get_bids_by_participation, delete_bid}
use bulq.Repo.Groups.{remove_group_member}

-- One round of the loop that marks the member's participations and keeps the id of the last.
unfoldable pub mark_removed : ℕ → RunParticipation → Option ℕ → Action (Option ℕ)
mark_removed member_id participation last =
    if participation.user_id == member_id
    then (set_removed participation.id >> pure (some participation.id))
    else pure last

unfoldable pub mark_all_removed : ℕ → List RunParticipation → Option ℕ → Action (Option ℕ)
mark_all_removed member_id [] last = pure last
mark_all_removed member_id (p ∷ participations) last = do
  marked ← mark_removed member_id p last
  mark_all_removed member_id participations marked

unfoldable pub delete_bids : ℕ → List ProductBid → Action (Unit {0})
delete_bids participation_id [] = pure tt
delete_bids participation_id (bid ∷ bids) = do
  delete_bid participation_id bid.product_id
  delete_bids participation_id bids

-- The bids of the participation are deleted, unless the run is over.
unfoldable pub drop_bids : Run → Option ℕ → Action (Unit {0})
drop_bids run none = pure tt
drop_bids run (some user_participation_id) =
    if not (in_states run.state (completed ∷ cancelled ∷ []))
    then (get_bids_by_participation user_participation_id >>= delete_bids user_participation_id)
    else pure tt

-- `leader and leader.user_id == member_id`
abbrev pub is_leader_of : ℕ → Option RunParticipation → Bool
is_leader_of member_id none = false
is_leader_of member_id (some leader) = leader.user_id == member_id

unfoldable pub cancel_if_led : ℕ → Run → List RunParticipation → Action (Unit {0})
cancel_if_led member_id run participations =
    if is_leader_of member_id (find? (λ (p : RunParticipation). p.is_leader) participations)
      && not (is_state run.state completed)
    then set_cancelled run.id
    else pure tt

unfoldable pub leave_runs : ℕ → List Run → Action (Unit {0})
leave_runs member_id [] = pure tt
leave_runs member_id (run ∷ runs) = do
  participations ← get_run_participations run.id
  user_participation_id ← mark_all_removed member_id participations none
  drop_bids run user_participation_id
  cancel_if_led member_id run participations
  leave_runs member_id runs

unfoldable pub find_and_cancel_affected_runs : ℕ → ℕ → Action (Unit {0})
find_and_cancel_affected_runs group_id member_id = do
  success ← remove_group_member group_id member_id
  raise_if (not success) (bad_request group_member_removal_failed)
  runs ← get_runs_by_group group_id
  leave_runs member_id runs

-- The event of `_broadcast_removal_notifications`, which names the member as the one who removes.
unfoldable pub broadcast_removal_notifications : ℕ → ℕ → Action (Unit {0})
broadcast_removal_notifications group_id member_id =
    emit (member_removed group_id member_id member_id)
