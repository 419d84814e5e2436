-- ===== src/DistributionService.antt =====
-- backend/app/services/distribution_service.py: items that participants pick up, and the end of a
-- run. `get_distribution_summary`, which only formats, is not modelled.
pub mod Notified
pub mod Completion
use bulq.Common.{ℕ, Bool, false, not, Option, none, some, List, [], ◌∷◌, any, is_some, ◌&&◌}
use bulq.Common.Int.{ℤ, pos, eqb_ℤ}
use bulq.RunState.{RunState, completed, can_complete_distribution}
use bulq.Error.{
  bad_request, not_found, bid_not_found, run_not_in_distributing_state,
  cannot_complete_distribution_unpurchased_items,
}
use bulq.Model.{User, Run, RunParticipation, ProductBid, NotificationData, run_state_changed_data}
use bulq.Storage.{Action, pure, raise_if, ◌>>=◌, ◌>>◌}
use bulq.Access.{require_run, require_leader, require_leader_or_helper}
use bulq.Repo.Directory.{get_all_stores, store_name_in}
use bulq.Repo.Runs.{get_run_participations, update_run_state}
use bulq.Repo.Bids.{get_bids_by_run, get_bid_by_id, set_picked_up}
use bulq.Repo.Notifications.{create_notification}

unfoldable pub mark_picked_up : ℕ → ℕ → User → Action (Unit {0})
mark_picked_up run_id bid_id current_user = do
  require_run run_id
  require_leader_or_helper run_id current_user
  bid ← get_bid_by_id bid_id
  raise_if (not (is_some bid)) (not_found bid_not_found)
  set_picked_up bid_id

-- the truth value of a quantity: `None` and 0 count as false
abbrev pub is_truthy : Option ℤ → Bool
is_truthy none = false
is_truthy (some q) = not (eqb_ℤ q (pos 0))

-- `not bid.interested_only and bid.distributed_quantity and not bid.is_picked_up`
abbrev pub is_unpicked : ProductBid → Bool
is_unpicked b = not b.interested_only && (is_truthy b.distributed_quantity && not b.is_picked_up)

-- One notification for each participant; the broadcast over WebSocket is not modelled.
unfoldable pub notify_participants : NotificationData → List RunParticipation → Action (Unit {0})
notify_participants content [] = pure tt
notify_participants content (p ∷ ps) = do
  create_notification p.user_id content
  notify_participants content ps

unfoldable pub notify_run_state_change : Run → RunState → RunState → Action (Unit {0})
notify_run_state_change run old_state new_state = do
  all_stores ← get_all_stores
  participations ← get_run_participations run.id
  notify_participants
      (run_state_changed_data run.id (store_name_in all_stores run) old_state new_state
        run.group_id)
      participations

unfoldable pub complete_distribution : ℕ → User → Action RunState
complete_distribution run_id current_user = do
  run ← require_run run_id
  require_leader run_id current_user
  raise_if (not (can_complete_distribution run.state)) (bad_request run_not_in_distributing_state)
  all_bids ← get_bids_by_run run_id
  raise_if (any is_unpicked all_bids) (bad_request cannot_complete_distribution_unpurchased_items)
  update_run_state run_id completed
  notify_run_state_change run run.state completed
  pure completed
