-- ===== src/BidService/Methods.antt =====
-- `BidService`: `place_bid` and `retract_bid` with their steps.
use bulq.Common.{
  ℕ, Bool, true, false, not, Option, none, some, keep, String, is_some, ◌&&◌, if◌then◌else◌,
}
use bulq.Common.Int.{ℤ, pos, ltb_ℤ, eqb_ℤ}
use bulq.RunState.{
  planning, active, adjusting, is_state, can_place_bid, can_join_run, can_retract_bid,
}
use bulq.Error.{
  bad_request, not_found, invalid_run_state_transition, product_not_found, bid_not_found,
  cannot_join_run_in_adjusting_state, cannot_bid_new_product_in_adjusting, bid_quantity_negative,
  cannot_retract_bid_in_adjusting,
}
use bulq.Model.{User, Run, RunParticipation, ProductBid, bid_placed, bid_retracted}
use bulq.Storage.{Action, IdText, pure, raise, raise_if, emit, validate_uuid, ◌>>=◌, ◌>>◌}
use bulq.Access.{require_run, require_member, get_user_participation}
use bulq.Repo.Directory.{get_product_by_id}
use bulq.Repo.Runs.{get_participation, create_participation, update_run_state}
use bulq.Repo.Bids.{get_bids_by_run, get_bid, create_or_update_bid, delete_bid}
use bulq.RunStateService.Share.{total_quantity, is_product_bid}
use bulq.BidService.Limit.{check_product_limit}
use bulq.BidService.Adjusting.{validate_adjusting_bid, check_adjusting_constraints_for_retraction}

unfoldable pub get_run_with_auth_check : ℕ → User → Action Run
get_run_with_auth_check run_uuid user = do
  run ← require_run run_uuid
  require_member run user
  pure run

-- the run's id, the product's id and the run
unfoldable pub validate_bid_request : IdText → IdText → User → Action (ℕ × ℕ × Run)
validate_bid_request run_id product_id user = do
  run_uuid ← validate_uuid run_id
  product_uuid ← validate_uuid product_id
  run ← get_run_with_auth_check run_uuid user
  raise_if (not (can_place_bid run.state)) (bad_request invalid_run_state_transition)
  product ← get_product_by_id product_uuid
  raise_if (not (is_some product)) (not_found product_not_found)
  pure (run_uuid, product_uuid, run)

-- the participation and whether it is new, on what `get_participation` found
unfoldable pub join_run :
    ℕ → Run → User → Option RunParticipation → Action (RunParticipation × Bool)
join_run run_uuid run user (some participation) = pure (participation, false)
join_run run_uuid run user none = do
  raise_if (not (can_join_run run.state)) (bad_request cannot_join_run_in_adjusting_state)
  participation ← create_participation user.id run_uuid false false
  pure (participation, true)

unfoldable pub ensure_user_participation : ℕ → Run → User → Action (RunParticipation × Bool)
ensure_user_participation run_uuid run user = do
  participation ← get_participation user.id run_uuid
  join_run run_uuid run user participation

-- The state-specific validation at the end of `_validate_bid_for_state`.
unfoldable pub validate_in_adjusting : Run → ℕ → ℤ → Option ProductBid → Action (Unit {0})
validate_in_adjusting run product_uuid quantity none =
    raise (bad_request cannot_bid_new_product_in_adjusting)
validate_in_adjusting run product_uuid quantity (some existing_bid) =
    validate_adjusting_bid run.id product_uuid quantity existing_bid

unfoldable pub validate_bid_for_state :
    ℕ → Run → ℕ → ℤ → RunParticipation → Action (Option ProductBid)
validate_bid_for_state max_products run product_uuid quantity participation = do
  raise_if (ltb_ℤ quantity (pos 0)) (bad_request bid_quantity_negative)
  existing_bid ← get_bid participation.id product_uuid
  if is_some existing_bid then pure tt else check_product_limit max_products run.id
  if is_state run.state adjusting
      then validate_in_adjusting run product_uuid quantity existing_bid
      else pure tt
  pure existing_bid

-- Under `if quantity == 0 and not interested_only`.
unfoldable pub remove_bid : ℕ → ℕ → Action (Unit {0})
remove_bid participation_id product_uuid = do
  existing_bid ← get_bid participation_id product_uuid
  if is_some existing_bid then delete_bid participation_id product_uuid >> pure tt else pure tt

-- A quantity of 0 removes the bid, if there is one; any other creates or updates it.
unfoldable pub record_bid : ℕ → ℕ → ℤ → Bool → Option String → Action (Unit {0})
record_bid participation_id product_uuid quantity interested_only comment =
    if eqb_ℤ quantity (pos 0) && not interested_only
    then remove_bid participation_id product_uuid
    else create_or_update_bid participation_id product_uuid quantity interested_only comment
      >> pure tt

unfoldable pub check_planning_to_active_transition : Run → Bool → RunParticipation → Action Bool
check_planning_to_active_transition run is_new_participant participation =
    if is_new_participant && (not participation.is_leader && is_state run.state planning)
    then update_run_state run.id active >> pure true
    else pure false

unfoldable pub calculate_product_total : ℕ → ℕ → Action ℤ
calculate_product_total run_id product_id = do
  all_bids ← get_bids_by_run run_id
  pure (total_quantity (keep (is_product_bid product_id) all_bids))

-- What `place_bid` does once the user is in the run.
unfoldable pub bid_in_run :
    ℕ → ℕ → ℕ → Run → ℤ → Bool → User → Option String → RunParticipation × Bool → Action (ℤ × Bool)
bid_in_run max_products run_uuid product_uuid run quantity interested_only user comment ensured = do
  let (participation, is_new_participant) = ensured
  validate_bid_for_state max_products run product_uuid quantity participation
  record_bid participation.id product_uuid quantity interested_only comment
  state_changed ← check_planning_to_active_transition run is_new_participant participation
  new_total ← calculate_product_total run_uuid product_uuid
  emit (
      bid_placed run_uuid product_uuid user.id user.name quantity interested_only new_total
        run.group_id)
  pure (new_total, state_changed)

-- The result is the new total and whether the run became active.
unfoldable pub place_bid : ℕ → IdText → IdText → ℤ → Bool → User → Option String → Action (ℤ × Bool)
place_bid max_products run_id product_id quantity interested_only user comment = do
  validated ← validate_bid_request run_id product_id user
  let (run_uuid, product_uuid, run) = validated
  ensured ← ensure_user_participation run_uuid run user
  bid_in_run max_products run_uuid product_uuid run quantity interested_only user comment ensured

unfoldable pub validate_retract_request : IdText → IdText → User → Action (ℕ × ℕ × Run)
validate_retract_request run_id product_id user = do
  run_uuid ← validate_uuid run_id
  product_uuid ← validate_uuid product_id
  run ← require_run run_uuid
  require_member run user
  raise_if (not (can_retract_bid run.state)) (bad_request cannot_retract_bid_in_adjusting)
  pure (run_uuid, product_uuid, run)

unfoldable pub remove_bid_and_recalculate : RunParticipation → ℕ → Action (Unit {0})
remove_bid_and_recalculate participation product_id = do
  bid ← get_bid participation.id product_id
  raise_if (not (is_some bid)) (not_found bid_not_found)
  delete_bid participation.id product_id
  pure tt

-- The result is the new total.
unfoldable pub retract_bid : IdText → IdText → User → Action ℤ
retract_bid run_id product_id user = do
  validated ← validate_retract_request run_id product_id user
  let (run_uuid, product_uuid, run) = validated
  check_adjusting_constraints_for_retraction run run_uuid product_uuid user.id
  participation ← get_user_participation user.id run_uuid
  remove_bid_and_recalculate participation product_uuid
  new_total ← calculate_product_total run_uuid product_uuid
  emit (bid_retracted run_uuid product_uuid user.id new_total run.group_id)
  pure new_total
