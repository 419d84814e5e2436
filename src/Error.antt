-- ===== src/Error.antt =====
-- The exceptions that the services raise: the classes of backend/app/core/exceptions.py, each with
-- one of the codes of backend/app/core/error_codes.py. Messages and details are not modelled.

-- The codes that the modelled services use.
pub data Code : Type 0 where
  invalid_uuid_format invalid_run_state_transition : Code
  run_not_found product_not_found bid_not_found participation_not_found : Code
  not_run_participant not_run_leader not_run_leader_or_helper : Code
  run_not_in_active_state run_not_in_confirmed_state run_not_in_adjusting_state : Code
  run_not_in_distributing_state : Code
  cannot_cancel_completed_run run_already_cancelled : Code
  cannot_join_run_in_adjusting_state cannot_bid_new_product_in_adjusting : Code
  cannot_retract_bid_in_adjusting run_max_products_exceeded : Code
  bid_product_not_in_shopping_list bid_quantity_negative : Code
  bid_quantity_exceeds_purchased bid_quantity_below_distributed : Code
  cannot_complete_distribution_unpurchased_items : Code
  reassignment_request_not_found reassignment_not_target_user : Code
  reassignment_request_already_resolved reassignment_request_already_exists : Code
  reassignment_cannot_transfer_to_self reassignment_target_not_participant user_not_found : Code
  reassignment_not_current_leader : Code
  invalid_id_format run_not_in_shopping_state shopping_list_item_not_found : Code
  shopping_item_not_purchased helper_not_group_member cannot_assign_leader_as_helper : Code
  group_not_found not_group_member store_not_found group_max_active_runs_exceeded : Code
  not_group_admin group_joining_disabled already_group_member user_max_groups_exceeded : Code
  group_max_members_exceeded group_join_failed cannot_remove_group_admin : Code
  not_a_group_member group_member_removal_failed last_admin_cannot_leave : Code
  user_already_group_admin group_member_promotion_failed : Code
  cannot_merge_same_product cannot_merge_same_store product_has_active_bids : Code
  store_has_active_runs : Code
  notification_not_found not_notification_owner notification_mark_read_failed : Code
  group_joining_setting_update_failed group_invite_token_regeneration_failed : Code

pub data Error : Type 0 where
  not_found forbidden validation conflict bad_request : Code → Error

pub data Result {ℓ} (A : Type ℓ) : Type ℓ where
  ok : A → Result A
  err : Error → Result A
