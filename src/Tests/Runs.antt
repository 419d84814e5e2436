-- ===== src/Tests/Runs.antt =====
-- Requests on the runs of the test storage.
use bulq.Common.{
  true, false, ◌↔◌, any, ℕ, ◌≡◌, ◌≢◌, refl, sym, ap, ◌∙◌, arith, none, some, List, [], ◌∷◌,
}
use mathlib.Core.Option
use bulq.Common.Int.{pos, negsuc, ◌+ℤ◌}
use bulq.Error.{ok, err, bad_request, bid_quantity_negative, forbidden, not_run_leader}
use bulq.Table.{get, IsKeyed}
use bulq.RunState.{
  planning, active, confirmed, can_transition, valid_transitions, is_state, completed, distributing,
  can_place_bid, can_join_run,
}
use bulq.RunState.Validate.{validate_transition}
use bulq.Model.{User, Run}
use bulq.Storage.{pure, raise, gets, lift, or_raise, raise_if, modify, emit, draw_uuid4, ◌>>=◌}
use bulq.Repo.Directory.{
  get_user_groups, get_all_stores, get_store_name, get_store_by_id, get_product_by_id,
}
use bulq.Repo.Runs.{
  run_key, participation_key, get_run_by_id, get_participation, update_run_state, move_run,
  set_leader, create_participation,
}
use bulq.Repo.Requests.{get_reassignment_request_by_id, update_reassignment_status}
use bulq.Repo.Notifications.{create_notification}
use bulq.Access.{require_run, require_member, require_leader}
use bulq.RunStateService.Transition.{transition_run_state}
use bulq.RunStateService.Methods.{force_confirm}
use bulq.ReassignmentService.{validate_answer, hand_over, transfer_leadership, accept_reassignment}
use bulq.Lifecycle.Moves.{MovedFrom}
use bulq.ReassignmentService.Leadership.{Outcome, accept_reassignment-IsHandedOver}
use bulq.RunService.{Call, place_bid_call, force_confirm_call, perform, failure, serve}
use bulq.RunService.Lifecycle.{serve-MovedFrom}
use bulq.RunService.Authority.{MayMove, run_at}
use bulq.RunService.May.{perform-MayMove}
use bulq.RunService.Refused.{place_bid-refused}
use bulq.RunService.Failures.{failure-unchanged}
use bulq.BidService.Limit.{unique_products, check_product_limit}
use bulq.BidService.Methods.{
  place_bid, validate_bid_request, get_run_with_auth_check, bid_in_run, ensure_user_participation,
  join_run, validate_bid_for_state, record_bid, check_planning_to_active_transition,
  calculate_product_total,
}
use bulq.DistributionService.{is_unpicked, complete_distribution}
use bulq.DistributionService.Completion.{complete_distribution_iff}
use bulq.Access.Outcomes.{is_led_by}
use bulq.Repo.Bids.{bids_of_run, get_bid, get_bids_by_run, create_or_update_bid, write_bid}
use bulq.Tests.{alice, bob, run_in, storage, request, rounded}

abbrev calls : List (ℕ × User × Call)
calls =
    (5, bob, place_bid_call (some 10) (some 7) (pos 200) false none)
    ∷ (6, bob, force_confirm_call (some 10))
    ∷ (7, alice, force_confirm_call (some 10))
    ∷ []

serve-MovedFrom_example :
    MovedFrom (run_in 10 planning) (get run_key 10 (serve 100 rounded calls storage).runs)
serve-MovedFrom_example = serve-MovedFrom 100 rounded calls storage 10 (run_in 10 planning) refl

-- The run is confirmed by its leader.
confirmed_by_leader :
    Option.map
      (λ (r : Run). r.state)
      (run_at 11 (perform 100 rounded alice (force_confirm_call (some 11)) storage))
    ≡ some confirmed
unfolding perform force_confirm require_run get_run_by_id require_member get_user_groups
    require_leader get_participation transition_run_state update_run_state move_run
    validate_transition can_transition valid_transitions is_state get_all_stores pure gets lift
    or_raise raise_if modify emit ◌>>=◌
confirmed_by_leader = refl

confirmed_ne :
    run_at 11 (perform 100 rounded alice (force_confirm_call (some 11)) storage) ≢ run_at 11 storage
confirmed_ne e =
    let same : some active ≡ some confirmed =
      sym (ap (Option.map (λ (r : Run). r.state)) e) ∙ confirmed_by_leader in
    cc

perform-MayMove_example : MayMove alice storage 11
perform-MayMove_example =
    perform-MayMove 100 rounded alice storage 11 (force_confirm_call (some 11)) confirmed_ne

-- Bob does not lead the run.
refused :
    failure 100 rounded bob (force_confirm_call (some 11)) storage ≡ some (forbidden not_run_leader)
unfolding failure force_confirm require_run get_run_by_id require_member get_user_groups
    require_leader get_participation pure gets or_raise raise_if ◌>>=◌
refused = refl

failure-unchanged_example : perform 100 rounded bob (force_confirm_call (some 11)) storage ≡ storage
failure-unchanged_example =
    failure-unchanged 100 rounded bob storage (force_confirm_call (some 11)) refl refused

accepted : (accept_reassignment 50 bob storage).0 ≡ ok tt
unfolding accept_reassignment validate_answer require_run get_run_by_id get_store_name
    get_store_by_id get_reassignment_request_by_id transfer_leadership get_participation hand_over
    set_leader update_reassignment_status create_notification draw_uuid4 pure gets or_raise raise_if
    modify ◌>>=◌
accepted = refl

participations_IsKeyed : IsKeyed participation_key storage.participations
participations_IsKeyed = ground arith

accept_reassignment-IsHandedOver_example : Outcome 50 bob storage request
accept_reassignment-IsHandedOver_example =
    accept_reassignment-IsHandedOver 50 bob storage participations_IsKeyed refl (omega arith)
      accepted

complete_distribution_iff_example : ((complete_distribution 13 alice storage).0 ≡ ok completed) ↔ (
    (is_led_by alice 13 storage ≡ true)
    × (distributing ≡ distributing)
    × (any is_unpicked (bids_of_run 13 storage) ≡ false))
complete_distribution_iff_example =
    complete_distribution_iff 13 alice storage {run = run_in 13 distributing} refl

-- A first bid that is refused leaves its user in the run, and the next bid, which is accepted, does
-- not make the run active.
abbrev refused_then_bid : List (ℕ × User × Call)
refused_then_bid =
    (5, bob, place_bid_call (some 10) (some 7) (negsuc 0) false none)
    ∷ (6, bob, place_bid_call (some 10) (some 7) (pos 200) false none)
    ∷ []

still_planning :
    Option.map (λ (r : Run). r.state) (run_at 10 (serve 100 rounded refused_then_bid storage))
    ≡ some planning
unfolding serve perform place_bid validate_bid_request get_run_with_auth_check bid_in_run
    ensure_user_participation join_run validate_bid_for_state record_bid
    check_planning_to_active_transition calculate_product_total check_product_limit unique_products
    get_bid get_bids_by_run create_or_update_bid write_bid create_participation get_participation
    require_run get_run_by_id require_member get_user_groups get_product_by_id can_place_bid
    can_join_run update_run_state move_run validate_transition can_transition draw_uuid4 pure raise
    gets lift or_raise raise_if modify emit ◌>>=◌ ◌+ℤ◌
still_planning = refl

-- Without the refused bid it does.
made_active :
    Option.map
      (λ (r : Run). r.state)
      (run_at 10
        (perform 100 rounded bob (place_bid_call (some 10) (some 7) (pos 200) false none) storage))
    ≡ some active
unfolding perform place_bid validate_bid_request get_run_with_auth_check bid_in_run
    ensure_user_participation join_run validate_bid_for_state record_bid
    check_planning_to_active_transition calculate_product_total check_product_limit unique_products
    get_bid get_bids_by_run create_or_update_bid write_bid create_participation get_participation
    require_run get_run_by_id require_member get_user_groups get_product_by_id can_place_bid
    can_join_run update_run_state move_run validate_transition can_transition draw_uuid4 pure raise
    gets lift or_raise raise_if modify emit ◌>>=◌ ◌+ℤ◌
made_active = refl

negative_bid :
    (place_bid 100 (some 10) (some 7) (negsuc 0) false bob none storage).0
    ≡ err (bad_request bid_quantity_negative)
unfolding place_bid validate_bid_request get_run_with_auth_check bid_in_run
    ensure_user_participation join_run validate_bid_for_state record_bid
    check_planning_to_active_transition calculate_product_total check_product_limit unique_products
    get_bid get_bids_by_run create_or_update_bid write_bid create_participation get_participation
    require_run get_run_by_id require_member get_user_groups get_product_by_id can_place_bid
    can_join_run update_run_state move_run validate_transition can_transition draw_uuid4 pure raise
    gets lift or_raise raise_if modify emit ◌>>=◌ ◌+ℤ◌
negative_bid = refl

place_bid-refused_example :
    ((place_bid 100 (some 10) (some 7) (negsuc 0) false bob none storage).1.bids ≡ storage.bids)
    × ((place_bid 100 (some 10) (some 7) (negsuc 0) false bob none storage).1.runs ≡ storage.runs)
    × ((place_bid 100 (some 10) (some 7) (negsuc 0) false bob none storage).1.shopping_list_items
        ≡ storage.shopping_list_items)
place_bid-refused_example =
    place_bid-refused 100 (some 10) (some 7) (negsuc 0) false bob none storage negative_bid
