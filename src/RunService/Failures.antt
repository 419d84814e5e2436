-- ===== src/RunService/Failures.antt =====
-- What a request that fails has changed.
use bulq.Common.{ℕ, ◌≡◌, Bool, true, false, Option, none, some}
use bulq.Common.Int.{ℤ}
use bulq.Error.{Error, Result, ok, err}
use bulq.Model.{MemoryStorage, User, RunParticipation, ProductBid, RequestStatus}
use bulq.Storage.{Action, IdText}
use bulq.Storage.Rules.{IsAtomic, IsAtomic-bind_last, Returns, atomic_rules, returns_rules}
use bulq.Access.Reads.{access_reads}
use bulq.Repo.Runs.{set_leader}
use bulq.Repo.Bids.{get_bids_by_run, set_picked_up, delete_bid, delete_found, get_bid}
use bulq.Repo.Requests.{create_reassignment_request, update_reassignment_status}
use bulq.BidService.Methods.{remove_bid_and_recalculate, calculate_product_total, retract_bid}
use bulq.Lifecycle.Bids.{
  Reads-validate_retract_request, Reads-check_adjusting_constraints_for_retraction,
}
use bulq.DistributionService.Notified.{Returns-create_notification, Returns-notify_run_state_change}
use bulq.DistributionService.{mark_picked_up, complete_distribution}
use bulq.ReassignmentService.{
  request_reassignment, hand_over, transfer_leadership, accept_reassignment, decline_reassignment,
  cancel_reassignment,
}
use bulq.RunStateService.Atomic.{
  IsAtomic-update_run_state, IsAtomic-toggle_ready, IsAtomic-force_confirm, IsAtomic-cancel_run,
}
use bulq.RunStateService.Safe.{IsSafe, IsSafe-start_shopping, IsSafe-finish_adjusting}
use bulq.ShoppingService.Atomic.{
  IsAtomic-add_product, IsAtomic-add_availability_price, IsAtomic-mark_purchased,
  IsAtomic-add_more_purchased, IsAtomic-update_purchase, IsAtomic-unpurchase_item,
}
use bulq.ShoppingService.Outcome.{IsSafe-complete_shopping}
use bulq.RunService.Comments.{IsAtomic-update_run_comment, IsAtomic-toggle_helper}
use bulq.RunService.{
  Call, place_bid_call, retract_bid_call, toggle_ready_call, force_confirm_call,
  start_shopping_call, cancel_run_call, finish_adjusting_call, mark_picked_up_call,
  complete_distribution_call, request_reassignment_call, accept_reassignment_call,
  decline_reassignment_call, cancel_reassignment_call, update_run_comment_call, toggle_helper_call,
  add_product_call, add_availability_price_call, mark_purchased_call, add_more_purchased_call,
  update_purchase_call, unpurchase_item_call, complete_shopping_call, perform, failure, error_of,
}
use bulq.RunService.Lifecycle.{
  Reads-validate_answer, Reads-validate_reassignment_eligibility,
  Reads-check_reassignment_permissions,
}

Returns-create_reassignment_request : (r u v : ℕ) → Returns (create_reassignment_request r u v)
unfolding create_reassignment_request
Returns-create_reassignment_request r u v = search (returns_rules) depth 8

Returns-update_reassignment_status :
    (i : ℕ) (t : RequestStatus) → Returns (update_reassignment_status i t)
unfolding update_reassignment_status
Returns-update_reassignment_status i t = search returns_rules depth 8

Returns-delete_found : (o : Option ProductBid) → Returns (delete_found o)
unfolding delete_found
Returns-delete_found none = search returns_rules
Returns-delete_found (some b) = search returns_rules

pub Returns-delete_bid : (p i : ℕ) → Returns (delete_bid p i)
unfolding delete_bid get_bid
Returns-delete_bid p i = search (returns_rules, Returns-delete_found)

pub Returns-calculate_product_total : (r p : ℕ) → Returns (calculate_product_total r p)
unfolding calculate_product_total get_bids_by_run
Returns-calculate_product_total r p = search returns_rules

IsAtomic-remove_bid_and_recalculate :
    (l : RunParticipation) (p : ℕ) → IsAtomic (remove_bid_and_recalculate l p)
unfolding remove_bid_and_recalculate
IsAtomic-remove_bid_and_recalculate l p =
    search (atomic_rules, access_reads, Returns-delete_bid) depth 8

IsAtomic-retract_bid : (i k : IdText) (u : User) → IsAtomic (retract_bid i k u)
unfolding retract_bid
IsAtomic-retract_bid i k u =
    search
      (
        atomic_rules, access_reads, IsAtomic-bind_last, IsAtomic-remove_bid_and_recalculate,
        Returns-calculate_product_total, Reads-validate_retract_request,
        Reads-check_adjusting_constraints_for_retraction,
      )
      depth 14

IsAtomic-mark_picked_up : (r b : ℕ) (u : User) → IsAtomic (mark_picked_up r b u)
unfolding mark_picked_up set_picked_up
IsAtomic-mark_picked_up r b u = search (atomic_rules, access_reads) depth 12

IsAtomic-complete_distribution : (r : ℕ) (u : User) → IsAtomic (complete_distribution r u)
unfolding complete_distribution
IsAtomic-complete_distribution r u =
    search
      (
        atomic_rules, access_reads, IsAtomic-update_run_state, IsAtomic-bind_last,
        Returns-notify_run_state_change,
      )
      depth 14

IsAtomic-request_reassignment : (r : ℕ) (u : User) (v : ℕ) → IsAtomic (request_reassignment r u v)
unfolding request_reassignment
IsAtomic-request_reassignment r u v =
    search
      (
        atomic_rules, access_reads, Reads-validate_reassignment_eligibility,
        Reads-check_reassignment_permissions, Returns-create_reassignment_request,
        Returns-create_notification,
      )
      depth 14

IsAtomic-hand_over : (p q : Option RunParticipation) → IsAtomic (hand_over p q)
unfolding hand_over set_leader
IsAtomic-hand_over (some p) (some q) = search atomic_rules depth 8
IsAtomic-hand_over (some p) none = search atomic_rules
IsAtomic-hand_over none q = search atomic_rules

IsAtomic-transfer_leadership : (r u v : ℕ) → IsAtomic (transfer_leadership r u v)
unfolding transfer_leadership
IsAtomic-transfer_leadership r u v = search (atomic_rules, access_reads, IsAtomic-hand_over)

ruleset answer_rules = (
  atomic_rules, access_reads, Reads-validate_answer, IsAtomic-bind_last,
  IsAtomic-transfer_leadership, Returns-update_reassignment_status, Returns-create_notification,
)

IsAtomic-accept_reassignment : (i : ℕ) (u : User) → IsAtomic (accept_reassignment i u)
unfolding accept_reassignment
IsAtomic-accept_reassignment i u = search answer_rules depth 14

IsAtomic-decline_reassignment : (i : ℕ) (u : User) → IsAtomic (decline_reassignment i u)
unfolding decline_reassignment
IsAtomic-decline_reassignment i u = search answer_rules depth 14

IsAtomic-cancel_reassignment : (i : ℕ) (u : User) → IsAtomic (cancel_reassignment i u)
unfolding cancel_reassignment
IsAtomic-cancel_reassignment i u = search answer_rules depth 14

raised : {A : Type 0} (r : Result A) {e : Error} → error_of r ≡ some e → r ≡ err e
raised (ok a) q = cc
raised (err x) q = cc

failed :
    {A : Type 0} (m : Action A) (s : MemoryStorage) {e : Error}
    → IsAtomic m
    → error_of (m s).0 ≡ some e
    → (m s).1 ≡ s
failed m s h p = h.at s _ (raised (m s).0 p)

failed_safe :
    {A : Type 0} (m : Action A) {s : MemoryStorage} {e : Error}
    → IsSafe s m
    → error_of (m s).0 ≡ some e
    → (m s).1 ≡ s
failed_safe m {s} h p = h.unchanged _ (raised (m s).0 p)

abbrev pub is_place_bid : Call → Bool
is_place_bid (place_bid_call _ _ _ _ _) = true
is_place_bid _ = false

module _ (max_products : ℕ) (scaled : ℤ → ℤ → ℤ → ℤ) (u : User) (s : MemoryStorage) where
  -- A request that fails, other than to place a bid, leaves the whole storage as it was.
  pub failure-unchanged :
      (c : Call) {e : Error}
      → is_place_bid c ≡ false
      → failure max_products scaled u c s ≡ some e
      → perform max_products scaled u c s ≡ s
  unfolding perform failure
  failure-unchanged (place_bid_call i k q b c) h p = cc
  failure-unchanged (start_shopping_call i) h p = failed_safe _ (IsSafe-start_shopping u s i) p
  failure-unchanged (finish_adjusting_call i f) h p =
      failed_safe _ (IsSafe-finish_adjusting u s scaled i f) p
  failure-unchanged (retract_bid_call i k) h p = failed _ s (IsAtomic-retract_bid i k u) p
  failure-unchanged (toggle_ready_call i) h p = failed _ s (IsAtomic-toggle_ready i u) p
  failure-unchanged (force_confirm_call i) h p = failed _ s (IsAtomic-force_confirm i u) p
  failure-unchanged (cancel_run_call i) h p = failed _ s (IsAtomic-cancel_run i u) p
  failure-unchanged (mark_picked_up_call i k) h p = failed _ s (IsAtomic-mark_picked_up i k u) p
  failure-unchanged (complete_distribution_call i) h p =
      failed _ s (IsAtomic-complete_distribution i u) p
  failure-unchanged (request_reassignment_call i k) h p =
      failed _ s (IsAtomic-request_reassignment i u k) p
  failure-unchanged (accept_reassignment_call i) h p =
      failed _ s (IsAtomic-accept_reassignment i u) p
  failure-unchanged (decline_reassignment_call i) h p =
      failed _ s (IsAtomic-decline_reassignment i u) p
  failure-unchanged (cancel_reassignment_call i) h p =
      failed _ s (IsAtomic-cancel_reassignment i u) p
  failure-unchanged (toggle_helper_call i k) h p = failed _ s (IsAtomic-toggle_helper i k u) p
  failure-unchanged (update_run_comment_call i c) h p =
      failed _ s (IsAtomic-update_run_comment i c u) p
  failure-unchanged (add_product_call i k q) h p = failed _ s (IsAtomic-add_product i k q u) p
  failure-unchanged (add_availability_price_call i k c n m) h p =
      failed _ s (IsAtomic-add_availability_price i k c n m u) p
  failure-unchanged (mark_purchased_call i k q c t) h p =
      failed _ s (IsAtomic-mark_purchased i k q c t u) p
  failure-unchanged (add_more_purchased_call i k q c t) h p =
      failed _ s (IsAtomic-add_more_purchased scaled i k q c t u) p
  failure-unchanged (update_purchase_call i k q c t) h p =
      failed _ s (IsAtomic-update_purchase i k q c t u) p
  failure-unchanged (unpurchase_item_call i k) h p = failed _ s (IsAtomic-unpurchase_item i k u) p
  failure-unchanged (complete_shopping_call i) h p =
      failed_safe _ (IsSafe-complete_shopping u s i) p
