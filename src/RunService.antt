-- ===== src/RunService.antt =====
-- The requests on runs, each handed to its service: the delegating methods of
-- backend/app/services/run_service.py with the routes of shopping, distribution and reassignment
-- beside them. The creation of runs is in `RunMethods`.
pub mod Lifecycle
pub mod Authority
pub mod Newcomer
pub mod Comments
pub mod Guards
pub mod May
pub mod Failures
pub mod Refused
pub mod Together
use bulq.Common.{ℕ, Bool, Option, none, some, String, List, [], ◌∷◌}
use bulq.Common.Int.{ℤ}
use bulq.Error.{Error, Result, ok, err}
use bulq.Model.{MemoryStorage, User}
use bulq.Storage.{Action, IdText}
use bulq.RunStateService.Methods.{
  toggle_ready, force_confirm, start_shopping, finish_adjusting, cancel_run,
}
use bulq.BidService.Methods.{place_bid, retract_bid}
use bulq.DistributionService.{mark_picked_up, complete_distribution}
use bulq.ReassignmentService.{
  request_reassignment, accept_reassignment, decline_reassignment, cancel_reassignment,
}
use bulq.RunMethods.{update_run_comment, toggle_helper}
use bulq.ShoppingService.Methods.{
  add_product_to_shopping_list, add_availability_price, mark_purchased, add_more_purchased,
  update_purchase, unpurchase_item,
}
use bulq.ShoppingService.Complete.{complete_shopping}

-- A request with its parameters; the user is the one that the session names.
pub data Call : Type 0 where
  place_bid_call :
      (run_id product_id : IdText) (quantity : ℤ) (interested_only : Bool) (comment : Option String)
      → Call
  retract_bid_call : (run_id product_id : IdText) → Call
  toggle_ready_call force_confirm_call start_shopping_call cancel_run_call :
      (run_id : IdText) → Call
  finish_adjusting_call : (run_id : IdText) (force : Bool) → Call
  mark_picked_up_call : (run_id bid_id : ℕ) → Call
  complete_distribution_call : (run_id : ℕ) → Call
  request_reassignment_call : (run_id to_user_id : ℕ) → Call
  accept_reassignment_call decline_reassignment_call cancel_reassignment_call :
      (request_id : ℕ) → Call
  update_run_comment_call : (run_id : IdText) (comment : Option String) → Call
  toggle_helper_call : (run_id target_user_id : IdText) → Call
  add_product_call : (run_id product_id : IdText) (quantity : ℤ) → Call
  add_availability_price_call :
      (run_id item_id : IdText) (price : ℤ) (notes : String) (minimum_quantity : Option ℕ) → Call
  mark_purchased_call add_more_purchased_call update_purchase_call :
      (run_id item_id : IdText) (quantity price_per_unit total : ℤ) → Call
  unpurchase_item_call : (run_id item_id : IdText) → Call
  complete_shopping_call : (run_id : IdText) → Call

-- What an action raised, if it did.
abbrev pub error_of : {A : Type 0} → Result A → Option Error
error_of (ok a) = none
error_of (err e) = some e

-- The storage after an action, whatever it returned or raised.
abbrev pub after : {A : Type 0} → Action A → MemoryStorage → MemoryStorage
after m s = (m s).1

module _ (max_products : ℕ) (scaled : ℤ → ℤ → ℤ → ℤ) where
  unfoldable pub perform : User → Call → MemoryStorage → MemoryStorage
  perform u (place_bid_call i j q b c) = after (place_bid max_products i j q b u c)
  perform u (retract_bid_call i j) = after (retract_bid i j u)
  perform u (toggle_ready_call i) = after (toggle_ready i u)
  perform u (force_confirm_call i) = after (force_confirm i u)
  perform u (start_shopping_call i) = after (start_shopping i u)
  perform u (cancel_run_call i) = after (cancel_run i u)
  perform u (finish_adjusting_call i force) = after (finish_adjusting scaled i u force)
  perform u (mark_picked_up_call i j) = after (mark_picked_up i j u)
  perform u (complete_distribution_call i) = after (complete_distribution i u)
  perform u (request_reassignment_call i j) = after (request_reassignment i u j)
  perform u (accept_reassignment_call i) = after (accept_reassignment i u)
  perform u (decline_reassignment_call i) = after (decline_reassignment i u)
  perform u (cancel_reassignment_call i) = after (cancel_reassignment i u)
  perform u (update_run_comment_call i c) = after (update_run_comment i c u)
  perform u (toggle_helper_call i k) = after (toggle_helper i k u)
  perform u (add_product_call i k q) = after (add_product_to_shopping_list i k q u)
  perform u (add_availability_price_call i k c n m) = after (add_availability_price i k c n m u)
  perform u (mark_purchased_call i k q c t) = after (mark_purchased i k q c t u)
  perform u (add_more_purchased_call i k q c t) = after (add_more_purchased scaled i k q c t u)
  perform u (update_purchase_call i k q c t) = after (update_purchase i k q c t u)
  perform u (unpurchase_item_call i k) = after (unpurchase_item i k u)
  perform u (complete_shopping_call i) = after (complete_shopping i u)

  -- What a request raises, if it does.
  unfoldable pub failure : User → Call → MemoryStorage → Option Error
  failure u (place_bid_call i j q b c) s = error_of (place_bid max_products i j q b u c s).0
  failure u (retract_bid_call i j) s = error_of (retract_bid i j u s).0
  failure u (toggle_ready_call i) s = error_of (toggle_ready i u s).0
  failure u (force_confirm_call i) s = error_of (force_confirm i u s).0
  failure u (start_shopping_call i) s = error_of (start_shopping i u s).0
  failure u (cancel_run_call i) s = error_of (cancel_run i u s).0
  failure u (finish_adjusting_call i force) s = error_of (finish_adjusting scaled i u force s).0
  failure u (mark_picked_up_call i j) s = error_of (mark_picked_up i j u s).0
  failure u (complete_distribution_call i) s = error_of (complete_distribution i u s).0
  failure u (request_reassignment_call i j) s = error_of (request_reassignment i u j s).0
  failure u (accept_reassignment_call i) s = error_of (accept_reassignment i u s).0
  failure u (decline_reassignment_call i) s = error_of (decline_reassignment i u s).0
  failure u (cancel_reassignment_call i) s = error_of (cancel_reassignment i u s).0
  failure u (update_run_comment_call i c) s = error_of (update_run_comment i c u s).0
  failure u (toggle_helper_call i k) s = error_of (toggle_helper i k u s).0
  failure u (add_product_call i k q) s = error_of (add_product_to_shopping_list i k q u s).0
  failure u (add_availability_price_call i k c n m) s =
      error_of (add_availability_price i k c n m u s).0
  failure u (mark_purchased_call i k q c t) s = error_of (mark_purchased i k q c t u s).0
  failure u (add_more_purchased_call i k q c t) s =
      error_of (add_more_purchased scaled i k q c t u s).0
  failure u (update_purchase_call i k q c t) s = error_of (update_purchase i k q c t u s).0
  failure u (unpurchase_item_call i k) s = error_of (unpurchase_item i k u s).0
  failure u (complete_shopping_call i) s = error_of (complete_shopping i u s).0

  -- The requests one after another, each at its time.
  unfoldable pub serve : List (ℕ × User × Call) → MemoryStorage → MemoryStorage
  serve [] s = s
  serve ((now, user, call) ∷ calls) s = serve calls (perform user call (record s { now = now }))
