-- ===== src/RunService/May.antt =====
-- Every request of `Call` against `MayMove`: who can move a run by one of them.
use bulq.Common.{ℕ, ◌≡◌, ◌≢◌, ◌⊎◌, inl, inr}
use bulq.Common.Int.{ℤ}
use bulq.Model.{MemoryStorage, User}
use bulq.Storage.{Action, IdText}
use bulq.Storage.Rules.{Leaves}
use bulq.Frame.Runs.{runs_of, runs_left}
use bulq.Lifecycle.Bids.{bid_reads, Leaves-remove_bid_and_recalculate}
use bulq.Lifecycle.States.{Leaves-toggle_ready}
use bulq.BidService.Methods.{retract_bid}
use bulq.RunService.{
  Call, place_bid_call, retract_bid_call, toggle_ready_call, force_confirm_call,
  start_shopping_call, cancel_run_call, finish_adjusting_call, mark_picked_up_call,
  complete_distribution_call, request_reassignment_call, accept_reassignment_call,
  decline_reassignment_call, cancel_reassignment_call, update_run_comment_call, toggle_helper_call,
  add_product_call, add_availability_price_call, mark_purchased_call, add_more_purchased_call,
  update_purchase_call, unpurchase_item_call, complete_shopping_call, perform,
}
use bulq.RunService.Lifecycle.{
  Leaves-mark_picked_up, Leaves-request_reassignment, Leaves-accept_reassignment,
  Leaves-decline_reassignment, Leaves-cancel_reassignment,
}
use bulq.Frame.Runs.Shop.{
  Leaves-add_product, Leaves-add_availability_price, Leaves-mark_purchased,
  Leaves-add_more_purchased, Leaves-update_purchase, Leaves-unpurchase_item, Leaves-toggle_helper,
}
use bulq.RunService.Comments.{IsGuarded-update_run_comment}
use bulq.RunService.Authority.{MayMove, run_at, Leaves-run_at, IsGuarded-Leaves}
use bulq.RunService.Newcomer.{IsGuarded-place_bid}
use bulq.RunService.Guards.{
  IsGuarded-force_confirm, IsGuarded-start_shopping, IsGuarded-cancel_run,
  IsGuarded-complete_distribution, IsGuarded-finish_adjusting, IsGuarded-complete_shopping,
}

Leaves-retract_bid : (i k : IdText) (u : User) → Leaves runs_of (retract_bid i k u)
unfolding retract_bid
Leaves-retract_bid i k u = search (runs_left, bid_reads, Leaves-remove_bid_and_recalculate) depth 16

module _ (max_products : ℕ) (scaled : ℤ → ℤ → ℤ → ℤ) (u : User) (s : MemoryStorage) (j : ℕ) where
  left_run :
      {A : Type 0} {m : Action A}
      → Leaves runs_of m
      → (run_at j (m s).1 ≡ run_at j s) ⊎ MayMove u s j
  left_run l = (IsGuarded-Leaves _ (Leaves-run_at j _ l)).reason

  perform-reason :
      (c : Call) → (run_at j (perform max_products scaled u c s) ≡ run_at j s) ⊎ MayMove u s j
  unfolding perform
  perform-reason (place_bid_call i k q b c) =
      (IsGuarded-place_bid u s j max_products i k q b c).reason
  perform-reason (retract_bid_call i k) = left_run (Leaves-retract_bid i k u)
  perform-reason (toggle_ready_call i) = left_run (Leaves-toggle_ready i u)
  perform-reason (force_confirm_call i) = (IsGuarded-force_confirm u j s i).reason
  perform-reason (start_shopping_call i) = (IsGuarded-start_shopping u j s i).reason
  perform-reason (cancel_run_call i) = (IsGuarded-cancel_run u j s i).reason
  perform-reason (finish_adjusting_call i f) = (IsGuarded-finish_adjusting u j s scaled i f).reason
  perform-reason (mark_picked_up_call i k) = left_run (Leaves-mark_picked_up i k u)
  perform-reason (complete_distribution_call i) = (IsGuarded-complete_distribution u j s i).reason
  perform-reason (request_reassignment_call i k) = left_run (Leaves-request_reassignment i u k)
  perform-reason (accept_reassignment_call i) = left_run (Leaves-accept_reassignment i u)
  perform-reason (decline_reassignment_call i) = left_run (Leaves-decline_reassignment i u)
  perform-reason (toggle_helper_call i k) = left_run (Leaves-toggle_helper i k u)
  perform-reason (cancel_reassignment_call i) = left_run (Leaves-cancel_reassignment i u)
  perform-reason (add_product_call i k q) = left_run (Leaves-add_product i k q u)
  perform-reason (add_availability_price_call i k c n m) =
      left_run (Leaves-add_availability_price i k c n m u)
  perform-reason (mark_purchased_call i k q c t) = left_run (Leaves-mark_purchased i k q c t u)
  perform-reason (add_more_purchased_call i k q c t) =
      left_run (Leaves-add_more_purchased scaled i k q c t u)
  perform-reason (update_purchase_call i k q c t) = left_run (Leaves-update_purchase i k q c t u)
  perform-reason (unpurchase_item_call i k) = left_run (Leaves-unpurchase_item i k u)
  perform-reason (update_run_comment_call i c) = (IsGuarded-update_run_comment u j s i c).reason
  perform-reason (complete_shopping_call i) = (IsGuarded-complete_shopping u j s i).reason

  -- If a request of `Call` of the user, failed or not, changes anything of the run with the id `j`, then
  -- before it the user leads that run, or is a member of the group of a run in planning with this
  -- id and takes no part in it yet.
  pub perform-MayMove :
      (c : Call) → run_at j (perform max_products scaled u c s) ≢ run_at j s → MayMove u s j
  perform-MayMove c changed = elim (perform-reason c) [
    | inl same ↦ absurd (changed same)
    | inr reason ↦ reason
  ]
