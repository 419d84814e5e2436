-- ===== src/RunService/Lifecycle.antt =====
-- Whatever requests of `Call` come, by whomever and whether they succeed or not, each run goes along
-- the diagram of run_state.py. Requests on groups and the merging of stores are not among them.
use bulq.Common.{ℕ, refl, Option, some, List, [], ◌∷◌, ◌≡◌}
use bulq.Common.Int.{ℤ}
use bulq.Model.{MemoryStorage, User, Run, RunParticipation}
use bulq.Table.{get}
use bulq.Storage.Rules.{Keeps, Leaves, Reads, keeps_rules}
use bulq.Access.Reads.{access_reads}
use bulq.Frame.Runs.{runs_of, runs_left}
use bulq.Repo.Runs.{run_key}
use bulq.Lifecycle.Moves.{
  MovedFrom, HasMoved, HasMoved-refl, HasMoved-same, Keeps-Leaves, Keeps-update_run_state,
}
use bulq.Lifecycle.States.{
  Keeps-toggle_ready, Keeps-force_confirm, Keeps-start_shopping, Keeps-cancel_run,
  Keeps-finish_adjusting,
}
use bulq.Lifecycle.Bids.{Keeps-place_bid, Keeps-retract_bid}
use bulq.DistributionService.Notified.{Leaves-notify_run_state_change}
use bulq.DistributionService.{mark_picked_up, complete_distribution}
use bulq.ReassignmentService.{
  validate_reassignment_eligibility, check_reassignment_permissions, request_reassignment,
  validate_answer, hand_over, transfer_leadership, accept_reassignment, decline_reassignment,
  cancel_reassignment,
}
use bulq.Storage.{Action, IdText}
use bulq.ShoppingService.Complete.{
  complete_unbought, send_to_adjusting, send_to_distributing, settle_shopping, complete_shopping,
}
use bulq.Frame.Runs.Shop.{
  Leaves-add_product, Leaves-add_availability_price, Leaves-mark_purchased,
  Leaves-add_more_purchased, Leaves-update_purchase, Leaves-unpurchase_item, Leaves-give_items,
  Leaves-toggle_helper,
}
use bulq.RunService.Comments.{Keeps-update_run_comment}
use bulq.RunService.{
  Call, place_bid_call, retract_bid_call, toggle_ready_call, force_confirm_call,
  start_shopping_call, cancel_run_call, finish_adjusting_call, mark_picked_up_call,
  complete_distribution_call, request_reassignment_call, accept_reassignment_call,
  decline_reassignment_call, cancel_reassignment_call, update_run_comment_call, toggle_helper_call,
  add_product_call, add_availability_price_call, mark_purchased_call, add_more_purchased_call,
  update_purchase_call, unpurchase_item_call, complete_shopping_call, perform, serve,
}

pub Leaves-mark_picked_up : (r b : ℕ) (u : User) → Leaves runs_of (mark_picked_up r b u)
unfolding mark_picked_up
Leaves-mark_picked_up r b u = search runs_left depth 12

Keeps-complete_distribution :
    (s₀ : MemoryStorage) (r : ℕ) (u : User) → Keeps (HasMoved s₀) (complete_distribution r u)
unfolding complete_distribution
Keeps-complete_distribution s₀ r u =
    search
      (
        keeps_rules, access_reads, Keeps-update_run_state, Keeps-Leaves,
        Leaves-notify_run_state_change,
      )
      depth 14

pub Reads-validate_reassignment_eligibility :
    (r : ℕ) (u : User) (v : ℕ) → Reads (validate_reassignment_eligibility r u v)
unfolding validate_reassignment_eligibility
Reads-validate_reassignment_eligibility r u v = search access_reads depth 12

pub Reads-check_reassignment_permissions :
    (u : User) (v r : ℕ) → Reads (check_reassignment_permissions u v r)
unfolding check_reassignment_permissions
Reads-check_reassignment_permissions u v r = search access_reads depth 12

pub Leaves-request_reassignment :
    (r : ℕ) (u : User) (v : ℕ) → Leaves runs_of (request_reassignment r u v)
unfolding request_reassignment
Leaves-request_reassignment r u v =
    search
      (runs_left, Reads-validate_reassignment_eligibility, Reads-check_reassignment_permissions)
      depth 12

pub Reads-validate_answer : (i : ℕ) (u : User) → Reads (validate_answer i u)
unfolding validate_answer
Reads-validate_answer i u = search access_reads depth 12

Leaves-hand_over : (p q : Option RunParticipation) → Leaves runs_of (hand_over p q)
unfolding hand_over
Leaves-hand_over (some p) (some q) = search runs_left
Leaves-hand_over _ _ = search runs_left

Leaves-transfer_leadership : (r u v : ℕ) → Leaves runs_of (transfer_leadership r u v)
unfolding transfer_leadership
Leaves-transfer_leadership r u v = search (runs_left, Leaves-hand_over)

pub Leaves-accept_reassignment : (i : ℕ) (u : User) → Leaves runs_of (accept_reassignment i u)
unfolding accept_reassignment
Leaves-accept_reassignment i u =
    search (runs_left, Reads-validate_answer, Leaves-transfer_leadership) depth 14

pub Leaves-decline_reassignment : (i : ℕ) (u : User) → Leaves runs_of (decline_reassignment i u)
unfolding decline_reassignment
Leaves-decline_reassignment i u = search (runs_left, Reads-validate_answer) depth 14

pub Leaves-cancel_reassignment : (i : ℕ) (u : User) → Leaves runs_of (cancel_reassignment i u)
unfolding cancel_reassignment
Leaves-cancel_reassignment i u = search runs_left depth 14

Keeps-complete_shopping :
    (s₀ : MemoryStorage) (i : IdText) (u : User) → Keeps (HasMoved s₀) (complete_shopping i u)
unfolding complete_shopping settle_shopping complete_unbought send_to_adjusting send_to_distributing
Keeps-complete_shopping s₀ i u =
    search
      (
        keeps_rules, access_reads, Keeps-update_run_state, Keeps-Leaves,
        Leaves-notify_run_state_change, Leaves-give_items,
      )
      depth 16

Keeps-left :
    {A : Type 0} {m : Action A} {s₀ s : MemoryStorage}
    → Leaves runs_of m
    → HasMoved s₀ s
    → HasMoved s₀ (m s).1
Keeps-left {A} {m} l h = (Keeps-Leaves m l).at _ h

module _ (max_products : ℕ) (scaled : ℤ → ℤ → ℤ → ℤ) where
  perform-HasMoved :
      {s₀ : MemoryStorage} (u : User) (c : Call) (s : MemoryStorage)
      → HasMoved s₀ s
      → HasMoved s₀ (perform max_products scaled u c s)
  unfolding perform
  perform-HasMoved {s₀} u (place_bid_call i j q b c) s h =
      (Keeps-place_bid s₀ max_products i j q b u c).at s h
  perform-HasMoved {s₀} u (retract_bid_call i j) s h = (Keeps-retract_bid s₀ i j u).at s h
  perform-HasMoved {s₀} u (toggle_ready_call i) s h = (Keeps-toggle_ready s₀ i u).at s h
  perform-HasMoved {s₀} u (force_confirm_call i) s h = (Keeps-force_confirm s₀ i u).at s h
  perform-HasMoved {s₀} u (start_shopping_call i) s h = (Keeps-start_shopping s₀ i u).at s h
  perform-HasMoved {s₀} u (cancel_run_call i) s h = (Keeps-cancel_run s₀ i u).at s h
  perform-HasMoved {s₀} u (finish_adjusting_call i f) s h =
      (Keeps-finish_adjusting s₀ scaled i u f).at s h
  perform-HasMoved u (mark_picked_up_call i j) s h = Keeps-left (Leaves-mark_picked_up i j u) h
  perform-HasMoved {s₀} u (complete_distribution_call i) s h =
      (Keeps-complete_distribution s₀ i u).at s h
  perform-HasMoved u (request_reassignment_call i j) s h =
      Keeps-left (Leaves-request_reassignment i u j) h
  perform-HasMoved u (accept_reassignment_call i) s h =
      Keeps-left (Leaves-accept_reassignment i u) h
  perform-HasMoved u (decline_reassignment_call i) s h =
      Keeps-left (Leaves-decline_reassignment i u) h
  perform-HasMoved u (toggle_helper_call i k) s h = Keeps-left (Leaves-toggle_helper i k u) h
  perform-HasMoved u (cancel_reassignment_call i) s h =
      Keeps-left (Leaves-cancel_reassignment i u) h
  perform-HasMoved u (add_product_call i k q) s h = Keeps-left (Leaves-add_product i k q u) h
  perform-HasMoved u (add_availability_price_call i k c n m) s h =
      Keeps-left (Leaves-add_availability_price i k c n m u) h
  perform-HasMoved u (mark_purchased_call i k q c t) s h =
      Keeps-left (Leaves-mark_purchased i k q c t u) h
  perform-HasMoved u (add_more_purchased_call i k q c t) s h =
      Keeps-left (Leaves-add_more_purchased scaled i k q c t u) h
  perform-HasMoved u (update_purchase_call i k q c t) s h =
      Keeps-left (Leaves-update_purchase i k q c t u) h
  perform-HasMoved u (unpurchase_item_call i k) s h = Keeps-left (Leaves-unpurchase_item i k u) h
  perform-HasMoved {s₀} u (update_run_comment_call i c) s h =
      (Keeps-update_run_comment s₀ i c u).at s h
  perform-HasMoved {s₀} u (complete_shopping_call i) s h = (Keeps-complete_shopping s₀ i u).at s h

  serve_keeps :
      {s₀ : MemoryStorage} (calls : List (ℕ × User × Call)) (s : MemoryStorage)
      → HasMoved s₀ s
      → HasMoved s₀ (serve max_products scaled calls s)
  unfolding serve
  serve_keeps [] s h = h
  serve_keeps ((n, u, c) ∷ calls) s h =
      serve_keeps calls (perform max_products scaled u c (record s { now = n }))
        (perform-HasMoved u c (record s { now = n }) (HasMoved-same refl h))

  -- After any requests of `Call`, failed ones among them, a run that was there before is still there,
  -- with its group and its store, in a state that the diagram reaches from its state before.
  pub serve-MovedFrom :
      (calls : List (ℕ × User × Call)) (s : MemoryStorage) (i : ℕ) (r : Run)
      → get run_key i s.runs ≡ some r
      → MovedFrom r (get run_key i (serve max_products scaled calls s).runs)
  serve-MovedFrom calls s i r h = (serve_keeps calls s (HasMoved-refl s)).at i r h
