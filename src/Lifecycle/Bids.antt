-- ===== src/Lifecycle/Bids.antt =====
-- The methods of `BidService` move runs along the diagram only.
use bulq.Common.{ℕ, Bool, Option, none, some, String}
use bulq.Common.Int.{ℤ}
use bulq.Model.{MemoryStorage, User, Run, RunParticipation, ProductBid, ShoppingListItem}
use bulq.Storage.{IdText}
use bulq.Storage.Rules.{Keeps, Leaves, Reads, keeps_rules}
use bulq.Access.Reads.{access_reads}
use bulq.Frame.Runs.{runs_of, runs_left, Leaves-emit}
use bulq.Lifecycle.Moves.{HasMoved, Keeps-Leaves, Keeps-update_run_state}
use bulq.BidService.Limit.{check_product_limit}
use bulq.BidService.Adjusting.{
  validate_adjusting_bid, retraction_by, retraction_of, check_adjusting_constraints_for_retraction,
}
use bulq.BidService.Methods.{
  get_run_with_auth_check, validate_bid_request, join_run, ensure_user_participation,
  validate_in_adjusting, validate_bid_for_state, remove_bid, record_bid,
  check_planning_to_active_transition, calculate_product_total, bid_in_run, place_bid,
  validate_retract_request, remove_bid_and_recalculate, retract_bid,
}

-- What only reads.
pub Reads-validate_bid_request : (i j : IdText) (u : User) → Reads (validate_bid_request i j u)
unfolding validate_bid_request get_run_with_auth_check
Reads-validate_bid_request i j u = search access_reads depth 14

pub Reads-check_product_limit : (m r : ℕ) → Reads (check_product_limit m r)
unfolding check_product_limit
Reads-check_product_limit m r = search access_reads

Reads-validate_adjusting_bid :
    (r p : ℕ) (q : ℤ) (b : ProductBid) → Reads (validate_adjusting_bid r p q b)
unfolding validate_adjusting_bid
Reads-validate_adjusting_bid r p q b = search access_reads

Reads-validate_in_adjusting :
    (r : Run) (p : ℕ) (q : ℤ) (b : Option ProductBid) → Reads (validate_in_adjusting r p q b)
unfolding validate_in_adjusting
Reads-validate_in_adjusting r p q none = search access_reads
Reads-validate_in_adjusting r p q (some b) = search (access_reads, Reads-validate_adjusting_bid)

pub Reads-validate_bid_for_state :
    (m : ℕ) (r : Run) (p : ℕ) (q : ℤ) (l : RunParticipation)
    → Reads (validate_bid_for_state m r p q l)
unfolding validate_bid_for_state
Reads-validate_bid_for_state m r p q l =
    search (access_reads, Reads-check_product_limit, Reads-validate_in_adjusting) depth 14

pub Reads-calculate_product_total : (r p : ℕ) → Reads (calculate_product_total r p)
unfolding calculate_product_total
Reads-calculate_product_total r p = search access_reads

pub Reads-validate_retract_request :
    (i j : IdText) (u : User) → Reads (validate_retract_request i j u)
unfolding validate_retract_request
Reads-validate_retract_request i j u = search access_reads depth 14

Reads-retraction_by :
    (i : ShoppingListItem) (p : ℕ) (l : Option RunParticipation) → Reads (retraction_by i p l)
unfolding retraction_by
Reads-retraction_by i p none = search access_reads
Reads-retraction_by i p (some l) = search access_reads

Reads-retraction_of : (r p u : ℕ) (i : Option ShoppingListItem) → Reads (retraction_of r p u i)
unfolding retraction_of
Reads-retraction_of r p u none = search access_reads
Reads-retraction_of r p u (some i) = search (access_reads, Reads-retraction_by)

pub Reads-check_adjusting_constraints_for_retraction :
    (r : Run) (i p u : ℕ) → Reads (check_adjusting_constraints_for_retraction r i p u)
unfolding check_adjusting_constraints_for_retraction
Reads-check_adjusting_constraints_for_retraction r i p u =
    search (access_reads, Reads-retraction_of)

pub ruleset bid_reads = (
  access_reads, Reads-validate_bid_request, Reads-validate_bid_for_state,
  Reads-calculate_product_total, Reads-validate_retract_request,
  Reads-check_adjusting_constraints_for_retraction,
)

-- What writes, but no run.
Leaves-join_run :
    (i : ℕ) (r : Run) (u : User) (l : Option RunParticipation) → Leaves runs_of (join_run i r u l)
unfolding join_run
Leaves-join_run i r u none = search runs_left
Leaves-join_run i r u (some l) = search runs_left

pub Leaves-ensure_user_participation :
    (i : ℕ) (r : Run) (u : User) → Leaves runs_of (ensure_user_participation i r u)
unfolding ensure_user_participation
Leaves-ensure_user_participation i r u = search (runs_left, Leaves-join_run)

pub Leaves-record_bid :
    (l p : ℕ) (q : ℤ) (b : Bool) (c : Option String) → Leaves runs_of (record_bid l p q b c)
unfolding record_bid remove_bid
Leaves-record_bid l p q b c = search runs_left depth 8

pub Leaves-remove_bid_and_recalculate :
    (l : RunParticipation) (p : ℕ) → Leaves runs_of (remove_bid_and_recalculate l p)
unfolding remove_bid_and_recalculate
Leaves-remove_bid_and_recalculate l p = search runs_left depth 8

module _ (s₀ : MemoryStorage) where
  Keeps-check_planning_to_active_transition :
      (r : Run) (n : Bool) (l : RunParticipation)
      → Keeps (HasMoved s₀) (check_planning_to_active_transition r n l)
  unfolding check_planning_to_active_transition
  Keeps-check_planning_to_active_transition r n l =
      search (keeps_rules, access_reads, Keeps-update_run_state) depth 8

  pub Keeps-place_bid :
      (m : ℕ) (i j : IdText) (q : ℤ) (b : Bool) (u : User) (c : Option String)
      → Keeps (HasMoved s₀) (place_bid m i j q b u c)
  unfolding place_bid bid_in_run
  Keeps-place_bid m i j q b u c =
      search
        (
          keeps_rules, bid_reads, Keeps-Leaves, Leaves-emit, Leaves-ensure_user_participation,
          Leaves-record_bid, Keeps-check_planning_to_active_transition,
        )
        depth 16

  pub Keeps-retract_bid : (i j : IdText) (u : User) → Keeps (HasMoved s₀) (retract_bid i j u)
  unfolding retract_bid
  Keeps-retract_bid i j u =
      search (keeps_rules, bid_reads, Keeps-Leaves, Leaves-emit, Leaves-remove_bid_and_recalculate)
        depth 16
