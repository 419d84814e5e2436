-- ===== src/Lifecycle/States.antt =====
-- The methods of `RunStateService` move runs along the diagram only.
use bulq.Common.{ℕ, Bool, Option, none, some, List, [], ◌∷◌}
use bulq.Common.Int.{ℤ}
use bulq.Model.{MemoryStorage, User, Run, RunParticipation, ProductBid, ShoppingListItem}
use bulq.RunState.{RunState}
use bulq.Storage.{IdText}
use bulq.Storage.Rules.{Keeps, Leaves, keeps_rules}
use bulq.Access.Reads.{access_reads}
use bulq.Frame.Runs.{runs_of, Leaves-emit, runs_left}
use bulq.Lifecycle.Moves.{HasMoved, Keeps-Leaves, Keeps-update_run_state}
use bulq.RunStateService.Transition.{transition_run_state}
use bulq.RunStateService.ShoppingList.{generate_shopping_list, create_items}
use bulq.RunStateService.Share.{
  check_items, verify_quantities_match, give_full, give_shares, add_surplus, surplus_to_leader,
  assign_surplus, share_out, distribute_amount, distribute_items, distribute_items_to_bidders,
}
use bulq.RunStateService.Methods.{
  validate_toggle_ready_request, toggle_user_ready_status, toggle_ready, force_confirm,
  start_shopping, validate_finish_adjusting_request, finish_adjusting, cancel_run,
}

Leaves-create_items : (r : ℕ) (d : List (ℕ × ℤ)) → Leaves runs_of (create_items r d)
unfolding create_items
Leaves-create_items r [] = search runs_left
Leaves-create_items r ((p, q) ∷ d) =
    search (runs_left, λ (u : ShoppingListItem). Leaves-create_items r d)

pub Leaves-generate_shopping_list : (r : ℕ) → Leaves runs_of (generate_shopping_list r)
unfolding generate_shopping_list
Leaves-generate_shopping_list r = search (runs_left, Leaves-create_items)

Leaves-give_full : (bids : List ProductBid) (p : Option ℤ) → Leaves runs_of (give_full bids p)
unfolding give_full
Leaves-give_full [] p = search runs_left
Leaves-give_full (b ∷ bids) p = search (runs_left, λ (u : Unit {0}). Leaves-give_full bids p)

Leaves-add_surplus :
    (l : RunParticipation) (i : ShoppingListItem) (p q : ℤ) (b : Option ProductBid)
    → Leaves runs_of (add_surplus l i p q b)
unfolding add_surplus
Leaves-add_surplus l i p q none = search runs_left
Leaves-add_surplus l i p q (some b) = search runs_left

Leaves-surplus_to_leader :
    (bids : List ProductBid) (i : ShoppingListItem) (p q : ℤ) (l : Option RunParticipation)
    → Leaves runs_of (surplus_to_leader bids i p q l)
unfolding surplus_to_leader
Leaves-surplus_to_leader bids i p q none = search runs_left
Leaves-surplus_to_leader bids i p q (some l) = search (runs_left, Leaves-add_surplus)

Leaves-assign_surplus :
    (r : ℕ) (bids : List ProductBid) (i : ShoppingListItem) (p q : ℤ)
    → Leaves runs_of (assign_surplus r bids i p q)
unfolding assign_surplus
Leaves-assign_surplus r bids i p q = search (runs_left, Leaves-surplus_to_leader)

module _ (scaled : ℤ → ℤ → ℤ → ℤ) where
  Leaves-give_shares :
      (bids : List ProductBid) (p t d : ℤ) (c : Option ℤ)
      → Leaves runs_of (give_shares scaled bids p t d c)
  unfolding give_shares
  Leaves-give_shares [] p t d c = search runs_left
  Leaves-give_shares (b ∷ []) p t d c = search runs_left
  Leaves-give_shares (b ∷ b' ∷ bids) p t d c =
      let ih = λ (e : ℤ). Leaves-give_shares (b' ∷ bids) p t e c in search (runs_left, ih)

  Leaves-share_out :
      (r : ℕ) (i : ShoppingListItem) (p : ℤ) (bids : List ProductBid)
      → Leaves runs_of (share_out scaled r i p bids)
  unfolding share_out
  Leaves-share_out r i p bids =
      search (runs_left, Leaves-give_shares, Leaves-give_full, Leaves-assign_surplus) depth 8

  Leaves-distribute_amount :
      (r : ℕ) (ids : List ℕ) (i : ShoppingListItem) (q : Option ℤ)
      → Leaves runs_of (distribute_amount scaled r ids i q)
  unfolding distribute_amount
  Leaves-distribute_amount r ids i none = search runs_left
  Leaves-distribute_amount r ids i (some q) = search (runs_left, Leaves-share_out)

  Leaves-distribute_items :
      (r : ℕ) (ids : List ℕ) (items : List ShoppingListItem)
      → Leaves runs_of (distribute_items scaled r ids items)
  unfolding distribute_items
  Leaves-distribute_items r ids [] = search runs_left
  Leaves-distribute_items r ids (i ∷ items) =
      search
        (runs_left, Leaves-distribute_amount, λ (u : Unit {0}). Leaves-distribute_items r ids items)

  pub Leaves-distribute_items_to_bidders :
      (r : ℕ) → Leaves runs_of (distribute_items_to_bidders scaled r)
  unfolding distribute_items_to_bidders
  Leaves-distribute_items_to_bidders r = search (runs_left, Leaves-distribute_items)

Leaves-check_items :
    (bids : List ProductBid) (items : List ShoppingListItem)
    → Leaves runs_of (check_items bids items)
unfolding check_items
Leaves-check_items bids [] = search runs_left
Leaves-check_items bids (i ∷ items) =
    search (runs_left, λ (u : Unit {0}). Leaves-check_items bids items)

pub Leaves-verify_quantities_match : (r : ℕ) → Leaves runs_of (verify_quantities_match r)
unfolding verify_quantities_match
Leaves-verify_quantities_match r = search (runs_left, Leaves-check_items)

Leaves-toggle_user_ready_status :
    (p : RunParticipation) → Leaves runs_of (toggle_user_ready_status p)
unfolding toggle_user_ready_status
Leaves-toggle_user_ready_status p = search runs_left

Leaves-validate_toggle_ready_request :
    (i : IdText) (u : User) → Leaves runs_of (validate_toggle_ready_request i u)
unfolding validate_toggle_ready_request
Leaves-validate_toggle_ready_request i u = search runs_left depth 12

pub Leaves-validate_finish_adjusting_request :
    (i : IdText) (u : User) → Leaves runs_of (validate_finish_adjusting_request i u)
unfolding validate_finish_adjusting_request
Leaves-validate_finish_adjusting_request i u = search runs_left depth 12

pub Leaves-toggle_ready : (i : IdText) (u : User) → Leaves runs_of (toggle_ready i u)
unfolding toggle_ready
Leaves-toggle_ready i u =
    search (runs_left, Leaves-validate_toggle_ready_request, Leaves-toggle_user_ready_status) depth
      12

module _ (s₀ : MemoryStorage) where
  Keeps-transition_run_state :
      (r : Run) (t : RunState) → Keeps (HasMoved s₀) (transition_run_state r t)
  unfolding transition_run_state
  Keeps-transition_run_state r t =
      search (keeps_rules, access_reads, Keeps-update_run_state, Keeps-Leaves, Leaves-emit) depth 8

  pub Keeps-toggle_ready : (i : IdText) (u : User) → Keeps (HasMoved s₀) (toggle_ready i u)
  Keeps-toggle_ready i u = search (Keeps-Leaves, Leaves-toggle_ready)

  ruleset moves_rules =
      (keeps_rules, access_reads, Keeps-Leaves, Leaves-emit, Keeps-transition_run_state)

  pub Keeps-force_confirm : (i : IdText) (u : User) → Keeps (HasMoved s₀) (force_confirm i u)
  unfolding force_confirm
  Keeps-force_confirm i u = search moves_rules depth 12

  pub Keeps-start_shopping : (i : IdText) (u : User) → Keeps (HasMoved s₀) (start_shopping i u)
  unfolding start_shopping
  Keeps-start_shopping i u = search (moves_rules, Leaves-generate_shopping_list) depth 12

  pub Keeps-cancel_run : (i : IdText) (u : User) → Keeps (HasMoved s₀) (cancel_run i u)
  unfolding cancel_run
  Keeps-cancel_run i u = search moves_rules depth 12

  pub Keeps-finish_adjusting :
      (scaled : ℤ → ℤ → ℤ → ℤ) (i : IdText) (u : User) (force : Bool)
      → Keeps (HasMoved s₀) (finish_adjusting scaled i u force)
  unfolding finish_adjusting
  Keeps-finish_adjusting scaled i u force =
      search
        (
          moves_rules,
          Leaves-validate_finish_adjusting_request,
          Leaves-verify_quantities_match,
          Leaves-distribute_items_to_bidders scaled,
        )
        depth 12
