-- ===== src/ShoppingService/Dealt.antt =====
-- What `complete_shopping` leaves the bidders with when nothing has to be adjusted.
use bulq.Common.{
  ℕ, if◌then◌else◌, ◌≡◌, refl, ap, ◌∙◌, Bool, true, false, not, some, List, any, All, ◌∷◌, [],
}
use mathlib.Core.Option
use bulq.Error.{Result, ok, err}
use bulq.Table.{get}
use bulq.RunState.{RunState, adjusting, distributing, completed}
use bulq.Model.{
  MemoryStorage, User, Run, RunParticipation, NotificationData, ProductBid, ShoppingListItem,
}
use bulq.Storage.{Action, pure, gets, resume, ◌>>=◌, ◌>>◌}
use bulq.Storage.Rules.{Leaves, Reads-raise_if}
use bulq.Access.Reads.{
  Reads-require_run, Reads-require_leader, Reads-get_shopping_list_items, Reads-get_bids_by_run,
}
use bulq.Access.Outcomes.{bind-on, parse-on}
use bulq.Frame.Bids.{bids_of, bids_left}
use bulq.Repo.Runs.{update_run_state}
use bulq.Repo.Bids.{bid_key, bids_of_run, get_bids_by_run}
use bulq.Repo.Shopping.{items_of_run, get_shopping_list_items}
use bulq.DistributionService.{notify_participants, notify_run_state_change}
use bulq.ShoppingService.Complete.{
  is_bought, is_off, give_items, complete_unbought, send_to_adjusting, send_to_distributing,
  settle_shopping, complete_shopping,
}
use bulq.ShoppingService.Effects.{last-returned}
use bulq.ShoppingService.Outcome.{Returns-give_items}
use bulq.ShoppingService.Given.{IsRowOf, last_price, handed, give_items-get}

-- A sequence that returns has returned from its first step.
step-ok :
    {A B : Type 0} (m : Action A) (f : A → Action B) (s : MemoryStorage) {b : B}
    → ((m >>= f) s).0 ≡ ok b
    → (a : A) × ((f a (m s).1).0 ≡ ok b)
unfolding ◌>>=◌
step-ok {A} {B} m f s {b} = go (m s).0 (m s).1
  where
    go : (r : Result A) (t : MemoryStorage) → (resume f r t).0 ≡ ok b → (a : A) × ((f a t).0 ≡ ok b)
    go (ok a) t h = (a, h)
    go (err e) t h = cc

Leaves-notify_participants :
    (d : NotificationData) (ps : List RunParticipation) → Leaves bids_of (notify_participants d ps)
unfolding notify_participants
Leaves-notify_participants d [] = search bids_left
Leaves-notify_participants d (p ∷ ps) =
    search (bids_left, λ (u : Unit {0}). Leaves-notify_participants d ps)

Leaves-notify_run_state_change :
    (r : Run) (a b : RunState) → Leaves bids_of (notify_run_state_change r a b)
unfolding notify_run_state_change
Leaves-notify_run_state_change r a b = search (bids_left, Leaves-notify_participants) depth 8

module _ (n : ℕ) (run : Run) (s : MemoryStorage) where
  unbought-ends : {t : RunState} → (complete_unbought n run s).0 ≡ ok t → t ≡ completed
  unfolding complete_unbought
  unbought-ends h =
      let (_, h1) = step-ok _ _ s h in let (_, h2) = step-ok _ _ _ h1 in last-returned _ _ h2

  adjusting-ends : {t : RunState} → (send_to_adjusting n run s).0 ≡ ok t → t ≡ adjusting
  unfolding send_to_adjusting
  adjusting-ends h = let (_, h1) = step-ok _ _ s h in last-returned _ _ h1

  -- Sending the run to distributing changes the bids as the loop over the items does.
  distributing-bids :
      (items : List ShoppingListItem) (bids : List ProductBid)
      → (send_to_distributing n run items bids s).1.bids ≡ (give_items bids items s).1.bids
  unfolding send_to_distributing ◌>>=◌
  distributing-bids items bids =
      let (v, e) = (Returns-give_items bids items).at s in
      let rest =
        update_run_state n distributing
        >> (notify_run_state_change run run.state distributing >> pure distributing) in
      let left : Leaves bids_of rest = search (bids_left, Leaves-notify_run_state_change) in
      rw e (left.at (give_items bids items s).1)

  settled-bids :
      (items : List ShoppingListItem) (bids : List ProductBid)
      → (settle_shopping n run items bids s).0 ≡ ok distributing
      → (settle_shopping n run items bids s).1.bids ≡ (give_items bids items s).1.bids
  unfolding settle_shopping
  settled-bids items bids = go (any is_bought items) (any is_off items)
    where
      way : Bool → Bool → Action RunState
      way b c =
          if not b
          then complete_unbought n run
          else if c
          then send_to_adjusting n run
          else send_to_distributing n run items bids

      go :
          (b c : Bool)
          → (way b c s).0 ≡ ok distributing
          → (way b c s).1.bids ≡ (give_items bids items s).1.bids
      go false c h = let e = unbought-ends h in cc
      go true true h = let e = adjusting-ends h in cc
      go true false h = distributing-bids items bids

module _ (n : ℕ) (u : User) (s : MemoryStorage) where
  read-bids : {bids : List ProductBid} → (get_bids_by_run n s).0 ≡ ok bids → bids ≡ bids_of_run n s
  unfolding get_bids_by_run gets
  read-bids h = cc

  read-items :
      {items : List ShoppingListItem}
      → (get_shopping_list_items n s).0 ≡ ok items
      → items ≡ items_of_run n s
  unfolding get_shopping_list_items gets
  read-items h = cc

  given-items :
      (complete_shopping (some n) u s).0 ≡ ok distributing
      → (complete_shopping (some n) u s).1.bids
        ≡ (give_items (bids_of_run n s) (items_of_run n s) s).1.bids
  unfolding complete_shopping
  given-items h =
      let (p0, h0) = parse-on n _ s h in
      let (run, _, e1, h1) = bind-on _ _ s (Reads-require_run n) h0 in
      let (_, _, e2, h2) = bind-on _ _ s (Reads-require_leader n u) h1 in
      let (_, _, e3, h3) = bind-on _ _ s (Reads-raise_if _ _) h2 in
      let (items, got, e4, h4) = bind-on _ _ s (Reads-get_shopping_list_items n) h3 in
      let (bids, read, e5, h5) = bind-on _ _ s (Reads-get_bids_by_run n) h4 in
      ap (λ (v : Result RunState × MemoryStorage). v.1.bids) (p0 ∙ e1 ∙ e2 ∙ e3 ∙ e4 ∙ e5)
      ∙ settled-bids n run s items bids h5
      ∙ rw (read-items got, read-bids read) refl

  -- Where each bid of the run is the row under its id, and `complete_shopping` returns that the run
  -- is distributing, the row of bids under any id is changed as `handed` does: if something was
  -- bought for this bid of the run, the bidder is given the whole bid, at the price of the last such
  -- item of the shopping list, and otherwise the row is as it was.
  pub complete_shopping-handed :
      (i : ℕ)
      → All (IsRowOf s.bids) (bids_of_run n s)
      → (complete_shopping (some n) u s).0 ≡ ok distributing
      → get bid_key i (complete_shopping (some n) u s).1.bids
        ≡ Option.map
            (handed (last_price i (bids_of_run n s) (items_of_run n s)))
            (get bid_key i s.bids)
  complete_shopping-handed i rows h =
      ap (get bid_key i) (given-items h)
      ∙ give_items-get i (bids_of_run n s) (items_of_run n s) s rows
