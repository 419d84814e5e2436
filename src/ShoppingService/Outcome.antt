-- ===== src/ShoppingService/Outcome.antt =====
-- Where `complete_shopping` takes a run.
use bulq.Common.{
  ℕ, ◌≢◌, ◌≡◌, refl, sym, ap, subst, ◌∙◌, Bool, true, false, not, ◌&&◌, ◌||◌, ◌⊎◌, inl, inr,
  Bool-cases, Option, none, some, List, [], ◌∷◌, any, arith, ◌↔◌, if◌then◌else◌,
}
use bulq.Common.Int.{ℤ, pos, ltb_ℤ, eqb_ℤ}
use bulq.Error.{ok}
use bulq.Table.{get}
use bulq.RunState.{
  RunState, shopping, adjusting, distributing, completed, can_transition, can_complete_shopping,
}
use bulq.Model.{MemoryStorage, User, Run, ProductBid, ShoppingListItem}
use bulq.Storage.{IdText, gets, or_raise}
use bulq.Storage.Rules.{Reads-raise_if, Returns, returns_rules}
use bulq.Access.Reads.{access_reads, Reads-require_run, Reads-require_leader}
use bulq.Access.Outcomes.{
  is_led_by, bind-ok, require_run-ok, require_leader-ok, raise_if-ok, not-false, raise_if-passed,
  require_run-found, require_leader-led,
}
use bulq.Repo.Runs.{run_key}
use bulq.Repo.Bids.{bids_of_run, get_bids_by_run}
use bulq.Repo.Shopping.{items_of_run, get_shopping_list_items}
use bulq.Frame.Runs.Shop.{Leaves-give_items}
use bulq.RunStateService.Safe.{IsSafe, IsSafe-ok, IsSafe-bind}
use bulq.RunStateService.Writes.{Returns-give_full}
use bulq.ShoppingService.Ends.{
  EndsIn, update_run_state-moves, EndsIn-after, EndsIn-read, moved_and_told,
}
use bulq.ShoppingService.Complete.{
  is_bought, is_off, give_item, give_items, complete_unbought, send_to_adjusting,
  send_to_distributing, settle_shopping, complete_shopping,
}

-- Of an item with this mark and this quantity, something was bought.
abbrev IsBoughtAs : Bool → Option ℤ → Type 0
IsBoughtAs marked quantity =
    (q : ℤ) × (marked ≡ true) × (quantity ≡ some q) × (ltb_ℤ (pos 0) q ≡ true)

abbrev pub IsBought : ShoppingListItem → Type 0
IsBought item = IsBoughtAs item.is_purchased item.purchased_quantity

-- It is marked as bought with a quantity that is neither 0 nor the requested one: too little or too
-- much.
abbrev IsOffAs : ℤ → Bool → Option ℤ → Type 0
IsOffAs requested marked quantity =
    (q : ℤ) × (marked ≡ true) × (quantity ≡ some q) × (q ≢ pos 0) × (q ≢ requested)

abbrev pub IsOff : ShoppingListItem → Type 0
IsOff item = IsOffAs item.requested_quantity item.is_purchased item.purchased_quantity

-- It holds of one of the items.
abbrev pub One : (ShoppingListItem → Type 0) → List ShoppingListItem → Type 0
One P [] = ⊥
One P (item ∷ items) = P item ⊎ One P items

-- How the shopping can end.
pub data EndOf (items : List ShoppingListItem) : RunState → Type 0 where
  nothing_bought : ¬ (One IsBought items) → EndOf items completed
  something_off : One IsBought items → One IsOff items → EndOf items adjusting
  all_as_requested : One IsBought items → ¬ (One IsOff items) → EndOf items distributing

abbrev marked_amount : Bool → Option ℤ → Option ℤ
marked_amount marked quantity = elim quantity [
  | none ↦ none
  | some q ↦ if marked && not (eqb_ℤ q (pos 0)) then some q else none
]

eqb_ℤ_iff : (a b : ℤ) → (eqb_ℤ a b ≡ true) ↔ (a ≡ b)
eqb_ℤ_iff a b = ground arith

eqb_ℤ-ne : (a b : ℤ) → eqb_ℤ a b ≡ false → a ≢ b
eqb_ℤ-ne a b h e = let t = (eqb_ℤ_iff a b).1 e in cc

above-ne : (q : ℤ) → ltb_ℤ (pos 0) q ≡ true → eqb_ℤ q (pos 0) ≡ false
above-ne q h = ground arith

bought_iff :
    (marked : Bool) (quantity : Option ℤ)
    → (elim (marked_amount marked quantity) [ none ↦ false | some q ↦ ltb_ℤ (pos 0) q ] ≡ true)
      ↔ IsBoughtAs marked quantity
bought_iff marked none = (λ h. cc, λ h. let e = h.2 in cc)
bought_iff false (some q) = (λ h. cc, λ h. let e = h.1 in cc)
bought_iff true (some q) = elim (Bool-cases (eqb_ℤ q (pos 0))) [
  | inl zero ↦ rw zero (
    λ h. cc,
    λ h.
        let same : q ≡ h.0 = cc (h.2) in
        let e = above-ne q (subst (λ v. ltb_ℤ (pos 0) v ≡ true) (sym same) h.3) in cc,
  )
  | inr other ↦ rw other (
    λ h. (q, refl, refl, h),
    λ h. let same : q ≡ h.0 = cc (h.2) in subst (λ v. ltb_ℤ (pos 0) v ≡ true) (sym same) h.3,
  )
]

off_iff :
    (requested : ℤ) (marked : Bool) (quantity : Option ℤ)
    → (elim (marked_amount marked quantity) [ none ↦ false | some q ↦ not (eqb_ℤ q requested) ]
        ≡ true)
      ↔ IsOffAs requested marked quantity
off_iff requested marked none = (λ h. cc, λ h. let e = h.2 in cc)
off_iff requested false (some q) = (λ h. cc, λ h. let e = h.1 in cc)
off_iff requested true (some q) = elim (Bool-cases (eqb_ℤ q (pos 0))) [
  | inl zero ↦ rw zero (
    λ h. cc,
    λ h. let same : q ≡ h.0 = cc (h.2) in absurd (h.3 (sym same ∙ (eqb_ℤ_iff q (pos 0)).0 zero)),
  )
  | inr other ↦ elim (Bool-cases (eqb_ℤ q requested)) [
    | inl same ↦
        rw (other, same)
          (
            λ h. cc,
            λ h.
                let e : q ≡ h.0 = cc (h.2) in absurd (h.4 (sym e ∙ (eqb_ℤ_iff q requested).0 same)),
          )
    | inr off ↦
        rw (other, off)
          (λ h. (q, refl, refl, eqb_ℤ-ne q (pos 0) other, eqb_ℤ-ne q requested off), λ h. refl)
  ]
]

or_iff : {P Q : Type 0} (a b : Bool) → (a ≡ true) ↔ P → (b ≡ true) ↔ Q → ((a || b) ≡ true) ↔ (P ⊎ Q)
or_iff true b p q = (λ h. inl (p.0 refl), λ h. refl)
or_iff false b p q = (λ h. inr (q.0 h), λ h. elim h [ inl x ↦ let e = p.1 x in cc | inr y ↦ q.1 y ])

any_iff :
    {P : ShoppingListItem → Type 0} (f : ShoppingListItem → Bool)
    → ((item : ShoppingListItem) → (f item ≡ true) ↔ P item)
    → (items : List ShoppingListItem) → (any f items ≡ true) ↔ One P items
any_iff f holds [] = (λ h. cc, λ h. absurd h)
any_iff f holds (item ∷ items) = or_iff (f item) (any f items) (holds item) (any_iff f holds items)

-- The state in which a run with this shopping list ends up.
abbrev state_after : List ShoppingListItem → RunState
state_after items =
    if not (any is_bought items)
    then completed
    else if any is_off items
    then adjusting
    else distributing

One-IsBought : (items : List ShoppingListItem) → (any is_bought items ≡ true) ↔ One IsBought items
One-IsBought = any_iff is_bought λ i. bought_iff i.is_purchased i.purchased_quantity

One-IsOff : (items : List ShoppingListItem) → (any is_off items ≡ true) ↔ One IsOff items
One-IsOff = any_iff is_off λ i. off_iff i.requested_quantity i.is_purchased i.purchased_quantity

false-not : {P : Type 0} (b : Bool) → (b ≡ true) ↔ P → b ≡ false → ¬ P
false-not b h e p = let t = h.1 p in cc

not-false_of : {P : Type 0} (b : Bool) → (b ≡ true) ↔ P → ¬ P → b ≡ false
not-false_of true h n = absurd (n (h.0 refl))
not-false_of false h n = refl

EndOf-state_after : (items : List ShoppingListItem) → EndOf items (state_after items)
EndOf-state_after items = elim (Bool-cases (any is_bought items)) [
  | inr none_bought ↦ rw none_bought (nothing_bought (false-not _ (One-IsBought items) none_bought))
  | inl bought ↦ elim (Bool-cases (any is_off items)) [
    | inl off ↦
        rw (bought, off) (something_off ((One-IsBought items).0 bought) ((One-IsOff items).0 off))
    | inr same ↦
        rw (bought, same)
          (all_as_requested ((One-IsBought items).0 bought) (false-not _ (One-IsOff items) same))
  ]
]

-- There is one end only.
state_after-EndOf :
    (items : List ShoppingListItem) {t : RunState} → EndOf items t → state_after items ≡ t
state_after-EndOf items (nothing_bought n) = rw (not-false_of _ (One-IsBought items) n) refl
state_after-EndOf items (something_off b o) =
    rw ((One-IsBought items).1 b, (One-IsOff items).1 o) refl
state_after-EndOf items (all_as_requested b n) =
    rw ((One-IsBought items).1 b, not-false_of _ (One-IsOff items) n) refl

pub Returns-give_item :
    (bids : List ProductBid) (i : ShoppingListItem) (o : Option ℤ) → Returns (give_item bids i o)
unfolding give_item
Returns-give_item bids i none = search returns_rules
Returns-give_item bids i (some q) = search (returns_rules, Returns-give_full)

pub Returns-give_items :
    (bids : List ProductBid) (items : List ShoppingListItem) → Returns (give_items bids items)
unfolding give_items
Returns-give_items bids [] = search returns_rules
Returns-give_items bids (i ∷ items) =
    search (returns_rules, Returns-give_item, λ (v : Unit {0}). Returns-give_items bids items)

module _ (n : ℕ) (run : Run) (s : MemoryStorage) (found : get run_key n s.runs ≡ some run)
    (here : run.state ≡ shopping) where
  leads_on : (t : RunState) → can_transition shopping t ≡ true → can_transition run.state t ≡ true
  leads_on t h = subst (λ v. can_transition v t ≡ true) (sym here) h

  unbought : EndsIn n completed (complete_unbought n run) s
  unfolding complete_unbought can_transition
  unbought =
      let (o, e, there) =
        update_run_state-moves n distributing s found (leads_on distributing refl) in
      EndsIn-after n completed _ _ s e (moved_and_told n completed run run.state _ there refl)

  adjusted : EndsIn n adjusting (send_to_adjusting n run) s
  unfolding send_to_adjusting can_transition
  adjusted = moved_and_told n adjusting run run.state s found (leads_on adjusting refl)

  distributed :
      (items : List ShoppingListItem) (bids : List ProductBid)
      → EndsIn n distributing (send_to_distributing n run items bids) s
  unfolding send_to_distributing can_transition
  distributed items bids =
      let (v, e) = (Returns-give_items bids items).at s in
      EndsIn-after n distributing _ _ s e (
        moved_and_told n distributing run run.state _
          (ap (get run_key n) ((Leaves-give_items bids items).at s) ∙ found)
          (leads_on distributing refl))

  settled :
      (items : List ShoppingListItem) (bids : List ProductBid)
      → EndsIn n (state_after items) (settle_shopping n run items bids) s
  unfolding settle_shopping
  settled items bids = go (any is_bought items) (any is_off items)
    where
      go :
          (b c : Bool)
          → EndsIn n
              (if not b then completed else if c then adjusting else distributing)
              (if not b
                then complete_unbought n run
                else if c
                then send_to_adjusting n run
                else send_to_distributing n run items bids)
              s
      go false c = unbought
      go true true = adjusted
      go true false = distributed items bids

in_shopping : (t : RunState) → (can_complete_shopping t ≡ true) ↔ (t ≡ shopping)
unfolding can_complete_shopping
in_shopping t = grind arith

pub IsSafe-complete_shopping :
    (u : User) (s : MemoryStorage) (i : IdText) → IsSafe s (complete_shopping i u)
unfolding complete_shopping
IsSafe-complete_shopping u s i = IsSafe-bind _ _ (search access_reads) λ n _.
    IsSafe-bind _ _ (Reads-require_run n) λ run found.
      IsSafe-bind _ _ (Reads-require_leader n u) λ _ _.
        IsSafe-bind _ _ (Reads-raise_if _ _) λ _ allowed.
          IsSafe-bind _ _ (search access_reads) λ items _.
            IsSafe-bind _ _ (search access_reads) λ bids _.
              IsSafe-ok _
                (settled n run s (require_run-ok n s found)
                  ((in_shopping run.state).0
                    (not-false (can_complete_shopping run.state) (raise_if-ok _ _ s allowed)))
                  items bids).returned

module _ (n : ℕ) (u : User) (s : MemoryStorage) {run : Run}
    (found : get run_key n s.runs ≡ some run) where
  returned-only :
      {t : RunState}
      → (complete_shopping (some n) u s).0 ≡ ok t
      → (is_led_by u n s ≡ true) × (run.state ≡ shopping)
  unfolding complete_shopping or_raise
  returned-only h =
      let (n', p, h') = bind-ok _ _ s (search access_reads) h in
      let same_id : n ≡ n' = cc in
      let (run', p0, h0) = bind-ok _ _ s (Reads-require_run n') h' in
      let (_, p1, h1) = bind-ok _ _ s (Reads-require_leader n' u) h0 in
      let (_, p2, h2) = bind-ok _ _ s (search access_reads) h1 in
      let found' = require_run-ok n' s p0 in
      let same : run' ≡ run = cc in
      (
        rw same_id (require_leader-ok n' u s p1),
        rw (← same) (
            (in_shopping run'.state).0
              (not-false (can_complete_shopping run'.state) (raise_if-ok _ _ s p2))),
      )

  ended :
      is_led_by u n s ≡ true
      → run.state ≡ shopping
      → EndsIn n (state_after (items_of_run n s)) (complete_shopping (some n) u) s
  unfolding complete_shopping or_raise get_shopping_list_items get_bids_by_run gets
  ended led here =
      let open_run : not (can_complete_shopping run.state) ≡ false =
        ap not ((in_shopping run.state).1 here) in
      let t = state_after (items_of_run n s) in
      EndsIn-read n t _ _ s (search access_reads) refl (
        EndsIn-read n t _ _ s (Reads-require_run n) (require_run-found n s found) (
          EndsIn-read n t _ _ s (Reads-require_leader n u) (require_leader-led n u s led) (
            EndsIn-read n t _ _ s (Reads-raise_if _ _) (raise_if-passed _ _ s open_run) (
              EndsIn-read n t _ _ s (search access_reads) refl (
                EndsIn-read n t _ _ s (search access_reads) refl
                  (settled n run s found here (items_of_run n s) (bids_of_run n s)))))))

  -- For a run that exists, `complete_shopping` returns a state and leaves the run in it exactly when
  -- the caller leads the run, the run is in shopping, and the shopping ends so: completed, if of no
  -- item anything was bought; adjusting, if something was, and of an item a quantity that is neither 0
  -- nor the requested one, be it less or more; and distributing, if something was, and no such item is
  -- there.
  pub complete_shopping_iff :
      (t : RunState)
      → EndsIn n t (complete_shopping (some n) u) s
        ↔ ((is_led_by u n s ≡ true) × (run.state ≡ shopping) × EndOf (items_of_run n s) t)
  complete_shopping_iff t = (
    λ h.
        let (led, here) = returned-only h.returned in
        let end = ended led here in
        let same : state_after (items_of_run n s) ≡ t =
          let e = end.returned in let e' = h.returned in cc in
        (led, here, subst (EndOf (items_of_run n s)) same (EndOf-state_after (items_of_run n s))),
    λ h.
        subst (λ v. EndsIn n v (complete_shopping (some n) u) s)
          (state_after-EndOf (items_of_run n s) h.2) (ended h.0 h.1),
  )
