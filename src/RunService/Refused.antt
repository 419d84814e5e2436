-- ===== src/RunService/Refused.antt =====
-- What a bid that is refused leaves as it was: all but the participations, since its user may have
-- joined the run.
use bulq.Common.{
  ℕ, ◌≡◌, refl, sym, ap, subst, ◌∙◌, Bool, true, false, not, Option, none, some, String, ◌&&◌,
  Bool-cases, inl, inr, arith,
}
use bulq.Common.Int.{ℤ}
use bulq.Error.{Error, Result, ok, err}
use bulq.Table.{get, key-get}
use bulq.RunState.{planning, is_state, can_transition}
use bulq.RunState.Validate.{validate_transition}
use bulq.Model.{MemoryStorage, User, Run, RunParticipation}
use bulq.Storage.{Action, IdText, pure, gets, lift, modify, resume, ◌>>=◌}
use bulq.Storage.Rules.{Returns, Leaves, returns_rules}
use bulq.Repo.Runs.{run_key, get_run_by_id, update_run_state, move_run}
use bulq.Repo.Bids.{get_bid}
use bulq.Frame.Runs.{runs_of}
use bulq.Frame.Bids.{bids_of, bids_left}
use bulq.Frame.Items.{items_of, items_left}
use bulq.Lifecycle.Bids.{
  Reads-validate_bid_request, Reads-validate_bid_for_state, Leaves-ensure_user_participation,
  Leaves-record_bid,
}
use bulq.BidService.Methods.{
  validate_bid_request, join_run, ensure_user_participation, remove_bid, record_bid,
  check_planning_to_active_transition, bid_in_run, place_bid,
}
use bulq.RunStateService.Writes.{Returns-create_or_update_bid}
use bulq.RunStateService.Safe.{IsSafe, IsSafe-ok, IsSafe-bind}
use bulq.RunService.Failures.{Returns-delete_bid, Returns-calculate_product_total}
use bulq.RunService.Newcomer.{validated_bid, is_state-eq}

Returns-record_bid :
    (l p : ℕ) (q : ℤ) (b : Bool) (c : Option String) → Returns (record_bid l p q b c)
unfolding record_bid remove_bid get_bid
Returns-record_bid l p q b c =
    search (returns_rules, Returns-create_or_update_bid, Returns-delete_bid) depth 8

-- The sequence returns, if its first step does in this storage and its rest does in any.
settles_first :
    {A B : Type 0} (m : Action A) (f : A → Action B) (t : MemoryStorage)
    → (a : A) × ((m t).0 ≡ ok a)
    → ((a : A) → Returns (f a))
    → (b : B) × (((m >>= f) t).0 ≡ ok b)
unfolding ◌>>=◌
settles_first m f t (a, e) h = rw e ((h a).at (m t).1)

-- The sequence returns, if its first step always does and its rest does where that has led.
settles_after :
    {A B V : Type 0} (part : MemoryStorage → V) (m : Action A) (f : A → Action B)
    (t : MemoryStorage)
    → Returns m
    → Leaves part m
    → ((a : A) (t' : MemoryStorage) → part t' ≡ part t → (b : B) × ((f a t').0 ≡ ok b))
    → (b : B) × (((m >>= f) t).0 ≡ ok b)
unfolding ◌>>=◌
settles_after part m f t h same k = let (a, e) = h.at t in rw e (k a (m t).1 (same.at t))

activated :
    (run : Run) (is_new : Bool) (l : RunParticipation) (t : MemoryStorage)
    → get run_key run.id t.runs ≡ some run
    → (b : Bool) × ((check_planning_to_active_transition run is_new l t).0 ≡ ok b)
unfolding check_planning_to_active_transition update_run_state move_run get_run_by_id
    validate_transition can_transition gets lift modify pure ◌>>=◌
activated run is_new l t found =
    elim (Bool-cases (is_new && (not l.is_leader && is_state run.state planning))) [
      | inr stays ↦ rw stays (false, refl)
      | inl moves ↦
          let planned : run.state ≡ planning = is_state-eq run.state planning (ground arith) in
          rw (moves, found, planned) (true, refl)
    ]

module _ (m n p : ℕ) (run : Run) (q : ℤ) (b : Bool) (u : User) (c : Option String) where
  IsSafe-bid_in_run :
      (e : RunParticipation × Bool) (t : MemoryStorage)
      → get run_key run.id t.runs ≡ some run
      → IsSafe t (bid_in_run m n p run q b u c e)
  unfolding bid_in_run
  IsSafe-bid_in_run (l, is_new) t found =
      IsSafe-bind _ _ (Reads-validate_bid_for_state m run p q l) λ _ _.
        let (r, e) =
          settles_after runs_of _ _ t (Returns-record_bid l.id p q b c)
            (Leaves-record_bid l.id p q b c)
            (λ _ t' same.
              settles_first _ _ t' (activated run is_new l t' (rw same found))
                (λ changed. search (returns_rules, Returns-calculate_product_total) depth 8)) in
        IsSafe-ok _ e

  -- Joining and bidding together, in the storage where the run was found.
  joined :
      {V : Type 0} (part : MemoryStorage → V) (s : MemoryStorage) {x : Error}
      → get run_key run.id s.runs ≡ some run
      → Leaves part (ensure_user_participation n run u)
      → ((ensure_user_participation n run u >>= bid_in_run m n p run q b u c) s).0 ≡ err x
      → part ((ensure_user_participation n run u >>= bid_in_run m n p run q b u c) s).1 ≡ part s
  unfolding ◌>>=◌
  joined part s {x} found left =
      go (ensure_user_participation n run u s).0 (ensure_user_participation n run u s).1
        (rw ((Leaves-ensure_user_participation n run u).at s) found) (left.at s)
    where
      go :
          (r : Result (RunParticipation × Bool)) (t : MemoryStorage)
          → get run_key run.id t.runs ≡ some run
          → part t ≡ part s
          → (resume (bid_in_run m n p run q b u c) r t).0 ≡ err x
          → part (resume (bid_in_run m n p run q b u c) r t).1 ≡ part s
      go (ok e) t there same h = ap part ((IsSafe-bid_in_run e t there).unchanged x h) ∙ same
      go (err y) t there same h = same

joined_bids :
    (n : ℕ) (run : Run) (u : User) (o : Option RunParticipation)
    → Leaves bids_of (join_run n run u o)
unfolding join_run
joined_bids n run u none = search bids_left
joined_bids n run u (some l) = search bids_left

ensured_bids : (n : ℕ) (run : Run) (u : User) → Leaves bids_of (ensure_user_participation n run u)
unfolding ensure_user_participation
ensured_bids n run u = search (bids_left, joined_bids)

joined_items :
    (n : ℕ) (run : Run) (u : User) (o : Option RunParticipation)
    → Leaves items_of (join_run n run u o)
unfolding join_run
joined_items n run u none = search items_left
joined_items n run u (some l) = search items_left

ensured_items : (n : ℕ) (run : Run) (u : User) → Leaves items_of (ensure_user_participation n run u)
unfolding ensure_user_participation
ensured_items n run u = search (items_left, joined_items)

module _ (m : ℕ) (i k : IdText) (q : ℤ) (b : Bool) (u : User) (c : Option String)
    (s : MemoryStorage) {x : Error} where
  refused :
      {V : Type 0} (part : MemoryStorage → V)
      → ((n : ℕ) (run : Run) → Leaves part (ensure_user_participation n run u))
      → (place_bid m i k q b u c s).0 ≡ err x
      → part (place_bid m i k q b u c s).1 ≡ part s
  unfolding place_bid ◌>>=◌
  refused part left =
      go (validate_bid_request i k u s).0 (validate_bid_request i k u s).1
        ((Reads-validate_bid_request i k u).at s) refl
    where
      rest : ℕ × ℕ × Run → Action (ℤ × Bool)
      rest (n, p, run) = ensure_user_participation n run u >>= bid_in_run m n p run q b u c

      go :
          (r : Result (ℕ × ℕ × Run)) (t : MemoryStorage)
          → t ≡ s
          → (validate_bid_request i k u s).0 ≡ r
          → (resume rest r t).0 ≡ err x
          → part (resume rest r t).1 ≡ part s
      go (err y) t same e h = ap part same
      go (ok (n, p, run)) t same e h =
          let (found, member) = validated_bid u s i k e in
          let there : get run_key run.id s.runs ≡ some run =
            subst (λ j. get run_key j s.runs ≡ some run) (sym (key-get run_key n s.runs found))
              found in
          ap (λ v. part (rest (n, p, run) v).1) same
          ∙ joined m n p run q b u c part s there (left n run)
              (subst (λ v. (rest (n, p, run) v).0 ≡ err x) same h)

  -- A bid that is refused leaves the bids, the runs and the shopping lists as they were.
  pub place_bid-refused :
      (place_bid m i k q b u c s).0 ≡ err x
      → ((place_bid m i k q b u c s).1.bids ≡ s.bids)
        × ((place_bid m i k q b u c s).1.runs ≡ s.runs)
        × ((place_bid m i k q b u c s).1.shopping_list_items ≡ s.shopping_list_items)
  place_bid-refused h = (
    refused bids_of (λ n run. ensured_bids n run u) h,
    refused runs_of (λ n run. Leaves-ensure_user_participation n run u) h,
    refused items_of (λ n run. ensured_items n run u) h,
  )
