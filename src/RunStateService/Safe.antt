-- ===== src/RunStateService/Safe.antt =====
-- `start_shopping` and `finish_adjusting` fail only before they write: when the writing is done, the
-- transition that follows is one that the state machine allows.
use bulq.Common.{ℕ, ◌≡◌, refl, sym, ap, subst, ◌∙◌, Bool, true, some, List, [], ◌∷◌, arith}
use bulq.Common.Int.{ℤ}
use bulq.Error.{Error, Result, ok, err}
use bulq.Table.{get, key-get}
use bulq.RunState.{
  RunState, shopping, distributing, can_transition, can_start_shopping, can_finish_adjusting,
}
use bulq.RunState.Validate.{validate_transition}
use bulq.Model.{MemoryStorage, User, Run, ProductBid, ShoppingListItem}
use bulq.Storage.{Action, IdText, pure, gets, lift, modify, resume, emit, ◌>>=◌, ◌>>◌}
use bulq.Storage.Rules.{Reads, Reads-raise_if, Returns, Leaves}
use bulq.Access.{require_run}
use bulq.Access.Reads.{access_reads, Reads-require_run, Reads-require_member, Reads-require_leader}
use bulq.Access.Outcomes.{raise_if-ok, not-false, require_run-ok, bind-ok}
use bulq.Frame.Runs.{runs_of}
use bulq.Lifecycle.States.{Leaves-generate_shopping_list, Leaves-distribute_items_to_bidders}
use bulq.Repo.Directory.{get_all_stores}
use bulq.Repo.Runs.{run_key, get_run_by_id, update_run_state, move_run}
use bulq.RunStateService.Transition.{transition_run_state}
use bulq.RunStateService.ShoppingList.{generate_shopping_list}
use bulq.RunStateService.Share.{distribute_items_to_bidders, check_items, verify_quantities_match}
use bulq.RunStateService.Methods.{
  start_shopping, validate_finish_adjusting_request, finish_adjusting,
}
use bulq.RunStateService.Writes.{
  Returns-generate_shopping_list, Returns-distribute_items_to_bidders,
}

-- If the action raises in the storage `s`, it has changed nothing.
pub record IsSafe {A : Type 0} (s : MemoryStorage) (m : Action A) : Type 0 where
  pub unchanged : (e : Error) → (m s).0 ≡ err e → (m s).1 ≡ s

module _ {s : MemoryStorage} where
  pub IsSafe-ok : {A : Type 0} (m : Action A) {a : A} → (m s).0 ≡ ok a → IsSafe s m
  IsSafe-ok m p = record { unchanged = λ e q. cc }

  pub IsSafe-bind :
      {A B : Type 0} (m : Action A) (f : A → Action B)
      → Reads m
      → ((a : A) → (m s).0 ≡ ok a → IsSafe s (f a))
      → IsSafe s (m >>= f)
  unfolding ◌>>=◌
  IsSafe-bind {A} m f h k = record { unchanged = λ e. go (m s).0 (m s).1 e refl (h.at s) }
    where
      go :
          (r : Result A) (t : MemoryStorage) (e : Error)
          → (m s).0 ≡ r
          → t ≡ s
          → (resume f r t).0 ≡ err e
          → (resume f r t).1 ≡ s
      go (ok a) t e p same q =
          ap (λ x. (f a x).1) same ∙ (k a p).unchanged e (subst (λ x. (f a x).0 ≡ err e) same q)
      go (err x) t e p same q = same

-- A transition of a run that is in the table as it was read, which the state machine allows.
moved :
    (run : Run) (t : RunState) (s : MemoryStorage)
    → get run_key run.id s.runs ≡ some run
    → can_transition run.state t ≡ true
    → ((transition_run_state run t >> pure t) s).0 ≡ ok t
unfolding transition_run_state update_run_state move_run get_run_by_id validate_transition
    get_all_stores emit gets lift modify pure ◌>>=◌
moved run t s found allowed = rw (allowed, found, allowed) refl

-- So it is after steps that write something else.
written :
    {A : Type 0} (m : Action A) (run : Run) (t : RunState) (s : MemoryStorage)
    → Returns m
    → Leaves runs_of m
    → get run_key run.id s.runs ≡ some run
    → can_transition run.state t ≡ true
    → ((m >>= λ _. transition_run_state run t >> pure t) s).0 ≡ ok t
unfolding ◌>>=◌
written m run t s always same found allowed =
    let (a, e) = always.at s in rw e (moved run t (m s).1 (rw (same.at s) found) allowed)

-- A run is in the table under its id, in the storage where it was found.
found_at :
    (n : ℕ) {run : Run} (s : MemoryStorage)
    → (require_run n s).0 ≡ ok run
    → get run_key run.id s.runs ≡ some run
found_at n {run} s h =
    let p = require_run-ok n s h in
    subst (λ k. get run_key k s.runs ≡ some run) (sym (key-get run_key n s.runs p)) p

shopping_allowed : (t : RunState) → can_start_shopping t ≡ true → can_transition t shopping ≡ true
unfolding can_start_shopping can_transition
shopping_allowed t h = ground arith

distributing_allowed :
    (t : RunState) → can_finish_adjusting t ≡ true → can_transition t distributing ≡ true
unfolding can_finish_adjusting can_transition
distributing_allowed t h = ground arith

module _ (u : User) (s : MemoryStorage) where
  pub IsSafe-start_shopping : (i : IdText) → IsSafe s (start_shopping i u)
  unfolding start_shopping
  IsSafe-start_shopping i = IsSafe-bind _ _ (search access_reads) λ n _.
      IsSafe-bind _ _ (Reads-require_run n) λ run found.
        IsSafe-bind _ _ (Reads-require_member run u) λ _ _.
          IsSafe-bind _ _ (Reads-raise_if _ _) λ _ allowed.
            IsSafe-bind _ _ (Reads-require_leader n u) λ _ _. IsSafe-ok _ (
              written (generate_shopping_list n) run shopping s (Returns-generate_shopping_list n)
                (Leaves-generate_shopping_list n) (found_at n s found)
                (shopping_allowed run.state
                  (not-false (can_start_shopping run.state) (raise_if-ok _ _ s allowed))))

  validated_finish :
      (i : IdText) {n : ℕ} {run : Run}
      → (validate_finish_adjusting_request i u s).0 ≡ ok (n, run)
      → (get run_key run.id s.runs ≡ some run) × (can_finish_adjusting run.state ≡ true)
  unfolding validate_finish_adjusting_request pure
  validated_finish i {n} {run} h =
      let (n', p0, h0) = bind-ok _ _ s (search access_reads) h in
      let (run', p1, h1) = bind-ok _ _ s (Reads-require_run n') h0 in
      let (_, p2, h2) = bind-ok _ _ s (Reads-require_member run' u) h1 in
      let (_, p3, h3) = bind-ok _ _ s (search access_reads) h2 in
      let (_, p4, h4) = bind-ok _ _ s (Reads-require_leader n' u) h3 in
      let same_run : run' ≡ run = cc in
      subst (λ r. (get run_key r.id s.runs ≡ some r) × (can_finish_adjusting r.state ≡ true))
        same_run
        (found_at n' s p1, not-false (can_finish_adjusting run'.state) (raise_if-ok _ _ s p3))

  Reads-validate_finish : (i : IdText) → Reads (validate_finish_adjusting_request i u)
  unfolding validate_finish_adjusting_request
  Reads-validate_finish i = search access_reads depth 12

  Reads-check_items :
      (bids : List ProductBid) (items : List ShoppingListItem) → Reads (check_items bids items)
  unfolding check_items
  Reads-check_items bids [] = search access_reads
  Reads-check_items bids (i ∷ items) =
      search (access_reads, λ (v : Unit {0}). Reads-check_items bids items)

  Reads-verify : (n : ℕ) → Reads (verify_quantities_match n)
  unfolding verify_quantities_match
  Reads-verify n = search (access_reads, Reads-check_items)

  pub IsSafe-finish_adjusting :
      (scaled : ℤ → ℤ → ℤ → ℤ) (i : IdText) (force : Bool)
      → IsSafe s (finish_adjusting scaled i u force)
  unfolding finish_adjusting
  IsSafe-finish_adjusting scaled i force = IsSafe-bind _ _ (Reads-validate_finish i) λ v valid.
      let (n, run) = v in
      let (found, allowed) = validated_finish i valid in
      IsSafe-bind _ _ (search (access_reads, Reads-verify)) λ _ _. IsSafe-ok _ (
        written (distribute_items_to_bidders scaled n) run distributing s
          (Returns-distribute_items_to_bidders scaled n)
          (Leaves-distribute_items_to_bidders scaled n) found
          (distributing_allowed run.state allowed))
