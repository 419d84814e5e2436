-- ===== src/RunService/Guards.antt =====
-- Each method against `MayMove`, and the requests in all.
use bulq.Common.{ℕ, ◌≡◌, ◌≢◌, sym, subst, ◌∙◌, inl, inr, Bool, true, ◌==◌, ==_iff, Bool-cases}
use bulq.Common.Int.{ℤ}
use bulq.Error.{ok}
use bulq.Table.{key-get}
use bulq.RunState.{RunState, confirmed, shopping, completed}
use bulq.Model.{MemoryStorage, User, Run}
use bulq.Storage.{Action, IdText, pure}
use bulq.Storage.Rules.{Reads, Leaves, leaves_rules}
use bulq.Access.Reads.{access_reads, Reads-require_run, Reads-require_member, Reads-require_leader}
use bulq.Access.Outcomes.{is_led_by, bind-ok, require_run-ok, require_leader-ok}
use bulq.Repo.Runs.{run_key}
use bulq.Frame.Runs.{Leaves-emit}
use bulq.RunStateService.Transition.{transition_run_state}
use bulq.RunStateService.Methods.{
  force_confirm, start_shopping, cancel_run, finish_adjusting, validate_finish_adjusting_request,
}
use bulq.Access.{require_run}
use bulq.DistributionService.{complete_distribution}
use bulq.ShoppingService.Complete.{
  complete_unbought, send_to_adjusting, send_to_distributing, settle_shopping, complete_shopping,
}
use bulq.Frame.Runs.Shop.{Leaves-give_items}
use bulq.Lifecycle.States.{
  Leaves-generate_shopping_list, Leaves-distribute_items_to_bidders, Leaves-verify_quantities_match,
}
use bulq.DistributionService.Notified.{Leaves-notify_run_state_change}
use bulq.RunService.Authority.{
  as_leader, run_at, Leaves-run_at, Leaves-update_run_state, IsGuarded, IsGuarded-Leaves,
  IsGuarded-bind,
}

Leaves-transition :
    (j : ℕ) (r : Run) (t : RunState) → r.id ≢ j → Leaves (run_at j) (transition_run_state r t)
unfolding transition_run_state
Leaves-transition j r t ne =
    search
      (
        leaves_rules,
        access_reads,
        Leaves-run_at,
        Leaves-emit,
        λ (v : Unit {0}). Leaves-update_run_state j r.id t ne,
      )
      depth 8

module _ (u : User) (j : ℕ) (s : MemoryStorage) where
  -- What the leader of the run `i` may do touches no other run.
  pub led :
      {A : Type 0} (i : ℕ) (m : Action A)
      → is_led_by u i s ≡ true
      → (i ≢ j → Leaves (run_at j) m)
      → IsGuarded u j s m
  led i m h k = elim (Bool-cases (i == j)) [
    | inl same ↦ record {
      reason = inr (as_leader (subst (λ n. is_led_by u n s ≡ true) ((==_iff i j).0 same) h));
    }
    | inr other ↦ IsGuarded-Leaves m (k (λ e. cc ((==_iff i j).1 e)))
  ]

  -- The id under which a run was found is its own.
  not_at : {n : ℕ} {run : Run} → (require_run n s).0 ≡ ok run → n ≢ j → run.id ≢ j
  not_at {n} h ne e = ne (sym (key-get run_key n s.runs (require_run-ok n s h)) ∙ e)

  pub IsGuarded-force_confirm : (i : IdText) → IsGuarded u j s (force_confirm i u)
  unfolding force_confirm
  IsGuarded-force_confirm i = IsGuarded-bind _ _ (search access_reads) λ n _.
      IsGuarded-bind _ _ (Reads-require_run n) λ run found.
        IsGuarded-bind _ _ (Reads-require_member run u) λ _ _.
          IsGuarded-bind _ _ (Reads-require_leader n u) λ _ led_run.
            led n _ (require_leader-ok n u s led_run) λ ne. search (
              leaves_rules,
              access_reads,
              λ (v : Unit {0}). Leaves-transition j run confirmed (not_at found ne),
            )

  pub IsGuarded-start_shopping : (i : IdText) → IsGuarded u j s (start_shopping i u)
  unfolding start_shopping
  IsGuarded-start_shopping i = IsGuarded-bind _ _ (search access_reads) λ n _.
      IsGuarded-bind _ _ (Reads-require_run n) λ run found.
        IsGuarded-bind _ _ (Reads-require_member run u) λ _ _.
          IsGuarded-bind _ _ (search access_reads) λ _ _.
            IsGuarded-bind _ _ (Reads-require_leader n u) λ _ led_run.
              led n _ (require_leader-ok n u s led_run) λ ne.
                search
                  (
                    leaves_rules,
                    access_reads,
                    Leaves-run_at,
                    Leaves-generate_shopping_list,
                    λ (v : Unit {0}). Leaves-transition j run shopping (not_at found ne),
                  )
                  depth 8

  pub IsGuarded-cancel_run : (i : IdText) → IsGuarded u j s (cancel_run i u)
  unfolding cancel_run
  IsGuarded-cancel_run i = IsGuarded-bind _ _ (search access_reads) λ n _.
      IsGuarded-bind _ _ (Reads-require_run n) λ run found.
        IsGuarded-bind _ _ (search access_reads) λ _ _.
          IsGuarded-bind _ _ (Reads-require_member run u) λ _ _.
            IsGuarded-bind _ _ (Reads-require_leader n u) λ _ led_run.
              led n _ (require_leader-ok n u s led_run) λ ne.
                search
                  (
                    leaves_rules,
                    access_reads,
                    Leaves-run_at,
                    Leaves-emit,
                    λ (t : RunState). Leaves-transition j run t (not_at found ne),
                  )
                  depth 8

  pub IsGuarded-complete_distribution : (n : ℕ) → IsGuarded u j s (complete_distribution n u)
  unfolding complete_distribution
  IsGuarded-complete_distribution n = IsGuarded-bind _ _ (Reads-require_run n) λ run found.
      IsGuarded-bind _ _ (Reads-require_leader n u) λ _ led_run.
        led n _ (require_leader-ok n u s led_run) λ ne.
          search
            (
              leaves_rules,
              access_reads,
              Leaves-run_at,
              Leaves-notify_run_state_change,
              λ (v : Unit {0}). Leaves-update_run_state j n completed ne,
            )
            depth 12

  pub IsGuarded-complete_shopping : (i : IdText) → IsGuarded u j s (complete_shopping i u)
  unfolding complete_shopping settle_shopping complete_unbought send_to_adjusting
      send_to_distributing
  IsGuarded-complete_shopping i = IsGuarded-bind _ _ (search access_reads) λ n _.
      IsGuarded-bind _ _ (Reads-require_run n) λ run found.
        IsGuarded-bind _ _ (Reads-require_leader n u) λ _ led_run.
          led n _ (require_leader-ok n u s led_run) λ ne.
            search
              (
                leaves_rules,
                access_reads,
                Leaves-run_at,
                Leaves-notify_run_state_change,
                Leaves-give_items,
                λ (t : RunState). Leaves-update_run_state j n t ne,
              )
              depth 14

  validated_finish :
      (i : IdText) {n : ℕ} {run : Run}
      → (validate_finish_adjusting_request i u s).0 ≡ ok (n, run)
      → ((require_run n s).0 ≡ ok run) × (is_led_by u n s ≡ true)
  unfolding validate_finish_adjusting_request pure
  validated_finish i {n} {run} h =
      let (n', p0, h0) = bind-ok _ _ s (search access_reads) h in
      let (run', p1, h1) = bind-ok _ _ s (Reads-require_run n') h0 in
      let (_, p2, h2) = bind-ok _ _ s (Reads-require_member run' u) h1 in
      let (_, p3, h3) = bind-ok _ _ s (search access_reads) h2 in
      let (_, p4, h4) = bind-ok _ _ s (Reads-require_leader n' u) h3 in
      let same_id : n' ≡ n = cc in
      let same_run : run' ≡ run = cc in
      (
        rw (← same_id, ← same_run) p1,
        subst (λ k. is_led_by u k s ≡ true) same_id (require_leader-ok n' u s p4),
      )

  Reads-validate_finish : (i : IdText) → Reads (validate_finish_adjusting_request i u)
  unfolding validate_finish_adjusting_request
  Reads-validate_finish i = search access_reads depth 12

  pub IsGuarded-finish_adjusting :
      (scaled : ℤ → ℤ → ℤ → ℤ) (i : IdText) (force : Bool)
      → IsGuarded u j s (finish_adjusting scaled i u force)
  unfolding finish_adjusting
  IsGuarded-finish_adjusting scaled i force =
      IsGuarded-bind _ _ (Reads-validate_finish i) λ v ok_request.
        let (n, run) = v in
        let (found, led_run) = validated_finish i ok_request in
        led n _ led_run λ ne.
          search
            (
              leaves_rules,
              access_reads,
              Leaves-run_at,
              Leaves-verify_quantities_match,
              Leaves-distribute_items_to_bidders scaled,
              λ (t : RunState). Leaves-transition j run t (not_at found ne),
            )
            depth 8
