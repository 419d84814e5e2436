-- ===== src/DistributionService/Completion.antt =====
-- When a run can be completed.
use bulq.Common.{ℕ, ◌≡◌, refl, ap, subst, ◌↔◌, true, false, not, Option, some, any, arith}
use bulq.Error.{Result, ok}
use bulq.Table.{get}
use bulq.RunState.{RunState, distributing, completed, can_complete_distribution, can_transition}
use bulq.RunState.Validate.{validate_transition}
use bulq.Model.{MemoryStorage, User, Run}
use bulq.Storage.{Action, pure, gets, lift, modify, ◌>>=◌, ◌>>◌}
use bulq.Storage.Rules.{Reads, Reads-raise_if}
use bulq.Access.Reads.{access_reads, Reads-get_bids_by_run, Reads-require_run, Reads-require_leader}
use bulq.Access.Outcomes.{
  is_led_by, bind-ok, raise_if-ok, not-false, require_leader-ok, raise_if-passed, require_run-found,
  require_leader-led,
}
use bulq.Repo.Runs.{run_key, get_run_by_id, update_run_state, move_run}
use bulq.Repo.Bids.{bids_of_run, get_bids_by_run}
use bulq.DistributionService.{is_unpicked, notify_run_state_change, complete_distribution}
use bulq.DistributionService.Notified.{Returns-notify_run_state_change}

-- A step that only reads hands on what it returns.
step :
    {A B : Type 0} (m : Action A) (f : A → Action B) (s : MemoryStorage) {a : A} {b : B}
    → Reads m
    → (m s).0 ≡ ok a
    → (f a s).0 ≡ ok b
    → ((m >>= f) s).0 ≡ ok b
unfolding ◌>>=◌
step m f s {a} {b} h e p = rw (e, h.at s) p

-- After a step that returns, a rest that always returns the same.
finish :
    {A B : Type 0} (m : Action A) (f : A → Action B) (s : MemoryStorage) {a : A} {b : B}
    → (m s).0 ≡ ok a
    → ((t : MemoryStorage) → (f a t).0 ≡ ok b)
    → ((m >>= f) s).0 ≡ ok b
unfolding ◌>>=◌
finish m f s {a} {b} e p = rw e (p (m s).1)

same_result : {A : Type 0} {r : Result A} {a b : A} → r ≡ ok a → r ≡ ok b → a ≡ b
same_result p q = cc

module _ (n : ℕ) (u : User) (s : MemoryStorage) {run : Run}
    (found : get run_key n s.runs ≡ some run) where
  moved-ok :
      run.state ≡ distributing → (o : Option Run) × ((update_run_state n completed s).0 ≡ ok o)
  unfolding update_run_state move_run get_run_by_id validate_transition can_transition gets lift
      modify ◌>>=◌
  moved-ok h = rw (found, h) (_, refl)

  in_distribution : (t : RunState) → (can_complete_distribution t ≡ true) ↔ (t ≡ distributing)
  unfolding can_complete_distribution
  in_distribution t = grind arith

  notified :
      (t : MemoryStorage)
      → ((notify_run_state_change run run.state completed >> pure completed) t).0 ≡ ok completed
  unfolding ◌>>=◌ pure
  notified t =
      let (v, e) = (Returns-notify_run_state_change run run.state completed).at t in rw e refl

  read-bids : (get_bids_by_run n s).0 ≡ ok (bids_of_run n s)
  unfolding get_bids_by_run gets
  read-bids = refl

  completed-only :
      (complete_distribution n u s).0 ≡ ok completed
      → (is_led_by u n s ≡ true)
        × (run.state ≡ distributing)
        × (any is_unpicked (bids_of_run n s) ≡ false)
  unfolding complete_distribution
  completed-only h =
      let (run', p0, h0) = bind-ok _ _ s (Reads-require_run n) h in
      let (_, p1, h1) = bind-ok _ _ s (Reads-require_leader n u) h0 in
      let (_, p2, h2) = bind-ok _ _ s (search access_reads) h1 in
      let (bids, p3, h3) = bind-ok _ _ s (search access_reads) h2 in
      let (_, p4, h4) = bind-ok _ _ s (search access_reads) h3 in
      let same : run' ≡ run = same_result p0 (require_run-found n s found) in
      let same_bids : bids ≡ bids_of_run n s = same_result p3 read-bids in
      (
        require_leader-ok n u s p1,
        (in_distribution run.state).0 (
            subst (λ r. can_complete_distribution r.state ≡ true) same
              (not-false (can_complete_distribution run'.state) (raise_if-ok _ _ s p2))),
        subst (λ l. any is_unpicked l ≡ false) same_bids (raise_if-ok _ _ s p4),
      )

  completed-when :
      (is_led_by u n s ≡ true)
        × (run.state ≡ distributing)
        × (any is_unpicked (bids_of_run n s) ≡ false)
      → (complete_distribution n u s).0 ≡ ok completed
  unfolding complete_distribution
  completed-when (led, at, picked) =
      let (o, moved) = moved-ok at in
      let allowed : not (can_complete_distribution run.state) ≡ false =
        ap not ((in_distribution run.state).1 at) in
      step _ _ s (Reads-require_run n) (require_run-found n s found) (
        step _ _ s (Reads-require_leader n u) (require_leader-led n u s led) (
          step _ _ s (Reads-raise_if _ _) (raise_if-passed _ _ s allowed) (
            step _ _ s (Reads-get_bids_by_run n) read-bids (
              step _ _ s (Reads-raise_if _ _) (raise_if-passed _ _ s picked)
                (finish _ _ s moved notified)))))

  -- For a run that exists, `complete_distribution` returns that the run is completed exactly when
  -- the caller leads the run, the run is in distribution, and each of its bids that got something,
  -- and is not for interest only, has been picked up.
  pub complete_distribution_iff : ((complete_distribution n u s).0 ≡ ok completed) ↔ (
      (is_led_by u n s ≡ true)
      × (run.state ≡ distributing)
      × (any is_unpicked (bids_of_run n s) ≡ false))
  complete_distribution_iff = (completed-only, completed-when)
