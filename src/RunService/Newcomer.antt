-- ===== src/RunService/Newcomer.antt =====
-- `place_bid` against `MayMove`: only the first bid of a newcomer moves a run, from planning to
-- active.
use bulq.Common.{
  ℕ, ◌≡◌, ◌≢◌, refl, sym, subst, ◌∙◌, ◌⊎◌, inl, inr, Bool, true, false, not, Option, none, some,
  String, ◌==◌, ==_iff, Bool-cases, ◌&&◌, arith,
}
use bulq.Common.Int.{ℤ}
use bulq.Error.{ok}
use bulq.Table.{get, key-get}
use bulq.RunState.{RunState, planning, is_state}
use bulq.Model.{MemoryStorage, User, Run, RunParticipation}
use bulq.Storage.{IdText, pure, ◌>>=◌}
use bulq.Storage.Rules.{Leaves, leaves_rules}
use bulq.Access.Reads.{access_reads, Reads-require_run, Reads-require_member}
use bulq.Access.Outcomes.{is_member, participation_in, bind-ok, require_run-ok, require_member-ok}
use bulq.Repo.Runs.{run_key, get_participation}
use bulq.Frame.Runs.{runs_of, Leaves-emit}
use bulq.Lifecycle.Bids.{
  bid_reads, Reads-validate_bid_request, Leaves-ensure_user_participation, Leaves-record_bid,
}
use bulq.BidService.Methods.{
  get_run_with_auth_check, validate_bid_request, join_run, ensure_user_participation,
  check_planning_to_active_transition, bid_in_run, place_bid,
}
use bulq.RunService.Authority.{
  MayMove, as_newcomer, run_at, Leaves-run_at, Leaves-update_run_state, IsGuarded, IsGuarded-bind,
  IsGuarded-after,
}

pub is_state-eq : (a b : RunState) → is_state a b ≡ true → a ≡ b
is_state-eq a b h = grind arith

-- The transition is made only for a new participant of a run in planning.
Leaves-no_transition :
    (run : Run) (is_new : Bool) (p : RunParticipation)
    → is_new && is_state run.state planning ≡ false
    → Leaves runs_of (check_planning_to_active_transition run is_new p)
unfolding check_planning_to_active_transition
Leaves-no_transition run is_new p h =
    let off : is_new && (not p.is_leader && is_state run.state planning) ≡ false = ground arith in
    rw off (search (leaves_rules))

Leaves-other_transition :
    (j : ℕ) (run : Run) (is_new : Bool) (p : RunParticipation)
    → run.id ≢ j
    → Leaves (run_at j) (check_planning_to_active_transition run is_new p)
unfolding check_planning_to_active_transition
Leaves-other_transition j run is_new p ne =
    search (leaves_rules, access_reads, λ (t : RunState). Leaves-update_run_state j run.id t ne)
      depth 8

module _ (u : User) (s : MemoryStorage) where
  pub validated_bid :
      (i k : IdText) {n p : ℕ} {run : Run}
      → (validate_bid_request i k u s).0 ≡ ok (n, p, run)
      → (get run_key n s.runs ≡ some run) × (is_member u run s ≡ true)
  unfolding validate_bid_request get_run_with_auth_check pure
  validated_bid i k {n} {p} {run} h =
      let (n', p0, h0) = bind-ok _ _ s (search access_reads) h in
      let (k', p1, h1) = bind-ok _ _ s (search access_reads) h0 in
      let (run', p2, h2) = bind-ok _ _ s (search access_reads) h1 in
      let (_, p3, h3) = bind-ok _ _ s (search access_reads) h2 in
      let (_, p4, h4) = bind-ok _ _ s (search access_reads) h3 in
      let (_, p5, h5) = bind-ok _ _ s (search access_reads) h4 in
      let (run2, q1, g1) = bind-ok _ _ s (Reads-require_run n') p2 in
      let (_, q2, g2) = bind-ok _ _ s (Reads-require_member run2 u) g1 in
      let same_id : n' ≡ n = cc in
      let same_run : run' ≡ run = cc in
      let same_run2 : run2 ≡ run' = cc in
      (
        rw (← same_id, ← same_run, ← same_run2) (require_run-ok n' s q1),
        subst (λ r. is_member u r s ≡ true) (same_run2 ∙ same_run) (require_member-ok run2 u s q2),
      )

  join-new :
      (n : ℕ) (run : Run) (o : Option RunParticipation) {p : RunParticipation}
      → (join_run n run u o s).0 ≡ ok (p, true)
      → o ≡ none
  unfolding join_run pure
  join-new n run none h = refl
  join-new n run (some q) h = cc

  ensured-new :
      (n : ℕ) (run : Run) {p : RunParticipation}
      → (ensure_user_participation n run u s).0 ≡ ok (p, true)
      → participation_in u n s ≡ none
  unfolding ensure_user_participation get_participation ◌>>=◌
  ensured-new n run h = join-new n run (participation_in u n s) h

  -- What is known once a user is in the run `n`, new or not.
  after_ensured :
      (j n p m : ℕ) (q : ℤ) (b : Bool) (c : Option String) (run : Run)
      → get run_key n s.runs ≡ some run
      → is_member u run s ≡ true
      → (e : RunParticipation × Bool) → (ensure_user_participation n run u s).0 ≡ ok e
      → Leaves (run_at j) (bid_in_run m n p run q b u c e) ⊎ MayMove u s j
  unfolding bid_in_run
  after_ensured j n p m q b c run found member (l, true) ensured = elim (Bool-cases (run.id == j)) [
    | inl same ↦
        let at_j : n ≡ j = sym (key-get run_key n s.runs found) ∙ (==_iff run.id j).0 same in
        elim (Bool-cases (is_state run.state planning)) [
          | inl is_planning ↦ inr (
              as_newcomer run (subst (λ k. get run_key k s.runs ≡ some run) at_j found)
                (is_state-eq run.state planning is_planning) member
                (subst (λ k. participation_in u k s ≡ none) at_j (ensured-new n run ensured)))
          | inr past ↦ inl (
              search
                (
                  leaves_rules,
                  bid_reads,
                  Leaves-run_at,
                  Leaves-record_bid,
                  Leaves-emit,
                  λ (v : Unit {0}). Leaves-no_transition run true l past,
                )
                depth 16)
        ]
    | inr other ↦ inl (
        search
          (
            leaves_rules,
            bid_reads,
            Leaves-run_at,
            Leaves-record_bid,
            Leaves-emit,
            λ (v : Unit {0}).
                Leaves-other_transition j run true l (λ e. cc ((==_iff run.id j).1 e)),
          )
          depth 16)
  ]
  after_ensured j n p m q b c run found member (l, false) ensured = inl (
      search
        (
          leaves_rules,
          bid_reads,
          Leaves-run_at,
          Leaves-record_bid,
          Leaves-emit,
          λ (v : Unit {0}). Leaves-no_transition run false l refl,
        )
        depth 16)

  pub IsGuarded-place_bid :
      (j m : ℕ) (i k : IdText) (q : ℤ) (b : Bool) (c : Option String)
      → IsGuarded u j s (place_bid m i k q b u c)
  unfolding place_bid
  IsGuarded-place_bid j m i k q b c =
      IsGuarded-bind _ _ (Reads-validate_bid_request i k u) λ v valid.
        let (n, p, run) = v in
        let (found, member) = validated_bid i k valid in
        IsGuarded-after _ _ (Leaves-run_at j _ (Leaves-ensure_user_participation n run u))
          (after_ensured j n p m q b c run found member)
