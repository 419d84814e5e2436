-- ===== src/ReassignmentService/Leadership.antt =====
-- Who leads a run once a reassignment has been accepted.
use bulq.Common.{ℕ, ◌≡◌, ◌≢◌, refl, sym, ap, subst, ◌∙◌, true, Option, none, some, ◌==◌, ==_iff}
use bulq.Error.{ok}
use bulq.Table.{get, IsKeyed}
use bulq.Model.{MemoryStorage, User, RunParticipation, LeaderReassignmentRequest}
use bulq.Storage.{◌>>=◌, modify, raise, gets, pure}
use bulq.Access.Reads.{access_reads}
use bulq.Repo.Runs.{participation_key, get_participation, set_leader}
use bulq.Access.Outcomes.{bind-ok, bind-rest, bind-first, raise_if-ok, or_raise-ok, not-false}
use bulq.Repo.Requests.{request_key, is_pending, get_reassignment_request_by_id}
use bulq.Frame.Participations.{participations_of, participations_left}
use bulq.ReassignmentService.{validate_answer, hand_over, transfer_leadership, accept_reassignment}
use bulq.RunService.Lifecycle.{Reads-validate_answer}
use bulq.ReassignmentService.HandedOver.{participation_for, IsHandedOver, handed_over}

module _ (r v w : ℕ) (s : MemoryStorage) where
  given :
      (o n : Option RunParticipation)
      → v ≢ w
      → IsKeyed participation_key s.participations
      → participation_for v r s.participations ≡ o
      → participation_for w r s.participations ≡ n
      → (hand_over o n s).0 ≡ ok tt
      → IsHandedOver r v w s.participations (hand_over o n s).1.participations
  unfolding hand_over set_leader modify raise ◌>>=◌
  given (some o) (some n) ne h f g done =
      handed_over r v w s.participations {o = o} {n = n} ne h f g
  given (some o) none ne h f g done = cc
  given none n ne h f g done = cc

  transferred :
      v ≢ w
      → IsKeyed participation_key s.participations
      → (transfer_leadership r v w s).0 ≡ ok tt
      → IsHandedOver r v w s.participations (transfer_leadership r v w s).1.participations
  unfolding transfer_leadership get_participation gets ◌>>=◌
  transferred ne h done =
      given (participation_for v r s.participations) (participation_for w r s.participations) ne h
        refl refl done

module _ (i : ℕ) (u : User) (s : MemoryStorage) where
  found_request :
      {o : Option LeaderReassignmentRequest}
      → (get_reassignment_request_by_id i s).0 ≡ ok o
      → get request_key i s.reassignment_requests ≡ o
  unfolding get_reassignment_request_by_id gets
  found_request h = cc

  valid_answer :
      {q : LeaderReassignmentRequest}
      → (validate_answer i u s).0 ≡ ok q
      → (get request_key i s.reassignment_requests ≡ some q)
        × (q.to_user_id ≡ u.id)
        × (is_pending q.status ≡ true)
  unfolding validate_answer pure
  valid_answer {q} h =
      let (o, p0, h0) = bind-ok _ _ s (search access_reads) h in
      let (q', p1, h1) = bind-ok _ _ s (search access_reads) h0 in
      let (_, p2, h2) = bind-ok _ _ s (search access_reads) h1 in
      let (_, p3, h3) = bind-ok _ _ s (search access_reads) h2 in
      let same : q' ≡ q = cc in
      subst
        (λ x.
          (get request_key i s.reassignment_requests ≡ some x)
          × (x.to_user_id ≡ u.id)
          × (is_pending x.status ≡ true))
        same
        (
          found_request p0 ∙ or_raise-ok _ o s p1,
          (==_iff q'.to_user_id u.id).0 (not-false (q'.to_user_id == u.id) (raise_if-ok _ _ s p2)),
          not-false (is_pending q'.status) (raise_if-ok _ _ s p3),
        )

  abbrev pub Outcome : LeaderReassignmentRequest → Type 0
  Outcome q =
      (q.to_user_id ≡ u.id)
      × (is_pending q.status ≡ true)
      × IsHandedOver q.run_id q.from_user_id u.id s.participations
          (accept_reassignment i u s).1.participations

  -- If `accept_reassignment` returns, where ids are unique among the participations and the request
  -- is to another user than its sender: the request was pending and is to the caller, the caller
  -- leads the run afterwards, the sender does not, and `get_participation`
  -- finds for any user and run what it found before, but for these two marks.
  pub accept_reassignment-IsHandedOver :
      {q : LeaderReassignmentRequest}
      → IsKeyed participation_key s.participations
      → get request_key i s.reassignment_requests ≡ some q
      → q.from_user_id ≢ q.to_user_id
      → (accept_reassignment i u s).0 ≡ ok tt
      → Outcome q
  unfolding accept_reassignment
  accept_reassignment-IsHandedOver {q} h found ne done =
      let (q', p0, e0) = bind-rest _ _ s (search (access_reads, Reads-validate_answer)) done in
      let d0 = subst (λ x. x.0 ≡ ok tt) e0 done in
      let (run, p1, e1) = bind-rest _ _ s (search access_reads) d0 in
      let d1 = subst (λ x. x.0 ≡ ok tt) e1 d0 in
      let (stores, p2, e2) = bind-rest _ _ s (search access_reads) d1 in
      let d2 = subst (λ x. x.0 ≡ ok tt) e2 d1 in
      let (_, p3, e3) =
        bind-first participations_of _ _ s (λ a. search participations_left depth 8) d2 in
      let (found', to_u, is_open) = valid_answer p0 in
      let same : q' ≡ q = cc in
      let ne' : q'.from_user_id ≢ q'.to_user_id =
        subst (λ x. x.from_user_id ≢ x.to_user_id) (sym same) ne in
      let handed = transferred q'.run_id q'.from_user_id q'.to_user_id s ne' h p3 in
      let at_end = ap (λ x. x.1.participations) (e0 ∙ e1 ∙ e2) ∙ e3 in
      subst (λ x. Outcome x) same
        (
          to_u,
          is_open,
          subst (λ d. IsHandedOver q'.run_id q'.from_user_id u.id s.participations d) (sym at_end)
              (subst
                (λ w.
                  IsHandedOver q'.run_id q'.from_user_id w s.participations
                    (transfer_leadership q'.run_id q'.from_user_id q'.to_user_id
                      s).1.participations)
                to_u handed),
        )
