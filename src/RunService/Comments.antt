-- ===== src/RunService/Comments.antt =====
-- `update_run_comment` and `toggle_helper`, in the same respects as the methods that move runs.
use bulq.Common.{
  ℕ, String, ◌≡◌, ◌≢◌, refl, ◌∙◌, inl, inr, Bool, not, Option, none, some, is_some, arith, ◌==◌,
  Bool-cases,
}
use bulq.Error.{Error}
use bulq.Table.{get, update, get-update}
use bulq.RunState.Graph.{here}
use bulq.Model.{MemoryStorage, User, Run, RunParticipation}
use bulq.Storage.{IdText, pure, gets, modify, raise_if, ◌>>=◌}
use bulq.Storage.Rules.{
  Keeps, Leaves, Leaves-modify, IsAtomic, Returns, keeps_rules, leaves_rules, atomic_rules,
  returns_rules,
}
use bulq.Access.Reads.{access_reads, Reads-require_run, Reads-require_member, Reads-require_leader}
use bulq.Access.Outcomes.{require_leader-ok}
use bulq.Repo.Runs.{
  run_key, set_comment, comment_run, get_run_by_id, get_participation, create_participation,
  help_with, update_participation_helper,
}
use bulq.Repo.Runs as Runs
use bulq.Lifecycle.Moves.{MovedFrom, HasMoved, HasMoved-trans, MovedFrom-refl}
use bulq.RunMethods.{update_run_comment, switch_helper, toggle_helper}
use bulq.RunService.Authority.{run_at, IsGuarded, IsGuarded-bind}
use bulq.RunService.Guards.{led}

comment-MovedFrom :
    (s : MemoryStorage) (i : ℕ) (c : Option String) (j : ℕ) (q : Run)
    → get run_key j s.runs ≡ some q
    → MovedFrom q (get run_key j (update run_key i (set_comment c) s.runs))
comment-MovedFrom s i c j q hq =
    rw (get-update run_key (set_comment c) (λ r. refl) i j s.runs) (elim (Bool-cases (i == j)) [
      | inl same ↦
          rw (same, hq)
            record {
              now = set_comment c q;
              is_found = refl;
              reached = here;
              same_group = refl;
              same_store = refl;
            }
      | inr other ↦ rw (other, hq) (MovedFrom-refl q)
    ])

Keeps-comment_run :
    (s₀ : MemoryStorage) (i : ℕ) (c : Option String) (o : Option Run)
    → Keeps (HasMoved s₀) (comment_run i c o)
unfolding comment_run modify pure ◌>>=◌
Keeps-comment_run s₀ i c none = record { at = λ s p. p }
Keeps-comment_run s₀ i c (some r) = record {
  at = λ s p. HasMoved-trans p record { at = comment-MovedFrom s i c };
}

pub Keeps-update_run_comment :
    (s₀ : MemoryStorage) (i : IdText) (c : Option String) (u : User)
    → Keeps (HasMoved s₀) (update_run_comment i c u)
unfolding update_run_comment Runs.update_run_comment
Keeps-update_run_comment s₀ i c u = search (keeps_rules, access_reads, Keeps-comment_run) depth 14

module _ (u : User) (j : ℕ) (s : MemoryStorage) where
  Leaves-comment_run :
      (i : ℕ) (c : Option String) (o : Option Run) → i ≢ j → Leaves (run_at j) (comment_run i c o)
  unfolding comment_run
  Leaves-comment_run i c none ne = search leaves_rules
  Leaves-comment_run i c (some r) ne =
      search (leaves_rules, Leaves-modify, λ (s : MemoryStorage). get-update_ne i c s ne)
    where
      get-update_ne :
          (i : ℕ) (c : Option String) (s : MemoryStorage)
          → i ≢ j
          → get run_key j (update run_key i (set_comment c) s.runs) ≡ get run_key j s.runs
      get-update_ne i c s ne =
          get-update run_key (set_comment c) (λ r. refl) i j s.runs ∙ ground arith

  pub IsGuarded-update_run_comment :
      (i : IdText) (c : Option String) → IsGuarded u j s (update_run_comment i c u)
  unfolding update_run_comment Runs.update_run_comment
  IsGuarded-update_run_comment i c = IsGuarded-bind _ _ (search access_reads) λ n _.
      IsGuarded-bind _ _ (Reads-require_run n) λ run found.
        IsGuarded-bind _ _ (Reads-require_member run u) λ _ _.
          IsGuarded-bind _ _ (Reads-require_leader n u) λ _ led_run.
            led u j s n _ (require_leader-ok n u s led_run) λ ne.
              search (leaves_rules, access_reads, λ (o : Option Run). Leaves-comment_run n c o ne)
                depth 8

IsAtomic-comment_run :
    (i : ℕ) (c : Option String) (e : Error) (o : Option Run)
    → IsAtomic (comment_run i c o >>= λ r. raise_if (not (is_some r)) e)
unfolding comment_run raise_if modify pure ◌>>=◌
IsAtomic-comment_run i c e none = record { at = λ s x p. refl }
IsAtomic-comment_run i c e (some r) = record { at = λ s x p. cc }

IsAtomic-update_comment :
    (i : ℕ) (c : Option String) (e : Error)
    → IsAtomic (Runs.update_run_comment i c >>= λ r. raise_if (not (is_some r)) e)
unfolding Runs.update_run_comment get_run_by_id gets ◌>>=◌
IsAtomic-update_comment i c e = record {
  at = λ s. (IsAtomic-comment_run i c e (get run_key i s.runs)).at s;
}

pub IsAtomic-update_run_comment :
    (i : IdText) (c : Option String) (u : User) → IsAtomic (update_run_comment i c u)
unfolding update_run_comment
IsAtomic-update_run_comment i c u =
    search (atomic_rules, access_reads, IsAtomic-update_comment) depth 14

Returns-create_participation : (u r : ℕ) (l h : Bool) → Returns (create_participation u r l h)
unfolding create_participation
Returns-create_participation u r l h = search returns_rules depth 8

Returns-help_with : (b : Bool) (o : Option RunParticipation) → Returns (help_with b o)
unfolding help_with
Returns-help_with b none = search returns_rules
Returns-help_with b (some p) = search returns_rules

Returns-switch_helper : (u r : ℕ) (o : Option RunParticipation) → Returns (switch_helper u r o)
unfolding switch_helper update_participation_helper get_participation
Returns-switch_helper u r none = search (returns_rules, Returns-create_participation)
Returns-switch_helper u r (some p) = search (returns_rules, Returns-help_with)

pub IsAtomic-toggle_helper : (i k : IdText) (u : User) → IsAtomic (toggle_helper i k u)
unfolding toggle_helper
IsAtomic-toggle_helper i k u = search (atomic_rules, access_reads, Returns-switch_helper) depth 16
