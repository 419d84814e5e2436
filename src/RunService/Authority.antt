-- ===== src/RunService/Authority.antt =====
-- Who can move a run: its leader, or a member of its group whose first bid makes it active.
use bulq.Common.{ℕ, ◌≡◌, ◌≢◌, refl, ap, ◌∙◌, ◌⊎◌, inl, inr, true, Option, none, some, arith, List}
use bulq.Error.{Result, ok, err}
use bulq.Table.{get, update, get-update}
use bulq.RunState.{RunState, planning}
use bulq.Model.{MemoryStorage, User, Run}
use bulq.Storage.{Action, resume, ◌>>=◌}
use bulq.Storage.Rules.{Reads, Leaves, Leaves-modify, leaves_rules}
use bulq.Access.Reads.{access_reads}
use bulq.Access.Outcomes.{is_member, is_led_by, participation_in}
use bulq.Repo.Runs.{run_key, update_run_state, move_run, enter_state}
use bulq.Frame.Runs.{runs_of}
use bulq.Lifecycle.Moves.{run_key-enter_state}

-- The reasons for which the state of the run with id `j` may change in a request of `u`.
pub data MayMove (u : User) (s : MemoryStorage) (j : ℕ) : Type 0 where
  as_leader : is_led_by u j s ≡ true → MayMove u s j
  as_newcomer :
      (run : Run)
      → get run_key j s.runs ≡ some run
      → run.state ≡ planning
      → is_member u run s ≡ true
      → participation_in u j s ≡ none
      → MayMove u s j

module _ (j : ℕ) where
  -- the row of the run
  abbrev pub run_at : MemoryStorage → Option Run
  run_at s = get run_key j s.runs

  pub Leaves-run_at : {A : Type 0} (m : Action A) → Leaves runs_of m → Leaves run_at m
  Leaves-run_at m h = record { at = λ s. ap (get run_key j) (h.at s) }

  get-update_ne :
      (i n : ℕ) (t : RunState) (d : List Run)
      → i ≢ j
      → get run_key j (update run_key i (enter_state t n) d) ≡ get run_key j d
  get-update_ne i n t d ne =
      get-update run_key (enter_state t n) (run_key-enter_state t n) i j d ∙ ground arith

  Leaves-move_run : (i : ℕ) (t : RunState) (o : Option Run) → i ≢ j → Leaves run_at (move_run i t o)
  unfolding move_run
  Leaves-move_run i t none ne = search (leaves_rules, access_reads)
  Leaves-move_run i t (some r) ne = search (
    leaves_rules,
    access_reads,
    Leaves-modify,
    λ (s : MemoryStorage). get-update_ne i s.now t s.runs ne,
  )

  pub Leaves-update_run_state :
      (i : ℕ) (t : RunState) → i ≢ j → Leaves run_at (update_run_state i t)
  unfolding update_run_state
  Leaves-update_run_state i t ne =
      search (leaves_rules, access_reads, λ (o : Option Run). Leaves-move_run i t o ne)

-- The action leaves the run, or there is a reason.
pub record IsGuarded {A : Type 0} (u : User) (j : ℕ) (s : MemoryStorage) (m : Action A)
    : Type 0 where
  pub reason : (run_at j (m s).1 ≡ run_at j s) ⊎ MayMove u s j

module _ {u : User} {j : ℕ} {s : MemoryStorage} where
  pub IsGuarded-Leaves : {A : Type 0} (m : Action A) → Leaves (run_at j) m → IsGuarded u j s m
  IsGuarded-Leaves m h = record { reason = inl (h.at s) }

  pub IsGuarded-bind :
      {A B : Type 0} (m : Action A) (f : A → Action B)
      → Reads m
      → ((a : A) → (m s).0 ≡ ok a → IsGuarded u j s (f a))
      → IsGuarded u j s (m >>= f)
  unfolding ◌>>=◌
  IsGuarded-bind {A} {B} m f h k = record { reason = go (m s).0 (m s).1 refl (h.at s) }
    where
      go :
          (r : Result A) (t : MemoryStorage)
          → (m s).0 ≡ r
          → t ≡ s
          → (run_at j (resume f r t).1 ≡ run_at j s) ⊎ MayMove u s j
      go (ok a) t e same = rw same (k a e).reason
      go (err x) t e same = inl (ap (run_at j) same)

  pub IsGuarded-after :
      {A B : Type 0} (m : Action A) (f : A → Action B)
      → Leaves (run_at j) m
      → ((a : A) → (m s).0 ≡ ok a → Leaves (run_at j) (f a) ⊎ MayMove u s j)
      → IsGuarded u j s (m >>= f)
  unfolding ◌>>=◌
  IsGuarded-after {A} {B} m f h k = record { reason = go (m s).0 (m s).1 refl (h.at s) }
    where
      settle :
          (a : A) (t : MemoryStorage)
          → run_at j t ≡ run_at j s
          → Leaves (run_at j) (f a) ⊎ MayMove u s j
          → (run_at j (f a t).1 ≡ run_at j s) ⊎ MayMove u s j
      settle a t same (inl l) = inl (l.at t ∙ same)
      settle a t same (inr reason) = inr reason

      go :
          (r : Result A) (t : MemoryStorage)
          → (m s).0 ≡ r
          → run_at j t ≡ run_at j s
          → (run_at j (resume f r t).1 ≡ run_at j s) ⊎ MayMove u s j
      go (ok a) t e same = settle a t same (k a e)
      go (err x) t e same = inl same
