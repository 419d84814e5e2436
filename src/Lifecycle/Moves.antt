-- ===== src/Lifecycle/Moves.antt =====
-- `update_run_state` moves a run along an edge of the diagram, or raises and moves nothing.
use bulq.Common.{
  ℕ, ◌≡◌, refl, sym, subst, ◌∙◌, inl, inr, true, Option, none, some, arith, ◌==◌, ==_iff,
  Bool-cases,
}
use bulq.RunState.{RunState, planning, can_transition}
use bulq.RunState.Graph.{◌⟶*◌, here, walk, ⟶*-trans, can_transition→⟶}
use bulq.RunState.Validate.{validate_transition}
use bulq.Error.{Result, ok, err}
use bulq.Table.{get, update, get-update}
use bulq.Model.{MemoryStorage, Run}
use bulq.Storage.{Action, ◌>>=◌, modify}
use bulq.Storage.Rules.{Keeps, Leaves}
use bulq.Frame.Runs.{runs_of}
use bulq.Repo.Runs.{run_key, update_run_state, move_run, enter_state, get_run_by_id}

-- A run that was there is still there, for the same group and store, in a state that the diagram
-- reaches from its state before.
pub record MovedFrom (before : Run) (found : Option Run) : Type 0 where
  pub now : Run
  pub is_found : found ≡ some now
  pub reached : before.state ⟶* now.state
  pub same_group : now.group_id ≡ before.group_id
  pub same_store : now.store_id ≡ before.store_id

-- So it is with every run that was in the storage `s₀`.
pub record HasMoved (s₀ s : MemoryStorage) : Type 0 where
  pub at : (i : ℕ) (r : Run) → get run_key i s₀.runs ≡ some r → MovedFrom r (get run_key i s.runs)

pub MovedFrom-refl : (r : Run) → MovedFrom r (some r)
MovedFrom-refl r = record {
  now = r;
  is_found = refl;
  reached = here;
  same_group = refl;
  same_store = refl;
}

pub HasMoved-refl : (s : MemoryStorage) → HasMoved s s
HasMoved-refl s = record { at = λ i r h. subst (MovedFrom r) (sym h) (MovedFrom-refl r) }

MovedFrom-trans :
    {r : Run} {o o' : Option Run}
    → MovedFrom r o
    → ((r' : Run) → o ≡ some r' → MovedFrom r' o')
    → MovedFrom r o'
MovedFrom-trans m f =
    let m' = f m.now m.is_found in
    record {
      now = m'.now;
      is_found = m'.is_found;
      reached = ⟶*-trans m.reached m'.reached;
      same_group = m'.same_group ∙ m.same_group;
      same_store = m'.same_store ∙ m.same_store;
    }

pub HasMoved-trans : {s t u : MemoryStorage} → HasMoved s t → HasMoved t u → HasMoved s u
HasMoved-trans p q = record { at = λ i r h. MovedFrom-trans (p.at i r h) (q.at i) }

pub HasMoved-same : {s t u : MemoryStorage} → t.runs ≡ u.runs → HasMoved s t → HasMoved s u
HasMoved-same e p = record {
  at = λ i r h. subst (λ d. MovedFrom r (get run_key i d)) e (p.at i r h);
}

pub Keeps-Leaves :
    {A : Type 0} {s₀ : MemoryStorage} (m : Action A) → Leaves runs_of m → Keeps (HasMoved s₀) m
Keeps-Leaves m h = record { at = λ s p. HasMoved-same (sym (h.at s)) p }

pub run_key-enter_state : (t : RunState) (n : ℕ) (r : Run) → run_key (enter_state t n r) ≡ run_key r
run_key-enter_state planning n r = refl
run_key-enter_state _ n r = refl

pub state-enter_state : (t : RunState) (n : ℕ) (r : Run) → (enter_state t n r).state ≡ t
state-enter_state planning n r = refl
state-enter_state _ n r = refl

pub group_id-enter_state :
    (t : RunState) (n : ℕ) (r : Run) → (enter_state t n r).group_id ≡ r.group_id
group_id-enter_state planning n r = refl
group_id-enter_state _ n r = refl

pub store_id-enter_state :
    (t : RunState) (n : ℕ) (r : Run) → (enter_state t n r).store_id ≡ r.store_id
store_id-enter_state planning n r = refl
store_id-enter_state _ n r = refl

enter_state-MovedFrom :
    (t : RunState) (n : ℕ) (q : Run)
    → can_transition q.state t ≡ true
    → MovedFrom q (some (enter_state t n q))
enter_state-MovedFrom t n q h = record {
  now = enter_state t n q;
  is_found = refl;
  reached =
      subst (λ u. q.state ⟶* u) (sym (state-enter_state t n q))
        (walk (can_transition→⟶ q.state t h) here);
  same_group = group_id-enter_state t n q;
  same_store = store_id-enter_state t n q;
}

-- One row entering a state that its state leads to.
update-MovedFrom :
    (s : MemoryStorage) (i : ℕ) (t : RunState) (r : Run)
    → get run_key i s.runs ≡ some r
    → can_transition r.state t ≡ true
    → (j : ℕ) (q : Run) → get run_key j s.runs ≡ some q
    → MovedFrom q (get run_key j (update run_key i (enter_state t s.now) s.runs))
update-MovedFrom s i t r hr edge j q hq =
    rw (get-update run_key (enter_state t s.now) (run_key-enter_state t s.now) i j s.runs)
      (elim (Bool-cases (i == j)) [
        | inl same ↦
            let e : i ≡ j = (==_iff i j).0 same in
            let p : r ≡ q = cc in
            rw (same, hq)
              (enter_state-MovedFrom t s.now q
                (subst (λ v. can_transition v.state t ≡ true) p edge))
        | inr other ↦ rw (other, hq) (MovedFrom-refl q)
      ])

validate-can_transition :
    (a b : RunState) → validate_transition a b ≡ ok tt → can_transition a b ≡ true
unfolding validate_transition
validate-can_transition a b h = ground arith

move_run-HasMoved :
    (s : MemoryStorage) (i : ℕ) (t : RunState) (o : Option Run)
    → get run_key i s.runs ≡ o
    → HasMoved s (move_run i t o s).1
unfolding move_run ◌>>=◌ modify get_run_by_id
move_run-HasMoved s i t none h = HasMoved-refl s
move_run-HasMoved s i t (some r) h = go (validate_transition r.state t) refl
  where
    go :
        (v : Result (Unit {0}))
        → validate_transition r.state t ≡ v
        → HasMoved s (move_run i t (some r) s).1
    go (ok u) e =
        rw (e) record { at = update-MovedFrom s i t r h (validate-can_transition r.state t e) }
    go (err x) e = rw e (HasMoved-refl s)

pub Keeps-update_run_state :
    {s₀ : MemoryStorage} (i : ℕ) (t : RunState) → Keeps (HasMoved s₀) (update_run_state i t)
unfolding update_run_state ◌>>=◌ get_run_by_id
Keeps-update_run_state i t = record {
  at = λ s p. HasMoved-trans p (move_run-HasMoved s i t (get run_key i s.runs) refl);
}
