-- ===== src/ShoppingService/Ends.antt =====
-- An action on a run that returns the state in which it leaves the run.
use bulq.Common.{ℕ, ◌≡◌, refl, sym, ap, subst, ◌∙◌, true, Option, some, ==_refl}
use bulq.Error.{ok}
use bulq.Table.{get, get-update}
use bulq.RunState.{RunState, can_transition}
use bulq.RunState.Validate.{validate_transition}
use bulq.Model.{MemoryStorage, Run}
use bulq.Storage.{Action, pure, gets, lift, modify, ◌>>=◌, ◌>>◌}
use bulq.Storage.Rules.{Reads}
use bulq.Repo.Runs.{run_key, get_run_by_id, update_run_state, move_run, enter_state}
use bulq.Lifecycle.Moves.{run_key-enter_state, state-enter_state}
use bulq.DistributionService.{notify_run_state_change}
use bulq.DistributionService.Notified.{Leaves-notify_run_state_change}
use bulq.DistributionService.Notified.{Returns-notify_run_state_change}

-- The action returns the state `t`, and the run `n` is in it.
pub record EndsIn (n : ℕ) (t : RunState) (m : Action RunState) (s : MemoryStorage) : Type 0 where
  pub returned : (m s).0 ≡ ok t
  pub row : Run
  pub is_found : get run_key n (m s).1.runs ≡ some row
  pub in_state : row.state ≡ t

module _ (n : ℕ) (t : RunState) where
  -- A run that the state machine lets move is moved.
  pub update_run_state-moves :
      (s : MemoryStorage) {r : Run}
      → get run_key n s.runs ≡ some r
      → can_transition r.state t ≡ true
      → (o : Option Run) × ((update_run_state n t s).0 ≡ ok o)
        × (get run_key n (update_run_state n t s).1.runs ≡ some (enter_state t s.now r))
  unfolding update_run_state move_run get_run_by_id validate_transition gets lift modify ◌>>=◌
  update_run_state-moves s {r} found allowed =
      rw (found, allowed)
        (
          _,
          refl,
          get-update run_key (enter_state t s.now) (run_key-enter_state t s.now) n n s.runs
              ∙ rw (==_refl n, found) refl,
        )

  -- The end of each way: the participants are told, and the state is returned.
  told :
      (run : Run) (old : RunState) (s : MemoryStorage) {r : Run}
      → get run_key n s.runs ≡ some r
      → r.state ≡ t
      → EndsIn n t (notify_run_state_change run old t >> pure t) s
  unfolding ◌>>=◌ pure
  told run old s {r} found here =
      let (v, e) = (Returns-notify_run_state_change run old t).at s in
      record {
        returned = rw e refl;
        row = r;
        is_found =
            rw e (ap (get run_key n) ((Leaves-notify_run_state_change run old t).at s) ∙ found);
        in_state = here;
      }

  pub EndsIn-after :
      {A : Type 0} (m : Action A) (f : A → Action RunState) (s : MemoryStorage) {a : A}
      → (m s).0 ≡ ok a
      → EndsIn n t (f a) (m s).1
      → EndsIn n t (m >>= f) s
  unfolding ◌>>=◌
  EndsIn-after m f s e h = record {
    returned = rw e h.returned;
    row = h.row;
    is_found = rw e h.is_found;
    in_state = h.in_state;
  }

  pub EndsIn-read :
      {A : Type 0} (m : Action A) (f : A → Action RunState) (s : MemoryStorage) {a : A}
      → Reads m
      → (m s).0 ≡ ok a
      → EndsIn n t (f a) s
      → EndsIn n t (m >>= f) s
  EndsIn-read m f s {a} h e k = EndsIn-after m f s e (subst (EndsIn n t (f a)) (sym (h.at s)) k)

  pub moved_and_told :
      (run : Run) (old : RunState) (s : MemoryStorage) {r : Run}
      → get run_key n s.runs ≡ some r
      → can_transition r.state t ≡ true
      → EndsIn n t (update_run_state n t >> (notify_run_state_change run old t >> pure t)) s
  moved_and_told run old s {r} found allowed =
      let (o, e, there) = update_run_state-moves s found allowed in
      EndsIn-after _ _ s e (told run old _ there (state-enter_state t s.now r))
