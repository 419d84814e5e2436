-- ===== src/RunMethods/Creation.antt =====
-- What `create_run` has done when it returns.
use bulq.Common.{
  ℕ, suc, String, ◌≤◌, ◌≡◌, refl, sym, ap, subst, ◌∙◌, true, false, Option, none, some, List, [],
  ◌∷◌, ◌++◌, keep, find?, length, leb, ◌==◌, ==_refl, arith,
}
use bulq.Error.{Result, ok}
use bulq.Table.{get, put, IsNew, put-IsNew, get-put}
use bulq.Table.Find.{find-snoc}
use bulq.RunState.{is_active_run, planning}
use bulq.Model.{MemoryStorage, User, Run, DomainEvent}
use bulq.Storage.{pure, gets, modify, emit, draw_uuid4, ◌>>=◌, ◌>>◌}
use bulq.Storage.Rules.{Reads-raise_if, Reads-or_raise}
use bulq.Access.{leads}
use bulq.Access.Reads.{Reads-get_user_groups, Reads-get_all_stores, Reads-get_runs_by_group}
use bulq.Access.Outcomes.{bind-on, validate-on, is_led_by, raise_if-ok}
use bulq.Repo.Runs.{
  run_key, participation_key, new_run, new_participation, is_participation, create_participation,
  get_runs_by_group,
}
use bulq.Repo.Runs as Runs
use bulq.GroupService.Frames.{Reads-get_group_by_id}
use bulq.RunMethods.{create_run}

-- How many runs of the group count against the limit.
abbrev pub active_runs : ℕ → MemoryStorage → ℕ
active_runs g s =
    length (keep (λ (r : Run). is_active_run r.state) (keep (λ (r : Run). r.group_id == g) s.runs))

-- The ids that the next run and its leader's participation get are not in use.
pub record HasNewIds (u : User) (s : MemoryStorage) : Type 0 where
  pub new_run_id : IsNew run_key (s.uuid4 0) s.runs
  pub new_participation_id : IsNew participation_key (s.uuid4 1) s.participations
  pub nobody : find? (is_participation u.id (s.uuid4 0)) s.participations ≡ none

active-snoc :
    (g : ℕ) (r : Run) (d : List Run)
    → (r.group_id == g) ≡ true
    → is_active_run r.state ≡ true
    → length (
        keep
          (λ (r : Run). is_active_run r.state)
          (keep (λ (r : Run). r.group_id == g) (d ++ r ∷ [])))
      ≡ suc (
          length
            (keep (λ (r : Run). is_active_run r.state) (keep (λ (r : Run). r.group_id == g) d)))
active-snoc g r [] h k = ground arith
active-snoc g r (x ∷ d) h k = ground (arith, active-snoc g r d)

-- The run is there as a planned run of this group, and the user leads it.
pub record IsCreated (u : User) (g : ℕ) (run : Run) (s t : MemoryStorage) : Type 0 where
  pub is_found : get run_key run.id t.runs ≡ some run
  pub is_planned : run.state ≡ planning
  pub of_group : run.group_id ≡ g
  pub is_led : is_led_by u run.id t ≡ true
  pub one_more : active_runs g t ≡ suc (active_runs g s)

ok_inj : {A : Type 0} {a b : A} → ok a ≡ ok b → a ≡ b
ok_inj h = cc

module _ (u : User) (g store : ℕ) (c : Option String) (s : MemoryStorage) where
  abbrev row : Run
  row = new_run (s.uuid4 0) g store c s.now

  abbrev tables : MemoryStorage → MemoryStorage
  tables t = record t {
    runs = put run_key row s.runs;
    participations =
        put participation_key (new_participation (s.uuid4 1) u.id (s.uuid4 0) true false)
          s.participations;
  }

  row-IsCreated : (t : MemoryStorage) → HasNewIds u s → IsCreated u g row s (tables t)
  unfolding is_active_run
  row-IsCreated t fresh = record {
    is_found = get-put run_key row (s.uuid4 0) s.runs ∙ rw (==_refl (s.uuid4 0)) refl;
    is_planned = refl;
    of_group = refl;
    is_led =
        let p = new_participation (s.uuid4 1) u.id (s.uuid4 0) true false in
        ap (λ ps. leads (find? (is_participation u.id (s.uuid4 0)) ps))
          (put-IsNew participation_key p s.participations fresh.new_participation_id)
        ∙ ap leads (find-snoc (is_participation u.id (s.uuid4 0)) p s.participations)
        ∙ rw (fresh.nobody, ==_refl u.id, ==_refl (s.uuid4 0)) refl;
    one_more =
        ap
          (λ rs.
            length
              (keep (λ (r : Run). is_active_run r.state) (keep (λ (r : Run). r.group_id == g) rs)))
          (put-IsNew run_key row s.runs fresh.new_run_id)
        ∙ active-snoc g row s.runs (==_refl g) refl;
  }

  made :
      (e : Run → DomainEvent) {run : Run}
      → HasNewIds u s
      → ((Runs.create_run g store u.id c >>= λ r. emit (e r) >> pure r) s).0 ≡ ok run
      → IsCreated u g run s ((Runs.create_run g store u.id c >>= λ r. emit (e r) >> pure r) s).1
  unfolding Runs.create_run create_participation draw_uuid4 gets modify emit pure ◌>>=◌
  made e {run} fresh h =
      let same : row ≡ run = ok_inj h in
      let t = record s { events = e row ∷ s.events; uuid4 = λ n. s.uuid4 (suc (suc n)) } in
      subst (λ r. IsCreated u g r s (tables t)) same (row-IsCreated t fresh)

read-runs :
    (g : ℕ) (s : MemoryStorage) {runs : List Run}
    → (get_runs_by_group g s).0 ≡ ok runs
    → keep (λ (r : Run). r.group_id == g) s.runs ≡ runs
unfolding get_runs_by_group gets
read-runs g s h = cc

-- Where the next ids are new, a run that `create_run` returns is there as a planned run of the group,
-- led by the user; the group has one active run more than before, and no more than the limit.
pub create_run-IsCreated :
    (max_active_runs g store : ℕ) (u : User) (c : Option String) (s : MemoryStorage) {run : Run}
    → HasNewIds u s
    → (create_run max_active_runs (some g) (some store) u c s).0 ≡ ok run
    → IsCreated u g run s (create_run max_active_runs (some g) (some store) u c s).1
      × (active_runs g (create_run max_active_runs (some g) (some store) u c s).1 ≤ max_active_runs)
unfolding create_run
create_run-IsCreated m g store u c s {run} fresh h =
    let (p0, i0) = validate-on g _ s h in
    let (p1, i1) = validate-on store _ s i0 in
    let (_, _, e1, h1) = bind-on _ _ s (Reads-get_group_by_id g) i1 in
    let (_, _, e2, h2) = bind-on _ _ s (Reads-raise_if _ _) h1 in
    let (_, _, e3, h3) = bind-on _ _ s (Reads-get_user_groups u) h2 in
    let (_, _, e4, h4) = bind-on _ _ s (Reads-raise_if _ _) h3 in
    let (stores, _, e5, h5) = bind-on _ _ s Reads-get_all_stores h4 in
    let (st, _, e6, h6) = bind-on _ _ s (Reads-or_raise _ _) h5 in
    let (runs, f7, e7, h7) = bind-on _ _ s (Reads-get_runs_by_group g) h6 in
    let (_, f8, e8, h8) = bind-on _ _ s (Reads-raise_if _ _) h7 in
    let same = p0 ∙ p1 ∙ e1 ∙ e2 ∙ e3 ∙ e4 ∙ e5 ∙ e6 ∙ e7 ∙ e8 in
    let made_here = made u g store c s _ fresh h8 in
    let created =
      subst (λ (v : Result Run × MemoryStorage). IsCreated u g run s v.1) (sym same) made_here in
    let full : leb m (active_runs g s) ≡ false = rw (read-runs g s f7) (raise_if-ok _ _ s f8) in
    (created, rw created.one_more (ground arith))
