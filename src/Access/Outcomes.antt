-- ===== src/Access/Outcomes.antt =====
-- What is known of the storage once a check of `Access` has returned.
use bulq.Common.{
  ℕ, ◌≡◌, refl, ap, subst, Bool, true, false, not, Option, none, some, find?, any, ◌==◌,
}
use bulq.Error.{Result, ok, err, Error}
use bulq.Table.{get}
use bulq.Model.{MemoryStorage, User, Run, RunParticipation}
use bulq.Storage.{Action, gets, resume, raise_if, or_raise, parse_uuid, validate_uuid, ◌>>=◌}
use bulq.Storage.Rules.{Reads, Leaves}
use bulq.Repo.Directory.{get_user_groups, groups_of}
use bulq.Repo.Runs.{run_key, is_participation, get_run_by_id, get_participation}
use bulq.Access.{require_run, require_member, require_leader, leads}

-- The user is a member of the run's group.
abbrev pub is_member : User → Run → MemoryStorage → Bool
is_member user run s = any (λ g. g == run.group_id) (groups_of user.id s.groups s.group_memberships)

-- The user's participation in a run, and whether it leads the run.
abbrev pub participation_in : User → ℕ → MemoryStorage → Option RunParticipation
participation_in user run_id s = find? (is_participation user.id run_id) s.participations

abbrev pub is_led_by : User → ℕ → MemoryStorage → Bool
is_led_by user run_id s = leads (participation_in user run_id s)

pub or_raise-ok :
    {A : Type 0} (e : Error) (o : Option A) (s : MemoryStorage) {a : A}
    → (or_raise e o s).0 ≡ ok a
    → o ≡ some a
unfolding or_raise
or_raise-ok e none s h = cc
or_raise-ok e (some a) s h = cc

pub raise_if-ok :
    (b : Bool) (e : Error) (s : MemoryStorage) {u : Unit {0}}
    → (raise_if b e s).0 ≡ ok u
    → b ≡ false
unfolding raise_if
raise_if-ok true e s h = cc
raise_if-ok false e s h = refl

pub not-false : (b : Bool) → not b ≡ false → b ≡ true
not-false true h = refl
not-false false h = cc

-- A sequence that returns has returned at each step; a step that only reads hands on the storage.
pub bind-ok :
    {A B : Type 0} (m : Action A) (f : A → Action B) (s : MemoryStorage) {b : B}
    → Reads m
    → ((m >>= f) s).0 ≡ ok b
    → (a : A) × ((m s).0 ≡ ok a) × ((f a s).0 ≡ ok b)
unfolding ◌>>=◌
bind-ok {A} {B} m f s {b} h p = go (m s).0 (m s).1 refl (h.at s) p
  where
    go :
        (r : Result A) (t : MemoryStorage)
        → (m s).0 ≡ r
        → t ≡ s
        → (resume f r t).0 ≡ ok b
        → (a : A) × ((m s).0 ≡ ok a) × ((f a s).0 ≡ ok b)
    go (ok a) t e same q = (a, e, subst (λ v. (f a v).0 ≡ ok b) same q)
    go (err x) t e same q = cc

pub require_run-ok :
    (i : ℕ) (s : MemoryStorage) {r : Run}
    → (require_run i s).0 ≡ ok r
    → get run_key i s.runs ≡ some r
unfolding require_run get_run_by_id ◌>>=◌
require_run-ok i s h = or_raise-ok _ (get run_key i s.runs) s h

pub require_member-ok :
    (r : Run) (u : User) (s : MemoryStorage) {v : Unit {0}}
    → (require_member r u s).0 ≡ ok v
    → is_member u r s ≡ true
unfolding require_member get_user_groups ◌>>=◌
require_member-ok r u s h = not-false (is_member u r s) (raise_if-ok (not (is_member u r s)) _ s h)

pub require_leader-ok :
    (i : ℕ) (u : User) (s : MemoryStorage) {v : Unit {0}}
    → (require_leader i u s).0 ≡ ok v
    → is_led_by u i s ≡ true
unfolding require_leader get_participation ◌>>=◌
require_leader-ok i u s h = not-false (is_led_by u i s) (raise_if-ok (not (is_led_by u i s)) _ s h)

pub raise_if-passed :
    (b : Bool) (e : Error) (s : MemoryStorage) → b ≡ false → (raise_if b e s).0 ≡ ok tt
unfolding raise_if
raise_if-passed b e s h = rw h refl

pub require_run-found :
    (i : ℕ) (s : MemoryStorage) {r : Run}
    → get run_key i s.runs ≡ some r
    → (require_run i s).0 ≡ ok r
unfolding require_run get_run_by_id gets or_raise ◌>>=◌
require_run-found i s found = rw found refl

pub require_leader-led :
    (i : ℕ) (u : User) (s : MemoryStorage)
    → is_led_by u i s ≡ true
    → (require_leader i u s).0 ≡ ok tt
unfolding require_leader get_participation gets raise_if ◌>>=◌
require_leader-led i u s h = rw h refl

-- A sequence that returns, after a step that only reads, runs as its rest does.
pub bind-rest :
    {A B : Type 0} (m : Action A) (f : A → Action B) (s : MemoryStorage) {b : B}
    → Reads m
    → ((m >>= f) s).0 ≡ ok b
    → (a : A) × ((m s).0 ≡ ok a) × ((m >>= f) s ≡ f a s)
unfolding ◌>>=◌
bind-rest {A} {B} m f s {b} h p = go (m s).0 (m s).1 refl (h.at s) p
  where
    go :
        (r : Result A) (t : MemoryStorage)
        → (m s).0 ≡ r
        → t ≡ s
        → (resume f r t).0 ≡ ok b
        → (a : A) × ((m s).0 ≡ ok a) × (resume f r t ≡ f a s)
    go (ok a) t e same q = (a, e, ap (f a) same)
    go (err x) t e same q = cc

-- `bind-rest`, with what is known of the rest.
pub bind-on :
    {A B : Type 0} (m : Action A) (f : A → Action B) (s : MemoryStorage) {b : B}
    → Reads m
    → ((m >>= f) s).0 ≡ ok b
    → (a : A) × ((m s).0 ≡ ok a) × ((m >>= f) s ≡ f a s) × ((f a s).0 ≡ ok b)
bind-on m f s {b} h p =
    let (a, e, same) = bind-rest m f s h p in (a, e, same, subst (λ v. v.0 ≡ ok b) same p)

-- The reading of an id that is one.
pub parse-on :
    {B : Type 0} (i : ℕ) (f : ℕ → Action B) (s : MemoryStorage) {b : B}
    → ((parse_uuid (some i) >>= f) s).0 ≡ ok b
    → ((parse_uuid (some i) >>= f) s ≡ f i s) × ((f i s).0 ≡ ok b)
unfolding or_raise ◌>>=◌
parse-on i f s h = (refl, h)

pub validate-on :
    {B : Type 0} (i : ℕ) (f : ℕ → Action B) (s : MemoryStorage) {b : B}
    → ((validate_uuid (some i) >>= f) s).0 ≡ ok b
    → ((validate_uuid (some i) >>= f) s ≡ f i s) × ((f i s).0 ≡ ok b)
unfolding or_raise ◌>>=◌
validate-on i f s h = (refl, h)

-- A sequence that returns, whose rest leaves a part of the storage, has that part from its first
-- step.
pub bind-first :
    {A B V : Type 0} (part : MemoryStorage → V) (m : Action A) (f : A → Action B)
    (s : MemoryStorage) {b : B}
    → ((a : A) → Leaves part (f a))
    → ((m >>= f) s).0 ≡ ok b
    → (a : A) × ((m s).0 ≡ ok a) × (part ((m >>= f) s).1 ≡ part (m s).1)
unfolding ◌>>=◌
bind-first {A} {B} {V} part m f s {b} h p = go (m s).0 (m s).1 p
  where
    go :
        (r : Result A) (t : MemoryStorage)
        → (resume f r t).0 ≡ ok b
        → (a : A) × (r ≡ ok a) × (part (resume f r t).1 ≡ part t)
    go (ok a) t q = (a, refl, (h a).at t)
    go (err x) t q = cc
