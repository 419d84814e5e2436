-- ===== src/ReassignmentService/HandedOver.antt =====
-- The participations before and after the lead of a run is handed over.
use bulq.Common.{
  ℕ, ◌≡◌, ◌≢◌, refl, sym, ap, ◌∙◌, Bool, true, false, Option, some, List, arith, find?,
  if◌then◌else◌, ◌==◌, ==_iff, Bool-cases, inl, inr,
}
use mathlib.Core.Option
use bulq.Table.{update, IsKeyed, IsKeyed-update}
use bulq.Table.Find.{get-find, test-find, find-update, find-update_other}
use bulq.Model.{RunParticipation}
use bulq.Access.{leads}
use bulq.Repo.Runs.{participation_key, is_participation}

abbrev pub lead : Bool → RunParticipation → RunParticipation
lead b p = record p { is_leader = b }

-- the search of `get_participation`
abbrev pub participation_for : ℕ → ℕ → List RunParticipation → Option RunParticipation
participation_for v r d = find? (is_participation v r) d

apart :
    (v w r x : ℕ) (p : RunParticipation)
    → v ≢ w
    → is_participation v r p ≡ true
    → is_participation w x p ≡ false
apart v w r x p ne h = ground arith

apart_runs :
    (v w r x : ℕ) (p : RunParticipation)
    → r ≢ x
    → is_participation v r p ≡ true
    → is_participation w x p ≡ false
apart_runs v w r x p ne h = ground arith

module _ (b : Bool) (v r : ℕ) (d : List RunParticipation) {p : RunParticipation} where
  marked :
      IsKeyed participation_key d
      → participation_for v r d ≡ some p
      → participation_for v r (update participation_key p.id (lead b) d) ≡ some (lead b p)
  marked h f =
      find-update participation_key (lead b) (is_participation v r) d {e = p} (λ x. refl) h f

  unmarked :
      (w x : ℕ)
      → IsKeyed participation_key d
      → participation_for v r d ≡ some p
      → is_participation w x p ≡ false
      → participation_for w x (update participation_key p.id (lead b) d) ≡ participation_for w x d
  unmarked w x h f off =
      find-update_other participation_key (lead b) (is_participation w x) p.id d {e = p}
        (get-find participation_key (is_participation v r) d h f) off off

-- A participation in the run, of the user `x`, once `v` has handed over to `w`.
abbrev pub handed : ℕ → ℕ → ℕ → Option RunParticipation → Option RunParticipation
handed v w x old =
    if x == w
    then Option.map (lead true) old
    else if x == v
    then Option.map (lead false) old
    else old

-- The lead of the run `r` has gone from `v` to `w` and nothing else has changed.
abbrev pub IsHandedOver : ℕ → ℕ → ℕ → List RunParticipation → List RunParticipation → Type 0
IsHandedOver r v w d d' =
    (leads (participation_for v r d') ≡ false)
    × (leads (participation_for w r d') ≡ true)
    × ((x i : ℕ)
        → participation_for x i d'
          ≡ (if i == r then handed v w x (participation_for x i d) else participation_for x i d))

differ : (i j : ℕ) → i == j ≡ false → j ≢ i
differ i j h e = cc ((==_iff i j).1 (sym e))

module _ (r v w : ℕ) (d : List RunParticipation) {o n : RunParticipation} (ne : v ≢ w)
    (h : IsKeyed participation_key d) (f : participation_for v r d ≡ some o)
    (g : participation_for w r d ≡ some n) where
  abbrev twice : List RunParticipation
  twice = update participation_key n.id (lead true) (update participation_key o.id (lead false) d)

  h1 : IsKeyed participation_key (update participation_key o.id (lead false) d)
  h1 = IsKeyed-update participation_key (lead false) (λ x. refl) o.id d h

  at_o : is_participation v r o ≡ true
  at_o = test-find participation_key (is_participation v r) d f

  at_n : is_participation w r n ≡ true
  at_n = test-find participation_key (is_participation w r) d g

  g1 : participation_for w r (update participation_key o.id (lead false) d) ≡ some n
  g1 = unmarked false v r d {p = o} w r h f (apart v w r r o ne at_o) ∙ g

  untouched :
      (x i : ℕ)
      → is_participation x i o ≡ false
      → is_participation x i n ≡ false
      → participation_for x i twice ≡ participation_for x i d
  untouched x i not_o not_n =
      unmarked true w r (update participation_key o.id (lead false) d) {p = n} x i h1 g1 not_n
      ∙ unmarked false v r d {p = o} x i h f not_o

  old_off : participation_for v r twice ≡ some (lead false o)
  old_off =
      unmarked true w r (update participation_key o.id (lead false) d) {p = n} v r h1 g1
        (apart w v r r n (λ e. ne (sym e)) at_n)
      ∙ marked false v r d {p = o} h f

  new_on : participation_for w r twice ≡ some (lead true n)
  new_on = marked true w r (update participation_key o.id (lead false) d) {p = n} h1 g1

  each :
      (x i : ℕ)
      → participation_for x i twice
        ≡ (if i == r then handed v w x (participation_for x i d) else participation_for x i d)
  each x i = elim (Bool-cases (i == r)) [
    | inr other ↦ rw other (
        untouched x i (apart_runs v x r i o (differ i r other) at_o)
          (apart_runs w x r i n (differ i r other) at_n))
    | inl here ↦ elim (Bool-cases (x == w)) [
      | inl at_w ↦ rw (here, at_w, (==_iff x w).0 at_w, (==_iff i r).0 here, g) new_on
      | inr not_w ↦ elim (Bool-cases (x == v)) [
        | inl at_v ↦ rw (here, not_w, at_v, (==_iff x v).0 at_v, (==_iff i r).0 here, f) old_off
        | inr not_v ↦
            rw (here, not_w, not_v)
              (untouched x i (apart v x r i o (differ x v not_v) at_o)
                (apart w x r i n (differ x w not_w) at_n))
      ]
    ]
  ]

  pub handed_over : IsHandedOver r v w d twice
  handed_over = (ap leads old_off, ap leads new_on, each)
