-- ===== src/RunState/Graph.antt =====
-- The transition table of run_state.py against the diagram that it stands for.
use bulq.Common.{Bool-cases, ◌≤◌, ◌≡◌, ◌≢◌, refl, subst, ◌↔◌, ◌⊎◌, inl, inr, true, false, arith}
use bulq.RunState.{
  RunState, planning, active, confirmed, shopping, adjusting, distributing, completed, cancelled,
  rank, can_transition, is_terminal_state,
}

-- A run that still goes on.
pub data IsOpen : RunState → Type 0 where
  open_planning : IsOpen planning
  open_active : IsOpen active
  open_confirmed : IsOpen confirmed
  open_shopping : IsOpen shopping
  open_adjusting : IsOpen adjusting
  open_distributing : IsOpen distributing

-- The diagram: forward steps, two steps back, and a cancellation of any run that still goes on.
infix 40 ◌⟶◌ ◌⟶*◌
pub data ◌⟶◌ : RunState → RunState → Type 0 where
  activate : planning ⟶ active
  confirm : active ⟶ confirmed
  reopen : confirmed ⟶ active
  replan : active ⟶ planning
  shop : confirmed ⟶ shopping
  adjust : shopping ⟶ adjusting
  distribute : shopping ⟶ distributing
  settle : adjusting ⟶ distributing
  complete : distributing ⟶ completed
  cancel : {s : RunState} → IsOpen s → s ⟶ cancelled

pub data ◌⟶*◌ : RunState → RunState → Type 0 where
  here : {s : RunState} → s ⟶* s
  walk : {s t u : RunState} → s ⟶ t → t ⟶* u → s ⟶* u

ruleset open_states =
    (open_planning, open_active, open_confirmed, open_shopping, open_adjusting, open_distributing)

ruleset edges = (
  activate, confirm, reopen, replan, shop, adjust, distribute, settle, complete, cancel,
  open_states,
)

pub ⟶*-trans : {s t u : RunState} → s ⟶* t → t ⟶* u → s ⟶* u
⟶*-trans here q = q
⟶*-trans (walk e p) q = walk e (⟶*-trans p q)

pub can_transition→⟶ : (s t : RunState) → can_transition s t ≡ true → s ⟶ t
unfolding can_transition
can_transition→⟶ s t h = grind (arith, edges)

pub ⟶→can_transition : {s t : RunState} → s ⟶ t → can_transition s t ≡ true
unfolding can_transition
⟶→can_transition activate = refl
⟶→can_transition confirm = refl
⟶→can_transition reopen = refl
⟶→can_transition replan = refl
⟶→can_transition shop = refl
⟶→can_transition adjust = refl
⟶→can_transition distribute = refl
⟶→can_transition settle = refl
⟶→can_transition complete = refl
⟶→can_transition (cancel open_planning) = refl
⟶→can_transition (cancel open_active) = refl
⟶→can_transition (cancel open_confirmed) = refl
⟶→can_transition (cancel open_shopping) = refl
⟶→can_transition (cancel open_adjusting) = refl
⟶→can_transition (cancel open_distributing) = refl

-- A run's way from state to state, each step of which the table allows.
pub data Way : RunState → RunState → Type 0 where
  stay : {s : RunState} → Way s s
  step : {s t u : RunState} → can_transition s t ≡ true → Way t u → Way s u

pub Way-⟶* : {s t : RunState} → s ⟶* t → Way s t
Way-⟶* here = stay
Way-⟶* (walk e p) = step (⟶→can_transition e) (Way-⟶* p)

over : (s t : RunState) → (s ≡ completed) ⊎ (s ≡ cancelled) → can_transition s t ≢ true
unfolding can_transition
over s t h e = grind arith

-- A run that is completed or cancelled stays so: the table leads nowhere else.
pub terminal_stays : {s t : RunState} → (s ≡ completed) ⊎ (s ≡ cancelled) → Way s t → t ≡ s
terminal_stays h stay = refl
terminal_stays {s} h (step {t} e p) = absurd (over s t h e)

open-⟶*-completed : (s : RunState) → is_terminal_state s ≡ false → s ⟶* completed
unfolding is_terminal_state
open-⟶*-completed planning h = search (here, walk, edges) depth 7
open-⟶*-completed active h = search (here, walk, edges) depth 7
open-⟶*-completed confirmed h = search (here, walk, edges) depth 7
open-⟶*-completed shopping h = search (here, walk, edges) depth 7
open-⟶*-completed adjusting h = search (here, walk, edges) depth 7
open-⟶*-completed distributing h = search (here, walk, edges) depth 7
open-⟶*-completed completed h = cc
open-⟶*-completed cancelled h = cc

open-cancelled : (s : RunState) → is_terminal_state s ≡ false → can_transition s cancelled ≡ true
unfolding is_terminal_state can_transition
open-cancelled s h = grind arith

terminal-is_over : (s : RunState) → is_terminal_state s ≡ true → (s ≡ completed) ⊎ (s ≡ cancelled)
unfolding is_terminal_state
terminal-is_over s h = grind arith

-- A state is not terminal exactly when the table has a way from it to completed, and lets a run in it
-- be cancelled at once; a run in distribution is no exception.
pub open_iff :
    (s : RunState)
    → (is_terminal_state s ≡ false) ↔ (Way s completed × (can_transition s cancelled ≡ true))
open_iff s = (
  λ h. (Way-⟶* (open-⟶*-completed s h), open-cancelled s h),
  λ p. elim (Bool-cases (is_terminal_state s)) [
    | inl h ↦ absurd (over s cancelled (terminal-is_over s h) p.1)
    | inr h ↦ h
  ],
)

-- The way stands in state `u` at its start, at its end or in between.
abbrev pub Visits : {s t : RunState} → RunState → Way s t → Type 0
Visits {s} u stay = s ≡ u
Visits {s} u (step e p) = (s ≡ u) ⊎ Visits u p

-- The three states that no step of the table jumps over.
data IsGate : RunState → Type 0 where
  confirmed_gate : IsGate confirmed
  shopping_gate : IsGate shopping
  distributing_gate : IsGate distributing

gate_step :
    (g s t : RunState)
    → IsGate g
    → rank s ≤ rank g
    → can_transition s t ≡ true
    → (s ≡ g) ⊎ (rank t ≤ rank g) ⊎ (t ≡ cancelled)
unfolding can_transition
gate_step g s t confirmed_gate h e = ground arith
gate_step g s t shopping_gate h e = ground arith
gate_step g s t distributing_gate h e = ground arith

gate-ne-completed : {g : RunState} → IsGate g → ¬ (rank completed ≤ rank g)
gate-ne-completed confirmed_gate h = omega arith
gate-ne-completed shopping_gate h = omega arith
gate-ne-completed distributing_gate h = omega arith

no_return : {t : RunState} (p : Way cancelled t) → t ≢ completed
no_return p e = cc (terminal_stays (inr refl) p)

gate_visited :
    {g s t : RunState} → IsGate g → rank s ≤ rank g → (p : Way s t) → t ≡ completed → Visits g p
gate_visited {g} {s} k h stay done =
    absurd (gate-ne-completed k (subst (λ v. rank v ≤ rank g) done h))
gate_visited {g} {s} {t = w} k h (step {t = u} e p) done = elim (gate_step g s u k h e) [
  | inl at ↦ inl at
  | inr (inl below) ↦ inr (gate_visited k below p done)
  | inr (inr gone) ↦ absurd (no_return (subst (λ v. Way v w) gone p) done)
]

-- A run that comes from planning to completed by steps that the table allows has been confirmed, in
-- shopping and in distribution: the table has no way round one of these three states.
pub completed_passes_gates :
    (p : Way planning completed) → Visits confirmed p × Visits shopping p × Visits distributing p
completed_passes_gates p = (
  gate_visited confirmed_gate (omega arith) p refl,
  gate_visited shopping_gate (omega arith) p refl,
  gate_visited distributing_gate (omega arith) p refl,
)
