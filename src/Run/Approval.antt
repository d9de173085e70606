-- ===== src/Run/Approval.antt =====
-- Where the mode asks for it, no run starts before its plan is approved.
use pi_agentworks.Prelude.{ℕ, ◌≡◌, refl, ◌⊎◌, inl, inr, Bool, true, false, List, arith, In}
use pi_agentworks.Errors.{ok, assert_forward_time, non_empty-cases, >>=-eq-ok}
use pi_agentworks.Complexity.{ComplexityMode, get_complexity_policy}
use pi_agentworks.Run.{
  RunStatus, ready, active, blocked, completed, RunState, RunInput, RunChange, plan_approved,
  run_blocked, run_failed, run_cancelled, RunTransition, create_run_state, apply_run_change,
  transition_run,
}
use pi_agentworks.Trace.{replay, replay_witness}

-- The statuses of a run whose plan has been accepted and that has not ended badly.
abbrev pub is_underway : RunStatus → Bool
is_underway ready = true
is_underway active = true
is_underway blocked = true
is_underway completed = true
is_underway _ = false

abbrev pub needs_approval : ComplexityMode → Bool
needs_approval mode = (get_complexity_policy mode).requires_plan_confirmation

apply_run_change-underway :
    (s : RunState) (at : ℕ) (c : RunChange) {t : RunState}
    → is_underway s.status ≡ false
    → needs_approval s.complexity ≡ true
    → apply_run_change s at c ≡ ok t
    → (c ≡ plan_approved) ⊎ ((is_underway t.status ≡ false) × (t.complexity ≡ s.complexity))
unfolding apply_run_change
apply_run_change-underway s at plan_approved u n h = inl refl
apply_run_change-underway s at (run_blocked reason) u n h =
    ground (arith, non_empty-cases reason "blocked reason")
apply_run_change-underway s at (run_failed reason) u n h =
    ground (arith, non_empty-cases reason "failure reason")
apply_run_change-underway s at (run_cancelled reason) u n h =
    ground (arith, non_empty-cases reason "cancellation reason")
apply_run_change-underway s at c u n h = ground arith

-- A run whose plan still waits for the approval that its mode asks for.
record IsWaiting (s : RunState) : Type 0 where
  not_underway : is_underway s.status ≡ false
  confirmed : needs_approval s.complexity ≡ true

transition_run-IsWaiting :
    (s : RunState) (tr : RunTransition) (t : RunState)
    → IsWaiting s
    → transition_run s tr ≡ ok t
    → (tr.change ≡ plan_approved) ⊎ IsWaiting t
unfolding transition_run
transition_run-IsWaiting s tr t w h =
    let (u, timely, changed) = >>=-eq-ok (assert_forward_time s.updated_at tr.at) _ h in
    elim (apply_run_change-underway s tr.at tr.change w.not_underway w.confirmed changed) [
      | inl approved ↦ inl approved
      | inr (still, same) ↦ inr (record { not_underway = still; confirmed = rw same w.confirmed })
    ]

create_run_state-IsWaiting :
    (input : RunInput) {s : RunState}
    → needs_approval input.complexity ≡ true
    → create_run_state input ≡ ok s
    → IsWaiting s
unfolding create_run_state
create_run_state-IsWaiting input n h = ground (arith, non_empty-cases input.title "run title")

-- In a mode that requires plan confirmation, a newly created run that any accepted transitions
-- bring to ready, active, blocked or completed had a `plan_approved` among them.
pub replay-needs_approval :
    (input : RunInput) (trs : List RunTransition) {s t : RunState}
    → needs_approval input.complexity ≡ true
    → create_run_state input ≡ ok s
    → replay transition_run s trs ≡ ok t
    → is_underway t.status ≡ true
    → (tr : RunTransition) × In tr trs × (tr.change ≡ plan_approved)
replay-needs_approval input trs {s} n c h k =
    elim (replay_witness transition_run IsWaiting (λ tr. tr.change ≡ plan_approved)
      transition_run-IsWaiting s trs (create_run_state-IsWaiting input n c) h) [
        | inl found ↦ found
        | inr waiting ↦ absurd (ground (arith, waiting.not_underway))
      ]
