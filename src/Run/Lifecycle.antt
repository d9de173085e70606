-- ===== src/Run/Lifecycle.antt =====
-- The diagram of a run's statuses, and its ends.
use pi_agentworks.Prelude.{
  ℕ, ◌≤◌, String, ◌≡◌, ◌≢◌, ◌⊎◌, true, false, none, [], ◌∷◌, arith, trim, starts_with,
  if◌then◌else◌,
}
use pi_agentworks.Errors.{
  ok, assert_forward_time, non_empty-cases, >>=-eq-ok, max_safe_integer, is_ok,
}
use pi_agentworks.Run.{
  RunStatus, planning, awaiting_approval, ready, active, blocked, completed, failed, cancelled,
  RunState, RunChange, plan_prepared, run_blocked, run_resumed, run_failed, run_cancelled,
  RunTransition, apply_run_change, transition_run, is_terminal,
}
use pi_agentworks.Trace.{replay}

-- The statuses that a run may leave.
pub data IsOpen : RunStatus → Type 0 where
  open_planning : IsOpen planning
  open_awaiting : IsOpen awaiting_approval
  open_ready : IsOpen ready
  open_active : IsOpen active
  open_blocked : IsOpen blocked

infix 40 ◌⟶◌
pub data ◌⟶◌ : RunStatus → RunStatus → Type 0 where
  ask : planning ⟶ awaiting_approval
  skip_approval : planning ⟶ ready
  approve : awaiting_approval ⟶ ready
  revise : awaiting_approval ⟶ planning
  start : ready ⟶ active
  block_ready : ready ⟶ blocked
  block_active : active ⟶ blocked
  resume_paused : blocked ⟶ ready
  resume : blocked ⟶ active
  complete : active ⟶ completed
  fail : {s : RunStatus} → IsOpen s → s ⟶ failed
  cancel : {s : RunStatus} → IsOpen s → s ⟶ cancelled

ruleset edges = (
  ask, skip_approval, approve, revise, start, block_ready, block_active, resume_paused, resume,
  complete, fail, cancel, open_planning, open_awaiting, open_ready, open_active, open_blocked,
)

apply_run_change-⟶ :
    (s : RunState) (at : ℕ) (c : RunChange) {t : RunState}
    → apply_run_change s at c ≡ ok t
    → s.status ⟶ t.status
unfolding apply_run_change
apply_run_change-⟶ s at (run_blocked reason) h =
    grind (arith, edges, non_empty-cases reason "blocked reason")
apply_run_change-⟶ s at (run_failed reason) h =
    grind (arith, edges, non_empty-cases reason "failure reason")
apply_run_change-⟶ s at (run_cancelled reason) h =
    grind (arith, edges, non_empty-cases reason "cancellation reason")
apply_run_change-⟶ s at c h = grind (arith, edges)

-- Every accepted transition follows an edge of the diagram.
pub transition_run-⟶ :
    (s : RunState) (tr : RunTransition) {t : RunState}
    → transition_run s tr ≡ ok t
    → s.status ⟶ t.status
unfolding transition_run
transition_run-⟶ s tr h =
    let (u, timely, changed) = >>=-eq-ok (assert_forward_time s.updated_at tr.at) _ h in
    apply_run_change-⟶ s tr.at tr.change changed

apply_run_change_of_terminal :
    (s : RunState) (at : ℕ) (c : RunChange)
    → is_terminal s.status ≡ true
    → is_ok (apply_run_change s at c) ≡ false
unfolding apply_run_change
apply_run_change_of_terminal s at plan_prepared h = ground arith
apply_run_change_of_terminal s at c h = ground arith

-- A completed, failed or cancelled run refuses every transition.
pub transition_run_of_terminal :
    (s : RunState) (tr : RunTransition)
    → is_terminal s.status ≡ true
    → is_ok (transition_run s tr) ≡ false
unfolding transition_run
transition_run_of_terminal s tr h = ground (arith, apply_run_change_of_terminal s tr.at tr.change h)

-- Blocking a ready or active run for a visible reason and resuming it later gives the same run
-- back, ready if the trimmed reason starts with "parent pause:" and active otherwise: whether the
-- run was active before does not matter.
pub run_block-resume :
    (s : RunState) (reason : String) (at later : ℕ)
    → (s.status ≡ ready) ⊎ (s.status ≡ active)
    → s.blocked_reason ≡ none
    → s.updated_at ≤ at
    → at ≤ later
    → later ≤ max_safe_integer
    → trim reason ≢ ""
    → replay transition_run s (
        record { at = at; change = run_blocked reason }
        ∷ record { at = later; change = run_resumed }
        ∷ [])
      ≡ ok (record s {
        status = if starts_with (trim reason) "parent pause:" then ready else active;
        updated_at = later;
      })
unfolding replay transition_run apply_run_change assert_forward_time
run_block-resume s reason at later h none_yet p q r visible =
    ground (arith, non_empty-cases reason "blocked reason")
