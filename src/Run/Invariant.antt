-- ===== src/Run/Invariant.antt =====
-- What holds of every run state, and what no transition changes.
use pi_agentworks.Prelude.{ℕ, ◌≤◌, ◌≡◌, ◌≢◌, ◌∙◌, Bool, true, false, some, List, arith, is_some}
use pi_agentworks.Errors.{
  ok, assert_forward_time, non_empty-cases, assert_forward_time-eq-ok, >>=-eq-ok,
}
use pi_agentworks.Run.{
  RunStatus, blocked, failed, cancelled, RunState, RunInput, RunChange, run_blocked, run_failed,
  run_cancelled, RunTransition, create_run_state, apply_run_change, transition_run,
}
use pi_agentworks.Trace.{replay, replay_inv}

-- The statuses that carry a reason.
abbrev pub has_reason : RunStatus → Bool
has_reason blocked = true
has_reason failed = true
has_reason cancelled = true
has_reason _ = false

pub record IsWellFormed (s : RunState) : Type 0 where
  pub version : s.schema_version ≡ 2
  pub titled : s.title ≢ ""
  pub reason_exact : is_some s.blocked_reason ≡ has_reason s.status
  pub reason_visible : s.blocked_reason ≢ some ""
  pub time_ordered : s.created_at ≤ s.updated_at

-- The fields that identify a run.
pub record SameRun (s t : RunState) : Type 0 where
  pub id : t.id ≡ s.id
  pub title : t.title ≡ s.title
  pub schema_version : t.schema_version ≡ s.schema_version
  pub complexity : t.complexity ≡ s.complexity
  pub repository_root : t.repository_root ≡ s.repository_root
  pub original_checkout : t.original_checkout ≡ s.original_checkout
  pub base_branch : t.base_branch ≡ s.base_branch
  pub base_commit : t.base_commit ≡ s.base_commit
  pub integration_branch : t.integration_branch ≡ s.integration_branch
  pub integration_worktree : t.integration_worktree ≡ s.integration_worktree
  pub management_pane_origin : t.management_pane_origin ≡ s.management_pane_origin
  pub created_at : t.created_at ≡ s.created_at

-- What a change does, whatever it is: the identity stays, the time is the transition's, and the
-- reason is recorded exactly where the status carries one.
record Effect (s : RunState) (at : ℕ) (t : RunState) : Type 0 where
  same : SameRun s t
  time : t.updated_at ≡ at
  reason_exact : is_some t.blocked_reason ≡ has_reason t.status
  reason_visible : t.blocked_reason ≢ some ""

apply_run_change-Effect :
    (s : RunState) (at : ℕ) (c : RunChange) {t : RunState}
    → is_some s.blocked_reason ≡ has_reason s.status
    → s.blocked_reason ≢ some ""
    → apply_run_change s at c ≡ ok t
    → Effect s at t
unfolding apply_run_change
apply_run_change-Effect s at (run_blocked reason) x v h =
    ground (arith, non_empty-cases reason "blocked reason")
apply_run_change-Effect s at (run_failed reason) x v h =
    ground (arith, non_empty-cases reason "failure reason")
apply_run_change-Effect s at (run_cancelled reason) x v h =
    ground (arith, non_empty-cases reason "cancellation reason")
apply_run_change-Effect s at c x v h = ground arith

transition_run-Effect :
    (s : RunState) (tr : RunTransition) {t : RunState}
    → IsWellFormed s
    → transition_run s tr ≡ ok t
    → Effect s tr.at t × (s.updated_at ≤ tr.at)
unfolding transition_run
transition_run-Effect s tr w h =
    let (u, timely, changed) = >>=-eq-ok (assert_forward_time s.updated_at tr.at) _ h in
    (
      apply_run_change-Effect s tr.at tr.change w.reason_exact w.reason_visible changed,
      (assert_forward_time-eq-ok s.updated_at tr.at timely).0,
    )

-- A run that is created has a visible title, a clock that starts at its creation and no reason.
pub create_run_state-IsWellFormed :
    (input : RunInput) {s : RunState} → create_run_state input ≡ ok s → IsWellFormed s
unfolding create_run_state
create_run_state-IsWellFormed input h = ground (arith, non_empty-cases input.title "run title")

-- Every transition that is accepted keeps a well-formed run well formed, keeps each field that
-- identifies the run, and sets its time to the transition's, which is not before the old one.
pub transition_run-IsWellFormed :
    (s : RunState) (tr : RunTransition) {t : RunState}
    → IsWellFormed s
    → transition_run s tr ≡ ok t
    → IsWellFormed t × SameRun s t × (t.updated_at ≡ tr.at) × (s.updated_at ≤ t.updated_at)
transition_run-IsWellFormed s tr {t} w h =
    let (e, timely) = transition_run-Effect s tr w h in
    let same = e.same in
    (
      record {
        version = same.schema_version ∙ w.version;
        titled = rw same.title w.titled;
        reason_exact = e.reason_exact;
        reason_visible = e.reason_visible;
        time_ordered = omega (arith, same.created_at, e.time);
      },
      same,
      e.time,
      omega (arith, e.time),
    )

-- So does every sequence of transitions.
pub replay-IsWellFormed :
    (s : RunState) (trs : List RunTransition) {t : RunState}
    → IsWellFormed s
    → replay transition_run s trs ≡ ok t
    → IsWellFormed t
replay-IsWellFormed =
    replay_inv transition_run IsWellFormed (λ s tr t w h. (transition_run-IsWellFormed s tr w h).0)
