-- ===== src/Run.antt =====
-- The run's state and its transitions (createRunState and transitionRun of
-- src/domain/controller-state.ts). A transition is the time `at` with the change it asks for.
pub mod Invariant
pub mod Lifecycle
pub mod Approval
use Prim.Native.String
use pi_agentworks.Prelude.{
  ℕ, String, Bool, true, false, Option, none, some, List, [], ◌∷◌, if◌then◌else◌, starts_with, join,
}
use pi_agentworks.Errors.{
  run, Error, invalid, Result, ok, err, ◌>>=◌, ◌>>◌, guard, non_empty, assert_forward_time,
}
use pi_agentworks.Complexity.{ComplexityMode, get_complexity_policy}

pub data RunStatus : Type 0 where
  planning awaiting_approval ready active blocked completed failed cancelled : RunStatus

pub record ManagementPaneOrigin : Type 0 where
  pub workspace_id : String
  pub tab_id : String
  pub pane_id : String

pub record RunState : Type 0 where
  pub schema_version : ℕ
  pub id : String
  pub title : String
  pub complexity : ComplexityMode
  pub status : RunStatus
  pub repository_root : String
  pub original_checkout : String
  pub base_branch : String
  pub base_commit : Option String
  pub integration_branch : String
  pub integration_worktree : String
  pub management_pane_origin : Option ManagementPaneOrigin
  pub blocked_reason : Option String
  pub created_at : ℕ
  pub updated_at : ℕ

-- What `createRunState` is given: the state less the fields that it sets.
pub record RunInput : Type 0 where
  pub id : String
  pub title : String
  pub complexity : ComplexityMode
  pub repository_root : String
  pub original_checkout : String
  pub base_branch : String
  pub base_commit : Option String
  pub integration_branch : String
  pub integration_worktree : String
  pub management_pane_origin : Option ManagementPaneOrigin
  pub created_at : ℕ

pub data RunChange : Type 0 where
  plan_prepared plan_approved plan_revision_requested : RunChange
  run_started : (integration_worktree_ready : Bool) → RunChange
  run_blocked : (reason : String) → RunChange
  run_resumed : RunChange
  run_completed : (unfinished_story_ids : List String) → RunChange
  run_failed : (reason : String) → RunChange
  run_cancelled : (reason : String) → RunChange

pub record RunTransition : Type 0 where
  pub at : ℕ
  pub change : RunChange

unfoldable pub status_name : RunStatus → String
status_name planning = "planning"
status_name awaiting_approval = "awaiting-approval"
status_name ready = "ready"
status_name active = "active"
status_name blocked = "blocked"
status_name completed = "completed"
status_name failed = "failed"
status_name cancelled = "cancelled"

unfoldable pub change_type : RunChange → String
change_type plan_prepared = "plan-prepared"
change_type plan_approved = "plan-approved"
change_type plan_revision_requested = "plan-revision-requested"
change_type (run_started integration_worktree_ready) = "run-started"
change_type (run_blocked reason) = "run-blocked"
change_type run_resumed = "run-resumed"
change_type (run_completed unfinished_story_ids) = "run-completed"
change_type (run_failed reason) = "run-failed"
change_type (run_cancelled reason) = "run-cancelled"

unfoldable pub create_run_state : RunInput → Result RunState
create_run_state input = do
  title ← non_empty input.title "run title"
  ok (record {
    schema_version = 2;
    id = input.id;
    title = title;
    complexity = input.complexity;
    status = planning;
    repository_root = input.repository_root;
    original_checkout = input.original_checkout;
    base_branch = input.base_branch;
    base_commit = input.base_commit;
    integration_branch = input.integration_branch;
    integration_worktree = input.integration_worktree;
    management_pane_origin = input.management_pane_origin;
    blocked_reason = none;
    created_at = input.created_at;
    updated_at = input.created_at;
  })

-- The tests on the status: `===`, and `includes` of a list of statuses.
abbrev pub is_planning : RunStatus → Bool
is_planning planning = true
is_planning _ = false

abbrev pub is_awaiting_approval : RunStatus → Bool
is_awaiting_approval awaiting_approval = true
is_awaiting_approval _ = false

abbrev pub is_ready : RunStatus → Bool
is_ready ready = true
is_ready _ = false

abbrev pub is_active : RunStatus → Bool
is_active active = true
is_active _ = false

abbrev pub is_blocked : RunStatus → Bool
is_blocked blocked = true
is_blocked _ = false

abbrev pub is_ready_or_active : RunStatus → Bool
is_ready_or_active ready = true
is_ready_or_active active = true
is_ready_or_active _ = false

abbrev pub is_terminal : RunStatus → Bool
is_terminal completed = true
is_terminal failed = true
is_terminal cancelled = true
is_terminal _ = false

abbrev pub is_empty : List String → Bool
is_empty [] = true
is_empty (x ∷ xs) = false

-- `current.blockedReason?.startsWith("parent pause:")`
abbrev pub is_parent_pause : Option String → Bool
is_parent_pause none = false
is_parent_pause (some reason) = starts_with reason "parent pause:"

-- `invalid("run", current.status, transition, reason)`
unfoldable pub invalid_run : RunState → RunChange → Option String → Error
invalid_run current change reason =
    invalid run (status_name current.status) (change_type change) reason

-- The cases of the `switch`.
unfoldable pub apply_run_change : RunState → ℕ → RunChange → Result RunState
apply_run_change current at plan_prepared = do
  guard (is_planning current.status) (invalid_run current plan_prepared none)
  let policy = get_complexity_policy current.complexity
  ok (record current {
    status = if policy.requires_plan_confirmation then awaiting_approval else ready;
    updated_at = at;
  })
apply_run_change current at plan_approved = do
  guard (is_awaiting_approval current.status) (invalid_run current plan_approved none)
  ok (record current { status = ready; updated_at = at })
apply_run_change current at plan_revision_requested = do
  guard (is_awaiting_approval current.status) (invalid_run current plan_revision_requested none)
  ok (record current { status = planning; updated_at = at })
apply_run_change current at (run_started integration_worktree_ready) = do
  guard (is_ready current.status)
      (invalid_run current (run_started integration_worktree_ready) none)
  guard integration_worktree_ready (
      invalid_run current (run_started integration_worktree_ready)
        (some "integration worktree is not ready"))
  ok (record current { status = active; updated_at = at })
apply_run_change current at (run_blocked reason) = do
  guard (is_ready_or_active current.status) (invalid_run current (run_blocked reason) none)
  blocked_reason ← non_empty reason "blocked reason"
  ok (record current { status = blocked; blocked_reason = some blocked_reason; updated_at = at })
apply_run_change current at run_resumed = do
  guard (is_blocked current.status) (invalid_run current run_resumed none)
  ok (record current {
    status = if is_parent_pause current.blocked_reason then ready else active;
    blocked_reason = none;
    updated_at = at;
  })
apply_run_change current at (run_completed unfinished_story_ids) = do
  guard (is_active current.status) (invalid_run current (run_completed unfinished_story_ids) none)
  guard (is_empty unfinished_story_ids) (
      invalid_run current (run_completed unfinished_story_ids)
        (some (String.◌++◌ "unfinished stories: " (join ", " unfinished_story_ids))))
  ok (record current { status = completed; updated_at = at })
apply_run_change current at (run_failed reason) =
    if is_terminal current.status then err (invalid_run current (run_failed reason) none) else (do
      blocked_reason ← non_empty reason "failure reason"
      ok (record current {
        status = failed;
        blocked_reason = some blocked_reason;
        updated_at = at;
      }))
apply_run_change current at (run_cancelled reason) =
    if is_terminal current.status
    then err (invalid_run current (run_cancelled reason) none)
    else (do
      blocked_reason ← non_empty reason "cancellation reason"
      ok (record current {
        status = cancelled;
        blocked_reason = some blocked_reason;
        updated_at = at;
      }))

unfoldable pub transition_run : RunState → RunTransition → Result RunState
transition_run current transition = do
  assert_forward_time current.updated_at transition.at
  apply_run_change current transition.at transition.change
