-- ===== src/Story.antt =====
-- The story's state (StoryState, StoryPlanningMetadata, StoryTransition and createStoryState of
-- src/domain/controller-state.ts). The transitions are in Story/Change.
pub mod Change
pub mod Invariant
pub mod Review
pub mod Lifecycle
pub mod Lease
use pi_agentworks.Prelude.{
  ℕ, String, Bool, true, false, Option, none, some, List, [], ◌∷◌, ◌==◌, any,
}
use pi_agentworks.Errors.{Result, ok, ◌>>=◌, non_empty}
use pi_agentworks.Complexity.{ComplexityMode}

pub data StoryStatus : Type 0 where
  planned awaiting_approval ready assigned working : StoryStatus
  -- The writer's turn completed and the controller is awaiting submission.
  work_complete : StoryStatus
  awaiting_candidate awaiting_review changes_requested approved merging merged : StoryStatus
  blocked failed : StoryStatus

pub record Scope : Type 0 where
  pub included : List String
  pub excluded : List String

pub record Validation : Type 0 where
  pub command : String
  pub expected : String

pub record StoryPlanningMetadata : Type 0 where
  pub narrative : String
  pub objective : String
  pub task_kinds : List String
  pub writable : Bool
  pub scope : Scope
  pub technology_choices : List String
  pub constraints : List String
  pub dependencies : List String
  pub deliverables : List String
  pub acceptance_criteria : List String
  pub validation : List Validation
  pub escalation_conditions : List String

pub record StoryState : Type 0 where
  pub schema_version : ℕ
  pub id : String
  pub run_id : String
  pub title : String
  pub status : StoryStatus
  pub branch_name : String
  pub worktree_path : String
  pub planning : Option StoryPlanningMetadata
  pub assigned_agent_id : Option String
  pub candidate_story_head : Option String
  pub reviewed_integration_head : Option String
  pub reviewer_agent_id : Option String
  pub merge_head : Option String
  -- Present only after the controller's own cleanup of the workspace.
  pub workspace_cleaned : Bool
  pub blocked_reason : Option String
  pub blocked_from : Option StoryStatus
  pub created_at : ℕ
  pub updated_at : ℕ

-- What `createStoryState` is given: the state less the fields that it sets.
pub record StoryInput : Type 0 where
  pub id : String
  pub run_id : String
  pub title : String
  pub branch_name : String
  pub worktree_path : String
  pub planning : Option StoryPlanningMetadata
  pub workspace_cleaned : Bool
  pub created_at : ℕ

pub data StoryChange : Type 0 where
  story_prepared : (complexity : ComplexityMode) → StoryChange
  story_plan_approved story_plan_revision_requested : StoryChange
  story_assigned : (agent_id : String) → StoryChange
  story_work_started story_work_completed : StoryChange
  story_reassignment_requested : (reason : String) (writer_lease_released : Bool) → StoryChange
  candidate_requested : (writer_lease_released : Bool) → StoryChange
  candidate_created : (story_head integration_head : String) → StoryChange
  review_approved :
      (reviewer_agent_id story_head integration_head : String) (checks_passed : Bool) → StoryChange
  review_changes_requested : (reviewer_agent_id : String) → StoryChange
  review_invalidated : (integration_head : String) → StoryChange
  merge_started : StoryChange
  story_merged : (merge_head : String) → StoryChange
  story_blocked : (reason : String) → StoryChange
  story_resumed : StoryChange
  story_failed : (reason : String) → StoryChange

pub record StoryTransition : Type 0 where
  pub at : ℕ
  pub change : StoryChange

unfoldable pub status_name : StoryStatus → String
status_name planned = "planned"
status_name awaiting_approval = "awaiting-approval"
status_name ready = "ready"
status_name assigned = "assigned"
status_name working = "working"
status_name work_complete = "work-complete"
status_name awaiting_candidate = "awaiting-candidate"
status_name awaiting_review = "awaiting-review"
status_name changes_requested = "changes-requested"
status_name approved = "approved"
status_name merging = "merging"
status_name merged = "merged"
status_name blocked = "blocked"
status_name failed = "failed"

-- The place of a status among the literals of the union: equal places are equal statuses.
abbrev pub place : StoryStatus → ℕ
place planned = 0
place awaiting_approval = 1
place ready = 2
place assigned = 3
place working = 4
place work_complete = 5
place awaiting_candidate = 6
place awaiting_review = 7
place changes_requested = 8
place approved = 9
place merging = 10
place merged = 11
place blocked = 12
place failed = 13

-- `allowed.includes(status)`
abbrev pub includes : List StoryStatus → StoryStatus → Bool
includes allowed status = any (λ s. place s == place status) allowed

unfoldable pub create_story_state : StoryInput → Result StoryState
create_story_state input = do
  title ← non_empty input.title "story title"
  ok (record {
    schema_version = 2;
    id = input.id;
    run_id = input.run_id;
    title = title;
    status = planned;
    branch_name = input.branch_name;
    worktree_path = input.worktree_path;
    planning = input.planning;
    assigned_agent_id = none;
    candidate_story_head = none;
    reviewed_integration_head = none;
    reviewer_agent_id = none;
    merge_head = none;
    workspace_cleaned = input.workspace_cleaned;
    blocked_reason = none;
    blocked_from = none;
    created_at = input.created_at;
    updated_at = input.created_at;
  })
