-- ===== src/Schemas.antt =====
-- The schemas that the stored states are checked against (isRunState, isStoryState and isAgentState
-- of src/domain/controller-state.ts). Of each schema, what the types do not already say.
use pi_agentworks.Prelude.{
  String, Bool, true, false, not, ◌&&◌, Option, none, some, List, [], ◌∷◌, all, ◌==◌, str_eq,
}
use pi_agentworks.Run.{ManagementPaneOrigin, RunState}
use pi_agentworks.Story.{
  StoryStatus, merged, blocked, failed, includes, StoryPlanningMetadata, Validation, StoryState,
}
use pi_agentworks.Agent.{AgentState}

-- NonEmptyStateString
abbrev pub is_non_empty : String → Bool
is_non_empty value = not (str_eq value "")

-- NullableStateString, and the optional fields of the same type.
abbrev pub is_nullable_string : Option String → Bool
is_nullable_string none = true
is_nullable_string (some value) = is_non_empty value

-- NonEmptyStateStringArray
abbrev pub is_non_empty_array : List String → Bool
is_non_empty_array [] = false
is_non_empty_array (value ∷ values) = all is_non_empty (value ∷ values)

abbrev pub is_validation : Validation → Bool
is_validation v = is_non_empty v.command && is_non_empty v.expected

abbrev pub is_validation_array : List Validation → Bool
is_validation_array [] = false
is_validation_array (v ∷ vs) = all is_validation (v ∷ vs)

unfoldable pub is_planning_metadata : Option StoryPlanningMetadata → Bool
is_planning_metadata none = true
is_planning_metadata (some m) =
    is_non_empty m.narrative
    && is_non_empty m.objective
    && is_non_empty_array m.task_kinds
    && is_non_empty_array m.scope.included
    && is_non_empty_array m.scope.excluded
    && is_non_empty_array m.technology_choices
    && is_non_empty_array m.constraints
    && all is_non_empty m.dependencies
    && is_non_empty_array m.deliverables
    && is_non_empty_array m.acceptance_criteria
    && is_validation_array m.validation
    && is_non_empty_array m.escalation_conditions

abbrev pub is_origin : Option ManagementPaneOrigin → Bool
is_origin none = true
is_origin (some o) = is_non_empty o.workspace_id && is_non_empty o.tab_id && is_non_empty o.pane_id

-- ResumableStoryStatusSchema
abbrev pub is_resumable : Option StoryStatus → Bool
is_resumable none = true
is_resumable (some status) = not (includes (merged ∷ blocked ∷ failed ∷ []) status)

unfoldable pub is_run_state : RunState → Bool
is_run_state run =
    run.schema_version == 2
    && is_non_empty run.id
    && is_non_empty run.title
    && is_non_empty run.repository_root
    && is_non_empty run.original_checkout
    && is_non_empty run.base_branch
    && is_nullable_string run.base_commit
    && is_non_empty run.integration_branch
    && is_non_empty run.integration_worktree
    && is_origin run.management_pane_origin
    && is_nullable_string run.blocked_reason

unfoldable pub is_story_state : StoryState → Bool
unfolding is_planning_metadata
is_story_state story =
    story.schema_version == 2
    && is_non_empty story.id
    && is_non_empty story.run_id
    && is_non_empty story.title
    && is_non_empty story.branch_name
    && is_non_empty story.worktree_path
    && is_planning_metadata story.planning
    && is_nullable_string story.assigned_agent_id
    && is_nullable_string story.candidate_story_head
    && is_nullable_string story.reviewed_integration_head
    && is_nullable_string story.reviewer_agent_id
    && is_nullable_string story.merge_head
    && is_nullable_string story.blocked_reason
    && is_resumable story.blocked_from

unfoldable pub is_agent_state : AgentState → Bool
is_agent_state agent =
    agent.schema_version == 2
    && is_non_empty agent.id
    && is_non_empty agent.run_id
    && is_non_empty agent.role_runtime_id
    && is_nullable_string agent.task_id
    && is_non_empty agent.worktree_path
    && is_nullable_string agent.pane_id
    && is_nullable_string agent.pi_session_path
    && is_nullable_string agent.current_operation
    && is_nullable_string agent.waiting_reason
    && is_nullable_string agent.blocked_reason
