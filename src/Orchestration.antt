-- ===== src/Orchestration.antt =====
-- The next actions of a run (src/domain/orchestration.ts).
pub mod Capacity
pub mod Plan
pub mod Actions
use Prim.Native.String
use pi_agentworks.Prelude.{
  ℕ, suc, ◌+◌, ◌-◌, String, Bool, true, false, not, ◌&&◌, List, [], ◌∷◌, ◌++◌, map, filter, all,
  if◌then◌else◌, ◌==◌, starts_with,
}
use pi_agentworks.Errors.{Result, ok, ◌>>=◌}
use pi_agentworks.Complexity.{ComplexityMode}
use pi_agentworks.Story.{
  StoryStatus, ready, awaiting_review, changes_requested, approved, merged, blocked, failed,
}
use pi_agentworks.Scheduling
use pi_agentworks.Scheduling.{
  StorySchedulingStatus, SchedulableStory, agent_capacity, schedule_stories, story_concurrency_cap,
  is_empty,
}

-- The story facts that the tick needs.
pub record OrchestrationStory : Type 0 where
  pub id : String
  pub status : StoryStatus
  pub dependencies : List String
  pub reviewer_assigned : Bool
  pub reviewer_closed : Bool
  pub workspace_cleaned : Bool

pub data OrchestrationAction : Type 0 where
  assign_project_manager assign_advisor assign_story assign_reviewer :
      (story_id : String) → OrchestrationAction
  request_merge request_cleanup : (story_id : String) → OrchestrationAction
  complete_run : OrchestrationAction

unfoldable pub action_type : OrchestrationAction → String
action_type (assign_project_manager story_id) = "assign-project-manager"
action_type (assign_advisor story_id) = "assign-advisor"
action_type (assign_story story_id) = "assign-story"
action_type (assign_reviewer story_id) = "assign-reviewer"
action_type (request_merge story_id) = "request-merge"
action_type (request_cleanup story_id) = "request-cleanup"
action_type complete_run = "complete-run"

unfoldable pub is_agent_launch_action : OrchestrationAction → Bool
unfolding action_type
is_agent_launch_action action = starts_with (action_type action) "assign-"

pub record AgentLaunchCapacityDecision : Type 0 where
  pub actions : List OrchestrationAction
  pub occupied : ℕ
  pub reserved : ℕ
  pub remaining : ℕ

-- What the loop of `reserveAgentLaunchCapacity` carries.
pub record Reservation : Type 0 where
  pub admitted : List OrchestrationAction
  pub reserved : ℕ
  pub remaining : ℕ

-- One round of the loop; `admitted.push(action)` appends.
unfoldable pub reserve_one : Reservation → OrchestrationAction → Reservation
reserve_one r action =
    let admitted = r.admitted ++ action ∷ [] in
    if not (is_agent_launch_action action)
    then record r { admitted = admitted }
    else (if r.remaining == 0 then r else record r {
      admitted = admitted;
      reserved = r.reserved + 1;
      remaining = r.remaining - 1;
    })

unfoldable pub reserve_all : Reservation → List OrchestrationAction → Reservation
reserve_all r [] = r
reserve_all r (action ∷ actions) = reserve_all (reserve_one r action) actions

unfoldable pub reserve_agent_launch_capacity :
    List OrchestrationAction → ComplexityMode → ℕ → Result AgentLaunchCapacityDecision
reserve_agent_launch_capacity actions mode occupied_agent_slots = do
  capacity ← agent_capacity mode occupied_agent_slots
  let r =
      reserve_all (record { admitted = []; reserved = 0; remaining = capacity.available }) actions
  ok (record {
    actions = r.admitted;
    occupied = capacity.occupied;
    reserved = r.reserved;
    remaining = r.remaining;
  })

unfoldable pub scheduling_status : StoryStatus → StorySchedulingStatus
scheduling_status merged = Scheduling.done
scheduling_status failed = Scheduling.failed
scheduling_status blocked = Scheduling.failed
scheduling_status ready = Scheduling.pending
scheduling_status changes_requested = Scheduling.pending
scheduling_status _ = Scheduling.running

-- The tests of the three loops over the stories, and that of the run's completion.
abbrev pub is_merged : StoryStatus → Bool
is_merged merged = true
is_merged _ = false

abbrev pub is_approved : StoryStatus → Bool
is_approved approved = true
is_approved _ = false

abbrev pub is_awaiting_review : StoryStatus → Bool
is_awaiting_review awaiting_review = true
is_awaiting_review _ = false

abbrev pub wants_cleanup : OrchestrationStory → Bool
wants_cleanup story = is_merged story.status && not story.workspace_cleaned

abbrev pub wants_merge : OrchestrationStory → Bool
wants_merge story = is_approved story.status && story.reviewer_closed

abbrev pub wants_reviewer : OrchestrationStory → Bool
wants_reviewer story = is_awaiting_review story.status && not story.reviewer_assigned

-- One of those loops: an action for each story that passes the test, in the order of the input.
abbrev pub actions_for :
    (OrchestrationStory → Bool)
    → (String → OrchestrationAction)
    → List OrchestrationStory
    → List OrchestrationAction
actions_for wanted action stories = map (λ story. action story.id) (filter wanted stories)

unfoldable pub schedulable : OrchestrationStory → SchedulableStory
unfolding scheduling_status
schedulable story = record {
  id = story.id;
  dependencies = story.dependencies;
  status = scheduling_status story.status;
}

unfoldable pub completion : List OrchestrationStory → List OrchestrationAction
completion stories =
    if not (is_empty stories) && all (λ story. is_merged story.status) stories
    then complete_run ∷ []
    else []

-- The actions before the limit on agents is applied.
unfoldable pub proposed_actions :
    List OrchestrationStory → ComplexityMode → Result (List OrchestrationAction)
proposed_actions stories mode = do
  decision ← schedule_stories (map schedulable stories) (story_concurrency_cap mode)
  ok (
      actions_for wants_cleanup request_cleanup stories
      ++ (actions_for wants_merge request_merge stories
          ++ (actions_for wants_reviewer assign_reviewer stories
              ++ (map assign_story decision.startable ++ completion stories))))

unfoldable pub plan_orchestration :
    List OrchestrationStory → ComplexityMode → ℕ → Result (List OrchestrationAction)
plan_orchestration stories mode occupied_agent_slots = do
  actions ← proposed_actions stories mode
  decision ← reserve_agent_launch_capacity actions mode occupied_agent_slots
  ok decision.actions
