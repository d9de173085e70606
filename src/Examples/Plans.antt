-- ===== src/Examples/Plans.antt =====
-- The theorems on the story plan, the scheduler and the orchestration tick, at plans of three stories.
use pi_agentworks.Prelude.{
  ℕ, ◌+◌, ◌-◌, ◌<◌, String, ◌≡◌, ◌≢◌, refl, ◌≢◌, ◌⊎◌, inl, inr, ◌↔◌, true, false, some, List, [],
  ◌∷◌, length, arith, In, take, str_eq, if◌then◌else◌, In-cons_cases, not_In_nil,
}
use pi_agentworks.Errors.{ok}
use pi_agentworks.Complexity.{low, get_complexity_policy}
use pi_agentworks.Story
use pi_agentworks.Scheduling.{
  running, SchedulableStory, SchedulingDecision, pending, done, failed, schedule_stories,
  index_stories, check_stories, check_dependencies, get, decide, pushed, judge,
  story_concurrency_cap,
}
use pi_agentworks.Scheduling.Startable.{CanStart}
use pi_agentworks.Scheduling.Decision.{startable_complete, deadlocked_iff}
use pi_agentworks.Orchestration.{
  OrchestrationStory, OrchestrationAction, assign_story, request_merge, complete_run,
  AgentLaunchCapacityDecision, reserve_agent_launch_capacity, reserve_all, reserve_one,
  is_agent_launch_action, action_type, plan_orchestration, proposed_actions, schedulable,
  scheduling_status, completion,
}
use pi_agentworks.Scheduling.{agent_capacity}
use pi_agentworks.Orchestration.Capacity.{launches, others, reserve_agent_launch_capacity_lem}
use pi_agentworks.Orchestration.Actions.{
  DependenciesMerged, assign_story_ready, request_merge_iff, complete_run_iff,
}
use pi_agentworks.StoryPlan.{
  UserStory, StoryPlanResult, ordered, plan_issues, id_issues, stories_issues, dependency_issues,
  includes, is_slug,
}
use pi_agentworks.StoryPlan.Order.{
  validate_and_order_stories, topological_order, order_loop, pass, visit, release, set, decrement,
  count_dependencies, size,
}
use pi_agentworks.StoryPlan.Counting.{Distinct}
use pi_agentworks.StoryPlan.Correct.{
  IsArrangement, validate_and_order_stories_total, validate_and_order_stories-IsArrangement,
  validate_and_order_stories_complete,
}

abbrev base_story : UserStory
base_story = record { id = "base"; writable = true; dependencies = [] }

abbrev top_story : UserStory
top_story = record { id = "top"; writable = false; dependencies = "base" ∷ [] }

abbrev plan : List UserStory
plan = top_story ∷ base_story ∷ []

planned : validate_and_order_stories plan ≡ some (ordered (base_story ∷ top_story ∷ []))
unfolding validate_and_order_stories topological_order order_loop pass visit release set decrement
    count_dependencies size plan_issues id_issues stories_issues dependency_issues includes is_slug
planned = refl

validate_and_order_stories-IsArrangement_example : IsArrangement plan (base_story ∷ top_story ∷ [])
validate_and_order_stories-IsArrangement_example =
    validate_and_order_stories-IsArrangement plan (base_story ∷ top_story ∷ []) planned

-- Two stories that depend on each other: the loop ends here too.
abbrev cyclic_plan : List UserStory
cyclic_plan = record base_story { dependencies = "top" ∷ [] } ∷ top_story ∷ []

validate_and_order_stories_total_example :
    (result : StoryPlanResult) × (validate_and_order_stories cyclic_plan ≡ some result)
validate_and_order_stories_total_example = validate_and_order_stories_total cyclic_plan

abbrev rank : String → ℕ
rank id = if str_eq id "top" then 1 else 0

no_issues : plan_issues plan ≡ []
unfolding plan_issues id_issues stories_issues dependency_issues includes is_slug
no_issues = refl

plan_singles : (t : UserStory) → In t plan → Distinct t.dependencies
plan_singles t i = elim (In-cons_cases i) [
  | inl same ↦ rw same (not_In_nil, tt)
  | inr j ↦ elim (In-cons_cases j) [ inl same ↦ rw same tt | inr k ↦ absurd (not_In_nil k) ]
]

plan_rises : (t : UserStory) → In t plan → (d : String) → In d t.dependencies → rank d < rank t.id
plan_rises t i d k = elim (In-cons_cases i) [
  | inl same ↦ elim (In-cons_cases (rw same at k)) [
    | inl base ↦ rw (same, base) (omega arith)
    | inr none_left ↦ absurd (not_In_nil none_left)
  ]
  | inr j ↦ elim (In-cons_cases j) [
    | inl same ↦ absurd (not_In_nil (rw same at k))
    | inr none_left ↦ absurd (not_In_nil none_left)
  ]
]

validate_and_order_stories_complete_example :
    (os : List UserStory) × (validate_and_order_stories plan ≡ some (ordered os))
validate_and_order_stories_complete_example =
    validate_and_order_stories_complete top_story (base_story ∷ []) rank no_issues plan_singles
      plan_rises

abbrev done_story : SchedulableStory
done_story = record { id = "a"; dependencies = []; status = done }

abbrev next_story : SchedulableStory
next_story = record { id = "b"; dependencies = "a" ∷ []; status = pending }

abbrev lost_story : SchedulableStory
lost_story = record { id = "c"; dependencies = []; status = failed }

abbrev stuck_story : SchedulableStory
stuck_story = record { id = "d"; dependencies = "c" ∷ []; status = pending }

abbrev queue : List SchedulableStory
queue = done_story ∷ next_story ∷ lost_story ∷ stuck_story ∷ []

abbrev decision : SchedulingDecision
decision = record {
  startable = "b" ∷ [];
  blocked = "d" ∷ [];
  running_count = 0;
  capacity = 2;
  deadlocked = false;
}

decided : schedule_stories queue 2 ≡ ok decision
unfolding schedule_stories index_stories check_stories check_dependencies get decide pushed judge
decided = refl

next-CanStart : CanStart queue next_story
next-CanStart = record { waiting = refl; ready = ((done_story, In.here, refl, refl), tt) }

startable_complete_example : In "b" decision.startable
startable_complete_example =
    startable_complete queue 2 decided (omega arith) next_story (In.there In.here) next-CanStart

deadlocked_iff_example : (decision.deadlocked ≡ true) ↔ (
    ((s : SchedulableStory) × In s queue × (s.status ≡ pending))
    × ((s : SchedulableStory) → In s queue → s.status ≢ running)
    × ((s : SchedulableStory) → In s queue → ¬ (CanStart queue s)))
deadlocked_iff_example = deadlocked_iff queue 2 decided

abbrev wishes : List OrchestrationAction
wishes = assign_story "a" ∷ request_merge "b" ∷ assign_story "c" ∷ []

abbrev granted : AgentLaunchCapacityDecision
granted = record {
  actions = assign_story "a" ∷ request_merge "b" ∷ [];
  occupied = 3;
  reserved = 1;
  remaining = 0;
}

granting : reserve_agent_launch_capacity wishes low 3 ≡ ok granted
unfolding reserve_agent_launch_capacity agent_capacity reserve_all reserve_one
    is_agent_launch_action action_type get_complexity_policy
granting = refl

reserve_agent_launch_capacity_lem_example :
    let free = (get_complexity_policy low).maximum_agents - 3 in
    (launches granted.actions ≡ take free (launches wishes))
    × (others granted.actions ≡ others wishes)
    × (granted.reserved ≡ length (launches granted.actions))
    × (granted.reserved + granted.remaining ≡ free)
reserve_agent_launch_capacity_lem_example = reserve_agent_launch_capacity_lem wishes low 3 granting

abbrev merged_story : OrchestrationStory
merged_story = record {
  id = "a";
  status = Story.merged;
  dependencies = [];
  reviewer_assigned = true;
  reviewer_closed = true;
  workspace_cleaned = true;
}

abbrev approved_story : OrchestrationStory
approved_story = record {
  id = "b";
  status = Story.approved;
  dependencies = [];
  reviewer_assigned = true;
  reviewer_closed = true;
  workspace_cleaned = false;
}

abbrev ready_story : OrchestrationStory
ready_story = record {
  id = "c";
  status = Story.ready;
  dependencies = "a" ∷ [];
  reviewer_assigned = false;
  reviewer_closed = false;
  workspace_cleaned = false;
}

abbrev tick : List OrchestrationStory
tick = merged_story ∷ approved_story ∷ ready_story ∷ []

abbrev actions : List OrchestrationAction
actions = request_merge "b" ∷ assign_story "c" ∷ []

ticked : plan_orchestration tick low 3 ≡ ok actions
unfolding plan_orchestration proposed_actions schedule_stories index_stories check_stories
    check_dependencies get decide pushed judge story_concurrency_cap reserve_agent_launch_capacity
    agent_capacity reserve_all reserve_one is_agent_launch_action action_type get_complexity_policy
    schedulable scheduling_status completion
ticked = refl

assign_story_ready_example :
    (s : OrchestrationStory) × In s tick
    × (s.id ≡ "c")
    × ((s.status ≡ Story.ready) ⊎ (s.status ≡ Story.changes_requested))
    × DependenciesMerged tick s
assign_story_ready_example = assign_story_ready tick low 3 ticked "c" (In.there In.here)

request_merge_iff_example : In (request_merge "b") actions ↔ (
    (s : OrchestrationStory) × In s tick
    × (s.id ≡ "b")
    × (s.status ≡ Story.approved)
    × (s.reviewer_closed ≡ true))
request_merge_iff_example = request_merge_iff tick low 3 ticked "b"

complete_run_iff_example :
    In complete_run actions
    ↔ ((tick ≢ []) × ((s : OrchestrationStory) → In s tick → s.status ≡ Story.merged))
complete_run_iff_example = complete_run_iff tick low 3 ticked
