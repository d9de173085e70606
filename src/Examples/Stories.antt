-- ===== src/Examples/Stories.antt =====
-- The theorems on stories, at a story that is approved, sent back and merged.
use pi_agentworks.Prelude.{◌≡◌, refl, true, false, none, some, List, [], ◌∷◌, arith, In, ◌≤◌, trim}
use pi_agentworks.Errors.{ok, value_or, non_empty, assert_forward_time}
use pi_agentworks.Complexity.{high, get_complexity_policy}
use pi_agentworks.Story.{
  StoryState, StoryInput, StoryTransition, story_prepared, story_assigned, story_work_started,
  candidate_requested, candidate_created, review_approved, merge_started, story_merged,
  story_blocked, story_resumed, planned, merged, create_story_state,
}
use pi_agentworks.Story.Change.{transition_story, apply_story_change}
use pi_agentworks.Story.Invariant.{
  IsWellFormed, SameStory, create_story_state-IsWellFormed, transition_story-IsWellFormed,
}
use pi_agentworks.Story.Review.{Evidence, replay_needs_review}
use pi_agentworks.Story.Lease.{replay_needs_release}
use pi_agentworks.Story.Lifecycle.{story_block-resume}
use pi_agentworks.Trace.{replay}

abbrev input : StoryInput
input = record {
  id = "s1";
  run_id = "r1";
  title = "Parser";
  branch_name = "story/s1";
  worktree_path = "/w/s1";
  planning = none;
  workspace_cleaned = false;
  created_at = 5;
}

abbrev new_story : StoryState
new_story = record {
  schema_version = 2;
  id = "s1";
  run_id = "r1";
  title = "Parser";
  status = planned;
  branch_name = "story/s1";
  worktree_path = "/w/s1";
  planning = none;
  assigned_agent_id = none;
  candidate_story_head = none;
  reviewed_integration_head = none;
  reviewer_agent_id = none;
  merge_head = none;
  workspace_cleaned = false;
  blocked_reason = none;
  blocked_from = none;
  created_at = 5;
  updated_at = 5;
}

abbrev steps : List StoryTransition
steps =
    record { at = 6; change = story_prepared high }
    ∷ record { at = 7; change = story_assigned "writer" }
    ∷ record { at = 8; change = story_work_started }
    ∷ record { at = 9; change = candidate_requested true }
    ∷ record { at = 10; change = candidate_created "aa" "bb" }
    ∷ record { at = 11; change = review_approved "reviewer" "aa" "bb" true }
    ∷ record { at = 12; change = merge_started }
    ∷ record { at = 13; change = story_merged "cc" }
    ∷ []

abbrev merged_story : StoryState
merged_story = record new_story {
  status = merged;
  assigned_agent_id = some "writer";
  candidate_story_head = some "aa";
  reviewed_integration_head = some "bb";
  reviewer_agent_id = some "reviewer";
  merge_head = some "cc";
  updated_at = 13;
}

created : create_story_state input ≡ ok new_story
unfolding create_story_state non_empty trim
created = refl

replayed : replay transition_story new_story steps ≡ ok merged_story
unfolding replay transition_story apply_story_change non_empty trim assert_forward_time
    get_complexity_policy
replayed = refl

replay_needs_review_example : Evidence steps merged_story
replay_needs_review_example = replay_needs_review input steps created replayed refl

replay_needs_release_example :
    (tr : StoryTransition) × In tr steps × (tr.change ≡ candidate_requested true)
replay_needs_release_example = replay_needs_release input steps created replayed refl

abbrev prepared : StoryState
prepared =
    value_or (transition_story new_story (record { at = 6; change = story_prepared high }))
      new_story

first_step :
    transition_story new_story (record { at = 6; change = story_prepared high }) ≡ ok prepared
unfolding transition_story apply_story_change assert_forward_time get_complexity_policy
first_step = refl

transition_story-IsWellFormed_example :
    IsWellFormed prepared
    × SameStory new_story prepared
    × (prepared.updated_at ≡ 6)
    × (5 ≤ prepared.updated_at)
transition_story-IsWellFormed_example =
    transition_story-IsWellFormed new_story (record { at = 6; change = story_prepared high })
      (create_story_state-IsWellFormed input created) first_step

story_block-resume_example :
    replay transition_story new_story (
      record { at = 6; change = story_blocked "no network" }
      ∷ record { at = 9; change = story_resumed }
      ∷ [])
    ≡ ok (record new_story { updated_at = 9 })
unfolding trim
story_block-resume_example =
    story_block-resume new_story "no network" 6 9 refl refl refl (omega arith) (omega arith)
      (omega arith) (cc)
