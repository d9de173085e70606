-- ===== src/Story/Invariant.antt =====
-- What holds of every story state: which fields are recorded at which stage.
use pi_agentworks.Prelude.{
  ℕ, ◌≤◌, ◌≡◌, ◌≢◌, ◌∙◌, Bool, true, false, Option, none, some, List, arith, is_some,
}
use pi_agentworks.Errors.{
  ok, assert_forward_time, non_empty-cases, assert_forward_time-eq-ok, >>=-eq-ok,
}
use pi_agentworks.Story.{
  StoryStatus, planned, awaiting_approval, ready, awaiting_review, changes_requested, approved,
  merging, merged, blocked, failed, StoryState, StoryInput, StoryChange, story_assigned,
  story_reassignment_requested, candidate_created, review_approved, review_changes_requested,
  review_invalidated, story_merged, story_blocked, story_failed, StoryTransition,
  create_story_state, story_prepared,
}
use pi_agentworks.Story.Change.{apply_story_change, transition_story}
use pi_agentworks.Trace.{replay, replay_inv}

-- The status that the work has reached: of a blocked story, the one that it was blocked from.
abbrev pub stage_of : StoryStatus → Option StoryStatus → StoryStatus
stage_of blocked (some origin) = origin
stage_of status _ = status

abbrev pub stage : StoryState → StoryStatus
stage s = stage_of s.status s.blocked_from

abbrev pub has_agent : StoryStatus → Bool
has_agent planned = false
has_agent awaiting_approval = false
has_agent ready = false
has_agent _ = true

abbrev pub has_candidate : StoryStatus → Bool
has_candidate awaiting_review = true
has_candidate changes_requested = true
has_candidate approved = true
has_candidate merging = true
has_candidate merged = true
has_candidate _ = false

abbrev pub has_reviewer : StoryStatus → Bool
has_reviewer changes_requested = true
has_reviewer approved = true
has_reviewer merging = true
has_reviewer merged = true
has_reviewer _ = false

abbrev pub is_merged : StoryStatus → Bool
is_merged merged = true
is_merged _ = false

abbrev pub has_reason : StoryStatus → Bool
has_reason blocked = true
has_reason failed = true
has_reason _ = false

-- A blocked story remembers a status to go back to, which a failed one may still hold.
abbrev pub origin_fits : StoryStatus → Option StoryStatus → Bool
origin_fits blocked none = false
origin_fits _ none = true
origin_fits _ (some blocked) = false
origin_fits _ (some merged) = false
origin_fits _ (some failed) = false
origin_fits blocked (some _) = true
origin_fits failed (some _) = true
origin_fits _ (some _) = false

-- Which fields are recorded, exactly, at each stage. A failed story keeps what it had.
pub record IsRecorded (s : StoryState) : Type 0 where
  pub origin : origin_fits s.status s.blocked_from ≡ true
  pub agent : s.status ≢ failed → is_some s.assigned_agent_id ≡ has_agent (stage s)
  pub candidate : s.status ≢ failed → is_some s.candidate_story_head ≡ has_candidate (stage s)
  pub integration :
      s.status ≢ failed → is_some s.reviewed_integration_head ≡ has_candidate (stage s)
  pub reviewer : s.status ≢ failed → is_some s.reviewer_agent_id ≡ has_reviewer (stage s)
  pub merge : is_some s.merge_head ≡ is_merged s.status
  pub reason : is_some s.blocked_reason ≡ has_reason s.status

apply_story_change-IsRecorded :
    (s : StoryState) (at : ℕ) (c : StoryChange) {t : StoryState}
    → IsRecorded s
    → apply_story_change s at c ≡ ok t
    → IsRecorded t
unfolding apply_story_change
apply_story_change-IsRecorded s at (story_prepared m) w h = ground arith
apply_story_change-IsRecorded s at (story_assigned a) w h =
    ground (arith, non_empty-cases a "assigned agent id")
apply_story_change-IsRecorded s at (story_reassignment_requested r l) w h =
    ground (arith, non_empty-cases r "reassignment reason")
apply_story_change-IsRecorded s at (candidate_created a b) w h =
    ground (arith, non_empty-cases a "story HEAD", non_empty-cases b "integration HEAD")
apply_story_change-IsRecorded s at (review_approved r a b k) w h =
    ground (arith, non_empty-cases r "reviewer agent id")
apply_story_change-IsRecorded s at (review_changes_requested r) w h =
    ground (arith, non_empty-cases r "reviewer agent id")
apply_story_change-IsRecorded s at (review_invalidated a) w h =
    ground (arith, non_empty-cases a "integration HEAD")
apply_story_change-IsRecorded s at (story_merged a) w h =
    ground (arith, non_empty-cases a "merge HEAD")
apply_story_change-IsRecorded s at (story_blocked r) w h =
    ground (arith, non_empty-cases r "blocked reason")
apply_story_change-IsRecorded s at (story_failed r) w h =
    ground (arith, non_empty-cases r "failure reason")
apply_story_change-IsRecorded s at c w h = ground arith

-- The fields that identify a story, and the plan that it was made from.
pub record SameStory (s t : StoryState) : Type 0 where
  pub schema_version : t.schema_version ≡ s.schema_version
  pub id : t.id ≡ s.id
  pub run_id : t.run_id ≡ s.run_id
  pub title : t.title ≡ s.title
  pub branch_name : t.branch_name ≡ s.branch_name
  pub worktree_path : t.worktree_path ≡ s.worktree_path
  pub planning : t.planning ≡ s.planning
  pub workspace_cleaned : t.workspace_cleaned ≡ s.workspace_cleaned
  pub created_at : t.created_at ≡ s.created_at

apply_story_change-SameStory :
    (s : StoryState) (at : ℕ) (c : StoryChange) {t : StoryState}
    → apply_story_change s at c ≡ ok t
    → SameStory s t × (t.updated_at ≡ at)
unfolding apply_story_change
apply_story_change-SameStory s at (story_prepared m) h = ground arith
apply_story_change-SameStory s at c h = ground arith

pub record IsWellFormed (s : StoryState) : Type 0 where
  pub version : s.schema_version ≡ 2
  pub titled : s.title ≢ ""
  pub time_ordered : s.created_at ≤ s.updated_at
  pub recorded : IsRecorded s

-- A story that is created is planned, with nothing recorded.
pub create_story_state-IsWellFormed :
    (input : StoryInput) {s : StoryState} → create_story_state input ≡ ok s → IsWellFormed s
unfolding create_story_state
create_story_state-IsWellFormed input h = ground (arith, non_empty-cases input.title "story title")

-- Every transition that is accepted keeps a well-formed story well formed, keeps each field that
-- identifies the story, and sets its time to the transition's, which is not before the old one.
pub transition_story-IsWellFormed :
    (s : StoryState) (tr : StoryTransition) {t : StoryState}
    → IsWellFormed s
    → transition_story s tr ≡ ok t
    → IsWellFormed t × SameStory s t × (t.updated_at ≡ tr.at) × (s.updated_at ≤ t.updated_at)
unfolding transition_story
transition_story-IsWellFormed s tr w h =
    let (u, timely, changed) = >>=-eq-ok (assert_forward_time s.updated_at tr.at) _ h in
    let (same, time) = apply_story_change-SameStory s tr.at tr.change changed in
    let (forward, safe) = assert_forward_time-eq-ok s.updated_at tr.at timely in
    (
      record {
        version = same.schema_version ∙ w.version;
        titled = rw same.title w.titled;
        time_ordered = omega (arith, same.created_at, time, w.time_ordered, forward);
        recorded = apply_story_change-IsRecorded s tr.at tr.change w.recorded changed;
      },
      same,
      time,
      omega (arith, time, forward),
    )

pub replay-IsWellFormed :
    (s : StoryState) (trs : List StoryTransition) {t : StoryState}
    → IsWellFormed s
    → replay transition_story s trs ≡ ok t
    → IsWellFormed t
replay-IsWellFormed =
    replay_inv transition_story IsWellFormed
      (λ s tr t w h. (transition_story-IsWellFormed s tr w h).0)
