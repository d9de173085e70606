-- ===== src/Story/Change.antt =====
-- The transitions of a story (transitionStory of src/domain/controller-state.ts).
use pi_agentworks.Prelude.{
  ℕ, String, Bool, false, Option, none, some, List, [], ◌∷◌, if◌then◌else◌, str_eq,
}
use pi_agentworks.Errors.{
  story, Error, invalid, Result, ok, err, ◌>>=◌, ◌>>◌, guard, non_empty, assert_forward_time,
}
use pi_agentworks.Complexity.{get_complexity_policy}
use pi_agentworks.Story.{
  StoryStatus, planned, awaiting_approval, ready, assigned, working, work_complete,
  awaiting_candidate, awaiting_review, changes_requested, approved, merging, merged, blocked,
  failed, StoryState, StoryChange, story_prepared, story_plan_approved,
  story_plan_revision_requested, story_assigned, story_work_started, story_work_completed,
  story_reassignment_requested, candidate_requested, candidate_created, review_approved,
  review_changes_requested, review_invalidated, merge_started, story_merged, story_blocked,
  story_resumed, story_failed, StoryTransition, status_name, includes,
}

unfoldable pub change_type : StoryChange → String
change_type (story_prepared complexity) = "story-prepared"
change_type story_plan_approved = "story-plan-approved"
change_type story_plan_revision_requested = "story-plan-revision-requested"
change_type (story_assigned agent_id) = "story-assigned"
change_type story_work_started = "story-work-started"
change_type story_work_completed = "story-work-completed"
change_type (story_reassignment_requested reason writer_lease_released) =
    "story-reassignment-requested"
change_type (candidate_requested writer_lease_released) = "candidate-requested"
change_type (candidate_created story_head integration_head) = "candidate-created"
change_type (review_approved reviewer_agent_id story_head integration_head checks_passed) =
    "review-approved"
change_type (review_changes_requested reviewer_agent_id) = "review-changes-requested"
change_type (review_invalidated integration_head) = "review-invalidated"
change_type merge_started = "merge-started"
change_type (story_merged merge_head) = "story-merged"
change_type (story_blocked reason) = "story-blocked"
change_type story_resumed = "story-resumed"
change_type (story_failed reason) = "story-failed"

-- `invalid("story", current.status, transition, reason)`
unfoldable pub invalid_story : StoryState → StoryChange → Option String → Error
invalid_story current change reason =
    invalid story (status_name current.status) (change_type change) reason

abbrev pub assert_story_status : StoryState → StoryChange → List StoryStatus → Result (Unit {0})
assert_story_status current change allowed =
    guard (includes allowed current.status) (invalid_story current change none)

-- `head === value`, where the head may be null.
abbrev pub head_is : Option String → String → Bool
head_is none value = false
head_is (some head) value = str_eq head value

unfoldable pub request_reassignment : StoryState → ℕ → String → Bool → Result StoryState
request_reassignment current at reason writer_lease_released = do
  let change = story_reassignment_requested reason writer_lease_released
  assert_story_status current change
      (assigned ∷ working ∷ work_complete ∷ awaiting_candidate ∷ changes_requested ∷ [])
  guard writer_lease_released (invalid_story current change (some "writer lease is still active"))
  _ ← non_empty reason "reassignment reason"
  ok (record current {
    status = ready;
    assigned_agent_id = none;
    candidate_story_head = none;
    reviewed_integration_head = none;
    reviewer_agent_id = none;
    blocked_reason = none;
    updated_at = at;
  })

-- The review is accepted for the very heads that the candidate was created with.
unfoldable pub approve_review : StoryState → ℕ → String → String → String → Bool → Result StoryState
approve_review current at reviewer_agent_id story_head integration_head checks_passed = do
  let change = review_approved reviewer_agent_id story_head integration_head checks_passed
  assert_story_status current change (awaiting_review ∷ [])
  guard checks_passed (invalid_story current change (some "required checks did not pass"))
  guard (head_is current.candidate_story_head story_head)
      (invalid_story current change (some "reviewed story HEAD does not match candidate"))
  guard (head_is current.reviewed_integration_head integration_head) (
      invalid_story current change (some "reviewed integration HEAD does not match candidate base"))
  reviewer ← non_empty reviewer_agent_id "reviewer agent id"
  ok (record current { status = approved; reviewer_agent_id = some reviewer; updated_at = at })

unfoldable pub resume_story : StoryState → ℕ → Result StoryState
resume_story current at = do
  assert_story_status current story_resumed (blocked ∷ [])
  elim current.blocked_from [
    | none ↦ err (invalid_story current story_resumed (some "blocked origin is missing"))
    | some origin ↦ ok (record current {
      status = origin;
      blocked_from = none;
      blocked_reason = none;
      updated_at = at;
    })
  ]

-- The cases of the `switch`.
unfoldable pub apply_story_change : StoryState → ℕ → StoryChange → Result StoryState
unfolding request_reassignment approve_review resume_story
apply_story_change current at (story_prepared complexity) = do
  assert_story_status current (story_prepared complexity) (planned ∷ [])
  let policy = get_complexity_policy complexity
  ok (record current {
    status = if policy.requires_plan_confirmation then awaiting_approval else ready;
    updated_at = at;
  })
apply_story_change current at story_plan_approved = do
  assert_story_status current story_plan_approved (awaiting_approval ∷ [])
  ok (record current { status = ready; updated_at = at })
apply_story_change current at story_plan_revision_requested = do
  assert_story_status current story_plan_revision_requested (awaiting_approval ∷ [])
  ok (record current { status = planned; updated_at = at })
apply_story_change current at (story_assigned agent_id) = do
  assert_story_status current (story_assigned agent_id) (ready ∷ [])
  assigned_agent_id ← non_empty agent_id "assigned agent id"
  ok (record current {
    status = assigned;
    assigned_agent_id = some assigned_agent_id;
    updated_at = at;
  })
apply_story_change current at story_work_started = do
  assert_story_status current story_work_started (assigned ∷ changes_requested ∷ work_complete ∷ [])
  ok (record current {
    status = working;
    candidate_story_head = none;
    reviewed_integration_head = none;
    reviewer_agent_id = none;
    updated_at = at;
  })
apply_story_change current at story_work_completed = do
  assert_story_status current story_work_completed (working ∷ [])
  ok (record current { status = work_complete; updated_at = at })
apply_story_change current at (story_reassignment_requested reason writer_lease_released) =
    request_reassignment current at reason writer_lease_released
apply_story_change current at (candidate_requested writer_lease_released) = do
  assert_story_status current (candidate_requested writer_lease_released)
      (working ∷ work_complete ∷ [])
  guard writer_lease_released (
      invalid_story current (candidate_requested writer_lease_released)
        (some "writer lease is still active"))
  ok (record current { status = awaiting_candidate; updated_at = at })
apply_story_change current at (candidate_created story_head integration_head) = do
  assert_story_status current (candidate_created story_head integration_head)
      (awaiting_candidate ∷ [])
  candidate ← non_empty story_head "story HEAD"
  integration ← non_empty integration_head "integration HEAD"
  ok (record current {
    status = awaiting_review;
    candidate_story_head = some candidate;
    reviewed_integration_head = some integration;
    reviewer_agent_id = none;
    updated_at = at;
  })
apply_story_change current at
      (review_approved reviewer_agent_id story_head integration_head checks_passed) =
    approve_review current at reviewer_agent_id story_head integration_head checks_passed
apply_story_change current at (review_changes_requested reviewer_agent_id) = do
  assert_story_status current (review_changes_requested reviewer_agent_id) (awaiting_review ∷ [])
  reviewer ← non_empty reviewer_agent_id "reviewer agent id"
  ok (record current {
    status = changes_requested;
    reviewer_agent_id = some reviewer;
    updated_at = at;
  })
apply_story_change current at (review_invalidated integration_head) = do
  assert_story_status current (review_invalidated integration_head)
      (awaiting_review ∷ approved ∷ [])
  integration ← non_empty integration_head "integration HEAD"
  ok (record current {
    status = awaiting_review;
    reviewed_integration_head = some integration;
    reviewer_agent_id = none;
    updated_at = at;
  })
apply_story_change current at merge_started = do
  assert_story_status current merge_started (approved ∷ [])
  ok (record current { status = merging; updated_at = at })
apply_story_change current at (story_merged merge_head) = do
  assert_story_status current (story_merged merge_head) (merging ∷ [])
  head ← non_empty merge_head "merge HEAD"
  ok (record current { status = merged; merge_head = some head; updated_at = at })
apply_story_change current at (story_blocked reason) =
    if includes (blocked ∷ merged ∷ failed ∷ []) current.status
    then err (invalid_story current (story_blocked reason) none)
    else (do
      blocked_reason ← non_empty reason "blocked reason"
      ok (record current {
        status = blocked;
        blocked_from = some current.status;
        blocked_reason = some blocked_reason;
        updated_at = at;
      }))
apply_story_change current at story_resumed = resume_story current at
apply_story_change current at (story_failed reason) =
    if includes (merged ∷ failed ∷ []) current.status
    then err (invalid_story current (story_failed reason) none)
    else (do
      blocked_reason ← non_empty reason "failure reason"
      ok (record current {
        status = failed;
        blocked_reason = some blocked_reason;
        updated_at = at;
      }))

unfoldable pub transition_story : StoryState → StoryTransition → Result StoryState
transition_story current transition = do
  assert_forward_time current.updated_at transition.at
  apply_story_change current transition.at transition.change
