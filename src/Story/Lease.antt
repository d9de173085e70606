-- ===== src/Story/Lease.antt =====
-- The controller takes a candidate only once the writer's lease is released.
use pi_agentworks.Prelude.{ℕ, ◌≡◌, ◌⊎◌, inl, inr, Bool, true, false, List, arith, In}
use pi_agentworks.Errors.{ok, assert_forward_time, non_empty-cases, >>=-eq-ok}
use pi_agentworks.Story.{
  StoryStatus, awaiting_candidate, awaiting_review, changes_requested, approved, merging, merged,
  StoryState, StoryInput, StoryChange, story_prepared, story_assigned, story_reassignment_requested,
  candidate_requested, candidate_created, review_approved, review_changes_requested,
  review_invalidated, story_merged, story_blocked, story_failed, StoryTransition,
  create_story_state,
}
use pi_agentworks.Story.Change.{apply_story_change, transition_story}
use pi_agentworks.Story.Invariant.{stage}
use pi_agentworks.Trace.{replay, replay_witness}

-- The stages from the request for a candidate on.
abbrev pub is_submitted : StoryStatus → Bool
is_submitted awaiting_candidate = true
is_submitted awaiting_review = true
is_submitted changes_requested = true
is_submitted approved = true
is_submitted merging = true
is_submitted merged = true
is_submitted _ = false

apply_story_change-unsubmitted :
    (s : StoryState) (at : ℕ) (c : StoryChange) {t : StoryState}
    → is_submitted (stage s) ≡ false
    → apply_story_change s at c ≡ ok t
    → (c ≡ candidate_requested true) ⊎ (is_submitted (stage t) ≡ false)
unfolding apply_story_change
apply_story_change-unsubmitted s at (story_prepared m) w h = ground arith
apply_story_change-unsubmitted s at (story_assigned a) w h =
    ground (arith, non_empty-cases a "assigned agent id")
apply_story_change-unsubmitted s at (story_reassignment_requested r l) w h =
    ground (arith, non_empty-cases r "reassignment reason")
apply_story_change-unsubmitted s at (candidate_created a b) w h =
    ground (arith, non_empty-cases a "story HEAD", non_empty-cases b "integration HEAD")
apply_story_change-unsubmitted s at (review_approved r a b k) w h =
    ground (arith, non_empty-cases r "reviewer agent id")
apply_story_change-unsubmitted s at (review_changes_requested r) w h =
    ground (arith, non_empty-cases r "reviewer agent id")
apply_story_change-unsubmitted s at (review_invalidated a) w h =
    ground (arith, non_empty-cases a "integration HEAD")
apply_story_change-unsubmitted s at (story_merged a) w h =
    ground (arith, non_empty-cases a "merge HEAD")
apply_story_change-unsubmitted s at (story_blocked r) w h =
    ground (arith, non_empty-cases r "blocked reason")
apply_story_change-unsubmitted s at (story_failed r) w h =
    ground (arith, non_empty-cases r "failure reason")
apply_story_change-unsubmitted s at c w h = ground arith

transition_story-unsubmitted :
    (s : StoryState) (tr : StoryTransition) (t : StoryState)
    → is_submitted (stage s) ≡ false
    → transition_story s tr ≡ ok t
    → (tr.change ≡ candidate_requested true) ⊎ (is_submitted (stage t) ≡ false)
unfolding transition_story
transition_story-unsubmitted s tr t w h =
    let (u, timely, changed) = >>=-eq-ok (assert_forward_time s.updated_at tr.at) _ h in
    apply_story_change-unsubmitted s tr.at tr.change w changed

create_story_state-unsubmitted :
    (input : StoryInput) {s : StoryState}
    → create_story_state input ≡ ok s
    → is_submitted (stage s) ≡ false
unfolding create_story_state
create_story_state-unsubmitted input h = ground (arith, non_empty-cases input.title "story title")

-- A new story that has come to await its candidate, or any stage after that, had a request for the
-- candidate among its transitions, made with the writer's lease released.
pub replay_needs_release :
    (input : StoryInput) (trs : List StoryTransition) {s t : StoryState}
    → create_story_state input ≡ ok s
    → replay transition_story s trs ≡ ok t
    → is_submitted (stage t) ≡ true
    → (tr : StoryTransition) × In tr trs × (tr.change ≡ candidate_requested true)
replay_needs_release input trs {s} c h k =
    elim (replay_witness transition_story (λ u. is_submitted (stage u) ≡ false)
      (λ tr. tr.change ≡ candidate_requested true) transition_story-unsubmitted s trs
      (create_story_state-unsubmitted input c) h) [
        | inl found ↦ found
        | inr waiting ↦ absurd (ground arith)
      ]
