-- ===== src/Story/Review.antt =====
-- No story is merged without a review of the very heads that it is merged with.
use pi_agentworks.Prelude.{
  ℕ, String, ◌≡◌, ◌∙◌, ◌⊎◌, inl, inr, Bool, true, false, Option, none, some, List, [], ◌∷◌, ◌++◌,
  arith, eq_iff, In, In-append_left, In-append_right, trim, ap,
}
use pi_agentworks.Errors.{ok, assert_forward_time, non_empty-cases, >>=-eq-ok}
use pi_agentworks.Story.{
  StoryStatus, approved, merging, merged, StoryState, StoryInput, StoryChange, story_assigned,
  story_reassignment_requested, candidate_created, review_approved, review_changes_requested,
  review_invalidated, story_merged, story_blocked, story_failed, StoryTransition,
  create_story_state, story_prepared,
}
use pi_agentworks.Story.Change.{apply_story_change, transition_story, approve_review, head_is}
use pi_agentworks.Trace.{replay, replay_history}
use pi_agentworks.Story.Invariant.{stage}

-- The stages that only an approval leads to.
abbrev pub is_approved : StoryStatus → Bool
is_approved approved = true
is_approved merging = true
is_approved merged = true
is_approved _ = false

-- The review that the recorded heads rest on: who approved, with the checks passed, and that it
-- is among the transitions that were made.
pub record Evidence (trs : List StoryTransition) (s : StoryState) : Type 0 where
  pub review : StoryTransition
  pub reviewer : String
  pub story_head : String
  pub integration_head : String
  pub made : In review trs
  pub approved_by : review.change ≡ review_approved reviewer story_head integration_head true
  pub by_reviewer : s.reviewer_agent_id ≡ some (trim reviewer)
  pub of_candidate : s.candidate_story_head ≡ some story_head
  pub of_integration : s.reviewed_integration_head ≡ some integration_head

-- The change is an approval of the heads that the story holds, and what it records.
record Approves (c : StoryChange) (t : StoryState) : Type 0 where
  reviewer : String
  story_head : String
  integration_head : String
  change : c ≡ review_approved reviewer story_head integration_head true
  by_reviewer : t.reviewer_agent_id ≡ some (trim reviewer)
  of_candidate : t.candidate_story_head ≡ some story_head
  of_integration : t.reviewed_integration_head ≡ some integration_head

record KeepsReview (s t : StoryState) : Type 0 where
  already : is_approved (stage s) ≡ true
  by_reviewer : t.reviewer_agent_id ≡ s.reviewer_agent_id
  of_candidate : t.candidate_story_head ≡ s.candidate_story_head
  of_integration : t.reviewed_integration_head ≡ s.reviewed_integration_head

head_is-some : (o : Option String) (h : String) → head_is o h ≡ true → o ≡ some h
head_is-some none h e = absurd (ground arith)
head_is-some (some v) h e = ap some ((eq_iff v h).0 e)

approve_review-Approves :
    (s : StoryState) (at : ℕ) (r a b : String) (k : Bool) {t : StoryState}
    → approve_review s at r a b k ≡ ok t
    → Approves (review_approved r a b k) t
unfolding approve_review
approve_review-Approves s at r a b k h = record {
  reviewer = r;
  story_head = a;
  integration_head = b;
  change = ground arith;
  by_reviewer = ground (arith, non_empty-cases r "reviewer agent id");
  of_candidate =
      ground (arith, non_empty-cases r "reviewer agent id", head_is-some s.candidate_story_head a);
  of_integration =
      ground
        (arith, non_empty-cases r "reviewer agent id", head_is-some s.reviewed_integration_head b);
}

-- A change that leads to an approved stage approves the story, or keeps its review.
apply_story_change-approved :
    (s : StoryState) (at : ℕ) (c : StoryChange) {t : StoryState}
    → apply_story_change s at c ≡ ok t
    → is_approved (stage t) ≡ true
    → Approves c t ⊎ KeepsReview s t
unfolding apply_story_change
apply_story_change-approved s at (review_approved r a b k) h v =
    inl (approve_review-Approves s at r a b k h)
apply_story_change-approved s at (story_prepared m) h v = absurd (ground arith)
apply_story_change-approved s at (story_assigned a) h v =
    absurd (ground (arith, non_empty-cases a "assigned agent id"))
apply_story_change-approved s at (story_reassignment_requested r l) h v =
    absurd (ground (arith, non_empty-cases r "reassignment reason"))
apply_story_change-approved s at (candidate_created a b) h v =
    absurd (ground (arith, non_empty-cases a "story HEAD", non_empty-cases b "integration HEAD"))
apply_story_change-approved s at (review_changes_requested r) h v =
    absurd (ground (arith, non_empty-cases r "reviewer agent id"))
apply_story_change-approved s at (review_invalidated a) h v =
    absurd (ground (arith, non_empty-cases a "integration HEAD"))
apply_story_change-approved s at (story_merged a) h v =
    inr (ground (arith, non_empty-cases a "merge HEAD"))
apply_story_change-approved s at (story_blocked r) h v =
    inr (ground (arith, non_empty-cases r "blocked reason"))
apply_story_change-approved s at (story_failed r) h v =
    absurd (ground (arith, non_empty-cases r "failure reason"))
apply_story_change-approved s at c h v = inr (ground arith)

module _ (past : List StoryTransition) (tr : StoryTransition) where
  Approves-Evidence : {t : StoryState} → Approves tr.change t → Evidence (past ++ tr ∷ []) t
  Approves-Evidence a = record {
    review = tr;
    reviewer = a.reviewer;
    story_head = a.story_head;
    integration_head = a.integration_head;
    made = In-append_right past In.here;
    approved_by = a.change;
    by_reviewer = a.by_reviewer;
    of_candidate = a.of_candidate;
    of_integration = a.of_integration;
  }

  KeepsReview-Evidence :
      {s t : StoryState} → KeepsReview s t → Evidence past s → Evidence (past ++ tr ∷ []) t
  KeepsReview-Evidence k e = record {
    review = e.review;
    reviewer = e.reviewer;
    story_head = e.story_head;
    integration_head = e.integration_head;
    made = In-append_left (tr ∷ []) e.made;
    approved_by = e.approved_by;
    by_reviewer = k.by_reviewer ∙ e.by_reviewer;
    of_candidate = k.of_candidate ∙ e.of_candidate;
    of_integration = k.of_integration ∙ e.of_integration;
  }

-- An approved stage rests on evidence.
abbrev IsJustified : List StoryTransition → StoryState → Type 0
IsJustified past s = is_approved (stage s) ≡ true → Evidence past s

transition_story-IsJustified :
    (past : List StoryTransition) (s : StoryState) (tr : StoryTransition) (t : StoryState)
    → IsJustified past s
    → transition_story s tr ≡ ok t
    → IsJustified (past ++ tr ∷ []) t
unfolding transition_story
transition_story-IsJustified past s tr t known h v =
    let (u, timely, changed) = >>=-eq-ok (assert_forward_time s.updated_at tr.at) _ h in
    elim (apply_story_change-approved s tr.at tr.change changed v) [
      | inl a ↦ Approves-Evidence past tr a
      | inr k ↦ KeepsReview-Evidence past tr k (known k.already)
    ]

create_story_state-unapproved :
    (input : StoryInput) {s : StoryState}
    → create_story_state input ≡ ok s
    → is_approved (stage s) ≡ false
unfolding create_story_state
create_story_state-unapproved input h = ground (arith, non_empty-cases input.title "story title")

-- However a new story came to be approved, merging or merged (or was blocked there), one of the
-- transitions was an approval with the checks passed, by the reviewer that the story names, of
-- exactly the candidate head and the integration head that the story holds.
pub replay_needs_review :
    (input : StoryInput) (trs : List StoryTransition) {s t : StoryState}
    → create_story_state input ≡ ok s
    → replay transition_story s trs ≡ ok t
    → is_approved (stage t) ≡ true
    → Evidence trs t
replay_needs_review input trs {s} c h =
    replay_history transition_story IsJustified transition_story-IsJustified [] s trs
      (λ k. absurd (ground (arith, create_story_state-unapproved input c))) h
