-- ===== src/Policy/Decisions.antt =====
-- Exactly when a launch is permitted, and a merge or a cleanup allowed.
use pi_agentworks.Prelude.{
  String, ◌≡◌, refl, ◌≢◌, ◌⊎◌, ◌↔◌, true, false, some, List, [], ◌∷◌, arith, eq_iff, Option-cases,
  inl, inr,
}
use pi_agentworks.Policy.{
  kernel_enforced, SandboxEvidence, AgentLaunchRequest, sandbox_reasons, permitted,
  assert_agent_launch_permitted, approved, ReviewEvidence, MergeEligibilityRequest, review_reasons,
  assess_merge_eligibility, CleanupEligibilityRequest, assess_cleanup_eligibility, is_empty,
  verdict_of, is_story_writer,
}

-- The sandbox isolates the child as its role requires; its worktree is writable exactly if the
-- role writes.
pub record IsContained (request : AgentLaunchRequest) (sandbox : SandboxEvidence) : Type 0 where
  pub boundary : sandbox.filesystem_boundary ≡ kernel_enforced
  pub root : sandbox.root_read_only ≡ true
  pub worktree : sandbox.assigned_worktree_writable ≡ is_story_writer request.write_policy
  pub git : sandbox.git_metadata_read_only ≡ true
  pub environment : sandbox.environment_sanitized ≡ true
  pub network : (request.role_requires_network ≡ true) ⊎ (sandbox.network_isolated ≡ true)

sandbox_reasons-nil :
    (request : AgentLaunchRequest) (sandbox : SandboxEvidence)
    → (is_empty (sandbox_reasons request sandbox) ≡ true) ↔ IsContained request sandbox
unfolding sandbox_reasons
sandbox_reasons-nil request sandbox = (λ h. ground arith, λ h. ground arith)

verdict_of-permitted :
    (reasons : List String) → (verdict_of reasons ≡ permitted) ↔ (is_empty reasons ≡ true)
verdict_of-permitted [] = (λ h. refl, λ h. refl)
verdict_of-permitted (r ∷ rs) = (λ h. absurd (cc), λ h. absurd (cc))

-- A launch is permitted exactly if there is sandbox evidence, and it shows a kernel-enforced
-- boundary, a read-only root, read-only Git metadata, a sanitised environment, a worktree that is
-- writable exactly for a story writer, and an isolated network unless the role needs it.
pub launch_permitted_iff :
    (request : AgentLaunchRequest)
    → (assert_agent_launch_permitted request ≡ permitted) ↔ (
        (sandbox : SandboxEvidence) × (request.sandbox ≡ some sandbox)
        × IsContained request sandbox)
unfolding assert_agent_launch_permitted
launch_permitted_iff request = (
  λ h. elim (Option-cases request.sandbox) [
    | inl missing ↦ absurd (ground (arith, h, missing))
    | inr (sandbox, given) ↦ (
      sandbox,
      given,
      (sandbox_reasons-nil request sandbox).0
          ((verdict_of-permitted (sandbox_reasons request sandbox)).0 (ground (arith, h, given))),
    )
  ],
  λ (sandbox, given, contained). rw given (
      (verdict_of-permitted (sandbox_reasons request sandbox)).1
        ((sandbox_reasons-nil request sandbox).1 contained)),
)

-- The review is by another agent, approves, has its checks passed, and is of the current heads.
pub record IsIndependent (request : MergeEligibilityRequest) (review : ReviewEvidence)
    : Type 0 where
  pub other : review.reviewer_agent_id ≢ request.writer_agent_id
  pub verdict : review.verdict ≡ approved
  pub checks : review.required_checks_passed ≡ true
  pub story : review.reviewed_story_head ≡ request.story_head
  pub integration : review.reviewed_integration_head ≡ request.integration_head

pub record IsMergeable (request : MergeEligibilityRequest) : Type 0 where
  pub requester : request.requester_role ≡ "project-manager"
  pub lease : request.controller_lease_current ≡ true
  pub revision : request.expected_revision_matches ≡ true
  pub clean : request.story_worktree_clean ≡ true
  pub target : request.target_is_run_integration_branch ≡ true
  pub guarded :
      (request.target_is_default_or_protected ≡ false)
      ⊎ (request.protected_target_user_approval ≡ true)
  pub review : ReviewEvidence
  pub given : request.review ≡ some review
  pub independent : IsIndependent request review

review_reasons-nil :
    (request : MergeEligibilityRequest) (review : ReviewEvidence)
    → (is_empty (review_reasons request review) ≡ true) ↔ IsIndependent request review
unfolding review_reasons
review_reasons-nil request review =
    let writer = eq_iff review.reviewer_agent_id request.writer_agent_id in
    let story = eq_iff review.reviewed_story_head request.story_head in
    let integration = eq_iff review.reviewed_integration_head request.integration_head in
    (
      λ h. ground (arith, writer, story, integration),
      λ h. ground (arith, writer, story, integration),
    )

-- A merge is allowed exactly if the Project Manager asks for it, under a current lease and the
-- expected revision, from a clean worktree, into the run's integration branch, with the user's
-- approval if that is default or protected, and an independent review of the current heads by
-- another agent approves it with the checks passed.
pub merge_allowed_iff :
    (request : MergeEligibilityRequest)
    → ((assess_merge_eligibility request).allowed ≡ true) ↔ IsMergeable request
unfolding assess_merge_eligibility
merge_allowed_iff request =
    let role = eq_iff request.requester_role "project-manager" in
    (
      λ h. elim (Option-cases request.review) [
        | inl missing ↦ absurd (ground arith)
        | inr (review, given) ↦ record {
          requester = ground (arith, role);
          lease = ground arith;
          revision = ground arith;
          clean = ground arith;
          target = ground arith;
          guarded = ground arith;
          review = review;
          given = given;
          independent = (review_reasons-nil request review).0 (ground arith);
        }
      ],
      λ m. ground (arith, role, m, (review_reasons-nil request m.review).1 m.independent),
    )

-- A cleanup is allowed exactly if all seven conditions hold.
pub cleanup_allowed_iff :
    (r : CleanupEligibilityRequest)
    → ((assess_cleanup_eligibility r).allowed ≡ true) ↔ (
        (r.controller_lease_current ≡ true)
        × (r.expected_revision_matches ≡ true)
        × (r.worktree_clean ≡ true)
        × (r.story_merged_into_integration ≡ true)
        × (r.writer_lease_released ≡ true)
        × (r.agent_closed ≡ true)
        × (r.worktree_belongs_to_run ≡ true))
unfolding assess_cleanup_eligibility
cleanup_allowed_iff r = (λ h. ground arith, λ h. ground arith)
