-- ===== src/Policy.antt =====
-- The policies that allow or deny a launch, a merge and a cleanup (src/domain/execution-policy.ts).
-- Each collects the reasons against, in the order of its tests.
pub mod Decisions
use pi_agentworks.Prelude.{
  String, Bool, true, false, not, ◌&&◌, Option, none, some, List, [], ◌∷◌, ◌++◌, if◌then◌else◌,
  str_eq,
}

pub data WritePolicy : Type 0 where
  read_only story_writer : WritePolicy

pub data FilesystemBoundary : Type 0 where
  kernel_enforced advisory : FilesystemBoundary

pub record SandboxEvidence : Type 0 where
  pub filesystem_boundary : FilesystemBoundary
  pub root_read_only : Bool
  pub assigned_worktree_writable : Bool
  pub git_metadata_read_only : Bool
  pub environment_sanitized : Bool
  pub network_isolated : Bool

-- Of the request, the fields that the policy reads.
pub record AgentLaunchRequest : Type 0 where
  pub write_policy : WritePolicy
  pub sandbox : Option SandboxEvidence
  pub role_requires_network : Bool

-- `if (test) reasons.push(reason)`, before the rest.
abbrev pub push_if : Bool → String → List String → List String
push_if test reason rest = if test then reason ∷ rest else rest

abbrev pub is_kernel_enforced : FilesystemBoundary → Bool
is_kernel_enforced kernel_enforced = true
is_kernel_enforced advisory = false

abbrev pub is_story_writer : WritePolicy → Bool
is_story_writer story_writer = true
is_story_writer read_only = false

abbrev pub is_read_only : WritePolicy → Bool
is_read_only read_only = true
is_read_only story_writer = false

unfoldable pub sandbox_reasons : AgentLaunchRequest → SandboxEvidence → List String
sandbox_reasons request sandbox =
    push_if (not (is_kernel_enforced sandbox.filesystem_boundary))
      "filesystem isolation must be kernel-enforced"
      (push_if (not sandbox.root_read_only) "the host root must be mounted read-only" (
        push_if (is_story_writer request.write_policy && not sandbox.assigned_worktree_writable)
          "a story writer requires the assigned writable worktree boundary"
          (push_if (is_read_only request.write_policy && sandbox.assigned_worktree_writable)
            "a read-only role cannot receive a writable worktree mount"
            (push_if (not sandbox.git_metadata_read_only)
              "Git metadata must be read-only to child agents"
              (push_if (not sandbox.environment_sanitized)
                "the child environment must use an explicit allowlist"
                (push_if (not request.role_requires_network && not sandbox.network_isolated)
                  "roles without an approved network requirement must have network isolation"
                  []))))))

unfoldable pub launch_reasons : AgentLaunchRequest → List String
unfolding sandbox_reasons
launch_reasons request = elim request.sandbox [
  | none ↦ "a production sandbox is required" ∷ []
  | some sandbox ↦ sandbox_reasons request sandbox
]

-- The reasons that AgentLaunchDeniedError carries, or nothing if the launch is permitted.
pub data LaunchVerdict : Type 0 where
  permitted : LaunchVerdict
  denied : List String → LaunchVerdict

abbrev pub verdict_of : List String → LaunchVerdict
verdict_of [] = permitted
verdict_of (reason ∷ reasons) = denied (reason ∷ reasons)

unfoldable pub assert_agent_launch_permitted : AgentLaunchRequest → LaunchVerdict
unfolding launch_reasons
assert_agent_launch_permitted request = verdict_of (launch_reasons request)

pub data ReviewVerdict : Type 0 where
  approved changes_requested : ReviewVerdict

pub record ReviewEvidence : Type 0 where
  pub reviewer_agent_id : String
  pub verdict : ReviewVerdict
  pub reviewed_story_head : String
  pub reviewed_integration_head : String
  pub required_checks_passed : Bool

pub record MergeEligibilityRequest : Type 0 where
  pub requester_role : String
  pub writer_agent_id : String
  pub story_head : String
  pub integration_head : String
  pub story_worktree_clean : Bool
  pub target_is_run_integration_branch : Bool
  pub target_is_default_or_protected : Bool
  pub protected_target_user_approval : Bool
  pub controller_lease_current : Bool
  pub expected_revision_matches : Bool
  pub review : Option ReviewEvidence

pub record PolicyDecision : Type 0 where
  pub allowed : Bool
  pub reasons : List String

abbrev pub is_empty : List String → Bool
is_empty [] = true
is_empty (reason ∷ reasons) = false

abbrev pub decision_of : List String → PolicyDecision
decision_of reasons = record { allowed = is_empty reasons; reasons = reasons }

abbrev pub is_approved : ReviewVerdict → Bool
is_approved approved = true
is_approved changes_requested = false

unfoldable pub review_reasons : MergeEligibilityRequest → ReviewEvidence → List String
review_reasons request review =
    push_if (str_eq review.reviewer_agent_id request.writer_agent_id)
      "the writer cannot independently review their own story"
      (push_if (not (is_approved review.verdict)) "the reviewer did not approve the story" (
        push_if (not review.required_checks_passed) "required validation checks did not pass" (
          push_if (not (str_eq review.reviewed_story_head request.story_head))
            "the story HEAD changed after review"
            (push_if (not (str_eq review.reviewed_integration_head request.integration_head))
              "the integration HEAD changed after review" []))))

unfoldable pub merge_reasons : MergeEligibilityRequest → List String
unfolding review_reasons
merge_reasons request =
    push_if (not (str_eq request.requester_role "project-manager"))
      "only the run Project Manager may request integration"
      (push_if (not request.controller_lease_current) "the controller writer lease is stale" (
        push_if (not request.expected_revision_matches) "the controller revision changed" (
          push_if (not request.story_worktree_clean) "the story worktree is not clean" (
            push_if (not request.target_is_run_integration_branch)
              "the target is not the run integration branch"
              (push_if
                (request.target_is_default_or_protected
                  && not request.protected_target_user_approval)
                "default or protected targets require explicit user approval"
                (elim request.review [
                  | none ↦ "independent review evidence is required" ∷ []
                  | some review ↦ review_reasons request review
                ]))))))

unfoldable pub assess_merge_eligibility : MergeEligibilityRequest → PolicyDecision
unfolding merge_reasons
assess_merge_eligibility request = decision_of (merge_reasons request)

pub record CleanupEligibilityRequest : Type 0 where
  pub controller_lease_current : Bool
  pub expected_revision_matches : Bool
  pub worktree_clean : Bool
  pub story_merged_into_integration : Bool
  pub writer_lease_released : Bool
  pub agent_closed : Bool
  pub worktree_belongs_to_run : Bool

unfoldable pub assess_cleanup_eligibility : CleanupEligibilityRequest → PolicyDecision
assess_cleanup_eligibility request = decision_of (
    push_if (not request.controller_lease_current) "the controller writer lease is stale" (
      push_if (not request.expected_revision_matches) "the controller revision changed" (
        push_if (not request.worktree_clean) "the worktree is not clean" (
          push_if (not request.story_merged_into_integration) "merge ancestry proof is missing" (
            push_if (not request.writer_lease_released) "the writer lease is still active" (
              push_if (not request.agent_closed) "the writer agent is not closed" (
                push_if (not request.worktree_belongs_to_run)
                  "the worktree does not belong to this run" [])))))))
