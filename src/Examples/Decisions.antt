-- ===== src/Examples/Decisions.antt =====
-- The theorems on the policies and the recovery gate.
use pi_agentworks.Prelude.{◌≡◌, ◌↔◌, true, false, none, some, [], ◌∷◌}
use pi_agentworks.Policy.{
  SandboxEvidence, AgentLaunchRequest, MergeEligibilityRequest, kernel_enforced, story_writer,
  approved, permitted, assert_agent_launch_permitted, assess_merge_eligibility,
}
use pi_agentworks.Policy.Decisions.{
  IsContained, IsMergeable, launch_permitted_iff, merge_allowed_iff,
}
use pi_agentworks.Recovery.{
  RecoverySnapshot, RecoveryReason, RecoveryEvidence, ready, assess_startup_recovery,
  reconcile_startup_recovery,
}
use pi_agentworks.Recovery.Gate.{IsQuiet, assess_startup_recovery-ready_iff}
use pi_agentworks.Recovery.Startup.{IsReconciled, recovery_gate_iff}
use pi_agentworks.Run.{RunState}
use pi_agentworks.Run
use pi_agentworks.Complexity.{high}
use pi_agentworks.Agent.{AgentState, create_agent_state, launching}

abbrev sandbox : SandboxEvidence
sandbox = record {
  filesystem_boundary = kernel_enforced;
  root_read_only = true;
  assigned_worktree_writable = true;
  git_metadata_read_only = true;
  environment_sanitized = true;
  network_isolated = true;
}

abbrev launch : AgentLaunchRequest
launch = record {
  write_policy = story_writer;
  sandbox = some sandbox;
  role_requires_network = false;
}

launch_permitted_iff_example :
    (assert_agent_launch_permitted launch ≡ permitted)
    ↔ ((s : SandboxEvidence) × (launch.sandbox ≡ some s) × IsContained launch s)
launch_permitted_iff_example = launch_permitted_iff launch

abbrev merge : MergeEligibilityRequest
merge = record {
  requester_role = "project-manager";
  writer_agent_id = "a1";
  story_head = "aa";
  integration_head = "bb";
  story_worktree_clean = true;
  target_is_run_integration_branch = true;
  target_is_default_or_protected = false;
  protected_target_user_approval = false;
  controller_lease_current = true;
  expected_revision_matches = true;
  review = some (record {
    reviewer_agent_id = "a2";
    verdict = approved;
    reviewed_story_head = "aa";
    reviewed_integration_head = "bb";
    required_checks_passed = true;
  });
}

merge_allowed_iff_example : ((assess_merge_eligibility merge).allowed ≡ true) ↔ IsMergeable merge
merge_allowed_iff_example = merge_allowed_iff merge

abbrev cancelled_run : RunState
cancelled_run = record {
  schema_version = 2;
  id = "r1";
  title = "Compiler";
  complexity = high;
  status = Run.cancelled;
  repository_root = "/repo";
  original_checkout = "/repo";
  base_branch = "main";
  base_commit = none;
  integration_branch = "integration/r1";
  integration_worktree = "/w/r1";
  management_pane_origin = none;
  blocked_reason = some "no longer needed";
  created_at = 1;
  updated_at = 9;
}

abbrev new_agent : AgentState
new_agent = create_agent_state (record {
  id = "a1";
  run_id = "r1";
  role_runtime_id = "coder";
  task_id = none;
  worktree_path = "/w/s1";
  created_at = 1;
})

abbrev launching_agent : AgentState
launching_agent = record new_agent {
  status = launching;
  pane_id = some "p1";
  current_operation = some "starting Pi session";
}

abbrev snapshot : RecoverySnapshot
snapshot = record { run = cancelled_run; stories = []; agents = launching_agent ∷ [] }

abbrev evidence : RecoveryReason → RecoveryEvidence
evidence reason = record { candidate_present = none; merge_present = none; pane_alive = some false }

assess_startup_recovery-ready_iff_example :
    ((assess_startup_recovery (some snapshot)).status ≡ ready) ↔ IsQuiet snapshot
assess_startup_recovery-ready_iff_example = assess_startup_recovery-ready_iff snapshot

recovery_gate_iff_example :
    ((reconcile_startup_recovery (assess_startup_recovery (some snapshot)) evidence).status ≡ ready)
    ↔ IsReconciled snapshot evidence
recovery_gate_iff_example = recovery_gate_iff snapshot evidence
