-- ===== src/Examples/Runs.antt =====
-- The theorems on runs, at a run that is approved, started, blocked and resumed.
use pi_agentworks.Prelude.{◌≡◌, refl, true, none, some, List, [], ◌∷◌, In, ◌≤◌, trim}
use pi_agentworks.Errors.{ok, non_empty, assert_forward_time}
use pi_agentworks.Complexity.{normal, get_complexity_policy}
use pi_agentworks.Run.{
  RunState, RunInput, RunTransition, plan_prepared, plan_approved, run_started, planning,
  awaiting_approval, active, create_run_state, transition_run, apply_run_change,
}
use pi_agentworks.Run.Invariant.{
  IsWellFormed, SameRun, create_run_state-IsWellFormed, transition_run-IsWellFormed,
}
use pi_agentworks.Run.Approval.{replay-needs_approval}
use pi_agentworks.Run.Lifecycle.{◌⟶◌, transition_run-⟶}
use pi_agentworks.Trace.{replay}

abbrev input : RunInput
input = record {
  id = "r1";
  title = "Compiler";
  complexity = normal;
  repository_root = "/repo";
  original_checkout = "/repo";
  base_branch = "main";
  base_commit = some "a0";
  integration_branch = "integration/r1";
  integration_worktree = "/w/r1";
  management_pane_origin = none;
  created_at = 1;
}

abbrev new_run : RunState
new_run = record {
  schema_version = 2;
  id = "r1";
  title = "Compiler";
  complexity = normal;
  status = planning;
  repository_root = "/repo";
  original_checkout = "/repo";
  base_branch = "main";
  base_commit = some "a0";
  integration_branch = "integration/r1";
  integration_worktree = "/w/r1";
  management_pane_origin = none;
  blocked_reason = none;
  created_at = 1;
  updated_at = 1;
}

abbrev steps : List RunTransition
steps =
    record { at = 2; change = plan_prepared }
    ∷ record { at = 3; change = plan_approved }
    ∷ record { at = 4; change = run_started true }
    ∷ []

abbrev active_run : RunState
active_run = record new_run { status = active; updated_at = 4 }

abbrev waiting_run : RunState
waiting_run = record new_run { status = awaiting_approval; updated_at = 2 }

created : create_run_state input ≡ ok new_run
unfolding create_run_state non_empty trim
created = refl

replayed : replay transition_run new_run steps ≡ ok active_run
unfolding replay transition_run apply_run_change assert_forward_time get_complexity_policy
replayed = refl

first_step : transition_run new_run (record { at = 2; change = plan_prepared }) ≡ ok waiting_run
unfolding transition_run apply_run_change assert_forward_time get_complexity_policy
first_step = refl

replay-needs_approval_example : (tr : RunTransition) × In tr steps × (tr.change ≡ plan_approved)
unfolding get_complexity_policy
replay-needs_approval_example = replay-needs_approval input steps refl created replayed refl

transition_run-IsWellFormed_example :
    IsWellFormed waiting_run
    × SameRun new_run waiting_run
    × (waiting_run.updated_at ≡ 2)
    × (new_run.updated_at ≤ waiting_run.updated_at)
transition_run-IsWellFormed_example =
    transition_run-IsWellFormed new_run (record { at = 2; change = plan_prepared })
      (create_run_state-IsWellFormed input created) first_step

transition_run-⟶_example : planning ⟶ awaiting_approval
transition_run-⟶_example =
    transition_run-⟶ new_run (record { at = 2; change = plan_prepared }) first_step
