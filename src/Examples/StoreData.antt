-- ===== src/Examples/StoreData.antt =====
-- A database with one run, one story and its writer.
use pi_agentworks.Prelude.{ℕ, String, ◌≡◌, refl, false, none, some, List, [], ◌∷◌, trim}
use pi_agentworks.Errors.{ok, value_or}
use pi_agentworks.Complexity.{normal, get_complexity_policy}
use pi_agentworks.Run.{RunState, active}
use pi_agentworks.Story.{StoryState, assigned}
use pi_agentworks.Agent.{AgentState, working}
use pi_agentworks.Scheduling.{agent_capacity, count_occupied_agent_slots, occupies_agent_capacity}
use pi_agentworks.StoryPlan.{includes}
use pi_agentworks.Schemas.{is_run_state, is_story_state, is_agent_state, is_planning_metadata}
use pi_agentworks.Trace.{replay}
use pi_agentworks.Store.{Database, SnapshotInput, FencedWrite, run, put, non_empty}
use pi_agentworks.Store.Lease.{acquire_lease, assert_fence, assert_time_and_ttl}
use pi_agentworks.Store.Tables.{select, retain, upsert}
use pi_agentworks.Store.Synchronize.{upsert_all, synchronize}
use pi_agentworks.Store.Validation.{
  validate_stories, validate_agents, validate_snapshot_members, validate_events,
  validate_event_list,
}
use pi_agentworks.Store.Snapshots.{
  initialize_run, find_idempotent_result, write_revision, insert_event_ids, event_rows,
}
use pi_agentworks.Store.Writers.{
  AcquireInput, acquire_writer_lease, materialize_writer_assignment, assert_agent_assigned_to_story,
}
use pi_agentworks.Store.Operations.{Operation, perform}
use pi_agentworks.Store.Reachable.{new_database}

abbrev pub the_run : RunState
the_run = record {
  schema_version = 2;
  id = "r1";
  title = "Compiler";
  complexity = normal;
  status = active;
  repository_root = "/repo";
  original_checkout = "/repo";
  base_branch = "main";
  base_commit = some "a0";
  integration_branch = "integration/r1";
  integration_worktree = "/w/r1";
  management_pane_origin = none;
  blocked_reason = none;
  created_at = 1;
  updated_at = 1;
}

abbrev pub the_story : StoryState
the_story = record {
  schema_version = 2;
  id = "s1";
  run_id = "r1";
  title = "Parser";
  status = assigned;
  branch_name = "story/s1";
  worktree_path = "/w/s1";
  planning = none;
  assigned_agent_id = some "a1";
  candidate_story_head = none;
  reviewed_integration_head = none;
  reviewer_agent_id = none;
  merge_head = none;
  workspace_cleaned = false;
  blocked_reason = none;
  blocked_from = none;
  created_at = 5;
  updated_at = 5;
}

abbrev pub the_agent : AgentState
the_agent = record {
  schema_version = 2;
  id = "a1";
  run_id = "r1";
  role_runtime_id = "coder";
  status = working;
  task_id = some "s1";
  worktree_path = "/w/s1";
  pane_id = none;
  pi_session_path = none;
  current_operation = none;
  waiting_reason = none;
  blocked_reason = none;
  nudge_count = 0;
  last_nudge_at = none;
  last_heartbeat_at = 5;
  last_meaningful_activity_at = 5;
  created_at = 5;
  updated_at = 5;
}

abbrev pub write_at : ℕ → FencedWrite
write_at now = record { owner_id = "c1"; fencing_token = 1; now = now }

abbrev pub input_of : String → ℕ → SnapshotInput
input_of name now = record {
  write = write_at now;
  idempotency_key = name;
  request_hash = name;
  run = the_run;
  stories = the_story ∷ [];
  agents = the_agent ∷ [];
  events =
      record {
        event_id = name;
        type = "changed";
        entity_type = run;
        entity_id = "r1";
        payload = "{}";
        occurred_at = now;
      }
      ∷ [];
}

abbrev pub claim : AcquireInput
claim = record {
  write = write_at 12;
  run_id = "r1";
  story_id = "s1";
  owner_agent_id = "a1";
  ttl_ms = 50;
  agent = none;
}

abbrev pub ops : List Operation
ops =
    Operation.acquire_lease "c1" 10 100
    ∷ Operation.initialize_run (input_of "k1" 11)
    ∷ Operation.acquire_writer_lease claim
    ∷ []

abbrev pub base : Database
base = value_or (replay perform new_database ops) new_database

pub reached : replay perform new_database ops ≡ ok base
unfolding replay perform acquire_lease non_empty trim assert_time_and_ttl assert_fence
    initialize_run validate_snapshot_members validate_stories validate_agents is_run_state
    is_story_state is_agent_state is_planning_metadata includes agent_capacity
    count_occupied_agent_slots occupies_agent_capacity validate_events validate_event_list
    find_idempotent_result write_revision insert_event_ids event_rows synchronize upsert_all retain
    upsert select put acquire_writer_lease materialize_writer_assignment
    assert_agent_assigned_to_story get_complexity_policy
reached = refl

pub nothing : (db : Database) → replay perform db [] ≡ ok db
unfolding replay
nothing db = refl
