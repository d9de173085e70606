-- ===== src/Examples/Launches.antt =====
-- Tests of launching an agent.
use pi_agentworks.Prelude.{◌≡◌, refl, true, false, none, some, trim}
use pi_agentworks.Errors.{ok, is_ok, value_or}
use pi_agentworks.Complexity.{get_complexity_policy}
use pi_agentworks.Scheduling.{agent_capacity, count_occupied_agent_slots, occupies_agent_capacity}
use pi_agentworks.StoryPlan.{includes}
use pi_agentworks.Schemas.{is_run_state, is_story_state, is_agent_state, is_planning_metadata}
use pi_agentworks.Trace.{replay}
use pi_agentworks.Store.{put, non_empty}
use pi_agentworks.Store.Lease.{acquire_lease, assert_fence, assert_time_and_ttl}
use pi_agentworks.Store.Tables.{select, retain, upsert}
use pi_agentworks.Store.Synchronize.{upsert_all, synchronize}
use pi_agentworks.Store.Validation.{
  validate_stories, validate_agents, validate_snapshot_members, validate_events,
  validate_event_list,
}
use pi_agentworks.Store.Snapshots.{
  initialize_run, commit_snapshot, find_idempotent_result, write_revision, insert_event_ids,
  event_rows, keeps_lease, assert_writer_lease_snapshot_consistency,
}
use pi_agentworks.Store.Writers.{
  acquire_writer_lease, materialize_writer_assignment, assert_agent_assigned_to_story,
}
use pi_agentworks.Store.Operations.{perform}
use pi_agentworks.Examples.StoreData.{the_agent, write_at, base}
use pi_agentworks.Agent.{AgentState, planned}
use pi_agentworks.Agent.Change.{transition_agent, apply_agent_change}
use pi_agentworks.Store.Writers.{assert_agent_slot_available}
use pi_agentworks.Store.Launches.{
  LaunchInput, LaunchAnswers, is_session_id, same_agent_identity, current_agent, after_launch,
  materialize_agent_launch,
}

session_id_is_uuid : is_session_id "0b7e1b1c-8f0e-4A6b-9c2d-0123456789ab" ≡ true
unfolding is_session_id
session_id_is_uuid = refl

version_nine_is_no_session_id : is_session_id "0b7e1b1c-8f0e-9a6b-9c2d-0123456789ab" ≡ false
unfolding is_session_id
version_nine_is_no_session_id = refl

other_task_is_another_identity :
    same_agent_identity the_agent (record the_agent { task_id = some "s2" }) ≡ false
unfolding same_agent_identity
other_task_is_another_identity = refl

abbrev launch_of : AgentState → LaunchInput
launch_of agent = record {
  write = write_at 40;
  agent = agent;
  pane_id = "p1";
  session_id = "0b7e1b1c-8f0e-4A6b-9c2d-0123456789ab";
  slot = none;
}

abbrev free : LaunchAnswers
free = record { reservation = none; slot_taken = false; inserted = ok tt }

-- A new agent is launched, and the writer, which works already, is not.
new_agent_is_launched :
    is_ok (
      materialize_agent_launch base
        (launch_of (record the_agent { id = "a9"; status = planned; task_id = none }))
        free)
    ≡ true
unfolding replay perform commit_snapshot acquire_lease non_empty trim assert_time_and_ttl
    assert_fence initialize_run validate_snapshot_members validate_stories validate_agents
    is_run_state is_story_state is_agent_state is_planning_metadata includes agent_capacity
    count_occupied_agent_slots occupies_agent_capacity validate_events validate_event_list
    find_idempotent_result write_revision insert_event_ids event_rows synchronize upsert_all retain
    upsert select put acquire_writer_lease materialize_writer_assignment
    assert_agent_assigned_to_story get_complexity_policy keeps_lease
    assert_writer_lease_snapshot_consistency materialize_agent_launch is_session_id
    same_agent_identity current_agent after_launch assert_agent_slot_available transition_agent
    apply_agent_change pi_agentworks.Errors.assert_forward_time pi_agentworks.Errors.non_empty
new_agent_is_launched = refl

working_agent_is_not_launched :
    is_ok (materialize_agent_launch base (launch_of the_agent) free) ≡ false
unfolding replay perform commit_snapshot acquire_lease non_empty trim assert_time_and_ttl
    assert_fence initialize_run validate_snapshot_members validate_stories validate_agents
    is_run_state is_story_state is_agent_state is_planning_metadata includes agent_capacity
    count_occupied_agent_slots occupies_agent_capacity validate_events validate_event_list
    find_idempotent_result write_revision insert_event_ids event_rows synchronize upsert_all retain
    upsert select put acquire_writer_lease materialize_writer_assignment
    assert_agent_assigned_to_story get_complexity_policy keeps_lease
    assert_writer_lease_snapshot_consistency materialize_agent_launch is_session_id
    same_agent_identity current_agent after_launch assert_agent_slot_available transition_agent
    apply_agent_change
working_agent_is_not_launched = refl
