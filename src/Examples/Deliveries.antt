-- ===== src/Examples/Deliveries.antt =====
-- The delivery of a message, at a writer that reports that it is blocked.
use pi_agentworks.Prelude.{String, ◌≡◌, ◌⊎◌, refl, ◌≤◌, false, List, arith, trim}
use pi_agentworks.Errors.{ok, is_ok, value_or}
use pi_agentworks.Complexity.{get_complexity_policy}
use pi_agentworks.Scheduling.{agent_capacity, count_occupied_agent_slots, occupies_agent_capacity}
use pi_agentworks.StoryPlan.{includes}
use pi_agentworks.Schemas.{is_run_state, is_story_state, is_agent_state, is_planning_metadata}
use pi_agentworks.Trace.{replay}
use pi_agentworks.Store.{Database, put, non_empty}
use pi_agentworks.Store.Lease.{acquire_lease, assert_fence, assert_time_and_ttl}
use pi_agentworks.Store.Tables.{select, retain, upsert}
use pi_agentworks.Store.Synchronize.{upsert_all, synchronize}
use pi_agentworks.Store.Validation.{
  validate_stories, validate_agents, validate_snapshot_members, validate_events,
  validate_event_list,
}
use pi_agentworks.Store.Snapshots.{
  initialize_run, commit_snapshot, find_idempotent_result, write_revision, insert_event_ids,
  event_rows, keeps_lease, assert_writer_lease_snapshot_consistency, load_snapshot,
}
use pi_agentworks.Store.Writers.{
  acquire_writer_lease, materialize_writer_assignment, assert_agent_assigned_to_story,
}
use pi_agentworks.Store.Operations.{perform}
use pi_agentworks.Store.Loading.{HaveSameMembers}
use pi_agentworks.Examples.StoreData.{ops, base, reached, write_at}
use pi_agentworks.Messages.{
  AgentMessage, agent_blocked, blocker, apply_agent_message, apply_body, changed_by,
  reaction_for_agent_message, reaction_to_body,
}
use pi_agentworks.Agent.Change.{transition_agent, apply_agent_change}
use pi_agentworks.Errors
use pi_agentworks.Errors.{assert_forward_time}
use pi_agentworks.Store.Loading.{HaveSameMembers}
use pi_agentworks.Store.Snapshots.{load_tables, read_stories, read_agents}
use pi_agentworks.MessageController.{Payload, AgentMessageCommitResult, apply, message_type}
use pi_agentworks.MessageController.Effect.{IsKept, IsDelivered, apply-IsDelivered}

abbrev message : AgentMessage
message = record { run_id = "r1"; agent_id = "a1"; body = agent_blocked blocker "stuck" }

abbrev json : Payload → String
json payload = "{}"

abbrev hash : String → String → String
hash request_id type = request_id

abbrev delivered : Database × AgentMessageCommitResult
delivered =
    value_or (apply (λ rows. rows) (λ rows. rows) json hash base message (write_at 20) "q1" 20) (
      base,
      record {
        revision = 0;
        changed = false;
        replayed = false;
        reaction = reaction_for_agent_message message;
      },
    )

delivering :
    apply (λ rows. rows) (λ rows. rows) json hash base message (write_at 20) "q1" 20 ≡ ok delivered
unfolding replay perform commit_snapshot acquire_lease non_empty trim assert_time_and_ttl
    assert_fence initialize_run validate_snapshot_members validate_stories validate_agents
    is_run_state is_story_state is_agent_state is_planning_metadata includes agent_capacity
    count_occupied_agent_slots occupies_agent_capacity validate_events validate_event_list
    find_idempotent_result write_revision insert_event_ids event_rows synchronize upsert_all retain
    upsert select put acquire_writer_lease materialize_writer_assignment
    assert_agent_assigned_to_story get_complexity_policy keeps_lease
    assert_writer_lease_snapshot_consistency apply message_type load_snapshot load_tables
    read_stories read_agents apply_agent_message apply_body changed_by transition_agent
    apply_agent_change assert_forward_time Errors.non_empty reaction_for_agent_message
    reaction_to_body
delivering = refl

small : delivered.1.revision ≤ 9007199254740991
unfolding replay perform commit_snapshot acquire_lease non_empty trim assert_time_and_ttl
    assert_fence initialize_run validate_snapshot_members validate_stories validate_agents
    is_run_state is_story_state is_agent_state is_planning_metadata includes agent_capacity
    count_occupied_agent_slots occupies_agent_capacity validate_events validate_event_list
    find_idempotent_result write_revision insert_event_ids event_rows synchronize upsert_all retain
    upsert select put acquire_writer_lease materialize_writer_assignment
    assert_agent_assigned_to_story get_complexity_policy keeps_lease
    assert_writer_lease_snapshot_consistency apply message_type load_snapshot load_tables
    read_stories read_agents apply_agent_message apply_body changed_by transition_agent
    apply_agent_change assert_forward_time Errors.non_empty reaction_for_agent_message
    reaction_to_body
small = omega arith

same_members : {A : Type 0} (xs : List A) → HaveSameMembers xs xs
same_members xs x = (λ i. i, λ i. i)

apply-IsDelivered_example :
    IsKept base delivered
    ⊎ IsDelivered (λ rows. rows) (λ rows. rows) json hash base message 20 delivered.0
apply-IsDelivered_example =
    apply-IsDelivered (λ rows. rows) (λ rows. rows) json hash ops message (write_at 20) "q1" 20
      same_members same_members reached delivering small
