-- ===== src/Examples/Agents.antt =====
-- The theorems on agents and their messages, at an agent that is launched, nudged, lost and closed.
use pi_agentworks.Prelude.{
  ◌+◌, ◌≤◌, ◌<◌, ◌≡◌, refl, ◌⊎◌, ◌↔◌, true, false, none, some, List, [], ◌∷◌, length, arith, In,
  trim,
}
use pi_agentworks.Errors.{ok, is_ok, non_empty, assert_forward_time}
use pi_agentworks.Agent
use pi_agentworks.Agent.{
  AgentState, AgentInput, AgentTransition, launch_requested, session_ready, operation_started,
  operation_finished, nudge_sent, agent_completed, agent_closed, heartbeat, pane_lost,
  recovery_requested, idle, completed, closed, create_agent_state,
}
use pi_agentworks.Agent.Change.{transition_agent, apply_agent_change}
use pi_agentworks.Agent.Invariant.{
  IsWellFormed, SameAgent, create_agent_state-IsWellFormed, transition_agent-IsWellFormed,
  replay-IsWellFormed,
}
use pi_agentworks.Agent.Lifecycle.{replay_closed_needs_release, transition_agent_of_settled}
use pi_agentworks.Agent.Liveness.{
  assess_agent_liveness, assess-nudge_iff, assess_ignores_activity, default_liveness_policy, nudge,
  IsDue,
}
use pi_agentworks.Messages
use pi_agentworks.Messages.{
  AgentMessage, AgentMessageStateResult, apply_agent_message, apply_body,
  reaction_for_agent_message,
}
use pi_agentworks.Messages.Authority.{ByChild, apply_agent_message-ByChild}
use pi_agentworks.Messages.Attention.{is_attention, needs_help, reaction_agrees}
use pi_agentworks.Trace.{replay}

abbrev input : AgentInput
input = record {
  id = "a1";
  run_id = "r1";
  role_runtime_id = "coder";
  task_id = some "s1";
  worktree_path = "/w/s1";
  created_at = 1;
}

abbrev new_agent : AgentState
new_agent = create_agent_state input

abbrev launch_steps : List AgentTransition
launch_steps =
    record { at = 2; change = launch_requested "p1" }
    ∷ record { at = 3; change = session_ready "/sessions/a1" }
    ∷ record { at = 100; change = nudge_sent }
    ∷ []

abbrev idle_agent : AgentState
idle_agent = record {
  schema_version = 2;
  id = "a1";
  run_id = "r1";
  role_runtime_id = "coder";
  status = idle;
  task_id = some "s1";
  worktree_path = "/w/s1";
  pane_id = some "p1";
  pi_session_path = some "/sessions/a1";
  current_operation = none;
  waiting_reason = none;
  blocked_reason = none;
  nudge_count = 1;
  last_nudge_at = some 100;
  last_heartbeat_at = 3;
  last_meaningful_activity_at = 3;
  created_at = 1;
  updated_at = 100;
}

launched : replay transition_agent new_agent launch_steps ≡ ok idle_agent
unfolding replay transition_agent apply_agent_change non_empty trim assert_forward_time
    create_agent_state
launched = refl

idle_agent-IsWellFormed : IsWellFormed idle_agent
idle_agent-IsWellFormed =
    replay-IsWellFormed new_agent launch_steps (create_agent_state-IsWellFormed input) launched

abbrev finished_agent : AgentState
finished_agent = record idle_agent {
  status = completed;
  last_meaningful_activity_at = 101;
  updated_at = 101;
}

finishing :
    transition_agent idle_agent (record { at = 101; change = agent_completed }) ≡ ok finished_agent
unfolding transition_agent apply_agent_change assert_forward_time
finishing = refl

transition_agent-IsWellFormed_example :
    IsWellFormed finished_agent
    × SameAgent idle_agent finished_agent
    × (finished_agent.updated_at ≡ 101)
    × (idle_agent.updated_at ≤ finished_agent.updated_at)
transition_agent-IsWellFormed_example =
    transition_agent-IsWellFormed idle_agent (record { at = 101; change = agent_completed })
      idle_agent-IsWellFormed finishing

transition_agent_of_settled_example :
    (((finished_agent.status ≡ completed) ⊎ (finished_agent.status ≡ Agent.failed))
      → (heartbeat ≡ agent_closed true)
        ⊎ (is_ok (transition_agent finished_agent (record { at = 102; change = heartbeat }))
            ≡ false))
    × (finished_agent.status ≡ closed
        → is_ok (transition_agent finished_agent (record { at = 102; change = heartbeat })) ≡ false)
transition_agent_of_settled_example =
    transition_agent_of_settled finished_agent (record { at = 102; change = heartbeat })

abbrev whole_life : List AgentTransition
whole_life =
    record { at = 2; change = launch_requested "p1" }
    ∷ record { at = 3; change = session_ready "/sessions/a1" }
    ∷ record { at = 4; change = agent_completed }
    ∷ record { at = 5; change = agent_closed true }
    ∷ []

abbrev closed_agent : AgentState
closed_agent = record idle_agent {
  status = closed;
  pane_id = none;
  nudge_count = 0;
  last_nudge_at = none;
  last_meaningful_activity_at = 4;
  updated_at = 5;
}

lived : replay transition_agent new_agent whole_life ≡ ok closed_agent
unfolding replay transition_agent apply_agent_change non_empty trim assert_forward_time
    create_agent_state
lived = refl

replay_closed_needs_release_example :
    (tr : AgentTransition) × In tr whole_life × (tr.change ≡ agent_closed true)
replay_closed_needs_release_example = replay_closed_needs_release input whole_life lived refl

losing : is_ok (transition_agent idle_agent (record { at = 110; change = pane_lost })) ≡ true
unfolding transition_agent apply_agent_change assert_forward_time
losing = refl

assess-nudge_iff_example :
    (assess_agent_liveness idle_agent 90100 default_liveness_policy ≡ nudge 2) ↔ (
      (idle_agent.status ≡ idle)
      × (idle_agent.nudge_count < length default_liveness_policy.nudge_backoff_ms)
      × IsDue idle_agent 90100 default_liveness_policy
      × (2 ≡ idle_agent.nudge_count + 1))
assess-nudge_iff_example =
    assess-nudge_iff idle_agent 90100 default_liveness_policy idle_agent-IsWellFormed.recorded 2

abbrev busy_agent : AgentState
busy_agent = record idle_agent { last_meaningful_activity_at = 90099; updated_at = 90099 }

worked :
    replay transition_agent idle_agent (
      record { at = 200; change = operation_started "edit" }
      ∷ record { at = 90099; change = operation_finished }
      ∷ [])
    ≡ ok busy_agent
unfolding replay transition_agent apply_agent_change non_empty trim assert_forward_time
worked = refl

assess_ignores_activity_example :
    assess_agent_liveness busy_agent 90100 default_liveness_policy
    ≡ assess_agent_liveness idle_agent 90100 default_liveness_policy
assess_ignores_activity_example =
    assess_ignores_activity idle_agent busy_agent "edit" 200 90099 90100 default_liveness_policy
      idle_agent-IsWellFormed.recorded (omega arith) worked

abbrev message : AgentMessage
message = record {
  run_id = "r1";
  agent_id = "a1";
  body = Messages.agent_blocked Messages.blocker "no key";
}

abbrev outcome : AgentMessageStateResult
outcome = record {
  agent = record idle_agent {
    status = Agent.blocked;
    blocked_reason = some "no key";
    last_meaningful_activity_at = 300;
    updated_at = 300;
  };
  changed = true;
}

told : apply_agent_message idle_agent message 300 ≡ ok outcome
unfolding apply_agent_message apply_body transition_agent apply_agent_change non_empty trim
    assert_forward_time
told = refl

apply_agent_message-ByChild_example :
    (message.run_id ≡ idle_agent.run_id)
    × (message.agent_id ≡ idle_agent.id)
    × ByChild idle_agent 300 outcome
apply_agent_message-ByChild_example = apply_agent_message-ByChild idle_agent message 300 told

reaction_agrees_example :
    (is_attention (reaction_for_agent_message message) ≡ true
      → needs_help outcome.agent.status ≡ true)
    × (needs_help idle_agent.status ≡ false
        → needs_help outcome.agent.status ≡ true
        → is_attention (reaction_for_agent_message message) ≡ true)
reaction_agrees_example = reaction_agrees idle_agent message 300 told
