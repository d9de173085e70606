-- ===== src/Agent.antt =====
-- The agent's state (AgentState, AgentTransition and createAgentState of
-- src/domain/controller-state.ts). The transitions are in Agent/Change.
pub mod Change
pub mod Invariant
pub mod Lifecycle
pub mod Liveness
use pi_agentworks.Prelude.{ℕ, String, Bool, Option, none, List, ◌==◌, any}

pub data AgentStatus : Type 0 where
  planned launching idle working waiting blocked reviewing completed failed : AgentStatus
  disconnected closed : AgentStatus

pub record AgentState : Type 0 where
  pub schema_version : ℕ
  pub id : String
  pub run_id : String
  pub role_runtime_id : String
  pub status : AgentStatus
  pub task_id : Option String
  pub worktree_path : String
  pub pane_id : Option String
  pub pi_session_path : Option String
  pub current_operation : Option String
  pub waiting_reason : Option String
  pub blocked_reason : Option String
  pub nudge_count : ℕ
  pub last_nudge_at : Option ℕ
  pub last_heartbeat_at : ℕ
  pub last_meaningful_activity_at : ℕ
  pub created_at : ℕ
  pub updated_at : ℕ

-- What `createAgentState` is given: the state less the fields that it sets.
pub record AgentInput : Type 0 where
  pub id : String
  pub run_id : String
  pub role_runtime_id : String
  pub task_id : Option String
  pub worktree_path : String
  pub created_at : ℕ

pub data AgentChange : Type 0 where
  launch_requested : (pane_id : String) → AgentChange
  session_ready : (pi_session_path : String) → AgentChange
  operation_started : (operation : String) → AgentChange
  operation_finished : AgentChange
  waiting_for_input : (reason : String) → AgentChange
  input_received : AgentChange
  agent_blocked : (reason : String) → AgentChange
  agent_unblocked : (operation : String) → AgentChange
  review_started : (operation : String) → AgentChange
  heartbeat nudge_sent agent_completed : AgentChange
  agent_failed : (reason : String) → AgentChange
  pane_lost : AgentChange
  recovery_requested : (pane_id : String) → AgentChange
  agent_closed : (writer_lease_released : Bool) → AgentChange

pub record AgentTransition : Type 0 where
  pub at : ℕ
  pub change : AgentChange

unfoldable pub status_name : AgentStatus → String
status_name planned = "planned"
status_name launching = "launching"
status_name idle = "idle"
status_name working = "working"
status_name waiting = "waiting"
status_name blocked = "blocked"
status_name reviewing = "reviewing"
status_name completed = "completed"
status_name failed = "failed"
status_name disconnected = "disconnected"
status_name closed = "closed"

-- The place of a status among the literals of the union: equal places are equal statuses.
abbrev pub place : AgentStatus → ℕ
place planned = 0
place launching = 1
place idle = 2
place working = 3
place waiting = 4
place blocked = 5
place reviewing = 6
place completed = 7
place failed = 8
place disconnected = 9
place closed = 10

-- `allowed.includes(status)`
abbrev pub includes : List AgentStatus → AgentStatus → Bool
includes allowed status = any (λ s. place s == place status) allowed

unfoldable pub create_agent_state : AgentInput → AgentState
create_agent_state input = record {
  schema_version = 2;
  id = input.id;
  run_id = input.run_id;
  role_runtime_id = input.role_runtime_id;
  status = planned;
  task_id = input.task_id;
  worktree_path = input.worktree_path;
  pane_id = none;
  pi_session_path = none;
  current_operation = none;
  waiting_reason = none;
  blocked_reason = none;
  nudge_count = 0;
  last_nudge_at = none;
  last_heartbeat_at = input.created_at;
  last_meaningful_activity_at = input.created_at;
  created_at = input.created_at;
  updated_at = input.created_at;
}
