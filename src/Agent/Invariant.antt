-- ===== src/Agent/Invariant.antt =====
-- What holds of every agent state: which fields are recorded in which status, and in which order
-- its times stand.
use pi_agentworks.Prelude.{
  ℕ, ◌≤◌, ◌≡◌, ◌≢◌, ◌∙◌, Bool, true, false, not, Option, none, some, List, arith, is_some, ◌==◌,
}
use pi_agentworks.Errors.{
  ok, assert_forward_time, non_empty-cases, assert_forward_time-eq-ok, >>=-eq-ok,
}
use pi_agentworks.Agent.{
  AgentStatus, planned, launching, idle, working, waiting, blocked, reviewing, failed, disconnected,
  closed, AgentState, AgentInput, AgentChange, launch_requested, session_ready, operation_started,
  waiting_for_input, agent_blocked, agent_unblocked, review_started, agent_failed,
  recovery_requested, AgentTransition, create_agent_state,
}
use pi_agentworks.Agent.Change.{apply_agent_change, transition_agent}
use pi_agentworks.Trace.{replay, replay_inv}

-- The statuses with a live Pi session.
abbrev pub has_session : AgentStatus → Bool
has_session idle = true
has_session working = true
has_session waiting = true
has_session blocked = true
has_session reviewing = true
has_session _ = false

abbrev pub has_pane : AgentStatus → Bool
has_pane launching = true
has_pane status = has_session status

abbrev pub has_no_pane : AgentStatus → Bool
has_no_pane planned = true
has_no_pane disconnected = true
has_no_pane closed = true
has_no_pane _ = false

abbrev pub has_operation : AgentStatus → Bool
has_operation launching = true
has_operation working = true
has_operation reviewing = true
has_operation _ = false

abbrev pub is_waiting : AgentStatus → Bool
is_waiting waiting = true
is_waiting _ = false

abbrev pub has_reason : AgentStatus → Bool
has_reason blocked = true
has_reason failed = true
has_reason disconnected = true
has_reason _ = false

-- A time that may not be recorded yet is not after `t`.
abbrev pub NotAfter : Option ℕ → ℕ → Type 0
NotAfter none t = Unit
NotAfter (some s) t = s ≤ t

-- Which fields are recorded in which status. A closed agent may keep its reason.
pub record IsRecorded (s : AgentState) : Type 0 where
  pub pane : has_pane s.status ≡ true → is_some s.pane_id ≡ true
  pub no_pane : has_no_pane s.status ≡ true → is_some s.pane_id ≡ false
  pub session : has_session s.status ≡ true → is_some s.pi_session_path ≡ true
  pub operation : is_some s.current_operation ≡ has_operation s.status
  pub wait : is_some s.waiting_reason ≡ is_waiting s.status
  pub reason : s.status ≢ closed → is_some s.blocked_reason ≡ has_reason s.status
  pub nudged : is_some s.last_nudge_at ≡ not (s.nudge_count == 0)

pub record IsTimely (s : AgentState) : Type 0 where
  pub born : s.created_at ≤ s.last_meaningful_activity_at
  pub active : s.last_meaningful_activity_at ≤ s.updated_at
  pub alive : s.last_heartbeat_at ≤ s.updated_at
  pub nudge : NotAfter s.last_nudge_at s.updated_at

-- The fields that identify an agent.
pub record SameAgent (s t : AgentState) : Type 0 where
  pub schema_version : t.schema_version ≡ s.schema_version
  pub id : t.id ≡ s.id
  pub run_id : t.run_id ≡ s.run_id
  pub role_runtime_id : t.role_runtime_id ≡ s.role_runtime_id
  pub task_id : t.task_id ≡ s.task_id
  pub worktree_path : t.worktree_path ≡ s.worktree_path
  pub created_at : t.created_at ≡ s.created_at

-- What is shown of each change.
abbrev Kept : AgentState → ℕ → AgentState → Type 0
Kept s at t = IsRecorded t × IsTimely t × SameAgent s t × (t.updated_at ≡ at)

apply_agent_change-Kept :
    (s : AgentState) (at : ℕ) (c : AgentChange) {t : AgentState}
    → IsRecorded s
    → IsTimely s
    → s.updated_at ≤ at
    → apply_agent_change s at c ≡ ok t
    → Kept s at t
unfolding apply_agent_change
apply_agent_change-Kept s at (launch_requested p) r w f h =
    ground (arith, non_empty-cases p "pane id")
apply_agent_change-Kept s at (session_ready p) r w f h =
    ground (arith, non_empty-cases p "Pi session path")
apply_agent_change-Kept s at (operation_started o) r w f h =
    ground (arith, non_empty-cases o "operation")
apply_agent_change-Kept s at (waiting_for_input o) r w f h =
    ground (arith, non_empty-cases o "waiting reason")
apply_agent_change-Kept s at (agent_blocked o) r w f h =
    ground (arith, non_empty-cases o "blocked reason")
apply_agent_change-Kept s at (agent_unblocked o) r w f h =
    ground (arith, non_empty-cases o "operation")
apply_agent_change-Kept s at (review_started o) r w f h =
    ground (arith, non_empty-cases o "review operation")
apply_agent_change-Kept s at (agent_failed o) r w f h =
    ground (arith, non_empty-cases o "failure reason")
apply_agent_change-Kept s at (recovery_requested p) r w f h =
    ground (arith, non_empty-cases p "pane id")
apply_agent_change-Kept s at c r w f h = ground arith

pub record IsWellFormed (s : AgentState) : Type 0 where
  pub version : s.schema_version ≡ 2
  pub recorded : IsRecorded s
  pub timely : IsTimely s

pub create_agent_state-IsWellFormed : (input : AgentInput) → IsWellFormed (create_agent_state input)
unfolding create_agent_state
create_agent_state-IsWellFormed input = ground arith

-- Every transition that is accepted keeps a well-formed agent well formed, keeps each field that
-- identifies the agent, and sets its time to the transition's, which is not before the old one.
pub transition_agent-IsWellFormed :
    (s : AgentState) (tr : AgentTransition) {t : AgentState}
    → IsWellFormed s
    → transition_agent s tr ≡ ok t
    → IsWellFormed t × SameAgent s t × (t.updated_at ≡ tr.at) × (s.updated_at ≤ t.updated_at)
unfolding transition_agent
transition_agent-IsWellFormed s tr w h =
    let (u, timely, changed) = >>=-eq-ok (assert_forward_time s.updated_at tr.at) _ h in
    let (forward, safe) = assert_forward_time-eq-ok s.updated_at tr.at timely in
    let (recorded, timed, same, time) =
      apply_agent_change-Kept s tr.at tr.change w.recorded w.timely forward changed in
    (
      record { version = same.schema_version ∙ w.version; recorded = recorded; timely = timed },
      same,
      time,
      omega (arith, time, forward),
    )

-- So does every sequence of transitions.
pub replay-IsWellFormed :
    (s : AgentState) (trs : List AgentTransition) {t : AgentState}
    → IsWellFormed s
    → replay transition_agent s trs ≡ ok t
    → IsWellFormed t
replay-IsWellFormed =
    replay_inv transition_agent IsWellFormed
      (λ s tr t w h. (transition_agent-IsWellFormed s tr w h).0)
