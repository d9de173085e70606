-- ===== src/Agent/Change.antt =====
-- The transitions of an agent (transitionAgent of src/domain/controller-state.ts).
use pi_agentworks.Prelude.{ℕ, ◌+◌, String, Bool, Option, none, some, List, [], ◌∷◌, if◌then◌else◌}
use pi_agentworks.Errors.{
  agent, Error, invalid, Result, ok, err, ◌>>=◌, ◌>>◌, guard, non_empty, assert_forward_time,
}
use pi_agentworks.Agent.{
  AgentStatus, planned, launching, idle, working, waiting, blocked, reviewing, completed, failed,
  disconnected, closed, AgentState, AgentChange, launch_requested, session_ready, operation_started,
  operation_finished, waiting_for_input, input_received, agent_blocked, agent_unblocked,
  review_started, heartbeat, nudge_sent, agent_completed, agent_failed, pane_lost,
  recovery_requested, agent_closed, AgentTransition, status_name, includes,
}

unfoldable pub change_type : AgentChange → String
change_type (launch_requested pane_id) = "launch-requested"
change_type (session_ready pi_session_path) = "session-ready"
change_type (operation_started operation) = "operation-started"
change_type operation_finished = "operation-finished"
change_type (waiting_for_input reason) = "waiting-for-input"
change_type input_received = "input-received"
change_type (agent_blocked reason) = "agent-blocked"
change_type (agent_unblocked operation) = "agent-unblocked"
change_type (review_started operation) = "review-started"
change_type heartbeat = "heartbeat"
change_type nudge_sent = "nudge-sent"
change_type agent_completed = "agent-completed"
change_type (agent_failed reason) = "agent-failed"
change_type pane_lost = "pane-lost"
change_type (recovery_requested pane_id) = "recovery-requested"
change_type (agent_closed writer_lease_released) = "agent-closed"

-- `invalid("agent", current.status, transition, reason)`
unfoldable pub invalid_agent : AgentState → AgentChange → Option String → Error
invalid_agent current change reason =
    invalid agent (status_name current.status) (change_type change) reason

abbrev pub assert_agent_status : AgentState → AgentChange → List AgentStatus → Result (Unit {0})
assert_agent_status current change allowed =
    guard (includes allowed current.status) (invalid_agent current change none)

unfoldable pub fail_agent : AgentState → ℕ → String → Result AgentState
fail_agent current at reason =
    if includes (completed ∷ failed ∷ closed ∷ []) current.status
    then err (invalid_agent current (agent_failed reason) none)
    else (do
      blocked_reason ← non_empty reason "failure reason"
      ok (record current {
        status = failed;
        current_operation = none;
        waiting_reason = none;
        blocked_reason = some blocked_reason;
        last_meaningful_activity_at = at;
        updated_at = at;
      }))

unfoldable pub lose_pane : AgentState → ℕ → Result AgentState
lose_pane current at =
    if includes (completed ∷ failed ∷ closed ∷ disconnected ∷ []) current.status
    then err (invalid_agent current pane_lost none)
    else ok (record current {
      status = disconnected;
      pane_id = none;
      current_operation = none;
      waiting_reason = none;
      blocked_reason = some "Herdr pane disconnected";
      updated_at = at;
    })

unfoldable pub recover_agent : AgentState → ℕ → String → Result AgentState
recover_agent current at pane_id = do
  assert_agent_status current (recovery_requested pane_id) (disconnected ∷ [])
  pane ← non_empty pane_id "pane id"
  ok (record current {
    status = launching;
    pane_id = some pane;
    current_operation = some "restoring Pi session";
    blocked_reason = none;
    updated_at = at;
  })

unfoldable pub close_agent : AgentState → ℕ → Bool → Result AgentState
close_agent current at writer_lease_released = do
  assert_agent_status current (agent_closed writer_lease_released)
      (completed ∷ failed ∷ disconnected ∷ [])
  guard writer_lease_released (
      invalid_agent current (agent_closed writer_lease_released)
        (some "writer lease is still active"))
  ok (record current { status = closed; pane_id = none; current_operation = none; updated_at = at })

-- The cases of the `switch`.
unfoldable pub apply_agent_change : AgentState → ℕ → AgentChange → Result AgentState
unfolding fail_agent lose_pane recover_agent close_agent
apply_agent_change current at (launch_requested pane_id) = do
  assert_agent_status current (launch_requested pane_id) (planned ∷ [])
  pane ← non_empty pane_id "pane id"
  ok (record current {
    status = launching;
    pane_id = some pane;
    pi_session_path = none;
    current_operation = some "starting Pi session";
    waiting_reason = none;
    blocked_reason = none;
    updated_at = at;
  })
apply_agent_change current at (session_ready pi_session_path) = do
  assert_agent_status current (session_ready pi_session_path) (launching ∷ [])
  path ← non_empty pi_session_path "Pi session path"
  ok (record current {
    status = idle;
    pi_session_path = some path;
    current_operation = none;
    last_heartbeat_at = at;
    last_meaningful_activity_at = at;
    updated_at = at;
  })
apply_agent_change current at (operation_started operation) = do
  assert_agent_status current (operation_started operation) (idle ∷ [])
  started ← non_empty operation "operation"
  ok (record current {
    status = working;
    current_operation = some started;
    waiting_reason = none;
    blocked_reason = none;
    last_meaningful_activity_at = at;
    updated_at = at;
  })
apply_agent_change current at operation_finished = do
  assert_agent_status current operation_finished (working ∷ reviewing ∷ [])
  ok (record current {
    status = idle;
    current_operation = none;
    last_meaningful_activity_at = at;
    updated_at = at;
  })
apply_agent_change current at (waiting_for_input reason) = do
  assert_agent_status current (waiting_for_input reason) (idle ∷ working ∷ reviewing ∷ [])
  waiting_reason ← non_empty reason "waiting reason"
  ok (record current {
    status = waiting;
    current_operation = none;
    waiting_reason = some waiting_reason;
    last_meaningful_activity_at = at;
    updated_at = at;
  })
apply_agent_change current at input_received = do
  assert_agent_status current input_received (waiting ∷ [])
  ok (record current {
    status = idle;
    waiting_reason = none;
    last_meaningful_activity_at = at;
    updated_at = at;
  })
apply_agent_change current at (agent_blocked reason) = do
  assert_agent_status current (agent_blocked reason) (idle ∷ working ∷ waiting ∷ reviewing ∷ [])
  blocked_reason ← non_empty reason "blocked reason"
  ok (record current {
    status = blocked;
    current_operation = none;
    waiting_reason = none;
    blocked_reason = some blocked_reason;
    last_meaningful_activity_at = at;
    updated_at = at;
  })
apply_agent_change current at (agent_unblocked operation) = do
  assert_agent_status current (agent_unblocked operation) (blocked ∷ [])
  resumed ← non_empty operation "operation"
  ok (record current {
    status = working;
    current_operation = some resumed;
    blocked_reason = none;
    last_meaningful_activity_at = at;
    updated_at = at;
  })
apply_agent_change current at (review_started operation) = do
  assert_agent_status current (review_started operation) (idle ∷ [])
  started ← non_empty operation "review operation"
  ok (record current {
    status = reviewing;
    current_operation = some started;
    last_meaningful_activity_at = at;
    updated_at = at;
  })
apply_agent_change current at heartbeat = do
  assert_agent_status current heartbeat
      (launching ∷ idle ∷ working ∷ waiting ∷ blocked ∷ reviewing ∷ [])
  ok (record current { last_heartbeat_at = at; updated_at = at })
apply_agent_change current at nudge_sent = do
  assert_agent_status current nudge_sent (idle ∷ [])
  ok (record current {
    nudge_count = current.nudge_count + 1;
    last_nudge_at = some at;
    updated_at = at;
  })
apply_agent_change current at agent_completed = do
  assert_agent_status current agent_completed (idle ∷ working ∷ reviewing ∷ [])
  ok (record current {
    status = completed;
    current_operation = none;
    waiting_reason = none;
    blocked_reason = none;
    last_meaningful_activity_at = at;
    updated_at = at;
  })
apply_agent_change current at (agent_failed reason) = fail_agent current at reason
apply_agent_change current at pane_lost = lose_pane current at
apply_agent_change current at (recovery_requested pane_id) = recover_agent current at pane_id
apply_agent_change current at (agent_closed writer_lease_released) =
    close_agent current at writer_lease_released

unfoldable pub transition_agent : AgentState → AgentTransition → Result AgentState
transition_agent current transition = do
  assert_forward_time current.updated_at transition.at
  apply_agent_change current transition.at transition.change
