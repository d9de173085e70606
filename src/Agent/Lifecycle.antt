-- ===== src/Agent/Lifecycle.antt =====
-- The end of an agent's life, and the loss and recovery of its pane.
use pi_agentworks.Prelude.{
  ℕ, ◌≤◌, String, ◌≡◌, ◌≢◌, ◌⊎◌, inl, inr, true, false, none, some, List, [], ◌∷◌, arith, In, trim,
}
use pi_agentworks.Errors.{
  ok, is_ok, assert_forward_time, non_empty-cases, >>=-eq-ok, max_safe_integer,
}
use pi_agentworks.Agent.{
  idle, completed, failed, closed, AgentState, AgentInput, AgentChange, launch_requested,
  session_ready, operation_started, waiting_for_input, agent_blocked, agent_unblocked,
  review_started, agent_failed, pane_lost, recovery_requested, agent_closed, AgentTransition,
  create_agent_state,
}
use pi_agentworks.Agent.Change.{apply_agent_change, transition_agent}
use pi_agentworks.Trace.{replay, replay_witness}

apply_agent_change_of_settled :
    (s : AgentState) (at : ℕ) (c : AgentChange)
    → (s.status ≡ completed) ⊎ (s.status ≡ failed)
    → (c ≡ agent_closed true) ⊎ (is_ok (apply_agent_change s at c) ≡ false)
unfolding apply_agent_change
apply_agent_change_of_settled s at (launch_requested p) h = ground arith
apply_agent_change_of_settled s at c h = ground arith

apply_agent_change_of_closed :
    (s : AgentState) (at : ℕ) (c : AgentChange)
    → s.status ≡ closed
    → is_ok (apply_agent_change s at c) ≡ false
unfolding apply_agent_change
apply_agent_change_of_closed s at (launch_requested p) h = ground arith
apply_agent_change_of_closed s at c h = ground arith

-- A completed or failed agent refuses every transition but its closing with the writer's lease
-- released, and a closed one refuses them all.
pub transition_agent_of_settled :
    (s : AgentState) (tr : AgentTransition)
    → (((s.status ≡ completed) ⊎ (s.status ≡ failed))
        → (tr.change ≡ agent_closed true) ⊎ (is_ok (transition_agent s tr) ≡ false))
      × (s.status ≡ closed → is_ok (transition_agent s tr) ≡ false)
unfolding transition_agent
transition_agent_of_settled s tr = (
  λ h. ground (arith, apply_agent_change_of_settled s tr.at tr.change h),
  λ h. ground (arith, apply_agent_change_of_closed s tr.at tr.change h),
)

apply_agent_change-open :
    (s : AgentState) (at : ℕ) (c : AgentChange) {t : AgentState}
    → s.status ≢ closed
    → apply_agent_change s at c ≡ ok t
    → (c ≡ agent_closed true) ⊎ (t.status ≢ closed)
unfolding apply_agent_change
apply_agent_change-open s at (launch_requested p) w h = ground (arith, non_empty-cases p "pane id")
apply_agent_change-open s at (session_ready p) w h =
    ground (arith, non_empty-cases p "Pi session path")
apply_agent_change-open s at (operation_started o) w h =
    ground (arith, non_empty-cases o "operation")
apply_agent_change-open s at (waiting_for_input o) w h =
    ground (arith, non_empty-cases o "waiting reason")
apply_agent_change-open s at (agent_blocked o) w h =
    ground (arith, non_empty-cases o "blocked reason")
apply_agent_change-open s at (agent_unblocked o) w h = ground (arith, non_empty-cases o "operation")
apply_agent_change-open s at (review_started o) w h =
    ground (arith, non_empty-cases o "review operation")
apply_agent_change-open s at (agent_failed o) w h =
    ground (arith, non_empty-cases o "failure reason")
apply_agent_change-open s at (recovery_requested p) w h =
    ground (arith, non_empty-cases p "pane id")
apply_agent_change-open s at c w h = ground arith

transition_agent-open :
    (s : AgentState) (tr : AgentTransition) (t : AgentState)
    → s.status ≢ closed
    → transition_agent s tr ≡ ok t
    → (tr.change ≡ agent_closed true) ⊎ (t.status ≢ closed)
unfolding transition_agent
transition_agent-open s tr t w h =
    let (u, timely, changed) = >>=-eq-ok (assert_forward_time s.updated_at tr.at) _ h in
    apply_agent_change-open s tr.at tr.change w changed

create_agent_state-open : (input : AgentInput) → (create_agent_state input).status ≢ closed
unfolding create_agent_state
create_agent_state-open input = cc

-- A new agent is only ever closed by a closing with the writer's lease released.
pub replay_closed_needs_release :
    (input : AgentInput) (trs : List AgentTransition) {t : AgentState}
    → replay transition_agent (create_agent_state input) trs ≡ ok t
    → t.status ≡ closed
    → (tr : AgentTransition) × In tr trs × (tr.change ≡ agent_closed true)
replay_closed_needs_release input trs h k =
    elim (replay_witness transition_agent (λ s. s.status ≢ closed)
      (λ tr. tr.change ≡ agent_closed true) transition_agent-open (create_agent_state input) trs
      (create_agent_state-open input) h) [
        | inl found ↦ found
        | inr open_still ↦ absurd (open_still k)
      ]

-- If an agent accepts that its pane is lost, then a recovery into a visible pane id and a ready
-- session with a visible path, at times that do not go back and are safe integers, are accepted
-- too: it is then the same agent, idle in that pane and session, with nothing outstanding.
pub lose-recover :
    (s : AgentState) (pane path : String) (lost asked back : ℕ)
    → is_ok (transition_agent s (record { at = lost; change = pane_lost })) ≡ true
    → lost ≤ asked
    → asked ≤ back
    → back ≤ max_safe_integer
    → trim pane ≢ ""
    → trim path ≢ ""
    → replay transition_agent s (
        record { at = lost; change = pane_lost }
        ∷ record { at = asked; change = recovery_requested pane }
        ∷ record { at = back; change = session_ready path }
        ∷ [])
      ≡ ok (record s {
        status = idle;
        pane_id = some (trim pane);
        pi_session_path = some (trim path);
        current_operation = none;
        waiting_reason = none;
        blocked_reason = none;
        last_heartbeat_at = back;
        last_meaningful_activity_at = back;
        updated_at = back;
      })
unfolding replay transition_agent apply_agent_change assert_forward_time
lose-recover s pane path lost asked back live p q r pane_visible path_visible =
    ground (arith, non_empty-cases pane "pane id", non_empty-cases path "Pi session path")
