-- ===== src/Messages/Attention.antt =====
-- The supervisor is called exactly for the messages that leave an agent in need of help.
use pi_agentworks.Prelude.{ℕ, String, ◌≡◌, Bool, true, false, none, some, arith}
use pi_agentworks.Errors.{ok, non_empty-cases}
use pi_agentworks.Agent.{AgentStatus, blocked, failed, AgentState}
use pi_agentworks.Agent.Change.{apply_agent_change, transition_agent}
use pi_agentworks.Messages.{
  AgentMessage, MessageBody, session_started, operation_started, operation_completed, agent_blocked,
  agent_unblocked, AgentMessageStateResult, operation_name, apply_body, apply_agent_message,
  SupervisorReaction, nothing, attention_required, reaction_to_body, reaction_for_agent_message,
}

abbrev pub needs_help : AgentStatus → Bool
needs_help blocked = true
needs_help failed = true
needs_help _ = false

abbrev pub is_attention : SupervisorReaction → Bool
is_attention nothing = false
is_attention (attention_required run_id agent_id reason) = true

-- Both directions, for the part of the message that its type decides.
abbrev Agrees : AgentState → AgentStatus → Bool → Type 0
Agrees s after called =
    (called ≡ true → needs_help after ≡ true)
    × (needs_help s.status ≡ false → needs_help after ≡ true → called ≡ true)

apply_body-Agrees :
    (run_id agent_id : String) (s : AgentState) (m : MessageBody) (at : ℕ)
    {r : AgentMessageStateResult}
    → apply_body s m at ≡ ok r
    → Agrees s r.agent.status (is_attention (reaction_to_body run_id agent_id m))
unfolding apply_body reaction_to_body transition_agent apply_agent_change
apply_body-Agrees i a s (session_started k none) at h = ground arith
apply_body-Agrees i a s (session_started k (some path)) at h =
    ground (arith, non_empty-cases path "Pi session path")
apply_body-Agrees i a s (operation_started task) at h =
    ground (arith, non_empty-cases (operation_name task) "operation")
apply_body-Agrees i a s (operation_completed task succeeded revision) at h = ground (
  arith,
  non_empty-cases "agent operation" "operation",
  non_empty-cases "child operation reported failure" "failure reason",
)
apply_body-Agrees i a s (agent_blocked reason detail) at h =
    ground (arith, non_empty-cases detail "blocked reason")
apply_body-Agrees i a s (agent_unblocked operation) at h =
    ground (arith, non_empty-cases operation "operation")
apply_body-Agrees i a s m at h = ground arith

-- If an accepted message calls the supervisor, the agent is blocked or failed after it; and an
-- accepted message that takes an agent which is neither into one of the two calls the supervisor.
pub reaction_agrees :
    (s : AgentState) (m : AgentMessage) (at : ℕ) {r : AgentMessageStateResult}
    → apply_agent_message s m at ≡ ok r
    → (is_attention (reaction_for_agent_message m) ≡ true → needs_help r.agent.status ≡ true)
      × (needs_help s.status ≡ false
          → needs_help r.agent.status ≡ true
          → is_attention (reaction_for_agent_message m) ≡ true)
unfolding apply_agent_message reaction_for_agent_message
reaction_agrees s m at {r} h =
    apply_body-Agrees m.run_id m.agent_id s m.body at {r = r} (ground arith)
