-- ===== src/Messages.antt =====
-- The messages of child agents and what they do to the agent's state (AgentMessage of
-- src/domain/agent-communication.ts, applyAgentMessage of src/domain/agent-message-state.ts and
-- reactionForAgentMessage of src/domain/supervisor-reaction.ts).
pub mod Authority
pub mod Attention
use Prim.Native.String
use pi_agentworks.Prelude.{
  ℕ, String, Bool, true, false, ◌&&◌, Option, none, some, if◌then◌else◌, str_eq,
}
use pi_agentworks.Errors.{Error, message_state, Result, ok, err, ◌>>=◌, ◌>>◌, guard}
use pi_agentworks.Agent.{AgentStatus, blocked, AgentState}
use pi_agentworks.Agent
use pi_agentworks.Agent.Change.{transition_agent}
use pi_agentworks.Agent.Liveness.{is_idle}

-- Why an agent is blocked; `blocker` is the literal "blocked".
pub data BlockerReason : Type 0 where
  idle_blocker blocker timeout : BlockerReason

pub data CompletionOutcome : Type 0 where
  success early over : CompletionOutcome

pub data ReviewOutcome : Type 0 where
  approved changes_requested : ReviewOutcome

-- The part of a message that its type decides.
pub data MessageBody : Type 0 where
  session_started : (session_id : String) (pi_session_path : Option String) → MessageBody
  session_shutdown : (session_id : String) → MessageBody
  operation_started : (task_id : Option String) → MessageBody
  operation_progress : (task_id output : Option String) → MessageBody
  operation_completed :
      (task_id : Option String) (succeeded : Bool) (revision : Option ℕ) → MessageBody
  heartbeat : (elapsed_ms : ℕ) (revision : Option ℕ) → MessageBody
  agent_blocked : (reason : BlockerReason) (detail : String) → MessageBody
  agent_unblocked : (operation : String) → MessageBody
  candidate_ready : MessageBody
  review_submitted :
      (outcome : ReviewOutcome) (candidate_story_head integration_head : String) → MessageBody
  supervisor_nudge : (reason : BlockerReason) → MessageBody
  supervisor_completion : (outcome : CompletionOutcome) (revision : Option ℕ) → MessageBody
  supervisor_error : (code message : String) → MessageBody

pub record AgentMessage : Type 0 where
  pub run_id : String
  pub agent_id : String
  pub body : MessageBody

pub record AgentMessageStateResult : Type 0 where
  pub agent : AgentState
  pub changed : Bool

unfoldable pub unchanged : AgentState → AgentMessageStateResult
unchanged agent = record { agent = agent; changed = false }

-- `Object.freeze({ agent: transitionAgent(current, …), changed: true })`
unfoldable pub changed_by : AgentState → ℕ → Agent.AgentChange → Result AgentMessageStateResult
changed_by current at change = do
  agent ← transition_agent current (record { at = at; change = change })
  ok (record { agent = agent; changed = true })

abbrev pub is_blocked : AgentStatus → Bool
is_blocked blocked = true
is_blocked _ = false

-- `path === value`, where the path may be null.
abbrev pub path_is : Option String → String → Bool
path_is none value = false
path_is (some path) value = str_eq path value

-- `message.taskId ?? "agent operation"`
abbrev pub operation_name : Option String → String
operation_name none = "agent operation"
operation_name (some task_id) = task_id

unfoldable pub complete_operation : AgentState → Bool → ℕ → Result AgentMessageStateResult
unfolding changed_by
complete_operation current succeeded at =
    if succeeded && is_blocked current.status
    then (do
      resumed ←
          transition_agent current
            (record { at = at; change = Agent.agent_unblocked "agent operation" })
      changed_by resumed at Agent.operation_finished)
    else (if succeeded
        then changed_by current at Agent.operation_finished
        else changed_by current at (Agent.agent_failed "child operation reported failure"))

-- The cases of the `switch`, for a message of this very agent.
unfoldable pub apply_body : AgentState → MessageBody → ℕ → Result AgentMessageStateResult
unfolding unchanged changed_by complete_operation
apply_body current (session_started session_id none) at = ok (unchanged current)
apply_body current (session_started session_id (some path)) at =
    if is_idle current.status && path_is current.pi_session_path path
    then ok (unchanged current)
    else changed_by current at (Agent.session_ready path)
apply_body current (operation_started task_id) at =
    changed_by current at (Agent.operation_started (operation_name task_id))
apply_body current (operation_progress task_id output) at = changed_by current at Agent.heartbeat
apply_body current (operation_completed task_id succeeded revision) at =
    complete_operation current succeeded at
apply_body current (heartbeat elapsed_ms revision) at = changed_by current at Agent.heartbeat
apply_body current (agent_blocked reason detail) at =
    if is_blocked current.status
    then ok (unchanged current)
    else changed_by current at (Agent.agent_blocked detail)
apply_body current (agent_unblocked operation) at =
    if is_blocked current.status
    then changed_by current at (Agent.agent_unblocked operation)
    else ok (unchanged current)
apply_body current (session_shutdown session_id) at = ok (unchanged current)
apply_body current candidate_ready at = ok (unchanged current)
apply_body current (review_submitted outcome candidate_story_head integration_head) at =
    ok (unchanged current)
apply_body current (supervisor_nudge reason) at =
    err (message_state "controller-directed message supervisor-nudge cannot update child state")
apply_body current (supervisor_completion outcome revision) at =
    err
      (message_state "controller-directed message supervisor-completion cannot update child state")
apply_body current (supervisor_error code message) at =
    err (message_state "controller-directed message supervisor-error cannot update child state")

unfoldable pub apply_agent_message : AgentState → AgentMessage → ℕ → Result AgentMessageStateResult
apply_agent_message current message at = do
  guard (str_eq message.run_id current.run_id && str_eq message.agent_id current.id)
      (message_state "message identity does not match the agent state")
  apply_body current message.body at

pub data SupervisorReaction : Type 0 where
  nothing : SupervisorReaction
  attention_required : (run_id agent_id reason : String) → SupervisorReaction

-- The test on the message's type and success.
unfoldable pub reaction_to_body : String → String → MessageBody → SupervisorReaction
reaction_to_body run_id agent_id (agent_blocked reason detail) =
    attention_required run_id agent_id detail
reaction_to_body run_id agent_id (operation_completed task_id succeeded revision) =
    if succeeded
    then nothing
    else attention_required run_id agent_id "child operation reported failure"
reaction_to_body run_id agent_id _ = nothing

unfoldable pub reaction_for_agent_message : AgentMessage → SupervisorReaction
unfolding reaction_to_body
reaction_for_agent_message message = reaction_to_body message.run_id message.agent_id message.body
