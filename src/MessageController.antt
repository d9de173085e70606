-- ===== src/MessageController.antt =====
-- The delivery of a child agent's message to the database
-- (src/application/controller/agent-message-controller.ts).
pub mod Effect
use Prim.Native.String
use pi_agentworks.Prelude.{
  ℕ, String, Bool, true, false, not, ◌&&◌, Option, none, some, List, [], ◌∷◌, ◌++◌, map,
  if◌then◌else◌, str_eq,
}
use pi_agentworks.Errors.{Error, unknown_to_controller, message_refused, Result, ok, err, ◌>>=◌}
use pi_agentworks.Agent.{AgentState}
use pi_agentworks.Messages.{
  MessageBody, session_started, session_shutdown, operation_started, operation_progress,
  operation_completed, heartbeat, agent_blocked, agent_unblocked, candidate_ready, ReviewOutcome,
  review_submitted, supervisor_nudge, supervisor_completion, supervisor_error, AgentMessage,
  AgentMessageStateResult, apply_agent_message, SupervisorReaction, nothing, attention_required,
  reaction_for_agent_message,
}
use pi_agentworks.Store.{
  Database, StoryRow, FencedWrite, EventInput, agent, Snapshot, SnapshotInput, CommitResult,
}
use pi_agentworks.Store.Tables.{select}
use pi_agentworks.Store.Validation.{agent_id}
use pi_agentworks.Store.Snapshots.{load_snapshot, commit_snapshot}

pub record AgentMessageCommitResult : Type 0 where
  pub revision : ℕ
  pub changed : Bool
  pub replayed : Bool
  pub reaction : SupervisorReaction

-- What an event says, before it is written as JSON.
pub data Payload : Type 0 where
  of_type : (type : String) → Payload
  of_review :
      (type : String) (outcome : ReviewOutcome) (candidate_story_head integration_head : String)
      → Payload
  of_attention : (reason : String) → Payload

-- `message.type`
unfoldable pub message_type : MessageBody → String
message_type (session_started session_id path) = "session-started"
message_type (session_shutdown session_id) = "session-shutdown"
message_type (operation_started task_id) = "operation-started"
message_type (operation_progress task_id output) = "operation-progress"
message_type (operation_completed task_id succeeded revision) = "operation-completed"
message_type (heartbeat elapsed_ms revision) = "heartbeat"
message_type (agent_blocked reason detail) = "agent-blocked"
message_type (agent_unblocked operation) = "agent-unblocked"
message_type candidate_ready = "candidate-ready"
message_type (review_submitted outcome candidate integration) = "review-submitted"
message_type (supervisor_nudge reason) = "supervisor-nudge"
message_type (supervisor_completion outcome revision) = "supervisor-completion"
message_type (supervisor_error code message) = "supervisor-error"

-- requiresDurableControllerHandling
abbrev pub requires_durable_controller_handling : MessageBody → Bool
requires_durable_controller_handling candidate_ready = true
requires_durable_controller_handling (review_submitted outcome candidate integration) = true
requires_durable_controller_handling (session_shutdown session_id) = true
requires_durable_controller_handling _ = false

abbrev pub message_payload : MessageBody → Payload
message_payload (review_submitted outcome candidate integration) =
    of_review "review-submitted" outcome candidate integration
message_payload body = of_type (message_type body)

-- `value ?? throw new AgentMessageControllerError(...)`
abbrev pub known {ℓ} : {A : Type ℓ} → Option A → String → Result A
known none label = err (unknown_to_controller label)
known (some value) label = ok value

-- `try { ... } catch { throw new AgentMessageControllerError(...) }`
abbrev pub refuse_message {ℓ} : {A : Type ℓ} → Result A → Result A
refuse_message (ok value) = ok value
refuse_message (err thrown) = err (message_refused thrown)

-- The event for the supervisor, if the message calls it.
abbrev pub attention_events :
    (Payload → String) → SupervisorReaction → AgentMessage → String → ℕ → List EventInput
attention_events json nothing message request_id at = []
attention_events json (attention_required run_id agent_id reason) message request_id at =
    record {
      event_id = String.◌++◌ request_id "-supervisor";
      type = "supervisor-attention-required";
      entity_type = agent;
      entity_id = message.agent_id;
      payload = json (of_attention reason);
      occurred_at = at;
    }
    ∷ []

-- `agents.map((candidate) => candidate.id === agent.id ? agent : candidate)`
abbrev pub with_agent : AgentState → List AgentState → List AgentState
with_agent changed agents =
    map (λ (a : AgentState). if str_eq a.id changed.id then changed else a) agents

-- The result without a commit, or that of the commit.
abbrev pub message_result :
    Database
    → AgentMessage
    → ℕ
    → Bool
    → Result (Database × CommitResult)
    → Result (Database × AgentMessageCommitResult)
message_result db message revision true commit = ok (
  db,
  record {
    revision = revision;
    changed = false;
    replayed = false;
    reaction = reaction_for_agent_message message;
  },
)
message_result db message revision false commit = do
  result ← commit
  ok (
    result.0,
    record {
      revision = result.1.revision;
      changed = true;
      replayed = result.1.replayed;
      reaction = reaction_for_agent_message message;
    },
  )

-- `json` writes an event's payload as JSON text, and `hash` is the hash of the request
-- `{ command: "agent.message", requestId, type }`.
module _ (order_stories : List StoryRow → List StoryRow)
    (order_agents : List AgentState → List AgentState) (json : Payload → String)
    (hash : String → String → String) where
  -- The command by which a changed agent is committed.
  abbrev pub message_commit :
      AgentMessage → FencedWrite → String → ℕ → Snapshot → AgentState → SnapshotInput
  message_commit message write request_id at snapshot changed = record {
    write = write;
    idempotency_key = String.◌++◌ "agent-message-" request_id;
    request_hash = hash request_id (message_type message.body);
    run = snapshot.run;
    stories = snapshot.stories;
    agents = with_agent changed snapshot.agents;
    events =
        record {
          event_id = request_id;
          type = String.◌++◌ "agent-" (message_type message.body);
          entity_type = agent;
          entity_id = message.agent_id;
          payload = json (message_payload message.body);
          occurred_at = at;
        }
        ∷ attention_events json (reaction_for_agent_message message) message request_id at;
  }

  -- AgentMessageController.apply, at the time `at` of the clock.
  unfoldable pub apply :
      Database
      → AgentMessage
      → FencedWrite
      → String
      → ℕ
      → Result (Database × AgentMessageCommitResult)
  apply db message write request_id at = do
    loaded ← load_snapshot order_stories order_agents db message.run_id
    snapshot ← known loaded "unknown run"
    current ← known (select agent_id message.agent_id snapshot.agents) "unknown agent"
    state ← refuse_message (apply_agent_message current message at)
    message_result db message snapshot.revision
        (not state.changed && not (requires_durable_controller_handling message.body))
        (commit_snapshot db message.run_id snapshot.revision
          (message_commit message write request_id at snapshot state.agent))
