-- ===== src/Supervision.antt =====
-- The supervision of idle agents at a tick (src/application/orchestration/idle-agent-supervisor.ts).
pub mod Nudges
use Prim.Native.String
use pi_agentworks.Prelude.{
  ℕ, String, Bool, true, false, ◌&&◌, Option, none, some, List, [], ◌∷◌, if◌then◌else◌, leb, str_eq,
}
use pi_agentworks.Errors.{Error, herdr_failed, Result, ok, err, ◌>>=◌}
use pi_agentworks.Agent.{AgentState, AgentChange, agent_blocked, nudge_sent, pane_lost}
use pi_agentworks.Agent.Change.{transition_agent}
use pi_agentworks.Agent.Liveness.{
  LivenessDecision, leave, nudge, escalate, assess_agent_liveness, default_liveness_policy,
}
use pi_agentworks.Store.{Database, FencedWrite, agent, Snapshot, SnapshotInput, CommitResult}
use pi_agentworks.Store.Lease.{is_text}
use pi_agentworks.Store.Snapshots.{commit_snapshot}
use pi_agentworks.MessageController.{with_agent}

pub data SupervisionAction : Type 0 where
  rest : SupervisionAction
  nudged : (agent_id : String) → SupervisionAction
  recorded_loss escalated : (agent_id reason : String) → SupervisionAction

pub record IdleAgentSupervisionResult : Type 0 where
  pub action : SupervisionAction
  pub revision : ℕ

-- The three tokens of a pane that are read.
pub record PaneTokens : Type 0 where
  pub aw_kind : Option String
  pub aw_run : Option String
  pub aw_agent : Option String

-- The pane that a text was sent to, whatever became of the rest, and the result.
pub record Supervision : Type 0 where
  pub sent : Option String
  pub outcome : Result (Database × IdleAgentSupervisionResult)

pub data SupervisionPayload : Type 0 where
  of_attempt : ℕ → SupervisionPayload
  of_reason : String → SupervisionPayload

abbrev pub owns_pane : String → AgentState → PaneTokens → Bool
owns_pane run_id current tokens =
    is_text tokens.aw_kind "agent"
    && is_text tokens.aw_run run_id
    && is_text tokens.aw_agent current.id

abbrev pub quietly : Result (Database × IdleAgentSupervisionResult) → Supervision
quietly outcome = record { sent = none; outcome = outcome }

-- `value ?? text`
abbrev pub or_text : Option String → String → String
or_text none text = text
or_text (some value) text = value

abbrev pub later_time : ℕ → ℕ → ℕ
later_time a b = if leb a b then b else a

-- `get_pane` and `send_text` are the calls of Herdr, where `none` and `false` stand for a call that
-- throws; `clock` is the time and `uuid` the identifier that are asked for; `decimal` writes a
-- number, `json` a payload, and `hash` is the hash of the request of an agent.
module _ (get_pane : String → Option PaneTokens) (send_text : String → Bool) (clock : ℕ)
    (uuid : String) (decimal : ℕ → String) (json : SupervisionPayload → String)
    (hash : String → String) where
  unfoldable pub commit :
      Database
      → Snapshot
      → FencedWrite
      → AgentState
      → String
      → SupervisionPayload
      → SupervisionAction
      → Result (Database × IdleAgentSupervisionResult)
  commit db snapshot write changed type payload action = do
    result ← commit_snapshot db snapshot.run.id snapshot.revision (record {
      write = write;
      idempotency_key =
          String.◌++◌
            (String.◌++◌ (String.◌++◌ "idle-supervision-r" (decimal snapshot.revision)) "-")
            changed.id;
      request_hash = hash changed.id;
      run = snapshot.run;
      stories = snapshot.stories;
      agents = with_agent changed snapshot.agents;
      events =
          record {
            event_id = uuid;
            type = type;
            entity_type = agent;
            entity_id = changed.id;
            payload = json payload;
            occurred_at = changed.updated_at;
          }
          ∷ [];
    })
    ok (result.0, record { action = action; revision = result.1.revision })

  unfoldable pub record_pane_loss :
      Database
      → Snapshot
      → FencedWrite
      → AgentState
      → Result (Database × IdleAgentSupervisionResult)
  unfolding commit
  record_pane_loss db snapshot write current = do
    lost ←
        transition_agent current
          (record { at = later_time clock current.updated_at; change = pane_lost })
    commit db snapshot write lost "agent-pane-lost"
        (of_reason "Herdr pane is unavailable or no longer owned")
        (recorded_loss current.id (or_text lost.blocked_reason "Herdr pane is unavailable"))

  -- The nudge of an agent in this pane, if the pane is there and is the agent's.
  unfoldable pub nudge_pane :
      Database → Snapshot → FencedWrite → AgentState → ℕ → String → Option PaneTokens → Supervision
  unfolding commit record_pane_loss
  nudge_pane db snapshot write current attempt pane_id none =
      quietly (record_pane_loss db snapshot write current)
  nudge_pane db snapshot write current attempt pane_id (some tokens) =
      if owns_pane snapshot.run.id current tokens
      then record {
        sent = some pane_id;
        outcome =
            if send_text pane_id
            then (do
              changed ← transition_agent current (record { at = clock; change = nudge_sent })
              commit db snapshot write changed "agent-nudged" (of_attempt attempt)
                  (nudged current.id))
            else err herdr_failed;
      }
      else quietly (record_pane_loss db snapshot write current)

  unfoldable pub escalate_agent :
      Database
      → Snapshot
      → FencedWrite
      → AgentState
      → String
      → Result (Database × IdleAgentSupervisionResult)
  unfolding commit
  escalate_agent db snapshot write current reason = do
    changed ←
        transition_agent current
          (record { at = clock; change = agent_blocked (String.◌++◌ "idle supervision: " reason) })
    commit db snapshot write changed "agent-liveness-escalated" (of_reason reason)
        (escalated current.id reason)

  -- What the loop does with one agent, or `later` if it goes on.
  unfoldable pub supervise_agent :
      Database
      → Snapshot
      → FencedWrite
      → AgentState
      → LivenessDecision
      → Option String
      → Supervision
      → Supervision
  unfolding nudge_pane escalate_agent
  supervise_agent db snapshot write current (leave reason) pane later = later
  supervise_agent db snapshot write current (nudge attempt) none later = later
  supervise_agent db snapshot write current (nudge attempt) (some pane_id) later =
      nudge_pane db snapshot write current attempt pane_id (get_pane pane_id)
  supervise_agent db snapshot write current (escalate reason) pane later =
      quietly (escalate_agent db snapshot write current reason)

  unfoldable pub supervise_agents :
      Database → Snapshot → FencedWrite → List AgentState → Supervision
  unfolding supervise_agent
  supervise_agents db snapshot write [] =
      quietly (ok (db, record { action = rest; revision = snapshot.revision }))
  supervise_agents db snapshot write (current ∷ agents) =
      supervise_agent db snapshot write current
        (assess_agent_liveness current write.now default_liveness_policy) current.pane_id
        (supervise_agents db snapshot write agents)

  unfoldable pub supervise : Database → Snapshot → FencedWrite → Supervision
  unfolding supervise_agents
  supervise db snapshot write = supervise_agents db snapshot write snapshot.agents
