-- ===== src/Connection.antt =====
-- Which agents have lost their pane, and how they are restored (src/domain/agent-connection.ts).
pub mod Restoration
use Prim.Native.String
use pi_agentworks.Prelude.{
  String, Bool, true, false, not, Option, none, some, List, [], ◌∷◌, map, filter, if◌then◌else◌,
  is_some, str_eq,
}
use pi_agentworks.StoryPlan.{includes}

pub record ExpectedAgentPane : Type 0 where
  pub agent_id : String
  pub pane_id : String
  pub ownership_token : String
  pub session_present : Bool
  pub status : String

pub record LivePaneEvidence : Type 0 where
  pub pane_id : String
  pub ownership_token : Option String

pub data AgentConnectionState : Type 0 where
  connected disconnected inactive : AgentConnectionState

pub data RestorationAction : Type 0 where
  nothing resume_session relaunch_fresh : RestorationAction

pub record AgentConnectionAssessment : Type 0 where
  pub agent_id : String
  pub connection : AgentConnectionState
  pub restoration : RestorationAction
  pub reason : String

-- ACTIVE_AGENT_STATES
abbrev pub is_active : String → Bool
is_active status =
    includes
      ("launching" ∷ "working" ∷ "reviewing" ∷ "idle" ∷ "waiting" ∷ "blocked" ∷ "disconnected" ∷ [])
      status

abbrev pub restoration_for : Bool → RestorationAction
restoration_for session_present = if session_present then resume_session else relaunch_fresh

abbrev pub or_else {ℓ} : {A : Type ℓ} → Option A → Option A → Option A
or_else none other = other
or_else (some value) other = some value

-- The pane with this id in the Map of the live panes, in which a later pane replaces an earlier one.
unfoldable pub live_by_id : List LivePaneEvidence → String → Option LivePaneEvidence
live_by_id [] id = none
live_by_id (pane ∷ panes) id =
    or_else (live_by_id panes id) (if str_eq pane.pane_id id then some pane else none)

abbrev pub decide :
    String → AgentConnectionState → RestorationAction → String → AgentConnectionAssessment
decide agent_id connection restoration reason = record {
  agent_id = agent_id;
  connection = connection;
  restoration = restoration;
  reason = reason;
}

-- `token !== null && token === expected`
abbrev pub is_token : Option String → String → Bool
is_token none expected = false
is_token (some token) expected = str_eq token expected

-- The decision on an active agent, by its pane.
abbrev pub assess_pane : ExpectedAgentPane → Option LivePaneEvidence → AgentConnectionAssessment
assess_pane agent none =
    decide agent.agent_id disconnected (restoration_for agent.session_present) "owned pane is gone"
assess_pane agent (some pane) =
    if is_token pane.ownership_token agent.ownership_token
    then decide agent.agent_id connected nothing "owned pane is live"
    else decide agent.agent_id disconnected (restoration_for agent.session_present)
        "pane ownership token no longer matches"

unfoldable pub assess_agent : List LivePaneEvidence → ExpectedAgentPane → AgentConnectionAssessment
unfolding live_by_id
assess_agent live_panes agent =
    if is_active agent.status
    then assess_pane agent (live_by_id live_panes agent.pane_id)
    else decide agent.agent_id inactive nothing
        (String.◌++◌ (String.◌++◌ "agent state " agent.status) " does not expect a pane")

unfoldable pub assess_agent_connections :
    List ExpectedAgentPane → List LivePaneEvidence → List AgentConnectionAssessment
unfolding assess_agent
assess_agent_connections expected live_panes = map (assess_agent live_panes) expected

abbrev pub needs_restoration : RestorationAction → Bool
needs_restoration nothing = false
needs_restoration _ = true

unfoldable pub agents_needing_restoration :
    List AgentConnectionAssessment → List AgentConnectionAssessment
agents_needing_restoration assessments =
    filter (λ (a : AgentConnectionAssessment). needs_restoration a.restoration) assessments
