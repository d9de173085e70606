-- ===== src/ManagementQuit.antt =====
-- Whether the management surface of a run may be dismissed (src/domain/management-quit.ts).
pub mod Readiness
use pi_agentworks.Prelude.{String, Bool, true, false, List, [], ◌∷◌, ◌++◌, if◌then◌else◌}
use pi_agentworks.Scheduling.{is_empty}
use pi_agentworks.Errors.{Entity, run, story, agent}
use pi_agentworks.Run
use pi_agentworks.Run.{RunState}
use pi_agentworks.Story
use pi_agentworks.Story.{StoryStatus, StoryState, work_complete, merged}
use pi_agentworks.Agent
use pi_agentworks.Agent.{AgentStatus, AgentState, idle, completed, closed}

pub record ManagementQuitBlocker : Type 0 where
  pub entity_type : Entity
  pub entity_id : String
  pub status : String

pub record ManagementQuitReadiness : Type 0 where
  pub can_quit : Bool
  pub blockers : List ManagementQuitBlocker

abbrev pub is_blocked_or_failed : Run.RunStatus → Bool
is_blocked_or_failed Run.blocked = true
is_blocked_or_failed Run.failed = true
is_blocked_or_failed _ = false

-- SETTLED_STORY_STATUSES
abbrev pub is_settled : StoryStatus → Bool
is_settled status = Story.includes (work_complete ∷ merged ∷ []) status

-- QUIESCENT_AGENT_STATUSES
abbrev pub is_quiescent : AgentStatus → Bool
is_quiescent status = Agent.includes (idle ∷ completed ∷ closed ∷ []) status

abbrev pub run_blockers : RunState → List StoryState → List ManagementQuitBlocker
run_blockers current stories =
    (if is_empty stories
      then record { entity_type = run; entity_id = current.id; status = "no-stories" } ∷ []
      else [])
    ++ (if is_blocked_or_failed current.status
        then record {
          entity_type = run;
          entity_id = current.id;
          status = Run.status_name current.status;
        }
          ∷ []
        else [])

-- The loop over the stories, and that over the agents.
unfoldable pub story_blockers : List StoryState → List ManagementQuitBlocker
story_blockers [] = []
story_blockers (s ∷ stories) =
    let later = story_blockers stories in
    if is_settled s.status
    then later
    else record { entity_type = story; entity_id = s.id; status = Story.status_name s.status }
      ∷ later

unfoldable pub agent_blockers : List AgentState → List ManagementQuitBlocker
agent_blockers [] = []
agent_blockers (a ∷ agents) =
    let later = agent_blockers agents in
    if is_quiescent a.status
    then later
    else record { entity_type = agent; entity_id = a.id; status = Agent.status_name a.status }
      ∷ later

unfoldable pub assess_management_quit_readiness :
    RunState → List StoryState → List AgentState → ManagementQuitReadiness
unfolding story_blockers agent_blockers
assess_management_quit_readiness current stories agents =
    let blockers =
      run_blockers current stories ++ story_blockers stories ++ agent_blockers agents in
    record { can_quit = is_empty blockers; blockers = blockers }
