-- ===== src/Store/Validation.antt =====
-- What a snapshot and its events must satisfy to be stored.
use Prim.Native.String
use pi_agentworks.Prelude.{ℕ, String, not, ◌&&◌, List, [], ◌∷◌, map, length, leb, str_eq}
use pi_agentworks.Errors.{invalid_snapshot, failed, Result, ok, ◌>>=◌, ◌>>◌}
use pi_agentworks.Run.{RunState}
use pi_agentworks.Story.{StoryState}
use pi_agentworks.Agent.{AgentState}
use pi_agentworks.Scheduling.{agent_capacity, count_occupied_agent_slots}
use pi_agentworks.StoryPlan.{includes}
use pi_agentworks.Schemas.{is_run_state, is_story_state, is_agent_state}
use pi_agentworks.Store.{StoryRow, EventInput, non_empty, check, as_safe_integer}

-- The keys of the two tables.
abbrev pub story_id : StoryRow → String
story_id row = row.story.id

abbrev pub agent_id : AgentState → String
agent_id agent = agent.id

abbrev pub id_of : StoryState → String
id_of story = story.id

-- The loop over the stories of a snapshot, and that over its agents; `seen` is the set of ids.
unfoldable pub validate_stories : String → List String → List StoryState → Result (Unit {0})
validate_stories run_id seen [] = ok tt
validate_stories run_id seen (story ∷ stories) = do
  check (is_story_state story && str_eq story.run_id run_id)
      (invalid_snapshot (String.◌++◌ "story does not belong to the run: " story.id))
  check (not (includes seen story.id))
      (invalid_snapshot (String.◌++◌ "story is duplicated: " story.id))
  validate_stories run_id (story.id ∷ seen) stories

unfoldable pub validate_agents : String → List String → List AgentState → Result (Unit {0})
validate_agents run_id seen [] = ok tt
validate_agents run_id seen (agent ∷ agents) = do
  check (is_agent_state agent && str_eq agent.run_id run_id)
      (invalid_snapshot (String.◌++◌ "agent does not belong to the run: " agent.id))
  check (not (includes seen agent.id))
      (invalid_snapshot (String.◌++◌ "agent is duplicated: " agent.id))
  validate_agents run_id (agent.id ∷ seen) agents

abbrev pub occupied_slots : List AgentState → ℕ
occupied_slots agents = count_occupied_agent_slots (map (λ (a : AgentState). a.status) agents)

unfoldable pub validate_snapshot_members :
    RunState → List StoryState → List AgentState → Result (Unit {0})
validate_snapshot_members run stories agents = do
  check (is_run_state run) (invalid_snapshot "run state has an invalid shape")
  validate_stories run.id [] stories
  validate_agents run.id [] agents
  capacity ← agent_capacity run.complexity (occupied_slots agents)
  check (leb capacity.occupied capacity.limit)
      (invalid_snapshot "the run exceeds its global active-agent limit")

abbrev pub max_events_per_commit : ℕ
max_events_per_commit = 100

-- The loop over the events.
unfoldable pub validate_event_list : List String → List EventInput → Result (Unit {0})
validate_event_list seen [] = ok tt
validate_event_list seen (event ∷ events) = do
  id ← non_empty event.event_id "event id"
  kind ← non_empty event.type "event type"
  entity ← non_empty event.entity_id "event entity id"
  as_safe_integer event.occurred_at "event timestamp"
  check (not (includes seen event.event_id))
      (failed (String.◌++◌ "event is duplicated: " event.event_id))
  validate_event_list (event.event_id ∷ seen) events

unfoldable pub validate_events : List EventInput → Result (Unit {0})
validate_events events = do
  check (leb 1 (length events) && leb (length events) max_events_per_commit)
      (failed "state changes require from 1 to 100 events")
  validate_event_list [] events
