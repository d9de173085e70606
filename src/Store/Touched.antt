-- ===== src/Store/Touched.antt =====
-- What launching an agent and binding its restored pane write: the row of one agent.
use pi_agentworks.Prelude.{
  ◌+◌, String, ◌≡◌, refl, ◌∙◌, sym, ap, inl, inr, Bool, false, none, some, List, [], ◌∷◌, ◌++◌,
  arith, str_eq, eq_iff, Bool-cases,
}
use pi_agentworks.Errors.{ok}
use pi_agentworks.Agent.{AgentState, closed, includes}
use pi_agentworks.Store.{Database, RunTables}
use pi_agentworks.Store.Tables.{select, upsert}
use pi_agentworks.Store.Validation.{agent_id}
use pi_agentworks.Store.Writers.{store, assert_agent_slot_available}
use pi_agentworks.Store.Launches.{with_agent_row}
use pi_agentworks.Store.Tables.{Distinct-upsert, select-upsert}
use pi_agentworks.Scheduling.{occupies_agent_capacity}
use pi_agentworks.Store.{StoryRow}
use pi_agentworks.Store.Validation.{occupied_slots}
use pi_agentworks.Store.Occupied.{slot, occupied_slots-cons}
use pi_agentworks.Store.Sound.{IsSound, IsWriter, added-IsSound}

-- Another state of the same agent: what the operations never change of it.
pub record IsSame (s t : AgentState) : Type 0 where
  pub id : t.id ≡ s.id
  pub task_id : t.task_id ≡ s.task_id
  pub worktree_path : t.worktree_path ≡ s.worktree_path

abbrev pub is_closed : AgentState → Bool
is_closed agent = includes (closed ∷ []) agent.status

-- The agent was not there and there is a slot for it, or it was there and was not closed.
pub data Fits (tables : RunTables) (agent : AgentState) : Type 0 where
  new :
      select agent_id agent.id tables.agents ≡ none
      → assert_agent_slot_available tables ≡ ok tt
      → Fits tables agent
  old :
      (before : AgentState)
      → select agent_id agent.id tables.agents ≡ some before
      → IsSame before agent
      → is_closed before ≡ false
      → Fits tables agent

pub record Touched (db next : Database) : Type 0 where
  pub run_id : String
  pub tables : RunTables
  pub agent : AgentState
  pub current : db.runs run_id ≡ some tables
  pub fits : Fits tables agent
  pub unclosed : is_closed agent ≡ false
  pub result : next ≡ store db run_id (with_agent_row tables agent)

-- A row that is not there is inserted at the end.
upsert_of_missing :
    (agent : AgentState) (agents : List AgentState)
    → select agent_id agent.id agents ≡ none
    → upsert agent_id agent (λ old. agent) agents ≡ agents ++ agent ∷ []
unfolding select upsert
upsert_of_missing agent [] h = refl
upsert_of_missing agent (a ∷ rest) h = elim (Bool-cases (str_eq a.id agent.id)) [
  | inl same ↦ absurd (ground (arith, rw same at h))
  | inr other ↦ rw other (ap (λ r. a ∷ r) (upsert_of_missing agent rest (rw other at h)))
]

slot_of_unclosed : (agent : AgentState) → is_closed agent ≡ false → slot agent ≡ 1
unfolding occupies_agent_capacity
slot_of_unclosed agent h = ground arith

-- An agent that holds a slot is replaced by one that holds a slot.
occupied_slots-upsert :
    (before agent : AgentState) (agents : List AgentState)
    → select agent_id agent.id agents ≡ some before
    → slot before ≡ slot agent
    → occupied_slots (upsert agent_id agent (λ old. agent) agents) ≡ occupied_slots agents
unfolding select upsert
occupied_slots-upsert before agent [] h same = absurd (cc)
occupied_slots-upsert before agent (a ∷ rest) h same = elim (Bool-cases (str_eq a.id agent.id)) [
  | inl here ↦
      let e : a ≡ before = ground (arith, rw here at h) in
      rw (here, occupied_slots-cons agent rest, occupied_slots-cons a rest, e, same) refl
  | inr other ↦
      rw
        (
          other,
          occupied_slots-cons a rest,
          occupied_slots-cons a (upsert agent_id agent (λ old. agent) rest),
        )
        (ap (λ n. slot a + n) (occupied_slots-upsert before agent rest (rw other at h) same))
]

-- A writer whose row is replaced by another state of it is still the writer.
IsWriter-upsert :
    (agents : List AgentState) (before agent : AgentState) (owner : String) (row : StoryRow)
    → select agent_id agent.id agents ≡ some before
    → IsSame before agent
    → is_closed agent ≡ false
    → IsWriter agents owner row.story
    → IsWriter (upsert agent_id agent (λ old. agent) agents) owner row.story
IsWriter-upsert agents before agent owner row chosen same unclosed w =
    let e = select-upsert agent_id agent (λ old. agent) (λ old h. refl) owner agents in
    elim (Bool-cases (str_eq agent.id owner)) [
      | inl is_owner ↦
          let k : w.agent ≡ before =
            ground (arith, w.chosen, chosen, (eq_iff agent.id owner).0 is_owner) in
          record {
            agent = agent;
            chosen = e ∙ (rw (is_owner, chosen) refl);
            assigned = w.assigned;
            task = same.task_id ∙ (rw k at w.task);
            worktree = (rw k at w.worktree) ∙ sym same.worktree_path;
            unclosed = unclosed;
          }
      | inr other ↦ record {
        agent = w.agent;
        chosen = e ∙ (rw other w.chosen);
        assigned = w.assigned;
        task = w.task;
        worktree = w.worktree;
        unclosed = w.unclosed;
      }
    ]

pub with_agent_row-IsSound :
    (tables : RunTables) (agent : AgentState)
    → IsSound tables
    → Fits tables agent
    → is_closed agent ≡ false
    → IsSound (with_agent_row tables agent)
with_agent_row-IsSound tables agent s (Fits.new missing available) unclosed =
    rw (upsert_of_missing agent tables.agents missing)
      (added-IsSound tables agent s missing available)
with_agent_row-IsSound tables agent s (Fits.old before chosen same was_unclosed) unclosed = record {
  stories_distinct = s.stories_distinct;
  agents_distinct =
      Distinct-upsert agent_id agent (λ old. agent) (λ old h. refl) tables.agents s.agents_distinct;
  within =
      rw
        (occupied_slots-upsert before agent tables.agents chosen
          (slot_of_unclosed before was_unclosed ∙ sym (slot_of_unclosed agent unclosed)))
        s.within;
  writers = λ row owner i h.
      IsWriter-upsert tables.agents before agent owner row chosen same unclosed
        (s.writers row owner i h);
}
