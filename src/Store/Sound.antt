-- ===== src/Store/Sound.antt =====
-- What holds of the tables of a run in every database that the operations lead to.
use pi_agentworks.Prelude.{
  ◌≤◌, ◌<◌, String, ◌≡◌, refl, ap, ◌⊎◌, inl, inr, false, none, some, List, [], ◌∷◌, ◌++◌, arith,
  eq_iff, str_eq, In, In-cons_cases, not_In_nil, Bool-cases,
}
use pi_agentworks.Errors.{ok}
use pi_agentworks.Complexity.{get_complexity_policy}
use pi_agentworks.Run.{RunState}
use pi_agentworks.Story.{StoryState}
use pi_agentworks.Agent
use pi_agentworks.Agent.{AgentState, AgentStatus, closed}
use pi_agentworks.Scheduling.{agent_capacity, count_occupied_agent_slots}
use pi_agentworks.StoryPlan.Counting.{Distinct, Distinct-append}
use pi_agentworks.Store.{RunTables, StoryRow}
use pi_agentworks.Store.Tables.{select, upsert, keys, select_of_In, Distinct-upsert}
use pi_agentworks.Store.Validation.{story_id, agent_id, occupied_slots}
use pi_agentworks.Store.Occupied.{occupied_slots-append}
use pi_agentworks.Store.Snapshots.{owner_of, new_tables}
use pi_agentworks.Store.Writers.{rewrite, assert_agent_slot_available}

-- The owner of a story's lease is the agent that the story is assigned to, has the story as its
-- task, works in the story's worktree and is not closed.
pub record IsWriter (agents : List AgentState) (owner : String) (story : StoryState) : Type 0 where
  pub agent : AgentState
  pub chosen : select agent_id owner agents ≡ some agent
  pub assigned : story.assigned_agent_id ≡ some owner
  pub task : agent.task_id ≡ some story.id
  pub worktree : story.worktree_path ≡ agent.worktree_path
  pub unclosed : Agent.includes (closed ∷ []) agent.status ≡ false

-- The writer is still one where the agents have changed, but not that one.
pub IsWriter-among :
    (agents others : List AgentState) (owner : String) (story : StoryState)
    (w : IsWriter agents owner story)
    → select agent_id owner others ≡ some w.agent
    → IsWriter others owner story
IsWriter-among agents others owner story w e = record {
  agent = w.agent;
  chosen = e;
  assigned = w.assigned;
  task = w.task;
  worktree = w.worktree;
  unclosed = w.unclosed;
}

pub record IsSound (tables : RunTables) : Type 0 where
  pub stories_distinct : Distinct (keys story_id tables.stories)
  pub agents_distinct : Distinct (keys agent_id tables.agents)
  pub within :
      occupied_slots tables.agents ≤ (get_complexity_policy tables.run.complexity).maximum_agents
  pub writers :
      (row : StoryRow) (owner : String)
      → In row tables.stories
      → owner_of row.lease ≡ some owner
      → IsWriter tables.agents owner row.story

-- Whoever holds the leases of two stories of a run holds that of one story.
pub one_story_of_writer :
    (tables : RunTables) (row other : StoryRow) (owner : String)
    → IsSound tables
    → In row tables.stories
    → In other tables.stories
    → owner_of row.lease ≡ some owner
    → owner_of other.lease ≡ some owner
    → row ≡ other
one_story_of_writer tables row other owner s i j h k =
    let v = s.writers row owner i h in
    let w = s.writers other owner j k in
    let same_agent : v.agent ≡ w.agent = ground (arith, v.chosen, w.chosen) in
    let same_id : row.story.id ≡ other.story.id = ground (arith, v.task, w.task, same_agent) in
    ground (
      arith,
      select_of_In story_id tables.stories s.stories_distinct i,
      select_of_In story_id tables.stories s.stories_distinct j,
      same_id,
    )

In-rewrite :
    (row : StoryRow) (rows : List StoryRow) {x : StoryRow}
    → In x (rewrite row rows)
    → (x ≡ row) ⊎ In x rows
unfolding upsert
In-rewrite row [] i = elim (In-cons_cases i) [ inl e ↦ inl e | inr j ↦ inr j ]
In-rewrite row (r ∷ rs) i = elim (Bool-cases (str_eq (story_id r) (story_id row))) [
  | inl same ↦ elim (In-cons_cases (rw same at i)) [ inl e ↦ inl e | inr j ↦ inr (In.there j) ]
  | inr other ↦ elim (In-cons_cases (rw other at i)) [
    | inl e ↦ inr (rw e In.here)
    | inr j ↦ elim (In-rewrite row rs j) [ inl e ↦ inl e | inr k ↦ inr (In.there k) ]
  ]
]

Distinct-rewrite :
    (row : StoryRow) (rows : List StoryRow)
    → Distinct (keys story_id rows)
    → Distinct (keys story_id (rewrite row rows))
Distinct-rewrite row rows = Distinct-upsert story_id row (λ old. row) (λ old e. refl) rows

-- One row's story or lease is rewritten.
pub rewrite-IsSound :
    (tables changed : RunTables) (row : StoryRow)
    → IsSound tables
    → changed.run ≡ tables.run
    → changed.agents ≡ tables.agents
    → changed.stories ≡ rewrite row tables.stories
    → ((owner : String) → owner_of row.lease ≡ some owner → IsWriter tables.agents owner row.story)
    → IsSound changed
rewrite-IsSound tables changed row s run agents stories writer = record {
  stories_distinct = rw stories (Distinct-rewrite row tables.stories s.stories_distinct);
  agents_distinct = rw agents s.agents_distinct;
  within = rw (agents, run) s.within;
  writers = λ x owner i h. rw agents (elim (In-rewrite row tables.stories (rw stories at i)) [
    | inl e ↦ rw e (writer owner (rw e at h))
    | inr j ↦ s.writers x owner j h
  ]);
}

select-append :
    (k : String) (agents : List AgentState) (agent : AgentState) {found : AgentState}
    → select agent_id k agents ≡ some found
    → select agent_id k (agents ++ agent ∷ []) ≡ some found
unfolding select
select-append k [] agent h = absurd (cc)
select-append k (a ∷ rest) agent h = elim (Bool-cases (str_eq a.id k)) [
  | inl same ↦ ground (arith, h, same)
  | inr other ↦ rw other (select-append k rest agent (rw other at h))
]

keys-append :
    (agents : List AgentState) (agent : AgentState)
    → keys agent_id (agents ++ agent ∷ []) ≡ keys agent_id agents ++ agent.id ∷ []
keys-append [] agent = refl
keys-append (a ∷ rest) agent = ap (λ ids. a.id ∷ ids) (keys-append rest agent)

In-keys_of :
    (k : String) (agents : List AgentState)
    → In k (keys agent_id agents)
    → ¬ (select agent_id k agents ≡ none)
unfolding select
In-keys_of k [] i = absurd (not_In_nil i)
In-keys_of k (a ∷ rest) i = λ h. elim (Bool-cases (str_eq a.id k)) [
  | inl same ↦ absurd (ground (arith, h, same))
  | inr other ↦ elim (In-cons_cases i) [
    | inl e ↦ absurd (ground (arith, other, eq_iff a.id k))
    | inr j ↦ In-keys_of k rest j (rw other at h)
  ]
]

assert_agent_slot_available-lt :
    (tables : RunTables)
    → assert_agent_slot_available tables ≡ ok tt
    → occupied_slots tables.agents < (get_complexity_policy tables.run.complexity).maximum_agents
unfolding assert_agent_slot_available agent_capacity
assert_agent_slot_available-lt tables h = ground arith

-- A pending agent is added.
pub added-IsSound :
    (tables : RunTables) (agent : AgentState)
    → IsSound tables
    → select agent_id agent.id tables.agents ≡ none
    → assert_agent_slot_available tables ≡ ok tt
    → IsSound (record tables { agents = tables.agents ++ agent ∷ [] })
added-IsSound tables agent s missing available = record {
  stories_distinct = s.stories_distinct;
  agents_distinct = rw (keys-append tables.agents agent) (
      Distinct-append (keys agent_id tables.agents) s.agents_distinct
        (λ i. In-keys_of agent.id tables.agents i missing));
  within = ground (
    arith,
    occupied_slots-append tables.agents agent,
    assert_agent_slot_available-lt tables available,
  );
  writers = λ row owner i h.
      let w = s.writers row owner i h in
      IsWriter-among tables.agents (tables.agents ++ agent ∷ []) owner row.story w
        (select-append owner tables.agents agent w.chosen);
}

pub new_tables-IsSound : (run : RunState) → IsSound (new_tables run)
unfolding count_occupied_agent_slots
new_tables-IsSound run = record {
  stories_distinct = tt;
  agents_distinct = tt;
  within = ground arith;
  writers = λ row owner i h. absurd (not_In_nil i);
}
