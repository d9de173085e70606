-- ===== src/Store/Synced.antt =====
-- A commit keeps the tables of its run sound.
use pi_agentworks.Prelude.{
  ℕ, String, ◌≡◌, refl, ◌∙◌, ap, true, false, Option, none, some, List, [], ◌∷◌, all, all-In, arith,
  eq_iff, In, subst,
}
use pi_agentworks.Errors.{ok}
use pi_agentworks.Story.{StoryState}
use pi_agentworks.Agent
use pi_agentworks.Agent.{AgentState, closed}
use pi_agentworks.StoryPlan.Counting.{Distinct}
use pi_agentworks.Store.{RunTables, StoryRow, SnapshotInput}
use pi_agentworks.Store.Tables.{select, keys, Key-select, In-select, select_of_In}
use pi_agentworks.Store.Synchronize.{
  row_of, synchronized, select-synchronize, Distinct-synchronize, In-synchronize, In-synchronize_of,
}
use pi_agentworks.Store.Validation.{story_id, agent_id, id_of}
use pi_agentworks.Store.Snapshots.{
  story_row, with_story, the_agent, replaced, synchronize_stories, synchronize_agents, keeps_lease,
  owner_of, is_consistent, assert_writer_lease_snapshot_consistency,
}
use pi_agentworks.Store.Outcome.{check-eq-ok}
use pi_agentworks.Store.Passed.{text_of_owner}
use pi_agentworks.Store.Members.{IsMembership}
use pi_agentworks.Store.Written.{written_tables}
use pi_agentworks.Store.Occupied.{occupied_slots-subset}
use pi_agentworks.Store.Sound.{IsSound, IsWriter, IsWriter-among}

agent_row_of :
    (agent : AgentState) (old : Option AgentState)
    → row_of agent_id agent_id the_agent replaced agent old ≡ agent
agent_row_of agent none = refl
agent_row_of agent (some old) = refl

pub story_row_of :
    (story : StoryState) (old : Option StoryRow)
    → (row_of story_id id_of story_row with_story story old).story ≡ story
story_row_of story none = refl
story_row_of story (some old) = refl

-- The stored agents are those of the snapshot.
pub In-synchronize_agents :
    (agents rows : List AgentState) {agent : AgentState}
    → Distinct (keys agent_id agents)
    → Distinct (keys agent_id rows)
    → (In agent (synchronize_agents agents rows) → In agent agents)
      × (In agent agents → In agent (synchronize_agents agents rows))
In-synchronize_agents agents rows {agent} u v = (
  λ i.
      let (a, j, e) =
        In-synchronize agent_id agent_id the_agent replaced (λ s. refl) (λ s r. refl) agents rows u
          v i in
      rw (e, agent_row_of a (select agent_id a.id rows)) j,
  λ i.
      subst (λ a. In a (synchronize_agents agents rows))
        (agent_row_of agent (select agent_id agent.id rows))
        (In-synchronize_of agent_id agent_id the_agent replaced (λ s. refl) (λ s r. refl) agents
          rows u i),
)

select-synchronize_agents :
    (k : String) (agents rows : List AgentState) {agent : AgentState}
    → Distinct (keys agent_id agents)
    → select agent_id k agents ≡ some agent
    → select agent_id k (synchronize_agents agents rows) ≡ some agent
select-synchronize_agents k agents rows {agent} u e =
    let l =
      select-synchronize agent_id agent_id the_agent replaced (λ s. refl) (λ s r. refl) k agents
        rows u in
    l
    ∙ ap (λ s. synchronized agent_id agent_id the_agent replaced s (select agent_id k rows)) e
    ∙ ap some (agent_row_of agent (select agent_id k rows))

-- The rows of the stories: the snapshot's stories, with the leases that their rows had.
pub In-synchronize_stories :
    (stories : List StoryState) (rows : List StoryRow) {row : StoryRow}
    → Distinct (keys id_of stories)
    → Distinct (keys story_id rows)
    → In row (synchronize_stories stories rows)
    → (story : StoryState) × In story stories
      × (row ≡ row_of story_id id_of story_row with_story story (select story_id story.id rows))
In-synchronize_stories stories rows =
    In-synchronize story_id id_of story_row with_story (λ s. refl) (λ s r. refl) stories rows

keeps_lease-IsWriter :
    (owner : String) (story : Option StoryState) (agent : Option AgentState)
    → keeps_lease owner story agent ≡ true
    → (s : StoryState) × (a : AgentState) × (story ≡ some s)
      × (agent ≡ some a)
      × (s.assigned_agent_id ≡ some owner)
      × (a.task_id ≡ some s.id)
      × (s.worktree_path ≡ a.worktree_path)
      × (Agent.includes (closed ∷ []) a.status ≡ false)
unfolding keeps_lease
keeps_lease-IsWriter owner none agent h = absurd (cc)
keeps_lease-IsWriter owner (some s) none h = absurd (cc)
keeps_lease-IsWriter owner (some s) (some a) h = (
  s,
  a,
  refl,
  refl,
  text_of_owner s.assigned_agent_id owner (ground (arith, h)),
  text_of_owner a.task_id s.id (ground (arith, h)),
  ground (arith, h, eq_iff s.worktree_path a.worktree_path),
  ground (arith, h),
)

-- The owner of a lease is the writer of the story in the snapshot.
consistent-IsWriter :
    (rows : List StoryRow) (stories : List StoryState) (agents : List AgentState) {row : StoryRow}
    {story : StoryState} (owner : String)
    → assert_writer_lease_snapshot_consistency rows stories agents ≡ ok tt
    → In row rows
    → owner_of row.lease ≡ some owner
    → select id_of row.story.id stories ≡ some story
    → IsWriter agents owner story
unfolding assert_writer_lease_snapshot_consistency
consistent-IsWriter rows stories agents {row} {story} owner h i owned found =
    let test =
      λ (r : StoryRow). is_consistent (owner_of r.lease) (select id_of r.story.id stories) agents in
    let kept = all-In test rows (check-eq-ok (all test rows) _ h) i in
    let (s, a, is_story, is_agent, assigned, task, worktree, unclosed) =
      keeps_lease-IsWriter owner (some story) (select agent_id owner agents)
        (rw (owned, found) at kept) in
    let e : story ≡ s = ground (arith, is_story) in
    rw e (record {
      agent = a;
      chosen = is_agent;
      assigned = assigned;
      task = task;
      worktree = worktree;
      unclosed = unclosed;
    })

-- The owner of the lease that a story's row has after the commit.
committed-IsWriter :
    (tables : RunTables) (input : SnapshotInput) (story : StoryState) (old : Option StoryRow)
    (owner : String)
    → IsMembership input.run input.stories input.agents
    → assert_writer_lease_snapshot_consistency tables.stories input.stories input.agents ≡ ok tt
    → In story input.stories
    → select story_id story.id tables.stories ≡ old
    → owner_of (row_of story_id id_of story_row with_story story old).lease ≡ some owner
    → IsWriter input.agents owner story
committed-IsWriter tables input story none owner m h i found owned = absurd (cc)
committed-IsWriter tables input story (some old) owner m h i found owned =
    consistent-IsWriter tables.stories input.stories input.agents owner h
      (In-select story_id story.id tables.stories found) owned
      (rw (Key-select story_id story.id tables.stories found)
        (select_of_In id_of input.stories m.stories_distinct i))

pub written_tables-IsSound :
    (tables : RunTables) (revision : ℕ) (key : String) (input : SnapshotInput)
    → IsSound tables
    → IsMembership input.run input.stories input.agents
    → assert_writer_lease_snapshot_consistency tables.stories input.stories input.agents ≡ ok tt
    → IsSound (written_tables tables revision key input)
written_tables-IsSound tables revision key input s m h =
    let agents_distinct =
      Distinct-synchronize agent_id agent_id the_agent replaced (λ a. refl) (λ a r. refl)
        input.agents tables.agents s.agents_distinct in
    let counted =
      occupied_slots-subset (synchronize_agents input.agents tables.agents) input.agents
        agents_distinct
        (λ a.
          (In-synchronize_agents input.agents tables.agents m.agents_distinct
            s.agents_distinct).0) in
    record {
      stories_distinct =
          Distinct-synchronize story_id id_of story_row with_story (λ a. refl) (λ a r. refl)
            input.stories tables.stories s.stories_distinct;
      agents_distinct = agents_distinct;
      within = omega (arith, counted, m.within);
      writers = λ row owner i owned.
          let (story, j, e) =
            In-synchronize_stories input.stories tables.stories m.stories_distinct
              s.stories_distinct i in
          let old = select story_id story.id tables.stories in
          let w = committed-IsWriter tables input story old owner m h j refl (rw e at owned) in
          rw (e, story_row_of story old)
            (IsWriter-among input.agents (synchronize_agents input.agents tables.agents) owner story
              w
              (select-synchronize_agents owner input.agents tables.agents m.agents_distinct
                w.chosen));
    }
