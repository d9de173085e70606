-- ===== src/Store/Loading.antt =====
-- Loading gives back what a commit stored.
use pi_agentworks.Prelude.{
  In-map, In-map_of_In, sym, ℕ, ◌+◌, ◌≤◌, ◌<◌, String, ◌≡◌, refl, inl, inr, true, false, ◌&&◌, some,
  List, [], ◌∷◌, map, arith, eq_iff, str_eq, In, subst,
}
use pi_agentworks.Errors.{ok, max_safe_integer}
use pi_agentworks.Story.{StoryState}
use pi_agentworks.Agent.{AgentState}
use pi_agentworks.Trace.{replay}
use pi_agentworks.StoryPlan.Counting.{Distinct}
use pi_agentworks.Schemas.{is_run_state, is_story_state, is_agent_state}
use pi_agentworks.Store.{
  Database, RunTables, StoryRow, Snapshot, SnapshotInput, CommitResult, put_self, non_empty,
}
use pi_agentworks.Store.Tables.{select, keys}
use pi_agentworks.Store.Synchronize.{In-synchronize_of}
use pi_agentworks.Store.Validation.{story_id, id_of}
use pi_agentworks.Store.Snapshots.{
  commit_snapshot, load_snapshot, load_tables, read_stories, read_agents, synchronize_stories,
  story_row, with_story,
}
use pi_agentworks.Store.Outcome.{commit_snapshot-Accepted}
use pi_agentworks.Store.Members.{validate_snapshot_members-IsMembership}
use pi_agentworks.Store.Written.{write_revision-Written, written_tables}
use pi_agentworks.Store.Operations.{Operation, perform}
use pi_agentworks.Store.Synced.{In-synchronize_agents, In-synchronize_stories, story_row_of}
use pi_agentworks.Store.Reachable.{new_database, replay-AllSound}

-- Two lists have the same members.
abbrev pub HaveSameMembers : {A : Type 0} → List A → List A → Type 0
HaveSameMembers {A} xs ys = (x : A) → (In x xs → In x ys) × (In x ys → In x xs)

abbrev story_of : StoryRow → StoryState
story_of row = row.story

In-map_story :
    (rows : List StoryRow) {story : StoryState}
    → In story (map story_of rows)
    → (row : StoryRow) × In row rows × (story ≡ row.story)
In-map_story rows i = let (row, j, e) = In-map story_of rows i in (row, j, sym e)

In-map_story_of :
    (rows : List StoryRow) {row : StoryRow} → In row rows → In row.story (map story_of rows)
In-map_story_of rows i = In-map_of_In story_of i

synchronize_stories-members :
    (stories : List StoryState) (rows : List StoryRow)
    → Distinct (keys id_of stories)
    → Distinct (keys story_id rows)
    → HaveSameMembers (map story_of (synchronize_stories stories rows)) stories
synchronize_stories-members stories rows u v story = (
  λ i.
      let (row, j, e) = In-map_story (synchronize_stories stories rows) i in
      let (s, k, l) = In-synchronize_stories stories rows u v j in
      rw (e, l, story_row_of s (select story_id s.id rows)) k,
  λ i.
      let old = select story_id story.id rows in
      subst (λ s. In s (map story_of (synchronize_stories stories rows))) (story_row_of story old)
        (In-map_story_of (synchronize_stories stories rows) (
          In-synchronize_of story_id id_of story_row with_story (λ s. refl) (λ s r. refl) stories
            rows u i)),
)

map_story-members :
    (rows others : List StoryRow)
    → HaveSameMembers rows others
    → HaveSameMembers (map story_of rows) (map story_of others)
map_story-members rows others h story = (
  λ i. let (row, j, e) = In-map_story rows i in rw e (In-map_story_of others ((h row).0 j)),
  λ i. let (row, j, e) = In-map_story others i in rw e (In-map_story_of rows ((h row).1 j)),
)

HaveSameMembers-trans :
    {A : Type 0} (xs ys zs : List A)
    → HaveSameMembers xs ys
    → HaveSameMembers ys zs
    → HaveSameMembers xs zs
HaveSameMembers-trans xs ys zs h k x = (λ i. (k x).0 ((h x).0 i), λ i. (h x).1 ((k x).1 i))

module _ (order_stories : List StoryRow → List StoryRow)
    (order_agents : List AgentState → List AgentState) where
  read_stories_of_valid :
      (run_id : String) (rows : List StoryRow)
      → ((row : StoryRow)
          → In row rows
          → (is_story_state row.story && str_eq row.story.run_id run_id) ≡ true)
      → read_stories order_stories order_agents run_id rows ≡ ok (map story_of rows)
  unfolding read_stories
  read_stories_of_valid run_id [] h = refl
  read_stories_of_valid run_id (r ∷ rs) h =
      rw (h r In.here, read_stories_of_valid run_id rs (λ row i. h row (In.there i))) refl

  read_agents_of_valid :
      (run_id : String) (rows : List AgentState)
      → ((agent : AgentState)
          → In agent rows
          → (is_agent_state agent && str_eq agent.run_id run_id) ≡ true)
      → read_agents order_stories order_agents run_id rows ≡ ok rows
  unfolding read_agents
  read_agents_of_valid run_id [] h = refl
  read_agents_of_valid run_id (a ∷ rest) h =
      rw (h a In.here, read_agents_of_valid run_id rest (λ row i. h row (In.there i))) refl

  load_tables_of_valid :
      (run_id : String) (tables : RunTables)
      → is_run_state tables.run ≡ true
      → tables.run.id ≡ run_id
      → tables.revision ≤ max_safe_integer
      → ((row : StoryRow)
          → In row (order_stories tables.stories)
          → (is_story_state row.story && str_eq row.story.run_id run_id) ≡ true)
      → ((agent : AgentState)
          → In agent (order_agents tables.agents)
          → (is_agent_state agent && str_eq agent.run_id run_id) ≡ true)
      → load_tables order_stories order_agents run_id tables
        ≡ ok (record {
          revision = tables.revision;
          run = tables.run;
          stories = map story_of (order_stories tables.stories);
          agents = order_agents tables.agents;
        })
  unfolding load_tables
  load_tables_of_valid run_id tables shaped named small stories agents =
      rw
        (
          shaped,
          read_stories_of_valid run_id (order_stories tables.stories) stories,
          read_agents_of_valid run_id (order_agents tables.agents) agents,
        )
        (ground (arith, eq_iff tables.run.id run_id, named, small))

  load_snapshot_of_tables :
      (db : Database) (given run_id : String) {tables : RunTables} {snapshot : Snapshot}
      → non_empty given "run id" ≡ ok run_id
      → db.runs run_id ≡ some tables
      → load_tables order_stories order_agents run_id tables ≡ ok snapshot
      → load_snapshot order_stories order_agents db given ≡ ok (some snapshot)
  unfolding load_snapshot
  load_snapshot_of_tables db given run_id named current loaded = rw (named, current, loaded) refl

  -- If a reachable database accepts a commit that is no replay, at an expected revision below the
  -- largest safe integer, and the order of the rows is any that has the same rows, then the run
  -- loads: at the next revision, with the committed run state and exactly the committed stories and
  -- agents.
  pub load_snapshot_of_commit :
      (ops : List Operation) {db : Database} (given : String) (expected : ℕ) (input : SnapshotInput)
      {next : Database × CommitResult}
      → ((rows : List StoryRow) → HaveSameMembers (order_stories rows) rows)
      → ((rows : List AgentState) → HaveSameMembers (order_agents rows) rows)
      → replay perform new_database ops ≡ ok db
      → commit_snapshot db given expected input ≡ ok next
      → next.1.replayed ≡ false
      → expected < max_safe_integer
      → (snapshot : Snapshot) × (load_snapshot order_stories order_agents next.0 given
          ≡ ok (some snapshot))
        × (snapshot.revision ≡ expected + 1)
        × (snapshot.run ≡ input.run)
        × HaveSameMembers snapshot.stories input.stories
        × HaveSameMembers snapshot.agents input.agents
  load_snapshot_of_commit ops {db} given expected input {next} ordered_stories ordered_agents
        reached done fresh small =
      let a = commit_snapshot-Accepted db given expected input done in
      elim a.outcome [
        | inl again ↦ absurd (cc)
        | inr c ↦
            let w = write_revision-Written db a.run_id c.tables _ a.key input c.result in
            let m =
              validate_snapshot_members-IsMembership input.run input.stories input.agents
                a.admitted.valid in
            let s = replay-AllSound ops reached a.run_id c.tables c.current in
            let tables = written_tables c.tables (c.tables.revision + 1) a.key input in
            let stored = put_self a.run_id tables db.runs in
            let stories =
              HaveSameMembers-trans (map story_of (order_stories tables.stories))
                (map story_of tables.stories) input.stories
                (map_story-members (order_stories tables.stories) tables.stories
                  (ordered_stories tables.stories))
                (synchronize_stories-members input.stories c.tables.stories m.stories_distinct
                  s.stories_distinct) in
            let agents =
              HaveSameMembers-trans (order_agents tables.agents) tables.agents input.agents
                (ordered_agents tables.agents)
                (λ agent.
                  In-synchronize_agents input.agents c.tables.agents m.agents_distinct
                    s.agents_distinct) in
            let loaded =
              load_tables_of_valid a.run_id tables m.shaped a.of_run
                (ground (arith, c.at_revision, small))
                (λ row i. rw (← a.of_run) (
                  m.stories_valid row.story
                    ((stories row.story).0 (In-map_story_of (order_stories tables.stories) i))))
                (λ agent i. rw (← a.of_run) (m.agents_valid agent ((agents agent).0 i))) in
            rw w.result (
              record {
                revision = tables.revision;
                run = tables.run;
                stories = map story_of (order_stories tables.stories);
                agents = order_agents tables.agents;
              },
              load_snapshot_of_tables _ given a.run_id a.named stored loaded,
              ground (arith, c.at_revision),
              refl,
              stories,
              agents,
            )
      ]
