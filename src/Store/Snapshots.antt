-- ===== src/Store/Snapshots.antt =====
-- Initialising a run, committing a snapshot and loading one.
use pi_agentworks.Prelude.{
  ℕ, suc, ◌+◌, String, Bool, true, false, not, ◌&&◌, Option, none, some, List, [], ◌∷◌, ◌++◌, map,
  all, filter, leb, ◌==◌, str_eq, is_some,
}
use pi_agentworks.Errors.{
  stale_writer_lease, stale_revision, idempotency_conflict, invalid_snapshot, failed, integrity,
  Result, ok, ◌>>=◌, ◌>>◌,
}
use pi_agentworks.Run.{RunState}
use pi_agentworks.Story.{
  StoryState, StoryStatus, assigned, working, work_complete, changes_requested, blocked,
}
use pi_agentworks.Story
use pi_agentworks.Agent
use pi_agentworks.Agent.{AgentState, closed}
use pi_agentworks.StoryPlan.{includes}
use pi_agentworks.Schemas.{is_run_state, is_story_state, is_agent_state}
use pi_agentworks.Store.{
  Database, RunTables, StoryRow, WriterLeaseRow, WriterLeaseEvent, EventInput, EventRow, CommandRow,
  CommitResult, SnapshotInput, Snapshot, put, non_empty, check, found, as_safe_integer,
}
use pi_agentworks.Store.Lease.{assert_fence, is_text}
use pi_agentworks.Store.Validation.{
  story_id, agent_id, id_of, validate_snapshot_members, validate_events,
}
use pi_agentworks.Store.Tables.{select}
use pi_agentworks.Store.Synchronize.{synchronize}

abbrev pub commands_of : Option RunTables → String → Option CommandRow
commands_of none key = none
commands_of (some tables) key = tables.commands key

-- The result of the same command, if it was processed before.
unfoldable pub find_idempotent_result :
    Option CommandRow → String → String → Result (Option CommitResult)
find_idempotent_result none key hash = ok none
find_idempotent_result (some row) key hash = do
  check (str_eq row.request_hash hash) (idempotency_conflict key)
  ok (some (record row.response { replayed = true }))

-- A story may be written, and its lease kept, in these statuses.
abbrev pub can_be_written : StoryStatus → Bool
can_be_written status =
    Story.includes (assigned ∷ working ∷ work_complete ∷ changes_requested ∷ blocked ∷ []) status

-- What the loop over the leases asks of the story that is to be stored and of the owner's state.
unfoldable pub keeps_lease : String → Option StoryState → Option AgentState → Bool
keeps_lease owner (some story) (some agent) =
    is_text story.assigned_agent_id owner
    && is_text agent.task_id story.id
    && str_eq story.worktree_path agent.worktree_path
    && not (Agent.includes (closed ∷ []) agent.status)
    && can_be_written story.status
keeps_lease owner _ _ = false

-- `WHERE owner_agent_id IS NOT NULL`
abbrev pub owner_of : Option WriterLeaseRow → Option String
owner_of none = none
owner_of (some lease) = lease.owner_agent_id

abbrev pub is_consistent : Option String → Option StoryState → List AgentState → Bool
is_consistent none story agents = true
is_consistent (some owner) story agents = keeps_lease owner story (select agent_id owner agents)

unfoldable pub assert_writer_lease_snapshot_consistency :
    List StoryRow → List StoryState → List AgentState → Result (Unit {0})
unfolding keeps_lease
assert_writer_lease_snapshot_consistency rows stories agents =
    check
      (all (λ row. is_consistent (owner_of row.lease) (select id_of row.story.id stories) agents)
        rows)
      (stale_writer_lease "a story must release or revoke its writer lease")

-- A new story's row has no lease, and a story that has a row keeps the row's lease.
abbrev pub story_row : StoryState → StoryRow
story_row story = record { story = story; lease = none }

abbrev pub with_story : StoryState → StoryRow → StoryRow
with_story story row = record row { story = story }

abbrev pub the_agent : AgentState → AgentState
the_agent agent = agent

abbrev pub replaced : AgentState → AgentState → AgentState
replaced agent old = agent

abbrev pub synchronize_stories : List StoryState → List StoryRow → List StoryRow
synchronize_stories stories rows = synchronize story_id id_of story_row with_story stories rows

abbrev pub synchronize_agents : List AgentState → List AgentState → List AgentState
synchronize_agents agents rows = synchronize agent_id agent_id the_agent replaced agents rows

unfoldable pub event_rows : ℕ → ℕ → List EventInput → List EventRow
event_rows revision index [] = []
event_rows revision index (event ∷ events) =
    record { revision = revision; event_index = index; event = event }
    ∷ event_rows revision (suc index) events

-- The event ids after the insertion, which fails at an id that is there.
unfoldable pub insert_event_ids : List String → List EventInput → Result (List String)
insert_event_ids ids [] = ok ids
insert_event_ids ids (event ∷ events) = do
  check (not (includes ids event.event_id)) (integrity "UNIQUE constraint failed: event_id")
  insert_event_ids (event.event_id ∷ ids) events

-- The events of writer leases are deleted with their stories.
abbrev pub events_of_stories : List String → List WriterLeaseEvent → List WriterLeaseEvent
events_of_stories ids events = filter (λ (e : WriterLeaseEvent). includes ids e.story_id) events

-- Writing the children, the events and the command of one revision.
unfoldable pub write_revision :
    Database → String → RunTables → ℕ → String → SnapshotInput → Result (Database × CommitResult)
unfolding synchronize event_rows insert_event_ids
write_revision db run_id tables revision key input = do
  event_ids ← insert_event_ids db.event_ids input.events
  let response : CommitResult = record {
    revision = revision;
    event_ids = map (λ (e : EventInput). e.event_id) input.events;
    replayed = false;
  }
  let written : RunTables = record tables {
    revision = revision;
    run = input.run;
    stories = synchronize_stories input.stories tables.stories;
    agents = synchronize_agents input.agents tables.agents;
    events = tables.events ++ event_rows revision 0 input.events;
    commands =
        put key (record { request_hash = input.request_hash; response = response }) tables.commands;
    writer_lease_events = events_of_stories (map id_of input.stories) tables.writer_lease_events;
  }
  ok (record db { runs = put run_id written db.runs; event_ids = event_ids }, response)

-- A run with no children yet.
abbrev pub new_tables : RunState → RunTables
new_tables run = record {
  revision = 1;
  run = run;
  stories = [];
  agents = [];
  events = [];
  commands = λ key. none;
  writer_lease_events = [];
}

-- `replay ?? commit`: the stored result, and the database as it is.
abbrev pub or_replay :
    Database
    → Option CommitResult
    → Result (Database × CommitResult)
    → Result (Database × CommitResult)
or_replay db (some response) commit = ok (db, response)
or_replay db none commit = commit

unfoldable pub initialize_run : Database → SnapshotInput → Result (Database × CommitResult)
unfolding write_revision
initialize_run db input = do
  run_id ← non_empty input.run.id "run id"
  key ← non_empty input.idempotency_key "idempotency key"
  validate_snapshot_members input.run input.stories input.agents
  validate_events input.events
  assert_fence db input.write
  replay ← find_idempotent_result (commands_of (db.runs run_id) key) key input.request_hash
  or_replay db replay (do
    check (not (is_some (db.runs run_id))) (failed "the run already exists")
    write_revision db run_id (new_tables input.run) 1 key input)

unfoldable pub commit_snapshot :
    Database → String → ℕ → SnapshotInput → Result (Database × CommitResult)
unfolding write_revision
commit_snapshot db given_run_id expected_revision input = do
  run_id ← non_empty given_run_id "run id"
  key ← non_empty input.idempotency_key "idempotency key"
  as_safe_integer expected_revision "expected revision"
  check (leb 1 expected_revision) (failed "expected revision must be positive")
  check (str_eq input.run.id run_id) (invalid_snapshot "run id does not match the command run id")
  validate_snapshot_members input.run input.stories input.agents
  validate_events input.events
  assert_fence db input.write
  replay ← find_idempotent_result (commands_of (db.runs run_id) key) key input.request_hash
  or_replay db replay (do
    tables ← found (db.runs run_id) (failed "the run does not exist")
    as_safe_integer tables.revision "stored run revision"
    check (tables.revision == expected_revision) (stale_revision expected_revision tables.revision)
    assert_writer_lease_snapshot_consistency tables.stories input.stories input.agents
    write_revision db run_id tables (tables.revision + 1) key input)

-- loadSnapshot reads the rows in an order that the database makes of them.
module _ (order_stories : List StoryRow → List StoryRow)
    (order_agents : List AgentState → List AgentState) where
  unfoldable pub read_stories : String → List StoryRow → Result (List StoryState)
  read_stories run_id [] = ok []
  read_stories run_id (row ∷ rows) = do
    check (is_story_state row.story && str_eq row.story.run_id run_id)
        (integrity "a stored story is invalid")
    stories ← read_stories run_id rows
    ok (row.story ∷ stories)

  unfoldable pub read_agents : String → List AgentState → Result (List AgentState)
  read_agents run_id [] = ok []
  read_agents run_id (agent ∷ rows) = do
    check (is_agent_state agent && str_eq agent.run_id run_id)
        (integrity "a stored agent is invalid")
    agents ← read_agents run_id rows
    ok (agent ∷ agents)

  unfoldable pub load_tables : String → RunTables → Result Snapshot
  unfolding read_stories read_agents
  load_tables run_id tables = do
    check (is_run_state tables.run) (integrity "the stored run has an invalid shape")
    check (str_eq tables.run.id run_id) (integrity "the stored run does not match its key")
    stories ← read_stories run_id (order_stories tables.stories)
    agents ← read_agents run_id (order_agents tables.agents)
    as_safe_integer tables.revision "stored run revision"
    ok (record { revision = tables.revision; run = tables.run; stories = stories; agents = agents })

  unfoldable pub load_snapshot : Database → String → Result (Option Snapshot)
  unfolding load_tables
  load_snapshot db given_run_id = do
    run_id ← non_empty given_run_id "run id"
    elim (db.runs run_id) [
      | none ↦ ok none
      | some tables ↦ (do snapshot ← load_tables run_id tables; ok (some snapshot))
    ]
