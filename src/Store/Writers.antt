-- ===== src/Store/Writers.antt =====
-- The leases under which one agent writes to a story's worktree.
use pi_agentworks.Prelude.{
  ℕ, ◌+◌, String, Bool, not, ◌&&◌, ◌||◌, Option, none, some, List, [], ◌∷◌, ◌++◌, if◌then◌else◌,
  ◌==◌, str_eq, is_some,
}
use pi_agentworks.Errors.{
  writer_lease_held, stale_writer_lease, capacity_exceeded, integrity, Result, ok, ◌>>=◌, ◌>>◌,
}
use pi_agentworks.Story
use pi_agentworks.Story.{StoryState, assigned, working, changes_requested}
use pi_agentworks.Agent
use pi_agentworks.Agent.{AgentState, closed, completed}
use pi_agentworks.Scheduling.{agent_capacity}
use pi_agentworks.Schemas.{is_run_state, is_story_state, is_agent_state}
use pi_agentworks.Store.{
  Database, RunTables, StoryRow, WriterLeaseRow, WriterLeaseAction, acquired, renewed, released,
  revoked, FencedWrite, put, non_empty, check, found, as_safe_integer,
}
use pi_agentworks.Store.Lease.{
  assert_fence, assert_time_and_ttl, is_text, is_after, is_other, or_empty,
}
use pi_agentworks.Store.Tables.{select, upsert}
use pi_agentworks.Store.Validation.{story_id, agent_id, occupied_slots}

-- AcquireWriterLeaseInput
pub record AcquireInput : Type 0 where
  pub write : FencedWrite
  pub run_id : String
  pub story_id : String
  pub owner_agent_id : String
  pub ttl_ms : ℕ
  pub agent : Option AgentState

-- HeldWriterLeaseInput
pub record HeldInput : Type 0 where
  pub write : FencedWrite
  pub run_id : String
  pub story_id : String
  pub owner_agent_id : String
  pub lease_token : ℕ

-- RevokeWriterLeaseInput
pub record RevokeInput : Type 0 where
  pub write : FencedWrite
  pub run_id : String
  pub story_id : String
  pub expected_lease_token : ℕ
  pub reason : String

-- The owner of a lease that has not expired (isActiveWriterLeaseRow).
abbrev pub writer_of : Option WriterLeaseRow → ℕ → Option String
writer_of none now = none
writer_of (some lease) now = if is_after lease.expires_at now then lease.owner_agent_id else none

abbrev pub token_of : Option WriterLeaseRow → ℕ
token_of none = 0
token_of (some lease) = lease.lease_token

-- The row of a story, rewritten in place.
abbrev pub rewrite : StoryRow → List StoryRow → List StoryRow
rewrite row rows = upsert story_id row (λ old. row) rows

-- `tables` written back.
abbrev pub store : Database → String → RunTables → Database
store db run_id tables = record db { runs = put run_id tables db.runs }

abbrev pub with_event :
    RunTables → FencedWrite → String → ℕ → String → WriterLeaseAction → Option String → RunTables
with_event tables write story lease_token owner action reason = record tables {
  writer_lease_events =
      tables.writer_lease_events
      ++ record {
        story_id = story;
        lease_token = lease_token;
        owner_agent_id = owner;
        action = action;
        reason = reason;
        controller_owner_id = write.owner_id;
        controller_fencing_token = write.fencing_token;
        occurred_at = write.now;
      }
        ∷ [];
}

unfoldable pub assert_agent_slot_available : RunTables → Result (Unit {0})
assert_agent_slot_available tables = do
  check (is_run_state tables.run) (integrity "agent capacity run state is invalid")
  capacity ← agent_capacity tables.run.complexity (occupied_slots tables.agents)
  check (not (capacity.available == 0)) (capacity_exceeded capacity.limit capacity.occupied)

-- The pending agent is stored, if there is no agent with its id.
unfoldable pub insert_agent : RunTables → AgentState → Result RunTables
unfolding assert_agent_slot_available
insert_agent tables agent = elim (select agent_id agent.id tables.agents) [
  | some existing ↦ ok tables
  | none ↦ (do
    assert_agent_slot_available tables
    ok (record tables { agents = tables.agents ++ agent ∷ [] }))
]

-- `{ ...story, assignedAgentId: ownerAgentId }`, where the story has no agent yet.
abbrev pub assign : StoryState → String → StoryState
assign story owner =
    if is_some story.assigned_agent_id
    then story
    else record story { assigned_agent_id = some owner }

-- The rows are looked up by the ids as they are given.
unfoldable pub materialize_writer_assignment :
    Database → AcquireInput → Option AgentState → Result Database
unfolding insert_agent
materialize_writer_assignment db input none = ok db
materialize_writer_assignment db input (some agent) = do
  check
      (str_eq agent.id input.owner_agent_id
        && str_eq agent.run_id input.run_id
        && is_text agent.task_id input.story_id)
      (stale_writer_lease "pending writer agent identity does not match the lease")
  tables ← found (db.runs input.run_id) (stale_writer_lease "assigned story is missing")
  row ←
      found (select story_id input.story_id tables.stories)
        (stale_writer_lease "assigned story is missing")
  check (is_story_state row.story) (integrity "writer lease story state is invalid")
  check (not (is_other row.story.assigned_agent_id input.owner_agent_id))
      (stale_writer_lease "story is already assigned to another agent")
  written ←
      insert_agent
        (record tables {
          stories =
              rewrite (record row { story = assign row.story input.owner_agent_id }) tables.stories;
        })
        agent
  ok (store db input.run_id written)

unfoldable pub assert_agent_assigned_to_story :
    RunTables → String → String → Bool → Result (Unit {0})
assert_agent_assigned_to_story tables story owner allow_pending_ready = do
  row ←
      found (select story_id story tables.stories)
        (stale_writer_lease "assigned story or agent is missing")
  agent ←
      found (select agent_id owner tables.agents)
        (stale_writer_lease "assigned story or agent is missing")
  check (is_story_state row.story && is_agent_state agent)
      (integrity "writer lease assignment state is invalid")
  check
      (is_text row.story.assigned_agent_id owner
        && is_text agent.task_id story
        && str_eq row.story.worktree_path agent.worktree_path)
      (stale_writer_lease "agent is not assigned to the story worktree")
  check
      (allow_pending_ready
        || Story.includes (assigned ∷ working ∷ changes_requested ∷ []) row.story.status)
      (stale_writer_lease "the story status cannot hold a writer lease")
  check (not (Agent.includes (Agent.failed ∷ completed ∷ closed ∷ []) agent.status))
      (stale_writer_lease "the agent status cannot hold a writer lease")

-- The story's row with a new lease, and the tables with it and the event.
abbrev pub with_lease :
    RunTables
    → FencedWrite
    → StoryRow
    → WriterLeaseRow
    → String
    → WriterLeaseAction
    → Option String
    → RunTables
with_lease tables write row lease owner action reason =
    with_event
      (record tables { stories = rewrite (record row { lease = some lease }) tables.stories }) write
      row.story.id lease.lease_token owner action reason

abbrev pub grant : Option WriterLeaseRow → String → ℕ → ℕ → WriterLeaseRow
grant current owner now ttl_ms = record {
  owner_agent_id = some owner;
  lease_token = token_of current + 1;
  expires_at = some (now + ttl_ms);
  updated_at = now;
}

abbrev pub freed : WriterLeaseRow → ℕ → WriterLeaseRow
freed lease now = record lease { owner_agent_id = none; expires_at = none; updated_at = now }

-- The lease of the row, if it is active.
abbrev pub active : Option WriterLeaseRow → ℕ → Option WriterLeaseRow
active none now = none
active (some lease) now = if is_some (writer_of (some lease) now) then some lease else none

-- The lease itself where it is active, and a new one where it is not.
abbrev pub keep_or_grant :
    Database
    → String
    → RunTables
    → StoryRow
    → AcquireInput
    → String
    → Option WriterLeaseRow
    → Database × WriterLeaseRow
keep_or_grant db run_id tables row input owner (some lease) = (db, lease)
keep_or_grant db run_id tables row input owner none =
    let lease = grant row.lease owner input.write.now input.ttl_ms in
    (store db run_id (with_lease tables input.write row lease owner acquired none), lease)

unfoldable pub acquire_writer_lease : Database → AcquireInput → Result (Database × WriterLeaseRow)
unfolding materialize_writer_assignment assert_agent_assigned_to_story
acquire_writer_lease db input = do
  run_id ← non_empty input.run_id "writer lease run id"
  story ← non_empty input.story_id "writer lease story id"
  owner ← non_empty input.owner_agent_id "writer lease owner agent id"
  assert_time_and_ttl input.write.now input.ttl_ms
  assert_fence db input.write
  next ← materialize_writer_assignment db input input.agent
  tables ← found (next.runs run_id) (stale_writer_lease "assigned story or agent is missing")
  row ←
      found (select story_id story tables.stories)
        (stale_writer_lease "assigned story or agent is missing")
  let writer = writer_of row.lease input.write.now
  check (not (is_other writer owner)) (writer_lease_held (or_empty writer))
  assert_agent_assigned_to_story tables story owner (is_some input.agent)
  ok (keep_or_grant next run_id tables row input owner (active row.lease input.write.now))

-- A lease that this owner holds with this token, with the row and the tables that it stands in.
pub record Held : Type 0 where
  pub run_id : String
  pub tables : RunTables
  pub row : StoryRow
  pub lease : WriterLeaseRow

unfoldable pub assert_held_writer_lease : Database → HeldInput → Result Held
assert_held_writer_lease db input = do
  run_id ← non_empty input.run_id "writer lease run id"
  story ← non_empty input.story_id "writer lease story id"
  owner ← non_empty input.owner_agent_id "writer lease owner agent id"
  as_safe_integer input.lease_token "writer lease token"
  as_safe_integer input.write.now "writer lease timestamp"
  tables ← found (db.runs run_id) (stale_writer_lease "lease is missing")
  row ← found (select story_id story tables.stories) (stale_writer_lease "lease is missing")
  lease ← found row.lease (stale_writer_lease "lease is missing")
  check (is_text lease.owner_agent_id owner) (stale_writer_lease "owner does not hold the lease")
  check (lease.lease_token == input.lease_token) (stale_writer_lease "token is stale")
  check (is_after lease.expires_at input.write.now) (stale_writer_lease "lease has expired")
  ok (record { run_id = run_id; tables = tables; row = row; lease = lease })

-- A lease has an owner and a time when it expires, or has neither (the table's CHECK).
abbrev pub extended : ℕ → ℕ → WriterLeaseRow → Result WriterLeaseRow
extended expires_at now lease = do
  check (is_some lease.owner_agent_id) (integrity "CHECK constraint failed")
  ok (record lease { expires_at = some expires_at; updated_at = now })

-- An UPDATE changes the lease of a story that has one.
abbrev pub update_row :
    (WriterLeaseRow → Result WriterLeaseRow)
    → Option WriterLeaseRow
    → Result (Option WriterLeaseRow)
update_row change none = ok none
update_row change (some lease) = do changed ← change lease; ok (some changed)

-- The UPDATE and the event name the story by the ids as they are given, and the event refers to
-- the story's row; the lease that was checked is that of the trimmed ids.
unfoldable pub update_held :
    Database
    → HeldInput
    → Held
    → (WriterLeaseRow → Result WriterLeaseRow)
    → WriterLeaseAction
    → Result Database
update_held db input held change action = do
  tables ← found (db.runs input.run_id) (integrity "FOREIGN KEY constraint failed")
  row ←
      found (select story_id input.story_id tables.stories)
        (integrity "FOREIGN KEY constraint failed")
  lease ← update_row change row.lease
  ok (
      store db input.run_id (
        with_event
          (record tables { stories = rewrite (record row { lease = lease }) tables.stories })
          input.write input.story_id held.lease.lease_token input.owner_agent_id action none))

unfoldable pub renew_writer_lease : Database → HeldInput → ℕ → Result (Database × WriterLeaseRow)
unfolding assert_held_writer_lease update_held
renew_writer_lease db input ttl_ms = do
  assert_time_and_ttl input.write.now ttl_ms
  assert_fence db input.write
  held ← assert_held_writer_lease db input
  let expires_at = input.write.now + ttl_ms
  next ← update_held db input held (extended expires_at input.write.now) renewed
  ok (
    next,
    record {
      owner_agent_id = some input.owner_agent_id;
      lease_token = held.lease.lease_token;
      expires_at = some expires_at;
      updated_at = input.write.now;
    },
  )

-- The row of the lease, by the ids as they are given.
unfoldable pub writer_lease_row : Database → String → String → Option WriterLeaseRow
writer_lease_row db run_id story = elim (db.runs run_id) [
  | none ↦ none
  | some tables ↦ elim (select story_id story tables.stories) [ none ↦ none | some row ↦ row.lease ]
]

-- A lease that was released with this token.
abbrev pub released_with : Option WriterLeaseRow → ℕ → Option WriterLeaseRow
released_with none token = none
released_with (some lease) token =
    if not (is_some lease.owner_agent_id) && lease.lease_token == token then some lease else none

abbrev pub or_release :
    Database
    → Option WriterLeaseRow
    → Result (Database × WriterLeaseRow)
    → Result (Database × WriterLeaseRow)
or_release db (some lease) release = ok (db, lease)
or_release db none release = release

unfoldable pub release_writer_lease : Database → HeldInput → Result (Database × WriterLeaseRow)
unfolding assert_held_writer_lease update_held writer_lease_row
release_writer_lease db input = do
  assert_fence db input.write
  or_release db (released_with (writer_lease_row db input.run_id input.story_id) input.lease_token)
      (do
        held ← assert_held_writer_lease db input
        next ← update_held db input held (λ lease. ok (freed lease input.write.now)) released
        ok (next, freed held.lease input.write.now))

-- What a revocation writes, which is nothing if the lease has no owner.
abbrev pub revoke_from :
    Database
    → RevokeInput
    → String
    → RunTables
    → StoryRow
    → WriterLeaseRow
    → Option String
    → Database × WriterLeaseRow
revoke_from db input reason tables row lease none = (db, lease)
revoke_from db input reason tables row lease (some owner) =
    let next = freed lease input.write.now in
    (
      store db input.run_id (with_lease tables input.write row next owner revoked (some reason)),
      next,
    )

unfoldable pub revoke_writer_lease : Database → RevokeInput → Result (Database × WriterLeaseRow)
revoke_writer_lease db input = do
  reason ← non_empty input.reason "writer lease revocation reason"
  as_safe_integer input.expected_lease_token "expected writer lease token"
  assert_fence db input.write
  tables ← found (db.runs input.run_id) (stale_writer_lease "lease is missing")
  row ←
      found (select story_id input.story_id tables.stories) (stale_writer_lease "lease is missing")
  lease ← found row.lease (stale_writer_lease "lease is missing")
  check (lease.lease_token == input.expected_lease_token)
      (stale_writer_lease "token is stale or missing")
  ok (revoke_from db input reason tables row lease lease.owner_agent_id)
