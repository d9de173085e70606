-- ===== src/Store/Reachable.antt =====
-- Every operation keeps the tables of every run sound.
use pi_agentworks.Prelude.{
  ℕ, ◌≤◌, String, ◌≡◌, refl, ◌∙◌, sym, ◌⊎◌, inl, inr, Option, none, some, List, [], arith, In,
  is_some,
}
use pi_agentworks.Errors.{ok, >>=-eq-ok, ok-injective}
use pi_agentworks.Complexity.{get_complexity_policy}
use pi_agentworks.Trace.{replay, replay_inv}
use pi_agentworks.Store.{Database, RunTables, StoryRow, WriterLeaseRow, SnapshotInput, CommitResult}
use pi_agentworks.Store.Tables.{select, In-select}
use pi_agentworks.Store.Validation.{story_id, occupied_slots}
use pi_agentworks.Store.Snapshots
use pi_agentworks.Store.Snapshots.{
  owner_of, new_tables, commit_snapshot, initialize_run, assert_writer_lease_snapshot_consistency,
}
use pi_agentworks.Store.Writers
use pi_agentworks.Store.Writers.{
  AcquireInput, assert_agent_assigned_to_story, grant, active, keep_or_grant, with_lease,
}
use pi_agentworks.Store.Outcome.{commit_snapshot-Accepted, initialize_run-outcome}
use pi_agentworks.Store.WriterOutcome.{acquire_writer_lease-Acquired}
use pi_agentworks.Store.Rewritten.{
  Rewritten, IsKept, renew_writer_lease-Rewritten, release_writer_lease-Rewritten,
  revoke_writer_lease-Rewritten,
}
use pi_agentworks.Store.Written.{write_revision-Written}
use pi_agentworks.Store.Members.{validate_snapshot_members-IsMembership}
use pi_agentworks.Store.Launches
use pi_agentworks.Store.Launched.{materialize_agent_launch-Touched}
use pi_agentworks.Store.Bound.{bind_agent_pane_restoration-Touched}
use pi_agentworks.Store.Touched.{Touched, with_agent_row-IsSound}
use pi_agentworks.Store.Operations.{Operation, perform}
use pi_agentworks.Store.Log.{acquire_lease-runs, renew_lease-runs, release_lease-runs}
use pi_agentworks.Store.Sound.{IsWriter, rewrite-IsSound, new_tables-IsSound, one_story_of_writer}
use pi_agentworks.Store.Synced.{written_tables-IsSound}
use pi_agentworks.Store.Safety.{AllSound, put-AllSound, materialize-AllSound, assigned-IsWriter}

keep_or_grant-AllSound :
    (db : Database) (run_id : String) (tables : RunTables) (row : StoryRow) (input : AcquireInput)
    (story owner : String) (lease : Option WriterLeaseRow)
    → AllSound db.runs
    → db.runs run_id ≡ some tables
    → select story_id story tables.stories ≡ some row
    → assert_agent_assigned_to_story tables story owner (is_some input.agent) ≡ ok tt
    → AllSound (keep_or_grant db run_id tables row input owner lease).0.runs
keep_or_grant-AllSound db run_id tables row input story owner (some lease) all current chosen h =
    all
keep_or_grant-AllSound db run_id tables row input story owner none all current chosen h =
    put-AllSound run_id _ db.runs all (
      rewrite-IsSound tables _
        (record row { lease = some (grant row.lease owner input.write.now input.ttl_ms) })
        (all run_id tables current) refl refl refl
        (λ other owned.
          let same : owner ≡ other = ground (arith, owned) in
          rw (← same) (assigned-IsWriter tables story owner (is_some input.agent) h chosen)))

acquire_writer_lease-AllSound :
    (db : Database) (input : AcquireInput) {next : Database × WriterLeaseRow}
    → AllSound db.runs
    → Writers.acquire_writer_lease db input ≡ ok next
    → AllSound next.0.runs
acquire_writer_lease-AllSound db input all h =
    let a = acquire_writer_lease-Acquired db input h in
    rw a.result (
      keep_or_grant-AllSound a.middle a.run_id a.tables a.row input a.story a.owner
        (active a.row.lease input.write.now)
        (materialize-AllSound db input input.agent all a.materialized) a.current a.chosen
        a.assigned)

owner_of-kept :
    (old lease : Option WriterLeaseRow) (owner : String)
    → IsKept old lease
    → owner_of lease ≡ some owner
    → owner_of old ≡ some owner
owner_of-kept none none owner kept owned = owned
owner_of-kept none (some lease) owner kept owned = absurd kept
owner_of-kept (some old) none owner kept owned = absurd kept
owner_of-kept (some old) (some lease) owner (token, inl freed) owned =
    absurd (ground (arith, freed, owned))
owner_of-kept (some old) (some lease) owner (token, inr same) owned = sym same ∙ owned

Rewritten-AllSound :
    {run_id story : String} (db next : Database)
    → AllSound db.runs
    → Rewritten run_id story db next
    → AllSound next.runs
Rewritten-AllSound {run_id} {story} db next all w =
    let s = all run_id w.tables w.current in
    let i = In-select story_id story w.tables.stories w.chosen in
    rw w.result (
      put-AllSound run_id _ db.runs all (
        rewrite-IsSound w.tables _ (record w.row { lease = w.lease }) s refl refl refl
          (λ owner owned.
            s.writers w.row owner i (owner_of-kept w.row.lease w.lease owner w.kept owned))))

outcome-AllSound :
    {run_id story : String} (db next : Database)
    → AllSound db.runs
    → (next ≡ db) ⊎ Rewritten run_id story db next
    → AllSound next.runs
outcome-AllSound db next all (inl same) = rw same all
outcome-AllSound db next all (inr w) = Rewritten-AllSound db next all w

Touched-AllSound : (db next : Database) → AllSound db.runs → Touched db next → AllSound next.runs
Touched-AllSound db next all w = rw w.result (
    put-AllSound w.run_id _ db.runs all
      (with_agent_row-IsSound w.tables w.agent (all w.run_id w.tables w.current) w.fits w.unclosed))

commit_snapshot-AllSound :
    (db : Database) (given : String) (expected : ℕ) (input : SnapshotInput)
    {next : Database × CommitResult}
    → AllSound db.runs
    → commit_snapshot db given expected input ≡ ok next
    → AllSound next.0.runs
commit_snapshot-AllSound db given expected input all h =
    let a = commit_snapshot-Accepted db given expected input h in
    elim a.outcome [
      | inl again ↦ rw again.result all
      | inr c ↦
          let w = write_revision-Written db a.run_id c.tables _ a.key input c.result in
          let m =
            validate_snapshot_members-IsMembership input.run input.stories input.agents
              a.admitted.valid in
          rw w.result (
            put-AllSound a.run_id _ db.runs all (
              written_tables-IsSound c.tables _ a.key input (all a.run_id c.tables c.current) m
                c.consistent))
    ]

initialize_run-AllSound :
    (db : Database) (input : SnapshotInput) {next : Database × CommitResult}
    → AllSound db.runs
    → initialize_run db input ≡ ok next
    → AllSound next.0.runs
unfolding assert_writer_lease_snapshot_consistency
initialize_run-AllSound db input all h =
    let (run_id, key, named, admitted, outcome) = initialize_run-outcome db input h in
    elim outcome [
      | inl again ↦ rw again.result all
      | inr c ↦
          let w = write_revision-Written db run_id _ 1 key input c.result in
          let m =
            validate_snapshot_members-IsMembership input.run input.stories input.agents
              admitted.valid in
          rw w.result (
            put-AllSound run_id _ db.runs all (
              written_tables-IsSound (new_tables input.run) 1 key input
                (new_tables-IsSound input.run) m refl))
    ]

pub perform-AllSound :
    (db : Database) (op : Operation) (next : Database)
    → AllSound db.runs
    → perform db op ≡ ok next
    → AllSound next.runs
unfolding perform
perform-AllSound db (Operation.acquire_lease owner_id now ttl_ms) next all h =
    rw (acquire_lease-runs db owner_id now ttl_ms h) all
perform-AllSound db (Operation.renew_lease write ttl_ms) next all h =
    rw (renew_lease-runs db write ttl_ms h) all
perform-AllSound db (Operation.release_lease write) next all h =
    rw (release_lease-runs db write h) all
perform-AllSound db (Operation.initialize_run input) next all h =
    let (step, done, e) = >>=-eq-ok (Snapshots.initialize_run db input) _ h in
    rw (← ok-injective e) (initialize_run-AllSound db input all done)
perform-AllSound db (Operation.commit_snapshot run_id expected input) next all h =
    let (step, done, e) = >>=-eq-ok (Snapshots.commit_snapshot db run_id expected input) _ h in
    rw (← ok-injective e) (commit_snapshot-AllSound db run_id expected input all done)
perform-AllSound db (Operation.acquire_writer_lease input) next all h =
    let (step, done, e) = >>=-eq-ok (Writers.acquire_writer_lease db input) _ h in
    rw (← ok-injective e) (acquire_writer_lease-AllSound db input all done)
perform-AllSound db (Operation.renew_writer_lease input ttl_ms) next all h =
    let (step, done, e) = >>=-eq-ok (Writers.renew_writer_lease db input ttl_ms) _ h in
    rw (← ok-injective e)
      (Rewritten-AllSound db step.0 all (renew_writer_lease-Rewritten db input ttl_ms done))
perform-AllSound db (Operation.release_writer_lease input) next all h =
    let (step, done, e) = >>=-eq-ok (Writers.release_writer_lease db input) _ h in
    rw (← ok-injective e)
      (outcome-AllSound db step.0 all (release_writer_lease-Rewritten db input done))
perform-AllSound db (Operation.revoke_writer_lease input) next all h =
    let (step, done, e) = >>=-eq-ok (Writers.revoke_writer_lease db input) _ h in
    rw (← ok-injective e)
      (outcome-AllSound db step.0 all (revoke_writer_lease-Rewritten db input done))
perform-AllSound db (Operation.materialize_agent_launch input answers) next all h =
    let (step, done, e) = >>=-eq-ok (Launches.materialize_agent_launch db input answers) _ h in
    rw (← ok-injective e)
      (Touched-AllSound db step.0 all (materialize_agent_launch-Touched db input answers done).1)
perform-AllSound db (Operation.bind_agent_pane_restoration input answers) next all h =
    elim (bind_agent_pane_restoration-Touched db input answers h).1 [
      | inl same ↦ rw same all
      | inr w ↦ Touched-AllSound db next all w
    ]

-- The database after its first migration.
abbrev pub new_database : Database
new_database = record {
  controller_lease = record { owner_id = none; fencing_token = 0; expires_at = none };
  runs = λ r. none;
  event_ids = [];
}

pub replay-AllSound :
    (ops : List Operation) {db : Database}
    → replay perform new_database ops ≡ ok db
    → AllSound db.runs
replay-AllSound ops =
    replay_inv perform (λ db. AllSound db.runs) perform-AllSound new_database ops
      (λ r tables e. absurd (ground (arith, e)))

-- In every database that a new one comes to by accepted operations, the owner of a writer's lease,
-- expired or not, is the agent that the story is assigned to; it has the story as its task and
-- works in its worktree, and is not closed.
pub reachable-IsWriter :
    (ops : List Operation) {db : Database} (run_id : String) {tables : RunTables} {row : StoryRow}
    (owner : String)
    → replay perform new_database ops ≡ ok db
    → db.runs run_id ≡ some tables
    → In row tables.stories
    → owner_of row.lease ≡ some owner
    → IsWriter tables.agents owner row.story
reachable-IsWriter ops run_id {tables} {row} owner reached current i owned =
    (replay-AllSound ops reached run_id tables current).writers row owner i owned

-- In every database that a new one comes to by accepted operations, an agent is the owner of the
-- leases of at most one story of a run.
pub reachable_writer_has_one_story :
    (ops : List Operation) {db : Database} (run_id : String) {tables : RunTables}
    {row other : StoryRow} (owner : String)
    → replay perform new_database ops ≡ ok db
    → db.runs run_id ≡ some tables
    → In row tables.stories
    → In other tables.stories
    → owner_of row.lease ≡ some owner
    → owner_of other.lease ≡ some owner
    → row ≡ other
reachable_writer_has_one_story ops run_id {tables} {row} {other} owner reached current i j h k =
    one_story_of_writer tables row other owner (replay-AllSound ops reached run_id tables current) i
      j h k

-- In every database that a new one comes to by accepted operations, the agents of a run hold no
-- more slots than the run's complexity mode has.
pub reachable_within_capacity :
    (ops : List Operation) {db : Database} (run_id : String) {tables : RunTables}
    → replay perform new_database ops ≡ ok db
    → db.runs run_id ≡ some tables
    → occupied_slots tables.agents ≤ (get_complexity_policy tables.run.complexity).maximum_agents
reachable_within_capacity ops run_id {tables} reached current =
    (replay-AllSound ops reached run_id tables current).within
