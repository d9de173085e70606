-- ===== src/Store/Operations.antt =====
-- The operations of the database, as one step relation.
use pi_agentworks.Prelude.{ℕ, String, Option, none, some}
use pi_agentworks.Errors.{Result, ok, ◌>>=◌}
use pi_agentworks.Store.{Database, FencedWrite, SnapshotInput}
use pi_agentworks.Store.Lease
use pi_agentworks.Store.Snapshots
use pi_agentworks.Store.Writers
use pi_agentworks.Store.Writers.{AcquireInput, HeldInput, RevokeInput}
use pi_agentworks.Store.Launches
use pi_agentworks.Store.Launches.{LaunchInput, LaunchAnswers, BindInput, BindAnswers}

-- A call of an operation that writes the controller's lease, a run or its stories, agents and
-- leases. The other operations that write (confirmAgentLaunch, reserveAgentPaneRestoration,
-- reserveAgentPaneRestorations, confirmAgentPaneRestoration and bindControllerLaunchComposition)
-- write other tables only.
pub data Operation : Type 0 where
  acquire_lease : (owner_id : String) (now ttl_ms : ℕ) → Operation
  renew_lease : (write : FencedWrite) (ttl_ms : ℕ) → Operation
  release_lease : (write : FencedWrite) → Operation
  initialize_run : (input : SnapshotInput) → Operation
  commit_snapshot : (run_id : String) (expected_revision : ℕ) (input : SnapshotInput) → Operation
  acquire_writer_lease : (input : AcquireInput) → Operation
  renew_writer_lease : (input : HeldInput) (ttl_ms : ℕ) → Operation
  release_writer_lease : (input : HeldInput) → Operation
  revoke_writer_lease : (input : RevokeInput) → Operation
  materialize_agent_launch : (input : LaunchInput) (answers : LaunchAnswers) → Operation
  bind_agent_pane_restoration : (input : BindInput) (answers : BindAnswers) → Operation

abbrev pub database_of {ℓ} : {A : Type ℓ} → Result (Database × A) → Result Database
database_of r = do result ← r; ok result.0

-- The database after the call; a call that throws is rolled back.
unfoldable pub perform : Database → Operation → Result Database
perform db (acquire_lease owner_id now ttl_ms) = Lease.acquire_lease db owner_id now ttl_ms
perform db (renew_lease write ttl_ms) = Lease.renew_lease db write ttl_ms
perform db (release_lease write) = Lease.release_lease db write
perform db (initialize_run input) = database_of (Snapshots.initialize_run db input)
perform db (commit_snapshot run_id expected_revision input) =
    database_of (Snapshots.commit_snapshot db run_id expected_revision input)
perform db (acquire_writer_lease input) = database_of (Writers.acquire_writer_lease db input)
perform db (renew_writer_lease input ttl_ms) =
    database_of (Writers.renew_writer_lease db input ttl_ms)
perform db (release_writer_lease input) = database_of (Writers.release_writer_lease db input)
perform db (revoke_writer_lease input) = database_of (Writers.revoke_writer_lease db input)
perform db (materialize_agent_launch input answers) =
    database_of (Launches.materialize_agent_launch db input answers)
perform db (bind_agent_pane_restoration input answers) =
    Launches.bind_agent_pane_restoration db input answers

-- The fenced write that the call is made under; acquiring the controller's lease needs none.
abbrev pub write_of : Operation → Option FencedWrite
write_of (acquire_lease owner_id now ttl_ms) = none
write_of (renew_lease write ttl_ms) = some write
write_of (release_lease write) = some write
write_of (initialize_run input) = some input.write
write_of (commit_snapshot run_id expected_revision input) = some input.write
write_of (acquire_writer_lease input) = some input.write
write_of (renew_writer_lease input ttl_ms) = some input.write
write_of (release_writer_lease input) = some input.write
write_of (revoke_writer_lease input) = some input.write
write_of (materialize_agent_launch input answers) = some input.write
write_of (bind_agent_pane_restoration input answers) = some input.write
