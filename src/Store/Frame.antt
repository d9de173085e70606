-- ===== src/Store/Frame.antt =====
-- What the operations on runs and on writer leases leave alone: the controller's own lease.
use pi_agentworks.Prelude.{ℕ, String, ◌≡◌, refl, ◌∙◌, inl, inr, Option, none, some, arith}
use pi_agentworks.Errors.{ok}
use pi_agentworks.Agent.{AgentState}
use pi_agentworks.Store.{Database, StoryRow, RunTables, CommitResult, SnapshotInput, WriterLeaseRow}
use pi_agentworks.Store.Snapshots.{initialize_run, commit_snapshot, write_revision}
use pi_agentworks.Store.Writers.{
  AcquireInput, HeldInput, RevokeInput, acquire_writer_lease, renew_writer_lease,
  release_writer_lease, revoke_writer_lease, update_held, materialize_writer_assignment,
  keep_or_grant, active,
}
use pi_agentworks.Store.WriterOutcome.{acquire_writer_lease-Acquired}
use pi_agentworks.Store.Outcome.{commit_snapshot-Accepted, initialize_run-outcome}

write_revision-lease :
    (db : Database) (run_id : String) (tables : RunTables) (revision : ℕ) (key : String)
    (input : SnapshotInput) {next : Database × CommitResult}
    → write_revision db run_id tables revision key input ≡ ok next
    → next.0.controller_lease ≡ db.controller_lease
unfolding write_revision
write_revision-lease db run_id tables revision key input h = ground arith

pub commit_snapshot-lease :
    (db : Database) (run_id : String) (expected : ℕ) (input : SnapshotInput)
    {next : Database × CommitResult}
    → commit_snapshot db run_id expected input ≡ ok next
    → next.0.controller_lease ≡ db.controller_lease
commit_snapshot-lease db run_id expected input h =
    let a = commit_snapshot-Accepted db run_id expected input h in
    elim a.outcome [
      | inl r ↦ rw r.result refl
      | inr c ↦ write_revision-lease db a.run_id c.tables _ a.key input c.result
    ]

pub initialize_run-lease :
    (db : Database) (input : SnapshotInput) {next : Database × CommitResult}
    → initialize_run db input ≡ ok next
    → next.0.controller_lease ≡ db.controller_lease
initialize_run-lease db input h =
    let (run_id, key, named, admitted, outcome) = initialize_run-outcome db input h in
    elim outcome [
      | inl r ↦ rw r.result refl
      | inr c ↦ write_revision-lease db run_id _ 1 key input c.result
    ]

materialize-lease :
    (db : Database) (input : AcquireInput) (agent : Option AgentState) {next : Database}
    → materialize_writer_assignment db input agent ≡ ok next
    → next.controller_lease ≡ db.controller_lease
unfolding materialize_writer_assignment
materialize-lease db input none h = ground arith
materialize-lease db input (some agent) h = ground arith

keep_or_grant-lease :
    (db : Database) (run_id : String) (tables : RunTables) (row : StoryRow) (input : AcquireInput)
    (owner : String) (lease : Option WriterLeaseRow)
    → (keep_or_grant db run_id tables row input owner lease).0.controller_lease
      ≡ db.controller_lease
keep_or_grant-lease db run_id tables row input owner none = refl
keep_or_grant-lease db run_id tables row input owner (some lease) = refl

pub acquire_writer_lease-lease :
    (db : Database) (input : AcquireInput) {next : Database × WriterLeaseRow}
    → acquire_writer_lease db input ≡ ok next
    → next.0.controller_lease ≡ db.controller_lease
acquire_writer_lease-lease db input h =
    let a = acquire_writer_lease-Acquired db input h in
    rw a.result (
      keep_or_grant-lease a.middle a.run_id a.tables a.row input a.owner
        (active a.row.lease input.write.now)
      ∙ materialize-lease db input input.agent a.materialized)

pub renew_writer_lease-lease :
    (db : Database) (input : HeldInput) (ttl_ms : ℕ) {next : Database × WriterLeaseRow}
    → renew_writer_lease db input ttl_ms ≡ ok next
    → next.0.controller_lease ≡ db.controller_lease
unfolding renew_writer_lease update_held
renew_writer_lease-lease db input ttl_ms h = ground arith

pub release_writer_lease-lease :
    (db : Database) (input : HeldInput) {next : Database × WriterLeaseRow}
    → release_writer_lease db input ≡ ok next
    → next.0.controller_lease ≡ db.controller_lease
unfolding release_writer_lease update_held
release_writer_lease-lease db input h = ground arith

pub revoke_writer_lease-lease :
    (db : Database) (input : RevokeInput) {next : Database × WriterLeaseRow}
    → revoke_writer_lease db input ≡ ok next
    → next.0.controller_lease ≡ db.controller_lease
unfolding revoke_writer_lease
revoke_writer_lease-lease db input h = ground arith
