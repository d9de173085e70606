-- ===== src/Store/Log.antt =====
-- What an operation does to a run's revision and to the commands that were processed for it.
use pi_agentworks.Prelude.{
  ℕ, ◌+◌, String, ◌≡◌, refl, ◌∙◌, ap, ◌⊎◌, inl, inr, Option, none, some, arith, eq_iff, str_eq,
  Bool-cases,
}
use pi_agentworks.Errors.{ok, >>=-eq-ok, ok-injective}
use pi_agentworks.Agent.{AgentState}
use pi_agentworks.Store.{
  Database, RunTables, StoryRow, WriterLeaseRow, CommandRow, CommitResult, SnapshotInput,
  FencedWrite, put, put_self, put_ne,
}
use pi_agentworks.Store.Lease.{acquire_lease, renew_lease, release_lease}
use pi_agentworks.Store.Snapshots
use pi_agentworks.Store.Snapshots.{
  commands_of, write_revision, insert_event_ids, synchronize_stories, synchronize_agents,
}
use pi_agentworks.Store.Writers
use pi_agentworks.Store.Writers.{
  AcquireInput, HeldInput, RevokeInput, Held, renew_writer_lease, release_writer_lease,
  revoke_writer_lease, update_held, assert_held_writer_lease, materialize_writer_assignment,
  insert_agent, keep_or_grant, or_release, released_with, writer_lease_row, revoke_from, freed,
  active, store, with_lease,
}
use pi_agentworks.Store.Outcome.{commit_snapshot-Accepted, initialize_run-outcome}
use pi_agentworks.Store.WriterOutcome.{acquire_writer_lease-Acquired}
use pi_agentworks.Store.Materialized.{insert_agent-cases, materialize-Materialized}
use pi_agentworks.Store.Rewritten.{
  Rewritten, renew_writer_lease-Rewritten, release_writer_lease-Rewritten,
  revoke_writer_lease-Rewritten,
}
use pi_agentworks.Store.Written.{write_revision-Written, command_of}
use pi_agentworks.Store.Launches
use pi_agentworks.Store.Launched.{materialize_agent_launch-Touched}
use pi_agentworks.Store.Bound.{bind_agent_pane_restoration-Touched}
use pi_agentworks.Store.Touched.{Touched}
use pi_agentworks.Store.Operations.{Operation, perform}

abbrev pub Log : Type 0
Log = ℕ × (String → Option CommandRow)

abbrev pub log : RunTables → Log
log tables = (tables.revision, tables.commands)

abbrev pub log_of : Option RunTables → Option Log
log_of none = none
log_of (some tables) = some (log tables)

-- No run's revision or processed commands change.
abbrev pub SameLog : Database → Database → Type 0
SameLog db next = (r : String) → log_of (next.runs r) ≡ log_of (db.runs r)

store-SameLog :
    (db : Database) (run_id : String) (tables changed : RunTables)
    → db.runs run_id ≡ some tables
    → log changed ≡ log tables
    → SameLog db (store db run_id changed)
store-SameLog db run_id tables changed current same r = elim (Bool-cases (str_eq run_id r)) [
  | inl here ↦
      let e = (eq_iff run_id r).0 here in
      rw (← e, put_self run_id changed db.runs, current) (ap some same)
  | inr there ↦
      ap log_of (put_ne run_id r changed db.runs (λ e. ground (arith, there, eq_iff run_id r)))
]

insert_agent-log :
    (tables : RunTables) (agent : AgentState) {written : RunTables}
    → insert_agent tables agent ≡ ok written
    → log written ≡ log tables
insert_agent-log tables agent h = elim (insert_agent-cases tables agent h) [
  | inl same ↦ rw same refl
  | inr (fresh, available, added) ↦ rw added refl
]

materialize-SameLog :
    (db : Database) (input : AcquireInput) (agent : Option AgentState) {next : Database}
    → materialize_writer_assignment db input agent ≡ ok next
    → SameLog db next
unfolding materialize_writer_assignment
materialize-SameLog db input none h = rw (← ok-injective h) (λ r. refl)
materialize-SameLog db input (some agent) h =
    let m = materialize-Materialized db input agent h in
    rw m.result (
      store-SameLog db input.run_id m.tables m.written m.current
        (insert_agent-log _ agent m.inserted))

keep_or_grant-SameLog :
    (db : Database) (run_id : String) (tables : RunTables) (row : StoryRow) (input : AcquireInput)
    (owner : String) (lease : Option WriterLeaseRow)
    → db.runs run_id ≡ some tables
    → SameLog db (keep_or_grant db run_id tables row input owner lease).0
keep_or_grant-SameLog db run_id tables row input owner none current =
    store-SameLog db run_id tables _ current refl
keep_or_grant-SameLog db run_id tables row input owner (some lease) current = λ r. refl

acquire_writer_lease-SameLog :
    (db : Database) (input : AcquireInput) {next : Database × WriterLeaseRow}
    → Writers.acquire_writer_lease db input ≡ ok next
    → SameLog db next.0
acquire_writer_lease-SameLog db input h =
    let a = acquire_writer_lease-Acquired db input h in
    rw a.result (λ r.
      keep_or_grant-SameLog a.middle a.run_id a.tables a.row input a.owner
        (active a.row.lease input.write.now) a.current r
      ∙ materialize-SameLog db input input.agent a.materialized r)

Rewritten-SameLog :
    {run_id story : String} (db next : Database) → Rewritten run_id story db next → SameLog db next
Rewritten-SameLog {run_id} db next w =
    rw w.result (store-SameLog db run_id w.tables _ w.current refl)

outcome-SameLog :
    {run_id story : String} (db next : Database)
    → (next ≡ db) ⊎ Rewritten run_id story db next
    → SameLog db next
outcome-SameLog db next (inl same) = rw same (λ r. refl)
outcome-SameLog db next (inr w) = Rewritten-SameLog db next w

Touched-SameLog : (db next : Database) → Touched db next → SameLog db next
Touched-SameLog db next w = rw w.result (store-SameLog db w.run_id w.tables _ w.current refl)

-- What one operation may do to one run's revision and processed commands: nothing, make the run, or
-- go to the next revision and record one new command.
pub data LogStep (before after : Option RunTables) : Type 0 where
  unchanged : log_of after ≡ log_of before → LogStep before after
  created : before ≡ none → LogStep before after
  committed :
      (tables written : RunTables) (key : String) (row : CommandRow)
      → before ≡ some tables
      → tables.commands key ≡ none
      → after ≡ some written
      → written.revision ≡ tables.revision + 1
      → written.commands ≡ put key row tables.commands
      → LogStep before after

put-LogStep :
    (db : Database) (run_id : String) (changed : RunTables)
    → LogStep (db.runs run_id) (some changed)
    → (r : String) → LogStep (db.runs r) (put run_id changed db.runs r)
put-LogStep db run_id changed here r = elim (Bool-cases (str_eq run_id r)) [
  | inl same ↦ let e = (eq_iff run_id r).0 same in rw (← e, put_self run_id changed db.runs) here
  | inr other ↦
      LogStep.unchanged
        (ap log_of (put_ne run_id r changed db.runs (λ e. ground (arith, other, eq_iff run_id r))))
]

commit_snapshot-LogStep :
    (db : Database) (given : String) (expected : ℕ) (input : SnapshotInput)
    {next : Database × CommitResult}
    → Snapshots.commit_snapshot db given expected input ≡ ok next
    → (r : String) → LogStep (db.runs r) (next.0.runs r)
commit_snapshot-LogStep db given expected input h =
    let a = commit_snapshot-Accepted db given expected input h in
    elim a.outcome [
      | inl again ↦ rw again.result (λ r. LogStep.unchanged refl)
      | inr c ↦
          let w = write_revision-Written db a.run_id c.tables _ a.key input c.result in
          rw w.result (
            put-LogStep db a.run_id _ (
              LogStep.committed c.tables _ a.key (command_of (c.tables.revision + 1) input)
                c.current (rw c.current at c.unprocessed) refl refl refl))
    ]

initialize_run-LogStep :
    (db : Database) (input : SnapshotInput) {next : Database × CommitResult}
    → Snapshots.initialize_run db input ≡ ok next
    → (r : String) → LogStep (db.runs r) (next.0.runs r)
initialize_run-LogStep db input h =
    let (run_id, key, named, admitted, outcome) = initialize_run-outcome db input h in
    elim outcome [
      | inl again ↦ rw again.result (λ r. LogStep.unchanged refl)
      | inr c ↦
          let w = write_revision-Written db run_id _ 1 key input c.result in
          rw w.result (put-LogStep db run_id _ (LogStep.created c.absent))
    ]

SameLog-LogStep :
    (db next : Database) → SameLog db next → (r : String) → LogStep (db.runs r) (next.runs r)
SameLog-LogStep db next same r = LogStep.unchanged (same r)

pub acquire_lease-runs :
    (db : Database) (owner_id : String) (now ttl_ms : ℕ) {next : Database}
    → acquire_lease db owner_id now ttl_ms ≡ ok next
    → next.runs ≡ db.runs
unfolding acquire_lease
acquire_lease-runs db owner_id now ttl_ms h = ground arith

pub renew_lease-runs :
    (db : Database) (write : FencedWrite) (ttl_ms : ℕ) {next : Database}
    → renew_lease db write ttl_ms ≡ ok next
    → next.runs ≡ db.runs
unfolding renew_lease
renew_lease-runs db write ttl_ms h = ground arith

pub release_lease-runs :
    (db : Database) (write : FencedWrite) {next : Database}
    → release_lease db write ≡ ok next
    → next.runs ≡ db.runs
unfolding release_lease
release_lease-runs db write h = ground arith

-- Only the controller's own lease changes.
lease_only-LogStep :
    {before after : String → Option RunTables}
    → after ≡ before
    → (r : String) → LogStep (before r) (after r)
lease_only-LogStep e r = LogStep.unchanged (ap (λ runs. log_of (runs r)) e)

pub perform-LogStep :
    (db : Database) (op : Operation) {next : Database}
    → perform db op ≡ ok next
    → (r : String) → LogStep (db.runs r) (next.runs r)
unfolding perform
perform-LogStep db (Operation.acquire_lease owner_id now ttl_ms) h =
    lease_only-LogStep (acquire_lease-runs db owner_id now ttl_ms h)
perform-LogStep db (Operation.renew_lease write ttl_ms) h =
    lease_only-LogStep (renew_lease-runs db write ttl_ms h)
perform-LogStep db (Operation.release_lease write) h =
    lease_only-LogStep (release_lease-runs db write h)
perform-LogStep db (Operation.initialize_run input) h =
    let (step, done, e) = >>=-eq-ok (Snapshots.initialize_run db input) _ h in
    rw (← ok-injective e) (initialize_run-LogStep db input done)
perform-LogStep db (Operation.commit_snapshot run_id expected input) h =
    let (step, done, e) = >>=-eq-ok (Snapshots.commit_snapshot db run_id expected input) _ h in
    rw (← ok-injective e) (commit_snapshot-LogStep db run_id expected input done)
perform-LogStep db (Operation.acquire_writer_lease input) h =
    let (step, done, e) = >>=-eq-ok (Writers.acquire_writer_lease db input) _ h in
    rw (← ok-injective e) (SameLog-LogStep db step.0 (acquire_writer_lease-SameLog db input done))
perform-LogStep db (Operation.renew_writer_lease input ttl_ms) h =
    let (step, done, e) = >>=-eq-ok (Writers.renew_writer_lease db input ttl_ms) _ h in
    rw (← ok-injective e) (
      SameLog-LogStep db step.0
        (Rewritten-SameLog db step.0 (renew_writer_lease-Rewritten db input ttl_ms done)))
perform-LogStep db (Operation.release_writer_lease input) h =
    let (step, done, e) = >>=-eq-ok (Writers.release_writer_lease db input) _ h in
    rw (← ok-injective e) (
      SameLog-LogStep db step.0
        (outcome-SameLog db step.0 (release_writer_lease-Rewritten db input done)))
perform-LogStep db (Operation.revoke_writer_lease input) h =
    let (step, done, e) = >>=-eq-ok (Writers.revoke_writer_lease db input) _ h in
    rw (← ok-injective e) (
      SameLog-LogStep db step.0
        (outcome-SameLog db step.0 (revoke_writer_lease-Rewritten db input done)))
perform-LogStep db (Operation.materialize_agent_launch input answers) h =
    let (step, done, e) = >>=-eq-ok (Launches.materialize_agent_launch db input answers) _ h in
    rw (← ok-injective e) (
      SameLog-LogStep db step.0
        (Touched-SameLog db step.0 (materialize_agent_launch-Touched db input answers done).1))
perform-LogStep db (Operation.bind_agent_pane_restoration input answers) {next} h =
    elim (bind_agent_pane_restoration-Touched db input answers h).1 [
      | inl same ↦ rw same (λ r. LogStep.unchanged refl)
      | inr w ↦ SameLog-LogStep db next (Touched-SameLog db next w)
    ]
