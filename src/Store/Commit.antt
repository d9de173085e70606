-- ===== src/Store/Commit.antt =====
-- A command is processed once, and a revision is committed once.
use pi_agentworks.Prelude.{
  ℕ, ◌+◌, ◌≤◌, String, ◌≡◌, refl, ◌∙◌, sym, ap, inl, inr, true, false, Option, none, some, List,
  arith, eq_iff, subst,
}
use pi_agentworks.Errors.{ok, ok-injective}
use pi_agentworks.Trace.{replay, replay_inv}
use pi_agentworks.Store.{
  Database, RunTables, CommandRow, CommitResult, SnapshotInput, FencedWrite, put_self, put_ne,
}
use pi_agentworks.Store.Lease.{assert_fence}
use pi_agentworks.Store.Snapshots.{commands_of, commit_snapshot, find_idempotent_result}
use pi_agentworks.Store.Outcome.{Accepted, commit_snapshot-Accepted}
use pi_agentworks.Store.Written.{write_revision-Written, written_tables, command_of}
use pi_agentworks.Store.Operations.{Operation, perform}
use pi_agentworks.Store.Log.{LogStep, log_of, Log, perform-LogStep}

abbrev commands_in : Option Log → String → Option CommandRow
commands_in none key = none
commands_in (some l) key = l.1 key

commands_of-log :
    (tables : Option RunTables) (key : String)
    → commands_of tables key ≡ commands_in (log_of tables) key
commands_of-log none key = refl
commands_of-log (some tables) key = refl

-- A recorded command stays recorded.
LogStep-keeps_command :
    (before after : Option RunTables) (key : String) (row : CommandRow)
    → LogStep before after
    → commands_of before key ≡ some row
    → commands_of after key ≡ some row
LogStep-keeps_command before after key row (LogStep.unchanged e) h =
    commands_of-log after key ∙ ap (λ l. commands_in l key) e ∙ sym (commands_of-log before key) ∙ h
LogStep-keeps_command before after key row (LogStep.created e) h =
    absurd (ground (arith, rw e at h))
LogStep-keeps_command before after key row
      (LogStep.committed tables written fresh added was unprocessed is next put_in) h =
    rw (is, put_in) (put_ne fresh key added tables.commands (λ e. absurd (cc)) ∙ rw was at h)

replay-keeps_command :
    (run_id key : String) (row : CommandRow) (db : Database) (ops : List Operation)
    {last : Database}
    → commands_of (db.runs run_id) key ≡ some row
    → replay perform db ops ≡ ok last
    → commands_of (last.runs run_id) key ≡ some row
replay-keeps_command run_id key row =
    replay_inv perform (λ db. commands_of (db.runs run_id) key ≡ some row)
      (λ db op next h done.
        LogStep-keeps_command (db.runs run_id) (next.runs run_id) key row
          (perform-LogStep db op done run_id) h)

-- A run that has reached a revision.
abbrev IsBeyond : ℕ → Option RunTables → Type 0
IsBeyond n none = ⊥
IsBeyond n (some tables) = n ≤ tables.revision

LogStep-IsBeyond :
    (n : ℕ) (before after : Option RunTables)
    → LogStep before after
    → IsBeyond n before
    → IsBeyond n after
LogStep-IsBeyond n none after s h = absurd h
LogStep-IsBeyond n (some tables) none (LogStep.unchanged e) h = absurd (cc)
LogStep-IsBeyond n (some tables) (some changed) (LogStep.unchanged e) h = ground arith
LogStep-IsBeyond n (some tables) after (LogStep.created e) h = absurd (cc)
LogStep-IsBeyond n (some tables) after
      (LogStep.committed old written fresh added was unprocessed is next put_in) h =
    let known : n ≤ old.revision = subst (IsBeyond n) was h in rw is (ground (arith, next, known))

-- The response to an accepted command is recorded with the request's hash.
record IsRecorded (tables : Option RunTables) (key hash : String) (response : CommitResult)
    : Type 0 where
  row : CommandRow
  recorded : commands_of tables key ≡ some row
  same_request : row.request_hash ≡ hash
  same_response : record row.response { replayed = true } ≡ record response { replayed = true }

outcome-IsRecorded :
    (db : Database) (given : String) (expected : ℕ) (input : SnapshotInput)
    {next : Database × CommitResult} (a : Accepted db given expected input next)
    → IsRecorded (next.0.runs a.run_id) a.key input.request_hash next.1
outcome-IsRecorded db given expected input {next} a = elim a.outcome [
  | inl again ↦ rw again.result (record {
    row = again.row;
    recorded = again.recorded;
    same_request = again.same_request;
    same_response = refl;
  })
  | inr c ↦
      let w = write_revision-Written db a.run_id c.tables _ a.key input c.result in
      rw
        (
          w.result,
          put_self a.run_id (written_tables c.tables (c.tables.revision + 1) a.key input) db.runs,
        )
        (record {
          row = command_of (c.tables.revision + 1) input;
          recorded = put_self a.key _ c.tables.commands;
          same_request = refl;
          same_response = refl;
        })
]

-- A command that is recorded is answered with the recorded response.
commit_snapshot_of_recorded :
    (db : Database) (given : String) (expected : ℕ) (input : SnapshotInput)
    {next : Database × CommitResult} (a : Accepted db given expected input next) (last : Database)
    (again : FencedWrite) (row : CommandRow)
    → commands_of (last.runs a.run_id) a.key ≡ some row
    → row.request_hash ≡ input.request_hash
    → assert_fence last again ≡ ok tt
    → commit_snapshot last given expected (record input { write = again })
      ≡ ok (last, record row.response { replayed = true })
unfolding commit_snapshot find_idempotent_result
commit_snapshot_of_recorded db given expected input a last again row recorded same fenced =
    rw (a.named, a.admitted.keyed, a.small, a.admitted.valid, a.admitted.evented, fenced, recorded)
      (ground (
        arith,
        a.positive,
        eq_iff input.run.id a.run_id,
        a.of_run,
        eq_iff row.request_hash input.request_hash,
        same,
      ))

-- If a commit is accepted, and then any operations, the same command under a write that passes the
-- fence is answered with the same response, marked as a replay, and changes nothing.
pub commit_happens_once :
    (db : Database) (given : String) (expected : ℕ) (input : SnapshotInput)
    {next : Database × CommitResult} (ops : List Operation) {last : Database} (again : FencedWrite)
    → commit_snapshot db given expected input ≡ ok next
    → replay perform next.0 ops ≡ ok last
    → assert_fence last again ≡ ok tt
    → commit_snapshot last given expected (record input { write = again })
      ≡ ok (last, record next.1 { replayed = true })
commit_happens_once db given expected input {next} ops {last} again done after fenced =
    let a = commit_snapshot-Accepted db given expected input done in
    let r = outcome-IsRecorded db given expected input a in
    let kept = replay-keeps_command a.run_id a.key r.row next.0 ops r.recorded after in
    commit_snapshot_of_recorded db given expected input a last again r.row kept r.same_request
      fenced
    ∙ ap (λ response. ok (last, response)) r.same_response

replay-IsBeyond :
    (run_id : String) (n : ℕ) (db : Database) (ops : List Operation) {last : Database}
    → IsBeyond n (db.runs run_id)
    → replay perform db ops ≡ ok last
    → IsBeyond n (last.runs run_id)
replay-IsBeyond run_id n =
    replay_inv perform (λ db. IsBeyond n (db.runs run_id))
      (λ db op next h done.
        LogStep-IsBeyond n (db.runs run_id) (next.runs run_id) (perform-LogStep db op done run_id)
          h)

-- A commit that is no replay takes the run from the expected revision to the next.
fresh-IsBeyond :
    (db : Database) (given : String) (expected : ℕ) (input : SnapshotInput)
    {next : Database × CommitResult} (a : Accepted db given expected input next)
    → next.1.replayed ≡ false
    → IsBeyond (expected + 1) (next.0.runs a.run_id)
fresh-IsBeyond db given expected input a fresh = elim a.outcome [
  | inl again ↦ absurd (cc)
  | inr c ↦
      let w = write_revision-Written db a.run_id c.tables _ a.key input c.result in
      rw
        (
          w.result,
          put_self a.run_id (written_tables c.tables (c.tables.revision + 1) a.key input) db.runs,
        )
        (ground (arith, c.at_revision))
]

-- If a commit is accepted that is no replay, and then any operations, then every later commit to
-- the same run at the same expected revision is refused or a replay that changes nothing.
pub one_commit_of_each_revision :
    (db : Database) (given : String) (expected : ℕ) (input : SnapshotInput)
    {next : Database × CommitResult} (ops : List Operation) {last : Database}
    (other : SnapshotInput) {final : Database × CommitResult}
    → commit_snapshot db given expected input ≡ ok next
    → next.1.replayed ≡ false
    → replay perform next.0 ops ≡ ok last
    → commit_snapshot last given expected other ≡ ok final
    → (final.0 ≡ last) × (final.1.replayed ≡ true)
one_commit_of_each_revision db given expected input {next} ops {last} other done fresh after
      second =
    let a = commit_snapshot-Accepted db given expected input done in
    let b = commit_snapshot-Accepted last given expected other second in
    let same : a.run_id ≡ b.run_id = ok-injective (sym a.named ∙ b.named) in
    let beyond =
      replay-IsBeyond a.run_id (expected + 1) next.0 ops
        (fresh-IsBeyond db given expected input a fresh) after in
    elim b.outcome [
      | inl again ↦ rw again.result (refl, refl)
      | inr c ↦
          let there : expected + 1 ≤ c.tables.revision =
            subst (IsBeyond (expected + 1)) (ap last.runs same ∙ c.current) beyond in
          absurd (ground (arith, there, c.at_revision))
    ]
