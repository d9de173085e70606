-- ===== src/Store/Outcome.antt =====
-- What an accepted commit or initialisation went through, and its two outcomes.
use pi_agentworks.Prelude.{
  ℕ, ◌+◌, ◌≤◌, String, ◌≡◌, refl, sym, ◌⊎◌, inl, inr, Bool, true, Option, none, some, arith, ap,
  is_some, eq_iff, not, leb, ◌==◌, str_eq,
}
use pi_agentworks.Errors.{ok, >>=-eq-ok, ok-injective, failed, stale_revision, RepositoryError}
use pi_agentworks.Store.{
  Database, RunTables, CommandRow, CommitResult, SnapshotInput, non_empty, check, found,
  as_safe_integer,
}
use pi_agentworks.Store.Lease.{assert_fence}
use pi_agentworks.Store.Validation.{validate_snapshot_members, validate_events}
use pi_agentworks.Store.Snapshots.{
  initialize_run, commit_snapshot, write_revision, commands_of, find_idempotent_result, new_tables,
  assert_writer_lease_snapshot_consistency,
}

-- The command was processed before, with the same request.
pub record IsReplay (db : Database) (run_id key : String) (input : SnapshotInput)
    (next : Database × CommitResult) : Type 0 where
  pub row : CommandRow
  pub recorded : commands_of (db.runs run_id) key ≡ some row
  pub same_request : row.request_hash ≡ input.request_hash
  pub result : next ≡ (db, record row.response { replayed = true })

-- The command is new, and the run is at the revision that was expected.
pub record IsCommit (db : Database) (run_id key : String) (expected : ℕ) (input : SnapshotInput)
    (next : Database × CommitResult) : Type 0 where
  pub tables : RunTables
  pub unprocessed : commands_of (db.runs run_id) key ≡ none
  pub current : db.runs run_id ≡ some tables
  pub at_revision : tables.revision ≡ expected
  pub consistent :
      assert_writer_lease_snapshot_consistency tables.stories input.stories input.agents ≡ ok tt
  pub result : write_revision db run_id tables (tables.revision + 1) key input ≡ ok next

pub record IsInitial (db : Database) (run_id key : String) (input : SnapshotInput)
    (next : Database × CommitResult) : Type 0 where
  pub absent : db.runs run_id ≡ none
  pub result : write_revision db run_id (new_tables input.run) 1 key input ≡ ok next

-- What both operations test first.
pub record IsAdmitted (db : Database) (run_id key : String) (input : SnapshotInput) : Type 0 where
  pub keyed : non_empty input.idempotency_key "idempotency key" ≡ ok key
  pub valid : validate_snapshot_members input.run input.stories input.agents ≡ ok tt
  pub evented : validate_events input.events ≡ ok tt
  pub fenced : assert_fence db input.write ≡ ok tt

pub check-eq-ok : (test : Bool) (e : RepositoryError) → check test e ≡ ok tt → test ≡ true
check-eq-ok test e h = ground arith

pub found-eq-ok {ℓ} :
    {A : Type ℓ} (o : Option A) (e : RepositoryError) {a : A} → found o e ≡ ok a → o ≡ some a
found-eq-ok none e h = absurd (cc)
found-eq-ok (some b) e h = ap some (ok-injective h)

pub find_idempotent_result-cases :
    (row : Option CommandRow) (key hash : String) {found_result : Option CommitResult}
    → find_idempotent_result row key hash ≡ ok found_result
    → ((row ≡ none) × (found_result ≡ none))
      ⊎ ((r : CommandRow) × (row ≡ some r)
          × (r.request_hash ≡ hash)
          × (found_result ≡ some (record r.response { replayed = true })))
unfolding find_idempotent_result
find_idempotent_result-cases none key hash h = inl (refl, ground arith)
find_idempotent_result-cases (some r) key hash h =
    inr (r, refl, ground (arith, eq_iff r.request_hash hash), ground arith)

pub record Accepted (db : Database) (given_run_id : String) (expected : ℕ) (input : SnapshotInput)
    (next : Database × CommitResult) : Type 0 where
  pub run_id : String
  pub key : String
  pub named : non_empty given_run_id "run id" ≡ ok run_id
  pub small : as_safe_integer expected "expected revision" ≡ ok tt
  pub positive : 1 ≤ expected
  pub of_run : input.run.id ≡ run_id
  pub admitted : IsAdmitted db run_id key input
  pub outcome : IsReplay db run_id key input next ⊎ IsCommit db run_id key expected input next

pub commit_snapshot-Accepted :
    (db : Database) (given_run_id : String) (expected : ℕ) (input : SnapshotInput)
    {next : Database × CommitResult}
    → commit_snapshot db given_run_id expected input ≡ ok next
    → Accepted db given_run_id expected input next
unfolding commit_snapshot
commit_snapshot-Accepted db given expected input {next} h₀ =
    let (run_id, named, h₁) = >>=-eq-ok (non_empty given "run id") _ h₀ in
    let (key, keyed, h₂) = >>=-eq-ok (non_empty input.idempotency_key "idempotency key") _ h₁ in
    let (u₁, small, h₃) = >>=-eq-ok (as_safe_integer expected "expected revision") _ h₂ in
    let (u₂, positive, h₄) = >>=-eq-ok (check (leb 1 expected) _) _ h₃ in
    let (u₃, same, h₅) = >>=-eq-ok (check (str_eq input.run.id run_id) _) _ h₄ in
    let (u₄, valid, h₆) =
      >>=-eq-ok (validate_snapshot_members input.run input.stories input.agents) _ h₅ in
    let (u₅, evented, h₇) = >>=-eq-ok (validate_events input.events) _ h₆ in
    let (u₆, fenced, h₈) = >>=-eq-ok (assert_fence db input.write) _ h₇ in
    let (replay, looked, h₉) =
      >>=-eq-ok (find_idempotent_result (commands_of (db.runs run_id) key) key input.request_hash) _
        h₈ in
    record {
      run_id = run_id;
      key = key;
      named = named;
      small = small;
      positive = ground (arith, positive);
      of_run = (eq_iff input.run.id run_id).0 (check-eq-ok (str_eq input.run.id run_id) _ same);
      admitted = record { keyed = keyed; valid = valid; evented = evented; fenced = fenced };
      outcome =
          elim (find_idempotent_result-cases (commands_of (db.runs run_id) key) key
            input.request_hash looked) [
              | inr (row, recorded, request, replayed) ↦ inl (record {
                row = row;
                recorded = recorded;
                same_request = request;
                result = sym (ok-injective (rw replayed at h₉));
              })
              | inl (unprocessed, no_replay) ↦
                  let (tables, current, k₁) =
                    >>=-eq-ok (found (db.runs run_id) (failed _)) _ (rw no_replay at h₉) in
                  let (v₁, stored, k₂) =
                    >>=-eq-ok (as_safe_integer tables.revision "stored run revision") _ k₁ in
                  let (v₂, at_revision, k₃) =
                    >>=-eq-ok
                      (check (tables.revision == expected)
                        (stale_revision expected tables.revision))
                      _ k₂ in
                  let (v₃, consistent, k₄) =
                    >>=-eq-ok
                      (assert_writer_lease_snapshot_consistency tables.stories input.stories
                        input.agents)
                      _ k₃ in
                  inr (record {
                    tables = tables;
                    unprocessed = unprocessed;
                    current = found-eq-ok (db.runs run_id) _ current;
                    at_revision = ground (arith, at_revision);
                    consistent = consistent;
                    result = k₄;
                  })
            ];
    }

pub initialize_run-outcome :
    (db : Database) (input : SnapshotInput) {next : Database × CommitResult}
    → initialize_run db input ≡ ok next
    → (run_id : String) × (key : String) × (non_empty input.run.id "run id" ≡ ok run_id)
      × IsAdmitted db run_id key input
      × (IsReplay db run_id key input next ⊎ IsInitial db run_id key input next)
unfolding initialize_run
initialize_run-outcome db input {next} h₀ =
    let (run_id, named, h₁) = >>=-eq-ok (non_empty input.run.id "run id") _ h₀ in
    let (key, keyed, h₂) = >>=-eq-ok (non_empty input.idempotency_key "idempotency key") _ h₁ in
    let (u₁, valid, h₃) =
      >>=-eq-ok (validate_snapshot_members input.run input.stories input.agents) _ h₂ in
    let (u₂, evented, h₄) = >>=-eq-ok (validate_events input.events) _ h₃ in
    let (u₃, fenced, h₅) = >>=-eq-ok (assert_fence db input.write) _ h₄ in
    let (replay, looked, h₆) =
      >>=-eq-ok (find_idempotent_result (commands_of (db.runs run_id) key) key input.request_hash) _
        h₅ in
    (
      run_id,
      key,
      named,
      record { keyed = keyed; valid = valid; evented = evented; fenced = fenced },
      elim (find_idempotent_result-cases (commands_of (db.runs run_id) key) key input.request_hash
          looked) [
            | inr (row, recorded, request, replayed) ↦ inl (record {
              row = row;
              recorded = recorded;
              same_request = request;
              result = sym (ok-injective (rw replayed at h₆));
            })
            | inl (unprocessed, no_replay) ↦
                let (u₄, absent, k) =
                  >>=-eq-ok (check (not (is_some (db.runs run_id))) _) _ (rw no_replay at h₆) in
                inr (record { absent = ground (arith, absent); result = k })
          ],
    )
