-- ===== src/Store.antt =====
-- The controller's database (src/infrastructure/controller/sqlite-controller-repository.ts): its
-- tables, and what its operations are given and return. The tables with a run_id column, which all
-- have it first in their primary key, are kept together for each run, and a row's state_json is the
-- state that it stores. A row of writer_leases has the key of a row of stories and is deleted with
-- it, so it stands in that row. The table processed_commands is a function on its key.
pub mod Lease
pub mod Tables
pub mod Synchronize
pub mod Validation
pub mod Snapshots
pub mod Writers
pub mod Launches
pub mod Operations
pub mod Outcome
pub mod WriterOutcome
pub mod Materialized
pub mod Rewritten
pub mod Written
pub mod Members
pub mod Occupied
pub mod Sound
pub mod Synced
pub mod Frame
pub mod Touched
pub mod Launched
pub mod Bound
pub mod Passed
pub mod Fencing
pub mod Log
pub mod Commit
pub mod Safety
pub mod Reachable
pub mod Loading
pub mod WriterFencing
pub mod WriterSteps
pub mod Revoked
pub mod Revocation
pub mod Claimed
pub mod Exclusion
use pi_agentworks.Prelude.{
  ℕ, String, ◌≡◌, refl, ◌≢◌, Bool, Option, none, some, List, [], ◌++◌, arith, if◌then◌else◌, leb,
  str_eq, eq_iff, trim, map,
}
use pi_agentworks.Errors.{
  Error, repository, RepositoryError, failed, Result, ok, err, guard, max_safe_integer,
}
use pi_agentworks.Run.{RunState}
use pi_agentworks.Story.{StoryState}
use pi_agentworks.Agent.{AgentState}

-- The table controller_lease, which has one row.
pub record LeaseRow : Type 0 where
  pub owner_id : Option String
  pub fencing_token : ℕ
  pub expires_at : Option ℕ

-- A row of writer_leases.
pub record WriterLeaseRow : Type 0 where
  pub owner_agent_id : Option String
  pub lease_token : ℕ
  pub expires_at : Option ℕ
  pub updated_at : ℕ

pub data WriterLeaseAction : Type 0 where
  acquired renewed released revoked : WriterLeaseAction

-- A row of writer_lease_events.
pub record WriterLeaseEvent : Type 0 where
  pub story_id : String
  pub lease_token : ℕ
  pub owner_agent_id : String
  pub action : WriterLeaseAction
  pub reason : Option String
  pub controller_owner_id : String
  pub controller_fencing_token : ℕ
  pub occurred_at : ℕ

pub data EntityType : Type 0 where
  run story agent controller : EntityType

-- ControllerEventInput; the payload is its JSON text.
pub record EventInput : Type 0 where
  pub event_id : String
  pub type : String
  pub entity_type : EntityType
  pub entity_id : String
  pub payload : String
  pub occurred_at : ℕ

-- A row of controller_events.
pub record EventRow : Type 0 where
  pub revision : ℕ
  pub event_index : ℕ
  pub event : EventInput

pub record CommitResult : Type 0 where
  pub revision : ℕ
  pub event_ids : List String
  pub replayed : Bool

-- A row of processed_commands.
pub record CommandRow : Type 0 where
  pub request_hash : String
  pub response : CommitResult

pub record StoryRow : Type 0 where
  pub story : StoryState
  pub lease : Option WriterLeaseRow

pub record RunTables : Type 0 where
  pub revision : ℕ
  pub run : RunState
  pub stories : List StoryRow
  pub agents : List AgentState
  pub events : List EventRow
  pub commands : String → Option CommandRow
  pub writer_lease_events : List WriterLeaseEvent

-- `event_ids` is the unique index on event_id, which ranges over all runs.
pub record Database : Type 0 where
  pub controller_lease : LeaseRow
  pub runs : String → Option RunTables
  pub event_ids : List String

pub record FencedWrite : Type 0 where
  pub owner_id : String
  pub fencing_token : ℕ
  pub now : ℕ

-- InitializeRunInput, and with `expected_revision` CommitSnapshotInput. `request_hash` is
-- requestHash(request), the SHA-256 of the request's stable JSON.
pub record SnapshotInput : Type 0 where
  pub write : FencedWrite
  pub idempotency_key : String
  pub request_hash : String
  pub run : RunState
  pub stories : List StoryState
  pub agents : List AgentState
  pub events : List EventInput

-- ControllerSnapshot
pub record Snapshot : Type 0 where
  pub revision : ℕ
  pub run : RunState
  pub stories : List StoryState
  pub agents : List AgentState

-- The row with this key is replaced, or added.
unfoldable pub put {ℓ} : {A : Type ℓ} → String → A → (String → Option A) → String → Option A
put key value rows j = if str_eq key j then some value else rows j

module _ {ℓ} {A : Type ℓ} where
  pub put_self :
      (key : String) (value : A) (rows : String → Option A) → put key value rows key ≡ some value
  unfolding put
  put_self key value rows = ground (arith, eq_iff key key)

  pub put_ne :
      (key j : String) (value : A) (rows : String → Option A)
      → key ≢ j
      → put key value rows j ≡ rows j
  unfolding put
  put_ne key j value rows h = ground (arith, eq_iff key j)

abbrev pub fail_with {ℓ} : {A : Type ℓ} → RepositoryError → Result A
fail_with e = err (repository e)

abbrev pub check : Bool → RepositoryError → Result (Unit {0})
check test e = guard test (repository e)

-- `asSafeInteger(value, label)`, for a number that is no fraction and not negative.
abbrev pub as_safe_integer : ℕ → String → Result (Unit {0})
as_safe_integer value label = check (leb value max_safe_integer) (failed label)

-- `nonEmpty(value, label)`
unfoldable pub non_empty : String → String → Result String
non_empty value label = if str_eq (trim value) "" then fail_with (failed label) else ok (trim value)

-- `row ?? throw error`
abbrev pub found {ℓ} : {A : Type ℓ} → Option A → RepositoryError → Result A
found none e = fail_with e
found (some row) e = ok row
