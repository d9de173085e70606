-- ===== src/Examples/Stores.antt =====
-- The theorems on the database, at a run with one story and its writer.
use pi_agentworks.Prelude.{
  ◌≡◌, ◌≢◌, refl, ◌≤◌, true, false, none, some, Option, List, [], ◌∷◌, arith, In, eq_iff, str_eq,
  trim,
}
use pi_agentworks.Errors.{ok, is_ok, value_or}
use pi_agentworks.Complexity.{get_complexity_policy}
use pi_agentworks.Scheduling.{agent_capacity, count_occupied_agent_slots, occupies_agent_capacity}
use pi_agentworks.StoryPlan.{includes}
use pi_agentworks.Schemas.{is_run_state, is_story_state, is_agent_state, is_planning_metadata}
use pi_agentworks.Trace.{replay}
use pi_agentworks.Store.{
  Database, RunTables, StoryRow, Snapshot, CommitResult, WriterLeaseRow, put, non_empty,
}
use pi_agentworks.Store.Lease.{
  acquire_lease, renew_lease, assert_fence, assert_time_and_ttl, is_after,
}
use pi_agentworks.Store.Tables.{select, retain, upsert}
use pi_agentworks.Store.Synchronize.{upsert_all, synchronize}
use pi_agentworks.Store.Validation.{
  validate_stories, validate_agents, validate_snapshot_members, validate_events,
  validate_event_list, occupied_slots,
}
use pi_agentworks.Store.Snapshots.{
  initialize_run, commit_snapshot, find_idempotent_result, write_revision, insert_event_ids,
  event_rows, keeps_lease, assert_writer_lease_snapshot_consistency, load_snapshot, owner_of,
  new_tables,
}
use pi_agentworks.Store.Writers.{
  HeldInput, RevokeInput, acquire_writer_lease, renew_writer_lease, revoke_writer_lease,
  materialize_writer_assignment, assert_agent_assigned_to_story,
}
use pi_agentworks.Store.Operations.{Operation, perform}
use pi_agentworks.Store.Fencing.{superseded_writer_is_refused}
use pi_agentworks.Store.Commit.{commit_happens_once, one_commit_of_each_revision}
use pi_agentworks.Store.Sound.{IsWriter}
use pi_agentworks.Store.Reachable.{
  reachable-IsWriter, reachable_writer_has_one_story, reachable_within_capacity,
}
use pi_agentworks.Store.Loading.{HaveSameMembers, load_snapshot_of_commit}
use pi_agentworks.Store.Revocation.{revoked_writer_is_refused}
use pi_agentworks.Store.Exclusion.{acquired_lease_excludes}
use pi_agentworks.Examples.StoreData.{
  the_run, the_story, the_agent, write_at, input_of, claim, ops, base, reached, nothing,
}

abbrev second : Database × CommitResult
second =
    value_or (commit_snapshot base "r1" 1 (input_of "k2" 20))
      (base, record { revision = 0; event_ids = []; replayed = true })

committed : commit_snapshot base "r1" 1 (input_of "k2" 20) ≡ ok second
unfolding replay perform commit_snapshot acquire_lease non_empty trim assert_time_and_ttl
    assert_fence initialize_run validate_snapshot_members validate_stories validate_agents
    is_run_state is_story_state is_agent_state is_planning_metadata includes agent_capacity
    count_occupied_agent_slots occupies_agent_capacity validate_events validate_event_list
    find_idempotent_result write_revision insert_event_ids event_rows synchronize upsert_all retain
    upsert select put acquire_writer_lease materialize_writer_assignment
    assert_agent_assigned_to_story get_complexity_policy keeps_lease
    assert_writer_lease_snapshot_consistency
committed = refl

fresh : second.1.replayed ≡ false
unfolding replay perform commit_snapshot acquire_lease non_empty trim assert_time_and_ttl
    assert_fence initialize_run validate_snapshot_members validate_stories validate_agents
    is_run_state is_story_state is_agent_state is_planning_metadata includes agent_capacity
    count_occupied_agent_slots occupies_agent_capacity validate_events validate_event_list
    find_idempotent_result write_revision insert_event_ids event_rows synchronize upsert_all retain
    upsert select put acquire_writer_lease materialize_writer_assignment
    assert_agent_assigned_to_story get_complexity_policy keeps_lease
    assert_writer_lease_snapshot_consistency
fresh = refl

fenced : assert_fence second.0 (write_at 30) ≡ ok tt
unfolding replay perform commit_snapshot acquire_lease non_empty trim assert_time_and_ttl
    assert_fence initialize_run validate_snapshot_members validate_stories validate_agents
    is_run_state is_story_state is_agent_state is_planning_metadata includes agent_capacity
    count_occupied_agent_slots occupies_agent_capacity validate_events validate_event_list
    find_idempotent_result write_revision insert_event_ids event_rows synchronize upsert_all retain
    upsert select put acquire_writer_lease materialize_writer_assignment
    assert_agent_assigned_to_story get_complexity_policy keeps_lease
    assert_writer_lease_snapshot_consistency
fenced = refl

commit_happens_once_example :
    commit_snapshot second.0 "r1" 1 (record (input_of "k2" 20) { write = write_at 30 })
    ≡ ok (second.0, record second.1 { replayed = true })
commit_happens_once_example =
    commit_happens_once base "r1" 1 (input_of "k2" 20) [] (write_at 30) committed (nothing second.0)
      fenced

repeated :
    commit_snapshot second.0 "r1" 1 (record (input_of "k2" 20) { write = write_at 30 })
    ≡ ok (second.0, record second.1 { replayed = true })
unfolding replay perform commit_snapshot acquire_lease non_empty trim assert_time_and_ttl
    assert_fence initialize_run validate_snapshot_members validate_stories validate_agents
    is_run_state is_story_state is_agent_state is_planning_metadata includes agent_capacity
    count_occupied_agent_slots occupies_agent_capacity validate_events validate_event_list
    find_idempotent_result write_revision insert_event_ids event_rows synchronize upsert_all retain
    upsert select put acquire_writer_lease materialize_writer_assignment
    assert_agent_assigned_to_story get_complexity_policy keeps_lease
    assert_writer_lease_snapshot_consistency
repeated = refl

one_commit_of_each_revision_example : (second.0 ≡ second.0) × (true ≡ true)
one_commit_of_each_revision_example =
    one_commit_of_each_revision base "r1" 1 (input_of "k2" 20) []
      (record (input_of "k2" 20) { write = write_at 30 }) committed fresh (nothing second.0)
      repeated

same_members : {A : Type 0} (xs : List A) → HaveSameMembers xs xs
same_members xs x = (λ i. i, λ i. i)

load_snapshot_of_commit_example :
    (snapshot : Snapshot) × (load_snapshot (λ rows. rows) (λ rows. rows) second.0 "r1"
      ≡ ok (some snapshot))
    × (snapshot.revision ≡ 2)
    × (snapshot.run ≡ the_run)
    × HaveSameMembers snapshot.stories (the_story ∷ [])
    × HaveSameMembers snapshot.agents (the_agent ∷ [])
load_snapshot_of_commit_example =
    load_snapshot_of_commit (λ rows. rows) (λ rows. rows) ops "r1" 1 (input_of "k2" 20) same_members
      same_members reached committed fresh (omega arith)

-- The tables of the run, and the story's row.
abbrev tables_of : Option RunTables → RunTables
tables_of none = new_tables the_run
tables_of (some tables) = tables

abbrev first_row : List StoryRow → StoryRow
first_row [] = record { story = the_story; lease = none }
first_row (row ∷ rows) = row

abbrev the_tables : RunTables
the_tables = tables_of (base.runs "r1")

abbrev the_row : StoryRow
the_row = first_row the_tables.stories

current : base.runs "r1" ≡ some the_tables
unfolding replay perform commit_snapshot acquire_lease non_empty trim assert_time_and_ttl
    assert_fence initialize_run validate_snapshot_members validate_stories validate_agents
    is_run_state is_story_state is_agent_state is_planning_metadata includes agent_capacity
    count_occupied_agent_slots occupies_agent_capacity validate_events validate_event_list
    find_idempotent_result write_revision insert_event_ids event_rows synchronize upsert_all retain
    upsert select put acquire_writer_lease materialize_writer_assignment
    assert_agent_assigned_to_story get_complexity_policy keeps_lease
    assert_writer_lease_snapshot_consistency
current = refl

stored : In the_row the_tables.stories
unfolding replay perform commit_snapshot acquire_lease non_empty trim assert_time_and_ttl
    assert_fence initialize_run validate_snapshot_members validate_stories validate_agents
    is_run_state is_story_state is_agent_state is_planning_metadata includes agent_capacity
    count_occupied_agent_slots occupies_agent_capacity validate_events validate_event_list
    find_idempotent_result write_revision insert_event_ids event_rows synchronize upsert_all retain
    upsert select put acquire_writer_lease materialize_writer_assignment
    assert_agent_assigned_to_story get_complexity_policy keeps_lease
    assert_writer_lease_snapshot_consistency
stored = In.here

owned : owner_of the_row.lease ≡ some "a1"
unfolding replay perform commit_snapshot acquire_lease non_empty trim assert_time_and_ttl
    assert_fence initialize_run validate_snapshot_members validate_stories validate_agents
    is_run_state is_story_state is_agent_state is_planning_metadata includes agent_capacity
    count_occupied_agent_slots occupies_agent_capacity validate_events validate_event_list
    find_idempotent_result write_revision insert_event_ids event_rows synchronize upsert_all retain
    upsert select put acquire_writer_lease materialize_writer_assignment
    assert_agent_assigned_to_story get_complexity_policy keeps_lease
    assert_writer_lease_snapshot_consistency
owned = refl

reachable-IsWriter_example : IsWriter the_tables.agents "a1" the_row.story
reachable-IsWriter_example = reachable-IsWriter ops "r1" "a1" reached current stored owned

reachable_writer_has_one_story_example : the_row ≡ the_row
reachable_writer_has_one_story_example =
    reachable_writer_has_one_story ops "r1" "a1" reached current stored stored owned owned

reachable_within_capacity_example :
    occupied_slots the_tables.agents
    ≤ (get_complexity_policy the_tables.run.complexity).maximum_agents
reachable_within_capacity_example = reachable_within_capacity ops "r1" reached current

-- Another controller takes over.
abbrev taken : Database
taken = value_or (acquire_lease base "c2" 200 100) base

fenced_before : assert_fence base (write_at 20) ≡ ok tt
unfolding replay perform commit_snapshot acquire_lease non_empty trim assert_time_and_ttl
    assert_fence initialize_run validate_snapshot_members validate_stories validate_agents
    is_run_state is_story_state is_agent_state is_planning_metadata includes agent_capacity
    count_occupied_agent_slots occupies_agent_capacity validate_events validate_event_list
    find_idempotent_result write_revision insert_event_ids event_rows synchronize upsert_all retain
    upsert select put acquire_writer_lease materialize_writer_assignment
    assert_agent_assigned_to_story get_complexity_policy keeps_lease
    assert_writer_lease_snapshot_consistency
fenced_before = refl

taken_over : acquire_lease base "c2" 200 100 ≡ ok taken
unfolding replay perform commit_snapshot acquire_lease non_empty trim assert_time_and_ttl
    assert_fence initialize_run validate_snapshot_members validate_stories validate_agents
    is_run_state is_story_state is_agent_state is_planning_metadata includes agent_capacity
    count_occupied_agent_slots occupies_agent_capacity validate_events validate_event_list
    find_idempotent_result write_revision insert_event_ids event_rows synchronize upsert_all retain
    upsert select put acquire_writer_lease materialize_writer_assignment
    assert_agent_assigned_to_story get_complexity_policy keeps_lease
    assert_writer_lease_snapshot_consistency
taken_over = refl

others : trim "c2" ≢ trim "c1"
unfolding trim
others h = let e : str_eq "c2" "c1" ≡ true = (eq_iff "c2" "c1").1 h in absurd (cc)

superseded_writer_is_refused_example :
    is_ok (perform taken (Operation.commit_snapshot "r1" 1 (input_of "k3" 40))) ≡ false
superseded_writer_is_refused_example =
    superseded_writer_is_refused base (write_at 20) [] "c2" 200 100 []
      (Operation.commit_snapshot "r1" 1 (input_of "k3" 40)) 40 fenced_before (nothing base)
      taken_over others (nothing taken) refl

abbrev revocation : RevokeInput
revocation = record {
  write = write_at 30;
  run_id = "r1";
  story_id = "s1";
  expected_lease_token = 1;
  reason = "lost";
}

abbrev revoked_lease : Database × WriterLeaseRow
revoked_lease =
    value_or (revoke_writer_lease base revocation)
      (base, record { owner_agent_id = none; lease_token = 0; expires_at = none; updated_at = 0 })

revoking : revoke_writer_lease base revocation ≡ ok revoked_lease
unfolding replay perform commit_snapshot acquire_lease non_empty trim assert_time_and_ttl
    assert_fence initialize_run validate_snapshot_members validate_stories validate_agents
    is_run_state is_story_state is_agent_state is_planning_metadata includes agent_capacity
    count_occupied_agent_slots occupies_agent_capacity validate_events validate_event_list
    find_idempotent_result write_revision insert_event_ids event_rows synchronize upsert_all retain
    upsert select put acquire_writer_lease materialize_writer_assignment
    assert_agent_assigned_to_story get_complexity_policy keeps_lease
    assert_writer_lease_snapshot_consistency revoke_writer_lease
revoking = refl

abbrev held : HeldInput
held = record {
  write = write_at 40;
  run_id = " r1";
  story_id = "s1";
  owner_agent_id = "a1";
  lease_token = 1;
}

same_run : trim " r1" ≡ "r1"
unfolding trim
same_run = refl

same_story : trim "s1" ≡ "s1"
unfolding trim
same_story = refl

revoked_writer_is_refused_example : is_ok (renew_writer_lease revoked_lease.0 held 50) ≡ false
revoked_writer_is_refused_example =
    revoked_writer_is_refused base revocation [] held 50 revoking refl (nothing revoked_lease.0)
      same_run same_story (omega arith)

abbrev claimed : Database × WriterLeaseRow
claimed =
    value_or (acquire_writer_lease base claim)
      (base, record { owner_agent_id = none; lease_token = 0; expires_at = none; updated_at = 0 })

claiming : acquire_writer_lease base claim ≡ ok claimed
unfolding replay perform commit_snapshot acquire_lease non_empty trim assert_time_and_ttl
    assert_fence initialize_run validate_snapshot_members validate_stories validate_agents
    is_run_state is_story_state is_agent_state is_planning_metadata includes agent_capacity
    count_occupied_agent_slots occupies_agent_capacity validate_events validate_event_list
    find_idempotent_result write_revision insert_event_ids event_rows synchronize upsert_all retain
    upsert select put acquire_writer_lease materialize_writer_assignment
    assert_agent_assigned_to_story get_complexity_policy keeps_lease
    assert_writer_lease_snapshot_consistency
claiming = refl

live : is_after claimed.1.expires_at 40 ≡ true
unfolding replay perform commit_snapshot acquire_lease non_empty trim assert_time_and_ttl
    assert_fence initialize_run validate_snapshot_members validate_stories validate_agents
    is_run_state is_story_state is_agent_state is_planning_metadata includes agent_capacity
    count_occupied_agent_slots occupies_agent_capacity validate_events validate_event_list
    find_idempotent_result write_revision insert_event_ids event_rows synchronize upsert_all retain
    upsert select put acquire_writer_lease materialize_writer_assignment
    assert_agent_assigned_to_story get_complexity_policy keeps_lease
    assert_writer_lease_snapshot_consistency
live = refl

other_agents : trim "a2" ≢ trim "a1"
unfolding trim
other_agents h = let e : str_eq "a2" "a1" ≡ true = (eq_iff "a2" "a1").1 h in absurd (cc)

abbrev between : List Operation
between = Operation.renew_lease (write_at 30) 100 ∷ []

abbrev afterwards : Database
afterwards = value_or (replay perform claimed.0 between) base

renewing : replay perform claimed.0 between ≡ ok afterwards
unfolding replay perform commit_snapshot acquire_lease non_empty trim assert_time_and_ttl
    assert_fence initialize_run validate_snapshot_members validate_stories validate_agents
    is_run_state is_story_state is_agent_state is_planning_metadata includes agent_capacity
    count_occupied_agent_slots occupies_agent_capacity validate_events validate_event_list
    find_idempotent_result write_revision insert_event_ids event_rows synchronize upsert_all retain
    upsert select put acquire_writer_lease materialize_writer_assignment
    assert_agent_assigned_to_story get_complexity_policy keeps_lease
    assert_writer_lease_snapshot_consistency renew_lease
renewing = refl

acquired_lease_excludes_example :
    is_ok (
      acquire_writer_lease afterwards (record claim { owner_agent_id = "a2"; write = write_at 40 }))
    ≡ false
acquired_lease_excludes_example =
    acquired_lease_excludes base claim (record claim { owner_agent_id = "a2"; write = write_at 40 })
      between claiming refl renewing refl refl other_agents live
