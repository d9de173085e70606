-- ===== src/Store/Written.antt =====
-- What writing one revision of a run leaves in its tables.
use pi_agentworks.Prelude.{ℕ, String, ◌≡◌, sym, false, List, ◌++◌, map}
use pi_agentworks.Errors.{ok, >>=-eq-ok, ok-injective}
use pi_agentworks.Store.{
  Database, RunTables, CommandRow, CommitResult, SnapshotInput, EventInput, put,
}
use pi_agentworks.Store.Snapshots.{
  write_revision, insert_event_ids, event_rows, synchronize_stories, synchronize_agents,
  events_of_stories,
}
use pi_agentworks.Store.Validation.{id_of}

abbrev pub response_of : ℕ → SnapshotInput → CommitResult
response_of revision input = record {
  revision = revision;
  event_ids = map (λ (e : EventInput). e.event_id) input.events;
  replayed = false;
}

abbrev pub command_of : ℕ → SnapshotInput → CommandRow
command_of revision input = record {
  request_hash = input.request_hash;
  response = response_of revision input;
}

abbrev pub written_tables : RunTables → ℕ → String → SnapshotInput → RunTables
written_tables tables revision key input = record tables {
  revision = revision;
  run = input.run;
  stories = synchronize_stories input.stories tables.stories;
  agents = synchronize_agents input.agents tables.agents;
  events = tables.events ++ event_rows revision 0 input.events;
  commands = put key (command_of revision input) tables.commands;
  writer_lease_events = events_of_stories (map id_of input.stories) tables.writer_lease_events;
}

pub record Written (db : Database) (run_id : String) (tables : RunTables) (revision : ℕ)
    (key : String) (input : SnapshotInput) (next : Database × CommitResult) : Type 0 where
  pub event_ids : List String
  pub recorded : insert_event_ids db.event_ids input.events ≡ ok event_ids
  pub result : next ≡ (
    record db {
      runs = put run_id (written_tables tables revision key input) db.runs;
      event_ids = event_ids;
    },
    response_of revision input,
  )

pub write_revision-Written :
    (db : Database) (run_id : String) (tables : RunTables) (revision : ℕ) (key : String)
    (input : SnapshotInput) {next : Database × CommitResult}
    → write_revision db run_id tables revision key input ≡ ok next
    → Written db run_id tables revision key input next
unfolding write_revision
write_revision-Written db run_id tables revision key input h =
    let (event_ids, recorded, e) = >>=-eq-ok (insert_event_ids db.event_ids input.events) _ h in
    record { event_ids = event_ids; recorded = recorded; result = sym (ok-injective e) }
