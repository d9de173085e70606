-- ===== src/Store/WriterOutcome.antt =====
-- What an accepted operation on a writer's lease went through.
use pi_agentworks.Prelude.{
  String, ◌≡◌, sym, Bool, true, false, not, Option, none, some, arith, ap, is_some, eq_iff, ◌==◌,
  subst,
}
use pi_agentworks.Errors.{ok, >>=-eq-ok, ok-injective, stale_writer_lease, writer_lease_held}
use pi_agentworks.Store.{
  Database, RunTables, StoryRow, WriterLeaseRow, non_empty, check, found, as_safe_integer,
}
use pi_agentworks.Store.Lease.{
  assert_fence, assert_time_and_ttl, is_text, is_after, is_other, or_empty,
}
use pi_agentworks.Store.Tables.{select}
use pi_agentworks.Store.Validation.{story_id}
use pi_agentworks.Store.Writers.{
  AcquireInput, HeldInput, Held, acquire_writer_lease, assert_held_writer_lease,
  materialize_writer_assignment, assert_agent_assigned_to_story, writer_of, active, keep_or_grant,
}
use pi_agentworks.Store.Outcome.{check-eq-ok, found-eq-ok}

pub record Acquired (db : Database) (input : AcquireInput) (next : Database × WriterLeaseRow)
    : Type 0 where
  pub run_id : String
  pub story : String
  pub owner : String
  pub of_run : non_empty input.run_id "writer lease run id" ≡ ok run_id
  pub of_story : non_empty input.story_id "writer lease story id" ≡ ok story
  pub of_owner : non_empty input.owner_agent_id "writer lease owner agent id" ≡ ok owner
  pub fenced : assert_fence db input.write ≡ ok tt
  pub middle : Database
  pub materialized : materialize_writer_assignment db input input.agent ≡ ok middle
  pub tables : RunTables
  pub current : middle.runs run_id ≡ some tables
  pub row : StoryRow
  pub chosen : select story_id story tables.stories ≡ some row
  pub free : is_other (writer_of row.lease input.write.now) owner ≡ false
  pub assigned : assert_agent_assigned_to_story tables story owner (is_some input.agent) ≡ ok tt
  pub result :
      next ≡ keep_or_grant middle run_id tables row input owner (active row.lease input.write.now)

falsity : (b : Bool) → not b ≡ true → b ≡ false
falsity b h = ground arith

pub acquire_writer_lease-Acquired :
    (db : Database) (input : AcquireInput) {next : Database × WriterLeaseRow}
    → acquire_writer_lease db input ≡ ok next
    → Acquired db input next
unfolding acquire_writer_lease
acquire_writer_lease-Acquired db input h₀ =
    let (run_id, of_run, h₁) = >>=-eq-ok (non_empty input.run_id "writer lease run id") _ h₀ in
    let (story, of_story, h₂) = >>=-eq-ok (non_empty input.story_id "writer lease story id") _ h₁ in
    let (owner, of_owner, h₃) =
      >>=-eq-ok (non_empty input.owner_agent_id "writer lease owner agent id") _ h₂ in
    let (u₁, timed, h₄) = >>=-eq-ok (assert_time_and_ttl input.write.now input.ttl_ms) _ h₃ in
    let (u₂, fenced, h₅) = >>=-eq-ok (assert_fence db input.write) _ h₄ in
    let (middle, materialized, h₆) =
      >>=-eq-ok (materialize_writer_assignment db input input.agent) _ h₅ in
    let missing = stale_writer_lease "assigned story or agent is missing" in
    let (tables, current, h₇) = >>=-eq-ok (found (middle.runs run_id) missing) _ h₆ in
    let (row, chosen, h₈) = >>=-eq-ok (found (select story_id story tables.stories) missing) _ h₇ in
    let writer = writer_of row.lease input.write.now in
    let (u₃, free, h₉) =
      >>=-eq-ok (check (not (is_other writer owner)) (writer_lease_held (or_empty writer))) _ h₈ in
    let (u₄, assigned, last) =
      >>=-eq-ok (assert_agent_assigned_to_story tables story owner (is_some input.agent)) _ h₉ in
    record {
      run_id = run_id;
      story = story;
      owner = owner;
      of_run = of_run;
      of_story = of_story;
      of_owner = of_owner;
      fenced = fenced;
      middle = middle;
      materialized = materialized;
      tables = tables;
      current = found-eq-ok (middle.runs run_id) missing current;
      row = row;
      chosen = found-eq-ok (select story_id story tables.stories) missing chosen;
      free = falsity (is_other writer owner) (check-eq-ok (not (is_other writer owner)) _ free);
      assigned = assigned;
      result = sym (ok-injective last);
    }

-- The lease is there, and is this owner's, with this token, at this time.
pub record IsHeld (db : Database) (input : HeldInput) (held : Held) : Type 0 where
  pub story : String
  pub owner : String
  pub of_run : non_empty input.run_id "writer lease run id" ≡ ok held.run_id
  pub of_story : non_empty input.story_id "writer lease story id" ≡ ok story
  pub of_owner : non_empty input.owner_agent_id "writer lease owner agent id" ≡ ok owner
  pub current : db.runs held.run_id ≡ some held.tables
  pub chosen : select story_id story held.tables.stories ≡ some held.row
  pub leased : held.row.lease ≡ some held.lease
  pub owned : held.lease.owner_agent_id ≡ some owner
  pub token : held.lease.lease_token ≡ input.lease_token
  pub unexpired : is_after held.lease.expires_at input.write.now ≡ true

text_of : (o : Option String) (t : String) → is_text o t ≡ true → o ≡ some t
text_of none t h = absurd (cc)
text_of (some s) t h = ap some ((eq_iff s t).0 h)

pub assert_held_writer_lease-IsHeld :
    (db : Database) (input : HeldInput) {held : Held}
    → assert_held_writer_lease db input ≡ ok held
    → IsHeld db input held
unfolding assert_held_writer_lease
assert_held_writer_lease-IsHeld db input {held} h₀ =
    let (run_id, of_run, h₁) = >>=-eq-ok (non_empty input.run_id "writer lease run id") _ h₀ in
    let (story, of_story, h₂) = >>=-eq-ok (non_empty input.story_id "writer lease story id") _ h₁ in
    let (owner, of_owner, h₃) =
      >>=-eq-ok (non_empty input.owner_agent_id "writer lease owner agent id") _ h₂ in
    let (u₁, safe_token, h₄) =
      >>=-eq-ok (as_safe_integer input.lease_token "writer lease token") _ h₃ in
    let (u₂, safe_time, h₅) =
      >>=-eq-ok (as_safe_integer input.write.now "writer lease timestamp") _ h₄ in
    let missing = stale_writer_lease "lease is missing" in
    let (tables, current, h₆) = >>=-eq-ok (found (db.runs run_id) missing) _ h₅ in
    let (row, chosen, h₇) = >>=-eq-ok (found (select story_id story tables.stories) missing) _ h₆ in
    let (lease, leased, h₈) = >>=-eq-ok (found row.lease missing) _ h₇ in
    let (u₃, owned, h₉) =
      >>=-eq-ok
        (check (is_text lease.owner_agent_id owner)
          (stale_writer_lease "owner does not hold the lease"))
        _ h₈ in
    let (u₄, token, k₁) =
      >>=-eq-ok
        (check (lease.lease_token == input.lease_token) (stale_writer_lease "token is stale")) _
        h₉ in
    let (u₅, unexpired, last) =
      >>=-eq-ok
        (check (is_after lease.expires_at input.write.now) (stale_writer_lease "lease has expired"))
        _ k₁ in
    subst (IsHeld db input) (ok-injective last) (record {
      story = story;
      owner = owner;
      of_run = of_run;
      of_story = of_story;
      of_owner = of_owner;
      current = found-eq-ok (db.runs run_id) missing current;
      chosen = found-eq-ok (select story_id story tables.stories) missing chosen;
      leased = found-eq-ok row.lease missing leased;
      owned =
          text_of lease.owner_agent_id owner
            (check-eq-ok (is_text lease.owner_agent_id owner) _ owned);
      token = ground (arith, token);
      unexpired = check-eq-ok (is_after lease.expires_at input.write.now) _ unexpired;
    })
