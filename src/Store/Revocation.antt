-- ===== src/Store/Revocation.antt =====
-- The revocation of a writer's lease, and what it ends.
use pi_agentworks.Prelude.{
  ℕ, ◌≤◌, String, ◌≡◌, refl, ◌∙◌, ap, inr, true, false, Option, none, some, List, all, arith,
  eq_iff, trim, ◌==◌,
}
use pi_agentworks.Errors.{ok, is_ok, >>=-eq-ok, ok-injective, stale_writer_lease}
use pi_agentworks.Trace.{replay}
use pi_agentworks.Store.{
  Database, RunTables, StoryRow, WriterLeaseRow, put_self, non_empty, check, found, as_safe_integer,
}
use pi_agentworks.Store.Lease.{assert_fence, assert_time_and_ttl}
use pi_agentworks.Store.Tables.{select, Key-select}
use pi_agentworks.Store.Validation.{story_id}
use pi_agentworks.Store.Writers.{
  HeldInput, RevokeInput, renew_writer_lease, revoke_writer_lease, assert_held_writer_lease,
  revoke_from, freed,
}
use pi_agentworks.Store.Outcome.{found-eq-ok}
use pi_agentworks.Store.Operations.{Operation, perform}
use pi_agentworks.Store.Fencing.{refused}
use pi_agentworks.Store.WriterFencing.{lease_of, lease_in, OverIn, lease_of-rewrite}
use pi_agentworks.Store.WriterSteps.{keeps_story}
use pi_agentworks.Store.Revoked.{replay-OverIn, held-refused}

revoke_from-IsOver :
    (db : Database) (input : RevokeInput) (reason : String) (tables : RunTables) (row : StoryRow)
    (lease : WriterLeaseRow) (owner : Option String)
    → db.runs input.run_id ≡ some tables
    → select story_id input.story_id tables.stories ≡ some row
    → row.lease ≡ some lease
    → lease.lease_token ≡ input.expected_lease_token
    → lease.owner_agent_id ≡ owner
    → OverIn input.expected_lease_token input.run_id input.story_id
        (revoke_from db input reason tables row lease owner).0.runs
revoke_from-IsOver db input reason tables row lease none current chosen leased token owned =
    let e : lease_in (db.runs input.run_id) input.story_id ≡ some lease =
      rw current (ap lease_of chosen ∙ leased) in
    rw e (inr (ground (arith, token), owned))
revoke_from-IsOver db input reason tables row lease (some owner) current chosen leased token owned =
    let named = Key-select story_id input.story_id tables.stories chosen in
    let new : StoryRow = record row { lease = some (freed lease input.write.now) } in
    rw
      (
        put_self input.run_id _ db.runs,
        lease_of-rewrite new tables.stories input.story_id,
        (eq_iff row.story.id input.story_id).1 named,
      )
      (inr (ground (arith, token), refl))

revoke_writer_lease-OverIn :
    (db : Database) (input : RevokeInput) {next : Database × WriterLeaseRow}
    → revoke_writer_lease db input ≡ ok next
    → OverIn input.expected_lease_token input.run_id input.story_id next.0.runs
unfolding revoke_writer_lease
revoke_writer_lease-OverIn db input h₀ =
    let (reason, explained, h₁) =
      >>=-eq-ok (non_empty input.reason "writer lease revocation reason") _ h₀ in
    let (u₁, safe, h₂) =
      >>=-eq-ok (as_safe_integer input.expected_lease_token "expected writer lease token") _ h₁ in
    let (u₂, fenced, h₃) = >>=-eq-ok (assert_fence db input.write) _ h₂ in
    let missing = stale_writer_lease "lease is missing" in
    let (tables, current, h₄) = >>=-eq-ok (found (db.runs input.run_id) missing) _ h₃ in
    let (row, chosen, h₅) =
      >>=-eq-ok (found (select story_id input.story_id tables.stories) missing) _ h₄ in
    let (lease, leased, h₆) = >>=-eq-ok (found row.lease missing) _ h₅ in
    let (u₃, token, e) =
      >>=-eq-ok
        (check (lease.lease_token == input.expected_lease_token)
          (stale_writer_lease "token is stale or missing"))
        _ h₆ in
    rw (← ok-injective e) (
      revoke_from-IsOver db input reason tables row lease lease.owner_agent_id
        (found-eq-ok (db.runs input.run_id) missing current)
        (found-eq-ok (select story_id input.story_id tables.stories) missing chosen)
        (found-eq-ok row.lease missing leased) (ground (arith, token)) refl)

-- If a story's writer lease is revoked, and then any operations are accepted of which no commit to
-- the run drops the story, then renewing the story's lease is refused, whoever asks, under the
-- revoked token or an earlier one.
pub revoked_writer_is_refused :
    (db : Database) (revoke : RevokeInput) {next : Database × WriterLeaseRow} (ops : List Operation)
    {last : Database} (held : HeldInput) (ttl_ms : ℕ)
    → revoke_writer_lease db revoke ≡ ok next
    → all (keeps_story revoke.run_id revoke.story_id) ops ≡ true
    → replay perform next.0 ops ≡ ok last
    → trim held.run_id ≡ revoke.run_id
    → trim held.story_id ≡ revoke.story_id
    → held.lease_token ≤ revoke.expected_lease_token
    → is_ok (renew_writer_lease last held ttl_ms) ≡ false
unfolding renew_writer_lease
revoked_writer_is_refused db revoke {next} ops {last} held ttl_ms revoked kept after is_run is_story
      old =
    let over =
      replay-OverIn revoke.expected_lease_token revoke.run_id revoke.story_id next.0 ops
        (revoke_writer_lease-OverIn db revoke revoked) kept after in
    let refusal =
      held-refused revoke.expected_lease_token revoke.run_id revoke.story_id last held is_run
        is_story old over in
    refused (renew_writer_lease last held ttl_ms) (λ done h₀.
      let (u₁, timed, h₁) = >>=-eq-ok (assert_time_and_ttl held.write.now ttl_ms) _ h₀ in
      let (u₂, fenced, h₂) = >>=-eq-ok (assert_fence last held.write) _ h₁ in
      let (lease, is_held, h₃) = >>=-eq-ok (assert_held_writer_lease last held) _ h₂ in
      ground (arith, ap is_ok is_held, refusal))
