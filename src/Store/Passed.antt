-- ===== src/Store/Passed.antt =====
-- Every operation that writes passes the fence, and who passes it holds the controller's lease.
use pi_agentworks.Prelude.{ℕ, String, ◌≡◌, true, Option, none, some, arith, ap, eq_iff, ◌==◌}
use pi_agentworks.Errors.{ok, stale_fence, >>=-eq-ok}
use pi_agentworks.Store.{Database, FencedWrite, WriterLeaseRow, non_empty, check, as_safe_integer}
use pi_agentworks.Store.Lease.{
  renew_lease, release_lease, assert_fence, is_text, is_after, assert_time_and_ttl,
}
use pi_agentworks.Store.Snapshots
use pi_agentworks.Store.Writers
use pi_agentworks.Store.Writers.{
  HeldInput, RevokeInput, renew_writer_lease, release_writer_lease, revoke_writer_lease,
}
use pi_agentworks.Store.Launches
use pi_agentworks.Store.Launched.{materialize_agent_launch-Touched}
use pi_agentworks.Store.Bound.{bind_agent_pane_restoration-Touched}
use pi_agentworks.Store.Operations.{Operation, perform, write_of}
use pi_agentworks.Store.Outcome.{commit_snapshot-Accepted, initialize_run-outcome, check-eq-ok}
use pi_agentworks.Store.WriterOutcome.{acquire_writer_lease-Acquired}

pub text_of_owner : (o : Option String) (text : String) → is_text o text ≡ true → o ≡ some text
text_of_owner none text h = absurd (cc)
text_of_owner (some t) text h = ap some ((eq_iff t text).0 h)

some-injective : {A : Type 0} {a b : A} → some a ≡ some b → a ≡ b
some-injective h = ground arith

-- An operation that is made under a fenced write passes the fence.
renew_lease-fence :
    (db : Database) (write : FencedWrite) (ttl_ms : ℕ) {next : Database}
    → renew_lease db write ttl_ms ≡ ok next
    → assert_fence db write ≡ ok tt
unfolding renew_lease
renew_lease-fence db write ttl_ms h =
    let (u₁, timed, h₁) = >>=-eq-ok (assert_time_and_ttl write.now ttl_ms) _ h in
    let (u₂, fenced, h₂) = >>=-eq-ok (assert_fence db write) _ h₁ in fenced

release_lease-fence :
    (db : Database) (write : FencedWrite) {next : Database}
    → release_lease db write ≡ ok next
    → assert_fence db write ≡ ok tt
unfolding release_lease
release_lease-fence db write h =
    let (u, fenced, h₁) = >>=-eq-ok (assert_fence db write) _ h in fenced

renew_writer_lease-fence :
    (db : Database) (input : HeldInput) (ttl_ms : ℕ) {next : Database × WriterLeaseRow}
    → renew_writer_lease db input ttl_ms ≡ ok next
    → assert_fence db input.write ≡ ok tt
unfolding renew_writer_lease
renew_writer_lease-fence db input ttl_ms h =
    let (u₁, timed, h₁) = >>=-eq-ok (assert_time_and_ttl input.write.now ttl_ms) _ h in
    let (u₂, fenced, h₂) = >>=-eq-ok (assert_fence db input.write) _ h₁ in fenced

release_writer_lease-fence :
    (db : Database) (input : HeldInput) {next : Database × WriterLeaseRow}
    → release_writer_lease db input ≡ ok next
    → assert_fence db input.write ≡ ok tt
unfolding release_writer_lease
release_writer_lease-fence db input h =
    let (u, fenced, h₁) = >>=-eq-ok (assert_fence db input.write) _ h in fenced

revoke_writer_lease-fence :
    (db : Database) (input : RevokeInput) {next : Database × WriterLeaseRow}
    → revoke_writer_lease db input ≡ ok next
    → assert_fence db input.write ≡ ok tt
unfolding revoke_writer_lease
revoke_writer_lease-fence db input h =
    let (reason, explained, h₁) =
      >>=-eq-ok (non_empty input.reason "writer lease revocation reason") _ h in
    let (u₁, safe, h₂) =
      >>=-eq-ok (as_safe_integer input.expected_lease_token "expected writer lease token") _ h₁ in
    let (u₂, fenced, h₃) = >>=-eq-ok (assert_fence db input.write) _ h₂ in fenced

pub perform-fence :
    (db : Database) (op : Operation) {next : Database} {write : FencedWrite}
    → perform db op ≡ ok next
    → write_of op ≡ some write
    → assert_fence db write ≡ ok tt
unfolding perform
perform-fence db (Operation.acquire_lease owner_id now ttl_ms) h e = absurd (cc)
perform-fence db (Operation.renew_lease w ttl_ms) h e =
    rw (← some-injective e) (renew_lease-fence db w ttl_ms h)
perform-fence db (Operation.release_lease w) h e =
    rw (← some-injective e) (release_lease-fence db w h)
perform-fence db (Operation.initialize_run input) h e =
    let (r, done, k) = >>=-eq-ok (Snapshots.initialize_run db input) _ h in
    let (run_id, key, named, admitted, outcome) = initialize_run-outcome db input done in
    rw (← some-injective e) admitted.fenced
perform-fence db (Operation.commit_snapshot run_id expected input) h e =
    let (r, done, k) = >>=-eq-ok (Snapshots.commit_snapshot db run_id expected input) _ h in
    rw (← some-injective e) (commit_snapshot-Accepted db run_id expected input done).admitted.fenced
perform-fence db (Operation.acquire_writer_lease input) h e =
    let (r, done, k) = >>=-eq-ok (Writers.acquire_writer_lease db input) _ h in
    rw (← some-injective e) (acquire_writer_lease-Acquired db input done).fenced
perform-fence db (Operation.renew_writer_lease input ttl_ms) h e =
    let (r, done, k) = >>=-eq-ok (Writers.renew_writer_lease db input ttl_ms) _ h in
    rw (← some-injective e) (renew_writer_lease-fence db input ttl_ms done)
perform-fence db (Operation.release_writer_lease input) h e =
    let (r, done, k) = >>=-eq-ok (Writers.release_writer_lease db input) _ h in
    rw (← some-injective e) (release_writer_lease-fence db input done)
perform-fence db (Operation.revoke_writer_lease input) h e =
    let (r, done, k) = >>=-eq-ok (Writers.revoke_writer_lease db input) _ h in
    rw (← some-injective e) (revoke_writer_lease-fence db input done)
perform-fence db (Operation.materialize_agent_launch input answers) h e =
    let (r, done, k) = >>=-eq-ok (Launches.materialize_agent_launch db input answers) _ h in
    rw (← some-injective e) (materialize_agent_launch-Touched db input answers done).0
perform-fence db (Operation.bind_agent_pane_restoration input answers) h e =
    rw (← some-injective e) (bind_agent_pane_restoration-Touched db input answers h).0

-- Who passes the fence holds the lease, with its token, at that time.
pub record Passes (db : Database) (write : FencedWrite) : Type 0 where
  pub owner : String
  pub named : non_empty write.owner_id "fenced writer owner id" ≡ ok owner
  pub owned : db.controller_lease.owner_id ≡ some owner
  pub current : db.controller_lease.fencing_token ≡ write.fencing_token
  pub unexpired : is_after db.controller_lease.expires_at write.now ≡ true

pub assert_fence-Passes :
    (db : Database) (write : FencedWrite) → assert_fence db write ≡ ok tt → Passes db write
unfolding assert_fence
assert_fence-Passes db write h₀ =
    let (owner, named, h₁) = >>=-eq-ok (non_empty write.owner_id "fenced writer owner id") _ h₀ in
    let (u₁, safe_token, h₂) =
      >>=-eq-ok (as_safe_integer write.fencing_token "fencing token") _ h₁ in
    let (u₂, safe_time, h₃) = >>=-eq-ok (as_safe_integer write.now "fenced write timestamp") _ h₂ in
    let row = db.controller_lease in
    let (u₃, owned, h₄) =
      >>=-eq-ok (check (is_text row.owner_id owner) (stale_fence "owner does not hold the lease")) _
        h₃ in
    let (u₄, current, unexpired) =
      >>=-eq-ok (check (row.fencing_token == write.fencing_token) (stale_fence "token is stale")) _
        h₄ in
    record {
      owner = owner;
      named = named;
      owned = text_of_owner row.owner_id owner (check-eq-ok (is_text row.owner_id owner) _ owned);
      current = ground (arith, current);
      unexpired = check-eq-ok (is_after row.expires_at write.now) _ unexpired;
    }
