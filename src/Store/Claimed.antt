-- ===== src/Store/Claimed.antt =====
-- A writer's lease stays as it is for as long as it has not expired, its story is kept, and nobody
-- renews, releases or revokes it.
use pi_agentworks.Prelude.{
  ℕ, String, ◌≡◌, refl, ◌∙◌, sym, ap, inl, inr, ◌⊎◌, Bool, true, false, not, ◌&&◌, Option, some,
  List, [], ◌∷◌, all, arith, eq_iff, str_eq, subst, Option-cases,
}
use pi_agentworks.Errors.{ok, >>=-eq-ok, ok-injective}
use pi_agentworks.Trace.{replay}
use pi_agentworks.Store.{Database, RunTables, StoryRow, WriterLeaseRow}
use pi_agentworks.Store.Lease.{is_after}
use pi_agentworks.Store.Tables.{select, Key-select}
use pi_agentworks.Store.Validation.{story_id}
use pi_agentworks.Store.Snapshots
use pi_agentworks.Store.Writers
use pi_agentworks.Store.Writers.{AcquireInput, active, grant, keep_or_grant}
use pi_agentworks.Store.WriterOutcome.{acquire_writer_lease-Acquired}
use pi_agentworks.Store.Rewritten.{
  Rewritten, renew_writer_lease-Rewritten, release_writer_lease-Rewritten,
  revoke_writer_lease-Rewritten,
}
use pi_agentworks.Store.Launches
use pi_agentworks.Store.Launched.{materialize_agent_launch-Touched}
use pi_agentworks.Store.Bound.{bind_agent_pane_restoration-Touched}
use pi_agentworks.Store.Operations.{Operation, perform}
use pi_agentworks.Store.Log.{acquire_lease-runs, renew_lease-runs, release_lease-runs}
use pi_agentworks.Store.WriterFencing.{
  lease_of, lease_in, lease_of-rewrite, put-Holds, rewrite-Holds,
}
use pi_agentworks.Store.WriterSteps.{
  keeps_story, materialize-Holds, Touched-Holds, initialize_run-Holds,
}
use pi_agentworks.Store.Revoked.{commit_snapshot-Holds}

abbrev is_elsewhere : String → String → String → String → Bool
is_elsewhere r k run_id story = not (str_eq run_id r && str_eq story k)

-- The call is not a commit that drops the story, not a renewal, release or revocation of its lease,
-- and not an acquisition after the lease has expired.
abbrev pub leaves_lease : String → String → Option ℕ → Operation → Bool
leaves_lease r k expires_at (Operation.acquire_writer_lease input) =
    is_after expires_at input.write.now
leaves_lease r k expires_at (Operation.renew_writer_lease input ttl_ms) =
    is_elsewhere r k input.run_id input.story_id
leaves_lease r k expires_at (Operation.release_writer_lease input) =
    is_elsewhere r k input.run_id input.story_id
leaves_lease r k expires_at (Operation.revoke_writer_lease input) =
    is_elsewhere r k input.run_id input.story_id
leaves_lease r k expires_at op = keeps_story r k op

module _ (lease : WriterLeaseRow) (r k : String) where
  abbrev IsLease : Option WriterLeaseRow → Type 0
  IsLease found = found ≡ some lease

  abbrev Stands : Database → Type 0
  Stands db = lease_in (db.runs r) k ≡ some lease

  keep_or_grant-Stands :
      (db : Database) (run_id : String) (tables : RunTables) (row : StoryRow) (input : AcquireInput)
      (story owner holder : String)
      → lease.owner_agent_id ≡ some holder
      → is_after lease.expires_at input.write.now ≡ true
      → Stands db
      → db.runs run_id ≡ some tables
      → select story_id story tables.stories ≡ some row
      → Stands (keep_or_grant db run_id tables row input owner (active row.lease input.write.now)).0
  keep_or_grant-Stands db run_id tables row input story owner holder owned live p current chosen =
      elim (Option-cases (active row.lease input.write.now)) [
        | inr (kept, still) ↦ rw still p
        | inl over ↦ rw over (
            rewrite-Holds IsLease r k run_id story tables _ row
              (record row { lease = some (grant row.lease owner input.write.now input.ttl_ms) })
              db.runs current chosen refl refl
              (λ q. absurd (ground (arith, rw q at over, owned, live))) p)
      ]

  acquire_writer_lease-Stands :
      (db : Database) (input : AcquireInput) (holder : String) {next : Database × WriterLeaseRow}
      → lease.owner_agent_id ≡ some holder
      → is_after lease.expires_at input.write.now ≡ true
      → Stands db
      → Writers.acquire_writer_lease db input ≡ ok next
      → Stands next.0
  acquire_writer_lease-Stands db input holder owned live p h =
      let a = acquire_writer_lease-Acquired db input h in
      rw a.result (
        keep_or_grant-Stands a.middle a.run_id a.tables a.row input a.story a.owner holder owned
          live (materialize-Holds IsLease r k db input input.agent p a.materialized) a.current
          a.chosen)

  Rewritten-Stands :
      {run_id story : String} (db next : Database)
      → is_elsewhere r k run_id story ≡ true
      → Stands db
      → Rewritten run_id story db next
      → Stands next
  Rewritten-Stands {run_id} {story} db next other p w =
      let row : StoryRow = record w.row { lease = w.lease } in
      let named = Key-select story_id story w.tables.stories w.chosen in
      rw w.result (
        put-Holds IsLease r k run_id _ db.runs
          (λ e.
            let there : str_eq row.story.id k ≡ false =
              ground (arith, other, named, e, eq_iff run_id r) in
            let before : lease_of (select story_id k w.tables.stories) ≡ some lease =
              subst (λ found. lease_in found k ≡ some lease) (ap db.runs (sym e) ∙ w.current) p in
            lease_of-rewrite row w.tables.stories k ∙ (rw there before))
          p)

  outcome-Stands :
      {run_id story : String} (db next : Database)
      → is_elsewhere r k run_id story ≡ true
      → Stands db
      → (next ≡ db) ⊎ Rewritten run_id story db next
      → Stands next
  outcome-Stands db next other p (inl same) = rw same p
  outcome-Stands db next other p (inr w) = Rewritten-Stands db next other p w

  perform-Stands :
      (db : Database) (op : Operation) (holder : String) {next : Database}
      → lease.owner_agent_id ≡ some holder
      → leaves_lease r k lease.expires_at op ≡ true
      → Stands db
      → perform db op ≡ ok next
      → Stands next
  unfolding perform
  perform-Stands db (Operation.acquire_lease owner_id now ttl_ms) holder owned leaves p h =
      rw (acquire_lease-runs db owner_id now ttl_ms h) p
  perform-Stands db (Operation.renew_lease write ttl_ms) holder owned leaves p h =
      rw (renew_lease-runs db write ttl_ms h) p
  perform-Stands db (Operation.release_lease write) holder owned leaves p h =
      rw (release_lease-runs db write h) p
  perform-Stands db (Operation.initialize_run input) holder owned leaves p h =
      let (step, done, e) = >>=-eq-ok (Snapshots.initialize_run db input) _ h in
      rw (← ok-injective e)
        (initialize_run-Holds IsLease r k db input (λ q. absurd (ground (arith, q))) p done)
  perform-Stands db (Operation.commit_snapshot run_id expected input) holder owned leaves p h =
      let (step, done, e) = >>=-eq-ok (Snapshots.commit_snapshot db run_id expected input) _ h in
      rw (← ok-injective e)
        (commit_snapshot-Holds IsLease r k db run_id expected input p leaves done)
  perform-Stands db (Operation.acquire_writer_lease input) holder owned leaves p h =
      let (step, done, e) = >>=-eq-ok (Writers.acquire_writer_lease db input) _ h in
      rw (← ok-injective e) (acquire_writer_lease-Stands db input holder owned leaves p done)
  perform-Stands db (Operation.renew_writer_lease input ttl_ms) holder owned leaves p h =
      let (step, done, e) = >>=-eq-ok (Writers.renew_writer_lease db input ttl_ms) _ h in
      rw (← ok-injective e)
        (Rewritten-Stands db step.0 leaves p (renew_writer_lease-Rewritten db input ttl_ms done))
  perform-Stands db (Operation.release_writer_lease input) holder owned leaves p h =
      let (step, done, e) = >>=-eq-ok (Writers.release_writer_lease db input) _ h in
      rw (← ok-injective e)
        (outcome-Stands db step.0 leaves p (release_writer_lease-Rewritten db input done))
  perform-Stands db (Operation.revoke_writer_lease input) holder owned leaves p h =
      let (step, done, e) = >>=-eq-ok (Writers.revoke_writer_lease db input) _ h in
      rw (← ok-injective e)
        (outcome-Stands db step.0 leaves p (revoke_writer_lease-Rewritten db input done))
  perform-Stands db (Operation.materialize_agent_launch input answers) holder owned leaves p h =
      let (step, done, e) = >>=-eq-ok (Launches.materialize_agent_launch db input answers) _ h in
      rw (← ok-injective e) (
        Touched-Holds IsLease r k db step.0 p
          (materialize_agent_launch-Touched db input answers done).1)
  perform-Stands db (Operation.bind_agent_pane_restoration input answers) holder {next} owned leaves
        p h =
      elim (bind_agent_pane_restoration-Touched db input answers h).1 [
        | inl same ↦ rw same p
        | inr w ↦ Touched-Holds IsLease r k db next p w
      ]

  pub replay-Stands :
      (db : Database) (ops : List Operation) (holder : String) {last : Database}
      → lease.owner_agent_id ≡ some holder
      → all (leaves_lease r k lease.expires_at) ops ≡ true
      → lease_in (db.runs r) k ≡ some lease
      → replay perform db ops ≡ ok last
      → lease_in (last.runs r) k ≡ some lease
  unfolding replay
  replay-Stands db [] holder owned leaves p h = rw (← ok-injective h) p
  replay-Stands db (op ∷ ops) holder owned leaves p h =
      let (next, done, rest) = >>=-eq-ok (perform db op) _ h in
      replay-Stands next ops holder owned (ground (arith, leaves))
        (perform-Stands db op holder owned (ground (arith, leaves)) p done) rest
