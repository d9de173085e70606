-- ===== src/Store/Revoked.antt =====
-- A writer whose lease was revoked never renews it again.
use pi_agentworks.Prelude.{
  ℕ, ◌+◌, ◌≤◌, String, ◌≡◌, refl, ◌∙◌, sym, ap, inl, inr, true, false, not, ◌||◌, Option, none,
  some, List, [], ◌∷◌, map, all, arith, eq_iff, str_eq, subst, trim,
}
use pi_agentworks.Errors.{ok, is_ok, >>=-eq-ok, ok-injective}
use pi_agentworks.Story.{StoryState}
use pi_agentworks.Trace.{replay}
use pi_agentworks.StoryPlan.{includes}
use pi_agentworks.Store.{
  Database, RunTables, StoryRow, SnapshotInput, CommitResult, WriterLeaseRow, non_empty,
}
use pi_agentworks.Store.Tables.{select}
use pi_agentworks.Store.Synchronize.{select-synchronize, synchronized, select_of_includes}
use pi_agentworks.Store.Validation.{story_id, id_of}
use pi_agentworks.Store.Snapshots
use pi_agentworks.Store.Snapshots.{commit_snapshot, story_row, with_story, synchronize_stories}
use pi_agentworks.Store.Writers
use pi_agentworks.Store.Writers.{
  HeldInput, RevokeInput, store, renew_writer_lease, revoke_writer_lease, assert_held_writer_lease,
  revoke_from,
}
use pi_agentworks.Store.Outcome.{commit_snapshot-Accepted}
use pi_agentworks.Store.WriterOutcome.{assert_held_writer_lease-IsHeld}
use pi_agentworks.Store.Rewritten.{
  renew_writer_lease-Rewritten, release_writer_lease-Rewritten, revoke_writer_lease-Rewritten,
}
use pi_agentworks.Store.Members.{IsMembership, validate_snapshot_members-IsMembership}
use pi_agentworks.Store.Written.{write_revision-Written, written_tables}
use pi_agentworks.Store.Launches
use pi_agentworks.Store.Launched.{materialize_agent_launch-Touched}
use pi_agentworks.Store.Bound.{bind_agent_pane_restoration-Touched}
use pi_agentworks.Store.Operations.{Operation, perform}
use pi_agentworks.Store.Log.{acquire_lease-runs, renew_lease-runs, release_lease-runs}
use pi_agentworks.Store.Fencing.{refused}
use pi_agentworks.Store.WriterFencing.{lease_of, lease_in, IsOver, OverIn, put-Holds}
use pi_agentworks.Store.WriterSteps.{
  keeps_story, acquire_writer_lease-OverIn, Rewritten-OverIn, Touched-Holds, outcome-OverIn,
  initialize_run-Holds,
}

module _ (P : Option WriterLeaseRow → Type 0) (r k : String) where
  synchronized-Holds :
      (state : StoryState) (old : Option StoryRow)
      → P (lease_of old)
      → P (lease_of (synchronized story_id id_of story_row with_story (some state) old))
  synchronized-Holds state none h = h
  synchronized-Holds state (some row) h = h

  -- A row that stays has its lease.
  synchronize-Holds :
      (tables : RunTables) (input : SnapshotInput)
      → IsMembership input.run input.stories input.agents
      → includes (map id_of input.stories) k ≡ true
      → P (lease_in (some tables) k)
      → P (lease_of (select story_id k (synchronize_stories input.stories tables.stories)))
  synchronize-Holds tables input m kept h =
      let (state, chosen) = select_of_includes id_of k input.stories kept in
      let e =
        select-synchronize story_id id_of story_row with_story (λ s. refl) (λ s row. refl) k
          input.stories tables.stories m.stories_distinct in
      rw (e, chosen) (synchronized-Holds state (select story_id k tables.stories) h)

  pub commit_snapshot-Holds :
      (db : Database) (given : String) (expected : ℕ) (input : SnapshotInput)
      {next : Database × CommitResult}
      → P (lease_in (db.runs r) k)
      → (includes (map id_of input.stories) k || not (str_eq (trim given) r)) ≡ true
      → commit_snapshot db given expected input ≡ ok next
      → P (lease_in (next.0.runs r) k)
  unfolding non_empty
  commit_snapshot-Holds db given expected input p keeps h =
      let a = commit_snapshot-Accepted db given expected input h in
      elim a.outcome [
        | inl again ↦ rw again.result p
        | inr c ↦
            let w = write_revision-Written db a.run_id c.tables _ a.key input c.result in
            let m =
              validate_snapshot_members-IsMembership input.run input.stories input.agents
                a.admitted.valid in
            rw w.result (
              put-Holds P r k a.run_id (written_tables c.tables (c.tables.revision + 1) a.key input)
                db.runs
                (λ e.
                  let named : trim given ≡ a.run_id = ground (arith, a.named) in
                  let there : includes (map id_of input.stories) k ≡ true =
                    ground (arith, keeps, eq_iff (trim given) r, named, e) in
                  synchronize-Holds c.tables input m there
                    (subst (λ found. P (lease_in found k)) (ap db.runs (sym e) ∙ c.current) p))
                p)
      ]

module _ (token : ℕ) (r k : String) where
  perform-OverIn :
      (db : Database) (op : Operation) {next : Database}
      → OverIn token r k db.runs
      → keeps_story r k op ≡ true
      → perform db op ≡ ok next
      → OverIn token r k next.runs
  unfolding perform
  perform-OverIn db (Operation.acquire_lease owner_id now ttl_ms) p keeps h =
      rw (acquire_lease-runs db owner_id now ttl_ms h) p
  perform-OverIn db (Operation.renew_lease write ttl_ms) p keeps h =
      rw (renew_lease-runs db write ttl_ms h) p
  perform-OverIn db (Operation.release_lease write) p keeps h = rw (release_lease-runs db write h) p
  perform-OverIn db (Operation.initialize_run input) p keeps h =
      let (step, done, e) = >>=-eq-ok (Snapshots.initialize_run db input) _ h in
      rw (← ok-injective e) (initialize_run-Holds (IsOver token) r k db input (λ x. x) p done)
  perform-OverIn db (Operation.commit_snapshot run_id expected input) p keeps h =
      let (step, done, e) = >>=-eq-ok (Snapshots.commit_snapshot db run_id expected input) _ h in
      rw (← ok-injective e)
        (commit_snapshot-Holds (IsOver token) r k db run_id expected input p keeps done)
  perform-OverIn db (Operation.acquire_writer_lease input) p keeps h =
      let (step, done, e) = >>=-eq-ok (Writers.acquire_writer_lease db input) _ h in
      rw (← ok-injective e) (acquire_writer_lease-OverIn token r k db input p done)
  perform-OverIn db (Operation.renew_writer_lease input ttl_ms) p keeps h =
      let (step, done, e) = >>=-eq-ok (Writers.renew_writer_lease db input ttl_ms) _ h in
      rw (← ok-injective e)
        (Rewritten-OverIn token r k db step.0 p (renew_writer_lease-Rewritten db input ttl_ms done))
  perform-OverIn db (Operation.release_writer_lease input) p keeps h =
      let (step, done, e) = >>=-eq-ok (Writers.release_writer_lease db input) _ h in
      rw (← ok-injective e)
        (outcome-OverIn token r k db step.0 p (release_writer_lease-Rewritten db input done))
  perform-OverIn db (Operation.revoke_writer_lease input) p keeps h =
      let (step, done, e) = >>=-eq-ok (Writers.revoke_writer_lease db input) _ h in
      rw (← ok-injective e)
        (outcome-OverIn token r k db step.0 p (revoke_writer_lease-Rewritten db input done))
  perform-OverIn db (Operation.materialize_agent_launch input answers) p keeps h =
      let (step, done, e) = >>=-eq-ok (Launches.materialize_agent_launch db input answers) _ h in
      rw (← ok-injective e) (
        Touched-Holds (IsOver token) r k db step.0 p
          (materialize_agent_launch-Touched db input answers done).1)
  perform-OverIn db (Operation.bind_agent_pane_restoration input answers) {next} p keeps h =
      elim (bind_agent_pane_restoration-Touched db input answers h).1 [
        | inl same ↦ rw same p
        | inr w ↦ Touched-Holds (IsOver token) r k db next p w
      ]

  pub replay-OverIn :
      (db : Database) (ops : List Operation) {last : Database}
      → OverIn token r k db.runs
      → all (keeps_story r k) ops ≡ true
      → replay perform db ops ≡ ok last
      → OverIn token r k last.runs
  unfolding replay
  replay-OverIn db [] p keeps h = rw (← ok-injective h) p
  replay-OverIn db (op ∷ ops) p keeps h =
      let (next, done, rest) = >>=-eq-ok (perform db op) _ h in
      replay-OverIn next ops (perform-OverIn db op p (ground (arith, keeps)) done)
        (ground (arith, keeps)) rest

  -- Nobody holds a lease that is over.
  pub held-refused :
      (db : Database) (input : HeldInput)
      → trim input.run_id ≡ r
      → trim input.story_id ≡ k
      → input.lease_token ≤ token
      → OverIn token r k db.runs
      → is_ok (assert_held_writer_lease db input) ≡ false
  unfolding non_empty
  held-refused db input is_run is_story old p =
      refused (assert_held_writer_lease db input) (λ held h.
        let q = assert_held_writer_lease-IsHeld db input h in
        let run_is : r ≡ held.run_id = ground (arith, q.of_run, is_run) in
        let story_is : k ≡ q.story = ground (arith, q.of_story, is_story) in
        let lease_is : lease_in (db.runs r) k ≡ some held.lease =
          rw (run_is, story_is, q.current) (ap lease_of q.chosen ∙ q.leased) in
        elim (subst (IsOver token) lease_is p) [
          | inl later ↦ ground (arith, later, q.token, old)
          | inr (reached, freed) ↦ ground (arith, freed, q.owned)
        ])
