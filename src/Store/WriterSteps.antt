-- ===== src/Store/WriterSteps.antt =====
-- A writer's lease that is over stays over, for as long as commits keep its story.
use pi_agentworks.Prelude.{
  ℕ, String, ◌≡◌, refl, ◌∙◌, sym, ap, ◌⊎◌, inl, inr, Bool, true, not, ◌||◌, Option, none, some, map,
  arith, str_eq, subst, trim,
}
use pi_agentworks.Errors.{ok, ok-injective}
use pi_agentworks.Story.{StoryState}
use pi_agentworks.Agent.{AgentState}
use pi_agentworks.StoryPlan.{includes}
use pi_agentworks.Store.{Database, RunTables, StoryRow, WriterLeaseRow, SnapshotInput, CommitResult}
use pi_agentworks.Store.Tables.{select}
use pi_agentworks.Store.Validation.{story_id, id_of}
use pi_agentworks.Store.Snapshots.{initialize_run}
use pi_agentworks.Store.Writers
use pi_agentworks.Store.Writers.{
  AcquireInput, HeldInput, RevokeInput, rewrite, store, insert_agent, materialize_writer_assignment,
  keep_or_grant, active, grant, assign, renew_writer_lease, revoke_writer_lease,
  assert_held_writer_lease, revoke_from,
}
use pi_agentworks.Store.Outcome.{initialize_run-outcome}
use pi_agentworks.Store.WriterOutcome.{acquire_writer_lease-Acquired}
use pi_agentworks.Store.Materialized.{insert_agent-cases, materialize-Materialized}
use pi_agentworks.Store.Rewritten.{Rewritten, IsKept}
use pi_agentworks.Store.Written.{write_revision-Written}
use pi_agentworks.Store.Touched.{Touched}
use pi_agentworks.Store.Operations.{Operation}
use pi_agentworks.Store.WriterFencing.{lease_in, IsOver, OverIn, put-Holds, rewrite-Holds}

insert_agent-stories :
    (tables : RunTables) (agent : AgentState) {written : RunTables}
    → insert_agent tables agent ≡ ok written
    → written.stories ≡ tables.stories
insert_agent-stories tables agent h = elim (insert_agent-cases tables agent h) [
  | inl same ↦ rw same refl
  | inr (missing, available, added) ↦ rw added refl
]

assign-id : (story : StoryState) (owner : String) → (assign story owner).id ≡ story.id
assign-id story owner = ground arith

IsOver-grant :
    (token : ℕ) (current : Option WriterLeaseRow) (owner : String) (now ttl_ms : ℕ)
    → IsOver token current
    → IsOver token (some (grant current owner now ttl_ms))
IsOver-grant token none owner now ttl_ms h = absurd h
IsOver-grant token (some lease) owner now ttl_ms (inl later) = inl (ground (arith, later))
IsOver-grant token (some lease) owner now ttl_ms (inr (same, freed)) = inl (ground (arith, same))

IsOver-kept :
    (token : ℕ) (old lease : Option WriterLeaseRow)
    → IsKept old lease
    → IsOver token old
    → IsOver token lease
IsOver-kept token none lease kept over = absurd over
IsOver-kept token (some old) none kept over = absurd kept
IsOver-kept token (some old) (some lease) (same, owner) (inl later) =
    inl (ground (arith, later, same))
IsOver-kept token (some old) (some lease) (same, inl none_left) (inr (reached, freed)) =
    inr (ground (arith, reached, same), none_left)
IsOver-kept token (some old) (some lease) (same, inr kept) (inr (reached, freed)) =
    inr (ground (arith, reached, same), kept ∙ freed)

-- No commit to the run drops the story.
abbrev pub keeps_story : String → String → Operation → Bool
keeps_story r k (Operation.commit_snapshot run_id expected input) =
    includes (map id_of input.stories) k || not (str_eq (trim run_id) r)
keeps_story r k _ = true

-- Assigning a pending writer changes no lease.
module _ (P : Option WriterLeaseRow → Type 0) (r k : String) where
  pub materialize-Holds :
      (db : Database) (input : AcquireInput) (agent : Option AgentState) {next : Database}
      → P (lease_in (db.runs r) k)
      → materialize_writer_assignment db input agent ≡ ok next
      → P (lease_in (next.runs r) k)
  unfolding materialize_writer_assignment
  materialize-Holds db input none p h = rw (← ok-injective h) p
  materialize-Holds db input (some agent) p h =
      let m = materialize-Materialized db input agent h in
      let new : StoryRow = record m.row { story = assign m.row.story input.owner_agent_id } in
      rw m.result (
        rewrite-Holds P r k input.run_id input.story_id m.tables m.written m.row new db.runs
          m.current m.chosen (insert_agent-stories _ agent m.inserted)
          (assign-id m.row.story input.owner_agent_id) (λ q. q) p)

module _ (token : ℕ) (r k : String) where
  keep_or_grant-OverIn :
      (db : Database) (run_id : String) (tables : RunTables) (row : StoryRow) (input : AcquireInput)
      (story owner : String) (lease : Option WriterLeaseRow)
      → OverIn token r k db.runs
      → db.runs run_id ≡ some tables
      → select story_id story tables.stories ≡ some row
      → OverIn token r k (keep_or_grant db run_id tables row input owner lease).0.runs
  keep_or_grant-OverIn db run_id tables row input story owner (some lease) p current chosen = p
  keep_or_grant-OverIn db run_id tables row input story owner none p current chosen =
      rewrite-Holds (IsOver token) r k run_id story tables _ row
        (record row { lease = some (grant row.lease owner input.write.now input.ttl_ms) }) db.runs
        current chosen refl refl (IsOver-grant token row.lease owner input.write.now input.ttl_ms) p

  pub acquire_writer_lease-OverIn :
      (db : Database) (input : AcquireInput) {next : Database × WriterLeaseRow}
      → OverIn token r k db.runs
      → Writers.acquire_writer_lease db input ≡ ok next
      → OverIn token r k next.0.runs
  acquire_writer_lease-OverIn db input p h =
      let a = acquire_writer_lease-Acquired db input h in
      rw a.result (
        keep_or_grant-OverIn a.middle a.run_id a.tables a.row input a.story a.owner
          (active a.row.lease input.write.now)
          (materialize-Holds (IsOver token) r k db input input.agent p a.materialized) a.current
          a.chosen)

  pub Rewritten-OverIn :
      {run_id story : String} (db next : Database)
      → OverIn token r k db.runs
      → Rewritten run_id story db next
      → OverIn token r k next.runs
  Rewritten-OverIn {run_id} {story} db next p w = rw w.result (
      rewrite-Holds (IsOver token) r k run_id story w.tables _ w.row
        (record w.row { lease = w.lease }) db.runs w.current w.chosen refl refl
        (IsOver-kept token w.row.lease w.lease w.kept) p)

  pub outcome-OverIn :
      {run_id story : String} (db next : Database)
      → OverIn token r k db.runs
      → (next ≡ db) ⊎ Rewritten run_id story db next
      → OverIn token r k next.runs
  outcome-OverIn db next p (inl same) = rw same p
  outcome-OverIn db next p (inr w) = Rewritten-OverIn db next p w

-- Launches and new runs change no lease.
module _ (P : Option WriterLeaseRow → Type 0) (r k : String) where
  pub Touched-Holds :
      (db next : Database)
      → P (lease_in (db.runs r) k)
      → Touched db next
      → P (lease_in (next.runs r) k)
  Touched-Holds db next p w = rw w.result (
      put-Holds P r k w.run_id _ db.runs
        (λ e. subst (λ found. P (lease_in found k)) (ap db.runs (sym e) ∙ w.current) p) p)

  pub initialize_run-Holds :
      (db : Database) (input : SnapshotInput) {next : Database × CommitResult}
      → ¬ P none
      → P (lease_in (db.runs r) k)
      → initialize_run db input ≡ ok next
      → P (lease_in (next.0.runs r) k)
  initialize_run-Holds db input never p h =
      let (run_id, key, named, admitted, outcome) = initialize_run-outcome db input h in
      elim outcome [
        | inl again ↦ rw again.result p
        | inr c ↦
            let w = write_revision-Written db run_id _ 1 key input c.result in
            rw w.result (
              put-Holds P r k run_id _ db.runs
                (λ e.
                  absurd (
                    never
                      (subst (λ found. P (lease_in found k)) (ap db.runs (sym e) ∙ c.absent) p)))
                p)
      ]
