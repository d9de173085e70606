-- ===== src/Store/Exclusion.antt =====
-- While a story's lease is held and has not expired, another agent does not acquire it.
use pi_agentworks.Prelude.{
  ℕ, String, ◌≡◌, refl, ◌≢◌, ◌∙◌, sym, ap, ◌⊎◌, inl, inr, true, false, Option, none, some, arith,
  eq_iff, Bool-cases, Option-cases, trim, List, all,
}
use pi_agentworks.Errors.{ok, is_ok}
use pi_agentworks.Store.{Database, StoryRow, WriterLeaseRow, put_self, non_empty}
use pi_agentworks.Store.Lease.{is_after, is_other}
use pi_agentworks.Store.Tables.{Key-select}
use pi_agentworks.Store.Validation.{story_id}
use pi_agentworks.Store.Writers.{AcquireInput, acquire_writer_lease, writer_of, active, grant}
use pi_agentworks.Store.WriterOutcome.{Acquired, acquire_writer_lease-Acquired}
use pi_agentworks.Store.Fencing.{refused}
use pi_agentworks.Store.WriterFencing.{lease_of, lease_in, lease_of-rewrite}
use pi_agentworks.Store.WriterSteps.{materialize-Holds}
use pi_agentworks.Trace.{replay}
use pi_agentworks.Store.Operations.{Operation, perform}
use pi_agentworks.Store.Claimed.{leaves_lease, replay-Stands}

-- The story's lease, in the database that the pending writer was assigned in.
Acquired-lease :
    (db : Database) (input : AcquireInput) {next : Database × WriterLeaseRow}
    (a : Acquired db input next)
    → lease_in (db.runs a.run_id) a.story ≡ a.row.lease
Acquired-lease db input a =
    let at_middle : lease_in (a.middle.runs a.run_id) a.story ≡ a.row.lease =
      rw a.current (ap lease_of a.chosen) in
    let same =
      materialize-Holds (λ l. l ≡ lease_in (db.runs a.run_id) a.story) a.run_id a.story db input
        input.agent refl a.materialized in
    sym same ∙ at_middle

-- While an agent holds the lease, no other acquires it.
held_lease_excludes :
    (db : Database) (input : AcquireInput) (held : String)
    → writer_of (lease_in (db.runs (trim input.run_id)) (trim input.story_id)) input.write.now
      ≡ some held
    → held ≢ trim input.owner_agent_id
    → is_ok (acquire_writer_lease db input) ≡ false
unfolding non_empty
held_lease_excludes db input held writer other = refused (acquire_writer_lease db input) (λ next h.
    let a = acquire_writer_lease-Acquired db input h in
    let is_run : trim input.run_id ≡ a.run_id = ground (arith, a.of_run) in
    let is_story : trim input.story_id ≡ a.story = ground (arith, a.of_story) in
    let is_owner : trim input.owner_agent_id ≡ a.owner = ground (arith, a.of_owner) in
    let same : writer_of a.row.lease input.write.now ≡ some held =
      ap (λ l. writer_of l input.write.now) (sym (Acquired-lease db input a))
      ∙ (rw (is_run, is_story) at writer) in
    let e : is_other (some held) a.owner ≡ false = rw (same) at a.free in
    ground (arith, e, eq_iff held a.owner, other, is_owner))

-- What an acquisition returns is the story's lease, and is the caller's.
record Holds (db : Database) (input : AcquireInput) (next : Database × WriterLeaseRow)
    : Type 0 where
  stored : lease_in (next.0.runs (trim input.run_id)) (trim input.story_id) ≡ some next.1
  owned : next.1.owner_agent_id ≡ some (trim input.owner_agent_id)

active-cases :
    (lease : Option WriterLeaseRow) (now : ℕ) (owner : String)
    → is_other (writer_of lease now) owner ≡ false
    → (active lease now ≡ none)
      ⊎ ((kept : WriterLeaseRow) × (lease ≡ some kept)
          × (active lease now ≡ some kept)
          × (kept.owner_agent_id ≡ some owner))
active-cases none now owner h = inl refl
active-cases (some lease) now owner h = elim (Bool-cases (is_after lease.expires_at now)) [
  | inl live ↦ elim (Option-cases lease.owner_agent_id) [
    | inl nobody ↦ inl (ground (arith, live, nobody))
    | inr (other, owned) ↦ inr (
      lease,
      refl,
      ground (arith, live, owned),
      owned ∙ ap some ((eq_iff other owner).0 (ground (arith, h, live, owned))),
    )
  ]
  | inr over ↦ inl (ground (arith, over))
]

acquire_writer_lease-Holds :
    (db : Database) (input : AcquireInput) {next : Database × WriterLeaseRow}
    → acquire_writer_lease db input ≡ ok next
    → Holds db input next
unfolding non_empty
acquire_writer_lease-Holds db input h =
    let a = acquire_writer_lease-Acquired db input h in
    let is_run : trim input.run_id ≡ a.run_id = ground (arith, a.of_run) in
    let is_story : trim input.story_id ≡ a.story = ground (arith, a.of_story) in
    let is_owner : trim input.owner_agent_id ≡ a.owner = ground (arith, a.of_owner) in
    elim (active-cases a.row.lease input.write.now a.owner a.free) [
      | inl new ↦
          let granted : StoryRow = record a.row {
            lease = some (grant a.row.lease a.owner input.write.now input.ttl_ms);
          } in
          let named =
            (eq_iff a.row.story.id a.story).1
              (Key-select story_id a.story a.tables.stories a.chosen) in
          rw (a.result, new)
            (record {
              stored =
                  rw
                    (
                      is_run,
                      is_story,
                      put_self a.run_id _ a.middle.runs,
                      lease_of-rewrite granted a.tables.stories a.story,
                      named,
                    )
                    refl;
              owned = rw is_owner refl;
            })
      | inr (kept, leased, still, owned) ↦
          rw (a.result, still)
            (record {
              stored = rw (is_run, is_story, a.current) (ap lease_of a.chosen ∙ leased);
              owned = rw is_owner owned;
            })
    ]

-- After an accepted acquisition of a story's writer lease and any accepted operations that are not a
-- commit to the run without the story, not a renewal, release or revocation of the story's lease,
-- and not an acquisition of a writer lease at or after the time when the returned lease expires,
-- another agent's acquisition of the story's lease is refused at every time before the returned
-- lease expires.
pub acquired_lease_excludes :
    (db : Database) (input other : AcquireInput) (ops : List Operation)
    {next : Database × WriterLeaseRow} {last : Database}
    → acquire_writer_lease db input ≡ ok next
    → all (leaves_lease (trim input.run_id) (trim input.story_id) next.1.expires_at) ops ≡ true
    → replay perform next.0 ops ≡ ok last
    → trim other.run_id ≡ trim input.run_id
    → trim other.story_id ≡ trim input.story_id
    → trim other.owner_agent_id ≢ trim input.owner_agent_id
    → is_after next.1.expires_at other.write.now ≡ true
    → is_ok (acquire_writer_lease last other) ≡ false
acquired_lease_excludes db input other ops {next} {last} h leaves made same_run same_story differs
      live =
    let held = acquire_writer_lease-Holds db input h in
    let stands =
      replay-Stands next.1 (trim input.run_id) (trim input.story_id) next.0 ops
        (trim input.owner_agent_id) held.owned leaves held.stored made in
    held_lease_excludes last other (trim input.owner_agent_id)
      (rw (same_run, same_story, stands) (ground (arith, live, held.owned))) (λ e. differs (sym e))
