-- ===== src/Store/Materialized.antt =====
-- What an accepted assignment of a pending writer went through.
use pi_agentworks.Prelude.{
  ◌≡◌, sym, ◌⊎◌, inl, inr, true, false, not, ◌&&◌, none, some, [], ◌∷◌, ◌++◌, arith, Option-cases,
  eq_iff, str_eq,
}
use pi_agentworks.Errors.{ok, >>=-eq-ok, ok-injective, stale_writer_lease, integrity}
use pi_agentworks.Agent.{AgentState}
use pi_agentworks.Schemas.{is_story_state}
use pi_agentworks.Store.{Database, RunTables, StoryRow, found, check}
use pi_agentworks.Store.Lease.{is_text, is_other}
use pi_agentworks.Store.Tables.{select}
use pi_agentworks.Store.Validation.{story_id, agent_id}
use pi_agentworks.Store.Writers.{
  AcquireInput, insert_agent, materialize_writer_assignment, assert_agent_slot_available, store,
  rewrite, assign,
}
use pi_agentworks.Store.Outcome.{found-eq-ok}

pub insert_agent-cases :
    (tables : RunTables) (agent : AgentState) {written : RunTables}
    → insert_agent tables agent ≡ ok written
    → (written ≡ tables)
      ⊎ ((select agent_id agent.id tables.agents ≡ none)
          × (assert_agent_slot_available tables ≡ ok tt)
          × (written ≡ record tables { agents = tables.agents ++ agent ∷ [] }))
unfolding insert_agent
insert_agent-cases tables agent {written} h =
    elim (Option-cases (select agent_id agent.id tables.agents)) [
      | inl missing ↦
          let (u, available, e) =
            >>=-eq-ok (assert_agent_slot_available tables) _ (rw (insert_agent, missing) at h) in
          inr (missing, available, sym (ok-injective e))
      | inr (existing, present) ↦ inl (sym (ok-injective (rw (insert_agent, present) at h)))
    ]

pub record Materialized (db : Database) (input : AcquireInput) (agent : AgentState)
    (next : Database) : Type 0 where
  pub tables : RunTables
  pub row : StoryRow
  pub written : RunTables
  pub of_task : is_text agent.task_id input.story_id ≡ true
  pub named : agent.id ≡ input.owner_agent_id
  pub current : db.runs input.run_id ≡ some tables
  pub chosen : select story_id input.story_id tables.stories ≡ some row
  pub unassigned : is_other row.story.assigned_agent_id input.owner_agent_id ≡ false
  pub inserted :
      insert_agent
        (record tables {
          stories =
              rewrite (record row { story = assign row.story input.owner_agent_id }) tables.stories;
        })
        agent
      ≡ ok written
  pub result : next ≡ store db input.run_id written

pub materialize-Materialized :
    (db : Database) (input : AcquireInput) (agent : AgentState) {next : Database}
    → materialize_writer_assignment db input (some agent) ≡ ok next
    → Materialized db input agent next
unfolding materialize_writer_assignment
materialize-Materialized db input agent h₀ =
    let (u₁, same, h₁) =
      >>=-eq-ok
        (check
          (str_eq agent.id input.owner_agent_id
            && str_eq agent.run_id input.run_id
            && is_text agent.task_id input.story_id)
          (stale_writer_lease "pending writer agent identity does not match the lease"))
        _ h₀ in
    let missing = stale_writer_lease "assigned story is missing" in
    let (tables, current, h₂) = >>=-eq-ok (found (db.runs input.run_id) missing) _ h₁ in
    let (row, chosen, h₃) =
      >>=-eq-ok (found (select story_id input.story_id tables.stories) missing) _ h₂ in
    let (v, shaped, h₄) =
      >>=-eq-ok (check (is_story_state row.story) (integrity "writer lease story state is invalid"))
        _ h₃ in
    let (u₂, free, h₅) =
      >>=-eq-ok
        (check (not (is_other row.story.assigned_agent_id input.owner_agent_id))
          (stale_writer_lease "story is already assigned to another agent"))
        _ h₄ in
    let (written, inserted, h₆) = >>=-eq-ok (insert_agent _ agent) _ h₅ in
    record {
      tables = tables;
      row = row;
      written = written;
      of_task = ground (arith, same);
      named = ground (arith, same, eq_iff agent.id input.owner_agent_id);
      current = found-eq-ok (db.runs input.run_id) missing current;
      chosen = found-eq-ok (select story_id input.story_id tables.stories) missing chosen;
      unassigned = ground (arith, free);
      inserted = inserted;
      result = sym (ok-injective h₆);
    }
