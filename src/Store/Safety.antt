-- ===== src/Store/Safety.antt =====
-- Every database that the operations lead to is sound: writers, capacity and keys.
use pi_agentworks.Prelude.{
  String, ◌≡◌, refl, ◌∙◌, sym, inl, inr, Bool, ◌&&◌, ◌||◌, Option, none, some, [], ◌∷◌, arith,
  eq_iff, str_eq, Bool-cases,
}
use pi_agentworks.Errors.{ok, >>=-eq-ok, ok-injective, stale_writer_lease, integrity}
use pi_agentworks.Story
use pi_agentworks.Story.{StoryState, assigned, working, changes_requested}
use pi_agentworks.Agent.{AgentState}
use pi_agentworks.Schemas.{is_story_state, is_agent_state}
use pi_agentworks.Store.{Database, RunTables, StoryRow, put, put_self, put_ne, check, found}
use pi_agentworks.Store.Lease.{is_text}
use pi_agentworks.Store.Tables.{select, Key-select, In-select}
use pi_agentworks.Store.Validation.{story_id, agent_id}
use pi_agentworks.Store.Writers.{
  AcquireInput, insert_agent, materialize_writer_assignment, assert_agent_assigned_to_story,
  rewrite, assign,
}
use pi_agentworks.Store.Outcome.{found-eq-ok}
use pi_agentworks.Store.Materialized.{insert_agent-cases, materialize-Materialized}
use pi_agentworks.Store.Passed.{text_of_owner}
use pi_agentworks.Store.Sound.{IsSound, IsWriter, rewrite-IsSound, added-IsSound}

abbrev pub AllSound : (String → Option RunTables) → Type 0
AllSound runs = (r : String) (tables : RunTables) → runs r ≡ some tables → IsSound tables

pub put-AllSound :
    (run_id : String) (changed : RunTables) (runs : String → Option RunTables)
    → AllSound runs
    → IsSound changed
    → AllSound (put run_id changed runs)
put-AllSound run_id changed runs all s r tables h = elim (Bool-cases (str_eq run_id r)) [
  | inl same ↦
      let e = (eq_iff run_id r).0 same in
      let k : changed ≡ tables =
        ground (arith, sym (put_self run_id changed runs) ∙ (rw (← e) at h)) in
      rw (← k) s
  | inr other ↦
      all r tables
        (sym (put_ne run_id r changed runs (λ e. ground (arith, other, eq_iff run_id r))) ∙ h)
]

insert_agent-IsSound :
    (tables : RunTables) (agent : AgentState) {written : RunTables}
    → IsSound tables
    → insert_agent tables agent ≡ ok written
    → IsSound written
insert_agent-IsSound tables agent s h = elim (insert_agent-cases tables agent h) [
  | inl same ↦ rw same s
  | inr (missing, available, added) ↦ rw added (added-IsSound tables agent s missing available)
]

assign_of_assigned :
    (story : StoryState) (owner other : String)
    → story.assigned_agent_id ≡ some other
    → assign story owner ≡ story
assign_of_assigned story owner other h = ground arith

pub materialize-AllSound :
    (db : Database) (input : AcquireInput) (agent : Option AgentState) {next : Database}
    → AllSound db.runs
    → materialize_writer_assignment db input agent ≡ ok next
    → AllSound next.runs
unfolding materialize_writer_assignment
materialize-AllSound db input none all h = rw (← ok-injective h) all
materialize-AllSound db input (some agent) all h =
    let m = materialize-Materialized db input agent h in
    let s = all input.run_id m.tables m.current in
    let i = In-select story_id input.story_id m.tables.stories m.chosen in
    let assigned_row : StoryRow = record m.row {
      story = assign m.row.story input.owner_agent_id;
    } in
    let middle : RunTables = record m.tables { stories = rewrite assigned_row m.tables.stories } in
    rw m.result (
      put-AllSound input.run_id m.written db.runs all (
        insert_agent-IsSound middle agent
          (rewrite-IsSound m.tables middle assigned_row s refl refl refl (λ owner owned.
            let w = s.writers m.row owner i owned in
            rw (assign_of_assigned m.row.story input.owner_agent_id owner w.assigned) w))
          m.inserted))

pub assigned-IsWriter :
    (tables : RunTables) (story owner : String) (pending : Bool) {row : StoryRow}
    → assert_agent_assigned_to_story tables story owner pending ≡ ok tt
    → select story_id story tables.stories ≡ some row
    → IsWriter tables.agents owner row.story
unfolding assert_agent_assigned_to_story
assigned-IsWriter tables story owner pending {row} h₀ chosen =
    let missing = stale_writer_lease "assigned story or agent is missing" in
    let (r, is_row, h₁) = >>=-eq-ok (found (select story_id story tables.stories) missing) _ h₀ in
    let (agent, is_agent, h₂) =
      >>=-eq-ok (found (select agent_id owner tables.agents) missing) _ h₁ in
    let (v, shaped, h₃) =
      >>=-eq-ok
        (check (is_story_state r.story && is_agent_state agent)
          (integrity "writer lease assignment state is invalid"))
        _ h₂ in
    let (u₁, of_story, h₄) =
      >>=-eq-ok
        (check
          (is_text r.story.assigned_agent_id owner
            && is_text agent.task_id story
            && str_eq r.story.worktree_path agent.worktree_path)
          (stale_writer_lease "agent is not assigned to the story worktree"))
        _ h₃ in
    let (u₂, writable, h₅) =
      >>=-eq-ok
        (check
          (pending || Story.includes (assigned ∷ working ∷ changes_requested ∷ []) r.story.status)
          (stale_writer_lease "the story status cannot hold a writer lease"))
        _ h₄ in
    let same : r ≡ row =
      ground (arith, found-eq-ok (select story_id story tables.stories) missing is_row, chosen) in
    let named = Key-select story_id story tables.stories chosen in
    rw (← same) (record {
      agent = agent;
      chosen = found-eq-ok (select agent_id owner tables.agents) missing is_agent;
      assigned = text_of_owner r.story.assigned_agent_id owner (ground (arith, of_story));
      task =
          text_of_owner agent.task_id r.story.id (ground (arith, of_story, rw (← same) at named));
      worktree = ground (arith, of_story, eq_iff r.story.worktree_path agent.worktree_path);
      unclosed = ground (arith, h₅);
    })
