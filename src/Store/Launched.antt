-- ===== src/Store/Launched.antt =====
-- What an accepted launch of an agent went through.
use pi_agentworks.Prelude.{
  ℕ, String, ◌≡◌, ◌∙◌, sym, ap, ◌⊎◌, inl, inr, false, true, none, some, [], ◌∷◌, arith, eq_iff,
  Bool-cases, Option-cases, is_some, not, ◌&&◌, ◌||◌,
}
use pi_agentworks.Errors.{ok, >>=-eq-ok, ok-injective, failed, integrity, stale_writer_lease}
use pi_agentworks.Agent.{AgentState, planned, launching, launch_requested, includes}
use pi_agentworks.Agent.Change.{transition_agent, apply_agent_change}
use pi_agentworks.Schemas.{is_agent_state}
use pi_agentworks.Store.{Database, RunTables, non_empty, check, found}
use pi_agentworks.Store.Lease.{assert_fence, is_text}
use pi_agentworks.Store.Tables.{select}
use pi_agentworks.Store.Validation.{agent_id}
use pi_agentworks.Store.Writers.{assert_agent_slot_available}
use pi_agentworks.Store.Outcome.{found-eq-ok, check-eq-ok}
use pi_agentworks.Store.Launches.{
  LaunchInput, LaunchAnswers, is_slot, is_session_id, same_agent_identity, current_agent,
  changed_to, after_launch, is_same_launch, insert_launch, materialize_agent_launch,
}
use pi_agentworks.Store.Touched.{IsSame, is_closed, Fits, Touched}

changed_to_launch :
    (s : AgentState) (now : ℕ) (pane_id : String) {t : AgentState}
    → changed_to s now (launch_requested pane_id) ≡ ok t
    → IsSame s t × (is_closed t ≡ false)
unfolding transition_agent apply_agent_change
changed_to_launch s now pane_id h = ground arith

after_launch-IsSame :
    (s : AgentState) (now : ℕ) (pane_id : String) {t : AgentState}
    → after_launch s now pane_id ≡ ok t
    → IsSame s t × (is_closed t ≡ false)
unfolding after_launch
after_launch-IsSame s now pane_id h = elim (Bool-cases (includes (launching ∷ []) s.status)) [
  | inl already ↦ ground (arith, already)
  | inr other ↦ changed_to_launch s now pane_id (rw other at h)
]

-- The agent that is launched is the stored one, or the new one.
current_agent-cases :
    (tables : RunTables) (agent : AgentState) {current : AgentState}
    → current_agent tables agent ≡ ok current
    → (select agent_id agent.id tables.agents ≡ some current)
      ⊎ ((current ≡ agent)
          × (select agent_id agent.id tables.agents ≡ none)
          × (assert_agent_slot_available tables ≡ ok tt))
unfolding current_agent
current_agent-cases tables agent h = elim (Option-cases (select agent_id agent.id tables.agents)) [
  | inl missing ↦
      let (u, available, e) =
        >>=-eq-ok (assert_agent_slot_available tables) _ (rw (current_agent, missing) at h) in
      inr (sym (ok-injective e), missing, available)
  | inr (persisted, present) ↦
      let (u, shaped, e) =
        >>=-eq-ok (check (is_agent_state persisted) (integrity "agent launch state is invalid")) _
          (rw (current_agent, present) at h) in
      inl (present ∙ ap some (ok-injective e))
]

after_launch-Fits :
    (tables : RunTables) (agent current next : AgentState)
    → current_agent tables agent ≡ ok current
    → current.id ≡ agent.id
    → includes (planned ∷ launching ∷ []) current.status ≡ true
    → IsSame current next
    → Fits tables next
after_launch-Fits tables agent current next chosen named status same =
    let id : next.id ≡ agent.id = same.id ∙ named in
    elim (current_agent-cases tables agent chosen) [
      | inl present ↦ Fits.old current (rw id present) same (ground (arith, status))
      | inr (e, missing, available) ↦ Fits.new (rw id missing) available
    ]

same_id :
    (current agent : AgentState) → same_agent_identity current agent ≡ true → current.id ≡ agent.id
unfolding same_agent_identity
same_id current agent h = ground (arith, h, eq_iff current.id agent.id)

pub materialize_agent_launch-Touched :
    (db : Database) (input : LaunchInput) (answers : LaunchAnswers) {next : Database × AgentState}
    → materialize_agent_launch db input answers ≡ ok next
    → (assert_fence db input.write ≡ ok tt) × Touched db next.0
unfolding materialize_agent_launch
materialize_agent_launch-Touched db input answers h₀ =
    let (pane_id, e₁, h₁) = >>=-eq-ok (non_empty input.pane_id "agent launch pane id") _ h₀ in
    let (session_id, e₂, h₂) =
      >>=-eq-ok (non_empty input.session_id "agent launch session id") _ h₁ in
    let (u₃, e₃, h₃) =
      >>=-eq-ok
        (check (is_slot input.slot)
          (failed "agent launch pane slot must be a non-negative safe integer"))
        _ h₂ in
    let (u₄, e₄, h₄) =
      >>=-eq-ok
        (check (is_session_id session_id) (failed "agent launch session id must be an exact UUID"))
        _ h₃ in
    let (u₅, fenced, h₅) = >>=-eq-ok (assert_fence db input.write) _ h₄ in
    let missing = failed "the run does not exist" in
    let (tables, is_run, h₆) = >>=-eq-ok (found (db.runs input.agent.run_id) missing) _ h₅ in
    let (current, chosen, h₇) = >>=-eq-ok (current_agent tables input.agent) _ h₆ in
    let (u₈, same, h₈) =
      >>=-eq-ok
        (check (same_agent_identity current input.agent)
          (stale_writer_lease "the agent has different controller identity"))
        _ h₇ in
    let (u₉, status, h₉) =
      >>=-eq-ok
        (check (includes (planned ∷ launching ∷ []) current.status)
          (stale_writer_lease "the agent is launched already"))
        _ h₈ in
    let (v₁, in_pane, k₁) =
      >>=-eq-ok
        (check (not (includes (launching ∷ []) current.status) || is_text current.pane_id pane_id)
          (stale_writer_lease "the agent is launching in a different pane"))
        _ h₉ in
    let (v₂, in_slot, k₂) =
      >>=-eq-ok
        (check (not (is_some input.slot && answers.slot_taken))
          (stale_writer_lease "the agent pane slot is reserved by an unclosed agent"))
        _ k₁ in
    let (next, done, k₃) = >>=-eq-ok (after_launch current input.write.now pane_id) _ k₂ in
    let (v₄, reserved, k₄) =
      >>=-eq-ok
        (check (is_same_launch answers.reservation pane_id session_id input.slot)
          (stale_writer_lease "the agent has different pane or session launch evidence"))
        _ k₃ in
    let (v₅, inserted, e) = >>=-eq-ok (insert_launch answers.reservation answers.inserted) _ k₄ in
    let (kept, unclosed) = after_launch-IsSame current input.write.now pane_id done in
    (
      fenced,
      record {
        run_id = input.agent.run_id;
        tables = tables;
        agent = next;
        current = found-eq-ok (db.runs input.agent.run_id) missing is_run;
        fits =
            after_launch-Fits tables input.agent current next chosen
              (same_id current input.agent
                (check-eq-ok (same_agent_identity current input.agent) _ same))
              (check-eq-ok (includes (planned ∷ launching ∷ []) current.status) _ status) kept;
        unclosed = unclosed;
        result = sym (ap (λ r. r.0) (ok-injective e));
      },
    )
