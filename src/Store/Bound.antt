-- ===== src/Store/Bound.antt =====
-- What an accepted binding of an agent's restored pane went through.
use pi_agentworks.Prelude.{
  ℕ, String, ◌≡◌, ◌∙◌, sym, ◌⊎◌, inl, inr, false, Option, none, some, [], ◌∷◌, arith, str_eq,
  Bool-cases, is_some, not, ◌&&◌, ◌||◌,
}
use pi_agentworks.Errors.{Result, ok, >>=-eq-ok, ok-injective, integrity, stale_writer_lease}
use pi_agentworks.Agent.{AgentState, disconnected, pane_lost, recovery_requested, includes}
use pi_agentworks.Agent.Change.{transition_agent, apply_agent_change, lose_pane, recover_agent}
use pi_agentworks.Schemas.{is_agent_state}
use pi_agentworks.Store.{Database, non_empty, check, found}
use pi_agentworks.Store.Lease.{assert_fence, is_text}
use pi_agentworks.Store.Tables.{select, Key-select}
use pi_agentworks.Store.Validation.{agent_id}
use pi_agentworks.Store.Outcome.{found-eq-ok}
use pi_agentworks.Store.Launches.{
  RestorationRow, BindInput, BindAnswers, changed_to, after_loss, bind_pane, bind_or_keep,
  bind_agent_pane_restoration,
}
use pi_agentworks.Store.Touched.{IsSame, is_closed, Fits, Touched}

IsSame-trans : (r s t : AgentState) → IsSame r s → IsSame s t → IsSame r t
IsSame-trans r s t h k = record {
  id = k.id ∙ h.id;
  task_id = k.task_id ∙ h.task_id;
  worktree_path = k.worktree_path ∙ h.worktree_path;
}

changed_to_lost :
    (s : AgentState) (now : ℕ) {t : AgentState}
    → changed_to s now pane_lost ≡ ok t
    → IsSame s t × (is_closed s ≡ false)
unfolding transition_agent apply_agent_change lose_pane
changed_to_lost s now h = ground arith

after_loss-IsSame :
    (s : AgentState) (now : ℕ) {t : AgentState}
    → after_loss s now ≡ ok t
    → IsSame s t × (is_closed s ≡ false)
unfolding after_loss
after_loss-IsSame s now h = elim (Bool-cases (includes (disconnected ∷ []) s.status)) [
  | inl already ↦ ground (arith, already)
  | inr other ↦ changed_to_lost s now (rw other at h)
]

changed_to_recovering :
    (s : AgentState) (now : ℕ) (pane_id : String) {t : AgentState}
    → changed_to s now (recovery_requested pane_id) ≡ ok t
    → IsSame s t × (is_closed t ≡ false)
unfolding transition_agent apply_agent_change recover_agent
changed_to_recovering s now pane_id h = ground arith

bind_pane-Touched :
    (db : Database) (now : ℕ) (run_id agent replacement : String) (restoration : RestorationRow)
    (answers : BindAnswers) {next : Database}
    → bind_pane db now run_id agent replacement restoration answers ≡ ok next
    → Touched db next
unfolding bind_pane
bind_pane-Touched db now run_id agent replacement restoration answers h₀ =
    let (u₁, e₁, h₁) =
      >>=-eq-ok
        (check (not (str_eq replacement restoration.prior_pane_id))
          (stale_writer_lease "the replacement pane did not change"))
        _ h₀ in
    let missing = integrity "agent pane restoration lost its agent state" in
    let (tables, is_run, h₂) = >>=-eq-ok (found (db.runs run_id) missing) _ h₁ in
    let (current, chosen, h₃) =
      >>=-eq-ok (found (select agent_id agent tables.agents) missing) _ h₂ in
    let (u₄, shaped, h₄) =
      >>=-eq-ok
        (check (is_agent_state current) (integrity "agent pane restoration state is invalid")) _
        h₃ in
    let (u₅, in_pane, h₅) =
      >>=-eq-ok
        (check
          (is_text current.pane_id restoration.prior_pane_id
            || (includes (disconnected ∷ []) current.status && not (is_some current.pane_id)))
          (stale_writer_lease "the controller pane changed before restoration binding"))
        _ h₄ in
    let (row, e₆, h₆) = >>=-eq-ok answers.launch _ h₅ in
    let (launch, e₇, h₇) =
      >>=-eq-ok (found row (integrity "agent pane restoration lost its launch record")) _ h₆ in
    let (u₈, e₈, h₈) =
      >>=-eq-ok
        (check
          (launch.confirmed
            && str_eq launch.pane_id restoration.prior_pane_id
            && str_eq launch.session_id restoration.session_id)
          (stale_writer_lease "the launch authority changed before restoration binding"))
        _ h₇ in
    let (gone, is_lost, h₉) = >>=-eq-ok (after_loss current now) _ h₈ in
    let (recovering, done, k₁) =
      >>=-eq-ok (changed_to gone now (recovery_requested replacement)) _ h₉ in
    let (v, updated, e) = >>=-eq-ok answers.updated _ k₁ in
    let (kept, unclosed_before) = after_loss-IsSame current now is_lost in
    let (again, unclosed) = changed_to_recovering gone now replacement done in
    let same = IsSame-trans current gone recovering kept again in
    let at_agent = found-eq-ok (select agent_id agent tables.agents) missing chosen in
    record {
      run_id = run_id;
      tables = tables;
      agent = recovering;
      current = found-eq-ok (db.runs run_id) missing is_run;
      fits =
          Fits.old current (rw (same.id, Key-select agent_id agent tables.agents at_agent) at_agent)
            same unclosed_before;
      unclosed = unclosed;
      result = sym (ok-injective e);
    }

bind_or_keep-cases :
    (db : Database) (pane : Option String) (replacement : String) (bound : Result Database)
    {next : Database}
    → bind_or_keep db pane replacement bound ≡ ok next
    → (next ≡ db) ⊎ (bound ≡ ok next)
bind_or_keep-cases db none replacement bound h = inr h
bind_or_keep-cases db (some pane) replacement bound h =
    let (u, same, e) =
      >>=-eq-ok
        (check (str_eq pane replacement)
          (stale_writer_lease "the agent is bound to a different pane"))
        _ h in
    inl (sym (ok-injective e))

pub bind_agent_pane_restoration-Touched :
    (db : Database) (input : BindInput) (answers : BindAnswers) {next : Database}
    → bind_agent_pane_restoration db input answers ≡ ok next
    → (assert_fence db input.write ≡ ok tt) × ((next ≡ db) ⊎ Touched db next)
unfolding bind_agent_pane_restoration
bind_agent_pane_restoration-Touched db input answers h₀ =
    let (run_id, e₁, h₁) =
      >>=-eq-ok (non_empty input.run_id "agent pane restoration run id") _ h₀ in
    let (agent, e₂, h₂) =
      >>=-eq-ok (non_empty input.agent_id "agent pane restoration agent id") _ h₁ in
    let (replacement, e₃, h₃) =
      >>=-eq-ok (non_empty input.replacement_pane_id "replacement agent pane id") _ h₂ in
    let (u₄, fenced, h₄) = >>=-eq-ok (assert_fence db input.write) _ h₃ in
    let (row, e₅, h₅) = >>=-eq-ok answers.restoration _ h₄ in
    let (restoration, e₆, h₆) =
      >>=-eq-ok (found row (stale_writer_lease "the agent has no pane restoration reservation")) _
        h₅ in
    let (u₇, e₇, last) =
      >>=-eq-ok
        (check (str_eq restoration.restoration_id input.restoration_id)
          (stale_writer_lease "the pane restoration identity changed"))
        _ h₆ in
    (
      fenced,
      elim (bind_or_keep-cases db restoration.replacement_pane_id replacement _ last) [
        | inl same ↦ inl same
        | inr bound ↦ inr (
            bind_pane-Touched db input.write.now run_id agent replacement restoration answers bound)
      ],
    )
