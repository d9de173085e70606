-- ===== src/Store/Members.antt =====
-- What the checks of a snapshot establish for its stories and agents.
use pi_agentworks.Prelude.{
  ℕ, ◌≤◌, String, ◌≡◌, inl, inr, true, not, ◌&&◌, List, [], ◌∷◌, arith, str_eq, In, In-cons_cases,
  not_In_nil, leb,
}
use pi_agentworks.Errors.{ok, ◌>>=◌, >>=-eq-ok, invalid_snapshot}
use pi_agentworks.Run.{RunState}
use pi_agentworks.Story.{StoryState}
use pi_agentworks.Agent.{AgentState}
use pi_agentworks.Scheduling.{agent_capacity}
use pi_agentworks.Complexity.{ComplexityMode, get_complexity_policy}
use pi_agentworks.StoryPlan.{includes}
use pi_agentworks.StoryPlan.Counting.{Distinct, includes_iff}
use pi_agentworks.Schemas.{is_run_state, is_story_state, is_agent_state}
use pi_agentworks.Store.{check}
use pi_agentworks.Store.Tables.{keys}
use pi_agentworks.Store.Validation.{
  id_of, agent_id, occupied_slots, validate_stories, validate_agents, validate_snapshot_members,
}
use pi_agentworks.Store.Outcome.{check-eq-ok}

-- The snapshot's children are of the run, well formed and named once each.
pub record IsMembership (run : RunState) (stories : List StoryState) (agents : List AgentState)
    : Type 0 where
  pub shaped : is_run_state run ≡ true
  pub stories_valid :
      (story : StoryState)
      → In story stories
      → (is_story_state story && str_eq story.run_id run.id) ≡ true
  pub agents_valid :
      (agent : AgentState)
      → In agent agents
      → (is_agent_state agent && str_eq agent.run_id run.id) ≡ true
  pub stories_distinct : Distinct (keys id_of stories)
  pub agents_distinct : Distinct (keys agent_id agents)
  pub within : occupied_slots agents ≤ (get_complexity_policy run.complexity).maximum_agents

validate_stories-Distinct :
    (run_id : String) (seen : List String) (stories : List StoryState)
    → validate_stories run_id seen stories ≡ ok tt
    → Distinct (keys id_of stories)
      × ((id : String) → In id (keys id_of stories) → ¬ In id seen)
      × ((story : StoryState)
          → In story stories
          → (is_story_state story && str_eq story.run_id run_id) ≡ true)
unfolding validate_stories
validate_stories-Distinct run_id seen [] h =
    (tt, λ id i. absurd (not_In_nil i), λ story i. absurd (not_In_nil i))
validate_stories-Distinct run_id seen (s ∷ ss) h =
    let (u₁, valid, h₁) = >>=-eq-ok (check (is_story_state s && str_eq s.run_id run_id) _) _ h in
    let (u₂, fresh, h₂) = >>=-eq-ok (check (not (includes seen s.id)) _) _ h₁ in
    let (distinct, unseen, all_valid) = validate_stories-Distinct run_id (s.id ∷ seen) ss h₂ in
    let new : ¬ In s.id seen = λ i. ground (arith, fresh, (includes_iff seen s.id).1 i) in
    (
      (λ i. unseen s.id i In.here, distinct),
      λ id i. elim (In-cons_cases i) [
        | inl same ↦ rw same new
        | inr j ↦ λ k. unseen id j (In.there k)
      ],
      λ story i. elim (In-cons_cases i) [
        | inl same ↦ rw same (check-eq-ok (is_story_state s && str_eq s.run_id run_id) _ valid)
        | inr j ↦ all_valid story j
      ],
    )

validate_agents-Distinct :
    (run_id : String) (seen : List String) (agents : List AgentState)
    → validate_agents run_id seen agents ≡ ok tt
    → Distinct (keys agent_id agents)
      × ((id : String) → In id (keys agent_id agents) → ¬ In id seen)
      × ((agent : AgentState)
          → In agent agents
          → (is_agent_state agent && str_eq agent.run_id run_id) ≡ true)
unfolding validate_agents
validate_agents-Distinct run_id seen [] h =
    (tt, λ id i. absurd (not_In_nil i), λ agent i. absurd (not_In_nil i))
validate_agents-Distinct run_id seen (a ∷ rest) h =
    let (u₁, valid, h₁) = >>=-eq-ok (check (is_agent_state a && str_eq a.run_id run_id) _) _ h in
    let (u₂, fresh, h₂) = >>=-eq-ok (check (not (includes seen a.id)) _) _ h₁ in
    let (distinct, unseen, all_valid) = validate_agents-Distinct run_id (a.id ∷ seen) rest h₂ in
    let new : ¬ In a.id seen = λ i. ground (arith, fresh, (includes_iff seen a.id).1 i) in
    (
      (λ i. unseen a.id i In.here, distinct),
      λ id i. elim (In-cons_cases i) [
        | inl same ↦ rw same new
        | inr j ↦ λ k. unseen id j (In.there k)
      ],
      λ agent i. elim (In-cons_cases i) [
        | inl same ↦ rw same (check-eq-ok (is_agent_state a && str_eq a.run_id run_id) _ valid)
        | inr j ↦ all_valid agent j
      ],
    )

within_lem :
    (mode : ComplexityMode) (occupied : ℕ)
    → (agent_capacity mode occupied >>= λ capacity.
        check
          (leb capacity.occupied capacity.limit)
          (invalid_snapshot "the run exceeds its global active-agent limit"))
      ≡ ok tt
    → occupied ≤ (get_complexity_policy mode).maximum_agents
unfolding agent_capacity
within_lem mode occupied h = ground arith

pub validate_snapshot_members-IsMembership :
    (run : RunState) (stories : List StoryState) (agents : List AgentState)
    → validate_snapshot_members run stories agents ≡ ok tt
    → IsMembership run stories agents
unfolding validate_snapshot_members
validate_snapshot_members-IsMembership run stories agents h =
    let (u₁, shaped, h₁) = >>=-eq-ok (check (is_run_state run) _) _ h in
    let (u₂, of_stories, h₂) = >>=-eq-ok (validate_stories run.id [] stories) _ h₁ in
    let (u₃, of_agents, h₃) = >>=-eq-ok (validate_agents run.id [] agents) _ h₂ in
    let s = validate_stories-Distinct run.id [] stories of_stories in
    let a = validate_agents-Distinct run.id [] agents of_agents in
    record {
      shaped = check-eq-ok (is_run_state run) _ shaped;
      stories_valid = s.2;
      agents_valid = a.2;
      stories_distinct = s.0;
      agents_distinct = a.0;
      within = within_lem run.complexity (occupied_slots agents) h₃;
    }
