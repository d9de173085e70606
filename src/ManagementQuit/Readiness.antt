-- ===== src/ManagementQuit/Readiness.antt =====
-- When the management surface may be dismissed.
use pi_agentworks.Prelude.{
  ◌≡◌, refl, ◌↔◌, ◌⊎◌, true, false, not, ◌&&◌, all, all-In, all_of_In, List, [], ◌∷◌, ◌++◌, arith,
  In, inl, inr,
}
use pi_agentworks.Run.{RunState}
use pi_agentworks.Story.{StoryStatus, StoryState, work_complete, merged}
use pi_agentworks.Agent.{AgentStatus, AgentState, idle, completed, closed}
use pi_agentworks.Scheduling.{is_empty}
use pi_agentworks.ManagementQuit.{
  assess_management_quit_readiness, is_blocked_or_failed, is_settled, is_quiescent, run_blockers,
  story_blockers, agent_blockers,
}

empty-append : {A : Type 0} (xs ys : List A) → is_empty (xs ++ ys) ≡ (is_empty xs && is_empty ys)
empty-append [] ys = refl
empty-append (x ∷ xs) ys = refl

run_blockers_iff :
    (current : RunState) (stories : List StoryState)
    → is_empty (run_blockers current stories)
      ≡ (not (is_empty stories) && not (is_blocked_or_failed current.status))
run_blockers_iff current [] = ground arith
run_blockers_iff current (s ∷ stories) = ground arith

story_blockers_lem :
    (stories : List StoryState)
    → is_empty (story_blockers stories) ≡ all (λ (s : StoryState). is_settled s.status) stories
unfolding story_blockers
story_blockers_lem [] = refl
story_blockers_lem (s ∷ stories) = ground (arith, story_blockers_lem stories)

agent_blockers_lem :
    (agents : List AgentState)
    → is_empty (agent_blockers agents) ≡ all (λ (a : AgentState). is_quiescent a.status) agents
unfolding agent_blockers
agent_blockers_lem [] = refl
agent_blockers_lem (a ∷ agents) = ground (arith, agent_blockers_lem agents)

-- The run has stories, is not blocked or failed, its stories are settled and its agents quiescent.
pub record CanQuit (current : RunState) (stories : List StoryState) (agents : List AgentState)
    : Type 0 where
  pub has_story : is_empty stories ≡ false
  pub undisturbed : is_blocked_or_failed current.status ≡ false
  pub settled : (s : StoryState) → In s stories → (s.status ≡ work_complete) ⊎ (s.status ≡ merged)
  pub quiescent :
      (a : AgentState)
      → In a agents
      → (a.status ≡ idle) ⊎ (a.status ≡ completed) ⊎ (a.status ≡ closed)

settled_iff : (s : StoryStatus) → (is_settled s ≡ true) ↔ ((s ≡ work_complete) ⊎ (s ≡ merged))
settled_iff s = (λ h. to s h, λ h. elim h [ inl e ↦ rw e refl | inr e ↦ rw e refl ])
  where
    to : (s : StoryStatus) → is_settled s ≡ true → (s ≡ work_complete) ⊎ (s ≡ merged)
    to s h = ground (arith)

quiescent_iff :
    (s : AgentStatus) → (is_quiescent s ≡ true) ↔ ((s ≡ idle) ⊎ (s ≡ completed) ⊎ (s ≡ closed))
quiescent_iff s = (
  λ h. to s h,
  λ h. elim h [ inl e ↦ rw e refl | inr (inl e) ↦ rw e refl | inr (inr e) ↦ rw e refl ],
)
  where
    to : (s : AgentStatus) → is_quiescent s ≡ true → (s ≡ idle) ⊎ (s ≡ completed) ⊎ (s ≡ closed)
    to s h = ground (arith)

-- The management surface may be dismissed exactly if the run has a story, is neither blocked nor
-- failed, every story's work is complete or merged, and every agent is idle, completed or closed.
pub can_quit_iff :
    (current : RunState) (stories : List StoryState) (agents : List AgentState)
    → ((assess_management_quit_readiness current stories agents).can_quit ≡ true)
      ↔ CanQuit current stories agents
unfolding assess_management_quit_readiness
can_quit_iff current stories agents =
    let e =
      empty-append (run_blockers current stories)
        (story_blockers stories ++ agent_blockers agents) in
    let f = empty-append (story_blockers stories) (agent_blockers agents) in
    let r = run_blockers_iff current stories in
    let s = story_blockers_lem stories in
    let a = agent_blockers_lem agents in
    (
      λ h. record {
        has_story = ground (arith, h, e, r);
        undisturbed = ground (arith, h, e, r);
        settled = λ t i. (settled_iff t.status).0 (
            all-In (λ (s : StoryState). is_settled s.status) stories (ground (arith, h, e, f, s))
              i);
        quiescent = λ t i. (quiescent_iff t.status).0 (
            all-In (λ (a : AgentState). is_quiescent a.status) agents (ground (arith, h, e, f, a))
              i);
      },
      λ q.
          let settled =
            all_of_In (λ (s : StoryState). is_settled s.status) stories
              (λ t i. (settled_iff t.status).1 (q.settled t i)) in
          let quiescent =
            all_of_In (λ (a : AgentState). is_quiescent a.status) agents
              (λ t i. (quiescent_iff t.status).1 (q.quiescent t i)) in
          ground (arith, e, f, r, s, a, q.has_story, q.undisturbed, settled, quiescent),
    )
