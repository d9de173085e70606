-- ===== src/Store/Occupied.antt =====
-- Counting the slots that the agents of a list hold, whatever its order.
use pi_agentworks.Prelude.{
  ℕ, ◌+◌, ◌≤◌, ◌≡◌, ◌⊎◌, inl, inr, List, [], ◌∷◌, ◌++◌, arith, In, In-cons_cases, not_In_nil,
  if◌then◌else◌,
}
use pi_agentworks.Agent.{AgentState}
use pi_agentworks.Scheduling.{occupies_agent_capacity, count_occupied_agent_slots}
use pi_agentworks.StoryPlan.Counting.{Distinct}
use pi_agentworks.Store.Tables.{keys, In-keys}
use pi_agentworks.Store.Validation.{agent_id, occupied_slots}

abbrev pub slot : AgentState → ℕ
slot agent = if occupies_agent_capacity agent.status then 1 else 0

pub occupied_slots-cons :
    (agent : AgentState) (agents : List AgentState)
    → occupied_slots (agent ∷ agents) ≡ slot agent + occupied_slots agents
unfolding count_occupied_agent_slots
occupied_slots-cons agent agents = ground arith

pub occupied_slots-append :
    (agents : List AgentState) (agent : AgentState)
    → occupied_slots (agents ++ agent ∷ []) ≡ occupied_slots agents + slot agent
unfolding count_occupied_agent_slots
occupied_slots-append [] agent = ground arith
occupied_slots-append (a ∷ rest) agent =
    rw (occupied_slots-cons a (rest ++ agent ∷ []), occupied_slots-cons a rest)
      (omega (arith, occupied_slots-append rest agent))

-- The list without one of its agents.
record Without (agent : AgentState) (agents : List AgentState) : Type 0 where
  others : List AgentState
  parted : (a : AgentState) → In a agents → (a ≡ agent) ⊎ In a others
  counted : occupied_slots agents ≡ slot agent + occupied_slots others

without : (agent : AgentState) (agents : List AgentState) → In agent agents → Without agent agents
without agent [] i = absurd (not_In_nil i)
without agent (b ∷ rest) i = elim (In-cons_cases i) [
  | inl same ↦ record {
    others = rest;
    parted = λ a j. rw same (In-cons_cases j);
    counted = rw same (occupied_slots-cons b rest);
  }
  | inr j ↦
      let w = without agent rest j in
      record {
        others = b ∷ w.others;
        parted = λ a k. elim (In-cons_cases k) [
          | inl head ↦ inr (rw head In.here)
          | inr later ↦ elim (w.parted a later) [ inl e ↦ inl e | inr m ↦ inr (In.there m) ]
        ];
        counted =
            rw (occupied_slots-cons b rest, occupied_slots-cons b w.others)
              (omega (arith, w.counted));
      }
]

-- Agents with distinct ids that are all among others hold no more slots than those.
pub occupied_slots-subset :
    (agents others : List AgentState)
    → Distinct (keys agent_id agents)
    → ((a : AgentState) → In a agents → In a others)
    → occupied_slots agents ≤ occupied_slots others
unfolding count_occupied_agent_slots
occupied_slots-subset [] others u h = ground arith
occupied_slots-subset (a ∷ rest) others u h =
    let w = without a others (h a In.here) in
    let later = occupied_slots-subset rest w.others u.1 (λ b i.
      elim (w.parted b (h b (In.there i))) [
        | inl same ↦ absurd (u.0 (rw (← same) (In-keys agent_id rest i)))
        | inr j ↦ j
      ]) in
    rw (occupied_slots-cons a rest) (omega (arith, later, w.counted))
