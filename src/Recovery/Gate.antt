-- ===== src/Recovery/Gate.antt =====
-- When the recovery gate is open, before and after the evidence is looked at.
use pi_agentworks.Prelude.{
  ◌≡◌, refl, ◌≢◌, inl, inr, ◌↔◌, false, some, List, [], ◌∷◌, ◌++◌, arith, In, In-cons_cases,
}
use pi_agentworks.Run.{RunState}
use pi_agentworks.Story.{StoryState, awaiting_candidate, merging}
use pi_agentworks.Agent.{AgentState}
use pi_agentworks.Recovery.{
  RecoverySnapshot, ready, is_interrupted, agent_reasons, story_reasons, collect, gate_of,
  assess_startup_recovery,
}

-- No story waits for its candidate or its merge, and no agent is launching, working or reviewing.
pub record IsQuiet (snapshot : RecoverySnapshot) : Type 0 where
  pub agents : (a : AgentState) → In a snapshot.agents → is_interrupted a.status ≡ false
  pub stories :
      (s : StoryState)
      → In s snapshot.stories
      → (s.status ≢ awaiting_candidate) × (s.status ≢ merging)

gate_of-append {ℓ} :
    {B : Type ℓ} (xs ys : List B) → gate_of (xs ++ ys) ≡ ready → (xs ≡ []) × (ys ≡ [])
gate_of-append [] [] h = (refl, refl)
gate_of-append [] (y ∷ ys) h = absurd (cc)
gate_of-append (x ∷ xs) ys h = absurd (cc)

module _ {ℓ κ} {A : Type ℓ} {B : Type κ} (push : A → List B) where
  collect-nil : (xs : List A) → collect push xs ≡ [] → (x : A) → In x xs → push x ≡ []
  collect-nil [] h x i = elim i [ ]
  collect-nil (y ∷ ys) h x i =
      let (this, rest) = gate_of-append (push y) (collect push ys) (rw h refl) in
      elim (In-cons_cases i) [ inl same ↦ rw same this | inr j ↦ collect-nil ys rest x j ]

  collect-nil_of : (xs : List A) → ((x : A) → In x xs → push x ≡ []) → collect push xs ≡ []
  collect-nil_of [] h = refl
  collect-nil_of (y ∷ ys) h = rw (h y In.here) (collect-nil_of ys (λ x i. h x (In.there i)))

agent_reasons-nil :
    (run : RunState) (a : AgentState)
    → (agent_reasons run a ≡ []) ↔ (is_interrupted a.status ≡ false)
unfolding agent_reasons
agent_reasons-nil run a = (λ h. ground arith, λ h. rw h refl)

story_reasons-nil :
    (s : StoryState)
    → (story_reasons s ≡ []) ↔ ((s.status ≢ awaiting_candidate) × (s.status ≢ merging))
unfolding story_reasons
story_reasons-nil s = (λ h. ground arith, λ h. ground arith)

-- Before any evidence the gate is open exactly if nothing was interrupted. The run's own status
-- does not matter, nor does any agent that is idle, waiting or blocked.
pub assess_startup_recovery-ready_iff :
    (snapshot : RecoverySnapshot)
    → ((assess_startup_recovery (some snapshot)).status ≡ ready) ↔ IsQuiet snapshot
unfolding assess_startup_recovery
assess_startup_recovery-ready_iff snapshot = (
  λ h.
      let (of_agents, of_stories) =
        gate_of-append (collect (agent_reasons snapshot.run) snapshot.agents)
          (collect story_reasons snapshot.stories) h in
      record {
        agents = λ a i.
            (agent_reasons-nil snapshot.run a).0
              (collect-nil (agent_reasons snapshot.run) snapshot.agents of_agents a i);
        stories = λ s i.
            (story_reasons-nil s).0 (collect-nil story_reasons snapshot.stories of_stories s i);
      },
  λ q.
      rw
        (
          collect-nil_of (agent_reasons snapshot.run) snapshot.agents
              (λ a i. (agent_reasons-nil snapshot.run a).1 (q.agents a i)),
          collect-nil_of story_reasons snapshot.stories
              (λ s i. (story_reasons-nil s).1 (q.stories s i)),
        )
        refl,
)
