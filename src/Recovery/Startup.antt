-- ===== src/Recovery/Startup.antt =====
-- The gate at startup, from the snapshot and the evidence together.
use pi_agentworks.Prelude.{
  ◌≡◌, refl, inl, inr, ◌↔◌, true, false, some, ◌++◌, In, In-append_left, In-append_right,
  In-append_cases, Bool-cases, if◌then◌else◌,
}
use pi_agentworks.Run.{is_terminal}
use pi_agentworks.Story.{StoryState, awaiting_candidate, merging}
use pi_agentworks.Agent.{AgentState}
use pi_agentworks.Recovery.{
  RecoverySnapshot, RecoveryReason, agent_operation_interrupted, candidate_commit_interrupted,
  merge_interrupted, terminal_run_has_active_agent, ready, is_interrupted, agent_reasons,
  story_reasons, collect, assess_startup_recovery, RecoveryEvidence, reconcile_startup_recovery,
}
use pi_agentworks.Recovery.Reconcile.{
  Proves, reason_of, In-agent_reasons, In-story_reasons, In-collect, In-collect_source,
  reconcile-ready_iff,
}

-- What is known of everything that was interrupted.
pub record IsReconciled (snapshot : RecoverySnapshot)
    (evidence_for : RecoveryReason → RecoveryEvidence) : Type 0 where
  pub agents :
      (a : AgentState)
      → In a snapshot.agents
      → is_interrupted a.status ≡ true
      → (is_terminal snapshot.run.status ≡ true)
        × ((evidence_for
              (record { code = terminal_run_has_active_agent; entity_id = a.id })).pane_alive
            ≡ some false)
  pub candidates :
      (s : StoryState)
      → In s snapshot.stories
      → s.status ≡ awaiting_candidate
      → (evidence_for
          (record { code = candidate_commit_interrupted; entity_id = s.id })).candidate_present
        ≡ some true
  pub merges :
      (s : StoryState)
      → In s snapshot.stories
      → s.status ≡ merging
      → (evidence_for (record { code = merge_interrupted; entity_id = s.id })).merge_present
        ≡ some true

module _ (snapshot : RecoverySnapshot) (evidence_for : RecoveryReason → RecoveryEvidence) where
  abbrev IsProven : Type 0
  IsProven =
      (r : RecoveryReason)
      → In r (
          collect (agent_reasons snapshot.run) snapshot.agents
          ++ collect story_reasons snapshot.stories)
      → Proves r.code (evidence_for r)

  agent_proven :
      IsProven
      → (a : AgentState) → In a snapshot.agents
      → is_interrupted a.status ≡ true
      → (is_terminal snapshot.run.status ≡ true)
        × ((evidence_for (reason_of terminal_run_has_active_agent a.id)).pane_alive ≡ some false)
  agent_proven h a i e =
      let found : Proves
          (if is_terminal snapshot.run.status
            then terminal_run_has_active_agent
            else agent_operation_interrupted)
          (evidence_for (
            reason_of
              (if is_terminal snapshot.run.status
                then terminal_run_has_active_agent
                else agent_operation_interrupted)
              a.id)) =
        h _ (
          In-append_left _ (
            In-collect (agent_reasons snapshot.run) snapshot.agents i
              ((In-agent_reasons snapshot.run a _).1 (e, refl)))) in
      elim (Bool-cases (is_terminal snapshot.run.status)) [
        | inl t ↦ (t, rw t at found)
        | inr f ↦ absurd (rw f at found)
      ]

  story_proven :
      IsProven
      → (s : StoryState) → In s snapshot.stories
      → {r : RecoveryReason} → In r (story_reasons s)
      → Proves r.code (evidence_for r)
  story_proven h s i j = h _ (
      In-append_right (collect (agent_reasons snapshot.run) snapshot.agents)
        (In-collect story_reasons snapshot.stories i j))

  proven_of_agent :
      IsReconciled snapshot evidence_for
      → (a : AgentState) → In a snapshot.agents
      → (r : RecoveryReason) → In r (agent_reasons snapshot.run a)
      → Proves r.code (evidence_for r)
  proven_of_agent q a i r j =
      let (e, same) = (In-agent_reasons snapshot.run a r).0 j in
      let (t, gone) = q.agents a i e in rw same (rw t gone)

  proven_of_story :
      IsReconciled snapshot evidence_for
      → (s : StoryState) → In s snapshot.stories
      → (r : RecoveryReason) → In r (story_reasons s)
      → Proves r.code (evidence_for r)
  proven_of_story q s i r j = elim ((In-story_reasons s r).0 j) [
    | inl (state, same) ↦ rw same (q.candidates s i state)
    | inr (state, same) ↦ rw same (q.merges s i state)
  ]

  -- At startup the gate opens exactly if every agent that was launching, working or reviewing
  -- belongs to a run that has ended and its pane is known to be gone, every story that awaited its
  -- candidate is known to have it, and every story that was merging is known to be merged. Missing
  -- evidence opens nothing, and no evidence opens it for an interrupted agent of a live run.
  pub recovery_gate_iff :
      ((reconcile_startup_recovery (assess_startup_recovery (some snapshot)) evidence_for).status
        ≡ ready)
      ↔ IsReconciled snapshot evidence_for
  unfolding assess_startup_recovery
  recovery_gate_iff = (
    λ open_gate.
        let h =
          (reconcile-ready_iff evidence_for (assess_startup_recovery (some snapshot))).0
            open_gate in
        record {
          agents = agent_proven h;
          candidates = λ s i e. story_proven h s i ((In-story_reasons s _).1 (inl (e, refl)));
          merges = λ s i e. story_proven h s i ((In-story_reasons s _).1 (inr (e, refl)));
        },
    λ q. (reconcile-ready_iff evidence_for (assess_startup_recovery (some snapshot))).1 (λ r i.
        elim (In-append_cases (collect (agent_reasons snapshot.run) snapshot.agents) i) [
          | inl j ↦
              let (a, k, m) = In-collect_source (agent_reasons snapshot.run) snapshot.agents j in
              proven_of_agent q a k r m
          | inr j ↦
              let (s, k, m) = In-collect_source story_reasons snapshot.stories j in
              proven_of_story q s k r m
        ]),
  )
