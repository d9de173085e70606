-- ===== src/Recovery/Reconcile.antt =====
-- The gate after reconciliation: exactly which evidence opens it.
use pi_agentworks.Prelude.{
  String, ◌≡◌, refl, ◌⊎◌, inl, inr, ◌↔◌, Bool, true, false, some, List, [], ◌∷◌, map, any, arith,
  In, In-cons_cases, In-append_left, In-append_right, In-append_cases, if◌then◌else◌, not_In_nil,
  In-singleton, subst,
}
use pi_agentworks.Run.{RunState, is_terminal}
use pi_agentworks.Story.{StoryState, includes, awaiting_candidate, merging}
use pi_agentworks.Agent.{AgentState}
use pi_agentworks.Recovery.{
  RecoveryReason, RecoveryReasonCode, agent_operation_interrupted, candidate_commit_interrupted,
  merge_interrupted, terminal_run_has_active_agent, ready, is_interrupted, agent_reasons,
  story_reasons, collect, StartupRecoveryAssessment, RecoveryEvidence, reconcile_reason,
  reconcile_code, is_unresolved, reconcile_startup_recovery,
}

-- The evidence that proves a phase complete: the commit or the merge is there, or the pane of an
-- agent of a run that has ended is gone. Nothing proves that of an interrupted operation.
abbrev pub Proves : RecoveryReasonCode → RecoveryEvidence → Type 0
Proves candidate_commit_interrupted evidence = evidence.candidate_present ≡ some true
Proves merge_interrupted evidence = evidence.merge_present ≡ some true
Proves terminal_run_has_active_agent evidence = evidence.pane_alive ≡ some false
Proves agent_operation_interrupted evidence = ⊥

reconcile_code-resolved_iff :
    (code : RecoveryReasonCode) (reason : RecoveryReason) (evidence : RecoveryEvidence)
    → (is_unresolved (reconcile_code code reason evidence).disposition ≡ false)
      ↔ Proves code evidence
unfolding reconcile_code
reconcile_code-resolved_iff candidate_commit_interrupted reason evidence = ground arith
reconcile_code-resolved_iff merge_interrupted reason evidence = ground arith
reconcile_code-resolved_iff terminal_run_has_active_agent reason evidence = ground arith
reconcile_code-resolved_iff agent_operation_interrupted reason evidence = ground arith

module _ (evidence_for : RecoveryReason → RecoveryEvidence) where
  any_unresolved_iff :
      (reasons : List RecoveryReason)
      → (any
            (λ r. is_unresolved r.disposition)
            (map (λ r. reconcile_reason r (evidence_for r)) reasons)
          ≡ false)
        ↔ ((r : RecoveryReason) → In r reasons → Proves r.code (evidence_for r))
  unfolding reconcile_reason
  any_unresolved_iff [] = (λ h r i. absurd (not_In_nil i), λ h. refl)
  any_unresolved_iff (r ∷ rs) = (
    λ h q i. elim (In-cons_cases i) [
      | inl same ↦
          rw same ((reconcile_code-resolved_iff r.code r (evidence_for r)).0 (ground arith))
      | inr j ↦ (any_unresolved_iff rs).0 (ground arith) q j
    ],
    λ h.
        rw ((reconcile_code-resolved_iff r.code r (evidence_for r)).1 (h r In.here))
          ((any_unresolved_iff rs).1 (λ q i. h q (In.there i))),
  )

  pub reconcile-ready_iff :
      (assessment : StartupRecoveryAssessment)
      → ((reconcile_startup_recovery assessment evidence_for).status ≡ ready)
        ↔ ((r : RecoveryReason) → In r assessment.reasons → Proves r.code (evidence_for r))
  unfolding reconcile_startup_recovery
  reconcile-ready_iff assessment = (
    λ h. (any_unresolved_iff assessment.reasons).0 (ground arith),
    λ h. rw ((any_unresolved_iff assessment.reasons).1 h) refl,
  )

module _ {ℓ κ} {A : Type ℓ} {B : Type κ} (push : A → List B) where
  pub In-collect : (xs : List A) {x : A} {b : B} → In x xs → In b (push x) → In b (collect push xs)
  In-collect [] i j = elim i [ ]
  In-collect (y ∷ ys) {b} i j = elim (In-cons_cases i) [
    | inl same ↦ In-append_left (collect push ys) (subst (λ z. In b (push z)) same j)
    | inr k ↦ In-append_right (push y) (In-collect ys k j)
  ]

  pub In-collect_source :
      (xs : List A) {b : B} → In b (collect push xs) → (x : A) × In x xs × In b (push x)
  In-collect_source [] i = elim i [ ]
  In-collect_source (y ∷ ys) i = elim (In-append_cases (push y) i) [
    | inl j ↦ (y, In.here, j)
    | inr j ↦ let (x, k, m) = In-collect_source ys j in (x, In.there k, m)
  ]

abbrev pub reason_of : RecoveryReasonCode → String → RecoveryReason
reason_of code id = record { code = code; entity_id = id }

In-when :
    (b : Bool) (x r : RecoveryReason) → In r (if b then x ∷ [] else []) ↔ ((b ≡ true) × (r ≡ x))
In-when true x r = (λ i. (refl, In-singleton i), λ h. rw h.1 In.here)
In-when false x r = (λ i. absurd (not_In_nil i), λ h. absurd (ground (arith, h.0)))

-- The reasons that one agent or story gives.
pub In-agent_reasons :
    (run : RunState) (a : AgentState) (r : RecoveryReason)
    → In r (agent_reasons run a) ↔ (
        (is_interrupted a.status ≡ true)
        × (r
            ≡ reason_of
                (if is_terminal run.status
                  then terminal_run_has_active_agent
                  else agent_operation_interrupted)
                a.id))
unfolding agent_reasons
In-agent_reasons run a r = In-when (is_interrupted a.status) _ r

pub In-story_reasons :
    (s : StoryState) (r : RecoveryReason)
    → In r (story_reasons s) ↔ (
        ((s.status ≡ awaiting_candidate) × (r ≡ reason_of candidate_commit_interrupted s.id))
        ⊎ ((s.status ≡ merging) × (r ≡ reason_of merge_interrupted s.id)))
unfolding story_reasons
In-story_reasons s r = (
  λ i.
      elim (In-append_cases (if waits then reason_of candidate_commit_interrupted s.id ∷ [] else [])
        i) [
          | inl j ↦ let (e, same) = (In-when waits _ r).0 j in inl (ground (arith, e), same)
          | inr j ↦ let (e, same) = (In-when merges _ r).0 j in inr (ground (arith, e), same)
        ],
  λ h. elim h [
    | inl (state, same) ↦ In-append_left _ ((In-when waits _ r).1 (rw state refl, same))
    | inr (state, same) ↦
        In-append_right (if waits then reason_of candidate_commit_interrupted s.id ∷ [] else [])
          ((In-when merges _ r).1 (rw state refl, same))
  ],
)
  where
    waits : Bool
    waits = includes (awaiting_candidate ∷ []) s.status

    merges : Bool
    merges = includes (merging ∷ []) s.status
