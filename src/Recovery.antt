-- ===== src/Recovery.antt =====
-- The durable recovery gate at startup (src/domain/recovery.ts).
pub mod Gate
pub mod Reconcile
pub mod Startup
use pi_agentworks.Prelude.{
  String, Bool, true, false, Option, none, some, List, [], ◌∷◌, ◌++◌, map, any, if◌then◌else◌,
}
use pi_agentworks.Run
use pi_agentworks.Run.{RunState, is_terminal}
use pi_agentworks.Story
use pi_agentworks.Story.{StoryState, StoryStatus, awaiting_candidate, merging}
use pi_agentworks.Agent
use pi_agentworks.Agent.{AgentState, AgentStatus, launching, working, reviewing}

pub record RecoverySnapshot : Type 0 where
  pub run : RunState
  pub stories : List StoryState
  pub agents : List AgentState

pub data RecoveryReasonCode : Type 0 where
  agent_operation_interrupted candidate_commit_interrupted merge_interrupted : RecoveryReasonCode
  terminal_run_has_active_agent : RecoveryReasonCode

pub record RecoveryReason : Type 0 where
  pub code : RecoveryReasonCode
  pub entity_id : String

pub data GateStatus : Type 0 where
  ready reconciliation_required : GateStatus

pub record StartupRecoveryAssessment : Type 0 where
  pub status : GateStatus
  pub reasons : List RecoveryReason

-- `INTERRUPTED_AGENT_STATES.has(status)`
abbrev pub is_interrupted : AgentStatus → Bool
is_interrupted status = Agent.includes (launching ∷ working ∷ reviewing ∷ []) status

-- What one round of the loop over the agents pushes.
unfoldable pub agent_reasons : RunState → AgentState → List RecoveryReason
agent_reasons run agent =
    if is_interrupted agent.status
    then record {
      code =
          if is_terminal run.status
          then terminal_run_has_active_agent
          else agent_operation_interrupted;
      entity_id = agent.id;
    }
      ∷ []
    else []

-- What one round of the loop over the stories pushes.
unfoldable pub story_reasons : StoryState → List RecoveryReason
story_reasons story =
    (if Story.includes (awaiting_candidate ∷ []) story.status
      then record { code = candidate_commit_interrupted; entity_id = story.id } ∷ []
      else [])
    ++ (if Story.includes (merging ∷ []) story.status
        then record { code = merge_interrupted; entity_id = story.id } ∷ []
        else [])

-- What a loop pushes in all its rounds.
abbrev pub collect {ℓ κ} : {A : Type ℓ} {B : Type κ} → (A → List B) → List A → List B
collect push [] = []
collect push (x ∷ xs) = push x ++ collect push xs

abbrev pub gate_of {ℓ} : {A : Type ℓ} → List A → GateStatus
gate_of [] = ready
gate_of (x ∷ xs) = reconciliation_required

unfoldable pub assess_startup_recovery : Option RecoverySnapshot → StartupRecoveryAssessment
assess_startup_recovery none = record { status = ready; reasons = [] }
assess_startup_recovery (some snapshot) =
    let reasons =
      collect (agent_reasons snapshot.run) snapshot.agents
      ++ collect story_reasons snapshot.stories in
    record { status = gate_of reasons; reasons = reasons }

-- What the gateways could find out; `none` is a missing field.
pub record RecoveryEvidence : Type 0 where
  pub candidate_present : Option Bool
  pub merge_present : Option Bool
  pub pane_alive : Option Bool

pub data ReconciledDisposition : Type 0 where
  resolved recovery_required unresolved : ReconciledDisposition

pub record ReconciledReason : Type 0 where
  pub reason : RecoveryReason
  pub disposition : ReconciledDisposition
  pub detail : String

pub record ReconciledRecoveryAssessment : Type 0 where
  pub status : GateStatus
  pub reasons : List ReconciledReason

abbrev pub decide : RecoveryReason → ReconciledDisposition → String → ReconciledReason
decide reason disposition detail = record {
  reason = reason;
  disposition = disposition;
  detail = detail;
}

-- The evidence that one case looks at: true, false and missing.
abbrev pub by_evidence {ℓ} : {A : Type ℓ} → Option Bool → A → A → A → A
by_evidence (some true) yes_case no_case missing = yes_case
by_evidence (some false) yes_case no_case missing = no_case
by_evidence none yes_case no_case missing = missing

unfoldable pub reconcile_code :
    RecoveryReasonCode → RecoveryReason → RecoveryEvidence → ReconciledReason
reconcile_code candidate_commit_interrupted reason evidence =
    by_evidence evidence.candidate_present
      (decide reason resolved "candidate commit is present in Git")
      (decide reason recovery_required "candidate commit is absent in Git")
      (decide reason unresolved "no Git evidence for the candidate commit")
reconcile_code merge_interrupted reason evidence =
    by_evidence evidence.merge_present (decide reason resolved "merge commit is present in Git")
      (decide reason recovery_required "merge commit is absent in Git")
      (decide reason unresolved "no Git evidence for the merge commit")
reconcile_code terminal_run_has_active_agent reason evidence =
    by_evidence evidence.pane_alive
      (decide reason recovery_required "a terminal run still has a live agent pane")
      (decide reason resolved "agent pane is gone on a terminal run")
      (decide reason unresolved "no Herdr evidence for the agent pane")
reconcile_code agent_operation_interrupted reason evidence =
    by_evidence evidence.pane_alive
      (decide reason recovery_required "agent pane is alive; reconnect required")
      (decide reason recovery_required "agent pane is gone; relaunch required")
      (decide reason unresolved "no Herdr evidence for the agent pane")

unfoldable pub reconcile_reason : RecoveryReason → RecoveryEvidence → ReconciledReason
unfolding reconcile_code
reconcile_reason reason evidence = reconcile_code reason.code reason evidence

abbrev pub is_unresolved : ReconciledDisposition → Bool
is_unresolved resolved = false
is_unresolved _ = true

unfoldable pub reconcile_startup_recovery :
    StartupRecoveryAssessment → (RecoveryReason → RecoveryEvidence) → ReconciledRecoveryAssessment
reconcile_startup_recovery assessment evidence_for =
    let reasons =
      map (λ reason. reconcile_reason reason (evidence_for reason)) assessment.reasons in
    record {
      status =
          if any (λ reason. is_unresolved reason.disposition) reasons
          then reconciliation_required
          else ready;
      reasons = reasons;
    }
