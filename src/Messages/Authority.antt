-- ===== src/Messages/Authority.antt =====
-- What a child agent can bring about by its messages, and what it cannot.
use pi_agentworks.Prelude.{
  ℕ, ◌≡◌, refl, ◌≢◌, inl, inr, Bool, true, false, none, some, arith, Bool-cases, List, [], ◌∷◌, map,
  All, subst, ◌↔◌, if◌then◌else◌, eq_iff,
}
use pi_agentworks.Errors.{ok, >>=-eq-ok, ok-injective}
use pi_agentworks.Agent
use pi_agentworks.Agent.{
  AgentStatus, idle, working, blocked, failed, AgentState, AgentChange, AgentTransition,
}
use pi_agentworks.Trace.{replay}
use pi_agentworks.Agent.Change.{transition_agent}
use pi_agentworks.Agent.Invariant.{IsWellFormed, replay-IsWellFormed}
use pi_agentworks.Messages.{
  AgentMessage, MessageBody, session_started, session_shutdown, operation_started,
  operation_progress, operation_completed, heartbeat, agent_blocked, agent_unblocked,
  candidate_ready, review_submitted, supervisor_nudge, supervisor_completion, supervisor_error,
  AgentMessageStateResult, unchanged, changed_by, is_blocked, complete_operation, apply_body,
  apply_agent_message,
}

-- The changes that a child may ask for: it cannot launch, complete, recover or close itself.
abbrev pub is_child_change : AgentChange → Bool
is_child_change (Agent.session_ready path) = true
is_child_change (Agent.operation_started operation) = true
is_child_change Agent.operation_finished = true
is_child_change Agent.heartbeat = true
is_child_change (Agent.agent_blocked reason) = true
is_child_change (Agent.agent_unblocked operation) = true
is_child_change (Agent.agent_failed reason) = true
is_child_change _ = false

abbrev pub at_time : ℕ → List AgentChange → List AgentTransition
at_time at = map (λ c. record { at = at; change = c })

-- The result comes of a list of such changes, all made at the given time; the list is empty
-- exactly if the result says that nothing changed.
pub record ByChild (s : AgentState) (at : ℕ) (r : AgentMessageStateResult) : Type 0 where
  pub changes : List AgentChange
  pub allowed : All (λ c. is_child_change c ≡ true) changes
  pub made : replay transition_agent s (at_time at changes) ≡ ok r.agent
  pub reported : (r.changed ≡ true) ↔ (changes ≢ [])

unchanged-ByChild : (s : AgentState) (at : ℕ) → ByChild s at (unchanged s)
unfolding unchanged replay
unchanged-ByChild s at = record {
  changes = [];
  allowed = tt;
  made = refl;
  reported = (λ h. absurd (cc), λ h. absurd (h refl));
}

changed_by-ByChild :
    (s : AgentState) (at : ℕ) (c : AgentChange) {r : AgentMessageStateResult}
    → is_child_change c ≡ true
    → changed_by s at c ≡ ok r
    → ByChild s at r
unfolding changed_by replay
changed_by-ByChild s at c allowed h =
    let (t, stepped, same) = >>=-eq-ok (transition_agent s (record { at = at; change = c })) _ h in
    record {
      changes = c ∷ [];
      allowed = (allowed, tt);
      made = ground arith;
      reported = (λ e. cc, λ e. ground arith);
    }

resumed-ByChild :
    (s : AgentState) (at : ℕ) (c d : AgentChange) {u : AgentState} {r : AgentMessageStateResult}
    → (is_child_change c ≡ true) × (is_child_change d ≡ true)
    → transition_agent s (record { at = at; change = c }) ≡ ok u
    → changed_by u at d ≡ ok r
    → ByChild s at r
unfolding changed_by replay
resumed-ByChild s at c d {u} allowed first h =
    let (t, stepped, same) = >>=-eq-ok (transition_agent u (record { at = at; change = d })) _ h in
    record {
      changes = c ∷ d ∷ [];
      allowed = (allowed.0, (allowed.1, tt));
      made = ground arith;
      reported = (λ e. cc, λ e. ground arith);
    }

complete_operation-ByChild :
    (s : AgentState) (succeeded : Bool) (at : ℕ) {r : AgentMessageStateResult}
    → complete_operation s succeeded at ≡ ok r
    → ByChild s at r
unfolding complete_operation
complete_operation-ByChild s false at h =
    changed_by-ByChild s at (Agent.agent_failed "child operation reported failure") refl h
complete_operation-ByChild s true at h = elim (Bool-cases (is_blocked s.status)) [
  | inl stuck ↦
      let (u, first, second) = >>=-eq-ok (transition_agent s _) _ (rw stuck at h) in
      resumed-ByChild s at (Agent.agent_unblocked "agent operation") Agent.operation_finished
        (refl, refl) first second
  | inr free ↦ changed_by-ByChild s at Agent.operation_finished refl (rw free at h)
]

maybe-ByChild :
    (b : Bool) (s : AgentState) (at : ℕ) (c : AgentChange) {r : AgentMessageStateResult}
    → is_child_change c ≡ true
    → (if b then ok (unchanged s) else changed_by s at c) ≡ ok r
    → ByChild s at r
maybe-ByChild true s at c allowed h = subst (ByChild s at) (ok-injective h) (unchanged-ByChild s at)
maybe-ByChild false s at c allowed h = changed_by-ByChild s at c allowed h

apply_body-ByChild :
    (s : AgentState) (m : MessageBody) (at : ℕ) {r : AgentMessageStateResult}
    → apply_body s m at ≡ ok r
    → ByChild s at r
unfolding apply_body
apply_body-ByChild s (session_started i none) at h =
    subst (ByChild s at) (ok-injective h) (unchanged-ByChild s at)
apply_body-ByChild s (session_started i (some path)) at h =
    maybe-ByChild _ s at (Agent.session_ready path) refl h
apply_body-ByChild s (operation_started task) at h =
    changed_by-ByChild s at (Agent.operation_started _) refl h
apply_body-ByChild s (operation_progress task output) at h =
    changed_by-ByChild s at Agent.heartbeat refl h
apply_body-ByChild s (operation_completed task succeeded revision) at h =
    complete_operation-ByChild s succeeded at h
apply_body-ByChild s (heartbeat elapsed revision) at h =
    changed_by-ByChild s at Agent.heartbeat refl h
apply_body-ByChild s (agent_blocked reason detail) at h =
    maybe-ByChild _ s at (Agent.agent_blocked detail) refl h
apply_body-ByChild s (agent_unblocked operation) at h = elim (Bool-cases (is_blocked s.status)) [
  | inl stuck ↦ changed_by-ByChild s at (Agent.agent_unblocked operation) refl (rw stuck at h)
  | inr free ↦ subst (ByChild s at) (ok-injective (rw free at h)) (unchanged-ByChild s at)
]
apply_body-ByChild s (session_shutdown i) at h =
    subst (ByChild s at) (ok-injective h) (unchanged-ByChild s at)
apply_body-ByChild s candidate_ready at h =
    subst (ByChild s at) (ok-injective h) (unchanged-ByChild s at)
apply_body-ByChild s (review_submitted o c i) at h =
    subst (ByChild s at) (ok-injective h) (unchanged-ByChild s at)
apply_body-ByChild s (supervisor_nudge reason) at h = absurd (cc)
apply_body-ByChild s (supervisor_completion o r) at h = absurd (cc)
apply_body-ByChild s (supervisor_error c m) at h = absurd (cc)

-- A message that is accepted is of this very run and agent, and amounts to a list of transitions
-- that a child may ask for: never a launch, a completion, a recovery, a lost pane, a nudge or a
-- closing. The result says whether that list is empty.
pub apply_agent_message-ByChild :
    (s : AgentState) (m : AgentMessage) (at : ℕ) {r : AgentMessageStateResult}
    → apply_agent_message s m at ≡ ok r
    → (m.run_id ≡ s.run_id) × (m.agent_id ≡ s.id) × ByChild s at r
unfolding apply_agent_message
apply_agent_message-ByChild s m at h = (
  ground (arith, eq_iff m.run_id s.run_id),
  ground (arith, eq_iff m.agent_id s.id),
  apply_body-ByChild s m.body at (ground arith),
)

-- An accepted message keeps a well-formed agent well formed.
pub apply_agent_message-IsWellFormed :
    (s : AgentState) (m : AgentMessage) (at : ℕ) {r : AgentMessageStateResult}
    → IsWellFormed s
    → apply_agent_message s m at ≡ ok r
    → IsWellFormed r.agent
apply_agent_message-IsWellFormed s m at w h =
    let by = (apply_agent_message-ByChild s m at h).2 in
    replay-IsWellFormed s (at_time at by.changes) w by.made
