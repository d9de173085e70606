-- ===== src/Agent/Liveness.antt =====
-- When an idle agent is nudged, and when its silence is escalated (assessAgentLiveness of
-- src/domain/controller-state.ts).
use Prim.Native.String
use pi_agentworks.Prelude.{
  ℕ, ◌+◌, ◌-◌, ◌≤◌, ◌<◌, min, String, ◌≡◌, refl, ◌∙◌, ◌↔◌, ◌⊎◌, inl, inr, Bool-cases, Option-cases,
  Bool, true, false, ◌||◌, Option, none, some, List, [], ◌∷◌, arith, length, get_elem?,
  get_elem?_of_lt, is_some, ltb, leb, ◌==◌, if◌then◌else◌,
}
use pi_agentworks.Errors.{ok, non_empty-cases}
use pi_agentworks.Agent.{
  AgentStatus, idle, AgentState, status_name, operation_started, operation_finished,
}
use pi_agentworks.Agent.Change.{apply_agent_change, transition_agent}
use pi_agentworks.Agent.Invariant.{IsRecorded}
use pi_agentworks.Trace.{replay}

pub record LivenessPolicy : Type 0 where
  pub quiet_period_ms : ℕ
  pub nudge_backoff_ms : List ℕ

-- `leave` is the action "none".
pub data LivenessDecision : Type 0 where
  leave : (reason : String) → LivenessDecision
  nudge : (attempt : ℕ) → LivenessDecision
  escalate : (reason : String) → LivenessDecision

abbrev pub default_liveness_policy : LivenessPolicy
default_liveness_policy = record {
  quiet_period_ms = 90000;
  nudge_backoff_ms = 90000 ∷ 180000 ∷ 300000 ∷ [];
}

abbrev pub is_idle : AgentStatus → Bool
is_idle idle = true
is_idle _ = false

-- `a ?? b`
abbrev pub coalesce : Option ℕ → ℕ → ℕ
coalesce none b = b
coalesce (some a) b = a

abbrev pub reference_time : AgentState → ℕ
reference_time agent = coalesce agent.last_nudge_at agent.last_meaningful_activity_at

-- `nudgeBackoffMs[Math.min(nudgeCount - 1, length - 1)]`; an empty array has no element at -1.
unfoldable pub required_delay : LivenessPolicy → ℕ → Option ℕ
required_delay policy nudge_count =
    if nudge_count == 0
    then some policy.quiet_period_ms
    else get_elem? policy.nudge_backoff_ms
        (min (nudge_count - 1) (length policy.nudge_backoff_ms - 1))

-- The part after the tests on the agent's state. `now - referenceTime < requiredDelay` is written
-- as a sum, since the difference may be negative.
unfoldable pub decide_nudge : AgentState → ℕ → LivenessPolicy → LivenessDecision
decide_nudge agent now policy = elim (required_delay policy agent.nudge_count) [
  | none ↦ escalate "liveness policy has no nudge delay"
  | some delay ↦
      if ltb now (reference_time agent + delay)
      then leave "quiet threshold has not elapsed"
      else (if leb (length policy.nudge_backoff_ms) agent.nudge_count
          then escalate "bounded liveness nudges exhausted"
          else nudge (agent.nudge_count + 1))
]

unfoldable pub assess_agent_liveness : AgentState → ℕ → LivenessPolicy → LivenessDecision
unfolding decide_nudge
assess_agent_liveness agent now policy =
    if is_idle agent.status
    then (if is_some agent.current_operation
          || is_some agent.waiting_reason
          || is_some agent.blocked_reason
        then leave "agent has an active operation or attention state"
        else decide_nudge agent now policy)
    else leave (String.◌++◌ "agent state is " (status_name agent.status))

abbrev pub is_escalation : LivenessDecision → Bool
is_escalation (escalate reason) = true
is_escalation _ = false

-- How long the agent has to be quiet before the next nudge or the escalation.
abbrev pub HasElapsed : AgentState → ℕ → LivenessPolicy → Type 0
HasElapsed agent now policy = elim (required_delay policy agent.nudge_count) [
  | none ↦ Unit
  | some delay ↦ reference_time agent + delay ≤ now
]

required_delay_some :
    (policy : LivenessPolicy) (n : ℕ)
    → n < length policy.nudge_backoff_ms
    → is_some (required_delay policy n) ≡ true
unfolding required_delay
required_delay_some policy n h = ground (
  arith,
  get_elem?_of_lt policy.nudge_backoff_ms (min (n - 1) (length policy.nudge_backoff_ms - 1)),
)

later_delay :
    (policy : LivenessPolicy) (count n : ℕ)
    → count ≡ n + 1
    → count < length policy.nudge_backoff_ms
    → required_delay policy count ≡ get_elem? policy.nudge_backoff_ms n
unfolding required_delay
later_delay policy count n counted few =
    let place : min (count - 1) (length policy.nudge_backoff_ms - 1) ≡ n =
      omega (arith, few, counted) in
    let other : (count == 0) ≡ false = ground (arith, counted) in rw (other, place) refl

-- The nudge is due, by the fields of the agent and the numbers of the policy alone: for the first,
-- the quiet period has passed since the last meaningful activity; for a later one, that delay of
-- the policy which has the place of the last nudge has passed since the last nudge.
abbrev pub IsDue : AgentState → ℕ → LivenessPolicy → Type 0
IsDue agent now policy =
    ((agent.nudge_count ≡ 0) × (agent.last_meaningful_activity_at + policy.quiet_period_ms ≤ now))
    ⊎ ((n t delay : ℕ) × (agent.nudge_count ≡ n + 1)
        × (agent.last_nudge_at ≡ some t)
        × (get_elem? policy.nudge_backoff_ms n ≡ some delay)
        × (t + delay ≤ now))

module _ (agent : AgentState) (now : ℕ) (policy : LivenessPolicy) (w : IsRecorded agent) where
  HasElapsed-of_due :
      agent.nudge_count < length policy.nudge_backoff_ms
      → IsDue agent now policy
      → HasElapsed agent now policy
  unfolding required_delay
  HasElapsed-of_due few (inl (none_yet, quiet)) = ground (arith, w.nudged)
  HasElapsed-of_due few (inr (n, t, delay, counted, nudged_at, delay_is, quiet)) =
      let e = later_delay policy agent.nudge_count n counted few ∙ delay_is in
      ground (arith, e, nudged_at, quiet)

  IsDue-of_HasElapsed :
      agent.nudge_count < length policy.nudge_backoff_ms
      → HasElapsed agent now policy
      → IsDue agent now policy
  unfolding required_delay
  IsDue-of_HasElapsed few h = elim (Bool-cases (agent.nudge_count == 0)) [
    | inl first ↦ inl (ground (arith, first), ground (arith, first, h, w.nudged))
    | inr later ↦
        let n = agent.nudge_count - 1 in
        let counted : agent.nudge_count ≡ n + 1 = ground (arith, later) in
        let (delay, delay_is) =
          get_elem?_of_lt policy.nudge_backoff_ms n (omega (arith, few, counted)) in
        elim (Option-cases agent.last_nudge_at) [
          | inl never ↦ absurd (ground (arith, never, later, w.nudged))
          | inr (t, nudged_at) ↦
              let e = later_delay policy agent.nudge_count n counted few ∙ delay_is in
              inr (n, t, delay, counted, nudged_at, delay_is, ground (arith, e, nudged_at, h))
        ]
  ]

  nudge-HasElapsed_iff :
      (k : ℕ)
      → (assess_agent_liveness agent now policy ≡ nudge k) ↔ (
          (agent.status ≡ idle)
          × (agent.nudge_count < length policy.nudge_backoff_ms)
          × HasElapsed agent now policy
          × (k ≡ agent.nudge_count + 1))
  unfolding assess_agent_liveness
  nudge-HasElapsed_iff k =
      (λ h. ground arith, λ h. ground (arith, required_delay_some policy agent.nudge_count))

  -- A well-formed agent gets a nudge exactly if it is idle, has had fewer nudges than the policy has
  -- delays, and the nudge is due; the attempt is then the next one. The first nudge is due once the
  -- quiet period has passed since the last meaningful activity, and each later one once the policy's
  -- delay with the number of the last nudge has passed since that nudge, whatever came in between.
  pub assess-nudge_iff :
      (k : ℕ)
      → (assess_agent_liveness agent now policy ≡ nudge k) ↔ (
          (agent.status ≡ idle)
          × (agent.nudge_count < length policy.nudge_backoff_ms)
          × IsDue agent now policy
          × (k ≡ agent.nudge_count + 1))
  assess-nudge_iff k =
      let e = nudge-HasElapsed_iff k in
      (
        λ h.
            let (is_idle_now, few, elapsed, attempt) = e.0 h in
            (is_idle_now, few, IsDue-of_HasElapsed few elapsed, attempt),
        λ (is_idle_now, few, due, attempt).
            e.1 (is_idle_now, few, HasElapsed-of_due few due, attempt),
      )

  -- A well-formed agent is escalated exactly if it is idle, has had as many nudges as the policy has delays or
  -- more, and has been quiet for the last of those delays (at once, if the policy has none and the
  -- agent was nudged before).
  pub assess-escalate_iff : (is_escalation (assess_agent_liveness agent now policy) ≡ true) ↔ (
      (agent.status ≡ idle)
      × (length policy.nudge_backoff_ms ≤ agent.nudge_count)
      × HasElapsed agent now policy)
  unfolding assess_agent_liveness
  assess-escalate_iff = (
    λ h. ground (arith, required_delay_some policy agent.nudge_count),
    λ h. ground (arith, required_delay_some policy agent.nudge_count),
  )

-- Once an agent has been nudged, the decision looks only at the time of the last nudge: an
-- operation that the idle agent starts and finishes in the meantime does not change it, however
-- recent it is.
pub assess_ignores_activity :
    (agent busy : AgentState) (operation : String) (start finish now : ℕ) (policy : LivenessPolicy)
    → IsRecorded agent
    → 0 < agent.nudge_count
    → replay transition_agent agent (
        record { at = start; change = operation_started operation }
        ∷ record { at = finish; change = operation_finished }
        ∷ [])
      ≡ ok busy
    → assess_agent_liveness busy now policy ≡ assess_agent_liveness agent now policy
unfolding replay transition_agent apply_agent_change assess_agent_liveness
assess_ignores_activity agent busy operation start finish now policy w n h =
    ground (arith, non_empty-cases operation "operation")
