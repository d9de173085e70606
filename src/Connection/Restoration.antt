-- ===== src/Connection/Restoration.antt =====
-- Exactly the active agents without their own pane are restored.
use pi_agentworks.Prelude.{
  String, ◌≡◌, refl, ◌≢◌, ◌↔◌, ◌⊎◌, inl, inr, ◌∙◌, sym, ap, Bool, true, Option, none, some, List,
  [], ◌∷◌, map, arith, In, In-cons_cases, not_In_nil, In-filter, In-filter_of_In, In-map,
  In-map_of_In, Bool-cases, Option-cases, eq_iff, str_eq, if◌then◌else◌,
}
use pi_agentworks.StoryPlan.Counting.{includes_iff}
use pi_agentworks.Connection.{
  ExpectedAgentPane, LivePaneEvidence, AgentConnectionAssessment, disconnected, resume_session,
  relaunch_fresh, is_active, live_by_id, is_token, restoration_for, assess_pane, assess_agent,
  assess_agent_connections, needs_restoration, agents_needing_restoration,
}

-- The pane is one of the list, and is the last one there with this id.
abbrev pub IsLast : String → LivePaneEvidence → List LivePaneEvidence → Type 0
IsLast id pane [] = ⊥
IsLast id pane (p ∷ panes) =
    ((p ≡ pane) × (p.pane_id ≡ id) × ((q : LivePaneEvidence) → In q panes → q.pane_id ≢ id))
    ⊎ IsLast id pane panes

-- An active agent without its own pane, and what is found out about it.
pub record IsLost (live_panes : List LivePaneEvidence) (agent : ExpectedAgentPane)
    (a : AgentConnectionAssessment) : Type 0 where
  pub active :
      In agent.status (
        "launching" ∷ "working" ∷ "reviewing" ∷ "idle" ∷ "waiting" ∷ "blocked" ∷ "disconnected"
        ∷ [])
  pub agent_id : a.agent_id ≡ agent.agent_id
  pub connection : a.connection ≡ disconnected
  pub restoration :
      a.restoration ≡ (if agent.session_present then resume_session else relaunch_fresh)
  pub reason :
      ((a.reason ≡ "owned pane is gone")
        × ((p : LivePaneEvidence) → In p live_panes → p.pane_id ≢ agent.pane_id))
      ⊎ ((a.reason ≡ "pane ownership token no longer matches")
          × (p : LivePaneEvidence) × IsLast agent.pane_id p live_panes
          × (p.ownership_token ≢ some agent.ownership_token))

live_by_id-none_iff :
    (panes : List LivePaneEvidence) (id : String)
    → (live_by_id panes id ≡ none) ↔ ((p : LivePaneEvidence) → In p panes → p.pane_id ≢ id)
unfolding live_by_id
live_by_id-none_iff [] id = (λ h p i. absurd (not_In_nil i), λ h. refl)
live_by_id-none_iff (p ∷ panes) id = (
  λ h q i. elim (Option-cases (live_by_id panes id)) [
    | inr (r, later) ↦ absurd (ground (arith, rw later at h))
    | inl missing ↦ elim (In-cons_cases i) [
      | inl same ↦ λ e. ground (arith, rw missing at h, eq_iff p.pane_id id, same, e)
      | inr j ↦ (live_by_id-none_iff panes id).0 missing q j
    ]
  ],
  λ h.
      let rest = (live_by_id-none_iff panes id).1 (λ q i. h q (In.there i)) in
      rw rest (elim (Bool-cases (str_eq p.pane_id id)) [
        | inl same ↦ absurd (h p In.here ((eq_iff p.pane_id id).0 same))
        | inr other ↦ rw other refl
      ]),
)

IsLast-live_by_id :
    (panes : List LivePaneEvidence) (id : String) {p : LivePaneEvidence}
    → live_by_id panes id ≡ some p
    → IsLast id p panes
unfolding live_by_id
IsLast-live_by_id [] id h = absurd (cc)
IsLast-live_by_id (q ∷ panes) id {p} h = elim (Option-cases (live_by_id panes id)) [
  | inr (r, later) ↦ inr (IsLast-live_by_id panes id (later ∙ (rw later at h)))
  | inl missing ↦ elim (Bool-cases (str_eq q.pane_id id)) [
    | inl same ↦ inl (
      ground (arith, rw (missing, same) at h),
      (eq_iff q.pane_id id).0 same,
      (live_by_id-none_iff panes id).0 missing,
    )
    | inr other ↦ absurd (ground (arith, rw (missing, other) at h))
  ]
]

live_by_id_of_last :
    (panes : List LivePaneEvidence) (id : String) {p : LivePaneEvidence}
    → IsLast id p panes
    → live_by_id panes id ≡ some p
unfolding live_by_id
live_by_id_of_last [] id h = absurd h
live_by_id_of_last (q ∷ panes) id (inl (same, named, unseen)) =
    rw ((live_by_id-none_iff panes id).1 unseen, (eq_iff q.pane_id id).1 named) (ap some same)
live_by_id_of_last (q ∷ panes) id (inr later) = rw (live_by_id_of_last panes id later) refl

token_iff :
    (token : Option String) (expected : String)
    → (is_token token expected ≡ true) ↔ (token ≡ some expected)
token_iff none expected = (λ h. absurd (cc), λ h. absurd (cc))
token_iff (some t) expected =
    (λ h. ap some ((eq_iff t expected).0 h), λ h. (eq_iff t expected).1 (ground (arith, h)))

-- The assessment of an agent without its own pane, by the pane that is found.
abbrev IsPaneLost : ExpectedAgentPane → Option LivePaneEvidence → AgentConnectionAssessment → Type 0
IsPaneLost agent pane a =
    (a.agent_id ≡ agent.agent_id)
    × (a.connection ≡ disconnected)
    × (a.restoration ≡ (if agent.session_present then resume_session else relaunch_fresh))
    × (((a.reason ≡ "owned pane is gone") × (pane ≡ none))
        ⊎ ((a.reason ≡ "pane ownership token no longer matches")
            × (p : LivePaneEvidence) × (pane ≡ some p)
            × (p.ownership_token ≢ some agent.ownership_token)))

assess_pane_lost :
    (agent : ExpectedAgentPane) (pane : Option LivePaneEvidence)
    → needs_restoration (assess_pane agent pane).restoration ≡ true
    → IsPaneLost agent pane (assess_pane agent pane)
assess_pane_lost agent none h = (refl, refl, refl, inl (refl, refl))
assess_pane_lost agent (some pane) h =
    elim (Bool-cases (is_token pane.ownership_token agent.ownership_token)) [
      | inl own ↦ absurd (ground (arith, rw own at h))
      | inr other ↦ rw other (
        refl,
        refl,
        refl,
        inr (
          refl,
          pane,
          refl,
          λ e. ground (arith, other, (token_iff pane.ownership_token agent.ownership_token).1 e),
        ),
      )
    ]

restoration_for_needs : (present : Bool) → needs_restoration (restoration_for present) ≡ true
restoration_for_needs present = ground arith

assess_pane_of_lost :
    (agent : ExpectedAgentPane) (pane : Option LivePaneEvidence) (a : AgentConnectionAssessment)
    → IsPaneLost agent pane a
    → (a ≡ assess_pane agent pane) × (needs_restoration a.restoration ≡ true)
assess_pane_of_lost agent none a (named, state, action, inl (why, missing)) =
    (ground (arith, named, state, action, why), action_needs)
  where
    action_needs : needs_restoration a.restoration ≡ true
    action_needs = rw action (restoration_for_needs agent.session_present)
assess_pane_of_lost agent none a (named, state, action, inr (why, p, there, lost)) = absurd (cc)
assess_pane_of_lost agent (some pane) a (named, state, action, inl (why, missing)) = absurd (cc)
assess_pane_of_lost agent (some pane) a (named, state, action, inr (why, p, there, lost)) =
    elim (Bool-cases (is_token pane.ownership_token agent.ownership_token)) [
      | inl own ↦ absurd (
          ground (arith, there, lost, (token_iff pane.ownership_token agent.ownership_token).0 own))
      | inr other ↦ rw other (
        ground (arith, named, state, action, why),
        rw action (restoration_for_needs agent.session_present),
      )
    ]

IsLost-of_IsPaneLost :
    (live_panes : List LivePaneEvidence) (agent : ExpectedAgentPane) (a : AgentConnectionAssessment)
    → is_active agent.status ≡ true
    → IsPaneLost agent (live_by_id live_panes agent.pane_id) a
    → IsLost live_panes agent a
IsLost-of_IsPaneLost live_panes agent a active (named, state, action, why) = record {
  active = (includes_iff _ agent.status).0 active;
  agent_id = named;
  connection = state;
  restoration = action;
  reason = elim why [
    | inl (gone, missing) ↦ inl (gone, (live_by_id-none_iff live_panes agent.pane_id).0 missing)
    | inr (stale, p, there, lost) ↦
        inr (stale, p, IsLast-live_by_id live_panes agent.pane_id there, lost)
  ];
}

IsPaneLost-of_IsLost :
    (live_panes : List LivePaneEvidence) (agent : ExpectedAgentPane) (a : AgentConnectionAssessment)
    → IsLost live_panes agent a
    → IsPaneLost agent (live_by_id live_panes agent.pane_id) a
IsPaneLost-of_IsLost live_panes agent a l = (
  l.agent_id,
  l.connection,
  l.restoration,
  elim l.reason [
    | inl (gone, unseen) ↦ inl (gone, (live_by_id-none_iff live_panes agent.pane_id).1 unseen)
    | inr (stale, p, last, lost) ↦
        inr (stale, p, live_by_id_of_last live_panes agent.pane_id last, lost)
  ],
)

assess_agent-IsLost_iff :
    (live_panes : List LivePaneEvidence) (agent : ExpectedAgentPane) (a : AgentConnectionAssessment)
    → ((a ≡ assess_agent live_panes agent) × (needs_restoration a.restoration ≡ true))
      ↔ IsLost live_panes agent a
unfolding assess_agent
assess_agent-IsLost_iff live_panes agent a = (
  λ (same, needed). elim (Bool-cases (is_active agent.status)) [
    | inr other ↦ absurd (ground (arith, rw (same, other) at needed))
    | inl active ↦
        let assessed = assess_pane agent (live_by_id live_panes agent.pane_id) in
        let is : a ≡ assessed = same ∙ rw active refl in
        IsLost-of_IsPaneLost live_panes agent a active
          (rw is (assess_pane_lost agent (live_by_id live_panes agent.pane_id) (rw is at needed)))
  ],
  λ l.
      let (same, needed) =
        assess_pane_of_lost agent (live_by_id live_panes agent.pane_id) a
          (IsPaneLost-of_IsLost live_panes agent a l) in
      (rw ((includes_iff _ agent.status).1 l.active) same, needed),
)

-- Given expected agent panes and live panes, an assessment is among the assessments that need
-- restoration exactly if it is the one of an expected agent with one of the seven active statuses,
-- says that this agent is disconnected, resumes its session if it has one and launches it afresh if
-- not, and gives as its reason that the pane is gone, where no live pane has the agent's pane id, or
-- that the ownership token no longer matches, where the last live pane with that id does not have
-- the agent's token.
pub In-agents_needing_restoration_iff :
    (expected : List ExpectedAgentPane) (live_panes : List LivePaneEvidence)
    (a : AgentConnectionAssessment)
    → In a (agents_needing_restoration (assess_agent_connections expected live_panes))
      ↔ ((agent : ExpectedAgentPane) × In agent expected × IsLost live_panes agent a)
unfolding assess_agent_connections agents_needing_restoration
In-agents_needing_restoration_iff expected live_panes a = (
  λ i.
      let (j, needed) = In-filter _ _ i in
      let (agent, k, same) = In-map (assess_agent live_panes) expected j in
      (agent, k, (assess_agent-IsLost_iff live_panes agent a).0 (sym same, needed)),
  λ (agent, k, lost).
      let (same, needed) = (assess_agent-IsLost_iff live_panes agent a).1 lost in
      In-filter_of_In (λ (x : AgentConnectionAssessment). needs_restoration x.restoration)
        (map (assess_agent live_panes) expected)
        (rw same (In-map_of_In (assess_agent live_panes) k)) needed,
)
