-- ===== src/Supervision/Nudges.antt =====
-- When a text is sent to a pane.
use pi_agentworks.Prelude.{
  ℕ, String, ◌≡◌, refl, ◌⊎◌, inl, inr, Bool, true, Option, none, some, List, [], ◌∷◌, arith, In,
  Bool-cases,
}
use pi_agentworks.Agent.{AgentState}
use pi_agentworks.Agent.Liveness.{
  LivenessDecision, leave, nudge, escalate, assess_agent_liveness, default_liveness_policy,
}
use pi_agentworks.Store.{Database, FencedWrite, Snapshot}
use pi_agentworks.Store.Passed.{text_of_owner}
use pi_agentworks.Supervision.{
  PaneTokens, Supervision, SupervisionPayload, owns_pane, nudge_pane, supervise_agent,
  supervise_agents, supervise,
}

module _ (get_pane : String → Option PaneTokens) (send_text : String → Bool) (clock : ℕ)
    (uuid : String) (decimal : ℕ → String) (json : SupervisionPayload → String)
    (hash : String → String) where
  -- The agent is due for a nudge, and the pane, as it is found, carries the tokens of the run and the
  -- agent.
  pub record IsNudged (run_id pane_id : String) (now : ℕ) (current : AgentState) : Type 0 where
    pub attempt : ℕ
    pub due : assess_agent_liveness current now default_liveness_policy ≡ nudge attempt
    pub pane : current.pane_id ≡ some pane_id
    pub tokens : PaneTokens
    pub present : get_pane pane_id ≡ some tokens
    pub of_kind : tokens.aw_kind ≡ some "agent"
    pub of_run : tokens.aw_run ≡ some run_id
    pub of_agent : tokens.aw_agent ≡ some current.id

  nudge_pane-sent :
      (db : Database) (snapshot : Snapshot) (write : FencedWrite) (current : AgentState)
      (attempt : ℕ) (pane_id : String) (pane : Option PaneTokens) {sent_to : String}
      → (nudge_pane get_pane send_text clock uuid decimal json hash db snapshot write current
          attempt pane_id pane).sent
        ≡ some sent_to
      → (tokens : PaneTokens) × (pane ≡ some tokens)
        × (pane_id ≡ sent_to)
        × (owns_pane snapshot.run.id current tokens ≡ true)
  unfolding nudge_pane
  nudge_pane-sent db snapshot write current attempt pane_id none h = absurd (cc)
  nudge_pane-sent db snapshot write current attempt pane_id (some tokens) h =
      elim (Bool-cases (owns_pane snapshot.run.id current tokens)) [
        | inl own ↦ (tokens, refl, ground (arith, rw own at h), own)
        | inr other ↦ absurd (ground (arith, rw other at h))
      ]

  supervise_agent-sent :
      (db : Database) (snapshot : Snapshot) (write : FencedWrite) (current : AgentState)
      (decision : LivenessDecision) (pane : Option String) (later : Supervision) {sent_to : String}
      → assess_agent_liveness current write.now default_liveness_policy ≡ decision
      → current.pane_id ≡ pane
      → (supervise_agent get_pane send_text clock uuid decimal json hash db snapshot write current
          decision pane later).sent
        ≡ some sent_to
      → IsNudged snapshot.run.id sent_to write.now current ⊎ (later.sent ≡ some sent_to)
  unfolding supervise_agent
  supervise_agent-sent db snapshot write current (leave reason) pane later due in_pane h = inr h
  supervise_agent-sent db snapshot write current (escalate reason) pane later due in_pane h =
      absurd (cc)
  supervise_agent-sent db snapshot write current (nudge attempt) none later due in_pane h = inr h
  supervise_agent-sent db snapshot write current (nudge attempt) (some pane_id) later due in_pane
        h =
      let (tokens, present, same, own) =
        nudge_pane-sent db snapshot write current attempt pane_id (get_pane pane_id) h in
      inl (record {
        attempt = attempt;
        due = due;
        pane = rw (← same) in_pane;
        tokens = tokens;
        present = rw (← same) present;
        of_kind = text_of_owner tokens.aw_kind "agent" (ground (arith, own));
        of_run = text_of_owner tokens.aw_run snapshot.run.id (ground (arith, own));
        of_agent = text_of_owner tokens.aw_agent current.id (ground (arith, own));
      })

  supervise_agents-sent :
      (db : Database) (snapshot : Snapshot) (write : FencedWrite) (agents : List AgentState)
      {sent_to : String}
      → (supervise_agents get_pane send_text clock uuid decimal json hash db snapshot write
          agents).sent
        ≡ some sent_to
      → (current : AgentState) × In current agents
        × IsNudged snapshot.run.id sent_to write.now current
  unfolding supervise_agents
  supervise_agents-sent db snapshot write [] h = absurd (cc)
  supervise_agents-sent db snapshot write (current ∷ agents) h =
      elim (supervise_agent-sent db snapshot write current
        (assess_agent_liveness current write.now default_liveness_policy) current.pane_id
        (supervise_agents get_pane send_text clock uuid decimal json hash db snapshot write agents)
        refl refl h) [
          | inl here ↦ (current, In.here, here)
          | inr there ↦
              let (other, i, found) = supervise_agents-sent db snapshot write agents there in
              (other, In.there i, found)
        ]

  -- If the supervision of a snapshot sends a text to a pane, then the pane is that of an agent of the
  -- snapshot that the liveness decision nudges, and carries the tokens of this run and this agent.
  pub supervise-IsNudged :
      (db : Database) (snapshot : Snapshot) (write : FencedWrite) {sent_to : String}
      → (supervise get_pane send_text clock uuid decimal json hash db snapshot write).sent
        ≡ some sent_to
      → (current : AgentState) × In current snapshot.agents
        × IsNudged snapshot.run.id sent_to write.now current
  unfolding supervise
  supervise-IsNudged db snapshot write h = supervise_agents-sent db snapshot write snapshot.agents h
