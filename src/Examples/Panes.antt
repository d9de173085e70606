-- ===== src/Examples/Panes.antt =====
-- The theorems on quitting and on lost panes, at a finished run and at an agent without its pane.
use pi_agentworks.Prelude.{◌≡◌, ◌↔◌, true, some, List, [], ◌∷◌, In}
use pi_agentworks.ManagementQuit.{assess_management_quit_readiness}
use pi_agentworks.ManagementQuit.Readiness.{CanQuit, can_quit_iff}
use pi_agentworks.Connection.{
  ExpectedAgentPane, LivePaneEvidence, AgentConnectionAssessment, assess_agent_connections,
  agents_needing_restoration, decide, disconnected, resume_session,
}
use pi_agentworks.Connection.Restoration.{IsLost, In-agents_needing_restoration_iff}
use pi_agentworks.Examples.StoreData.{the_run, the_story, the_agent}

can_quit_iff_example :
    ((assess_management_quit_readiness the_run (the_story ∷ []) (the_agent ∷ [])).can_quit ≡ true)
    ↔ CanQuit the_run (the_story ∷ []) (the_agent ∷ [])
can_quit_iff_example = can_quit_iff the_run (the_story ∷ []) (the_agent ∷ [])

abbrev expected : List ExpectedAgentPane
expected =
    record {
      agent_id = "a1";
      pane_id = "p1";
      ownership_token = "t1";
      session_present = true;
      status = "working";
    }
    ∷ []

abbrev panes : List LivePaneEvidence
panes = record { pane_id = "p1"; ownership_token = some "t2" } ∷ []

abbrev lost : AgentConnectionAssessment
lost = decide "a1" disconnected resume_session "pane ownership token no longer matches"

In-agents_needing_restoration_iff_example :
    In lost (agents_needing_restoration (assess_agent_connections expected panes))
    ↔ ((agent : ExpectedAgentPane) × In agent expected × IsLost panes agent lost)
In-agents_needing_restoration_iff_example = In-agents_needing_restoration_iff expected panes lost
