-- ===== src/Examples/Supervisions.antt =====
-- The theorem on nudges, at an idle agent in its own pane.
use pi_agentworks.Prelude.{ℕ, String, ◌≡◌, refl, Bool, true, some, Option, [], ◌∷◌, In}
use pi_agentworks.Agent.{AgentState, idle}
use pi_agentworks.Agent.Liveness.{assess_agent_liveness, decide_nudge, required_delay}
use pi_agentworks.Store.{Snapshot}
use pi_agentworks.Store.Reachable.{new_database}
use pi_agentworks.Supervision.{
  PaneTokens, SupervisionPayload, supervise, supervise_agents, supervise_agent, nudge_pane,
}
use pi_agentworks.Supervision.Nudges.{IsNudged, supervise-IsNudged}
use pi_agentworks.Examples.StoreData.{the_run, the_agent, write_at}

abbrev idle_agent : AgentState
idle_agent = record the_agent { status = idle; pane_id = some "p1" }

abbrev snapshot : Snapshot
snapshot = record { revision = 1; run = the_run; stories = []; agents = idle_agent ∷ [] }

abbrev get_pane : String → Option PaneTokens
get_pane pane_id =
    some (record { aw_kind = some "agent"; aw_run = some "r1"; aw_agent = some "a1" })

abbrev send_text : String → Bool
send_text pane_id = true

abbrev decimal : ℕ → String
decimal n = "1"

abbrev json : SupervisionPayload → String
json payload = "{}"

abbrev hash : String → String
hash id = id

sent :
    (supervise get_pane send_text 200001 "u1" decimal json hash new_database snapshot
      (write_at 200000)).sent
    ≡ some "p1"
unfolding supervise supervise_agents supervise_agent nudge_pane assess_agent_liveness decide_nudge
    required_delay
sent = refl

supervise-IsNudged_example :
    (current : AgentState) × In current (idle_agent ∷ [])
    × IsNudged get_pane send_text 200001 "u1" decimal json hash "r1" "p1" 200000 current
supervise-IsNudged_example =
    supervise-IsNudged get_pane send_text 200001 "u1" decimal json hash new_database snapshot
      (write_at 200000) sent
