-- ===== src/Store/Launches.antt =====
-- The two operations on an agent's pane that write the agent's row: materializeAgentLaunch and
-- bindAgentPaneRestoration. The tables agent_launches and agent_pane_restorations, which no other
-- part of the model reads, are not kept: what these operations read of them, and whether their own
-- rows can be written there, is an argument, which can be any answer.
use Prim.Native.Char.{code}
use pi_agentworks.Prelude.{
  ℕ, zero, suc, String, Bool, true, false, not, ◌&&◌, ◌||◌, Option, none, some, List, [], ◌∷◌,
  if◌then◌else◌, leb, ◌==◌, str_eq, is_some,
}
use pi_agentworks.Errors.{
  failed, stale_writer_lease, integrity, max_safe_integer, Result, ok, ◌>>=◌, ◌>>◌,
}
use pi_agentworks.Agent.{
  AgentState, AgentChange, planned, launching, disconnected, launch_requested, pane_lost,
  recovery_requested, includes,
}
use pi_agentworks.Agent.Change.{transition_agent}
use pi_agentworks.Schemas.{is_agent_state}
use pi_agentworks.Store.{Database, RunTables, FencedWrite, non_empty, check, found}
use pi_agentworks.Store.Lease.{assert_fence, is_text}
use pi_agentworks.Store.Tables.{select, upsert}
use pi_agentworks.Store.Validation.{agent_id}
use pi_agentworks.Store.Writers.{store, assert_agent_slot_available}

-- A row of agent_launches, as parseAgentLaunch reads it.
pub record LaunchRow : Type 0 where
  pub pane_id : String
  pub session_id : String
  pub slot : Option ℕ
  pub confirmed : Bool

-- A row of agent_pane_restorations, as parseAgentPaneRestoration reads it.
pub record RestorationRow : Type 0 where
  pub restoration_id : String
  pub prior_pane_id : String
  pub replacement_pane_id : Option String
  pub session_id : String

pub record LaunchInput : Type 0 where
  pub write : FencedWrite
  pub agent : AgentState
  pub pane_id : String
  pub session_id : String
  pub slot : Option ℕ

-- The answers of the tables that are not kept: the agent's row in agent_launches, whether another
-- agent that is not closed has the slot, and whether a row can be inserted.
pub record LaunchAnswers : Type 0 where
  pub reservation : Option LaunchRow
  pub slot_taken : Bool
  pub inserted : Result (Unit {0})

pub record BindInput : Type 0 where
  pub write : FencedWrite
  pub run_id : String
  pub agent_id : String
  pub restoration_id : String
  pub replacement_pane_id : String

-- The agent's rows in agent_pane_restorations and agent_launches, which are parsed, and whether
-- they can be updated.
pub record BindAnswers : Type 0 where
  pub restoration : Result (Option RestorationRow)
  pub launch : Result (Option LaunchRow)
  pub updated : Result (Unit {0})

-- `[0-9a-f]`, in either case
abbrev pub is_hex : ℕ → Bool
is_hex c = (leb b'0' c && leb c b'9') || (leb b'a' c && leb c b'f') || (leb b'A' c && leb c b'F')

abbrev pub is_dash : ℕ → Bool
is_dash c = c == b'-'

abbrev pub times : ℕ → (ℕ → Bool) → List (ℕ → Bool) → List (ℕ → Bool)
times zero test tests = tests
times (suc n) test tests = test ∷ times n test tests

abbrev pub matches : List (ℕ → Bool) → String → Bool
matches [] String.[] = true
matches [] (String.◌∷◌ c s) = false
matches (test ∷ tests) String.[] = false
matches (test ∷ tests) (String.◌∷◌ c s) = test (code c) && matches tests s

-- `SESSION_ID_PATTERN.test(sessionId)`
unfoldable pub is_session_id : String → Bool
is_session_id text =
    matches
      (times 8 is_hex (
        is_dash
        ∷ times 4 is_hex (
            is_dash
            ∷ (λ c. leb b'1' c && leb c b'8')
            ∷ times 3 is_hex (
                is_dash
                ∷ (λ c. c == b'8' || c == b'9' || c == b'a' || c == b'b' || c == b'A' || c == b'B')
                ∷ times 3 is_hex (is_dash ∷ times 12 is_hex [])))))
      text

abbrev pub is_slot : Option ℕ → Bool
is_slot none = true
is_slot (some slot) = leb slot max_safe_integer

abbrev pub same_text : Option String → Option String → Bool
same_text none none = true
same_text none (some text) = false
same_text (some text) other = is_text other text

unfoldable pub same_agent_identity : AgentState → AgentState → Bool
same_agent_identity left right =
    str_eq left.id right.id
    && str_eq left.run_id right.run_id
    && str_eq left.role_runtime_id right.role_runtime_id
    && same_text left.task_id right.task_id
    && str_eq left.worktree_path right.worktree_path

-- The stored agent, or the new one, for which a slot must be free.
unfoldable pub current_agent : RunTables → AgentState → Result AgentState
current_agent tables agent = elim (select agent_id agent.id tables.agents) [
  | some persisted ↦ (do
    check (is_agent_state persisted) (integrity "agent launch state is invalid")
    ok persisted)
  | none ↦ (do assert_agent_slot_available tables; ok agent)
]

abbrev pub later : ℕ → ℕ → ℕ
later now updated_at = if leb updated_at now then now else updated_at

abbrev pub changed_to : AgentState → ℕ → AgentChange → Result AgentState
changed_to agent now change =
    transition_agent agent (record { at = later now agent.updated_at; change = change })

unfoldable pub after_launch : AgentState → ℕ → String → Result AgentState
after_launch current now pane_id =
    if includes (launching ∷ []) current.status
    then ok current
    else changed_to current now (launch_requested pane_id)

abbrev pub is_same_slot : Option ℕ → Option ℕ → Bool
is_same_slot none reserved = true
is_same_slot (some slot) none = false
is_same_slot (some slot) (some reserved) = reserved == slot

abbrev pub is_same_launch : Option LaunchRow → String → String → Option ℕ → Bool
is_same_launch none pane_id session_id slot = true
is_same_launch (some row) pane_id session_id slot =
    str_eq row.pane_id pane_id && str_eq row.session_id session_id && is_same_slot slot row.slot

abbrev pub insert_launch : Option LaunchRow → Result (Unit {0}) → Result (Unit {0})
insert_launch none inserted = inserted
insert_launch (some row) inserted = ok tt

-- The agent's row, inserted or replaced.
abbrev pub with_agent_row : RunTables → AgentState → RunTables
with_agent_row tables agent = record tables {
  agents = upsert agent_id agent (λ old. agent) tables.agents;
}

unfoldable pub materialize_agent_launch :
    Database → LaunchInput → LaunchAnswers → Result (Database × AgentState)
unfolding is_session_id same_agent_identity current_agent after_launch
materialize_agent_launch db input answers = do
  pane_id ← non_empty input.pane_id "agent launch pane id"
  session_id ← non_empty input.session_id "agent launch session id"
  check (is_slot input.slot) (failed "agent launch pane slot must be a non-negative safe integer")
  check (is_session_id session_id) (failed "agent launch session id must be an exact UUID")
  assert_fence db input.write
  tables ← found (db.runs input.agent.run_id) (failed "the run does not exist")
  current ← current_agent tables input.agent
  check (same_agent_identity current input.agent)
      (stale_writer_lease "the agent has different controller identity")
  check (includes (planned ∷ launching ∷ []) current.status)
      (stale_writer_lease "the agent is launched already")
  check (not (includes (launching ∷ []) current.status) || is_text current.pane_id pane_id)
      (stale_writer_lease "the agent is launching in a different pane")
  check (not (is_some input.slot && answers.slot_taken))
      (stale_writer_lease "the agent pane slot is reserved by an unclosed agent")
  next ← after_launch current input.write.now pane_id
  check (is_same_launch answers.reservation pane_id session_id input.slot)
      (stale_writer_lease "the agent has different pane or session launch evidence")
  insert_launch answers.reservation answers.inserted
  ok (store db input.agent.run_id (with_agent_row tables next), next)

unfoldable pub after_loss : AgentState → ℕ → Result AgentState
after_loss agent now =
    if includes (disconnected ∷ []) agent.status then ok agent else changed_to agent now pane_lost

-- The restoration is not bound to a pane yet.
unfoldable pub bind_pane :
    Database → ℕ → String → String → String → RestorationRow → BindAnswers → Result Database
unfolding after_loss
bind_pane db now run_id agent replacement restoration answers = do
  check (not (str_eq replacement restoration.prior_pane_id))
      (stale_writer_lease "the replacement pane did not change")
  tables ← found (db.runs run_id) (integrity "agent pane restoration lost its agent state")
  current ←
      found (select agent_id agent tables.agents)
        (integrity "agent pane restoration lost its agent state")
  check (is_agent_state current) (integrity "agent pane restoration state is invalid")
  check
      (is_text current.pane_id restoration.prior_pane_id
        || (includes (disconnected ∷ []) current.status && not (is_some current.pane_id)))
      (stale_writer_lease "the controller pane changed before restoration binding")
  row ← answers.launch
  launch ← found row (integrity "agent pane restoration lost its launch record")
  check
      (launch.confirmed
        && str_eq launch.pane_id restoration.prior_pane_id
        && str_eq launch.session_id restoration.session_id)
      (stale_writer_lease "the launch authority changed before restoration binding")
  disconnected_agent ← after_loss current now
  recovering ← changed_to disconnected_agent now (recovery_requested replacement)
  answers.updated
  ok (store db run_id (with_agent_row tables recovering))

-- A restoration that is bound to this pane already stays as it is.
abbrev pub bind_or_keep : Database → Option String → String → Result Database → Result Database
bind_or_keep db none replacement bound = bound
bind_or_keep db (some pane) replacement bound = do
  check (str_eq pane replacement) (stale_writer_lease "the agent is bound to a different pane")
  ok db

unfoldable pub bind_agent_pane_restoration : Database → BindInput → BindAnswers → Result Database
unfolding bind_pane
bind_agent_pane_restoration db input answers = do
  run_id ← non_empty input.run_id "agent pane restoration run id"
  agent ← non_empty input.agent_id "agent pane restoration agent id"
  replacement ← non_empty input.replacement_pane_id "replacement agent pane id"
  assert_fence db input.write
  row ← answers.restoration
  restoration ← found row (stale_writer_lease "the agent has no pane restoration reservation")
  check (str_eq restoration.restoration_id input.restoration_id)
      (stale_writer_lease "the pane restoration identity changed")
  bind_or_keep db restoration.replacement_pane_id replacement
      (bind_pane db input.write.now run_id agent replacement restoration answers)
