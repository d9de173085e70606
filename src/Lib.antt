-- ===== src/Lib.antt =====
-- Agentworks runs teams of coding agents, each in its own pane and Git worktree, under one controller
-- that alone changes the repository. This library models the controller's domain: the state of runs,
-- stories and agents and the functions that decide what may happen next.
--
-- The parts, and where they are modelled:
--
--   Errors          the thrown errors, nonEmpty and assertForwardTime of src/domain/controller-state.ts
--   Trace           sequences of accepted transitions, and induction over them
--   Complexity      getComplexityPolicy (src/domain/complexity.ts)
--   Run             createRunState and transitionRun (src/domain/controller-state.ts)
--   Story           createStoryState, and in Story/Change transitionStory (same file)
--   Agent           createAgentState, in Agent/Change transitionAgent, and in Agent/Liveness
--                   assessAgentLiveness (same file)
--   Messages        the messages of child agents (src/domain/agent-communication.ts),
--                   applyAgentMessage (src/domain/agent-message-state.ts) and
--                   reactionForAgentMessage (src/domain/supervisor-reaction.ts)
--   Scheduling      agent slots and scheduleStories (src/domain/scheduling.ts)
--   Orchestration   planOrchestration and reserveAgentLaunchCapacity (src/domain/orchestration.ts)
--   Recovery        assessStartupRecovery and reconcileStartupRecovery (src/domain/recovery.ts)
--   Policy          the launch, merge and cleanup policies (src/domain/execution-policy.ts)
--   StoryPlan       validateAndOrderStories, and in StoryPlan/Order topologicalOrder
--                   (src/domain/story-planning.ts)
--   Schemas         isRunState, isStoryState and isAgentState (src/domain/controller-state.ts)
--   Store           the controller's database (src/infrastructure/controller/
--                   sqlite-controller-repository.ts and src/application/ports/
--                   controller-repository.ts): Store/Lease the controller's lease and its fence,
--                   Store/Validation and Store/Snapshots initializeRun, commitSnapshot and
--                   loadSnapshot, Store/Tables and Store/Synchronize the rows by key, Store/Writers
--                   the leases of the stories' writers, Store/Launches materializeAgentLaunch and
--                   bindAgentPaneRestoration, Store/Operations all of these as one step relation; the other modules below Store are proofs
--   MessageController  AgentMessageController.apply (src/application/controller/
--                   agent-message-controller.ts), over Messages and Store
--   Supervision     IdleAgentSupervisor (src/application/orchestration/idle-agent-supervisor.ts), over
--                   Agent/Liveness and Store; the calls of Herdr are parameters
--   ManagementQuit  assessManagementQuitReadiness (src/domain/management-quit.ts)
--   Connection      assessAgentConnections (src/domain/agent-connection.ts)
--   Examples        the theorems at concrete inputs
--
-- How they interact: a message of a child agent goes through Messages into transitions of Agent. A
-- tick of Orchestration projects the stories to Scheduling, adds the merges, reviews and cleanups, and
-- then admits only as many launches as Complexity leaves slots. Recovery reads the states of Run, Story
-- and Agent at startup. Store keeps the three states of a run under one revision, checks them by
-- Schemas, and lets an agent write to a story only under the story's lease. MessageController loads a
-- run from Store, puts a message through Messages and commits the changed agent.
--
-- How the code is modelled: a reducer that throws returns an error value, with the same message; the
-- frozen object that it returns is a record update. A transition `{ type, at, ... }` is a record of its
-- time `at` and a change, a data type with one constructor for each `type` and the other fields as
-- arguments; the cases of a `switch` are the clauses of one function. `null` and a missing field are
-- `none`. Times and counts are natural numbers, and `Number.isSafeInteger` is a bound by 2 ^ 53 - 1. A
-- difference that may be negative is written as a sum, and the counters of the plan's order, which do
-- go below 0, are integers. Texts are native strings with the `trim` of ECMAScript. A Map is a list of
-- pairs (Scheduling) or a function (StoryPlan). Fields that no modelled function reads are left out of
-- SandboxEvidence, AgentLaunchRequest, UserStory and the messages (time stamps, sequence numbers).
--
-- The database: the tables of a run are one record, and a table is the list of its rows. A row of
-- writer_leases has the key of a row of stories and is deleted with it, so it is a field of that row;
-- the events of writer leases are deleted with their story too. The processed commands are a function
-- of their key. The tables agent_launches and agent_pane_restorations are not kept: the two operations
-- of Store/Launches take what they read of these tables, and whether they can write there, as an
-- argument that can be any answer, so that the databases of the model include those of the code. The
-- operations that write only tables that are not kept (confirmAgentLaunch, reserveAgentPaneRestoration,
-- reserveAgentPaneRestorations, confirmAgentPaneRestoration, bindControllerLaunchComposition) leave the
-- modelled tables as they are and are left out. A transaction that throws is rolled back, so an operation returns the next database or
-- an error. The rows are read in an order that the database makes of them, which is a parameter of
-- loadSnapshot; its theorem asks only that the order has the same rows. The hash of a request is a
-- field of the input; MessageController takes the hash and the writing of JSON as parameters, and the
-- clock's time as an argument. What a call throws carries the class of the error and its main field, not the
-- whole text. The expired lease's time in a LeaseHeld error is left out.
--
-- Fuel: the `while` loop of topologicalOrder is the only loop without a structural bound. It gets one
-- round more than there are stories; each round but the last orders at least one story.
--
-- Not modelled: of the database, the tables of agent launches, pane restorations and launch
-- compositions, the reading of events, migration and the integrity check; the remaining files of src/domain (approval policy,
-- pane grid, team composition, role packs, message codec, initial story
-- plan, names), and the rest of the application and infrastructure layers, which call the modelled
-- functions and drive Git, Herdr and processes.
pub mod Prelude
pub mod Errors
pub mod Trace
pub mod Complexity
pub mod Run
pub mod Story
pub mod Agent
pub mod Messages
pub mod Scheduling
pub mod Orchestration
pub mod Recovery
pub mod Policy
pub mod StoryPlan
pub mod ManagementQuit
pub mod Connection
pub mod Schemas
pub mod Store
pub mod MessageController
pub mod Supervision
pub mod Examples
