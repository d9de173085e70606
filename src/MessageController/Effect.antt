-- ===== src/MessageController/Effect.antt =====
-- What the delivery of a message does to the stored run.
use pi_agentworks.Prelude.{
  ℕ, ◌+◌, ◌≤◌, ◌<◌, String, ◌≡◌, refl, ◌∙◌, ap, ◌⊎◌, inl, inr, Bool, true, false, Option, none,
  some, List, arith,
}
use pi_agentworks.Errors.{Result, ok, err, >>=-eq-ok, ok-injective, max_safe_integer}
use pi_agentworks.Agent.{AgentState}
use pi_agentworks.Messages.{AgentMessage, AgentMessageStateResult, apply_agent_message}
use pi_agentworks.Trace.{replay}
use pi_agentworks.Store.{Database, StoryRow, FencedWrite, Snapshot, SnapshotInput, CommitResult}
use pi_agentworks.Store.Tables.{select}
use pi_agentworks.Store.Validation.{agent_id}
use pi_agentworks.Store.Snapshots.{load_snapshot, commit_snapshot}
use pi_agentworks.Store.Outcome.{commit_snapshot-Accepted}
use pi_agentworks.Store.Written.{write_revision-Written}
use pi_agentworks.Store.Operations.{Operation, perform}
use pi_agentworks.Store.Reachable.{new_database}
use pi_agentworks.Store.Loading.{HaveSameMembers, load_snapshot_of_commit}
use pi_agentworks.MessageController.{
  Payload, AgentMessageCommitResult, known, refuse_message, with_agent, message_result,
  message_commit, apply,
}

known-eq-ok :
    {A : Type 0} (o : Option A) (label : String) {a : A} → known o label ≡ ok a → o ≡ some a
known-eq-ok none label h = absurd (cc)
known-eq-ok (some b) label h = ap some (ok-injective h)

refuse_message-eq-ok : {A : Type 0} (r : Result A) {a : A} → refuse_message r ≡ ok a → r ≡ ok a
refuse_message-eq-ok (ok b) h = h
refuse_message-eq-ok (err thrown) h = absurd (cc)

-- Nothing is written, since the message changes nothing or was delivered before.
pub record IsKept (db : Database) (next : Database × AgentMessageCommitResult) : Type 0 where
  pub same : next.0 ≡ db
  pub reason : (next.1.changed ≡ false) ⊎ (next.1.replayed ≡ true)

message_result-cases :
    (db : Database) (message : AgentMessage) (revision : ℕ) (skip : Bool)
    (commit : Result (Database × CommitResult)) {next : Database × AgentMessageCommitResult}
    → message_result db message revision skip commit ≡ ok next
    → IsKept db next
      ⊎ ((done : Database × CommitResult) × (commit ≡ ok done)
          × (next.0 ≡ done.0)
          × (next.1.revision ≡ done.1.revision)
          × (next.1.replayed ≡ done.1.replayed))
message_result-cases db message revision true commit h =
    rw (← ok-injective h) (inl (record { same = refl; reason = inl refl }))
message_result-cases db message revision false commit h =
    let (done, accepted, e) = >>=-eq-ok commit _ h in
    rw (← ok-injective e) (inr (done, accepted, refl, refl, refl))

-- A commit is a replay that changes nothing, or goes to the next revision.
commit_snapshot-cases :
    (db : Database) (given : String) (expected : ℕ) (input : SnapshotInput)
    {next : Database × CommitResult}
    → commit_snapshot db given expected input ≡ ok next
    → ((next.0 ≡ db) × (next.1.replayed ≡ true))
      ⊎ ((next.1.revision ≡ expected + 1) × (next.1.replayed ≡ false))
commit_snapshot-cases db given expected input h =
    let a = commit_snapshot-Accepted db given expected input h in
    elim a.outcome [
      | inl again ↦ rw again.result (inl (refl, refl))
      | inr c ↦
          let w = write_revision-Written db a.run_id c.tables _ a.key input c.result in
          rw w.result (inr (ground (arith, c.at_revision), refl))
    ]

module _ (order_stories : List StoryRow → List StoryRow)
    (order_agents : List AgentState → List AgentState) (json : Payload → String)
    (hash : String → String → String) where
  -- The run's stored snapshot before and after, which differ in the agent of the message.
  pub record IsDelivered (db : Database) (message : AgentMessage) (at : ℕ) (next : Database)
      : Type 0 where
    pub before : Snapshot
    pub after : Snapshot
    pub current : AgentState
    pub state : AgentMessageStateResult
    pub loaded : load_snapshot order_stories order_agents db message.run_id ≡ ok (some before)
    pub found : select agent_id message.agent_id before.agents ≡ some current
    pub applied : apply_agent_message current message at ≡ ok state
    pub stored : load_snapshot order_stories order_agents next message.run_id ≡ ok (some after)
    pub next_revision : after.revision ≡ before.revision + 1
    pub same_run : after.run ≡ before.run
    pub same_stories : HaveSameMembers after.stories before.stories
    pub agents_replaced : HaveSameMembers after.agents (with_agent state.agent before.agents)

  -- In a reachable database, with rows read in any order that has the same rows, a delivered message
  -- either leaves the database as it is, and then changes nothing or is a replay; or, if the
  -- resulting revision is a safe integer, the run loads at the next revision with the same run and
  -- stories and with the message's agent replaced by what the message makes of it.
  pub apply-IsDelivered :
      (ops : List Operation) {db : Database} (message : AgentMessage) (write : FencedWrite)
      (request_id : String) (at : ℕ) {next : Database × AgentMessageCommitResult}
      → ((rows : List StoryRow) → HaveSameMembers (order_stories rows) rows)
      → ((rows : List AgentState) → HaveSameMembers (order_agents rows) rows)
      → replay perform new_database ops ≡ ok db
      → apply order_stories order_agents json hash db message write request_id at ≡ ok next
      → next.1.revision ≤ max_safe_integer
      → IsKept db next ⊎ IsDelivered db message at next.0
  unfolding apply
  apply-IsDelivered ops {db} message write request_id at {next} ordered_stories ordered_agents
        reached h₀ small =
      let (loaded, is_loaded, h₁) =
        >>=-eq-ok (load_snapshot order_stories order_agents db message.run_id) _ h₀ in
      let (before, is_known, h₂) = >>=-eq-ok (known loaded "unknown run") _ h₁ in
      let (current, is_agent, h₃) =
        >>=-eq-ok (known (select agent_id message.agent_id before.agents) "unknown agent") _ h₂ in
      let (state, applied, h₄) =
        >>=-eq-ok (refuse_message (apply_agent_message current message at)) _ h₃ in
      let input =
        message_commit order_stories order_agents json hash message write request_id at before
          state.agent in
      elim (message_result-cases db message before.revision _
        (commit_snapshot db message.run_id before.revision input) h₄) [
          | inl kept ↦ inl kept
          | inr (done, accepted, db_is, revision_is, replayed_is) ↦
              elim (commit_snapshot-cases db message.run_id before.revision input accepted) [
                | inl (same, again) ↦
                    inl (record { same = db_is ∙ same; reason = inr (replayed_is ∙ again) })
                | inr (next_one, fresh) ↦
                    let bound : before.revision < max_safe_integer =
                      ground (arith, small, revision_is, next_one) in
                    let (after, stored, at_revision, same_run, same_stories, agents) =
                      load_snapshot_of_commit order_stories order_agents ops message.run_id
                        before.revision input ordered_stories ordered_agents reached accepted fresh
                        bound in
                    inr (record {
                      before = before;
                      after = after;
                      current = current;
                      state = state;
                      loaded = is_loaded ∙ ap ok (known-eq-ok loaded "unknown run" is_known);
                      found =
                          known-eq-ok (select agent_id message.agent_id before.agents)
                            "unknown agent" is_agent;
                      applied =
                          refuse_message-eq-ok (apply_agent_message current message at) applied;
                      stored =
                          ap (λ d. load_snapshot order_stories order_agents d message.run_id) db_is
                          ∙ stored;
                      next_revision = at_revision;
                      same_run = same_run;
                      same_stories = same_stories;
                      agents_replaced = agents;
                    })
              ]
        ]
