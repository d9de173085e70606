-- ===== src/Orchestration/Actions.antt =====
-- The actions of a whole tick: the plan after the limit on agents.
use pi_agentworks.Prelude.{
  ℕ, ◌-◌, ◌≤◌, String, ◌≡◌, refl, ◌≢◌, ◌⊎◌, inl, inr, ◌↔◌, ◌∙◌, sym, ap, subst, true, false, not,
  List, [], ◌∷◌, arith, map, take, length, length-take, All, In, In-append_left, In-append_right,
  In-map, In-filter, In-filter_of_In, In-take, all-In, Bool-cases,
}
use pi_agentworks.Errors.{ok, >>=-eq-ok}
use pi_agentworks.Complexity.{ComplexityMode, get_complexity_policy}
use pi_agentworks.Story.{StoryStatus, ready, changes_requested, merged, approved}
use pi_agentworks.Scheduling
use pi_agentworks.Scheduling.{SchedulableStory, SchedulingDecision, story_concurrency_cap, is_empty}
use pi_agentworks.Scheduling.Startable.{CanStart, HasStatus}
use pi_agentworks.Scheduling.Decision.{startable-CanStart}
use pi_agentworks.Orchestration.{
  OrchestrationStory, OrchestrationAction, assign_story, assign_reviewer, request_merge,
  request_cleanup, complete_run, is_agent_launch_action, reserve_agent_launch_capacity, schedulable,
  scheduling_status, proposed_actions, plan_orchestration, actions_for, wants_cleanup, wants_merge,
  wants_reviewer, is_merged,
}
use pi_agentworks.Orchestration.Capacity.{launches, others, reserve_agent_launch_capacity_lem}
use pi_agentworks.Orchestration.Plan.{
  Proposed, proposed_actions-Proposed, Reason, Reason-Proposed, In-actions_for_of_In,
  In-completion_of, Reason-start, Reason-merge, Reason-finish,
}

-- What a tick is made of.
record Ticked (stories : List OrchestrationStory) (mode : ComplexityMode) (occupied : ℕ)
    (actions : List OrchestrationAction) : Type 0 where
  candidates : List OrchestrationAction
  proposed : Proposed stories mode candidates
  launched :
      launches actions
      ≡ take ((get_complexity_policy mode).maximum_agents - occupied) (launches candidates)
  kept : others actions ≡ others candidates

plan_orchestration-Ticked :
    (stories : List OrchestrationStory) (mode : ComplexityMode) (occupied : ℕ)
    {actions : List OrchestrationAction}
    → plan_orchestration stories mode occupied ≡ ok actions
    → Ticked stories mode occupied actions
unfolding plan_orchestration
plan_orchestration-Ticked stories mode occupied h =
    let (candidates, planned, reserving) = >>=-eq-ok (proposed_actions stories mode) _ h in
    let (d, reserved, same) =
      >>=-eq-ok (reserve_agent_launch_capacity candidates mode occupied) _ reserving in
    let law = reserve_agent_launch_capacity_lem candidates mode occupied reserved in
    record {
      candidates = candidates;
      proposed = proposed_actions-Proposed stories mode planned;
      launched = ground (arith, law.0);
      kept = ground (arith, law.1);
    }

-- The stories that an OrchestrationStory depends on are all merged.
abbrev pub DependenciesMerged : List OrchestrationStory → OrchestrationStory → Type 0
DependenciesMerged stories s =
    All (λ id. (t : OrchestrationStory) × In t stories × (t.id ≡ id) × (t.status ≡ merged))
      s.dependencies

status_of_done :
    (status : StoryStatus) → scheduling_status status ≡ Scheduling.done → status ≡ merged
unfolding scheduling_status
status_of_done status h = ground arith

status_of_pending :
    (status : StoryStatus)
    → scheduling_status status ≡ Scheduling.pending
    → (status ≡ ready) ⊎ (status ≡ changes_requested)
unfolding scheduling_status
status_of_pending status h = ground arith

is_merged-eq : (status : StoryStatus) → is_merged status ≡ true → status ≡ merged
is_merged-eq status h = ground arith

done_is_merged :
    (stories : List OrchestrationStory) (id : String)
    → HasStatus (map schedulable stories) id Scheduling.done
    → (t : OrchestrationStory) × In t stories × (t.id ≡ id) × (t.status ≡ merged)
unfolding schedulable
done_is_merged stories id (u, i, same, state) =
    let (t, j, made) = In-map schedulable stories i in
    (
      t,
      j,
      ap (λ (x : SchedulableStory). x.id) made ∙ same,
      status_of_done t.status (ap (λ (x : SchedulableStory). x.status) made ∙ state),
    )

All-merged :
    (stories : List OrchestrationStory) (ids : List String)
    → All (λ id. HasStatus (map schedulable stories) id Scheduling.done) ids
    → All (λ id. (t : OrchestrationStory) × In t stories × (t.id ≡ id) × (t.status ≡ merged)) ids
All-merged stories [] h = tt
All-merged stories (id ∷ ids) h = (done_is_merged stories id h.0, All-merged stories ids h.1)

module _ (stories : List OrchestrationStory) (mode : ComplexityMode) (occupied : ℕ)
    {actions : List OrchestrationAction}
    (h : plan_orchestration stories mode occupied ≡ ok actions) where
  In-candidates :
      {a : OrchestrationAction}
      → In a actions
      → In a (plan_orchestration-Ticked stories mode occupied h).candidates
  In-candidates {a} i =
      let t = plan_orchestration-Ticked stories mode occupied h in
      elim (Bool-cases (is_agent_launch_action a)) [
        | inl launch ↦
            (In-filter is_agent_launch_action t.candidates (
              In-take _ (launches t.candidates) (
                subst (In a) t.launched
                  (In-filter_of_In is_agent_launch_action actions i launch)))).0
        | inr other ↦
            (In-filter (λ x. not (is_agent_launch_action x)) t.candidates
              (subst (In a) t.kept (
                In-filter_of_In (λ x. not (is_agent_launch_action x)) actions i (rw other refl)))).0
      ]

  In-actions_of_other :
      {a : OrchestrationAction}
      → is_agent_launch_action a ≡ false
      → In a (plan_orchestration-Ticked stories mode occupied h).candidates
      → In a actions
  In-actions_of_other {a} other i =
      let t = plan_orchestration-Ticked stories mode occupied h in
      (In-filter (λ x. not (is_agent_launch_action x)) actions
        (subst (In a) (sym t.kept)
          (In-filter_of_In (λ x. not (is_agent_launch_action x)) t.candidates i (rw other refl)))).0

  Reason-actions :
      {a : OrchestrationAction}
      → In a actions
      → Reason stories (plan_orchestration-Ticked stories mode occupied h).proposed.decision a
  Reason-actions {a} i =
      let t = plan_orchestration-Ticked stories mode occupied h in
      Reason-Proposed stories t.proposed.decision (subst (In a) t.proposed.parts (In-candidates i))

  -- An accepted tick launches no more agents than there are free slots.
  pub launches_bounded :
      length (launches actions) ≤ (get_complexity_policy mode).maximum_agents - occupied
  launches_bounded =
      let t = plan_orchestration-Ticked stories mode occupied h in
      let free = (get_complexity_policy mode).maximum_agents - occupied in
      rw t.launched (omega (arith, length-take free (launches t.candidates)))

  -- An accepted tick assigns a writer only to a story that is ready or has changes requested, and
  -- whose dependencies are all merged.
  pub assign_story_ready :
      (id : String)
      → In (assign_story id) actions
      → (s : OrchestrationStory) × In s stories
        × (s.id ≡ id)
        × ((s.status ≡ ready) ⊎ (s.status ≡ changes_requested))
        × DependenciesMerged stories s
  unfolding schedulable
  assign_story_ready id i =
      let t = plan_orchestration-Ticked stories mode occupied h in
      let (u, j, can, same) =
        startable-CanStart (map schedulable stories) (story_concurrency_cap mode) t.proposed.decided
          id (Reason-start (Reason-actions i)) in
      let (s, k, made) = In-map schedulable stories j in
      let can' = subst (CanStart (map schedulable stories)) (sym made) can in
      (
        s,
        k,
        ap (λ (x : SchedulableStory). x.id) made ∙ same,
        status_of_pending s.status can'.waiting,
        All-merged stories s.dependencies can'.ready,
      )

  -- An accepted tick requests a merge exactly for the approved stories whose reviewer is closed,
  -- whether or not there are free slots.
  pub request_merge_iff :
      (id : String)
      → In (request_merge id) actions ↔ (
          (s : OrchestrationStory) × In s stories
          × (s.id ≡ id)
          × (s.status ≡ approved)
          × (s.reviewer_closed ≡ true))
  unfolding is_agent_launch_action
  request_merge_iff id = (
    λ i. Reason-merge (Reason-actions i),
    λ (s, j, same, state, closed). rw (← same) (
        In-actions_of_other refl (
          rw (plan_orchestration-Ticked stories mode occupied h).proposed.parts (
            In-append_right (actions_for wants_cleanup request_cleanup stories) (
              In-append_left _
                (In-actions_for_of_In wants_merge request_merge stories j (ground arith)))))),
  )

  -- An accepted tick plans the completion of the run exactly if there is a story and every story is
  -- merged.
  pub complete_run_iff :
      In complete_run actions
      ↔ ((stories ≢ []) × ((s : OrchestrationStory) → In s stories → s.status ≡ merged))
  unfolding is_agent_launch_action
  complete_run_iff = (
    λ i.
        let (some_story, done) = Reason-finish (Reason-actions i) in
        (
          λ e. absurd (ground (arith, ap is_empty e)),
          λ s j. is_merged-eq s.status (all-In (λ t. is_merged t.status) stories done j),
        ),
    λ (some_story, done). In-actions_of_other refl (
        rw (plan_orchestration-Ticked stories mode occupied h).proposed.parts (
          In-append_right (actions_for wants_cleanup request_cleanup stories) (
            In-append_right (actions_for wants_merge request_merge stories) (
              In-append_right (actions_for wants_reviewer assign_reviewer stories)
                (In-append_right _ (In-completion_of stories some_story done)))))),
  )
