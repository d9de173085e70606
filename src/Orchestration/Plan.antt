-- ===== src/Orchestration/Plan.antt =====
-- What each planned action is planned for.
use pi_agentworks.Prelude.{
  String, ◌≡◌, refl, ◌≢◌, inl, inr, sym, subst, Bool, true, false, not, ◌&&◌, List, [], ◌∷◌, ◌++◌,
  arith, map, filter, all, In, In-singleton, not_In_nil, In-append_cases, In-map, In-map_of_In,
  In-filter, In-filter_of_In, all_of_In, Bool-cases,
}
use pi_agentworks.Errors.{ok, >>=-eq-ok}
use pi_agentworks.Complexity.{ComplexityMode}
use pi_agentworks.Story.{merged, approved}
use pi_agentworks.Scheduling.{SchedulingDecision, schedule_stories, story_concurrency_cap, is_empty}
use pi_agentworks.Orchestration.{
  OrchestrationStory, OrchestrationAction, assign_story, assign_reviewer, request_merge,
  request_cleanup, complete_run, schedulable, completion, proposed_actions, actions_for,
  wants_cleanup, wants_merge, wants_reviewer, is_merged,
}

-- The parts of the proposal, in their order.
pub record Proposed (stories : List OrchestrationStory) (mode : ComplexityMode)
    (actions : List OrchestrationAction) : Type 0 where
  pub decision : SchedulingDecision
  pub decided :
      schedule_stories (map schedulable stories) (story_concurrency_cap mode) ≡ ok decision
  pub parts :
      actions
      ≡ actions_for wants_cleanup request_cleanup stories
        ++ (actions_for wants_merge request_merge stories
            ++ (actions_for wants_reviewer assign_reviewer stories
                ++ (map assign_story decision.startable ++ completion stories)))

pub proposed_actions-Proposed :
    (stories : List OrchestrationStory) (mode : ComplexityMode) {actions : List OrchestrationAction}
    → proposed_actions stories mode ≡ ok actions
    → Proposed stories mode actions
unfolding proposed_actions
proposed_actions-Proposed stories mode h =
    let (d, decided, same) =
      >>=-eq-ok (schedule_stories (map schedulable stories) (story_concurrency_cap mode)) _ h in
    record { decision = d; decided = decided; parts = ground arith }

-- What an action is proposed for.
pub data Reason (stories : List OrchestrationStory) (d : SchedulingDecision)
    (a : OrchestrationAction) : Type 0 where
  cleanup :
      (s : OrchestrationStory)
      → In s stories
      → wants_cleanup s ≡ true
      → request_cleanup s.id ≡ a
      → Reason stories d a
  merge :
      (s : OrchestrationStory)
      → In s stories
      → wants_merge s ≡ true
      → request_merge s.id ≡ a
      → Reason stories d a
  review :
      (s : OrchestrationStory)
      → In s stories
      → wants_reviewer s ≡ true
      → assign_reviewer s.id ≡ a
      → Reason stories d a
  start : (id : String) → In id d.startable → assign_story id ≡ a → Reason stories d a
  finish :
      is_empty stories ≡ false
      → all (λ s. is_merged s.status) stories ≡ true
      → complete_run ≡ a
      → Reason stories d a

In-actions_for :
    (wanted : OrchestrationStory → Bool) (action : String → OrchestrationAction)
    (stories : List OrchestrationStory) {a : OrchestrationAction}
    → In a (actions_for wanted action stories)
    → (s : OrchestrationStory) × In s stories × (wanted s ≡ true) × (action s.id ≡ a)
In-actions_for wanted action stories i =
    let (s, j, same) = In-map _ (filter wanted stories) i in
    let (k, w) = In-filter wanted stories j in (s, k, w, same)

pub In-actions_for_of_In :
    (wanted : OrchestrationStory → Bool) (action : String → OrchestrationAction)
    (stories : List OrchestrationStory) {s : OrchestrationStory}
    → In s stories
    → wanted s ≡ true
    → In (action s.id) (actions_for wanted action stories)
In-actions_for_of_In wanted action stories i w =
    In-map_of_In (λ t. action t.id) (In-filter_of_In wanted stories i w)

In-completion :
    (stories : List OrchestrationStory) {a : OrchestrationAction}
    → In a (completion stories)
    → (a ≡ complete_run)
      × (is_empty stories ≡ false)
      × (all (λ s. is_merged s.status) stories ≡ true)
unfolding completion
In-completion stories i =
    elim (Bool-cases (not (is_empty stories) && all (λ s. is_merged s.status) stories)) [
      | inl e ↦ (In-singleton (rw e at i), ground arith, ground arith)
      | inr e ↦ absurd (not_In_nil (rw e at i))
    ]

is_empty_of_ne : (stories : List OrchestrationStory) → stories ≢ [] → is_empty stories ≡ false
is_empty_of_ne [] h = absurd (h refl)
is_empty_of_ne (s ∷ ss) h = refl

pub In-completion_of :
    (stories : List OrchestrationStory)
    → stories ≢ []
    → ((s : OrchestrationStory) → In s stories → s.status ≡ merged)
    → In complete_run (completion stories)
unfolding completion
In-completion_of stories some_story done =
    rw
      (
        is_empty_of_ne stories some_story,
        all_of_In (λ s. is_merged s.status) stories (λ s j. rw (done s j) refl),
      )
      In.here

pub Reason-Proposed :
    (stories : List OrchestrationStory) (d : SchedulingDecision) {a : OrchestrationAction}
    → In a (
        actions_for wants_cleanup request_cleanup stories
        ++ (actions_for wants_merge request_merge stories
            ++ (actions_for wants_reviewer assign_reviewer stories
                ++ (map assign_story d.startable ++ completion stories))))
    → Reason stories d a
Reason-Proposed stories d i = elim (In-append_cases _ i) [
  | inl c ↦
      let (s, j, w, same) = In-actions_for wants_cleanup request_cleanup stories c in
      cleanup s j w same
  | inr i₁ ↦ elim (In-append_cases _ i₁) [
    | inl c ↦
        let (s, j, w, same) = In-actions_for wants_merge request_merge stories c in merge s j w same
    | inr i₂ ↦ elim (In-append_cases _ i₂) [
      | inl c ↦
          let (s, j, w, same) = In-actions_for wants_reviewer assign_reviewer stories c in
          review s j w same
      | inr i₃ ↦ elim (In-append_cases _ i₃) [
        | inl c ↦ let (id, j, same) = In-map assign_story d.startable c in start id j same
        | inr c ↦
            let (same, some_story, done) = In-completion stories c in
            finish some_story done (sym same)
      ]
    ]
  ]
]

-- What each kind of action is planned for.
module _ {stories : List OrchestrationStory} {d : SchedulingDecision} {id : String} where
  pub Reason-start : Reason stories d (assign_story id) → In id d.startable
  Reason-start (cleanup s i w e) = absurd (cc)
  Reason-start (merge s i w e) = absurd (cc)
  Reason-start (review s i w e) = absurd (cc)
  Reason-start (start k i e) = subst (λ x. In x d.startable) (ground arith) i
  Reason-start (finish n a e) = absurd (cc)

  pub Reason-merge :
      Reason stories d (request_merge id)
      → (s : OrchestrationStory) × In s stories
        × (s.id ≡ id)
        × (s.status ≡ approved)
        × (s.reviewer_closed ≡ true)
  Reason-merge (cleanup s i w e) = absurd (cc)
  Reason-merge (merge s i w e) = (s, i, ground arith, ground arith, ground arith)
  Reason-merge (review s i w e) = absurd (cc)
  Reason-merge (start k i e) = absurd (cc)
  Reason-merge (finish n a e) = absurd (cc)

pub Reason-finish :
    {stories : List OrchestrationStory} {d : SchedulingDecision}
    → Reason stories d complete_run
    → (is_empty stories ≡ false) × (all (λ s. is_merged s.status) stories ≡ true)
Reason-finish (cleanup s i w e) = absurd (cc)
Reason-finish (merge s i w e) = absurd (cc)
Reason-finish (review s i w e) = absurd (cc)
Reason-finish (start k i e) = absurd (cc)
Reason-finish (finish n a e) = (n, a)
