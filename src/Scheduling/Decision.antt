-- ===== src/Scheduling/Decision.antt =====
-- What the scheduler's decision means: who starts, who is blocked, how many, and deadlock.
use pi_agentworks.Prelude.{
  ℕ, ◌+◌, ◌-◌, ◌≤◌, ◌<◌, String, ◌≡◌, refl, ◌≢◌, ◌∙◌, sym, ◌↔◌, inl, inr, true, Bool-cases,
  In-cons_cases, not_In_nil, if◌then◌else◌, ◌&&◌, List, [], ◌∷◌, arith, In, In-take, length,
  length-take, take-eq_self, max, any, filter, leb, ◌==◌,
}
use pi_agentworks.Errors.{ok, >>=-eq-ok, guard, scheduling, max_safe_integer}
use pi_agentworks.Scheduling.{
  StorySchedulingStatus, pending, running, done, failed, is_pending, is_running, SchedulableStory,
  SchedulingDecision, StatusMap, index_stories, check_stories, pushed, verdict_ready, decide,
  schedule_stories, is_empty,
}
use pi_agentworks.Scheduling.Startable.{
  CanStart, IsStuck, In-pushed_ready_iff, In-pushed_blocked_iff,
}

module _ {ℓ} {A : Type ℓ} where
  not_In_empty : {x : A} {xs : List A} → is_empty xs ≡ true → ¬ (In x xs)
  not_In_empty {xs = []} e i = elim i [ ]
  not_In_empty {xs = x ∷ xs} e i = absurd (ground arith)

  length_of_empty : (xs : List A) → is_empty xs ≡ true → length xs ≡ 0
  length_of_empty [] e = refl
  length_of_empty (x ∷ xs) e = absurd (ground arith)

  empty_of_not_In : (xs : List A) → ((x : A) → ¬ (In x xs)) → is_empty xs ≡ true
  empty_of_not_In [] h = refl
  empty_of_not_In (x ∷ xs) h = absurd (h x In.here)

-- The facts that a decision rests on.
record Decided (stories : List SchedulableStory) (most : ℕ) (d : SchedulingDecision) : Type 0 where
  status : StatusMap
  indexed : index_stories stories [] ≡ ok status
  positive : 1 ≤ most
  decision : d ≡ decide status stories most

schedule_stories-Decided :
    (stories : List SchedulableStory) (most : ℕ) {d : SchedulingDecision}
    → schedule_stories stories most ≡ ok d
    → Decided stories most d
unfolding schedule_stories
schedule_stories-Decided stories most h =
    let (u, valid, indexing) =
      >>=-eq-ok (guard (leb most max_safe_integer && leb 1 most) (scheduling _)) _ h in
    let (status, indexed, checking) = >>=-eq-ok (index_stories stories []) _ indexing in
    let (v, checked, same) = >>=-eq-ok (check_stories status stories) _ checking in
    record { status = status; indexed = indexed; positive = ground arith; decision = ground arith }

-- How many of the stories have the status `running`.
abbrev pub runs_now : StorySchedulingStatus → ℕ
runs_now running = 1
runs_now _ = 0

abbrev pub running_stories : List SchedulableStory → ℕ
running_stories [] = 0
running_stories (s ∷ stories) = runs_now s.status + running_stories stories

running_stories_lem :
    (stories : List SchedulableStory)
    → length (filter (λ s. is_running s.status) stories) ≡ running_stories stories
running_stories_lem [] = omega arith
running_stories_lem (s ∷ stories) = step s.status (running_stories_lem stories)
  where
    step :
        (state : StorySchedulingStatus)
        → length (filter (λ t. is_running t.status) stories) ≡ running_stories stories
        → length (
            if is_running state
            then s ∷ filter (λ t. is_running t.status) stories
            else filter (λ t. is_running t.status) stories)
          ≡ runs_now state + running_stories stories
    step pending h = ground (arith, h)
    step running h = ground (arith, h)
    step done h = ground (arith, h)
    step failed h = ground (arith, h)

none_running_iff :
    (stories : List SchedulableStory)
    → (running_stories stories ≡ 0) ↔ ((s : SchedulableStory) → In s stories → s.status ≢ running)
none_running_iff [] = (λ h s i. absurd (not_In_nil i), λ h. refl)
none_running_iff (s ∷ stories) =
    let later = none_running_iff stories in
    (
      λ h t i. elim (In-cons_cases i) [
        | inl same ↦ λ e. ground (arith, h, same, e)
        | inr j ↦ later.0 (omega (arith, h)) t j
      ],
      λ h. omega (arith, not_running s.status (h s In.here), later.1 (λ t i. h t (In.there i))),
    )
  where
    not_running : (state : StorySchedulingStatus) → state ≢ running → runs_now state ≡ 0
    not_running pending h = refl
    not_running running h = absurd (h refl)
    not_running done h = refl
    not_running failed h = refl

any_pending_iff :
    (stories : List SchedulableStory)
    → (any (λ s. is_pending s.status) stories ≡ true)
      ↔ ((s : SchedulableStory) × In s stories × (s.status ≡ pending))
any_pending_iff [] = (λ h. absurd (cc), λ (s, i, e). absurd (not_In_nil i))
any_pending_iff (s ∷ stories) =
    let later = any_pending_iff stories in
    (
      λ h. elim (Bool-cases (is_pending s.status)) [
        | inl here ↦ (s, In.here, ground (arith, here))
        | inr other ↦ let (t, i, e) = later.0 (ground (arith, h, other)) in (t, In.there i, e)
      ],
      λ (t, i, e). elim (In-cons_cases i) [
        | inl same ↦ ground (arith, same, e)
        | inr j ↦ ground (arith, later.1 (t, j, e))
      ],
    )

module _ (stories : List SchedulableStory) (most : ℕ) {d : SchedulingDecision}
    (h : schedule_stories stories most ≡ ok d) where
  -- A story that a decision starts is one of the given ones, pending, with every dependency done.
  pub startable-CanStart :
      (id : String)
      → In id d.startable
      → (s : SchedulableStory) × In s stories × CanStart stories s × (s.id ≡ id)
  unfolding decide
  startable-CanStart id i =
      let k = schedule_stories-Decided stories most h in
      (In-pushed_ready_iff stories k.indexed id).0 (In-take _ _ (rw k.decision at i))

  -- A decision's blocked stories are exactly the pending ones with a failed dependency.
  pub In-blocked_iff :
      (id : String)
      → In id d.blocked ↔ ((s : SchedulableStory) × In s stories × IsStuck stories s × (s.id ≡ id))
  unfolding decide
  In-blocked_iff id =
      let k = schedule_stories-Decided stories most h in
      rw k.decision (In-pushed_blocked_iff stories k.indexed id)

  -- A decision counts the running stories, and the running stories and those that it starts are
  -- together at most as many as may run, or as run already where these are more.
  pub startable_bounded :
      (d.running_count ≡ length (filter (λ s. is_running s.status) stories))
      × (d.running_count + length d.startable ≤ max most d.running_count)
  unfolding decide
  startable_bounded =
      let k = schedule_stories-Decided stories most h in
      rw k.decision (
        refl,
        omega (
          arith,
          length-take (most - length (filter (λ s. is_running s.status) stories))
              (pushed verdict_ready k.status stories),
        ),
      )

  running_count_lem : d.running_count ≡ running_stories stories
  running_count_lem = startable_bounded.0 ∙ running_stories_lem stories

  -- As long as the stories whose status is running and those that a decision starts are fewer than
  -- may run, every story that is pending with all its dependencies done is started.
  pub startable_complete :
      running_stories stories + length d.startable < most
      → (s : SchedulableStory) → In s stories
      → CanStart stories s
      → In s.id d.startable
  unfolding decide
  startable_complete room s i k =
      let f = schedule_stories-Decided stories most h in
      let n = most - length (filter (λ t. is_running t.status) stories) in
      let ready = pushed verdict_ready f.status stories in
      let counted : d.running_count + length d.startable < most = rw running_count_lem room in
      let room' = rw f.decision at counted in
      rw f.decision (
        rw (take-eq_self n ready (omega (arith, length-take n ready, room')))
          ((In-pushed_ready_iff stories f.indexed s.id).1 (s, i, k, refl)))

  deadlocked_lem :
      d.deadlocked
      ≡ (any (λ s. is_pending s.status) stories && (d.running_count == 0 && is_empty d.startable))
  unfolding decide
  deadlocked_lem = rw (schedule_stories-Decided stories most h).decision refl

  startable-empty_iff :
      d.running_count ≡ 0
      → (is_empty d.startable ≡ true)
        ↔ ((s : SchedulableStory) → In s stories → ¬ (CanStart stories s))
  startable-empty_iff idle = (
    λ e s i k. not_In_empty e (
        startable_complete
          (omega (
            arith,
            length_of_empty d.startable e,
            running_count_lem,
            idle,
            (schedule_stories-Decided stories most h).positive,
          ))
          s i k),
    λ none_can.
        empty_of_not_In d.startable
          (λ id i. let (s, j, k, same) = startable-CanStart id i in none_can s j k),
  )

  -- A decision is deadlocked exactly if one of the stories is pending, none of them is running, and
  -- none can start.
  pub deadlocked_iff : (d.deadlocked ≡ true) ↔ (
      ((s : SchedulableStory) × In s stories × (s.status ≡ pending))
      × ((s : SchedulableStory) → In s stories → s.status ≢ running)
      × ((s : SchedulableStory) → In s stories → ¬ (CanStart stories s)))
  deadlocked_iff = (
    λ e.
        let idle : d.running_count ≡ 0 = ground (arith, deadlocked_lem) in
        (
          (any_pending_iff stories).0 (ground (arith, deadlocked_lem)),
          (none_running_iff stories).0 (sym running_count_lem ∙ idle),
          (startable-empty_iff idle).0 (ground (arith, deadlocked_lem)),
        ),
    λ (waits, none_runs, none_can).
        let idle : d.running_count ≡ 0 =
          running_count_lem ∙ (none_running_iff stories).1 none_runs in
        ground (
          arith,
          deadlocked_lem,
          (any_pending_iff stories).1 waits,
          idle,
          (startable-empty_iff idle).1 none_can,
        ),
  )
