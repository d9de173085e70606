-- ===== src/Scheduling/Startable.antt =====
-- What the status map tells of the stories, and which stories are found ready or blocked.
use pi_agentworks.Prelude.{
  String, ◌≡◌, refl, ◌⊎◌, inl, inr, ◌↔◌, Bool, true, false, Option, some, List, [], ◌∷◌, arith,
  Bool-cases, map, All, In, In-map, In-map_of_In, In-filter, In-filter_of_In, any, all,
  if◌then◌else◌, eq_iff, str_eq,
}
use pi_agentworks.Errors.{ok, ok-injective}
use pi_agentworks.Scheduling.{
  StorySchedulingStatus, pending, done, failed, SchedulableStory, StatusMap, get, index_stories,
  judge, is_blocked, is_ready, pushed, verdict_blocked, verdict_ready, Verdict, is_failed, is_done,
}

-- One of the stories has this id and this status.
abbrev pub HasStatus : List SchedulableStory → String → StorySchedulingStatus → Type 0
HasStatus stories id state =
    (story : SchedulableStory) × In story stories × (story.id ≡ id) × (story.status ≡ state)

-- It is pending, and each of its dependencies is done.
pub record CanStart (stories : List SchedulableStory) (story : SchedulableStory) : Type 0 where
  pub waiting : story.status ≡ pending
  pub ready : All (λ id. HasStatus stories id done) story.dependencies

-- It is pending, and one of its dependencies has failed.
pub record IsStuck (stories : List SchedulableStory) (story : SchedulableStory) : Type 0 where
  pub waiting : story.status ≡ pending
  pub dependency : String
  pub needed : In dependency story.dependencies
  pub lost : HasStatus stories dependency failed

not_failed_of_done :
    (states : List (Option StorySchedulingStatus))
    → all is_done states ≡ true
    → any is_failed states ≡ false
not_failed_of_done [] h = refl
not_failed_of_done (s ∷ ss) h = ground (arith, not_failed_of_done ss)

get-cons :
    (key id : String) (v : StorySchedulingStatus) (m : StatusMap)
    → get id ((key, v) ∷ m) ≡ (if str_eq key id then some v else get id m)
unfolding get
get-cons key id v m = refl

-- Keys that are there stay as they are.
index_stories-keeps :
    (stories : List SchedulableStory) (m : StatusMap) {status : StatusMap}
    → index_stories stories m ≡ ok status
    → (id : String) (v : StorySchedulingStatus) → get id m ≡ some v
    → get id status ≡ some v
unfolding index_stories
index_stories-keeps [] m h id v k = rw (← ok-injective h) k
index_stories-keeps (s ∷ ss) m h id v k =
    index_stories-keeps ss ((s.id, s.status) ∷ m) (ground arith) id v
      (ground (arith, get-cons s.id id s.status m, eq_iff s.id id))

index_stories-In :
    (stories : List SchedulableStory) (m : StatusMap) {status : StatusMap}
    → index_stories stories m ≡ ok status
    → {story : SchedulableStory} → In story stories
    → get story.id status ≡ some story.status
unfolding index_stories
index_stories-In [] m h i = elim i [ ]
index_stories-In (s ∷ ss) m h In.here =
    index_stories-keeps ss ((s.id, s.status) ∷ m) (ground arith) s.id s.status
      (ground (arith, get-cons s.id s.id s.status m, eq_iff s.id s.id))
index_stories-In (s ∷ ss) m h (In.there i) =
    index_stories-In ss ((s.id, s.status) ∷ m) (ground arith) i

index_stories-HasStatus :
    (stories : List SchedulableStory) (m : StatusMap) {status : StatusMap}
    → index_stories stories m ≡ ok status
    → (id : String) (v : StorySchedulingStatus) → get id status ≡ some v
    → HasStatus stories id v ⊎ (get id m ≡ some v)
unfolding index_stories
index_stories-HasStatus [] m h id v k = inr (rw (ok-injective h) k)
index_stories-HasStatus (s ∷ ss) m h id v k =
    elim (index_stories-HasStatus ss ((s.id, s.status) ∷ m) (ground arith) id v k) [
      | inl (t, i, same, state) ↦ inl (t, In.there i, same, state)
      | inr e ↦ elim (Bool-cases (str_eq s.id id)) [
        | inl here ↦
            inl (s, In.here, (eq_iff s.id id).0 here, ground (arith, get-cons s.id id s.status m))
        | inr other ↦ inr (ground (arith, get-cons s.id id s.status m))
      ]
    ]

module _ (stories : List SchedulableStory) {status : StatusMap}
    (indexed : index_stories stories [] ≡ ok status) where
  -- The map holds exactly the statuses of the stories.
  pub get_iff :
      (id : String) (v : StorySchedulingStatus) → (get id status ≡ some v) ↔ HasStatus stories id v
  unfolding get
  get_iff id v = (
    λ k. elim (index_stories-HasStatus stories [] indexed id v k) [
      | inl x ↦ x
      | inr e ↦ absurd (cc)
    ],
    λ (s, i, same, state). rw (← same, ← state) (index_stories-In stories [] indexed i),
  )

  all_done_iff :
      (ids : List String)
      → (all is_done (map (λ id. get id status) ids) ≡ true)
        ↔ All (λ id. HasStatus stories id done) ids
  all_done_iff [] = (λ h. tt, λ h. refl)
  all_done_iff (id ∷ ids) = (
    λ h. ((get_iff id done).0 (ground arith), (all_done_iff ids).0 (ground arith)),
    λ h. rw ((get_iff id done).1 h.0) ((all_done_iff ids).1 h.1),
  )

  any_failed :
      (ids : List String)
      → any is_failed (map (λ id. get id status) ids) ≡ true
      → (id : String) × In id ids × HasStatus stories id failed
  any_failed [] h = absurd (cc)
  any_failed (id ∷ ids) h = elim (Bool-cases (is_failed (get id status))) [
    | inl this ↦ (id, In.here, (get_iff id failed).0 (ground arith))
    | inr other ↦ let (x, i, p) = any_failed ids (ground arith) in (x, In.there i, p)
  ]

  any_failed_of_In :
      {id : String} {ids : List String}
      → In id ids
      → HasStatus stories id failed
      → any is_failed (map (λ d. get d status) ids) ≡ true
  any_failed_of_In {id} In.here h = rw ((get_iff id failed).1 h) refl
  any_failed_of_In (In.there i) h = ground (arith, any_failed_of_In i h)

  -- A story is found blocked exactly if it is stuck.
  judge-blocked_iff :
      (story : SchedulableStory) → (judge status story ≡ is_blocked) ↔ IsStuck stories story
  unfolding judge
  judge-blocked_iff story = (
    λ h.
        let (d, i, p) = any_failed story.dependencies (ground arith) in
        record { waiting = ground arith; dependency = d; needed = i; lost = p },
    λ k. ground (arith, any_failed_of_In k.needed k.lost, k.waiting),
  )

  -- A story is found ready exactly if it can start.
  judge-ready_iff :
      (story : SchedulableStory) → (judge status story ≡ is_ready) ↔ (CanStart stories story)
  unfolding judge
  judge-ready_iff story = (
    λ h. record {
      waiting = ground arith;
      ready = (all_done_iff story.dependencies).0 (ground arith);
    },
    λ k.
        let done = (all_done_iff story.dependencies).1 k.ready in
        ground (
          arith,
          k.waiting,
          done,
          not_failed_of_done (map (λ id. get id status) story.dependencies) done,
        ),
  )

  pushed_iff :
      (chosen : Verdict → Bool) (v : Verdict)
      → ((w : Verdict) → (chosen w ≡ true) ↔ (w ≡ v))
      → (id : String)
      → In id (pushed chosen status stories)
        ↔ ((s : SchedulableStory) × In s stories × (judge status s ≡ v) × (s.id ≡ id))
  unfolding pushed
  pushed_iff chosen v only id = (
    λ i.
        let (s, j, same) = In-map _ _ i in
        let (k, p) = In-filter _ stories j in (s, k, (only _).0 p, same),
    λ (s, k, p, same). rw (← same) (
        In-map_of_In (λ story. story.id)
          (In-filter_of_In (λ story. chosen (judge status story)) stories k ((only _).1 p))),
  )

  pub In-pushed_ready_iff :
      (id : String)
      → In id (pushed verdict_ready status stories)
        ↔ ((s : SchedulableStory) × In s stories × CanStart stories s × (s.id ≡ id))
  In-pushed_ready_iff id =
      let (to, from) = pushed_iff verdict_ready is_ready (λ w. ground arith) id in
      (
        λ i. let (s, j, p, same) = to i in (s, j, (judge-ready_iff s).0 p, same),
        λ (s, j, k, same). from (s, j, (judge-ready_iff s).1 k, same),
      )

  pub In-pushed_blocked_iff :
      (id : String)
      → In id (pushed verdict_blocked status stories)
        ↔ ((s : SchedulableStory) × In s stories × IsStuck stories s × (s.id ≡ id))
  In-pushed_blocked_iff id =
      let (to, from) = pushed_iff verdict_blocked is_blocked (λ w. ground arith) id in
      (
        λ i. let (s, j, p, same) = to i in (s, j, (judge-blocked_iff s).0 p, same),
        λ (s, j, k, same). from (s, j, (judge-blocked_iff s).1 k, same),
      )
