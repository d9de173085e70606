-- ===== src/StoryPlan/Loop.antt =====
-- The loops of the order end by their own tests, in a state in which no story can be ordered.
use pi_agentworks.Prelude.{
  ℕ, zero, suc, ◌+◌, ◌≤◌, ◌<◌, String, ◌≡◌, refl, ◌∙◌, ap, ◌⊎◌, inl, inr, true, false, some, List,
  [], ◌∷◌, length, length-append, arith, In, In-cons_cases, not_In_nil, Bool-cases, subst,
}
use pi_agentworks.StoryPlan.{UserStory, ids_of}
use pi_agentworks.StoryPlan.Order.{
  pos, Remaining, set, is_zero, count_dependencies, Progress, visit, pass, order_loop, empty_map,
  initial,
}
use pi_agentworks.StoryPlan.Counting.{Distinct, count, count-includes-le, count_of_all}
use pi_agentworks.StoryPlan.Release.{sub_ℕ, In-ids_of, In-ids_of_source, set_self, set_ne}
use pi_agentworks.StoryPlan.Invariant.{Inv, visit-Inv}

count_dependencies_ne :
    (stories : List UserStory) (m : Remaining) (j : String)
    → ¬ (In j (ids_of stories))
    → count_dependencies stories m j ≡ m j
unfolding count_dependencies
count_dependencies_ne [] m j n = refl
count_dependencies_ne (s ∷ ss) m j n =
    count_dependencies_ne ss (set s.id (pos (length s.dependencies)) m) j (λ i. n (In.there i))
    ∙ set_ne s.id j (pos (length s.dependencies)) m (λ e. n (rw e In.here))

count_dependencies-In :
    (stories : List UserStory) (m : Remaining) {t : UserStory}
    → Distinct (ids_of stories)
    → In t stories
    → count_dependencies stories m t.id ≡ some (pos (length t.dependencies))
unfolding count_dependencies
count_dependencies-In [] m u i = absurd (not_In_nil i)
count_dependencies-In (s ∷ ss) m u i = elim (In-cons_cases i) [
  | inl same ↦ rw same (
      count_dependencies_ne ss (set s.id (pos (length s.dependencies)) m) s.id u.0
      ∙ set_self s.id (pos (length s.dependencies)) m)
  | inr j ↦ count_dependencies-In ss (set s.id (pos (length s.dependencies)) m) u.1 j
]

pub length-ids_of : (stories : List UserStory) → length (ids_of stories) ≡ length stories
length-ids_of [] = refl
length-ids_of (s ∷ ss) = ap suc (length-ids_of ss)

sub_ℕ-zero : (n : ℕ) → pos n ≡ sub_ℕ n 0
sub_ℕ-zero n = ground arith

module _ (stories : List UserStory) (u : Distinct (ids_of stories)) where
  pub initial-Inv : Inv stories (initial stories).remaining []
  unfolding count
  initial-Inv = record {
    from = λ p i. absurd (not_In_nil i);
    distinct = tt;
    placed = λ p i. absurd (not_In_nil i);
    counted = λ t i absent.
        count_dependencies-In stories empty_map u i ∙ ap some (sub_ℕ-zero (length t.dependencies));
    single = λ p i. absurd (not_In_nil i);
    sorted = tt;
  }

  abbrev Holds : Progress → Type 0
  Holds p = Inv stories p.remaining p.ordered_so_far

  visit-Holds : (s : UserStory) (p : Progress) → In s stories → Holds p → Holds (visit stories s p)
  unfolding visit
  visit-Holds s p i h = elim (Bool-cases (is_zero (p.remaining s.id))) [
    | inl z ↦ rw z (visit-Inv stories u s i h z)
    | inr z ↦ rw z h
  ]

  pass-Holds :
      (later : List UserStory) (p : Progress)
      → ((s : UserStory) → In s later → In s stories)
      → Holds p
      → Holds (pass stories later p)
  unfolding pass
  pass-Holds [] p sub h = h
  pass-Holds (s ∷ ss) p sub h =
      pass-Holds ss (visit stories s p) (λ t i. sub t (In.there i))
        (visit-Holds s p (sub s In.here) h)

  -- A pass that orders nothing found no story that waits for none; one that progressed has ordered
  -- more than before.
  pass_grows :
      (later : List UserStory) (p : Progress)
      → (length p.ordered_so_far ≤ length (pass stories later p).ordered_so_far)
        × ((pass stories later p).progressed ≡ true
            → (p.progressed ≡ true)
              ⊎ (length p.ordered_so_far < length (pass stories later p).ordered_so_far))
  unfolding pass visit
  pass_grows [] p = (omega arith, λ h. inl h)
  pass_grows (s ∷ ss) p =
      let (more, why) = pass_grows ss (visit stories s p) in
      elim (Bool-cases (is_zero (p.remaining s.id))) [
        | inl z ↦ ground (arith, more, z, length-append p.ordered_so_far (s ∷ []))
        | inr z ↦ ground (arith, more, why, z)
      ]

  pass_keeps_progress :
      (later : List UserStory) (p : Progress)
      → p.progressed ≡ true
      → (pass stories later p).progressed ≡ true
  unfolding pass visit
  pass_keeps_progress [] p h = h
  pass_keeps_progress (s ∷ ss) p h =
      pass_keeps_progress ss (visit stories s p)
        (elim (Bool-cases (is_zero (p.remaining s.id))) [ inl z ↦ rw z refl | inr z ↦ rw z h ])

  visit_of_not_zero :
      (s : UserStory) (p : Progress) → is_zero (p.remaining s.id) ≡ false → visit stories s p ≡ p
  unfolding visit
  visit_of_not_zero s p z = ground (arith, z)

  visit_progressed :
      (s : UserStory) (p : Progress)
      → is_zero (p.remaining s.id) ≡ true
      → (visit stories s p).progressed ≡ true
  unfolding visit
  visit_progressed s p z = rw z refl

  pass_stuck :
      (later : List UserStory) (p : Progress)
      → (pass stories later p).progressed ≡ false
      → (pass stories later p ≡ p)
        × ((s : UserStory) → In s later → is_zero (p.remaining s.id) ≡ false)
  unfolding pass
  pass_stuck [] p h = (refl, λ s i. absurd (not_In_nil i))
  pass_stuck (s ∷ ss) p h = elim (Bool-cases (is_zero (p.remaining s.id))) [
    | inl z ↦
        absurd
          (ground (arith, h, pass_keeps_progress ss (visit stories s p) (visit_progressed s p z)))
    | inr z ↦
        let unmoved = visit_of_not_zero s p z in
        let (same, none_left) =
          pass_stuck ss p (subst (λ q. (pass stories ss q).progressed ≡ false) unmoved h) in
        (
          ap (pass stories ss) unmoved ∙ same,
          λ t i. elim (In-cons_cases i) [ inl e ↦ rw e z | inr j ↦ none_left t j ],
        )
  ]

  pub bounded :
      (m : Remaining) (done : List UserStory) → Inv stories m done → length done ≤ length stories
  bounded m done inv =
      let known = λ (x : String) (i : In x (ids_of done)).
        let (p, j, same) = In-ids_of_source done i in
        subst (λ k. In k (ids_of stories)) same (In-ids_of stories (inv.from p j)) in
      omega (
        arith,
        length-ids_of done,
        length-ids_of stories,
        count_of_all (ids_of stories) (ids_of done) known,
        count-includes-le (ids_of stories) (ids_of done) inv.distinct,
      )

  -- The end of the loop: the invariant holds, and no story waits for none.
  pub record IsSettled (order : List UserStory) : Type 0 where
    pub remaining : Remaining
    pub inv : Inv stories remaining order
    pub stuck : (s : UserStory) → In s stories → is_zero (remaining s.id) ≡ false

  -- Each pass but the last orders a story, so one pass more than there are stories is enough.
  pub order_loop_total :
      (fuel : ℕ) (p : Progress)
      → Holds p
      → length stories < fuel + length p.ordered_so_far
      → (order : List UserStory) × (order_loop fuel stories p ≡ some order) × IsSettled order
  unfolding order_loop pass
  order_loop_total zero p h enough = absurd (omega (arith, bounded p.remaining p.ordered_so_far h))
  order_loop_total (suc fuel) p h enough =
      let start : Progress = record p { progressed = false } in
      let held = pass-Holds stories start (λ s i. i) h in
      elim (Bool-cases (pass stories stories start).progressed) [
        | inl more ↦
            let grown = (pass_grows stories start).1 more in
            let (order, ended, settled) =
              order_loop_total fuel (pass stories stories start) held (ground (arith, grown)) in
            (order, rw more ended, settled)
        | inr over ↦
            let (same, none_left) = pass_stuck stories start over in
            (
              (pass stories stories start).ordered_so_far,
              rw over refl,
              record {
                remaining = (pass stories stories start).remaining;
                inv = held;
                stuck = λ s i. rw same (none_left s i);
              },
            )
      ]
