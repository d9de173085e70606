-- ===== src/StoryPlan/Correct.antt =====
-- validateAndOrderStories returns, and what it returns is right.
use pi_agentworks.Prelude.{
  ℕ, zero, suc, ◌≤◌, ◌<◌, String, ◌≡◌, refl, ◌∙◌, sym, ap, inl, inr, true, false, none, some, List,
  [], ◌∷◌, length, arith, In, Bool-cases, if◌then◌else◌, ◌==◌, subst,
}
use pi_agentworks.StoryPlan.{
  UserStory, StoryPlanResult, ordered, invalid, includes, ids_of, plan_issues,
}
use pi_agentworks.StoryPlan.Order.{
  is_empty, initial, is_zero, order_loop, plan_result, topological_order,
  validate_and_order_stories,
}
use pi_agentworks.StoryPlan.Counting.{
  Distinct, all_among, count-includes-le, count_of_all, count_of_among, includes_iff,
}
use pi_agentworks.StoryPlan.Release.{In-ids_of, In-ids_of_source, sub_ℕ}
use pi_agentworks.StoryPlan.Invariant.{IsOrdered, met}
use pi_agentworks.StoryPlan.Loop.{IsSettled, bounded, initial-Inv, length-ids_of, order_loop_total}
use pi_agentworks.StoryPlan.Issues.{Distinct-of_plan, known_of_plan, size-Distinct}

-- The same ids, each once, and each story behind its dependencies, none of which it names twice.
pub record IsArrangement (stories order : List UserStory) : Type 0 where
  pub sorted : IsOrdered [] order
  pub distinct : Distinct (ids_of order)
  pub from : (s : UserStory) → In s order → In s stories
  pub single : (s : UserStory) → In s order → Distinct s.dependencies
  pub covers : (s : UserStory) → In s stories → In s.id (ids_of order)

among :
    {stories : List UserStory} (order : List UserStory)
    → ((s : UserStory) → In s order → In s stories)
    → (x : String) → In x (ids_of order)
    → In x (ids_of stories)
among {stories} order from x i =
    let (s, j, same) = In-ids_of_source order i in
    subst (λ k. In k (ids_of stories)) same (In-ids_of stories (from s j))

not_stuck : (a b : ℕ) → a ≡ b → ¬ (is_zero (some (sub_ℕ a b)) ≡ false)
not_stuck a b e h = absurd (ground (arith, e, h))

module _ (stories : List UserStory) (u : Distinct (ids_of stories)) where
  settled :
      (order : List UserStory) × (order_loop (suc (length stories)) stories (initial stories)
        ≡ some order)
      × IsSettled stories u order
  settled =
      order_loop_total stories u (suc (length stories)) (initial stories) (initial-Inv stories u)
        (omega arith)

  order : List UserStory
  order = settled.0

  arranged : length stories ≤ length order → IsArrangement stories order
  unfolding order
  arranged all =
      let inv = settled.2.inv in
      record {
        sorted = inv.sorted;
        distinct = inv.distinct;
        from = inv.from;
        single = inv.single;
        covers = λ s i.
            all_among (ids_of stories) (ids_of settled.0) inv.distinct
              (omega (
                arith,
                all,
                count_of_all (ids_of stories) (ids_of settled.0) (among settled.0 inv.from),
                length-ids_of stories,
                length-ids_of settled.0,
              ))
              s.id (In-ids_of stories i);
      }

  validated :
      topological_order stories ≡ some (if length order == length stories then some order else none)
  unfolding topological_order order
  validated =
      rw (topological_order, settled.1, size-Distinct (ids_of stories) u, length-ids_of stories)
        refl

  module _ (rank : String → ℕ)
      (rises : (s : UserStory)
        → In s stories
        → (d : String) → In d s.dependencies
        → rank d < rank s.id)
      (single : (s : UserStory) → In s stories → Distinct s.dependencies)
      (known : (s : UserStory)
        → In s stories
        → (d : String) → In d s.dependencies
        → In d (ids_of stories)) where
    -- A story whose dependencies have all been ordered has been ordered.
    ordered_after :
        (t : UserStory)
        → In t stories
        → ((d : String) → In d t.dependencies → In d (ids_of order))
        → In t.id (ids_of order)
    unfolding order
    ordered_after t i before = elim (Bool-cases (includes (ids_of order) t.id)) [
      | inl h ↦ (includes_iff (ids_of order) t.id).0 h
      | inr h ↦
          let absent : ¬ (In t.id (ids_of order)) =
            λ k. absurd (ground (arith, h, (includes_iff (ids_of order) t.id).1 k)) in
          let inv = settled.2.inv in
          let stuck = settled.2.stuck t i in
          let waits = inv.counted t i absent in
          let all : length t.dependencies ≡ met t order = omega (
            arith,
            count-includes-le t.dependencies (ids_of order) inv.distinct,
            count_of_among t.dependencies (ids_of order) (single t i) before,
          ) in
          absurd (not_stuck (length t.dependencies) (met t order) all (rw waits at stuck))
    ]

    ordered_below : (n : ℕ) (t : UserStory) → In t stories → rank t.id < n → In t.id (ids_of order)
    ordered_below zero t i h = absurd (omega (arith, h))
    ordered_below (suc n) t i h = ordered_after t i (λ d j.
        let (s, k, same) = In-ids_of_source stories (known t i d j) in
        subst (λ x. In x (ids_of order)) same
          (ordered_below n s k (rw same (omega (arith, rises t i d j, h)))))

    all_ordered : length order ≡ length stories
    unfolding order
    all_ordered =
        let every : (x : String) → In x (ids_of stories) → In x (ids_of settled.0) = λ x i.
          let (s, k, same) = In-ids_of_source stories i in
          subst (λ y. In y (ids_of settled.0)) same
            (ordered_below (suc (rank s.id)) s k (omega arith)) in
        omega (
          arith,
          bounded stories u settled.2.remaining settled.0 settled.2.inv,
          count_of_among (ids_of stories) (ids_of settled.0) u every,
          count_of_all (ids_of stories) (ids_of settled.0) (among settled.0 settled.2.inv.from),
          length-ids_of stories,
          length-ids_of settled.0,
        )

validate_of_issues :
    (s : UserStory) (ss : List UserStory)
    → is_empty (plan_issues (s ∷ ss)) ≡ false
    → validate_and_order_stories (s ∷ ss) ≡ some (invalid (plan_issues (s ∷ ss)))
unfolding validate_and_order_stories
validate_of_issues s ss h = rw h refl

validate_of_order :
    (s : UserStory) (ss : List UserStory) (u : Distinct (ids_of (s ∷ ss)))
    → is_empty (plan_issues (s ∷ ss)) ≡ true
    → validate_and_order_stories (s ∷ ss)
      ≡ some (
          plan_result (
            if length (order (s ∷ ss) u) == length (s ∷ ss) then some (order (s ∷ ss) u) else none))
unfolding validate_and_order_stories
validate_of_order s ss u h = rw (h, validated (s ∷ ss) u) refl

-- For every list of stories, with as many rounds as the model has as fuel, the validation returns a
-- result: the loop over the rounds ends by its own test.
pub validate_and_order_stories_total :
    (stories : List UserStory)
    → (result : StoryPlanResult) × (validate_and_order_stories stories ≡ some result)
unfolding validate_and_order_stories
validate_and_order_stories_total [] =
    (invalid ("a plan must contain at least one story" ∷ []), refl)
validate_and_order_stories_total (s ∷ ss) = elim (Bool-cases (is_empty (plan_issues (s ∷ ss)))) [
  | inl h ↦ (_, validate_of_order s ss (Distinct-of_plan (s ∷ ss) h) h)
  | inr h ↦ (_, validate_of_issues s ss h)
]

option-injective : {x y : StoryPlanResult} → some x ≡ some y → x ≡ y
option-injective h = cc

arranged_of_result :
    (stories : List UserStory) (u : Distinct (ids_of stories)) {os : List UserStory}
    → some (
        plan_result
          (if length (order stories u) == length stories then some (order stories u) else none))
      ≡ some (ordered os)
    → IsArrangement stories os
arranged_of_result stories u {os} h =
    elim (Bool-cases (length (order stories u) == length stories)) [
      | inl same ↦
          subst (IsArrangement stories) (ground (arith, same, h))
            (arranged stories u (ground (arith, same)))
      | inr other ↦ absurd (ground (arith, other, h))
    ]

-- If the validation returns an order, the order has exactly the ids of the given stories, each once,
-- all its stories are given ones, and each story stands behind all that it depends on and names
-- no dependency twice.
pub validate_and_order_stories-IsArrangement :
    (stories os : List UserStory)
    → validate_and_order_stories stories ≡ some (ordered os)
    → IsArrangement stories os
unfolding validate_and_order_stories
validate_and_order_stories-IsArrangement [] os h = absurd (cc)
validate_and_order_stories-IsArrangement (s ∷ ss) os h =
    elim (Bool-cases (is_empty (plan_issues (s ∷ ss)))) [
      | inl e ↦
          let u = Distinct-of_plan (s ∷ ss) e in
          arranged_of_result (s ∷ ss) u (sym (validate_of_order s ss u e) ∙ h)
      | inr e ↦ absurd (let bad = sym (validate_of_issues s ss e) ∙ h in cc)
    ]

-- A plan of at least one story whose first checks find no issue, in which no story names a
-- dependency twice and some ranking of the ids puts each story above all its dependencies (so that
-- there is no cycle), is ordered.
pub validate_and_order_stories_complete :
    (s : UserStory) (ss : List UserStory) (rank : String → ℕ)
    → plan_issues (s ∷ ss) ≡ []
    → ((t : UserStory) → In t (s ∷ ss) → Distinct t.dependencies)
    → ((t : UserStory) → In t (s ∷ ss) → (d : String) → In d t.dependencies → rank d < rank t.id)
    → (os : List UserStory) × (validate_and_order_stories (s ∷ ss) ≡ some (ordered os))
validate_and_order_stories_complete s ss rank none_found single rises =
    let e : is_empty (plan_issues (s ∷ ss)) ≡ true = ap is_empty none_found in
    let u = Distinct-of_plan (s ∷ ss) e in
    let all =
      all_ordered (s ∷ ss) u rank rises single (λ t i d j. (known_of_plan (s ∷ ss) e t i d j).0) in
    (order (s ∷ ss) u, validate_of_order s ss u e ∙ ground (arith, all))
