-- ===== src/StoryPlan/Invariant.antt =====
-- The invariant of the ordering loops.
use pi_agentworks.Prelude.{
  ℕ, ◌+◌, String, ◌≡◌, refl, ◌≢◌, ap, inl, inr, Bool, true, false, Option, some, List, [], ◌∷◌,
  ◌++◌, length, arith, In, In-append_cases, In-append_left, In-append_right, In-singleton,
  if◌then◌else◌, append_assoc, append-nil, subst,
}
use pi_agentworks.StoryPlan.{UserStory, includes, ids_of}
use pi_agentworks.StoryPlan.Order.{
  ℤ, negsuc, decrement, Remaining, set, get_or_zero, is_zero, release,
}
use pi_agentworks.StoryPlan.Counting.{
  Distinct, Distinct-append, count, count-append, count-one, all_among, Distinct-of_count,
}
use pi_agentworks.StoryPlan.Release.{
  sub_ℕ, decrement-sub_ℕ, is_zero-sub_ℕ, is_negative, In-ids_of, In-ids_of_source, set_self, set_ne,
  release-negative, release-In,
}

-- Each story stands behind everything that it depends on.
abbrev pub IsOrdered : List String → List UserStory → Type 0
IsOrdered before [] = Unit
IsOrdered before (s ∷ ss) =
    ((d : String) → In d s.dependencies → In d before) × IsOrdered (before ++ s.id ∷ []) ss

IsOrdered-append :
    (before : List String) (ss : List UserStory) (s : UserStory)
    → IsOrdered before ss
    → ((d : String) → In d s.dependencies → In d (before ++ ids_of ss))
    → IsOrdered before (ss ++ s ∷ [])
IsOrdered-append before [] s o h = (λ d i. subst (In d) (append-nil before) (h d i), tt)
IsOrdered-append before (x ∷ xs) s o h = (
  o.0,
  IsOrdered-append (before ++ x.id ∷ []) xs s o.1
      (λ d i. rw (append_assoc before (x.id ∷ []) (ids_of xs)) (h d i)),
)

pub ids_of-append :
    (ss : List UserStory) (s : UserStory) → ids_of (ss ++ s ∷ []) ≡ ids_of ss ++ s.id ∷ []
ids_of-append [] s = refl
ids_of-append (x ∷ xs) s = ap (λ l. x.id ∷ l) (ids_of-append xs s)

-- How many of a story's dependencies have been ordered.
abbrev pub met : UserStory → List UserStory → ℕ
met t done = count (includes t.dependencies) (ids_of done)

pub record Inv (stories : List UserStory) (m : Remaining) (done : List UserStory) : Type 0 where
  pub from : (p : UserStory) → In p done → In p stories
  pub distinct : Distinct (ids_of done)
  pub placed : (p : UserStory) → In p done → is_negative (m p.id) ≡ true
  pub counted :
      (t : UserStory)
      → In t stories
      → ¬ (In t.id (ids_of done))
      → m t.id ≡ some (sub_ℕ (length t.dependencies) (met t done))
  pub single : (p : UserStory) → In p done → Distinct p.dependencies
  pub sorted : IsOrdered [] done

-- The number that a story waits for goes down by one if the ordered story is among them.
met_one :
    (b : Bool) (n k : ℕ)
    → (if b then some (decrement (get_or_zero (some (sub_ℕ n k)))) else some (sub_ℕ n k))
      ≡ some (sub_ℕ n (k + (if b then 1 else 0)))
met_one true n k = ap some (decrement-sub_ℕ n k)
met_one false n k = ap (λ j. some (sub_ℕ n j)) (omega arith)

not_negative_of_zero : (v : Option ℤ) → is_zero v ≡ true → is_negative v ≡ false
not_negative_of_zero v h = ground arith

module _ (stories : List UserStory) (u : Distinct (ids_of stories)) (s : UserStory)
    (i : In s stories) {m : Remaining} {done : List UserStory} (inv : Inv stories m done)
    (z : is_zero (m s.id) ≡ true) where
  fresh : ¬ (In s.id (ids_of done))
  fresh k =
      let (p, j, same) = In-ids_of_source done k in
      absurd (ground (arith, inv.placed p j, not_negative_of_zero (m s.id) z, ap m same))

  all_met : length s.dependencies ≡ met s done
  all_met = is_zero-sub_ℕ (length s.dependencies) (met s done) (rw (inv.counted s i fresh) at z)

  placed_after :
      (p : UserStory)
      → In p (done ++ s ∷ [])
      → is_negative (release s.id stories (set s.id (negsuc 0) m) p.id) ≡ true
  placed_after p j =
      release-negative s.id stories (set s.id (negsuc 0) m) p.id (elim (In-append_cases done j) [
        | inl k ↦
            rw (set_ne s.id p.id (negsuc 0) m (λ e. fresh (rw e (In-ids_of done k))))
              (inv.placed p k)
        | inr k ↦ rw (In-singleton k) (rw (set_self s.id (negsuc 0) m) refl)
      ])

  counted_after :
      (t : UserStory)
      → In t stories
      → ¬ (In t.id (ids_of (done ++ s ∷ [])))
      → release s.id stories (set s.id (negsuc 0) m) t.id
        ≡ some (sub_ℕ (length t.dependencies) (met t (done ++ s ∷ [])))
  counted_after t j absent =
      let absent' : ¬ (In t.id (ids_of done ++ s.id ∷ [])) = rw (← ids_of-append done s) absent in
      let other : s.id ≢ t.id = λ e. absent' (In-append_right (ids_of done) (rw e In.here)) in
      let old = inv.counted t j (λ k. absent' (In-append_left (s.id ∷ []) k)) in
      rw
        (
          release-In s.id stories (set s.id (negsuc 0) m) u j,
          set_ne s.id t.id (negsuc 0) m other,
          old,
          ids_of-append done s,
          count-append (includes t.dependencies) (ids_of done) (s.id ∷ []),
          count-one (includes t.dependencies) s.id,
        )
        (met_one (includes t.dependencies s.id) (length t.dependencies) (met t done))

  pub visit-Inv : Inv stories (release s.id stories (set s.id (negsuc 0) m)) (done ++ s ∷ [])
  visit-Inv = record {
    from = λ p j. elim (In-append_cases done j) [
      | inl k ↦ inv.from p k
      | inr k ↦ rw (In-singleton k) i
    ];
    distinct = rw (ids_of-append done s) (Distinct-append (ids_of done) inv.distinct fresh);
    placed = placed_after;
    counted = counted_after;
    single = λ p j. elim (In-append_cases done j) [
      | inl k ↦ inv.single p k
      | inr k ↦
          rw (In-singleton k)
            (Distinct-of_count s.dependencies (ids_of done) inv.distinct (omega (arith, all_met)))
    ];
    sorted =
        IsOrdered-append [] done s inv.sorted
          (all_among s.dependencies (ids_of done) inv.distinct (omega (arith, all_met)));
  }
