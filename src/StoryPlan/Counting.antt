-- ===== src/StoryPlan/Counting.antt =====
-- Distinct keys, and counting how many of them are in a list.
use pi_agentworks.Prelude.{
  ℕ, suc, ◌+◌, ◌≤◌, String, ◌≡◌, refl, ◌⊎◌, inl, inr, Bool, true, ◌||◌, List, [], ◌∷◌, ◌++◌, length,
  arith, In, In-cons_cases, In-append_cases, In-singleton, not_In_nil, Bool-cases, if◌then◌else◌,
  eq_iff, str_eq, ap,
}
use pi_agentworks.StoryPlan.{includes}

pub includes_iff :
    (ids : List String) (id : String)
    → ((includes ids id ≡ true) → In id ids) × (In id ids → includes ids id ≡ true)
unfolding includes
includes_iff [] id = (λ h. absurd (cc), λ i. absurd (not_In_nil i))
includes_iff (x ∷ xs) id = (
  λ h. elim (Bool-cases (str_eq x id)) [
    | inl same ↦ rw ((eq_iff x id).0 same) In.here
    | inr other ↦ In.there ((includes_iff xs id).0 (ground arith))
  ],
  λ i. elim (In-cons_cases i) [
    | inl same ↦ ground (arith, eq_iff x id)
    | inr j ↦ ground (arith, (includes_iff xs id).1 j)
  ],
)

abbrev pub Distinct : List String → Type 0
Distinct [] = Unit
Distinct (x ∷ xs) = (¬ (In x xs)) × Distinct xs

pub Distinct-append :
    (xs : List String) {x : String} → Distinct xs → ¬ (In x xs) → Distinct (xs ++ x ∷ [])
Distinct-append [] d n = (not_In_nil, tt)
Distinct-append (y ∷ ys) {x} d n = (
  λ i. elim (In-append_cases ys i) [ inl j ↦ d.0 j | inr j ↦ n (rw (In-singleton j) In.here) ],
  Distinct-append ys d.1 (λ i. n (In.there i)),
)

-- How many of the keys pass the test.
unfoldable pub count : (String → Bool) → List String → ℕ
count p [] = 0
count p (x ∷ xs) = if p x then suc (count p xs) else count p xs

pub count-append :
    (p : String → Bool) (xs ys : List String) → count p (xs ++ ys) ≡ count p xs + count p ys
unfolding count
count-append p [] ys = omega arith
count-append p (x ∷ xs) ys = ground (arith, count-append p xs ys)

pub count-one : (p : String → Bool) (x : String) → count p (x ∷ []) ≡ (if p x then 1 else 0)
unfolding count
count-one p x = refl

count-or :
    (p q : String → Bool) (xs : List String) → count (λ x. p x || q x) xs ≤ count p xs + count q xs
unfolding count
count-or p q [] = omega arith
count-or p q (x ∷ xs) = ground (arith, count-or p q xs)

count-absent : (d : String) (xs : List String) → ¬ (In d xs) → count (str_eq d) xs ≡ 0
unfolding count
count-absent d [] n = refl
count-absent d (x ∷ xs) n = elim (Bool-cases (str_eq d x)) [
  | inl same ↦ absurd (n (rw ((eq_iff d x).0 same) In.here))
  | inr other ↦ rw other (count-absent d xs (λ i. n (In.there i)))
]

-- A key stands at most once among distinct ones, and is there if it is counted.
count-Distinct :
    (d : String) (xs : List String)
    → Distinct xs
    → (count (str_eq d) xs ≤ 1) × ((count (str_eq d) xs ≡ 0) ⊎ In d xs)
unfolding count
count-Distinct d [] u = (omega arith, inl refl)
count-Distinct d (x ∷ xs) u = elim (Bool-cases (str_eq d x)) [
  | inl same ↦
      let e = (eq_iff d x).0 same in
      rw same (omega (arith, count-absent d xs (rw e u.0)), inr (rw e In.here))
  | inr other ↦
      let (most, found) = count-Distinct d xs u.1 in
      rw other (most, elim found [ inl z ↦ inl z | inr i ↦ inr (In.there i) ])
]

count-includes_cons :
    (d : String) (ds xs : List String)
    → count (includes (d ∷ ds)) xs ≤ count (str_eq d) xs + count (includes ds) xs
unfolding includes
count-includes_cons d ds xs = count-or (str_eq d) (includes ds) xs

count-none : (xs : List String) → count (includes []) xs ≡ 0
unfolding count includes
count-none [] = refl
count-none (x ∷ xs) = count-none xs

-- Of distinct keys, no more are in a list than the list is long; and if that many are, the whole
-- list is among the keys.
pub count-includes-le : (ds xs : List String) → Distinct xs → count (includes ds) xs ≤ length ds
count-includes-le [] xs u = rw (count-none xs) (omega arith)
count-includes-le (d ∷ ds) xs u =
    omega (arith, count-includes_cons d ds xs, (count-Distinct d xs u).0, count-includes-le ds xs u)

pub all_among :
    (ds xs : List String)
    → Distinct xs
    → length ds ≤ count (includes ds) xs
    → (d : String) → In d ds
    → In d xs
all_among [] xs u h d i = absurd (not_In_nil i)
all_among (e ∷ ds) xs u h d i =
    let split = count-includes_cons e ds xs in
    let (most, found) = count-Distinct e xs u in
    let bound = count-includes-le ds xs u in
    elim (In-cons_cases i) [
      | inl same ↦ elim found [
        | inl z ↦ absurd (omega (arith, split, z, bound, h))
        | inr j ↦ rw same j
      ]
      | inr j ↦ all_among ds xs u (omega (arith, split, most, bound, h)) d j
    ]

-- A list with a repeated element cannot be counted to its full length.
count-le_of_imp :
    (p q : String → Bool) (xs : List String)
    → ((x : String) → p x ≡ true → q x ≡ true)
    → count p xs ≤ count q xs
unfolding count
count-le_of_imp p q [] h = omega arith
count-le_of_imp p q (x ∷ xs) h = ground (arith, h x, count-le_of_imp p q xs h)

pub Distinct-of_count :
    (ds xs : List String) → Distinct xs → length ds ≤ count (includes ds) xs → Distinct ds
Distinct-of_count [] xs u h = tt
Distinct-of_count (e ∷ ds) xs u h =
    let bound = count-includes-le ds xs u in
    (
      λ i. absurd (
          omega (
            arith,
            bound,
            h,
            count-le_of_imp (includes (e ∷ ds)) (includes ds) xs (λ x c.
                (includes_iff ds x).1 (elim (In-cons_cases ((includes_iff (e ∷ ds) x).0 c)) [
                  | inl same ↦ rw same i
                  | inr j ↦ j
                ])),
          )),
      Distinct-of_count ds xs u
          (omega (arith, count-includes_cons e ds xs, (count-Distinct e xs u).0, h)),
    )

-- Keys that are all in the list are all counted.
pub count_of_all :
    (ds xs : List String) → ((x : String) → In x xs → In x ds) → count (includes ds) xs ≡ length xs
unfolding count
count_of_all ds [] h = refl
count_of_all ds (x ∷ xs) h =
    rw ((includes_iff ds x).1 (h x In.here)) (ap suc (count_of_all ds xs (λ y i. h y (In.there i))))

count-disjoint :
    (d : String) (ds xs : List String)
    → ¬ (In d ds)
    → count (includes (d ∷ ds)) xs ≡ count (str_eq d) xs + count (includes ds) xs
unfolding count includes
count-disjoint d ds [] n = refl
count-disjoint d ds (x ∷ xs) n = elim (Bool-cases (str_eq d x)) [
  | inl same ↦
      let e = (eq_iff d x).0 same in
      elim (Bool-cases (includes ds x)) [
        | inl h ↦ absurd (n (rw e ((includes_iff ds x).0 h)))
        | inr h ↦ ground (arith, same, h, count-disjoint d ds xs n)
      ]
  | inr other ↦ ground (arith, other, count-disjoint d ds xs n)
]

count_of_In : (d : String) (xs : List String) → In d xs → 1 ≤ count (str_eq d) xs
unfolding count
count_of_In d [] i = absurd (not_In_nil i)
count_of_In d (x ∷ xs) i = elim (In-cons_cases i) [
  | inl same ↦ ground (arith, eq_iff d x, same)
  | inr j ↦ ground (arith, count_of_In d xs j)
]

-- Distinct keys that all stand in a list are all counted in it.
pub count_of_among :
    (ds xs : List String)
    → Distinct ds
    → ((d : String) → In d ds → In d xs)
    → length ds ≤ count (includes ds) xs
count_of_among [] xs u h = omega arith
count_of_among (d ∷ ds) xs u h = omega (
  arith,
  count-disjoint d ds xs u.0,
  count_of_In d xs (h d In.here),
  count_of_among ds xs u.1 (λ e i. h e (In.there i)),
)
