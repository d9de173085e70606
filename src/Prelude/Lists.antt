-- ===== src/Prelude/Lists.antt =====
-- Lists over the native numbers, membership and predicates on every element.
use Prim.Native.Nat.{ℕ, zero, suc, ◌+◌, ◌≤◌, ◌<◌, min}
use mathlib.Core.Path.{◌≡◌, refl, sym, ap}
use mathlib.Core.Logic.{◌⊎◌, inl, inr}
use mathlib.Core.Option.{Option, none, some}
use mathlib.Core.Bool.{Bool, true, false, ◌&&◌, ◌||◌}
use mathlib.Core.List.{List, [], ◌∷◌, ◌++◌, map}
use native.Mathlib.Omega.{arith}
use pi_agentworks.Prelude.Tests.{Bool-cases, if◌then◌else◌}

module _ {ℓ} {A : Type ℓ} where
  abbrev pub length : List A → ℕ
  length [] = 0
  length (x ∷ xs) = suc (length xs)

  abbrev pub take : ℕ → List A → List A
  take zero xs = []
  take (suc n) [] = []
  take (suc n) (x ∷ xs) = x ∷ take n xs

  abbrev pub get_elem? : List A → ℕ → Option A
  get_elem? [] i = none
  get_elem? (x ∷ xs) zero = some x
  get_elem? (x ∷ xs) (suc i) = get_elem? xs i

  pub get_elem?_of_lt : (xs : List A) (i : ℕ) → i < length xs → (x : A) × (get_elem? xs i ≡ some x)
  get_elem?_of_lt [] i h = absurd (omega arith)
  get_elem?_of_lt (x ∷ xs) zero h = (x, refl)
  get_elem?_of_lt (x ∷ xs) (suc i) h = get_elem?_of_lt xs i (omega arith)

  pub length-append : (xs ys : List A) → length (xs ++ ys) ≡ length xs + length ys
  length-append [] ys = omega arith
  length-append (x ∷ xs) ys = omega (arith, length-append xs ys)

  pub length-take : (n : ℕ) (xs : List A) → length (take n xs) ≡ min n (length xs)
  length-take zero xs = omega arith
  length-take (suc n) [] = omega arith
  length-take (suc n) (x ∷ xs) = omega (arith, length-take n xs)

  pub take-nil : (n : ℕ) → take n [] ≡ []
  take-nil zero = refl
  take-nil (suc n) = refl

  pub take-eq_self : (n : ℕ) (xs : List A) → length xs ≤ n → take n xs ≡ xs
  take-eq_self zero [] h = refl
  take-eq_self zero (x ∷ xs) h = absurd (omega arith)
  take-eq_self (suc n) [] h = refl
  take-eq_self (suc n) (x ∷ xs) h = ap (λ ys. x ∷ ys) (take-eq_self n xs (omega arith))

  -- `Array.prototype.filter`, `some` and `every`.
  abbrev pub filter : (A → Bool) → List A → List A
  filter p [] = []
  filter p (x ∷ xs) = if p x then x ∷ filter p xs else filter p xs

  abbrev pub any : (A → Bool) → List A → Bool
  any p [] = false
  any p (x ∷ xs) = p x || any p xs

  abbrev pub all : (A → Bool) → List A → Bool
  all p [] = true
  all p (x ∷ xs) = p x && all p xs

  pub filter-append :
      (p : A → Bool) (xs ys : List A) → filter p (xs ++ ys) ≡ filter p xs ++ filter p ys
  filter-append p [] ys = refl
  filter-append p (x ∷ xs) ys = ground (arith, filter-append p xs ys)

  pub length-filter-le : (p : A → Bool) (xs : List A) → length (filter p xs) ≤ length xs
  length-filter-le p [] = omega arith
  length-filter-le p (x ∷ xs) = ground (arith, length-filter-le p xs)

  -- Membership that can be matched: where the element stands.
  pub data In (a : A) : List A → Type ℓ where
    here : {xs : List A} → In a (a ∷ xs)
    there : {x : A} {xs : List A} → In a xs → In a (x ∷ xs)

  pub not_In_nil : {a : A} → ¬ (In a [])
  not_In_nil i = elim i [ ]

  pub In-singleton : {a b : A} → In a (b ∷ []) → a ≡ b
  In-singleton here = refl
  In-singleton (there i) = elim i [ ]

  pub In-append_left : {a : A} {xs : List A} (ys : List A) → In a xs → In a (xs ++ ys)
  In-append_left ys here = here
  In-append_left ys (there i) = there (In-append_left ys i)

  pub In-append_right : {a : A} (xs : List A) {ys : List A} → In a ys → In a (xs ++ ys)
  In-append_right [] i = i
  In-append_right (x ∷ xs) i = there (In-append_right xs i)

  pub In-append_cases : {a : A} (xs : List A) {ys : List A} → In a (xs ++ ys) → In a xs ⊎ In a ys
  In-append_cases [] i = inr i
  In-append_cases (x ∷ xs) here = inl here
  In-append_cases (x ∷ xs) (there i) = elim (In-append_cases xs i) [
    | inl j ↦ inl (there j)
    | inr j ↦ inr j
  ]

  pub In-take : {a : A} (n : ℕ) (xs : List A) → In a (take n xs) → In a xs
  In-take zero xs i = elim i [ ]
  In-take (suc n) [] i = elim i [ ]
  In-take (suc n) (x ∷ xs) here = here
  In-take (suc n) (x ∷ xs) (there i) = there (In-take n xs i)

  pub In-cons_cases : {a x : A} {xs : List A} → In a (x ∷ xs) → (a ≡ x) ⊎ In a xs
  In-cons_cases here = inl refl
  In-cons_cases (there i) = inr i

  pub In-filter : {a : A} (p : A → Bool) (xs : List A) → In a (filter p xs) → In a xs × (p a ≡ true)
  In-filter p [] i = elim i [ ]
  In-filter p (x ∷ xs) i = elim (Bool-cases (p x)) [
    | inl e ↦ elim (In-cons_cases (rw e at i)) [
      | inl same ↦ (rw same here, rw same e)
      | inr j ↦ let (k, h) = In-filter p xs j in (there k, h)
    ]
    | inr e ↦ let (k, h) = In-filter p xs (rw e at i) in (there k, h)
  ]

  pub In-filter_of_In :
      {a : A} (p : A → Bool) (xs : List A) → In a xs → p a ≡ true → In a (filter p xs)
  In-filter_of_In p [] i h = elim i [ ]
  In-filter_of_In p (x ∷ xs) i h = elim (Bool-cases (p x)) [
    | inl e ↦ rw e (elim (In-cons_cases i) [
      | inl same ↦ rw same here
      | inr j ↦ there (In-filter_of_In p xs j h)
    ])
    | inr e ↦ rw e (elim (In-cons_cases i) [
      | inl same ↦ absurd (ground (arith, ap p same))
      | inr j ↦ In-filter_of_In p xs j h
    ])
  ]

  pub all-In : {a : A} (p : A → Bool) (xs : List A) → all p xs ≡ true → In a xs → p a ≡ true
  all-In p [] h i = elim i [ ]
  all-In p (x ∷ xs) h i = elim (In-cons_cases i) [
    | inl same ↦ rw same (ground arith)
    | inr j ↦ all-In p xs (ground arith) j
  ]

  pub all_of_In : (p : A → Bool) (xs : List A) → ((a : A) → In a xs → p a ≡ true) → all p xs ≡ true
  all_of_In p [] h = refl
  all_of_In p (x ∷ xs) h = ground (arith, h x here, all_of_In p xs (λ a i. h a (there i)))

module _ {ℓ κ} {A : Type ℓ} {B : Type κ} where
  pub In-map : {b : B} (f : A → B) (xs : List A) → In b (map f xs) → (a : A) × In a xs × (f a ≡ b)
  In-map f [] i = elim i [ ]
  In-map f (x ∷ xs) i = elim (In-cons_cases i) [
    | inl same ↦ (x, here, sym same)
    | inr k ↦ let (a, j, e) = In-map f xs k in (a, there j, e)
  ]

  pub In-map_of_In : {a : A} (f : A → B) {xs : List A} → In a xs → In (f a) (map f xs)
  In-map_of_In f here = here
  In-map_of_In f (there i) = there (In-map_of_In f i)

module _ {ℓ κ} {A : Type ℓ} (P : A → Type κ) where
  -- Every element satisfies `P`.
  abbrev pub All : List A → Type κ
  All [] = Unit
  All (x ∷ xs) = P x × All xs

  pub All-In : {a : A} {xs : List A} → All xs → In a xs → P a
  All-In h here = h.0
  All-In h (there i) = All-In h.1 i

  pub All-append : (xs ys : List A) → All xs → All ys → All (xs ++ ys)
  All-append [] ys h k = k
  All-append (x ∷ xs) ys h k = (h.0, All-append xs ys h.1 k)
