-- ===== src/StoryPlan/Release.antt =====
-- What the innermost loop does to the map, key by key.
use pi_agentworks.Prelude.{
  ℕ, zero, suc, ◌+◌, ◌-◌, String, ◌≡◌, refl, ◌≢◌, ◌∙◌, sym, inl, inr, Bool, true, false, Option,
  none, some, List, [], ◌∷◌, arith, In, In-cons_cases, not_In_nil, Bool-cases, if◌then◌else◌, leb,
  eq_iff, str_eq,
}
use pi_agentworks.StoryPlan.{UserStory, includes, ids_of}
use pi_agentworks.StoryPlan.Order.{
  ℤ, pos, negsuc, decrement, Remaining, set, get_or_zero, is_zero, release,
}
use pi_agentworks.StoryPlan.Counting.{Distinct}

-- a - b, as an integer.
abbrev pub sub_ℕ : ℕ → ℕ → ℤ
sub_ℕ a b = if leb b a then pos (a - b) else negsuc (b - a - 1)

decrement_pos : (n : ℕ) → decrement (pos n) ≡ sub_ℕ n 1
unfolding decrement
decrement_pos zero = refl
decrement_pos (suc n) = ground arith

pub decrement-sub_ℕ : (a b : ℕ) → decrement (sub_ℕ a b) ≡ sub_ℕ a (b + 1)
unfolding decrement
decrement-sub_ℕ a b = elim (Bool-cases (leb b a)) [
  | inl h ↦ rw h (decrement_pos (a - b) ∙ ground arith)
  | inr h ↦ rw h (ground arith)
]

pub is_zero-sub_ℕ : (a b : ℕ) → is_zero (some (sub_ℕ a b)) ≡ true → a ≡ b
is_zero-sub_ℕ a b h = ground arith

abbrev pub is_negative : Option ℤ → Bool
is_negative (some (negsuc n)) = true
is_negative _ = false

pub In-ids_of : {s : UserStory} (stories : List UserStory) → In s stories → In s.id (ids_of stories)
In-ids_of [] i = absurd (not_In_nil i)
In-ids_of (x ∷ xs) i = elim (In-cons_cases i) [
  | inl same ↦ rw same In.here
  | inr j ↦ In.there (In-ids_of xs j)
]

pub In-ids_of_source :
    {id : String} (stories : List UserStory)
    → In id (ids_of stories)
    → (s : UserStory) × In s stories × (s.id ≡ id)
In-ids_of_source [] i = absurd (not_In_nil i)
In-ids_of_source (x ∷ xs) i = elim (In-cons_cases i) [
  | inl same ↦ (x, In.here, sym same)
  | inr j ↦ let (s, k, e) = In-ids_of_source xs j in (s, In.there k, e)
]

pub set_self : (k : String) (v : ℤ) (m : Remaining) → set k v m k ≡ some v
unfolding set
set_self k v m = ground (arith, eq_iff k k)

pub set_ne : (k j : String) (v : ℤ) (m : Remaining) → k ≢ j → set k v m j ≡ m j
unfolding set
set_ne k j v m h = ground (arith, eq_iff k j)

-- One round of the loop.
released : String → UserStory → Remaining → Remaining
released id other m =
    if includes other.dependencies id
    then set other.id (decrement (get_or_zero (m other.id))) m
    else m

released_self :
    (id : String) (other : UserStory) (m : Remaining)
    → released id other m other.id ≡ (
        if includes other.dependencies id
        then some (decrement (get_or_zero (m other.id)))
        else m other.id)
unfolding released
released_self id other m =
    ground (arith, set_self other.id (decrement (get_or_zero (m other.id))) m)

released_ne :
    (id : String) (other : UserStory) (m : Remaining) (j : String)
    → other.id ≢ j
    → released id other m j ≡ m j
unfolding released
released_ne id other m j h =
    ground (arith, set_ne other.id j (decrement (get_or_zero (m other.id))) m)

decrement-negative :
    (v : Option ℤ) → is_negative v ≡ true → is_negative (some (decrement (get_or_zero v))) ≡ true
unfolding decrement
decrement-negative none h = absurd (cc)
decrement-negative (some (pos n)) h = absurd (cc)
decrement-negative (some (negsuc n)) h = refl

released-negative :
    (id : String) (other : UserStory) (m : Remaining) (j : String)
    → is_negative (m j) ≡ true
    → is_negative (released id other m j) ≡ true
released-negative id other m j h = elim (Bool-cases (str_eq other.id j)) [
  | inl same ↦
      let e = (eq_iff other.id j).0 same in
      rw (← e)
        (rw (released_self id other m) (ground (arith, decrement-negative (m other.id) (rw e h))))
  | inr other_key ↦
      rw (released_ne id other m j (λ e. absurd (ground (arith, eq_iff other.id j)))) h
]

pub release_ne :
    (id : String) (others : List UserStory) (m : Remaining) (j : String)
    → ¬ (In j (ids_of others))
    → release id others m j ≡ m j
unfolding release released
release_ne id [] m j n = refl
release_ne id (o ∷ os) m j n =
    release_ne id os (released id o m) j (λ i. n (In.there i))
    ∙ released_ne id o m j (λ e. n (rw e In.here))

pub release-negative :
    (id : String) (others : List UserStory) (m : Remaining) (j : String)
    → is_negative (m j) ≡ true
    → is_negative (release id others m j) ≡ true
unfolding release released
release-negative id [] m j h = h
release-negative id (o ∷ os) m j h =
    release-negative id os (released id o m) j (released-negative id o m j h)

pub release-In :
    (id : String) (others : List UserStory) (m : Remaining) {t : UserStory}
    → Distinct (ids_of others)
    → In t others
    → release id others m t.id
      ≡ (if includes t.dependencies id then some (decrement (get_or_zero (m t.id))) else m t.id)
unfolding release released
release-In id [] m u i = absurd (not_In_nil i)
release-In id (o ∷ os) m {t} u i = elim (In-cons_cases i) [
  | inl same ↦ rw same (release_ne id os (released id o m) o.id u.0 ∙ released_self id o m)
  | inr j ↦
      release-In id os (released id o m) u.1 j
      ∙ (let apart = released_ne id o m t.id (λ e. u.0 (rw e (In-ids_of os j))) in rw apart refl)
]
