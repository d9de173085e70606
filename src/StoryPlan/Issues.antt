-- ===== src/StoryPlan/Issues.antt =====
-- What a plan without issues looks like.
use Prim.Native.String
use pi_agentworks.Prelude.{
  suc, String, ◌≡◌, refl, ◌≢◌, ap, inl, inr, Bool, true, false, List, [], ◌∷◌, ◌++◌, length, arith,
  In, In-cons_cases, not_In_nil, Bool-cases, if◌then◌else◌, eq_iff,
}
use pi_agentworks.StoryPlan.{
  UserStory, includes, is_slug, id_issues, ids_of, dependency_issues, stories_issues, plan_issues,
}
use pi_agentworks.StoryPlan.Order.{is_empty, size}
use pi_agentworks.StoryPlan.Counting.{Distinct, includes_iff}

is_empty-append :
    (xs ys : List String) → is_empty (xs ++ ys) ≡ true → (is_empty xs ≡ true) × (is_empty ys ≡ true)
is_empty-append [] ys h = (refl, h)
is_empty-append (x ∷ xs) ys h = absurd (cc)

-- What an `if` adds is no issue exactly if it adds nothing.
no_issue_then :
    (b : Bool) (issue : String) → is_empty (if b then [] else issue ∷ []) ≡ true → b ≡ true
no_issue_then b issue h = ground arith

no_issue_else :
    (b : Bool) (issue : String) → is_empty (if b then issue ∷ [] else []) ≡ true → b ≡ false
no_issue_else b issue h = ground arith

fresh_ids :
    (seen : List String) (stories : List UserStory)
    → is_empty (id_issues seen stories) ≡ true
    → Distinct (ids_of stories) × ((x : String) → In x seen → ¬ (In x (ids_of stories)))
unfolding id_issues
fresh_ids seen [] h = (tt, λ x i. not_In_nil)
fresh_ids seen (s ∷ ss) h =
    let rest =
      (is_empty-append
        (if is_slug s.id then [] else (String.◌++◌ "story id is not a slug: " s.id) ∷ []) _ h).1 in
    let (unseen, later) =
      is_empty-append
        (if includes seen s.id then (String.◌++◌ "duplicate story id: " s.id) ∷ [] else []) _
        rest in
    let (u, apart) = fresh_ids (s.id ∷ seen) ss later in
    let new = no_issue_else (includes seen s.id) (String.◌++◌ "duplicate story id: " s.id) unseen in
    (
      (apart s.id In.here, u),
      λ x i k. elim (In-cons_cases k) [
        | inl same ↦ absurd (ground (arith, new, (includes_iff seen s.id).1 (rw same at i)))
        | inr j ↦ apart x (In.there i) j
      ],
    )

known_dependencies :
    (known : List String) (id : String) (ds : List String)
    → is_empty (dependency_issues known id ds) ≡ true
    → (d : String) → In d ds
    → In d known × (d ≢ id)
unfolding dependency_issues
known_dependencies known id [] h d i = absurd (not_In_nil i)
known_dependencies known id (e ∷ ds) h d i =
    let (first, rest) = is_empty-append _ (dependency_issues known id ds) h in
    elim (In-cons_cases i) [
      | inl same ↦ rw same (
        (includes_iff known e).0 (ground (arith, first)),
        λ q. absurd (ground (arith, first, eq_iff e id)),
      )
      | inr j ↦ known_dependencies known id ds rest d j
    ]

all_known :
    (known : List String) (stories : List UserStory)
    → is_empty (stories_issues known stories) ≡ true
    → (s : UserStory) → In s stories
    → (d : String) → In d s.dependencies
    → In d known × (d ≢ s.id)
unfolding stories_issues
all_known known [] h s i d j = absurd (not_In_nil i)
all_known known (t ∷ ts) h s i d j =
    let (first, rest) = is_empty-append (dependency_issues known t.id t.dependencies) _ h in
    elim (In-cons_cases i) [
      | inl same ↦ rw same (known_dependencies known t.id t.dependencies first d (rw same at j))
      | inr k ↦ all_known known ts rest s k d j
    ]

pub Distinct-of_plan :
    (stories : List UserStory) → is_empty (plan_issues stories) ≡ true → Distinct (ids_of stories)
unfolding plan_issues
Distinct-of_plan stories h = (fresh_ids [] stories (is_empty-append (id_issues [] stories) _ h).0).0

pub known_of_plan :
    (stories : List UserStory)
    → is_empty (plan_issues stories) ≡ true
    → (s : UserStory) → In s stories
    → (d : String) → In d s.dependencies
    → In d (ids_of stories) × (d ≢ s.id)
unfolding plan_issues
known_of_plan stories h =
    all_known (ids_of stories) stories
      (is_empty-append (stories_issues (ids_of stories) stories) _
        (is_empty-append (id_issues [] stories) _ h).1).0

pub size-Distinct : (ids : List String) → Distinct ids → size ids ≡ length ids
unfolding size
size-Distinct [] u = refl
size-Distinct (x ∷ xs) u = elim (Bool-cases (includes xs x)) [
  | inl h ↦ absurd (u.0 ((includes_iff xs x).0 h))
  | inr h ↦ rw h (ap suc (size-Distinct xs u.1))
]
