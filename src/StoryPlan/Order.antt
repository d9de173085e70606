-- ===== src/StoryPlan/Order.antt =====
-- Kahn's algorithm over the dependencies (topologicalOrder of src/domain/story-planning.ts). The
-- `remaining` map is a function, and its numbers, which go below 0, are integers.
use pi_agentworks.Prelude.{
  ℕ, zero, suc, String, Bool, true, false, Option, none, some, List, [], ◌∷◌, ◌++◌, length,
  if◌then◌else◌, ◌==◌, str_eq,
}
use pi_agentworks.StoryPlan.{
  UserStory, StoryPlanResult, ordered, invalid, includes, ids_of, plan_issues,
}

-- `negsuc n` is -(n + 1).
pub data ℤ : Type 0 where
  pos negsuc : ℕ → ℤ

-- `n - 1`
unfoldable pub decrement : ℤ → ℤ
decrement (pos zero) = negsuc 0
decrement (pos (suc n)) = pos n
decrement (negsuc n) = negsuc (suc n)

abbrev pub Remaining : Type 0
Remaining = String → Option ℤ

abbrev pub empty_map : Remaining
empty_map key = none

unfoldable pub set : String → ℤ → Remaining → Remaining
set key value remaining j = if str_eq key j then some value else remaining j

abbrev pub get_or_zero : Option ℤ → ℤ
get_or_zero none = pos 0
get_or_zero (some value) = value

abbrev pub is_zero : Option ℤ → Bool
is_zero (some (pos zero)) = true
is_zero _ = false

-- The loop that fills the map.
unfoldable pub count_dependencies : List UserStory → Remaining → Remaining
unfolding set
count_dependencies [] remaining = remaining
count_dependencies (story ∷ stories) remaining =
    count_dependencies stories (set story.id (pos (length story.dependencies)) remaining)

-- The innermost loop: a story was ordered, and the others that depend on it wait for one less.
unfoldable pub release : String → List UserStory → Remaining → Remaining
unfolding set decrement includes
release id [] remaining = remaining
release id (other ∷ others) remaining = release id others (
    if includes other.dependencies id
    then set other.id (decrement (get_or_zero (remaining other.id))) remaining
    else remaining)

pub record Progress : Type 0 where
  pub remaining : Remaining
  pub ordered_so_far : List UserStory
  pub progressed : Bool

-- One round of the loop over the stories.
unfoldable pub visit : List UserStory → UserStory → Progress → Progress
unfolding release set
visit stories story p =
    if is_zero (p.remaining story.id)
    then record {
      remaining = release story.id stories (set story.id (negsuc 0) p.remaining);
      ordered_so_far = p.ordered_so_far ++ story ∷ [];
      progressed = true;
    }
    else p

unfoldable pub pass : List UserStory → List UserStory → Progress → Progress
pass stories [] p = p
pass stories (story ∷ later) p = pass stories later (visit stories story p)

-- `while (progressed)`, on fuel; `none` means that the fuel ran out.
unfoldable pub order_loop : ℕ → List UserStory → Progress → Option (List UserStory)
order_loop zero stories p = none
order_loop (suc fuel) stories p =
    let next = pass stories stories (record p { progressed = false }) in
    let rest = order_loop fuel stories next in
    if next.progressed then rest else some next.ordered_so_far

abbrev pub initial : List UserStory → Progress
initial stories = record {
  remaining = count_dependencies stories empty_map;
  ordered_so_far = [];
  progressed = true;
}

-- `byId.size`: the number of different ids.
unfoldable pub size : List String → ℕ
unfolding includes
size [] = 0
size (id ∷ ids) = if includes ids id then size ids else suc (size ids)

-- `none` means that the fuel ran out, `some none` that there is a cycle.
unfoldable pub topological_order : List UserStory → Option (Option (List UserStory))
topological_order stories = elim (order_loop (suc (length stories)) stories (initial stories)) [
  | none ↦ none
  | some order ↦ some (if length order == size (ids_of stories) then some order else none)
]

abbrev pub is_empty : List String → Bool
is_empty [] = true
is_empty (issue ∷ issues) = false

abbrev pub plan_result : Option (List UserStory) → StoryPlanResult
plan_result none = invalid ("story dependencies contain a cycle" ∷ [])
plan_result (some order) = ordered order

-- `none` means that the fuel ran out.
unfoldable pub validate_and_order_stories : List UserStory → Option StoryPlanResult
validate_and_order_stories [] = some (invalid ("a plan must contain at least one story" ∷ []))
validate_and_order_stories (story ∷ stories) =
    let issues = plan_issues (story ∷ stories) in
    if is_empty issues
    then elim (topological_order (story ∷ stories)) [
      | none ↦ none
      | some order ↦ some (plan_result order)
    ]
    else some (invalid issues)
