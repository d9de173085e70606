-- ===== src/StoryPlan.antt =====
-- Validation and dependency order of a story plan (validateAndOrderStories and topologicalOrder of
-- src/domain/story-planning.ts).
pub mod Order
pub mod Counting
pub mod Release
pub mod Invariant
pub mod Loop
pub mod Issues
pub mod Correct
use Prim.Native.Char.{code}
use Prim.Native.String
use pi_agentworks.Prelude.{
  ℕ, zero, suc, ◌+◌, ◌-◌, String, Bool, true, false, not, ◌&&◌, ◌||◌, Option, none, some, List, [],
  ◌∷◌, ◌++◌, any, length, if◌then◌else◌, leb, ◌==◌, str_eq,
}

-- Of a UserStory, the fields that the order reads.
pub record UserStory : Type 0 where
  pub id : String
  pub writable : Bool
  pub dependencies : List String

pub data StoryPlanResult : Type 0 where
  ordered : List UserStory → StoryPlanResult
  invalid : (issues : List String) → StoryPlanResult

-- `[a-z0-9]`
is_slug_character : ℕ → Bool
is_slug_character c = (leb b'a' c && leb c b'z') || (leb b'0' c && leb c b'9')

-- The rest of `^[a-z0-9]+(?:-[a-z0-9]+)*$`; `open_group` says whether a character must follow.
slug_from : Bool → String → Bool
slug_from open_group String.[] = not open_group
slug_from open_group (String.◌∷◌ c s) = elim (is_slug_character (code c)) [
  | true ↦ slug_from false s
  | false ↦ elim (not open_group && code c == b'-') [ true ↦ slug_from true s | false ↦ false ]
]

-- `SLUG_PATTERN.test(id)`
unfoldable pub is_slug : String → Bool
unfolding is_slug_character slug_from
is_slug id = slug_from true id

-- `dependencies.includes(id)`, and `byId.has(id)` for the ids that were set.
unfoldable pub includes : List String → String → Bool
includes ids id = any (λ x. str_eq x id) ids

-- The first loop: `seen` holds the keys of `byId`.
unfoldable pub id_issues : List String → List UserStory → List String
unfolding is_slug includes
id_issues seen [] = []
id_issues seen (story ∷ stories) =
    (if is_slug story.id then [] else (String.◌++◌ "story id is not a slug: " story.id) ∷ [])
    ++ ((if includes seen story.id then (String.◌++◌ "duplicate story id: " story.id) ∷ [] else [])
        ++ id_issues (story.id ∷ seen) stories)

abbrev pub ids_of : List UserStory → List String
ids_of [] = []
ids_of (story ∷ stories) = story.id ∷ ids_of stories

-- The second loop, over the stories and the dependencies of each.
unfoldable pub dependency_issues : List String → String → List String → List String
unfolding includes
dependency_issues known id [] = []
dependency_issues known id (dependency ∷ dependencies) =
    (if str_eq dependency id
      then (String.◌++◌ (String.◌++◌ "story " id) " depends on itself") ∷ []
      else (if includes known dependency
          then []
          else (String.◌++◌ (String.◌++◌ "story " id)
              (String.◌++◌ " depends on unknown story " dependency))
            ∷ []))
    ++ dependency_issues known id dependencies

unfoldable pub stories_issues : List String → List UserStory → List String
unfolding dependency_issues
stories_issues known [] = []
stories_issues known (story ∷ stories) =
    dependency_issues known story.id story.dependencies ++ stories_issues known stories

-- All the issues that are collected before the order is tried.
unfoldable pub plan_issues : List UserStory → List String
unfolding id_issues stories_issues
plan_issues stories =
    id_issues [] stories
    ++ (stories_issues (ids_of stories) stories
        ++ (if any (λ story. story.writable) stories
            then []
            else "a plan must contain at least one writable story" ∷ []))
