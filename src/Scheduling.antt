-- ===== src/Scheduling.antt =====
-- Which stories may start now, and the slots that agents take (src/domain/scheduling.ts).
pub mod Startable
pub mod Decision
use Prim.Native.String
use pi_agentworks.Prelude.{
  ℕ, ◌-◌, max, String, Bool, true, false, not, ◌&&◌, Option, none, some, List, [], ◌∷◌, map, length,
  take, filter, any, all, if◌then◌else◌, leb, ◌==◌, is_some, str_eq,
}
use pi_agentworks.Errors.{Error, scheduling, Result, ok, err, ◌>>=◌, ◌>>◌, guard, max_safe_integer}
use pi_agentworks.Complexity.{ComplexityMode, get_complexity_policy}
use pi_agentworks.Agent.{AgentStatus, closed, includes}

pub record AgentCapacity : Type 0 where
  pub limit : ℕ
  pub occupied : ℕ
  pub available : ℕ

-- Every agent that is not closed holds a slot.
unfoldable pub occupies_agent_capacity : AgentStatus → Bool
occupies_agent_capacity status = not (includes (closed ∷ []) status)

unfoldable pub count_occupied_agent_slots : List AgentStatus → ℕ
unfolding occupies_agent_capacity
count_occupied_agent_slots agents = length (filter occupies_agent_capacity agents)

unfoldable pub agent_capacity : ComplexityMode → ℕ → Result AgentCapacity
agent_capacity mode occupied = do
  guard (leb occupied max_safe_integer)
      (scheduling "occupied agent count must be a non-negative integer")
  let limit = (get_complexity_policy mode).maximum_agents
  ok (record { limit = limit; occupied = occupied; available = limit - occupied })

pub data StorySchedulingStatus : Type 0 where
  pending running done failed : StorySchedulingStatus

pub record SchedulableStory : Type 0 where
  pub id : String
  pub dependencies : List String
  pub status : StorySchedulingStatus

pub record SchedulingDecision : Type 0 where
  -- Pending stories whose dependencies are all done, capped by the capacity.
  pub startable : List String
  -- Pending stories with a failed dependency.
  pub blocked : List String
  pub running_count : ℕ
  pub capacity : ℕ
  -- Nothing runs and nothing can start, yet stories are pending.
  pub deadlocked : Bool

abbrev pub is_pending : StorySchedulingStatus → Bool
is_pending pending = true
is_pending _ = false

abbrev pub is_running : StorySchedulingStatus → Bool
is_running running = true
is_running _ = false

-- `state === "failed"` and `state === "done"`, where the state may be undefined.
abbrev pub is_failed : Option StorySchedulingStatus → Bool
is_failed (some failed) = true
is_failed _ = false

abbrev pub is_done : Option StorySchedulingStatus → Bool
is_done (some done) = true
is_done _ = false

unfoldable pub story_concurrency_cap : ComplexityMode → ℕ
story_concurrency_cap mode = max 1 ((get_complexity_policy mode).maximum_agents - 2)

-- The `status` map, which only ever gains new keys.
abbrev pub StatusMap : Type 0
StatusMap = List (String × StorySchedulingStatus)

unfoldable pub get : String → StatusMap → Option StorySchedulingStatus
get id [] = none
get id ((key, state) ∷ status) = if str_eq key id then some state else get id status

-- The loop that fills the map.
unfoldable pub index_stories : List SchedulableStory → StatusMap → Result StatusMap
index_stories [] status = ok status
index_stories (story ∷ stories) status = do
  guard (not (is_some (get story.id status)))
      (scheduling (String.◌++◌ "duplicate story id: " story.id))
  index_stories stories ((story.id, story.status) ∷ status)

-- The loop over the dependencies of one story, and that over the stories.
unfoldable pub check_dependencies : StatusMap → String → List String → Result (Unit {0})
check_dependencies status id [] = ok tt
check_dependencies status id (dependency ∷ dependencies) = do
  guard (is_some (get dependency status)) (
      scheduling (
        String.◌++◌ (String.◌++◌ "story " id)
          (String.◌++◌ " depends on unknown story " dependency)))
  check_dependencies status id dependencies

unfoldable pub check_stories : StatusMap → List SchedulableStory → Result (Unit {0})
check_stories status [] = ok tt
check_stories status (story ∷ stories) = do
  check_dependencies status story.id story.dependencies
  check_stories status stories

-- What becomes of one story in the loop that fills `blocked` and `ready`.
pub data Verdict : Type 0 where
  not_pending is_blocked is_ready is_waiting : Verdict

unfoldable pub judge : StatusMap → SchedulableStory → Verdict
judge status story =
    let dependency_statuses = map (λ id. get id status) story.dependencies in
    if is_pending story.status
    then (if any is_failed dependency_statuses
        then is_blocked
        else (if all is_done dependency_statuses then is_ready else is_waiting))
    else not_pending

abbrev pub verdict_blocked : Verdict → Bool
verdict_blocked is_blocked = true
verdict_blocked _ = false

abbrev pub verdict_ready : Verdict → Bool
verdict_ready is_ready = true
verdict_ready _ = false

-- The ids that the loop pushes to one of its two arrays, in the order of the input.
unfoldable pub pushed : (Verdict → Bool) → StatusMap → List SchedulableStory → List String
pushed chosen status stories =
    map (λ story. story.id) (filter (λ story. chosen (judge status story)) stories)

abbrev pub is_empty {ℓ} : {A : Type ℓ} → List A → Bool
is_empty [] = true
is_empty (x ∷ xs) = false

unfoldable pub decide : StatusMap → List SchedulableStory → ℕ → SchedulingDecision
decide status stories max_concurrent =
    let running_count = length (filter (λ story. is_running story.status) stories) in
    let capacity = max_concurrent - running_count in
    let blocked = pushed verdict_blocked status stories in
    let startable = take capacity (pushed verdict_ready status stories) in
    let pending_remain = any (λ story. is_pending story.status) stories in
    record {
      startable = startable;
      blocked = blocked;
      running_count = running_count;
      capacity = capacity;
      deadlocked = pending_remain && (running_count == 0 && is_empty startable);
    }

unfoldable pub schedule_stories : List SchedulableStory → ℕ → Result SchedulingDecision
schedule_stories stories max_concurrent = do
  guard (leb max_concurrent max_safe_integer && leb 1 max_concurrent)
      (scheduling "maxConcurrent must be a positive integer")
  status ← index_stories stories []
  check_stories status stories
  ok (decide status stories max_concurrent)
