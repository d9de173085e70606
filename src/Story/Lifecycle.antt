-- ===== src/Story/Lifecycle.antt =====
-- The ends of a story's life, and interruptions.
use pi_agentworks.Prelude.{ℕ, ◌≤◌, String, ◌≡◌, ◌≢◌, ◌⊎◌, false, none, [], ◌∷◌, arith, trim}
use pi_agentworks.Errors.{ok, is_ok, assert_forward_time, non_empty-cases, max_safe_integer}
use pi_agentworks.Story.{
  merged, blocked, failed, StoryState, StoryChange, story_prepared, story_blocked, story_resumed,
  StoryTransition, includes,
}
use pi_agentworks.Story.Change.{apply_story_change, transition_story}
use pi_agentworks.Trace.{replay}

apply_story_change_of_terminal :
    (s : StoryState) (at : ℕ) (c : StoryChange)
    → (s.status ≡ merged) ⊎ (s.status ≡ failed)
    → is_ok (apply_story_change s at c) ≡ false
unfolding apply_story_change
apply_story_change_of_terminal s at (story_prepared m) h = ground arith
apply_story_change_of_terminal s at c h = ground arith

-- A merged or failed story refuses every transition.
pub transition_story_of_terminal :
    (s : StoryState) (tr : StoryTransition)
    → (s.status ≡ merged) ⊎ (s.status ≡ failed)
    → is_ok (transition_story s tr) ≡ false
unfolding transition_story
transition_story_of_terminal s tr h =
    ground (arith, apply_story_change_of_terminal s tr.at tr.change h)

-- A story that is neither blocked, merged nor failed, and holds no block, can be blocked for any
-- visible reason and resumed later, and is then the same story but for its time.
pub story_block-resume :
    (s : StoryState) (reason : String) (at later : ℕ)
    → includes (blocked ∷ merged ∷ failed ∷ []) s.status ≡ false
    → s.blocked_reason ≡ none
    → s.blocked_from ≡ none
    → s.updated_at ≤ at
    → at ≤ later
    → later ≤ max_safe_integer
    → trim reason ≢ ""
    → replay transition_story s (
        record { at = at; change = story_blocked reason }
        ∷ record { at = later; change = story_resumed }
        ∷ [])
      ≡ ok (record s { updated_at = later })
unfolding replay transition_story apply_story_change assert_forward_time
story_block-resume s reason at later h no_reason no_origin p q r visible =
    ground (arith, non_empty-cases reason "blocked reason")
