-- ===== src/Orchestration/Capacity.antt =====
-- The limit on agents: which proposed actions are admitted.
use pi_agentworks.Prelude.{
  ℕ, zero, suc, ◌+◌, ◌-◌, ◌≡◌, refl, ◌∙◌, sym, ap, not, List, [], ◌∷◌, ◌++◌, filter, take, length,
  length-append, take-nil, filter-append, ◌≢◌, arith, if◌then◌else◌, append_assoc, append-nil,
}
use pi_agentworks.Errors.{ok}
use pi_agentworks.Complexity.{ComplexityMode, get_complexity_policy}
use pi_agentworks.Scheduling.{agent_capacity}
use pi_agentworks.Orchestration.{
  OrchestrationAction, is_agent_launch_action, AgentLaunchCapacityDecision, Reservation,
  reserve_one, reserve_all, reserve_agent_launch_capacity,
}

abbrev pub launches : List OrchestrationAction → List OrchestrationAction
launches = filter is_agent_launch_action

abbrev pub others : List OrchestrationAction → List OrchestrationAction
others = filter (λ a. not (is_agent_launch_action a))

-- One round that admits an action, and one that passes a launch over.
admitted-launches :
    (admitted : List OrchestrationAction) (a : OrchestrationAction)
    → launches (admitted ++ a ∷ [])
      ≡ launches admitted ++ (if is_agent_launch_action a then a ∷ [] else [])
admitted-launches admitted a = filter-append is_agent_launch_action admitted (a ∷ [])

admitted-others :
    (admitted : List OrchestrationAction) (a : OrchestrationAction)
    → others (admitted ++ a ∷ [])
      ≡ others admitted ++ (if not (is_agent_launch_action a) then a ∷ [] else [])
admitted-others admitted a = filter-append (λ x. not (is_agent_launch_action x)) admitted (a ∷ [])

take_pos :
    (n : ℕ) (a : OrchestrationAction) (rest : List OrchestrationAction)
    → n ≢ 0
    → take n (a ∷ rest) ≡ a ∷ take (n - 1) rest
take_pos zero a rest h = absurd (h refl)
take_pos (suc n) a rest h = ap (λ m. a ∷ take m rest) (omega arith)

reserve_one-launches :
    (r : Reservation) (a : OrchestrationAction) (rest : List OrchestrationAction)
    → launches (reserve_one r a).admitted ++ take (reserve_one r a).remaining (launches rest)
      ≡ launches r.admitted ++ take r.remaining (launches (a ∷ rest))
unfolding reserve_one
reserve_one-launches r a rest = ground (
  arith,
  admitted-launches r.admitted a,
  take_pos r.remaining a (launches rest),
  append_assoc (launches r.admitted) (a ∷ []) (take (r.remaining - 1) (launches rest)),
  append-nil (launches r.admitted),
)

reserve_one-others :
    (r : Reservation) (a : OrchestrationAction) (rest : List OrchestrationAction)
    → others (reserve_one r a).admitted ++ others rest ≡ others r.admitted ++ others (a ∷ rest)
unfolding reserve_one
reserve_one-others r a rest = ground (
  arith,
  admitted-others r.admitted a,
  append_assoc (others r.admitted) (a ∷ []) (others rest),
  append-nil (others r.admitted),
)

reserve_all-launches :
    (r : Reservation) (rest : List OrchestrationAction)
    → launches (reserve_all r rest).admitted
      ≡ launches r.admitted ++ take r.remaining (launches rest)
unfolding reserve_all
reserve_all-launches r [] = sym (rw (take-nil r.remaining) (append-nil (launches r.admitted)))
reserve_all-launches r (a ∷ rest) =
    reserve_all-launches (reserve_one r a) rest ∙ reserve_one-launches r a rest

reserve_all-others :
    (r : Reservation) (rest : List OrchestrationAction)
    → others (reserve_all r rest).admitted ≡ others r.admitted ++ others rest
unfolding reserve_all
reserve_all-others r [] = sym (append-nil (others r.admitted))
reserve_all-others r (a ∷ rest) =
    reserve_all-others (reserve_one r a) rest ∙ reserve_one-others r a rest

-- Slots are handed out and never made: reserved and remaining add up, and the reserved ones are
-- the launches that were admitted.
reserve_all-counts :
    (r : Reservation) (rest : List OrchestrationAction)
    → (reserve_all r rest).reserved + (reserve_all r rest).remaining ≡ r.reserved + r.remaining
unfolding reserve_all reserve_one
reserve_all-counts r [] = refl
reserve_all-counts r (a ∷ rest) = ground (arith, reserve_all-counts (reserve_one r a) rest)

reserve_all-reserved :
    (r : Reservation) (rest : List OrchestrationAction)
    → r.reserved ≡ length (launches r.admitted)
    → (reserve_all r rest).reserved ≡ length (launches (reserve_all r rest).admitted)
unfolding reserve_all reserve_one
reserve_all-reserved r [] h = h
reserve_all-reserved r (a ∷ rest) h = reserve_all-reserved (reserve_one r a) rest (
    ground (
      arith,
      admitted-launches r.admitted a,
      length-append (launches r.admitted) (a ∷ []),
      append-nil (launches r.admitted),
    ))

-- Where the capacity is computed, the launches that are admitted are the first ones that were proposed, as
-- many as slots are free, in their order; every other action is admitted, in its order; and what
-- is reserved and what remains add up to the free slots.
pub reserve_agent_launch_capacity_lem :
    (actions : List OrchestrationAction) (mode : ComplexityMode) (occupied : ℕ)
    {d : AgentLaunchCapacityDecision}
    → reserve_agent_launch_capacity actions mode occupied ≡ ok d
    → let free = (get_complexity_policy mode).maximum_agents - occupied in
      (launches d.actions ≡ take free (launches actions))
      × (others d.actions ≡ others actions)
      × (d.reserved ≡ length (launches d.actions))
      × (d.reserved + d.remaining ≡ free)
unfolding reserve_agent_launch_capacity agent_capacity
reserve_agent_launch_capacity_lem actions mode occupied h =
    let free = (get_complexity_policy mode).maximum_agents - occupied in
    let start : Reservation = record { admitted = []; reserved = 0; remaining = free } in
    ground (
      arith,
      reserve_all-launches start actions,
      reserve_all-others start actions,
      reserve_all-reserved start actions refl,
      reserve_all-counts start actions,
    )
