-- ===== src/Complexity.antt =====
-- Complexity modes and their fixed policies (src/domain/complexity.ts).
use pi_agentworks.Prelude.{ℕ, Bool, true, false}

pub data ComplexityMode : Type 0 where
  low normal high : ComplexityMode

pub data ApprovalPolicy : Type 0 where
  every_material_decision plan_and_material_deviations autonomous_with_hard_guards : ApprovalPolicy

pub record ComplexityPolicy : Type 0 where
  pub mode : ComplexityMode
  pub maximum_agents : ℕ
  pub approval_policy : ApprovalPolicy
  pub requires_model_confirmation : Bool
  pub requires_plan_confirmation : Bool
  pub permits_autonomous_scheduling : Bool

unfoldable pub get_complexity_policy : ComplexityMode → ComplexityPolicy
get_complexity_policy low = record {
  mode = low;
  maximum_agents = 4;
  approval_policy = every_material_decision;
  requires_model_confirmation = true;
  requires_plan_confirmation = true;
  permits_autonomous_scheduling = false;
}
get_complexity_policy normal = record {
  mode = normal;
  maximum_agents = 8;
  approval_policy = plan_and_material_deviations;
  requires_model_confirmation = true;
  requires_plan_confirmation = true;
  permits_autonomous_scheduling = false;
}
get_complexity_policy high = record {
  mode = high;
  maximum_agents = 16;
  approval_policy = autonomous_with_hard_guards;
  requires_model_confirmation = false;
  requires_plan_confirmation = false;
  permits_autonomous_scheduling = true;
}
