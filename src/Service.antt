-- ===== src/Service.antt =====
-- The configuration of `TaskExecutionService`. `token_digest` stands for SHA-256, which the
-- standard library computes.
use foxhound.Prelude.{ℕ, String, Option, List}
use foxhound.Profiles.{AgentProfile, Registry}

pub record Service : Type 0 where
  pub token_digest : String → String
  pub max_attempts : ℕ
  pub registry : Registry
  pub default_profile : AgentProfile
  pub profile_routes : List (String × String)
  pub planning_grants : List String
  pub ask_when_owned_by_others : List String
  pub steer_while_running : List String
  pub execution_grants : List String
  pub skip_planning_for : List String
  pub action_grants : List String
  pub execution_slot_cap : Option ℕ
  pub plan_ready_cap : Option ℕ
  pub awaiting_reader_cap : Option ℕ
