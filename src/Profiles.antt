-- ===== src/Profiles.antt =====
-- The part of agent_profiles.py that workflow operations read: profiles and their registry.
use foxhound.Prelude.{
  ℕ, String, Bool, false, ◌&&◌, ◌||◌, Option, none, some, List, [], ◌∷◌, ◌++◌, str_eq,
  if◌then◌else◌,
}
use foxhound.Schema.{WorkflowPhase, same_phase}

-- `revision` is the digest of the profile's document; it is stored here, not computed.
pub record AgentProfile : Type 0 where
  pub profile_id : String
  pub revision : String
  pub claim_lease_seconds : ℕ
  pub allowed_phases : List WorkflowPhase

pub record Registry : Type 0 where
  pub profiles : List AgentProfile
  pub historical : List AgentProfile

find_profile : String → List AgentProfile → Option AgentProfile
find_profile id [] = none
find_profile id (p ∷ ps) = if str_eq p.profile_id id then some p else find_profile id ps

-- `AgentProfileRegistry.get`: a profile offered for new selection.
unfoldable pub get : Registry → String → Option AgentProfile
unfolding find_profile
get r id = find_profile id r.profiles

find_revision : String → String → List AgentProfile → Option AgentProfile
find_revision id revision [] = none
find_revision id revision (p ∷ ps) =
    if str_eq p.profile_id id && str_eq p.revision revision
    then some p
    else find_revision id revision ps

-- `resolve`: an exact revision, retired ones included; `none` is the raised error.
unfoldable pub resolve : Registry → String → String → Option AgentProfile
unfolding find_revision
resolve r id revision = find_revision id revision (r.profiles ++ r.historical)

current_of : String → Option AgentProfile → Option AgentProfile
current_of revision none = none
current_of revision (some p) = if str_eq revision p.revision then some p else none

-- `resolve_current`: only a revision that is offered now.
unfoldable pub resolve_current : Registry → String → String → Option AgentProfile
unfolding current_of
resolve_current r id revision = current_of revision (get r id)

-- `phase in profile.allowed_phases`.
unfoldable pub allows : List WorkflowPhase → WorkflowPhase → Bool
allows [] phase = false
allows (p ∷ ps) phase = same_phase phase p || allows ps phase
