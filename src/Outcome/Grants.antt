-- ===== src/Outcome/Grants.antt =====
-- What a standing grant may do to a result: `_granted_advance` of task_execution.py.
use foxhound.Prelude.{
  ◌≡◌, refl, String, true, Option, none, some, List, ◌⊎◌, contains, arith, if◌then◌else◌,
}
use foxhound.Schema.{
  WorkflowPhase, ExecutionOutcome, plan, execute, external_action, awaiting_plan, awaiting_external,
}
use foxhound.Outcome.Answers.{granted_advance, granted_target, grant_of, is_plan}

-- A plan moves on to execution under an execution grant, and a draft to its external action under
-- an action grant.
abbrev pub GrantCovers :
    WorkflowPhase → ExecutionOutcome → String → List String → List String → WorkflowPhase → Type 0
GrantCovers phase outcome kind execution_grants action_grants next =
    ((phase ≡ plan)
      × (outcome ≡ awaiting_plan)
      × (next ≡ execute)
      × (contains kind execution_grants ≡ true))
    ⊎ ((phase ≡ execute)
        × (outcome ≡ awaiting_external)
        × (next ≡ external_action)
        × (contains kind action_grants ≡ true))

grant_of-some :
    (t : Option WorkflowPhase) (origin : Option String) (granted : List String)
    {next : WorkflowPhase}
    → grant_of t origin granted ≡ some next
    → (kind : String) × (origin ≡ some kind) × (t ≡ some next) × (contains kind granted ≡ true)
unfolding grant_of
grant_of-some none origin g h = cc
grant_of-some (some t) none g h = cc
grant_of-some (some t) (some kind) g h = (kind, refl, ground arith, ground arith)

covers :
    (p : WorkflowPhase) (o : ExecutionOutcome) (kind : String) (eg ag : List String)
    {next : WorkflowPhase}
    → granted_target p o ≡ some next
    → contains kind (if is_plan p then eg else ag) ≡ true
    → GrantCovers p o kind eg ag next
unfolding granted_target
covers plan o kind eg ag h c = ground arith
covers execute o kind eg ag h c = ground arith
covers external_action o kind eg ag h c = ground arith

-- A result moves on without the reader only for a task whose recorded source kind the operator has
-- granted that step, and only from an answer that proposes a further phase.
pub granted_advance-authority :
    (phase : WorkflowPhase) (outcome : ExecutionOutcome) (origin : Option String)
    (execution_grants action_grants : List String) {next : WorkflowPhase}
    → granted_advance phase outcome origin execution_grants action_grants ≡ some next
    → (kind : String) × (origin ≡ some kind)
      × GrantCovers phase outcome kind execution_grants action_grants next
unfolding granted_advance
granted_advance-authority p o origin eg ag h =
    let (kind, k, t, c) =
      grant_of-some (granted_target p o) origin (if is_plan p then eg else ag) h in
    (kind, k, covers p o kind eg ag t c)
