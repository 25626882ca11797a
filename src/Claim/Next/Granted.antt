-- ===== src/Claim/Next/Granted.antt =====
-- What a claim that `claim_next` of task_execution.py returns gives its holder.
use foxhound.Prelude.{
  ℕ, ◌+◌, ◌<◌, ◌≡◌, refl, subst, String, true, false, Option, none, some, List, [], arith, ok,
  bind_ok, ◌>>=◌, Bool-cases, inl, inr,
}
use mathlib.Core.List.{Memᴰ}
use foxhound.Schema.{Workflow, WorkflowPhase}
use foxhound.Store.{find_workflow}
use foxhound.Tables.{Db}
use foxhound.Profiles.{AgentProfile, resolve, allows}
use foxhound.Service.{Service}
use foxhound.Sweep.{cancel_stale, recover_expired}
use foxhound.Lease.Moves.{Held}
use foxhound.Claim.{Advice, ExecutionClaim, candidates, running_count, slots_full, phase_allowlist}
use foxhound.Claim.Next.Taken.{Taken, scan-Taken}
use foxhound.Claim.Next.{
  profile_in_phase, usable_profile, Passed, scan, claim_scanned, claim_swept, claim_swept_in,
  claim_with_secret, claim_next,
}
use foxhound.Claim.Next.Writing.{Grants, claim_scanned-Grants}

claim_swept-Grants :
    (s : Service) (a : Advice) (now : ℕ) (token : String) (phases : List WorkflowPhase)
    (before db : Db) {r : Passed} {after : Db} {c : ExecutionClaim}
    → claim_swept s a now token phases before db ≡ ok (r, after)
    → r.claim ≡ some c
    → (slots_full s.execution_slot_cap (running_count db) ≡ false)
      × ((w : Workflow) × (p : AgentProfile) × Memᴰ w (candidates a db phases now)
          × (usable_profile s w ≡ some p)
          × Grants s now token w p c after)
claim_swept-Grants s a now token phases before db {r} {after} {c} h k =
    elim (Bool-cases (slots_full s.execution_slot_cap (running_count db))) [
      | inl f ↦ absurd (full f)
      | inr f ↦
          let (x, g, e) =
            bind_ok (scan s a now (candidates a db phases now) [] db)
              (claim_scanned s now token before) {out = (r, after)} (open_slot f) in
          let (w, p, t, q) =
            claim_scanned-Grants s now token before x.0 x.1 x.0.taken {r = r} refl g k in
          let (m, u) =
            subst (Taken s (candidates a db phases now)) t
              (scan-Taken s a now (candidates a db phases now) [] db {out = x} e) in
          (f, (w, p, m, u, q))
    ]
  where
    full : slots_full s.execution_slot_cap (running_count db) ≡ true → ⊥
    full f = unfold claim_swept in ground arith

    open_slot :
        slots_full s.execution_slot_cap (running_count db) ≡ false
        → (scan s a now (candidates a db phases now) [] db >>= claim_scanned s now token before)
          ≡ ok (r, after)
    open_slot f = unfold claim_swept in ground arith

in_phase_parts :
    (x : WorkflowPhase) (o : Option AgentProfile) (p : AgentProfile)
    → profile_in_phase x o ≡ some p
    → (o ≡ some p) × (allows p.allowed_phases x ≡ true)
unfolding profile_in_phase
in_phase_parts x none p h = cc
in_phase_parts x (some q) p h = elim (Bool-cases (allows q.allowed_phases x)) [
  | inl e ↦
      let k : some q ≡ some p = ground (arith, e, h) in
      let i : q ≡ p = cc in (k, subst (λ (z : AgentProfile). allows z.allowed_phases x ≡ true) i e)
  | inr e ↦ let k : none ≡ some p = ground (arith, e, h) in cc
]

usable_parts :
    (s : Service) (w : Workflow) (p : AgentProfile)
    → usable_profile s w ≡ some p
    → (resolve s.registry w.agent_profile_id w.agent_profile_revision ≡ some p)
      × (allows p.allowed_phases w.phase ≡ true)
unfolding usable_profile
usable_parts s w p h =
    in_phase_parts w.phase (resolve s.registry w.agent_profile_id w.agent_profile_revision) p h

-- A claim that `claim_next` returns is of one of the candidates of the allowed phases in the database that
-- the sweeps had left, where a slot was free, and under the profile that this row names at its revision,
-- which allows its phase. The claim's workflow then runs under the caller's token: until the claim
-- expires, which is that profile's lease after now, the token holds its row at the claim's version.
pub claim_next-Held :
    (s : Service) (a : Advice) (now : ℕ) (token : String) (allowed : Option (List WorkflowPhase))
    (db : Db) {r : Passed} {after : Db} {c : ExecutionClaim} (later : ℕ)
    → claim_next s a now token allowed db ≡ ok (r, after)
    → r.claim ≡ some c
    → later < c.expires_at
    → (allowed_phases : List WorkflowPhase) × (swept1 : Db) × (swept2 : Db) × (w : Workflow)
      × (p : AgentProfile) × (row : Workflow) × (phase_allowlist allowed ≡ ok allowed_phases)
      × (cancel_stale now db ≡ ok swept1)
      × (recover_expired s now swept1 ≡ ok swept2)
      × (slots_full s.execution_slot_cap (running_count swept2) ≡ false)
      × Memᴰ w (candidates a swept2 allowed_phases now)
      × (resolve s.registry w.agent_profile_id w.agent_profile_revision ≡ some p)
      × (allows p.allowed_phases w.phase ≡ true)
      × (c.task_id ≡ w.task_id)
      × (c.phase ≡ w.phase)
      × (c.agent_profile_id ≡ p.profile_id)
      × (c.agent_profile_revision ≡ p.revision)
      × (c.lease_seconds ≡ p.claim_lease_seconds)
      × (c.expires_at ≡ now + p.claim_lease_seconds)
      × (find_workflow c.task_id after.workflows ≡ some row)
      × Held row c.workflow_version (s.token_digest token) later
      × (c.token ≡ token)
claim_next-Held s a now token allowed db {r} {after} {c} later h k l =
    let (phases, g, e) =
      bind_ok (phase_allowlist allowed) (claim_with_secret s a now token db) {out = (r, after)}
        (unfold claim_next in h) in
    let (d1, g1, e1) =
      bind_ok (cancel_stale now db)
        (λ d. recover_expired s now d >>= claim_swept s a now token phases db) {out = (r, after)}
        (admitted phases g) in
    let (d2, g2, e2) =
      bind_ok (recover_expired s now d1) (claim_swept s a now token phases db) {out = (r, after)}
        g1 in
    let (f, (w, p, m, u, q)) = claim_swept-Grants s a now token phases db d2 {r = r} g2 k in
    (
      phases,
      d1,
      d2,
      w,
      p,
      q.row,
      e,
      e1,
      e2,
      f,
      m,
      (usable_parts s w p u).0,
      (usable_parts s w p u).1,
      q.task,
      q.phase,
      q.profile,
      q.revision,
      q.lease,
      q.expiry,
      q.found,
      subst (λ t. Held q.row c.workflow_version (s.token_digest t) later) q.secret (q.held later l),
      q.secret,
    )
  where
    admitted :
        (phases : List WorkflowPhase)
        → claim_with_secret s a now token db phases ≡ ok (r, after)
        → (cancel_stale now db
            >>= (λ d. recover_expired s now d >>= claim_swept s a now token phases db))
          ≡ ok (r, after)
    admitted phases g = unfold claim_with_secret claim_swept_in in ground arith
