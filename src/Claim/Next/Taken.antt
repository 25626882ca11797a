-- ===== src/Claim/Next/Taken.antt =====
-- Which candidate the scan of `claim_next` of task_execution.py takes, and under which profile.
use foxhound.Prelude.{
  ℕ, ◌≡◌, refl, subst, Bool, true, false, Option, none, some, List, [], ◌∷◌, ◌++◌, ok, bind_ok,
}
use mathlib.Core.List.{Memᴰ}
use foxhound.Schema.{Workflow, startup_failed}
use foxhound.Tables.{Db}
use foxhound.Operation.{OperationResult}
use foxhound.Profiles.{AgentProfile}
use foxhound.Service.{Service}
use foxhound.Failure.{defer_failure}
use foxhound.Condition.{evaluate_task_conditions}
use foxhound.Claim.{Advice}
use foxhound.Claim.Next.{
  Scanned, Scan, take, pass, gate_holds, scan_profile, scan_gated, scan_eligible, scan_one, scan,
  usable_profile,
}
use foxhound.Claim.Next.Scanning.{scan_after}

-- What a scan that takes a row says of it.
abbrev pub Taken : Service → List Workflow → Scan → Type 0
Taken s ws (take w p) = Memᴰ w ws × (usable_profile s w ≡ some p)
Taken s ws pass = Unit

passed :
    (s : Service) (w : Workflow) (deferred : List ℕ) (db : Db) {out : Scanned × Db}
    → ok (record { taken = pass; deferred = deferred }, db) ≡ ok out
    → Taken s (w ∷ []) out.0.taken
passed s w deferred db {out} h =
    let same : pass ≡ out.0.taken = cc in subst (Taken s (w ∷ [])) same tt

scan_profile-Taken :
    (s : Service) (w : Workflow) (now : ℕ) (p : Option AgentProfile) (db : Db) {out : Scanned × Db}
    → usable_profile s w ≡ p
    → scan_profile s w now p db ≡ ok out
    → Taken s (w ∷ []) out.0.taken
scan_profile-Taken s w now (some p) db {out} u h =
    let e : ok (record { taken = take w p; deferred = [] }, db) ≡ ok out =
      unfold scan_profile in h in
    let same : take w p ≡ out.0.taken = cc in subst (Taken s (w ∷ [])) same (Memᴰ.head refl, u)
scan_profile-Taken s w now none db {out} u h =
    let r : Scanned = record { taken = pass; deferred = w.task_id ∷ [] } in
    let (x, g, e) =
      bind_ok (defer_failure s w startup_failed now none none none db)
        (λ (x : OperationResult × Db). ok (r, x.1)) {out = out} (unfold scan_profile in h) in
    passed s w (w.task_id ∷ []) x.1 {out = out} g

scan_gated-Taken :
    (s : Service) (w : Workflow) (now : ℕ) (held : Bool) (db : Db) {out : Scanned × Db}
    → scan_gated s w now (held, db) ≡ ok out
    → Taken s (w ∷ []) out.0.taken
scan_gated-Taken s w now true db {out} h = passed s w [] db {out = out} (unfold scan_gated in h)
scan_gated-Taken s w now false db {out} h =
    scan_profile-Taken s w now (usable_profile s w) db {out = out} refl (unfold scan_gated in h)

scan_eligible-Taken :
    (s : Service) (a : Advice) (w : Workflow) (now : ℕ) (eligible : Bool) (db : Db)
    {out : Scanned × Db}
    → scan_eligible s a w now (eligible, db) ≡ ok out
    → Taken s (w ∷ []) out.0.taken
scan_eligible-Taken s a w now false db {out} h =
    passed s w [] db {out = out} (unfold scan_eligible in h)
scan_eligible-Taken s a w now true db {out} h =
    let (x, g, e) =
      bind_ok (gate_holds a w now db) (scan_gated s w now) {out = out}
        (unfold scan_eligible in h) in
    scan_gated-Taken s w now x.0 x.1 {out = out} g

scan_one-Taken :
    (s : Service) (a : Advice) (now : ℕ) (w : Workflow) (db : Db) {out : Scanned × Db}
    → scan_one s a now w db ≡ ok out
    → Taken s (w ∷ []) out.0.taken
scan_one-Taken s a now w db {out} h =
    let x = evaluate_task_conditions db w.task_id w.task_version now in
    scan_eligible-Taken s a w now x.0 x.1 {out = out} (unfold scan_one in h)

one_of :
    (s : Service) (w : Workflow) (ws : List Workflow) (k : Scan)
    → Taken s (w ∷ []) k
    → Taken s (w ∷ ws) k
one_of s w ws (take v p) (m, u) =
    (elim m [ Memᴰ.head e ↦ Memᴰ.head e | Memᴰ.tail n ↦ elim n [ ] ], u)
one_of s w ws pass t = tt

later :
    (s : Service) (w : Workflow) (ws : List Workflow) (k : Scan) → Taken s ws k → Taken s (w ∷ ws) k
later s w ws (take v p) (m, u) = (Memᴰ.tail m, u)
later s w ws pass t = tt

scan_after-Taken :
    (s : Service) (a : Advice) (now : ℕ) (w : Workflow) (ws : List Workflow) (deferred : List ℕ)
    (r : Scanned) (db : Db) (k : Scan) (out : Scanned × Db)
    → (scan s a now ws (deferred ++ r.deferred) db ≡ ok out → Taken s ws out.0.taken)
    → Taken s (w ∷ []) k
    → scan_after s a now ws deferred (r, db) k ≡ ok out
    → Taken s (w ∷ ws) out.0.taken
scan_after-Taken s a now w ws deferred r db (take v p) out rest t h =
    let same : take v p ≡ out.0.taken = cc in
    subst (Taken s (w ∷ ws)) same (one_of s w ws (take v p) t)
scan_after-Taken s a now w ws deferred r db pass out rest t h = later s w ws out.0.taken (rest h)

-- A row that the scan takes is one of its candidates, and the profile is one that it can run under.
pub scan-Taken :
    (s : Service) (a : Advice) (now : ℕ) (ws : List Workflow) (deferred : List ℕ) (db : Db)
    {out : Scanned × Db}
    → scan s a now ws deferred db ≡ ok out
    → Taken s ws out.0.taken
scan-Taken s a now [] deferred db {out} h =
    let e : ok (record { taken = pass; deferred = deferred }, db) ≡ ok out = unfold scan in h in
    let same : pass ≡ out.0.taken = cc in subst (Taken s []) same tt
scan-Taken s a now (w ∷ ws) deferred db {out} h =
    let (x, g, e) =
      bind_ok (scan_one s a now w db)
        (λ (x : Scanned × Db). scan_after s a now ws deferred x x.0.taken) {out = out}
        (unfold scan in h) in
    scan_after-Taken s a now w ws deferred x.0 x.1 x.0.taken out
      (λ q. scan-Taken s a now ws (deferred ++ x.0.deferred) x.1 {out = out} q)
      (scan_one-Taken s a now w db e) g
