-- ===== src/Scheduling/Apply/Cases.antt =====
-- What a call of `apply` of task_scheduling.py that returns went through.
use foxhound.Prelude.{
  ℕ, ◌≡◌, ◌≢◌, refl, ap, ◌∙◌, String, ◌&&◌, Option, none, some, leb, ok, bind_ok, Bool-cases, ◌⊎◌,
  inl, inr,
}
use foxhound.Schema.{Workflow}
use foxhound.Store.{find_task, find_workflow}
use foxhound.Operation.{applied}
use foxhound.Scheduling.{
  SchedulingRefusal, ApplyResult, refuse_apply, not_found, invalid_recommendation,
}
use foxhound.Scheduling.Rows.{SchedulingDb, Recommendation, ChangeSet}
use foxhound.Scheduling.Document.{recommendation_document, json_length}
use foxhound.Scheduling.Target.{target_refusal, limit_refusal}
use foxhound.Scheduling.Prepare.{Prepared, Preparation, blocked, ready, prepare}
use foxhound.Scheduling.Change.{applied_result, recorded}
use foxhound.Scheduling.{SchedulingService}
use foxhound.Scheduling.Apply.{
  max_json_length, record_change, apply_to, apply_found, apply_once, existing_change, validated,
  start_ahead, unchanged_result, card_of_change, apply_document, apply_checked, apply,
}

-- The call that recorded a change, and what its guards found.
pub record Records (service : SchedulingService) (now : ℕ) (given : Recommendation)
    (s : SchedulingDb) (out : ApplyResult × SchedulingDb) : Type 0 where
  pub document : Recommendation
  pub checked : recommendation_document given ≡ some document
  pub row : Workflow
  pub found : find_workflow document.target_task_id s.db.workflows ≡ some row
  pub target :
      target_refusal (find_task document.target_task_id s.db.tasks) (some row) document ≡ none
  pub limits : limit_refusal s.db document ≡ none
  pub prepared : Prepared
  pub prepares : prepare document row now s.db ≡ ok (ready prepared)
  pub digest : String
  pub result : out ≡ (applied_result prepared s, recorded digest document row now prepared s)

-- The call applied nothing, and left the database as it was.
abbrev pub Keeps : SchedulingDb → ApplyResult × SchedulingDb → Type 0
Keeps s out = (out.1 ≡ s) × (out.0.disposition ≢ applied)

kept :
    (s : SchedulingDb) (x : ApplyResult) (out : ApplyResult × SchedulingDb)
    → x.disposition ≢ applied
    → ok (x, s) ≡ ok out
    → Keeps s out
kept s x out other h = (let e : x ≡ out.0 = cc in (cc, λ z. other (ap (λ r. r.disposition) e ∙ z)))

refused_kept :
    (s : SchedulingDb) (x : SchedulingRefusal) (out : ApplyResult × SchedulingDb)
    → ok (refuse_apply x, s) ≡ ok out
    → Keeps s out
refused_kept s x out h = kept s (refuse_apply x) out (λ z. cc) h

record_change-cases :
    (digest : String) (r : Recommendation) (w : Workflow) (now : ℕ) (s : SchedulingDb)
    (p : Preparation) (out : ApplyResult × SchedulingDb)
    → record_change digest r w now s p ≡ ok out
    → Keeps s out
      ⊎ ((q : Prepared) × (p ≡ ready q) × (out ≡ (applied_result q s, recorded digest r w now q s)))
unfolding record_change
record_change-cases digest r w now s (blocked x) out h = inl (refused_kept s x out h)
record_change-cases digest r w now s (ready q) out h =
    elim (Bool-cases (leb (json_length r) max_json_length)) [
      | inl e ↦
          (let z : ok (applied_result q s, recorded digest r w now q s) ≡ ok out = (rw e at h) in
            inr (q, refl, cc))
      | inr e ↦ (let z = (rw e at h) in cc)
    ]

module _ (service : SchedulingService) (now : ℕ) (given document : Recommendation)
    (s : SchedulingDb) (checked : recommendation_document given ≡ some document)
    (out : ApplyResult × SchedulingDb) where
  abbrev Outcome : Type 0
  Outcome = Keeps s out ⊎ Records service now given s out

  apply_to-cases :
      (digest : String) (w : Workflow) (refusal : Option SchedulingRefusal)
      → find_workflow document.target_task_id s.db.workflows ≡ some w
      → target_refusal (find_task document.target_task_id s.db.tasks) (some w) document ≡ none
      → limit_refusal s.db document ≡ refusal
      → apply_to digest document now s w refusal ≡ ok out
      → Outcome
  unfolding apply_to
  apply_to-cases digest w (some x) f t l h = inl (refused_kept s x out h)
  apply_to-cases digest w none f t l h =
      let (p, rest, e) =
        bind_ok (prepare document w now s.db) (record_change digest document w now s) {out = out}
          h in
      elim (record_change-cases digest document w now s p out rest) [
        | inl k ↦ inl k
        | inr (q, z, r) ↦ inr (record {
          document = document;
          checked = checked;
          row = w;
          found = f;
          target = t;
          limits = l;
          prepared = q;
          prepares = e ∙ ap ok z;
          digest = digest;
          result = r;
        })
      ]

  apply_found-cases :
      (digest : String) (row : Option Workflow) (refusal : Option SchedulingRefusal)
      → find_workflow document.target_task_id s.db.workflows ≡ row
      → target_refusal (find_task document.target_task_id s.db.tasks) row document ≡ refusal
      → apply_found digest document now s row refusal ≡ ok out
      → Outcome
  unfolding apply_found
  apply_found-cases digest none refusal f t h = inl (refused_kept s not_found out h)
  apply_found-cases digest (some w) (some x) f t h = inl (refused_kept s x out h)
  apply_found-cases digest (some w) none f t h =
      apply_to-cases digest w (limit_refusal s.db document) f t refl h

  apply_once-cases :
      (digest : String) (existing : Option ChangeSet)
      → apply_once digest document now s existing ≡ ok out
      → Outcome
  unfolding apply_once
  apply_once-cases digest (some c) h =
      inl (kept s (unchanged_result c (card_of_change c.id s.cards)) out (λ z. cc) h)
  apply_once-cases digest none h =
      let row = find_workflow document.target_task_id s.db.workflows in
      apply_found-cases digest row
        (target_refusal (find_task document.target_task_id s.db.tasks) row document) refl refl h

  apply_document-cases : apply_document service now given document s ≡ ok out → Outcome
  unfolding apply_document
  apply_document-cases h =
      elim (Bool-cases (
        start_ahead now given.kind given.not_before
        && validated service.provenance_validator s given)) [
          | inl e ↦
              let digest = service.recommendation_digest document in
              apply_once-cases digest
                (existing_change document.research_receipt_id digest s.change_sets) (rw e at h)
          | inr e ↦ inl (refused_kept s invalid_recommendation out (rw e at h))
        ]

-- A call that returns applied nothing and changed nothing, or it recorded a change.
pub apply-cases :
    (service : SchedulingService) (now : ℕ) (given : Recommendation) (s : SchedulingDb)
    (out : ApplyResult × SchedulingDb)
    → apply service now given s ≡ ok out
    → Keeps s out ⊎ Records service now given s out
unfolding apply
apply-cases service now given s out h = checked_cases (recommendation_document given) refl h
  where
    checked_cases :
        (o : Option Recommendation)
        → recommendation_document given ≡ o
        → apply_checked service now given s o ≡ ok out
        → Keeps s out ⊎ Records service now given s out
    checked_cases none e k =
        inl (refused_kept s invalid_recommendation out (unfold apply_checked in k))
    checked_cases (some d) e k =
        apply_document-cases service now given d s e out (unfold apply_checked in k)
