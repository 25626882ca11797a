-- ===== src/Scheduling/Act/RoundTrip.antt =====
-- `act` of task_scheduling.py after `apply`: what an undo gives back.
use foxhound.Prelude.{
  ℕ, ◌+◌, ◌≤◌, ◌≡◌, refl, sym, ap, ◌∙◌, true, false, Option, none, some, List, [], ◌∷◌, ◌++◌, ok,
  arith, ◌==◌, inl, inr, String,
}
use foxhound.Schema.{Workflow, WorkflowPriority, PrioritySource, normal, raised, lowered}
use foxhound.Store.{find_task, find_workflow}
use foxhound.Tables.{Db, Task}
use foxhound.Operation.{applied}
use foxhound.Scheduling.{ApplyResult, card_result, next_id, find_change_set, find_card}
use foxhound.Scheduling.Rows.{raise_priority, Recommendation, ChangeSet, Card, SchedulingDb}
use foxhound.Scheduling.Callback.{undo}
use foxhound.Scheduling.Document.{recommendation_document}
use foxhound.Scheduling.Target.Open.{target_refusal-Fits}
use foxhound.Scheduling.Prepare.{Prepared, raised_row, chosen_priority}
use foxhound.Scheduling.Change.{condition_kind, add_condition_row, change_ids, new_change, recorded}
use foxhound.Scheduling.Change.Raised.{Raises, prepare-Raises}
use foxhound.Scheduling.{SchedulingService}
use foxhound.Scheduling.Apply.{apply}
use foxhound.Scheduling.Apply.Cases.{Records, apply-cases}
use foxhound.Scheduling.Undo.{restored_row}
use foxhound.Scheduling.Undo.Restored.{Unmoved}
use foxhound.Scheduling.Act.{is_delivered, act}
use foxhound.Scheduling.Act.Clear.{undo-restores}

-- The id of a new row is above those in the table.
next_id-fresh :
    (n : ℕ) (cs : List ChangeSet)
    → next_id (change_ids cs) ≤ n
    → (k : ChangeSet) → k.id ≡ n
    → find_change_set n (cs ++ k ∷ []) ≡ some k
unfolding next_id change_ids find_change_set
next_id-fresh n [] h k e = (let same : (k.id == n) ≡ true = ground (arith, e) in rw same refl)
next_id-fresh n (c ∷ cs) h k e =
    let other : (c.id == n) ≡ false = ground (arith, h) in
    let rest : next_id (change_ids cs) ≤ n = ground (arith, h) in
    rw other (next_id-fresh n cs rest k e)

document-kept :
    (given d : Recommendation)
    → recommendation_document given ≡ some d
    → (d.kind ≡ given.kind) × (d.target_task_id ≡ given.target_task_id)
unfolding recommendation_document
document-kept given d h = (ground (arith, h), ground (arith, h))

recorded-raised :
    (digest : String) (r : Recommendation) (w : Workflow) (now : ℕ) (p : Prepared)
    (s : SchedulingDb)
    → r.kind ≡ raise_priority
    → (recorded digest r w now p s).db ≡ p.db
unfolding recorded add_condition_row condition_kind
recorded-raised digest r w now p s kind = rw kind refl

recorded-change_sets :
    (digest : String) (r : Recommendation) (w : Workflow) (now : ℕ) (p : Prepared)
    (s : SchedulingDb)
    → (recorded digest r w now p s).change_sets
      ≡ s.change_sets ++ new_change (next_id (change_ids s.change_sets)) digest r w now p ∷ []
unfolding recorded
recorded-change_sets digest r w now p s = refl

-- The row as it was, at a later version and time.
abbrev pub later_row : Workflow → ℕ → Workflow
later_row w now = record w { version = w.version + 2; updated_at = now }

unchosen :
    (q : WorkflowPriority) (o : Option PrioritySource) → chosen_priority q o ≡ false → q ≡ normal
unchosen normal none h = refl
unchosen normal (some x) h = cc
unchosen raised o h = cc
unchosen lowered o h = cc

restored_row-raised_row :
    (w : Workflow) (e v now later : ℕ)
    → w.queue_priority ≡ normal
    → v ≡ w.version + 2
    → restored_row normal w.queue_priority_source v later (raised_row e now w) ≡ later_row w later
restored_row-raised_row w e v now later q same = cc

module _ (service : SchedulingService) (now : ℕ) (given : Recommendation) (s : SchedulingDb)
    (out : ApplyResult × SchedulingDb) (rec : Records service now given s out)
    (kind : given.kind ≡ raise_priority) where
  r : Recommendation
  r = rec.document

  new_row : ChangeSet
  new_row = new_change (next_id (change_ids s.change_sets)) rec.digest r rec.row now rec.prepared

  kept_kind : r.kind ≡ raise_priority
  unfolding r
  kept_kind = (document-kept given rec.document rec.checked).0 ∙ kind

  rec-Raises : Raises r rec.row now s.db rec.prepared
  unfolding r
  rec-Raises =
      prepare-Raises rec.document rec.row now s.db rec.prepared kept_kind rec.found rec.prepares

  after-db : out.1.db ≡ rec.prepared.db
  unfolding r
  after-db =
      ap (λ (x : ApplyResult × SchedulingDb). x.1.db) rec.result
      ∙ recorded-raised rec.digest rec.document rec.row now rec.prepared s kept_kind

  change-found :
      find_change_set (next_id (change_ids s.change_sets)) out.1.change_sets ≡ some new_row
  unfolding r new_row
  change-found =
      ap
        (λ (x : ApplyResult × SchedulingDb).
          find_change_set (next_id (change_ids s.change_sets)) x.1.change_sets)
        rec.result
      ∙ ap (find_change_set (next_id (change_ids s.change_sets)))
          (recorded-change_sets rec.digest rec.document rec.row now rec.prepared s)
      ∙ next_id-fresh (next_id (change_ids s.change_sets)) s.change_sets (omega arith) new_row refl

  rec-Unmoved :
      (db : Db) (id : ℕ)
      → db ≡ out.1.db
      → id ≡ given.target_task_id
      → (t : Task) × Unmoved db id new_row t
          (raised_row (r.expected_workflow_version + 1) now rec.row)
  unfolding r new_row
  rec-Unmoved db id same own =
      let fits = target_refusal-Fits rec.document _ rec.row rec.target in
      let raises = rec-Raises in
      let before = same ∙ after-db in
      let target = own ∙ sym (document-kept given rec.document rec.checked).1 in
      (
        fits.task,
        record {
          task =
              ap (λ i. find_task i db.tasks) target
              ∙ ap (λ (d : Db). find_task rec.document.target_task_id d.tasks)
                  (before ∙ raises.rest)
              ∙ fits.found;
          row =
              ap (λ i. find_workflow i db.workflows) target
              ∙ ap (λ (d : Db). find_workflow rec.document.target_task_id d.workflows) before
              ∙ raises.row;
          active = refl;
          task_open = fits.task_open;
          task_version = ground (arith, fits.task_version);
          version = ground (arith, raises.version);
          unsettled = fits.unsettled;
          automated = refl;
          created = raises.created;
        },
      )

-- A card of the change that `apply` made, as it was shown to the reader.
pub record Shown (s : SchedulingDb) (c : Card) (r : Recommendation) (result : ApplyResult)
    : Type 0 where
  pub identity : 1 ≤ c.id
  pub at : 1 ≤ c.version
  pub card : find_card c.id s.cards ≡ some c
  pub change : result.change_set_id ≡ some c.change_set_id
  pub task : c.task_id ≡ r.target_task_id
  pub delivered : is_delivered c.status ≡ true

-- A priority that `apply` raised, and that nothing has touched since, is undone by the card of its
-- change: the undo is accepted, and the target's row becomes what it was before the change, at a later
-- version and time.
pub undo-apply :
    (service : SchedulingService) (now later : ℕ) (given : Recommendation) (s : SchedulingDb)
    (out : ApplyResult × SchedulingDb) (w : Workflow) (c : Card) (shown : SchedulingDb)
    → given.kind ≡ raise_priority
    → apply service now given s ≡ ok out
    → out.0.disposition ≡ applied
    → find_workflow given.target_task_id s.db.workflows ≡ some w
    → shown.db ≡ out.1.db
    → shown.change_sets ≡ out.1.change_sets
    → Shown shown c given out.0
    → (after : SchedulingDb) × (act later c.id c.version (some undo) shown
        ≡ ok (card_result applied c.id (c.version + 1), after))
      × (find_workflow given.target_task_id after.db.workflows ≡ some (later_row w later))
unfolding new_row r
undo-apply service now later given s out w c shown kind h done f same changes card =
    elim (apply-cases service now given s out h) [
      | inl kept ↦ absurd (kept.1 done)
      | inr rec ↦ undone rec
    ]
  where
    undone :
        Records service now given s out
        → (after : SchedulingDb) × (act later c.id c.version (some undo) shown
            ≡ ok (card_result applied c.id (c.version + 1), after))
          × (find_workflow given.target_task_id after.db.workflows ≡ some (later_row w later))
    undone rec =
        let target = (document-kept given rec.document rec.checked).1 in
        let k = new_row service now given s out rec kind in
        let (t, u) =
          rec-Unmoved service now given s out rec kind shown.db c.task_id same card.task in
        let raises = rec-Raises service now given s out rec kind in
        let number = change_id (
          sym (ap (λ (x : ApplyResult × SchedulingDb). x.0.change_set_id) rec.result)
          ∙ card.change) in
        let made =
          sym (ap (λ i. find_change_set i shown.change_sets) number)
          ∙ ap (find_change_set (next_id (change_ids s.change_sets))) changes
          ∙ change-found service now given s out rec kind in
        let (after, acted, row) =
          undo-restores later shown c k t
            (raised_row (rec.document.expected_workflow_version + 1) now rec.row)
            (record {
              identity = card.identity;
              at = card.at;
              card = card.card;
              change = made;
              delivered = card.delivered;
            })
            u (kept_kind service now given s out rec kind) raises.prior raises.checked in
        let fits = target_refusal-Fits rec.document _ rec.row rec.target in
        let version : rec.prepared.version + 1 ≡ rec.row.version + 2 =
          omega (arith, raises.version, fits.version) in
        let back =
          restored_row-raised_row rec.row (rec.document.expected_workflow_version + 1)
            (rec.prepared.version + 1) now later
            (unchosen rec.row.queue_priority rec.row.queue_priority_source raises.unchosen)
            version in
        let own = row_inj (sym rec.found ∙ ap (λ i. find_workflow i s.db.workflows) target ∙ f) in
        (
          after,
          acted,
          ap (λ i. find_workflow i after.db.workflows) (sym card.task)
              ∙ row
              ∙ ap some (back ∙ ap (λ x. later_row x later) own),
        )
      where
        change_id :
            some (next_id (change_ids s.change_sets)) ≡ some c.change_set_id
            → next_id (change_ids s.change_sets) ≡ c.change_set_id
        change_id e = cc

        row_inj : {x y : Workflow} → some x ≡ some y → x ≡ y
        row_inj e = cc
