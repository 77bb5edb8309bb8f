-- ===== src/Scans/Execution/Rows.antt =====
-- `_execute_scan` and `rescan_model` of services/scanner.py: the row that an execution writes.
use meshive.Prelude.{
  ℕ, ◌≡◌, refl, ap, ◌∙◌, inl, inr, Option, none, some, List, Bool-cases, if◌then◌else◌, nat_eq, get,
  put, is_some, beq_refl,
}
use meshive.Models.{running, LibrarySource, LibraryModel, ScanRun, scan_row, source_row, model_row}
use meshive.Scans.{Queue}
use meshive.Scans.Effects.{put_row}
use meshive.Scans.Execution.{
  Work, Outcome, left, was_cancelled, caught, escaped, held, attempt, begun, ended, noted,
  noted_target, attempted, begin_scan, end_scan, run_scan, write,
}

-- What the writes of `rescan_model` leave as it was, in a row that is running.
module _ (noted_at : ℕ) (models : List LibraryModel) (sources : List LibrarySource) (scan : ScanRun)
    (h : scan.status ≡ running) where
  abbrev pub IsSame : ScanRun → Type 0
  IsSame row =
      (row.id ≡ scan.id) × (row.library_source_id ≡ scan.library_source_id) × (row.status ≡ running)

  noted-IsSame : (o : Option LibraryModel) → IsSame (noted noted_at sources o scan)
  noted-IsSame none = (refl, refl, h)
  noted-IsSame (some model) = elim (Bool-cases (is_some (get model.library_source_id sources))) [
    | inl e ↦ rw e (refl, refl, refl)
    | inr e ↦ rw e (refl, refl, h)
  ]

  target-IsSame : (o : Option ℕ) → IsSame (noted_target noted_at models sources o scan)
  target-IsSame none = (refl, refl, h)
  target-IsSame (some model_id) = noted-IsSame (get model_id models)

  pub attempted-IsSame :
      (o : Option LibrarySource) → IsSame (attempted noted_at models sources o scan)
  attempted-IsSame none = (refl, refl, h)
  attempted-IsSame (some source) = target-IsSame scan.target_model_id

id-ended : (now : ℕ) (o : Outcome) (scan : ScanRun) → (ended now o scan).id ≡ scan.id
id-ended now (left status message) scan = refl
id-ended now was_cancelled scan = refl
id-ended now (caught message) scan = refl
id-ended now escaped scan = refl
id-ended now held scan = refl

put_at :
    (i : ℕ) (new old : ScanRun) (scans : List ScanRun)
    → get i scans ≡ some old
    → new.id ≡ old.id
    → get i (put new scans) ≡ some new
put_at i new old scans was same =
    put_row i i new old scans was same ∙ ap (λ b. if b then some new else get i scans) (beq_refl i)

module _ (noted_at ended_at source_id i : ℕ) (work : Work) (q : Queue) where
  end_scan_row :
      (old : ScanRun)
      → get i q.scans ≡ some old
      → old.status ≡ running
      → get i (end_scan noted_at ended_at source_id i work q).scans
        ≡ some (
            ended ended_at
              (attempt q.models q.sources (get source_id q.sources) work old)
              (attempted noted_at q.models q.sources (get source_id q.sources) old))
  unfolding end_scan write
  end_scan_row old was runs =
      let o = attempt q.models q.sources (get source_id q.sources) work old in
      let row = attempted noted_at q.models q.sources (get source_id q.sources) old in
      rw was (
        put_at i (ended ended_at o row) old q.scans was (
          id-ended ended_at o row
          ∙ (attempted-IsSame noted_at q.models q.sources old runs (get source_id q.sources)).0))

-- The row that an execution writes.
pub run_scan_row :
    (begun_at noted_at ended_at source_id i : ℕ) (work : Work) (q : Queue) (old : ScanRun)
    → get i q.scans ≡ some old
    → get i (run_scan begun_at noted_at ended_at source_id i work q).scans
      ≡ some (
          ended ended_at
            (attempt q.models q.sources (get source_id q.sources) work (begun begun_at old))
            (attempted noted_at q.models q.sources (get source_id q.sources) (begun begun_at old)))
unfolding run_scan begin_scan write
run_scan_row begun_at noted_at ended_at source_id i work q old was = rw was (
    end_scan_row noted_at ended_at source_id i work
      (record q { scans = put (begun begun_at old) q.scans }) (begun begun_at old)
      (put_at i (begun begun_at old) old q.scans was refl) refl)
