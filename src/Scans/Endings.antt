-- ===== src/Scans/Endings.antt =====
-- `_execute_scan` and `rescan_model` of services/scanner.py: which scans stay running.
use meshive.Prelude.{
  ℕ, ◌≡◌, refl, ap, ◌∙◌, inl, inr, Bool, true, false, not, ◌&&◌, ◌||◌, Option, none, some, List, [],
  ◌∷◌, arith, Bool-cases, any, ◌==◌, nat_eq, get, is_some, beq_refl,
}
use meshive.Models.{running, LibrarySource, LibraryModel, ScanRun, scan_row, source_row, model_row}
use meshive.Scans.{Queue, is_active, has_queued_or_running_scan}
use meshive.Scans.Execution.Rows.{attempted-IsSame, run_scan_row}
use meshive.Scans.Execution.{
  Work, at_model, finished, stopped, raised, Outcome, left, was_cancelled, caught, escaped, held,
  completion, rescanned, rescan_source, rescan_model, scanned, target_outcome, attempt, begun,
  ended, attempted, run_scan,
}

-- The model that a targeted scan is for is there, with its source.
abbrev model_there : List LibrarySource → Option LibraryModel → Bool
model_there sources none = false
model_there sources (some model) = is_some (get model.library_source_id sources)

-- The flags of the row are read before the work ends.
abbrev pub reads_flags : Work → Bool
reads_flags (at_model work) = true
reads_flags _ = false

-- The work ends with an exception that `_execute_scan` does not name.
abbrev pub is_unnamed : Work → Bool
is_unnamed (at_model work) = is_unnamed work
is_unnamed (raised known message) = not known
is_unnamed _ = false

-- A scan of a whole source stays running when it is paused, not cancelled and comes to a model; or when
-- an exception ends it that the code does not name, and it was not cancelled at a model before.
abbrev pub source_scan_stays : Work → ScanRun → Bool
source_scan_stays work scan =
    reads_flags work && (scan.pause_requested && not scan.cancel_requested)
    || is_unnamed work && not (reads_flags work && scan.cancel_requested)

-- A targeted scan stays running when its model is gone, or the source of the model.
abbrev pub target_stays : List LibraryModel → List LibrarySource → Work → ScanRun → Option ℕ → Bool
target_stays models sources work scan none = source_scan_stays work scan
target_stays models sources work scan (some model_id) =
    not (model_there sources (get model_id models))

-- A scan whose own source is gone does not stay running.
abbrev pub stays_running :
    List LibraryModel → List LibrarySource → Option LibrarySource → Work → ScanRun → Bool
stays_running models sources none work scan = false
stays_running models sources (some source) work scan =
    target_stays models sources work scan scan.target_model_id

abbrev stays : Outcome → Bool
stays (left status message) = is_active status
stays was_cancelled = false
stays (caught message) = false
stays escaped = true
stays held = true

completion_ends : (n : ℕ) → is_active (completion n) ≡ false
completion_ends n = ground arith

stays-rescanned : (work : Work) → stays (rescanned work) ≡ false
stays-rescanned (at_model work) = stays-rescanned work
stays-rescanned (finished n) = completion_ends n
stays-rescanned stopped = refl
stays-rescanned (raised known message) = refl

stays-scanned :
    (scan : ScanRun) (work : Work) → stays (scanned scan work) ≡ source_scan_stays work scan
stays-scanned scan (at_model work) = ground (arith, stays-scanned scan work)
stays-scanned scan (finished n) = completion_ends n
stays-scanned scan stopped = refl
stays-scanned scan (raised true message) = refl
stays-scanned scan (raised false message) = refl

module _ (models : List LibraryModel) (sources : List LibrarySource) (work : Work)
    (scan : ScanRun) where
  stays-rescan_source :
      (o : Option LibrarySource) → stays (rescan_source work scan o) ≡ not (is_some o)
  unfolding rescan_source
  stays-rescan_source none = refl
  stays-rescan_source (some source) = elim (Bool-cases scan.cancel_requested) [
    | inl e ↦ rw e
    | inr e ↦ rw e (stays-rescanned work)
  ]

  stays-rescan_model :
      (o : Option LibraryModel)
      → stays (rescan_model sources o work scan) ≡ not (model_there sources o)
  unfolding rescan_model
  stays-rescan_model none = refl
  stays-rescan_model (some model) = stays-rescan_source (get model.library_source_id sources)

  stays-target_outcome :
      (target : Option ℕ)
      → stays (target_outcome sources models work scan target)
        ≡ target_stays models sources work scan target
  unfolding target_outcome
  stays-target_outcome none = stays-scanned scan work
  stays-target_outcome (some model_id) = stays-rescan_model (get model_id models)

  stays-attempt :
      (source : Option LibrarySource)
      → stays (attempt models sources source work scan)
        ≡ stays_running models sources source work scan
  unfolding attempt
  stays-attempt none = refl
  stays-attempt (some source) = stays-target_outcome scan.target_model_id

stays-ended :
    (ended_at : ℕ) (o : Outcome) (scan : ScanRun)
    → scan.status ≡ running
    → is_active (ended ended_at o scan).status ≡ stays o
stays-ended ended_at (left status message) scan h = refl
stays-ended ended_at was_cancelled scan h = refl
stays-ended ended_at (caught message) scan h = refl
stays-ended ended_at escaped scan h = rw h refl
stays-ended ended_at held scan h = rw h refl

-- An execution of a scan that is there, with no request meanwhile, leaves its row queued or running in
-- these cases and in no other: its source is there, and either it is a scan of the whole source that is
-- paused, not cancelled, and comes to a model; or such a scan whose work, if it comes to its end, raises
-- an exception that the code does not name, and that is not cancelled at a model before; or it is a
-- targeted scan whose model is gone, or the source of the model.
pub run_scan_stays :
    (begun_at noted_at ended_at source_id i : ℕ) (work : Work) (q : Queue) (old : ScanRun)
    → get i q.scans ≡ some old
    → (scan : ScanRun) × (get i (run_scan begun_at noted_at ended_at source_id i work q).scans
        ≡ some scan)
      × (is_active scan.status
          ≡ stays_running q.models q.sources (get source_id q.sources) work old)
run_scan_stays begun_at noted_at ended_at source_id i work q old was =
    let source = get source_id q.sources in
    let outcome = attempt q.models q.sources source work (begun begun_at old) in
    let row = attempted noted_at q.models q.sources source (begun begun_at old) in
    let kept = attempted-IsSame noted_at q.models q.sources (begun begun_at old) refl source in
    (
      ended ended_at outcome row,
      run_scan_row begun_at noted_at ended_at source_id i work q old was,
      stays-ended ended_at outcome row kept.2
          ∙ stays-attempt q.models q.sources work (begun begun_at old) source
          ∙ same source,
    )
  where
    same :
        (o : Option LibrarySource)
        → stays_running q.models q.sources o work (begun begun_at old)
          ≡ stays_running q.models q.sources o work old
    same none = refl
    same (some source) = kept old.target_model_id
      where
        kept :
            (target : Option ℕ)
            → target_stays q.models q.sources work (begun begun_at old) target
              ≡ target_stays q.models q.sources work old target
        kept none = refl
        kept (some model_id) = refl

any_of_get :
    (p : ScanRun → Bool) (i : ℕ) (xs : List ScanRun) {s : ScanRun}
    → get i xs ≡ some s
    → p s ≡ true
    → any p xs ≡ true
unfolding get
any_of_get p i [] e h = cc
any_of_get p i (x ∷ xs) {s} e h = ground (arith, any_of_get p i xs {s = s})

gone_escapes :
    (models : List LibraryModel) (sources : List LibrarySource) (work : Work) (scan : ScanRun)
    (o : Option LibrarySource) (model_id : ℕ)
    → is_some o ≡ true
    → scan.target_model_id ≡ some model_id
    → get model_id models ≡ none
    → attempt models sources o work scan ≡ escaped
unfolding attempt target_outcome rescan_model
gone_escapes models sources work scan none model_id there target gone = cc
gone_escapes models sources work scan (some source) model_id there target gone = rw (target, gone)

-- When a targeted scan is executed whose model is gone, and the source of the thread is there, the scan
-- does not end: its library source still counts as one with a queued or running scan.
pub deleted_target_blocks :
    (begun_at noted_at ended_at source_id i model_id : ℕ) (work : Work) (q : Queue) (old : ScanRun)
    → get i q.scans ≡ some old
    → is_some (get source_id q.sources) ≡ true
    → old.target_model_id ≡ some model_id
    → get model_id q.models ≡ none
    → has_queued_or_running_scan
        (run_scan begun_at noted_at ended_at source_id i work q).scans
        old.library_source_id
      ≡ true
unfolding has_queued_or_running_scan
deleted_target_blocks begun_at noted_at ended_at source_id i model_id work q old was source target
      gone =
    let escapes =
      gone_escapes q.models q.sources work (begun begun_at old) (get source_id q.sources) model_id
        source target gone in
    let row =
      attempted noted_at q.models q.sources (get source_id q.sources) (begun begun_at old) in
    let kept =
      attempted-IsSame noted_at q.models q.sources (begun begun_at old) refl
        (get source_id q.sources) in
    any_of_get (λ s. s.library_source_id == old.library_source_id && is_active s.status) i _
      (run_scan_row begun_at noted_at ended_at source_id i work q old was
        ∙ ap (λ o. some (ended ended_at o row)) escapes)
      (rw (kept.1, kept.2, beq_refl old.library_source_id) refl)
