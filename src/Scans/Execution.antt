-- ===== src/Scans/Execution.antt =====
-- `execute_scan`, `_execute_scan` and `rescan_model` of backend/meshive/services/scanner.py: what a
-- thread does to the row of its scan. The work on the files is a parameter, and the commits of the
-- progress columns between its first and its last write are left out.
pub mod Rows
use meshive.Prelude.{
  ℕ, String, truncated, Bool, true, false, Option, none, some, List, map, if◌then◌else◌, ltb,
  is_some, nat_eq, get, put,
}
use meshive.Models.{
  LibrarySource, LibraryModel, ScanRun, ScanStatus, running, completed, completed_with_errors,
  failed, cancelled, source_row, model_row, scan_row,
}
use meshive.Scans.{Queue, is_running, release_source, dispatch_pending_scans}

-- What is left of the work: a model of the loop, before which the flags of the row are read, and what
-- comes after it; or it ends with a count of issues, it notices elsewhere that it is cancelled, or it
-- raises. `known` are the classes that `_execute_scan` catches by name: ArchiveImageError,
-- ArchiveReadError, OSError, RuntimeError and ValueError.
pub data Work : Type 0 where
  at_model : Work → Work
  finished : ℕ → Work
  stopped : Work
  raised : (known : Bool) → String → Work

-- How the `try` of `_execute_scan` is left: normally with a status and a message, by ScanCancelled,
-- by an exception that is caught, or by one that is not; or it is not left, since the thread waits for
-- the end of a pause.
pub data Outcome : Type 0 where
  left : ScanStatus → Option String → Outcome
  was_cancelled : Outcome
  caught : String → Outcome
  escaped : Outcome
  held : Outcome

abbrev pub completion : ℕ → ScanStatus
completion issues_count = if ltb 0 issues_count then completed_with_errors else completed

-- `rescan_model` catches every exception of its work, and has no loop over models.
abbrev pub rescanned : Work → Outcome
rescanned (at_model work) = rescanned work
rescanned (finished issues_count) = left (completion issues_count) none
rescanned stopped = was_cancelled
rescanned (raised known message) = left failed (some (truncated 4000 message))

unfoldable pub rescan_source : Work → ScanRun → Option LibrarySource → Outcome
rescan_source work scan none = escaped
rescan_source work scan (some source) =
    if scan.cancel_requested then was_cancelled else rescanned work

-- A `LookupError` is none of the classes that `_execute_scan` catches.
unfoldable pub rescan_model : List LibrarySource → Option LibraryModel → Work → ScanRun → Outcome
unfolding rescan_source
rescan_model sources none work scan = escaped
rescan_model sources (some model) work scan =
    rescan_source work scan (get model.library_source_id sources)

-- `_raise_if_scan_cancelled` and `_wait_if_scan_paused` before each model. The row does not change
-- here, so that the wait has no end when it is begun.
abbrev pub scanned : ScanRun → Work → Outcome
scanned scan (at_model work) =
    let rest = scanned scan work in
    if scan.cancel_requested then was_cancelled else if scan.pause_requested then held else rest
scanned scan (finished issues_count) = left (completion issues_count) none
scanned scan stopped = was_cancelled
scanned scan (raised true message) = caught message
scanned scan (raised false message) = escaped

unfoldable pub target_outcome :
    List LibrarySource → List LibraryModel → Work → ScanRun → Option ℕ → Outcome
unfolding rescan_model
target_outcome sources models work scan none = scanned scan work
target_outcome sources models work scan (some model_id) =
    rescan_model sources (get model_id models) work scan

-- The body of the `try`, for the row as it stands when it is run.
unfoldable pub attempt :
    List LibraryModel → List LibrarySource → Option LibrarySource → Work → ScanRun → Outcome
unfolding target_outcome
attempt models sources none work scan = caught "Library source no longer exists"
attempt models sources (some source) work scan =
    target_outcome sources models work scan scan.target_model_id

-- `scan.status = "running"`, `scan.started_at = utc_now()`
abbrev pub begun : ℕ → ScanRun → ScanRun
begun now scan = record scan { status = running; started_at = some now }

-- The handlers of the exceptions and the `finally`.
abbrev pub settled : Outcome → ScanRun → ScanRun
settled (left status message) scan = record scan {
  status = status;
  error_message = elim message [ none ↦ scan.error_message | some m ↦ some m ];
}
settled was_cancelled scan = record scan { status = cancelled }
settled (caught message) scan = record scan {
  status = failed;
  error_message = some (truncated 4000 message);
}
settled escaped scan = scan
settled held scan = scan

-- A thread that waits writes nothing.
abbrev pub ended : ℕ → Outcome → ScanRun → ScanRun
ended now held scan = scan
ended now outcome scan = record (settled outcome scan) { finished_at = some now }

-- The first writes of `rescan_model`, when the model and its source are there.
abbrev pub noted : ℕ → List LibrarySource → Option LibraryModel → ScanRun → ScanRun
noted now sources none scan = scan
noted now sources (some model) scan =
    if is_some (get model.library_source_id sources)
    then record scan {
      target_model_name = some model.name;
      status = running;
      started_at = some now;
    }
    else scan

abbrev pub noted_target : ℕ → List LibraryModel → List LibrarySource → Option ℕ → ScanRun → ScanRun
noted_target now models sources none scan = scan
noted_target now models sources (some model_id) scan = noted now sources (get model_id models) scan

-- The row as the body of the `try` leaves it.
abbrev pub attempted :
    ℕ → List LibraryModel → List LibrarySource → Option LibrarySource → ScanRun → ScanRun
attempted now models sources none scan = scan
attempted now models sources (some source) scan =
    noted_target now models sources scan.target_model_id scan

unfoldable pub write : (ScanRun → ScanRun) → Option ScanRun → Queue → Queue
write change none q = q
write change (some scan) q = record q { scans = put (change scan) q.scans }

-- The first commit of `_execute_scan`.
unfoldable pub begin_scan : ℕ → ℕ → Queue → Queue
unfolding write
begin_scan now scan_run_id q = write (begun now) (get scan_run_id q.scans) q

-- From a point in the `try` to the last commit, with what is left of the work there: a request may
-- have changed the row before it. A thread that waits is at such a point again when the row is changed.
-- `noted_at` is the instant that a targeted scan reads in `rescan_model`.
unfoldable pub end_scan : ℕ → ℕ → ℕ → ℕ → Work → Queue → Queue
unfolding write attempt
end_scan noted_at now source_id scan_run_id work q =
    let source = get source_id q.sources in
    write
      (λ scan.
        ended now (attempt q.models q.sources source work scan)
          (attempted noted_at q.models q.sources source scan))
      (get scan_run_id q.scans) q

-- `_execute_scan`, when no request comes between.
unfoldable pub run_scan : ℕ → ℕ → ℕ → ℕ → ℕ → Work → Queue → Queue
unfolding begin_scan end_scan
run_scan begun_at noted_at ended_at source_id scan_run_id work q =
    end_scan noted_at ended_at source_id scan_run_id work (begin_scan begun_at scan_run_id q)

-- The `finally` of `execute_scan`.
unfoldable pub release : ℕ → ℕ → Queue → Queue
release max_concurrent_scans source_id q =
    dispatch_pending_scans max_concurrent_scans
      (record q { active_sources = release_source source_id q.active_sources })

-- `_recover_interrupted_scans` of services/scan_scheduler.py, when the process starts: no source is
-- claimed and there is no thread.
abbrev pub interrupted : ℕ → ScanRun → ScanRun
interrupted now scan =
    if is_running scan.status
    then record scan {
      status = failed;
      finished_at = some now;
      error_message = some "Scan interrupted by an application restart";
    }
    else scan

unfoldable pub recover_interrupted_scans : ℕ → List ScanRun → List ScanRun
recover_interrupted_scans now = map (interrupted now)
