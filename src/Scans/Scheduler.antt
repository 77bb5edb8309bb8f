-- ===== src/Scans/Scheduler.antt =====
-- `_start_due_scans` of backend/meshive/services/scan_scheduler.py. Whether a source is due is a
-- parameter, which reads the scans that there are.
use meshive.Prelude.{ℕ, Bool, ◌&&◌, not, List, [], ◌∷◌, ◌++◌, filter, if◌then◌else◌}
use meshive.Models.{LibrarySource, ScanRun, scheduled, smart}
use meshive.Scans.{Queue, has_queued_or_running_scan, create_scan_run, dispatch_pending_scans}

schedulable : LibrarySource → Bool
schedulable source = source.is_active && (source.scan_enabled && source.auto_scan_enabled)

unfoldable pub schedule_all :
    ℕ → (List ScanRun → LibrarySource → Bool) → List LibrarySource → List ScanRun → List ScanRun
schedule_all now is_due [] scans = scans
schedule_all now is_due (source ∷ sources) scans = schedule_all now is_due sources (
    if is_due scans source && not (has_queued_or_running_scan scans source.id)
    then scans ++ create_scan_run now source.id scheduled smart scans ∷ []
    else scans)

unfoldable pub start_due_scans : ℕ → ℕ → (List ScanRun → LibrarySource → Bool) → Queue → Queue
unfolding schedulable
start_due_scans max_concurrent_scans now is_due q =
    dispatch_pending_scans max_concurrent_scans
      (record q { scans = schedule_all now is_due (filter schedulable q.sources) q.scans })
