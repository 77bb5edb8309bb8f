-- ===== src/Scans.antt =====
-- backend/meshive/services/scanner.py (the queue: claims, dispatch and execution) and api/scans.py.
-- `Queue` is the tables and the two things that live in the process: the set of the claimed
-- sources, as the list of its elements, and the threads that were started. The progress columns of
-- a scan are left out, and what the work on the files comes to is a parameter (`Work`).
pub mod Control
pub mod Execution
pub mod Scheduler
pub mod Outcome
pub mod Exclusive
pub mod Steps
pub mod Dispatch
pub mod Effects
pub mod Endings
pub mod Starts
pub mod Tests
use meshive.Prelude.{
  ℕ, zero, suc, String, Bool, true, false, not, ◌&&◌, ◌||◌, Option, none, some, List, [], ◌∷◌, ◌++◌,
  map, filter, any, if◌then◌else◌, leb, ltb, length, contains, is_some, next_id, ◌==◌, string_eq,
  nat_eq, get, put,
}
use meshive.Http.{Response, ok, error, HttpError, http_error, require, found, ◌>>=◌, ◌>>◌}
use meshive.Models.{
  Role, User, LibrarySource, LibraryModel, ScanRun, ScanStatus, pending, running, completed,
  completed_with_errors, failed, cancelled, ScanTrigger, manual, scheduled, model_rescan,
  model_image_rebuild, ScanMode, full, smart, AuditEvent, source_row, model_row, scan_row,
}
use meshive.Auth.Permissions.{scans_start, scans_control}
use meshive.Auth.Access.{
  AccessContext, get_access_context, get_operable_source_or_404, get_visible_scan_or_404,
  require_access_permission,
}

-- A thread of `execute_scan`.
pub record Worker : Type 0 where
  pub source_id : ℕ
  pub scan_run_id : ℕ

pub record Queue : Type 0 where
  pub sources : List LibrarySource
  pub models : List LibraryModel
  pub scans : List ScanRun
  pub audit : List AuditEvent
  pub active_sources : List ℕ
  pub workers : List Worker

-- The new set, when the source was claimed.
unfoldable pub claim_source : ℕ → ℕ → List ℕ → Option (List ℕ)
claim_source max_concurrent_scans source_id active_sources =
    if contains active_sources source_id || leb max_concurrent_scans (length active_sources)
    then none
    else some (active_sources ++ source_id ∷ [])

unfoldable pub release_source : ℕ → List ℕ → List ℕ
release_source source_id = filter (λ s. not (s == source_id))

abbrev pub is_pending : ScanStatus → Bool
is_pending pending = true
is_pending _ = false

abbrev pub is_running : ScanStatus → Bool
is_running running = true
is_running _ = false

-- `status.in_(("pending", "running"))`
abbrev pub is_active : ScanStatus → Bool
is_active status = is_pending status || is_running status

unfoldable pub has_queued_or_running_scan : List ScanRun → ℕ → Bool
has_queued_or_running_scan scans source_id =
    any (λ s. s.library_source_id == source_id && is_active s.status) scans

abbrev older : ScanRun → ScanRun → Bool
older a b = ltb a.created_at b.created_at || (a.created_at == b.created_at && leb a.id b.id)

unfoldable pub insert_by_age : ScanRun → List ScanRun → List ScanRun
insert_by_age s [] = s ∷ []
insert_by_age s (x ∷ xs) =
    let rest = insert_by_age s xs in if older s x then s ∷ x ∷ xs else x ∷ rest

-- `order_by(ScanRun.created_at, ScanRun.id)`
unfoldable pub by_age : List ScanRun → List ScanRun
unfolding insert_by_age
by_age [] = []
by_age (s ∷ xs) = insert_by_age s (by_age xs)

unfoldable pub pending_scans : List ScanRun → List ScanRun
unfolding by_age
pending_scans scans = by_age (filter (λ s. is_pending s.status) scans)

-- One turn of the loop: the source is claimed and the thread started, or the scan waits.
unfoldable pub start_claimed : ScanRun → Queue → Option (List ℕ) → Queue
start_claimed scan q none = q
start_claimed scan q (some claimed) = record q {
  active_sources = claimed;
  workers = q.workers ++ record { source_id = scan.library_source_id; scan_run_id = scan.id } ∷ [];
}

unfoldable pub try_start : ℕ → ScanRun → Queue → Queue
unfolding start_claimed
try_start max_concurrent_scans scan q =
    start_claimed scan q (claim_source max_concurrent_scans scan.library_source_id q.active_sources)

unfoldable pub start_all : ℕ → List ScanRun → Queue → Queue
start_all max_concurrent_scans [] q = q
start_all max_concurrent_scans (scan ∷ scans) q =
    start_all max_concurrent_scans scans (try_start max_concurrent_scans scan q)

unfoldable pub dispatch_pending_scans : ℕ → Queue → Queue
unfolding pending_scans
dispatch_pending_scans max_concurrent_scans q =
    start_all max_concurrent_scans (pending_scans q.scans) q

-- A new row, with the defaults of the columns.
unfoldable pub create_scan_run : ℕ → ℕ → ScanTrigger → ScanMode → List ScanRun → ScanRun
create_scan_run now source_id trigger mode scans = record {
  id = next_id scans;
  library_source_id = source_id;
  status = pending;
  cancel_requested = false;
  pause_requested = false;
  trigger = trigger;
  mode = mode;
  target_model_id = none;
  target_model_name = none;
  created_at = now;
  started_at = none;
  finished_at = none;
  error_message = none;
}

-- The `LookupError`s of `queue_model_rescan` and of `rescan_model`.
pub data LookupError : Type 0 where
  model_not_found library_source_not_found : LookupError

pub data Queued : Type 0 where
  queued : ScanRun → Queue → Queued
  lookup_error : LookupError → Queued

unfoldable pub target_found : ℕ → Bool → LibraryModel → Option LibrarySource → Queue → Queued
unfolding create_scan_run
target_found now force_image_rebuild model none q = lookup_error library_source_not_found
target_found now force_image_rebuild model (some source) q =
    let trigger = if force_image_rebuild then model_image_rebuild else model_rescan in
    let scan = record (create_scan_run now source.id trigger full q.scans) {
      target_model_id = some model.id;
      target_model_name = some model.name;
    } in
    queued scan (record q { scans = q.scans ++ scan ∷ [] })

unfoldable pub target_of : ℕ → Bool → Option LibraryModel → Queue → Queued
unfolding target_found
target_of now force_image_rebuild none q = lookup_error model_not_found
target_of now force_image_rebuild (some model) q =
    target_found now force_image_rebuild model (get model.library_source_id q.sources) q

-- With `commit`, what is queued is dispatched.
abbrev pub dispatched : ℕ → Queued → Queued
dispatched max_concurrent_scans (queued scan q) =
    queued scan (dispatch_pending_scans max_concurrent_scans q)
dispatched max_concurrent_scans (lookup_error e) = lookup_error e

unfoldable pub queue_model_rescan : ℕ → ℕ → ℕ → Bool → Queue → Queued
unfolding target_of
queue_model_rescan max_concurrent_scans now model_id force_image_rebuild q =
    dispatched max_concurrent_scans (target_of now force_image_rebuild (get model_id q.models) q)

abbrev pub requeued : Queued → Queue → Queue
requeued (queued scan q') q = q'
requeued (lookup_error e) q = q
