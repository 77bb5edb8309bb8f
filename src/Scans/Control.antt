-- ===== src/Scans/Control.antt =====
-- backend/meshive/api/scans.py: the requests that start, cancel, pause and resume a scan.
use meshive.Prelude.{
  ℕ, String, append, Bool, true, false, not, ◌&&◌, Option, none, some, List, [], ◌∷◌, ◌++◌,
  if◌then◌else◌, ◌==◌, string_eq, get, put,
}
use meshive.Http.{Response, ok, error, HttpError, http_error, require, ◌>>=◌, ◌>>◌}
use meshive.Models.{
  Role, User, LibrarySource, ScanRun, cancelled, manual, ScanMode, smart, AuditEvent, source_row,
  scan_row,
}
use meshive.Auth.Permissions.{scans_start, scans_control}
use meshive.Auth.Access.{
  get_access_context, get_operable_source_or_404, get_visible_scan_or_404,
  require_access_permission,
}
use meshive.Scans.{
  Queue, is_pending, is_active, has_queued_or_running_scan, create_scan_run, dispatch_pending_scans,
}

abbrev truthy : Option String → Option String
truthy none = none
truthy (some s) = if s == "" then none else some s

unfoldable pub scan_target_label : ScanRun → String → String
scan_target_label scan source_name = elim (truthy scan.target_model_name) [
  | none ↦ append "Smart scan for " source_name
  | some name ↦ append "Targeted scan for " name
]

event : User → String → ScanRun → String → AuditEvent
unfolding scan_target_label
event actor action scan source_name = record {
  actor_id = actor.id;
  action = action;
  target_type = "scan";
  target_label = scan_target_label scan source_name;
  target_id = some scan.id;
}

source_name : Option LibrarySource → String
source_name none = "deleted source"
source_name (some source) = source.name

-- `_log_scan_control_event` beside the row that the handler changed.
unfoldable pub control_scan : User → String → ScanRun → Queue → Queue
unfolding event source_name
control_scan actor action scan q = record q {
  scans = put scan q.scans;
  audit =
      q.audit ++ event actor action scan (source_name (get scan.library_source_id q.sources)) ∷ [];
}

abbrev pub not_active : HttpError
not_active = http_error 409 "Scan is not active"

unfoldable pub cancelled_scan : ℕ → ScanRun → ScanRun
cancelled_scan now scan = record scan {
  cancel_requested = true;
  pause_requested = false;
  status = if is_pending scan.status then cancelled else scan.status;
  finished_at = if is_pending scan.status then some now else scan.finished_at;
}

unfoldable pub cancel_scan : List Role → ℕ → User → ℕ → Queue → Response (ScanRun × Queue)
unfolding control_scan cancelled_scan
cancel_scan roles now current_user scan_id q = do
  scan ← get_visible_scan_or_404 q.scans (get_access_context roles current_user) scan_id
  require_access_permission (get_access_context roles current_user) scans_control
  require (is_active scan.status) not_active
  ok (
    cancelled_scan now scan,
    control_scan current_user "scan.cancel_requested" (cancelled_scan now scan) q,
  )

abbrev pub paused_scan : Bool → ScanRun → ScanRun
paused_scan pause scan = record scan { pause_requested = pause }

unfoldable pub pause_scan : List Role → User → ℕ → Queue → Response (ScanRun × Queue)
unfolding control_scan
pause_scan roles current_user scan_id q = do
  scan ← get_visible_scan_or_404 q.scans (get_access_context roles current_user) scan_id
  require_access_permission (get_access_context roles current_user) scans_control
  require (is_active scan.status) not_active
  ok (
    paused_scan true scan,
    control_scan current_user "scan.pause_requested" (paused_scan true scan) q,
  )

unfoldable pub resume_scan : List Role → User → ℕ → Queue → Response (ScanRun × Queue)
unfolding control_scan
resume_scan roles current_user scan_id q = do
  scan ← get_visible_scan_or_404 q.scans (get_access_context roles current_user) scan_id
  require_access_permission (get_access_context roles current_user) scans_control
  require (is_active scan.status) not_active
  ok (
    paused_scan false scan,
    control_scan current_user "scan.resume_requested" (paused_scan false scan) q,
  )

-- `payload.mode if payload is not None else "smart"`
abbrev pub requested_mode : Option ScanMode → ScanMode
requested_mode none = smart
requested_mode (some mode) = mode

-- What is in the tables when the request has committed.
unfoldable pub enqueue : User → ScanRun → LibrarySource → Queue → Queue
unfolding event
enqueue actor scan source q = record q {
  scans = q.scans ++ scan ∷ [];
  audit = q.audit ++ event actor "scan.started" scan source.name ∷ [];
}

unfoldable pub start_source_scan :
    List Role → ℕ → ℕ → ℕ → User → Option ScanMode → Queue → Response (ScanRun × Queue)
unfolding enqueue create_scan_run
start_source_scan roles max_concurrent_scans now source_id current_user payload q = do
  source ← get_operable_source_or_404 q.sources (get_access_context roles current_user) source_id
  require_access_permission (get_access_context roles current_user) scans_start
  require (source.is_active && source.scan_enabled)
      (http_error 409 "Scanning is disabled for this source")
  require (not (has_queued_or_running_scan q.scans source_id))
      (http_error 409 "A scan is already queued or running for this source")
  ok (
    create_scan_run now source_id manual (requested_mode payload) q.scans,
    dispatch_pending_scans max_concurrent_scans (
        enqueue current_user (create_scan_run now source_id manual (requested_mode payload) q.scans)
          source q),
  )

-- The queue after a request: what was committed, or as it was.
abbrev pub committed : Response (ScanRun × Queue) → Queue → Queue
committed (ok (scan, q')) q = q'
committed (error e) q = q
