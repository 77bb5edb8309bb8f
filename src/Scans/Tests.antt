-- ===== src/Scans/Tests.antt =====
-- A small queue, and what the requests and the threads do to it.
use meshive.Prelude.{
  ◌≡◌, refl, true, false, none, some, [], ◌∷◌, arith, count, contains, nat_eq, string_eq, get, put,
}
use meshive.Http.{Response, ok, error, ◌>>=◌}
use meshive.Models.{
  Role, admin, User, LibrarySource, ScanRun, pending, cancelled, manual, model_rescan, smart, full,
  source_row, model_row, scan_row, role_row,
}
use meshive.Auth.Permissions.{scans_control}
use meshive.Auth.Access.{
  get_access_context, can_access_source, get_visible_source_ids, scope_scan_runs,
  get_visible_scan_or_404, operable_source, get_operable_source_or_404, require_access_permission,
}
use meshive.Scans.{
  Queue, is_active, has_queued_or_running_scan, create_scan_run, claim_source, start_claimed,
  try_start, dispatch_pending_scans, release_source,
}
use meshive.Scans.Control.{
  scan_target_label, control_scan, cancelled_scan, cancel_scan, enqueue, start_source_scan,
}
use meshive.Scans.Execution.{at_model, finished, run_scan}
use meshive.Scans.Exclusive.{IsExclusive}
use meshive.Scans.Steps.{claim, exit, here, next, Reached-IsExclusive}
use meshive.Scans.Dispatch.{MustWait, dispatch_is_maximal}
use meshive.Scans.Effects.{cancel_scan_outcome}
use meshive.Scans.Endings.{run_scan_stays, deleted_target_blocks}
use meshive.Scans.Starts.{active_in, start_source_scan_alone}

abbrev chief : Role
chief = record {
  id = 1;
  name = "Administrator";
  normalized_name = "administrator";
  description = none;
  is_system = true;
  is_superuser = true;
  permissions = [];
}

abbrev boss : User
boss = record {
  id = 1;
  username = "boss";
  normalized_username = "boss";
  email = none;
  normalized_email = none;
  email_verified_at = none;
  password_hash = "h";
  role = admin;
  role_id = some 1;
  all_sources = true;
  is_active = true;
  must_change_password = false;
  library_source_grants = [];
}

abbrev library : LibrarySource
library = record {
  id = 7;
  name = "S";
  is_active = true;
  scan_enabled = true;
  auto_scan_enabled = false;
}

abbrev other : LibrarySource
other = record {
  id = 8;
  name = "T";
  is_active = true;
  scan_enabled = true;
  auto_scan_enabled = false;
}

abbrev waiting : ScanRun
waiting = record {
  id = 1;
  library_source_id = 8;
  status = pending;
  cancel_requested = false;
  pause_requested = false;
  trigger = manual;
  mode = smart;
  target_model_id = none;
  target_model_name = none;
  created_at = 10;
  started_at = none;
  finished_at = none;
  error_message = none;
}

abbrev targeted : ScanRun
targeted = record waiting {
  id = 2;
  trigger = model_rescan;
  mode = full;
  target_model_id = some 5;
  target_model_name = some "gone";
}

abbrev q : Queue
q = record {
  sources = library ∷ other ∷ [];
  models = [];
  scans = waiting ∷ targeted ∷ [];
  audit = [];
  active_sources = [];
  workers = [];
}

abbrev answer : Response (ScanRun × Queue) → ScanRun × Queue
answer (ok p) = p
answer (error e) = (waiting, q)

q-IsExclusive : IsExclusive 1 q
q-IsExclusive = record { owned = refl; distinct = tt; bounded = omega arith }

-- The source is claimed once, and given back when the thread ends.
Reached-IsExclusive_example :
    IsExclusive 1 (record q { active_sources = release_source 8 (8 ∷ []); workers = [] })
unfolding try_start start_claimed claim_source
Reached-IsExclusive_example = Reached-IsExclusive 1 q _ q-IsExclusive (
    next (next (next here (claim waiting refl)) (claim targeted refl))
      (exit [] [] (record { source_id = 8; scan_run_id = 1 }) refl refl))

dispatch_is_maximal_example : MustWait 1 (dispatch_pending_scans 1 q).active_sources targeted
unfolding get
dispatch_is_maximal_example = dispatch_is_maximal 1 q 2 refl refl

abbrev stopped : ScanRun × Queue
stopped = answer (cancel_scan (chief ∷ []) 20 boss 1 q)

cancel_scan_outcome_example :
    (contains (get_access_context (chief ∷ []) boss).permission_keys scans_control ≡ true)
    × (can_access_source (get_access_context (chief ∷ []) boss) 8 ≡ true)
    × (is_active pending ≡ true)
    × (stopped.0.status ≡ cancelled)
    × (stopped.0.cancel_requested ≡ true)
    × (get 1 stopped.1.scans ≡ some stopped.0)
unfolding cancel_scan cancelled_scan control_scan scan_target_label get put get_visible_scan_or_404
    scope_scan_runs get_visible_source_ids get_access_context require_access_permission ◌>>=◌
cancel_scan_outcome_example =
    cancel_scan_outcome (chief ∷ []) 20 boss 1 q waiting stopped.0 stopped.1 1
      ((refl, tt), (tt, tt)) refl refl

abbrev started : ScanRun × Queue
started = answer (start_source_scan (chief ∷ []) 1 30 7 boss none q)

start_source_scan_alone_example :
    (count (active_in 7) q.scans ≡ 0)
    × (count (active_in 7) started.1.scans ≡ 1)
    × (get started.0.id q.scans ≡ none)
    × (get started.0.id started.1.scans ≡ some started.0)
    × (started.0.status ≡ pending)
unfolding start_source_scan enqueue create_scan_run scan_target_label get put
    get_operable_source_or_404 operable_source get_visible_source_ids get_access_context
    require_access_permission has_queued_or_running_scan ◌>>=◌
start_source_scan_alone_example =
    start_source_scan_alone (chief ∷ []) 1 30 7 boss none q started.0 started.1 refl

abbrev on_hold : ScanRun
on_hold = record waiting { pause_requested = true }

abbrev q_on_hold : Queue
q_on_hold = record q { scans = on_hold ∷ [] }

-- A scan that was paused while it was waiting is begun, and does not go on.
run_scan_stays_example :
    (scan : ScanRun) × (get 1 (run_scan 40 41 50 8 1 (at_model (finished 2)) q_on_hold).scans
      ≡ some scan)
    × (is_active scan.status ≡ true)
unfolding get
run_scan_stays_example = run_scan_stays 40 41 50 8 1 (at_model (finished 2)) q_on_hold on_hold refl

deleted_target_blocks_example :
    has_queued_or_running_scan (run_scan 40 41 50 8 2 (finished 0) q).scans 8 ≡ true
unfolding get
deleted_target_blocks_example =
    deleted_target_blocks 40 41 50 8 2 5 (finished 0) q targeted refl refl refl refl
