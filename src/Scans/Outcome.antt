-- ===== src/Scans/Outcome.antt =====
-- backend/meshive/api/scans.py: what a request to control or to start a scan has been through when it is answered.
use meshive.Prelude.{
  ℕ, String, ◌≡◌, refl, ap, sym, Bool, true, false, not, ◌&&◌, Option, List, contains, string_eq,
}
use meshive.Http.{
  Response, ok, HttpError, require, ◌>>=◌, ◌>>◌, bind-inv, require-inv, ok-injective,
}
use meshive.Models.{Role, User, LibrarySource, ScanRun, ScanMode, manual, scan_row, source_row}
use meshive.Auth.Permissions.{scans_control, scans_start}
use meshive.Auth.Access.{
  get_access_context, get_visible_scan_or_404, get_operable_source_or_404,
  require_access_permission,
}
use meshive.Scans.{
  Queue, is_active, has_queued_or_running_scan, create_scan_run, dispatch_pending_scans,
}
use meshive.Scans.Control.{
  not_active, control_scan, cancelled_scan, cancel_scan, paused_scan, pause_scan, resume_scan,
  requested_mode, enqueue, start_source_scan,
}

-- What the three control handlers have in common.
abbrev pub controlled :
    (ScanRun → ScanRun) → String → List Role → User → ℕ → Queue → Response (ScanRun × Queue)
controlled change action roles current_user scan_id q = do
  scan ← get_visible_scan_or_404 q.scans (get_access_context roles current_user) scan_id
  require_access_permission (get_access_context roles current_user) scans_control
  require (is_active scan.status) not_active
  ok (change scan, control_scan current_user action (change scan) q)

pub cancel_scan-controlled :
    (roles : List Role) (now : ℕ) (u : User) (i : ℕ) (q : Queue)
    → cancel_scan roles now u i q
      ≡ controlled (cancelled_scan now) "scan.cancel_requested" roles u i q
unfolding cancel_scan
cancel_scan-controlled roles now u i q = refl

pub pause_scan-controlled :
    (roles : List Role) (u : User) (i : ℕ) (q : Queue)
    → pause_scan roles u i q ≡ controlled (paused_scan true) "scan.pause_requested" roles u i q
unfolding pause_scan
pause_scan-controlled roles u i q = refl

pub resume_scan-controlled :
    (roles : List Role) (u : User) (i : ℕ) (q : Queue)
    → resume_scan roles u i q ≡ controlled (paused_scan false) "scan.resume_requested" roles u i q
unfolding resume_scan
resume_scan-controlled roles u i q = refl

pub record IsControlled (change : ScanRun → ScanRun) (action : String) (roles : List Role)
    (u : User) (i : ℕ) (q : Queue) (scan' : ScanRun) (q' : Queue) : Type 0 where
  pub scan : ScanRun
  pub seen : get_visible_scan_or_404 q.scans (get_access_context roles u) i ≡ ok scan
  pub permitted : contains (get_access_context roles u).permission_keys scans_control ≡ true
  pub live : is_active scan.status ≡ true
  pub becomes : scan' ≡ change scan
  pub written : q' ≡ control_scan u action (change scan) q

required : (b : Bool) (e : HttpError) → require b e ≡ ok tt → b ≡ true
required true e h = refl
required false e h = cc

pub controlled-IsControlled :
    (change : ScanRun → ScanRun) (action : String) (roles : List Role) (u : User) (i : ℕ)
    (q : Queue) {scan' : ScanRun} {q' : Queue}
    → controlled change action roles u i q ≡ ok (scan', q')
    → IsControlled change action roles u i q scan' q'
unfolding require_access_permission
controlled-IsControlled change action roles u i q h =
    bind-inv (get_visible_scan_or_404 q.scans (get_access_context roles u) i) _ h λ scan seen h₁.
      require-inv _ _ _ h₁ λ permitted h₂. require-inv _ _ _ h₂ λ live h₃. record {
        scan = scan;
        seen = seen;
        permitted = permitted;
        live = live;
        becomes = ap (λ (p : ScanRun × Queue). p.0) (sym (ok-injective h₃));
        written = ap (λ (p : ScanRun × Queue). p.1) (sym (ok-injective h₃));
      }

pub record IsStarted (roles : List Role) (max_concurrent_scans now source_id : ℕ) (u : User)
    (payload : Option ScanMode) (q : Queue) (scan : ScanRun) (q' : Queue) : Type 0 where
  pub source : LibrarySource
  pub seen : get_operable_source_or_404 q.sources (get_access_context roles u) source_id ≡ ok source
  pub permitted : contains (get_access_context roles u).permission_keys scans_start ≡ true
  pub enabled : (source.is_active && source.scan_enabled) ≡ true
  pub idle : not (has_queued_or_running_scan q.scans source_id) ≡ true
  pub becomes : scan ≡ create_scan_run now source_id manual (requested_mode payload) q.scans
  pub written :
      q'
      ≡ dispatch_pending_scans max_concurrent_scans (
          enqueue u
            (create_scan_run now source_id manual (requested_mode payload) q.scans)
            source
            q)

pub start_source_scan-IsStarted :
    (roles : List Role) (max_concurrent_scans now source_id : ℕ) (u : User)
    (payload : Option ScanMode) (q : Queue) {scan : ScanRun} {q' : Queue}
    → start_source_scan roles max_concurrent_scans now source_id u payload q ≡ ok (scan, q')
    → IsStarted roles max_concurrent_scans now source_id u payload q scan q'
unfolding start_source_scan require_access_permission
start_source_scan-IsStarted roles max_concurrent_scans now source_id u payload q h =
    bind-inv (get_operable_source_or_404 q.sources (get_access_context roles u) source_id) _ h
      λ source seen h₁. require-inv _ _ _ h₁ λ permitted h₂. require-inv _ _ _ h₂ λ enabled h₃.
        require-inv _ _ _ h₃ λ idle h₄. record {
          source = source;
          seen = seen;
          permitted = permitted;
          enabled = enabled;
          idle = idle;
          becomes = ap (λ (p : ScanRun × Queue). p.0) (sym (ok-injective h₄));
          written = ap (λ (p : ScanRun × Queue). p.1) (sym (ok-injective h₄));
        }
