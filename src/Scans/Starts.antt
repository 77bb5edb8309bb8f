-- ===== src/Scans/Starts.antt =====
-- `start_source_scan` of backend/meshive/api/scans.py: what a started scan finds, and what it adds.
use mathlib.Core.Path.{subst}
use meshive.Prelude.{
  ℕ, ◌≡◌, refl, ap, sym, ◌∙◌, Bool, true, not, ◌&&◌, Option, none, some, List, [], ◌∷◌, ◌++◌, arith,
  any, count, count-append, next_id, ◌==◌, nat_eq, beq_refl, get, get-append, get-next_id,
}
use meshive.Http.{ok}
use meshive.Models.{Role, User, ScanRun, ScanMode, pending, manual, scan_row}
use meshive.Scans.{
  Queue, is_active, has_queued_or_running_scan, create_scan_run, start_claimed, try_start,
  start_all, dispatch_pending_scans,
}
use meshive.Scans.Control.{requested_mode, start_source_scan, enqueue}
use meshive.Scans.Outcome.{start_source_scan-IsStarted}

module _ (max_concurrent_scans : ℕ) where
  start_claimed-scans :
      (scan : ScanRun) (q : Queue) (o : Option (List ℕ)) → (start_claimed scan q o).scans ≡ q.scans
  unfolding start_claimed
  start_claimed-scans scan q none = refl
  start_claimed-scans scan q (some claimed) = refl

  start_all-scans :
      (scans : List ScanRun) (q : Queue) → (start_all max_concurrent_scans scans q).scans ≡ q.scans
  unfolding start_all try_start
  start_all-scans [] q = refl
  start_all-scans (scan ∷ scans) q = start_all-scans scans _ ∙ start_claimed-scans scan q _

  -- A dispatch leaves the rows alone.
  pub dispatch-scans : (q : Queue) → (dispatch_pending_scans max_concurrent_scans q).scans ≡ q.scans
  unfolding dispatch_pending_scans
  dispatch-scans q = start_all-scans _ q

-- The queued and running scans of a source.
abbrev pub active_in : ℕ → ScanRun → Bool
active_in source_id s = s.library_source_id == source_id && is_active s.status

count_none : (p : ScanRun → Bool) (xs : List ScanRun) → not (any p xs) ≡ true → count p xs ≡ 0
count_none p [] h = refl
count_none p (x ∷ xs) h = ground (arith, count_none p xs)

-- When a request starts a scan, no scan of the source was queued or running before. Afterwards just one
-- is: the new scan stands in the table as pending, under a key that no row had.
pub start_source_scan_alone :
    (roles : List Role) (max_concurrent_scans now source_id : ℕ) (u : User)
    (payload : Option ScanMode) (q : Queue) (scan : ScanRun) (q' : Queue)
    → start_source_scan roles max_concurrent_scans now source_id u payload q ≡ ok (scan, q')
    → (count (active_in source_id) q.scans ≡ 0)
      × (count (active_in source_id) q'.scans ≡ 1)
      × (get scan.id q.scans ≡ none)
      × (get scan.id q'.scans ≡ some scan)
      × (scan.status ≡ pending)
unfolding has_queued_or_running_scan create_scan_run enqueue
start_source_scan_alone roles max_concurrent_scans now source_id u payload q scan q' h =
    let w =
      start_source_scan-IsStarted roles max_concurrent_scans now source_id u payload q {scan = scan}
        {q' = q'} h in
    let fresh : ScanRun = create_scan_run now source_id manual (requested_mode payload) q.scans in
    let rows : q'.scans ≡ q.scans ++ fresh ∷ [] =
      ap (λ (r : Queue). r.scans) w.written ∙ dispatch-scans max_concurrent_scans _ in
    let idle : count (active_in source_id) q.scans ≡ 0 =
      count_none (active_in source_id) q.scans w.idle in
    let unused : get fresh.id q.scans ≡ none = get-next_id q.scans in
    (
      idle,
      rw rows
          (count-append (active_in source_id) q.scans (fresh ∷ []) ∙ rw (idle, beq_refl source_id)),
      subst (λ (s : ScanRun). get s.id q.scans ≡ none) (sym w.becomes) unused,
      rw rows (
          subst (λ (s : ScanRun). get s.id (q.scans ++ fresh ∷ []) ≡ some s) (sym w.becomes)
            (get-append fresh.id q.scans fresh
              ∙ rw (get-next_id q.scans, beq_refl (next_id q.scans)))),
      ap (λ (s : ScanRun). s.status) w.becomes,
    )
