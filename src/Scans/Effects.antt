-- ===== src/Scans/Effects.antt =====
-- backend/meshive/api/scans.py and `_execute_scan`: what becomes of the row of a scan, and of the others.
use mathlib.Core.Path.{subst}
use meshive.Prelude.{
  some-injective, ℕ, ◌≡◌, refl, ap, sym, ◌∙◌, inl, inr, Bool, true, Option, none, some, List, arith,
  if◌then◌else◌, Bool-cases, contains, ◌==◌, nat_eq, string_eq, get, put, HasKeys, key-get, get-put,
}
use meshive.Http.{ok, HttpError, ok-injective}
use meshive.Models.{
  Role, User, ScanRun, ScanStatus, running, cancelled, scan_row, source_row, model_row,
}
use meshive.Auth.Permissions.{scans_control}
use meshive.Auth.Access.{get_access_context, can_access_source}
use meshive.Auth.Access.Visible.{visible_or, get_visible_scan_exact}
use meshive.Scans.{Queue, is_active, is_pending}
use meshive.Scans.Control.{control_scan, cancelled_scan, cancel_scan}
use meshive.Scans.Outcome.{controlled-IsControlled}

pub visible-inv :
    {A : Type 0} (e : HttpError) (p : A → Bool) (o : Option A) {a : A}
    → visible_or e p o ≡ ok a
    → (o ≡ some a) × (p a ≡ true)
visible-inv e p none h = cc
visible-inv e p (some x) {a} h = elim (Bool-cases (p x)) [
  | inl t ↦
      (let same : x ≡ a = ok-injective (rw t at h) in
        (ap some same, subst (λ y. p y ≡ true) same t))
  | inr t ↦ cc (rw t at h)
]

stopped_status :
    (status : ScanStatus)
    → is_active status ≡ true
    → (if is_pending status then cancelled else status)
      ≡ (if is_pending status then cancelled else running)
stopped_status status h = ground arith

-- A row that is written under its key.
pub put_row :
    (i j : ℕ) (new old : ScanRun) (scans : List ScanRun)
    → get i scans ≡ some old
    → new.id ≡ old.id
    → get j (put new scans) ≡ (if i == j then some new else get j scans)
put_row i j new old scans was same = ground (arith, get-put j new scans, key-get i scans old)

-- A scan that was cancelled was there for the user to cancel: its source may be accessed, the user
-- may control scans, and it had not ended. If it was waiting it is cancelled, if it was running it
-- still is, and is asked to stop; its row is written, and no other row changes.
pub cancel_scan_outcome :
    (roles : List Role) (now : ℕ) (u : User) (i : ℕ) (q : Queue) (old scan : ScanRun) (q' : Queue)
    (j : ℕ)
    → HasKeys q.scans
    → get i q.scans ≡ some old
    → cancel_scan roles now u i q ≡ ok (scan, q')
    → (contains (get_access_context roles u).permission_keys scans_control ≡ true)
      × (can_access_source (get_access_context roles u) old.library_source_id ≡ true)
      × (is_active old.status ≡ true)
      × (scan.status ≡ (if is_pending old.status then cancelled else running))
      × (scan.cancel_requested ≡ true)
      × (get j q'.scans ≡ (if i == j then some scan else get j q.scans))
unfolding cancel_scan cancelled_scan control_scan
cancel_scan_outcome roles now u i q old scan q' j keys was h =
    let w =
      controlled-IsControlled (cancelled_scan now) "scan.cancel_requested" roles u i q
        {scan' = scan} {q' = q'} h in
    let (stands, access) =
      visible-inv _ _ (get i q.scans) {a = w.scan}
        (sym (get_visible_scan_exact q.scans (get_access_context roles u) i keys) ∙ w.seen) in
    let same : w.scan ≡ old = some-injective (sym stands ∙ was) in
    (
      w.permitted,
      subst
          (λ (s : ScanRun).
            can_access_source (get_access_context roles u) s.library_source_id ≡ true)
          same access,
      subst (λ (s : ScanRun). is_active s.status ≡ true) same w.live,
      ap (λ (s : ScanRun). s.status) (w.becomes ∙ ap (cancelled_scan now) same)
          ∙ stopped_status old.status
              (subst (λ (s : ScanRun). is_active s.status ≡ true) same w.live),
      ap (λ (s : ScanRun). s.cancel_requested) w.becomes,
      ap (λ (r : Queue). get j r.scans) w.written
          ∙ ap (λ s. get j (put s q.scans)) (sym w.becomes)
          ∙ subst (λ s. get j (put s q.scans) ≡ (if i == j then some s else get j q.scans))
              (ap (cancelled_scan now) (sym same) ∙ sym w.becomes)
              (put_row i j (cancelled_scan now old) old q.scans was refl),
    )
