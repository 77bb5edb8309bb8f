-- ===== src/Scans/Dispatch.antt =====
-- `dispatch_pending_scans` of services/scanner.py: no scan is left waiting without a reason.
use mathlib.Core.Path.{subst}
use meshive.Prelude.{
  ℕ, ◌≡◌, refl, ap, ◌∙◌, inl, inr, Bool, true, false, ◌||◌, Option, none, some, List, [], ◌∷◌, ◌++◌,
  arith, if◌then◌else◌, Bool-cases, leb, length, contains, filter, All, length-append, ◌==◌, nat_eq,
  get,
}
use meshive.Models.{ScanRun, scan_row}
use meshive.Scans.{
  Queue, claim_source, is_pending, older, insert_by_age, by_age, pending_scans, start_claimed,
  try_start, start_all, dispatch_pending_scans,
}

-- The source is being scanned, or no further scan may run.
abbrev pub MustWait : ℕ → List ℕ → ScanRun → Type 0
MustWait max_concurrent_scans active_sources scan =
    (contains active_sources scan.library_source_id
      || leb max_concurrent_scans (length active_sources))
    ≡ true

contains-append : (xs : List ℕ) (x y : ℕ) → contains (xs ++ y ∷ []) x ≡ (contains xs x || y == x)
contains-append [] x y = ground arith
contains-append (z ∷ xs) x y = ground (arith, contains-append xs x y)

module _ (max_concurrent_scans : ℕ) where
  claimed_waits :
      (scan : ScanRun) (q : Queue) (o : Option (List ℕ))
      → claim_source max_concurrent_scans scan.library_source_id q.active_sources ≡ o
      → MustWait max_concurrent_scans (start_claimed scan q o).active_sources scan
  unfolding start_claimed claim_source
  claimed_waits scan q none e = ground arith
  claimed_waits scan q (some claimed) e =
      let became : q.active_sources ++ scan.library_source_id ∷ [] ≡ claimed = ground arith in
      subst (λ c. MustWait max_concurrent_scans c scan) became (rw (contains-append) ground arith)

  claimed_keeps :
      (scan other : ScanRun) (q : Queue) (o : Option (List ℕ))
      → claim_source max_concurrent_scans scan.library_source_id q.active_sources ≡ o
      → MustWait max_concurrent_scans q.active_sources other
      → MustWait max_concurrent_scans (start_claimed scan q o).active_sources other
  unfolding start_claimed claim_source
  claimed_keeps scan other q none e h = h
  claimed_keeps scan other q (some claimed) e h =
      let became : q.active_sources ++ scan.library_source_id ∷ [] ≡ claimed = ground arith in
      subst (λ c. MustWait max_concurrent_scans c other) became
        (rw (contains-append, length-append) ground arith)

  start_all_keeps :
      (scans : List ScanRun) (other : ScanRun) (q : Queue)
      → MustWait max_concurrent_scans q.active_sources other
      → MustWait max_concurrent_scans (start_all max_concurrent_scans scans q).active_sources other
  unfolding start_all try_start
  start_all_keeps [] other q h = h
  start_all_keeps (scan ∷ scans) other q h =
      start_all_keeps scans other _ (claimed_keeps scan other q _ refl h)

  start_all_waits :
      (scans : List ScanRun) (q : Queue)
      → All
          (MustWait max_concurrent_scans (start_all max_concurrent_scans scans q).active_sources)
          scans
  unfolding start_all try_start
  start_all_waits [] q = tt
  start_all_waits (scan ∷ scans) q =
      (start_all_keeps scans scan _ (claimed_waits scan q _ refl), start_all_waits scans _)

module _ (P : ScanRun → Type 0) where
  All-insert_by_age :
      (s : ScanRun) (xs : List ScanRun) → All P (insert_by_age s xs) → P s × All P xs
  unfolding insert_by_age
  All-insert_by_age s [] h = (h.0, tt)
  All-insert_by_age s (x ∷ xs) h = elim (Bool-cases (older s x)) [
    | inl e ↦ (let k : All P (s ∷ x ∷ xs) = rw e at h in (k.0, k.1))
    | inr e ↦
        (let k : All P (x ∷ insert_by_age s xs) = rw e at h in
          let r = All-insert_by_age s xs k.1 in (r.0, (k.0, r.1)))
  ]

  All-by_age : (xs : List ScanRun) → All P (by_age xs) → All P xs
  unfolding by_age
  All-by_age [] h = tt
  All-by_age (x ∷ xs) h = let r = All-insert_by_age x (by_age xs) h in (r.0, All-by_age xs r.1)

  All-tail :
      (p : ScanRun → Bool) (x : ScanRun) (xs : List ScanRun)
      → All P (filter p (x ∷ xs))
      → All P (filter p xs)
  All-tail p x xs h = go (p x) h
    where
      go : (b : Bool) → All P (if b then x ∷ filter p xs else filter p xs) → All P (filter p xs)
      go true k = k.1
      go false k = k

  All-get :
      (p : ScanRun → Bool) (i : ℕ) (xs : List ScanRun) {s : ScanRun}
      → All P (filter p xs)
      → get i xs ≡ some s
      → p s ≡ true
      → P s
  unfolding get
  All-get p i [] h e t = cc
  All-get p i (x ∷ xs) {s} h e t = elim (Bool-cases (x.id == i)) [
    | inl q ↦
        (let same : x ≡ s = ground arith in
          subst P same (let k : All P (x ∷ filter p xs) = rw (ap p same ∙ t) at h in k.0))
    | inr q ↦ All-get p i xs (All-tail p x xs h) (rw q at e) t
  ]

-- After a dispatch, a scan that was pending waits no longer than it must: its source is being scanned,
-- or as many sources are as the setting allows.
pub dispatch_is_maximal :
    (max_concurrent_scans : ℕ) (q : Queue) (scan_id : ℕ) {scan : ScanRun}
    → get scan_id q.scans ≡ some scan
    → is_pending scan.status ≡ true
    → MustWait max_concurrent_scans
        (dispatch_pending_scans max_concurrent_scans q).active_sources
        scan
unfolding dispatch_pending_scans pending_scans
dispatch_is_maximal max_concurrent_scans q scan_id e waits =
    All-get _ (λ s. is_pending s.status) scan_id q.scans
      (All-by_age _ (filter (λ s. is_pending s.status) q.scans)
        (start_all_waits max_concurrent_scans _ q))
      e waits
