-- ===== src/Scans/Exclusive.antt =====
-- services/scanner.py, api/scans.py and services/scan_scheduler.py: which scans run at once, and what
-- a claim and a dispatch keep.
use mathlib.Core.Path.{subst}
use meshive.Prelude.{
  ℕ, ◌≤◌, ◌≡◌, refl, ap, sym, ◌∙◌, inl, inr, Bool, false, not, Option, none, some, List, [], ◌∷◌,
  ◌++◌, map, arith, Bool-cases, leb, length, contains, filter, All, All-append, length-append, ◌==◌,
  nat_eq, beq_refl,
}
use meshive.Http.{Response, ok, error}
use meshive.Models.{ScanRun}
use meshive.Scans.{
  Worker, Queue, claim_source, start_claimed, try_start, start_all, dispatch_pending_scans,
}
use meshive.Scans.Control.{committed}
use meshive.Scans.Execution.{write}

-- The elements differ from each other.
abbrev pub AreDistinct : List ℕ → Type 0
AreDistinct [] = Unit
AreDistinct (x ∷ xs) = All (λ y. (y == x) ≡ false) xs × AreDistinct xs

abbrev pub claimed_by : List Worker → List ℕ
claimed_by = map (λ w. w.source_id)

-- The claimed sources are those of the threads, one each, and no more than the setting allows.
pub record IsExclusive (max_concurrent_scans : ℕ) (q : Queue) : Type 0 where
  pub owned : q.active_sources ≡ claimed_by q.workers
  pub distinct : AreDistinct q.active_sources
  pub bounded : length q.active_sources ≤ max_concurrent_scans

distinct_append :
    (x : ℕ) (xs : List ℕ) → contains xs x ≡ false → AreDistinct xs → AreDistinct (xs ++ x ∷ [])
distinct_append x [] h d = (tt, tt)
distinct_append x (y ∷ xs) h d = (
  All-append (λ z. (z == y) ≡ false) xs (x ∷ []) d.0 (ground arith, tt),
  distinct_append x xs (ground arith) d.1,
)

pub map-append : (xs ys : List Worker) → claimed_by (xs ++ ys) ≡ claimed_by xs ++ claimed_by ys
map-append [] ys = refl
map-append (x ∷ xs) ys = ap (λ r. x.source_id ∷ r) (map-append xs ys)

filter_of_others :
    (x : ℕ) (xs : List ℕ) → All (λ y. (y == x) ≡ false) xs → filter (λ s. not (s == x)) xs ≡ xs
filter_of_others x [] h = refl
filter_of_others x (y ∷ xs) h = rw (h.0, filter_of_others x xs h.1)

All-filter : (P : ℕ → Type 0) (p : ℕ → Bool) (xs : List ℕ) → All P xs → All P (filter p xs)
All-filter P p [] h = tt
All-filter P p (x ∷ xs) h = elim (Bool-cases (p x)) [
  | inl e ↦ rw e (h.0, All-filter P p xs h.1)
  | inr e ↦ rw e (All-filter P p xs h.1)
]

pub distinct_filter : (p : ℕ → Bool) (xs : List ℕ) → AreDistinct xs → AreDistinct (filter p xs)
distinct_filter p [] d = tt
distinct_filter p (x ∷ xs) d = elim (Bool-cases (p x)) [
  | inl e ↦ rw e (All-filter (λ y. (y == x) ≡ false) p xs d.0, distinct_filter p xs d.1)
  | inr e ↦ rw e (distinct_filter p xs d.1)
]

pub length-filter : (p : ℕ → Bool) (xs : List ℕ) → length (filter p xs) ≤ length xs
length-filter p [] = omega arith
length-filter p (x ∷ xs) = ground (arith, length-filter p xs)

All-middle : (P : ℕ → Type 0) (x : ℕ) (before after : List ℕ) → All P (before ++ x ∷ after) → P x
All-middle P x [] after h = h.0
All-middle P x (y ∷ before) after h = All-middle P x before after h.1

beq_false : (x y : ℕ) → (x == y) ≡ false → (y == x) ≡ false
beq_false x y h = ground arith

-- Without the one at hand, the others stay.
pub filter_one :
    (x : ℕ) (before after : List ℕ)
    → AreDistinct (before ++ x ∷ after)
    → filter (λ s. not (s == x)) (before ++ x ∷ after) ≡ before ++ after
filter_one x [] after d = rw beq_refl (filter_of_others x after d.0)
filter_one x (y ∷ before) after d =
    let other : (y == x) ≡ false =
      beq_false x y (All-middle (λ z. (z == y) ≡ false) x before after d.0) in
    rw other (ap (λ r. y ∷ r) (filter_one x before after d.1))

module _ (max_concurrent_scans : ℕ) where
  pub same_threads :
      (q q' : Queue)
      → q'.active_sources ≡ q.active_sources
      → q'.workers ≡ q.workers
      → IsExclusive max_concurrent_scans q
      → IsExclusive max_concurrent_scans q'
  same_threads q q' a w h = record {
    owned = a ∙ h.owned ∙ ap claimed_by (sym w);
    distinct = subst AreDistinct (sym a) h.distinct;
    bounded = rw a h.bounded;
  }

  start_claimed-IsExclusive :
      (scan : ScanRun) (q : Queue) (o : Option (List ℕ))
      → claim_source max_concurrent_scans scan.library_source_id q.active_sources ≡ o
      → IsExclusive max_concurrent_scans q
      → IsExclusive max_concurrent_scans (start_claimed scan q o)
  unfolding start_claimed claim_source
  start_claimed-IsExclusive scan q none e h = h
  start_claimed-IsExclusive scan q (some claimed) e h =
      let became : q.active_sources ++ scan.library_source_id ∷ [] ≡ claimed = ground arith in
      let unclaimed : contains q.active_sources scan.library_source_id ≡ false = ground arith in
      let room : leb max_concurrent_scans (length q.active_sources) ≡ false = ground arith in
      record {
        owned =
            sym became
            ∙ ap (λ r. r ++ scan.library_source_id ∷ []) h.owned
            ∙ sym (
                map-append q.workers
                  (record { source_id = scan.library_source_id; scan_run_id = scan.id } ∷ []));
        distinct =
            subst AreDistinct became
              (distinct_append scan.library_source_id q.active_sources unclaimed h.distinct);
        bounded =
            subst (λ c. length c ≤ max_concurrent_scans) became
              (ground (arith, length-append q.active_sources (scan.library_source_id ∷ [])));
      }

  pub try_start-IsExclusive :
      (scan : ScanRun) (q : Queue)
      → IsExclusive max_concurrent_scans q
      → IsExclusive max_concurrent_scans (try_start max_concurrent_scans scan q)
  unfolding try_start
  try_start-IsExclusive scan q h = start_claimed-IsExclusive scan q _ refl h

  start_all-IsExclusive :
      (scans : List ScanRun) (q : Queue)
      → IsExclusive max_concurrent_scans q
      → IsExclusive max_concurrent_scans (start_all max_concurrent_scans scans q)
  unfolding start_all
  start_all-IsExclusive [] q h = h
  start_all-IsExclusive (scan ∷ scans) q h =
      start_all-IsExclusive scans _ (try_start-IsExclusive scan q h)

  pub dispatch-IsExclusive :
      (q : Queue)
      → IsExclusive max_concurrent_scans q
      → IsExclusive max_concurrent_scans (dispatch_pending_scans max_concurrent_scans q)
  unfolding dispatch_pending_scans
  dispatch-IsExclusive q h = start_all-IsExclusive _ q h

  pub committed-IsExclusive :
      (r : Response (ScanRun × Queue)) (q : Queue)
      → IsExclusive max_concurrent_scans q
      → ((p : ScanRun × Queue) → r ≡ ok p → IsExclusive max_concurrent_scans p.1)
      → IsExclusive max_concurrent_scans (committed r q)
  committed-IsExclusive (ok (scan, q')) q h f = f (scan, q') refl
  committed-IsExclusive (error e) q h f = h

  pub write-IsExclusive :
      (change : ScanRun → ScanRun) (o : Option ScanRun) (q : Queue)
      → IsExclusive max_concurrent_scans q
      → IsExclusive max_concurrent_scans (write change o q)
  unfolding write
  write-IsExclusive change none q h = h
  write-IsExclusive change (some scan) q h = same_threads q _ refl refl h
