-- ===== src/Scans/Steps.antt =====
-- services/scanner.py, api/scans.py and services/scan_scheduler.py: the steps of requests, dispatch
-- loops and threads in any order.
use mathlib.Core.Path.{subst}
use meshive.Prelude.{
  ℕ, String, ◌≡◌, refl, ap, sym, ◌∙◌, Bool, true, false, Option, none, some, List, ◌∷◌, ◌++◌, arith,
  filter, ◌==◌, nat_eq, not, get,
}
use meshive.Models.{
  Role, User, LibrarySource, LibraryModel, ScanRun, ScanMode, scan_row, source_row, model_row,
}
use meshive.Scans.{
  Worker, Queue, Queued, queued, lookup_error, release_source, try_start, queue_model_rescan,
  requeued, dispatched, target_of, target_found,
}
use meshive.Scans.Control.{
  cancel_scan, pause_scan, resume_scan, start_source_scan, committed, control_scan, enqueue,
  cancelled_scan, paused_scan,
}
use meshive.Scans.Outcome.{controlled, controlled-IsControlled, start_source_scan-IsStarted}
use meshive.Scans.Execution.{Work, begin_scan, end_scan}
use meshive.Scans.Scheduler.{start_due_scans}
use meshive.Scans.Exclusive.{
  AreDistinct, IsExclusive, claimed_by, same_threads, try_start-IsExclusive, dispatch-IsExclusive,
  committed-IsExclusive, write-IsExclusive, filter_one, map-append, distinct_filter, length-filter,
}

-- What one thread or one request does at a time. A turn of a dispatch loop may come with a scan of a
-- list that was read long ago.
pub data Step (max_concurrent_scans : ℕ) (q q' : Queue) : Type 0 where
  start :
      (roles : List Role) (now source_id : ℕ) (actor : User) (payload : Option ScanMode)
      → q'
        ≡ committed (start_source_scan roles max_concurrent_scans now source_id actor payload q) q
      → Step max_concurrent_scans q q'
  cancel :
      (roles : List Role) (now : ℕ) (actor : User) (scan_id : ℕ)
      → q' ≡ committed (cancel_scan roles now actor scan_id q) q
      → Step max_concurrent_scans q q'
  pause :
      (roles : List Role) (actor : User) (scan_id : ℕ)
      → q' ≡ committed (pause_scan roles actor scan_id q) q
      → Step max_concurrent_scans q q'
  resume :
      (roles : List Role) (actor : User) (scan_id : ℕ)
      → q' ≡ committed (resume_scan roles actor scan_id q) q
      → Step max_concurrent_scans q q'
  rescan :
      (now model_id : ℕ) (force_image_rebuild : Bool)
      → q' ≡ requeued (queue_model_rescan max_concurrent_scans now model_id force_image_rebuild q) q
      → Step max_concurrent_scans q q'
  tick :
      (now : ℕ) (is_due : List ScanRun → LibrarySource → Bool)
      → q' ≡ start_due_scans max_concurrent_scans now is_due q
      → Step max_concurrent_scans q q'
  claim :
      (scan : ScanRun) → q' ≡ try_start max_concurrent_scans scan q → Step max_concurrent_scans q q'
  begin : (now scan_run_id : ℕ) → q' ≡ begin_scan now scan_run_id q → Step max_concurrent_scans q q'
  finish :
      (noted_at now source_id scan_run_id : ℕ) (work : Work)
      → q' ≡ end_scan noted_at now source_id scan_run_id work q
      → Step max_concurrent_scans q q'
  exit :
      (before after : List Worker) (w : Worker)
      → q.workers ≡ before ++ w ∷ after
      → q' ≡ record q {
        active_sources = release_source w.source_id q.active_sources;
        workers = before ++ after;
      }
      → Step max_concurrent_scans q q'

pub data Reached (max_concurrent_scans : ℕ) (q : Queue) : Queue → Type 0 where
  here : Reached max_concurrent_scans q q
  next :
      {q' q'' : Queue}
      → Reached max_concurrent_scans q q'
      → Step max_concurrent_scans q' q''
      → Reached max_concurrent_scans q q''

module _ (max_concurrent_scans : ℕ) where
  start-IsExclusive :
      (roles : List Role) (now source_id : ℕ) (actor : User) (payload : Option ScanMode) (q : Queue)
      → IsExclusive max_concurrent_scans q
      → IsExclusive max_concurrent_scans
          (committed (start_source_scan roles max_concurrent_scans now source_id actor payload q) q)
  unfolding enqueue
  start-IsExclusive roles now source_id actor payload q h =
      committed-IsExclusive max_concurrent_scans
        (start_source_scan roles max_concurrent_scans now source_id actor payload q) q h
        λ p e.
          let w =
            start_source_scan-IsStarted roles max_concurrent_scans now source_id actor payload q
              {scan = p.0} {q' = p.1} e in
          subst (IsExclusive max_concurrent_scans) (sym w.written) (
            dispatch-IsExclusive max_concurrent_scans _
              (same_threads max_concurrent_scans q _ refl refl h))

  controlled-IsExclusive :
      (change : ScanRun → ScanRun) (action : String) (roles : List Role) (actor : User)
      (scan_id : ℕ) (q : Queue)
      → IsExclusive max_concurrent_scans q
      → IsExclusive max_concurrent_scans
          (committed (controlled change action roles actor scan_id q) q)
  unfolding control_scan
  controlled-IsExclusive change action roles actor scan_id q h =
      committed-IsExclusive max_concurrent_scans (controlled change action roles actor scan_id q) q
        h
        λ p e.
          let w =
            controlled-IsControlled change action roles actor scan_id q {scan' = p.0} {q' = p.1}
              e in
          subst (IsExclusive max_concurrent_scans) (sym w.written)
            (same_threads max_concurrent_scans q _ refl refl h)

  found-IsExclusive :
      (now : ℕ) (force_image_rebuild : Bool) (model : LibraryModel) (o : Option LibrarySource)
      (q : Queue)
      → IsExclusive max_concurrent_scans q
      → IsExclusive max_concurrent_scans
          (requeued (target_found now force_image_rebuild model o q) q)
  unfolding target_found
  found-IsExclusive now force_image_rebuild model none q h = h
  found-IsExclusive now force_image_rebuild model (some source) q h =
      same_threads max_concurrent_scans q _ refl refl h

  target-IsExclusive :
      (now : ℕ) (force_image_rebuild : Bool) (o : Option LibraryModel) (q : Queue)
      → IsExclusive max_concurrent_scans q
      → IsExclusive max_concurrent_scans (requeued (target_of now force_image_rebuild o q) q)
  unfolding target_of
  target-IsExclusive now force_image_rebuild none q h = h
  target-IsExclusive now force_image_rebuild (some model) q h =
      found-IsExclusive now force_image_rebuild model _ q h

  requeued-IsExclusive :
      (r : Queued) (q : Queue)
      → IsExclusive max_concurrent_scans (requeued r q)
      → IsExclusive max_concurrent_scans (requeued (dispatched max_concurrent_scans r) q)
  requeued-IsExclusive (queued scan q') q h = dispatch-IsExclusive max_concurrent_scans q' h
  requeued-IsExclusive (lookup_error e) q h = h

  rescan-IsExclusive :
      (now model_id : ℕ) (force_image_rebuild : Bool) (q : Queue)
      → IsExclusive max_concurrent_scans q
      → IsExclusive max_concurrent_scans
          (requeued (queue_model_rescan max_concurrent_scans now model_id force_image_rebuild q) q)
  unfolding queue_model_rescan
  rescan-IsExclusive now model_id force_image_rebuild q h =
      requeued-IsExclusive (target_of now force_image_rebuild (get model_id q.models) q) q
        (target-IsExclusive now force_image_rebuild (get model_id q.models) q h)

  exit-IsExclusive :
      (before after : List Worker) (w : Worker) (q : Queue)
      → q.workers ≡ before ++ w ∷ after
      → IsExclusive max_concurrent_scans q
      → IsExclusive max_concurrent_scans (record q {
        active_sources = release_source w.source_id q.active_sources;
        workers = before ++ after;
      })
  unfolding release_source
  exit-IsExclusive before after w q e h =
      let all_claims : q.active_sources ≡ claimed_by before ++ w.source_id ∷ claimed_by after =
        h.owned ∙ ap claimed_by e ∙ map-append before (w ∷ after) in
      record {
        owned =
            ap (filter (λ s. not (s == w.source_id))) all_claims
            ∙ filter_one w.source_id (claimed_by before) (claimed_by after)
                (subst AreDistinct all_claims h.distinct)
            ∙ sym (map-append before after);
        distinct = distinct_filter _ q.active_sources h.distinct;
        bounded =
            omega (arith, h.bounded, length-filter (λ s. not (s == w.source_id)) q.active_sources);
      }

  Step-IsExclusive :
      {q q' : Queue}
      → Step max_concurrent_scans q q'
      → IsExclusive max_concurrent_scans q
      → IsExclusive max_concurrent_scans q'
  unfolding begin_scan end_scan start_due_scans cancel_scan pause_scan resume_scan
  Step-IsExclusive {q} (start roles now i actor payload e) h =
      subst (IsExclusive max_concurrent_scans) (sym e)
        (start-IsExclusive roles now i actor payload q h)
  Step-IsExclusive {q} (cancel roles now actor i e) h =
      subst (IsExclusive max_concurrent_scans) (sym e)
        (controlled-IsExclusive (cancelled_scan now) "scan.cancel_requested" roles actor i q h)
  Step-IsExclusive {q} (pause roles actor i e) h =
      subst (IsExclusive max_concurrent_scans) (sym e)
        (controlled-IsExclusive (paused_scan true) "scan.pause_requested" roles actor i q h)
  Step-IsExclusive {q} (resume roles actor i e) h =
      subst (IsExclusive max_concurrent_scans) (sym e)
        (controlled-IsExclusive (paused_scan false) "scan.resume_requested" roles actor i q h)
  Step-IsExclusive {q} (rescan now i force e) h =
      subst (IsExclusive max_concurrent_scans) (sym e) (rescan-IsExclusive now i force q h)
  Step-IsExclusive {q} (tick now is_due e) h = subst (IsExclusive max_concurrent_scans) (sym e) (
      dispatch-IsExclusive max_concurrent_scans _
        (same_threads max_concurrent_scans q _ refl refl h))
  Step-IsExclusive {q} (claim scan e) h =
      subst (IsExclusive max_concurrent_scans) (sym e)
        (try_start-IsExclusive max_concurrent_scans scan q h)
  Step-IsExclusive {q} (begin now i e) h =
      subst (IsExclusive max_concurrent_scans) (sym e)
        (write-IsExclusive max_concurrent_scans _ _ q h)
  Step-IsExclusive {q} (finish noted_at now i j work e) h =
      subst (IsExclusive max_concurrent_scans) (sym e)
        (write-IsExclusive max_concurrent_scans _ _ q h)
  Step-IsExclusive {q} (exit before after w o e) h =
      subst (IsExclusive max_concurrent_scans) (sym e) (exit-IsExclusive before after w q o h)

-- If the claimed sources are those of the threads, each once, and no more than the setting allows, then
-- so they are after any steps of requests, dispatch loops and threads, in any order: no two threads
-- scan one source.
pub Reached-IsExclusive :
    (max_concurrent_scans : ℕ) (q q' : Queue)
    → IsExclusive max_concurrent_scans q
    → Reached max_concurrent_scans q q'
    → IsExclusive max_concurrent_scans q'
Reached-IsExclusive max_concurrent_scans q q' h here = h
Reached-IsExclusive max_concurrent_scans q q' h (next r s) =
    Step-IsExclusive max_concurrent_scans s (Reached-IsExclusive max_concurrent_scans q _ h r)
