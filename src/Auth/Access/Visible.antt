-- ===== src/Auth/Access/Visible.antt =====
-- auth/access.py: what a user is shown of a row that the user may not see.
use meshive.Prelude.{
  ℕ, ◌≡◌, refl, ap, sym, ◌∙◌, inl, inr, Bool, true, false, Option, none, some, List, [], ◌∷◌, arith,
  if◌then◌else◌, Bool-cases, filter, All, ◌==◌, nat_eq, contains, Row, get, delete, HasKeys,
  get-delete, delete-HasKeys, beq_refl,
}
use mathlib.Core.Path.{subst, fun_ext}
use meshive.Http.{Response, ok, error, HttpError, http_error, found}
use meshive.Models.{LibrarySource, LibraryModel, ScanRun, source_row, model_row, scan_row}
use meshive.Auth.Access.{
  AccessContext, can_access_source, get_visible_source_ids, in_sources, scope_models,
  scope_scan_runs, get_visible_model_or_404, get_visible_scan_or_404, operable_source,
  get_operable_source_or_404,
}
use meshive.Auth.Access.Context.{in_sources-eq-can_access_source}

-- The row, if the user may access its source; a row that is not there and one that is hidden give
-- the same error.
abbrev pub visible_or : {A : Type 0} → HttpError → (A → Bool) → Option A → Response A
visible_or e p none = error e
visible_or e p (some a) = if p a then ok a else error e

module _ {A : Type 0} ⦃r : Row A⦄ (p : A → Bool) where
  get_of_others :
      (i : ℕ) (xs : List A) → All (λ y. (r.key y == i) ≡ false) xs → get i (filter p xs) ≡ none
  unfolding get
  get_of_others i [] h = refl
  get_of_others i (x ∷ xs) h = ground (arith, get_of_others i xs h.1)

  found-filter :
      (e : HttpError) (i : ℕ) (xs : List A)
      → HasKeys xs
      → found (get i (filter p xs)) e ≡ visible_or e p (get i xs)
  unfolding get
  found-filter e i [] h = refl
  found-filter e i (x ∷ xs) h = elim (Bool-cases (r.key x == i)) [
    | inl q ↦
        (let same : r.key x ≡ i = ground arith in
          ground (
            arith,
            get_of_others i xs (subst (λ k. All (λ y. (r.key y == k) ≡ false) xs) same h.0),
          ))
    | inr q ↦ ground (arith, found-filter e i xs h.1)
  ]

-- A model is returned exactly when it is there and its source may be accessed.
pub get_visible_model_exact :
    (models : List LibraryModel) (access : AccessContext) (model_id : ℕ)
    → HasKeys models
    → get_visible_model_or_404 models access model_id
      ≡ visible_or
          (http_error 404 "Model not found")
          (λ m. can_access_source access m.library_source_id)
          (get model_id models)
unfolding get_visible_model_or_404 scope_models
get_visible_model_exact models access model_id h =
    found-filter (λ m. in_sources (get_visible_source_ids access) m.library_source_id) _ model_id
      models h
    ∙ ap
        (λ (p : ℕ → Bool).
          visible_or (http_error 404 "Model not found")
            (λ (m : LibraryModel). p m.library_source_id) (get model_id models))
        (fun_ext (in_sources-eq-can_access_source access))

-- A scan run is returned exactly when it is there and its source may be accessed.
pub get_visible_scan_exact :
    (scans : List ScanRun) (access : AccessContext) (scan_id : ℕ)
    → HasKeys scans
    → get_visible_scan_or_404 scans access scan_id
      ≡ visible_or
          (http_error 404 "Scan not found")
          (λ s. can_access_source access s.library_source_id)
          (get scan_id scans)
unfolding get_visible_scan_or_404 scope_scan_runs
get_visible_scan_exact scans access scan_id h =
    found-filter (λ s. in_sources (get_visible_source_ids access) s.library_source_id) _ scan_id
      scans h
    ∙ ap
        (λ (p : ℕ → Bool).
          visible_or (http_error 404 "Scan not found") (λ (s : ScanRun). p s.library_source_id)
            (get scan_id scans))
        (fun_ext (in_sources-eq-can_access_source access))

source_of_all : (e : HttpError) (o : Option LibrarySource) → found o e ≡ visible_or e (λ s. true) o
source_of_all e none = refl
source_of_all e (some s) = refl

-- A source is returned exactly when it is there and may be accessed, on both ways to query it.
get_operable_source_exact :
    (sources : List LibrarySource) (access : AccessContext) (source_id : ℕ)
    → HasKeys sources
    → get_operable_source_or_404 sources access source_id
      ≡ visible_or
          (http_error 404 "Source not found")
          (λ s. can_access_source access s.id)
          (get source_id sources)
unfolding get_operable_source_or_404
get_operable_source_exact sources access source_id h =
    go (get_visible_source_ids access)
    ∙ ap
        (λ (p : ℕ → Bool).
          visible_or (http_error 404 "Source not found") (λ (s : LibrarySource). p s.id)
            (get source_id sources))
        (fun_ext (in_sources-eq-can_access_source access))
  where
    go :
        (o : Option (List ℕ))
        → found (operable_source o sources source_id) (http_error 404 "Source not found")
          ≡ visible_or
              (http_error 404 "Source not found")
              (λ s. in_sources o s.id)
              (get source_id sources)
    go none = source_of_all _ (get source_id sources)
    go (some ids) = found-filter (λ s. contains ids s.id) _ source_id sources h

-- A user who may not see a model gets the answer that a catalogue without the model would give.
pub hidden_model_is_missing :
    (models : List LibraryModel) (access : AccessContext) (model_id : ℕ) {m : LibraryModel}
    → HasKeys models
    → get model_id models ≡ some m
    → can_access_source access m.library_source_id ≡ false
    → get_visible_model_or_404 models access model_id
      ≡ get_visible_model_or_404 (delete model_id models) access model_id
hidden_model_is_missing models access model_id {m} h e hidden =
    get_visible_model_exact models access model_id h
    ∙ rw (e, hidden)
        (sym (
          get_visible_model_exact (delete model_id models) access model_id
            (delete-HasKeys model_id models h)
          ∙ rw (get-delete, beq_refl)))
