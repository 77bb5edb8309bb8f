-- ===== src/SavedViews/Privacy.antt =====
-- backend/meshive/api/saved_views.py: requests of several users, one after the other.
use meshive.Prelude.{
  ℕ, String, ◌≡◌, refl, ◌∙◌, false, List, [], ◌∷◌, arith, filter, All, ◌==◌, string_eq, nat_eq,
  HasKeys, append-HasKeys, put-HasKeys, delete-HasKeys, filter-last,
}
use meshive.Http.{Response, ok, error, Holds, require-Holds, found-Holds}
use meshive.Models.{UnicodeText}
use meshive.Named.{HasNames, is_of}
use meshive.Named.Rows.{append-HasNames, put-HasNames, delete-HasNames, others-put, others-delete}
use meshive.SavedViews.{
  SavedView, view_row, view_named, owned_view, create_saved_view, rename_saved_view,
  delete_saved_view,
}

pub data Request : Type 0 where
  create : String → String → Request
  rename : ℕ → String → Request
  remove : ℕ → Request

abbrev committed : {A : Type 0} → List SavedView → Response (A × List SavedView) → List SavedView
committed views (ok (a, views')) = views'
committed views (error e) = views

-- The views after the request of a user: as they were when the handler raises.
unfoldable pub handle : UnicodeText → ℕ → Request → List SavedView → List SavedView
handle t user_id (create name state) views =
    committed views (create_saved_view t name state user_id views)
handle t user_id (rename i name) views = committed views (rename_saved_view t i name user_id views)
handle t user_id (remove i) views = committed views (delete_saved_view i user_id views)

abbrev pub run : UnicodeText → List (ℕ × Request) → List SavedView → List SavedView
run t [] views = views
run t ((user_id, r) ∷ rs) views = run t rs (handle t user_id r views)

-- Ids are unique, and so are the names of a user's views.
pub record IsTable (views : List SavedView) : Type 0 where
  pub keys : HasKeys views
  pub names : HasNames views

committed-Holds :
    {A : Type 0} (P : List SavedView → Type 0) (views : List SavedView)
    (m : Response (A × List SavedView))
    → P views
    → Holds (λ r. P r.1) m
    → P (committed views m)
committed-Holds P views (ok (a, views')) h k = k
committed-Holds P views (error e) h k = h

module _ (t : UnicodeText) (u : ℕ) (views : List SavedView) (w : IsTable views) where
  handle-IsTable : (r : Request) → IsTable (handle t u r views)
  unfolding handle create_saved_view rename_saved_view delete_saved_view owned_view
  handle-IsTable (create name state) = committed-Holds IsTable views _ w (
      require-Holds _ _ _ _ (λ free. record {
        keys = append-HasKeys views _ refl w.keys;
        names = append-HasNames views _ refl (ground arith) w.names;
      }))
  handle-IsTable (rename i name) = committed-Holds IsTable views _ w (
      found-Holds _ _ _ _ (λ view mine. require-Holds _ _ _ _ (λ free. record {
        keys = put-HasKeys _ views w.keys;
        names = put-HasNames _ views (ground arith) w.keys w.names;
      })))
  handle-IsTable (remove i) = committed-Holds IsTable views _ w (
      found-Holds _ _ _ _ (λ view mine. record {
        keys = delete-HasKeys view.id views w.keys;
        names = delete-HasNames view.id views w.names;
      }))

  -- What a user asks changes no view of another user.
  handle-others :
      (v : ℕ) (r : Request)
      → (u == v) ≡ false
      → filter (is_of v) (handle t u r views) ≡ filter (is_of v) views
  unfolding handle create_saved_view rename_saved_view delete_saved_view owned_view
  handle-others v (create name state) other =
      committed-Holds (λ x. filter (is_of v) x ≡ filter (is_of v) views) views _ refl
        (require-Holds _ _ _ _ (λ free. filter-last (is_of v) views _ other))
  handle-others v (rename i name) other =
      committed-Holds (λ x. filter (is_of v) x ≡ filter (is_of v) views) views _ refl
        (found-Holds _ _ _ _ (λ view mine.
          require-Holds _ _ _ _
            (λ free. others-put u v i views view _ w.keys mine refl refl other)))
  handle-others v (remove i) other =
      committed-Holds (λ x. filter (is_of v) x ≡ filter (is_of v) views) views _ refl
        (found-Holds _ _ _ _ (λ view mine. others-delete u v i views view w.keys mine other))

-- Whatever the other users ask, a user's views stay as they are; and the ids, and the names of each
-- user's views, stay unique, as they are before.
pub run_keeps_others :
    (t : UnicodeText) (v : ℕ) (rs : List (ℕ × Request)) (views : List SavedView)
    → IsTable views
    → All (λ r. (r.0 == v) ≡ false) rs
    → (filter (is_of v) (run t rs views) ≡ filter (is_of v) views) × IsTable (run t rs views)
run_keeps_others t v [] views w h = (refl, w)
run_keeps_others t v ((u, r) ∷ rs) views w h =
    let rest = run_keeps_others t v rs (handle t u r views) (handle-IsTable t u views w r) h.1 in
    (rest.0 ∙ handle-others t u views w v r h.0, rest.1)
