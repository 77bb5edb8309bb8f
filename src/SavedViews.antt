-- ===== src/SavedViews.antt =====
-- backend/meshive/api/saved_views.py: the views of the catalogue that users have saved. The state of a
-- view is a value that the handlers pass on.
pub mod Privacy
pub mod Tests
use meshive.Prelude.{
  ℕ, String, Bool, not, Option, List, [], ◌∷◌, ◌++◌, any, find, ◌&&◌, ◌==◌, string_eq, nat_eq, Row,
  put, delete, next_id,
}
use meshive.Http.{Response, ok, error, http_error, require, found, ◌>>=◌, ◌>>◌}
use meshive.Models.{UnicodeText}
use meshive.Named.{Named, name_taken, owned}

-- `SavedView` of models/saved_view.py
pub record SavedView : Type 0 where
  pub id : ℕ
  pub user_id : ℕ
  pub name : String
  pub normalized_name : String
  pub catalogue_state : String

instance abbrev pub view_row : Row SavedView
view_row = record { key = λ v. v.id }

instance abbrev pub view_named : Named SavedView
view_named = record { user_id = λ v. v.user_id; normalized_name = λ v. v.normalized_name }

unfoldable pub normalize : UnicodeText → String → String
normalize t value = t.casefold (t.nfkc value)

unfoldable pub owned_view : ℕ → ℕ → List SavedView → Response SavedView
owned_view user_id saved_view_id views =
    found (owned user_id saved_view_id views) (http_error 404 "Saved view not found")

unfoldable pub create_saved_view :
    UnicodeText → String → String → ℕ → List SavedView → Response (SavedView × List SavedView)
unfolding normalize
create_saved_view t name state user_id views = do
  let view : SavedView = record {
    id = next_id views;
    user_id = user_id;
    name = name;
    normalized_name = normalize t name;
    catalogue_state = state;
  }
  require (not (name_taken view views))
      (http_error 409 "A saved view with this name already exists")
  ok (view, views ++ view ∷ [])

unfoldable pub rename_saved_view :
    UnicodeText → ℕ → String → ℕ → List SavedView → Response (SavedView × List SavedView)
unfolding owned_view normalize
rename_saved_view t saved_view_id name user_id views = do
  view ← owned_view user_id saved_view_id views
  let changed : SavedView = record view { name = name; normalized_name = normalize t name }
  require (not (name_taken changed views))
      (http_error 409 "A saved view with this name already exists")
  ok (changed, put changed views)

unfoldable pub delete_saved_view : ℕ → ℕ → List SavedView → Response (Unit {0} × List SavedView)
unfolding owned_view
delete_saved_view saved_view_id user_id views = do
  view ← owned_view user_id saved_view_id views
  ok (tt, delete view.id views)
