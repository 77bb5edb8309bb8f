-- ===== src/Auth/Access.antt =====
-- backend/meshive/auth/access.py: what a user may do, and which library sources the user sees.
-- A `frozenset` is the list of its elements, and a `Select` over a table is the list of the rows
-- that it returns.
pub mod Context
pub mod Visible
pub mod Guards
pub mod Tests
use meshive.Prelude.{
  ℕ, String, Bool, true, false, not, ◌&&◌, ◌||◌, Option, none, some, List, [], ◌∷◌, if◌then◌else◌,
  is_some, filter, all, any, contains, ◌==◌, string_eq, nat_eq, get,
}
use meshive.Http.{Response, ok, error, HttpError, http_error, require, found, ◌>>=◌, ◌>>◌}
use meshive.Models.{
  Role, User, LibrarySource, LibraryModel, ScanRun, role_row, source_row, model_row, scan_row,
}
use meshive.Auth.Permissions.{all_permission_keys}

pub record AccessContext : Type 0 where
  pub user : User
  pub permission_keys : List String
  pub all_sources : Bool
  pub source_ids : List ℕ
  pub is_superuser : Bool

-- `user.role_definition`
abbrev pub role_definition : List Role → User → Option Role
role_definition roles user = elim user.role_id [ none ↦ none | some i ↦ get i roles ]

abbrev pub is_superuser_role : Option Role → Bool
is_superuser_role none = false
is_superuser_role (some role) = role.is_superuser

abbrev granted_keys : Option Role → List String
granted_keys none = []
granted_keys (some role) = filter (contains all_permission_keys) role.permissions

unfoldable pub get_access_context : List Role → User → AccessContext
get_access_context roles user =
    let role = role_definition roles user in
    let superuser = is_superuser_role role in
    let sources = user.all_sources || superuser in
    record {
      user = user;
      permission_keys = if superuser then all_permission_keys else granted_keys role;
      all_sources = sources;
      source_ids = if sources || superuser then [] else user.library_source_grants;
      is_superuser = superuser;
    }

unfoldable pub can_access_source : AccessContext → ℕ → Bool
can_access_source access source_id =
    access.is_superuser || access.all_sources || contains access.source_ids source_id

unfoldable pub get_visible_source_ids : AccessContext → Option (List ℕ)
get_visible_source_ids access =
    if access.is_superuser || access.all_sources then none else some access.source_ids

-- `column.in_(source_ids)`, or no condition
abbrev pub in_sources : Option (List ℕ) → ℕ → Bool
in_sources none source_id = true
in_sources (some ids) source_id = contains ids source_id

unfoldable pub scope_models : List LibraryModel → AccessContext → List LibraryModel
unfolding get_visible_source_ids
scope_models models access =
    filter (λ m. in_sources (get_visible_source_ids access) m.library_source_id) models

unfoldable pub scope_scan_runs : List ScanRun → AccessContext → List ScanRun
unfolding get_visible_source_ids
scope_scan_runs scans access =
    filter (λ s. in_sources (get_visible_source_ids access) s.library_source_id) scans

unfoldable pub get_visible_model_or_404 :
    List LibraryModel → AccessContext → ℕ → Response LibraryModel
get_visible_model_or_404 models access model_id =
    found (get model_id (scope_models models access)) (http_error 404 "Model not found")

unfoldable pub get_visible_scan_or_404 : List ScanRun → AccessContext → ℕ → Response ScanRun
get_visible_scan_or_404 scans access scan_id =
    found (get scan_id (scope_scan_runs scans access)) (http_error 404 "Scan not found")

unfoldable pub operable_source : Option (List ℕ) → List LibrarySource → ℕ → Option LibrarySource
operable_source none sources source_id = get source_id sources
operable_source (some ids) sources source_id =
    get source_id (filter (λ s. contains ids s.id) sources)

unfoldable pub get_operable_source_or_404 :
    List LibrarySource → AccessContext → ℕ → Response LibrarySource
unfolding operable_source get_visible_source_ids
get_operable_source_or_404 sources access source_id =
    found (operable_source (get_visible_source_ids access) sources source_id)
      (http_error 404 "Source not found")

abbrev pub permission_denied : HttpError
permission_denied = http_error 403 "Permission denied"

abbrev pub all_sources_required : HttpError
all_sources_required = http_error 403 "All sources access is required"

unfoldable pub require_access_permission : AccessContext → String → Response (Unit {0})
require_access_permission access permission_key =
    require (contains access.permission_keys permission_key) permission_denied

-- A dependency is built once, when its route is declared: an unregistered key raises `ValueError`
-- there, and no request is served. What is built answers the request of a user.
abbrev pub Dependency : Type 0
Dependency = List Role → User → Response AccessContext

-- `not permission_keys.isdisjoint(...)`, as the truth of the intersection
abbrev pub intersects : List String → List String → Bool
intersects keys wanted = any (contains wanted) keys

unfoldable pub require_permission : String → Option Dependency
require_permission permission_key =
    if contains all_permission_keys permission_key
    then some (λ roles user. do
      require_access_permission (get_access_context roles user) permission_key
      ok (get_access_context roles user))
    else none

unfoldable pub require_global_permission : String → Option Dependency
require_global_permission permission_key =
    if contains all_permission_keys permission_key
    then some (λ roles user. do
      require_access_permission (get_access_context roles user) permission_key
      require (get_access_context roles user).all_sources all_sources_required
      ok (get_access_context roles user))
    else none

-- `not permission_keys or not permission_keys <= ALL_PERMISSION_KEYS`
abbrev are_registered : List String → Bool
are_registered [] = false
are_registered (key ∷ keys) = all (contains all_permission_keys) (key ∷ keys)

unfoldable pub require_any_permission : List String → Option Dependency
require_any_permission permission_keys =
    if are_registered permission_keys
    then some (λ roles user. do
      require (intersects (get_access_context roles user).permission_keys permission_keys)
          permission_denied
      ok (get_access_context roles user))
    else none

unfoldable pub require_any_global_permission : List String → Option Dependency
require_any_global_permission permission_keys =
    if are_registered permission_keys
    then some (λ roles user. do
      require (intersects (get_access_context roles user).permission_keys permission_keys)
          permission_denied
      require (get_access_context roles user).all_sources all_sources_required
      ok (get_access_context roles user))
    else none
