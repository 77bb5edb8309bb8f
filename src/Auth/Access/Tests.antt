-- ===== src/Auth/Access/Tests.antt =====
-- auth/access.py and auth/permissions.py at concrete users.
use meshive.Prelude.{
  string_eq, nat_eq, ℕ, ◌≡◌, refl, true, false, Option, none, some, List, [], ◌∷◌, all, contains,
  get, delete,
}
use meshive.Http.{ok, http_error}
use meshive.Models.{
  Role, User, LibraryModel, LibrarySource, ScanRun, user, pending, manual, smart, model_row,
  role_row, source_row, scan_row,
}
use meshive.Auth.Permissions.{
  all_permission_keys, scans_start, viewer_permissions, member_permissions, curator_permissions,
  operator_permissions, system_role_definitions,
}
use meshive.Auth.Access.{
  AccessContext, get_access_context, can_access_source, require_global_permission,
  get_visible_model_or_404,
}
use meshive.Auth.Access.Visible.{visible_or, get_visible_model_exact, hidden_model_is_missing}
use meshive.Auth.Access.Guards.{Guard, global_permission, build, answer, superuser_passes}

-- Each system role extends the one below it, and all of them hold registered keys.
system_roles_ordered :
    (all (contains member_permissions) viewer_permissions ≡ true)
    × (all (contains curator_permissions) member_permissions ≡ true)
    × (all (contains operator_permissions) member_permissions ≡ true)
    × (all (λ d. all (contains all_permission_keys) d.permission_keys) system_role_definitions
        ≡ true)
system_roles_ordered = (refl, refl, refl, refl)

abbrev roles : List Role
roles =
    record {
      id = 1;
      name = "Administrator";
      normalized_name = "administrator";
      description = none;
      is_system = true;
      is_superuser = true;
      permissions = [];
    }
    ∷ record {
      id = 2;
      name = "Starter";
      normalized_name = "starter";
      description = none;
      is_system = false;
      is_superuser = false;
      permissions = "scans.start" ∷ "old.key" ∷ [];
    }
    ∷ []

abbrev person : ℕ → Option ℕ → User
person i role = record {
  id = i;
  username = "p";
  normalized_username = "p";
  email = none;
  normalized_email = none;
  email_verified_at = none;
  password_hash = "h";
  role = user;
  role_id = role;
  all_sources = false;
  is_active = true;
  must_change_password = false;
  library_source_grants = 7 ∷ [];
}

abbrev models : List LibraryModel
models =
    record { id = 1; library_source_id = 7; name = "A"; relative_path = "a" }
    ∷ record { id = 2; library_source_id = 8; name = "B"; relative_path = "b" }
    ∷ []

abbrev sources : List LibrarySource
sources =
    record { id = 7; name = "S"; is_active = true; scan_enabled = true; auto_scan_enabled = false }
    ∷ record {
      id = 8;
      name = "T";
      is_active = true;
      scan_enabled = true;
      auto_scan_enabled = false;
    }
    ∷ []

abbrev scans : List ScanRun
scans =
    record {
      id = 4;
      library_source_id = 8;
      status = pending;
      cancel_requested = false;
      pause_requested = false;
      trigger = manual;
      mode = smart;
      target_model_id = none;
      target_model_name = none;
      created_at = 0;
      started_at = none;
      finished_at = none;
      error_message = none;
    }
    ∷ []

abbrev starter : AccessContext
starter = get_access_context roles (person 5 (some 2))

-- A key that is no longer registered is dropped.
starter_keys : starter.permission_keys ≡ scans_start ∷ []
unfolding get_access_context get
starter_keys = refl

get_visible_model_exact_example :
    get_visible_model_or_404 models starter 2
    ≡ visible_or
        (http_error 404 "Model not found")
        (λ m. can_access_source starter m.library_source_id)
        (get 2 models)
get_visible_model_exact_example = get_visible_model_exact models starter 2 ((refl, tt), (tt, tt))

hidden_model_is_missing_example :
    get_visible_model_or_404 models starter 2 ≡ get_visible_model_or_404 (delete 2 models) starter 2
unfolding get get_access_context can_access_source
hidden_model_is_missing_example =
    hidden_model_is_missing models starter 2
      {m = record { id = 2; library_source_id = 8; name = "B"; relative_path = "b" }}
      ((refl, tt), (tt, tt)) refl refl

abbrev start_guard : Guard
start_guard = global_permission scans_start

superuser_passes_example :
    answer start_guard roles (person 5 (some 1))
    ≡ some (ok (get_access_context roles (person 5 (some 1))))
unfolding build require_global_permission get
superuser_passes_example = superuser_passes start_guard roles (person 5 (some 1)) refl refl
