-- ===== src/SignIn/Setup.antt =====
-- backend/meshive/api/setup.py: the first account of a server, which a request with the setup token makes.
pub mod Once
pub mod Tests
use meshive.Prelude.{
  ℕ, String, Bool, true, false, not, Option, none, some, List, [], ◌∷◌, ◌++◌, if◌then◌else◌, length,
  ◌==◌, string_eq, nat_eq, next_id,
}
use meshive.Http.{Response, ok, error, HttpError, http_error}
use meshive.Models.{Role, User, admin, Database, UnicodeText, user_row}
use meshive.Auth.RateLimit.{retry_after, record_failure, clear}
use meshive.Roles.{get_system_role_for_legacy_role}
use meshive.Users.{normalize_username}
use meshive.SignIn.{Server, Settings, Hasher, Clock, create_user_session}

-- `InitialAdminCreate` of schemas/setup.py
pub record InitialAdminCreate : Type 0 where
  pub setup_token : String
  pub username : String
  pub password : String

abbrev pub filled : String → Option String
filled value = if value == "" then none else some value

-- `Settings.effective_setup_token` of config.py
unfoldable pub effective_setup_token : UnicodeText → Settings → Option String
effective_setup_token t settings = elim settings.setup_token [
  | none ↦ none
  | some token ↦ filled (t.strip token)
]

abbrev pub initial_setup : String
initial_setup = "initial-setup"

abbrev pub setup_completed : HttpError
setup_completed = http_error 409 "Initial setup has already been completed"

abbrev pub initial_admin : Hasher → UnicodeText → InitialAdminCreate → Role → List User → User
initial_admin h t payload role users = record {
  id = next_id users;
  username = payload.username;
  normalized_username = normalize_username t payload.username;
  email = none;
  normalized_email = none;
  email_verified_at = none;
  password_hash = h.hash_password payload.password;
  role = admin;
  role_id = some role.id;
  all_sources = true;
  is_active = true;
  must_change_password = false;
  library_source_grants = [];
}

unfoldable pub admin_made :
    Hasher
    → UnicodeText
    → (String → String)
    → Settings
    → Clock
    → String
    → InitialAdminCreate
    → Response (Role × List Role)
    → Server
    → Response User × Server
unfolding create_user_session
admin_made h t hash settings clock raw_token payload (error e) s = (error e, s)
admin_made h t hash settings clock raw_token payload (ok (role, roles)) s =
    let u = initial_admin h t payload role s.db.users in
    (
      ok u,
      record s {
        setups = clear initial_setup s.setups;
        db = record s.db {
          roles = roles;
          users = s.db.users ++ u ∷ [];
          sessions = s.db.sessions ++ create_user_session hash settings clock.now raw_token u ∷ [];
        };
      },
    )

unfoldable pub setup_with :
    Hasher
    → UnicodeText
    → (String → String)
    → Settings
    → Clock
    → String
    → InitialAdminCreate
    → Option String
    → Server
    → Response User × Server
unfolding admin_made
setup_with h t hash settings clock raw_token payload none s = (
  error (http_error 503 "Web setup is disabled; configure MESHIVE_SETUP_TOKEN or use the CLI"),
  s,
)
setup_with h t hash settings clock raw_token payload (some expected_token) s =
    if payload.setup_token == expected_token
    then (if length s.db.users == 0
        then admin_made h t hash settings clock raw_token payload
            (get_system_role_for_legacy_role t admin s.db.roles) s
        else (error setup_completed, s))
    else (
      error (http_error 403 "The setup token is invalid"),
      record s {
        setups =
            record_failure initial_setup settings.auth_rate_limit_window_seconds clock.recorded
              s.setups;
      },
    )

unfoldable pub setup_unless :
    Hasher
    → UnicodeText
    → (String → String)
    → Settings
    → Clock
    → String
    → InitialAdminCreate
    → Option ℕ
    → Server
    → Response User × Server
unfolding setup_with
setup_unless h t hash settings clock raw_token payload (some wait) s =
    (error (http_error 429 "Too many setup attempts; try again later"), s)
setup_unless h t hash settings clock raw_token payload none s =
    setup_with h t hash settings clock raw_token payload (effective_setup_token t settings) s

unfoldable pub create_initial_admin :
    Hasher
    → UnicodeText
    → (String → String)
    → Settings
    → Clock
    → String
    → InitialAdminCreate
    → Server
    → Response User × Server
unfolding setup_unless
create_initial_admin h t hash settings clock raw_token payload s =
    let (wait, setups) =
      retry_after initial_setup settings.auth_rate_limit_attempts
        settings.auth_rate_limit_window_seconds clock.asked s.setups in
    setup_unless h t hash settings clock raw_token payload wait (record s { setups = setups })
