-- ===== src/SignIn.antt =====
-- backend/meshive/api/auth.py: signing in and out, the sessions of a user, and the change of a
-- password; auth/sessions.py and auth/action_tokens.py. The limiters live in the process beside the
-- database, and what they hold stays when a request is refused. The random token of a session and
-- the instants that a request reads are arguments.
pub mod Guesses
pub mod Cookies
pub mod Passwords
pub mod Recovery
pub mod Setup
pub mod Tests
use meshive.Prelude.{
  ℕ, ◌+◌, ◌*◌, String, Bool, true, false, not, ◌&&◌, ◌||◌, Option, none, some, List, [], ◌∷◌, ◌++◌,
  if◌then◌else◌, leb, find, filter, ◌==◌, string_eq, nat_eq, get, put,
}
use meshive.Http.{Response, ok, error, HttpError, http_error}
use meshive.Models.{User, UserSession, UserActionToken, Database, UnicodeText, user_row}
use meshive.Auth.RateLimit.{Limiter, retry_after, record_failure, clear}
use meshive.Auth.Credentials.{session_of}
use meshive.Users.{normalize_username}

-- `login_limiter`, `recovery_limiter` and `setup_limiter` of auth/rate_limit.py.
pub record Server : Type 0 where
  pub db : Database
  pub logins : Limiter
  pub recoveries : Limiter
  pub setups : Limiter

-- The fields of `Settings` of config.py that the requests read.
pub record Settings : Type 0 where
  pub auth_rate_limit_attempts : ℕ
  pub auth_rate_limit_window_seconds : ℕ
  pub session_lifetime_days : ℕ
  pub email_delivery_enabled : Bool
  pub password_reset_lifetime_minutes : ℕ
  pub email_verification_lifetime_hours : ℕ
  pub setup_token : Option String

-- auth/passwords.py, over the password hasher; a new hash has a new salt.
pub record Hasher : Type 0 where
  pub hash_password : String → String
  pub verify_password : String → String → Bool
  pub dummy_hash : String

-- The monotonic instants of the two calls of a limiter, and `utc_now`.
pub record Clock : Type 0 where
  pub asked : ℕ
  pub recorded : ℕ
  pub now : ℕ

abbrev pub minute : ℕ
minute = 60 * 1000000

abbrev pub day : ℕ
day = 24 * 60 * minute

unfoldable pub get_user_by_username : UnicodeText → String → List User → Option User
get_user_by_username t username = find (λ u. u.normalized_username == normalize_username t username)

unfoldable pub create_user_session : (String → String) → Settings → ℕ → String → User → UserSession
create_user_session hash settings now raw_token u = record {
  token_hash = hash raw_token;
  user_id = u.id;
  expires_at = now + settings.session_lifetime_days * day;
  last_used_at = now;
}

abbrev pub too_many_sign_ins : HttpError
too_many_sign_ins = http_error 429 "Too many sign-in attempts; try again later"

abbrev pub invalid_credentials : HttpError
invalid_credentials = http_error 401 "Invalid username or password"

abbrev pub failed_login : Settings → Clock → String → Server → Response User × Server
failed_login settings clock key s = (
  error invalid_credentials,
  record s {
    logins = record_failure key settings.auth_rate_limit_window_seconds clock.recorded s.logins;
  },
)

-- A name that nobody has is checked against a hash that no password fits, to take as long.
unfoldable pub login_as :
    Hasher
    → (String → String)
    → Settings
    → Clock
    → String
    → String
    → String
    → Option User
    → Server
    → Response User × Server
unfolding create_user_session
login_as h hash settings clock raw_token key password none s = failed_login settings clock key s
login_as h hash settings clock raw_token key password (some u) s =
    if not (h.verify_password password u.password_hash) || not u.is_active
    then failed_login settings clock key s
    else (
      ok u,
      record s {
        logins = clear key s.logins;
        db = record s.db {
          sessions = s.db.sessions ++ create_user_session hash settings clock.now raw_token u ∷ [];
        };
      },
    )

unfoldable pub login_unless :
    Hasher
    → UnicodeText
    → (String → String)
    → Settings
    → Clock
    → String
    → String
    → String
    → Option ℕ
    → Server
    → Response User × Server
unfolding login_as get_user_by_username
login_unless h t hash settings clock raw_token username password (some wait) s =
    (error too_many_sign_ins, s)
login_unless h t hash settings clock raw_token username password none s =
    login_as h hash settings clock raw_token (normalize_username t username) password
      (get_user_by_username t username s.db.users) s

unfoldable pub login :
    Hasher
    → UnicodeText
    → (String → String)
    → Settings
    → Clock
    → String
    → String
    → String
    → Server
    → Response User × Server
unfolding login_unless
login h t hash settings clock raw_token username password s =
    let (wait, logins) =
      retry_after (normalize_username t username) settings.auth_rate_limit_attempts
        settings.auth_rate_limit_window_seconds clock.asked s.logins in
    login_unless h t hash settings clock raw_token username password wait
      (record s { logins = logins })

unfoldable pub without_session : String → List UserSession → List UserSession
without_session token_hash = filter (λ s. not (s.token_hash == token_hash))

unfoldable pub logout : (String → String) → Option String → Database → Database
unfolding without_session
logout hash none db = db
logout hash (some raw_token) db =
    if raw_token == ""
    then db
    else record db { sessions = without_session (hash raw_token) db.sessions }

-- The rows that are left, for a session that is signed in.
unfoldable pub revoke_other_sessions : UserSession → Database → Database
revoke_other_sessions current db = record db {
  sessions =
      filter (λ s. not (s.user_id == current.user_id) || s.token_hash == current.token_hash)
        db.sessions;
}

unfoldable pub revoke_found : Option UserSession → Database → Response UserSession × Database
unfolding without_session
revoke_found none db = (error (http_error 404 "Session not found"), db)
revoke_found (some s) db = (ok s, record db { sessions = without_session s.token_hash db.sessions })

-- `public_session_id` is the parameter `public_id`.
unfoldable pub revoke_session :
    (String → String) → String → UserSession → Database → Response UserSession × Database
unfolding revoke_found
revoke_session public_id session_id current db =
    revoke_found
      (find (λ s. s.user_id == current.user_id && public_id s.token_hash == session_id) db.sessions)
      db

unfoldable pub delete_user_action_tokens : ℕ → List UserActionToken → List UserActionToken
delete_user_action_tokens user_id = filter (λ k. not (k.user_id == user_id))

abbrev pub too_many_passwords : HttpError
too_many_passwords = http_error 429 "Too many password attempts; try again later"

-- The session of the cookie stays, if there is one.
unfoldable pub stays : (String → String) → Option String → UserSession → Bool
stays hash none s = false
stays hash (some raw_token) s = if raw_token == "" then false else s.token_hash == hash raw_token

abbrev pub wrong_password : HttpError
wrong_password = http_error 400 "The current password is incorrect"

abbrev pub same_password : HttpError
same_password = http_error 400 "The new password must be different"

unfoldable pub change_checked :
    Hasher → (String → String) → Option String → String → User → Server → Response User × Server
unfolding stays
change_checked h hash cookie new_password u s =
    if h.verify_password new_password u.password_hash
    then (error same_password, s)
    else let v = record u {
      password_hash = h.hash_password new_password;
      must_change_password = false;
    } in
      (
        ok v,
        record s {
          db = record s.db {
            users = put v s.db.users;
            action_tokens = delete_user_action_tokens u.id s.db.action_tokens;
            sessions = filter (λ r. not (r.user_id == u.id) || stays hash cookie r) s.db.sessions;
          };
        },
      )

unfoldable pub change_unless :
    Hasher
    → (String → String)
    → Settings
    → Clock
    → String
    → Option String
    → String
    → String
    → User
    → Option ℕ
    → Server
    → Response User × Server
unfolding change_checked
change_unless h hash settings clock key cookie current_password new_password u (some wait) s =
    (error too_many_passwords, s)
change_unless h hash settings clock key cookie current_password new_password u none s =
    if h.verify_password current_password u.password_hash
    then change_checked h hash cookie new_password u
        (record s { recoveries = clear key s.recoveries })
    else (
      error wrong_password,
      record s {
        recoveries =
            record_failure key settings.auth_rate_limit_window_seconds clock.recorded s.recoveries;
      },
    )

-- `key` is the limiter's key of the user, `current-password:<id>`.
unfoldable pub change_password :
    Hasher
    → (String → String)
    → Settings
    → Clock
    → (ℕ → String)
    → Option String
    → String
    → String
    → User
    → Server
    → Response User × Server
unfolding change_unless
change_password h hash settings clock key cookie current_password new_password u s =
    let (wait, recoveries) =
      retry_after (key u.id) settings.auth_rate_limit_attempts
        settings.auth_rate_limit_window_seconds clock.asked s.recoveries in
    change_unless h hash settings clock (key u.id) cookie current_password new_password u wait
      (record s { recoveries = recoveries })
