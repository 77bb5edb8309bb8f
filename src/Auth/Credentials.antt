-- ===== src/Auth/Credentials.antt =====
-- backend/meshive/auth/dependencies.py: who a request comes from. An answer comes with the tables
-- that are committed, on an error too. The token hash is a parameter, `locked` says that the
-- best-effort commit meets a locked database, and `now` is the instant that the request reads.
pub mod Sessions
pub mod Tokens
pub mod Tests
use Prim.Native.Char.{code}
use text.Mathlib.Text.{starts_with}
use meshive.Prelude.{
  ℕ, suc, ◌+◌, ◌*◌, ◌≤◌, String, Bool, true, false, not, ◌&&◌, ◌||◌, Option, none, some, List, [],
  ◌∷◌, map, filter, find, if◌then◌else◌, leb, is_some, contains, ◌==◌, string_eq, nat_eq, Row, get,
  put,
}
use meshive.Http.{Response, ok, error, HttpError, http_error}
use meshive.Models.{User, UserSession, ApiToken, Role, Database, UnicodeText, user_row}

-- Fifteen minutes, in microseconds.
abbrev pub activity_interval : ℕ
activity_interval = 15 * 60 * 1000000

abbrev pub authentication_error : HttpError
authentication_error = http_error 401 "Authentication is required"

abbrev pub session_of : String → List UserSession → Option UserSession
session_of token_hash sessions = find (λ s. s.token_hash == token_hash) sessions

-- `record.expires_at <= now or not record.user.is_active`
abbrev pub is_stale : ℕ → UserSession → User → Bool
is_stale now s u = leb s.expires_at now || not u.is_active

touch : ℕ → String → List UserSession → List UserSession
touch now token_hash =
    map (λ s. if s.token_hash == token_hash then record s { last_used_at = now } else s)

-- The row of the cookie and its user. A session whose user is gone does not occur under the
-- foreign key; the attribute access would fail.
unfoldable pub current_session_found :
    ℕ → Bool → UserSession → Option User → Database → Response (UserSession × User) × Database
unfolding touch
current_session_found now locked s none db = (error (http_error 500 "Internal Server Error"), db)
current_session_found now locked s (some u) db =
    if is_stale now s u
    then (
      error authentication_error,
      record db { sessions = filter (λ x. not (x.token_hash == s.token_hash)) db.sessions },
    )
    else (
      ok (s, u),
      if leb (s.last_used_at + activity_interval) now && not locked
          then record db { sessions = touch now s.token_hash db.sessions }
          else db,
    )

unfoldable pub current_session_of :
    ℕ → Bool → Option UserSession → Database → Response (UserSession × User) × Database
current_session_of now locked none db = (error authentication_error, db)
current_session_of now locked (some s) db =
    current_session_found now locked s (get s.user_id db.users) db

unfoldable pub get_current_session :
    (String → String)
    → ℕ
    → Bool
    → Option String
    → Database
    → Response (UserSession × User) × Database
unfolding current_session_of current_session_found touch
get_current_session hash now locked none db = (error authentication_error, db)
get_current_session hash now locked (some raw_token) db =
    if raw_token == ""
    then (error authentication_error, db)
    else current_session_of now locked (session_of (hash raw_token) db.sessions) db

abbrev password_change_required : HttpError
password_change_required = http_error 403 "Password change is required"

changed_password : Response (UserSession × User) → Response User
changed_password (ok (s, u)) =
    if u.must_change_password then error password_change_required else ok u
changed_password (error e) = error e

unfoldable pub get_current_user :
    (String → String) → ℕ → Bool → Option String → Database → Response User × Database
unfolding changed_password
get_current_user hash now locked cookie db =
    let (answer, db') = get_current_session hash now locked cookie db in
    (changed_password answer, db')

-- `partition(" ")`: what stands before the first space, whether there is one, and what stands after.
unfoldable pub partition_space : String → String × Bool × String
partition_space String.[] = ("", false, "")
partition_space (String.◌∷◌ c s) =
    let (before, separator, after) = partition_space s in
    if code c == 32 then ("", true, s) else (String.◌∷◌ c before, separator, after)

abbrev pub token_prefix : String
token_prefix = "msh_pat_"

-- The raw token of a well-formed header.
unfoldable pub bearer_token : UnicodeText → String → Option String
unfolding partition_space
bearer_token t authorization =
    let (scheme, separator, raw_token) = partition_space authorization in
    if separator && (t.casefold scheme == "bearer" && starts_with raw_token token_prefix)
    then some raw_token
    else none

abbrev pub is_past : ℕ → Option ℕ → Bool
is_past now none = false
is_past now (some expires_at) = leb expires_at now

-- `last_used_at is None or last_used_at <= now - timedelta(minutes=15)`
abbrev pub is_idle : ℕ → Option ℕ → Bool
is_idle now none = true
is_idle now (some last_used_at) = leb (last_used_at + activity_interval) now

unfoldable pub touch_token : ℕ → ℕ → List ApiToken → List ApiToken
touch_token now token_id =
    map (λ k. if k.id == token_id then record k { last_used_at = some now } else k)

unfoldable pub api_user_found :
    ℕ → Bool → ApiToken → Option User → Database → Response User × Database
api_user_found now locked k none db = (error (http_error 500 "Internal Server Error"), db)
api_user_found now locked k (some u) db =
    if is_past now k.expires_at || (not u.is_active || u.must_change_password)
    then (error authentication_error, db)
    else (
      ok u,
      if is_idle now k.last_used_at && not locked
          then record db { api_tokens = touch_token now k.id db.api_tokens }
          else db,
    )

unfoldable pub api_user_of : ℕ → Bool → Option ApiToken → Database → Response User × Database
unfolding api_user_found touch_token
api_user_of now locked none db = (error authentication_error, db)
api_user_of now locked (some k) db = api_user_found now locked k (get k.user_id db.users) db

unfoldable pub with_token :
    (String → String) → ℕ → Bool → Option String → Database → Response User × Database
unfolding api_user_of
with_token hash now locked none db = (error authentication_error, db)
with_token hash now locked (some raw_token) db =
    api_user_of now locked (find (λ k. k.token_hash == hash raw_token) db.api_tokens) db

-- `header` is the `Authorization` header and `cookie` the session cookie.
unfoldable pub get_current_user_or_api_token :
    UnicodeText
    → (String → String)
    → (String → String)
    → ℕ
    → Bool
    → Option String
    → Option String
    → Database
    → Response User × Database
unfolding with_token
get_current_user_or_api_token t hash_session hash_api now locked none cookie db =
    get_current_user hash_session now locked cookie db
get_current_user_or_api_token t hash_session hash_api now locked (some header) cookie db =
    with_token hash_api now locked (bearer_token t header) db
