-- ===== src/ApiTokens.antt =====
-- backend/meshive/api/api_tokens.py and auth/api_tokens.py: the tokens that a user's programs send.
pub mod Bearer
pub mod Tests
use meshive.Prelude.{
  ℕ, ◌+◌, ◌*◌, String, Bool, not, ◌&&◌, Option, none, some, List, [], ◌∷◌, ◌++◌, if◌then◌else◌,
  find, ◌==◌, string_eq, nat_eq, delete, next_id,
}
use meshive.Http.{Response, ok, error, HttpError, http_error}
use meshive.Models.{User, ApiToken, AuditEvent, Database, api_token_row}
use meshive.Auth.RateLimit.{retry_after, record_failure, clear}
use meshive.SignIn.{Server, Settings, Hasher, Clock, too_many_passwords, wrong_password}

-- `ApiTokenCreate` of schemas/api_token.py
pub record ApiTokenCreate : Type 0 where
  pub name : String
  pub current_password : String
  pub expires_in_seconds : Option ℕ

-- `api_token_expiration` of auth/api_tokens.py
unfoldable pub api_token_expiration : ℕ → Option ℕ → Option ℕ
api_token_expiration now none = none
api_token_expiration now (some expires_in_seconds) = some (now + expires_in_seconds * 1000000)

abbrev event : String → User → ApiToken → AuditEvent
event action u k = record {
  actor_id = u.id;
  action = action;
  target_type = "api_token";
  target_label = k.name;
  target_id = some k.id;
}

-- `plaintext` is the random token, and `display` gives its shown beginning.
abbrev pub new_token :
    (String → String) → (String → String) → ℕ → String → ApiTokenCreate → User → Database → ApiToken
new_token hash display now plaintext payload u db = record {
  id = next_id db.api_tokens;
  user_id = u.id;
  name = payload.name;
  token_hash = hash plaintext;
  token_prefix = display plaintext;
  expires_at = api_token_expiration now payload.expires_in_seconds;
  last_used_at = none;
}

unfoldable pub create_unless :
    Hasher
    → (String → String)
    → (String → String)
    → Settings
    → Clock
    → String
    → String
    → ApiTokenCreate
    → User
    → Option ℕ
    → Server
    → Response ApiToken × Server
unfolding api_token_expiration
create_unless h hash display settings clock rate_key plaintext payload u (some wait) s =
    (error too_many_passwords, s)
create_unless h hash display settings clock rate_key plaintext payload u none s =
    if h.verify_password payload.current_password u.password_hash
    then (let k = new_token hash display clock.now plaintext payload u s.db in
        (
          ok k,
          record s {
            recoveries = clear rate_key s.recoveries;
            db = record s.db {
              api_tokens = s.db.api_tokens ++ k ∷ [];
              audit = s.db.audit ++ event "api_token.created" u k ∷ [];
            };
          },
        ))
    else (
      error wrong_password,
      record s {
        recoveries =
            record_failure rate_key settings.auth_rate_limit_window_seconds clock.recorded
              s.recoveries;
      },
    )

-- `rate_key` is `api-token-password:<id>`.
unfoldable pub create_api_token :
    Hasher
    → (String → String)
    → (String → String)
    → Settings
    → Clock
    → String
    → String
    → ApiTokenCreate
    → User
    → Server
    → Response ApiToken × Server
unfolding create_unless
create_api_token h hash display settings clock rate_key plaintext payload u s =
    let (wait, recoveries) =
      retry_after rate_key settings.auth_rate_limit_attempts settings.auth_rate_limit_window_seconds
        clock.asked s.recoveries in
    create_unless h hash display settings clock rate_key plaintext payload u wait
      (record s { recoveries = recoveries })

unfoldable pub revoke_found : User → Option ApiToken → Database → Response ApiToken × Database
revoke_found u none db = (error (http_error 404 "API token not found"), db)
revoke_found u (some k) db = (
  ok k,
  record db {
    api_tokens = delete k.id db.api_tokens;
    audit = db.audit ++ event "api_token.revoked" u k ∷ [];
  },
)

unfoldable pub revoke_api_token : ℕ → User → Database → Response ApiToken × Database
unfolding revoke_found
revoke_api_token token_id u db =
    revoke_found u (find (λ k. k.id == token_id && k.user_id == u.id) db.api_tokens) db
