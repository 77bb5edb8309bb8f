-- ===== src/SignIn/Recovery.antt =====
-- backend/meshive/api/recovery.py and auth/action_tokens.py: the links that are mailed to reset a
-- password or to verify an address. Delivery is outside: `delivered` says whether a message that a
-- request waits for was sent.
pub mod Links
pub mod RoundTrip
pub mod Tests
use meshive.Prelude.{
  ℕ, ◌+◌, ◌*◌, String, Bool, true, false, not, ◌&&◌, ◌||◌, Option, none, some, List, [], ◌∷◌, ◌++◌,
  if◌then◌else◌, is_some, leb, any, find, filter, ◌==◌, string_eq, nat_eq, get, put,
}
use meshive.Http.{Response, ok, error, HttpError, http_error}
use meshive.Models.{User, UserActionToken, Database, UnicodeText, user_row}
use meshive.Auth.RateLimit.{Limiter, retry_after, record_failure, clear}
use meshive.Users.{normalize_email}
use meshive.SignIn.{
  Server, Settings, Hasher, Clock, minute, delete_user_action_tokens, same_password, wrong_password,
}

abbrev pub password_reset : String
password_reset = "password_reset"

abbrev pub email_verification : String
email_verification = "email_verification"

unfoldable pub issue_action_token :
    (String → String)
    → String
    → ℕ
    → User
    → String
    → ℕ
    → Option String
    → List UserActionToken
    → List UserActionToken
issue_action_token hash raw_token now u purpose lifetime email tokens =
    filter (λ k. not (k.user_id == u.id && k.purpose == purpose)) tokens
    ++ record {
      token_hash = hash raw_token;
      user_id = u.id;
      purpose = purpose;
      email = email;
      expires_at = now + lifetime;
    }
      ∷ []

unfoldable pub find_action_token :
    (String → String) → String → String → List UserActionToken → Option UserActionToken
find_action_token hash raw_token purpose =
    find (λ k. k.token_hash == hash raw_token && k.purpose == purpose)

-- `user.email_verified`
abbrev pub email_verified : User → Bool
email_verified u = is_some u.email_verified_at

unfoldable pub same_email : String → Option String → Bool
same_email email none = false
same_email email (some other) = other == email

-- `get_user_by_recovery_identifier` of repositories/users.py: a verified address, or else a name.
unfoldable pub or_named : String → List User → Option User → Option User
or_named normalized users none = find (λ u. u.normalized_username == normalized) users
or_named normalized users (some u) = some u

unfoldable pub get_user_by_recovery_identifier : UnicodeText → String → List User → Option User
unfolding or_named same_email
get_user_by_recovery_identifier t identifier users =
    let normalized = t.casefold (t.strip identifier) in
    or_named normalized users
      (find (λ u. same_email normalized u.normalized_email && is_some u.email_verified_at) users)

abbrev pub not_configured : String → HttpError
not_configured detail = http_error 503 detail

abbrev pub too_many_requests : HttpError
too_many_requests = http_error 429 "Too many requests; try again later"

abbrev pub recovery_accepted : String
recovery_accepted = "If the account is eligible for password recovery, an email has been sent."

-- `Optional[str]` as a condition.
abbrev pub is_filled : Option String → Bool
is_filled none = false
is_filled (some s) = not (s == "")

abbrev pub is_eligible : User → Bool
is_eligible u = u.is_active && (email_verified u && is_filled u.email)

-- The message, and who is sent a link: the address is none where nobody is.
unfoldable pub reset_requested :
    (String → String) → Settings → ℕ → String → Option User → Database → Option User × Database
unfolding issue_action_token
reset_requested hash settings now raw_token none db = (none, db)
reset_requested hash settings now raw_token (some u) db =
    if is_eligible u
    then (
      some u,
      record db {
        action_tokens =
            issue_action_token hash raw_token now u password_reset
              (settings.password_reset_lifetime_minutes * minute) none db.action_tokens;
      },
    )
    else (none, db)

unfoldable pub expired_removed : ℕ → Database → Database
expired_removed now db = record db {
  action_tokens = filter (λ k. not (leb k.expires_at now)) db.action_tokens;
}

unfoldable pub request_unless :
    UnicodeText
    → (String → String)
    → Settings
    → Clock
    → String
    → String
    → String
    → Option ℕ
    → Server
    → Response String × Option User × Server
unfolding reset_requested expired_removed
request_unless t hash settings clock key raw_token identifier (some wait) s =
    (error too_many_requests, none, s)
request_unless t hash settings clock key raw_token identifier none s =
    let db = expired_removed clock.now s.db in
    let (recipient, db') =
      reset_requested hash settings clock.now raw_token
        (get_user_by_recovery_identifier t identifier db.users) db in
    (
      ok recovery_accepted,
      recipient,
      record s {
        db = db';
        recoveries =
            record_failure key settings.auth_rate_limit_window_seconds clock.recorded s.recoveries;
      },
    )

-- `key` is the limiter's key of an identifier, `password-reset:<identifier>`.
unfoldable pub request_password_reset :
    UnicodeText
    → (String → String)
    → Settings
    → Clock
    → (String → String)
    → String
    → String
    → Server
    → Response String × Option User × Server
unfolding request_unless
request_password_reset t hash settings clock key raw_token identifier s =
    if settings.email_delivery_enabled
    then (let rate_key = key (t.casefold identifier) in
        let (wait, recoveries) =
          retry_after rate_key settings.auth_rate_limit_attempts
            settings.auth_rate_limit_window_seconds clock.asked s.recoveries in
        request_unless t hash settings clock rate_key raw_token identifier wait
          (record s { recoveries = recoveries }))
    else (error (not_configured "Password recovery email is not configured"), none, s)

abbrev pub invalid_token : HttpError
invalid_token = http_error 400 "The link is invalid or has expired"

without_token : UserActionToken → List UserActionToken → List UserActionToken
without_token k = filter (λ x. not (x.token_hash == k.token_hash))

unfoldable pub refused : UserActionToken → Database → Response User × Database
unfolding without_token
refused k db = (error invalid_token, record db { action_tokens = without_token k db.action_tokens })

-- A token goes with its user, so that its user is there.
unfoldable pub reset_found :
    Hasher → ℕ → String → UserActionToken → Option User → Database → Response User × Database
unfolding refused
reset_found h now new_password k none db = refused k db
reset_found h now new_password k (some u) db =
    if leb k.expires_at now || not u.is_active
    then refused k db
    else if h.verify_password new_password u.password_hash
    then (error same_password, db)
    else let v = record u {
      password_hash = h.hash_password new_password;
      must_change_password = false;
    } in
      (
        ok v,
        record db {
          users = put v db.users;
          sessions = filter (λ s. not (s.user_id == u.id)) db.sessions;
          action_tokens = delete_user_action_tokens u.id db.action_tokens;
        },
      )

unfoldable pub reset_of :
    Hasher → ℕ → String → Option UserActionToken → Database → Response User × Database
unfolding reset_found
reset_of h now new_password none db = (error invalid_token, db)
reset_of h now new_password (some k) db =
    reset_found h now new_password k (get k.user_id db.users) db

unfoldable pub reset_password :
    Hasher → (String → String) → ℕ → String → String → Database → Response User × Database
unfolding reset_of
reset_password h hash now raw_token new_password db =
    reset_of h now new_password (find_action_token hash raw_token password_reset db.action_tokens)
      db

-- `not record.email or not record.user.email or record.email != record.user.email`
abbrev pub same_address : Option String → Option String → Bool
same_address (some a) (some b) = not (a == "") && (not (b == "") && a == b)
same_address _ _ = false

unfoldable pub verify_found :
    ℕ → UserActionToken → Option User → Database → Response User × Database
unfolding refused
verify_found now k none db = refused k db
verify_found now k (some u) db =
    if leb k.expires_at now || (not u.is_active || not (same_address k.email u.email))
    then refused k db
    else let v = record u { email_verified_at = some now } in
      (
        ok v,
        record db {
          users = put v db.users;
          action_tokens =
              filter (λ x. not (x.user_id == u.id && x.purpose == email_verification))
                db.action_tokens;
        },
      )

unfoldable pub verify_of : ℕ → Option UserActionToken → Database → Response User × Database
unfolding verify_found
verify_of now none db = (error invalid_token, db)
verify_of now (some k) db = verify_found now k (get k.user_id db.users) db

unfoldable pub verify_recovery_email :
    (String → String) → ℕ → String → Database → Response User × Database
unfolding verify_of
verify_recovery_email hash now raw_token db =
    verify_of now (find_action_token hash raw_token email_verification db.action_tokens) db
