-- ===== src/ShareLinks.antt =====
-- backend/meshive/api/catalogue_share_links.py and auth/catalogue_share_links.py: links that show the
-- catalogue as their owner sees it, without signing in. The limiters live in the process beside the
-- database. `has_prefix` says whether a token starts as those of links do, and `key` is `str` of an id.
pub mod Owners
pub mod Opened
pub mod Tests
use meshive.Prelude.{
  ℕ, ◌+◌, ◌*◌, String, Bool, true, false, not, ◌&&◌, ◌||◌, Option, none, some, List, [], ◌∷◌, ◌++◌,
  if◌then◌else◌, leb, contains, find, ◌==◌, string_eq, nat_eq, Row, get, put, delete, next_id,
}
use meshive.Http.{Response, ok, error, HttpError, http_error}
use meshive.Models.{User, AuditEvent, Database, user_row}
use meshive.Auth.RateLimit.{Limiter, retry_after, record_failure, clear, check_and_record}
use meshive.Auth.Permissions.{catalogue_view, catalogue_share_links_manage_own}
use meshive.Auth.Access.{get_access_context, permission_denied}
use meshive.SignIn.{Settings, Hasher, Clock, minute}

-- `CatalogueShareLink` of models/catalogue_share_link.py
pub record CatalogueShareLink : Type 0 where
  pub id : ℕ
  pub user_id : ℕ
  pub name : String
  pub token_hash : String
  pub token_prefix : String
  pub expires_at : ℕ
  pub last_used_at : Option ℕ

instance abbrev pub share_link_row : Row CatalogueShareLink
share_link_row = record { key = λ l. l.id }

-- `catalogue_share_link_limiter` and `recovery_limiter` of auth/rate_limit.py.
pub record Shares : Type 0 where
  pub db : Database
  pub share_links : List CatalogueShareLink
  pub requests : Limiter
  pub recoveries : Limiter

abbrev pub has_permission : String → User → Shares → Bool
has_permission permission_key u s =
    contains (get_access_context s.db.roles u).permission_keys permission_key

-- `CatalogueShareLinkCreate` of schemas
pub record CatalogueShareLinkCreate : Type 0 where
  pub name : String
  pub current_password : String
  pub expires_in_seconds : ℕ

abbrev event : String → User → CatalogueShareLink → AuditEvent
event action u l = record {
  actor_id = u.id;
  action = action;
  target_type = "catalogue_share_link";
  target_label = l.name;
  target_id = some l.id;
}

abbrev pub too_many_requests : HttpError
too_many_requests = http_error 429 "Too Many Requests"

-- A second, in the microseconds of an instant.
abbrev pub one_second : ℕ
one_second = 1000000

-- `token` is the random token, and `display` its shown beginning.
abbrev pub new_link :
    (String → String)
    → (String → String)
    → ℕ
    → String
    → CatalogueShareLinkCreate
    → User
    → Shares
    → CatalogueShareLink
new_link hash display now token payload u s = record {
  id = next_id s.share_links;
  user_id = u.id;
  name = payload.name;
  token_hash = hash token;
  token_prefix = display token;
  expires_at = now + payload.expires_in_seconds * one_second;
  last_used_at = none;
}

unfoldable pub create_unless :
    Hasher
    → (String → String)
    → (String → String)
    → Settings
    → Clock
    → String
    → String
    → CatalogueShareLinkCreate
    → User
    → Option ℕ
    → Shares
    → Response CatalogueShareLink × Shares
create_unless h hash display settings clock rate_key token payload u (some wait) s =
    (error too_many_requests, s)
create_unless h hash display settings clock rate_key token payload u none s =
    if h.verify_password payload.current_password u.password_hash
    then (let l = new_link hash display clock.now token payload u s in
        (
          ok l,
          record s {
            recoveries = clear rate_key s.recoveries;
            share_links = s.share_links ++ l ∷ [];
            db = record s.db {
              audit = s.db.audit ++ event "catalogue_share_link.created" u l ∷ [];
            };
          },
        ))
    else (
      error (http_error 400 "Current password is incorrect"),
      record s {
        recoveries =
            record_failure rate_key settings.auth_rate_limit_window_seconds clock.recorded
              s.recoveries;
      },
    )

-- `rate_key` is `catalogue-share-link-password:<id>`.
unfoldable pub create_catalogue_share_link :
    Hasher
    → (String → String)
    → (String → String)
    → Settings
    → Clock
    → String
    → String
    → CatalogueShareLinkCreate
    → User
    → Shares
    → Response CatalogueShareLink × Shares
unfolding create_unless
create_catalogue_share_link h hash display settings clock rate_key token payload u s =
    if has_permission catalogue_share_links_manage_own u s
    then (let (wait, recoveries) =
          retry_after rate_key settings.auth_rate_limit_attempts
            settings.auth_rate_limit_window_seconds clock.asked s.recoveries in
        create_unless h hash display settings clock rate_key token payload u wait
          (record s { recoveries = recoveries }))
    else (error permission_denied, s)

abbrev pub share_link_not_found : HttpError
share_link_not_found = http_error 404 "Catalogue share link not found"

unfoldable pub revoke_found :
    User → Option CatalogueShareLink → Shares → Response CatalogueShareLink × Shares
revoke_found u none s = (error share_link_not_found, s)
revoke_found u (some l) s = (
  ok l,
  record s {
    share_links = delete l.id s.share_links;
    db = record s.db { audit = s.db.audit ++ event "catalogue_share_link.revoked" u l ∷ [] };
  },
)

unfoldable pub revoke_catalogue_share_link :
    ℕ → User → Shares → Response CatalogueShareLink × Shares
unfolding revoke_found
revoke_catalogue_share_link link_id u s =
    if has_permission catalogue_share_links_manage_own u s
    then revoke_found u (find (λ l. l.id == link_id && l.user_id == u.id) s.share_links) s
    else (error permission_denied, s)

-- Used at most every fifteen minutes, when the database takes the write.
abbrev is_stale : ℕ → Option ℕ → Bool
is_stale now none = true
is_stale now (some used) = leb (used + 15 * minute) now

abbrev pub stamped : ℕ → Bool → CatalogueShareLink → CatalogueShareLink
stamped now commits l =
    if is_stale now l.last_used_at && commits then record l { last_used_at = some now } else l

unfoldable pub share_unless :
    ℕ
    → Bool
    → CatalogueShareLink
    → User
    → Option ℕ
    → Shares
    → Response (CatalogueShareLink × User) × Shares
share_unless now commits l owner (some wait) s = (error too_many_requests, s)
share_unless now commits l owner none s = (
  ok (stamped now commits l, owner),
  record s { share_links = put (stamped now commits l) s.share_links },
)

unfoldable pub share_owned :
    (ℕ → String)
    → Clock
    → Bool
    → CatalogueShareLink
    → Option User
    → Shares
    → Response (CatalogueShareLink × User) × Shares
unfolding share_unless
share_owned key clock commits l none s = (error share_link_not_found, s)
share_owned key clock commits l (some owner) s =
    if not owner.is_active || owner.must_change_password
    then (error share_link_not_found, s)
    else if has_permission catalogue_view owner s
    then (let (wait, requests) =
          check_and_record (key l.id) 120 60 clock.asked clock.recorded s.requests in
        share_unless clock.now commits l owner wait (record s { requests = requests }))
    else (error permission_denied, s)

unfoldable pub share_found :
    (ℕ → String)
    → Clock
    → Bool
    → Option CatalogueShareLink
    → Shares
    → Response (CatalogueShareLink × User) × Shares
unfolding share_owned
share_found key clock commits none s = (error share_link_not_found, s)
share_found key clock commits (some l) s =
    if leb l.expires_at clock.now
    then (error share_link_not_found, s)
    else share_owned key clock commits l (get l.user_id s.db.users) s

unfoldable pub share_owner :
    (String → String)
    → (String → Bool)
    → (ℕ → String)
    → Clock
    → Bool
    → String
    → Shares
    → Response (CatalogueShareLink × User) × Shares
unfolding share_found
share_owner hash has_prefix key clock commits token s =
    if has_prefix token
    then share_found key clock commits (find (λ l. l.token_hash == hash token) s.share_links) s
    else (error share_link_not_found, s)
