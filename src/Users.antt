-- ===== src/Users.antt =====
-- backend/meshive/api/users.py and repositories/users.py: the accounts. A handler gives the row
-- that it returns and the database that it commits, or the error that it raises.
pub mod Outcome
pub mod Superusers
pub mod Runs
pub mod Grants
pub mod Tests
use meshive.Prelude.{
  ℕ, suc, ◌+◌, ◌≤◌, String, Bool, true, false, not, ◌&&◌, ◌||◌, Option, none, some, List, [], ◌∷◌,
  ◌++◌, map, if◌then◌else◌, leb, ltb, is_some, filter, all, any, find, count, contains, ◌==◌,
  string_eq, nat_eq, Row, get, put, delete, next_id,
}
use meshive.Http.{Response, ok, error, http_error, require, found, ◌>>=◌, ◌>>◌}
use meshive.Models.{
  Role, User, LegacyRole, admin, user, LibrarySource, AuditEvent, Database, UnicodeText, role_row,
  user_row, source_row,
}
use meshive.Auth.Access.{role_definition}
use meshive.Roles.{get_system_role_for_legacy_role}

unfoldable pub normalize_username : UnicodeText → String → String
normalize_username t username = t.casefold (t.strip username)

unfoldable pub normalize_email : UnicodeText → String → String
normalize_email t email = t.casefold (t.strip email)

-- `role.is_system and role.is_superuser`
abbrev pub is_system_superuser : Option Role → Bool
is_system_superuser none = false
is_system_superuser (some role) = role.is_system && role.is_superuser

-- A row that `count_active_system_superusers` counts.
abbrev pub is_active_superuser : List Role → User → Bool
is_active_superuser roles u = u.is_active && is_system_superuser (role_definition roles u)

unfoldable pub count_active_system_superusers : Database → ℕ
count_active_system_superusers db = count (is_active_superuser db.roles) db.users

-- A payload names a role in one of two ways.
pub data RoleSelection : Type 0 where
  by_id : ℕ → RoleSelection
  by_legacy : LegacyRole → RoleSelection

-- `UserUpdate` of schemas/user.py
pub record UserUpdate : Type 0 where
  pub username : String
  pub email : Option String
  pub password : Option String
  pub role : RoleSelection
  pub all_sources : Bool
  pub source_ids : List ℕ
  pub is_active : Bool
  pub must_change_password : Bool

-- `UserCreate` of schemas/user.py
pub record UserCreate : Type 0 where
  pub username : String
  pub email : Option String
  pub password : String
  pub role : RoleSelection
  pub all_sources : Bool
  pub source_ids : List ℕ
  pub is_active : Bool
  pub must_change_password : Bool

unfoldable pub resolve_role : UnicodeText → RoleSelection → List Role → Response (Role × List Role)
resolve_role t (by_id i) roles = do
  role ← found (get i roles) (http_error 404 "Role not found")
  ok (role, roles)
resolve_role t (by_legacy legacy) roles = get_system_role_for_legacy_role t legacy roles

abbrev pub has_duplicates : List ℕ → Bool
has_duplicates [] = false
has_duplicates (i ∷ ids) = contains ids i || has_duplicates ids

unfoldable pub resolve_source_ids : List ℕ → List LibrarySource → Response (List ℕ)
resolve_source_ids source_ids sources = do
  require (not (has_duplicates source_ids)) (http_error 422 "Source IDs must be unique")
  require (all (λ i. is_some (get i sources)) source_ids) (http_error 404 "Source not found")
  ok source_ids

unfoldable pub apply_access : User → Role → Bool → List ℕ → User
apply_access u role all_sources source_ids =
    let effective_all_sources = all_sources || role.is_superuser in
    record u {
      role_id = some role.id;
      role = if role.is_superuser then admin else user;
      all_sources = effective_all_sources;
      library_source_grants = if effective_all_sources then [] else source_ids;
    }

abbrev pub same_text : Option String → Option String → Bool
same_text none none = true
same_text (some a) (some b) = a == b
same_text _ _ = false

abbrev clashes : Option String → Option String → Bool
clashes (some a) (some b) = a == b
clashes _ _ = false

-- `normalized_username` and `normalized_email` are unique; a missing email clashes with none.
abbrev pub is_taken : User → List User → Bool
is_taken u users =
    any
      (λ v.
        not (v.id == u.id)
        && (v.normalized_username == u.normalized_username
            || clashes v.normalized_email u.normalized_email))
      users

abbrev event : User → String → User → AuditEvent
event actor action u = record {
  actor_id = actor.id;
  action = action;
  target_type = "user";
  target_label = u.username;
  target_id = some u.id;
}

abbrev when : Bool → AuditEvent → List AuditEvent
when b e = if b then e ∷ [] else []

abbrev same_role : Option ℕ → Option ℕ → Bool
same_role none none = true
same_role (some a) (some b) = a == b
same_role _ _ = false

abbrev same_bool : Bool → Bool → Bool
same_bool true b = b
same_bool false b = not b

abbrev same_set : List ℕ → List ℕ → Bool
same_set xs ys = all (contains ys) xs && all (contains xs) ys

unfoldable pub create_user :
    UnicodeText → (String → String) → UserCreate → User → Database → Response (User × Database)
create_user t hash_password payload current_user db = do
  (role, roles) ← resolve_role t payload.role db.roles
  source_ids ← resolve_source_ids payload.source_ids db.sources
  let blank : User = record {
    id = next_id db.users;
    username = payload.username;
    normalized_username = normalize_username t payload.username;
    email = payload.email;
    normalized_email = elim payload.email [ none ↦ none | some e ↦ some (normalize_email t e) ];
    email_verified_at = none;
    password_hash = hash_password payload.password;
    role = user;
    role_id = none;
    all_sources = false;
    is_active = payload.is_active;
    must_change_password = payload.must_change_password;
    library_source_grants = [];
  }
  let u = apply_access blank role payload.all_sources source_ids
  require (not (is_taken u db.users))
      (http_error 409 "This username or email address already exists")
  ok (
    u,
    record db {
      users = db.users ++ u ∷ [];
      roles = roles;
      audit = db.audit ++ event current_user "user.created" u ∷ [];
    },
  )

-- The user holds the last place of an active system superuser and would lose it.
removes_active_superuser : List Role → User → Role → Bool → Bool
removes_active_superuser roles u role stays_active =
    is_active_superuser roles u && (not role.is_system || not role.is_superuser || not stays_active)

-- The row after the assignments of `update_user`.
unfoldable pub updated : UnicodeText → (String → String) → UserUpdate → Role → List ℕ → User → User
updated t hash_password payload role source_ids u =
    let normalized_email : Option String = elim payload.email [
      | none ↦ none
      | some e ↦ some (normalize_email t e)
    ] in
    let named : User = record u {
      username = payload.username;
      normalized_username = normalize_username t payload.username;
      email = payload.email;
      normalized_email = normalized_email;
      email_verified_at =
          if same_text normalized_email u.normalized_email then u.email_verified_at else none;
    } in
    let placed = apply_access named role payload.all_sources source_ids in
    record placed {
      is_active = payload.is_active;
      must_change_password = payload.must_change_password;
      password_hash = elim payload.password [ none ↦ u.password_hash | some p ↦ hash_password p ];
    }

-- Another user's sessions end when the password is set or the account is disabled.
unfoldable pub ends_sessions : UserUpdate → User → User → Bool
ends_sessions payload u current_user =
    not (u.id == current_user.id) && (is_some payload.password || not payload.is_active)

-- A new email address or a new password drops the user's action tokens.
unfoldable pub drops_action_tokens : User → User → UserUpdate → Bool
drops_action_tokens u v payload =
    not (same_text v.normalized_email u.normalized_email) || is_some payload.password

update_events : User → User → User → UserUpdate → List ℕ → List AuditEvent
update_events actor u v payload source_ids =
    when (not (u.username == v.username) || not (same_bool (is_some u.email) (is_some v.email)))
      (event actor "user.updated" v)
    ++ (when (not (same_role u.role_id v.role_id)) (event actor "user.role_changed" v)
        ++ (when
              (not (same_bool u.all_sources v.all_sources)
                || not (same_set u.library_source_grants source_ids))
              (event actor "user.source_access_changed" v)
            ++ (when (not (same_bool u.is_active v.is_active)) (event actor "user.status_changed" v)
                ++ (when (is_some payload.password) (event actor "user.password_changed" v)
                    ++ when (not (same_bool u.must_change_password v.must_change_password))
                        (event actor "user.require_password_change_changed" v)))))

unfoldable pub update_user :
    UnicodeText → (String → String) → ℕ → UserUpdate → User → Database → Response (User × Database)
unfolding update_events removes_active_superuser
update_user t hash_password user_id payload current_user db = do
  u ← found (get user_id db.users) (http_error 404 "User not found")
  (role, roles) ← resolve_role t payload.role db.roles
  source_ids ← resolve_source_ids payload.source_ids db.sources
  require
      (not (
        removes_active_superuser roles u role payload.is_active
        && leb (count (is_active_superuser roles) db.users) 1))
      (http_error 409 "The last active administrator cannot be disabled or demoted")
  require (not (u.id == current_user.id && not payload.is_active))
      (http_error 409 "You cannot disable your own account")
  let v = updated t hash_password payload role source_ids u
  require (not (is_taken v db.users))
      (http_error 409 "This username or email address already exists")
  ok (
    v,
    record db {
      users = put v db.users;
      roles = roles;
      sessions =
          if ends_sessions payload u current_user
          then filter (λ s. not (s.user_id == u.id)) db.sessions
          else db.sessions;
      action_tokens =
          if drops_action_tokens u v payload
          then filter (λ k. not (k.user_id == u.id)) db.action_tokens
          else db.action_tokens;
      audit = db.audit ++ update_events current_user u v payload source_ids;
    },
  )

-- The foreign keys of sessions and tokens cascade.
unfoldable pub delete_user : ℕ → User → Database → Response (User × Database)
delete_user user_id current_user db = do
  u ← found (get user_id db.users) (http_error 404 "User not found")
  require (not (u.id == current_user.id)) (http_error 409 "You cannot delete your own account")
  require
      (not
        (is_active_superuser db.roles u && leb (count (is_active_superuser db.roles) db.users) 1))
      (http_error 409 "The last active administrator cannot be deleted")
  ok (
    u,
    record db {
      users = delete u.id db.users;
      sessions = filter (λ s. not (s.user_id == u.id)) db.sessions;
      api_tokens = filter (λ k. not (k.user_id == u.id)) db.api_tokens;
      action_tokens = filter (λ k. not (k.user_id == u.id)) db.action_tokens;
      audit = db.audit ++ event current_user "user.deleted" u ∷ [];
    },
  )
