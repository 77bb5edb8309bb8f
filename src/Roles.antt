-- ===== src/Roles.antt =====
-- backend/meshive/repositories/roles.py and api/roles.py: the roles and what they grant. A handler
-- gives the row that it returns and the database that it commits, or the error that it raises.
pub mod Laws
pub mod Legacy
use meshive.Prelude.{
  ℕ, suc, ◌+◌, ◌≤◌, String, Bool, true, false, not, ◌&&◌, ◌||◌, Option, none, some, List, [], ◌∷◌,
  ◌++◌, map, if◌then◌else◌, leb, ltb, is_some, filter, all, any, find, count, contains, ◌==◌,
  string_eq, nat_eq, Row, get, put, delete, next_id,
}
use meshive.Http.{Response, ok, error, http_error, require, found, ◌>>=◌, ◌>>◌}
use meshive.Models.{
  Role, User, LegacyRole, admin, user, AuditEvent, Database, UnicodeText, role_row, user_row,
}
use meshive.Auth.Permissions.{all_permission_keys, SystemRoleDefinition, system_role_definitions}

-- auth/permissions.py
unfoldable pub normalize_role_name : UnicodeText → String → String
normalize_role_name t name = t.casefold (t.strip (t.nfkc name))

unfoldable pub system_role_name_for_legacy_role : LegacyRole → String
system_role_name_for_legacy_role admin = "Administrator"
system_role_name_for_legacy_role user = "Member"

abbrev pub role_named : String → List Role → Option Role
role_named normalized roles = find (λ r. r.normalized_name == normalized) roles

abbrev add_missing : List String → List String → List String
add_missing [] held = held
add_missing (key ∷ keys) held =
    add_missing keys (if contains held key then held else held ++ key ∷ [])

granted : ℕ → List String → Role → Role
granted role_id keys r =
    if r.id == role_id then record r { permissions = add_missing keys r.permissions } else r

abbrev grant : ℕ → List String → List Role → List Role
grant role_id keys = map (granted role_id keys)

ensure_found : UnicodeText → SystemRoleDefinition → Option Role → List Role → List Role
ensure_found t definition (some role) roles = grant role.id definition.permission_keys roles
ensure_found t definition none roles =
    roles
    ++ record {
      id = next_id roles;
      name = definition.name;
      normalized_name = normalize_role_name t definition.name;
      description = some definition.description;
      is_system = true;
      is_superuser = definition.is_superuser;
      permissions = add_missing definition.permission_keys [];
    }
      ∷ []

-- The loop of `ensure_system_roles`; `existing` is the rows that were read before it.
ensure_all : UnicodeText → List Role → List SystemRoleDefinition → List Role → List Role
unfolding ensure_found granted
ensure_all t existing [] roles = roles
ensure_all t existing (definition ∷ definitions) roles =
    ensure_all t existing definitions (
      ensure_found t definition (role_named (normalize_role_name t definition.name) existing) roles)

unfoldable pub ensure_system_roles : UnicodeText → List Role → List Role
unfolding ensure_all
ensure_system_roles t roles = ensure_all t roles system_role_definitions roles

-- The role, and the roles with those that were missing.
unfoldable pub get_system_role_for_legacy_role :
    UnicodeText → LegacyRole → List Role → Response (Role × List Role)
get_system_role_for_legacy_role t legacy roles = do
  let ensured = ensure_system_roles t roles
  role ←
      found (role_named (normalize_role_name t (system_role_name_for_legacy_role legacy)) ensured)
        (http_error 500 "Required system role is missing")
  ok (role, ensured)

-- `RoleWrite` of schemas/user.py
pub record RoleWrite : Type 0 where
  pub name : String
  pub description : Option String
  pub permission_keys : List String

abbrev event : ℕ → String → Role → AuditEvent
event actor action role = record {
  actor_id = actor;
  action = action;
  target_type = "role";
  target_label = role.name;
  target_id = some role.id;
}

-- `roles.normalized_name` is unique.
abbrev name_taken : Role → List Role → Bool
name_taken role roles =
    any (λ r. not (r.id == role.id) && r.normalized_name == role.normalized_name) roles

unfoldable pub validate_permission_keys : List String → Response (Unit {0})
validate_permission_keys permission_keys =
    require (all (contains all_permission_keys) permission_keys)
      (http_error 422 "Unknown permission keys")

unfoldable pub create_role : UnicodeText → RoleWrite → User → Database → Response (Role × Database)
unfolding validate_permission_keys
create_role t payload current_user db = do
  validate_permission_keys payload.permission_keys
  let role : Role = record {
    id = next_id db.roles;
    name = payload.name;
    normalized_name = normalize_role_name t payload.name;
    description = payload.description;
    is_system = false;
    is_superuser = false;
    permissions = payload.permission_keys;
  }
  require (not (name_taken role db.roles)) (http_error 409 "A role with this name already exists")
  ok (
    role,
    record db {
      roles = db.roles ++ role ∷ [];
      audit = db.audit ++ event current_user.id "role.created" role ∷ [];
    },
  )

unfoldable pub update_role :
    UnicodeText → ℕ → RoleWrite → User → Database → Response (Role × Database)
unfolding validate_permission_keys
update_role t role_id payload current_user db = do
  role ← found (get role_id db.roles) (http_error 404 "Role not found")
  require (not role.is_system) (http_error 409 "System roles cannot be changed")
  validate_permission_keys payload.permission_keys
  let changed : Role = record role {
    name = payload.name;
    normalized_name = normalize_role_name t payload.name;
    description = payload.description;
    permissions = payload.permission_keys;
  }
  require (not (name_taken changed db.roles))
      (http_error 409 "A role with this name already exists")
  ok (
    changed,
    record db {
      roles = put changed db.roles;
      audit = db.audit ++ event current_user.id "role.updated" changed ∷ [];
    },
  )

abbrev has_role : ℕ → User → Bool
has_role role_id u = elim u.role_id [ none ↦ false | some i ↦ i == role_id ]

unfoldable pub delete_role : ℕ → User → Database → Response (Role × Database)
delete_role role_id current_user db = do
  role ← found (get role_id db.roles) (http_error 404 "Role not found")
  require (not role.is_system) (http_error 409 "System roles cannot be deleted")
  require (count (has_role role.id) db.users == 0) (http_error 409 "Role is assigned to users")
  ok (
    role,
    record db {
      roles = delete role.id db.roles;
      audit = db.audit ++ event current_user.id "role.deleted" role ∷ [];
    },
  )
