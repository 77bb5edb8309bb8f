-- ===== src/SignIn/Setup/Once.antt =====
-- `create_initial_admin` of backend/meshive/api/setup.py: who can make the first account, and how often.
use meshive.Prelude.{String, ◌≡◌, true, false, some, List, [], ◌∷◌, ◌++◌, nat_eq}
use meshive.Http.{ok}
use meshive.Models.{Role, User, admin, UnicodeText}
use meshive.Roles.{get_system_role_for_legacy_role}
use meshive.Users.{normalize_username}
use meshive.SignIn.{Server, Settings, Hasher, Clock, create_user_session}
use meshive.SignIn.Setup.{InitialAdminCreate, effective_setup_token}

-- What a setup that succeeded has been through.
pub record IsSetUp (h : Hasher) (t : UnicodeText) (hash : String → String) (settings : Settings)
    (clock : Clock) (raw_token : String) (payload : InitialAdminCreate) (s : Server) (u : User)
    (s' : Server) : Type 0 where
  pub role : Role
  pub roles : List Role
  pub token : effective_setup_token t settings ≡ some payload.setup_token
  pub nobody : s.db.users ≡ []
  pub resolved : get_system_role_for_legacy_role t admin s.db.roles ≡ ok (role, roles)
  pub called : u.normalized_username ≡ normalize_username t payload.username
  pub hashed : u.password_hash ≡ h.hash_password payload.password
  pub settled : u.must_change_password ≡ false
  pub active : u.is_active ≡ true
  pub administrator : (u.role ≡ admin) × (u.role_id ≡ some role.id)
  pub everywhere : u.all_sources ≡ true
  pub stored_roles : s'.db.roles ≡ roles
  pub users : s'.db.users ≡ u ∷ []
  pub sessions :
      s'.db.sessions ≡ s.db.sessions ++ create_user_session hash settings clock.now raw_token u ∷ []
