-- ===== src/Users/Tests.antt =====
-- api/users.py and api/roles.py at a small database.
use meshive.Prelude.{
  ℕ, String, ◌≡◌, refl, true, false, ◌||◌, none, some, [], ◌∷◌, arith, any, contains, ◌==◌, nat_eq,
  get, put,
}
use meshive.Http.{Response, ok, error, http_error, ◌>>=◌}
use meshive.Models.{
  Role, User, UserSession, Database, UnicodeText, role_row, user_row, source_row, admin, user,
}
use meshive.Auth.Access.{can_access_source, get_access_context}
use meshive.Users.{
  UserUpdate, by_id, count_active_system_superusers, normalize_username, normalize_email,
  resolve_role, resolve_source_ids, apply_access, updated, update_user, ends_sessions,
  drops_action_tokens,
}
use meshive.Users.Runs.{
  update_account, delete_account, delete_role_of, IsSafe, run, run_keeps_superuser,
}
use meshive.Users.Grants.{update_user_grants, update_user-ends_sessions}

abbrev ascii : UnicodeText
ascii = record { strip = λ s. s; casefold = λ s. s; nfkc = λ s. s }

abbrev plain : String → String
plain password = password

abbrev chief : Role
chief = record {
  id = 1;
  name = "Administrator";
  normalized_name = "Administrator";
  description = none;
  is_system = true;
  is_superuser = true;
  permissions = [];
}

abbrev guest : Role
guest = record {
  id = 2;
  name = "Guest";
  normalized_name = "Guest";
  description = none;
  is_system = false;
  is_superuser = false;
  permissions = "catalogue.view" ∷ [];
}

abbrev boss : User
boss = record {
  id = 1;
  username = "boss";
  normalized_username = "boss";
  email = some "b@x";
  normalized_email = some "b@x";
  email_verified_at = some 5;
  password_hash = "h";
  role = admin;
  role_id = some 1;
  all_sources = true;
  is_active = true;
  must_change_password = false;
  library_source_grants = [];
}

abbrev clerk : User
clerk = record {
  id = 2;
  username = "clerk";
  normalized_username = "clerk";
  email = some "c@x";
  normalized_email = some "c@x";
  email_verified_at = some 6;
  password_hash = "h";
  role = user;
  role_id = some 2;
  all_sources = false;
  is_active = true;
  must_change_password = false;
  library_source_grants = 8 ∷ [];
}

abbrev db : Database
db = record {
  users = boss ∷ clerk ∷ [];
  roles = chief ∷ guest ∷ [];
  sources =
      record {
        id = 7;
        name = "S";
        is_active = true;
        scan_enabled = true;
        auto_scan_enabled = false;
      }
      ∷ record {
        id = 8;
        name = "T";
        is_active = true;
        scan_enabled = true;
        auto_scan_enabled = false;
      }
      ∷ [];
  sessions =
      record { token_hash = "s1"; user_id = 1; expires_at = 9; last_used_at = 0 }
      ∷ record { token_hash = "s2"; user_id = 2; expires_at = 9; last_used_at = 0 }
      ∷ [];
  api_tokens = [];
  action_tokens =
      record {
        token_hash = "a2";
        user_id = 2;
        purpose = "password_reset";
        email = none;
        expires_at = 9;
      }
      ∷ [];
  audit = [];
}

abbrev move_clerk : UserUpdate
move_clerk = record {
  username = "clerk";
  email = some "d@x";
  password = some "a long password";
  role = by_id 2;
  all_sources = false;
  source_ids = 7 ∷ [];
  is_active = true;
  must_change_password = true;
}

abbrev demote_boss : UserUpdate
demote_boss = record {
  username = "boss";
  email = some "b@x";
  password = none;
  role = by_id 2;
  all_sources = false;
  source_ids = [];
  is_active = true;
  must_change_password = false;
}

abbrev outcome : Response (User × Database) → User × Database
outcome (ok p) = p
outcome (error e) = (boss, db)

abbrev moved : User × Database
moved = outcome (update_user ascii plain 2 move_clerk boss db)

move_clerk_is_ok : update_user ascii plain 2 move_clerk boss db ≡ ok (moved.0, moved.1)
unfolding update_user resolve_role resolve_source_ids updated apply_access normalize_username
    normalize_email get put ends_sessions drops_action_tokens ◌>>=◌
move_clerk_is_ok = refl

-- The last administrator cannot take its own role away.
demote_boss_is_refused :
    update_user ascii plain 1 demote_boss boss db
    ≡ error (http_error 409 "The last active administrator cannot be disabled or demoted")
unfolding update_user resolve_role resolve_source_ids get ◌>>=◌
demote_boss_is_refused = refl

db-IsSafe : IsSafe db
unfolding count_active_system_superusers get
db-IsSafe = record {
  keys = record { users = ((refl, tt), (tt, tt)); roles = ((refl, tt), (tt, tt)) };
  superuser = omega arith;
}

run_keeps_superuser_example : IsSafe (
    run ascii plain
      ((boss, update_account 2 move_clerk)
        ∷ (boss, update_account 1 demote_boss)
        ∷ (clerk, delete_account 1)
        ∷ (boss, delete_role_of 1)
        ∷ [])
      db)
run_keeps_superuser_example = run_keeps_superuser ascii plain _ db db-IsSafe

update_user_grants_example :
    (get 2 moved.1.users ≡ some moved.0)
    × (can_access_source (get_access_context moved.1.roles moved.0) 8
        ≡ (false || (false || contains {A = ℕ} (7 ∷ []) 8)))
unfolding update_user resolve_role resolve_source_ids updated apply_access normalize_username
    normalize_email get put ends_sessions drops_action_tokens ◌>>=◌
update_user_grants_example =
    update_user_grants ascii plain 2 move_clerk boss db moved.0 moved.1 guest 8
      ((refl, tt), (tt, tt)) move_clerk_is_ok refl

update_user-ends_sessions_example :
    any (λ (s : UserSession). s.user_id == moved.0.id) moved.1.sessions ≡ false
unfolding update_user resolve_role resolve_source_ids updated apply_access normalize_username
    normalize_email get put ends_sessions drops_action_tokens ◌>>=◌
update_user-ends_sessions_example =
    update_user-ends_sessions ascii plain 2 move_clerk boss db moved.0 moved.1 move_clerk_is_ok refl
      refl
