-- ===== src/Users/Outcome.antt =====
-- api/users.py: what a request that succeeded has passed, and what it has written.
use meshive.Prelude.{
  ℕ, String, ◌≡◌, refl, Bool, true, false, not, ◌&&◌, ◌||◌, some, List, leb, if◌then◌else◌, filter,
  count, ◌==◌, nat_eq, get, put, delete,
}
use mathlib.Core.Path.{subst}
use meshive.Http.{ok, ok-injective, bind-inv, require-inv, found-inv}
use meshive.Models.{Role, User, Database, UnicodeText, role_row, user_row}
use meshive.Users.{
  UserUpdate, is_active_superuser, resolve_role, resolve_source_ids, updated, ends_sessions,
  drops_action_tokens, is_taken, update_user, delete_user,
}

-- A call of `update_user` that returned `v` and committed `db'`.
pub record IsUpdate (t : UnicodeText) (hash_password : String → String) (user_id : ℕ)
    (payload : UserUpdate) (current_user : User) (db : Database) (v : User) (db' : Database)
    : Type 0 where
  pub u : User
  pub role : Role
  pub source_ids : List ℕ
  pub was : get user_id db.users ≡ some u
  pub resolved : resolve_role t payload.role db.roles ≡ ok (role, db'.roles)
  pub granted : resolve_source_ids payload.source_ids db.sources ≡ ok source_ids
  pub guarded :
      (is_active_superuser db'.roles u
        && (not role.is_system || not role.is_superuser || not payload.is_active)
        && leb (count (is_active_superuser db'.roles) db.users) 1)
      ≡ false
  pub not_self : (u.id == current_user.id && not payload.is_active) ≡ false
  pub unique : is_taken v db.users ≡ false
  pub becomes : v ≡ updated t hash_password payload role source_ids u
  pub users : db'.users ≡ put v db.users
  pub sessions : db'.sessions ≡ (
      if ends_sessions payload u current_user
      then filter (λ s. not (s.user_id == u.id)) db.sessions
      else db.sessions)
  pub action_tokens : db'.action_tokens ≡ (
      if drops_action_tokens u v payload
      then filter (λ k. not (k.user_id == u.id)) db.action_tokens
      else db.action_tokens)

pub not-eq-true : {b : Bool} → not b ≡ true → b ≡ false
not-eq-true {b = true} h = cc
not-eq-true {b = false} h = refl

module _ (t : UnicodeText) (hash_password : String → String) (user_id : ℕ) (payload : UserUpdate)
    (current_user : User) (db : Database) where
  pub update_user-IsUpdate :
      (v : User) (db' : Database)
      → update_user t hash_password user_id payload current_user db ≡ ok (v, db')
      → IsUpdate t hash_password user_id payload current_user db v db'
  unfolding update_user
  update_user-IsUpdate v db' h = found-inv _ _ _ h λ u was h₁. bind-inv _ _ h₁ λ p resolved h₂.
      bind-inv _ _ h₂ λ source_ids granted h₃. require-inv _ _ _ h₃ λ guarded h₄.
        require-inv _ _ _ h₄ λ not_self h₅. require-inv _ _ _ h₅ λ unique h₆.
          subst
            (λ (q : User × Database).
              IsUpdate t hash_password user_id payload current_user db q.0 q.1)
            (ok-injective h₆)
            (record {
              u = u;
              role = p.0;
              source_ids = source_ids;
              was = was;
              resolved = resolved;
              granted = granted;
              guarded = not-eq-true guarded;
              not_self = not-eq-true not_self;
              unique = not-eq-true unique;
              becomes = refl;
              users = refl;
              sessions = refl;
              action_tokens = refl;
            })

-- A call of `delete_user` that returned `u` and committed `db'`.
pub record IsDelete (user_id : ℕ) (current_user : User) (db : Database) (u : User) (db' : Database)
    : Type 0 where
  pub was : get user_id db.users ≡ some u
  pub not_self : (u.id == current_user.id) ≡ false
  pub guarded :
      (is_active_superuser db.roles u && leb (count (is_active_superuser db.roles) db.users) 1)
      ≡ false
  pub users : db'.users ≡ delete u.id db.users
  pub roles : db'.roles ≡ db.roles
  pub sessions : db'.sessions ≡ filter (λ s. not (s.user_id == u.id)) db.sessions

pub delete_user-IsDelete :
    (user_id : ℕ) (current_user : User) (db : Database) (u : User) (db' : Database)
    → delete_user user_id current_user db ≡ ok (u, db')
    → IsDelete user_id current_user db u db'
unfolding delete_user
delete_user-IsDelete user_id current_user db u db' h = found-inv _ _ _ h λ u' was h₁.
    require-inv _ _ _ h₁ λ not_self h₂. require-inv _ _ _ h₂ λ guarded h₃.
      subst (λ (q : User × Database). IsDelete user_id current_user db q.0 q.1) (ok-injective h₃)
        (record {
          was = was;
          not_self = not-eq-true not_self;
          guarded = not-eq-true guarded;
          users = refl;
          roles = refl;
          sessions = refl;
        })
