-- ===== src/Users/Runs.antt =====
-- api/users.py and api/roles.py: what holds after any requests to manage accounts and roles.
use mathlib.Core.Path.{subst}
use meshive.Prelude.{
  ℕ, ◌≤◌, String, ◌≡◌, refl, sym, false, some, List, [], ◌∷◌, ◌++◌, arith, count-append, nat_eq,
  get, put, delete, HasKeys, key-get, get-put, get-delete, get-append, append-HasKeys, put-HasKeys,
  delete-HasKeys,
}
use meshive.Http.{Response, ok, error, found-inv, bind-inv, require-inv, ok-injective}
use meshive.Models.{Role, User, Database, UnicodeText, role_row, user_row}
use meshive.Roles.{RoleWrite, create_role, update_role, delete_role}
use meshive.Users.{
  UserUpdate, UserCreate, count_active_system_superusers, update_user, delete_user, create_user,
  apply_access,
}
use meshive.Users.Outcome.{update_user-IsUpdate, delete_user-IsDelete, not-eq-true}
use meshive.Users.Superusers.{
  IsKeyed, KeepsSuper, Extends-KeepsSuper, superusers_kept, resolve_role-laws,
  update_user-keeps_superuser, delete_user-keeps_superuser,
}

pub data Request : Type 0 where
  create_account : UserCreate → Request
  update_account : ℕ → UserUpdate → Request
  delete_account : ℕ → Request
  create_role_of : RoleWrite → Request
  update_role_of : ℕ → RoleWrite → Request
  delete_role_of : ℕ → Request

-- The database after a request: what was committed, or as it was.
abbrev pub committed : {A : Type 0} → Response (A × Database) → Database → Database
committed (ok (a, db')) db = db'
committed (error e) db = db

unfoldable pub handle : UnicodeText → (String → String) → User → Request → Database → Database
handle t hash_password actor (create_account payload) db =
    committed (create_user t hash_password payload actor db) db
handle t hash_password actor (update_account i payload) db =
    committed (update_user t hash_password i payload actor db) db
handle t hash_password actor (delete_account i) db = committed (delete_user i actor db) db
handle t hash_password actor (create_role_of payload) db =
    committed (create_role t payload actor db) db
handle t hash_password actor (update_role_of i payload) db =
    committed (update_role t i payload actor db) db
handle t hash_password actor (delete_role_of i) db = committed (delete_role i actor db) db

-- Each request is made by some user.
unfoldable pub run : UnicodeText → (String → String) → List (User × Request) → Database → Database
unfolding handle
run t hash_password [] db = db
run t hash_password ((actor, r) ∷ requests) db =
    run t hash_password requests (handle t hash_password actor r db)

pub record IsSafe (db : Database) : Type 0 where
  pub keys : IsKeyed db
  pub superuser : 1 ≤ count_active_system_superusers db

committed-IsSafe :
    {A : Type 0} (r : Response (A × Database)) (db : Database)
    → IsSafe db
    → ((a : A) (db' : Database) → r ≡ ok (a, db') → IsSafe db')
    → IsSafe (committed r db)
committed-IsSafe (ok (a, db')) db s f = f a db' refl
committed-IsSafe (error e) db s f = s

-- The roles change and no account is taken away.
roles-IsSafe :
    (db db' : Database)
    → IsSafe db
    → db'.users ≡ db.users
    → HasKeys db'.roles
    → KeepsSuper db.roles db'.roles
    → IsSafe db'
unfolding count_active_system_superusers
roles-IsSafe db db' s u k keep = record {
  keys = record { users = subst HasKeys (sym u) s.keys.users; roles = k };
  superuser = rw u (omega (arith, superusers_kept db.roles db'.roles db.users keep, s.superuser));
}

module _ (roles : List Role) where
  append-KeepsSuper : (r : Role) → KeepsSuper roles (roles ++ r ∷ [])
  append-KeepsSuper r i h = ground (arith, get-append i roles r)

  put-KeepsSuper :
      (old new : Role)
      → get new.id roles ≡ some old
      → old.is_system ≡ false
      → KeepsSuper roles (put new roles)
  put-KeepsSuper old new e plain i h = ground (arith, get-put i new roles)

  delete-KeepsSuper :
      (old : Role) (j : ℕ)
      → get j roles ≡ some old
      → old.is_system ≡ false
      → KeepsSuper roles (delete j roles)
  delete-KeepsSuper old j e plain i h = ground (arith, get-delete j i roles)

create_user-IsSafe :
    (t : UnicodeText) (hash_password : String → String) (payload : UserCreate) (actor : User)
    (db : Database) (u : User) (db' : Database)
    → IsSafe db
    → create_user t hash_password payload actor db ≡ ok (u, db')
    → IsSafe db'
unfolding create_user apply_access count_active_system_superusers
create_user-IsSafe t hash_password payload actor db u db' s h = bind-inv _ _ h λ p resolved h₁.
    bind-inv _ _ h₁ λ ids granted h₂. require-inv _ _ _ h₂ λ unique h₃.
      let laws = resolve_role-laws t payload.role db.roles s.keys.roles resolved in
      let more = superusers_kept db.roles p.1 db.users (Extends-KeepsSuper db.roles p.1 laws.1) in
      subst (λ (q : User × Database). IsSafe q.1) (ok-injective h₃)
        (record {
          keys = record { users = append-HasKeys db.users _ refl s.keys.users; roles = laws.2 };
          superuser = rw count-append (omega (arith, more, s.superuser));
        })

update_user-IsSafe :
    (t : UnicodeText) (hash_password : String → String) (user_id : ℕ) (payload : UserUpdate)
    (actor : User) (db : Database) (v : User) (db' : Database)
    → IsSafe db
    → update_user t hash_password user_id payload actor db ≡ ok (v, db')
    → IsSafe db'
update_user-IsSafe t hash_password user_id payload actor db v db' s h =
    let w = update_user-IsUpdate t hash_password user_id payload actor db v db' h in
    record {
      keys = record {
        users = subst HasKeys (sym w.users) (put-HasKeys v db.users s.keys.users);
        roles = (resolve_role-laws t payload.role db.roles s.keys.roles w.resolved).2;
      };
      superuser =
          update_user-keeps_superuser t hash_password user_id payload actor db v db' s.keys
            s.superuser h;
    }

delete_user-IsSafe :
    (user_id : ℕ) (actor : User) (db : Database) (u : User) (db' : Database)
    → IsSafe db
    → delete_user user_id actor db ≡ ok (u, db')
    → IsSafe db'
delete_user-IsSafe user_id actor db u db' s h =
    let w = delete_user-IsDelete user_id actor db u db' h in
    record {
      keys = record {
        users = subst HasKeys (sym w.users) (delete-HasKeys u.id db.users s.keys.users);
        roles = subst HasKeys (sym w.roles) s.keys.roles;
      };
      superuser = delete_user-keeps_superuser user_id actor db u db' s.keys s.superuser h;
    }

create_role-IsSafe :
    (t : UnicodeText) (payload : RoleWrite) (actor : User) (db : Database) (r : Role)
    (db' : Database)
    → IsSafe db
    → create_role t payload actor db ≡ ok (r, db')
    → IsSafe db'
unfolding create_role
create_role-IsSafe t payload actor db r db' s h = require-inv _ _ _ h λ known h₁.
    require-inv _ _ _ h₁ λ unique h₂.
      subst (λ (q : Role × Database). IsSafe q.1) (ok-injective h₂)
        (roles-IsSafe db _ s refl (append-HasKeys db.roles _ refl s.keys.roles)
          (append-KeepsSuper db.roles _))

update_role-IsSafe :
    (t : UnicodeText) (role_id : ℕ) (payload : RoleWrite) (actor : User) (db : Database) (r : Role)
    (db' : Database)
    → IsSafe db
    → update_role t role_id payload actor db ≡ ok (r, db')
    → IsSafe db'
unfolding update_role
update_role-IsSafe t role_id payload actor db r db' s h = found-inv _ _ _ h λ old was h₁.
    require-inv _ _ _ h₁ λ plain h₂. require-inv _ _ _ h₂ λ known h₃.
      require-inv _ _ _ h₃ λ unique h₄.
        subst (λ (q : Role × Database). IsSafe q.1) (ok-injective h₄)
          (roles-IsSafe db _ s refl (put-HasKeys _ db.roles s.keys.roles) (
            put-KeepsSuper db.roles old _
              (subst (λ k. get k db.roles ≡ some old) (sym (key-get role_id db.roles old was)) was)
              (not-eq-true plain)))

delete_role-IsSafe :
    (role_id : ℕ) (actor : User) (db : Database) (r : Role) (db' : Database)
    → IsSafe db
    → delete_role role_id actor db ≡ ok (r, db')
    → IsSafe db'
unfolding delete_role
delete_role-IsSafe role_id actor db r db' s h = found-inv _ _ _ h λ old was h₁.
    require-inv _ _ _ h₁ λ plain h₂. require-inv _ _ _ h₂ λ unused h₃.
      subst (λ (q : Role × Database). IsSafe q.1) (ok-injective h₃)
        (roles-IsSafe db _ s refl (delete-HasKeys old.id db.roles s.keys.roles) (
          delete-KeepsSuper db.roles old old.id
            (subst (λ k. get k db.roles ≡ some old) (sym (key-get role_id db.roles old was)) was)
            (not-eq-true plain)))

module _ (t : UnicodeText) (hash_password : String → String) where
  handle-IsSafe :
      (actor : User) (r : Request) (db : Database)
      → IsSafe db
      → IsSafe (handle t hash_password actor r db)
  unfolding handle
  handle-IsSafe actor (create_account payload) db s =
      committed-IsSafe _ db s λ a db'. create_user-IsSafe t hash_password payload actor db a db' s
  handle-IsSafe actor (update_account i payload) db s =
      committed-IsSafe _ db s λ a db'. update_user-IsSafe t hash_password i payload actor db a db' s
  handle-IsSafe actor (delete_account i) db s =
      committed-IsSafe _ db s λ a db'. delete_user-IsSafe i actor db a db' s
  handle-IsSafe actor (create_role_of payload) db s =
      committed-IsSafe _ db s λ a db'. create_role-IsSafe t payload actor db a db' s
  handle-IsSafe actor (update_role_of i payload) db s =
      committed-IsSafe _ db s λ a db'. update_role-IsSafe t i payload actor db a db' s
  handle-IsSafe actor (delete_role_of i) db s =
      committed-IsSafe _ db s λ a db'. delete_role-IsSafe i actor db a db' s

-- After any requests to create, change and delete accounts and roles, by any users and failing or
-- not, there is an active system superuser, if there was one before and the tables have keys.
pub run_keeps_superuser :
    (t : UnicodeText) (hash_password : String → String) (requests : List (User × Request))
    (db : Database)
    → IsSafe db
    → IsSafe (run t hash_password requests db)
unfolding run
run_keeps_superuser t hash_password [] db s = s
run_keeps_superuser t hash_password ((actor, r) ∷ requests) db s =
    run_keeps_superuser t hash_password requests _ (handle-IsSafe t hash_password actor r db s)
