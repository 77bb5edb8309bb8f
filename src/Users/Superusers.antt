-- ===== src/Users/Superusers.antt =====
-- api/users.py: there is always an active system superuser.
use mathlib.Core.Path.{subst}
use mathlib.Core.Bool.{false≢true}
use meshive.Prelude.{
  ℕ, ◌+◌, ◌≤◌, String, ◌≡◌, refl, ap, sym, ◌∙◌, inl, inr, Bool, true, false, not, ◌&&◌, ◌||◌,
  Option, none, some, List, [], ◌∷◌, arith, leb, if◌then◌else◌, Bool-cases, count, nat_eq, get, put,
  delete, HasKeys, key-get, count-put, count-delete,
}
use meshive.Http.{ok, found-inv, ok-injective}
use meshive.Models.{Role, User, Database, UnicodeText, role_row, user_row}
use meshive.Roles.Laws.{
  Extends, ensure_system_roles-Extends, ensure_system_roles-HasKeys, legacy_role-resolved,
}
use meshive.Users.{
  UserUpdate, RoleSelection, by_id, by_legacy, is_system_superuser, is_active_superuser,
  count_active_system_superusers, resolve_role, apply_access, updated, update_user, delete_user,
}
use meshive.Users.Outcome.{update_user-IsUpdate, delete_user-IsDelete}

-- The primary keys of the two tables.
pub record IsKeyed (db : Database) : Type 0 where
  pub users : HasKeys db.users
  pub roles : HasKeys db.roles

count_le {ℓ} :
    {A : Type ℓ} (p q : A → Bool) (f : (a : A) → p a ≡ true → q a ≡ true) (xs : List A)
    → count p xs ≤ count q xs
count_le p q f [] = omega arith
count_le p q f (x ∷ xs) = elim (Bool-cases (p x)) [
  | inl e ↦ rw (e, f x e) (omega (arith, count_le p q f xs))
  | inr e ↦ ground (arith, count_le p q f xs)
]

-- A role that makes a superuser still makes one.
abbrev pub KeepsSuper : List Role → List Role → Type 0
KeepsSuper roles roles' =
    (i : ℕ) → is_system_superuser (get i roles) ≡ true → is_system_superuser (get i roles') ≡ true

pub Extends-KeepsSuper : (roles roles' : List Role) → Extends roles roles' → KeepsSuper roles roles'
Extends-KeepsSuper roles roles' ext i = of_role (get i roles) refl
  where
    of_role :
        (o : Option Role)
        → get i roles ≡ o
        → is_system_superuser o ≡ true
        → is_system_superuser (get i roles') ≡ true
    of_role none e p = absurd (false≢true p)
    of_role (some role) e p = let (ps, e') = ext i role e in rw e' p

-- So a superuser of the old roles is one of the new.
superuser_kept :
    (roles roles' : List Role) (u : User)
    → KeepsSuper roles roles'
    → is_active_superuser roles u ≡ true
    → is_active_superuser roles' u ≡ true
superuser_kept roles roles' u keep h = go u.role_id u.is_active h
  where
    go :
        (o : Option ℕ) (b : Bool)
        → (b && is_system_superuser (elim o [ none ↦ none | some i ↦ get i roles ])) ≡ true
        → (b && is_system_superuser (elim o [ none ↦ none | some i ↦ get i roles' ])) ≡ true
    go none b p = p
    go (some i) true p = keep i p
    go (some i) false p = p

pub superusers_kept :
    (roles roles' : List Role) (users : List User)
    → KeepsSuper roles roles'
    → count (is_active_superuser roles) users ≤ count (is_active_superuser roles') users
superusers_kept roles roles' users keep =
    count_le (is_active_superuser roles) (is_active_superuser roles')
      (λ u. superuser_kept roles roles' u keep) users

pub resolve_role-laws :
    (t : UnicodeText) (selection : RoleSelection) (roles : List Role) {role : Role}
    {roles' : List Role}
    → HasKeys roles
    → resolve_role t selection roles ≡ ok (role, roles')
    → (get role.id roles' ≡ some role) × Extends roles roles' × HasKeys roles'
unfolding resolve_role
resolve_role-laws t (by_id i) roles keys h = found-inv _ _ _ h λ r was e.
    subst (λ (p : Role × List Role). (get p.0.id p.1 ≡ some p.0) × Extends roles p.1 × HasKeys p.1)
      (ok-injective e)
      (
        subst (λ k. get k roles ≡ some r) (sym (key-get i roles r was)) was,
        (λ j role g. (role.permissions, g)),
        keys,
      )
resolve_role-laws t (by_legacy legacy) roles {role} {roles'} keys h =
    let (here, same) = legacy_role-resolved t legacy roles keys h in
    (
      here,
      subst (Extends roles) (sym same) (ensure_system_roles-Extends t roles),
      subst HasKeys (sym same) (ensure_system_roles-HasKeys t roles keys),
    )

-- The row that `update_user` writes is a superuser's exactly when the role is and the account is active.
updated_superuser :
    (t : UnicodeText) (hash_password : String → String) (payload : UserUpdate) (role : Role)
    (source_ids : List ℕ) (u : User) (roles : List Role)
    → get role.id roles ≡ some role
    → is_active_superuser roles (updated t hash_password payload role source_ids u)
      ≡ (payload.is_active && (role.is_system && role.is_superuser))
unfolding updated apply_access
updated_superuser t hash_password payload role source_ids u roles h = rw h

pub id-updated :
    (t : UnicodeText) (hash_password : String → String) (payload : UserUpdate) (role : Role)
    (source_ids : List ℕ) (u : User)
    → (updated t hash_password payload role source_ids u).id ≡ u.id
unfolding updated apply_access
id-updated t hash_password payload role source_ids u = refl

-- What the guard of `update_user` and the count of its row leave.
superusers_left :
    (before after : ℕ) (was stays system super active : Bool)
    → 1 ≤ before
    → stays ≡ (active && (system && super))
    → (was && (not system || not super || not active) && leb before 1) ≡ false
    → after + (if was then 1 else 0) ≡ before + (if stays then 1 else 0)
    → 1 ≤ after
superusers_left before after was stays system super active h e g c = ground arith

-- Whatever an update asks for, if there is an active system superuser before it there is one after.
pub update_user-keeps_superuser :
    (t : UnicodeText) (hash_password : String → String) (user_id : ℕ) (payload : UserUpdate)
    (current_user : User) (db : Database) (v : User) (db' : Database)
    → IsKeyed db
    → 1 ≤ count_active_system_superusers db
    → update_user t hash_password user_id payload current_user db ≡ ok (v, db')
    → 1 ≤ count_active_system_superusers db'
unfolding count_active_system_superusers
update_user-keeps_superuser t hash_password user_id payload current_user db v db' keys some_left h =
    let w = update_user-IsUpdate t hash_password user_id payload current_user db v db' h in
    let laws = resolve_role-laws t payload.role db.roles keys.roles w.resolved in
    let p = is_active_superuser db'.roles in
    let same : v.id ≡ w.u.id =
      ap (λ (x : User). x.id) w.becomes
      ∙ id-updated t hash_password payload w.role w.source_ids w.u in
    let here : get v.id db.users ≡ some w.u =
      subst (λ k. get k db.users ≡ some w.u) (sym (same ∙ key-get user_id db.users w.u w.was))
        w.was in
    let more =
      superusers_kept db.roles db'.roles db.users (Extends-KeepsSuper db.roles db'.roles laws.1) in
    rw w.users (
      superusers_left (count p db.users) (count p (put v db.users)) (p w.u) (p v) w.role.is_system
        w.role.is_superuser payload.is_active (omega arith)
        (ap p w.becomes
          ∙ updated_superuser t hash_password payload w.role w.source_ids w.u db'.roles laws.0)
        w.guarded (count-put p v w.u db.users keys.users here))

deleted_left :
    (before after : ℕ) (was : Bool)
    → 1 ≤ before
    → (was && leb before 1) ≡ false
    → after + (if was then 1 else 0) ≡ before
    → 1 ≤ after
deleted_left before after was h g c = ground arith

-- If there is an active system superuser before an account is deleted, there is one after.
pub delete_user-keeps_superuser :
    (user_id : ℕ) (current_user : User) (db : Database) (u : User) (db' : Database)
    → IsKeyed db
    → 1 ≤ count_active_system_superusers db
    → delete_user user_id current_user db ≡ ok (u, db')
    → 1 ≤ count_active_system_superusers db'
unfolding count_active_system_superusers
delete_user-keeps_superuser user_id current_user db u db' keys some_left h =
    let w = delete_user-IsDelete user_id current_user db u db' h in
    let p = is_active_superuser db.roles in
    let here : get u.id db.users ≡ some u =
      subst (λ k. get k db.users ≡ some u) (sym (key-get user_id db.users u w.was)) w.was in
    rw (w.users, w.roles)
      (deleted_left (count p db.users) (count p (delete u.id db.users)) (p u) some_left w.guarded
        (count-delete p u.id u db.users keys.users here))
