-- ===== src/Users/Grants.antt =====
-- api/users.py with auth/access.py: what an account may reach after an update.
use mathlib.Core.Path.{subst}
use mathlib.Core.Option.{some-injective}
use meshive.Prelude.{
  ℕ, String, ◌≡◌, refl, ap, sym, ◌∙◌, inl, inr, Bool, true, false, not, ◌||◌, none, some, is_some,
  List, [], ◌∷◌, if◌then◌else◌, Bool-cases, any, filter, contains, ◌==◌, nat_eq, get, HasKeys,
  get-put_own, key-get,
}
use meshive.Http.{ok, require-inv, ok-injective}
use meshive.Models.{
  Role, User, UserSession, UserActionToken, LibrarySource, Database, UnicodeText, role_row,
  user_row, source_row,
}
use meshive.Auth.Access.{can_access_source, get_access_context}
use meshive.Auth.Access.Context.{access_of_user}
use meshive.Users.{
  UserUpdate, resolve_role, resolve_source_ids, apply_access, updated, update_user, ends_sessions,
  drops_action_tokens, same_text,
}
use meshive.Users.Outcome.{update_user-IsUpdate}
use meshive.Users.Superusers.{resolve_role-laws, id-updated}

granted_ids :
    (ids : List ℕ) (sources : List LibrarySource) {out : List ℕ}
    → resolve_source_ids ids sources ≡ ok out
    → ids ≡ out
unfolding resolve_source_ids
granted_ids ids sources h =
    require-inv _ _ _ h λ distinct h₁. require-inv _ _ _ h₁ λ known h₂. ok-injective h₂

access_of_updated :
    (t : UnicodeText) (hash_password : String → String) (payload : UserUpdate) (role : Role)
    (source_ids : List ℕ) (u : User) (roles : List Role) (source_id : ℕ)
    → get role.id roles ≡ some role
    → can_access_source
        (get_access_context roles (updated t hash_password payload role source_ids u))
        source_id
      ≡ (role.is_superuser || (payload.all_sources || contains source_ids source_id))
unfolding updated apply_access
access_of_updated t hash_password payload role source_ids u roles source_id h =
    access_of_user roles _ source_id ∙ rw h (go role.is_superuser payload.all_sources)
  where
    go :
        (super sources : Bool)
        → super
            || ((sources || super)
                || contains (if sources || super then [] else source_ids) source_id)
          ≡ super || (sources || contains source_ids source_id)
    go true s = refl
    go false true = refl
    go false false = refl

-- After an update that succeeded, where no two roles have one key, the account that is stored under
-- the id is the one that was returned; and it reaches a source exactly if the role that the payload
-- names is a superuser's, or the payload says all sources, or it lists the source.
pub update_user_grants :
    (t : UnicodeText) (hash_password : String → String) (user_id : ℕ) (payload : UserUpdate)
    (current_user : User) (db : Database) (v : User) (db' : Database) (role : Role) (source_id : ℕ)
    → HasKeys db.roles
    → update_user t hash_password user_id payload current_user db ≡ ok (v, db')
    → resolve_role t payload.role db.roles ≡ ok (role, db'.roles)
    → (get user_id db'.users ≡ some v)
      × (can_access_source (get_access_context db'.roles v) source_id
          ≡ (role.is_superuser || (payload.all_sources || contains payload.source_ids source_id)))
update_user_grants t hash_password user_id payload current_user db v db' role source_id keys h r =
    let w = update_user-IsUpdate t hash_password user_id payload current_user db v db' h in
    let same : w.role ≡ role =
      ap (λ (p : Role × List Role). p.0) (ok-injective (sym w.resolved ∙ r)) in
    let here = (resolve_role-laws t payload.role db.roles keys w.resolved).0 in
    let own : v.id ≡ user_id =
      ap (λ (x : User). x.id) w.becomes
      ∙ id-updated t hash_password payload w.role w.source_ids w.u
      ∙ key-get user_id db.users w.u w.was in
    (
      ap (get user_id) w.users ∙ get-put_own user_id v w.u db.users w.was own,
      ap (λ (x : User). can_access_source (get_access_context db'.roles x) source_id) w.becomes
          ∙ access_of_updated t hash_password payload w.role w.source_ids w.u db'.roles source_id
              here
          ∙ ap
              (λ (x : Role).
                x.is_superuser || (payload.all_sources || contains w.source_ids source_id))
              same
          ∙ ap
              (λ (ids : List ℕ).
                role.is_superuser || (payload.all_sources || contains ids source_id))
              (sym (granted_ids payload.source_ids db.sources w.granted)),
    )

none-left : {A : Type 0} (p : A → Bool) (xs : List A) → any p (filter (λ x. not (p x)) xs) ≡ false
none-left p [] = refl
none-left p (x ∷ xs) = elim (Bool-cases (p x)) [
  | inl e ↦ rw e (none-left p xs)
  | inr e ↦ rw (e, e) (none-left p xs)
]

-- When an update by another user than the account's own succeeds, and the payload sets a password or
-- does not say that the account is active, no session of the account is left.
pub update_user-ends_sessions :
    (t : UnicodeText) (hash_password : String → String) (user_id : ℕ) (payload : UserUpdate)
    (current_user : User) (db : Database) (v : User) (db' : Database)
    → update_user t hash_password user_id payload current_user db ≡ ok (v, db')
    → (v.id == current_user.id) ≡ false
    → (is_some payload.password || not payload.is_active) ≡ true
    → any (λ s. s.user_id == v.id) db'.sessions ≡ false
unfolding ends_sessions
update_user-ends_sessions t hash_password user_id payload current_user db v db' h other set =
    let w = update_user-IsUpdate t hash_password user_id payload current_user db v db' h in
    let same : v.id ≡ w.u.id =
      ap (λ (x : User). x.id) w.becomes
      ∙ id-updated t hash_password payload w.role w.source_ids w.u in
    let apart : (w.u.id == current_user.id) ≡ false =
      subst (λ i. (i == current_user.id) ≡ false) same other in
    let e' : ends_sessions payload w.u current_user ≡ true = rw (apart, set) refl in
    subst (λ i. any (λ s. s.user_id == i) db'.sessions ≡ false) (sym same)
      (subst (λ ss. any (λ (s : UserSession). s.user_id == w.u.id) ss ≡ false)
        (sym (w.sessions ∙ rw e')) (none-left (λ s. s.user_id == w.u.id) db.sessions))

unverified :
    (t : UnicodeText) (hash_password : String → String) (payload : UserUpdate) (role : Role)
    (source_ids : List ℕ) (u : User)
    → same_text
        (updated t hash_password payload role source_ids u).normalized_email
        u.normalized_email
      ≡ false
    → (updated t hash_password payload role source_ids u).email_verified_at ≡ none
unfolding updated apply_access
unverified t hash_password payload role source_ids u e = rw e

-- An update that changes the normalized email address leaves the address unverified, and leaves no
-- reset or verification token of the account.
update_user_drops_tokens :
    (t : UnicodeText) (hash_password : String → String) (user_id : ℕ) (payload : UserUpdate)
    (current_user : User) (db : Database) (u v : User) (db' : Database)
    → get user_id db.users ≡ some u
    → update_user t hash_password user_id payload current_user db ≡ ok (v, db')
    → same_text v.normalized_email u.normalized_email ≡ false
    → (v.email_verified_at ≡ none) × (any (λ k. k.user_id == v.id) db'.action_tokens ≡ false)
unfolding drops_action_tokens
update_user_drops_tokens t hash_password user_id payload current_user db u v db' was h e =
    let w = update_user-IsUpdate t hash_password user_id payload current_user db v db' h in
    let before : w.u ≡ u = some-injective _ _ (sym w.was ∙ was) in
    let same : v.id ≡ w.u.id =
      ap (λ (x : User). x.id) w.becomes
      ∙ id-updated t hash_password payload w.role w.source_ids w.u in
    let e' : same_text v.normalized_email w.u.normalized_email ≡ false =
      subst (λ (x : User). same_text v.normalized_email x.normalized_email ≡ false) (sym before)
        e in
    let drops : drops_action_tokens w.u v payload ≡ true = rw e' in
    (
      ap (λ (x : User). x.email_verified_at) w.becomes
          ∙ unverified t hash_password payload w.role w.source_ids w.u (
              subst (λ (x : User). same_text x.normalized_email w.u.normalized_email ≡ false)
                w.becomes e'),
      subst (λ i. any (λ k. k.user_id == i) db'.action_tokens ≡ false) (sym same)
          (subst (λ ks. any (λ (k : UserActionToken). k.user_id == w.u.id) ks ≡ false)
            (sym (w.action_tokens ∙ rw drops))
            (none-left (λ k. k.user_id == w.u.id) db.action_tokens)),
    )
