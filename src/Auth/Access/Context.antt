-- ===== src/Auth/Access/Context.antt =====
-- auth/access.py: what an access context can hold.
use meshive.Prelude.{
  ℕ, String, ◌≡◌, refl, inl, inr, Bool, true, false, ◌||◌, Option, none, some, List, [], ◌∷◌, arith,
  if◌then◌else◌, Bool-cases, filter, all, contains, string_eq, nat_eq, and-eq-true,
}
use meshive.Models.{Role, User}
use meshive.Auth.Permissions.{all_permission_keys}
use meshive.Auth.Access.{
  AccessContext, role_definition, is_superuser_role, granted_keys, get_access_context,
  can_access_source, get_visible_source_ids, in_sources,
}

all-filter : {A : Type 0} (p : A → Bool) (xs : List A) → all p (filter p xs) ≡ true
all-filter p [] = refl
all-filter p (x ∷ xs) = ground (arith, all-filter p xs)

pub contains_of_all :
    (p : String → Bool) (k : String) (xs : List String)
    → all p xs ≡ true
    → contains xs k ≡ true
    → p k ≡ true
contains_of_all p k [] a h = ground arith
contains_of_all p k (x ∷ xs) a h = elim (Bool-cases (string_eq.equal x k)) [
  | inl e ↦ rw (← (string_eq.equal_iff x k).0 e) (and-eq-true a).0
  | inr e ↦ contains_of_all p k xs (and-eq-true a).1 (rw e at h)
]

registered_of_role :
    (o : Option Role)
    → all
        (contains all_permission_keys)
        (if is_superuser_role o then all_permission_keys else granted_keys o)
      ≡ true
registered_of_role none = refl
registered_of_role (some role) = elim (Bool-cases role.is_superuser) [
  | inl e ↦ rw e refl
  | inr e ↦ rw e (all-filter (contains all_permission_keys) role.permissions)
]

-- Whatever rows a role has in the database, a request acts under registered keys only.
access_keys_registered :
    (roles : List Role) (user : User) (key : String)
    → contains (get_access_context roles user).permission_keys key ≡ true
    → contains all_permission_keys key ≡ true
unfolding get_access_context
access_keys_registered roles user key =
    contains_of_all (contains all_permission_keys) key _
      (registered_of_role (role_definition roles user))

-- The condition that scopes a query holds of a row exactly when its source may be accessed.
pub in_sources-eq-can_access_source :
    (access : AccessContext) (source_id : ℕ)
    → in_sources (get_visible_source_ids access) source_id ≡ can_access_source access source_id
unfolding get_visible_source_ids can_access_source
in_sources-eq-can_access_source access source_id = ground arith

-- A user reaches a source by a superuser role, by the flag for all sources, or by a grant of its own,
-- and in no other way.
pub access_of_user :
    (roles : List Role) (user : User) (source_id : ℕ)
    → can_access_source (get_access_context roles user) source_id
      ≡ is_superuser_role (role_definition roles user)
        || (user.all_sources || contains user.library_source_grants source_id)
unfolding get_access_context can_access_source
access_of_user roles user source_id =
    go (is_superuser_role (role_definition roles user)) user.all_sources
  where
    go :
        (superuser sources : Bool)
        → (superuser || (sources || superuser))
            || (contains
                (if (sources || superuser) || superuser then [] else user.library_source_grants)
                source_id)
          ≡ superuser || (sources || contains user.library_source_grants source_id)
    go true s = refl
    go false true = refl
    go false false = refl
