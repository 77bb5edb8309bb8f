-- ===== src/Auth/Access/Guards.antt =====
-- auth/access.py: what the dependencies that guard the routes let through.
use meshive.Prelude.{
  ℕ, String, ◌≡◌, refl, ap, inl, inr, Bool, true, false, ◌||◌, Option, none, some, List, [], ◌∷◌,
  arith, if◌then◌else◌, Bool-cases, all, any, contains, string_eq, nat_eq, and-eq-true, beq_refl,
  ◌≢◌, is_some, Option-cases,
}
use mathlib.Core.Option.{some-injective}
use mathlib.Core.Bool.{false≢true}
use mathlib.Core.Option
use meshive.Http.{◌>>=◌, Response, ok, error}
use meshive.Models.{Role, User}
use meshive.Auth.Permissions.{all_permission_keys}
use meshive.Auth.Access.{
  AccessContext, Dependency, role_definition, is_superuser_role, get_access_context,
  can_access_source, permission_denied, intersects, require_access_permission, require_permission,
  require_global_permission, are_registered, require_any_permission, require_any_global_permission,
}

-- The four ways to build a dependency.
pub data Guard : Type 0 where
  permission : String → Guard
  global_permission : String → Guard
  any_permission : List String → Guard
  any_global_permission : List String → Guard

unfoldable pub build : Guard → Option Dependency
build (permission key) = require_permission key
build (global_permission key) = require_global_permission key
build (any_permission keys) = require_any_permission keys
build (any_global_permission keys) = require_any_global_permission keys

-- The answer of a route behind the guard; none if the guard could not be built.
abbrev pub answer : Guard → List Role → User → Option (Response AccessContext)
answer g roles user = Option.map (λ d. d roles user) (build g)

-- What a guard asks of the keys of a context, and whether it asks for every source.
abbrev pub asks : Guard → AccessContext → Bool
asks (permission key) access = contains access.permission_keys key
asks (global_permission key) access = contains access.permission_keys key
asks (any_permission keys) access = intersects access.permission_keys keys
asks (any_global_permission keys) access = intersects access.permission_keys keys

abbrev pub is_global : Guard → Bool
is_global (global_permission key) = true
is_global (any_global_permission keys) = true
is_global _ = false

any_of_contains :
    (p : String → Bool) (k : String) (xs : List String)
    → contains xs k ≡ true
    → p k ≡ true
    → any p xs ≡ true
any_of_contains p k [] h e = ground arith
any_of_contains p k (x ∷ xs) h e = elim (Bool-cases (string_eq.equal x k)) [
  | inl q ↦ rw ((string_eq.equal_iff x k).0 q, e)
  | inr q ↦ ground (arith, any_of_contains p k xs)
]

-- A list of registered keys meets the list of all keys.
any_of_registered :
    (all_keys keys : List String)
    → all (contains all_keys) keys ≡ true
    → keys ≢ []
    → intersects all_keys keys ≡ true
any_of_registered all_keys [] h e = absurd (e refl)
any_of_registered all_keys (key ∷ keys) h e =
    any_of_contains (contains (key ∷ keys)) key all_keys (and-eq-true h).0 (rw beq_refl)

registered-nonempty :
    (keys : List String)
    → are_registered keys ≡ true
    → (keys ≢ []) × (all (contains all_permission_keys) keys ≡ true)
registered-nonempty [] h = cc
registered-nonempty (key ∷ keys) h = (λ e. cc, h)

module _ (roles : List Role) (user : User) where
  keys_of_superuser :
      is_superuser_role (role_definition roles user) ≡ true
      → ((get_access_context roles user).permission_keys ≡ all_permission_keys)
        × ((get_access_context roles user).all_sources ≡ true)
  unfolding get_access_context
  keys_of_superuser s = (rw s, rw s (or_true user.all_sources))
    where
      or_true : (b : Bool) → (b || true) ≡ true
      or_true true = refl
      or_true false = refl

  keys_of_roleless : user.role_id ≡ none → (get_access_context roles user).permission_keys ≡ []
  unfolding get_access_context
  keys_of_roleless s = rw s

built : (b : Bool) {f d : Dependency} → (if b then some f else none) ≡ some d → (b ≡ true) × (f ≡ d)
built true {f} {d} h = (refl, some-injective f d h)
built false h = cc

module _ (roles : List Role) (user : User) where
  dependency_exact :
      (g : Guard) {d : Dependency}
      → build g ≡ some d
      → d roles user ≡ (
          if asks g (get_access_context roles user)
          then (if is_global g
              then (if (get_access_context roles user).all_sources
                  then ok (get_access_context roles user)
                  else error (record { status = 403; detail = "All sources access is required" }))
              else ok (get_access_context roles user))
          else error (record { status = 403; detail = "Permission denied" }))
  unfolding build require_permission require_global_permission require_any_permission
      require_any_global_permission require_access_permission ◌>>=◌
  dependency_exact (permission key) h = rw (← (built _ h).1) (ground arith)
  dependency_exact (global_permission key) h = rw (← (built _ h).1) (ground arith)
  dependency_exact (any_permission keys) h = rw (← (built _ h).1) (ground arith)
  dependency_exact (any_global_permission keys) h = rw (← (built _ h).1) (ground arith)

  dependency_passes :
      (g : Guard) {d : Dependency}
      → build g ≡ some d
      → is_superuser_role (role_definition roles user) ≡ true
      → d roles user ≡ ok (get_access_context roles user)
  unfolding build require_permission require_global_permission require_any_permission
      require_any_global_permission
  dependency_passes g h s =
      ground (arith, dependency_exact g h, asked g h, keys_of_superuser roles user s)
    where
      asked :
          (g : Guard) {d : Dependency}
          → build g ≡ some d
          → asks g (get_access_context roles user) ≡ true
      asked (permission key) h =
          rw (keys_of_superuser roles user s).0 (built (contains all_permission_keys key) h).0
      asked (global_permission key) h =
          rw (keys_of_superuser roles user s).0 (built (contains all_permission_keys key) h).0
      asked (any_permission keys) h =
          let (filled, registered) = registered-nonempty keys (built (are_registered keys) h).0 in
          rw (keys_of_superuser roles user s).0
            (any_of_registered all_permission_keys keys registered filled)
      asked (any_global_permission keys) h =
          let (filled, registered) = registered-nonempty keys (built (are_registered keys) h).0 in
          rw (keys_of_superuser roles user s).0
            (any_of_registered all_permission_keys keys registered filled)

  dependency_denies :
      (g : Guard) {d : Dependency}
      → build g ≡ some d
      → user.role_id ≡ none
      → d roles user ≡ error permission_denied
  unfolding build
  dependency_denies g h s = rw (dependency_exact g h, denied g)
    where
      denied : (g : Guard) → asks g (get_access_context roles user) ≡ false
      denied (permission key) = rw (keys_of_roleless roles user s)
      denied (global_permission key) = rw (keys_of_roleless roles user s)
      denied (any_permission keys) = rw (keys_of_roleless roles user s)
      denied (any_global_permission keys) = rw (keys_of_roleless roles user s)

  dependency_reaches :
      (g : Guard) {d : Dependency} (a : AccessContext) (source_id : ℕ)
      → build g ≡ some d
      → is_global g ≡ true
      → d roles user ≡ ok a
      → can_access_source a source_id ≡ true
  unfolding can_access_source
  dependency_reaches g a source_id h global passed = ground (arith, dependency_exact g h)

none-ne-some : {A : Type 0} {a : A} → none ≡ some a → ⊥
none-ne-some h = cc

answer_of_dependency :
    (g : Guard) (roles : List Role) (user : User) (x : Response AccessContext)
    → is_some (build g) ≡ true
    → ((d : Dependency) → build g ≡ some d → d roles user ≡ x)
    → answer g roles user ≡ some x
answer_of_dependency g roles user x b f = elim (Option-cases (build g)) [
  | inl e ↦ absurd (false≢true (rw e at b))
  | inr (d, e) ↦ (rw (e, Option.map) (ap some (f d e)))
]

-- Every guard that could be built, of the four kinds and for whichever keys, lets a user through whose
-- role is a superuser's.
pub superuser_passes :
    (g : Guard) (roles : List Role) (user : User)
    → is_some (build g) ≡ true
    → is_superuser_role (role_definition roles user) ≡ true
    → answer g roles user ≡ some (ok (get_access_context roles user))
superuser_passes g roles user b s =
    answer_of_dependency g roles user _ b (λ d h. dependency_passes roles user g h s)

-- A user without a role passes no guard.
roleless_is_denied :
    (g : Guard) (roles : List Role) (user : User)
    → is_some (build g) ≡ true
    → user.role_id ≡ none
    → answer g roles user ≡ some (error permission_denied)
roleless_is_denied g roles user b s =
    answer_of_dependency g roles user _ b (λ d h. dependency_denies roles user g h s)

-- Behind a global guard every source may be accessed.
global_guard_reaches :
    (g : Guard) (roles : List Role) (user : User) (a : AccessContext) (source_id : ℕ)
    → is_global g ≡ true
    → answer g roles user ≡ some (ok a)
    → can_access_source a source_id ≡ true
global_guard_reaches g roles user a source_id global passed = elim (Option-cases (build g)) [
  | inl e ↦ absurd (none-ne-some (rw (e, Option.map) at passed))
  | inr (d, e) ↦
      dependency_reaches roles user g a source_id e global
        (some-injective _ _ (rw (e, Option.map) at passed))
]
