-- ===== src/Roles/Legacy.antt =====
-- repositories/roles.py: a legacy role always resolves.
use meshive.Prelude.{
  ℕ, String, ◌≡◌, refl, inl, inr, ◌⊎◌, true, Option, none, some, List, [], ◌∷◌, ◌++◌, arith,
  is_some, Bool-cases, string_eq,
}
use mathlib.Core.Path.{subst}
use meshive.Http.{HttpError, ok, is_ok, found, ◌>>=◌}
use meshive.Models.{Role, LegacyRole, admin, user, UnicodeText}
use meshive.Auth.Permissions.{SystemRoleDefinition, system_role_definitions}
use meshive.Roles.{
  normalize_role_name, system_role_name_for_legacy_role, role_named, granted, grant, ensure_found,
  ensure_all, ensure_system_roles, get_system_role_for_legacy_role,
}

name-granted :
    (j : ℕ) (keys : List String) (r : Role) → (granted j keys r).normalized_name ≡ r.normalized_name
unfolding granted
name-granted j keys r = ground arith

module _ (name : String) where
  named-append :
      (roles : List Role) (r : Role)
      → is_some (role_named name roles) ≡ true
      → is_some (role_named name (roles ++ r ∷ [])) ≡ true
  named-append [] r h = ground arith
  named-append (x ∷ roles) r h = ground (arith, named-append roles r)

  named-new :
      (roles : List Role) (r : Role)
      → r.normalized_name ≡ name
      → is_some (role_named name (roles ++ r ∷ [])) ≡ true
  named-new [] r h = rw ((string_eq.equal_iff r.normalized_name name).1 h)
  named-new (x ∷ roles) r h = ground (arith, named-new roles r h)

  named-grant :
      (j : ℕ) (keys : List String) (roles : List Role)
      → is_some (role_named name roles) ≡ true
      → is_some (role_named name (grant j keys roles)) ≡ true
  named-grant j keys [] h = h
  named-grant j keys (x ∷ roles) h = elim (Bool-cases (string_eq.equal x.normalized_name name)) [
    | inl q ↦ rw (name-granted j keys x, q)
    | inr q ↦ rw (name-granted j keys x, q) (named-grant j keys roles (rw q at h))
  ]

module _ (t : UnicodeText) (name : String) (existing : List Role) where
  named-ensure_found :
      (d : SystemRoleDefinition) (o : Option Role) (roles : List Role)
      → is_some (role_named name roles) ≡ true
      → is_some (role_named name (ensure_found t d o roles)) ≡ true
  unfolding ensure_found
  named-ensure_found d (some r) roles h = named-grant name r.id d.permission_keys roles h
  named-ensure_found d none roles h = named-append name roles _ h

  named-ensure_all :
      (ds : List SystemRoleDefinition) (roles : List Role)
      → is_some (role_named name roles) ≡ true
      → is_some (role_named name (ensure_all t existing ds roles)) ≡ true
  unfolding ensure_all
  named-ensure_all [] roles h = h
  named-ensure_all (d ∷ ds) roles h =
      named-ensure_all ds _
        (named-ensure_found d (role_named (normalize_role_name t d.name) existing) roles h)

-- The round of a definition leaves a role of its name, if the roles so far hold those read at first.
named-own :
    (t : UnicodeText) (existing : List Role) (d : SystemRoleDefinition) (roles : List Role)
    → (is_some (role_named (normalize_role_name t d.name) existing) ≡ true
        → is_some (role_named (normalize_role_name t d.name) roles) ≡ true)
    → is_some (
        role_named
          (normalize_role_name t d.name)
          (ensure_found t d (role_named (normalize_role_name t d.name) existing) roles))
      ≡ true
unfolding ensure_found
named-own t existing d roles h = go (role_named (normalize_role_name t d.name) existing) refl
  where
    go :
        (o : Option Role)
        → role_named (normalize_role_name t d.name) existing ≡ o
        → is_some (role_named (normalize_role_name t d.name) (ensure_found t d o roles)) ≡ true
    go (some r) e =
        named-grant (normalize_role_name t d.name) r.id d.permission_keys roles (h (rw e))
    go none e = named-new (normalize_role_name t d.name) roles _ refl

abbrev In : SystemRoleDefinition → List SystemRoleDefinition → Type 0
In d [] = ⊥
In d (x ∷ xs) = (d ≡ x) ⊎ In d xs

named-In :
    (t : UnicodeText) (existing : List Role) (d : SystemRoleDefinition)
    (ds : List SystemRoleDefinition) (roles : List Role)
    → In d ds
    → (is_some (role_named (normalize_role_name t d.name) existing) ≡ true
        → is_some (role_named (normalize_role_name t d.name) roles) ≡ true)
    → is_some (role_named (normalize_role_name t d.name) (ensure_all t existing ds roles)) ≡ true
unfolding ensure_all
named-In t existing d [] roles m h = absurd m
named-In t existing d (x ∷ ds) roles (inl e) h =
    named-ensure_all t (normalize_role_name t d.name) existing ds _ (
      subst
        (λ (y : SystemRoleDefinition).
          is_some (
            role_named (normalize_role_name t d.name)
              (ensure_found t y (role_named (normalize_role_name t y.name) existing) roles))
          ≡ true)
        e (named-own t existing d roles h))
named-In t existing d (x ∷ ds) roles (inr m) h = named-In t existing d ds _ m λ p.
    named-ensure_found t (normalize_role_name t d.name) existing x
      (role_named (normalize_role_name t x.name) existing) roles (h p)

found_ok :
    {A : Type 0} (o : Option Role) (e : HttpError) (f : Role → A)
    → is_some o ≡ true
    → is_ok (found o e >>= λ r. ok (f r)) ≡ true
unfolding ◌>>=◌
found_ok none e f h = h
found_ok (some r) e f h = refl

-- A payload that names a legacy role finds a role: the roles that ship are made good first, so the
-- error for a missing one is never raised.
legacy_role_found :
    (t : UnicodeText) (legacy : LegacyRole) (roles : List Role)
    → is_ok (get_system_role_for_legacy_role t legacy roles) ≡ true
unfolding get_system_role_for_legacy_role ensure_system_roles system_role_name_for_legacy_role
legacy_role_found t admin roles =
    found_ok _ _ _
      (named-In t roles _ system_role_definitions roles (inr (inr (inr (inr (inl refl))))) (λ p. p))
legacy_role_found t user roles =
    found_ok _ _ _ (named-In t roles _ system_role_definitions roles (inr (inl refl)) (λ p. p))
