-- ===== src/Roles/Laws.antt =====
-- repositories/roles.py: what `ensure_system_roles` changes, and that it leaves a role to use.
use mathlib.Core.Option
use mathlib.Core.Path.{subst}
use meshive.Prelude.{
  ℕ, String, ◌≡◌, refl, ap, ◌∙◌, inl, inr, Option, none, some, List, [], ◌∷◌, arith, Bool-cases,
  ◌==◌, nat_eq, string_eq, get, HasKeys, append-HasKeys, get-append, get-find, get-map, map-HasKeys,
}
use meshive.Http.{ok, found, found-inv, ok-injective}
use meshive.Models.{Role, LegacyRole, UnicodeText, role_row}
use meshive.Auth.Permissions.{SystemRoleDefinition, system_role_definitions}
use meshive.Roles.{
  normalize_role_name, role_named, add_missing, granted, ensure_found, ensure_all,
  ensure_system_roles, get_system_role_for_legacy_role,
}

-- Every role is still there, as it was but for its permissions.
abbrev pub Extends : List Role → List Role → Type 0
Extends roles roles' =
    (i : ℕ) (role : Role)
    → get i roles ≡ some role
    → (permissions : List String) × (get i roles'
        ≡ some (record role { permissions = permissions }))

id-granted : (j : ℕ) (keys : List String) (r : Role) → (granted j keys r).id ≡ r.id
unfolding granted
id-granted j keys r = ground arith

granted_permissions :
    (j : ℕ) (keys : List String) (r : Role)
    → (permissions : List String) × (granted j keys r ≡ record r { permissions = permissions })
unfolding granted
granted_permissions j keys r = elim (Bool-cases (r.id == j)) [
  | inl q ↦ (add_missing keys r.permissions, rw q)
  | inr q ↦ (r.permissions, rw q)
]

Extends-trans : (a b c : List Role) → Extends a b → Extends b c → Extends a c
Extends-trans a b c f g i role h =
    let (ps, e) = f i role h in g i (record role { permissions = ps }) e

module _ (t : UnicodeText) (definition : SystemRoleDefinition) (roles : List Role) where
  ensure_found-Extends : (o : Option Role) → Extends roles (ensure_found t definition o roles)
  unfolding ensure_found
  ensure_found-Extends (some found) i role h =
      let (ps, e) = granted_permissions found.id definition.permission_keys role in
      (
        ps,
        get-map (granted found.id definition.permission_keys)
              (id-granted found.id definition.permission_keys) i roles
            ∙ rw (h, Option.map) (ap some e),
      )
  ensure_found-Extends none i role h = (role.permissions, rw (get-append, h))

  ensure_found-HasKeys :
      (o : Option Role) → HasKeys roles → HasKeys (ensure_found t definition o roles)
  unfolding ensure_found
  ensure_found-HasKeys (some found) h =
      map-HasKeys (granted found.id definition.permission_keys)
        (id-granted found.id definition.permission_keys) roles h
  ensure_found-HasKeys none h = append-HasKeys roles _ refl h

module _ (t : UnicodeText) (existing : List Role) where
  ensure_all-Extends :
      (ds : List SystemRoleDefinition) (roles : List Role)
      → Extends roles (ensure_all t existing ds roles)
  unfolding ensure_all
  ensure_all-Extends [] roles i role h = (role.permissions, h)
  ensure_all-Extends (d ∷ ds) roles i role h =
      Extends-trans roles _ _
        (ensure_found-Extends t d roles (role_named (normalize_role_name t d.name) existing))
        (ensure_all-Extends ds _) i role h

  ensure_all-HasKeys :
      (ds : List SystemRoleDefinition) (roles : List Role)
      → HasKeys roles
      → HasKeys (ensure_all t existing ds roles)
  unfolding ensure_all
  ensure_all-HasKeys [] roles h = h
  ensure_all-HasKeys (d ∷ ds) roles h =
      ensure_all-HasKeys ds _
        (ensure_found-HasKeys t d roles (role_named (normalize_role_name t d.name) existing) h)

-- Making the system roles complete keeps every role that is there, but for permissions that it adds.
pub ensure_system_roles-Extends :
    (t : UnicodeText) (roles : List Role) → Extends roles (ensure_system_roles t roles)
unfolding ensure_system_roles
ensure_system_roles-Extends t roles = ensure_all-Extends t roles system_role_definitions roles

pub ensure_system_roles-HasKeys :
    (t : UnicodeText) (roles : List Role) → HasKeys roles → HasKeys (ensure_system_roles t roles)
unfolding ensure_system_roles
ensure_system_roles-HasKeys t roles = ensure_all-HasKeys t roles system_role_definitions roles

-- A role that a legacy name resolves to is the row of its key.
pub legacy_role-resolved :
    (t : UnicodeText) (legacy : LegacyRole) (roles : List Role) {role : Role} {ensured : List Role}
    → HasKeys roles
    → get_system_role_for_legacy_role t legacy roles ≡ ok (role, ensured)
    → (get role.id ensured ≡ some role) × (ensured ≡ ensure_system_roles t roles)
unfolding get_system_role_for_legacy_role
legacy_role-resolved t legacy roles {role} {ensured} keys h = found-inv _ _ _ h λ r named e.
    let q = ok-injective e in
    subst
      (λ (p : Role × List Role). (get p.0.id p.1 ≡ some p.0) × (p.1 ≡ ensure_system_roles t roles))
      q
      (
        get-find _ (ensure_system_roles t roles) (ensure_system_roles-HasKeys t roles keys) named,
        refl,
      )
