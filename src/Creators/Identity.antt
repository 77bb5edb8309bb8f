-- ===== src/Creators/Identity.antt =====
-- backend/meshive/creators.py and api/creator_profiles.py: a name or an alias belongs to one profile,
-- whatever the requests and the scans do one after the other.
pub mod Steps
pub mod Found
pub mod Runs
use meshive.Prelude.{
  ℕ, String, ◌≡◌, refl, sym, ap, ◌∙◌, inl, inr, Bool, true, false, not, ◌&&◌, ◌||◌, Option, none,
  some, List, [], ◌∷◌, ◌++◌, arith, if◌then◌else◌, Bool-cases, is_some, any, All, All-append,
  All-imp, ◌==◌, string_eq, nat_eq, get, put, delete, get-put, get-append, HasKeys,
}
use meshive.Creators.{
  CreatorProfile, CreatorAlias, Creators, profile_row, alias_row, named_ids, alias_ids, owners,
  identity_conflict, is_excluded, with_alias, new_alias,
}

-- Every profile and every alias with a key is, or belongs to, the profile `i`.
abbrev pub AllOf : ℕ → List ℕ → Type 0
AllOf i os = All (λ j. j ≡ i) os

-- A key belongs to one profile at most, and an alias to a profile that is there.
pub record IsIdentified (ps : List CreatorProfile) (xs : List CreatorAlias) : Type 0 where
  pub keys : HasKeys ps
  pub one : (n : String) → (i : ℕ) × AllOf i (named_ids n ps) × AllOf i (alias_ids n xs)
  pub present : All (λ a. is_some (get a.creator_profile_id ps) ≡ true) xs

module _ (P : ℕ → Type 0) (n : String) where
  pub named-append :
      (ps : List CreatorProfile) (p : CreatorProfile)
      → All P (named_ids n ps)
      → ((p.normalized_name == n) ≡ true → P p.id)
      → All P (named_ids n (ps ++ p ∷ []))
  unfolding named_ids
  named-append [] p h k = elim (Bool-cases (p.normalized_name == n)) [
    | inl e ↦ rw e (k e, tt)
    | inr e ↦ rw e tt
  ]
  named-append (x ∷ ps) p h k = elim (Bool-cases (x.normalized_name == n)) [
    | inl e ↦
        (let both : All P (x.id ∷ named_ids n ps) = rw e at h in
          rw e (both.0, named-append ps p both.1 k))
    | inr e ↦ rw e (named-append ps p (rw e at h) k)
  ]

  pub alias-append :
      (xs : List CreatorAlias) (a : CreatorAlias)
      → All P (alias_ids n xs)
      → ((a.normalized_alias == n) ≡ true → P a.creator_profile_id)
      → All P (alias_ids n (xs ++ a ∷ []))
  unfolding alias_ids
  alias-append [] a h k = elim (Bool-cases (a.normalized_alias == n)) [
    | inl e ↦ rw e (k e, tt)
    | inr e ↦ rw e tt
  ]
  alias-append (x ∷ xs) a h k = elim (Bool-cases (x.normalized_alias == n)) [
    | inl e ↦
        (let both : All P (x.creator_profile_id ∷ alias_ids n xs) = rw e at h in
          rw e (both.0, alias-append xs a both.1 k))
    | inr e ↦ rw e (alias-append xs a (rw e at h) k)
  ]

  placed :
      (x : CreatorProfile) (ps : List CreatorProfile) (p : CreatorProfile)
      → All P (named_ids n (put p ps))
      → ((x.normalized_name == n) ≡ true → P x.id)
      → ((p.normalized_name == n) ≡ true → P p.id)
      → All P (named_ids n (put p (x ∷ ps)))
  unfolding named_ids put
  placed x ps p rest hx hp = elim (Bool-cases (x.id == p.id)) [
    | inl q ↦ rw q (elim (Bool-cases (p.normalized_name == n)) [
      | inl e ↦ rw e (hp e, rest)
      | inr e ↦ rw e rest
    ])
    | inr q ↦ rw q (elim (Bool-cases (x.normalized_name == n)) [
      | inl e ↦ rw e (hx e, rest)
      | inr e ↦ rw e rest
    ])
  ]

  pub named-put :
      (ps : List CreatorProfile) (p : CreatorProfile)
      → All P (named_ids n ps)
      → ((p.normalized_name == n) ≡ true → P p.id)
      → All P (named_ids n (put p ps))
  unfolding named_ids put
  named-put [] p h k = tt
  named-put (x ∷ ps) p h k = elim (Bool-cases (x.normalized_name == n)) [
    | inl e ↦
        (let both : All P (x.id ∷ named_ids n ps) = rw e at h in
          placed x ps p (named-put ps p both.1 k) (λ _. both.0) k)
    | inr e ↦ placed x ps p (named-put ps p (rw e at h) k) (λ q. cc) k
  ]

  pub alias-delete :
      (i : ℕ) (xs : List CreatorAlias) → All P (alias_ids n xs) → All P (alias_ids n (delete i xs))
  unfolding alias_ids delete
  alias-delete i [] h = tt
  alias-delete i (x ∷ xs) h = elim (Bool-cases (x.normalized_alias == n)) [
    | inl e ↦
        (let both : All P (x.creator_profile_id ∷ alias_ids n xs) = rw e at h in
          elim (Bool-cases (x.id == i)) [
            | inl q ↦ rw q (alias-delete i xs both.1)
            | inr q ↦ rw (q, e) (both.0, alias-delete i xs both.1)
          ])
    | inr e ↦
        (let rest = alias-delete i xs (rw e at h) in
          elim (Bool-cases (x.id == i)) [ inl q ↦ rw q rest | inr q ↦ rw (q, e) rest ])
  ]

  pub alias-with :
      (i : ℕ) (alias normalized : String) (xs : List CreatorAlias)
      → All P (alias_ids n xs)
      → ((normalized == n) ≡ true → P i)
      → All P (alias_ids n (with_alias i alias normalized xs))
  unfolding with_alias
  alias-with i alias normalized xs h k =
      elim (Bool-cases
        (any (λ a. a.creator_profile_id == i && a.normalized_alias == normalized) xs)) [
          | inl e ↦ rw e h
          | inr e ↦ rw e (alias-append xs (new_alias i alias normalized xs) h k)
        ]

  -- The profile of a row has the row's name.
  pub named-get :
      (i : ℕ) (ps : List CreatorProfile) (p : CreatorProfile)
      → get i ps ≡ some p
      → p.normalized_name ≡ n
      → All P (named_ids n ps)
      → P p.id
  unfolding named_ids get
  named-get i [] p e same h = cc
  named-get i (x ∷ ps) p e same h = elim (Bool-cases (x.id == i)) [
    | inl q ↦ ground (arith, string_eq.equal_iff x.normalized_name n)
    | inr q ↦ elim (Bool-cases (x.normalized_name == n)) [
      | inl r ↦
          (let both : All P (x.id ∷ named_ids n ps) = rw r at h in
            named-get i ps p (rw q at e) same both.1)
      | inr r ↦ named-get i ps p (rw q at e) same (rw r at h)
    ]
  ]

  -- Without a conflict, only the profile that is left out has the name.
  pub named-free :
      (left : Option ℕ) (ps : List CreatorProfile)
      → any (λ p. p.normalized_name == n && not (is_excluded left p.id)) ps ≡ false
      → ((j : ℕ) → is_excluded left j ≡ true → P j)
      → All P (named_ids n ps)
  unfolding named_ids
  named-free left [] h k = tt
  named-free left (x ∷ ps) h k = elim (Bool-cases (x.normalized_name == n)) [
    | inl e ↦ rw e (k x.id (ground arith), named-free left ps (ground arith) k)
    | inr e ↦ rw e (named-free left ps (rw e at h) k)
  ]

  pub alias-free :
      (left : Option ℕ) (xs : List CreatorAlias)
      → any (λ a. a.normalized_alias == n && not (is_excluded left a.creator_profile_id)) xs ≡ false
      → ((j : ℕ) → is_excluded left j ≡ true → P j)
      → All P (alias_ids n xs)
  unfolding alias_ids
  alias-free left [] h k = tt
  alias-free left (x ∷ xs) h k = elim (Bool-cases (x.normalized_alias == n)) [
    | inl e ↦ rw e (k x.creator_profile_id (ground arith), alias-free left xs (ground arith) k)
    | inr e ↦ rw e (alias-free left xs (rw e at h) k)
  ]
