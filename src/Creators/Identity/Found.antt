-- ===== src/Creators/Identity/Found.antt =====
-- backend/meshive/creators.py: a key whose owners agree is resolved, and never a conflict.
use mathlib.Core.Path.{subst}
use mathlib.Core.Bool.{false≢true}
use meshive.Prelude.{
  own_row, ℕ, String, ◌≡◌, refl, sym, ap, ◌⊎◌, inl, inr, true, Option, none, some, List, [], ◌∷◌,
  arith, Bool-cases, Option-cases, is_some, some-injective, all, find, All, All-append, ◌==◌,
  string_eq, nat_eq, beq_refl, get, get-find, key-get,
}
use meshive.Creators.{
  CreatorProfile, CreatorAlias, Creators, resolved, of_row, profile_row, named_ids, alias_ids,
  owners, found_among, owned, find_creator_profile,
}
use meshive.Creators.Identity.{AllOf, IsIdentified}

-- The row of a key, as `find_creator_profile` gives it.
pub record IsFound (n : String) (db : Creators) (p : CreatorProfile) : Type 0 where
  pub found : find_creator_profile n db ≡ resolved p
  pub stored : get p.id db.profiles ≡ some p
  pub only : AllOf p.id (owners n db)

all_same : (i : ℕ) (os : List ℕ) → AllOf i os → all (λ j. j == i) os ≡ true
all_same i [] h = refl
all_same i (x ∷ os) h = ground (arith, all_same i os h.1)

AllOf-head : (i j : ℕ) (os : List ℕ) → AllOf i os → j ≡ i → AllOf j os
AllOf-head i j os h e = subst (λ k. AllOf k os) (sym e) h

named_stored :
    (n : String) (ps : List CreatorProfile) (all : List CreatorProfile)
    → All (λ p. is_some (get p.id all) ≡ true) ps
    → All (λ j. is_some (get j all) ≡ true) (named_ids n ps)
unfolding named_ids
named_stored n [] rows h = tt
named_stored n (p ∷ ps) rows h = elim (Bool-cases (p.normalized_name == n)) [
  | inl e ↦ rw e (h.0, named_stored n ps rows h.1)
  | inr e ↦ rw e (named_stored n ps rows h.1)
]

get_later :
    (x : CreatorProfile) (i : ℕ) (ps : List CreatorProfile)
    → is_some (get i ps) ≡ true
    → is_some (get i (x ∷ ps)) ≡ true
unfolding get
get_later x i ps h = ground arith

All_later :
    (x : CreatorProfile) (rows ps : List CreatorProfile)
    → All (λ p. is_some (get p.id rows) ≡ true) ps
    → All (λ p. is_some (get p.id (x ∷ rows)) ≡ true) ps
All_later x rows [] h = tt
All_later x rows (p ∷ ps) h = (get_later x p.id rows h.0, All_later x rows ps h.1)

rows_stored : (ps : List CreatorProfile) → All (λ p. is_some (get p.id ps) ≡ true) ps
unfolding get
rows_stored [] = tt
rows_stored (x ∷ ps) = (ground (arith, beq_refl x.id), All_later x ps ps (rows_stored ps))

aliased_stored :
    (n : String) (ps : List CreatorProfile) (xs : List CreatorAlias)
    → All (λ a. is_some (get a.creator_profile_id ps) ≡ true) xs
    → All (λ j. is_some (get j ps) ≡ true) (alias_ids n xs)
unfolding alias_ids
aliased_stored n ps [] h = tt
aliased_stored n ps (a ∷ xs) h = elim (Bool-cases (a.normalized_alias == n)) [
  | inl e ↦ rw e (h.0, aliased_stored n ps xs h.1)
  | inr e ↦ rw e (aliased_stored n ps xs h.1)
]

-- The first profile with a name is among its owners.
find_owner :
    (P : ℕ → Type 0) (n : String) (ps : List CreatorProfile) (p : CreatorProfile)
    → find (λ x. x.normalized_name == n) ps ≡ some p
    → All P (named_ids n ps)
    → P p.id
unfolding named_ids
find_owner P n [] p e h = cc
find_owner P n (x ∷ ps) p e h = elim (Bool-cases (x.normalized_name == n)) [
  | inl q ↦
      (let both : All P (x.id ∷ named_ids n ps) = rw q at h in
        subst (λ (y : CreatorProfile). P y.id) (some-injective (rw q at e)) both.0)
  | inr q ↦ find_owner P n ps p (rw q at e) (rw q at h)
]

module _ (n : String) (db : Creators) (w : IsIdentified db.profiles db.aliases) where
  owned-found :
      (i : ℕ) (o : Option CreatorProfile)
      → find (λ p. p.normalized_name == n) db.profiles ≡ o
      → AllOf i (named_ids n db.profiles)
      → is_some (get i db.profiles) ≡ true
      → (p : CreatorProfile) × (owned o i db.profiles ≡ resolved p)
        × (get p.id db.profiles ≡ some p)
        × (p.id ≡ i)
  unfolding owned
  owned-found i none e h there = elim (Option-cases (get i db.profiles)) [
    | inl q ↦ absurd (false≢true (rw q at there))
    | inr (p, q) ↦ (p, ap of_row q, own_row i db.profiles p q, key-get i db.profiles p q)
  ]
  owned-found i (some p) e h there =
      let same : p.id ≡ i = find_owner (λ j. j ≡ i) n db.profiles p e h in
      (p, ground (arith, beq_refl i), get-find _ db.profiles w.keys e, same)

  -- The first owner, and that it is all of them.
  first :
      (i : ℕ) (rest : List ℕ)
      → owners n db ≡ i ∷ rest
      → AllOf i (owners n db)
        × AllOf i rest
        × AllOf i (named_ids n db.profiles)
        × (is_some (get i db.profiles) ≡ true)
  unfolding owners
  first i rest e =
      let (k, named, aliased) = w.one n in
      let every : AllOf k (owners n db) = All-append (λ j. j ≡ k) _ _ named aliased in
      let listed : AllOf k (i ∷ rest) = subst (AllOf k) e every in
      let there : All (λ j. is_some (get j db.profiles) ≡ true) (owners n db) =
        All-append (λ j. is_some (get j db.profiles) ≡ true) _ _
          (named_stored n db.profiles db.profiles (rows_stored db.profiles))
          (aliased_stored n db.profiles db.aliases w.present) in
      let listed' : All (λ j. is_some (get j db.profiles) ≡ true) (i ∷ rest) =
        subst (All (λ j. is_some (get j db.profiles) ≡ true)) e there in
      (
        AllOf-head k i _ every listed.0,
        AllOf-head k i rest listed.1 listed.0,
        AllOf-head k i _ named listed.0,
        listed'.0,
      )

  owner_list-IsFound :
      (os : List ℕ) → owners n db ≡ os → (os ≡ []) ⊎ ((p : CreatorProfile) × IsFound n db p)
  unfolding find_creator_profile found_among
  owner_list-IsFound [] e = inl refl
  owner_list-IsFound (i ∷ rest) e =
      let (every, same, named, there) = first i rest e in
      let (p, owned, stored, own) =
        owned-found i (find (λ x. x.normalized_name == n) db.profiles) refl named there in
      inr (
        p,
        record {
          found = rw (e, all_same i rest same) owned;
          stored = stored;
          only = AllOf-head i p.id _ every own;
        },
      )

  pub find_creator_profile-IsFound : (owners n db ≡ []) ⊎ ((p : CreatorProfile) × IsFound n db p)
  find_creator_profile-IsFound = owner_list-IsFound (owners n db) refl
