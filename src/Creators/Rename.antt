-- ===== src/Creators/Rename.antt =====
-- `update_profile` of backend/meshive/api/creator_profiles.py: the names that a profile went by.
use mathlib.Core.Path.{subst}
use meshive.Prelude.{
  own_row, ℕ, String, ◌≡◌, refl, sym, ap, ◌∙◌, inl, inr, true, ◌&&◌, some, List, [], ◌∷◌, ◌++◌,
  arith, Bool-cases, some-injective, any, All, ◌==◌, string_eq, nat_eq, eq_of_beq, get, put,
  get-put,
}
use meshive.Http.{ok, Holds, require-Holds, found-Holds, Holds-ok}
use meshive.Models.{User, UnicodeText}
use meshive.Auth.Access.{AccessContext}
use meshive.Creators.{
  CreatorProfile, CreatorAlias, Creators, CreatorProfileWrite, resolved, profile_row, named_ids,
  alias_ids, owners, with_alias, new_alias, find_creator_profile, normalize_creator_name,
  assert_manageable, update_profile,
}
use meshive.Creators.Identity.{IsIdentified}
use meshive.Creators.Identity.Found.{find_creator_profile-IsFound}
use meshive.Creators.Identity.Runs.{update-Identified}

module _ (P : ℕ → Type 0) (n : String) where
  split-All : (xs ys : List ℕ) → All P (xs ++ ys) → All P ys
  split-All [] ys h = h
  split-All (x ∷ xs) ys h = split-All xs ys h.1

  in_append :
      (xs : List CreatorAlias) (a : CreatorAlias)
      → All P (alias_ids n (xs ++ a ∷ []))
      → All P (alias_ids n xs)
  unfolding alias_ids
  in_append [] a h = tt
  in_append (x ∷ xs) a h = elim (Bool-cases (x.normalized_alias == n)) [
    | inl e ↦
        (let both : All P (x.creator_profile_id ∷ alias_ids n (xs ++ a ∷ [])) = rw e at h in
          rw e (both.0, in_append xs a both.1))
    | inr e ↦ rw e (in_append xs a (rw e at h))
  ]

  last_append :
      (xs : List CreatorAlias) (a : CreatorAlias)
      → a.normalized_alias ≡ n
      → All P (alias_ids n (xs ++ a ∷ []))
      → P a.creator_profile_id
  unfolding alias_ids
  last_append [] a e h =
      (let both : All P (a.creator_profile_id ∷ []) =
          rw ((string_eq.equal_iff a.normalized_alias n).1 e) at h in
        both.0)
  last_append (x ∷ xs) a e h = elim (Bool-cases (x.normalized_alias == n)) [
    | inl q ↦
        (let both : All P (x.creator_profile_id ∷ alias_ids n (xs ++ a ∷ [])) = rw q at h in
          last_append xs a e both.1)
    | inr q ↦ last_append xs a e (rw q at h)
  ]

  any_owner :
      (i : ℕ) (xs : List CreatorAlias)
      → any (λ a. a.creator_profile_id == i && a.normalized_alias == n) xs ≡ true
      → All P (alias_ids n xs)
      → P i
  unfolding alias_ids
  any_owner i [] e h = cc
  any_owner i (x ∷ xs) e h = elim (Bool-cases (x.normalized_alias == n)) [
    | inl q ↦
        (let both : All P (x.creator_profile_id ∷ alias_ids n xs) = rw q at h in
          elim (Bool-cases (x.creator_profile_id == i)) [
            | inl r ↦ subst P (eq_of_beq r) both.0
            | inr r ↦ any_owner i xs (rw r at e) both.1
          ])
    | inr q ↦ any_owner i xs (ground arith) (rw q at h)
  ]

  -- An alias that is there, or was added, makes the profile an owner of the key.
  with_owner :
      (i : ℕ) (text : String) (xs : List CreatorAlias)
      → All P (alias_ids n (with_alias i text n xs))
      → P i
  unfolding with_alias
  with_owner i text xs h =
      elim (Bool-cases (any (λ a. a.creator_profile_id == i && a.normalized_alias == n) xs)) [
        | inl e ↦ any_owner i xs e (rw e at h)
        | inr e ↦ last_append xs (new_alias i text n xs) refl (rw e at h)
      ]

  with_others :
      (i : ℕ) (text m : String) (xs : List CreatorAlias)
      → All P (alias_ids n (with_alias i text m xs))
      → All P (alias_ids n xs)
  unfolding with_alias
  with_others i text m xs h =
      elim (Bool-cases (any (λ a. a.creator_profile_id == i && a.normalized_alias == m) xs)) [
        | inl e ↦ rw e at h
        | inr e ↦ in_append xs (new_alias i text m xs) (rw e at h)
      ]

-- A key that a stored profile owns, by an alias, is resolved to it.
resolved_of :
    (n : String) (db : Creators) (q : CreatorProfile)
    → IsIdentified db.profiles db.aliases
    → get q.id db.profiles ≡ some q
    → ((P : ℕ → Type 0) → All P (owners n db) → P q.id)
    → find_creator_profile n db ≡ resolved q
resolved_of n db q w stored owned = elim (find_creator_profile-IsFound n db w) [
  | inl nobody_has ↦ absurd (owned (λ _. ⊥) (rw nobody_has tt))
  | inr (p, f) ↦
      (let same : q.id ≡ p.id = owned (λ j. j ≡ p.id) f.only in
        let row : q ≡ p =
          some-injective (sym stored ∙ ap (λ i. get i db.profiles) same ∙ f.stored) in
        f.found ∙ ap resolved (sym row))
]

module _ (t : UnicodeText) (i : ℕ) (payload : CreatorProfileWrite) (user : User)
    (access : AccessContext) (db : Creators) (p : CreatorProfile) where
  -- The two names of the row that a change gives.
  Renamed : CreatorProfile × Creators → Type 1
  Renamed r =
      (get r.0.id r.1.profiles ≡ some r.0)
      × (r.0.normalized_name ≡ normalize_creator_name t payload.display_name)
      × ((P : ℕ → Type 0) → All P (owners p.normalized_name r.1) → P r.0.id)
      × ((P : ℕ → Type 0) → All P (owners r.0.normalized_name r.1) → P r.0.id)

  renamed : get i db.profiles ≡ some p → Holds Renamed (update_profile t i payload user access db)
  unfolding update_profile assert_manageable Renamed owners
  renamed known = found-Holds _ _ _ _ (λ x e. require-Holds _ _ _ _ (λ scope.
      require-Holds _ _ _ _ (λ unused. require-Holds _ _ _ _ (λ flushed.
        require-Holds _ _ _ _ (λ distinct.
          let same : p ≡ x = some-injective (sym known ∙ e) in
          let n = normalize_creator_name t payload.display_name in
          let q : CreatorProfile = record x {
            display_name = payload.display_name;
            normalized_name = n;
            description = payload.description;
          } in
          let old = with_alias x.id x.display_name x.normalized_name db.aliases in
          (
            ground (arith, get-put x.id q db.profiles, own_row i db.profiles x e),
            refl,
            (λ P h. with_owner P x.normalized_name x.id x.display_name db.aliases (
                with_others P x.normalized_name x.id payload.display_name n old (
                  subst
                    (λ (y : CreatorProfile).
                      All P
                        (alias_ids y.normalized_name (with_alias x.id payload.display_name n old)))
                    same
                    (split-All P p.normalized_name (named_ids p.normalized_name (put q db.profiles))
                      _ h)))),
            (λ P h.
                with_owner P n x.id payload.display_name old
                  (split-All P n (named_ids n (put q db.profiles)) _ h)),
          ))))))

-- After a change of a profile, its new name and the name that it had before both resolve to it, when a
-- key belonged to one profile at most before.
pub former_name_resolves :
    (t : UnicodeText) (i : ℕ) (payload : CreatorProfileWrite) (user : User) (access : AccessContext)
    (db : Creators) (p q : CreatorProfile) (db' : Creators)
    → IsIdentified db.profiles db.aliases
    → get i db.profiles ≡ some p
    → update_profile t i payload user access db ≡ ok (q, db')
    → (find_creator_profile (normalize_creator_name t payload.display_name) db' ≡ resolved q)
      × (find_creator_profile p.normalized_name db' ≡ resolved q)
unfolding Renamed
former_name_resolves t i payload user access db p q db' w known e =
    let after : IsIdentified db'.profiles db'.aliases =
      Holds-ok (λ r. IsIdentified r.1.profiles r.1.aliases) _
        (update-Identified t i payload user access db w) e in
    let (stored, name, former, new) =
      Holds-ok (Renamed t i payload user access db p) _ (renamed t i payload user access db p known)
        e in
    (
      resolved_of _ db' q after stored
          (λ P h. new P (subst (λ n. All P (owners n db')) (sym name) h)),
      resolved_of p.normalized_name db' q after stored former,
    )
