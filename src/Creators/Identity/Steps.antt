-- ===== src/Creators/Identity/Steps.antt =====
-- backend/meshive/api/creator_profiles.py: the writes of the requests on profiles, and the keys.
use mathlib.Core.Path.{subst}
use mathlib.Core.Bool.{false≢true}
use meshive.Prelude.{
  ℕ, String, ◌≡◌, refl, sym, ◌∙◌, inl, inr, true, false, not, ◌&&◌, Option, some, List, [], ◌∷◌,
  ◌++◌, arith, Bool-cases, is_some, any, All, All-append, All-imp, ◌==◌, string_eq, nat_eq, get,
  put, delete, next_id, get-put, get-append, eq_of_beq, append-HasKeys, put-HasKeys, All-delete,
}
use meshive.Creators.{
  CreatorProfile, CreatorAlias, Creators, profile_row, alias_row, named_ids, alias_ids,
  identity_conflict, is_excluded, with_alias, new_alias,
}
use meshive.Creators.Identity.{
  AllOf, IsIdentified, named-append, alias-append, named-put, alias-delete, named-get, named-free,
  alias-free,
}

-- A key without a conflict belongs to the profile that is left out, if to any.
pub free :
    (P : ℕ → Type 0) (n : String) (left : Option ℕ) (db : Creators)
    → identity_conflict n left db ≡ false
    → ((j : ℕ) → is_excluded left j ≡ true → P j)
    → All P (named_ids n db.profiles) × All P (alias_ids n db.aliases)
unfolding identity_conflict
free P n left db h k = (
  named-free P n left db.profiles (ground arith) k,
  alias-free P n left db.aliases (ground arith) k,
)

-- The profile that has a name is the one that its key belongs to.
pub owner_of :
    (n : String) (i : ℕ) (ps : List CreatorProfile) (xs : List CreatorAlias) (p : CreatorProfile)
    → IsIdentified ps xs
    → get i ps ≡ some p
    → p.normalized_name ≡ n
    → AllOf p.id (named_ids n ps) × AllOf p.id (alias_ids n xs)
owner_of n i ps xs p w e same =
    let (j, named, aliased) = w.one n in
    let own : p.id ≡ j = named-get (λ k. k ≡ j) n i ps p e same named in
    subst (λ k. AllOf k (named_ids n ps) × AllOf k (alias_ids n xs)) (sym own) (named, aliased)

present-append :
    (ps : List CreatorProfile) (q : CreatorProfile) (xs : List CreatorAlias)
    → All (λ a. is_some (get a.creator_profile_id ps) ≡ true) xs
    → All (λ a. is_some (get a.creator_profile_id (ps ++ q ∷ [])) ≡ true) xs
present-append ps q = All-imp _ _ λ a h. ground (arith, get-append a.creator_profile_id ps q)

present-put :
    (ps : List CreatorProfile) (q : CreatorProfile) (xs : List CreatorAlias)
    → All (λ a. is_some (get a.creator_profile_id ps) ≡ true) xs
    → All (λ a. is_some (get a.creator_profile_id (put q ps)) ≡ true) xs
present-put ps q = All-imp _ _ λ a h. ground (arith, get-put a.creator_profile_id q ps)

pub present-with :
    (ps : List CreatorProfile) (i : ℕ) (text n : String) (xs : List CreatorAlias)
    → is_some (get i ps) ≡ true
    → All (λ a. is_some (get a.creator_profile_id ps) ≡ true) xs
    → All (λ a. is_some (get a.creator_profile_id ps) ≡ true) (with_alias i text n xs)
unfolding with_alias
present-with ps i text n xs there h =
    elim (Bool-cases (any (λ a. a.creator_profile_id == i && a.normalized_alias == n) xs)) [
      | inl e ↦ rw e h
      | inr e ↦ rw e (All-append _ xs (new_alias i text n xs ∷ []) h (there, tt))
    ]

pub same_key : (a n : String) → ◌==◌ {A = String} a n ≡ true → a ≡ n
same_key a n h = (string_eq.equal_iff a n).0 h

-- A new profile with a key that nobody has.
pub new-IsIdentified :
    (ps : List CreatorProfile) (xs : List CreatorAlias) (q : CreatorProfile)
    → q.id ≡ next_id ps
    → AllOf q.id (named_ids q.normalized_name ps) × AllOf q.id (alias_ids q.normalized_name xs)
    → IsIdentified ps xs
    → IsIdentified (ps ++ q ∷ []) xs
new-IsIdentified ps xs q fresh unused w = record {
  keys = append-HasKeys ps q fresh w.keys;
  one = λ k. elim (Bool-cases (◌==◌ {A = String} q.normalized_name k)) [
    | inl same ↦
        (let taken : AllOf q.id (named_ids k ps) × AllOf q.id (alias_ids k xs) =
            subst (λ m. AllOf q.id (named_ids m ps) × AllOf q.id (alias_ids m xs))
              (same_key q.normalized_name k same) unused in
          (q.id, named-append (λ j. j ≡ q.id) k ps q taken.0 (λ _. refl), taken.1))
    | inr other ↦
        (let (i, named, aliased) = w.one k in
          (
            i,
            named-append (λ j. j ≡ i) k ps q named (λ e. absurd (false≢true (sym other ∙ e))),
            aliased,
          ))
  ];
  present = present-append ps q xs w.present;
}

-- An alias of a profile with a key that no other profile has.
pub alias-IsIdentified :
    (ps : List CreatorProfile) (xs : List CreatorAlias) (a : CreatorAlias)
    → is_some (get a.creator_profile_id ps) ≡ true
    → AllOf a.creator_profile_id (named_ids a.normalized_alias ps)
      × AllOf a.creator_profile_id (alias_ids a.normalized_alias xs)
    → IsIdentified ps xs
    → IsIdentified ps (xs ++ a ∷ [])
alias-IsIdentified ps xs a there unused w = record {
  keys = w.keys;
  one = λ k. elim (Bool-cases (◌==◌ {A = String} a.normalized_alias k)) [
    | inl same ↦
        (let i = a.creator_profile_id in
          let taken : AllOf i (named_ids k ps) × AllOf i (alias_ids k xs) =
            subst (λ m. AllOf i (named_ids m ps) × AllOf i (alias_ids m xs))
              (same_key a.normalized_alias k same) unused in
          (i, taken.0, alias-append (λ j. j ≡ i) k xs a taken.1 (λ _. refl)))
    | inr other ↦
        (let (i, named, aliased) = w.one k in
          (
            i,
            named,
            alias-append (λ j. j ≡ i) k xs a aliased (λ e. absurd (false≢true (sym other ∙ e))),
          ))
  ];
  present = All-append _ xs (a ∷ []) w.present (there, tt);
}

-- A profile that takes a key which no other profile has.
pub put-IsIdentified :
    (ps : List CreatorProfile) (xs : List CreatorAlias) (q : CreatorProfile)
    → AllOf q.id (named_ids q.normalized_name ps) × AllOf q.id (alias_ids q.normalized_name xs)
    → IsIdentified ps xs
    → IsIdentified (put q ps) xs
put-IsIdentified ps xs q unused w = record {
  keys = put-HasKeys q ps w.keys;
  one = λ k. elim (Bool-cases (◌==◌ {A = String} q.normalized_name k)) [
    | inl same ↦
        (let taken : AllOf q.id (named_ids k ps) × AllOf q.id (alias_ids k xs) =
            subst (λ m. AllOf q.id (named_ids m ps) × AllOf q.id (alias_ids m xs))
              (same_key q.normalized_name k same) unused in
          (q.id, named-put (λ j. j ≡ q.id) k ps q taken.0 (λ _. refl), taken.1))
    | inr other ↦
        (let (i, named, aliased) = w.one k in
          (
            i,
            named-put (λ j. j ≡ i) k ps q named (λ e. absurd (false≢true (sym other ∙ e))),
            aliased,
          ))
  ];
  present = present-put ps q xs w.present;
}

pub unalias-IsIdentified :
    (ps : List CreatorProfile) (xs : List CreatorAlias) (i : ℕ)
    → IsIdentified ps xs
    → IsIdentified ps (delete i xs)
unalias-IsIdentified ps xs i w = record {
  keys = w.keys;
  one = λ k.
      (let (j, named, aliased) = w.one k in (j, named, alias-delete (λ m. m ≡ j) k i xs aliased));
  present = All-delete _ i xs w.present;
}

pub with-IsIdentified :
    (ps : List CreatorProfile) (xs : List CreatorAlias) (i : ℕ) (text n : String)
    → is_some (get i ps) ≡ true
    → AllOf i (named_ids n ps) × AllOf i (alias_ids n xs)
    → IsIdentified ps xs
    → IsIdentified ps (with_alias i text n xs)
unfolding with_alias
with-IsIdentified ps xs i text n there unused w =
    elim (Bool-cases (any (λ a. a.creator_profile_id == i && a.normalized_alias == n) xs)) [
      | inl e ↦ rw e w
      | inr e ↦ rw e (alias-IsIdentified ps xs (new_alias i text n xs) there unused w)
    ]

-- A key that is the profile's own, or that nobody else has.
pub renamed :
    (n : String) (p : CreatorProfile) (db : Creators)
    → IsIdentified db.profiles db.aliases
    → get p.id db.profiles ≡ some p
    → not (not (n == p.normalized_name) && identity_conflict n (some p.id) db) ≡ true
    → AllOf p.id (named_ids n db.profiles) × AllOf p.id (alias_ids n db.aliases)
renamed n p db w known unused = elim (Bool-cases (◌==◌ {A = String} n p.normalized_name)) [
  | inl e ↦ owner_of n p.id db.profiles db.aliases p w known (sym (same_key n p.normalized_name e))
  | inr e ↦ free (λ j. j ≡ p.id) n (some p.id) db (ground arith) (λ j h. eq_of_beq h)
]
