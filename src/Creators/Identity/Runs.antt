-- ===== src/Creators/Identity/Runs.antt =====
-- backend/meshive/creators.py and api/creator_profiles.py: the requests on profiles and the creators
-- that scans resolve, one after the other.
use mathlib.Core.Bool.{false≢true}
use meshive.Prelude.{
  own_row, ℕ, String, ◌≡◌, ◌≢◌, refl, sym, ap, ◌∙◌, inl, inr, ◌||◌, Option, none, some, List, [],
  ◌∷◌, ◌++◌, arith, Bool-cases, is_some, All, ◌==◌, string_eq, nat_eq, get, put, next_id, get-put,
  get-append, eq_of_beq,
}
use meshive.Http.{Response, ok, error, Holds, require-Holds, found-Holds}
use meshive.Models.{User, UnicodeText}
use meshive.Auth.Access.{AccessContext}
use meshive.Creators.{
  CreatorProfile, Creators, CreatorProfileWrite, conflict, nobody, resolved, profile_row, alias_row,
  named_ids, alias_ids, owners, with_alias, new_alias, new_profile, found_among,
  find_creator_profile, resolve_new, resolve_creator_profile, assert_manageable, create_profile,
  update_profile, add_alias, remove_alias, normalize_creator_name,
}
use meshive.Creators.Identity.{AllOf, IsIdentified, named-append, named-put, alias-with}
use meshive.Creators.Identity.Found.{find_creator_profile-IsFound}
use meshive.Creators.Identity.Steps.{
  with-IsIdentified, renamed, free, owner_of, new-IsIdentified, alias-IsIdentified,
  put-IsIdentified, unalias-IsIdentified,
}

-- A request, or the creator of a scanned model.
pub data Request : Type 0 where
  scanned : Option String → Request
  create : CreatorProfileWrite → User → AccessContext → Request
  update : ℕ → CreatorProfileWrite → User → AccessContext → Request
  alias : ℕ → String → User → AccessContext → Request
  unalias : ℕ → ℕ → User → AccessContext → Request

-- What is in the database after a handler: nothing changes when it raises.
abbrev pub committed : {A : Type 0} → Creators → Response (A × Creators) → Creators
committed db (ok (a, db')) = db'
committed db (error e) = db

unfoldable pub handle : UnicodeText → Request → Creators → Creators
handle t (scanned raw_creator) db = (resolve_creator_profile t raw_creator db).1
handle t (create payload user access) db = committed db (create_profile t payload user access db)
handle t (update i payload user access) db =
    committed db (update_profile t i payload user access db)
handle t (alias i text user access) db = committed db (add_alias t i text user access db)
handle t (unalias i j user access) db = committed db (remove_alias i j user access db)

abbrev pub run : UnicodeText → List Request → Creators → Creators
run t [] db = db
run t (r ∷ rs) db = run t rs (handle t r db)

committed-Holds :
    {A : Type 0} (P : Creators → Type 0) (db : Creators) (m : Response (A × Creators))
    → P db
    → Holds (λ r. P r.1) m
    → P (committed db m)
committed-Holds P db (ok (a, db')) h k = k
committed-Holds P db (error e) h k = h

abbrev Identified : Creators → Type 0
Identified db = IsIdentified db.profiles db.aliases

no_owner : (P : ℕ → Type 0) (xs ys : List ℕ) → xs ++ ys ≡ [] → All P xs × All P ys
no_owner P [] [] e = (tt, tt)
no_owner P [] (y ∷ ys) e = cc
no_owner P (x ∷ xs) ys e = cc

pub found_of_none :
    (n : String) (db : Creators) → owners n db ≡ [] → find_creator_profile n db ≡ nobody
unfolding find_creator_profile found_among
found_of_none n db e = rw e refl

no_conflict :
    (n : String) (db : Creators)
    → IsIdentified db.profiles db.aliases
    → find_creator_profile n db ≢ conflict
no_conflict n db w e = elim (find_creator_profile-IsFound n db w) [
  | inl nobody_has ↦ (let q : conflict ≡ nobody = sym e ∙ found_of_none n db nobody_has in cc)
  | inr (p, f) ↦ (let q : conflict ≡ resolved p = sym e ∙ f.found in cc)
]

owners-split :
    (n : String) (db : Creators) → owners n db ≡ named_ids n db.profiles ++ alias_ids n db.aliases
unfolding owners
owners-split n db = refl

module _ (t : UnicodeText) where
  create-Identified :
      (payload : CreatorProfileWrite) (user : User) (access : AccessContext) (db : Creators)
      → Identified db
      → Holds (λ r. Identified r.1) (create_profile t payload user access db)
  unfolding create_profile
  create-Identified payload user access db w = require-Holds _ _ _ _ (λ scope.
      require-Holds _ _ _ _ (λ unused.
        let n = normalize_creator_name t payload.display_name in
        let p = new_profile (next_id db.profiles) payload.display_name n payload.description in
        let a = new_alias p.id payload.display_name n db.aliases in
        let none_has =
          free (λ j. j ≡ p.id) n none db (ground arith) (λ j h. absurd (false≢true h)) in
        alias-IsIdentified (db.profiles ++ p ∷ []) db.aliases a
          (ground (arith, get-append p.id db.profiles p))
          (named-append (λ j. j ≡ p.id) n db.profiles p none_has.0 (λ _. refl), none_has.1)
          (new-IsIdentified db.profiles db.aliases p refl none_has w)))

  pub update-Identified :
      (i : ℕ) (payload : CreatorProfileWrite) (user : User) (access : AccessContext) (db : Creators)
      → Identified db
      → Holds (λ r. Identified r.1) (update_profile t i payload user access db)
  unfolding update_profile assert_manageable
  update-Identified i payload user access db w = found-Holds _ _ _ _ (λ p known.
      require-Holds _ _ _ _ (λ scope. require-Holds _ _ _ _ (λ unused.
        require-Holds _ _ _ _ (λ flushed. require-Holds _ _ _ _ (λ distinct.
          let n = normalize_creator_name t payload.display_name in
          let old = p.normalized_name in
          let q : CreatorProfile = record p {
            display_name = payload.display_name;
            normalized_name = n;
            description = payload.description;
          } in
          let own : get p.id db.profiles ≡ some p = own_row i db.profiles p known in
          let taken = renamed n p db w own unused in
          let former = owner_of old p.id db.profiles db.aliases p w own refl in
          let xs = with_alias p.id p.display_name old db.aliases in
          let kept =
            with-IsIdentified db.profiles db.aliases p.id p.display_name old (ap is_some own) former
              w in
          let taken' : AllOf p.id (named_ids n db.profiles) × AllOf p.id (alias_ids n xs) = (
            taken.0,
            alias-with (λ j. j ≡ p.id) n p.id p.display_name old db.aliases taken.1 (λ _. refl),
          ) in
          with-IsIdentified (put q db.profiles) xs p.id payload.display_name n
            (ground (arith, get-put p.id q db.profiles))
            (named-put (λ j. j ≡ p.id) n db.profiles q taken'.0 (λ _. refl), taken'.1)
            (put-IsIdentified db.profiles xs q taken' kept))))))

  alias-Identified :
      (i : ℕ) (text : String) (user : User) (access : AccessContext) (db : Creators)
      → Identified db
      → Holds (λ r. Identified r.1) (add_alias t i text user access db)
  unfolding add_alias assert_manageable
  alias-Identified i text user access db w = found-Holds _ _ _ _ (λ p known.
      require-Holds _ _ _ _ (λ scope. require-Holds _ _ _ _ (λ unused.
        require-Holds _ _ _ _ (λ distinct.
          let n = normalize_creator_name t text in
          alias-IsIdentified db.profiles db.aliases (new_alias p.id text n db.aliases)
            (ap is_some (own_row i db.profiles p known))
            (free (λ j. j ≡ p.id) n (some p.id) db (ground arith) (λ j h. eq_of_beq h)) w))))

  unalias-Identified :
      (i j : ℕ) (user : User) (access : AccessContext) (db : Creators)
      → Identified db
      → Holds (λ r. Identified r.1) (remove_alias i j user access db)
  unfolding remove_alias assert_manageable
  unalias-Identified i j user access db w = found-Holds _ _ _ _ (λ p known.
      require-Holds _ _ _ _ (λ scope. found-Holds _ _ _ _ (λ a listed.
        require-Holds _ _ _ _ (λ other. unalias-IsIdentified db.profiles db.aliases a.id w))))

  -- Nobody has the key of a creator that is not found.
  resolve_new-Identified :
      (text n : String) (db : Creators)
      → Identified db
      → Identified (resolve_new text n (find_creator_profile n db) db).1
  unfolding resolve_new
  resolve_new-Identified text n db w = elim (find_creator_profile-IsFound n db w) [
    | inl nobody_has ↦
        (let p = new_profile (next_id db.profiles) text n none in
          let none_has =
            no_owner (λ j. j ≡ p.id) (named_ids n db.profiles) (alias_ids n db.aliases)
              (sym (owners-split n db) ∙ nobody_has) in
          rw (found_of_none n db nobody_has)
            (new-IsIdentified db.profiles db.aliases p refl none_has w))
    | inr (p, f) ↦ rw f.found w
  ]

  resolve-Identified :
      (raw_creator : Option String) (db : Creators)
      → Identified db
      → Identified (resolve_creator_profile t raw_creator db).1
  unfolding resolve_creator_profile
  resolve-Identified none db w = w
  resolve-Identified (some raw) db w =
      elim (Bool-cases (t.strip raw == "" || normalize_creator_name t raw == "")) [
        | inl e ↦ rw e w
        | inr e ↦ rw e (resolve_new-Identified (t.strip raw) (normalize_creator_name t raw) db w)
      ]

  handle-Identified : (r : Request) (db : Creators) → Identified db → Identified (handle t r db)
  unfolding handle
  handle-Identified (scanned raw_creator) db w = resolve-Identified raw_creator db w
  handle-Identified (create payload user access) db w =
      committed-Holds Identified db _ w (create-Identified payload user access db w)
  handle-Identified (update i payload user access) db w =
      committed-Holds Identified db _ w (update-Identified i payload user access db w)
  handle-Identified (alias i text user access) db w =
      committed-Holds Identified db _ w (alias-Identified i text user access db w)
  handle-Identified (unalias i j user access) db w =
      committed-Holds Identified db _ w (unalias-Identified i j user access db w)

-- Whatever profiles are created and changed, aliases added and removed, and creators scanned, one after
-- the other, a key belongs to one profile at most and an alias to a profile that is there, when this
-- holds before; and no creator is a conflict.
pub run-IsIdentified :
    (t : UnicodeText) (rs : List Request) (db : Creators) (n : String)
    → Identified db
    → IsIdentified (run t rs db).profiles (run t rs db).aliases
      × (find_creator_profile n (run t rs db) ≢ conflict)
run-IsIdentified t [] db n w = (w, no_conflict n db w)
run-IsIdentified t (r ∷ rs) db n w =
    run-IsIdentified t rs (handle t r db) n (handle-Identified t r db w)
