-- ===== src/Creators.antt =====
-- backend/meshive/creators.py and api/creator_profiles.py: the profiles of creators, the names that
-- they go by, and who may change them. A restricted curator works on profiles whose models lie in the
-- curator's sources.
pub mod Identity
pub mod Rename
pub mod Merge
pub mod Tests
use meshive.Prelude.{
  ℕ, String, Bool, true, false, not, ◌&&◌, ◌||◌, Option, none, some, List, [], ◌∷◌, ◌++◌, map,
  if◌then◌else◌, is_some, filter, find, all, any, contains, ◌==◌, string_eq, nat_eq, Row, get, put,
  delete, next_id,
}
use meshive.Http.{Response, ok, error, http_error, require, found, ◌>>=◌, ◌>>◌}
use meshive.Models.{User, AuditEvent, UnicodeText}
use meshive.Auth.Access.{AccessContext, get_visible_source_ids}

-- `CreatorProfile`, `CreatorAlias` and `CreatorLink` of models/creator.py.
pub record CreatorProfile : Type 0 where
  pub id : ℕ
  pub display_name : String
  pub normalized_name : String
  pub description : Option String
  pub artwork_id : Option ℕ
  pub is_active : Bool
  pub merged_into_id : Option ℕ

pub record CreatorAlias : Type 0 where
  pub id : ℕ
  pub creator_profile_id : ℕ
  pub alias : String
  pub normalized_alias : String

pub record CreatorLink : Type 0 where
  pub id : ℕ
  pub creator_profile_id : Option ℕ
  pub creator_name : String
  pub kind : String
  pub label : String
  pub url : String

-- The columns of `LibraryModel` that go with a creator.
pub record CreatorModel : Type 0 where
  pub id : ℕ
  pub library_source_id : ℕ
  pub creator_profile_id : Option ℕ

-- The columns of `FavoriteListItem` of models/favorite.py that go with a creator.
pub record FavoriteListItem : Type 0 where
  pub id : ℕ
  pub favorite_list_id : ℕ
  pub entity_key : String
  pub label : String
  pub creator_profile_id : Option ℕ

-- What a merge keeps of a source, as `CreatorMerge.snapshot` has it.
pub record Snapshot : Type 0 where
  pub source : CreatorProfile
  pub target_artwork_before : Option ℕ
  pub models : List ℕ
  pub aliases : List ℕ
  pub links : List ℕ
  pub favorites : List ℕ

-- `CreatorMerge` of models/creator.py
pub record CreatorMerge : Type 0 where
  pub id : ℕ
  pub target_profile_id : ℕ
  pub source_profile_id : ℕ
  pub snapshot : Snapshot
  pub undone_at : Option ℕ

pub record Creators : Type 0 where
  pub profiles : List CreatorProfile
  pub aliases : List CreatorAlias
  pub links : List CreatorLink
  pub models : List CreatorModel
  pub favorites : List FavoriteListItem
  pub merges : List CreatorMerge
  pub audit : List AuditEvent

instance abbrev pub profile_row : Row CreatorProfile
profile_row = record { key = λ p. p.id }

instance abbrev pub alias_row : Row CreatorAlias
alias_row = record { key = λ a. a.id }

unfoldable pub normalize_creator_name : UnicodeText → String → String
normalize_creator_name t value = t.casefold (t.strip (t.nfkc value))

-- The profiles that a key belongs to, by name or by alias.
unfoldable pub named_ids : String → List CreatorProfile → List ℕ
named_ids n [] = []
named_ids n (p ∷ ps) =
    let rest = named_ids n ps in if p.normalized_name == n then p.id ∷ rest else rest

unfoldable pub alias_ids : String → List CreatorAlias → List ℕ
alias_ids n [] = []
alias_ids n (a ∷ bs) =
    let rest = alias_ids n bs in
    if a.normalized_alias == n then a.creator_profile_id ∷ rest else rest

unfoldable pub owners : String → Creators → List ℕ
unfolding named_ids alias_ids
owners n db = named_ids n db.profiles ++ alias_ids n db.aliases

-- `CreatorResolutionConflictError`, `None`, or a profile.
pub data Resolution : Type 0 where
  conflict nobody : Resolution
  resolved : CreatorProfile → Resolution

abbrev pub of_row : Option CreatorProfile → Resolution
of_row none = nobody
of_row (some p) = resolved p

unfoldable pub owned : Option CreatorProfile → ℕ → List CreatorProfile → Resolution
owned none i ps = of_row (get i ps)
owned (some p) i ps = if p.id == i then resolved p else of_row (get i ps)

unfoldable pub found_among : String → List ℕ → List CreatorProfile → Resolution
unfolding owned
found_among n [] ps = nobody
found_among n (i ∷ rest) ps =
    if all (λ j. j == i) rest then owned (find (λ p. p.normalized_name == n) ps) i ps else conflict

unfoldable pub find_creator_profile : String → Creators → Resolution
unfolding found_among owners
find_creator_profile n db = found_among n (owners n db) db.profiles

abbrev pub new_profile : ℕ → String → String → Option String → CreatorProfile
new_profile id display_name normalized description = record {
  id = id;
  display_name = display_name;
  normalized_name = normalized;
  description = description;
  artwork_id = none;
  is_active = true;
  merged_into_id = none;
}

unfoldable pub resolve_new : String → String → Resolution → Creators → Resolution × Creators
resolve_new display_name normalized conflict db = (conflict, db)
resolve_new display_name normalized (resolved p) db = (resolved p, db)
resolve_new display_name normalized nobody db =
    let p = new_profile (next_id db.profiles) display_name normalized none in
    (resolved p, record db { profiles = db.profiles ++ p ∷ [] })

unfoldable pub resolve_creator_profile :
    UnicodeText → Option String → Creators → Resolution × Creators
unfolding normalize_creator_name resolve_new find_creator_profile
resolve_creator_profile t none db = (nobody, db)
resolve_creator_profile t (some raw_creator) db =
    let display_name = t.strip raw_creator in
    let normalized = normalize_creator_name t raw_creator in
    if display_name == "" || normalized == ""
    then (nobody, db)
    else resolve_new display_name normalized (find_creator_profile normalized db) db

-- The sources of the models that the profiles have.
unfoldable pub relevant_sources : List ℕ → List CreatorModel → List ℕ
relevant_sources ids [] = []
relevant_sources ids (m ∷ ms) =
    let rest = relevant_sources ids ms in
    elim m.creator_profile_id [
      | none ↦ rest
      | some i ↦ if contains ids i then m.library_source_id ∷ rest else rest
    ]

abbrev pub is_within : List ℕ → Option (List ℕ) → Bool
is_within relevant none = true
is_within [] (some visible) = false
is_within (i ∷ relevant) (some visible) = all (contains visible) (i ∷ relevant)

unfoldable pub assert_manageable : AccessContext → List ℕ → Creators → Response (Unit {0})
unfolding relevant_sources
assert_manageable access ids db =
    require (is_within (relevant_sources ids db.models) (get_visible_source_ids access))
      (http_error 403 "Creator profile is outside your source scope")

abbrev is_excluded : Option ℕ → ℕ → Bool
is_excluded none i = false
is_excluded (some excluded) i = i == excluded

unfoldable pub identity_conflict : String → Option ℕ → Creators → Bool
identity_conflict n exclude_profile_id db =
    any (λ p. p.normalized_name == n && not (is_excluded exclude_profile_id p.id)) db.profiles
    || any
        (λ a. a.normalized_alias == n && not (is_excluded exclude_profile_id a.creator_profile_id))
        db.aliases

-- `CreatorProfileWrite` of schemas/creator.py, whose name is stripped and not blank.
pub record CreatorProfileWrite : Type 0 where
  pub display_name : String
  pub description : Option String

abbrev pub event : ℕ → String → CreatorProfile → AuditEvent
event actor action p = record {
  actor_id = actor;
  action = action;
  target_type = "creator_profile";
  target_label = p.display_name;
  target_id = some p.id;
}

abbrev pub new_alias : ℕ → String → String → List CreatorAlias → CreatorAlias
new_alias profile_id alias normalized bs = record {
  id = next_id bs;
  creator_profile_id = profile_id;
  alias = alias;
  normalized_alias = normalized;
}

unfoldable pub create_profile :
    UnicodeText
    → CreatorProfileWrite
    → User
    → AccessContext
    → Creators
    → Response (CreatorProfile × Creators)
unfolding identity_conflict normalize_creator_name
create_profile t payload current_user access db = do
  require (not (is_some (get_visible_source_ids access)))
      (http_error 403 "Creating source-less profiles requires all-source access")
  let normalized = normalize_creator_name t payload.display_name
  require (not (identity_conflict normalized none db))
      (http_error 409 "Creator name conflicts with an existing profile or alias")
  let p = new_profile (next_id db.profiles) payload.display_name normalized payload.description
  ok (
    p,
    record db {
      profiles = db.profiles ++ p ∷ [];
      aliases = db.aliases ++ new_alias p.id payload.display_name normalized db.aliases ∷ [];
      audit = db.audit ++ event current_user.id "creator_profile.created" p ∷ [];
    },
  )

-- An alias is added unless the profile has it.
unfoldable pub with_alias : ℕ → String → String → List CreatorAlias → List CreatorAlias
with_alias profile_id alias normalized bs =
    if any (λ a. a.creator_profile_id == profile_id && a.normalized_alias == normalized) bs
    then bs
    else bs ++ new_alias profile_id alias normalized bs ∷ []

-- The unique columns that a commit checks: `normalized_name`, and `normalized_alias`.
unfoldable pub is_distinct : List String → Bool
is_distinct [] = true
is_distinct (n ∷ ns) = not (contains ns n) && is_distinct ns

unfoldable pub update_profile :
    UnicodeText
    → ℕ
    → CreatorProfileWrite
    → User
    → AccessContext
    → Creators
    → Response (CreatorProfile × Creators)
unfolding identity_conflict normalize_creator_name with_alias assert_manageable is_distinct
update_profile t profile_id payload current_user access db = do
  p ← found (get profile_id db.profiles) (http_error 404 "Creator profile not found")
  assert_manageable access (p.id ∷ []) db
  let normalized = normalize_creator_name t payload.display_name
  require
      (not (not (normalized == p.normalized_name) && identity_conflict normalized (some p.id) db))
      (http_error 409 "Creator name conflicts with an existing profile or alias")
  let changed : CreatorProfile = record p {
    display_name = payload.display_name;
    normalized_name = normalized;
    description = payload.description;
  }
  let profiles = put changed db.profiles
  let kept = (with_alias p.id p.display_name p.normalized_name db.aliases)
  -- The second query flushes the profile and the former name, and nothing catches its error.
  require
      (is_distinct (map (λ x. x.normalized_name) profiles)
        && is_distinct (map (λ x. x.normalized_alias) kept))
      (http_error 500 "Internal Server Error")
  let aliases = with_alias p.id payload.display_name normalized kept
  require (is_distinct (map (λ x. x.normalized_alias) aliases))
      (http_error 409 "Creator name conflicts with an existing profile or alias")
  ok (
    changed,
    record db {
      profiles = profiles;
      aliases = aliases;
      audit = db.audit ++ event current_user.id "creator_profile.updated" changed ∷ [];
    },
  )

unfoldable pub add_alias :
    UnicodeText → ℕ → String → User → AccessContext → Creators → Response (CreatorAlias × Creators)
unfolding identity_conflict normalize_creator_name assert_manageable is_distinct
add_alias t profile_id alias current_user access db = do
  p ← found (get profile_id db.profiles) (http_error 404 "Creator profile not found")
  assert_manageable access (p.id ∷ []) db
  let normalized = normalize_creator_name t alias
  require (not (normalized == p.normalized_name || identity_conflict normalized (some p.id) db))
      (http_error 409 "Creator alias conflicts with an existing profile or alias")
  let a = new_alias p.id alias normalized db.aliases
  -- The row is flushed, and nothing catches the error of a second alias of the profile itself.
  require (is_distinct (map (λ x. x.normalized_alias) (db.aliases ++ a ∷ [])))
      (http_error 500 "Internal Server Error")
  ok (
    a,
    record db {
      aliases = db.aliases ++ a ∷ [];
      audit = db.audit ++ event current_user.id "creator_alias.added" p ∷ [];
    },
  )

unfoldable pub remove_alias :
    ℕ → ℕ → User → AccessContext → Creators → Response (Unit {0} × Creators)
unfolding assert_manageable
remove_alias profile_id alias_id current_user access db = do
  p ← found (get profile_id db.profiles) (http_error 404 "Creator profile not found")
  assert_manageable access (p.id ∷ []) db
  a ←
      found (find (λ x. x.id == alias_id && x.creator_profile_id == p.id) db.aliases)
        (http_error 404 "Creator alias not found")
  require (not (a.normalized_alias == p.normalized_name))
      (http_error 409 "The canonical alias cannot be removed")
  ok (
    tt,
    record db {
      aliases = delete a.id db.aliases;
      audit = db.audit ++ event current_user.id "creator_alias.removed" p ∷ [];
    },
  )
