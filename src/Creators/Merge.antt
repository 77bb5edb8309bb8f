-- ===== src/Creators/Merge.antt =====
-- backend/meshive/api/creator_profiles.py: `_merge_preview` and `merge_apply`. The text
-- `merged:<id>:<name>` is the parameter `merged_name`, and `commits` says whether the database takes
-- what is written, or raises the IntegrityError of a unique column.
pub mod Reversal
pub mod Moves
pub mod Outcome
pub mod Undo
use meshive.Prelude.{
  ℕ, ◌+◌, String, Bool, true, false, not, ◌&&◌, ◌||◌, Option, none, some, List, [], ◌∷◌, ◌++◌, map,
  if◌then◌else◌, is_some, filter, find, all, any, contains, ◌==◌, string_eq, nat_eq, Row, get, put,
  next_id,
}
use meshive.Http.{Response, ok, error, http_error, require, found, ◌>>=◌, ◌>>◌}
use meshive.Models.{User, AuditEvent}
use meshive.Auth.Access.{AccessContext}
use meshive.Creators.{
  CreatorProfile, CreatorAlias, CreatorLink, CreatorModel, FavoriteListItem, Snapshot, CreatorMerge,
  Creators, profile_row, alias_row, event, assert_manageable,
}

instance abbrev pub link_row : Row CreatorLink
link_row = record { key = λ l. l.id }

instance abbrev pub model_of_row : Row CreatorModel
model_of_row = record { key = λ m. m.id }

instance abbrev pub favorite_row : Row FavoriteListItem
favorite_row = record { key = λ f. f.id }

instance abbrev pub merge_row : Row CreatorMerge
merge_row = record { key = λ m. m.id }

-- `CreatorMergeLinkResolution.action`
pub data LinkAction : Type 0 where
  keep_target keep_source : LinkAction

-- `artwork_resolution`: `target`, `source:<id>`, or neither of the two.
pub data ArtworkResolution : Type 0 where
  target_artwork unresolved : ArtworkResolution
  source_artwork : ℕ → ArtworkResolution

-- `CreatorMergeApplyRequest` of schemas/creator.py
pub record CreatorMergeApply : Type 0 where
  pub target_profile_id : ℕ
  pub source_profile_ids : List ℕ
  pub artwork_resolution : ArtworkResolution
  pub link_resolutions : List (ℕ × LinkAction)

-- `creator_profile_id.in_(ids)`
abbrev pub belongs : List ℕ → Option ℕ → Bool
belongs ids none = false
belongs ids (some i) = contains ids i

-- The links that a source shares with the target, or with a source before it.
pub record LinkPreview : Type 0 where
  pub duplicate_link_ids : List ℕ
  pub link_conflicts : List (ℕ × ℕ)

unfoldable pub compared : CreatorLink → Option CreatorLink → LinkPreview → LinkPreview
compared l none rest = rest
compared l (some other) rest =
    if other.url == l.url
    then record rest { duplicate_link_ids = l.id ∷ rest.duplicate_link_ids }
    else record rest { link_conflicts = (l.id, other.id) ∷ rest.link_conflicts }

-- `known` is `target_by_key`, the last entry first.
unfoldable pub preview_links : (String → String) → List CreatorLink → List CreatorLink → LinkPreview
unfolding compared
preview_links casefold known [] = record { duplicate_link_ids = []; link_conflicts = [] }
preview_links casefold known (l ∷ ls) =
    let other = find (λ k. k.kind == l.kind && casefold k.label == casefold l.label) known in
    let rest = preview_links casefold (if is_some other then known else l ∷ known) ls in
    compared l other rest

abbrev reversed : List CreatorLink → List CreatorLink → List CreatorLink
reversed [] ys = ys
reversed (x ∷ xs) ys = reversed xs (x ∷ ys)

unfoldable pub merge_preview :
    (String → String) → CreatorProfile → List ℕ → List CreatorLink → LinkPreview
unfolding preview_links
merge_preview casefold target source_ids links =
    preview_links casefold
      (reversed (filter (λ l. belongs (target.id ∷ []) l.creator_profile_id) links) [])
      (filter (λ l. belongs source_ids l.creator_profile_id) links)

-- `[_profile_or_404(session, i) for i in payload.source_profile_ids]`
unfoldable pub profiles_or_404 : List ℕ → List CreatorProfile → Response (List CreatorProfile)
profiles_or_404 [] ps = ok []
profiles_or_404 (i ∷ ids) ps = do
  p ← found (get i ps) (http_error 404 "Creator profile not found")
  rest ← profiles_or_404 ids ps
  ok (p ∷ rest)

-- `choices`: the last resolution of a link counts.
abbrev pub choice_of : ℕ → List (ℕ × LinkAction) → Option LinkAction
choice_of i [] = none
choice_of i ((j, action) ∷ rest) =
    let later = choice_of i rest in
    if is_some later then later else if j == i then some action else none

abbrev pub firsts : {A : Type 0} → List (ℕ × A) → List ℕ
firsts [] = []
firsts ((i, a) ∷ rest) = i ∷ firsts rest

abbrev pub same_ids : List ℕ → List ℕ → Bool
same_ids xs ys = all (contains ys) xs && all (contains xs) ys

abbrev artwork_resolved : ArtworkResolution → CreatorProfile → List CreatorProfile → Bool
artwork_resolved resolution target sources =
    not (is_some target.artwork_id && any (λ s. is_some s.artwork_id) sources) || elim resolution [
      | target_artwork ↦ true
      | unresolved ↦ false
      | source_artwork i ↦ any (λ s. is_some s.artwork_id && s.id == i) sources
    ]

-- `next(...)` raises when no source has the id, which nothing catches.
unfoldable pub chosen_artwork :
    ArtworkResolution → CreatorProfile → List CreatorProfile → Response (Option ℕ)
chosen_artwork target_artwork target sources = ok target.artwork_id
chosen_artwork unresolved target sources = ok target.artwork_id
chosen_artwork (source_artwork i) target sources = do
  s ← found (find (λ s. s.id == i) sources) (http_error 500 "Internal Server Error")
  ok s.artwork_id

-- The aliases of a source go to the target, but for those that the target has by then: `names`.
unfoldable pub moved_aliases : ℕ → ℕ → List String → List CreatorAlias → List CreatorAlias × List ℕ
moved_aliases target source names [] = ([], [])
moved_aliases target source names (a ∷ rest) =
    let moving = a.creator_profile_id == source && not (contains names a.normalized_alias) in
    let (later, ids) =
      moved_aliases target source (if moving then a.normalized_alias ∷ names else names) rest in
    if moving
    then (record a { creator_profile_id = target } ∷ later, a.id ∷ ids)
    else (a ∷ later, ids)

abbrev pub names_of : ℕ → List CreatorAlias → List String
names_of i xs = map (λ a. a.normalized_alias) (filter (λ a. a.creator_profile_id == i) xs)

-- The ids of the rows that pass a test.
module _ {A : Type 0} ⦃r : Row A⦄ where
  abbrev pub ids_of : (A → Bool) → List A → List ℕ
  ids_of p [] = []
  ids_of p (x ∷ xs) = let rest = ids_of p xs in if p x then r.key x ∷ rest else rest

-- The row of a source after the merge.
abbrev pub merged : (ℕ → String → String) → ℕ → CreatorProfile → CreatorProfile
merged merged_name target s = record s {
  normalized_name = merged_name s.id s.normalized_name;
  is_active = false;
  merged_into_id = some target;
}

-- What the loops over the links and the favourites go by.
pub record Choices : Type 0 where
  pub dropped_links : List ℕ
  pub replaced_links : List ℕ
  pub target_lists : List ℕ

abbrev moves_link : Choices → ℕ → CreatorLink → Bool
moves_link c source l =
    belongs (source ∷ []) l.creator_profile_id && not (contains c.dropped_links l.id)

abbrev moves_favorite : Choices → ℕ → FavoriteListItem → Bool
moves_favorite c source f =
    belongs (source ∷ []) f.creator_profile_id && not (contains c.target_lists f.favorite_list_id)

-- The source's links that are deleted for `keep_target`, and the others that `keep_source` deletes.
abbrev kept_target : List (ℕ × LinkAction) → List (ℕ × ℕ) → List ℕ
kept_target resolutions [] = []
kept_target resolutions ((i, other) ∷ rest) =
    let later = kept_target resolutions rest in
    elim (choice_of i resolutions) [
      | none ↦ later
      | some action ↦ elim action [ keep_target ↦ i ∷ later | keep_source ↦ later ]
    ]

abbrev kept_source : List (ℕ × LinkAction) → List (ℕ × ℕ) → List ℕ
kept_source resolutions [] = []
kept_source resolutions ((i, other) ∷ rest) =
    let later = kept_source resolutions rest in
    elim (choice_of i resolutions) [
      | none ↦ later
      | some action ↦ elim action [ keep_target ↦ later | keep_source ↦ other ∷ later ]
    ]

abbrev pub choices_of : LinkPreview → CreatorMergeApply → CreatorProfile → Creators → Choices
choices_of preview payload target db = record {
  dropped_links =
      preview.duplicate_link_ids ++ kept_target payload.link_resolutions preview.link_conflicts;
  replaced_links = kept_source payload.link_resolutions preview.link_conflicts;
  target_lists =
      map (λ f. f.favorite_list_id)
        (filter (λ f. belongs (target.id ∷ []) f.creator_profile_id) db.favorites);
}

-- The merge of a source, with its snapshot.
abbrev pub merge_of : Choices → CreatorProfile → Option ℕ → CreatorProfile → Creators → CreatorMerge
merge_of c target artwork_before s db = record {
  id = next_id db.merges;
  target_profile_id = target.id;
  source_profile_id = s.id;
  snapshot = record {
    source = s;
    target_artwork_before = artwork_before;
    models = ids_of (λ (m : CreatorModel). belongs (s.id ∷ []) m.creator_profile_id) db.models;
    aliases = (moved_aliases target.id s.id (names_of target.id db.aliases) db.aliases).1;
    links = ids_of (moves_link c s.id) db.links;
    favorites = ids_of (moves_favorite c s.id) db.favorites;
  };
  undone_at = none;
}

-- The merges, the sources and their aliases.
unfoldable pub merge_sources :
    (ℕ → String → String)
    → Choices
    → CreatorProfile
    → Option ℕ
    → List CreatorProfile
    → Creators
    → Creators
unfolding moved_aliases
merge_sources merged_name c target artwork_before [] db = db
merge_sources merged_name c target artwork_before (s ∷ ss) db =
    merge_sources merged_name c target artwork_before ss (record db {
      profiles = put (merged merged_name target.id s) db.profiles;
      aliases = (moved_aliases target.id s.id (names_of target.id db.aliases) db.aliases).0;
      merges = db.merges ++ merge_of c target artwork_before s db ∷ [];
    })

unfoldable pub merge_apply :
    (String → String)
    → (ℕ → String → String)
    → (String → String)
    → (Creators → Bool)
    → CreatorMergeApply
    → User
    → AccessContext
    → Creators
    → Response (CreatorProfile × Creators)
unfolding merge_preview profiles_or_404 chosen_artwork merge_sources assert_manageable
merge_apply casefold merged_name entity_key commits payload current_user access db = do
  target ←
      found (get payload.target_profile_id db.profiles) (http_error 404 "Creator profile not found")
  sources ← profiles_or_404 payload.source_profile_ids db.profiles
  let source_ids = map (λ s. s.id) sources
  assert_manageable access (target.id ∷ source_ids) db
  let preview = merge_preview casefold target source_ids db.links
  require (same_ids (firsts payload.link_resolutions) (firsts preview.link_conflicts))
      (http_error 409 "Every link conflict needs an explicit resolution")
  require (artwork_resolved payload.artwork_resolution target sources)
      (http_error 409 "Artwork conflict needs an explicit resolution")
  artwork ← chosen_artwork payload.artwork_resolution target sources
  let changed : CreatorProfile = record target { artwork_id = artwork }
  let c = choices_of preview payload target db
  let db' =
      merge_sources merged_name c target target.artwork_id sources
        (record db { profiles = put changed db.profiles })
  let db'' : Creators = record db' {
    models =
        map
          (λ m.
            if belongs source_ids m.creator_profile_id
            then record m { creator_profile_id = some target.id }
            else m)
          db.models;
    links =
        map
          (λ l.
            if belongs source_ids l.creator_profile_id
            then record l {
              creator_profile_id = some target.id;
              creator_name = target.display_name;
            }
            else l)
          (filter (λ l. not (contains (c.dropped_links ++ c.replaced_links) l.id)) db.links);
    favorites =
        map
          (λ f.
            if belongs source_ids f.creator_profile_id
              && not (contains c.target_lists f.favorite_list_id)
            then record f {
              creator_profile_id = some target.id;
              entity_key = entity_key target.normalized_name;
              label = target.display_name;
            }
            else f)
          db.favorites;
    audit = db.audit ++ event current_user.id "creator_profiles.merged" target ∷ [];
  }
  require (commits db'') (http_error 409 "Merge conflicts with existing creator metadata")
  ok (changed, db'')
