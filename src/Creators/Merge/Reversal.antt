-- ===== src/Creators/Merge/Reversal.antt =====
-- `undo_merge` of backend/meshive/api/creator_profiles.py: the rows of the snapshot go back to the source,
-- where they are still the target's.
use meshive.Prelude.{
  ℕ, Bool, true, false, not, Option, none, some, List, [], ◌∷◌, ◌++◌, if◌then◌else◌, is_some, ◌==◌,
  string_eq, nat_eq, Row, get, put,
}
use meshive.Http.{Response, ok, http_error, require, found, ◌>>=◌, ◌>>◌}
use meshive.Models.{User}
use meshive.Auth.Access.{AccessContext}
use meshive.Creators.{
  CreatorProfile, CreatorAlias, CreatorLink, CreatorModel, FavoriteListItem, Snapshot, CreatorMerge,
  Creators, profile_row, alias_row, assert_manageable,
}
use meshive.Creators.Merge.{belongs, link_row, model_of_row, favorite_row, merge_row}

module _ {A : Type 0} ⦃r : Row A⦄ (is_target : A → Bool) (back : A → A) where
  abbrev pub returned_row : Option A → List A → List A
  returned_row none xs = xs
  returned_row (some x) xs = if is_target x then put (back x) xs else xs

  -- The rows of the snapshot that are still the target's are the source's again.
  unfoldable pub returned : List ℕ → List A → List A
  returned [] xs = xs
  returned (i ∷ ids) xs = returned ids (returned_row (get i xs) xs)

abbrev pub same_artwork : Option ℕ → Option ℕ → Bool
same_artwork none none = true
same_artwork (some a) (some b) = a == b
same_artwork _ _ = false

-- The rows of the source and of the target after the reversal.
abbrev pub restored_source : Snapshot → CreatorProfile → CreatorProfile
restored_source snapshot s = record s {
  normalized_name = snapshot.source.normalized_name;
  is_active = snapshot.source.is_active;
  merged_into_id = snapshot.source.merged_into_id;
}

abbrev pub restored_target : Snapshot → CreatorProfile → CreatorProfile → CreatorProfile
restored_target snapshot s target =
    if same_artwork target.artwork_id s.artwork_id
    then record target { artwork_id = snapshot.target_artwork_before }
    else target

abbrev pub restored : CreatorMerge → CreatorProfile → CreatorProfile → Creators → Creators
restored merge target s db = record db {
  profiles =
      put (restored_target merge.snapshot s target)
        (put (restored_source merge.snapshot s) db.profiles);
  aliases =
      returned (λ (a : CreatorAlias). a.creator_profile_id == target.id)
        (λ a. record a { creator_profile_id = s.id }) merge.snapshot.aliases db.aliases;
  models =
      returned (λ (m : CreatorModel). belongs (target.id ∷ []) m.creator_profile_id)
        (λ m. record m { creator_profile_id = some s.id }) merge.snapshot.models db.models;
  links =
      returned (λ (l : CreatorLink). belongs (target.id ∷ []) l.creator_profile_id)
        (λ l. record l {
          creator_profile_id = some s.id;
          creator_name = merge.snapshot.source.display_name;
        })
        merge.snapshot.links db.links;
  favorites =
      returned (λ (f : FavoriteListItem). belongs (target.id ∷ []) f.creator_profile_id)
        (λ f. record f { creator_profile_id = some s.id }) merge.snapshot.favorites db.favorites;
}

unfoldable pub undo_merge :
    (Creators → Bool)
    → ℕ
    → ℕ
    → User
    → AccessContext
    → Creators
    → Response (CreatorProfile × Creators)
unfolding returned assert_manageable
undo_merge commits now merge_id current_user access db = do
  merge ← found (get merge_id db.merges) (http_error 404 "Active creator merge not found")
  require (not (is_some merge.undone_at)) (http_error 404 "Active creator merge not found")
  target ←
      found (get merge.target_profile_id db.profiles) (http_error 404 "Creator profile not found")
  s ← found (get merge.source_profile_id db.profiles) (http_error 404 "Creator profile not found")
  assert_manageable access (target.id ∷ s.id ∷ []) db
  let db' = restored merge target s db
  let db'' : Creators = record db' {
    merges = put (record merge { undone_at = some now }) db.merges;
    audit =
        db.audit
        ++ record {
          actor_id = current_user.id;
          action = "creator_merge.undone";
          target_type = "creator_merge";
          target_label = s.display_name;
          target_id = some merge.id;
        }
          ∷ [];
  }
  require (commits db'') (http_error 409 "Undo conflicts with creator changes made after the merge")
  ok (restored_target merge.snapshot s target, db'')
