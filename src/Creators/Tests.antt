-- ===== src/Creators/Tests.antt =====
-- Creators of a small catalogue: a name that is changed, and two profiles that are merged.
use meshive.Prelude.{
  ℕ, String, ◌≡◌, ◌≢◌, refl, Bool, true, false, none, some, List, [], ◌∷◌, string_eq, nat_eq, get,
  put,
}
use meshive.Http.{Response, ok, error, ◌>>=◌}
use meshive.Auth.Access.{AccessContext, get_visible_source_ids}
use meshive.SignIn.Tests.{ann, ascii}
use meshive.Creators.{
  CreatorProfile, CreatorProfileWrite, Creators, conflict, resolved, named_ids, alias_ids,
  find_creator_profile, resolve_creator_profile, normalize_creator_name, with_alias, update_profile,
  new_profile,
}
use meshive.Creators.Identity.{IsIdentified}
use meshive.Creators.Identity.Runs.{
  Request, scanned, create, update, alias, handle, run, run-IsIdentified,
}
use meshive.Creators.Rename.{former_name_resolves}
use meshive.Creators.Merge.{CreatorMergeApply, source_artwork, merge_apply, merge_row}
use meshive.Creators.Merge.Reversal.{undo_merge}
use meshive.Creators.Merge.Undo.{merge_undone}

abbrev curator : AccessContext
curator = record {
  user = ann;
  permission_keys = [];
  all_sources = true;
  source_ids = [];
  is_superuser = false;
}

abbrev empty : Creators
empty = record {
  profiles = [];
  aliases = [];
  links = [];
  models = [];
  favorites = [];
  merges = [];
  audit = [];
}

empty-IsIdentified : IsIdentified empty.profiles empty.aliases
unfolding named_ids alias_ids
empty-IsIdentified = record { keys = tt; one = λ n. (0, tt, tt); present = tt }

abbrev written : String → CreatorProfileWrite
written name = record { display_name = name; description = none }

abbrev requests : List Request
requests =
    scanned (some "ann")
    ∷ create (written "bob") ann curator
    ∷ alias 2 "ann" ann curator
    ∷ update 1 (written "anna") ann curator
    ∷ []

run-IsIdentified_example :
    IsIdentified (run ascii requests empty).profiles (run ascii requests empty).aliases
    × (find_creator_profile "ann" (run ascii requests empty) ≢ conflict)
run-IsIdentified_example = run-IsIdentified ascii requests empty "ann" empty-IsIdentified

abbrev anns : Creators
anns = record empty { profiles = new_profile 1 "ann" "ann" none ∷ [] }

abbrev anna : CreatorProfile
anna = new_profile 1 "anna" "anna" none

scan_of_ann : handle ascii (scanned (some "ann")) empty ≡ anns
unfolding handle resolve_creator_profile
scan_of_ann = refl

abbrev renamed : Creators
renamed = record anns {
  profiles = anna ∷ [];
  aliases =
      record { id = 1; creator_profile_id = 1; alias = "ann"; normalized_alias = "ann" }
      ∷ record { id = 2; creator_profile_id = 1; alias = "anna"; normalized_alias = "anna" }
      ∷ [];
  audit =
      record {
        actor_id = 3;
        action = "creator_profile.updated";
        target_type = "creator_profile";
        target_label = "anna";
        target_id = some 1;
      }
      ∷ [];
}

former_name_resolves_example :
    (find_creator_profile "anna" renamed ≡ resolved anna)
    × (find_creator_profile "ann" renamed ≡ resolved anna)
unfolding normalize_creator_name update_profile get handle resolve_creator_profile
    find_creator_profile get_visible_source_ids put with_alias ◌>>=◌
former_name_resolves_example =
    former_name_resolves ascii 1 (written "anna") ann curator anns (new_profile 1 "ann" "ann" none)
      anna renamed
      (run-IsIdentified ascii (scanned (some "ann") ∷ []) empty "" empty-IsIdentified).0 refl refl

abbrev two : Creators
two = record {
  profiles =
      new_profile 1 "ann" "ann" none
      ∷ record (new_profile 2 "bob" "bob" none) { artwork_id = some 7 }
      ∷ [];
  aliases = record { id = 1; creator_profile_id = 2; alias = "Bob"; normalized_alias = "bob" } ∷ [];
  links = [];
  models =
      record { id = 10; library_source_id = 1; creator_profile_id = some 1 }
      ∷ record { id = 11; library_source_id = 1; creator_profile_id = some 2 }
      ∷ [];
  favorites = [];
  merges = [];
  audit = [];
}

abbrev payload : CreatorMergeApply
payload = record {
  target_profile_id = 1;
  source_profile_ids = [];
  artwork_resolution = source_artwork 2;
  link_resolutions = [];
}

abbrev merged_name : ℕ → String → String
merged_name i name = "merged:2:bob"

abbrev key_of : String → String
key_of name = name

abbrev commits : Creators → Bool
commits db = true

abbrev unwrap : {A : Type 0} → A → Response A → A
unwrap d (ok a) = a
unwrap d (error e) = d

abbrev there : CreatorProfile × Creators
there =
    unwrap (anna, empty)
      (merge_apply key_of merged_name key_of commits
        (record payload { source_profile_ids = 2 ∷ [] }) ann curator two)

abbrev back : CreatorProfile × Creators
back = unwrap (anna, empty) (undo_merge commits 9 1 ann curator there.1)

merge_undone_example :
    (back.1.profiles ≡ two.profiles) × (back.1.aliases ≡ two.aliases) × (back.1.models ≡ two.models)
unfolding merge_apply undo_merge get_visible_source_ids get put ◌>>=◌
merge_undone_example =
    merge_undone key_of merged_name key_of commits payload 2 9 ann curator two there.1 back.1
      there.0 back.0 ((refl, tt), (tt, tt)) (tt, tt) ((refl, tt), (tt, tt)) refl refl refl
