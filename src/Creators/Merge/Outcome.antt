-- ===== src/Creators/Merge/Outcome.antt =====
-- `merge_apply` of backend/meshive/api/creator_profiles.py with one source: what it has written.
use meshive.Prelude.{
  ℕ, String, ◌≡◌, refl, sym, ap, ◌⊎◌, inl, inr, Bool, Option, none, some, List, [], ◌∷◌, ◌++◌, map,
  if◌then◌else◌, Bool-cases, some-injective, ◌==◌, string_eq, nat_eq, get, put, next_id,
}
use meshive.Http.{Response, ok, error, http_error, found, ◌>>=◌, Holds, require-Holds, found-Holds}
use meshive.Models.{User}
use meshive.Auth.Access.{AccessContext}
use meshive.Creators.{
  CreatorProfile, CreatorModel, CreatorMerge, Creators, profile_row, alias_row, assert_manageable,
}
use meshive.Creators.Merge.{
  CreatorMergeApply, ArtworkResolution, target_artwork, unresolved, source_artwork, model_of_row,
  merge_row, belongs, ids_of, moved_aliases, merged, merge_sources, merge_of, choices_of,
  merge_preview, names_of, profiles_or_404, chosen_artwork, merge_apply,
}

abbrev pub of_source : ℕ → CreatorModel → Bool
of_source i m = belongs (i ∷ []) m.creator_profile_id

abbrev pub given : ℕ → ℕ → CreatorModel → CreatorModel
given target i m = if of_source i m then record m { creator_profile_id = some target } else m

-- The tables after the merge of one source, and what is kept of it.
pub record IsMerged (merged_name : ℕ → String → String) (target_id i : ℕ) (db db' : Creators)
    : Type 0 where
  pub target : CreatorProfile
  pub source : CreatorProfile
  pub artwork : Option ℕ
  pub merge : CreatorMerge
  pub names : List String
  pub target_row : get target_id db.profiles ≡ some target
  pub source_row : get i db.profiles ≡ some source
  pub chosen : (artwork ≡ target.artwork_id) ⊎ (artwork ≡ source.artwork_id)
  pub profiles :
      db'.profiles
      ≡ put
          (merged merged_name target.id source)
          (put (record target { artwork_id = artwork }) db.profiles)
  pub aliases : db'.aliases ≡ (moved_aliases target.id source.id names db.aliases).0
  pub models : db'.models ≡ map (given target.id source.id) db.models
  pub merges : db'.merges ≡ db.merges ++ merge ∷ []
  pub new : merge.id ≡ next_id db.merges
  pub its_target : merge.target_profile_id ≡ target.id
  pub its_source : merge.source_profile_id ≡ source.id
  pub kept : merge.snapshot.source ≡ source
  pub kept_artwork : merge.snapshot.target_artwork_before ≡ target.artwork_id
  pub kept_models : merge.snapshot.models ≡ ids_of (of_source source.id) db.models
  pub kept_aliases : merge.snapshot.aliases ≡ (moved_aliases target.id source.id names db.aliases).1
  pub active : merge.undone_at ≡ none

chosen_of :
    (resolution : ArtworkResolution) (target s : CreatorProfile)
    → Holds
        (λ a. (a ≡ target.artwork_id) ⊎ (a ≡ s.artwork_id))
        (chosen_artwork resolution target (s ∷ []))
unfolding chosen_artwork
chosen_of target_artwork target s = inl refl
chosen_of unresolved target s = inl refl
chosen_of (source_artwork i) target s = found-Holds _ _ _ _ (λ x e. elim (Bool-cases (s.id == i)) [
  | inl q ↦ inr (ap (λ (y : CreatorProfile). y.artwork_id) (sym (some-injective (rw q at e))))
  | inr q ↦ cc (rw q at e)
])

bind-Holds :
    {A B : Type 0} (P : B → Type 0) (Q : A → Type 0) (m : Response A) (f : A → Response B)
    → Holds Q m
    → ((a : A) → Q a → Holds P (f a))
    → Holds P (m >>= f)
unfolding ◌>>=◌
bind-Holds P Q (ok a) f h k = k a h
bind-Holds P Q (error e) f h k = tt

singles-Holds :
    {B : Type 0} (P : B → Type 0) (i : ℕ) (ps : List CreatorProfile)
    (f : List CreatorProfile → Response B)
    → ((s : CreatorProfile) → get i ps ≡ some s → Holds P (f (s ∷ [])))
    → Holds P (profiles_or_404 (i ∷ []) ps >>= f)
unfolding profiles_or_404 ◌>>=◌
singles-Holds P i ps f h = go (get i ps) refl
  where
    go :
        (o : Option CreatorProfile)
        → get i ps ≡ o
        → Holds P
            (found o (http_error 404 "Creator profile not found") >>= (λ s. ok (s ∷ [])) >>= f)
    go none e = tt
    go (some s) e = h s e

module _ (casefold : String → String) (merged_name : ℕ → String → String)
    (entity_key : String → String) (commits : Creators → Bool) where
  pub merge-IsMerged :
      (payload : CreatorMergeApply) (i : ℕ) (user : User) (access : AccessContext) (db : Creators)
      → Holds
          (λ r. IsMerged merged_name payload.target_profile_id i db r.1)
          (merge_apply casefold merged_name entity_key commits
            (record payload { source_profile_ids = i ∷ [] })
            user
            access
            db)
  unfolding merge_apply assert_manageable merge_sources
  merge-IsMerged payload i user access db = found-Holds _ _ _ _ (λ target known.
      singles-Holds _ _ _ _ (λ s listed. require-Holds _ _ _ _ (λ scope.
        require-Holds _ _ _ _ (λ links. require-Holds _ _ _ _ (λ art.
          bind-Holds _ _ _ _ (chosen_of payload.artwork_resolution target s) (λ artwork chosen.
            require-Holds _ _ _ _ (λ taken. record {
              target = target;
              source = s;
              artwork = artwork;
              merge =
                  merge_of
                    (choices_of (merge_preview casefold target (s.id ∷ []) db.links) payload target
                      db)
                    target target.artwork_id s db;
              names = names_of target.id db.aliases;
              target_row = known;
              source_row = listed;
              chosen = chosen;
              profiles = refl;
              aliases = refl;
              models = refl;
              merges = refl;
              new = refl;
              its_target = refl;
              its_source = refl;
              kept = refl;
              kept_artwork = refl;
              kept_models = refl;
              kept_aliases = refl;
              active = refl;
            })))))))
