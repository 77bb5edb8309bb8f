-- ===== src/Creators/Merge/Undo.antt =====
-- `merge_apply` and `undo_merge` of backend/meshive/api/creator_profiles.py, one after the other.
use mathlib.Core.Path.{subst}
use mathlib.Core.Bool.{false≢true}
use meshive.Prelude.{
  own_row, ℕ, String, ◌≡◌, refl, sym, ap, ◌∙◌, ◌⊎◌, inl, inr, Bool, true, false, Option, none, some,
  List, [], ◌∷◌, ◌++◌, map, arith, Bool-cases, some-injective, ◌==◌, string_eq, nat_eq, eq_of_beq,
  beq_refl, get, put, next_id, key-get, get-put, get-append, get-next_id, HasKeys,
}
use meshive.Http.{ok, Holds, require-Holds, found-Holds, Holds-ok}
use meshive.Models.{User}
use meshive.Auth.Access.{AccessContext}
use meshive.Creators.{
  CreatorProfile, CreatorModel, Snapshot, CreatorMerge, Creators, profile_row, alias_row,
  assert_manageable,
}
use meshive.Creators.Merge.{
  CreatorMergeApply, model_of_row, merge_row, belongs, ids_of, merged, merge_apply,
}
use meshive.Creators.Merge.Reversal.{
  restored, restored_source, restored_target, returned, same_artwork, undo_merge,
}
use meshive.Creators.Merge.Moves.{put-put, put_comm, put_same, returned-map, returned-aliases}
use meshive.Creators.Merge.Outcome.{of_source, given, IsMerged, merge-IsMerged}

-- The rows of the two profiles, after the merge and its reversal.
profiles_back :
    (ps : List CreatorProfile) (t m target s : CreatorProfile)
    → HasKeys ps
    → get target.id ps ≡ some target
    → get s.id ps ≡ some s
    → t.id ≡ target.id
    → m.id ≡ s.id
    → (target.id == s.id) ≡ false
    → put target (put s (put m (put t ps))) ≡ ps
profiles_back ps t m target s keys row_t row_s e f apart =
    ap (put target) (put-put m s (put t ps) f ∙ put_comm t s ps (rw e apart))
    ∙ put-put t target (put s ps) e
    ∙ ap (put target) (put_same s.id s ps keys row_s)
    ∙ put_same target.id target ps keys row_t

same_artwork_refl : (a : Option ℕ) → same_artwork a a ≡ true
same_artwork_refl none = refl
same_artwork_refl (some i) = beq_refl i

-- The target has the artwork again that it had before.
artwork_back :
    (target s m : CreatorProfile) (snapshot : Snapshot) (artwork : Option ℕ)
    → m.artwork_id ≡ s.artwork_id
    → snapshot.target_artwork_before ≡ target.artwork_id
    → (artwork ≡ target.artwork_id) ⊎ (artwork ≡ s.artwork_id)
    → restored_target snapshot m (record target { artwork_id = artwork }) ≡ target
artwork_back target s m snapshot artwork e before chosen =
    elim (Bool-cases (same_artwork artwork m.artwork_id)) [
      | inl q ↦ rw q (ap (λ a. record target { artwork_id = a }) before)
      | inr q ↦ rw q (elim chosen [
        | inl kept ↦ ap (λ a. record target { artwork_id = a }) kept
        | inr taken ↦ absurd (false≢true (sym q ∙ rw (taken, e) (same_artwork_refl s.artwork_id)))
      ])
    ]

owner_is : (s : ℕ) (o : Option ℕ) → belongs (s ∷ []) o ≡ true → o ≡ some s
owner_is s none h = cc
owner_is s (some i) h = ap some (eq_of_beq (ground arith))

models_back :
    (target s : ℕ) (ms : List CreatorModel)
    → HasKeys ms
    → returned
        (λ (m : CreatorModel). belongs (target ∷ []) m.creator_profile_id)
        (λ m. record m { creator_profile_id = some s })
        (ids_of (of_source s) ms)
        (map (given target s) ms)
      ≡ ms
models_back target s ms keys =
    returned-map _ _ (λ _. refl) (of_source s) (given target s)
      (λ m. elim (Bool-cases (of_source s m)) [ inl q ↦ rw q refl | inr q ↦ rw q refl ]) ms keys
      (λ m q. rw (q, beq_refl target) refl)
      (λ m q.
        rw q
          (ap (λ o. record m { creator_profile_id = o }) (sym (owner_is s m.creator_profile_id q))))
      (λ m q. rw q refl)

-- What a reversal gives back: the profiles, their aliases and their models.
pub record IsUndone (db db' : Creators) : Type 0 where
  pub profiles : db'.profiles ≡ db.profiles
  pub aliases : db'.aliases ≡ db.aliases
  pub models : db'.models ≡ db.models

get_new :
    (merges : List CreatorMerge) (m : CreatorMerge)
    → m.id ≡ next_id merges
    → get (next_id merges) (merges ++ m ∷ []) ≡ some m
get_new merges m e =
    ground
      (arith, get-append (next_id merges) merges m, get-next_id merges, beq_refl (next_id merges))

rows_after :
    (ps : List CreatorProfile) (t m target s : CreatorProfile)
    → get target.id ps ≡ some target
    → get s.id ps ≡ some s
    → t.id ≡ target.id
    → m.id ≡ s.id
    → (target.id == s.id) ≡ false
    → (get target.id (put m (put t ps)) ≡ some t) × (get s.id (put m (put t ps)) ≡ some m)
rows_after ps t m target s row_t row_s e f apart = (
  ground (arith, get-put target.id m (put t ps), get-put target.id t ps),
  ground (arith, get-put s.id m (put t ps), get-put s.id t ps),
)

module _ (merged_name : ℕ → String → String) (target_id i : ℕ) (db db' : Creators)
    (w : IsMerged merged_name target_id i db db') (apart : (target_id == i) ≡ false) where
  abbrev t1 : CreatorProfile
  t1 = record w.target { artwork_id = w.artwork }

  abbrev m1 : CreatorProfile
  m1 = merged merged_name w.target.id w.source

  apart' : (w.target.id == w.source.id) ≡ false
  apart' =
      rw
        (
          key-get target_id db.profiles w.target w.target_row,
          key-get i db.profiles w.source w.source_row,
        )
        apart

  rows : (get w.target.id db'.profiles ≡ some t1) × (get w.source.id db'.profiles ≡ some m1)
  rows = rw w.profiles (
      rows_after db.profiles t1 m1 w.target w.source
        (own_row target_id db.profiles w.target w.target_row)
        (own_row i db.profiles w.source w.source_row) refl refl apart')

  source_back : restored_source w.merge.snapshot m1 ≡ w.source
  source_back =
      ap
        (λ (x : CreatorProfile). record m1 {
          normalized_name = x.normalized_name;
          is_active = x.is_active;
          merged_into_id = x.merged_into_id;
        })
        w.kept

  target_back : restored_target w.merge.snapshot m1 t1 ≡ w.target
  target_back =
      artwork_back w.target w.source m1 w.merge.snapshot w.artwork refl w.kept_artwork w.chosen

  restored-IsUndone :
      HasKeys db.profiles
      → HasKeys db.aliases
      → HasKeys db.models
      → IsUndone db (restored w.merge t1 m1 db')
  restored-IsUndone keys_p keys_a keys_m = record {
    profiles =
        rw (target_back, source_back, w.profiles)
          (profiles_back db.profiles t1 m1 w.target w.source keys_p
            (own_row target_id db.profiles w.target w.target_row)
            (own_row i db.profiles w.source w.source_row) refl refl apart');
    aliases =
        rw (w.kept_aliases, w.aliases)
          (returned-aliases w.target.id w.source.id w.names db.aliases keys_a);
    models = rw (w.kept_models, w.models) (models_back w.target.id w.source.id db.models keys_m);
  }

  undo-IsUndone :
      (commits : Creators → Bool) (now : ℕ) (user : User) (access : AccessContext)
      → HasKeys db.profiles
      → HasKeys db.aliases
      → HasKeys db.models
      → Holds (λ r. IsUndone db r.1) (undo_merge commits now (next_id db.merges) user access db')
  unfolding undo_merge assert_manageable
  undo-IsUndone commits now user access keys_p keys_a keys_m = found-Holds _ _ _ _ (λ merge known.
      require-Holds _ _ _ _ (λ active. found-Holds _ _ _ _ (λ t row_t.
        found-Holds _ _ _ _ (λ m row_m. require-Holds _ _ _ _ (λ scope.
          require-Holds _ _ _ _ (λ taken.
            let it : merge ≡ w.merge = some-injective (
              sym known
              ∙ ap (get (next_id db.merges)) w.merges
              ∙ get_new db.merges w.merge w.new) in
            let of_t : t ≡ t1 = some-injective (
              sym row_t
              ∙ ap (λ k. get k db'.profiles)
                  (ap (λ (k : CreatorMerge). k.target_profile_id) it ∙ w.its_target)
              ∙ rows.0) in
            let of_m : m ≡ m1 = some-injective (
              sym row_m
              ∙ ap (λ k. get k db'.profiles)
                  (ap (λ (k : CreatorMerge). k.source_profile_id) it ∙ w.its_source)
              ∙ rows.1) in
            let back = restored-IsUndone keys_p keys_a keys_m in
            let same : restored merge t m db' ≡ restored w.merge t1 m1 db' =
              ap (λ k. restored k t m db') it
              ∙ ap (λ x. restored w.merge x m db') of_t
              ∙ ap (λ x. restored w.merge t1 x db') of_m in
            let whole = subst (IsUndone db) (sym same) back in
            record {
              profiles = whole.profiles;
              aliases = whole.aliases;
              models = whole.models;
            }))))))

-- A merge of one source, and its reversal right after it, give back the profiles, their aliases and
-- the models of each, when both are accepted and the keys of the tables are unique.
pub merge_undone :
    (casefold : String → String) (merged_name : ℕ → String → String) (entity_key : String → String)
    (commits : Creators → Bool) (payload : CreatorMergeApply) (i now : ℕ) (user : User)
    (access : AccessContext) (db db1 db2 : Creators) (t t' : CreatorProfile)
    → HasKeys db.profiles
    → HasKeys db.aliases
    → HasKeys db.models
    → (payload.target_profile_id == i) ≡ false
    → merge_apply casefold merged_name entity_key commits
        (record payload { source_profile_ids = i ∷ [] })
        user
        access
        db
      ≡ ok (t, db1)
    → undo_merge commits now (next_id db.merges) user access db1 ≡ ok (t', db2)
    → (db2.profiles ≡ db.profiles) × (db2.aliases ≡ db.aliases) × (db2.models ≡ db.models)
merge_undone casefold merged_name entity_key commits payload i now user access db db1 db2 t t'
      keys_p keys_a keys_m apart e e' =
    let w : IsMerged merged_name payload.target_profile_id i db db1 =
      Holds-ok (λ r. IsMerged merged_name payload.target_profile_id i db r.1) _
        (merge-IsMerged casefold merged_name entity_key commits payload i user access db) e in
    let u : IsUndone db db2 =
      Holds-ok (λ r. IsUndone db r.1) _
        (undo-IsUndone merged_name payload.target_profile_id i db db1 w apart commits now user
          access keys_p keys_a keys_m)
        e' in
    (u.profiles, u.aliases, u.models)
