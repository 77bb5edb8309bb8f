-- ===== src/Variants/Replace.antt =====
-- backend/meshive/services/variants.py: the rows that `place_variants` makes.
use meshive.Prelude.{
  ℕ, suc, String, ◌≡◌, refl, sym, ap, ◌∙◌, inl, inr, Bool, true, false, not, Option, none, some,
  List, [], ◌∷◌, arith, if◌then◌else◌, Bool-cases, some-injective, contains, All, All-imp, ◌==◌,
  string_eq, Dict, lookup, insert, remove, lookup-insert, lookup-remove,
}
use meshive.Models.{UnicodeText}
use meshive.Variants.{
  ModelVariant, normalize_variant, fresh_value, seen_with, added, normalize_unseen,
  normalize_variant_values, existing_from, placed_variant, place_variants, replace_model_variants,
}

-- No two values have one key.
abbrev pub HasKeysOnce : List (String × String) → Type 0
HasKeysOnce [] = Unit
HasKeysOnce (v ∷ vs) = All (λ (w : String × String). (w.1 == v.1) ≡ false) vs × HasKeysOnce vs

abbrev pub unseen : List String → String × String → Bool
unseen seen v = not (contains seen v.1)

step_unseen :
    (seen : List String) (rest : List String → List (String × String))
    (o : Option (String × String))
    → ((s : List String) → All (λ v. unseen s v ≡ true) (rest s))
    → All
        (λ v. unseen seen v ≡ true)
        (added (fresh_value seen o) (rest (seen_with (fresh_value seen o) seen)))
unfolding fresh_value
step_unseen seen rest none h = h seen
step_unseen seen rest (some v) h = elim (Bool-cases (contains seen v.1)) [
  | inl q ↦ rw q (h seen)
  | inr q ↦ rw q (rw q refl, All-imp _ _ (λ w k. ground arith) (rest (v.1 ∷ seen)) (h (v.1 ∷ seen)))
]

-- What the loop has passed is not seen again.
unseen-All :
    (t : UnicodeText) (seen values : List String)
    → All (λ v. unseen seen v ≡ true) (normalize_unseen t seen values)
unfolding normalize_unseen
unseen-All t seen [] = tt
unseen-All t seen (value ∷ values) =
    step_unseen seen (λ s. normalize_unseen t s values) (normalize_variant t value)
      (λ s. unseen-All t s values)

step_once :
    (seen : List String) (rest : List String → List (String × String))
    (o : Option (String × String))
    → ((s : List String) → All (λ v. unseen s v ≡ true) (rest s))
    → ((s : List String) → HasKeysOnce (rest s))
    → HasKeysOnce (added (fresh_value seen o) (rest (seen_with (fresh_value seen o) seen)))
unfolding fresh_value
step_once seen rest none h k = k seen
step_once seen rest (some v) h k = elim (Bool-cases (contains seen v.1)) [
  | inl q ↦ rw q (k seen)
  | inr q ↦ rw q (
    All-imp _ _
        (λ (w : String × String) u.
          ground (arith, string_eq.equal_iff w.1 v.1, string_eq.equal_iff v.1 w.1))
        (rest (v.1 ∷ seen)) (h (v.1 ∷ seen)),
    k (v.1 ∷ seen),
  )
]

pub once :
    (t : UnicodeText) (seen values : List String) → HasKeysOnce (normalize_unseen t seen values)
unfolding normalize_unseen
once t seen [] = tt
once t seen (value ∷ values) =
    step_once seen (λ s. normalize_unseen t s values) (normalize_variant t value)
      (λ s. unseen-All t s values) (λ s. once t s values)

-- Each value at its position, in the row that had its key.
abbrev pub rows_of : Dict String ModelVariant → ℕ → List (String × String) → List ModelVariant
rows_of existing position [] = []
rows_of existing position (v ∷ vs) =
    placed_variant position v (lookup v.1 existing) ∷ rows_of existing (suc position) vs

-- A key that is taken out is not asked for again.
rows_of-remove :
    (key : String) (existing : Dict String ModelVariant) (position : ℕ)
    (vs : List (String × String))
    → All (λ (w : String × String). (w.1 == key) ≡ false) vs
    → rows_of (remove key existing) position vs ≡ rows_of existing position vs
rows_of-remove key existing position [] h = refl
rows_of-remove key existing position (v ∷ vs) h =
    let kept : lookup v.1 (remove key existing) ≡ lookup v.1 existing =
      lookup-remove key v.1 existing
      ∙ ground (arith, string_eq.equal_iff key v.1, string_eq.equal_iff v.1 key) in
    rw (kept, rows_of-remove key existing (suc position) vs h.1) refl

place-rows_of :
    (position : ℕ) (existing : Dict String ModelVariant) (vs : List (String × String))
    → HasKeysOnce vs
    → place_variants position existing vs ≡ rows_of existing position vs
unfolding place_variants
place-rows_of position existing [] h = refl
place-rows_of position existing (v ∷ vs) h =
    ap (λ rest. placed_variant position v (lookup v.1 existing) ∷ rest)
      (place-rows_of (suc position) (remove v.1 existing) vs h.1
        ∙ rows_of-remove v.1 existing (suc position) vs h.0)

-- The dictionary has each row under the row's own key.
pub keyed :
    (d : Dict String ModelVariant) (vs : List ModelVariant) (key : String) (v : ModelVariant)
    → ((k : String) (w : ModelVariant) → lookup k d ≡ some w → w.normalized_value ≡ k)
    → lookup key (existing_from d vs) ≡ some v
    → v.normalized_value ≡ key
unfolding existing_from
keyed d [] key v h e = h key v e
keyed d (x ∷ vs) key v h e =
    keyed (insert x.normalized_value x d) vs key v
      (λ k w q. inserted d x k w (h k w) (sym (lookup-insert x.normalized_value k x d) ∙ q)) e
  where
    inserted :
        (d : Dict String ModelVariant) (x : ModelVariant) (k : String) (w : ModelVariant)
        → (lookup k d ≡ some w → w.normalized_value ≡ k)
        → (if x.normalized_value == k then some x else lookup k d) ≡ some w
        → w.normalized_value ≡ k
    inserted d x k w h q = elim (Bool-cases (◌==◌ {A = String} x.normalized_value k)) [
      | inl same ↦
          ap (λ (y : ModelVariant). y.normalized_value) (sym (some-injective (rw same at q)))
          ∙ (string_eq.equal_iff x.normalized_value k).0 same
      | inr other ↦ h (rw other at q)
    ]

placed_twice :
    (p : ℕ) (v : String × String) (o : Option ModelVariant)
    → placed_variant p v (some (placed_variant p v o)) ≡ placed_variant p v o
placed_twice p v none = refl
placed_twice p v (some w) = refl

pub placed_key :
    (p : ℕ) (v : String × String) (o : Option ModelVariant)
    → ((w : ModelVariant) → o ≡ some w → w.normalized_value ≡ v.1)
    → (placed_variant p v o).normalized_value ≡ v.1
placed_key p v none h = refl
placed_key p v (some w) h = h w refl

module _ (e : Dict String ModelVariant)
    (h : (k : String) (w : ModelVariant) → lookup k e ≡ some w → w.normalized_value ≡ k) where
  -- The rows have the keys of the values.
  lookup_others :
      (key : String) (d : Dict String ModelVariant) (p : ℕ) (vs : List (String × String))
      → All (λ (w : String × String). (w.1 == key) ≡ false) vs
      → lookup key (existing_from d (rows_of e p vs)) ≡ lookup key d
  unfolding existing_from
  lookup_others key d p [] w = refl
  lookup_others key d p (v ∷ vs) w =
      let r = placed_variant p v (lookup v.1 e) in
      let own : r.normalized_value ≡ v.1 = placed_key p v (lookup v.1 e) (h v.1) in
      lookup_others key (insert r.normalized_value r d) (suc p) vs w.1
      ∙ lookup-insert r.normalized_value key r d
      ∙ ap (λ b. if b then some r else lookup key d) (ap (λ k. k == key) own ∙ w.0)

  pub rows_again :
      (d : Dict String ModelVariant) (p : ℕ) (vs : List (String × String))
      → HasKeysOnce vs
      → rows_of (existing_from d (rows_of e p vs)) p vs ≡ rows_of e p vs
  unfolding existing_from
  rows_again d p [] w = refl
  rows_again d p (v ∷ vs) w =
      let r = placed_variant p v (lookup v.1 e) in
      let own : r.normalized_value ≡ v.1 = placed_key p v (lookup v.1 e) (h v.1) in
      let there : lookup v.1 (existing_from (insert r.normalized_value r d) (rows_of e (suc p) vs))
          ≡ some r =
        lookup_others v.1 (insert r.normalized_value r d) (suc p) vs w.0
        ∙ lookup-insert r.normalized_value v.1 r d
        ∙ ap (λ b. if b then some r else lookup v.1 d)
            ((string_eq.equal_iff r.normalized_value v.1).1 own) in
      rw there (
        ap (λ rest. placed_variant p v (some r) ∷ rest)
          (rows_again (insert r.normalized_value r d) (suc p) vs w.1)
        ∙ ap (λ x. x ∷ rows_of e (suc p) vs) (placed_twice p v (lookup v.1 e)))

pub none_listed :
    (k : String) (w : ModelVariant) → lookup {K = String} k [] ≡ some w → w.normalized_value ≡ k
unfolding lookup
none_listed k w q = cc

pub replaced-rows_of :
    (t : UnicodeText) (variants : List ModelVariant) (values : List String)
    → replace_model_variants t variants (some values)
      ≡ rows_of (existing_from [] variants) 0 (normalize_variant_values t values)
unfolding replace_model_variants normalize_variant_values
replaced-rows_of t variants values =
    place-rows_of 0 (existing_from [] variants) (normalize_unseen t [] values) (once t [] values)
