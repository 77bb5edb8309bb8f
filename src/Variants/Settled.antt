-- ===== src/Variants/Settled.antt =====
-- backend/meshive/services/variants.py: what `replace_model_variants` makes of a model's rows.
use mathlib.Core.Path.{subst}
use meshive.Prelude.{
  ℕ, suc, String, ◌≡◌, refl, sym, ap, ◌∙◌, inl, inr, true, not, Option, none, some, List, [], ◌∷◌,
  arith, if◌then◌else◌, Bool-cases, is_some, map, filter, contains, All, All-imp, ◌==◌, string_eq,
  Dict, lookup, insert, lookup-insert,
}
use meshive.Models.{UnicodeText}
use meshive.Variants.{
  ModelVariant, normalize_variant, fresh_value, seen_with, added, normalize_unseen,
  normalize_variant_values, existing_from, placed_variant, replace_model_variants,
}
use meshive.Variants.Replace.{
  unseen, once, rows_of, keyed, placed_key, none_listed, rows_again, replaced-rows_of,
}

-- The values that are not blank, each beside its key.
abbrev pub present : UnicodeText → List String → List (String × String)
present t [] = []
present t (value ∷ values) = added (normalize_variant t value) (present t values)

-- Of the values with one key, the first.
abbrev pub firsts : List (String × String) → List (String × String)
firsts [] = []
firsts (v ∷ vs) = v ∷ filter (λ w. not (w.1 == v.1)) (firsts vs)

-- A seen key is left out anyway.
without_seen :
    (seen : List String) (key : String) (vs : List (String × String))
    → contains seen key ≡ true
    → filter (unseen seen) (filter (λ (w : String × String). not (w.1 == key)) vs)
      ≡ filter (unseen seen) vs
without_seen seen key [] h = refl
without_seen seen key (v ∷ vs) h =
    ground (arith, without_seen seen key vs h, string_eq.equal_iff v.1 key)

without_next :
    (seen : List String) (key : String) (vs : List (String × String))
    → filter (unseen seen) (filter (λ (w : String × String). not (w.1 == key)) vs)
      ≡ filter (unseen (key ∷ seen)) vs
without_next seen key [] = refl
without_next seen key (v ∷ vs) =
    ground
      (arith, without_next seen key vs, string_eq.equal_iff v.1 key, string_eq.equal_iff key v.1)

unseen-firsts :
    (seen : List String) (rest : List String → List (String × String)) (vs : List (String × String))
    (o : Option (String × String))
    → ((s : List String) → rest s ≡ filter (unseen s) (firsts vs))
    → added (fresh_value seen o) (rest (seen_with (fresh_value seen o) seen))
      ≡ filter (unseen seen) (firsts (added o vs))
unfolding fresh_value
unseen-firsts seen rest vs none h = h seen
unseen-firsts seen rest vs (some v) h = elim (Bool-cases (contains seen v.1)) [
  | inl q ↦ rw q (h seen ∙ sym (without_seen seen v.1 (firsts vs) q))
  | inr q ↦ rw q (ap (λ ws. v ∷ ws) (h (v.1 ∷ seen) ∙ sym (without_next seen v.1 (firsts vs))))
]

normalized-firsts :
    (t : UnicodeText) (seen values : List String)
    → normalize_unseen t seen values ≡ filter (unseen seen) (firsts (present t values))
unfolding normalize_unseen
normalized-firsts t seen [] = refl
normalized-firsts t seen (value ∷ values) =
    unseen-firsts seen (λ s. normalize_unseen t s values) (present t values)
      (normalize_variant t value) (λ s. normalized-firsts t s values)

filter-all : (vs : List (String × String)) → filter (unseen []) vs ≡ vs
filter-all [] = refl
filter-all (v ∷ vs) = ap (λ ws. v ∷ ws) (filter-all vs)

-- The last row with a key.
abbrev pub last_row : String → List ModelVariant → Option ModelVariant
last_row key [] = none
last_row key (v ∷ vs) =
    let later = last_row key vs in
    if is_some later then later else if v.normalized_value == key then some v else none

abbrev pub id_of : Option ModelVariant → Option ℕ
id_of none = none
id_of (some v) = v.id

lookup-existing :
    (key : String) (d : Dict String ModelVariant) (vs : List ModelVariant)
    → lookup key (existing_from d vs)
      ≡ (if is_some (last_row key vs) then last_row key vs else lookup key d)
unfolding existing_from
lookup-existing key d [] = refl
lookup-existing key d (v ∷ vs) =
    lookup-existing key (insert v.normalized_value v d) vs
    ∙ ground (arith, lookup-insert v.normalized_value key v d)

lookup-last_row :
    (key : String) (vs : List ModelVariant) → lookup key (existing_from [] vs) ≡ last_row key vs
unfolding lookup
lookup-last_row key vs = lookup-existing key [] vs ∙ ground arith

abbrev pub numbered {ℓ} : {A : Type ℓ} → ℕ → List A → List ℕ
numbered p [] = []
numbered p (x ∷ xs) = p ∷ numbered (suc p) xs

abbrev pub as_value : ModelVariant → String × String
as_value r = (r.value, r.normalized_value)

as_value-placed :
    (p : ℕ) (v : String × String) (o : Option ModelVariant)
    → ((w : ModelVariant) → o ≡ some w → w.normalized_value ≡ v.1)
    → as_value (placed_variant p v o) ≡ v
as_value-placed p v none h = refl
as_value-placed p v (some w) h = ap (λ key. (v.0, key)) (h w refl)

position-placed :
    (p : ℕ) (v : String × String) (o : Option ModelVariant) → (placed_variant p v o).position ≡ p
position-placed p v none = refl
position-placed p v (some w) = refl

id-placed :
    (p : ℕ) (v : String × String) (o : Option ModelVariant) → (placed_variant p v o).id ≡ id_of o
id-placed p v none = refl
id-placed p v (some w) = refl

module _ (e : Dict String ModelVariant)
    (h : (k : String) (w : ModelVariant) → lookup k e ≡ some w → w.normalized_value ≡ k) where
  map-as_value : (p : ℕ) (vs : List (String × String)) → map as_value (rows_of e p vs) ≡ vs
  map-as_value p [] = refl
  map-as_value p (v ∷ vs) =
      ap (λ x. x ∷ map as_value (rows_of e (suc p) vs)) (as_value-placed p v (lookup v.1 e) (h v.1))
      ∙ ap (λ ws. v ∷ ws) (map-as_value (suc p) vs)

  map-position :
      (p : ℕ) (vs : List (String × String)) → map (λ r. r.position) (rows_of e p vs) ≡ numbered p vs
  map-position p [] = refl
  map-position p (v ∷ vs) =
      ap (λ x. x ∷ map (λ (r : ModelVariant). r.position) (rows_of e (suc p) vs))
        (position-placed p v (lookup v.1 e))
      ∙ ap (λ ws. p ∷ ws) (map-position (suc p) vs)

  rows-All :
      (p : ℕ) (vs : List (String × String))
      → All (λ r. r.id ≡ id_of (lookup r.normalized_value e)) (rows_of e p vs)
  rows-All p [] = tt
  rows-All p (v ∷ vs) = (
    id-placed p v (lookup v.1 e)
        ∙ ap (λ k. id_of (lookup k e)) (sym (placed_key p v (lookup v.1 e) (h v.1))),
    rows-All (suc p) vs,
  )

-- The rows of a model before and after it was given the values.
pub record IsReplaced (t : UnicodeText) (values : List String) (former rows : List ModelVariant)
    : Type 0 where
  pub as_given : map as_value rows ≡ firsts (present t values)
  pub in_order : map (λ r. r.position) rows ≡ numbered 0 (firsts (present t values))
  pub ids_kept : All (λ r. r.id ≡ id_of (last_row r.normalized_value former)) rows

IsReplaced-rows_of :
    (t : UnicodeText) (variants : List ModelVariant) (values : List String)
    → IsReplaced t values variants
        (rows_of (existing_from [] variants) 0 (normalize_variant_values t values))
unfolding normalize_variant_values
IsReplaced-rows_of t variants values =
    let vs = normalize_unseen t [] values in
    let e = existing_from [] variants in
    let own : (k : String) (w : ModelVariant) → lookup k e ≡ some w → w.normalized_value ≡ k =
      λ k w q. keyed [] variants k w none_listed q in
    let exact : vs ≡ firsts (present t values) =
      normalized-firsts t [] values ∙ filter-all (firsts (present t values)) in
    record {
      as_given = map-as_value e own 0 vs ∙ exact;
      in_order = map-position e own 0 vs ∙ ap (numbered 0) exact;
      ids_kept =
          All-imp _ _
            (λ (r : ModelVariant) same.
              same ∙ ap id_of (lookup-last_row r.normalized_value variants))
            (rows_of e 0 vs) (rows-All e own 0 vs);
    }

-- Given values, a model has a row for each that is not blank, of those with one key for the first only,
-- in their order and numbered from 0; the row has the id of the last former row with its key, or none
-- when there is no such row. The same values, given again, change no row.
pub replace_settles :
    (t : UnicodeText) (variants : List ModelVariant) (values : List String)
    → IsReplaced t values variants (replace_model_variants t variants (some values))
      × (replace_model_variants t (replace_model_variants t variants (some values)) (some values)
          ≡ replace_model_variants t variants (some values))
unfolding normalize_variant_values
replace_settles t variants values =
    let vs = normalize_variant_values t values in
    let e = existing_from [] variants in
    let first = replaced-rows_of t variants values in
    (
      subst (IsReplaced t values variants) (sym first) (IsReplaced-rows_of t variants values),
      replaced-rows_of t (replace_model_variants t variants (some values)) values
          ∙ ap (λ rows. rows_of (existing_from [] rows) 0 vs) first
          ∙ rows_again e (λ k w q. keyed [] variants k w none_listed q) [] 0 vs (once t [] values)
          ∙ sym first,
    )
