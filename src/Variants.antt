-- ===== src/Variants.antt =====
-- backend/meshive/services/variants.py: the variants of a model, from the values that a source or a user
-- gives.
pub mod Replace
pub mod Settled
pub mod Tests
use meshive.Prelude.{
  ℕ, suc, String, Bool, not, ◌&&◌, Option, none, some, List, [], ◌∷◌, ◌++◌, if◌then◌else◌, contains,
  map, ◌==◌, string_eq, Dict, lookup, insert, remove,
}
use meshive.Models.{UnicodeText}

-- `ModelVariant` of models/catalog.py; a new row has no id yet.
pub record ModelVariant : Type 0 where
  pub id : Option ℕ
  pub value : String
  pub normalized_value : String
  pub position : ℕ

unfoldable pub normalize_variant : UnicodeText → String → Option (String × String)
normalize_variant t value =
    let display_value = t.strip (t.nfkc value) in
    if display_value == "" then none else some (display_value, t.casefold display_value)

-- A value that is not blank and whose key was not seen.
unfoldable pub fresh_value : List String → Option (String × String) → Option (String × String)
fresh_value seen none = none
fresh_value seen (some v) = if contains seen v.1 then none else some v

abbrev pub seen_with : Option (String × String) → List String → List String
seen_with none seen = seen
seen_with (some v) seen = v.1 ∷ seen

abbrev pub added : Option (String × String) → List (String × String) → List (String × String)
added none vs = vs
added (some v) vs = v ∷ vs

-- The loop of `normalize_variant_values`.
unfoldable pub normalize_unseen : UnicodeText → List String → List String → List (String × String)
unfolding normalize_variant fresh_value
normalize_unseen t seen [] = []
normalize_unseen t seen (value ∷ values) =
    let fresh = fresh_value seen (normalize_variant t value) in
    added fresh (normalize_unseen t (seen_with fresh seen) values)

unfoldable pub normalize_variant_values : UnicodeText → List String → List (String × String)
unfolding normalize_unseen
normalize_variant_values t values = normalize_unseen t [] values

-- `split` is `value.split(",")`.
unfoldable pub parse_source_variants :
    UnicodeText → (String → List String) → Option String → List String
unfolding normalize_variant_values
parse_source_variants t split none = []
parse_source_variants t split (some value) =
    map (λ v. v.0) (normalize_variant_values t (split value))

-- The rows by their keys: a later row replaces an earlier one.
unfoldable pub existing_from :
    Dict String ModelVariant → List ModelVariant → Dict String ModelVariant
existing_from d [] = d
existing_from d (v ∷ vs) = existing_from (insert v.normalized_value v d) vs

abbrev pub placed_variant : ℕ → String × String → Option ModelVariant → ModelVariant
placed_variant position v none = record {
  id = none;
  value = v.0;
  normalized_value = v.1;
  position = position;
}
placed_variant position v (some variant) = record variant { value = v.0; position = position }

unfoldable pub place_variants :
    ℕ → Dict String ModelVariant → List (String × String) → List ModelVariant
place_variants position existing [] = []
place_variants position existing (v ∷ vs) =
    placed_variant position v (lookup v.1 existing)
    ∷ place_variants (suc position) (remove v.1 existing) vs

unfoldable pub replace_model_variants :
    UnicodeText → List ModelVariant → Option (List String) → List ModelVariant
unfolding normalize_variant_values existing_from place_variants
replace_model_variants t variants none = []
replace_model_variants t variants (some values) =
    place_variants 0 (existing_from [] variants) (normalize_variant_values t values)
