-- ===== src/Variants/Tests.antt =====
-- The variants of a model with one row, to which a repetition and a new value are given.
use meshive.Prelude.{
  String, ◌≡◌, refl, none, some, List, [], ◌∷◌, string_eq, lookup, insert, remove,
}
use meshive.SignIn.Tests.{ascii}
use meshive.Variants.{ModelVariant, replace_model_variants}
use meshive.Variants.Settled.{IsReplaced, replace_settles}

abbrev variants : List ModelVariant
variants = record { id = some 4; value = "Large"; normalized_value = "large"; position = 0 } ∷ []

abbrev values : List String
values = "small" ∷ "" ∷ "large" ∷ "small" ∷ []

replace_settles_example :
    IsReplaced ascii values variants (replace_model_variants ascii variants (some values))
    × (replace_model_variants ascii
          (replace_model_variants ascii variants (some values))
          (some values)
        ≡ replace_model_variants ascii variants (some values))
replace_settles_example = replace_settles ascii variants values

its_rows :
    replace_model_variants ascii variants (some values)
    ≡ record { id = none; value = "small"; normalized_value = "small"; position = 0 }
      ∷ record { id = some 4; value = "large"; normalized_value = "large"; position = 1 }
      ∷ []
unfolding replace_model_variants lookup insert remove
its_rows = refl
