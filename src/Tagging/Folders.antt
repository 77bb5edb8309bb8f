-- ===== src/Tagging/Folders.antt =====
-- `matches_legacy_folder_path` of services/tag_assignment_rules.py: the models of a folder rule.
use meshive.Prelude.{
  String, ◌≡◌, refl, ◌∙◌, Bool, true, false, ◌&&◌, List, [], ◌∷◌, arith, map, any, ◌==◌, string_eq,
}
use meshive.Tagging.{direct_child, self_or_descendant}
use meshive.Tagging.Matching.{same_path, parents, parent, matches_legacy_folder_path}

-- The rule's folder stands at the front of the model's path.
abbrev pub is_prefix : List String → List String → Bool
is_prefix [] ys = true
is_prefix (x ∷ xs) [] = false
is_prefix (x ∷ xs) (y ∷ ys) = x == y && is_prefix xs ys

any_of_longer :
    (x y : String) (xs : List String) (yss : List (List String))
    → any (same_path (x ∷ xs)) (map (λ p. y ∷ p) yss) ≡ (x == y && any (same_path xs) yss)
unfolding same_path
any_of_longer x y xs [] = ground arith
any_of_longer x y xs (ys ∷ yss) = ground (arith, any_of_longer x y xs yss)

-- A recursive folder rule matches just the models at or below its folder: the parts of the folder are
-- the first parts of the model's path.
pub descendant_is_prefix :
    (model_path rule_path : List String)
    → matches_legacy_folder_path model_path rule_path self_or_descendant
      ≡ is_prefix rule_path model_path
unfolding matches_legacy_folder_path same_path parents
descendant_is_prefix [] [] = refl
descendant_is_prefix [] (x ∷ xs) = refl
descendant_is_prefix (y ∷ ys) [] = refl
descendant_is_prefix (y ∷ ys) (x ∷ xs) =
    ground (arith, any_of_longer x y xs (parents ys), descendant_is_prefix ys xs)

prefix_of_parent :
    (model_path rule_path : List String)
    → same_path rule_path (parent model_path) ≡ true
    → is_prefix rule_path model_path ≡ true
unfolding same_path parent
prefix_of_parent [] [] h = refl
prefix_of_parent [] (x ∷ xs) h = h
prefix_of_parent (y ∷ []) [] h = refl
prefix_of_parent (y ∷ []) (x ∷ xs) h = ground arith
prefix_of_parent (y ∷ z ∷ ys) [] h = refl
prefix_of_parent (y ∷ z ∷ ys) (x ∷ xs) h = ground (arith, prefix_of_parent (z ∷ ys) xs)

-- A rule for direct children matches no model that the recursive rule of the folder does not match.
child_is_descendant :
    (model_path rule_path : List String)
    → matches_legacy_folder_path model_path rule_path direct_child ≡ true
    → matches_legacy_folder_path model_path rule_path self_or_descendant ≡ true
unfolding matches_legacy_folder_path same_path parents parent
child_is_descendant model_path rule_path h =
    descendant_is_prefix model_path rule_path ∙ prefix_of_parent model_path rule_path h
