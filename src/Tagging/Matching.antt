-- ===== src/Tagging/Matching.antt =====
-- `_matches_rule` and `matches_legacy_folder_path` of services/tag_assignment_rules.py. The `parts` of a
-- `PurePosixPath` are a parameter, for the relative paths that the tables hold, and so is the
-- compiled expression of a rule. A missing relation is the `ValueError`, for which there is no answer.
use text.Mathlib.Text.{find?}
use meshive.Prelude.{
  String, Bool, true, false, ◌&&◌, ◌||◌, Option, none, some, List, [], ◌∷◌, map, if◌then◌else◌, any,
  is_some, ◌==◌, string_eq,
}
use meshive.Models.{UnicodeText}
use meshive.Tagging.{
  TagAssignmentRule, contains_text, regex, path_relation, PathRelation, direct_child,
  self_or_descendant,
}

pub data TargetType : Type 0 where
  model_relative_path archive_filename archive_entry_path archive_entry_name : TargetType

-- `TagAssignmentRuleTarget`
pub record TagAssignmentRuleTarget : Type 0 where
  pub target_type : TargetType
  pub folder_segment : Bool

-- A row of the archives of a model: the file name, and the path and the name of an entry.
pub record ArchiveValue : Type 0 where
  pub filename : String
  pub entry_path : Option String
  pub entry_name : Option String

-- Two paths are equal when their parts are.
unfoldable pub same_path : List String → List String → Bool
same_path [] [] = true
same_path (x ∷ xs) (y ∷ ys) = let rest = same_path xs ys in x == y && rest
same_path _ _ = false

-- `parents`
unfoldable pub parents : List String → List (List String)
parents [] = []
parents (x ∷ xs) = [] ∷ map (λ p. x ∷ p) (parents xs)

-- `parent`; the empty path is its own.
unfoldable pub parent : List String → List String
parent [] = []
parent (x ∷ []) = []
parent (x ∷ y ∷ xs) = x ∷ parent (y ∷ xs)

unfoldable pub matches_legacy_folder_path : List String → List String → PathRelation → Bool
matches_legacy_folder_path model_path rule_path self_or_descendant =
    same_path rule_path model_path || any (same_path rule_path) (parents model_path)
matches_legacy_folder_path model_path rule_path direct_child =
    same_path rule_path (parent model_path)

or_empty : Option String → String
or_empty none = ""
or_empty (some s) = s

present : List (Option String) → List String
present [] = []
present (none ∷ xs) = present xs
present (some s ∷ xs) = s ∷ present xs

values_of :
    (String → List String) → TagAssignmentRuleTarget → String → List ArchiveValue → List String
unfolding present
values_of parts target relative_path archive_values = elim target.target_type [
  | model_relative_path ↦ if target.folder_segment then parts relative_path else relative_path ∷ []
  | archive_filename ↦ map (λ a. a.filename) archive_values
  | archive_entry_path ↦ present (map (λ a. a.entry_path) archive_values)
  | archive_entry_name ↦ present (map (λ a. a.entry_name) archive_values)
]

is_path_target : TargetType → Bool
is_path_target model_relative_path = true
is_path_target _ = false

related : List String → List String → Option PathRelation → Option Bool
unfolding matches_legacy_folder_path
related model_path rule_path none = none
related model_path rule_path (some relation) =
    some (matches_legacy_folder_path model_path rule_path relation)

searched : Option (String → Bool) → String → Bool
searched none value = false
searched (some search) value = search value

value_matches :
    UnicodeText
    → (String → List String)
    → Option (String → Bool)
    → TagAssignmentRule
    → TagAssignmentRuleTarget
    → String
    → String
    → Option Bool
unfolding related is_path_target searched or_empty
value_matches t parts compiled rule target relative_path value = elim rule.match_mode [
  | path_relation ↦
      if is_path_target target.target_type
      then related (parts relative_path) (parts (or_empty rule.path_value)) rule.relation
      else some false
  | contains_text ↦ some (is_some (find? (t.casefold value) (t.casefold (or_empty rule.pattern))))
  | regex ↦ some (searched compiled value)
]

-- The first answer but `false`: a match, or the error.
or_else : Option Bool → Option Bool → Option Bool
or_else (some false) later = later
or_else (some true) later = some true
or_else none later = none

first_match : {A : Type 0} → (A → Option Bool) → List A → Option Bool
unfolding or_else
first_match test [] = some false
first_match test (x ∷ xs) = let later = first_match test xs in or_else (test x) later

unfoldable pub matches_rule :
    UnicodeText
    → (String → List String)
    → Option (String → Bool)
    → TagAssignmentRule
    → List TagAssignmentRuleTarget
    → String
    → List ArchiveValue
    → Option Bool
unfolding first_match value_matches values_of
matches_rule t parts compiled rule targets relative_path archive_values =
    first_match
      (λ target.
        first_match (value_matches t parts compiled rule target relative_path)
          (values_of parts target relative_path archive_values))
      targets
