-- ===== src/Tagging/Tests.antt =====
-- Two rules, and the tags of two models.
use meshive.Prelude.{
  String, ◌≡◌, refl, true, false, ◌&&◌, none, some, List, [], ◌∷◌, any, ◌==◌, nat_eq,
}
use meshive.Models.{LibraryModel}
use meshive.Tagging.{
  ModelTag, TagAssignmentRule, regex, self_or_descendant, TagAssignmentRuleMatch,
  evaluate_assignment_rule, refresh_assignment_rule_tags, in_source,
}
use meshive.Tagging.Matching.{matches_legacy_folder_path}
use meshive.Tagging.Folders.{is_prefix, descendant_is_prefix}
use meshive.Tagging.Evaluate.{is_matched, evaluate_exact}
use meshive.Tagging.Refresh.{
  is_given, tagged_by_rule, tagged_directly, refresh_exact, refresh_keeps_direct,
}
use meshive.Tagging.Settled.{refresh_settles}

abbrev dragons : TagAssignmentRule
dragons = record {
  id = 1;
  tag_id = 10;
  library_source_id = some 7;
  match_mode = regex;
  pattern = some "dragon";
  path_value = none;
  relation = none;
  enabled = true;
}

abbrev disabled : TagAssignmentRule
disabled = record dragons { id = 2; tag_id = 11; enabled = false }

abbrev rules : List TagAssignmentRule
rules = dragons ∷ disabled ∷ []

abbrev matches : List TagAssignmentRuleMatch
matches =
    record { tag_assignment_rule_id = 1; model_id = 1 }
    ∷ record { tag_assignment_rule_id = 2; model_id = 1 }
    ∷ []

abbrev old_row : ModelTag
old_row = record {
  model_id = 1;
  tag_id = 11;
  is_direct = false;
  is_inherited = true;
  is_automatic = false;
  is_assignment_rule = true;
}

abbrev tags : List ModelTag
tags = old_row ∷ record old_row { model_id = 2; is_direct = true } ∷ []

abbrev dragon : LibraryModel
dragon = record { id = 1; library_source_id = 7; name = "dragon"; relative_path = "a/dragon" }

evaluate_exact_example :
    is_matched 1 1 (evaluate_assignment_rule (λ rule m. m.id == 1) (dragon ∷ []) dragons []).1 ≡ (
      true
      && any (λ (x : LibraryModel). x.id == 1 && (in_source (some 7) x && x.id == 1)) (dragon ∷ []))
evaluate_exact_example = evaluate_exact (λ rule m. m.id == 1) (dragon ∷ []) dragons [] 1 1

refresh_exact_example :
    tagged_by_rule 1 10 (refresh_assignment_rule_tags rules matches (1 ∷ []) tags).tags
    ≡ any (is_given matches 1 10) rules
refresh_exact_example = refresh_exact rules matches (1 ∷ []) tags 1 10 refl

refresh_keeps_direct_example :
    tagged_directly 2 11 (refresh_assignment_rule_tags rules matches (1 ∷ 2 ∷ []) tags).tags
    ≡ tagged_directly 2 11 tags
refresh_keeps_direct_example = refresh_keeps_direct rules matches (1 ∷ 2 ∷ []) tags 2 11

refresh_settles_example :
    let again =
      refresh_assignment_rule_tags rules matches
        (1 ∷ [])
        (refresh_assignment_rule_tags rules matches (1 ∷ []) tags).tags in
    (again.added ≡ 0) × (again.removed ≡ 0)
refresh_settles_example = refresh_settles rules matches (1 ∷ []) tags

abbrev here : List String
here = "models" ∷ "dragon" ∷ []

abbrev folder : List String
folder = "models" ∷ []

descendant_is_prefix_example :
    matches_legacy_folder_path here folder self_or_descendant ≡ is_prefix folder here
descendant_is_prefix_example = descendant_is_prefix here folder
