-- ===== src/Tagging/Evaluate.antt =====
-- `evaluate_assignment_rule` of services/tag_assignment_rules.py: the matches of a rule afterwards.
use meshive.Prelude.{
  ℕ, ◌≡◌, refl, ◌∙◌, inl, inr, Bool, true, false, not, ◌&&◌, ◌||◌, List, [], ◌∷◌, ◌++◌, arith, map,
  if◌then◌else◌, Bool-cases, any, filter, ◌==◌, nat_eq,
}
use meshive.Models.{LibraryModel}
use meshive.Tagging.{
  TagAssignmentRule, TagAssignmentRuleMatch, in_source, find_assignment_rule_matches, match_of,
  evaluate_assignment_rule,
}

-- The table says that the rule matches the model.
abbrev pub is_matched : ℕ → ℕ → List TagAssignmentRuleMatch → Bool
is_matched rule_id model_id =
    any (λ k. k.tag_assignment_rule_id == rule_id && k.model_id == model_id)

any-append :
    (p : TagAssignmentRuleMatch → Bool) (xs ys : List TagAssignmentRuleMatch)
    → any p (xs ++ ys) ≡ (any p xs || any p ys)
any-append p [] ys = refl
any-append p (x ∷ xs) ys = ground (arith, any-append p xs ys)

module _ (rule : TagAssignmentRule) (r m : ℕ) where
  kept_matches :
      (matches : List TagAssignmentRuleMatch)
      → is_matched r m (filter (λ k. not (k.tag_assignment_rule_id == rule.id)) matches)
        ≡ (if rule.id == r then false else is_matched r m matches)
  kept_matches [] = ground arith
  kept_matches (k ∷ matches) = ground (arith, kept_matches matches)

  new_matches :
      (matches_rule : TagAssignmentRule → LibraryModel → Bool) (models : List LibraryModel)
      → is_matched r m (
          map
            (match_of rule)
            (filter (matches_rule rule) (filter (in_source rule.library_source_id) models)))
        ≡ (rule.id == r
            && any
                (λ x. x.id == m && (in_source rule.library_source_id x && matches_rule rule x))
                models)
  new_matches matches_rule [] = ground arith
  new_matches matches_rule (x ∷ models) = elim (Bool-cases (in_source rule.library_source_id x)) [
    | inl e ↦ ground (arith, e, new_matches matches_rule models)
    | inr e ↦ ground (arith, e, new_matches matches_rule models)
  ]

  enabled_matches :
      (b : Bool) (models : List LibraryModel)
      → is_matched r m (map (match_of rule) (if b then models else []))
        ≡ (b && is_matched r m (map (match_of rule) models))
  enabled_matches true models = refl
  enabled_matches false models = refl

-- Once a rule is evaluated, the table says that it matches just the models of its source that pass
-- its test, or none if the rule is off. What it says of the other rules stays.
pub evaluate_exact :
    (matches_rule : TagAssignmentRule → LibraryModel → Bool) (models : List LibraryModel)
    (rule : TagAssignmentRule) (matches : List TagAssignmentRuleMatch) (r m : ℕ)
    → is_matched r m (evaluate_assignment_rule matches_rule models rule matches).1 ≡ (
        if rule.id == r
        then rule.enabled
          && any
              (λ x. x.id == m && (in_source rule.library_source_id x && matches_rule rule x))
              models
        else is_matched r m matches)
unfolding evaluate_assignment_rule find_assignment_rule_matches
evaluate_exact matches_rule models rule matches r m =
    any-append _ (filter (λ k. not (k.tag_assignment_rule_id == rule.id)) matches) _
    ∙ ground (
      arith,
      kept_matches rule r m matches,
      enabled_matches rule r m rule.enabled
          (filter (matches_rule rule) (filter (in_source rule.library_source_id) models)),
      new_matches rule r m matches_rule models,
    )
