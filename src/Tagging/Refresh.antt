-- ===== src/Tagging/Refresh.antt =====
-- `refresh_assignment_rule_tags` of services/tag_assignment_rules.py: which tags a model has of the
-- rules, and which a person gave it.
use meshive.Prelude.{
  ℕ, ◌≡◌, refl, sym, ap, ◌∙◌, Bool, true, false, not, ◌&&◌, ◌||◌, List, [], ◌∷◌, ◌++◌, arith, any,
  contains, ◌==◌, nat_eq,
}
use meshive.Tagging.{
  ModelTag, TagAssignmentRule, TagAssignmentRuleMatch, gives, is_desired, refresh_rows, is_row,
  tag_ids_of, new_rows_of, new_rows, refresh_assignment_rule_tags,
}

pub any-append :
    (p : ModelTag → Bool) (xs ys : List ModelTag) → any p (xs ++ ys) ≡ (any p xs || any p ys)
any-append p [] ys = refl
any-append p (x ∷ xs) ys = ground (arith, any-append p xs ys)

-- The model has the tag of a rule, or of a person.
abbrev pub tagged_by_rule : ℕ → ℕ → List ModelTag → Bool
tagged_by_rule model_id tag_id = any (λ row. is_row model_id tag_id row && row.is_assignment_rule)

abbrev pub tagged_directly : ℕ → ℕ → List ModelTag → Bool
tagged_directly model_id tag_id = any (λ row. is_row model_id tag_id row && row.is_direct)

module _ (desired : ℕ → ℕ → Bool) (model_ids : List ℕ) (m t : ℕ) where
  kept_by_rule :
      (tags : List ModelTag)
      → contains model_ids m ≡ true
      → tagged_by_rule m t (refresh_rows desired model_ids tags)
        ≡ (desired m t && any (is_row m t) tags)
  unfolding refresh_rows
  kept_by_rule [] h = ground arith
  kept_by_rule (row ∷ tags) h = ground (arith, kept_by_rule tags h)

  kept_directly :
      (tags : List ModelTag)
      → tagged_directly m t (refresh_rows desired model_ids tags) ≡ tagged_directly m t tags
  unfolding refresh_rows
  kept_directly [] = refl
  kept_directly (row ∷ tags) = ground (arith, kept_directly tags)

  created_of :
      (tags : List ModelTag) (i : ℕ) (tag_ids : List ℕ)
      → tagged_by_rule m t (new_rows_of desired tags i tag_ids)
        ≡ (i == m && (contains tag_ids t && (desired m t && not (any (is_row m t) tags))))
  unfolding new_rows_of
  created_of tags i [] = ground arith
  created_of tags i (j ∷ tag_ids) = ground (arith, created_of tags i tag_ids)

  created_by_rule :
      (tags : List ModelTag) (tag_ids : List ℕ) (ids : List ℕ)
      → tagged_by_rule m t (new_rows desired tags tag_ids ids)
        ≡ (contains ids m && (contains tag_ids t && (desired m t && not (any (is_row m t) tags))))
  unfolding new_rows
  created_by_rule tags tag_ids [] = refl
  created_by_rule tags tag_ids (i ∷ ids) =
      any-append _ (new_rows_of desired tags i tag_ids) (new_rows desired tags tag_ids ids)
      ∙ ground (arith, created_of tags i tag_ids, created_by_rule tags tag_ids ids)

  created_not_directly_of :
      (tags : List ModelTag) (i : ℕ) (tag_ids : List ℕ)
      → tagged_directly m t (new_rows_of desired tags i tag_ids) ≡ false
  unfolding new_rows_of
  created_not_directly_of tags i [] = refl
  created_not_directly_of tags i (j ∷ tag_ids) =
      ground (arith, created_not_directly_of tags i tag_ids)

  created_not_directly :
      (tags : List ModelTag) (tag_ids ids : List ℕ)
      → tagged_directly m t (new_rows desired tags tag_ids ids) ≡ false
  unfolding new_rows
  created_not_directly tags tag_ids [] = refl
  created_not_directly tags tag_ids (i ∷ ids) =
      any-append _ (new_rows_of desired tags i tag_ids) (new_rows desired tags tag_ids ids)
      ∙ ground
          (arith, created_not_directly_of tags i tag_ids, created_not_directly tags tag_ids ids)

  others_kept :
      (tags : List ModelTag)
      → contains model_ids m ≡ false
      → tagged_by_rule m t (refresh_rows desired model_ids tags) ≡ tagged_by_rule m t tags
  unfolding refresh_rows
  others_kept [] h = refl
  others_kept (row ∷ tags) h = ground (arith, others_kept tags h)

given_tag :
    (k : TagAssignmentRuleMatch) (t : ℕ) (rules : List TagAssignmentRule)
    → any (gives t k) rules ≡ true
    → contains (tag_ids_of rules) t ≡ true
unfolding tag_ids_of
given_tag k t [] h = ground arith
given_tag k t (rule ∷ rules) h = ground (arith, given_tag k t rules)

desired_tag :
    (rules : List TagAssignmentRule) (matches : List TagAssignmentRuleMatch) (m t : ℕ)
    → is_desired rules matches m t ≡ true
    → contains (tag_ids_of rules) t ≡ true
unfolding is_desired
desired_tag rules [] m t h = ground arith
desired_tag rules (k ∷ matches) m t h =
    ground (arith, given_tag k t rules, desired_tag rules matches m t)

-- A rule that is enabled gives the tag, and a match of the rule is the model's.
abbrev pub is_given : List TagAssignmentRuleMatch → ℕ → ℕ → TagAssignmentRule → Bool
is_given matches m t rule =
    rule.enabled
    && (rule.tag_id == t
        && any (λ k. k.tag_assignment_rule_id == rule.id && k.model_id == m) matches)

module _ (m t : ℕ) where
  given_by_none : (rules : List TagAssignmentRule) → any (is_given [] m t) rules ≡ false
  given_by_none [] = refl
  given_by_none (rule ∷ rules) = ground (arith, given_by_none rules)

  given_by_first :
      (k : TagAssignmentRuleMatch) (matches : List TagAssignmentRuleMatch)
      (rules : List TagAssignmentRule)
      → any (is_given (k ∷ matches) m t) rules
        ≡ (k.model_id == m && any (gives t k) rules || any (is_given matches m t) rules)
  given_by_first k matches [] = ground arith
  given_by_first k matches (rule ∷ rules) = ground (arith, given_by_first k matches rules)

  pub desired-is_given :
      (rules : List TagAssignmentRule) (matches : List TagAssignmentRuleMatch)
      → is_desired rules matches m t ≡ any (is_given matches m t) rules
  unfolding is_desired
  desired-is_given rules [] = sym (given_by_none rules)
  desired-is_given rules (k ∷ matches) =
      ap (λ b. k.model_id == m && any (gives t k) rules || b) (desired-is_given rules matches)
      ∙ sym (given_by_first k matches rules)

-- After a refresh, a model that was refreshed has a tag of the rules exactly when an enabled rule that
-- gives the tag has a match with the model, whatever flags its rows had before.
pub refresh_exact :
    (rules : List TagAssignmentRule) (matches : List TagAssignmentRuleMatch) (model_ids : List ℕ)
    (tags : List ModelTag) (m t : ℕ)
    → contains model_ids m ≡ true
    → tagged_by_rule m t (refresh_assignment_rule_tags rules matches model_ids tags).tags
      ≡ any (is_given matches m t) rules
unfolding refresh_assignment_rule_tags
refresh_exact rules matches model_ids tags m t h =
    let desired = is_desired rules matches in
    any-append _ (refresh_rows desired model_ids tags)
      (new_rows desired tags (tag_ids_of rules) model_ids)
    ∙ rw
        (
          kept_by_rule desired model_ids m t tags h,
          created_by_rule desired model_ids m t tags (tag_ids_of rules) model_ids,
          h,
        )
        (ground (arith, desired_tag rules matches m t))
    ∙ desired-is_given m t rules matches

-- A refresh gives and takes no tag that a person gave, of any model.
pub refresh_keeps_direct :
    (rules : List TagAssignmentRule) (matches : List TagAssignmentRuleMatch) (model_ids : List ℕ)
    (tags : List ModelTag) (m t : ℕ)
    → tagged_directly m t (refresh_assignment_rule_tags rules matches model_ids tags).tags
      ≡ tagged_directly m t tags
unfolding refresh_assignment_rule_tags
refresh_keeps_direct rules matches model_ids tags m t =
    let desired = is_desired rules matches in
    any-append _ (refresh_rows desired model_ids tags)
      (new_rows desired tags (tag_ids_of rules) model_ids)
    ∙ rw
        (
          kept_directly desired model_ids m t tags,
          created_not_directly desired model_ids m t tags (tag_ids_of rules) model_ids,
        )
        (ground arith)

-- The tags that the rules gave to the other models stay.
refresh_keeps_others :
    (rules : List TagAssignmentRule) (matches : List TagAssignmentRuleMatch) (model_ids : List ℕ)
    (tags : List ModelTag) (m t : ℕ)
    → contains model_ids m ≡ false
    → tagged_by_rule m t (refresh_assignment_rule_tags rules matches model_ids tags).tags
      ≡ tagged_by_rule m t tags
unfolding refresh_assignment_rule_tags
refresh_keeps_others rules matches model_ids tags m t h =
    let desired = is_desired rules matches in
    any-append _ (refresh_rows desired model_ids tags)
      (new_rows desired tags (tag_ids_of rules) model_ids)
    ∙ rw
        (
          others_kept desired model_ids m t tags h,
          created_by_rule desired model_ids m t tags (tag_ids_of rules) model_ids,
          h,
        )
        (ground arith)
