-- ===== src/Tagging/Settled.antt =====
-- `refresh_assignment_rule_tags` of services/tag_assignment_rules.py: a refresh that follows a refresh.
use meshive.Prelude.{
  sym, ℕ, ◌≡◌, refl, ◌∙◌, Bool, true, false, List, [], ◌∷◌, ◌++◌, arith, any, contains, count,
  count-append, length, length-append, nat_eq,
}
use meshive.Tagging.{
  ModelTag, TagAssignmentRule, TagAssignmentRuleMatch, is_desired, gains, loses, refresh_rows,
  is_row, new_row, tag_ids_of, new_rows_of, new_rows, refresh_assignment_rule_tags,
}
use meshive.Tagging.Refresh.{tagged_by_rule, desired-is_given, refresh_exact}

no_gains :
    (desired : ℕ → ℕ → Bool) (model_ids : List ℕ) (tags : List ModelTag)
    → count (gains desired model_ids) (refresh_rows desired model_ids tags) ≡ 0
unfolding refresh_rows
no_gains desired model_ids [] = refl
no_gains desired model_ids (row ∷ tags) = ground (arith, no_gains desired model_ids tags)

no_losses :
    (desired : ℕ → ℕ → Bool) (model_ids : List ℕ) (tags : List ModelTag)
    → count (loses desired model_ids) (refresh_rows desired model_ids tags) ≡ 0
unfolding refresh_rows
no_losses desired model_ids [] = refl
no_losses desired model_ids (row ∷ tags) = ground (arith, no_losses desired model_ids tags)

module _ (desired : ℕ → ℕ → Bool) (tags : List ModelTag) where
  settled_of :
      (p : ModelTag → Bool) (m : ℕ) (tag_ids : List ℕ)
      → ((t : ℕ) → desired m t ≡ true → p (new_row m t) ≡ false)
      → count p (new_rows_of desired tags m tag_ids) ≡ 0
  unfolding new_rows_of
  settled_of p m [] h = refl
  settled_of p m (t ∷ tag_ids) h = ground (arith, h t, settled_of p m tag_ids h)

  settled_rows :
      (p : ModelTag → Bool) (tag_ids ids : List ℕ)
      → ((m t : ℕ) → contains ids m ≡ true → desired m t ≡ true → p (new_row m t) ≡ false)
      → count p (new_rows desired tags tag_ids ids) ≡ 0
  unfolding new_rows
  settled_rows p tag_ids [] h = refl
  settled_rows p tag_ids (i ∷ ids) h =
      count-append p (new_rows_of desired tags i tag_ids) (new_rows desired tags tag_ids ids)
      ∙ rw (
        settled_of p i tag_ids (λ t d. h i t (ground arith) d),
        settled_rows p tag_ids ids (λ m t c d. h m t (ground arith) d),
      )

  no_rows_of :
      (m : ℕ) (tag_ids : List ℕ)
      → ((t : ℕ) → desired m t ≡ true → any (is_row m t) tags ≡ true)
      → length (new_rows_of desired tags m tag_ids) ≡ 0
  unfolding new_rows_of
  no_rows_of m [] h = refl
  no_rows_of m (t ∷ tag_ids) h = ground (arith, h t, no_rows_of m tag_ids h)

  no_rows :
      (tag_ids ids : List ℕ)
      → ((m t : ℕ) → contains ids m ≡ true → desired m t ≡ true → any (is_row m t) tags ≡ true)
      → length (new_rows desired tags tag_ids ids) ≡ 0
  unfolding new_rows
  no_rows tag_ids [] h = refl
  no_rows tag_ids (i ∷ ids) h =
      length-append (new_rows_of desired tags i tag_ids) (new_rows desired tags tag_ids ids)
      ∙ rw (
        no_rows_of i tag_ids (λ t d. h i t (ground arith) d),
        no_rows tag_ids ids (λ m t c d. h m t (ground arith) d),
      )

has_row :
    (m t : ℕ) (tags : List ModelTag) → tagged_by_rule m t tags ≡ true → any (is_row m t) tags ≡ true
has_row m t [] h = h
has_row m t (row ∷ tags) h = ground (arith, has_row m t tags)

-- When nothing else changes, a second refresh of the same models counts no tag as added and none as
-- removed.
pub refresh_settles :
    (rules : List TagAssignmentRule) (matches : List TagAssignmentRuleMatch) (model_ids : List ℕ)
    (tags : List ModelTag)
    → let again =
        refresh_assignment_rule_tags rules matches model_ids
          (refresh_assignment_rule_tags rules matches model_ids tags).tags in
      (again.added ≡ 0) × (again.removed ≡ 0)
unfolding refresh_assignment_rule_tags
refresh_settles rules matches model_ids tags =
    let desired = is_desired rules matches in
    let kept = refresh_rows desired model_ids tags in
    let created = new_rows desired tags (tag_ids_of rules) model_ids in
    let exact = refresh_exact rules matches model_ids tags in
    (
      rw (
        no_rows desired (kept ++ created) (tag_ids_of rules) model_ids (λ m t c d.
            has_row m t (kept ++ created)
              (exact m t c ∙ sym (desired-is_given m t rules matches) ∙ d)),
        count-append,
        no_gains desired model_ids tags,
        settled_rows desired tags (gains desired model_ids) (tag_ids_of rules) model_ids
            (λ m t c d. ground arith),
      ),
      rw (
        count-append,
        no_losses desired model_ids tags,
        settled_rows desired tags (loses desired model_ids) (tag_ids_of rules) model_ids
            (λ m t c d. ground arith),
      ),
    )
