-- ===== src/Tagging.antt =====
-- backend/meshive/services/tag_assignment_rules.py: the rules that put tags on models. The rows are
-- those of models/tag.py; a table of matches or of tags has one row for each pair. A set of ids is
-- the list of its elements.
pub mod Matching
pub mod Folders
pub mod Evaluate
pub mod Refresh
pub mod Settled
pub mod Tests
use meshive.Prelude.{
  ℕ, zero, suc, ◌+◌, String, Bool, true, false, not, ◌&&◌, ◌||◌, Option, none, some, List, [], ◌∷◌,
  ◌++◌, map, if◌then◌else◌, filter, count, any, contains, length, ◌==◌, nat_eq,
}
use meshive.Models.{LibraryModel}

-- `ModelTag`
pub record ModelTag : Type 0 where
  pub model_id : ℕ
  pub tag_id : ℕ
  pub is_direct : Bool
  pub is_inherited : Bool
  pub is_automatic : Bool
  pub is_assignment_rule : Bool

pub data MatchMode : Type 0 where
  contains_text regex path_relation : MatchMode

pub data PathRelation : Type 0 where
  direct_child self_or_descendant : PathRelation

-- `TagAssignmentRule`
pub record TagAssignmentRule : Type 0 where
  pub id : ℕ
  pub tag_id : ℕ
  pub library_source_id : Option ℕ
  pub match_mode : MatchMode
  pub pattern : Option String
  pub path_value : Option String
  pub relation : Option PathRelation
  pub enabled : Bool

-- `TagAssignmentRuleMatch`
pub record TagAssignmentRuleMatch : Type 0 where
  pub tag_assignment_rule_id : ℕ
  pub model_id : ℕ

unfoldable pub in_source : Option ℕ → LibraryModel → Bool
in_source none m = true
in_source (some source_id) m = m.library_source_id == source_id

-- The models that the rule is about, and those of them that it matches.
unfoldable pub find_assignment_rule_matches :
    (TagAssignmentRule → LibraryModel → Bool)
    → TagAssignmentRule
    → List LibraryModel
    → List LibraryModel × List LibraryModel
unfolding in_source
find_assignment_rule_matches matches_rule rule models =
    let selected = filter (in_source rule.library_source_id) models in
    (selected, if rule.enabled then filter (matches_rule rule) selected else [])

abbrev pub match_of : TagAssignmentRule → LibraryModel → TagAssignmentRuleMatch
match_of rule m = record { tag_assignment_rule_id = rule.id; model_id = m.id }

-- The matches of the rule are written again; what comes beside them is the ids of its models.
unfoldable pub evaluate_assignment_rule :
    (TagAssignmentRule → LibraryModel → Bool)
    → List LibraryModel
    → TagAssignmentRule
    → List TagAssignmentRuleMatch
    → List ℕ × List TagAssignmentRuleMatch
unfolding find_assignment_rule_matches
evaluate_assignment_rule matches_rule models rule matches =
    let (selected, matched) = find_assignment_rule_matches matches_rule rule models in
    (
      map (λ m. m.id) selected,
      filter (λ k. not (k.tag_assignment_rule_id == rule.id)) matches
          ++ map (match_of rule) matched,
    )

-- `desired[model_id]` has the tag: an enabled rule that gives it matches the model.
abbrev pub gives : ℕ → TagAssignmentRuleMatch → TagAssignmentRule → Bool
gives tag_id k rule = rule.enabled && (rule.id == k.tag_assignment_rule_id && rule.tag_id == tag_id)

unfoldable pub is_desired : List TagAssignmentRule → List TagAssignmentRuleMatch → ℕ → ℕ → Bool
is_desired rules matches model_id tag_id =
    any (λ k. k.model_id == model_id && any (gives tag_id k) rules) matches

-- What a refresh makes of a row of one of its models, and whether it counts as added or removed.
abbrev pub refreshed : Bool → ModelTag → ModelTag
refreshed desired row = record row {
  is_inherited = false;
  is_automatic = false;
  is_assignment_rule = desired;
}

abbrev pub is_dropped : Bool → ModelTag → Bool
is_dropped desired row = row.is_assignment_rule && (not desired && not row.is_direct)

unfoldable pub refresh_rows : (ℕ → ℕ → Bool) → List ℕ → List ModelTag → List ModelTag
refresh_rows desired model_ids [] = []
refresh_rows desired model_ids (row ∷ rows) =
    let rest = refresh_rows desired model_ids rows in
    if contains model_ids row.model_id
    then if is_dropped (desired row.model_id row.tag_id) row
      then rest
      else refreshed (desired row.model_id row.tag_id) row ∷ rest
    else row ∷ rest

abbrev pub is_row : ℕ → ℕ → ModelTag → Bool
is_row model_id tag_id row = row.model_id == model_id && row.tag_id == tag_id

abbrev pub new_row : ℕ → ℕ → ModelTag
new_row model_id tag_id = record {
  model_id = model_id;
  tag_id = tag_id;
  is_direct = false;
  is_inherited = false;
  is_automatic = false;
  is_assignment_rule = true;
}

-- The tags that the rules give, once each.
unfoldable pub tag_ids_of : List TagAssignmentRule → List ℕ
tag_ids_of [] = []
tag_ids_of (rule ∷ rules) =
    let rest = tag_ids_of rules in if contains rest rule.tag_id then rest else rule.tag_id ∷ rest

-- The rows that a model lacks.
unfoldable pub new_rows_of : (ℕ → ℕ → Bool) → List ModelTag → ℕ → List ℕ → List ModelTag
new_rows_of desired tags model_id [] = []
new_rows_of desired tags model_id (tag_id ∷ tag_ids) =
    let rest = new_rows_of desired tags model_id tag_ids in
    if desired model_id tag_id && not (any (is_row model_id tag_id) tags)
    then new_row model_id tag_id ∷ rest
    else rest

unfoldable pub new_rows : (ℕ → ℕ → Bool) → List ModelTag → List ℕ → List ℕ → List ModelTag
unfolding new_rows_of
new_rows desired tags tag_ids [] = []
new_rows desired tags tag_ids (model_id ∷ model_ids) =
    new_rows_of desired tags model_id tag_ids ++ new_rows desired tags tag_ids model_ids

-- Rows of the models that the rules now tag, and that had no tag of a rule before.
abbrev pub gains : (ℕ → ℕ → Bool) → List ℕ → ModelTag → Bool
gains desired model_ids row =
    contains model_ids row.model_id
    && (desired row.model_id row.tag_id && not row.is_assignment_rule)

abbrev pub loses : (ℕ → ℕ → Bool) → List ℕ → ModelTag → Bool
loses desired model_ids row =
    contains model_ids row.model_id
    && (row.is_assignment_rule && not (desired row.model_id row.tag_id))

pub record Refreshed : Type 0 where
  pub added : ℕ
  pub removed : ℕ
  pub tags : List ModelTag

-- The ids are those of a set: each stands once in the list.
unfoldable pub refresh_assignment_rule_tags :
    List TagAssignmentRule → List TagAssignmentRuleMatch → List ℕ → List ModelTag → Refreshed
unfolding refresh_rows new_rows tag_ids_of is_desired
refresh_assignment_rule_tags rules matches model_ids tags =
    let desired = is_desired rules matches in
    let created = new_rows desired tags (tag_ids_of rules) model_ids in
    record {
      added = length created + count (gains desired model_ids) tags;
      removed = count (loses desired model_ids) tags;
      tags = refresh_rows desired model_ids tags ++ created;
    }

add_ids : List ℕ → List ℕ → List ℕ
add_ids [] affected = affected
add_ids (i ∷ ids) affected =
    let rest = add_ids ids affected in if contains rest i then rest else i ∷ rest

-- The loop over the rules: the affected models, as a set, and the matches.
evaluate_all :
    (TagAssignmentRule → LibraryModel → Bool)
    → List LibraryModel
    → List TagAssignmentRule
    → List ℕ
    → List TagAssignmentRuleMatch
    → List ℕ × List TagAssignmentRuleMatch
unfolding evaluate_assignment_rule add_ids
evaluate_all matches_rule models [] affected matches = (affected, matches)
evaluate_all matches_rule models (rule ∷ rules) affected matches =
    let (ids, matches') = evaluate_assignment_rule matches_rule models rule matches in
    evaluate_all matches_rule models rules (add_ids ids affected) matches'

is_selected : Option (List ℕ) → TagAssignmentRule → Bool
is_selected none rule = true
is_selected (some rule_ids) rule = contains rule_ids rule.id

pub record Reevaluated : Type 0 where
  pub models_evaluated : ℕ
  pub match_count : ℕ
  pub matches : List TagAssignmentRuleMatch
  pub refresh : Refreshed

unfoldable pub reevaluate_canonical_rules :
    (TagAssignmentRule → LibraryModel → Bool)
    → List LibraryModel
    → List TagAssignmentRule
    → Option (List ℕ)
    → List TagAssignmentRuleMatch
    → List ModelTag
    → Reevaluated
unfolding evaluate_all is_selected
reevaluate_canonical_rules matches_rule models rules rule_ids matches tags =
    let selected = filter (is_selected rule_ids) rules in
    let (affected, matches') = evaluate_all matches_rule models selected [] matches in
    record {
      models_evaluated = length affected;
      match_count =
          count (λ k. any (λ rule. rule.id == k.tag_assignment_rule_id) selected) matches';
      matches = matches';
      refresh = refresh_assignment_rule_tags rules matches' affected tags;
    }
