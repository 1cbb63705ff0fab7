-- ===== src/Linter/Unreachable/Reference.antt =====
-- The nested loop that linter/unreachable.ts had before its indexes: for each rule, the first
-- earlier rule that covers it, and how. It states what the one pass is meant to compute.
use miharbor.Base.{Bool, false, ◌&&◌, not, Option, none, some, List, [], ◌∷◌, ◌++◌, if◌then◌else◌}
use miharbor.Base.Text.{Text, text_eq, includes, ends_with}
use miharbor.Rules.{Rule, simple, SimpleRule, IndexedRule, is_match}
use miharbor.Linter.Issue.{Issue}
use miharbor.Linter.Unreachable.{
  domain_suffix, domain_keyword, Reason, match_above, duplicate, shadowed, issue,
}
use miharbor.Linter.Unreachable.Trie.{dot}

-- A broader domain suffix: `later` ends with a dot and `earlier`.
unfoldable pub suffix_shadows : (earlier later : Text) → Bool
suffix_shadows [] later = false
suffix_shadows (c ∷ earlier) later = ends_with (dot ∷ c ∷ earlier) later

-- Another keyword that occurs in `later`.
unfoldable pub keyword_shadows : (earlier later : Text) → Bool
keyword_shadows earlier later = not (text_eq earlier later) && includes earlier later

unfoldable pub simple_shadows : (earlier later : SimpleRule) → Bool
simple_shadows a b =
    if text_eq b.type domain_suffix
    then text_eq a.type domain_suffix && suffix_shadows a.value b.value
    else if text_eq b.type domain_keyword
    then text_eq a.type domain_keyword && keyword_shadows a.value b.value
    else false

unfoldable pub shadows : (earlier later : Rule) → Bool
unfolding simple_shadows
shadows (simple a) (simple b) = simple_shadows a b
shadows _ _ = false

module _ (json_key : Rule → Text) where
  unfoldable pub reason : (earlier later : Rule) → Option Reason
  reason earlier later =
      if is_match earlier
      then some match_above
      else if text_eq (json_key earlier) (json_key later)
      then some duplicate
      else if shadows earlier later
      then some shadowed
      else none

  unfoldable pub first_issue : List IndexedRule → IndexedRule → List Issue
  unfolding reason
  first_issue [] cur = []
  first_issue (r ∷ done) cur = elim (reason r.rule cur.rule) [
    | none ↦ first_issue done cur
    | some why ↦ issue why r.index cur.index ∷ []
  ]

  unfoldable pub nested_from : List IndexedRule → List IndexedRule → List Issue
  unfolding first_issue
  nested_from done [] = []
  nested_from done (cur ∷ rest) = first_issue done cur ++ nested_from (done ++ cur ∷ []) rest

  unfoldable pub nested_loop : List IndexedRule → List Issue
  unfolding nested_from
  nested_loop rules = nested_from [] rules
