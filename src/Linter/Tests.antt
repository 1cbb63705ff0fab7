-- ===== src/Linter/Tests.antt =====
-- Runs of the linters, and instances of their theorems.
use miharbor.Base.{◌≤◌, length, ◌≡◌, arith, none, some, List, [], ◌∷◌}
use miharbor.Base.Text.{Text, text, text_eq, starts_with, ends_with, includes}
use miharbor.Rules.{Rule, simple, match, IndexedRule}
use miharbor.Linter.Duplicates.{repeats}
use miharbor.Linter.Duplicates.Reference.{nested_loop as repeats_by_loop}
use miharbor.Linter.Duplicates.Equivalence.{repeats-nested_loop}
use miharbor.Linter.Placement.{
  suggest_placement, classify_rule, is_ad_block_value, is_russian_domain, is_private_ip,
  is_private_domain_suffix, is_russian_geo, is_geo_site_category, is_service_domain,
}
use miharbor.Linter.Placement.Bounds.{suggest_placement-le}
use miharbor.Linter.Placement.Order.{InOrder, insert_at, suggest_placement-InOrder}
use miharbor.Linter.Unreachable.{detect_unreachable}
use miharbor.Linter.Unreachable.Reference.{nested_loop}
use miharbor.Linter.Unreachable.Equivalence.{detect_unreachable-nested_loop}

abbrev suffix_rule : Text → Text → Rule
suffix_rule value target =
    simple
      (record { type = text "DOMAIN-SUFFIX"; value = value; target = target; modifiers = none })

abbrev covered_rules : List IndexedRule
covered_rules =
    record { index = 0; rule = suffix_rule (text "ru") (text "A") }
    ∷ record { index = 1; rule = suffix_rule (text "x.ru") (text "B") }
    ∷ record { index = 2; rule = match (text "C") }
    ∷ record { index = 3; rule = suffix_rule (text "by") (text "A") }
    ∷ []

-- A stand-in for `JSON.stringify` that tells these rules apart.
abbrev key_of : Rule → Text
key_of (simple s) = s.value
key_of (match t) = t
key_of _ = []

detect_unreachable-nested_loop_example :
    detect_unreachable key_of covered_rules ≡ some (nested_loop key_of covered_rules)
detect_unreachable-nested_loop_example = detect_unreachable-nested_loop key_of covered_rules

abbrev repeated_rules : List IndexedRule
repeated_rules =
    record { index = 0; rule = suffix_rule (text "ru") (text "A") }
    ∷ record { index = 1; rule = suffix_rule (text "ru") (text "B") }
    ∷ record { index = 2; rule = suffix_rule (text "ru") (text "A") }
    ∷ []

repeats-nested_loop_example :
    repeats (record { per_group = []; first = [] }) repeated_rules
    ≡ repeats_by_loop [] repeated_rules
repeats-nested_loop_example = repeats-nested_loop repeated_rules

-- A stand-in for `toLowerCase` on texts in lower case.
abbrev as_is : Text → Text
as_is t = t

abbrev ordered_rules : List Rule
ordered_rules =
    suffix_rule (text "ads.com") (text "A")
    ∷ suffix_rule (text "a.ru") (text "A")
    ∷ match (text "C")
    ∷ []

ordered : InOrder as_is ordered_rules
unfolding classify_rule is_ad_block_value is_russian_domain is_private_ip is_private_domain_suffix
    is_russian_geo is_geo_site_category is_service_domain text_eq starts_with ends_with includes
ordered = ((omega arith, (omega arith, tt)), ((omega arith, tt), (tt, tt)))

suggest_placement-InOrder_example : InOrder as_is (
    insert_at
      (suggest_placement as_is (suffix_rule (text "b.com") (text "B")) ordered_rules).index
      (suffix_rule (text "b.com") (text "B"))
      ordered_rules)
suggest_placement-InOrder_example =
    suggest_placement-InOrder as_is (suffix_rule (text "b.com") (text "B")) ordered_rules ordered

suggest_placement-le_example :
    (suggest_placement as_is (suffix_rule (text "b.com") (text "B")) ordered_rules).index
    ≤ length ordered_rules
suggest_placement-le_example =
    suggest_placement-le as_is (suffix_rule (text "b.com") (text "B")) ordered_rules
