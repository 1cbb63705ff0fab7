-- ===== src/Parser/Tests.antt =====
-- The rule parser at fixed texts.
use miharbor.Base.{◌≡◌, refl, ◌≢◌, none, some, [], ◌∷◌}
use miharbor.Base.Text.{Text, text, text_eq, starts_with, ends_with}
use miharbor.Base.Trim.{Trimmed, trim_start, trim_end, is_space, rest_of, without_last}
use miharbor.Rules.{and, or, Rule, simple, logical, match, nil, cons}
use miharbor.Parser.{ok, failed, empty_value, op_of, out_of_fuel, parse_rule, serialize_rule}
use miharbor.Parser.Fuel.{parse_rule-Ends}
use miharbor.Parser.Fields.{IsRule, IsChild}
use miharbor.Parser.RoundTrip.{parse_rule-serialize_rule}
use miharbor.Parser.Accepted.{Usable, parse_rule-Usable}

abbrev udp : Rule
udp = simple (record { type = text "NETWORK"; value = text "UDP"; target = []; modifiers = none })

abbrev site : Rule
site = simple (record {
  type = text "GEOSITE";
  value = text "ads";
  target = [];
  modifiers = some (text "src" ∷ []);
})

-- AND,((NETWORK,UDP),(OR,((GEOSITE,ads,src)))),DIRECT
abbrev nested : Rule
nested = logical and (cons udp (cons (logical or (cons site nil) []) nil)) (text "DIRECT")

serialize_nested :
    serialize_rule nested ≡ text "AND,((NETWORK,UDP),(OR,((GEOSITE,ads,src)))),DIRECT"
unfolding serialize_rule
serialize_nested = refl

abbrev spaced : Rule
spaced = logical and (cons udp nil) (text "DIRECT")

parse_spaced :
    parse_rule (text " AND , ( (NETWORK, UDP) ), DIRECT")
    ≡ ok (logical and (cons udp nil) (text "DIRECT"))
unfolding parse_rule is_space starts_with text_eq ends_with rest_of without_last
parse_spaced = refl

-- Text between the groups of the children is passed over.
parse_between :
    parse_rule (text "AND,((NETWORK,UDP),DST-PORT,53),DIRECT")
    ≡ ok (logical and (cons udp nil) (text "DIRECT"))
unfolding parse_rule is_space starts_with text_eq ends_with rest_of without_last
parse_between = refl

-- A nested MATCH is printed, and read as a simple rule.
parse_nested_match :
    parse_rule (serialize_rule (logical and (cons (match (text "a")) nil) (text "DIRECT")))
    ≡ ok (
        logical and
          (cons
            (simple
              (record { type = text "MATCH"; value = text "a"; target = []; modifiers = none }))
            nil)
          (text "DIRECT"))
unfolding parse_rule serialize_rule is_space starts_with text_eq ends_with rest_of without_last
parse_nested_match = refl

parse_empty_value :
    parse_rule (text "DOMAIN,,DIRECT") ≡ failed (empty_value (text "DOMAIN,,DIRECT"))
unfolding parse_rule is_space starts_with text_eq
parse_empty_value = refl

parse_rule-Ends_example : parse_rule (text "AND,((NETWORK,UDP)),DIRECT") ≢ out_of_fuel
parse_rule-Ends_example = parse_rule-Ends (text "AND,((NETWORK,UDP)),DIRECT")

from_ends-Trimmed : (t : Text) → t ≢ [] → trim_start t ≡ t → trim_end t ≡ t → Trimmed t
from_ends-Trimmed t n s e = record { some_text = n; at_start = s; at_end = e }

nested-IsRule : IsRule nested
unfolding IsChild op_of text_eq trim_start trim_end is_space
nested-IsRule =
    ((udp_ok, (((site_ok, tt), refl), tt)), from_ends-Trimmed (text "DIRECT") (λ e. cc e) refl refl)
  where
    udp_ok : IsChild udp
    udp_ok = (
      record {
        trimmed = from_ends-Trimmed (text "NETWORK") (λ e. cc e) refl refl;
        plain = (refl, (refl, (refl, (refl, (refl, (refl, (refl, tt)))))));
      },
      refl,
      record {
        trimmed = from_ends-Trimmed (text "UDP") (λ e. cc e) refl refl;
        plain = (refl, (refl, (refl, tt)));
      },
      refl,
      tt,
    )

    site_ok : IsChild site
    site_ok = (
      record {
        trimmed = from_ends-Trimmed (text "GEOSITE") (λ e. cc e) refl refl;
        plain = (refl, (refl, (refl, (refl, (refl, (refl, (refl, tt)))))));
      },
      refl,
      record {
        trimmed = from_ends-Trimmed (text "ads") (λ e. cc e) refl refl;
        plain = (refl, (refl, (refl, tt)));
      },
      refl,
      (
        record {
          trimmed = from_ends-Trimmed (text "src") (λ e. cc e) refl refl;
          plain = (refl, (refl, (refl, tt)));
        },
        tt,
      ),
    )

parse_rule-serialize_rule_example : parse_rule (serialize_rule nested) ≡ ok nested
parse_rule-serialize_rule_example = parse_rule-serialize_rule nested nested-IsRule

parse_rule-Usable_example : Usable spaced
parse_rule-Usable_example =
    parse_rule-Usable (text " AND , ( (NETWORK, UDP) ), DIRECT") spaced parse_spaced
