-- ===== src/Linter/Placement.antt =====
-- packages/shared/src/linter/placement.ts: where the editor suggests to put a new rule. The
-- standard library's `toLowerCase` is a parameter.
pub mod Order
pub mod Bounds
use miharbor.Base.{
  ℕ, suc, ◌+◌, Bool, true, false, ◌&&◌, ◌||◌, not, Option, none, some, List, [], ◌∷◌, length,
  if◌then◌else◌, ◌==◌,
}
use miharbor.Base.Text.{Text, text, text_eq, starts_with, ends_with, includes}
use miharbor.Rules.{Rule, simple, logical, match, SimpleRule}
use Prim.Native.String.{String}

pub data RuleCategory : Type 0 where
  ads private ru services match_all : RuleCategory

pub record PlacementSuggestion : Type 0 where
  pub index : ℕ
  pub category : RuleCategory
  pub reason : String

abbrev is_one_of : List Text → Text → Bool
is_one_of [] t = false
is_one_of (u ∷ us) t = text_eq t u || is_one_of us t

-- `isRejectTarget`
abbrev is_reject_target : Text → Bool
is_reject_target t = text_eq t (text "REJECT")

-- Types whose value is a domain, and those whose value is a range of addresses.
abbrev is_domain_type : Text → Bool
is_domain_type =
    is_one_of
      (text "DOMAIN-SUFFIX" ∷ text "DOMAIN-KEYWORD" ∷ text "DOMAIN-REGEX" ∷ text "DOMAIN" ∷ [])

abbrev is_cidr_type : Text → Bool
is_cidr_type = is_one_of (text "IP-CIDR" ∷ text "IP-CIDR6" ∷ text "SRC-IP-CIDR" ∷ [])

-- The position in `categoryOrder`.
abbrev pub priority : RuleCategory → ℕ
priority ads = 0
priority private = 1
priority ru = 2
priority services = 3
priority match_all = 4

abbrev is_category : RuleCategory → RuleCategory → Bool
is_category c d = priority c == priority d

abbrev reason_of : RuleCategory → String
reason_of ads = "placement_reason_ads"
reason_of private = "placement_reason_private"
reason_of ru = "placement_reason_ru"
reason_of services = "placement_reason_services"
reason_of match_all = "placement_reason_match"

module _ (to_lower_case : Text → Text) where
  unfoldable pub is_ad_block_value : Text → Bool
  is_ad_block_value value =
      includes (text "adguard") (to_lower_case value)
      || (includes (text "adblock") (to_lower_case value)
          || (includes (text "ads") (to_lower_case value)
              || (includes (text "tracker") (to_lower_case value)
                  || includes (text "malware") (to_lower_case value))))

  -- `/\.(ru|by|рф)$/`
  unfoldable pub is_russian_domain : Text → Bool
  is_russian_domain value =
      ends_with (text ".ru") (to_lower_case value)
      || (ends_with (text ".by") (to_lower_case value)
          || ends_with (text ".рф") (to_lower_case value))

  unfoldable pub is_private_ip : Text → Bool
  is_private_ip value =
      starts_with (text "10.") (to_lower_case value)
      || (starts_with (text "172.16.") (to_lower_case value)
          || (starts_with (text "192.168.") (to_lower_case value)
              || (starts_with (text "127.") (to_lower_case value)
                  || (text_eq (to_lower_case value) (text "localhost")
                      || (starts_with (text "::1") value
                          || (starts_with (text "fc00:") value
                              || starts_with (text "fe80::") value))))))

  unfoldable pub is_private_domain_suffix : Text → Bool
  is_private_domain_suffix value =
      is_one_of (text "localhost" ∷ text "lan" ∷ text "local" ∷ text "home" ∷ text "internal" ∷ [])
        (to_lower_case value)
      || (ends_with (text ".lan") (to_lower_case value)
          || (ends_with (text ".local") (to_lower_case value)
              || (ends_with (text ".home") (to_lower_case value)
                  || ends_with (text ".internal") (to_lower_case value))))

  unfoldable pub is_russian_geo : Text → Text → Bool
  is_russian_geo type value =
      (text_eq type (text "GEOSITE") && text_eq (to_lower_case value) (text "category-ru"))
      || (text_eq type (text "GEOIP") && text_eq (to_lower_case value) (text "ru"))

  unfoldable pub is_geo_site_category : Text → Text → Bool
  is_geo_site_category type value =
      text_eq type (text "GEOSITE") && starts_with (text "category-") (to_lower_case value)

  unfoldable pub is_service_domain : Text → Text → Bool
  unfolding is_geo_site_category is_private_domain_suffix is_russian_domain
  is_service_domain type value =
      if text_eq type (text "GEOSITE") && not (is_geo_site_category type value)
      then false
      else if is_one_of (text "DOMAIN" ∷ text "DOMAIN-SUFFIX" ∷ text "DOMAIN-KEYWORD" ∷ []) type
          && includes (text ".") (to_lower_case value)
      then not (is_private_domain_suffix (to_lower_case value))
        && not (is_russian_domain (to_lower_case value))
      else false

  -- The last tests of `classifyRule` all answer `services`, and so does its fallback.
  abbrev service_or_unknown : Text → Text → RuleCategory
  service_or_unknown type value =
      if is_service_domain type value || is_geo_site_category type value then services else services

  unfoldable pub classify_rule : Rule → RuleCategory
  unfolding is_ad_block_value is_russian_domain is_private_ip is_private_domain_suffix
      is_russian_geo is_geo_site_category is_service_domain
  classify_rule (match t) = match_all
  classify_rule (logical op cs t) = services
  classify_rule (simple s) =
      if is_reject_target s.target || is_ad_block_value s.value
      then ads
      else if is_cidr_type s.type && is_private_ip s.value
      then private
      else if is_domain_type s.type && is_private_domain_suffix s.value
      then private
      else if is_russian_geo s.type s.value
      then ru
      else if is_domain_type s.type && is_russian_domain s.value
      then ru
      else service_or_unknown s.type s.value

  abbrev has_category : RuleCategory → Rule → Bool
  has_category c r = is_category (classify_rule r) c

  -- `sameCategory.end`, counted from `i`; `end` is what the rules before have given.
  unfoldable pub same_category_end : RuleCategory → List Rule → ℕ → Option ℕ → Option ℕ
  same_category_end c [] i end = end
  same_category_end c (r ∷ rs) i end =
      if has_category c r
      then same_category_end c rs (i + 1) (some (i + 1))
      else same_category_end c rs (i + 1) end

  -- The index of the first rule of a category, counted from `j`.
  unfoldable pub first_index : RuleCategory → List Rule → ℕ → Option ℕ
  first_index c [] j = none
  first_index c (r ∷ rs) j = if has_category c r then some j else first_index c rs (j + 1)

  abbrev pub found_or : Option ℕ → ℕ → ℕ
  found_or (some j) k = j
  found_or none k = k

  -- The first rule of the first of these categories that has one; else the end of the list.
  unfoldable pub first_of_later : List RuleCategory → List Rule → ℕ
  unfolding first_index
  first_of_later [] rs = length rs
  first_of_later (c ∷ cs) rs = found_or (first_index c rs 0) (first_of_later cs rs)

  -- `categoryOrder` from behind the category on.
  abbrev later_than : RuleCategory → List RuleCategory
  later_than ads = private ∷ ru ∷ services ∷ match_all ∷ []
  later_than private = ru ∷ services ∷ match_all ∷ []
  later_than ru = services ∷ match_all ∷ []
  later_than services = match_all ∷ []
  later_than match_all = []

  abbrev pub index_for : RuleCategory → Option ℕ → List Rule → ℕ
  index_for c (some end) rs = end
  index_for c none rs = first_of_later (later_than c) rs

  unfoldable pub suggest_placement : Rule → List Rule → PlacementSuggestion
  unfolding classify_rule same_category_end first_of_later
  suggest_placement new_rule [] = record {
    index = 0;
    category = classify_rule new_rule;
    reason = "placement_reason_empty";
  }
  suggest_placement new_rule (r ∷ rs) = record {
    index =
        index_for (classify_rule new_rule)
          (same_category_end (classify_rule new_rule) (r ∷ rs) 0 none) (r ∷ rs);
    category = classify_rule new_rule;
    reason = reason_of (classify_rule new_rule);
  }
