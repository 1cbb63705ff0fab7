-- ===== src/Deploy/Healthcheck/Payloads.antt =====
-- What deploy/healthcheck.ts reads of the API's payloads.
use miharbor.Base.{
  ℕ, suc, ◌+◌, Bool, true, false, ◌||◌, not, Option, none, some, List, [], ◌∷◌, if◌then◌else◌, ltb,
  ◌==◌,
}
use miharbor.Base.Text.{Text, text, text_eq}
use miharbor.Base.Dict.{lookup}
use miharbor.Base.Json.{
  Json, null, bool, num, str, arr, obj, Items, nil, cons, Fields, end, field, fields,
}

abbrev pub size : Items → ℕ
size nil = 0
size (cons x xs) = suc (size xs)

-- `Array.isArray(rules) ? rules.length : 0`
unfoldable pub rules_count : Json → ℕ
rules_count (arr xs) = size xs
rules_count _ = 0

-- `v.key` of a value that is an object.
abbrev pub property : Text → Json → Option Json
property k (obj fs) = lookup k (fields fs)
property k _ = none

-- `payload.key ?? payload`
abbrev pub property_or : Json → Option Json → Json
property_or payload none = payload
property_or payload (some null) = payload
property_or payload (some v) = v

abbrev pub is_truthy : Option Json → Bool
is_truthy none = false
is_truthy (some null) = false
is_truthy (some (bool b)) = b
is_truthy (some (num n)) = not (n == 0)
is_truthy (some (str [])) = false
is_truthy (some (str (c ∷ t))) = true
is_truthy (some (arr xs)) = true
is_truthy (some (obj fs)) = true

abbrev pub one_if : Bool → ℕ
one_if true = 1
one_if false = 0

abbrev pub count_items : Items → ℕ
count_items nil = 0
count_items (cons v vs) = one_if (is_truthy (property (text "updating") v)) + count_items vs

abbrev pub count_fields : Fields → ℕ
count_fields end = 0
count_fields (field k v fs) = one_if (is_truthy (property (text "updating") v)) + count_fields fs

abbrev pub count_values : Json → ℕ
count_values (arr xs) = count_items xs
count_values (obj fs) = count_fields fs
count_values _ = 0

unfoldable pub count_updating_providers : Json → ℕ
unfolding lookup
count_updating_providers payload =
    count_values (property_or payload (property (text "providers") payload))

abbrev pub is_url_test : Option Json → Bool
is_url_test (some (str t)) =
    text_eq t (text "URLTest")
    || (text_eq t (text "url-test") || (text_eq t (text "Fallback") || text_eq t (text "fallback")))
is_url_test _ = false

abbrev pub named : Text → Json → List Text → List Text
named name v rest = if is_url_test (property (text "type") v) then name ∷ rest else rest

-- The entries of an array are named by their indices.
abbrev pub item_names : (ℕ → Text) → ℕ → Items → List Text
item_names index_text i nil = []
item_names index_text i (cons v vs) = named (index_text i) v (item_names index_text (suc i) vs)

abbrev pub field_names : Fields → List Text
field_names end = []
field_names (field k v fs) = named k v (field_names fs)

abbrev pub entry_names : (ℕ → Text) → Json → List Text
entry_names index_text (arr xs) = item_names index_text 0 xs
entry_names index_text (obj fs) = field_names fs
entry_names index_text _ = []

unfoldable pub find_url_test_groups : (ℕ → Text) → Json → List Text
unfolding lookup
find_url_test_groups index_text proxies =
    entry_names index_text (property_or proxies (property (text "proxies") proxies))

abbrev pub is_positive : Option Json → Bool
is_positive (some (num n)) = ltb 0 n
is_positive _ = false

-- Not `!r || typeof r.delay !== 'number' || r.delay <= 0`
unfoldable pub is_valid_delay : Json → Bool
unfolding lookup
is_valid_delay r = is_positive (property (text "delay") r)
