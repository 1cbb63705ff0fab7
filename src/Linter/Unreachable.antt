-- ===== src/Linter/Unreachable.antt =====
-- packages/shared/src/linter/unreachable.ts: rules that can never fire, found in one pass with an
-- index for each way in which an earlier rule can cover a later one. Positions in the list are
-- natural numbers, and `none` is the source's -1.
pub mod Trie
pub mod Reference
pub mod Nearest
pub mod Suffixes
pub mod Step
pub mod Tracks
pub mod Equivalence
use miharbor.Base.{
  ℕ, ◌+◌, Bool, true, false, ◌&&◌, ◌||◌, not, Option, none, some, List, [], ◌∷◌, ◌++◌,
  if◌then◌else◌, ltb, ◌==◌, get_elem?, is_some,
}
use miharbor.Base.Text.{Text, text, text_eq, includes}
use miharbor.Base.Dict.{lookup, insert}
use miharbor.Rules.{Rule, simple, logical, match, SimpleRule, IndexedRule}
use miharbor.Linter.Issue.{Issue, error, warning, num, lit}
use Trie.{Node, make_node, suffix_shadow_lookup_and_insert, min_pos}

pub record Keyword : Type 0 where
  pub value : Text
  pub pos : ℕ

-- The variables of the loop.
pub record State : Type 0 where
  pub first_match_pos : Option ℕ
  pub first_by_json : List (Text × ℕ)
  pub suffix_trie : Node
  pub keywords : List Keyword

unfoldable pub initial : State
initial = record {
  first_match_pos = none;
  first_by_json = [];
  suffix_trie = make_node;
  keywords = [];
}

abbrev pub domain_suffix : Text
domain_suffix = text "DOMAIN-SUFFIX"

abbrev pub domain_keyword : Text
domain_keyword = text "DOMAIN-KEYWORD"

-- The loop over the keywords seen so far.
unfoldable pub keyword_shadow : Text → List Keyword → Option ℕ
keyword_shadow value [] = none
keyword_shadow value (kw ∷ kws) =
    if text_eq kw.value value
    then keyword_shadow value kws
    else if includes kw.value value
    then some kw.pos
    else keyword_shadow value kws

-- The shadow check of one rule, with what it records of that rule for later ones.
unfoldable pub shadow_check : Rule → ℕ → State → State × Option ℕ
unfolding suffix_shadow_lookup_and_insert keyword_shadow
shadow_check (simple s) i st =
    if text_eq s.type domain_suffix
    then (
      record st { suffix_trie = (suffix_shadow_lookup_and_insert st.suffix_trie s.value i).0 },
      (suffix_shadow_lookup_and_insert st.suffix_trie s.value i).1,
    )
    else if text_eq s.type domain_keyword
    then (
      record st { keywords = st.keywords ++ record { value = s.value; pos = i } ∷ [] },
      keyword_shadow s.value st.keywords,
    )
    else (st, none)
shadow_check (logical op cs t) i st = (st, none)
shadow_check (match t) i st = (st, none)

-- `minPos`
unfoldable pub min_pos3 : Option ℕ → Option ℕ → Option ℕ → Option ℕ
min_pos3 a b c = min_pos (min_pos a b) c

-- How an earlier rule covers a later one.
pub data Reason : Type 0 where
  match_above duplicate shadowed : Reason

unfoldable pub issue : Reason → ℕ → ℕ → Issue
issue match_above covered cur = record {
  level = error;
  code = "LINTER_UNREACHABLE_RULE";
  path = lit "rules" ∷ num cur ∷ [];
  params = ("covered_by_index", num covered) ∷ ("reason", lit "match_above") ∷ [];
  suggestion = some (record {
    key = "suggestion_unreachable_rule_after_match";
    params = ("covered_by_index", num covered) ∷ [];
  });
}
issue duplicate covered cur = record {
  level = warning;
  code = "LINTER_DUPLICATE_RULE";
  path = lit "rules" ∷ num cur ∷ [];
  params = ("duplicate_of_index", num covered) ∷ [];
  suggestion = some (record {
    key = "suggestion_duplicate_rule";
    params = ("duplicate_of_index", num covered) ∷ [];
  });
}
issue shadowed covered cur = record {
  level = warning;
  code = "LINTER_UNREACHABLE_RULE";
  path = lit "rules" ∷ num cur ∷ [];
  params = ("covered_by_index", num covered) ∷ [];
  suggestion = some (record {
    key = "suggestion_unreachable_rule_shadowed";
    params = ("covered_by_index", num covered) ∷ [];
  });
}

abbrev is_at : Option ℕ → ℕ → Bool
is_at none b = false
is_at (some a) b = b == a

unfoldable pub kind : Option ℕ → Option ℕ → ℕ → Reason
kind match_pos dup_pos best =
    if is_at match_pos best then match_above else if is_at dup_pos best then duplicate else shadowed

-- What is pushed for `cur`. The outer `none` is the exception of `rules[best]!.index` for a
-- position outside the list.
unfoldable pub report :
    List IndexedRule → IndexedRule → Option ℕ → Option ℕ → Option ℕ → Option (List Issue)
unfolding min_pos3 kind
report rules cur match_pos dup_pos shadow_pos = elim (min_pos3 match_pos dup_pos shadow_pos) [
  | none ↦ some []
  | some best ↦ elim (get_elem? rules best) [
    | none ↦ none
    | some r ↦ some (issue (kind match_pos dup_pos best) r.index cur.index ∷ [])
  ]
]

infixl 5 ◌>>=◌
abbrev pub ◌>>=◌ {ℓ κ} : {A : Type ℓ} {B : Type κ} → Option A → (A → Option B) → Option B
none >>= k = none
some a >>= k = k a

-- `JSON.stringify` of a rule, as the source calls it.
module _ (json_key : Rule → Text) where
  unfoldable pub record_json : Rule → ℕ → State → State
  record_json rule i st =
      if is_some (lookup (json_key rule) st.first_by_json)
      then st
      else record st { first_by_json = insert (json_key rule) i st.first_by_json }

  unfoldable pub record_match : Rule → ℕ → State → State
  record_match (match t) i st =
      if is_some st.first_match_pos then st else record st { first_match_pos = some i }
  record_match (simple s) i st = st
  record_match (logical op cs t) i st = st

  -- The state after a round of the loop.
  unfoldable pub visited : Rule → ℕ → State → State
  unfolding record_json record_match shadow_check
  visited rule i st = record_match rule i (shadow_check rule i (record_json rule i st)).0

  unfoldable pub detect_from : List IndexedRule → ℕ → List IndexedRule → State → Option (List Issue)
  unfolding report visited record_json shadow_check
  detect_from rules i [] st = some []
  detect_from rules i (cur ∷ rest) st = do
    here ←
        report rules cur st.first_match_pos (lookup (json_key cur.rule) st.first_by_json)
          (shadow_check cur.rule i (record_json cur.rule i st)).1
    later ← detect_from rules (i + 1) rest (visited cur.rule i st)
    some (here ++ later)

  unfoldable pub detect_unreachable : List IndexedRule → Option (List Issue)
  unfolding detect_from initial
  detect_unreachable rules = detect_from rules 0 rules initial
