-- ===== src/Parser.antt =====
-- packages/shared/src/parser/rule-parser.ts: rules of the configuration as texts. An error carries
-- the text that its message quotes.
pub mod Scan
pub mod Fuel
pub mod Nested
pub mod Fields
pub mod Printed
pub mod ReadChildren
pub mod RoundTrip
pub mod Accepted
mod Tests
use miharbor.Base.{
  ℕ, zero, suc, ◌+◌, Bool, true, false, ◌&&◌, not, Option, none, some, List, [], ◌∷◌, ◌++◌, map,
  if◌then◌else◌, length,
}
use miharbor.Base.Text.{Text, text, text_eq, starts_with, ends_with}
use miharbor.Base.Trim.{trim, trim_start, without_last, rest_of}
use miharbor.Rules.{
  LogicalOp, and, or, not as op_not, SimpleRule, Rule, simple, logical, match, Children, nil, cons,
}
use miharbor.Parser.Scan.{before_comma, matching_close, split_top_level, split_children}

pub data ParseError : Type 0 where
  empty_rule empty_match_target : ParseError
  no_separator not_open unbalanced no_target empty_target too_few_parts empty_value no_rule_target :
      Text → ParseError
  not_wrapped malformed_child unwrapped_children too_few_child_parts empty_child_value :
      Text → ParseError

-- `out_of_fuel` is no result of the code.
pub data Parsed (A : Type 0) : Type 0 where
  ok : A → Parsed A
  failed : ParseError → Parsed A
  out_of_fuel : Parsed A

infixl 5 ◌>>=◌ ◌>>◌
abbrev pub ◌>>=◌ : {A B : Type 0} → Parsed A → (A → Parsed B) → Parsed B
ok a >>= f = f a
failed e >>= f = failed e
out_of_fuel >>= f = out_of_fuel

abbrev pub ◌>>◌ : {B : Type 0} → Parsed (Unit {0}) → Parsed B → Parsed B
m >> k = m >>= λ _. k

-- `if (!b) throw e`
abbrev pub throw_unless : Bool → ParseError → Parsed (Unit {0})
throw_unless true e = ok tt
throw_unless false e = failed e

abbrev pub is_empty : Text → Bool
is_empty [] = true
is_empty (c ∷ t) = false

-- `LOGICAL_OP_SET`
unfoldable pub op_of : Text → Option LogicalOp
op_of head =
    if text_eq head (text "AND")
    then some and
    else if text_eq head (text "OR")
    then some or
    else if text_eq head (text "NOT")
    then some op_not
    else none

-- Modifiers that are absent rather than empty.
abbrev pub some_modifiers : List Text → Option (List Text)
some_modifiers [] = none
some_modifiers (m ∷ ms) = some (m ∷ ms)

abbrev pub is_wrapped : Text → Bool
is_wrapped t = starts_with (text "(") t && ends_with (text ")") t

-- `t.slice(1, -1)`
abbrev pub inside : Text → Text
inside t = without_last (rest_of t)

abbrev pub found_or : ParseError → Option (Text × Text) → Parsed (Text × Text)
found_or e none = failed e
found_or e (some p) = ok p

-- A simple predicate, TYPE,VALUE and modifiers.
unfoldable pub simple_child : Text → List Text → Parsed Rule
simple_child expr [] = failed (too_few_child_parts expr)
simple_child expr (type ∷ []) = failed (too_few_child_parts expr)
simple_child expr (type ∷ value ∷ modifiers) = do
  throw_unless (not (is_empty value)) (empty_child_value expr)
  ok (
      simple
        (record { type = type; value = value; target = []; modifiers = some_modifiers modifiers }))

-- `groups.map(parse)`
unfoldable pub parse_all : (Text → Parsed Rule) → List Text → Parsed Children
parse_all parse [] = ok nil
parse_all parse (g ∷ gs) = do r ← parse g; rs ← parse_all parse gs; ok (cons r rs)

unfoldable pub child_of : (Text → Parsed Rule) → Text → Text → Text → Option LogicalOp → Parsed Rule
unfolding parse_all simple_child split_children split_top_level trim
child_of parse expr inner rest none = simple_child expr (split_top_level inner)
child_of parse expr inner rest (some op) = do
  throw_unless (is_wrapped (trim rest)) (unwrapped_children expr)
  children ← parse_all parse (split_children (inside (trim rest)))
  ok (logical op children [])

-- `parseRuleExpr`
unfoldable pub parse_rule_expr : ℕ → Text → Parsed Rule
unfolding child_of op_of before_comma
parse_rule_expr zero expr = out_of_fuel
parse_rule_expr (suc fuel) expr = do
  throw_unless (is_wrapped (trim expr)) (not_wrapped expr)
  parts ← found_or (malformed_child expr) (before_comma (inside (trim expr)))
  child_of (parse_rule_expr fuel) expr (inside (trim expr)) parts.1 (op_of (trim parts.0))

-- TYPE,VALUE,TARGET and modifiers.
unfoldable pub simple_rule : Text → List Text → Parsed Rule
simple_rule raw [] = failed (too_few_parts raw)
simple_rule raw (type ∷ []) = failed (too_few_parts raw)
simple_rule raw (type ∷ value ∷ []) = failed (too_few_parts raw)
simple_rule raw (type ∷ value ∷ target ∷ modifiers) = do
  throw_unless (not (is_empty value)) (empty_value raw)
  throw_unless (not (is_empty target)) (no_rule_target raw)
  ok (
      simple (record {
        type = type;
        value = value;
        target = target;
        modifiers = some_modifiers modifiers;
      }))

-- A top-level rule that is no MATCH; `rest` is what follows the first comma.
unfoldable pub rule_of : (Text → Parsed Rule) → Text → Text → Text → Option LogicalOp → Parsed Rule
unfolding simple_rule matching_close split_children split_top_level trim trim_start parse_all
rule_of parse raw trimmed rest none = simple_rule raw (split_top_level trimmed)
rule_of parse raw trimmed rest (some op) = do
  throw_unless (starts_with (text "(") (trim_start rest)) (not_open raw)
  parts ← found_or (unbalanced raw) (matching_close (trim_start rest))
  throw_unless (starts_with (text ",") parts.1) (no_target raw)
  throw_unless (not (is_empty (trim (rest_of parts.1)))) (empty_target raw)
  children ← parse_all parse (split_children parts.0)
  ok (logical op children (trim (rest_of parts.1)))

unfoldable pub match_rule : Text → Parsed Rule
match_rule target = do throw_unless (not (is_empty target)) empty_match_target; ok (match target)

unfoldable pub after_match : Text → Text
after_match t = rest_of (rest_of (rest_of (rest_of (rest_of (rest_of t)))))

unfoldable pub parse_trimmed : Text → Text → Parsed Rule
unfolding rule_of op_of before_comma match_rule trim after_match parse_rule_expr
parse_trimmed raw trimmed =
    if is_empty trimmed
    then failed empty_rule
    else if starts_with (text "MATCH,") trimmed
    then match_rule (trim (after_match trimmed))
    else (do
      parts ← found_or (no_separator raw) (before_comma trimmed)
      rule_of (parse_rule_expr (suc (length trimmed))) raw trimmed parts.1 (op_of (trim parts.0)))

-- `parseRule`. Each nested expression is shorter than the text, so its length is fuel enough.
unfoldable pub parse_rule : Text → Parsed Rule
unfolding parse_trimmed trim
parse_rule raw = parse_trimmed raw (trim raw)

abbrev pub op_text : LogicalOp → Text
op_text and = text "AND"
op_text or = text "OR"
op_text op_not = text "NOT"

-- `',' + modifiers.join(',')`, nothing without modifiers.
abbrev pub with_commas : List Text → Text
with_commas [] = []
with_commas (m ∷ ms) = text "," ++ (m ++ with_commas ms)

abbrev pub modifiers_text : Option (List Text) → Text
modifiers_text none = []
modifiers_text (some ms) = with_commas ms

unfoldable mutual
  pub serialize_child : Rule → Text
  serialize_child (match target) = text "(MATCH," ++ (target ++ text ")")
  serialize_child (simple s) =
      text "(" ++ (s.type ++ (text "," ++ (s.value ++ (modifiers_text s.modifiers ++ text ")"))))
  serialize_child (logical op children target) =
      text "(" ++ (op_text op ++ (text ",(" ++ (serialize_children children ++ text "))")))

  -- `children.map(serializeChild).join(',')`
  pub serialize_children : Children → Text
  serialize_children nil = []
  serialize_children (cons r rs) = serialize_child r ++ serialize_more rs

  pub serialize_more : Children → Text
  serialize_more nil = []
  serialize_more (cons r rs) = text "," ++ (serialize_child r ++ serialize_more rs)

unfoldable pub serialize_rule : Rule → Text
unfolding serialize_children
serialize_rule (match target) = text "MATCH," ++ target
serialize_rule (simple s) =
    s.type ++ (text "," ++ (s.value ++ (text "," ++ (s.target ++ modifiers_text s.modifiers))))
serialize_rule (logical op children target) =
    op_text op ++ (text ",(" ++ (serialize_children children ++ (text ")," ++ target)))
