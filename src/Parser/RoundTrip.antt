-- ===== src/Parser/RoundTrip.antt =====
-- What `serializeRule` prints, as `parseRule` reads it.
use miharbor.Base.{
  suc, ◌≡◌, refl, ap, sym, ◌∙◌, ◌≢◌, ◌⊎◌, true, false, inl, inr, Bool-cases, some, List, [], ◌∷◌,
  ◌++◌, arith, length, length-append, All,
}
use miharbor.Base.Text.{Text, text, starts_with}
use miharbor.Base.Affixes.{split_of_starts_with}
use miharbor.Base.Trim.{
  is_space, trim, trim_start, trim_end, rest_of, trim_end-append, trim_start-append, trim-Trimmed,
  append-some, Trimmed,
}
use miharbor.Rules.{
  Rule, SimpleRule, Children, LogicalOp, and, or, not as op_not, simple, logical, match,
}
use miharbor.Parser.{
  Parsed, ok, is_empty, op_of, parse_all, parse_rule_expr, op_text, with_commas, serialize_children,
  simple_rule, rule_of, after_match, match_rule, parse_trimmed, parse_rule, serialize_rule,
}
use miharbor.Parser.Scan.{before_comma}
use miharbor.Parser.Nested.{matching_close-group}
use miharbor.Parser.Fields.{
  Field, modifier_list, IsRule, before_comma-Plain, split_top_level-fields, some_modifiers-list,
  modifier_list-fields, modifiers_text_lem, trim_end-fields,
}
use miharbor.Parser.Printed.{
  child_texts, split_children-serialize_children, serialize_children-Nested,
}
use miharbor.Parser.ReadChildren.{
  is_empty-some, op_of-op_text, before_comma-op_text, children-read, length-serialize_more,
}

parse_rule-start :
    (raw head rest : Text)
    → trim raw ≡ raw
    → before_comma raw ≡ some (head, rest)
    → head ≢ text "MATCH"
    → parse_rule raw ≡ rule_of (parse_rule_expr (suc (length raw))) raw raw rest (op_of (trim head))
unfolding parse_rule parse_trimmed before_comma
parse_rule-start raw head rest t b n =
    rw (t, some_start raw b, no_match (Bool-cases (starts_with (text "MATCH,") raw)), b) refl
  where
    some_start : (raw : Text) → before_comma raw ≡ some (head, rest) → is_empty raw ≡ false
    some_start [] b = cc b
    some_start (c ∷ t) b = refl

    match_head : (r : Text) → raw ≡ text "MATCH," ++ r → head ≡ text "MATCH"
    match_head r e =
        let cut : some (head, rest) ≡ some (text "MATCH", r) = sym b ∙ ap before_comma e in cc cut

    no_match :
        (starts_with (text "MATCH,") raw ≡ true) ⊎ (starts_with (text "MATCH,") raw ≡ false)
        → starts_with (text "MATCH,") raw ≡ false
    no_match (inr e) = e
    no_match (inl e) =
        let (r, s) = split_of_starts_with (text "MATCH,") raw e in absurd (n (match_head r s))

match-read :
    (target : Text)
    → Trimmed target
    → parse_rule (serialize_rule (match target)) ≡ ok (match target)
unfolding parse_rule serialize_rule parse_trimmed match_rule after_match starts_with rest_of
match-read target h = rw (trim_match, trim-Trimmed target h, is_empty-some target h.some_text) refl
  where
    trim_match : trim (text "MATCH," ++ target) ≡ text "MATCH," ++ target
    trim_match =
        unfold trim trim_start is_space in
        trim_end-append (text "MATCH,") target h.some_text h.at_end

simple-read :
    (s : SimpleRule) → IsRule (simple s) → parse_rule (serialize_rule (simple s)) ≡ ok (simple s)
unfolding serialize_rule rule_of simple_rule
simple-read s (t, o, n, v, g, m) =
    let ms = s.value ∷ s.target ∷ modifier_list s.modifiers in
    let fs : All Field ms = (v, (g, modifier_list-fields s.modifiers m)) in
    rw
      (
        modifiers_text_lem s.modifiers,
        parse_rule-start (s.type ++ with_commas ms) s.type _ (trim_fields s.type ms t fs)
            (before_comma-Plain s.type _ t.plain) n,
        trim-Trimmed s.type t.trimmed,
        o,
        split_top_level-fields s.type ms t fs,
        is_empty-some s.value v.trimmed.some_text,
        is_empty-some s.target g.trimmed.some_text,
        some_modifiers-list s.modifiers m,
      )
      refl
  where
    trim_fields :
        (t : Text) (ms : List Text)
        → Field t
        → All Field ms
        → trim (t ++ with_commas ms) ≡ t ++ with_commas ms
    trim_fields t ms h hs =
        unfold trim in
        ap trim_end (trim_start-append t (with_commas ms) h.trimmed.some_text h.trimmed.at_start)
        ∙ trim_end-fields t ms h hs

trim_start-op_text : (op : LogicalOp) (t : Text) → trim_start (op_text op ++ t) ≡ op_text op ++ t
unfolding trim_start is_space
trim_start-op_text and t = refl
trim_start-op_text or t = refl
trim_start-op_text op_not t = refl

trim-logical :
    (op : LogicalOp) (kids target : Text)
    → Trimmed target
    → trim (op_text op ++ (text ",(" ++ (kids ++ (text ")," ++ target))))
      ≡ op_text op ++ (text ",(" ++ (kids ++ (text ")," ++ target)))
unfolding trim
trim-logical op kids target t =
    let after_kids = text ")," ++ target in
    ap trim_end (trim_start-op_text op _)
    ∙ trim_end-append (op_text op) (text ",(" ++ (kids ++ after_kids)) (λ e. cc e)
        (trim_end-append (text ",(") (kids ++ after_kids) (append-some kids after_kids (λ e. cc e))
          (trim_end-append kids after_kids (λ e. cc e)
            (trim_end-append (text "),") target t.some_text t.at_end)))

rule_of-group :
    (parse : Text → Parsed Rule) (raw : Text) (op : LogicalOp) (children : Children) (target : Text)
    → IsRule (logical op children target)
    → parse_all parse (child_texts children) ≡ ok children
    → rule_of parse raw raw
        (text "(" ++ (serialize_children children ++ (text ")," ++ target)))
        (some op)
      ≡ ok (logical op children target)
unfolding rule_of starts_with rest_of trim_start is_space
rule_of-group parse raw op children target (h, t) k =
    rw
      (
        matching_close-group (serialize_children children) (text "," ++ target)
            (serialize_children-Nested children h),
        trim-Trimmed target t,
        is_empty-some target t.some_text,
        split_children-serialize_children children h,
        k,
      )
      refl

logical-read :
    (op : LogicalOp) (children : Children) (target : Text)
    → IsRule (logical op children target)
    → parse_rule (serialize_rule (logical op children target)) ≡ ok (logical op children target)
unfolding serialize_rule
logical-read op children target (h, t) =
    let kids = serialize_children children in
    let group = text "(" ++ (kids ++ (text ")," ++ target)) in
    let raw = op_text op ++ (text "," ++ group) in
    rw
      (
        parse_rule-start raw (op_text op) group (trim-logical op kids target t)
            (before_comma-op_text op group) (not_match op),
        op_of-op_text op,
      )
      (rule_of-group (parse_rule_expr (suc (length raw))) raw op children target (h, t)
        (children-read children (suc (length raw)) h (
          omega (
            arith,
            length-serialize_more children,
            length-append (op_text op) (text "," ++ group),
            length-append kids (text ")," ++ target),
          ))))
  where
    not_match : (op : LogicalOp) → op_text op ≢ text "MATCH"
    not_match and = λ e. cc e
    not_match or = λ e. cc e
    not_match op_not = λ e. cc e

-- A rule is read back from what is printed for it, where its target, and for a simple rule its
-- type, value, target and modifiers, are texts without outer space that are not empty; where types,
-- values, modifiers and the targets of simple rules have no comma or bracket; where no type is a
-- logical operator, and none at the top is MATCH; where modifiers are absent rather than empty; and
-- where nested rules have no target and are no MATCH.
pub parse_rule-serialize_rule : (r : Rule) → IsRule r → parse_rule (serialize_rule r) ≡ ok r
parse_rule-serialize_rule (match target) h = match-read target h
parse_rule-serialize_rule (simple s) h = simple-read s h
parse_rule-serialize_rule (logical op children target) h = logical-read op children target h
