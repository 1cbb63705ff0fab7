-- ===== src/Parser/ReadChildren.antt =====
-- Printed nested rules, as `parseRuleExpr` reads them with fuel above their length.
use miharbor.Base.{
  ℕ, zero, suc, ◌+◌, ◌≤◌, ◌<◌, ◌≡◌, refl, ap, sym, ◌≢◌, subst, false, some, [], ◌∷◌, ◌++◌, arith,
  length, length-append,
}
use miharbor.Base.Text.{Text, text, text_eq}
use miharbor.Base.Trim.{is_space, trim, trim_start, trim_end, trim-Trimmed}
use miharbor.Rules.{
  Rule, SimpleRule, Children, LogicalOp, and, or, not as op_not, simple, logical, match, nil, cons,
}
use miharbor.Parser.{
  ok, is_empty, op_of, simple_child, parse_all, child_of, parse_rule_expr, op_text, serialize_child,
  serialize_children, serialize_more,
}
use miharbor.Parser.Scan.{before_comma}
use miharbor.Parser.Fields.{
  modifier_list, IsChild, IsChildren, before_comma-Plain, split_top_level-fields,
  some_modifiers-list, modifier_list-fields,
}
use miharbor.Parser.Printed.{
  child_body, wrapped, serialize_child_lem, trim-wrapped, is_wrapped-wrapped, inside-wrapped,
  parse_rule_expr-wrapped, child_texts, split_children-serialize_children,
}

pub is_empty-some : (t : Text) → t ≢ [] → is_empty t ≡ false
is_empty-some [] n = absurd (n refl)
is_empty-some (c ∷ t) n = refl

pub op_of-op_text : (op : LogicalOp) → op_of (trim (op_text op)) ≡ some op
unfolding op_of trim trim_start trim_end is_space text_eq
op_of-op_text and = refl
op_of-op_text or = refl
op_of-op_text op_not = refl

pub before_comma-op_text :
    (op : LogicalOp) (t : Text)
    → before_comma (op_text op ++ (text "," ++ t)) ≡ some (op_text op, t)
unfolding before_comma
before_comma-op_text and t = refl
before_comma-op_text or t = refl
before_comma-op_text op_not t = refl

-- The text of a child is read back with fuel above its length.
abbrev ReadsChild : Rule → Type 0
ReadsChild r =
    (fuel : ℕ)
    → IsChild r
    → length (serialize_child r) < fuel
    → parse_rule_expr fuel (serialize_child r) ≡ ok r

abbrev ReadsChildren : Children → Type 0
ReadsChildren rs =
    (fuel : ℕ)
    → IsChildren rs
    → length (serialize_more rs) ≤ fuel
    → parse_all (parse_rule_expr fuel) (child_texts rs) ≡ ok rs

simple_child-read :
    (s : SimpleRule) (fuel : ℕ)
    → IsChild (simple s)
    → parse_rule_expr (suc fuel) (serialize_child (simple s)) ≡ ok (simple s)
unfolding IsChild child_of simple_child child_body
simple_child-read s fuel (t, o, v, e, m) =
    rw
      (
        serialize_child_lem (simple s),
        parse_rule_expr-wrapped fuel (child_body (simple s)) s.type _
            (before_comma-Plain s.type _ t.plain),
        trim-Trimmed s.type t.trimmed,
        o,
        split_top_level-fields s.type (s.value ∷ modifier_list s.modifiers) t
            (v, modifier_list-fields s.modifiers m),
        is_empty-some s.value v.trimmed.some_text,
        some_modifiers-list s.modifiers m,
      )
      (ap
        (λ u.
          ok (
            simple
              (record { type = s.type; value = s.value; target = u; modifiers = s.modifiers })))
        (sym e))

logical_child-read :
    (op : LogicalOp) (children : Children) (fuel : ℕ)
    → IsChildren children
    → parse_all (parse_rule_expr fuel) (child_texts children) ≡ ok children
    → parse_rule_expr (suc fuel) (serialize_child (logical op children []))
      ≡ ok (logical op children [])
unfolding child_of child_body
logical_child-read op children fuel h k =
    rw
      (
        serialize_child_lem (logical op children []),
        parse_rule_expr-wrapped fuel (child_body (logical op children [])) (op_text op)
            (wrapped (serialize_children children)) (before_comma-op_text op _),
        op_of-op_text op,
        trim-wrapped,
        is_wrapped-wrapped,
        inside-wrapped,
        split_children-serialize_children children h,
        k,
      )
      refl

-- Fuel above a number is not zero.
spend : (P : ℕ → Type 0) (n fuel : ℕ) → n < fuel → ((f : ℕ) → n ≤ f → P (suc f)) → P fuel
spend P n zero h k = absurd (omega (arith, h))
spend P n (suc f) h k = k f (omega (arith, h))

length-logical_child :
    (op : LogicalOp) (children : Children) (target : Text)
    → 3 + length (serialize_children children)
      ≤ length (serialize_child (logical op children target))
unfolding serialize_child
length-logical_child op children target = omega (
  arith,
  length-append (op_text op) (text ",(" ++ (serialize_children children ++ text "))")),
  length-append (serialize_children children) (text "))"),
)

pub length-serialize_more :
    (rs : Children) → length (serialize_more rs) ≤ suc (length (serialize_children rs))
unfolding serialize_child
length-serialize_more nil = omega arith
length-serialize_more (cons r rs) = omega arith

cons-read : (r : Rule) (rs : Children) → ReadsChild r → ReadsChildren rs → ReadsChildren (cons r rs)
unfolding IsChild serialize_child parse_all
cons-read r rs k ks fuel (h, hs) l =
    let fits = length-append (serialize_child r) (serialize_more rs) in
    rw (k fuel h (omega (arith, l, fits)), ks fuel hs (omega (arith, l, fits))) refl

nil-read : ReadsChildren nil
unfolding parse_all
nil-read fuel h l = refl

child-read : (r : Rule) → ReadsChild r
unfolding IsChild serialize_child
child-read r = elim r as ReadsChild ReadsChildren [
  | match target ↦ λ fuel h. absurd h
  | simple s ↦ λ fuel h l.
      spend (λ f. parse_rule_expr f (serialize_child (simple s)) ≡ ok (simple s)) _ fuel l
        λ f lf. simple_child-read s f h
  | logical op (children → ih) target ↦ λ fuel (h, e) l.
      subst
        (λ u.
          parse_rule_expr fuel (serialize_child (logical op children u))
          ≡ ok (logical op children u))
        (sym e)
        (spend
          (λ f.
            parse_rule_expr f (serialize_child (logical op children []))
            ≡ ok (logical op children []))
          _ fuel l
          λ f lf. logical_child-read op children f h (
            ih f h (
              omega
                (arith, lf, length-logical_child op children [], length-serialize_more children))))
  | nil ↦ nil-read
  | cons (r → ih) (rs → ihs) ↦ cons-read r rs ih ihs
]

pub children-read : (rs : Children) → ReadsChildren rs
children-read nil = nil-read
children-read (cons r rs) = cons-read r rs (child-read r) (children-read rs)
