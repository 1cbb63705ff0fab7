-- ===== src/Parser/Printed.antt =====
-- Nested rules, printed by `serializeChild` and read by `parseRuleExpr`.
use miharbor.Base.{ℕ, suc, ◌≡◌, refl, ap, sym, ◌∙◌, subst, true, some, List, [], ◌∷◌, ◌++◌}
use mathlib.Core.List.{append_assoc}
use miharbor.Base.Text.{Text, text, starts_with}
use miharbor.Base.Affixes.{ends_with-append}
use miharbor.Base.Trim.{is_space, trim, trim_start, rest_of, without_last, trim_end-append}
use miharbor.Rules.{
  Rule, Children, LogicalOp, and, or, not as op_not, simple, logical, match, nil, cons,
}
use miharbor.Parser.{
  op_of, is_wrapped, inside, child_of, parse_rule_expr, op_text, with_commas, serialize_child,
  serialize_children, serialize_more,
}
use miharbor.Parser.Scan.{open_bracket, close_bracket, split_children, before_comma}
use miharbor.Parser.Nested.{
  Nested, nil-Nested, append-Nested, chars-Nested, group-Nested, split_children-group,
  split_children-comma,
}
use miharbor.Parser.Fields.{
  modifier_list, IsChild, IsChildren, fields-Nested, modifier_list-fields, modifiers_text_lem,
}

-- A nested rule without its brackets.
unfoldable pub child_body : Rule → Text
child_body (match target) = text "MATCH," ++ target
child_body (simple s) = s.type ++ with_commas (s.value ∷ modifier_list s.modifiers)
child_body (logical op children target) =
    op_text op ++ (text ",(" ++ (serialize_children children ++ text ")"))

abbrev pub wrapped : Text → Text
wrapped b = text "(" ++ (b ++ text ")")

pub serialize_child_lem : (r : Rule) → serialize_child r ≡ wrapped (child_body r)
unfolding serialize_child child_body
serialize_child_lem (match target) = refl
serialize_child_lem (simple s) = rw (modifiers_text_lem s.modifiers) (simp append_assoc)
serialize_child_lem (logical op children target) = simp append_assoc

pub trim-wrapped : (b : Text) → trim (wrapped b) ≡ wrapped b
unfolding trim trim_start is_space
trim-wrapped b = trim_end-append (text "(" ++ b) (text ")") (λ e. cc e) refl

without_last-append : (b : Text) (c : ℕ) → without_last (b ++ c ∷ []) ≡ b
unfolding without_last
without_last-append [] c = refl
without_last-append (d ∷ []) c = refl
without_last-append (d ∷ e ∷ b) c = ap (λ t. d ∷ t) (without_last-append (e ∷ b) c)

pub is_wrapped-wrapped : (b : Text) → is_wrapped (wrapped b) ≡ true
unfolding starts_with
is_wrapped-wrapped b = ends_with-append (text "(" ++ b) (text ")")

pub inside-wrapped : (b : Text) → inside (wrapped b) ≡ b
unfolding rest_of
inside-wrapped b = without_last-append b _

pub parse_rule_expr-wrapped :
    (fuel : ℕ) (b head rest : Text)
    → before_comma b ≡ some (head, rest)
    → parse_rule_expr (suc fuel) (wrapped b)
      ≡ child_of (parse_rule_expr fuel) (wrapped b) b rest (op_of (trim head))
unfolding parse_rule_expr
parse_rule_expr-wrapped fuel b head rest h =
    rw (trim-wrapped b, is_wrapped-wrapped b, inside-wrapped b, h)

-- The texts of the children.
abbrev pub child_texts : Children → List Text
child_texts nil = []
child_texts (cons r rs) = serialize_child r ∷ child_texts rs

in_brackets : (r : Rule) → Nested (child_body r) → Nested (serialize_child r)
in_brackets r h = subst Nested (sym (serialize_child_lem r)) (group-Nested _ h)

child_body-Nested : (r : Rule) → IsChild r → Nested (child_body r)
unfolding child_body serialize_child IsChild
child_body-Nested r =
    elim r
      as (λ r. IsChild r → Nested (child_body r)) (λ rs.
        IsChildren rs → Nested (serialize_children rs) × Nested (serialize_more rs)) [
          | match target ↦ λ h. absurd h
          | simple s ↦ λ (t, o, v, e, m).
              fields-Nested s.type (s.value ∷ modifier_list s.modifiers) t
                (v, modifier_list-fields s.modifiers m)
          | logical op (children → ih) target ↦ λ (h, e).
              append-Nested (op_text op) _ (op_text-Nested op) (
                append-Nested (text ",") _ (chars-Nested (text ",") (refl, tt))
                  (group-Nested _ (ih h).0))
          | nil ↦ λ h. (nil-Nested, nil-Nested)
          | cons (r → ih) (rs → ihs) ↦ λ (h, hs).
              let one = in_brackets r (ih h) in
              let more = append-Nested _ _ one (ihs hs).1 in
              (more, append-Nested (text ",") _ (chars-Nested (text ",") (refl, tt)) more)
        ]
  where
    op_text-Nested : (op : LogicalOp) → Nested (op_text op)
    op_text-Nested and = chars-Nested (op_text and) (refl, (refl, (refl, tt)))
    op_text-Nested or = chars-Nested (op_text or) (refl, (refl, tt))
    op_text-Nested op_not = chars-Nested (op_text op_not) (refl, (refl, (refl, tt)))

-- The text inside the brackets of printed children.
pub serialize_children-Nested : (rs : Children) → IsChildren rs → Nested (serialize_children rs)
unfolding serialize_child IsChild
serialize_children-Nested nil h = nil-Nested
serialize_children-Nested (cons r rs) (h, hs) =
    append-Nested _ _ (in_brackets r (child_body-Nested r h)) (more rs hs)
  where
    more : (rs : Children) → IsChildren rs → Nested (serialize_more rs)
    more nil h = nil-Nested
    more (cons r rs) (h, hs) =
        append-Nested (text ",") _ (chars-Nested (text ",") (refl, tt))
          (append-Nested _ _ (in_brackets r (child_body-Nested r h)) (more rs hs))

split_children-child :
    (r : Rule) (t : Text)
    → IsChild r
    → split_children (serialize_child r ++ t) ≡ serialize_child r ∷ split_children t
split_children-child r t h =
    rw (serialize_child_lem r, wrapped-append)
      (split_children-group (child_body r) t (child_body-Nested r h))
  where
    wrapped-append : (b t : Text) → wrapped b ++ t ≡ open_bracket ∷ (b ++ close_bracket ∷ t)
    wrapped-append b t = ap (λ u. open_bracket ∷ u) (append_assoc b (text ")") t)

split_children-more :
    (rs : Children) → IsChildren rs → split_children (serialize_more rs) ≡ child_texts rs
unfolding serialize_child IsChild
split_children-more nil h = unfold split_children in refl
split_children-more (cons r rs) (h, hs) =
    split_children-comma _
    ∙ (split_children-child r _ h ∙ ap (λ ts. serialize_child r ∷ ts) (split_children-more rs hs))

-- The printed children split into the printed child each.
pub split_children-serialize_children :
    (rs : Children) → IsChildren rs → split_children (serialize_children rs) ≡ child_texts rs
unfolding serialize_child IsChild
split_children-serialize_children nil h = unfold split_children in refl
split_children-serialize_children (cons r rs) (h, hs) =
    split_children-child r _ h ∙ ap (λ ts. serialize_child r ∷ ts) (split_children-more rs hs)
