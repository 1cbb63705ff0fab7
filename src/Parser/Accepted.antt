-- ===== src/Parser/Accepted.antt =====
-- The rules that `parseRule` gives.
use miharbor.Base.{
  ℕ, zero, suc, ◌≡◌, refl, ◌≢◌, subst, Bool, true, false, not, Option, none, some, List, [], ◌∷◌,
  if◌then◌else◌, length,
}
use miharbor.Base.Text.{Text, text, starts_with}
use miharbor.Base.Trim.{trim, trim_start, rest_of}
use miharbor.Rules.{LogicalOp, Rule, Children, simple, logical, match, nil, cons}
use miharbor.Parser.{
  ParseError, Parsed, ok, failed, malformed_child, unbalanced, no_separator, out_of_fuel, ◌>>=◌,
  ◌>>◌, throw_unless, found_or, is_empty, op_of, is_wrapped, inside, simple_child, parse_all,
  child_of, parse_rule_expr, simple_rule, rule_of, match_rule, after_match, parse_trimmed,
  parse_rule,
}
use miharbor.Parser.Scan.{split_children, before_comma, matching_close, split_top_level}

abbrev mutual
  -- Every value is some text, and no nested rule has a target or is a MATCH.
  pub Inner : Rule → Type 0
  Inner (match target) = ⊥
  Inner (simple s) = (s.value ≢ []) × (s.target ≡ [])
  Inner (logical op children target) = InnerAll children × (target ≡ [])

  pub InnerAll : Children → Type 0
  InnerAll nil = Unit
  InnerAll (cons r rs) = Inner r × InnerAll rs

abbrev pub Usable : Rule → Type 0
Usable (match target) = target ≢ []
Usable (simple s) = (s.value ≢ []) × (s.target ≢ [])
Usable (logical op children target) = InnerAll children × (target ≢ [])

-- What holds of a result, if there is one.
abbrev Gives : {A : Type 0} → (A → Type 0) → Parsed A → Type 0
Gives P (ok a) = P a
Gives P (failed e) = Unit
Gives P out_of_fuel = Unit

bind-Gives :
    {A B : Type 0} (P : A → Type 0) (Q : B → Type 0) (m : Parsed A) (f : A → Parsed B)
    → Gives P m
    → ((a : A) → P a → Gives Q (f a))
    → Gives Q (m >>= f)
bind-Gives P Q (ok a) f h k = k a h
bind-Gives P Q (failed e) f h k = tt
bind-Gives P Q out_of_fuel f h k = tt

anything-Gives : {A : Type 0} (m : Parsed A) → Gives (λ _. Unit {0}) m
anything-Gives (ok a) = tt
anything-Gives (failed e) = tt
anything-Gives out_of_fuel = tt

throw_unless-Gives :
    {B : Type 0} (Q : B → Type 0) (b : Bool) (e : ParseError) (k : Parsed B)
    → (b ≡ true → Gives Q k)
    → Gives Q (throw_unless b e >> k)
throw_unless-Gives Q true e k h = h refl
throw_unless-Gives Q false e k h = tt

some_text : (t : Text) → not (is_empty t) ≡ true → t ≢ []
some_text [] h = cc h
some_text (c ∷ t) h = λ e. cc e

parse_all-Gives :
    (parse : Text → Parsed Rule)
    → ((g : Text) → Gives Inner (parse g))
    → (gs : List Text) → Gives InnerAll (parse_all parse gs)
unfolding parse_all
parse_all-Gives parse k [] = tt
parse_all-Gives parse k (g ∷ gs) = bind-Gives Inner InnerAll (parse g) _ (k g) λ r h.
    bind-Gives InnerAll InnerAll (parse_all parse gs) _ (parse_all-Gives parse k gs)
      λ rs hs. (h, hs)

simple_child-Gives : (expr : Text) (parts : List Text) → Gives Inner (simple_child expr parts)
unfolding simple_child
simple_child-Gives expr [] = tt
simple_child-Gives expr (type ∷ []) = tt
simple_child-Gives expr (type ∷ value ∷ ms) =
    throw_unless-Gives Inner (not (is_empty value)) _ _ λ h. (some_text value h, refl)

child_of-Gives :
    (parse : Text → Parsed Rule)
    → ((g : Text) → Gives Inner (parse g))
    → (expr inner rest : Text) (o : Option LogicalOp)
    → Gives Inner (child_of parse expr inner rest o)
unfolding child_of
child_of-Gives parse k expr inner rest none = simple_child-Gives expr (split_top_level inner)
child_of-Gives parse k expr inner rest (some op) =
    throw_unless-Gives Inner (is_wrapped (trim rest)) _ _ λ _.
      bind-Gives InnerAll Inner (parse_all parse (split_children (inside (trim rest)))) _
        (parse_all-Gives parse k _) λ children h. (h, refl)

parse_rule_expr-Gives : (fuel : ℕ) (expr : Text) → Gives Inner (parse_rule_expr fuel expr)
unfolding parse_rule_expr
parse_rule_expr-Gives zero expr = tt
parse_rule_expr-Gives (suc fuel) expr = throw_unless-Gives Inner (is_wrapped (trim expr)) _ _ λ _.
    bind-Gives (λ _. Unit) Inner
      (found_or (malformed_child expr) (before_comma (inside (trim expr)))) _ (anything-Gives _)
      λ p _.
        child_of-Gives (parse_rule_expr fuel) (parse_rule_expr-Gives fuel) expr (inside (trim expr))
          p.1 (op_of (trim p.0))

simple_rule-Gives : (raw : Text) (parts : List Text) → Gives Usable (simple_rule raw parts)
unfolding simple_rule
simple_rule-Gives raw [] = tt
simple_rule-Gives raw (type ∷ []) = tt
simple_rule-Gives raw (type ∷ value ∷ []) = tt
simple_rule-Gives raw (type ∷ value ∷ target ∷ ms) =
    throw_unless-Gives Usable (not (is_empty value)) _ _ λ h.
      throw_unless-Gives Usable (not (is_empty target)) _ _
        λ k. (some_text value h, some_text target k)

rule_of-Gives :
    (parse : Text → Parsed Rule)
    → ((g : Text) → Gives Inner (parse g))
    → (raw trimmed rest : Text) (o : Option LogicalOp)
    → Gives Usable (rule_of parse raw trimmed rest o)
unfolding rule_of
rule_of-Gives parse k raw trimmed rest none = simple_rule-Gives raw (split_top_level trimmed)
rule_of-Gives parse k raw trimmed rest (some op) =
    throw_unless-Gives Usable (starts_with (text "(") (trim_start rest)) _ _ λ _.
      bind-Gives (λ _. Unit) Usable (found_or (unbalanced raw) (matching_close (trim_start rest))) _
        (anything-Gives _)
        λ p _. throw_unless-Gives Usable (starts_with (text ",") p.1) _ _ λ _.
          throw_unless-Gives Usable (not (is_empty (trim (rest_of p.1)))) _ _ λ h.
            bind-Gives InnerAll Usable (parse_all parse (split_children p.0)) _
              (parse_all-Gives parse k _) λ children hs. (hs, some_text _ h)

match_rule-Gives : (t : Text) → Gives Usable (match_rule t)
unfolding match_rule
match_rule-Gives t = throw_unless-Gives Usable (not (is_empty t)) _ _ λ h. some_text t h

parse_trimmed-Gives : (raw t : Text) → Gives Usable (parse_trimmed raw t)
unfolding parse_trimmed
parse_trimmed-Gives raw t = if-Gives (is_empty t) _ _ tt (
    if-Gives (starts_with (text "MATCH,") t) _ _ (match_rule-Gives (trim (after_match t))) (
      bind-Gives (λ _. Unit) Usable (found_or (no_separator raw) (before_comma t)) _
        (anything-Gives _)
        λ p _.
          rule_of-Gives (parse_rule_expr (suc (length t))) (parse_rule_expr-Gives (suc (length t)))
            raw t p.1 (op_of (trim p.0))))
  where
    if-Gives :
        (b : Bool) (m k : Parsed Rule)
        → Gives Usable m
        → Gives Usable k
        → Gives Usable (if b then m else k)
    if-Gives true m k hm hk = hm
    if-Gives false m k hm hk = hk

-- Every rule that the parser accepts has a target, a value wherever it is simple, and nested rules
-- that have no target and are no MATCH, at every depth.
pub parse_rule-Usable : (raw : Text) (r : Rule) → parse_rule raw ≡ ok r → Usable r
unfolding parse_rule
parse_rule-Usable raw r h =
    result (parse_trimmed raw (trim raw)) (parse_trimmed-Gives raw (trim raw)) h
  where
    result : (m : Parsed Rule) → Gives Usable m → m ≡ ok r → Usable r
    result (ok s) g e = subst Usable (of_ok e) g
      where
        of_ok : {s r : Rule} → ok s ≡ ok r → s ≡ r
        of_ok e = cc e
    result (failed x) g e = cc e
    result out_of_fuel g e = cc e
