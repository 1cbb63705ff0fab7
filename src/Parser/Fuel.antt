-- ===== src/Parser/Fuel.antt =====
-- Every call of the rule parser on an inner expression is on a shorter text.
use miharbor.Base.{
  ℕ, zero, suc, ◌+◌, ◌≤◌, ◌<◌, ◌≡◌, refl, ◌≢◌, Bool, true, false, ◌&&◌, not, inl, inr, Option, none,
  some, List, [], ◌∷◌, length, arith, Bool-cases, ◌==◌, if◌then◌else◌, All,
}
use miharbor.Base.Text.{Text, starts_with, text}
use miharbor.Base.Trim.{trim, trim_start, rest_of, without_last, length-trim-le, trim_start-length}
use miharbor.Rules.{LogicalOp, Rule}
use miharbor.Parser.{
  ParseError, Parsed, ok, failed, malformed_child, unbalanced, no_separator, out_of_fuel, ◌>>=◌,
  ◌>>◌, throw_unless, found_or, is_empty, op_of, is_wrapped, inside, simple_child, parse_all,
  child_of, parse_rule_expr, simple_rule, rule_of, match_rule, after_match, parse_trimmed,
  parse_rule,
}
use miharbor.Parser.Scan.{
  Depth, at, Groups, begun, continued, still_under_way, depth_after, is_level, down, open_bracket,
  close_bracket, groups_from, split_children, before_comma, continued_first, close_from,
  matching_close, split_top_level, comma, open_after,
}

-- A value or an error.
abbrev pub Ends : {A : Type 0} → Parsed A → Type 0
Ends m = m ≢ out_of_fuel

abbrev UpTo : ℕ → Text → Type 0
UpTo n t = length t ≤ n

abbrev GroupsUpTo : ℕ → Groups → Type 0
GroupsUpTo n (none, gs) = All (UpTo n) gs
GroupsUpTo n (some g, gs) = (length g ≤ n) × All (UpTo n) gs

UpTo-suc : (n : ℕ) (gs : List Text) → All (UpTo n) gs → All (UpTo (suc n)) gs
UpTo-suc n [] h = tt
UpTo-suc n (g ∷ gs) (h, hs) = (omega (arith, h), UpTo-suc n gs hs)

begun-UpTo : (n c : ℕ) (p : Groups) → GroupsUpTo n p → GroupsUpTo (suc n) (begun c p)
begun-UpTo n c (none, gs) h = UpTo-suc n gs h
begun-UpTo n c (some g, gs) (h, hs) = (omega (arith, h), UpTo-suc n gs hs)

continued-UpTo : (n c : ℕ) (p : Groups) → GroupsUpTo n p → GroupsUpTo (suc n) (continued c p)
continued-UpTo n c (none, gs) h = UpTo-suc n gs h
continued-UpTo n c (some g, gs) (h, hs) = (omega (arith, h), UpTo-suc n gs hs)

later-UpTo : (n : ℕ) (p : Groups) → GroupsUpTo n p → All (UpTo (suc n)) p.1
later-UpTo n (none, gs) h = UpTo-suc n gs h
later-UpTo n (some g, gs) (h, hs) = UpTo-suc n gs hs

groups_from-UpTo : (u : Bool) (d : Depth) (t : Text) → GroupsUpTo (length t) (groups_from u d t)
unfolding groups_from
groups_from-UpTo u d [] = tt
groups_from-UpTo u d (c ∷ t) =
    let ih = groups_from-UpTo (still_under_way u c d) (depth_after c d) t in
    elim (Bool-cases (c == open_bracket && is_level d)) [
      | inl e ↦ rw e (begun-UpTo _ c _ ih)
      | inr e ↦ elim (Bool-cases (c == close_bracket && (is_level (down d) && u))) [
        | inl e' ↦ rw (e, e') (omega arith, later-UpTo _ _ ih)
        | inr e' ↦ rw (e, e') (continued-UpTo _ c _ ih)
      ]
    ]

split_children-UpTo : (t : Text) → All (UpTo (length t)) (split_children t)
unfolding split_children
split_children-UpTo t =
    groups_of (length t) (groups_from false (at 0) t) (groups_from-UpTo false (at 0) t)
  where
    groups_of : (n : ℕ) (p : Groups) → GroupsUpTo n p → All (UpTo n) p.1
    groups_of n (none, gs) h = h
    groups_of n (some g, gs) (h, hs) = hs

abbrev PairUpTo : ℕ → Option (Text × Text) → Type 0
PairUpTo n none = Unit
PairUpTo n (some (s, t)) = length s + length t < n

continued_first-UpTo :
    (n c : ℕ) (o : Option (Text × Text)) → PairUpTo n o → PairUpTo (suc n) (continued_first c o)
continued_first-UpTo n c none h = tt
continued_first-UpTo n c (some p) h = omega (arith, h)

before_comma-UpTo : (t : Text) → PairUpTo (length t) (before_comma t)
unfolding before_comma
before_comma-UpTo [] = tt
before_comma-UpTo (c ∷ t) = elim (Bool-cases (c == comma)) [
  | inl e ↦ rw e (omega arith)
  | inr e ↦ rw e (continued_first-UpTo _ c _ (before_comma-UpTo t))
]

close_from-UpTo : (n : ℕ) (t : Text) → PairUpTo (length t) (close_from n t)
unfolding close_from
close_from-UpTo n [] = tt
close_from-UpTo n (c ∷ t) = elim (Bool-cases (c == close_bracket && n == 0)) [
  | inl e ↦ rw e (omega arith)
  | inr e ↦ rw e (continued_first-UpTo _ c _ (close_from-UpTo (open_after c n) t))
]

matching_close-UpTo : (t : Text) → PairUpTo (length t) (matching_close t)
unfolding matching_close
matching_close-UpTo [] = tt
matching_close-UpTo (c ∷ t) = wider (length t) (close_from 0 t) (close_from-UpTo 0 t)
  where
    wider : (n : ℕ) (o : Option (Text × Text)) → PairUpTo n o → PairUpTo (suc n) o
    wider n none h = tt
    wider n (some p) h = omega (arith, h)

rest_of-UpTo : (t : Text) → length (rest_of t) ≤ length t
unfolding rest_of
rest_of-UpTo [] = omega arith
rest_of-UpTo (c ∷ t) = omega arith

without_last-UpTo : (t : Text) → length (without_last t) ≤ length t
unfolding without_last
without_last-UpTo [] = omega arith
without_last-UpTo (c ∷ []) = omega arith
without_last-UpTo (c ∷ d ∷ t) = omega (arith, without_last-UpTo (d ∷ t))

inside-UpTo : (t : Text) → length (inside t) ≤ length t
inside-UpTo t = omega (arith, rest_of-UpTo t, without_last-UpTo (rest_of t))

-- Ends of a computation from the ends of its steps.
bind-Ends :
    {A B : Type 0} (m : Parsed A) (f : A → Parsed B)
    → Ends m
    → ((a : A) → m ≡ ok a → Ends (f a))
    → Ends (m >>= f)
bind-Ends (ok a) f h k = k a refl
bind-Ends (failed e) f h k = λ p. cc p
bind-Ends out_of_fuel f h k = absurd (h refl)

throw_unless-Ends :
    {B : Type 0} (b : Bool) (e : ParseError) (k : Parsed B) → Ends k → Ends (throw_unless b e >> k)
throw_unless-Ends true e k h = h
throw_unless-Ends false e k h = λ p. cc p

pub parse_all-Ends :
    (parse : Text → Parsed Rule) (n : ℕ)
    → ((g : Text) → length g ≤ n → Ends (parse g))
    → (gs : List Text) → All (UpTo n) gs
    → Ends (parse_all parse gs)
unfolding parse_all
parse_all-Ends parse n k [] h = λ p. cc p
parse_all-Ends parse n k (g ∷ gs) (h, hs) =
    bind-Ends (parse g) _ (k g h)
      λ r _. bind-Ends (parse_all parse gs) _ (parse_all-Ends parse n k gs hs) λ rs _. λ p. cc p

simple_child-Ends : (expr : Text) (parts : List Text) → Ends (simple_child expr parts)
unfolding simple_child
simple_child-Ends expr [] = λ p. cc p
simple_child-Ends expr (type ∷ []) = λ p. cc p
simple_child-Ends expr (type ∷ value ∷ ms) = throw_unless-Ends (not (is_empty value)) _ _ λ p. cc p

simple_rule-Ends : (raw : Text) (parts : List Text) → Ends (simple_rule raw parts)
unfolding simple_rule
simple_rule-Ends raw [] = λ p. cc p
simple_rule-Ends raw (type ∷ []) = λ p. cc p
simple_rule-Ends raw (type ∷ value ∷ []) = λ p. cc p
simple_rule-Ends raw (type ∷ value ∷ target ∷ ms) =
    throw_unless-Ends (not (is_empty value)) _ _
      (throw_unless-Ends (not (is_empty target)) _ _ λ p. cc p)

child_of-Ends :
    (parse : Text → Parsed Rule) (expr inner rest : Text) (o : Option LogicalOp)
    → ((g : Text) → length g ≤ length rest → Ends (parse g))
    → Ends (child_of parse expr inner rest o)
unfolding child_of
child_of-Ends parse expr inner rest none k = simple_child-Ends expr (split_top_level inner)
child_of-Ends parse expr inner rest (some op) k = throw_unless-Ends (is_wrapped (trim rest)) _ _ (
    bind-Ends (parse_all parse (split_children (inside (trim rest)))) _
      (parse_all-Ends parse (length (inside (trim rest)))
        (λ g h. k g (omega (arith, h, inside-UpTo (trim rest), length-trim-le rest))) _
        (split_children-UpTo (inside (trim rest))))
      λ children _. λ p. cc p)

found_or-Ends :
    {A : Type 0} (e : ParseError) (n : ℕ) (o : Option (Text × Text)) (f : Text × Text → Parsed A)
    → PairUpTo n o
    → ((p : Text × Text) → length p.0 + length p.1 < n → Ends (f p))
    → Ends (found_or e o >>= f)
found_or-Ends e n none f b k = λ p. cc p
found_or-Ends e n (some p) f b k = k p b

pub parse_rule_expr-Ends :
    (fuel : ℕ) (expr : Text) → length expr < fuel → Ends (parse_rule_expr fuel expr)
unfolding parse_rule_expr
parse_rule_expr-Ends zero expr h = absurd (omega (arith, h))
parse_rule_expr-Ends (suc fuel) expr h = throw_unless-Ends (is_wrapped (trim expr)) _ _ (
    found_or-Ends (malformed_child expr) _ (before_comma (inside (trim expr))) _
      (before_comma-UpTo (inside (trim expr)))
      λ p b.
        child_of-Ends (parse_rule_expr fuel) expr (inside (trim expr)) p.1 (op_of (trim p.0))
          λ g hg.
            parse_rule_expr-Ends fuel g
              (omega (arith, h, hg, b, inside-UpTo (trim expr), length-trim-le expr)))

rule_of-Ends :
    (parse : Text → Parsed Rule) (raw trimmed rest : Text) (o : Option LogicalOp)
    → ((g : Text) → length g ≤ length rest → Ends (parse g))
    → Ends (rule_of parse raw trimmed rest o)
unfolding rule_of matching_close
rule_of-Ends parse raw trimmed rest none k = simple_rule-Ends raw (split_top_level trimmed)
rule_of-Ends parse raw trimmed rest (some op) k =
    throw_unless-Ends (starts_with (text "(") (trim_start rest)) _ _ (
      found_or-Ends (unbalanced raw) _ (matching_close (trim_start rest)) _
        (matching_close-UpTo (trim_start rest))
        λ p b. throw_unless-Ends (starts_with (text ",") p.1) _ _ (
          throw_unless-Ends (not (is_empty (trim (rest_of p.1)))) _ _ (
            bind-Ends (parse_all parse (split_children p.0)) _
              (parse_all-Ends parse (length p.0)
                (λ g h. k g (omega (arith, h, b, trim_start-length rest))) _
                (split_children-UpTo p.0))
              λ children _. λ q. cc q)))

match_rule-Ends : (t : Text) → Ends (match_rule t)
unfolding match_rule
match_rule-Ends t = throw_unless-Ends (not (is_empty t)) _ _ λ p. cc p

parse_trimmed-Ends : (raw t : Text) → Ends (parse_trimmed raw t)
unfolding parse_trimmed
parse_trimmed-Ends raw t =
    if-Ends (is_empty t) _ _ (λ p. cc p)
      (if-Ends (starts_with (text "MATCH,") t) _ _ (match_rule-Ends (trim (after_match t))) (
        found_or-Ends (no_separator raw) _ (before_comma t) _ (before_comma-UpTo t) λ p b.
          rule_of-Ends (parse_rule_expr (suc (length t))) raw t p.1 (op_of (trim p.0))
            λ g h. parse_rule_expr-Ends (suc (length t)) g (omega (arith, h, b))))
  where
    if-Ends : (b : Bool) (m k : Parsed Rule) → Ends m → Ends k → Ends (if b then m else k)
    if-Ends true m k hm hk = hm
    if-Ends false m k hm hk = hk

-- On every text the parser comes to an end: it gives a rule or an error, and the fuel it is given
-- for the nested expressions never runs out.
pub parse_rule-Ends : (raw : Text) → parse_rule raw ≢ out_of_fuel
unfolding parse_rule
parse_rule-Ends raw = parse_trimmed-Ends raw (trim raw)
