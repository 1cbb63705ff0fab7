-- ===== src/Linter/Unreachable/Tracks.antt =====
-- The indexes of linter/unreachable.ts hold what the rules visited so far call for.
use mathlib.Core.List.{reverse}
use miharbor.Base.{
  ℕ, ◌≡◌, refl, ◌∙◌, ap, sym, Bool, true, false, none, some, List, [], if◌then◌else◌, arith,
  Bool-cases, Option-cases, inl, inr,
}
use mathlib.Core.Path.{fun_ext}
use miharbor.Base.Text.{Text, text_eq, text_eq_iff, eq_of_text_eq}
use miharbor.Base.Dict.{lookup, lookup-insert}
use miharbor.Rules.{Rule, simple, logical, match, IndexedRule, is_match, LogicalOp, Children}
use miharbor.Linter.Unreachable.{
  State, initial, domain_suffix, domain_keyword, keyword_shadow, shadow_check, record_json,
  record_match,
}
use miharbor.Linter.Unreachable.Reference.{shadows}
use miharbor.Linter.Unreachable.Nearest.{end_at, end_at-make_node, nearest-congr, or_else}
use miharbor.Linter.Unreachable.Suffixes.{
  first_pos, first_pos-none, stored, suffix_value, nearest-stored,
}
use miharbor.Linter.Unreachable.Step.{
  is_keyword, found-nearest, end_at-inserted, stored-simple, shadows-suffix, shadows-keyword,
  shadows-other, keyword_shadow-append,
}

same_test :
    (P Q : Rule → Bool) (done : List IndexedRule)
    → ((r : Rule) → P r ≡ Q r)
    → first_pos P done 0 ≡ first_pos Q done 0
same_test P Q done h = ap (λ T. first_pos T done 0) (fun_ext h)

logical_shadows-none :
    (op : LogicalOp) (cs : Children) (t : Text) (r : Rule) → shadows r (logical op cs t) ≡ false
unfolding shadows
logical_shadows-none op cs t (simple a) = refl
logical_shadows-none op cs t (logical a b c) = refl
logical_shadows-none op cs t (match a) = refl

match_shadows-none : (t : Text) (r : Rule) → shadows r (match t) ≡ false
unfolding shadows
match_shadows-none t (simple a) = refl
match_shadows-none t (logical a b c) = refl
match_shadows-none t (match a) = refl

-- The shadow check finds the first earlier rule that shadows this one.
pub shadow_check-first :
    (rule : Rule) (i : ℕ) (done : List IndexedRule) (st : State)
    → ((p : Text) → end_at p st.suffix_trie ≡ first_pos (stored p) done 0)
    → ((v : Text) → keyword_shadow v st.keywords ≡ first_pos (is_keyword v) done 0)
    → (shadow_check rule i st).1 ≡ first_pos (λ r. shadows r rule) done 0
unfolding shadow_check
shadow_check-first (logical op cs t) i done st hs hk =
    sym (first_pos-none _ done 0 (logical_shadows-none op cs t))
shadow_check-first (match t) i done st hs hk = sym (first_pos-none _ done 0 (match_shadows-none t))
shadow_check-first (simple s) i done st hs hk = elim (Bool-cases (text_eq s.type domain_suffix)) [
  | inl e ↦
      rw (e, found-nearest st.suffix_trie s.value i)
        (nearest-congr (reverse s.value) _ _ none hs
          ∙ nearest-stored s.value done 0
          ∙ sym (same_test _ _ done (shadows-suffix s e)))
  | inr e ↦ elim (Bool-cases (text_eq s.type domain_keyword)) [
    | inl k ↦ rw (e, k) (hk s.value ∙ sym (same_test _ _ done (shadows-keyword s e k)))
    | inr k ↦ rw (e, k) (sym (first_pos-none _ done 0 (shadows-other s e k)))
  ]
]

-- What the check records of the rule.
pub end_at-shadow_check :
    (rule : Rule) (i : ℕ) (st : State) (p : Text)
    → end_at p (shadow_check rule i st).0.suffix_trie
      ≡ or_else (end_at p st.suffix_trie) (if stored p rule then some i else none)
unfolding shadow_check
end_at-shadow_check (logical op cs t) i st p =
    unfold stored suffix_value in ground (arith, Option-cases (end_at p st.suffix_trie))
end_at-shadow_check (match t) i st p =
    unfold stored suffix_value in ground (arith, Option-cases (end_at p st.suffix_trie))
end_at-shadow_check (simple s) i st p = rw (stored-simple p s) (
    ground (
      arith,
      end_at-inserted st.suffix_trie s.value p i,
      Option-cases (end_at p st.suffix_trie),
      Bool-cases (text_eq s.type domain_suffix),
      Bool-cases (text_eq s.type domain_keyword),
    ))

keyword_suffix : (t : Text) → text_eq t domain_suffix ≡ true → text_eq t domain_keyword ≡ false
keyword_suffix t h = rw (eq_of_text_eq t domain_suffix h) (unfold text_eq in refl)

pub keyword-shadow_check :
    (rule : Rule) (i : ℕ) (st : State) (v : Text)
    → keyword_shadow v (shadow_check rule i st).0.keywords
      ≡ or_else (keyword_shadow v st.keywords) (if is_keyword v rule then some i else none)
unfolding shadow_check is_keyword
keyword-shadow_check (logical op cs t) i st v =
    ground (arith, Option-cases (keyword_shadow v st.keywords))
keyword-shadow_check (match t) i st v = ground (arith, Option-cases (keyword_shadow v st.keywords))
keyword-shadow_check (simple s) i st v = elim (Bool-cases (text_eq s.type domain_suffix)) [
  | inl e ↦
      rw (e, keyword_suffix s.type e) (ground (arith, Option-cases (keyword_shadow v st.keywords)))
  | inr e ↦ elim (Bool-cases (text_eq s.type domain_keyword)) [
    | inl k ↦ rw (e, k) (keyword_shadow-append v s.value st.keywords i)
    | inr k ↦ rw (e, k) (ground (arith, Option-cases (keyword_shadow v st.keywords)))
  ]
]

pub shadow_check-keeps :
    (rule : Rule) (i : ℕ) (st : State)
    → ((shadow_check rule i st).0.first_match_pos ≡ st.first_match_pos)
      × ((shadow_check rule i st).0.first_by_json ≡ st.first_by_json)
unfolding shadow_check
shadow_check-keeps (logical op cs t) i st = (refl, refl)
shadow_check-keeps (match t) i st = (refl, refl)
shadow_check-keeps (simple s) i st = ground arith

module _ (json_key : Rule → Text) where
  abbrev pub same_key : Text → Rule → Bool
  same_key k r = text_eq (json_key r) k

  -- What the state says of the rules that have been visited.
  pub record Tracks (done : List IndexedRule) (st : State) : Type 0 where
    pub matches : st.first_match_pos ≡ first_pos is_match done 0
    pub jsons : (k : Text) → lookup k st.first_by_json ≡ first_pos (same_key k) done 0
    pub suffixes : (p : Text) → end_at p st.suffix_trie ≡ first_pos (stored p) done 0
    pub keywords : (v : Text) → keyword_shadow v st.keywords ≡ first_pos (is_keyword v) done 0

  pub initial-Tracks : Tracks [] initial
  unfolding initial first_pos lookup keyword_shadow
  initial-Tracks = record {
    matches = refl;
    jsons = λ k. refl;
    suffixes = end_at-make_node;
    keywords = λ v. refl;
  }

  pub record_json-keeps :
      (rule : Rule) (i : ℕ) (st : State)
      → ((record_json json_key rule i st).first_match_pos ≡ st.first_match_pos)
        × ((record_json json_key rule i st).suffix_trie ≡ st.suffix_trie)
        × ((record_json json_key rule i st).keywords ≡ st.keywords)
  unfolding record_json
  record_json-keeps rule i st = ground arith

  pub lookup-record_json :
      (rule : Rule) (i : ℕ) (st : State) (k : Text)
      → lookup k (record_json json_key rule i st).first_by_json
        ≡ or_else (lookup k st.first_by_json) (if same_key k rule then some i else none)
  unfolding record_json
  lookup-record_json rule i st k = ground (
    arith,
    lookup-insert (json_key rule) k i st.first_by_json,
    text_eq_iff (json_key rule) k,
    Option-cases (lookup k st.first_by_json),
    Option-cases (lookup (json_key rule) st.first_by_json),
  )

  pub record_match-keeps :
      (rule : Rule) (i : ℕ) (st : State)
      → ((record_match json_key rule i st).first_by_json ≡ st.first_by_json)
        × ((record_match json_key rule i st).suffix_trie ≡ st.suffix_trie)
        × ((record_match json_key rule i st).keywords ≡ st.keywords)
  unfolding record_match
  record_match-keeps (simple s) i st = (refl, refl, refl)
  record_match-keeps (logical op cs t) i st = (refl, refl, refl)
  record_match-keeps (match t) i st = ground arith

  pub match-record_match :
      (rule : Rule) (i : ℕ) (st : State)
      → (record_match json_key rule i st).first_match_pos
        ≡ or_else st.first_match_pos (if is_match rule then some i else none)
  unfolding record_match
  match-record_match (simple s) i st = ground (arith, Option-cases st.first_match_pos)
  match-record_match (logical op cs t) i st = ground (arith, Option-cases st.first_match_pos)
  match-record_match (match t) i st = ground (arith, Option-cases st.first_match_pos)
