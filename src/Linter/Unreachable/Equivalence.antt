-- ===== src/Linter/Unreachable/Equivalence.antt =====
-- The one pass of linter/unreachable.ts beside the nested loop.
use mathlib.Core.List.{append_assoc}
use miharbor.Base.{
  ℕ, ◌+◌, ◌≡◌, refl, ◌∙◌, ap, sym, Bool, Option, none, some, List, [], ◌∷◌, ◌++◌, if◌then◌else◌,
  arith, length, length-append, get_elem?, Bool-cases,
}
use miharbor.Base.Text.{Text, text_eq}
use miharbor.Base.Dict.{lookup}
use miharbor.Rules.{Rule, IndexedRule, is_match}
use miharbor.Linter.Issue.{Issue}
use miharbor.Linter.Unreachable.{
  State, shadow_check, record_json, visited, report, detect_from, detect_unreachable, min_pos3,
  keyword_shadow, ◌>>=◌,
}
use miharbor.Linter.Unreachable.Trie.{min_pos}
use miharbor.Linter.Unreachable.Reference.{shadows, first_issue, nested_from, nested_loop}
use miharbor.Linter.Unreachable.Nearest.{or_else, end_at}
use miharbor.Linter.Unreachable.Suffixes.{first_pos, first_pos-append, first_pos-cases, stored}
use miharbor.Linter.Unreachable.Step.{is_keyword}
use miharbor.Linter.Unreachable.Tracks.{
  same_key, Tracks, initial-Tracks, shadow_check-first, end_at-shadow_check, keyword-shadow_check,
  shadow_check-keeps, record_json-keeps, lookup-record_json, record_match-keeps, match-record_match,
}

-- `done` stands in `rules` from position `n` on.
abbrev Sits : List IndexedRule → ℕ → List IndexedRule → Type 0
Sits rules n [] = Unit {0}
Sits rules n (r ∷ done) = (get_elem? rules n ≡ some r) × Sits rules (n + 1) done

module _ (json_key : Rule → Text) where
  report-first :
      (rules : List IndexedRule) (cur : IndexedRule) (n : ℕ) (done : List IndexedRule)
      → Sits rules n done
      → report rules cur
          (first_pos is_match done n)
          (first_pos (same_key json_key (json_key cur.rule)) done n)
          (first_pos (λ r. shadows r cur.rule) done n)
        ≡ some (first_issue json_key done cur)
  unfolding first_pos first_issue report min_pos3 min_pos
  report-first rules cur n [] h = refl
  report-first rules cur n (r ∷ done) h = ground (
    arith,
    report-first rules cur (n + 1) done h.1,
    h.0,
    Bool-cases (is_match r.rule),
    Bool-cases (text_eq (json_key r.rule) (json_key cur.rule)),
    Bool-cases (shadows r.rule cur.rule),
    first_pos-cases is_match done (n + 1),
    first_pos-cases (same_key json_key (json_key cur.rule)) done (n + 1),
    first_pos-cases (λ s. shadows s cur.rule) done (n + 1),
  )

  visited-Tracks :
      (done : List IndexedRule) (cur : IndexedRule) (st : State)
      → Tracks json_key done st
      → Tracks json_key (done ++ cur ∷ []) (visited json_key cur.rule (length done) st)
  unfolding visited
  visited-Tracks done cur st h = record {
    matches =
        match-record_match json_key rule i checked
        ∙ recorded st.first_match_pos is_match
            ((shadow_check-keeps rule i st').0 ∙ (record_json-keeps json_key rule i st).0)
            h.matches;
    jsons = λ k.
        ap (lookup k)
          ((record_match-keeps json_key rule i checked).0 ∙ (shadow_check-keeps rule i st').1)
        ∙ lookup-record_json json_key rule i st k
        ∙ recorded (lookup k st.first_by_json) (same_key json_key k) refl (h.jsons k);
    suffixes = λ p.
        ap (end_at p) (record_match-keeps json_key rule i checked).1
        ∙ end_at-shadow_check rule i st' p
        ∙ recorded (end_at p st.suffix_trie) (stored p)
            (ap (end_at p) (record_json-keeps json_key rule i st).1) (h.suffixes p);
    keywords = λ v.
        ap (keyword_shadow v) (record_match-keeps json_key rule i checked).2
        ∙ keyword-shadow_check rule i st' v
        ∙ recorded (keyword_shadow v st.keywords) (is_keyword v)
            (ap (keyword_shadow v) (record_json-keeps json_key rule i st).2) (h.keywords v);
  }
    where
      rule : Rule
      rule = cur.rule

      i : ℕ
      i = length done

      st' : State
      st' = record_json json_key rule i st

      checked : State
      checked = (shadow_check rule i st').0

      recorded :
          {now : Option ℕ} (old : Option ℕ) (P : Rule → Bool)
          → now ≡ old
          → old ≡ first_pos P done 0
          → or_else now (if P rule then some i else none) ≡ first_pos P (done ++ cur ∷ []) 0
      recorded old P same held =
          ap (λ o. or_else o (if P rule then some i else none)) (same ∙ held)
          ∙ ap (λ k. or_else (first_pos P done 0) (if P rule then some k else none)) (omega arith)
          ∙ sym (first_pos-append P done cur 0)

  Sits-append :
      (rules : List IndexedRule) (n : ℕ) (done : List IndexedRule) (cur : IndexedRule)
      → Sits rules n done
      → get_elem? rules (n + length done) ≡ some cur
      → Sits rules n (done ++ cur ∷ [])
  Sits-append rules n [] cur h e = (ap (get_elem? rules) (omega arith) ∙ e, tt)
  Sits-append rules n (r ∷ done) cur h e =
      (h.0, Sits-append rules (n + 1) done cur h.1 (ap (get_elem? rules) (omega arith) ∙ e))

  get_elem?-middle :
      (done rest : List IndexedRule) (cur : IndexedRule)
      → get_elem? (done ++ cur ∷ rest) (length done) ≡ some cur
  get_elem?-middle [] rest cur = refl
  get_elem?-middle (r ∷ done) rest cur = get_elem?-middle done rest cur

  -- A round of the loop reports the first cover among the rules visited.
  report-Tracks :
      (rules done : List IndexedRule) (cur : IndexedRule) (st : State)
      → Sits rules 0 done
      → Tracks json_key done st
      → report rules cur st.first_match_pos
          (lookup (json_key cur.rule) st.first_by_json)
          (shadow_check cur.rule (length done) (record_json json_key cur.rule (length done) st)).1
        ≡ some (first_issue json_key done cur)
  report-Tracks rules done cur st h t =
      ap (λ o. report rules cur o (lookup k st.first_by_json) shadow) t.matches
      ∙ ap (λ o. report rules cur (first_pos is_match done 0) o shadow) (t.jsons k)
      ∙ ap (report rules cur (first_pos is_match done 0) (first_pos (same_key json_key k) done 0)) (
          shadow_check-first cur.rule (length done) done st'
            (λ p.
              ap (end_at p) (record_json-keeps json_key cur.rule (length done) st).1 ∙ t.suffixes p)
            (λ v.
              ap (keyword_shadow v) (record_json-keeps json_key cur.rule (length done) st).2
              ∙ t.keywords v))
      ∙ report-first rules cur 0 done h
    where
      k : Text
      k = json_key cur.rule

      st' : State
      st' = record_json json_key cur.rule (length done) st

      shadow : Option ℕ
      shadow = (shadow_check cur.rule (length done) st').1

  join_found :
      {m n : Option (List Issue)} (a b : List Issue)
      → m ≡ some a
      → n ≡ some b
      → (m >>= λ here. n >>= λ later. some (here ++ later)) ≡ some (a ++ b)
  join_found a b p q = rw (p, q)

  detect_from-nested :
      (rules done rest : List IndexedRule) (st : State)
      → rules ≡ done ++ rest
      → Sits rules 0 done
      → Tracks json_key done st
      → detect_from json_key rules (length done) rest st ≡ some (nested_from json_key done rest)
  unfolding detect_from nested_from
  detect_from-nested rules done [] st e h t = refl
  detect_from-nested rules done (cur ∷ rest) st e h t =
      join_found _ _ (report-Tracks rules done cur st h t) (
        ap (λ n. detect_from json_key rules n rest (visited json_key cur.rule (length done) st))
          (omega (arith, length-append done (cur ∷ [])))
        ∙ detect_from-nested rules (done ++ cur ∷ []) rest
            (visited json_key cur.rule (length done) st)
            (e ∙ sym (append_assoc done (cur ∷ []) rest))
            (Sits-append rules 0 done cur h (
              rw e (
                ap (get_elem? (done ++ cur ∷ rest)) (omega arith)
                ∙ get_elem?-middle done rest cur)))
            (visited-Tracks done cur st t))

  -- For every list of rules, and whatever `JSON.stringify` makes of a rule, the pass with its
  -- indexes reads no position outside the list, and it reports the same issues in the same order
  -- as the nested loop: for each rule, the first earlier rule that is a MATCH, has the same JSON,
  -- or shadows it as a domain suffix or a keyword.
  pub detect_unreachable-nested_loop :
      (rules : List IndexedRule)
      → detect_unreachable json_key rules ≡ some (nested_loop json_key rules)
  unfolding detect_unreachable nested_loop
  detect_unreachable-nested_loop rules =
      detect_from-nested rules [] rules _ refl tt (initial-Tracks json_key)
