-- ===== src/Linter/Duplicates/Equivalence.antt =====
-- The maps of `detectDuplicates` beside the nested loop.
use miharbor.Base.{
  ℕ, ◌≡◌, refl, sym, ap, ap₂, ◌∙◌, subst, inl, inr, Bool, true, false, ◌&&◌, Option, none, some,
  List, [], ◌∷◌, ◌++◌, if◌then◌else◌, arith, Bool-cases, Option-cases,
}
use miharbor.Base.Text.{Text, text_eq, text_eq_iff}
use miharbor.Base.Dict.{lookup, lookup-insert}
use miharbor.Rules.{Rule, simple, logical, match, SimpleRule, IndexedRule}
use miharbor.Linter.Duplicates.{
  key_of, Seen, Origin, prior, group_map, add_missing, next_per_group, visit, repeats, intra_issues,
  cross_issues,
}
use miharbor.Linter.Duplicates.Reference.{
  has_key, has_key_in, origin, or_else, first_of, index_of, repeats_after, nested_loop,
}

-- The maps know of every key, and of every key in every group, the first rule that has it.
record Tracks (earlier : List IndexedRule) (seen : Seen) : Type 0 where
  priors : (t k : Text) → prior seen t k ≡ index_of (first_of (has_key_in t k) earlier)
  firsts : (k : Text) → lookup k seen.first ≡ first_of (has_key k) earlier

or_none : {A : Type 0} (o : Option A) → or_else o none ≡ o
or_none none = refl
or_none (some a) = refl

first_of-snoc :
    (p : SimpleRule → Bool) (rs : List IndexedRule) (r : IndexedRule)
    → first_of p (rs ++ r ∷ []) ≡ or_else (first_of p rs) (origin r.index r.rule p)
unfolding first_of
first_of-snoc p [] r = or_none (origin r.index r.rule p)
first_of-snoc p (q ∷ rs) r =
    ap (or_else (origin q.index q.rule p)) (first_of-snoc p rs r)
    ∙ or_assoc (origin q.index q.rule p) (first_of p rs) (origin r.index r.rule p)
  where
    or_assoc : (a b c : Option Origin) → or_else a (or_else b c) ≡ or_else (or_else a b) c
    or_assoc none b c = refl
    or_assoc (some a) b c = refl

index_or_else : (a b : Option Origin) → index_of (or_else a b) ≡ or_else (index_of a) (index_of b)
index_or_else none b = refl
index_or_else (some a) b = refl

lookup-add_missing :
    {V : Type 0} (m : List (Text × V)) (j k : Text) (v : V)
    → lookup k (add_missing (lookup j m) j v m)
      ≡ or_else (lookup k m) (if text_eq j k then some v else none)
lookup-add_missing m j k v = elim (Option-cases (lookup j m)) [
  | inl e ↦ rw e (
      ground (
        arith,
        e,
        lookup-insert j k v m,
        text_eq_iff j k,
        Bool-cases (text_eq j k),
        Option-cases (lookup k m),
      ))
  | inr (w, e) ↦
      rw e (ground (arith, e, text_eq_iff j k, Bool-cases (text_eq j k), Option-cases (lookup k m)))
]

group_map-pick :
    (b : Bool) (m : List (Text × ℕ)) (o : Option (List (Text × ℕ)))
    → group_map (if b then some m else o) ≡ (if b then m else group_map o)
unfolding group_map
group_map-pick true m o = refl
group_map-pick false m o = refl

-- What a visit does to the entry of a key in a group.
lookup-next :
    (seen : Seen) (index : ℕ) (target key t k : Text)
    → lookup k (group_map (lookup t (next_per_group index target key seen)))
      ≡ or_else (prior seen t k) (if text_eq target t && text_eq key k then some index else none)
lookup-next seen index target key t k = elim (Bool-cases (text_eq target t)) [
  | inl same ↦
      rw (lookup-insert, same, group_map-pick)
        (subst
          (λ u.
            lookup k (
              add_missing (prior seen target key) key index
                (group_map (lookup target seen.per_group)))
            ≡ or_else (prior seen u k) (if text_eq key k then some index else none))
          ((text_eq_iff target t).0 same)
          (lookup-add_missing (group_map (lookup target seen.per_group)) key k index))
  | inr other ↦ rw (lookup-insert, other, group_map-pick) (sym (or_none _))
]

index-origin :
    (index : ℕ) (s : SimpleRule) (b : Bool)
    → (if b then some index else none)
      ≡ index_of (if b then some (record { index = index; target = s.target }) else none)
index-origin index s true = refl
index-origin index s false = refl

index-snoc :
    (p : SimpleRule → Bool) (rs : List IndexedRule) (r : IndexedRule)
    → or_else (index_of (first_of p rs)) (index_of (origin r.index r.rule p))
      ≡ index_of (first_of p (rs ++ r ∷ []))
index-snoc p rs r = sym (ap index_of (first_of-snoc p rs r) ∙ index_or_else (first_of p rs) _)

visit-Tracks :
    (earlier : List IndexedRule) (i : ℕ) (rule : Rule) (seen : Seen)
    → Tracks earlier seen
    → Tracks (earlier ++ record { index = i; rule = rule } ∷ []) (visit i rule seen).0
unfolding visit
visit-Tracks earlier i (simple s) seen h = record {
  priors = λ t k.
      lookup-next seen i s.target (key_of s) t k
      ∙ ap₂ or_else (h.priors t k) (index-origin i s _)
      ∙ index-snoc (has_key_in t k) earlier (record { index = i; rule = simple s });
  firsts = λ k.
      lookup-add_missing seen.first (key_of s) k _
      ∙ ap (λ o. or_else o (origin i (simple s) (has_key k))) (h.firsts k)
      ∙ sym (first_of-snoc (has_key k) earlier (record { index = i; rule = simple s }));
}
visit-Tracks earlier i (logical op cs t) seen h = record {
  priors = λ t' k.
      h.priors t' k
      ∙ sym (or_none _)
      ∙ index-snoc (has_key_in t' k) earlier (record { index = i; rule = logical op cs t });
  firsts = λ k.
      h.firsts k
      ∙ sym (or_none _)
      ∙ sym (first_of-snoc (has_key k) earlier (record { index = i; rule = logical op cs t }));
}
visit-Tracks earlier i (match t) seen h = record {
  priors = λ t' k.
      h.priors t' k
      ∙ sym (or_none _)
      ∙ index-snoc (has_key_in t' k) earlier (record { index = i; rule = match t });
  firsts = λ k.
      h.firsts k
      ∙ sym (or_none _)
      ∙ sym (first_of-snoc (has_key k) earlier (record { index = i; rule = match t }));
}

visit-issues :
    (earlier : List IndexedRule) (i : ℕ) (rule : Rule) (seen : Seen)
    → Tracks earlier seen
    → (visit i rule seen).1 ≡ repeats_after earlier i rule
unfolding visit repeats_after
visit-issues earlier i (simple s) seen h =
    ap₂ (λ p o. intra_issues i s p ++ cross_issues i s o) (h.priors s.target (key_of s))
      (h.firsts (key_of s))
visit-issues earlier i (logical op cs t) seen h = refl
visit-issues earlier i (match t) seen h = refl

repeats-nested :
    (rules earlier : List IndexedRule) (seen : Seen)
    → Tracks earlier seen
    → repeats seen rules ≡ nested_loop earlier rules
unfolding repeats nested_loop
repeats-nested [] earlier seen h = refl
repeats-nested (r ∷ rs) earlier seen h =
    ap₂ (λ x y. x ++ y) (visit-issues earlier r.index r.rule seen h)
      (repeats-nested rs (earlier ++ r ∷ []) _ (visit-Tracks earlier r.index r.rule seen h))

-- The pass with its maps reports the same repeated rules as the nested loop, in the same order:
-- for each simple rule, the first simple rule before it with its `type:value` key and its target,
-- and the first one before it with its key alone, if that has another target.
pub repeats-nested_loop :
    (rules : List IndexedRule)
    → repeats (record { per_group = []; first = [] }) rules ≡ nested_loop [] rules
repeats-nested_loop rules =
    repeats-nested rules [] _
      (unfold first_of lookup group_map in record { priors = λ t k. refl; firsts = λ k. refl })
