-- ===== src/Linter/Unreachable/Suffixes.antt =====
-- The first position in a list at which a test holds, and what the trie says of it.
use mathlib.Core.List.{reverse, reverse-cons}
use miharbor.Base.{
  ℕ, ◌+◌, ◌≤◌, ◌≡◌, refl, ◌∙◌, ap, Bool, true, false, ◌&&◌, Option, none, some, List, [], ◌∷◌, ◌++◌,
  if◌then◌else◌, ◌==◌, arith, length, Bool-cases, Option-cases, ◌⊎◌, inl, inr,
}
use miharbor.Base.Text.{Text, text_eq, starts_with}
use miharbor.Base.Affixes.{starts_with-reverse}
use miharbor.Rules.{Rule, simple, logical, match, IndexedRule}
use miharbor.Linter.Unreachable.{domain_suffix}
use miharbor.Linter.Unreachable.Trie.{min_pos, dot}
use miharbor.Linter.Unreachable.Reference.{suffix_shadows}
use miharbor.Linter.Unreachable.Nearest.{nearest, nearest-congr, nearest-claimed, or_else}

unfoldable pub first_pos : (Rule → Bool) → List IndexedRule → ℕ → Option ℕ
first_pos P [] n = none
first_pos P (r ∷ rs) n = if P r.rule then some n else first_pos P rs (n + 1)

pub first_pos-append :
    (P : Rule → Bool) (rs : List IndexedRule) (r : IndexedRule) (n : ℕ)
    → first_pos P (rs ++ r ∷ []) n
      ≡ or_else (first_pos P rs n) (if P r.rule then some (n + length rs) else none)
unfolding first_pos
first_pos-append P [] r n = ground (arith, Bool-cases (P r.rule))
first_pos-append P (q ∷ rs) r n = elim (Bool-cases (P q.rule)) [
  | inl e ↦ rw e
  | inr e ↦ rw e (
      first_pos-append P rs r (n + 1)
      ∙ ap (λ k. or_else (first_pos P rs (n + 1)) (if P r.rule then some k else none))
          (omega arith))
]

pub first_pos-ge :
    (P : Rule → Bool) (rs : List IndexedRule) (n k : ℕ) → first_pos P rs n ≡ some k → n ≤ k
unfolding first_pos
first_pos-ge P [] n k h = absurd (cc h)
first_pos-ge P (q ∷ rs) n k h = ground (arith, first_pos-ge P rs (n + 1) k, Bool-cases (P q.rule))

pub first_pos-none :
    (P : Rule → Bool) (rs : List IndexedRule) (n : ℕ)
    → ((r : Rule) → P r ≡ false)
    → first_pos P rs n ≡ none
unfolding first_pos
first_pos-none P [] n h = refl
first_pos-none P (q ∷ rs) n h = rw (h q.rule) (first_pos-none P rs (n + 1) h)

abbrev pub nonempty : Text → Bool
nonempty [] = false
nonempty (c ∷ v) = true

-- The value that a rule has in the trie.
unfoldable pub suffix_value : Rule → Option Text
suffix_value (simple s) =
    if text_eq s.type domain_suffix && nonempty s.value then some s.value else none
suffix_value (logical op cs t) = none
suffix_value (match t) = none

unfoldable pub stored : Text → Rule → Bool
stored p r = elim (suffix_value r) [ none ↦ false | some v ↦ text_eq (reverse v) p ]

unfoldable pub covers : Text → Rule → Bool
covers later r = elim (suffix_value r) [ none ↦ false | some v ↦ suffix_shadows v later ]

min_pos-first :
    (P : Rule → Bool) (rs : List IndexedRule) (n : ℕ)
    → min_pos (some n) (first_pos P rs (n + 1)) ≡ some n
unfolding min_pos
min_pos-first P rs n = elim (Option-cases (first_pos P rs (n + 1))) [
  | inl e ↦ rw e
  | inr (k, e) ↦ rw e (ground (arith, first_pos-ge P rs (n + 1) k e))
]

starts_with-suffix_shadows :
    (v later : Text)
    → nonempty v ≡ true
    → starts_with (reverse v ++ dot ∷ []) (reverse later) ≡ suffix_shadows v later
unfolding suffix_shadows
starts_with-suffix_shadows [] later h = absurd (cc h)
starts_with-suffix_shadows (c ∷ v) later h =
    rw (← reverse-cons dot (c ∷ v)) (starts_with-reverse (dot ∷ c ∷ v) later)

nearest-none : (s : Text) → nearest s (λ p. none) none ≡ none
unfolding nearest min_pos
nearest-none [] = refl
nearest-none (c ∷ s) = elim (Bool-cases (c == dot)) [
  | inl e ↦ rw e (nearest-none s)
  | inr e ↦ rw e (nearest-none s)
]

suffix_value-nonempty : (r : Rule) (v : Text) → suffix_value r ≡ some v → nonempty v ≡ true
unfolding suffix_value
suffix_value-nonempty (simple s) v h = ground arith
suffix_value-nonempty (logical op cs t) v h = absurd (cc h)
suffix_value-nonempty (match t) v h = absurd (cc h)

-- One more stored value, at the front.
nearest-stored_cons :
    (s v : Text) (P : Rule → Bool) (done : List IndexedRule) (n : ℕ) (f : Text → Option ℕ)
    → ((p : Text) → min_pos (some n) (f p) ≡ some n)
    → nearest s f none ≡ first_pos P done (n + 1)
    → nearest s (λ p. if text_eq (reverse v) p then some n else f p) none
      ≡ (if starts_with (reverse v ++ dot ∷ []) s then some n else first_pos P done (n + 1))
nearest-stored_cons s v P done n f low ih =
    nearest-congr s _ _ none (λ p. ground (arith, low p))
    ∙ nearest-claimed s (reverse v) f none n
    ∙ ground (arith, ih, min_pos-first P done n)

-- A walk over the reversed value, in a trie that holds the suffix rules of a list, finds the first
-- of them that covers the value.
pub nearest-stored :
    (later : Text) (done : List IndexedRule) (n : ℕ)
    → nearest (reverse later) (λ p. first_pos (stored p) done n) none
      ≡ first_pos (covers later) done n
unfolding first_pos stored covers
nearest-stored later [] n = nearest-none (reverse later)
nearest-stored later (r ∷ done) n = elim (Option-cases (suffix_value r.rule)) [
  | inl e ↦ rw (e, stored, covers) (nearest-stored later done (n + 1))
  | inr (v, e) ↦
      rw
        (e, stored, covers, ← starts_with-suffix_shadows v later (suffix_value-nonempty r.rule v e))
        (nearest-stored_cons (reverse later) v (covers later) done n
          (λ p. first_pos (stored p) done (n + 1)) (λ p. min_pos-first (stored p) done n)
          (nearest-stored later done (n + 1)))
]

pub first_pos-cases :
    (P : Rule → Bool) (rs : List IndexedRule) (n : ℕ)
    → (first_pos P rs n ≡ none) ⊎ ((k : ℕ) × (first_pos P rs n ≡ some k) × (n ≤ k))
first_pos-cases P rs n = elim (Option-cases (first_pos P rs n)) [
  | inl e ↦ inl e
  | inr (k, e) ↦ inr (k, e, first_pos-ge P rs n k e)
]
