-- ===== src/Linter/Unreachable/Step.antt =====
-- What one round of the loop of linter/unreachable.ts finds and records, index by index.
use mathlib.Core.List.{reverse}
use miharbor.Base.{
  ℕ, ◌≡◌, refl, sym, Bool, true, false, ◌&&◌, none, some, List, [], ◌∷◌, ◌++◌, if◌then◌else◌, arith,
  Option-cases,
}
use miharbor.Base.Text.{Text, text_eq}
use miharbor.Rules.{Rule, simple, logical, match, SimpleRule}
use miharbor.Linter.Unreachable.{Keyword, domain_suffix, domain_keyword, keyword_shadow}
use miharbor.Linter.Unreachable.Trie.{Node, suffix_shadow_lookup_and_insert}
use miharbor.Linter.Unreachable.Reference.{suffix_shadows, keyword_shadows, shadows}
use miharbor.Linter.Unreachable.Nearest.{end_at, end_at-walk, walk-nearest, nearest, or_else}
use miharbor.Linter.Unreachable.Suffixes.{stored, covers, suffix_value, nonempty}

unfoldable pub is_keyword : Text → Rule → Bool
is_keyword later (simple a) = text_eq a.type domain_keyword && keyword_shadows a.value later
is_keyword later (logical op cs t) = false
is_keyword later (match t) = false

pub found-nearest :
    (n : Node) (v : Text) (i : ℕ)
    → (suffix_shadow_lookup_and_insert n v i).1 ≡ nearest (reverse v) (λ p. end_at p n) none
unfolding suffix_shadow_lookup_and_insert nearest
found-nearest n [] i = refl
found-nearest n (c ∷ v) i = walk-nearest (reverse (c ∷ v)) i none n

pub end_at-inserted :
    (n : Node) (v p : Text) (i : ℕ)
    → end_at p (suffix_shadow_lookup_and_insert n v i).0
      ≡ or_else (end_at p n) (if nonempty v && text_eq (reverse v) p then some i else none)
unfolding suffix_shadow_lookup_and_insert
end_at-inserted n [] p i = ground (arith, Option-cases (end_at p n))
end_at-inserted n (c ∷ v) p i = end_at-walk (reverse (c ∷ v)) p i none n

pub stored-simple :
    (p : Text) (s : SimpleRule)
    → stored p (simple s)
      ≡ (text_eq s.type domain_suffix && (nonempty s.value && text_eq (reverse s.value) p))
unfolding stored suffix_value
stored-simple p s = parts (text_eq s.type domain_suffix) s.value
  where
    parts :
        (t : Bool) (v : Text)
        → (elim (if t && nonempty v then some v else none) [
          | none ↦ false
          | some v ↦ text_eq (reverse v) p
        ])
          ≡ (t && (nonempty v && text_eq (reverse v) p))
    parts true [] = refl
    parts true (c ∷ v) = refl
    parts false [] = refl
    parts false (c ∷ v) = refl

pub covers-simple :
    (later : Text) (s : SimpleRule)
    → covers later (simple s) ≡ (text_eq s.type domain_suffix && suffix_shadows s.value later)
unfolding covers suffix_value suffix_shadows
covers-simple later s = parts (text_eq s.type domain_suffix) s.value
  where
    parts :
        (t : Bool) (v : Text)
        → (elim (if t && nonempty v then some v else none) [
          | none ↦ false
          | some v ↦ suffix_shadows v later
        ])
          ≡ (t && suffix_shadows v later)
    parts true [] = refl
    parts true (c ∷ v) = refl
    parts false [] = refl
    parts false (c ∷ v) = refl

-- The indexes stand for the reference's test, by the type of the later rule.
pub shadows-suffix :
    (s : SimpleRule)
    → text_eq s.type domain_suffix ≡ true
    → (r : Rule) → shadows r (simple s) ≡ covers s.value r
unfolding shadows covers suffix_value
shadows-suffix s h (simple a) = rw h (sym (covers-simple s.value a))
shadows-suffix s h (logical op cs t) = refl
shadows-suffix s h (match t) = refl

pub shadows-keyword :
    (s : SimpleRule)
    → text_eq s.type domain_suffix ≡ false
    → text_eq s.type domain_keyword ≡ true
    → (r : Rule) → shadows r (simple s) ≡ is_keyword s.value r
unfolding shadows is_keyword
shadows-keyword s h k (simple a) = rw (h, k)
shadows-keyword s h k (logical op cs t) = refl
shadows-keyword s h k (match t) = refl

pub shadows-other :
    (s : SimpleRule)
    → text_eq s.type domain_suffix ≡ false
    → text_eq s.type domain_keyword ≡ false
    → (r : Rule) → shadows r (simple s) ≡ false
unfolding shadows
shadows-other s h k (simple a) = rw (h, k)
shadows-other s h k (logical op cs t) = refl
shadows-other s h k (match t) = refl

pub keyword_shadow-append :
    (v w : Text) (kws : List Keyword) (i : ℕ)
    → keyword_shadow v (kws ++ record { value = w; pos = i } ∷ [])
      ≡ or_else (keyword_shadow v kws) (if keyword_shadows w v then some i else none)
unfolding keyword_shadow keyword_shadows
keyword_shadow-append v w [] i = ground arith
keyword_shadow-append v w (kw ∷ kws) i = ground (arith, keyword_shadow-append v w kws i)
