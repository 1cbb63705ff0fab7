-- ===== src/Linter/Placement/Bounds.antt =====
-- The suggested index of linter/placement.ts beside the length of the list.
use miharbor.Base.{
  ℕ, ◌+◌, ◌≤◌, Option, none, some, List, [], ◌∷◌, length, Bool-cases, arith, inl, inr,
}
use miharbor.Base.Text.{Text}
use miharbor.Rules.{Rule}
use miharbor.Linter.Placement.{
  RuleCategory, has_category, classify_rule, same_category_end, first_index, first_of_later,
  found_or, later_than, index_for, suggest_placement,
}

module _ (lower : Text → Text) where
  abbrev AtMost : ℕ → Option ℕ → Type 0
  AtMost n none = Unit {0}
  AtMost n (some k) = k ≤ n

  end-AtMost :
      (c : RuleCategory) (rs : List Rule) (i n : ℕ) (end : Option ℕ)
      → i + length rs ≤ n
      → AtMost n end
      → AtMost n (same_category_end lower c rs i end)
  unfolding same_category_end
  end-AtMost c [] i n end l h = h
  end-AtMost c (r ∷ rs) i n end l h = elim (Bool-cases (has_category lower c r)) [
    | inl e ↦ rw e (end-AtMost c rs (i + 1) n (some (i + 1)) (omega (arith, l)) (omega (arith, l)))
    | inr e ↦ rw e (end-AtMost c rs (i + 1) n end (omega (arith, l)) h)
  ]

  first_index-AtMost :
      (c : RuleCategory) (rs : List Rule) (j n : ℕ)
      → j + length rs ≤ n
      → AtMost n (first_index lower c rs j)
  unfolding first_index
  first_index-AtMost c [] j n l = tt
  first_index-AtMost c (r ∷ rs) j n l = elim (Bool-cases (has_category lower c r)) [
    | inl e ↦ rw e (omega (arith, l))
    | inr e ↦ rw e (first_index-AtMost c rs (j + 1) n (omega (arith, l)))
  ]

  found_or-le : (n : ℕ) (o : Option ℕ) (k : ℕ) → AtMost n o → k ≤ n → found_or lower o k ≤ n
  found_or-le n none k h l = l
  found_or-le n (some j) k h l = h

  first_of_later-le :
      (cs : List RuleCategory) (rs : List Rule) → first_of_later lower cs rs ≤ length rs
  unfolding first_of_later
  first_of_later-le [] rs = omega arith
  first_of_later-le (c ∷ cs) rs =
      found_or-le (length rs) (first_index lower c rs 0) (first_of_later lower cs rs)
        (first_index-AtMost c rs 0 (length rs) (omega arith)) (first_of_later-le cs rs)

  index_for-le :
      (c : RuleCategory) (o : Option ℕ) (rs : List Rule)
      → AtMost (length rs) o
      → index_for lower c o rs ≤ length rs
  index_for-le c none rs h = first_of_later-le (later_than lower c) rs
  index_for-le c (some k) rs h = h

  -- For any rules, in whatever order, the suggested index is at most their number.
  pub suggest_placement-le :
      (r : Rule) (rs : List Rule) → (suggest_placement lower r rs).index ≤ length rs
  unfolding suggest_placement
  suggest_placement-le r [] = omega arith
  suggest_placement-le r (s ∷ rs) =
      index_for-le (classify_rule lower r) _ (s ∷ rs)
        (end-AtMost (classify_rule lower r) (s ∷ rs) 0 _ none (omega arith) tt)
