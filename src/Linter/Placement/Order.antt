-- ===== src/Linter/Placement/Order.antt =====
-- The suggested place in a list whose rules stand in the order of their categories.
use miharbor.Base.{
  ℕ, zero, suc, ◌+◌, ◌≤◌, ◌≡◌, refl, sym, ap, subst, ◌∙◌, ◌⊎◌, inl, inr, true, false, Option, none,
  some, List, [], ◌∷◌, length, ==_iff, Bool-cases, arith,
}
use miharbor.Base.Text.{Text}
use miharbor.Rules.{Rule}
use miharbor.Linter.Placement.{
  RuleCategory, ads, private, ru, services, match_all, priority, has_category, classify_rule,
  same_category_end, first_index, first_of_later, found_or, later_than, index_for,
  suggest_placement,
}

-- `rules.splice(k, 0, r)`
abbrev pub insert_at {ℓ} : {A : Type ℓ} → ℕ → A → List A → List A
insert_at zero x xs = x ∷ xs
insert_at (suc k) x [] = x ∷ []
insert_at (suc k) x (y ∷ ys) = y ∷ insert_at k x ys

module _ (lower : Text → Text) where
  abbrev place : Rule → ℕ
  place r = priority (classify_rule lower r)

  abbrev pub AtLeast : ℕ → List Rule → Type 0
  AtLeast v [] = Unit {0}
  AtLeast v (r ∷ rs) = (v ≤ place r) × AtLeast v rs

  -- The rules stand in the order of `categoryOrder`.
  abbrev pub InOrder : List Rule → Type 0
  InOrder [] = Unit {0}
  InOrder (r ∷ rs) = AtLeast (place r) rs × InOrder rs

  -- Before the index no place is after `n`, and from there on none before it.
  abbrev pub Fits : ℕ → ℕ → List Rule → Type 0
  Fits zero n rs = AtLeast n rs
  Fits (suc k) n [] = Unit {0}
  Fits (suc k) n (r ∷ rs) = (place r ≤ n) × Fits k n rs

  AtLeast-weaken : (v w : ℕ) (rs : List Rule) → v ≤ w → AtLeast w rs → AtLeast v rs
  AtLeast-weaken v w [] l h = tt
  AtLeast-weaken v w (r ∷ rs) l h = (omega (arith, l, h.0), AtLeast-weaken v w rs l h.1)

  insert-AtLeast :
      (v k : ℕ) (r : Rule) (rs : List Rule)
      → v ≤ place r
      → AtLeast v rs
      → AtLeast v (insert_at k r rs)
  insert-AtLeast v zero r rs l h = (l, h)
  insert-AtLeast v (suc k) r [] l h = (l, tt)
  insert-AtLeast v (suc k) r (s ∷ rs) l h = (h.0, insert-AtLeast v k r rs l h.1)

  insert-InOrder :
      (k : ℕ) (r : Rule) (rs : List Rule)
      → InOrder rs
      → Fits k (place r) rs
      → InOrder (insert_at k r rs)
  insert-InOrder zero r rs o f = (f, o)
  insert-InOrder (suc k) r [] o f = (tt, tt)
  insert-InOrder (suc k) r (s ∷ rs) o f =
      (insert-AtLeast (place s) k r rs f.0 o.0, insert-InOrder k r rs o.1 f.1)

  category_place :
      (c : RuleCategory) (r : Rule) → has_category lower c r ≡ true → place r ≡ priority c
  category_place c r h = (==_iff (place r) (priority c)).0 h

  -- Where a category ends in a list in order.
  end_from :
      (c : RuleCategory) (rs : List Rule) (i : ℕ) (end : Option ℕ)
      → InOrder rs
      → (same_category_end lower c rs i end ≡ end)
        ⊎ ((m : ℕ) × (same_category_end lower c rs i end ≡ some (i + m))
            × Fits m (priority c) rs
            × ((v : ℕ) → AtLeast v rs → v ≤ priority c))
  unfolding same_category_end
  end_from c [] i end o = inl refl
  end_from c (r ∷ rs) i end o = elim (Bool-cases (has_category lower c r)) [
    | inl e ↦ rw e (elim (end_from c rs (i + 1) (some (i + 1)) o.1) [
      | inl last ↦ inr (
        1,
        last,
        (omega (arith, category_place c r e), subst (λ n. AtLeast n rs) (category_place c r e) o.0),
        λ v h. subst (λ n. v ≤ n) (category_place c r e) h.0,
      )
      | inr (m, more, fits, bound) ↦
          inr (suc m, more ∙ ap some (omega arith), (bound (place r) o.0, fits), λ v h. bound v h.1)
    ])
    | inr e ↦ rw e (elim (end_from c rs (i + 1) end o.1) [
      | inl last ↦ inl last
      | inr (m, more, fits, bound) ↦
          inr (suc m, more ∙ ap some (omega arith), (bound (place r) o.0, fits), λ v h. bound v h.1)
    ])
  ]

  Gap : ℕ → ℕ → List Rule → Type 0
  Gap n g [] = Unit {0}
  Gap n g (r ∷ rs) = ((place r ≤ n) ⊎ (g ≤ place r)) × Gap n g rs

  outside_step :
      (n : ℕ) (d : RuleCategory) (r : Rule)
      → has_category lower d r ≡ false
      → (place r ≤ n) ⊎ (priority d ≤ place r)
      → (place r ≤ n) ⊎ (priority d + 1 ≤ place r)
  outside_step n d r e h = ground (arith, e, h, ==_iff (place r) (priority d))

  below :
      (n : ℕ) (d : RuleCategory) (r : Rule)
      → has_category lower d r ≡ false
      → (place r ≤ n) ⊎ (priority d ≤ place r)
      → place r ≤ priority d
      → place r ≤ n
  below n d r e h l = ground (arith, e, h, l, ==_iff (place r) (priority d))

  -- The first rule of a category stands where a rule may go that belongs before that category.
  first_from :
      (n : ℕ) (d : RuleCategory) (rs : List Rule) (j : ℕ)
      → n ≤ priority d
      → InOrder rs
      → Gap n (priority d) rs
      → ((first_index lower d rs j ≡ none) × Gap n (priority d + 1) rs)
        ⊎ ((m : ℕ) × (first_index lower d rs j ≡ some (j + m))
            × Fits m n rs
            × ((v : ℕ) → AtLeast v rs → v ≤ priority d))
  unfolding first_index Gap
  first_from n d [] j l o g = inl (refl, tt)
  first_from n d (r ∷ rs) j l o g = elim (Bool-cases (has_category lower d r)) [
    | inl e ↦ rw e (
        inr (
          0,
          ap some (omega arith),
          (
            omega (arith, category_place d r e, l),
            subst (λ w. AtLeast n rs) (category_place d r e)
                (AtLeast-weaken n (place r) rs (omega (arith, category_place d r e, l)) o.0),
          ),
          λ v h. subst (λ w. v ≤ w) (category_place d r e) h.0,
        ))
    | inr e ↦ rw e (elim (first_from n d rs (j + 1) l o.1 g.1) [
      | inl (missing, g') ↦ inl (missing, (outside_step n d r e g.0, g'))
      | inr (m, at, fits, bound) ↦ inr (
        suc m,
        at ∙ ap some (omega arith),
        (below n d r e g.0 (bound (place r) o.0), fits),
        λ v h. bound v h.1,
      )
    ])
  ]

  -- Categories in a row from the priority `g` on.
  Chain : ℕ → List RuleCategory → Type 0
  Chain g [] = g ≡ 5
  Chain g (c ∷ cs) = (priority c ≡ g) × Chain (g + 1) cs

  place_bound : (c : RuleCategory) → priority c ≤ 4
  place_bound ads = omega arith
  place_bound private = omega arith
  place_bound ru = omega arith
  place_bound services = omega arith
  place_bound match_all = omega arith

  Fits-end : (n : ℕ) (rs : List Rule) → Gap n 5 rs → Fits (length rs) n rs
  unfolding Gap
  Fits-end n [] g = tt
  Fits-end n (r ∷ rs) g =
      (ground (arith, g.0, place_bound (classify_rule lower r)), Fits-end n rs g.1)

  later-Fits :
      (n g : ℕ) (cs : List RuleCategory) (rs : List Rule)
      → n ≤ g
      → Chain g cs
      → InOrder rs
      → Gap n g rs
      → Fits (first_of_later lower cs rs) n rs
  unfolding first_of_later Chain
  later-Fits n g [] rs l c o h = Fits-end n rs (subst (λ w. Gap n w rs) c h)
  later-Fits n g (d ∷ cs) rs l c o h =
      elim (first_from n d rs 0 (omega (arith, c.0, l)) o (subst (λ w. Gap n w rs) (sym c.0) h)) [
        | inl (missing, h') ↦ at_found {o' = none} (sym missing) (
            later-Fits n (g + 1) cs rs (omega (arith, l)) c.1 o
              (subst (λ w. Gap n (w + 1) rs) c.0 h'))
        | inr (m, at, fits, bound) ↦ at_found {o' = some m} (sym (at ∙ ap some (omega arith))) fits
      ]
    where
      at_found :
          {o o' : Option ℕ}
          → o' ≡ o
          → Fits (found_or lower o' (first_of_later lower cs rs)) n rs
          → Fits (found_or lower o (first_of_later lower cs rs)) n rs
      at_found e f = subst (λ u. Fits (found_or lower u (first_of_later lower cs rs)) n rs) e f

  Gap-trivial : (n : ℕ) (rs : List Rule) → Gap n (n + 1) rs
  unfolding Gap
  Gap-trivial n [] = tt
  Gap-trivial n (r ∷ rs) = (ground arith, Gap-trivial n rs)

  later-Chain : (c : RuleCategory) → Chain (priority c + 1) (later_than lower c)
  unfolding Chain
  later-Chain ads = (refl, (refl, (refl, (refl, refl))))
  later-Chain private = (refl, (refl, (refl, refl)))
  later-Chain ru = (refl, (refl, refl))
  later-Chain services = (refl, refl)
  later-Chain match_all = refl

  index-Fits :
      (c : RuleCategory) (rs : List Rule)
      → InOrder rs
      → Fits (index_for lower c (same_category_end lower c rs 0 none) rs) (priority c) rs
  index-Fits c rs o = elim (end_from c rs 0 none o) [
    | inl absent ↦ rw absent (
        later-Fits (priority c) (priority c + 1) (later_than lower c) rs (omega arith)
          (later-Chain c) o (Gap-trivial (priority c) rs))
    | inr (m, at, fits, bound) ↦
        subst (λ o. Fits (index_for lower c o rs) (priority c) rs)
          (sym (at ∙ ap some (omega arith))) fits
  ]

  -- Where the rules stand in the order of their categories, they still do with the new rule
  -- inserted at the suggested index.
  pub suggest_placement-InOrder :
      (r : Rule) (rs : List Rule)
      → InOrder rs
      → InOrder (insert_at (suggest_placement lower r rs).index r rs)
  unfolding suggest_placement
  suggest_placement-InOrder r [] o = (tt, tt)
  suggest_placement-InOrder r (s ∷ rs) o =
      insert-InOrder _ r (s ∷ rs) o (index-Fits (classify_rule lower r) (s ∷ rs) o)
