-- ===== src/Base/Affixes.antt =====
-- `startsWith` and `endsWith` as statements on how a text is put together.
use mathlib.Core.List.{reverse, reverse-append, reverse-reverse}
use mathlib.Core.Path.{◌≡◌, refl, sym, ap, ◌∙◌}
use mathlib.Core.Logic.{inl, inr}
use mathlib.Core.Bool.{Bool, true, false}
use mathlib.Core.List.{[], ◌∷◌, ◌++◌}
use native.Mathlib.Omega.{arith}
use miharbor.Base.Tests.{Bool-cases, ◌==◌, ==_iff, &&_parts}
use miharbor.Base.Text.{Text, text_eq, text_eq_iff, text_eq_refl, starts_with, ends_with}

pub starts_with-append : (t r : Text) → starts_with t (t ++ r) ≡ true
unfolding starts_with
starts_with-append [] r = refl
starts_with-append (c ∷ t) r = ground (arith, starts_with-append t r)

pub split_of_starts_with : (t s : Text) → starts_with t s ≡ true → (r : Text) × (s ≡ t ++ r)
unfolding starts_with
split_of_starts_with [] s h = (s, refl)
split_of_starts_with (c ∷ t) [] h = cc
split_of_starts_with (c ∷ t) (d ∷ s) h =
    let (same, rest) = &&_parts (c == d) (starts_with t s) h in
    let (r, e) = split_of_starts_with t s rest in (r, cc ((==_iff c d).0 same))

pub ends_with-append : (r t : Text) → ends_with t (r ++ t) ≡ true
unfolding ends_with
ends_with-append [] [] = text_eq_refl []
ends_with-append [] (c ∷ t) = ground (arith, text_eq_refl (c ∷ t))
ends_with-append (d ∷ r) t =
    ground (arith, ends_with-append r t, Bool-cases (text_eq t (d ∷ r ++ t)))

pub split_of_ends_with : (t s : Text) → ends_with t s ≡ true → (r : Text) × (s ≡ r ++ t)
unfolding ends_with
split_of_ends_with t [] h = ([], sym ((text_eq_iff t []).0 h))
split_of_ends_with t (d ∷ s) h = elim (Bool-cases (text_eq t (d ∷ s))) [
  | inl e ↦ ([], sym ((text_eq_iff t (d ∷ s)).0 e))
  | inr e ↦ let (r, p) = split_of_ends_with t s (ground (arith, e)) in (d ∷ r, ap (◌∷◌ d) p)
]

eq_of_iff : (a b : Bool) → (a ≡ true → b ≡ true) → (b ≡ true → a ≡ true) → a ≡ b
eq_of_iff true b f g = sym (f refl)
eq_of_iff false true f g = g refl
eq_of_iff false false f g = refl

-- A text ends with `t` exactly when, read backwards, it starts with `t` read backwards.
pub starts_with-reverse : (t s : Text) → starts_with (reverse t) (reverse s) ≡ ends_with t s
starts_with-reverse t s = eq_of_iff _ _ forth back
  where
    forth : starts_with (reverse t) (reverse s) ≡ true → ends_with t s ≡ true
    forth h =
        let (r, e) = split_of_starts_with (reverse t) (reverse s) h in
        let whole : s ≡ reverse r ++ t =
          sym (reverse-reverse s)
          ∙ ap reverse e
          ∙ reverse-append (reverse t) r
          ∙ ap (◌++◌ (reverse r)) (reverse-reverse t) in
        rw whole (ends_with-append (reverse r) t)

    back : ends_with t s ≡ true → starts_with (reverse t) (reverse s) ≡ true
    back h =
        let (r, e) = split_of_ends_with t s h in
        rw (e, reverse-append r t) (starts_with-append (reverse t) (reverse r))
