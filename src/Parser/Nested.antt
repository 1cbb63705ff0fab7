-- ===== src/Parser/Nested.antt =====
-- The scans of the rule parser over the texts between brackets.
use miharbor.Base.{
  ℕ, suc, ◌-◌, ◌≡◌, refl, ap, Bool, true, false, ◌&&◌, not, Option, none, some, [], ◌∷◌, ◌++◌,
  arith, ◌==◌, All,
}
use mathlib.Core.List.{append_assoc, append-nil}
use miharbor.Base.Text.{Text, text}
use miharbor.Parser.Scan.{
  at, Groups, begun, continued, groups_from, split_children, continued_first, close_from,
  matching_close, comma, open_bracket, close_bracket,
}

-- What a scan gives, with a text put in front of the part under way.
abbrev after_text : Text → Option (Text × Text) → Option (Text × Text)
after_text s none = none
after_text s (some (u, t)) = some (s ++ u, t)

abbrev after_group : Text → Groups → Groups
after_group s (none, gs) = (none, gs)
after_group s (some g, gs) = (some (s ++ g), gs)

after_text-cons :
    (c : ℕ) (s : Text) (o : Option (Text × Text))
    → continued_first c (after_text s o) ≡ after_text (c ∷ s) o
after_text-cons c s none = refl
after_text-cons c s (some p) = refl

after_text-append :
    (s u : Text) (o : Option (Text × Text)) → after_text s (after_text u o) ≡ after_text (s ++ u) o
after_text-append s u none = refl
after_text-append s u (some (v, t)) = rw append_assoc

after_text-nil : (o : Option (Text × Text)) → o ≡ after_text [] o
after_text-nil none = refl
after_text-nil (some p) = refl

after_group-cons :
    (c : ℕ) (s : Text) (p : Groups) → continued c (after_group s p) ≡ after_group (c ∷ s) p
after_group-cons c s (none, gs) = refl
after_group-cons c s (some g, gs) = refl

after_group-append :
    (s u : Text) (p : Groups) → after_group s (after_group u p) ≡ after_group (s ++ u) p
after_group-append s u (none, gs) = refl
after_group-append s u (some g, gs) = rw append_assoc

after_group-nil : (p : Groups) → p ≡ after_group [] p
after_group-nil (none, gs) = refl
after_group-nil (some g, gs) = refl

-- Inside brackets, the scans pass over the text.
pub record Nested (s : Text) : Type 0 where
  pub closes : (n : ℕ) (t : Text) → close_from n (s ++ t) ≡ after_text s (close_from n t)
  pub groups :
      (n : ℕ) (t : Text)
      → groups_from true (at (suc n)) (s ++ t) ≡ after_group s (groups_from true (at (suc n)) t)

pub nil-Nested : Nested []
nil-Nested = record {
  closes = λ n t. after_text-nil (close_from n t);
  groups = λ n t. after_group-nil (groups_from true (at (suc n)) t);
}

pub append-Nested : (s u : Text) → Nested s → Nested u → Nested (s ++ u)
append-Nested s u hs hu = record {
  closes = λ n t.
      rw (append_assoc, hs.closes n (u ++ t), hu.closes n t)
        (after_text-append s u (close_from n t));
  groups = λ n t.
      rw (append_assoc, hs.groups n (u ++ t), hu.groups n t)
        (after_group-append s u (groups_from true (at (suc n)) t));
}

abbrev pub no_bracket : ℕ → Bool
no_bracket c = not (c == open_bracket) && not (c == close_bracket)

cons-Nested : (c : ℕ) (s : Text) → no_bracket c ≡ true → Nested s → Nested (c ∷ s)
unfolding close_from groups_from
cons-Nested c s h hs =
    let (o, k) = no_brackets (c == open_bracket) (c == close_bracket) h in
    record {
      closes = λ n t. rw (o, k, hs.closes n t) (after_text-cons c s (close_from n t));
      groups =
          λ n t. rw (o, k, hs.groups n t) (after_group-cons c s (groups_from true (at (suc n)) t));
    }
  where
    no_brackets : (a b : Bool) → (not a && not b) ≡ true → (a ≡ false) × (b ≡ false)
    no_brackets true b h = cc h
    no_brackets false true h = cc h
    no_brackets false false h = (refl, refl)

pub chars-Nested : (s : Text) → All (λ c. no_bracket c ≡ true) s → Nested s
chars-Nested [] h = nil-Nested
chars-Nested (c ∷ s) (h, hs) = cons-Nested c s h (chars-Nested s hs)

close_from-close :
    (n : ℕ) (t : Text)
    → close_from (suc n) (close_bracket ∷ t) ≡ continued_first close_bracket (close_from n t)
unfolding close_from
close_from-close n t = rw (not_zero n, pred n) refl
  where
    not_zero : (n : ℕ) → (suc n == 0) ≡ false
    not_zero n = ground arith

    pred : (n : ℕ) → suc n - 1 ≡ n
    pred n = omega arith

pub group-Nested : (s : Text) → Nested s → Nested (text "(" ++ (s ++ text ")"))
unfolding close_from groups_from
group-Nested s hs = record {
  closes = λ n t.
      rw (append_assoc, hs.closes (suc n) (text ")" ++ t), close_from-close)
        (wrapped (close_from n t));
  groups = λ n t.
      rw (append_assoc, hs.groups (suc n) (text ")" ++ t))
        (wrapped_group (groups_from true (at (suc n)) t));
}
  where
    wrapped :
        (o : Option (Text × Text))
        → continued_first open_bracket (after_text s (continued_first close_bracket o))
          ≡ after_text (text "(" ++ (s ++ text ")")) o
    wrapped none = refl
    wrapped (some p) = simp append_assoc

    wrapped_group :
        (p : Groups)
        → continued open_bracket (after_group s (continued close_bracket p))
          ≡ after_group (text "(" ++ (s ++ text ")")) p
    wrapped_group (none, gs) = refl
    wrapped_group (some g, gs) = simp append_assoc

-- The group that a text opens with.
pub matching_close-group :
    (s t : Text) → Nested s → matching_close (open_bracket ∷ (s ++ close_bracket ∷ t)) ≡ some (s, t)
unfolding matching_close close_from
matching_close-group s t hs = rw (hs.closes 0 (close_bracket ∷ t), append-nil)

pub split_children-group :
    (s t : Text)
    → Nested s
    → split_children (open_bracket ∷ (s ++ close_bracket ∷ t))
      ≡ (open_bracket ∷ (s ++ close_bracket ∷ [])) ∷ split_children t
unfolding split_children groups_from
split_children-group s t hs = ap (λ p. (begun open_bracket p).1) (hs.groups 0 (close_bracket ∷ t))

pub split_children-comma : (t : Text) → split_children (comma ∷ t) ≡ split_children t
unfolding split_children groups_from
split_children-comma t = later (groups_from false (at 0) t)
  where
    later : (p : Groups) → (continued comma p).1 ≡ p.1
    later (none, gs) = refl
    later (some g, gs) = refl
