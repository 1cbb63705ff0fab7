-- ===== src/Parser/Fields.antt =====
-- Texts between commas in a rule, and the rules whose texts hold no comma, bracket or outer space.
use miharbor.Base.{
  ℕ, ◌≡◌, refl, ap, ◌∙◌, ◌≢◌, Bool, true, false, ◌&&◌, not, Option, none, some, List, [], ◌∷◌, ◌++◌,
  map, ◌==◌, All,
}
use mathlib.Core.List.{append-nil}
use miharbor.Base.Text.{Text, text}
use miharbor.Base.Trim.{Trimmed, trim, trim-Trimmed, trim_end, trim_end-append}
use miharbor.Rules.{Rule, Children, simple, logical, match, nil, cons}
use miharbor.Parser.{with_commas, modifiers_text, some_modifiers, op_of}
use miharbor.Parser.Scan.{
  at, parts_from, split_top_level, before_comma, comma, open_bracket, close_bracket,
}
use miharbor.Parser.Nested.{Nested, no_bracket, chars-Nested, append-Nested}

abbrev pub is_plain : ℕ → Bool
is_plain c = no_bracket c && not (c == comma)

-- A text without comma, bracket and outer space.
pub record Field (t : Text) : Type 0 where
  pub trimmed : Trimmed t
  pub plain : All (λ c. is_plain c ≡ true) t

-- Absent, or a list that is not empty.
abbrev pub Modifiers : Option (List Text) → Type 0
Modifiers none = Unit
Modifiers (some []) = ⊥
Modifiers (some (m ∷ ms)) = All Field (m ∷ ms)

abbrev pub modifier_list : Option (List Text) → List Text
modifier_list none = []
modifier_list (some ms) = ms

unfoldable mutual
  -- A nested rule: without a target, and no MATCH.
  pub IsChild : Rule → Type 0
  IsChild (match target) = ⊥
  IsChild (simple s) =
      Field s.type × (op_of s.type ≡ none) × Field s.value × (s.target ≡ []) × Modifiers s.modifiers
  IsChild (logical op children target) = IsChildren children × (target ≡ [])

  pub IsChildren : Children → Type 0
  IsChildren nil = Unit
  IsChildren (cons r rs) = IsChild r × IsChildren rs

abbrev pub IsRule : Rule → Type 0
IsRule (match target) = Trimmed target
IsRule (simple s) =
    Field s.type
    × (op_of s.type ≡ none)
    × (s.type ≢ text "MATCH")
    × Field s.value
    × Field s.target
    × Modifiers s.modifiers
IsRule (logical op children target) = IsChildren children × Trimmed target

plain_parts : (c : ℕ) → is_plain c ≡ true → (no_bracket c ≡ true) × ((c == comma) ≡ false)
plain_parts c h = parts (no_bracket c) (c == comma) h
  where
    parts : (a b : Bool) → (a && not b) ≡ true → (a ≡ true) × (b ≡ false)
    parts true true h = cc h
    parts true false h = (refl, refl)
    parts false b h = cc h

plain_tests :
    (c : ℕ)
    → is_plain c ≡ true
    → ((c == open_bracket) ≡ false) × ((c == close_bracket) ≡ false) × ((c == comma) ≡ false)
plain_tests c h = parts (c == open_bracket) (c == close_bracket) (c == comma) h
  where
    parts :
        (a b d : Bool)
        → ((not a && not b) && not d) ≡ true
        → (a ≡ false) × (b ≡ false) × (d ≡ false)
    parts true b d h = cc h
    parts false true d h = cc h
    parts false false true h = cc h
    parts false false false h = (refl, refl, refl)

abbrev Plain : Text → Type 0
Plain t = All (λ c. is_plain c ≡ true) t

pub before_comma-Plain : (t u : Text) → Plain t → before_comma (t ++ comma ∷ u) ≡ some (t, u)
unfolding before_comma
before_comma-Plain [] u h = refl
before_comma-Plain (c ∷ t) u (h, hs) = rw ((plain_tests c h).2, before_comma-Plain t u hs)

parts_from-Plain : (t : Text) → Plain t → parts_from (at 0) t ≡ t ∷ []
unfolding parts_from
parts_from-Plain [] h = refl
parts_from-Plain (c ∷ t) (h, hs) =
    let (o, k, e) = plain_tests c h in rw (o, k, e, parts_from-Plain t hs)

parts_from-comma :
    (t u : Text) → Plain t → parts_from (at 0) (t ++ comma ∷ u) ≡ t ∷ parts_from (at 0) u
unfolding parts_from
parts_from-comma [] u h = refl
parts_from-comma (c ∷ t) u (h, hs) =
    let (o, k, e) = plain_tests c h in rw (o, k, e, parts_from-comma t u hs)

parts_from-with_commas :
    (t : Text) (ms : List Text)
    → Plain t
    → All Field ms
    → parts_from (at 0) (t ++ with_commas ms) ≡ t ∷ ms
parts_from-with_commas t [] h hs = rw (append-nil, parts_from-Plain t h)
parts_from-with_commas t (m ∷ ms) h (hm, hs) =
    parts_from-comma t _ h ∙ ap (λ ps. t ∷ ps) (parts_from-with_commas m ms hm.plain hs)

map-trim-fields : (ms : List Text) → All Field ms → map trim ms ≡ ms
map-trim-fields [] h = refl
map-trim-fields (m ∷ ms) (h, hs) = rw (trim-Trimmed m h.trimmed, map-trim-fields ms hs)

-- Fields with commas between them split into the fields.
pub split_top_level-fields :
    (t : Text) (ms : List Text)
    → Field t
    → All Field ms
    → split_top_level (t ++ with_commas ms) ≡ t ∷ ms
unfolding split_top_level
split_top_level-fields [] ms h hs = absurd (h.trimmed.some_text refl)
split_top_level-fields (c ∷ t) ms h hs =
    ap (map trim) (parts_from-with_commas (c ∷ t) ms h.plain hs)
    ∙ map-trim-fields ((c ∷ t) ∷ ms) (h, hs)

-- A text that ends in fields ends without space.
pub trim_end-fields :
    (t : Text) (ms : List Text)
    → Field t
    → All Field ms
    → trim_end (t ++ with_commas ms) ≡ t ++ with_commas ms
trim_end-fields t [] h hs = rw (append-nil, h.trimmed.at_end)
trim_end-fields t (m ∷ ms) h (hm, hs) =
    trim_end-append t (with_commas (m ∷ ms)) (λ e. cc e)
      (trim_end-append (text ",") (m ++ with_commas ms)
        (some_front m (with_commas ms) hm.trimmed.some_text) (trim_end-fields m ms hm hs))
  where
    some_front : (t u : Text) → t ≢ [] → t ++ u ≢ []
    some_front [] u n = absurd (n refl)
    some_front (c ∷ t) u n = λ e. cc e

Plain-Nested : (t : Text) → Plain t → Nested t
Plain-Nested t h = chars-Nested t (no_brackets t h)
  where
    no_brackets : (t : Text) → Plain t → All (λ c. no_bracket c ≡ true) t
    no_brackets [] h = tt
    no_brackets (c ∷ t) (h, hs) = ((plain_parts c h).0, no_brackets t hs)

pub fields-Nested :
    (t : Text) (ms : List Text) → Field t → All Field ms → Nested (t ++ with_commas ms)
fields-Nested t [] h hs = rw append-nil (Plain-Nested t h.plain)
fields-Nested t (m ∷ ms) h (hm, hs) =
    append-Nested t _ (Plain-Nested t h.plain)
      (append-Nested (text ",") _ (chars-Nested (text ",") (refl, tt)) (fields-Nested m ms hm hs))

-- What the parser reads back of modifiers.
pub some_modifiers-list :
    (m : Option (List Text)) → Modifiers m → some_modifiers (modifier_list m) ≡ m
some_modifiers-list none h = refl
some_modifiers-list (some []) h = absurd h
some_modifiers-list (some (m ∷ ms)) h = refl

pub modifier_list-fields : (m : Option (List Text)) → Modifiers m → All Field (modifier_list m)
modifier_list-fields none h = tt
modifier_list-fields (some []) h = absurd h
modifier_list-fields (some (m ∷ ms)) h = h

pub modifiers_text_lem : (m : Option (List Text)) → modifiers_text m ≡ with_commas (modifier_list m)
modifiers_text_lem none = refl
modifiers_text_lem (some ms) = refl
