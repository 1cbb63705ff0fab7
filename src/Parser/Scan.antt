-- ===== src/Parser/Scan.antt =====
-- The scans of parser/rule-parser.ts for commas and brackets. The depth of brackets falls below 0
-- where a text closes more of them than it has opened.
use miharbor.Base.{
  ℕ, zero, suc, ◌-◌, Bool, true, false, ◌&&◌, ◌||◌, not, Option, none, some, List, [], ◌∷◌, map,
  if◌then◌else◌, ◌==◌,
}
use miharbor.Base.Text.{Text}
use miharbor.Base.Trim.{trim}

abbrev pub comma : ℕ
comma = b','

abbrev pub open_bracket : ℕ
open_bracket = b'('

abbrev pub close_bracket : ℕ
close_bracket = b')'

-- `below n` is the depth -(n + 1).
pub data Depth : Type 0 where
  at below : ℕ → Depth

abbrev pub up : Depth → Depth
up (at n) = at (suc n)
up (below zero) = at zero
up (below (suc n)) = below n

abbrev pub down : Depth → Depth
down (at zero) = below zero
down (at (suc n)) = at n
down (below n) = below (suc n)

abbrev pub is_level : Depth → Bool
is_level (at zero) = true
is_level (at (suc n)) = false
is_level (below n) = false

abbrev pub depth_after : ℕ → Depth → Depth
depth_after c d = if c == open_bracket then up d else if c == close_bracket then down d else d

-- A character in front of the first of some parts.
abbrev pub prepend : ℕ → List Text → List Text
prepend c [] = (c ∷ []) ∷ []
prepend c (w ∷ ws) = (c ∷ w) ∷ ws

-- The parts between the commas at depth 0.
unfoldable pub parts_from : Depth → Text → List Text
parts_from d [] = [] ∷ []
parts_from d (c ∷ t) =
    let rest = parts_from (depth_after c d) t in
    if c == comma && is_level d then [] ∷ rest else prepend c rest

-- `splitTopLevel`
unfoldable pub split_top_level : Text → List Text
unfolding parts_from trim
split_top_level [] = []
split_top_level (c ∷ t) = map trim (parts_from (at 0) (c ∷ t))

-- What is left of the group under way, if it is closed, and the groups after it.
abbrev pub Groups : Type 0
Groups = Option Text × List Text

abbrev pub continued : ℕ → Groups → Groups
continued c (none, gs) = (none, gs)
continued c (some g, gs) = (some (c ∷ g), gs)

abbrev pub begun : ℕ → Groups → Groups
begun c (none, gs) = (none, gs)
begun c (some g, gs) = (none, (c ∷ g) ∷ gs)

-- Is a group under way after the character (`start >= 0`)?
abbrev pub still_under_way : Bool → ℕ → Depth → Bool
still_under_way under_way c d =
    if c == open_bracket
    then under_way || is_level d
    else if c == close_bracket
    then under_way && not (is_level (down d))
    else under_way

unfoldable pub groups_from : Bool → Depth → Text → Groups
groups_from under_way d [] = (none, [])
groups_from under_way d (c ∷ t) =
    let rest = groups_from (still_under_way under_way c d) (depth_after c d) t in
    if c == open_bracket && is_level d
    then begun c rest
    else if c == close_bracket && (is_level (down d) && under_way)
    then (some (c ∷ []), rest.1)
    else continued c rest

-- `splitChildren`
unfoldable pub split_children : Text → List Text
unfolding groups_from
split_children inner = (groups_from false (at 0) inner).1

-- The text before the first comma and the text after it.
abbrev pub continued_first : ℕ → Option (Text × Text) → Option (Text × Text)
continued_first c none = none
continued_first c (some (s, t)) = some (c ∷ s, t)

unfoldable pub before_comma : Text → Option (Text × Text)
before_comma [] = none
before_comma (c ∷ t) =
    let rest = before_comma t in if c == comma then some ([], t) else continued_first c rest

-- The number of open brackets but one, after a character.
abbrev pub open_after : ℕ → ℕ → ℕ
open_after c n = if c == open_bracket then suc n else if c == close_bracket then n - 1 else n

-- The text up to the bracket that closes all of `suc n` open ones, and the text after it.
unfoldable pub close_from : ℕ → Text → Option (Text × Text)
close_from n [] = none
close_from n (c ∷ t) =
    let rest = close_from (open_after c n) t in
    if c == close_bracket && n == 0 then some ([], t) else continued_first c rest

-- The group that the text starts with, without its brackets, and the text after it.
unfoldable pub matching_close : Text → Option (Text × Text)
unfolding close_from
matching_close [] = none
matching_close (c ∷ t) = close_from 0 t
