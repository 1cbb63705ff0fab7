-- ===== src/Rules.antt =====
-- Rules of a mihomo configuration (packages/shared/src/types/rule.ts).
use miharbor.Base.{Bool, true, false, Option, List, ℕ}
use miharbor.Base.Text.{Text}

pub data LogicalOp : Type 0 where
  and or not : LogicalOp

-- `SimpleRule`. The parser lets unknown types through, so a type is any text; `modifiers` is
-- absent rather than empty.
pub record SimpleRule : Type 0 where
  pub type : Text
  pub value : Text
  pub target : Text
  pub modifiers : Option (List Text)

mutual
  pub data Rule : Type 0 where
    simple : SimpleRule → Rule
    logical : LogicalOp → Children → Text → Rule
    match : Text → Rule

  pub data Children : Type 0 where
    nil : Children
    cons : Rule → Children → Children

-- A rule with its index in the document's `rules:` array.
pub record IndexedRule : Type 0 where
  pub index : ℕ
  pub rule : Rule

abbrev pub is_match : Rule → Bool
is_match (match t) = true
is_match _ = false
