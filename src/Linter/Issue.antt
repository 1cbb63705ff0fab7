-- ===== src/Linter/Issue.antt =====
-- packages/shared/src/types/issue.ts: what a linter reports.
use Prim.Native.String.{String}
use miharbor.Base.{ℕ, List, Option}
use miharbor.Base.Text.{Text}

pub data Level : Type 0 where
  error warning info : Level

-- A step of a path in the document, and a value of a parameter.
pub data Value : Type 0 where
  num : ℕ → Value
  txt : Text → Value
  lit : String → Value

abbrev pub Params : Type 0
Params = List (String × Value)

pub record Suggestion : Type 0 where
  pub key : String
  pub params : Params

pub record Issue : Type 0 where
  pub level : Level
  pub code : String
  pub path : List Value
  pub params : Params
  pub suggestion : Option Suggestion
