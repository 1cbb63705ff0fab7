-- ===== src/Base/Json.antt =====
-- JSON values, as `JSON.parse` yields them. Numbers are the non-negative integers.
use Prim.Native.Nat.{ℕ}
use mathlib.Core.Path.{◌≡◌}
use mathlib.Core.Bool.{Bool}
use mathlib.Core.Option.{Option, some}
use mathlib.Core.List.{List, [], ◌∷◌}
use miharbor.Base.Text.{Text}

mutual
  pub data Json : Type 0 where
    null : Json
    bool : Bool → Json
    num : ℕ → Json
    str : Text → Json
    arr : Items → Json
    obj : Fields → Json

  pub data Items : Type 0 where
    nil : Items
    cons : Json → Items → Items

  pub data Fields : Type 0 where
    end : Fields
    field : Text → Json → Fields → Fields

abbrev pub fields : Fields → List (Text × Json)
fields end = []
fields (field k v fs) = (k, v) ∷ fields fs

abbrev pub from_fields : List (Text × Json) → Fields
from_fields [] = end
from_fields ((k, v) ∷ m) = field k v (from_fields m)

-- The text of a file and the two library calls `JSON.stringify` and `JSON.parse`, of which the
-- code needs that what was printed is read back. `none` is a `SyntaxError`.
pub record JsonCodec : Type 1 where
  pub Raw : Type 0
  pub stringify : Json → Raw
  pub parse : Raw → Option Json
  pub parse-stringify : (j : Json) → parse (stringify j) ≡ some j
