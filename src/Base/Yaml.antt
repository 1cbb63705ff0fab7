-- ===== src/Base/Yaml.antt =====
-- YAML documents as the `yaml` package hands them over: the tree of nodes, without comments,
-- anchors and styles, which the code carries along unread.
use mathlib.Core.Bool.{Bool, false}
use mathlib.Core.Option.{Option, none, some}
use miharbor.Base.Tests.{if◌then◌else◌}
use miharbor.Base.Text.{Text, text_eq}

mutual
  -- `scalar` is a number, a Boolean or null, by its `String(value)`.
  pub data Yaml : Type 0 where
    str : Text → Yaml
    scalar : Text → Yaml
    map : Pairs → Yaml
    seq : Items → Yaml
    alias : Text → Yaml

  pub data Pairs : Type 0 where
    end : Pairs
    pair : Yaml → Yaml → Pairs → Pairs

  pub data Items : Type 0 where
    nil : Items
    cons : Yaml → Items → Items

-- Is this key the text `k`? (The package compares the key's value by `===`.)
unfoldable pub is_key : Text → Yaml → Bool
is_key k (str t) = text_eq t k
is_key k (scalar t) = false
is_key k (map ps) = false
is_key k (seq xs) = false
is_key k (alias t) = false

-- `map.get(k)`: the value of the first pair with that key.
unfoldable pub get_pair : Text → Pairs → Option Yaml
unfolding is_key
get_pair k end = none
get_pair k (pair j v ps) = if is_key k j then some v else get_pair k ps

unfoldable pub get : Text → Yaml → Option Yaml
unfolding get_pair
get k (map ps) = get_pair k ps
get k (str t) = none
get k (scalar t) = none
get k (seq xs) = none
get k (alias t) = none

-- The text of a string node.
abbrev pub as_text : Option Yaml → Option Text
as_text (some (str t)) = some t
as_text (some (scalar t)) = none
as_text (some (map ps)) = none
as_text (some (seq xs)) = none
as_text (some (alias t)) = none
as_text none = none
