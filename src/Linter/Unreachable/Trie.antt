-- ===== src/Linter/Unreachable/Trie.antt =====
-- The reverse-suffix trie of linter/unreachable.ts. No node is shared, so the mutable tree is a
-- value that each walk rebuilds along its path.
use miharbor.Base.{ℕ, Option, none, some, [], ◌∷◌, if◌then◌else◌, ltb, ◌==◌}
use mathlib.Core.List.{reverse}
use miharbor.Base.Text.{Text}

mutual
  pub data Node : Type 0 where
    node : Option ℕ → Edges → Node

  -- `children: Map<string, TrieNode>`
  pub data Edges : Type 0 where
    nil : Edges
    edge : ℕ → Node → Edges → Edges

abbrev pub make_node : Node
make_node = node none nil

abbrev pub end_index : Node → Option ℕ
end_index (node e cs) = e

unfoldable pub get : ℕ → Edges → Option Node
get c nil = none
get c (edge d n cs) = if d == c then some n else get c cs

unfoldable pub set : ℕ → Node → Edges → Edges
set c m nil = edge c m nil
set c m (edge d n cs) = if d == c then edge c m cs else edge d n (set c m cs)

abbrev or_new : Option Node → Node
or_new none = make_node
or_new (some n) = n

-- `node.children.get(ch)`, or a new node.
unfoldable pub next : ℕ → Node → Node
unfolding get
next c (node e cs) = or_new (get c cs)

unfoldable pub set_next : ℕ → Node → Node → Node
unfolding set
set_next c m (node e cs) = node e (set c m cs)

-- The smaller of two positions, where there are two.
unfoldable pub min_pos : Option ℕ → Option ℕ → Option ℕ
min_pos none b = b
min_pos (some a) none = some a
min_pos (some a) (some b) = if ltb b a then some b else some a

abbrev pub dot : ℕ
dot = b'.'

-- The earliest index seen at a label boundary, `best` so far.
unfoldable pub candidate : ℕ → Option ℕ → Node → Option ℕ
unfolding min_pos
candidate c best n = if c == dot then min_pos best (end_index n) else best

-- The end of the walk claims its node for `cur`, unless an earlier rule has.
unfoldable pub claim : ℕ → Node → Node
claim cur (node none cs) = node (some cur) cs
claim cur (node (some e) cs) = node (some e) cs

-- The loop of `suffixShadowLookupAndInsert` over the reversed value.
unfoldable pub walk : Text → ℕ → Option ℕ → Node → Node × Option ℕ
unfolding candidate claim next set_next
walk [] cur best n = (claim cur n, best)
walk (c ∷ rest) cur best n =
    let (m, found) = walk rest cur (candidate c best n) (next c n) in (set_next c m n, found)

-- An empty value is neither inserted nor shadowed.
unfoldable pub suffix_shadow_lookup_and_insert : Node → Text → ℕ → Node × Option ℕ
unfolding walk
suffix_shadow_lookup_and_insert root [] cur = (root, none)
suffix_shadow_lookup_and_insert root (c ∷ value) cur = walk (reverse (c ∷ value)) cur none root
