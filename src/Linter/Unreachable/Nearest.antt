-- ===== src/Linter/Unreachable/Nearest.antt =====
-- What a walk through the trie returns, and how it changes what later walks find.
use miharbor.Base.{
  ℕ, ◌≡◌, refl, ◌∙◌, ap, true, false, Option, none, some, [], ◌∷◌, ◌++◌, if◌then◌else◌, ◌==◌, arith,
  Bool-cases, Option-cases, inl, inr,
}
use mathlib.Core.Path.{fun_ext}
use miharbor.Base.Text.{Text, text_eq, starts_with}
use miharbor.Linter.Unreachable.Trie.{
  Node, Edges, node, nil, edge, make_node, end_index, get, set, next, set_next, min_pos, dot,
  candidate, claim, walk,
}

-- The index that a value claims, at the end of its path.
pub end_at : Text → Node → Option ℕ
end_at [] n = end_index n
end_at (c ∷ p) n = end_at p (next c n)

pub end_at-make_node : (p : Text) → end_at p make_node ≡ none
unfolding end_at next get
end_at-make_node [] = refl
end_at-make_node (c ∷ p) = end_at-make_node p

get-set :
    (c d : ℕ) (m : Node) (cs : Edges) → get d (set c m cs) ≡ (if c == d then some m else get d cs)
unfolding get set
get-set c d m nil = refl
get-set c d m (edge b n cs) = ground (arith, get-set c d m cs)

next-set_next : (c d : ℕ) (m n : Node) → next d (set_next c m n) ≡ (if c == d then m else next d n)
unfolding next set_next
next-set_next c d m (node e cs) = ground (arith, get-set c d m cs)

end-set_next : (c : ℕ) (m n : Node) → end_index (set_next c m n) ≡ end_index n
unfolding set_next
end-set_next c m (node e cs) = refl

abbrev pub or_else {ℓ} : {A : Type ℓ} → Option A → Option A → Option A
or_else none b = b
or_else (some a) b = some a

end_at-claim :
    (cur : ℕ) (n : Node) (p : Text)
    → end_at p (claim cur n)
      ≡ (if text_eq [] p then or_else (end_index n) (some cur) else end_at p n)
unfolding end_at claim text_eq next
end_at-claim cur (node none cs) [] = refl
end_at-claim cur (node (some e) cs) [] = refl
end_at-claim cur (node none cs) (c ∷ p) = refl
end_at-claim cur (node (some e) cs) (c ∷ p) = refl

-- A walk claims the end of its own path, where that is free, and no other.
pub end_at-walk :
    (s p : Text) (cur : ℕ) (best : Option ℕ) (n : Node)
    → end_at p (walk s cur best n).0 ≡ or_else (end_at p n) (if text_eq s p then some cur else none)
unfolding walk end_at text_eq
end_at-walk [] [] cur best n = end_at-claim cur n []
end_at-walk [] (c ∷ p) cur best n =
    end_at-claim cur n (c ∷ p) ∙ ground (arith, Option-cases (end_at p (next c n)))
end_at-walk (d ∷ s) [] cur best n = ground (
  arith,
  end-set_next d (walk s cur (candidate d best n) (next d n)).0 n,
  Option-cases (end_index n),
)
end_at-walk (d ∷ s) (c ∷ p) cur best n = ground (
  arith,
  next-set_next d c (walk s cur (candidate d best n) (next d n)).0 n,
  end_at-walk s p cur (candidate d best n) (next d n),
  Option-cases (end_at p (next c n)),
)

-- The least index that `at` gives to a prefix of `s` before a dot.
unfoldable pub nearest : Text → (Text → Option ℕ) → Option ℕ → Option ℕ
nearest [] at best = best
nearest (c ∷ s) at best =
    nearest s (λ p. at (c ∷ p)) (if c == dot then min_pos best (at []) else best)

pub walk-nearest :
    (s : Text) (cur : ℕ) (best : Option ℕ) (n : Node)
    → (walk s cur best n).1 ≡ nearest s (λ p. end_at p n) best
unfolding walk nearest end_at candidate
walk-nearest [] cur best n = refl
walk-nearest (c ∷ s) cur best n = walk-nearest s cur (candidate c best n) (next c n)

pub nearest-congr :
    (s : Text) (f g : Text → Option ℕ) (best : Option ℕ)
    → ((p : Text) → f p ≡ g p)
    → nearest s f best ≡ nearest s g best
nearest-congr s f g best h = ap (λ at. nearest s at best) (fun_ext h)

min_pos_assoc : (a b c : Option ℕ) → min_pos (min_pos a b) c ≡ min_pos a (min_pos b c)
unfolding min_pos
min_pos_assoc none b c = refl
min_pos_assoc (some a) none c = refl
min_pos_assoc (some a) (some b) none = ground arith
min_pos_assoc (some a) (some b) (some c) = ground arith

nearest-min_pos :
    (s : Text) (f : Text → Option ℕ) (best j : Option ℕ)
    → nearest s f (min_pos j best) ≡ min_pos j (nearest s f best)
unfolding nearest
nearest-min_pos [] f best j = refl
nearest-min_pos (c ∷ s) f best j = elim (Bool-cases (c == dot)) [
  | inl e ↦ rw (e, min_pos_assoc j best (f [])) (nearest-min_pos s (λ p. f (c ∷ p)) _ j)
  | inr e ↦ rw e (nearest-min_pos s (λ p. f (c ∷ p)) best j)
]

min_pos_left_comm : (a b c : Option ℕ) → min_pos a (min_pos b c) ≡ min_pos b (min_pos a c)
unfolding min_pos
min_pos_left_comm none b c = refl
min_pos_left_comm (some a) none c = refl
min_pos_left_comm (some a) (some b) none = ground arith
min_pos_left_comm (some a) (some b) (some c) = ground arith

==_swap : (a b : ℕ) → (a == b) ≡ true → (b == a) ≡ true
==_swap a b h = ground arith

ne_swap : (a b : ℕ) → (a == b) ≡ false → (b == a) ≡ false
ne_swap a b h = ground arith

-- An index `j` that is claimed at `q` counts for the walks along `q` and a dot.
pub nearest-claimed :
    (s q : Text) (f : Text → Option ℕ) (best : Option ℕ) (j : ℕ)
    → nearest s (λ p. if text_eq q p then min_pos (some j) (f p) else f p) best ≡ (
        if starts_with (q ++ dot ∷ []) s
        then min_pos (some j) (nearest s f best)
        else nearest s f best)
unfolding nearest text_eq starts_with
nearest-claimed [] [] f best j = refl
nearest-claimed [] (d ∷ q) f best j = refl
nearest-claimed (c ∷ s) [] f best j = elim (Bool-cases (c == dot)) [
  | inl e ↦
      rw (e, ==_swap c dot e, min_pos_left_comm best (some j) (f []))
        (nearest-min_pos s (λ p. f (c ∷ p)) (min_pos best (f [])) (some j))
  | inr e ↦ rw (e, ne_swap c dot e)
]
nearest-claimed (c ∷ s) (d ∷ q) f best j = elim (Bool-cases (d == c)) [
  | inl e ↦
      rw e (nearest-claimed s q (λ p. f (c ∷ p)) (if c == dot then min_pos best (f []) else best) j)
  | inr e ↦ rw e
]
