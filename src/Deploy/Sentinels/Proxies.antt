-- ===== src/Deploy/Sentinels/Proxies.antt =====
-- The proxies of a draft, once its view sentinels are resolved.
use miharbor.Base.{
  ℕ, zero, suc, sym, ◌≡◌, refl, ◌∙◌, ap, Bool, true, false, Option, none, some, List, [], ◌∷◌,
  if◌then◌else◌,
}
use miharbor.Base.Text.{Text, text, text_eq}
use miharbor.Base.Dict.{lookup, lookup-insert}
use miharbor.Base.Yaml.{
  Yaml, str, scalar, map, seq, alias, Items, nil, cons, get_pair, get, as_text,
}
use miharbor.Deploy.Sentinels.{
  named, name_of, add_named, by_name, current_of, resolve_against, resolve_item, resolve_items,
  resolve_proxies, resolve_view_sentinels,
}
use miharbor.Deploy.Sentinels.Laws.{proxies_key}
use miharbor.Deploy.Sentinels.Document.{get-resolved_proxies}

abbrev pub items_in : Option Yaml → Items
items_in none = nil
items_in (some (seq xs)) = xs
items_in (some (str t)) = nil
items_in (some (scalar t)) = nil
items_in (some (map ps)) = nil
items_in (some (alias t)) = nil

-- `doc.getIn(['proxies']).items`
abbrev pub proxies_of : Yaml → Items
proxies_of doc = items_in (get proxies_key doc)

unfoldable pub item_at : ℕ → Items → Option Yaml
item_at n nil = none
item_at zero (cons x xs) = some x
item_at (suc n) (cons x xs) = item_at n xs

abbrev pub value_in : Text → Option Yaml → Option Yaml
value_in k none = none
value_in k (some item) = get k item

abbrev pub proxy_at : ℕ → Yaml → Option Yaml
proxy_at i doc = item_at i (proxies_of doc)

-- The value of the key `k` of the proxy that stands at the index `i` of `proxies:`.
abbrev pub proxy_value : ℕ → Text → Yaml → Option Yaml
proxy_value i k doc = value_in k (proxy_at i doc)

abbrev has_text : Text → Option Text → Bool
has_text n none = false
has_text n (some t) = text_eq t n

abbrev later_or : Option Yaml → Option Yaml → Option Yaml
later_or none o = o
later_or (some y) o = some y

-- The last proxy of the list with this name.
unfoldable pub last_named : Text → Items → Option Yaml
last_named n nil = none
last_named n (cons item xs) =
    later_or (last_named n xs)
      (if has_text n (as_text (get (text "name") item)) then some item else none)

-- A `Map` that has been given one more proxy.
lookup-add_named :
    (n : Text) (item : Yaml) (c : ℕ) (m : List (Text × Yaml))
    → lookup (c ∷ n) (add_named (name_of item) item m) ≡ (
        if has_text (c ∷ n) (as_text (get (text "name") item)) then some item else lookup (c ∷ n) m)
unfolding add_named name_of get
lookup-add_named n (str t) c m = refl
lookup-add_named n (scalar t) c m = refl
lookup-add_named n (seq xs) c m = refl
lookup-add_named n (alias t) c m = refl
lookup-add_named n (map ps) c m = at (as_text (get_pair (text "name") ps))
  where
    at :
        (o : Option Text)
        → lookup (c ∷ n) (add_named (named o) (map ps) m)
          ≡ (if has_text (c ∷ n) o then some (map ps) else lookup (c ∷ n) m)
    at none = unfold named in refl
    at (some []) = unfold named text_eq in refl
    at (some (d ∷ t)) = unfold named in lookup-insert (d ∷ t) (c ∷ n) (map ps) m

later_or-if :
    (a : Option Yaml) (b : Bool) (item : Yaml) (o : Option Yaml)
    → later_or a (if b then some item else o)
      ≡ later_or (later_or a (if b then some item else none)) o
later_or-if (some y) b item o = refl
later_or-if none true item o = refl
later_or-if none false item o = refl

lookup-by_name :
    (n : Text) (c : ℕ) (xs : Items) (m : List (Text × Yaml))
    → lookup (c ∷ n) (by_name xs m) ≡ later_or (last_named (c ∷ n) xs) (lookup (c ∷ n) m)
unfolding by_name last_named
lookup-by_name n c nil m = refl
lookup-by_name n c (cons item xs) m =
    lookup-by_name n c xs (add_named (name_of item) item m)
    ∙ rw (lookup-add_named n item c m) (later_or-if (last_named (c ∷ n) xs) _ item _)

lookup-last_named :
    (n : Text) (c : ℕ) (xs : Items) → lookup (c ∷ n) (by_name xs []) ≡ last_named (c ∷ n) xs
lookup-last_named n c xs = lookup-by_name n c xs [] ∙ at (last_named (c ∷ n) xs)
  where
    at : (o : Option Yaml) → later_or o (lookup (c ∷ n) []) ≡ o
    at none = unfold lookup in refl
    at (some y) = refl

resolve_item-empty : (item : Yaml) → (resolve_item [] item).0 ≡ item
unfolding resolve_item
resolve_item-empty item = at (name_of item)
  where
    at : (o : Option Text) → (resolve_against (current_of [] o) item).0 ≡ item
    at none = unfold current_of resolve_against in refl
    at (some n) = unfold current_of resolve_against lookup in refl

-- The proxy of the draft that stands at `i`, and what becomes of it.
abbrev resolved_at : List (Text × Yaml) → Option Yaml → Option Yaml
resolved_at m none = none
resolved_at m (some item) = some (resolve_item m item).0

item_at-resolve_items :
    (m : List (Text × Yaml)) (i : ℕ) (xs : Items)
    → item_at i (resolve_items m xs).0 ≡ resolved_at m (item_at i xs)
unfolding item_at resolve_items
item_at-resolve_items m i nil = refl
item_at-resolve_items m zero (cons x xs) = refl
item_at-resolve_items m (suc i) (cons x xs) = item_at-resolve_items m i xs

resolved_at-empty : (o : Option Yaml) → o ≡ resolved_at [] o
resolved_at-empty none = refl
resolved_at-empty (some item) = ap some (sym (resolve_item-empty item))

items_in-resolve_proxies :
    (i : ℕ) (o : Option Yaml) (v : Yaml)
    → item_at i (items_in (some (resolve_proxies o v).0))
      ≡ resolved_at (by_name (items_in o) []) (item_at i (items_in (some v)))
unfolding resolve_proxies by_name
items_in-resolve_proxies i (some (seq cs)) (seq xs) = item_at-resolve_items (by_name cs []) i xs
items_in-resolve_proxies i (some (seq cs)) (str t) = unfold item_at in refl
items_in-resolve_proxies i (some (seq cs)) (scalar t) = unfold item_at in refl
items_in-resolve_proxies i (some (seq cs)) (map ps) = unfold item_at in refl
items_in-resolve_proxies i (some (seq cs)) (alias t) = unfold item_at in refl
items_in-resolve_proxies i none v = resolved_at-empty _
items_in-resolve_proxies i (some (str s)) v = resolved_at-empty _
items_in-resolve_proxies i (some (scalar s)) v = resolved_at-empty _
items_in-resolve_proxies i (some (map s)) v = resolved_at-empty _
items_in-resolve_proxies i (some (alias s)) v = resolved_at-empty _

proxy_at-resolved :
    (draft current : Yaml) (i : ℕ)
    → proxy_at i (resolve_view_sentinels draft current).0
      ≡ resolved_at (by_name (proxies_of current) []) (proxy_at i draft)
proxy_at-resolved draft current i =
    ap (λ o. item_at i (items_in o)) (get-resolved_proxies current draft)
    ∙ at (get proxies_key draft)
  where
    at :
        (o : Option Yaml)
        → item_at i (
            items_in (elim o [
              | none ↦ none
              | some v ↦ some (resolve_proxies (get proxies_key current) v).0
            ]))
          ≡ resolved_at (by_name (proxies_of current) []) (item_at i (items_in o))
    at none = unfold item_at in refl
    at (some v) = items_in-resolve_proxies i (get proxies_key current) v

name_of-named :
    (item : Yaml) (c : ℕ) (n : Text)
    → get (text "name") item ≡ some (str (c ∷ n))
    → name_of item ≡ some (c ∷ n)
unfolding get name_of
name_of-named (map ps) c n h = ap (λ o. named (as_text o)) h ∙ unfold named in refl
name_of-named (str t) c n h = cc
name_of-named (scalar t) c n h = cc
name_of-named (seq xs) c n h = cc
name_of-named (alias t) c n h = cc

resolve_item-against :
    (m : List (Text × Yaml)) (item : Yaml) (n : Text)
    → name_of item ≡ some n
    → (resolve_item m item).0 ≡ (resolve_against (lookup n m) item).0
unfolding resolve_item current_of
resolve_item-against m item n named = ap (λ o. (resolve_against (current_of m o) item).0) named

module _ (draft current : Yaml) (i : ℕ) (item : Yaml) (c : ℕ) (n : Text) where
  pub proxy_at-against :
      proxy_at i draft ≡ some item
      → get (text "name") item ≡ some (str (c ∷ n))
      → proxy_at i (resolve_view_sentinels draft current).0
        ≡ some (resolve_against (last_named (c ∷ n) (proxies_of current)) item).0
  proxy_at-against here name =
      proxy_at-resolved draft current i
      ∙ ap (resolved_at (by_name (proxies_of current) [])) here
      ∙ ap some (resolve_item-against _ item (c ∷ n) (name_of-named item c n name))
      ∙ ap (λ o. some (resolve_against o item).0) (lookup-last_named n c (proxies_of current))

  -- A proxy of the draft whose name no proxy of the current document has stays as it is.
  pub new_proxy_kept :
      proxy_at i draft ≡ some item
      → get (text "name") item ≡ some (str (c ∷ n))
      → last_named (c ∷ n) (proxies_of current) ≡ none
      → proxy_at i (resolve_view_sentinels draft current).0 ≡ some item
  new_proxy_kept here name new =
      proxy_at-against here name
      ∙ ap (λ o. some (resolve_against o item).0) new
      ∙ (unfold resolve_against in refl)
