-- ===== src/Deploy/Sentinels.antt =====
-- `resolveViewSentinels` of deploy/pipeline.ts, with the sentinels of
-- packages/shared/src/types/sentinels.ts. The draft is a value: the source's writes into its nodes
-- give the new tree, beside the number of substitutions.
pub mod Laws
pub mod Unchanged
pub mod Document
pub mod Proxies
pub mod Keys
pub mod Free
use miharbor.Base.{
  ℕ, ◌+◌, Bool, true, false, ◌&&◌, Option, none, some, List, [], ◌∷◌, if◌then◌else◌,
}
use miharbor.Base.Text.{Text, text, text_eq}
use miharbor.Base.Dict.{lookup, insert}
use miharbor.Base.Yaml.{
  Yaml, str, scalar, map, seq, alias, Pairs, end, pair, Items, nil, cons, is_key, get_pair, get,
  as_text,
}

abbrev pub meta_secret_sentinel : Text
meta_secret_sentinel = text "__MIHARBOR_SECRET_SET_NOT_SHOWN__"

abbrev pub wireguard_private_key_sentinel : Text
wireguard_private_key_sentinel = text "MIHARBORMASKEDPRIVATEKEYREENTERTOCHANGE1234="

abbrev pub wireguard_pre_shared_key_sentinel : Text
wireguard_pre_shared_key_sentinel = text "MIHARBORMASKEDPRESHAREDKEYREENTERTOCHANGE12="

-- A value that is `sentinel`, where the current document has a text.
unfoldable pub substitute : Text → Option Text → Yaml → Yaml × ℕ
substitute sentinel (some current) (str t) =
    if text_eq t sentinel then (str current, 1) else (str t, 0)
substitute sentinel none (str t) = (str t, 0)
substitute sentinel o (scalar t) = (scalar t, 0)
substitute sentinel o (map ps) = (map ps, 0)
substitute sentinel o (seq xs) = (seq xs, 0)
substitute sentinel o (alias t) = (alias t, 0)

-- The text of a scalar key.
abbrev key_text : Yaml → Option Text
key_text (str t) = some t
key_text (scalar t) = some t
key_text (map ps) = none
key_text (seq xs) = none
key_text (alias t) = none

-- The sentinel that stands for the value of a key of a proxy.
unfoldable pub expected : Option Text → Option Text
expected none = none
expected (some k) =
    if text_eq k (text "private-key")
    then some wireguard_private_key_sentinel
    else if text_eq k (text "pre-shared-key")
    then some wireguard_pre_shared_key_sentinel
    else none

resolve_expected : Option Text → Option Text → Yaml → Yaml → Yaml × ℕ
resolve_expected (some k) (some sentinel) current v =
    substitute sentinel (as_text (get k current)) v
resolve_expected none o current v = (v, 0)
resolve_expected (some k) none current v = (v, 0)

-- One value of a proxy of the draft, against the proxy of that name in the current document.
unfoldable pub resolve_value : Yaml → Yaml → Yaml → Yaml × ℕ
unfolding resolve_expected expected substitute
resolve_value current k v = resolve_expected (key_text k) (expected (key_text k)) current v

unfoldable pub resolve_pairs : Yaml → Pairs → Pairs × ℕ
unfolding resolve_value
resolve_pairs current end = (end, 0)
resolve_pairs current (pair k v ps) =
    let (v', n) = resolve_value current k v in
    let (ps', m) = resolve_pairs current ps in (pair k v' ps', n + m)

-- The name of a proxy: a string that is not empty.
named : Option Text → Option Text
named (some []) = none
named (some (c ∷ t)) = some (c ∷ t)
named none = none

unfoldable pub name_of : Yaml → Option Text
unfolding named
name_of (map ps) = named (as_text (get_pair (text "name") ps))
name_of (str t) = none
name_of (scalar t) = none
name_of (seq xs) = none
name_of (alias t) = none

add_named : Option Text → Yaml → List (Text × Yaml) → List (Text × Yaml)
add_named none item m = m
add_named (some n) item m = insert n item m

-- `currentByName`: a later proxy of the same name replaces an earlier one.
unfoldable pub by_name : Items → List (Text × Yaml) → List (Text × Yaml)
unfolding add_named
by_name nil m = m
by_name (cons item xs) m = by_name xs (add_named (name_of item) item m)

current_of : List (Text × Yaml) → Option Text → Option Yaml
current_of m none = none
current_of m (some n) = lookup n m

pub resolve_against : Option Yaml → Yaml → Yaml × ℕ
unfolding resolve_pairs
resolve_against (some current) (map ps) = let (ps', n) = resolve_pairs current ps in (map ps', n)
resolve_against none v = (v, 0)
resolve_against (some current) v = (v, 0)

unfoldable pub resolve_item : List (Text × Yaml) → Yaml → Yaml × ℕ
unfolding resolve_against current_of
resolve_item m item = resolve_against (current_of m (name_of item)) item

unfoldable pub resolve_items : List (Text × Yaml) → Items → Items × ℕ
unfolding resolve_item
resolve_items m nil = (nil, 0)
resolve_items m (cons item xs) =
    let (item', n) = resolve_item m item in
    let (xs', k) = resolve_items m xs in (cons item' xs', n + k)

-- The value of `proxies:`, of the current document and of the draft.
unfoldable pub resolve_proxies : Option Yaml → Yaml → Yaml × ℕ
unfolding resolve_items by_name
resolve_proxies (some (seq current)) (seq xs) =
    let (xs', n) = resolve_items (by_name current []) xs in (seq xs', n)
resolve_proxies _ v = (v, 0)

-- Rewrites the value of the first pair with the key `k`.
unfoldable pub update_pair : Text → (Yaml → Yaml × ℕ) → Pairs → Pairs × ℕ
update_pair k f end = (end, 0)
update_pair k f (pair j v ps) =
    if is_key k j
    then (let (v', n) = f v in (pair j v' ps, n))
    else (let (ps', n) = update_pair k f ps in (pair j v ps', n))

unfoldable pub resolve_view_sentinels : Yaml → Yaml → Yaml × ℕ
unfolding substitute resolve_proxies update_pair
resolve_view_sentinels (map draft) current =
    let (ps, n) =
      update_pair (text "secret")
        (substitute meta_secret_sentinel (as_text (get (text "secret") current))) draft in
    let (qs, m) =
      update_pair (text "proxies") (resolve_proxies (get (text "proxies") current)) ps in
    (map qs, n + m)
resolve_view_sentinels (str t) current = (str t, 0)
resolve_view_sentinels (scalar t) current = (scalar t, 0)
resolve_view_sentinels (seq xs) current = (seq xs, 0)
resolve_view_sentinels (alias t) current = (alias t, 0)
