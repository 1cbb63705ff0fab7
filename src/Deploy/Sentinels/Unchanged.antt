-- ===== src/Deploy/Sentinels/Unchanged.antt =====
-- Passes of `resolveViewSentinels` that count no substitution.
use miharbor.Base.{ℕ, ◌≡◌, refl, ap, ap₂, ◌∙◌, Option, none, some, List, [], arith, Bool-cases}
use miharbor.Base.Text.{Text, text}
use miharbor.Base.Yaml.{
  Yaml, str, scalar, map, seq, alias, Pairs, end, pair, Items, nil, cons, is_key, get, as_text,
}
use miharbor.Deploy.Sentinels.{
  substitute, expected, resolve_expected, resolve_value, resolve_pairs, name_of, by_name,
  resolve_against, current_of, resolve_item, resolve_items, resolve_proxies, update_pair,
  resolve_view_sentinels, key_text, meta_secret_sentinel,
}

substitute-zero :
    (s : Text) (o : Option Text) (v : Yaml) → (substitute s o v).1 ≡ 0 → (substitute s o v).0 ≡ v
unfolding substitute
substitute-zero s none (str t) h = refl
substitute-zero s (some c) (str t) h = ground arith
substitute-zero s o (scalar t) h = refl
substitute-zero s o (map ps) h = refl
substitute-zero s o (seq xs) h = refl
substitute-zero s o (alias t) h = refl

resolve_value-zero : (c k v : Yaml) → (resolve_value c k v).1 ≡ 0 → (resolve_value c k v).0 ≡ v
unfolding resolve_value
resolve_value-zero c k v h = at (key_text k) (expected (key_text k)) h
  where
    at : (k o : Option Text) → (resolve_expected k o c v).1 ≡ 0 → (resolve_expected k o c v).0 ≡ v
    at (some k) (some s) h = substitute-zero s (as_text (get k c)) v h
    at none o h = refl
    at (some k) none h = refl

resolve_pairs-zero :
    (c : Yaml) (ps : Pairs) → (resolve_pairs c ps).1 ≡ 0 → (resolve_pairs c ps).0 ≡ ps
unfolding resolve_pairs
resolve_pairs-zero c end h = refl
resolve_pairs-zero c (pair k v ps) h =
    ap₂ (pair k) (resolve_value-zero c k v (omega arith)) (resolve_pairs-zero c ps (omega arith))

resolve_against-zero :
    (o : Option Yaml) (item : Yaml)
    → (resolve_against o item).1 ≡ 0
    → (resolve_against o item).0 ≡ item
unfolding resolve_against
resolve_against-zero (some c) (map ps) h = ap map (resolve_pairs-zero c ps h)
resolve_against-zero (some c) (str t) h = refl
resolve_against-zero (some c) (scalar t) h = refl
resolve_against-zero (some c) (seq xs) h = refl
resolve_against-zero (some c) (alias t) h = refl
resolve_against-zero none item h = refl

resolve_items-zero :
    (m : List (Text × Yaml)) (xs : Items) → (resolve_items m xs).1 ≡ 0 → (resolve_items m xs).0 ≡ xs
unfolding resolve_items resolve_item
resolve_items-zero m nil h = refl
resolve_items-zero m (cons x xs) h =
    ap₂ cons (resolve_against-zero (current_of m (name_of x)) x (omega arith))
      (resolve_items-zero m xs (omega arith))

resolve_proxies-zero :
    (o : Option Yaml) (v : Yaml) → (resolve_proxies o v).1 ≡ 0 → (resolve_proxies o v).0 ≡ v
unfolding resolve_proxies
resolve_proxies-zero (some (seq cs)) (seq xs) h = ap seq (resolve_items-zero (by_name cs []) xs h)
resolve_proxies-zero (some (seq cs)) (str t) h = refl
resolve_proxies-zero (some (seq cs)) (scalar t) h = refl
resolve_proxies-zero (some (seq cs)) (map ps) h = refl
resolve_proxies-zero (some (seq cs)) (alias t) h = refl
resolve_proxies-zero (some (str s)) v h = refl
resolve_proxies-zero (some (scalar s)) v h = refl
resolve_proxies-zero (some (map s)) v h = refl
resolve_proxies-zero (some (alias s)) v h = refl
resolve_proxies-zero none v h = refl

update_pair-zero :
    (k : Text) (f : Yaml → Yaml × ℕ)
    → ((v : Yaml) → (f v).1 ≡ 0 → (f v).0 ≡ v)
    → (ps : Pairs) → (update_pair k f ps).1 ≡ 0
    → (update_pair k f ps).0 ≡ ps
unfolding update_pair
update_pair-zero k f h end e = refl
update_pair-zero k f h (pair j v ps) e =
    ground (arith, h v, update_pair-zero k f h ps, Bool-cases (is_key k j))

-- If resolving reports no substitution, the draft is left as it was.
pub resolve_view_sentinels-zero :
    (draft current : Yaml)
    → (resolve_view_sentinels draft current).1 ≡ 0
    → (resolve_view_sentinels draft current).0 ≡ draft
unfolding resolve_view_sentinels
resolve_view_sentinels-zero (map ps) current h = ap map (second ∙ first)
  where
    secret : Yaml → Yaml × ℕ
    secret = substitute meta_secret_sentinel (as_text (get (text "secret") current))

    proxies : Yaml → Yaml × ℕ
    proxies = resolve_proxies (get (text "proxies") current)

    first : (update_pair (text "secret") secret ps).0 ≡ ps
    first = update_pair-zero (text "secret") secret (substitute-zero _ _) ps (omega arith)

    second :
        (update_pair (text "proxies") proxies (update_pair (text "secret") secret ps).0).0
        ≡ (update_pair (text "secret") secret ps).0
    second = update_pair-zero (text "proxies") proxies (resolve_proxies-zero _) _ (omega arith)
resolve_view_sentinels-zero (str t) current h = refl
resolve_view_sentinels-zero (scalar t) current h = refl
resolve_view_sentinels-zero (seq xs) current h = refl
resolve_view_sentinels-zero (alias t) current h = refl
