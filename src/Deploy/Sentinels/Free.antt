-- ===== src/Deploy/Sentinels/Free.antt =====
-- Drafts without a view sentinel.
use miharbor.Base.{
  ℕ, ◌≡◌, refl, sym, ap, Bool, true, false, ◌||◌, Option, none, some, List, [], Bool-cases, inl,
  inr,
}
use miharbor.Base.Text.{Text, text, text_eq, eq_of_text_eq}
use miharbor.Base.Yaml.{
  Yaml, str, scalar, map, seq, alias, Pairs, end, pair, Items, nil, cons, is_key, get, as_text,
}
use miharbor.Deploy.Sentinels.{
  substitute, expected, resolve_expected, resolve_value, resolve_pairs, name_of, by_name,
  resolve_against, current_of, resolve_item, resolve_items, resolve_proxies, update_pair,
  resolve_view_sentinels, key_text, meta_secret_sentinel, wireguard_private_key_sentinel,
  wireguard_pre_shared_key_sentinel,
}

-- What the views show in place of a secret.
unfoldable pub is_view_sentinel : Text → Bool
is_view_sentinel t =
    text_eq t meta_secret_sentinel
    || (text_eq t wireguard_private_key_sentinel || text_eq t wireguard_pre_shared_key_sentinel)

-- Does a view sentinel stand as a value anywhere in this tree?
unfoldable mutual
  unfolding is_view_sentinel

  pub has_sentinel : Yaml → Bool
  has_sentinel (str t) = is_view_sentinel t
  has_sentinel (scalar t) = false
  has_sentinel (map ps) = pairs_have_sentinel ps
  has_sentinel (seq xs) = items_have_sentinel xs
  has_sentinel (alias t) = false

  pub pairs_have_sentinel : Pairs → Bool
  pairs_have_sentinel end = false
  pairs_have_sentinel (pair k v ps) = has_sentinel v || pairs_have_sentinel ps

  pub items_have_sentinel : Items → Bool
  items_have_sentinel nil = false
  items_have_sentinel (cons x xs) = has_sentinel x || items_have_sentinel xs

neither : (a b : Bool) → (a || b) ≡ false → (a ≡ false) × (b ≡ false)
neither true b h = cc
neither false b h = (refl, h)

substitute-free :
    (s : Text) (o : Option Text) (v : Yaml)
    → is_view_sentinel s ≡ true
    → has_sentinel v ≡ false
    → substitute s o v ≡ (v, 0)
unfolding substitute has_sentinel
substitute-free s none (str t) e h = refl
substitute-free s (some c) (str t) e h = elim (Bool-cases (text_eq t s)) [
  | inl same ↦ cc (sym (ap is_view_sentinel (eq_of_text_eq t s same)), e, h)
  | inr other ↦ rw other refl
]
substitute-free s o (scalar t) e h = refl
substitute-free s o (map ps) e h = refl
substitute-free s o (seq xs) e h = refl
substitute-free s o (alias t) e h = refl

resolve_value-free : (c k v : Yaml) → has_sentinel v ≡ false → resolve_value c k v ≡ (v, 0)
unfolding resolve_value
resolve_value-free c k v h = at (key_text k)
  where
    private_is : is_view_sentinel wireguard_private_key_sentinel ≡ true
    private_is = unfold is_view_sentinel text_eq in refl

    pre_shared_is : is_view_sentinel wireguard_pre_shared_key_sentinel ≡ true
    pre_shared_is = unfold is_view_sentinel text_eq in refl

    at : (k : Option Text) → resolve_expected k (expected k) c v ≡ (v, 0)
    at none = unfold resolve_expected in refl
    at (some k) =
        unfold expected resolve_expected in
        elim (Bool-cases (text_eq k (text "private-key"))) [
          | inl e ↦
              rw e
                (substitute-free wireguard_private_key_sentinel (as_text (get k c)) v private_is h)
          | inr e ↦ rw e (elim (Bool-cases (text_eq k (text "pre-shared-key"))) [
            | inl d ↦ rw d (
                substitute-free wireguard_pre_shared_key_sentinel (as_text (get k c)) v
                  pre_shared_is h)
            | inr d ↦ rw d refl
          ])
        ]

resolve_pairs-free :
    (c : Yaml) (ps : Pairs) → pairs_have_sentinel ps ≡ false → resolve_pairs c ps ≡ (ps, 0)
unfolding resolve_pairs pairs_have_sentinel
resolve_pairs-free c end h = refl
resolve_pairs-free c (pair k v ps) h =
    let (hv, hps) = neither (has_sentinel v) _ h in
    rw (resolve_value-free c k v hv, resolve_pairs-free c ps hps) refl

resolve_against-free :
    (o : Option Yaml) (item : Yaml) → has_sentinel item ≡ false → resolve_against o item ≡ (item, 0)
unfolding resolve_against has_sentinel
resolve_against-free (some c) (map ps) h = rw (resolve_pairs-free c ps h) refl
resolve_against-free (some c) (str t) h = refl
resolve_against-free (some c) (scalar t) h = refl
resolve_against-free (some c) (seq xs) h = refl
resolve_against-free (some c) (alias t) h = refl
resolve_against-free none item h = refl

resolve_items-free :
    (m : List (Text × Yaml)) (xs : Items)
    → items_have_sentinel xs ≡ false
    → resolve_items m xs ≡ (xs, 0)
unfolding resolve_items resolve_item items_have_sentinel
resolve_items-free m nil h = refl
resolve_items-free m (cons x xs) h =
    let (hx, hxs) = neither (has_sentinel x) _ h in
    rw (resolve_against-free (current_of m (name_of x)) x hx, resolve_items-free m xs hxs) refl

resolve_proxies-free :
    (o : Option Yaml) (v : Yaml) → has_sentinel v ≡ false → resolve_proxies o v ≡ (v, 0)
unfolding resolve_proxies has_sentinel
resolve_proxies-free (some (seq cs)) (seq xs) h = rw (resolve_items-free (by_name cs []) xs h) refl
resolve_proxies-free (some (seq cs)) (str t) h = refl
resolve_proxies-free (some (seq cs)) (scalar t) h = refl
resolve_proxies-free (some (seq cs)) (map ps) h = refl
resolve_proxies-free (some (seq cs)) (alias t) h = refl
resolve_proxies-free (some (str s)) v h = refl
resolve_proxies-free (some (scalar s)) v h = refl
resolve_proxies-free (some (map s)) v h = refl
resolve_proxies-free (some (alias s)) v h = refl
resolve_proxies-free none v h = refl

update_pair-free :
    (k : Text) (f : Yaml → Yaml × ℕ) (ps : Pairs)
    → ((v : Yaml) → has_sentinel v ≡ false → f v ≡ (v, 0))
    → pairs_have_sentinel ps ≡ false
    → update_pair k f ps ≡ (ps, 0)
unfolding update_pair pairs_have_sentinel
update_pair-free k f end e h = refl
update_pair-free k f (pair j v ps) e h =
    let (hv, hps) = neither (has_sentinel v) _ h in
    elim (Bool-cases (is_key k j)) [
      | inl i ↦ rw (i, e v hv) refl
      | inr i ↦ rw (i, update_pair-free k f ps e hps) refl
    ]

-- A draft in which no text value is one of the three view sentinels is left as it is, whatever the
-- current configuration holds, and no substitution is counted.
pub resolve_view_sentinels-free :
    (draft current : Yaml)
    → has_sentinel draft ≡ false
    → resolve_view_sentinels draft current ≡ (draft, 0)
unfolding resolve_view_sentinels has_sentinel
resolve_view_sentinels-free (map ps) current h =
    rw
      (
        update_pair-free (text "secret") secret ps
            (λ v. substitute-free meta_secret_sentinel held v meta_is) h,
        update_pair-free (text "proxies") proxies ps
            (resolve_proxies-free (get (text "proxies") current)) h,
      )
      refl
  where
    meta_is : is_view_sentinel meta_secret_sentinel ≡ true
    meta_is = unfold is_view_sentinel text_eq in refl

    held : Option Text
    held = as_text (get (text "secret") current)

    secret : Yaml → Yaml × ℕ
    secret = substitute meta_secret_sentinel held

    proxies : Yaml → Yaml × ℕ
    proxies = resolve_proxies (get (text "proxies") current)
resolve_view_sentinels-free (str t) current h = refl
resolve_view_sentinels-free (scalar t) current h = refl
resolve_view_sentinels-free (seq xs) current h = refl
resolve_view_sentinels-free (alias t) current h = refl
