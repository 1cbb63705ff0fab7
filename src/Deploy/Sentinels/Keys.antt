-- ===== src/Deploy/Sentinels/Keys.antt =====
-- The WireGuard keys of the proxies of a draft, once its view sentinels are resolved.
use miharbor.Base.{
  ℕ, ◌≡◌, refl, ◌∙◌, ap, true, Option, none, some, ◌∷◌, if◌then◌else◌, arith, Bool-cases, inl, inr,
}
use miharbor.Base.Text.{Text, text, text_eq, eq_of_text_eq}
use miharbor.Base.Yaml.{
  Yaml, str, scalar, map, seq, alias, Pairs, end, pair, is_key, get_pair, get, as_text,
}
use miharbor.Deploy.Sentinels.{
  substitute, expected, resolve_value, resolve_pairs, resolve_against, resolve_view_sentinels,
  wireguard_private_key_sentinel, wireguard_pre_shared_key_sentinel,
}
use miharbor.Deploy.Sentinels.Proxies.{
  proxies_of, proxy_at, value_in, proxy_value, last_named, proxy_at-against,
}

-- The two keys of a WireGuard proxy, and what is shown in place of each.
pub data WireguardKey : Type 0 where
  private_key pre_shared_key : WireguardKey

abbrev pub key_of : WireguardKey → Text
key_of private_key = text "private-key"
key_of pre_shared_key = text "pre-shared-key"

abbrev pub sentinel_of : WireguardKey → Text
sentinel_of private_key = wireguard_private_key_sentinel
sentinel_of pre_shared_key = wireguard_pre_shared_key_sentinel

get_pair-resolve_pairs :
    (k : Text) (c : Yaml) (ps : Pairs)
    → get_pair k (resolve_pairs c ps).0
      ≡ (elim (get_pair k ps) [ none ↦ none | some v ↦ some (resolve_value c (str k) v).0 ])
unfolding get_pair resolve_pairs
get_pair-resolve_pairs k c end = refl
get_pair-resolve_pairs k c (pair j v ps) = elim (Bool-cases (is_key k j)) [
  | inl e ↦ rw (e, key_is k j e)
  | inr e ↦ rw e (get_pair-resolve_pairs k c ps)
]
  where
    key_is : (k : Text) (j : Yaml) → is_key k j ≡ true → j ≡ str k
    key_is k (str t) h = ap str (eq_of_text_eq t k h)
    key_is k (scalar t) h = cc
    key_is k (map ps) h = cc
    key_is k (seq xs) h = cc
    key_is k (alias t) h = cc

expected-key_of : (k : WireguardKey) → expected (some (key_of k)) ≡ some (sentinel_of k)
unfolding expected
expected-key_of private_key = unfold text_eq in refl
expected-key_of pre_shared_key = unfold text_eq in refl

-- What becomes of a text of the draft, beside the text that the current document holds, if any.
abbrev pub restored : Text → Option Text → Text → Text
restored sentinel none t = t
restored sentinel (some s) t = if text_eq t sentinel then s else t

substitute-restored :
    (sentinel t : Text) (o : Option Text)
    → (substitute sentinel o (str t)).0 ≡ str (restored sentinel o t)
unfolding substitute
substitute-restored sentinel t none = refl
substitute-restored sentinel t (some s) = ground (arith, Bool-cases (text_eq t sentinel))

get-resolve_against :
    (k : WireguardKey) (item : Yaml) (o : Option Yaml) (t : Text)
    → get (key_of k) item ≡ some (str t)
    → get (key_of k) (resolve_against o item).0
      ≡ some (str (restored (sentinel_of k) (as_text (value_in (key_of k) o)) t))
unfolding resolve_against get
get-resolve_against k item none t d = d
get-resolve_against k (map ps) (some c) t d =
    get_pair-resolve_pairs (key_of k) c ps
    ∙ rw (d, expected-key_of k)
        (ap some (substitute-restored (sentinel_of k) t (as_text (get (key_of k) c))))
get-resolve_against k (str u) (some c) t d = cc
get-resolve_against k (scalar u) (some c) t d = cc
get-resolve_against k (seq xs) (some c) t d = cc
get-resolve_against k (alias u) (some c) t d = cc

-- For `private-key` and `pre-shared-key` alike: let a proxy of the draft have a name that is not
-- empty, and a text under the key. If the last proxy of the current document with that name has a
-- text under the key too, and the draft's text is the sentinel of that very key, the resolved proxy
-- has the current text; in every other case the draft's text stays.
pub resolved_wireguard_key :
    (draft current : Yaml) (i : ℕ) (item : Yaml) (c : ℕ) (n : Text) (k : WireguardKey) (t : Text)
    → proxy_at i draft ≡ some item
    → get (text "name") item ≡ some (str (c ∷ n))
    → get (key_of k) item ≡ some (str t)
    → proxy_value i (key_of k) (resolve_view_sentinels draft current).0
      ≡ some (
          str (
            restored
              (sentinel_of k)
              (as_text (value_in (key_of k) (last_named (c ∷ n) (proxies_of current))))
              t))
resolved_wireguard_key draft current i item c n k t here name d =
    ap (value_in (key_of k)) (proxy_at-against draft current i item c n here name)
    ∙ get-resolve_against k item (last_named (c ∷ n) (proxies_of current)) t d
