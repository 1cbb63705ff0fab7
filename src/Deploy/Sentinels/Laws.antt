-- ===== src/Deploy/Sentinels/Laws.antt =====
-- What `doc.get` finds after a pair of the document has been rewritten in place.
use miharbor.Base.{ℕ, ◌≡◌, refl, true, false, none, some, arith, Bool-cases, inl, inr}
use miharbor.Base.Text.{Text, text, text_eq, eq_of_text_eq}
use miharbor.Base.Yaml.{Yaml, str, scalar, map, seq, alias, Pairs, end, pair, is_key, get_pair}
use miharbor.Deploy.Sentinels.{update_pair}

abbrev pub secret_key : Text
secret_key = text "secret"

abbrev pub proxies_key : Text
proxies_key = text "proxies"

keys_differ : (k : Yaml) → is_key secret_key k ≡ true → is_key proxies_key k ≡ false
unfolding is_key
keys_differ (str t) h = rw (eq_of_text_eq t secret_key h) (unfold text_eq in refl)
keys_differ (scalar t) h = cc
keys_differ (map ps) h = cc
keys_differ (seq xs) h = cc
keys_differ (alias t) h = cc

module _ (f : Yaml → Yaml × ℕ) where
  pub get_pair-update_pair :
      (k : Text) (ps : Pairs)
      → get_pair k (update_pair k f ps).0
        ≡ (elim (get_pair k ps) [ none ↦ none | some v ↦ some (f v).0 ])
  unfolding get_pair update_pair
  get_pair-update_pair k end = refl
  get_pair-update_pair k (pair j v ps) = elim (Bool-cases (is_key k j)) [
    | inl e ↦ rw (e, e)
    | inr e ↦ rw (e, e) (get_pair-update_pair k ps)
  ]

  pub secret-update_proxies :
      (ps : Pairs) → get_pair secret_key (update_pair proxies_key f ps).0 ≡ get_pair secret_key ps
  unfolding get_pair update_pair
  secret-update_proxies end = refl
  secret-update_proxies (pair j v ps) = ground (
    arith,
    keys_differ j,
    secret-update_proxies ps,
    Bool-cases (is_key secret_key j),
    Bool-cases (is_key proxies_key j),
  )

  pub proxies-update_secret :
      (ps : Pairs) → get_pair proxies_key (update_pair secret_key f ps).0 ≡ get_pair proxies_key ps
  unfolding get_pair update_pair
  proxies-update_secret end = refl
  proxies-update_secret (pair j v ps) = ground (
    arith,
    keys_differ j,
    proxies-update_secret ps,
    Bool-cases (is_key secret_key j),
    Bool-cases (is_key proxies_key j),
  )
