-- ===== src/Deploy/Sentinels/Document.antt =====
-- The values of the root of a draft, once its view sentinels are resolved.
use miharbor.Base.{ℕ, ◌≡◌, refl, ◌∙◌, none, some, if◌then◌else◌, arith, Bool-cases}
use miharbor.Base.Text.{Text, text_eq}
use miharbor.Base.Yaml.{Yaml, str, scalar, map, seq, alias, Pairs, get_pair, get, as_text}
use miharbor.Deploy.Sentinels.{
  substitute, resolve_proxies, update_pair, resolve_view_sentinels, meta_secret_sentinel,
}
use miharbor.Deploy.Sentinels.Laws.{
  secret_key, proxies_key, get_pair-update_pair, secret-update_proxies, proxies-update_secret,
}

module _ (current : Yaml) where
  abbrev resolve_secret : Yaml → Yaml × ℕ
  resolve_secret = substitute meta_secret_sentinel (as_text (get secret_key current))

  abbrev resolve_list : Yaml → Yaml × ℕ
  resolve_list = resolve_proxies (get proxies_key current)

  get-resolved_secret :
      (ps : Pairs)
      → get secret_key (resolve_view_sentinels (map ps) current).0
        ≡ (elim (get_pair secret_key ps) [ none ↦ none | some v ↦ some (resolve_secret v).0 ])
  unfolding resolve_view_sentinels get
  get-resolved_secret ps =
      secret-update_proxies resolve_list (update_pair secret_key resolve_secret ps).0
      ∙ get_pair-update_pair resolve_secret secret_key ps

  -- Where the draft's `secret` is the sentinel and the current one is a text, the resolved draft
  -- has the current text; any other text of the draft stays.
  pub resolved_secret :
      (ps : Pairs) (t s : Text)
      → get secret_key (map ps) ≡ some (str t)
      → as_text (get secret_key current) ≡ some s
      → get secret_key (resolve_view_sentinels (map ps) current).0
        ≡ some (str (if text_eq t meta_secret_sentinel then s else t))
  unfolding get
  resolved_secret ps t s d c =
      get-resolved_secret ps
      ∙ rw (d, c) (unfold substitute in ground (arith, Bool-cases (text_eq t meta_secret_sentinel)))

  -- The proxies are those of the draft, resolved against those of the current document.
  pub get-resolved_proxies :
      (draft : Yaml)
      → get proxies_key (resolve_view_sentinels draft current).0
        ≡ (elim (get proxies_key draft) [ none ↦ none | some v ↦ some (resolve_list v).0 ])
  unfolding resolve_view_sentinels get
  get-resolved_proxies (map ps) =
      get_pair-update_pair resolve_list proxies_key (update_pair secret_key resolve_secret ps).0
      ∙ rw (proxies-update_secret resolve_secret ps)
  get-resolved_proxies (str t) = refl
  get-resolved_proxies (scalar t) = refl
  get-resolved_proxies (seq xs) = refl
  get-resolved_proxies (alias t) = refl
