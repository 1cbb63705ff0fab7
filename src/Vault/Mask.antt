-- ===== src/Vault/Mask.antt =====
-- vault/mask.ts: the walk that replaces secrets by sentinels. The callback threads the state `S` of
-- its owner; `trim` is the standard library's.
pub mod Again
use miharbor.Base.{
  ℕ, ◌+◌, Bool, true, false, ◌||◌, Option, none, some, List, [], ◌∷◌, ◌++◌, if◌then◌else◌, ◌==◌,
  any,
}
use miharbor.Base.Text.{Text, text, text_eq, starts_with, ends_with}
use miharbor.Base.Yaml.{Yaml, str, scalar, map, seq, alias, Pairs, end, pair, Items, nil, cons}

abbrev pub default_secret_fields : List Text
default_secret_fields =
    text "secret"
    ∷ text "private-key"
    ∷ text "pre-shared-key"
    ∷ text "password"
    ∷ text "uuid"
    ∷ text "api_key"
    ∷ text "api-key"
    ∷ text "token"
    ∷ []

abbrev known_non_secret_keys : List Text
known_non_secret_keys = text "public-key" ∷ []

abbrev secret_suffixes : List Text
secret_suffixes = text "-key" ∷ text "-password" ∷ text "-token" ∷ text "-secret" ∷ []

abbrev pub sentinel_prefix : Text
sentinel_prefix = text "$MIHARBOR_VAULT:"

prepend : ℕ → List Text → List Text
prepend c [] = (c ∷ []) ∷ []
prepend c (w ∷ ws) = (c ∷ w) ∷ ws

-- `s.split(',')`
unfoldable pub split_commas : Text → List Text
unfolding prepend
split_commas [] = [] ∷ []
split_commas (c ∷ t) = let rest = split_commas t in if c == 44 then [] ∷ rest else prepend c rest

add_field : Text → List Text → List Text
add_field [] fields = fields
add_field (c ∷ t) fields = (c ∷ t) ∷ fields

-- The entries that are not empty once trimmed.
unfoldable pub added_fields : (Text → Text) → List Text → List Text
unfolding add_field
added_fields trim [] = []
added_fields trim (raw ∷ raws) = add_field (trim raw) (added_fields trim raws)

-- A set of texts, as a list that is only asked for its members.
unfoldable pub resolve_secret_fields : (Text → Text) → Option Text → List Text
unfolding added_fields split_commas
resolve_secret_fields trim none = default_secret_fields
resolve_secret_fields trim (some []) = default_secret_fields
resolve_secret_fields trim (some (c ∷ t)) =
    default_secret_fields ++ added_fields trim (split_commas (c ∷ t))

unfoldable pub is_secret_key : Text → List Text → Bool
is_secret_key key fields =
    if any (text_eq key) known_non_secret_keys
    then false
    else any (text_eq key) fields || any (λ suffix. ends_with suffix key) secret_suffixes

unfoldable pub is_sentinel : Text → Bool
is_sentinel t = starts_with sentinel_prefix t

module _ {S : Type 0} (cb : Text → S → Text × S) (fields : List Text) where
  -- A new node, the number of replacements and the callback's state.
  abbrev pub Walked : Type 0 → Type 0
  Walked A = A × (ℕ × S)

  unfoldable pub replaced : Text → S → Walked Yaml
  replaced t s = (str (cb t s).0, (1, (cb t s).1))

  -- A scalar below a key, which is secret or not; `null` stays.
  unfoldable pub mask_str : Bool → Text → S → Walked Yaml
  unfolding is_sentinel replaced
  mask_str false t s = (str t, (0, s))
  mask_str true t s = if is_sentinel t then (str t, (0, s)) else replaced t s

  unfoldable pub mask_scalar : Bool → Text → S → Walked Yaml
  unfolding is_sentinel replaced
  mask_scalar false t s = (scalar t, (0, s))
  mask_scalar true t s =
      if text_eq t (text "null") || is_sentinel t then (scalar t, (0, s)) else replaced t s

  unfoldable pub is_secret : Yaml → Bool
  unfolding is_secret_key
  is_secret (str t) = is_secret_key t fields
  is_secret (scalar t) = is_secret_key t fields
  is_secret (map ps) = false
  is_secret (seq xs) = false
  is_secret (alias t) = false

  -- `visit` with the visitor of pairs. The Boolean says whether the node is the value of a secret
  -- key; a key that is secret is a scalar, which the walk leaves as it is.
  unfoldable mutual
    unfolding is_secret mask_str mask_scalar

    pub walk : Bool → Yaml → S → Walked Yaml
    walk b (str t) s = mask_str b t s
    walk b (scalar t) s = mask_scalar b t s
    walk b (map ps) s = let (ps', r) = walk_pairs ps s in (map ps', r)
    walk b (seq xs) s = let (xs', r) = walk_items xs s in (seq xs', r)
    walk b (alias t) s = (alias t, (0, s))

    pub walk_pairs : Pairs → S → Walked Pairs
    walk_pairs end s = (end, (0, s))
    walk_pairs (pair k v ps) s =
        let (k', (n, s₁)) = walk false k s in
        let (v', (m, s₂)) = walk (is_secret k) v s₁ in
        let (ps', (p, s₃)) = walk_pairs ps s₂ in (pair k' v' ps', (n + (m + p), s₃))

    pub walk_items : Items → S → Walked Items
    walk_items nil s = (nil, (0, s))
    walk_items (cons x xs) s =
        let (x', (n, s₁)) = walk false x s in
        let (xs', (m, s₂)) = walk_items xs s₁ in (cons x' xs', (n + m, s₂))

  unfoldable pub walk_secrets : Yaml → S → Walked Yaml
  unfolding walk
  walk_secrets doc s = walk false doc s
