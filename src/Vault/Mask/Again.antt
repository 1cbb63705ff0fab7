-- ===== src/Vault/Mask/Again.antt =====
-- Masking a masked document.
use miharbor.Base.{◌≡◌, refl, ◌||◌, Bool, true, false, List, Bool-cases, inl, inr}
use miharbor.Base.Text.{Text, text, text_eq}
use miharbor.Base.Yaml.{Yaml, str, scalar, map, seq, alias, Pairs, end, pair, Items, nil, cons}
use miharbor.Vault.Mask.{
  is_sentinel, is_secret, replaced, mask_str, mask_scalar, walk, walk_pairs, walk_items,
  walk_secrets,
}

module _ {S T : Type 0} (cb : Text → S → Text × S) (cb' : Text → T → Text × T) (fields : List Text)
    (sentinels : (t : Text) (s : S) → is_sentinel (cb t s).0 ≡ true) where
  mask_str-sentinel :
      (b : Bool) (t : Text) (r : T)
      → is_sentinel t ≡ true
      → mask_str cb' fields b t r ≡ (str t, (0, r))
  unfolding mask_str
  mask_str-sentinel true t r h = rw h refl
  mask_str-sentinel false t r h = refl

  str_again :
      (b : Bool) (t : Text) (s : S) (r : T)
      → walk cb' fields b (mask_str cb fields b t s).0 r ≡ ((mask_str cb fields b t s).0, (0, r))
  unfolding walk mask_str replaced
  str_again false t s r = refl
  str_again true t s r = elim (Bool-cases (is_sentinel t)) [
    | inl e ↦ rw (e, mask_str-sentinel true t r e) refl
    | inr e ↦ rw (e, mask_str-sentinel true (cb t s).0 r (sentinels t s)) refl
  ]

  scalar_again :
      (b : Bool) (t : Text) (s : S) (r : T)
      → walk cb' fields b (mask_scalar cb fields b t s).0 r
        ≡ ((mask_scalar cb fields b t s).0, (0, r))
  unfolding walk mask_scalar replaced
  scalar_again false t s r = refl
  scalar_again true t s r = elim (Bool-cases (text_eq t (text "null") || is_sentinel t)) [
    | inl e ↦ rw (e, e) refl
    | inr e ↦ rw (e, mask_str-sentinel true (cb t s).0 r (sentinels t s)) refl
  ]

  is_secret-walk :
      (k : Yaml) (s : S) → is_secret cb' fields (walk cb fields false k s).0 ≡ is_secret cb fields k
  unfolding is_secret walk mask_str mask_scalar
  is_secret-walk (str t) s = refl
  is_secret-walk (scalar t) s = refl
  is_secret-walk (map ps) s = refl
  is_secret-walk (seq xs) s = refl
  is_secret-walk (alias t) s = refl

  mutual
    unfolding walk walk_pairs walk_items

    walk-again :
        (b : Bool) (v : Yaml) (s : S) (r : T)
        → walk cb' fields b (walk cb fields b v s).0 r ≡ ((walk cb fields b v s).0, (0, r))
    walk-again b (str t) s r = str_again b t s r
    walk-again b (scalar t) s r = scalar_again b t s r
    walk-again b (map ps) s r = rw (walk_pairs-again ps s r) refl
    walk-again b (seq xs) s r = rw (walk_items-again xs s r) refl
    walk-again b (alias t) s r = refl

    walk_pairs-again :
        (ps : Pairs) (s : S) (r : T)
        → walk_pairs cb' fields (walk_pairs cb fields ps s).0 r
          ≡ ((walk_pairs cb fields ps s).0, (0, r))
    walk_pairs-again end s r = refl
    walk_pairs-again (pair k v ps) s r =
        rw
          (
            walk-again false k s r,
            is_secret-walk k s,
            walk-again (is_secret cb fields k) v (walk cb fields false k s).1.1 r,
            walk_pairs-again ps
                (walk cb fields (is_secret cb fields k) v (walk cb fields false k s).1.1).1.1 r,
          )
          refl

    walk_items-again :
        (xs : Items) (s : S) (r : T)
        → walk_items cb' fields (walk_items cb fields xs s).0 r
          ≡ ((walk_items cb fields xs s).0, (0, r))
    walk_items-again nil s r = refl
    walk_items-again (cons x xs) s r =
        rw (walk-again false x s r, walk_items-again xs (walk cb fields false x s).1.1 r) refl

  -- Where the callback that masked a document has given sentinels only, masking it again with the
  -- same secret fields, by any callback, calls that callback for nothing: the document and the
  -- callback's state stay, and no replacement is counted.
  pub walk_secrets-again :
      (doc : Yaml) (s : S) (r : T)
      → walk_secrets cb' fields (walk_secrets cb fields doc s).0 r
        ≡ ((walk_secrets cb fields doc s).0, (0, r))
  unfolding walk_secrets
  walk_secrets-again doc s r = walk-again false doc s r
