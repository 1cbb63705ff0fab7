-- ===== src/Vault/Unmask/Restores.antt =====
-- Unmasking a masked document (vault/vault.ts).
use miharbor.Base.{
  ℕ, ◌≤◌, ◌≡◌, refl, sym, ap, ◌∙◌, subst, inl, inr, Bool, true, false, ◌||◌, Option, none, some,
  List, ◌++◌, if◌then◌else◌, Bool-cases, arith,
}
use miharbor.Base.Text.{Text, text, text_eq, eq_of_text_eq}
use miharbor.Base.Dict.{lookup, lookup-insert, lookup-insert_self}
use miharbor.Base.Yaml.{Yaml, str, scalar, map, seq, alias, Pairs, end, pair, Items, nil, cons}
use miharbor.Vault.Mask.{
  is_sentinel, is_secret, replaced, mask_str, mask_scalar, walk, walk_pairs, walk_items,
  walk_secrets, sentinel_prefix,
}
use miharbor.Vault.Unmask.{
  VaultEntry, Entries, ok, uuid_in, key_text, found, restore_text, restore, restore_pairs,
  restore_items, unmask_entries, Minting, mint, mask_entries,
}
use miharbor.Vault.Unmask.Growing.{
  valued, Extends, prefix-is_sentinel, after-append, restore_text_mono, bind_mono, restore_mono,
  restore_pairs_mono, restore_items_mono,
}

module _ (uuid : ℕ → Text) (now : Text) (references fields : List Text) where
  abbrev minting : Text → Minting → Text × Minting
  minting = mint uuid now references

  -- A number or Boolean below a secret key comes back as its text.
  unfoldable pub texted_scalar : Bool → Text → Yaml
  texted_scalar false t = scalar t
  texted_scalar true t = if text_eq t (text "null") || is_sentinel t then scalar t else str t

  unfoldable mutual
    unfolding texted_scalar

    pub texted : Bool → Yaml → Yaml
    texted b (str t) = str t
    texted b (scalar t) = texted_scalar b t
    texted b (map ps) = map (texted_pairs ps)
    texted b (seq xs) = seq (texted_items xs)
    texted b (alias t) = alias t

    pub texted_pairs : Pairs → Pairs
    texted_pairs end = end
    texted_pairs (pair k v ps) =
        pair (texted false k) (texted (is_secret minting fields k) v) (texted_pairs ps)

    pub texted_items : Items → Items
    texted_items nil = nil
    texted_items (cons x xs) = cons (texted false x) (texted_items xs)

  -- No uuid that is still to be drawn has an entry.
  abbrev pub Fresh : Minting → Type 0
  Fresh m = (i : ℕ) → m.drawn ≤ i → lookup (uuid i) m.entries ≡ none

  abbrev Grows : Minting → Minting → Type 0
  Grows m m' = Extends m.entries m'.entries × Fresh m'

  module _ (differ : (i j : ℕ) → uuid i ≡ uuid j → i ≡ j) where
    mint-Grows : (t : Text) (m : Minting) → Fresh m → Grows m (minting t m).1
    unfolding mint
    mint-Grows t m f = (
      λ u s e. rw lookup-insert (elim (Bool-cases (text_eq (uuid m.drawn) u)) [
        | inl same ↦ cc (f m.drawn (omega arith), eq_of_text_eq (uuid m.drawn) u same, e)
        | inr other ↦ rw other e
      ]),
      λ i l. rw lookup-insert (elim (Bool-cases (text_eq (uuid m.drawn) (uuid i))) [
        | inl same ↦ absurd (omega (arith, l, differ m.drawn i (eq_of_text_eq _ _ same)))
        | inr other ↦ rw other (f i (omega (arith, l)))
      ]),
    )

    mint-value :
        (t : Text) (m : Minting) → valued (lookup (uuid m.drawn) (minting t m).1.entries) ≡ some t
    unfolding mint
    mint-value t m = rw lookup-insert_self refl

    mask_str-Grows :
        (b : Bool) (t : Text) (m : Minting) → Fresh m → Grows m (mask_str minting fields b t m).1.1
    unfolding mask_str replaced
    mask_str-Grows false t m f = (λ u s e. e, f)
    mask_str-Grows true t m f = elim (Bool-cases (is_sentinel t)) [
      | inl e ↦ rw e (λ u s e. e, f)
      | inr e ↦ rw e (mint-Grows t m f)
    ]

    mask_scalar-Grows :
        (b : Bool) (t : Text) (m : Minting)
        → Fresh m
        → Grows m (mask_scalar minting fields b t m).1.1
    unfolding mask_scalar replaced
    mask_scalar-Grows false t m f = (λ u s e. e, f)
    mask_scalar-Grows true t m f = elim (Bool-cases (text_eq t (text "null") || is_sentinel t)) [
      | inl e ↦ rw e (λ u s e. e, f)
      | inr e ↦ rw e (mint-Grows t m f)
    ]

    Grows-trans : (l m n : Minting) → Grows l m → Grows m n → Grows l n
    Grows-trans l m n g h = (λ u s e. h.0 u s (g.0 u s e), h.1)

    mutual
      unfolding walk walk_pairs walk_items

      walk-Grows :
          (b : Bool) (v : Yaml) (m : Minting) → Fresh m → Grows m (walk minting fields b v m).1.1
      walk-Grows b (str t) m f = mask_str-Grows b t m f
      walk-Grows b (scalar t) m f = mask_scalar-Grows b t m f
      walk-Grows b (map ps) m f = walk_pairs-Grows ps m f
      walk-Grows b (seq xs) m f = walk_items-Grows xs m f
      walk-Grows b (alias t) m f = (λ u s e. e, f)

      walk_pairs-Grows :
          (ps : Pairs) (m : Minting) → Fresh m → Grows m (walk_pairs minting fields ps m).1.1
      walk_pairs-Grows end m f = (λ u s e. e, f)
      walk_pairs-Grows (pair k v ps) m f =
          let g = walk-Grows false k m f in
          let m₁ = (walk minting fields false k m).1.1 in
          let h = walk-Grows (is_secret minting fields k) v m₁ g.1 in
          let m₂ = (walk minting fields (is_secret minting fields k) v m₁).1.1 in
          let r = walk_pairs-Grows ps m₂ h.1 in (λ u s e. r.0 u s (h.0 u s (g.0 u s e)), r.1)

      walk_items-Grows :
          (xs : Items) (m : Minting) → Fresh m → Grows m (walk_items minting fields xs m).1.1
      walk_items-Grows nil m f = (λ u s e. e, f)
      walk_items-Grows (cons x xs) m f =
          let g = walk-Grows false x m f in
          let r = walk_items-Grows xs (walk minting fields false x m).1.1 g.1 in
          (λ u s e. r.0 u s (g.0 u s e), r.1)

    found_value :
        (u key t : Text) (o : Option VaultEntry) → valued o ≡ some t → found u key o ≡ ok (str t)
    unfolding found
    found_value u key t none h = cc
    found_value u key t (some a) h = ground (arith, h)

    -- The value of the sentinel that masking has put in place of `t`.
    minted-restored :
        (key t : Text) (m : Minting) (q : Entries)
        → Extends (minting t m).1.entries q
        → restore_text q (some key) (minting t m).0 ≡ ok (str t)
    unfolding restore_text
    minted-restored key t m q x =
        rw (sentinel, is_sentinel-minted)
          (found_value _ key t _ (
            subst (λ u. valued (lookup u q) ≡ some t) (sym at)
              (x (uuid m.drawn) t (mint-value t m))))
      where
        sentinel : (minting t m).0 ≡ sentinel_prefix ++ uuid m.drawn
        sentinel = unfold mint in refl

        is_sentinel-minted : is_sentinel (sentinel_prefix ++ uuid m.drawn) ≡ true
        is_sentinel-minted = prefix-is_sentinel (uuid m.drawn)

        at : uuid_in (sentinel_prefix ++ uuid m.drawn) ≡ uuid m.drawn
        at = after-append sentinel_prefix (uuid m.drawn)

    plain-restored :
        (p : Entries) (key : Option Text) (t : Text) (w : Yaml)
        → is_sentinel t ≡ false
        → restore_text p key t ≡ ok w
        → str t ≡ w
    unfolding restore_text
    plain-restored p none t w s e = cc
    plain-restored p (some key) t w s e = cc (rw s at e)

    replaced-restored :
        (key : Option Text) (t : Text) (m : Minting) (q : Entries) (w : Yaml)
        → (k : Text) × (key ≡ some k)
        → Extends (minting t m).1.entries q
        → is_sentinel t ≡ false
        → restore_text m.entries key t ≡ ok w
        → restore_text q key (minting t m).0 ≡ ok w
    replaced-restored key t m q w (k, h) x s e =
        rw h (minted-restored k t m q x ∙ ap ok (plain-restored m.entries key t w s e))

    str-restored :
        (b : Bool) (key : Option Text) (t : Text) (m : Minting) (q : Entries) (w : Yaml)
        → (b ≡ true → (k : Text) × (key ≡ some k))
        → Extends (mask_str minting fields b t m).1.1.entries q
        → restore_text m.entries key t ≡ ok w
        → restore q key (mask_str minting fields b t m).0 ≡ ok w
    unfolding mask_str replaced restore
    str-restored false key t m q w h x e = restore_text_mono m.entries q key t w x e
    str-restored true key t m q w h x e = elim (Bool-cases (is_sentinel t)) [
      | inl s ↦ rw s (restore_text_mono m.entries q key t w (rw s at x) e)
      | inr s ↦ rw s (replaced-restored key t m q w (h refl) (rw s at x) s e)
    ]

    ||-false : (a b : Bool) → (a || b) ≡ false → b ≡ false
    ||-false false b h = h
    ||-false true b h = cc

    scalar-restored :
        (b : Bool) (key : Option Text) (t : Text) (m : Minting) (q : Entries) (w : Yaml)
        → (b ≡ true → (k : Text) × (key ≡ some k))
        → Extends (mask_scalar minting fields b t m).1.1.entries q
        → restore m.entries key (texted_scalar b t) ≡ ok w
        → restore q key (mask_scalar minting fields b t m).0 ≡ ok w
    unfolding mask_scalar texted_scalar replaced restore
    scalar-restored false key t m q w h x e = e
    scalar-restored true key t m q w h x e =
        elim (Bool-cases (text_eq t (text "null") || is_sentinel t)) [
          | inl s ↦ rw s (rw s at e)
          | inr s ↦ rw s (
              replaced-restored key t m q w (h refl) (rw s at x)
                (||-false (text_eq t (text "null")) _ s) (rw s at e))
        ]

    secret-key : (k : Yaml) → is_secret minting fields k ≡ true → (t : Text) × (key_text k ≡ some t)
    unfolding is_secret
    secret-key (str t) h = (t, refl)
    secret-key (scalar t) h = (t, refl)
    secret-key (map ps) h = cc
    secret-key (seq xs) h = cc
    secret-key (alias t) h = cc

    key_text-walk :
        (k : Yaml) (m : Minting) → key_text (walk minting fields false k m).0 ≡ key_text k
    unfolding walk mask_str mask_scalar
    key_text-walk (str t) m = refl
    key_text-walk (scalar t) m = refl
    key_text-walk (map ps) m = refl
    key_text-walk (seq xs) m = refl
    key_text-walk (alias t) m = refl

    key_text-texted : (k : Yaml) → key_text (texted false k) ≡ key_text k
    unfolding texted texted_scalar
    key_text-texted (str t) = refl
    key_text-texted (scalar t) = refl
    key_text-texted (map ps) = refl
    key_text-texted (seq xs) = refl
    key_text-texted (alias t) = refl

    mutual
      unfolding walk walk_pairs walk_items texted texted_pairs texted_items restore restore_pairs
          restore_items

      walk-restored :
          (b : Bool) (key : Option Text) (v : Yaml) (m : Minting) (q : Entries) (w : Yaml)
          → (b ≡ true → (k : Text) × (key ≡ some k))
          → Fresh m
          → Extends (walk minting fields b v m).1.1.entries q
          → restore m.entries key (texted b v) ≡ ok w
          → restore q key (walk minting fields b v m).0 ≡ ok w
      walk-restored b key (str t) m q w h f x e = str-restored b key t m q w h x e
      walk-restored b key (scalar t) m q w h f x e = scalar-restored b key t m q w h x e
      walk-restored b key (map ps) m q w h f x e =
          bind_mono (restore_pairs m.entries (texted_pairs ps)) _ _ _ w
            (λ a. walk_pairs-restored ps m q a f x) (λ a r. r) e
      walk-restored b key (seq xs) m q w h f x e =
          bind_mono (restore_items m.entries (texted_items xs)) _ _ _ w
            (λ a. walk_items-restored xs m q a f x) (λ a r. r) e
      walk-restored b key (alias t) m q w h f x e = e

      walk_pairs-restored :
          (ps : Pairs) (m : Minting) (q : Entries) (w : Pairs)
          → Fresh m
          → Extends (walk_pairs minting fields ps m).1.1.entries q
          → restore_pairs m.entries (texted_pairs ps) ≡ ok w
          → restore_pairs q (walk_pairs minting fields ps m).0 ≡ ok w
      walk_pairs-restored end m q w f x e = e
      walk_pairs-restored (pair k v ps) m q w f x e =
          let b = is_secret minting fields k in
          let m₁ = (walk minting fields false k m).1.1 in
          let m₂ = (walk minting fields b v m₁).1.1 in
          let g = walk-Grows false k m f in
          let h = walk-Grows b v m₁ g.1 in
          let r = walk_pairs-Grows ps m₂ h.1 in
          bind_mono (restore m.entries none (texted false k)) _ _ _ w
            (λ a.
              walk-restored false none k m q a (λ n. cc) f (λ u s i. x u s (r.0 u s (h.0 u s i))))
            (λ k'.
              bind_mono (restore m.entries (key_text (texted false k)) (texted b v)) _ _ _ w
                (λ a i.
                  subst (λ key. restore q key (walk minting fields b v m₁).0 ≡ ok a)
                    (sym (key_text-walk k m))
                    (walk-restored b (key_text k) v m₁ q a (secret-key k) g.1
                      (λ u s j. x u s (r.0 u s j))
                      (restore_mono m.entries m₁.entries (key_text k) (texted b v) a g.0 (
                        subst (λ key. restore m.entries key (texted b v) ≡ ok a) (key_text-texted k)
                          i))))
                (λ v'.
                  bind_mono (restore_pairs m.entries (texted_pairs ps)) _ _ _ w
                    (λ a i. walk_pairs-restored ps m₂ q a h.1 x (
                      restore_pairs_mono m.entries m₂.entries (texted_pairs ps) a
                        (λ u s j. h.0 u s (g.0 u s j)) i))
                    (λ ps' i. i)))
            e

      walk_items-restored :
          (xs : Items) (m : Minting) (q : Entries) (w : Items)
          → Fresh m
          → Extends (walk_items minting fields xs m).1.1.entries q
          → restore_items m.entries (texted_items xs) ≡ ok w
          → restore_items q (walk_items minting fields xs m).0 ≡ ok w
      walk_items-restored nil m q w f x e = e
      walk_items-restored (cons y ys) m q w f x e =
          let m₁ = (walk minting fields false y m).1.1 in
          let g = walk-Grows false y m f in
          let r = walk_items-Grows ys m₁ g.1 in
          bind_mono (restore m.entries none (texted false y)) _ _ _ w
            (λ a. walk-restored false none y m q a (λ n. cc) f (λ u s h. x u s (r.0 u s h)))
            (λ y'.
              bind_mono (restore_items m.entries (texted_items ys)) _ _ _ w
                (λ a h.
                  walk_items-restored ys m₁ q a g.1 x
                    (restore_items_mono m.entries m₁.entries (texted_items ys) a g.0 h))
                (λ ys' h. h))
            e

    -- Where the uuids differ and those to be drawn have no entry, unmasking a document that has just
    -- been masked gives what unmasking it before would have given, with the numbers and Booleans
    -- below secret keys as texts.
    pub unmask-mask :
        (doc w : Yaml) (m : Minting)
        → Fresh m
        → unmask_entries m.entries (texted false doc) ≡ ok w
        → unmask_entries
            (mask_entries uuid now references fields doc m).1.1.entries
            (mask_entries uuid now references fields doc m).0
          ≡ ok w
    unfolding unmask_entries mask_entries walk_secrets
    unmask-mask doc w m f e =
        walk-restored false none doc m (walk minting fields false doc m).1.1.entries w (λ n. cc) f
          (λ u s h. h) e
