-- ===== src/Vault/Unmask/Growing.antt =====
-- Unmasking with more entries (vault/vault.ts).
use miharbor.Base.{◌≡◌, refl, inl, inr, true, Option, none, some, [], ◌∷◌, ◌++◌, Bool-cases, arith}
use miharbor.Base.Text.{Text, starts_with}
use miharbor.Base.Dict.{lookup}
use miharbor.Base.Yaml.{Yaml, str, scalar, map, seq, alias, Pairs, end, pair, Items, nil, cons}
use miharbor.Vault.Mask.{is_sentinel, sentinel_prefix}
use miharbor.Vault.Unmask.{
  VaultEntry, Entries, Unmasked, ok, missing, ◌>>=◌, after, uuid_in, key_text, found, restore_text,
  restore, restore_pairs, restore_items,
}

abbrev pub valued : Option VaultEntry → Option Text
valued none = none
valued (some e) = some e.value

-- Each value of `p` is a value of `q` under the same uuid.
abbrev pub Extends : Entries → Entries → Type 0
Extends p q = (u s : Text) → valued (lookup u p) ≡ some s → valued (lookup u q) ≡ some s

pub after-append : (p t : Text) → after p (p ++ t) ≡ t
unfolding after
after-append [] t = refl
after-append (c ∷ p) t = after-append p t

starts_with-append : (p t : Text) → starts_with p (p ++ t) ≡ true
unfolding starts_with
starts_with-append [] t = refl
starts_with-append (c ∷ p) t = ground (arith, starts_with-append p t)

pub prefix-is_sentinel : (t : Text) → is_sentinel (sentinel_prefix ++ t) ≡ true
unfolding is_sentinel
prefix-is_sentinel t = starts_with-append sentinel_prefix t

found_mono :
    (u key : Text) (o o' : Option VaultEntry) (w : Yaml)
    → ((s : Text) → valued o ≡ some s → valued o' ≡ some s)
    → found u key o ≡ ok w
    → found u key o' ≡ ok w
unfolding found
found_mono u key none o' w h e = cc
found_mono u key (some a) none w h e = cc (h a.value refl)
found_mono u key (some a) (some b) w h e = ground (arith, h a.value refl)

pub restore_text_mono :
    (p q : Entries) (key : Option Text) (t : Text) (w : Yaml)
    → Extends p q
    → restore_text p key t ≡ ok w
    → restore_text q key t ≡ ok w
unfolding restore_text
restore_text_mono p q none t w x e = e
restore_text_mono p q (some key) t w x e = elim (Bool-cases (is_sentinel t)) [
  | inl s ↦ rw s (found_mono (uuid_in t) key _ _ w (x (uuid_in t)) (rw s at e))
  | inr s ↦ rw s (rw s at e)
]

pub bind_mono :
    {A B : Type 0} (m m' : Unmasked A) (f f' : A → Unmasked B) (b : B)
    → ((a : A) → m ≡ ok a → m' ≡ ok a)
    → ((a : A) → f a ≡ ok b → f' a ≡ ok b)
    → (m >>= f) ≡ ok b
    → (m' >>= f') ≡ ok b
bind_mono (ok a) m' f f' b g h e = rw (g a refl) (h a e)
bind_mono (missing u k) m' f f' b g h e = cc

mutual
  unfolding restore restore_pairs restore_items

  pub restore_mono :
      (p q : Entries) (key : Option Text) (v : Yaml) (w : Yaml)
      → Extends p q
      → restore p key v ≡ ok w
      → restore q key v ≡ ok w
  restore_mono p q key (str t) w x e = restore_text_mono p q key t w x e
  restore_mono p q key (scalar t) w x e = e
  restore_mono p q key (map ps) w x e =
      bind_mono (restore_pairs p ps) (restore_pairs q ps) _ _ w (λ a. restore_pairs_mono p q ps a x)
        (λ a h. h) e
  restore_mono p q key (seq xs) w x e =
      bind_mono (restore_items p xs) (restore_items q xs) _ _ w (λ a. restore_items_mono p q xs a x)
        (λ a h. h) e
  restore_mono p q key (alias t) w x e = e

  pub restore_pairs_mono :
      (p q : Entries) (ps w : Pairs)
      → Extends p q
      → restore_pairs p ps ≡ ok w
      → restore_pairs q ps ≡ ok w
  restore_pairs_mono p q end w x e = e
  restore_pairs_mono p q (pair k v ps) w x e =
      bind_mono (restore p none k) (restore q none k) _ _ w (λ a. restore_mono p q none k a x)
        (λ k'.
          bind_mono (restore p (key_text k) v) (restore q (key_text k) v) _ _ w
            (λ a. restore_mono p q (key_text k) v a x)
            (λ v'.
              bind_mono (restore_pairs p ps) (restore_pairs q ps) _ _ w
                (λ a. restore_pairs_mono p q ps a x) (λ ps' h. h)))
        e

  pub restore_items_mono :
      (p q : Entries) (xs w : Items)
      → Extends p q
      → restore_items p xs ≡ ok w
      → restore_items q xs ≡ ok w
  restore_items_mono p q nil w x e = e
  restore_items_mono p q (cons y ys) w x e =
      bind_mono (restore p none y) (restore q none y) _ _ w (λ a. restore_mono p q none y a x)
        (λ y'.
          bind_mono (restore_items p ys) (restore_items q ys) _ _ w
            (λ a. restore_items_mono p q ys a x) (λ ys' h. h))
        e
