-- ===== src/Vault/Unmask.antt =====
-- `unmaskDoc` and the callback of `maskDoc` of vault/vault.ts, on the entries of the vault. A uuid
-- that is a property of `Object.prototype` is left out: the code finds that property.
pub mod Growing
pub mod Restores
use miharbor.Base.{
  ℕ, suc, Bool, true, false, Option, none, some, List, [], ◌∷◌, ◌++◌, if◌then◌else◌,
}
use miharbor.Base.Text.{Text, text}
use miharbor.Base.Dict.{lookup, insert}
use miharbor.Base.Yaml.{Yaml, str, scalar, map, seq, alias, Pairs, end, pair, Items, nil, cons}
use miharbor.Vault.Mask.{is_sentinel, sentinel_prefix, walk_secrets}

pub record VaultEntry : Type 0 where
  pub value : Text
  pub created : Text
  pub referenced_by : List Text

-- `payload.entries`
abbrev pub Entries : Type 0
Entries = List (Text × VaultEntry)

-- A document, or a `VaultMissingSecretError` with the uuid and the key.
pub data Unmasked (A : Type 0) : Type 0 where
  ok : A → Unmasked A
  missing : Text → Text → Unmasked A

infixl 5 ◌>>=◌
abbrev pub ◌>>=◌ : {A B : Type 0} → Unmasked A → (A → Unmasked B) → Unmasked B
ok a >>= f = f a
missing uuid key >>= f = missing uuid key

-- `v.slice(SENTINEL_PREFIX.length)`
unfoldable pub after : Text → Text → Text
after [] t = t
after (c ∷ p) [] = []
after (c ∷ p) (d ∷ t) = after p t

abbrev pub uuid_in : Text → Text
uuid_in t = after sentinel_prefix t

-- The text of a key that is a scalar.
abbrev pub key_text : Yaml → Option Text
key_text (str t) = some t
key_text (scalar t) = some t
key_text (map ps) = none
key_text (seq xs) = none
key_text (alias t) = none

unfoldable pub found : Text → Text → Option VaultEntry → Unmasked Yaml
found uuid key none = missing uuid key
found uuid key (some e) = ok (str e.value)

-- A text below a scalar key, if the key is one.
unfoldable pub restore_text : Entries → Option Text → Text → Unmasked Yaml
unfolding found
restore_text entries none t = ok (str t)
restore_text entries (some key) t =
    if is_sentinel t then found (uuid_in t) key (lookup (uuid_in t) entries) else ok (str t)

-- `visit` with the visitor of `unmaskDoc`. What an error leaves of the document is not kept.
unfoldable mutual
  unfolding restore_text

  pub restore : Entries → Option Text → Yaml → Unmasked Yaml
  restore entries key (str t) = restore_text entries key t
  restore entries key (scalar t) = ok (scalar t)
  restore entries key (map ps) = do ps' ← restore_pairs entries ps; ok (map ps')
  restore entries key (seq xs) = do xs' ← restore_items entries xs; ok (seq xs')
  restore entries key (alias t) = ok (alias t)

  pub restore_pairs : Entries → Pairs → Unmasked Pairs
  restore_pairs entries end = ok end
  restore_pairs entries (pair k v ps) = do
    k' ← restore entries none k
    v' ← restore entries (key_text k) v
    ps' ← restore_pairs entries ps
    ok (pair k' v' ps')

  pub restore_items : Entries → Items → Unmasked Items
  restore_items entries nil = ok nil
  restore_items entries (cons x xs) = do
    x' ← restore entries none x
    xs' ← restore_items entries xs
    ok (cons x' xs')

unfoldable pub unmask_entries : Entries → Yaml → Unmasked Yaml
unfolding restore
unmask_entries entries doc = restore entries none doc

-- What the callback of `maskDoc` keeps: how many uuids have been drawn, the entries, and the uuids
-- minted, newest first.
pub record Minting : Type 0 where
  pub drawn : ℕ
  pub entries : Entries
  pub minted : List Text

module _ (uuid : ℕ → Text) (now : Text) (references : List Text) where
  unfoldable pub mint : Text → Minting → Text × Minting
  mint value m = (
    sentinel_prefix ++ uuid m.drawn,
    record {
      drawn = suc m.drawn;
      entries =
          insert (uuid m.drawn)
            (record { value = value; created = now; referenced_by = references }) m.entries;
      minted = uuid m.drawn ∷ m.minted;
    },
  )

  unfoldable pub mask_entries : List Text → Yaml → Minting → Yaml × (ℕ × Minting)
  mask_entries fields doc m = walk_secrets mint fields doc m
