-- ===== src/Vault/Store.antt =====
-- `createVault` of vault/vault.ts: the encrypted file and the operations on its entries. Random
-- values (uuids, the initialisation vector) and the time are arguments; each operation reads the
-- file afresh.
pub mod File
pub mod Sweeps
pub mod Sealed
pub mod References
pub mod Cells
mod Tests
use miharbor.Base.{
  ℕ, ◌+◌, Bool, true, false, ◌&&◌, not, Option, none, some, List, [], ◌∷◌, ◌++◌, map, if◌then◌else◌,
  ltb, is_some, any, ◌==◌,
}
use miharbor.Base.Text.{Text, text_eq}
use miharbor.Base.Dict.{lookup, insert, erase}
use miharbor.Base.Yaml.{Yaml}
use miharbor.Vault.Unmask.{VaultEntry, Entries, Unmasked, Minting, mask_entries, unmask_entries}
use miharbor.Vault.Store.File.{
  VaultCodec, VaultError, missing_secret, VaultFile, Read, ok, failed, read_payload, write_payload,
}

-- The entry of a stored value, which no snapshot refers to yet.
abbrev stored : Text → Text → VaultEntry
stored value now = record { value = value; created = now; referenced_by = [] }

abbrev pub value_of : Option VaultEntry → Option Text
value_of none = none
value_of (some e) = some e.value

abbrev add_known : Text → Option VaultEntry → List (Text × Text) → List (Text × Text)
add_known uuid none out = out
add_known uuid (some e) out = insert uuid e.value out

unfoldable pub collect : Entries → List Text → List (Text × Text) → List (Text × Text)
collect entries [] out = out
collect entries (u ∷ us) out = collect entries us (add_known u (lookup u entries) out)

abbrev pub owners : Option Text → List Text
owners none = []
owners (some []) = []
owners (some (c ∷ id)) = (c ∷ id) ∷ []

abbrev pub none_drawn : Entries → Minting
none_drawn entries = record { drawn = 0; entries = entries; minted = [] }

abbrev pub unmasked : Unmasked Yaml → Read Yaml
unmasked (Unmasked.ok doc) = ok doc
unmasked (Unmasked.missing uuid key) = failed (missing_secret uuid key)

abbrev pub is_in : Text → List Text → Bool
is_in u us = any (text_eq u) us

abbrev pub keys : Entries → List Text
keys = map λ p. p.0

-- The loop of `gc` over the keys, with the count of removed entries.
unfoldable pub gc_keys : List Text → List Text → Entries → ℕ → Entries × ℕ
gc_keys live [] entries n = (entries, n)
gc_keys live (u ∷ us) entries n =
    if is_in u live then gc_keys live us entries n else gc_keys live us (erase u entries) (n + 1)

-- The loop of `gcSet`.
unfoldable pub gc_listed : List Text → Entries → ℕ → Entries × ℕ
gc_listed [] entries n = (entries, n)
gc_listed (u ∷ us) entries n =
    if is_some (lookup u entries)
    then gc_listed us (erase u entries) (n + 1)
    else gc_listed us entries n

abbrev pub refer : Text → Text → Option VaultEntry → Entries → Bool → Entries × Bool
refer id u none entries changed = (entries, changed)
refer id u (some e) entries changed =
    if is_in id e.referenced_by
    then (entries, changed)
    else (insert u (record e { referenced_by = e.referenced_by ++ id ∷ [] }) entries, true)

-- The loop of `addReferences`, with the flag `changed`.
unfoldable pub refer_all : Text → List Text → Entries → Bool → Entries × Bool
refer_all id [] entries changed = (entries, changed)
refer_all id (u ∷ us) entries changed =
    let (entries', changed') = refer id u (lookup u entries) entries changed in
    refer_all id us entries' changed'

-- `splice` at the first place of the id.
unfoldable pub without_first : Text → List Text → List Text
without_first id [] = []
without_first id (r ∷ rs) = if text_eq r id then rs else r ∷ without_first id rs

unfoldable pub drop_references : Text → Entries → Entries × Bool
unfolding without_first
drop_references id [] = ([], false)
drop_references id ((u, e) ∷ entries) =
    let (entries', changed) = drop_references id entries in
    if is_in id e.referenced_by
    then ((u, record e { referenced_by = without_first id e.referenced_by }) ∷ entries', true)
    else ((u, e) ∷ entries', changed)

module _ (codec : VaultCodec) where
  open codec use {Byte}

  -- The state is the file, if there is one.
  abbrev pub File : Type 0
  File = Option (List Byte)

  infixl 5 ◌>>=◌
  abbrev ◌>>=◌ : {A : Type 0} → Read Entries → (Entries → Read A × File) → File → Read A × File
  ◌>>=◌ (ok entries) f file = f entries
  ◌>>=◌ (failed e) f file = (failed e, file)

  unfoldable pub store : List Byte → Text → Text → Text → File → Read Text × File
  unfolding read_payload write_payload
  store iv uuid now value file =
      (read_payload codec file >>= λ entries.
      (ok uuid, some (write_payload codec iv (insert uuid (stored value now) entries))))
        file

  abbrev pub resolved : Text → Read Entries → Read (Option Text)
  resolved uuid (ok entries) = ok (value_of (lookup uuid entries))
  resolved uuid (failed e) = failed e

  unfoldable pub resolve : Text → File → Read (Option Text)
  unfolding read_payload
  resolve uuid file = resolved uuid (read_payload codec file)

  abbrev collected : List Text → Read Entries → Read (List (Text × Text))
  collected uuids (ok entries) = ok (collect entries uuids [])
  collected uuids (failed e) = failed e

  -- Without uuids the file is not read.
  unfoldable pub resolve_many : List Text → File → Read (List (Text × Text))
  unfolding collect read_payload
  resolve_many [] file = ok []
  resolve_many (u ∷ us) file = collected (u ∷ us) (read_payload codec file)

  -- The masked document, and the uuids minted for it, newest first.
  unfoldable pub mask_doc :
      List Byte
      → (ℕ → Text)
      → Text
      → Option Text
      → List Text
      → Yaml
      → File
      → Read (Yaml × List Text) × File
  unfolding mask_entries read_payload write_payload
  mask_doc iv uuid now snapshot_id fields doc file =
      (read_payload codec file >>= λ entries.
      let (doc', r) = mask_entries uuid now (owners snapshot_id) fields doc (none_drawn entries) in
      (ok (doc', r.1.minted), some (write_payload codec iv r.1.entries)))
        file

  abbrev pub unmask_read : Yaml → Read Entries → Read Yaml
  unmask_read doc (ok entries) = unmasked (unmask_entries entries doc)
  unmask_read doc (failed e) = failed e

  unfoldable pub unmask_doc : Yaml → File → Read Yaml
  unfolding unmask_entries read_payload
  unmask_doc doc file = unmask_read doc (read_payload codec file)

  -- The file is written where something was removed.
  abbrev pub swept : List Byte → File → Entries × ℕ → Read ℕ × File
  swept iv file (entries, n) =
      (ok n, (if ltb 0 n then some (write_payload codec iv entries) else file))

  unfoldable pub gc : List Byte → List Text → File → Read ℕ × File
  unfolding gc_keys read_payload write_payload
  gc iv live file =
      (read_payload codec file >>= λ entries. swept iv file (gc_keys live (keys entries) entries 0))
        file

  unfoldable pub gc_set : List Byte → List Text → File → Read ℕ × File
  unfolding gc_listed read_payload write_payload
  gc_set iv [] file = (ok 0, file)
  gc_set iv (u ∷ us) file =
      (read_payload codec file >>= λ entries. swept iv file (gc_listed (u ∷ us) entries 0)) file

  abbrev pub rewritten : List Byte → File → Entries × Bool → Read (Unit {0}) × File
  rewritten iv file (entries, changed) =
      (ok tt, (if changed then some (write_payload codec iv entries) else file))

  unfoldable pub add_references : List Byte → Text → List Text → File → Read (Unit {0}) × File
  unfolding refer_all read_payload write_payload
  add_references iv id uuids file =
      (read_payload codec file >>= λ entries. rewritten iv file (refer_all id uuids entries false))
        file

  unfoldable pub drop_snapshot_references : List Byte → Text → File → Read (Unit {0}) × File
  unfolding drop_references read_payload write_payload
  drop_snapshot_references iv id file =
      (read_payload codec file >>= λ entries. rewritten iv file (drop_references id entries)) file
