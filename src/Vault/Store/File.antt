-- ===== src/Vault/Store/File.antt =====
-- The vault's file (readPayload and writePayload of vault/vault.ts). The cipher of node:crypto and
-- JSON are parameters, with the laws that the code relies on.
use miharbor.Base.{
  ℕ, ◌+◌, ◌≡◌, Option, none, some, List, [], ◌++◌, if◌then◌else◌, ltb, ◌==◌, length, take, drop,
}
use miharbor.Base.Text.{Text}
use miharbor.Vault.Unmask.{Entries}

-- `VaultPayload`
pub record VaultFile : Type 0 where
  pub version : ℕ
  pub entries : Entries

-- AES-256-GCM with the vault's key, and the bytes of a JSON text. `encrypt` gives the ciphertext and
-- the tag.
pub record VaultCodec : Type 1 where
  pub Byte : Type 0
  pub encrypt : (iv plain : List Byte) → List Byte × List Byte
  pub decrypt : (iv tag cipher : List Byte) → Option (List Byte)
  pub stringify : VaultFile → List Byte
  pub parse : List Byte → Option VaultFile
  pub decrypt-encrypt :
      (iv plain : List Byte) → decrypt iv (encrypt iv plain).1 (encrypt iv plain).0 ≡ some plain
  pub length-tag : (iv plain : List Byte) → length (encrypt iv plain).1 ≡ 16
  pub parse-stringify : (f : VaultFile) → parse (stringify f) ≡ some f

-- `VaultCorruptError`, by its reasons, and `VaultMissingSecretError`.
pub data VaultError : Type 0 where
  truncated undecryptable unparseable : VaultError
  wrong_version : ℕ → VaultError
  missing_secret : Text → Text → VaultError

pub data Read (A : Type 0) : Type 0 where
  ok : A → Read A
  failed : VaultError → Read A

abbrev pub vault_version : ℕ
vault_version = 1

abbrev iv_len : ℕ
iv_len = 12

abbrev tag_len : ℕ
tag_len = 16

abbrev checked_version : VaultFile → Read Entries
checked_version f =
    if f.version == vault_version then ok f.entries else failed (wrong_version f.version)

abbrev parsed : Option VaultFile → Read Entries
parsed none = failed unparseable
parsed (some f) = checked_version f

module _ (codec : VaultCodec) where
  open codec use {Byte, encrypt, decrypt, stringify, parse}

  abbrev decrypted : Option (List Byte) → Read Entries
  decrypted none = failed undecryptable
  decrypted (some plain) = parsed (parse plain)

  unfoldable pub read_bytes : List Byte → Read Entries
  read_bytes buf =
      if ltb (length buf) (iv_len + tag_len)
      then failed truncated
      else decrypted
          (decrypt (take iv_len buf) (take tag_len (drop iv_len buf)) (drop (iv_len + tag_len) buf))

  -- Without a file the vault is empty.
  unfoldable pub read_payload : Option (List Byte) → Read Entries
  unfolding read_bytes
  read_payload none = ok []
  read_payload (some buf) = read_bytes buf

  unfoldable pub write_payload : List Byte → Entries → List Byte
  write_payload iv entries =
      let (cipher, tag) =
        encrypt iv (stringify (record { version = vault_version; entries = entries })) in
      iv ++ (tag ++ cipher)
