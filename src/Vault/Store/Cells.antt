-- ===== src/Vault/Store/Cells.antt =====
-- An instance of the vault's codec, for tests.
use miharbor.Base.{refl, Option, none, some, List, [], ◌∷◌}
use miharbor.Vault.Store.File.{VaultCodec, VaultFile}

-- A file of cells, of which one is the whole payload.
pub data Cell : Type 0 where
  packed : VaultFile → Cell
  pad : Cell

abbrev pub unpacked : List Cell → Option VaultFile
unpacked [] = none
unpacked (pad ∷ cs) = none
unpacked (packed f ∷ cs) = some f

abbrev pub four : List Cell → List Cell
four cs = pad ∷ pad ∷ pad ∷ pad ∷ cs

abbrev pub twelve : List Cell
twelve = four (four (four []))

abbrev pub cells : VaultCodec
cells = record {
  Byte = Cell;
  encrypt = λ iv plain. (plain, four twelve);
  decrypt = λ iv tag cipher. some cipher;
  stringify = λ f. packed f ∷ [];
  parse = unpacked;
  decrypt-encrypt = λ iv plain. refl;
  length-tag = λ iv plain. refl;
  parse-stringify = λ f. refl;
}
