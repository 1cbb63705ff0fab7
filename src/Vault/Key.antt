-- ===== src/Vault/Key.antt =====
-- The key of the vault (parseHexKey and loadOrGenerateKey of vault/vault.ts). The state is the text
-- of the key file, if there is one; the fresh random bytes are an argument.
pub mod Again
mod Tests
use miharbor.Base.{
  ℕ, ◌+◌, ◌-◌, ◌*◌, ◌/◌, ◌%◌, Bool, true, false, ◌&&◌, ◌||◌, Option, none, some, List, [], ◌∷◌,
  ◌++◌, if◌then◌else◌, ltb, leb, length, all, ◌==◌,
}
use miharbor.Base.Text.{Text, text}
use miharbor.Base.Trim.{trim}

-- `VaultKeyError`
pub data KeyError : Type 0 where
  wrong_length : ℕ → KeyError
  non_hex : KeyError

pub data Key : Type 0 where
  key : List ℕ → Key
  refused : KeyError → Key

-- `/[0-9a-fA-F]/`
abbrev pub is_hex : ℕ → Bool
is_hex c = (leb 48 c && leb c 57) || ((leb 97 c && leb c 102) || (leb 65 c && leb c 70))

unfoldable pub hex_value : ℕ → ℕ
hex_value c = if leb c 57 then c - 48 else if leb 97 c then c - 87 else c - 55

-- `Buffer.from(clean, 'hex')` for hexadecimal digits.
unfoldable pub from_hex : Text → List ℕ
unfolding hex_value
from_hex [] = []
from_hex (c ∷ []) = []
from_hex (c ∷ d ∷ t) = (hex_value c * 16 + hex_value d) ∷ from_hex t

unfoldable pub hex_digit : ℕ → ℕ
hex_digit n = if ltb n 10 then 48 + n else 87 + n

-- `toString('hex')`
unfoldable pub to_hex : List ℕ → Text
unfolding hex_digit
to_hex [] = []
to_hex (b ∷ bs) = hex_digit (b / 16) ∷ hex_digit (b % 16) ∷ to_hex bs

unfoldable pub parse_clean : Text → Key
parse_clean clean =
    if length clean == 64
    then (if all is_hex clean then key (from_hex clean) else refused non_hex)
    else refused (wrong_length (length clean))

unfoldable pub parse_hex_key : Text → Key
parse_hex_key hex = parse_clean (trim hex)

-- The key and the key file afterwards.
unfoldable pub load_from_file : List ℕ → Option Text → Key × Option Text
load_from_file fresh (some contents) = (parse_hex_key contents, some contents)
load_from_file fresh none = (key fresh, some (to_hex fresh ++ text "\n"))

unfoldable pub load_or_generate_key : Option Text → List ℕ → Option Text → Key × Option Text
load_or_generate_key none fresh file = load_from_file fresh file
load_or_generate_key (some []) fresh file = load_from_file fresh file
load_or_generate_key (some (c ∷ t)) fresh file = (parse_hex_key (c ∷ t), file)
