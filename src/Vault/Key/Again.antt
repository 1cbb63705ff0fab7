-- ===== src/Vault/Key/Again.antt =====
-- The key file across starts of the server.
use miharbor.Base.{
  ℕ, ◌+◌, ◌*◌, ◌/◌, ◌%◌, ◌<◌, ◌≡◌, refl, true, false, none, List, [], ◌∷◌, ◌++◌, length, all, All,
  ◌==◌, arith,
}
use miharbor.Base.Text.{Text, text}
use miharbor.Base.Trim.{trim, trim_start, trim_end-line, is_space}
use miharbor.Vault.Key.{
  is_hex, hex_value, from_hex, hex_digit, to_hex, parse_clean, parse_hex_key, load_from_file,
  load_or_generate_key,
}

abbrev AreBytes : List ℕ → Type 0
AreBytes bs = All (λ b. b < 256) bs

hex_digit-value : (n : ℕ) → n < 16 → hex_value (hex_digit n) ≡ n
unfolding hex_value hex_digit
hex_digit-value n h = ground (arith, h)

hex_digit-hex : (n : ℕ) → n < 16 → is_hex (hex_digit n) ≡ true
unfolding hex_digit
hex_digit-hex n h = ground (arith, h)

hex_digit-space : (n : ℕ) → n < 16 → is_space (hex_digit n) ≡ false
unfolding hex_digit is_space
hex_digit-space n h = ground (arith, h)

from_hex-to_hex : (bs : List ℕ) → AreBytes bs → from_hex (to_hex bs) ≡ bs
unfolding from_hex to_hex
from_hex-to_hex [] h = refl
from_hex-to_hex (b ∷ bs) (h, hs) =
    let byte : b / 16 * 16 + b % 16 ≡ b = omega arith in
    rw
      (
        hex_digit-value (b / 16) (omega (arith, h)),
        hex_digit-value (b % 16) (omega arith),
        byte,
        from_hex-to_hex bs hs,
      )
      refl

to_hex-hex : (bs : List ℕ) → AreBytes bs → all is_hex (to_hex bs) ≡ true
unfolding to_hex
to_hex-hex [] h = refl
to_hex-hex (b ∷ bs) (h, hs) =
    rw
      (
        hex_digit-hex (b / 16) (omega (arith, h)),
        hex_digit-hex (b % 16) (omega arith),
        to_hex-hex bs hs,
      )
      refl

length-to_hex : (bs : List ℕ) → length (to_hex bs) ≡ 2 * length bs
unfolding to_hex
length-to_hex [] = refl
length-to_hex (b ∷ bs) = omega (arith, length-to_hex bs)

no_spaces : (bs : List ℕ) → AreBytes bs → All (λ c. is_space c ≡ false) (to_hex bs)
unfolding to_hex
no_spaces [] h = tt
no_spaces (b ∷ bs) (h, hs) = (
  hex_digit-space (b / 16) (omega (arith, h)),
  (hex_digit-space (b % 16) (omega arith), no_spaces bs hs),
)

trim-line : (t : Text) → All (λ c. is_space c ≡ false) t → trim (t ++ text "\n") ≡ t
unfolding trim trim_start
trim-line [] h = unfold is_space in refl
trim-line (c ∷ t) (h, hs) = rw h (trim_end-line (c ∷ t) (h, hs))

-- A key of 32 bytes that was generated is the one that is loaded from its file from then on, and the
-- file stays as it is, whatever else is drawn.
pub load_or_generate_key-again :
    (fresh later : List ℕ)
    → length fresh ≡ 32
    → All (λ b. b < 256) fresh
    → let first = load_or_generate_key none fresh none in
      load_or_generate_key none later first.1 ≡ first
unfolding load_or_generate_key load_from_file parse_hex_key parse_clean
load_or_generate_key-again fresh later h bs =
    let long : (length (to_hex fresh) == 64) ≡ true = ground (arith, h, length-to_hex fresh) in
    rw
      (
        trim-line (to_hex fresh) (no_spaces fresh bs),
        long,
        to_hex-hex fresh bs,
        from_hex-to_hex fresh bs,
      )
      refl
