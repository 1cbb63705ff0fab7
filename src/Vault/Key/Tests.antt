-- ===== src/Vault/Key/Tests.antt =====
-- The vault's key at fixed texts.
use miharbor.Base.{
  ℕ, ◌≡◌, refl, ◌<◌, none, List, [], ◌∷◌, ◌++◌, true, all, All, ltb, ltb→lt, &&_parts,
}
use miharbor.Base.Text.{text}
use miharbor.Base.Trim.{trim, trim_start, trim_end, is_space}
use miharbor.Vault.Key.{refused, wrong_length, parse_hex_key, parse_clean, load_or_generate_key}
use miharbor.Vault.Key.Again.{load_or_generate_key-again}

abbrev eight : List ℕ
eight = 0 ∷ 7 ∷ 15 ∷ 16 ∷ 99 ∷ 160 ∷ 254 ∷ 255 ∷ []

abbrev thirty_two : List ℕ
thirty_two = (eight ++ eight) ++ (eight ++ eight)

below_256 : (bs : List ℕ) → all (λ b. ltb b 256) bs ≡ true → All (λ b. b < 256) bs
below_256 [] h = tt
below_256 (b ∷ bs) h =
    let (one, rest) = &&_parts (ltb b 256) (all (λ b. ltb b 256) bs) h in
    (ltb→lt b 256 one, below_256 bs rest)

load_or_generate_key-again_example :
    load_or_generate_key none eight (load_or_generate_key none thirty_two none).1
    ≡ load_or_generate_key none thirty_two none
load_or_generate_key-again_example =
    load_or_generate_key-again thirty_two eight refl (below_256 thirty_two refl)

short_key : parse_hex_key (text " 00ff ") ≡ refused (wrong_length 4)
unfolding parse_hex_key parse_clean trim trim_start trim_end is_space
short_key = refl
