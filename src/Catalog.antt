-- ===== src/Catalog.antt =====
-- catalog/pb-scan.ts of the server: the names of the entries of a protobuf file. A reader is the
-- bytes it has not reached, the decoder of UTF-8 is a parameter, and a byte is below 256. Of the
-- bits of a varint none overlap, so `|=` adds.
pub mod Ends
pub mod Entries
mod Tests
use miharbor.Base.{
  ℕ, zero, suc, ◌+◌, ◌*◌, ◌/◌, ◌%◌, Bool, true, false, ◌&&◌, Option, none, some, List, [], ◌∷◌,
  if◌then◌else◌, ltb, length, take, drop, ◌==◌,
}
use miharbor.Base.Text.{Text}

abbrev pub Bytes : Type 0
Bytes = List ℕ

-- `readVarint` with the rounds and the weight that are left.
unfoldable pub read_varint_from : ℕ → ℕ → Bytes → ℕ × Bytes
read_varint_from zero weight rest = (0, rest)
read_varint_from (suc k) weight [] = (0, [])
read_varint_from (suc k) weight (b ∷ rest) =
    let more = read_varint_from k (weight * 128) rest in
    if ltb b 128 then (b % 128 * weight, rest) else (b % 128 * weight + more.0, more.1)

unfoldable pub read_varint : Bytes → ℕ × Bytes
unfolding read_varint_from
read_varint rest = read_varint_from 10 1 rest

-- A length and the bytes after it, in two parts.
unfoldable pub read_sized : Bytes → Bytes × Bytes
read_sized rest = let (n, r) = read_varint rest in (take n r, drop n r)

-- By the wire type; an unknown one skips the rest.
unfoldable pub skip_field : ℕ → Bytes → Bytes
skip_field wire rest =
    if wire == 0
    then (read_varint rest).1
    else if wire == 1
    then drop 8 rest
    else if wire == 2
    then (read_sized rest).1
    else if wire == 5
    then drop 4 rest
    else []

-- Field 1 of wire type 2.
abbrev pub is_named : ℕ → Bool
is_named tag = tag / 8 == 1 && tag % 8 == 2

module _ (decode : Bytes → Text) where
  -- `none` is fuel that ran out, here and below.
  unfoldable pub scan_inner : ℕ → Bytes → Option (Option Text)
  scan_inner fuel [] = some none
  scan_inner zero (b ∷ rest) = none
  scan_inner (suc fuel) (b ∷ rest) =
      let (tag, r) = read_varint (b ∷ rest) in
      if is_named tag
      then some (some (decode (read_sized r).0))
      else scan_inner fuel (skip_field (tag % 8) r)

  abbrev pub with_name : Option (Option Text) → Option (List Text) → Option (List Text)
  with_name none names = none
  with_name (some name) none = none
  with_name (some none) (some names) = some names
  with_name (some (some name)) (some names) = some (name ∷ names)

  unfoldable pub scan : ℕ → Bytes → Option (List Text)
  scan fuel [] = some []
  scan zero (b ∷ rest) = none
  scan (suc fuel) (b ∷ rest) =
      let (tag, r) = read_varint (b ∷ rest) in
      let (inner, after) = read_sized r in
      if is_named tag
      then with_name (scan_inner (length inner) inner) (scan fuel after)
      else scan fuel (skip_field (tag % 8) r)

  -- Each round reads a byte, so the length of the file is fuel enough.
  unfoldable pub pb_scan : Bytes → Option (List Text)
  pb_scan buf = scan (length buf) buf
