-- ===== src/Catalog/Ends.antt =====
-- Every round of the scanner reads a byte.
use miharbor.Base.{
  ℕ, zero, suc, ◌*◌, ◌%◌, ◌≤◌, refl, ◌≢◌, inl, inr, Option, none, some, List, [], ◌∷◌, ltb, length,
  drop, ◌==◌, Bool-cases, arith,
}
use miharbor.Base.Text.{Text}
use miharbor.Catalog.{
  Bytes, read_varint_from, read_varint, read_sized, skip_field, is_named, scan_inner, with_name,
  scan, pb_scan,
}

read_varint_from-le :
    (k weight : ℕ) (bs : Bytes) → length (read_varint_from k weight bs).1 ≤ length bs
unfolding read_varint_from
read_varint_from-le zero weight bs = omega arith
read_varint_from-le (suc k) weight [] = omega arith
read_varint_from-le (suc k) weight (b ∷ bs) = elim (Bool-cases (ltb b 128)) [
  | inl e ↦ rw e (omega arith)
  | inr e ↦ rw e (omega (arith, read_varint_from-le k (weight * 128) bs))
]

read_varint-le : (bs : Bytes) → length (read_varint bs).1 ≤ length bs
unfolding read_varint
read_varint-le bs = read_varint_from-le 10 1 bs

-- A varint takes a byte where there is one.
read_varint-lt : (b : ℕ) (bs : Bytes) → length (read_varint (b ∷ bs)).1 ≤ length bs
unfolding read_varint read_varint_from
read_varint-lt b bs = elim (Bool-cases (ltb b 128)) [
  | inl e ↦ rw e (omega arith)
  | inr e ↦ rw e (read_varint_from-le 9 (1 * 128) bs)
]

drop-le : (n : ℕ) (bs : Bytes) → length (drop n bs) ≤ length bs
drop-le zero bs = omega arith
drop-le (suc n) [] = omega arith
drop-le (suc n) (b ∷ bs) = omega (arith, drop-le n bs)

read_sized-le : (bs : Bytes) → length (read_sized bs).1 ≤ length bs
unfolding read_sized
read_sized-le bs = omega (arith, drop-le (read_varint bs).0 (read_varint bs).1, read_varint-le bs)

skip_field-le : (wire : ℕ) (bs : Bytes) → length (skip_field wire bs) ≤ length bs
unfolding skip_field
skip_field-le wire bs = ground (
  arith,
  read_varint-le bs,
  read_sized-le bs,
  drop-le 8 bs,
  drop-le 4 bs,
  Bool-cases (wire == 0),
  Bool-cases (wire == 1),
  Bool-cases (wire == 2),
  Bool-cases (wire == 5),
)

module _ (decode : Bytes → Text) where
  scan_inner-Ends : (fuel : ℕ) (bs : Bytes) → length bs ≤ fuel → scan_inner decode fuel bs ≢ none
  unfolding scan_inner
  scan_inner-Ends fuel [] h = λ q. cc q
  scan_inner-Ends zero (b ∷ bs) h = absurd (omega (arith, h))
  scan_inner-Ends (suc fuel) (b ∷ bs) h =
      let (tag, r) = read_varint (b ∷ bs) in
      elim (Bool-cases (is_named tag)) [
        | inl e ↦ rw e (λ q. cc q)
        | inr e ↦ rw e (
            scan_inner-Ends fuel (skip_field (tag % 8) r)
              (omega (arith, h, skip_field-le (tag % 8) r, read_varint-lt b bs)))
      ]

  with_name-Ends :
      (o : Option (Option Text)) (p : Option (List Text))
      → o ≢ none
      → p ≢ none
      → with_name decode o p ≢ none
  with_name-Ends none p h k = absurd (h refl)
  with_name-Ends (some n) none h k = absurd (k refl)
  with_name-Ends (some none) (some ns) h k = λ q. cc q
  with_name-Ends (some (some n)) (some ns) h k = λ q. cc q

  scan-Ends : (fuel : ℕ) (bs : Bytes) → length bs ≤ fuel → scan decode fuel bs ≢ none
  unfolding scan
  scan-Ends fuel [] h = λ q. cc q
  scan-Ends zero (b ∷ bs) h = absurd (omega (arith, h))
  scan-Ends (suc fuel) (b ∷ bs) h =
      let (tag, r) = read_varint (b ∷ bs) in
      elim (Bool-cases (is_named tag)) [
        | inl e ↦ rw e (
            with_name-Ends _ _
              (scan_inner-Ends (length (read_sized r).0) (read_sized r).0 (omega arith))
              (scan-Ends fuel (read_sized r).1
                (omega (arith, h, read_sized-le r, read_varint-lt b bs))))
        | inr e ↦ rw e (
            scan-Ends fuel (skip_field (tag % 8) r)
              (omega (arith, h, skip_field-le (tag % 8) r, read_varint-lt b bs)))
      ]

  -- The scanner comes to an end with a list of names on every sequence of bytes.
  pub pb_scan-Ends : (buf : Bytes) → pb_scan decode buf ≢ none
  unfolding pb_scan
  pb_scan-Ends buf = scan-Ends (length buf) buf (omega arith)
