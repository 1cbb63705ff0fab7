-- ===== src/Catalog/Entries.antt =====
-- Files of entries as the format writes them, and the names that the scanner finds.
use miharbor.Base.{
  ℕ, zero, suc, ◌+◌, ◌*◌, ◌%◌, ◌≤◌, ◌<◌, ◌≡◌, refl, ap, true, false, some, List, [], ◌∷◌, ◌++◌, map,
  ltb, length, length-append, take, drop, arith,
}
use miharbor.Base.Text.{Text}
use miharbor.Catalog.{Bytes, read_varint_from, read_varint, read_sized, scan_inner, scan, pb_scan}

-- The bytes of a number: seven bits in each, lowest first, and a mark on all but the last.
pub data Varint : Bytes → ℕ → Type 0 where
  last : (b : ℕ) → b < 128 → Varint (b ∷ []) b
  more : (b n : ℕ) (bs : Bytes) → b < 128 → Varint bs n → Varint ((b + 128) ∷ bs) (b + 128 * n)

-- A message: the name with its length, other fields, and the length of all this.
pub record Entry : Type 0 where
  pub name : Bytes
  pub name_size : Bytes
  pub others : Bytes
  pub size : Bytes

abbrev pub body : Entry → Bytes
body e = 10 ∷ (e.name_size ++ (e.name ++ e.others))

pub record IsEntry (e : Entry) : Type 0 where
  pub name_sized : Varint e.name_size (length e.name)
  pub name_short : length e.name_size ≤ 10
  pub sized : Varint e.size (length (body e))
  pub short : length e.size ≤ 10

abbrev pub file_of : List Entry → Bytes
file_of [] = []
file_of (e ∷ es) = 10 ∷ (e.size ++ (body e ++ file_of es))

abbrev pub AllEntries : List Entry → Type 0
AllEntries [] = Unit
AllEntries (e ∷ es) = IsEntry e × AllEntries es

read_varint_from-Varint :
    (bs : Bytes) (n : ℕ)
    → Varint bs n
    → (k weight : ℕ) (rest : Bytes) → length bs ≤ k
    → read_varint_from k weight (bs ++ rest) ≡ (n * weight, rest)
unfolding read_varint_from
read_varint_from-Varint bs n v =
    elim v
      as (λ bs n _.
        (k weight : ℕ) (rest : Bytes)
        → length bs ≤ k
        → read_varint_from k weight (bs ++ rest) ≡ (n * weight, rest)) [
          | last b l ↦ λ k weight rest h. last_round k b weight rest l h
          | more b n bs l (v → ih) ↦ λ k weight rest h. next_round k b n weight bs rest l h ih
        ]
  where
    last_round :
        (k b weight : ℕ) (rest : Bytes)
        → b < 128
        → 1 ≤ k
        → read_varint_from k weight (b ∷ rest) ≡ (b * weight, rest)
    last_round zero b weight rest l h = absurd (omega (arith, h))
    last_round (suc k) b weight rest l h =
        let small : ltb b 128 ≡ true = ground (arith, l) in
        let low : b % 128 ≡ b = omega (arith, l) in rw (small, low) refl

    next_round :
        (k b n weight : ℕ) (bs rest : Bytes)
        → b < 128
        → suc (length bs) ≤ k
        → ((k weight : ℕ) (rest : Bytes)
            → length bs ≤ k
            → read_varint_from k weight (bs ++ rest) ≡ (n * weight, rest))
        → read_varint_from k weight ((b + 128) ∷ (bs ++ rest)) ≡ ((b + 128 * n) * weight, rest)
    next_round zero b n weight bs rest l h ih = absurd (omega (arith, h))
    next_round (suc k) b n weight bs rest l h ih =
        let marked : ltb (b + 128) 128 ≡ false = ground arith in
        let low : (b + 128) % 128 ≡ b = omega (arith, l) in
        let sum : b * weight + n * (weight * 128) ≡ (b + 128 * n) * weight = grind arith in
        rw (marked, low, ih k (weight * 128) rest (omega (arith, h)), sum) refl

take-front : (xs ys : Bytes) → take (length xs) (xs ++ ys) ≡ xs
take-front [] ys = refl
take-front (x ∷ xs) ys = ap (λ zs. x ∷ zs) (take-front xs ys)

drop-front : (xs ys : Bytes) → drop (length xs) (xs ++ ys) ≡ ys
drop-front [] ys = refl
drop-front (x ∷ xs) ys = drop-front xs ys

read_sized-front :
    (size xs ys : Bytes)
    → Varint size (length xs)
    → length size ≤ 10
    → read_sized (size ++ (xs ++ ys)) ≡ (xs, ys)
unfolding read_sized read_varint
read_sized-front size xs ys v h =
    let one : length xs * 1 ≡ length xs = omega arith in
    rw
      (
        read_varint_from-Varint size (length xs) v 10 1 (xs ++ ys) h,
        one,
        take-front xs ys,
        drop-front xs ys,
      )
      refl

read_varint-ten : (bs : Bytes) → read_varint (10 ∷ bs) ≡ (10, bs)
unfolding read_varint read_varint_from
read_varint-ten bs = refl

module _ (decode : Bytes → Text) where
  scan_inner-body :
      (e : Entry) (fuel : ℕ)
      → IsEntry e
      → 0 < fuel
      → scan_inner decode fuel (body e) ≡ some (some (decode e.name))
  unfolding scan_inner
  scan_inner-body e zero h l = absurd (omega (arith, l))
  scan_inner-body e (suc fuel) h l =
      rw
        (
          read_varint-ten (e.name_size ++ (e.name ++ e.others)),
          read_sized-front e.name_size e.name e.others h.name_sized h.name_short,
        )
        refl

  scan-entries :
      (es : List Entry) (fuel : ℕ)
      → AllEntries es
      → length (file_of es) ≤ fuel
      → scan decode fuel (file_of es) ≡ some (map (λ e. decode e.name) es)
  unfolding scan
  scan-entries [] fuel h l = refl
  scan-entries (e ∷ es) zero h l = absurd (omega (arith, l))
  scan-entries (e ∷ es) (suc fuel) (h, hs) l =
      let fits : length (file_of es) ≤ fuel = omega (
        arith,
        l,
        length-append e.size (body e ++ file_of es),
        length-append (body e) (file_of es),
      ) in
      rw
        (
          read_varint-ten (e.size ++ (body e ++ file_of es)),
          read_sized-front e.size (body e) (file_of es) h.sized h.short,
          scan_inner-body e (length (body e)) h (omega arith),
          scan-entries es fuel hs fits,
        )
        refl

  -- Of a file of entries, each with its name as the first field and with lengths of up to ten bytes,
  -- the scanner gives the decoded names, in order.
  pub pb_scan-entries :
      (es : List Entry)
      → AllEntries es
      → pb_scan decode (file_of es) ≡ some (map (λ e. decode e.name) es)
  unfolding pb_scan
  pb_scan-entries es h = scan-entries es (length (file_of es)) h (omega arith)
