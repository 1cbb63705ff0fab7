-- ===== src/Base/Trim.antt =====
-- `trim`, `trimStart` and the slices that a parser takes of a text.
use Prim.Native.Nat.{ℕ, ◌≤◌, suc}
use mathlib.Core.Path.{◌≡◌, refl, ap, ◌∙◌}
use mathlib.Core.Logic.{◌≢◌, inl, inr}
use mathlib.Core.Bool.{Bool, false, ◌&&◌, ◌||◌}
use mathlib.Core.List.{[], ◌∷◌, ◌++◌}
use native.Mathlib.Omega.{arith}
use miharbor.Base.Tests.{◌==◌, leb, if◌then◌else◌, Bool-cases}
use miharbor.Base.Lists.{length, All}
use miharbor.Base.Text.{Text, text}

-- White space and line terminators of ECMAScript.
unfoldable pub is_space : ℕ → Bool
is_space c =
    (leb 9 c && leb c 13)
    || (c == 32
        || (c == 160
            || (c == 5760
                || ((leb 8192 c && leb c 8202)
                    || (c == 8232
                        || (c == 8233
                            || (c == 8239 || (c == 8287 || (c == 12288 || c == 65279)))))))))

unfoldable pub trim_start : Text → Text
trim_start [] = []
trim_start (c ∷ t) = if is_space c then trim_start t else c ∷ t

cons_end : ℕ → Text → Text
cons_end c [] = if is_space c then [] else c ∷ []
cons_end c (d ∷ t) = c ∷ d ∷ t

unfoldable pub trim_end : Text → Text
unfolding cons_end
trim_end [] = []
trim_end (c ∷ t) = cons_end c (trim_end t)

unfoldable pub trim : Text → Text
unfolding trim_start trim_end
trim t = trim_end (trim_start t)

-- `t.slice(0, -1)`
unfoldable pub without_last : Text → Text
without_last [] = []
without_last (c ∷ []) = []
without_last (c ∷ d ∷ t) = c ∷ without_last (d ∷ t)

-- `t.slice(1)`
unfoldable pub rest_of : Text → Text
rest_of [] = []
rest_of (c ∷ t) = t

-- A text that is not empty and has no white space at its ends.
pub record Trimmed (t : Text) : Type 0 where
  pub some_text : t ≢ []
  pub at_start : trim_start t ≡ t
  pub at_end : trim_end t ≡ t

pub trim-Trimmed : (t : Text) → Trimmed t → trim t ≡ t
unfolding trim
trim-Trimmed t h = ap trim_end h.at_start ∙ h.at_end

pub trim_start-length : (t : Text) → length (trim_start t) ≤ length t
unfolding trim_start
trim_start-length [] = omega arith
trim_start-length (c ∷ t) = ground (arith, trim_start-length t, Bool-cases (is_space c))

trim_end-length : (t : Text) → length (trim_end t) ≤ length t
unfolding trim_end
trim_end-length [] = omega arith
trim_end-length (c ∷ t) = cons-length c (trim_end t) t (trim_end-length t)
  where
    cons-length :
        (c : ℕ) (s t : Text) → length s ≤ length t → length (cons_end c s) ≤ suc (length t)
    cons-length c [] t h = ground (arith, Bool-cases (is_space c))
    cons-length c (d ∷ s) t h = omega (arith, h)

pub length-trim-le : (t : Text) → length (trim t) ≤ length t
unfolding trim
length-trim-le t = omega (arith, trim_start-length t, trim_end-length (trim_start t))

-- Something that starts with a trimmed text stays at the start, and so at the end.
pub trim_start-append : (t u : Text) → t ≢ [] → trim_start t ≡ t → trim_start (t ++ u) ≡ t ++ u
unfolding trim_start
trim_start-append [] u n h = absurd (n refl)
trim_start-append (c ∷ t) u n h = elim (Bool-cases (is_space c)) [
  | inl e ↦
      absurd (omega (arith, trim_start-length t, length_of (trim_start t) (c ∷ t) (rw e at h)))
  | inr e ↦ rw e refl
]
  where
    length_of : (s t : Text) → s ≡ t → length s ≡ length t
    length_of s t e = ap length e

cons_end-some : (c : ℕ) (s : Text) → s ≢ [] → cons_end c s ≡ c ∷ s
unfolding cons_end
cons_end-some c [] n = absurd (n refl)
cons_end-some c (d ∷ s) n = refl

pub append-some : (u t : Text) → t ≢ [] → u ++ t ≢ []
append-some [] t n = n
append-some (c ∷ u) t n = λ e. cc e

pub trim_end-append : (u t : Text) → t ≢ [] → trim_end t ≡ t → trim_end (u ++ t) ≡ u ++ t
unfolding trim_end
trim_end-append [] t n h = h
trim_end-append (c ∷ u) t n h =
    rw (trim_end-append u t n h) (cons_end-some c (u ++ t) (append-some u t n))

-- The end of a line after a text without white space.
pub trim_end-line : (t : Text) → All (λ c. is_space c ≡ false) t → trim_end (t ++ text "\n") ≡ t
unfolding trim_end is_space
trim_end-line [] h = refl
trim_end-line (c ∷ t) (h, hs) = rw (trim_end-line t hs) (kept c t h)
  where
    kept : (c : ℕ) (t : Text) → is_space c ≡ false → cons_end c t ≡ c ∷ t
    kept c [] h = rw h refl
    kept c (d ∷ t) h = refl
