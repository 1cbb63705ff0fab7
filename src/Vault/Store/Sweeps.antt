-- ===== src/Vault/Store/Sweeps.antt =====
-- What the sweeps `gc` and `gcSet` of vault/vault.ts leave of the entries.
use miharbor.Base.{
  ℕ, ◌+◌, ◌≤◌, ◌≡◌, refl, false, ◌||◌, not, none, List, [], ◌∷◌, if◌then◌else◌, Bool-cases,
  Option-cases, arith,
}
use miharbor.Base.Text.{Text, text_eq_iff}
use miharbor.Base.Dict.{lookup, erase, lookup-erase}
use miharbor.Vault.Unmask.{Entries}
use miharbor.Vault.Store.{is_in, keys, gc_keys, gc_listed}

lookup-gc_keys :
    (live us : List Text) (entries : Entries) (n : ℕ) (u : Text)
    → lookup u (gc_keys live us entries n).0
      ≡ (if is_in u live || not (is_in u us) then lookup u entries else none)
unfolding gc_keys
lookup-gc_keys live [] entries n u = ground (arith, Bool-cases (is_in u live))
lookup-gc_keys live (v ∷ us) entries n u = ground (
  arith,
  text_eq_iff u v,
  text_eq_iff v u,
  lookup-gc_keys live us entries n u,
  lookup-gc_keys live us (erase v entries) (n + 1) u,
  lookup-erase v u entries,
  Bool-cases (is_in v live),
  Bool-cases (is_in u live),
  Bool-cases (is_in u us),
)

gc_keys_count :
    (live us : List Text) (entries : Entries) (n : ℕ) → n ≤ (gc_keys live us entries n).1
unfolding gc_keys
gc_keys_count live [] entries n = omega arith
gc_keys_count live (v ∷ us) entries n = ground (
  arith,
  gc_keys_count live us entries n,
  gc_keys_count live us (erase v entries) (n + 1),
  Bool-cases (is_in v live),
)

pub gc_keys-same :
    (live us : List Text) (entries : Entries) (n : ℕ)
    → (gc_keys live us entries n).1 ≡ n
    → (gc_keys live us entries n).0 ≡ entries
unfolding gc_keys
gc_keys-same live [] entries n h = refl
gc_keys-same live (v ∷ us) entries n h = ground (
  arith,
  h,
  gc_keys-same live us entries n,
  gc_keys_count live us (erase v entries) (n + 1),
  Bool-cases (is_in v live),
)

lookup-keys :
    (entries : Entries) (u : Text) → is_in u (keys entries) ≡ false → lookup u entries ≡ none
unfolding lookup
lookup-keys [] u h = refl
lookup-keys ((v, e) ∷ entries) u h =
    ground (arith, h, text_eq_iff u v, text_eq_iff v u, lookup-keys entries u)

pub lookup-swept :
    (live : List Text) (entries : Entries) (u : Text)
    → lookup u (gc_keys live (keys entries) entries 0).0
      ≡ (if is_in u live then lookup u entries else none)
lookup-swept live entries u = ground (
  arith,
  lookup-gc_keys live (keys entries) entries 0 u,
  lookup-keys entries u,
  Bool-cases (is_in u live),
  Bool-cases (is_in u (keys entries)),
)

-- The same of `gcSet`.
pub lookup-gc_listed :
    (us : List Text) (entries : Entries) (n : ℕ) (u : Text)
    → lookup u (gc_listed us entries n).0 ≡ (if is_in u us then none else lookup u entries)
unfolding gc_listed
lookup-gc_listed [] entries n u = refl
lookup-gc_listed (v ∷ us) entries n u = ground (
  arith,
  text_eq_iff u v,
  text_eq_iff v u,
  lookup-gc_listed us entries n u,
  lookup-gc_listed us (erase v entries) (n + 1) u,
  lookup-erase v u entries,
  Option-cases (lookup v entries),
  Bool-cases (is_in u us),
)

gc_listed_count : (us : List Text) (entries : Entries) (n : ℕ) → n ≤ (gc_listed us entries n).1
unfolding gc_listed
gc_listed_count [] entries n = omega arith
gc_listed_count (v ∷ us) entries n = ground (
  arith,
  gc_listed_count us entries n,
  gc_listed_count us (erase v entries) (n + 1),
  Option-cases (lookup v entries),
)

pub gc_listed-same :
    (us : List Text) (entries : Entries) (n : ℕ)
    → (gc_listed us entries n).1 ≡ n
    → (gc_listed us entries n).0 ≡ entries
unfolding gc_listed
gc_listed-same [] entries n h = refl
gc_listed-same (v ∷ us) entries n h = ground (
  arith,
  h,
  gc_listed-same us entries n,
  gc_listed_count us (erase v entries) (n + 1),
  Option-cases (lookup v entries),
)
