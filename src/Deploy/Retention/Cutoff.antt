-- ===== src/Deploy/Retention/Cutoff.antt =====
-- The decision by a cut of the list at the count.
use miharbor.Base.{
  ℕ, zero, suc, ◌+◌, ◌≤◌, ◌<◌, inl, inr, ◌≡◌, refl, true, false, not, Option, List, [], ◌∷◌, ◌++◌,
  map, keep, ltb, arith, Bool-cases,
}
use miharbor.Base.Text.{Text}
use miharbor.Deploy.Retention.{SnapshotMeta, RetentionConfig, age_ok, retain_from, apply_retention}

abbrev pub take : List SnapshotMeta → ℕ → List SnapshotMeta
take [] n = []
take (s ∷ ss) zero = []
take (s ∷ ss) (suc n) = s ∷ take ss n

abbrev pub drop : List SnapshotMeta → ℕ → List SnapshotMeta
drop [] n = []
drop (s ∷ ss) zero = s ∷ ss
drop (s ∷ ss) (suc n) = drop ss n

abbrev pub ids : List SnapshotMeta → List Text
ids = map λ s. s.id

module _ (parse_date : Text → Option ℕ) (cfg : RetentionConfig) (now : ℕ) where
  abbrev pub kept : List SnapshotMeta → ℕ → List Text
  kept ss n = ids (take ss n) ++ ids (keep (age_ok parse_date cfg now) (drop ss n))

  abbrev pub removed : List SnapshotMeta → ℕ → List Text
  removed ss n = ids (keep (λ s. not (age_ok parse_date cfg now s)) (drop ss n))

  late : (i : ℕ) → cfg.retention_count ≤ i → ltb i cfg.retention_count ≡ false
  late i h = ground (arith, h)

  early : (i : ℕ) → i < cfg.retention_count → ltb i cfg.retention_count ≡ true
  early i h = ground (arith, h)

  -- From the count on, the age alone decides.
  retain_from-late :
      (ss : List SnapshotMeta) (i : ℕ)
      → cfg.retention_count ≤ i
      → retain_from parse_date cfg now i ss ≡ record {
        keep = ids (keep (age_ok parse_date cfg now) ss);
        remove = ids (keep (λ s. not (age_ok parse_date cfg now s)) ss);
      }
  unfolding retain_from
  retain_from-late [] i h = refl
  retain_from-late (s ∷ ss) i h = elim (Bool-cases (age_ok parse_date cfg now s)) [
    | inl e ↦ rw (late i h, e, retain_from-late ss (i + 1) (omega (arith, h))) refl
    | inr e ↦ rw (late i h, e, retain_from-late ss (i + 1) (omega (arith, h))) refl
  ]

  retain_from-cut :
      (ss : List SnapshotMeta) (i n : ℕ)
      → i + n ≡ cfg.retention_count
      → retain_from parse_date cfg now i ss ≡ record { keep = kept ss n; remove = removed ss n }
  unfolding retain_from
  retain_from-cut [] i n e = refl
  retain_from-cut (s ∷ ss) i zero e = retain_from-late (s ∷ ss) i (omega (arith, e))
  retain_from-cut (s ∷ ss) i (suc n) e =
      rw (early i (omega (arith, e)), retain_from-cut ss (i + 1) n (omega (arith, e))) refl

  -- The newest `retention_count` snapshots are kept, and of the others those that are younger than
  -- `retention_days` or whose time cannot be read; the rest is removed. Both lists stay in order.
  pub apply_retention-cut :
      (snapshots : List SnapshotMeta)
      → apply_retention parse_date cfg now snapshots ≡ record {
        keep = kept snapshots cfg.retention_count;
        remove = removed snapshots cfg.retention_count;
      }
  unfolding apply_retention
  apply_retention-cut snapshots = retain_from-cut snapshots 0 cfg.retention_count (omega arith)
