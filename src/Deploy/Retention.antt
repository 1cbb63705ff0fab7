-- ===== src/Deploy/Retention.antt =====
-- deploy/retention.ts: which snapshots a sweep keeps. `Date.parse` is a parameter, whose `NaN` is
-- `none`; times are milliseconds since 1970.
pub mod Cutoff
use miharbor.Base.{
  ℕ, ◌+◌, ◌*◌, Bool, true, ◌||◌, Option, none, some, List, [], ◌∷◌, if◌then◌else◌, ltb,
}
use miharbor.Base.Text.{Text}

pub record SnapshotMeta : Type 0 where
  pub id : Text
  pub timestamp : Text

pub record RetentionConfig : Type 0 where
  pub retention_count : ℕ
  pub retention_days : ℕ

pub record RetentionDecision : Type 0 where
  pub keep : List Text
  pub remove : List Text

module _ (parse_date : Text → Option ℕ) (cfg : RetentionConfig) (now : ℕ) where
  -- `ts > now - days * 24 * 60 * 60 * 1000`, with the days on the side of the time.
  abbrev is_recent : Option ℕ → Bool
  is_recent none = true
  is_recent (some ts) = ltb now (ts + cfg.retention_days * 24 * 60 * 60 * 1000)

  abbrev pub age_ok : SnapshotMeta → Bool
  age_ok s = is_recent (parse_date s.timestamp)

  -- The loop from the index `i` on.
  unfoldable pub retain_from : ℕ → List SnapshotMeta → RetentionDecision
  retain_from i [] = record { keep = []; remove = [] }
  retain_from i (s ∷ ss) =
      let rest = retain_from (i + 1) ss in
      if ltb i cfg.retention_count || age_ok s
      then record { keep = s.id ∷ rest.keep; remove = rest.remove }
      else record { keep = rest.keep; remove = s.id ∷ rest.remove }

  unfoldable pub apply_retention : List SnapshotMeta → RetentionDecision
  unfolding retain_from
  apply_retention snapshots = retain_from 0 snapshots
