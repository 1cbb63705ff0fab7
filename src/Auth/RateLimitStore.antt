-- ===== src/Auth/RateLimitStore.antt =====
-- auth/rate-limit-store.ts: the file store behind the rate limiter. Saving is debounced: `save`
-- keeps a snapshot and sets a timer, and the timer or `dispose` writes it. A write either replaces
-- the file whole or leaves it (tmp and rename); which of the two is an argument.
pub mod Roundtrip
use miharbor.Base.{
  ℕ, ◌-◌, Bool, true, false, ◌&&◌, Option, none, some, List, [], ◌∷◌, if◌then◌else◌, ltb, leb, ◌==◌,
}
use miharbor.Base.Text.{Text, text}
use miharbor.Base.Dict.{lookup, insert}
use miharbor.Base.Json.{
  Json, null, bool, num, str, arr, obj, Fields, fields, from_fields, JsonCodec,
}
use miharbor.Auth.Entry.{Entry, Entries}

abbrev pub file_version : ℕ
file_version = 1

-- What `readFile` finds: no file (ENOENT), another error, or the text of a file.
pub data Disk (Raw : Type 0) : Type 0 where
  missing : Disk Raw
  unreadable : Disk Raw
  file : Raw → Disk Raw

pub record FileStore : Type 0 where
  pub pending : Option Entries
  pub timer : Bool
  pub disposed : Bool

unfoldable pub created : FileStore
created = record { pending = none; timer = false; disposed = false }

-- `opts.pruneBefore?.failWindowMs`; without it nothing is pruned.
abbrev pub PruneBefore : Type 0
PruneBefore = Option ℕ

unfoldable pub should_prune : PruneBefore → ℕ → Entry → Bool
should_prune none t entry = false
should_prune (some window) t entry =
    leb entry.locked_until t && ltb window (t - entry.first_fail_at)

abbrev number : Option Json → Option ℕ
number (some (num n)) = some n
number _ = none

coerced : Option ℕ → Option ℕ → Option ℕ → Option Entry
coerced (some n) (some f) (some l) =
    some (record { fails = n; first_fail_at = f; locked_until = l })
coerced _ _ _ = none

unfoldable pub coerce_entry : Json → Option Entry
unfolding coerced lookup
coerce_entry (obj fs) =
    coerced (number (lookup (text "fails") (fields fs)))
      (number (lookup (text "firstFailAt") (fields fs)))
      (number (lookup (text "lockedUntil") (fields fs)))
coerce_entry _ = none

-- One round of the loop at the end of `load`.
unfoldable pub load_entry : PruneBefore → ℕ → Text → Option Entry → Entries → Entries
load_entry prune t ip none out = out
load_entry prune t ip (some entry) out =
    if should_prune prune t entry then out else insert ip entry out

unfoldable pub load_entries : PruneBefore → ℕ → List (Text × Json) → Entries → Entries
unfolding load_entry
load_entries prune t [] out = out
load_entries prune t ((ip, raw) ∷ rest) out =
    load_entries prune t rest (load_entry prune t ip (coerce_entry raw) out)

load_fields : PruneBefore → ℕ → Option Json → Entries
load_fields prune t (some (obj es)) = load_entries prune t (fields es) []
load_fields prune t _ = []

load_versioned : PruneBefore → ℕ → List (Text × Json) → Option ℕ → Entries
unfolding load_fields
load_versioned prune t fs (some v) =
    if v == file_version then load_fields prune t (lookup (text "entries") fs) else []
load_versioned prune t fs none = []

unfoldable pub load_parsed : PruneBefore → ℕ → Option Json → Entries
unfolding load_versioned
load_parsed prune t (some (obj fs)) =
    load_versioned prune t (fields fs) (number (lookup (text "version") (fields fs)))
load_parsed prune t _ = []

unfoldable pub entry_json : Entry → Json
entry_json e = obj (
    from_fields (
      (text "fails", num e.fails)
      ∷ (text "firstFailAt", num e.first_fail_at)
      ∷ (text "lockedUntil", num e.locked_until)
      ∷ []))

unfoldable pub entries_json : Entries → List (Text × Json)
entries_json [] = []
entries_json ((ip, e) ∷ m) = (ip, entry_json e) ∷ entries_json m

-- The `PersistedFile` that `flush` writes.
unfoldable pub payload : ℕ → Entries → Json
payload saved_at m = obj (
    from_fields (
      (text "version", num file_version)
      ∷ (text "savedAt", num saved_at)
      ∷ (text "entries", obj (from_fields (entries_json m)))
      ∷ []))

unfoldable pub save : Entries → FileStore → FileStore
save m s = if s.disposed then s else record s { pending = some m; timer = true }

module _ (c : JsonCodec) where
  open c use {Raw, stringify, parse}

  unfoldable pub load : PruneBefore → ℕ → Disk Raw → Entries
  load prune t missing = []
  load prune t unreadable = []
  load prune t (file raw) = load_parsed prune t (parse raw)

  write_out : Bool → ℕ → Option Entries → Disk Raw → Disk Raw
  write_out written t none disk = disk
  write_out written t (some snapshot) disk =
      if written then file (stringify (payload t snapshot)) else disk

  -- `written` says whether the atomic write succeeds; a failure is logged and the snapshot is gone.
  unfoldable pub flush : Bool → ℕ → FileStore × Disk Raw → FileStore × Disk Raw
  unfolding write_out
  flush written t (s, disk) = (record s { pending = none }, write_out written t s.pending disk)

  unfoldable pub timer_fires : Bool → ℕ → FileStore × Disk Raw → FileStore × Disk Raw
  unfolding flush
  timer_fires written t (s, disk) =
      if s.timer then flush written t (record s { timer = false }, disk) else (s, disk)

  unfoldable pub dispose : Bool → ℕ → FileStore × Disk Raw → FileStore × Disk Raw
  unfolding flush
  dispose written t (s, disk) =
      if s.disposed
      then (s, disk)
      else flush written t (record s { disposed = true; timer = false }, disk)
