-- ===== src/Deploy/Snapshots.antt =====
-- deploy/snapshot.ts: the snapshot manager on the directory of snapshots and the vault. The
-- transport, the yaml package, the hash, the patches and JSON are parameters; a call of the
-- transport may throw. Random values and times are arguments.
pub mod Uuids
pub mod Sweep
pub mod Created
mod Tests
use miharbor.Base.{
  ℕ, suc, ◌+◌, Bool, true, false, ◌&&◌, ◌||◌, Option, none, some, List, [], ◌∷◌, ◌++◌, map,
  if◌then◌else◌, length, ◌==◌,
}
use miharbor.Base.Text.{Text, text, text_eq, starts_with}
use miharbor.Base.Yaml.{Yaml}
use miharbor.Deploy.Effects.{AppliedBy, by_auto_rollback, Diff, Parsed, Reply, returns, throws}
use miharbor.Deploy.Retention.{SnapshotMeta, RetentionConfig, apply_retention}
use miharbor.Vault.Store.{File, mask_doc, gc_set, gc, add_references, drop_snapshot_references}
use miharbor.Vault.Store.File.{VaultCodec, VaultError, Read, ok as read_ok, failed as read_failed}
use miharbor.Deploy.Snapshots.Uuids.{extract_sentinel_uuids}

-- `SnapshotMeta`; retention reads its first two fields.
pub record Meta : Type 0 where
  pub listed : SnapshotMeta
  pub sha256_original : Text
  pub sha256_masked : Text
  pub applied_by : AppliedBy
  pub user_ip : Option Text
  pub user_agent : Option Text
  pub diff_summary : Diff
  pub mihomo_api_version : Option Text
  pub transport : Text

pub record CreateSnapshotMeta : Type 0 where
  pub applied_by : AppliedBy
  pub user_ip : Option Text
  pub user_agent : Option Text
  pub mihomo_api_version : Option Text
  pub transport : Option Text

-- The files of a snapshot, with `meta.json` by the value whose JSON it is.
pub record Bundle : Type 0 where
  pub config : Text
  pub meta : Meta
  pub diff_patch : Text

-- The calls of `Transport` on the directory of snapshots.
pub record SnapshotsDir : Type 1 where
  pub Dir : Type 0
  pub read_dir : Dir → Reply (List Meta)
  pub read : Text → Dir → Reply Bundle
  pub write : Text → Bundle → Dir → Reply (Unit {0}) × Dir
  pub delete : Text → Dir → Reply (Unit {0}) × Dir

pub data Failure : Type 0 where
  transport_threw : Text → Failure
  vault_threw : VaultError → Failure
  config_unparseable : List Text → Failure

pub data Outcome (A : Type 0) : Type 0 where
  done : A → Outcome A
  failed : Failure → Outcome A

-- A patch up to a line's end, and what follows.
abbrev first_line : ℕ → List Text → List Text
first_line c [] = (c ∷ []) ∷ []
first_line c (w ∷ ws) = (c ∷ w) ∷ ws

-- `patch.split('\n')`
unfoldable pub lines : Text → List Text
lines [] = [] ∷ []
lines (c ∷ t) = let rest = lines t in if c == 10 then [] ∷ rest else first_line c rest

abbrev pub count_line : Text → Diff → Diff
count_line line d =
    if starts_with (text "+++") line || starts_with (text "---") line
    then d
    else if starts_with (text "+") line
    then record { added = d.added + 1; removed = d.removed }
    else if starts_with (text "-") line
    then record { added = d.added; removed = d.removed + 1 }
    else d

unfoldable pub count_lines : List Text → Diff
count_lines [] = record { added = 0; removed = 0 }
count_lines (line ∷ rest) = count_line line (count_lines rest)

unfoldable pub summarize_diff : Text → Diff
unfolding lines count_lines
summarize_diff patch = count_lines (lines patch)

-- Colons become dashes.
abbrev dashed : Text → Text
dashed = map λ c. if c == b':' then b'-' else c

unfoldable pub snapshot_id : Text → Text → Text
snapshot_id iso hash8 = dashed iso ++ (text "-" ++ hash8)

-- `s ? { key: s } : {}`
abbrev pub some_text : Option Text → Option Text
some_text none = none
some_text (some []) = none
some_text (some (c ∷ t)) = some (c ∷ t)

abbrev pub or_text : Option Text → Text → Text
or_text none t = t
or_text (some s) t = s

abbrev pub first_eight : Text → Text
first_eight (a ∷ b ∷ c ∷ d ∷ e ∷ f ∷ g ∷ h ∷ t) = a ∷ b ∷ c ∷ d ∷ e ∷ f ∷ g ∷ h ∷ []
first_eight t = t

-- Code outside the repository: `sha256` in hexadecimal, `parseDocument`, `doc.toString`,
-- `createTwoFilesPatch` on names and texts, and `Date.parse`.
pub record Outside : Type 0 where
  pub sha256 : Text → Text
  pub parse_document : Text → Parsed
  pub dump : Yaml → Text
  pub patch : Text → Text → Text → Text → Text
  pub parse_date : Text → Option ℕ

module _ (dir : SnapshotsDir) (codec : VaultCodec) (out : Outside) where
  open dir use {Dir, read_dir, read, write, delete}
  open codec use {Byte}
  open out use {sha256, parse_document, dump, patch, parse_date}

  -- What is drawn while a snapshot is made: the vectors of the vault's writes, the uuids, and the
  -- times of the vault and of the snapshot.
  pub record Draws : Type 0 where
    pub ivs : ℕ → List Byte
    pub uuid : ℕ → Text
    pub created : Text
    pub iso : Text

  -- The directory and the vault's file.
  pub record State : Type 0 where
    pub snapshots : Dir
    pub vault : File codec

  abbrev pub M : Type 0 → Type 0
  M A = State → Outcome A × State

  abbrev pub continue : {A B : Type 0} → Outcome A × State → (A → M B) → Outcome B × State
  continue (done a, s) f = f a s
  continue (failed e, s) f = (failed e, s)

  infixl 5 ◌>>=◌ ◌>>◌
  abbrev pub ◌>>=◌ : {A B : Type 0} → M A → (A → M B) → M B
  m >>= f = λ s. continue (m s) f

  abbrev pub ◌>>◌ : {A B : Type 0} → M A → M B → M B
  m >> k = m >>= λ _. k

  abbrev pub pure : {A : Type 0} → A → M A
  pure a = λ s. (done a, s)

  abbrev pub throw : {A : Type 0} → Failure → M A
  throw e = λ s. (failed e, s)

  abbrev pub replied : {A : Type 0} → Reply A → Outcome A
  replied (returns a) = done a
  replied (throws message) = failed (transport_threw message)

  abbrev pub read_result : {A : Type 0} → Read A → Outcome A
  read_result (read_ok a) = done a
  read_result (read_failed e) = failed (vault_threw e)

  abbrev pub on_dir : {A : Type 0} → (Dir → Reply A × Dir) → M A
  on_dir call =
      λ s. let (r, d) = call s.snapshots in (replied r, record { snapshots = d; vault = s.vault })

  abbrev pub on_read : {A : Type 0} → (Dir → Reply A) → M A
  on_read call = λ s. (replied (call s.snapshots), s)

  abbrev pub on_vault : {A : Type 0} → (File codec → Read A × File codec) → M A
  on_vault call = λ s.
      let (r, f) = call s.vault in (read_result r, record { snapshots = s.snapshots; vault = f })

  abbrev pub config_of : Yaml → List Text → M Yaml
  config_of doc [] = pure doc
  config_of doc (e ∷ es) = throw (config_unparseable (e ∷ es))

  abbrev pub parsed_config : Parsed → M Yaml
  parsed_config p = config_of p.doc p.errors

  -- Is the newest snapshot one of the same masked text?
  abbrev pub same_as_newest : Text → List Meta → Bool
  same_as_newest hash [] = false
  same_as_newest hash (prev ∷ older) = text_eq prev.sha256_masked hash

  abbrev pub is_auto_rollback : AppliedBy → Bool
  is_auto_rollback by_auto_rollback = true
  is_auto_rollback _ = false

  -- The test of an automatic rollback for a snapshot like the newest; if there is one, the uuids
  -- just minted are forgotten.
  unfoldable pub deduplicated : List Byte → AppliedBy → Text → List Text → M Bool
  unfolding gc_set
  deduplicated iv by hash minted =
      if is_auto_rollback by
      then (do
        existing ← on_read read_dir
        if same_as_newest hash existing
            then (do on_vault (gc_set codec iv minted); pure true)
            else pure false)
      else pure false

  unfoldable pub diff_with_newest : Text → Text → List Meta → M Text
  diff_with_newest id masked_text [] = pure (patch (text "/dev/null") id [] masked_text)
  diff_with_newest id masked_text (prev ∷ older) = do
    bundle ← on_read (read prev.listed.id)
    pure (patch prev.listed.id id bundle.config masked_text)

  abbrev pub meta_of : Text → Text → Text → Text → CreateSnapshotMeta → Diff → Meta
  meta_of id iso original masked_text in_meta diff = record {
    listed = record { id = id; timestamp = iso };
    sha256_original = sha256 original;
    sha256_masked = sha256 masked_text;
    applied_by = in_meta.applied_by;
    user_ip = some_text in_meta.user_ip;
    user_agent = some_text in_meta.user_agent;
    diff_summary = diff;
    mihomo_api_version = some_text in_meta.mihomo_api_version;
    transport = or_text in_meta.transport (text "local");
  }

  -- `createSnapshot` once no duplicate was found.
  unfoldable pub written :
      List Byte → Text → Text → Text → List Text → CreateSnapshotMeta → M (Option Meta)
  unfolding diff_with_newest summarize_diff snapshot_id add_references
  written iv iso original masked_text minted in_meta =
      let id = snapshot_id iso (first_eight (sha256 masked_text)) in
      do
        on_vault (add_references codec iv id minted)
        existing ← on_read read_dir
        diff_patch ← diff_with_newest id masked_text existing
        on_dir (
            write id (record {
              config = masked_text;
              meta = meta_of id iso original masked_text in_meta (summarize_diff diff_patch);
              diff_patch = diff_patch;
            }))
        pure (some (meta_of id iso original masked_text in_meta (summarize_diff diff_patch)))

  -- `none` is a snapshot that was left out.
  unfoldable pub create_snapshot : Draws → List Text → Text → CreateSnapshotMeta → M (Option Meta)
  unfolding deduplicated written mask_doc
  create_snapshot draws fields raw_config in_meta = do
    doc ← parsed_config (parse_document raw_config)
    masked ← on_vault (mask_doc codec (draws.ivs 0) draws.uuid draws.created none fields doc)
    skip ← deduplicated (draws.ivs 1) in_meta.applied_by (sha256 (dump masked.0)) masked.1
    if skip
        then pure none
        else written (draws.ivs 1) draws.iso raw_config (dump masked.0) masked.1 in_meta

  unfoldable pub list_snapshots : M (List Meta)
  list_snapshots = on_read read_dir

  unfoldable pub get_snapshot : Text → M Bundle
  get_snapshot id = on_read (read id)

  -- The loop over the snapshots to remove; `ivs i` is drawn for the vault's next write.
  unfoldable pub remove_all : (ℕ → List Byte) → ℕ → List Text → M (Unit {0})
  unfolding drop_snapshot_references
  remove_all ivs i [] = pure tt
  remove_all ivs i (id ∷ ids) = do
    on_dir (delete id)
    on_vault (drop_snapshot_references codec (ivs i) id)
    remove_all ivs (suc i) ids

  -- The uuids of the snapshots that are left.
  unfoldable pub live_uuids : List Meta → M (List Text)
  unfolding extract_sentinel_uuids
  live_uuids [] = pure []
  live_uuids (m ∷ ms) = do
    bundle ← on_read (read m.listed.id)
    rest ← live_uuids ms
    pure (extract_sentinel_uuids (parse_document bundle.config).doc ++ rest)

  abbrev pub listed_of : List Meta → List SnapshotMeta
  listed_of = map λ m. m.listed

  -- The ids that were removed.
  unfoldable pub sweep : RetentionConfig → ℕ → (ℕ → List Byte) → M (List Text)
  unfolding remove_all live_uuids apply_retention gc
  sweep cfg now ivs = do
    snapshots ← on_read read_dir
    let decision = apply_retention parse_date cfg now (listed_of snapshots)
    remove_all ivs 0 decision.remove
    survivors ← on_read read_dir
    live ← live_uuids survivors
    on_vault (gc codec (ivs (length decision.remove)) live)
    pure decision.remove
