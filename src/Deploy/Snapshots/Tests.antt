-- ===== src/Deploy/Snapshots/Tests.antt =====
-- The snapshot manager at a directory of two snapshots.
use miharbor.Base.{◌≡◌, refl, subst, inl, Option, none, some, List, [], ◌∷◌, ◌++◌, map}
use miharbor.Base.Text.{Text, text, text_eq, starts_with}
use miharbor.Base.Dict.{lookup, insert, erase, lookup-insert_self}
use miharbor.Base.Yaml.{Yaml, str, map as yaml_map, end, pair}
use miharbor.Deploy.Effects.{by_user, Reply, returns, throws}
use miharbor.Deploy.Retention.{RetentionConfig}
use miharbor.Vault.Mask.{
  walk_secrets, sentinel_prefix, default_secret_fields, is_secret, is_sentinel,
}
use miharbor.Vault.Unmask.{Entries, mint}
use miharbor.Vault.Unmask.Restores.{texted}
use miharbor.Vault.Store.{unmask_doc, mask_doc}
use miharbor.Vault.Store.File.{ok, read_payload, write_payload}
use miharbor.Vault.Store.Cells.{cells, twelve}
use miharbor.Deploy.Snapshots.{
  Meta, Bundle, SnapshotsDir, Outside, State, Outcome, done, sweep, summarize_diff, create_snapshot,
  get_snapshot, Draws, CreateSnapshotMeta,
}
use miharbor.Deploy.Snapshots.Sweep.{unmask_doc-sweep}
use miharbor.Deploy.Snapshots.Created.{unmask_doc-create_snapshot}

abbrev found : Option Bundle → Reply Bundle
found none = throws (text "missing")
found (some b) = returns b

-- A directory as an association list.
abbrev disk : SnapshotsDir
disk = record {
  Dir = List (Text × Bundle);
  read_dir = λ bs. returns (map (λ b. b.1.meta) bs);
  read = λ id bs. found (lookup id bs);
  write = λ id b bs. (returns tt, insert id b bs);
  delete = λ id bs. (returns tt, erase id bs);
}

-- A document of one key.
abbrev below_secret : Text → Yaml
below_secret t = yaml_map (pair (str (text "secret")) (str t) end)

-- The text below the key of such a document.
abbrev only_text : Yaml → Text
only_text (yaml_map (pair k (str t) end)) = t
only_text _ = []

abbrev simple_outside : Outside
simple_outside = record {
  sha256 = λ t. t;
  parse_document = λ t. record { doc = below_secret t; errors = [] };
  dump = only_text;
  patch = λ old new a b. text "+a";
  parse_date = λ t. some 0;
}

abbrev bundle_of : Text → Text → Bundle
bundle_of id config = record {
  config = config;
  meta = record {
    listed = record { id = id; timestamp = text "t" };
    sha256_original = text "o";
    sha256_masked = text "m";
    applied_by = by_user;
    user_ip = none;
    user_agent = none;
    diff_summary = record { added = 0; removed = 0 };
    mihomo_api_version = none;
    transport = text "local";
  };
  diff_patch = [];
}

abbrev recent : Bundle
recent = bundle_of (text "recent") (sentinel_prefix ++ text "u1")

abbrev old : Bundle
old = bundle_of (text "old") (sentinel_prefix ++ text "u2")

abbrev two_entries : Entries
two_entries =
    (
      text "u1",
      record { value = text "one"; created = text "t"; referenced_by = text "recent" ∷ [] },
    )
    ∷ (
      text "u2",
      record { value = text "two"; created = text "t"; referenced_by = text "old" ∷ [] },
    )
    ∷ []

abbrev two_snapshots : State disk cells simple_outside
two_snapshots = record {
  snapshots = (text "recent", recent) ∷ (text "old", old) ∷ [];
  vault = some (write_payload cells twelve two_entries);
}

-- One snapshot is kept, whatever its age.
abbrev keep_one : RetentionConfig
keep_one = record { retention_count = 1; retention_days = 0 }

abbrev swept : State disk cells simple_outside
swept = (sweep disk cells simple_outside keep_one 10 (λ i. twelve) two_snapshots).1

unmask_doc-sweep_example :
    unmask_doc cells (simple_outside.parse_document recent.config).doc swept.vault
    ≡ unmask_doc cells (simple_outside.parse_document recent.config).doc two_snapshots.vault
unfolding sweep text_eq lookup erase write_payload read_payload
unmask_doc-sweep_example =
    unmask_doc-sweep disk cells simple_outside keep_one 10 (λ i. twelve) two_snapshots two_entries
      (recent.meta ∷ []) recent (λ i. refl) refl refl (inl refl)

swept_ids :
    (sweep disk cells simple_outside keep_one 10 (λ i. twelve) two_snapshots).0
    ≡ done (text "old" ∷ [])
unfolding sweep text_eq lookup erase write_payload read_payload
swept_ids = refl

summarize_diff_run :
    summarize_diff (text "+++ b\n--- a\n+x\n-y\n+z\n c") ≡ record { added = 2; removed = 1 }
unfolding summarize_diff starts_with
summarize_diff_run = refl

abbrev drawn : Draws disk cells simple_outside
drawn = record {
  ivs = λ i. twelve;
  uuid = λ i. i ∷ [];
  created = text "t";
  iso = text "2026-01-01T00:00:00.000Z";
}

abbrev by_a_user : CreateSnapshotMeta
by_a_user = record {
  applied_by = by_user;
  user_ip = none;
  user_agent = none;
  mihomo_api_version = none;
  transport = none;
}

abbrev empty_state : State disk cells simple_outside
empty_state = record { snapshots = []; vault = none }

-- What is made of the secret "hush".
abbrev made : Outcome (Option Meta) × State disk cells simple_outside
made =
    create_snapshot disk cells simple_outside drawn default_secret_fields (text "hush") by_a_user
      empty_state

abbrev made_meta : Meta
made_meta = record {
  listed = record {
    id = text "2026-01-01T00-00-00.000Z-$MIHARBO";
    timestamp = text "2026-01-01T00:00:00.000Z";
  };
  sha256_original = text "hush";
  sha256_masked = sentinel_prefix ++ 0 ∷ [];
  applied_by = by_user;
  user_ip = none;
  user_agent = none;
  diff_summary = record { added = 1; removed = 0 };
  mihomo_api_version = none;
  transport = text "local";
}

made_lem : made.0 ≡ done (some made_meta)
unfolding create_snapshot text_eq lookup insert erase write_payload read_payload starts_with
    is_secret walk_secrets mint
made_lem = refl

read_back :
    (id : Text) (b : Bundle) (d : List (Text × Bundle))
    → (disk.write id b d).0 ≡ returns tt
    → disk.read id (disk.write id b d).1 ≡ returns b
read_back id b d h = rw (lookup-insert_self id b d) refl

parsed_back :
    (doc : Yaml) (uuids : List Text)
    → (mask_doc cells twelve
        (λ i. i ∷ [])
        (text "t")
        none
        default_secret_fields
        (below_secret (text "hush"))
        none).0
      ≡ ok (doc, uuids)
    → below_secret (only_text doc) ≡ doc
unfolding create_snapshot text_eq lookup insert erase write_payload read_payload starts_with
    is_secret walk_secrets mint mask_doc
parsed_back doc uuids h = subst (λ d. below_secret (only_text d) ≡ d) (first_of h) refl
  where
    first_of : {p q : Yaml × List Text} → ok p ≡ ok q → p.0 ≡ q.0
    first_of e = cc e

unmask_doc-create_snapshot_example :
    (b : Bundle) × (get_snapshot disk cells simple_outside made_meta.listed.id made.1
      ≡ (done b, made.1))
    × (unmask_doc cells (simple_outside.parse_document b.config).doc made.1.vault
        ≡ ok (below_secret (text "hush")))
unfolding create_snapshot text_eq lookup insert erase write_payload read_payload starts_with
    is_secret walk_secrets mint texted unmask_doc is_sentinel
unmask_doc-create_snapshot_example =
    unmask_doc-create_snapshot disk cells simple_outside drawn default_secret_fields (text "hush")
      by_a_user made_meta empty_state made.1 [] (below_secret (text "hush")) read_back parsed_back
      (λ i. refl) (λ i j e. cc e) (λ i. refl) refl refl refl
