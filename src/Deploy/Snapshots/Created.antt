-- ===== src/Deploy/Snapshots/Created.antt =====
-- A snapshot as it is made, and as a rollback reads it.
use miharbor.Base.{
  ℕ, ◌≡◌, refl, ap, subst, sym, ◌∙◌, inl, inr, Bool, true, false, Option, none, some, List, [], ◌∷◌,
  length, if◌then◌else◌, Bool-cases,
}
use miharbor.Base.Text.{Text}
use miharbor.Base.Dict.{lookup}
use miharbor.Base.Yaml.{Yaml}
use miharbor.Deploy.Effects.{Reply, returns, throws, Parsed, AppliedBy}
use miharbor.Vault.Unmask.{Entries}
use miharbor.Vault.Unmask.Restores.{texted}
use miharbor.Vault.Store.{unmask_doc, unmasked, mask_doc, add_references, gc_set}
use miharbor.Vault.Store.File.{VaultCodec, read_payload, ok as read_ok}
use miharbor.Vault.Store.References.{SameEntries, add_references-SameEntries}
use miharbor.Vault.Store.Sealed.{unmask_doc-mask_doc, mask_doc-read}
use miharbor.Deploy.Snapshots.Sweep.{bind-done}
use miharbor.Deploy.Snapshots.Uuids.{unmask_entries-same}
use miharbor.Deploy.Snapshots.{
  Meta, Bundle, CreateSnapshotMeta, SnapshotsDir, Outside, State, M, Outcome, done, failed,
  continue, on_dir, on_read, on_vault, replied, read_result, pure, Draws, config_of, parsed_config,
  deduplicated, diff_with_newest, written, create_snapshot, get_snapshot, is_auto_rollback,
  same_as_newest, snapshot_id, meta_of, first_eight, summarize_diff,
}

module _ (dir : SnapshotsDir) (codec : VaultCodec) (out : Outside) where
  open dir use {read_dir, read, write}
  open codec use {Byte}
  open out use {parse_document, dump, sha256}

  -- A computation that gives a result went through both its parts.
  bind-result :
      {A B : Type 0} (r : Outcome A × State dir codec out) (f : A → M dir codec out B) (b : B)
      (t : State dir codec out)
      → continue dir codec out r f ≡ (done b, t)
      → (a : A) × (r.0 ≡ done a) × (f a r.1 ≡ (done b, t))
  bind-result (done a, s) f b t h = (a, refl, h)
  bind-result (failed e, s) f b t h = let clash : failed e ≡ done b = ap (λ p. p.0) h in cc clash

  of_done : {A : Type 0} {x y : A} → Outcome.done x ≡ done y → x ≡ y
  of_done h = cc h

  parsed-step :
      {B : Type 0} (p : Parsed) (f : Yaml → M dir codec out B) (b : B) (s t : State dir codec out)
      → continue dir codec out (parsed_config dir codec out p s) f ≡ (done b, t)
      → f p.doc s ≡ (done b, t)
  parsed-step {B} p f b s t h = step p.errors h
    where
      step :
          (es : List Text)
          → continue dir codec out {B = B} (config_of dir codec out p.doc es s) f ≡ (done b, t)
          → f p.doc s ≡ (done b, t)
      step [] h = h
      step (e ∷ es) h =
          let (doc, clash, _) =
            bind-result {B = B} (config_of dir codec out p.doc (e ∷ es) s) f b t h in
          cc clash

  diff_with_newest-state :
      (id masked : Text) (ms : List Meta) (s : State dir codec out)
      → (diff_with_newest dir codec out id masked ms s).1 ≡ s
  unfolding diff_with_newest
  diff_with_newest-state id masked [] s = refl
  diff_with_newest-state id masked (m ∷ ms) s = of_reply (read m.listed.id s.snapshots)
    where
      of_reply :
          (r : Reply Bundle)
          → (continue dir codec out {B = Text}
              (replied dir codec out r, s)
              (λ b. pure dir codec out (out.patch m.listed.id id b.config masked))).1
            ≡ s
      of_reply (returns b) = refl
      of_reply (throws e) = refl

  deduplicated-state :
      (iv : List Byte) (by : AppliedBy) (hash : Text) (minted : List Text) (s : State dir codec out)
      → (deduplicated dir codec out iv by hash minted s).0 ≡ done false
      → (deduplicated dir codec out iv by hash minted s).1 ≡ s
  unfolding deduplicated
  deduplicated-state iv by hash minted s h = elim (Bool-cases (is_auto_rollback dir codec out by)) [
    | inl e ↦ rw e (of_reply (read_dir s.snapshots) (rw e at h))
    | inr e ↦ rw e refl
  ]
    where
      checked : List Meta → M dir codec out Bool
      checked ms =
          if same_as_newest dir codec out hash ms
          then (λ t.
              continue dir codec out {A = ℕ} {B = Bool}
                (on_vault dir codec out (gc_set codec iv minted) t) (λ _. pure dir codec out true))
          else pure dir codec out false

      of_list : (ms : List Meta) → (checked ms s).0 ≡ done false → (checked ms s).1 ≡ s
      of_list ms h = elim (Bool-cases (same_as_newest dir codec out hash ms)) [
        | inl e ↦
            let (n, hn, clash) =
              bind-done dir codec out {A = ℕ} {B = Bool}
                (on_vault dir codec out (gc_set codec iv minted) s) (λ _. pure dir codec out true)
                false (rw e at h) in
            let q : done true ≡ done false = clash in absurd (cc q)
        | inr e ↦ rw e refl
      ]

      of_reply :
          (r : Reply (List Meta))
          → (continue dir codec out {B = Bool} (replied dir codec out r, s) checked).0 ≡ done false
          → (continue dir codec out {B = Bool} (replied dir codec out r, s) checked).1 ≡ s
      of_reply (returns ms) h = of_list ms h
      of_reply (throws e) h = refl

  -- A written snapshot is read back with the masked text, and the vault has the values it had.
  module _
      (read-write : (id : Text) (b : Bundle) (d : dir.Dir)
        → (write id b d).0 ≡ returns tt
        → read id (write id b d).1 ≡ returns b) where
    stored :
        (id : Text) (b : Bundle) (m meta : Meta) (s t : State dir codec out)
        → m.listed.id ≡ id
        → continue dir codec out {A = Unit} {B = Option Meta}
            (on_dir dir codec out (write id b) s)
            (λ _. pure dir codec out (some m))
          ≡ (done (some meta), t)
        → (read meta.listed.id t.snapshots ≡ returns b) × (t.vault ≡ s.vault)
    stored id b m meta s t i e =
        let (u, hu, l) =
          bind-result {A = Unit} {B = Option Meta} (on_dir dir codec out (write id b) s)
            (λ _. pure dir codec out (some m)) (some meta) t e in
        let at : State dir codec out = (on_dir dir codec out (write id b) s).1 in
        let same_meta = of_some (of_done (ap (λ p. p.0) l)) in
        let same_state : at ≡ t = ap (λ p. p.1) l in
        (
          subst (λ j. read j t.snapshots ≡ returns b) (sym i ∙ ap (λ m. m.listed.id) same_meta)
              (subst (λ d. read id d ≡ returns b) (ap (λ v. v.snapshots) same_state)
                (read-write id b s.snapshots (returned (write id b s.snapshots).0 hu))),
          sym (ap (λ v. v.vault) same_state),
        )
      where
        of_some : {x y : Meta} → some x ≡ some y → x ≡ y
        of_some h = cc h

        returned :
            {u : Unit {0}} (r : Reply (Unit {0}))
            → replied dir codec out r ≡ done u
            → r ≡ returns tt
        returned (returns v) h = refl
        returned (throws x) h = cc h

    written-read :
        (iv : List Byte) (iso original masked : Text) (minted : List Text)
        (in_meta : CreateSnapshotMeta) (meta : Meta) (s t : State dir codec out) (entries : Entries)
        → length iv ≡ 12
        → read_payload codec s.vault ≡ read_ok entries
        → written dir codec out iv iso original masked minted in_meta s ≡ (done (some meta), t)
        → (b : Bundle) × (later : Entries) × (b.config ≡ masked)
          × (read meta.listed.id t.snapshots ≡ returns b)
          × (read_payload codec t.vault ≡ read_ok later)
          × SameEntries entries later
    unfolding written
    written-read iv iso original masked minted in_meta meta s t entries sized h e =
        let id = snapshot_id iso (first_eight (sha256 masked)) in
        let (later, r, same) =
          add_references-SameEntries codec iv sized id minted s.vault entries h in
        let s1 = (on_vault dir codec out (add_references codec iv id minted) s).1 in
        let (u, hu, e1) =
          bind-result {A = Unit} {B = Option Meta}
            (on_vault dir codec out (add_references codec iv id minted) s) _ (some meta) t e in
        let (ms, hm, e2) =
          bind-result {B = Option Meta} (on_read dir codec out read_dir s1) _ (some meta) t e1 in
        let (p, hp, e3) =
          bind-result {B = Option Meta} (diff_with_newest dir codec out id masked ms s1) _
            (some meta) t e2 in
        let s2 =
          subst
            (λ v.
              continue dir codec out {A = Unit} {B = Option Meta}
                (on_dir dir codec out (write id (bundle_of id p)) v)
                (λ _. pure dir codec out (some (bundle_of id p).meta))
              ≡ (done (some meta), t))
            (diff_with_newest-state id masked ms s1) e3 in
        let (there, file) = stored id (bundle_of id p) (bundle_of id p).meta meta s1 t refl s2 in
        (bundle_of id p, later, refl, there, ap (read_payload codec) file ∙ r, same)
      where
        bundle_of : Text → Text → Bundle
        bundle_of id p = record {
          config = masked;
          meta = meta_of dir codec out id iso original masked in_meta (summarize_diff p);
          diff_patch = p;
        }

    -- The steps after the masking.
    after_masking :
        (iv : List Byte) (iso raw : Text) (in_meta : CreateSnapshotMeta) (masked : Yaml)
        (minted : List Text) (meta : Meta) (s t : State dir codec out) (entries : Entries)
        (w : Yaml)
        → (parse_document (dump masked)).doc ≡ masked
        → length iv ≡ 12
        → read_payload codec s.vault ≡ read_ok entries
        → unmask_doc codec masked s.vault ≡ read_ok w
        → continue dir codec out {A = Bool} {B = Option Meta}
            (deduplicated dir codec out iv in_meta.applied_by (sha256 (dump masked)) minted s)
            (λ skip.
              if skip
              then pure dir codec out none
              else written dir codec out iv iso raw (dump masked) minted in_meta)
          ≡ (done (some meta), t)
        → (b : Bundle) × (read meta.listed.id t.snapshots ≡ returns b)
          × (unmask_doc codec (parse_document b.config).doc t.vault ≡ read_ok w)
    unfolding unmask_doc
    after_masking iv iso raw in_meta masked minted meta s t entries w print sized h e k =
        let found =
          deduplicated dir codec out iv in_meta.applied_by (sha256 (dump masked)) minted s in
        let (skip, hs, k1) = bind-result {B = Option Meta} found _ (some meta) t k in
        let (b, later, c, r, l, same) = not_skipped skip hs k1 in
        (
          b,
          r,
          rw (c, print, l)
                (ap unmasked (sym (unmask_entries-same entries later masked λ u _. same u)))
              ∙ (rw h at e),
        )
      where
        not_skipped :
            (skip : Bool)
            → (deduplicated dir codec out iv in_meta.applied_by (sha256 (dump masked)) minted s).0
              ≡ done skip
            → (if skip
                  then pure dir codec out none
                  else written dir codec out iv iso raw (dump masked) minted in_meta)
                (deduplicated dir codec out iv in_meta.applied_by (sha256 (dump masked)) minted s).1
              ≡ (done (some meta), t)
            → (b : Bundle) × (later : Entries) × (b.config ≡ dump masked)
              × (read meta.listed.id t.snapshots ≡ returns b)
              × (read_payload codec t.vault ≡ read_ok later)
              × SameEntries entries later
        not_skipped true hs k =
            let clash : done none ≡ done (some meta) = ap (λ p. p.0) k in absurd (cc clash)
        not_skipped false hs k =
            written-read iv iso raw (dump masked) minted in_meta meta s t entries sized h (
              subst
                (λ v.
                  written dir codec out iv iso raw (dump masked) minted in_meta v
                  ≡ (done (some meta), t))
                (deduplicated-state iv in_meta.applied_by (sha256 (dump masked)) minted s hs) k)

  -- A snapshot that was made is restored by its id: what the rollback reads, parses and unmasks is
  -- what unmasking gives for the configuration itself, with the numbers and Booleans below secret
  -- keys as texts. The vault can be read and unmasks that configuration; the uuids differ and the
  -- vault holds none of them; the initialisation vectors have 12 bytes; a written snapshot is read
  -- back by the transport, and the masked document by the parser.
  pub unmask_doc-create_snapshot :
      (draws : Draws dir codec out) (fields : List Text) (raw : Text) (in_meta : CreateSnapshotMeta)
      (meta : Meta) (s t : State dir codec out) (entries : Entries) (w : Yaml)
      → ((id : Text) (b : Bundle) (d : dir.Dir)
          → (write id b d).0 ≡ returns tt
          → read id (write id b d).1 ≡ returns b)
      → ((doc : Yaml) (uuids : List Text)
          → (mask_doc codec
              (draws.ivs 0)
              draws.uuid
              draws.created
              none
              fields
              (parse_document raw).doc
              s.vault).0
            ≡ read_ok (doc, uuids)
          → (parse_document (dump doc)).doc ≡ doc)
      → ((i : ℕ) → length (draws.ivs i) ≡ 12)
      → ((i j : ℕ) → draws.uuid i ≡ draws.uuid j → i ≡ j)
      → ((i : ℕ) → lookup (draws.uuid i) entries ≡ none)
      → read_payload codec s.vault ≡ read_ok entries
      → unmask_doc codec
          (texted draws.uuid draws.created [] fields false (parse_document raw).doc)
          s.vault
        ≡ read_ok w
      → create_snapshot dir codec out draws fields raw in_meta s ≡ (done (some meta), t)
      → (b : Bundle) × (get_snapshot dir codec out meta.listed.id t ≡ (done b, t))
        × (unmask_doc codec (parse_document b.config).doc t.vault ≡ read_ok w)
  unfolding create_snapshot get_snapshot
  unmask_doc-create_snapshot draws fields raw in_meta meta s t entries w read-write print sized
        differ fresh h e k =
      let doc = (parse_document raw).doc in
      let mask : M dir codec out (Yaml × List Text) =
        on_vault dir codec out
          (mask_doc codec (draws.ivs 0) draws.uuid draws.created none fields doc) in
      let k1 = parsed-step {B = Option Meta} (parse_document raw) _ (some meta) s t k in
      let (m, hm, k2) = bind-result {B = Option Meta} (mask s) _ (some meta) t k1 in
      let (masked, minted, hm', un) =
        unmask_doc-mask_doc codec (draws.ivs 0) (sized 0) draws.uuid draws.created none fields doc w
          s.vault entries differ fresh h e in
      let (later, l) =
        mask_doc-read codec (draws.ivs 0) (sized 0) draws.uuid draws.created none fields doc s.vault
          entries h in
      let same : m ≡ (masked, minted) = of_done (sym hm ∙ ap (read_result dir codec out) hm') in
      let (b, r, v) =
        after_masking read-write (draws.ivs 1) draws.iso raw in_meta m.0 m.1 meta (mask s).1 t later
          w
          (subst (λ d. (parse_document (dump d)).doc ≡ d) (sym (ap (λ p. p.0) same))
            (print masked minted hm'))
          (sized 1) l
          (subst (λ d. unmask_doc codec d (mask s).1.vault ≡ read_ok w) (sym (ap (λ p. p.0) same))
            un)
          k2 in
      (b, rw r refl, v)
