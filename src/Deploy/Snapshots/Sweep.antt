-- ===== src/Deploy/Snapshots/Sweep.antt =====
-- Retention sweeps and the secrets of the snapshots that are left.
use miharbor.Base.{
  ℕ, suc, ◌≡◌, refl, ap, subst, sym, ◌∙◌, ◌⊎◌, inl, inr, Bool, true, false, ◌||◌, Option, List, [],
  ◌∷◌, ◌++◌, length,
}
use miharbor.Base.Text.{Text, text_eq}
use miharbor.Base.Yaml.{Yaml}
use miharbor.Deploy.Effects.{Reply, returns, throws}
use miharbor.Deploy.Retention.{RetentionConfig, apply_retention}
use miharbor.Vault.Unmask.{Entries}
use miharbor.Vault.Store.{is_in, value_of, gc, unmask_doc, drop_snapshot_references}
use miharbor.Vault.Store.File.{VaultCodec, read_payload, ok as read_ok}
use miharbor.Vault.Store.References.{SameEntries, drop_snapshot_references-SameEntries, gc-read}
use miharbor.Deploy.Snapshots.Uuids.{
  extract_sentinel_uuids, SameValues, unmask_entries-same, any-append,
}
use miharbor.Deploy.Snapshots.{
  Meta, Bundle, SnapshotsDir, Outside, State, M, Outcome, done, failed, continue, on_dir, on_read,
  on_vault, replied, pure, remove_all, live_uuids, listed_of, sweep,
}

module _ (dir : SnapshotsDir) (codec : VaultCodec) (out : Outside) where
  open dir use {read_dir, read, delete}
  open codec use {Byte}
  open out use {parse_document, parse_date}

  -- A property of the state after a step, and after the rest if there is one.
  bind-state :
      {A B : Type 0} (Q : State dir codec out → Type 0) (r : Outcome A × State dir codec out)
      (f : A → M dir codec out B)
      → Q r.1
      → ((a : A) → r.0 ≡ done a → Q (f a r.1).1)
      → Q (continue dir codec out r f).1
  bind-state Q (done a, s) f h k = k a refl
  bind-state Q (failed e, s) f h k = h

  module _ (before : Entries) where
    -- The vault is readable, and each uuid has the value it had.
    abbrev SameVault : State dir codec out → Type 0
    SameVault s =
        (later : Entries) × (read_payload codec s.vault ≡ read_ok later) × SameEntries before later

    module _ (ivs : ℕ → List Byte) (sized : (i : ℕ) → length (ivs i) ≡ 12) where
      dropped-SameVault :
          (i : ℕ) (id : Text) (s : State dir codec out)
          → SameVault s
          → SameVault (on_vault dir codec out (drop_snapshot_references codec (ivs i) id) s).1
      dropped-SameVault i id s (es, h, same) =
          let (later, r, v) =
            drop_snapshot_references-SameEntries codec (ivs i) (sized i) id s.vault es h in
          (later, r, λ u. same u ∙ v u)

      remove_all-SameVault :
          (i : ℕ) (ids : List Text) (s : State dir codec out)
          → SameVault s
          → SameVault (remove_all dir codec out ivs i ids s).1
      unfolding remove_all
      remove_all-SameVault i [] s h = h
      remove_all-SameVault i (id ∷ ids) s h =
          let s1 = (on_dir dir codec out (delete id) s).1 in
          let s2 = (on_vault dir codec out (drop_snapshot_references codec (ivs i) id) s1).1 in
          let h2 = dropped-SameVault i id s1 h in
          bind-state SameVault (on_dir dir codec out (delete id) s) _ h λ _ _.
            bind-state {B = Unit} SameVault
              (on_vault dir codec out (drop_snapshot_references codec (ivs i) id) s1)
              (λ _. remove_all dir codec out ivs (suc i) ids) h2
              λ _ _. remove_all-SameVault (suc i) ids s2 h2

  -- Both parts of a computation that gives a result give one.
  pub bind-done :
      {A B : Type 0} (r : Outcome A × State dir codec out) (f : A → M dir codec out B) (b : B)
      → (continue dir codec out r f).0 ≡ done b
      → (a : A) × (r.0 ≡ done a) × ((f a r.1).0 ≡ done b)
  bind-done (done a, s) f b h = (a, refl, h)
  bind-done (failed e, s) f b h = cc h

  live_uuids-state :
      (ms : List Meta) (s : State dir codec out) → (live_uuids dir codec out ms s).1 ≡ s
  unfolding live_uuids
  live_uuids-state [] s = refl
  live_uuids-state (m ∷ ms) s =
      bind-state {B = List Text} (λ t. t ≡ s) (on_read dir codec out (read m.listed.id) s) _ refl
        λ b _.
          bind-state {B = List Text} (λ t. t ≡ s) (live_uuids dir codec out ms s)
            (λ rest t. (done (extract_sentinel_uuids (parse_document b.config).doc ++ rest), t))
            (live_uuids-state ms s) λ rest _. live_uuids-state ms s

  -- A snapshot of a list, with the files that are read for it.
  abbrev pub InList : List Meta → dir.Dir → Bundle → Type 0
  InList [] d b = ⊥
  InList (m ∷ ms) d b = (read m.listed.id d ≡ returns b) ⊎ InList ms d b

  live_uuids-all :
      (ms : List Meta) (s : State dir codec out) (live : List Text) (b : Bundle) (u : Text)
      → (live_uuids dir codec out ms s).0 ≡ done live
      → InList ms s.snapshots b
      → is_in u (extract_sentinel_uuids (parse_document b.config).doc) ≡ true
      → is_in u live ≡ true
  unfolding live_uuids
  live_uuids-all [] s live b u h i e = absurd i
  live_uuids-all (m ∷ ms) s live b u h i e =
      let (c, hc, k) =
        bind-done {B = List Text} (on_read dir codec out (read m.listed.id) s) _ live h in
      let (rest, hr, l) =
        bind-done {B = List Text} (live_uuids dir codec out ms s)
          (λ rest t. (done (extract_sentinel_uuids (parse_document c.config).doc ++ rest), t)) live
          k in
      subst (λ us. is_in u us ≡ true) (of_done l)
        (rw (any-append (text_eq u) (extract_sentinel_uuids (parse_document c.config).doc) rest)
          (either c rest hc i (λ i'. live_uuids-all ms s rest b u hr i' e)))
    where
      of_done : {A : Type 0} {x y : A} → Outcome.done x ≡ done y → x ≡ y
      of_done h = cc h

      or_true : (b : Bool) → (b || true) ≡ true
      or_true true = refl
      or_true false = refl

      either :
          (c : Bundle) (rest : List Text)
          → (on_read dir codec out (read m.listed.id) s).0 ≡ done c
          → InList (m ∷ ms) s.snapshots b
          → (InList ms s.snapshots b → is_in u rest ≡ true)
          → (is_in u (extract_sentinel_uuids (parse_document c.config).doc) || is_in u rest) ≡ true
      either c rest hc (inl r) k =
          let same : done b ≡ done c = rw r at hc in rw (sym (of_done same), e) refl
      either c rest hc (inr j) k = rw (k j) (or_true _)

  module _ (cfg : RetentionConfig) (now : ℕ) (ivs : ℕ → List Byte)
      (sized : (i : ℕ) → length (ivs i) ≡ 12) where
    -- Each snapshot that the directory lists afterwards is unmasked as before.
    abbrev Restorable : State dir codec out → State dir codec out → Type 0
    Restorable s t =
        (ms : List Meta) (b : Bundle)
        → read_dir t.snapshots ≡ returns ms
        → InList ms t.snapshots b
        → unmask_doc codec (parse_document b.config).doc t.vault
          ≡ unmask_doc codec (parse_document b.config).doc s.vault

    module _ (s : State dir codec out) (entries : Entries)
        (h : read_payload codec s.vault ≡ read_ok entries) where
      unmasked_alike :
          (doc : Yaml) (file : Option (List Byte)) (later : Entries)
          → read_payload codec file ≡ read_ok later
          → SameValues entries later (extract_sentinel_uuids doc)
          → unmask_doc codec doc file ≡ unmask_doc codec doc s.vault
      unfolding unmask_doc
      unmasked_alike doc file later e same =
          rw (e, h, unmask_entries-same entries later doc same) refl

      alike_Restorable : (t : State dir codec out) → SameVault entries t → Restorable s t
      alike_Restorable t (later, e, same) ms b l i =
          unmasked_alike (parse_document b.config).doc t.vault later e λ u _. same u

      collected-Restorable :
          (n : ℕ) (ms : List Meta) (live : List Text) (t : State dir codec out)
          → SameVault entries t
          → read_dir t.snapshots ≡ returns ms
          → (live_uuids dir codec out ms t).0 ≡ done live
          → Restorable s (on_vault dir codec out (gc codec (ivs n) live) t).1
      collected-Restorable n ms live t (later, e, same) l k ns b l' i =
          let (last, e', kept) = gc-read codec (ivs n) (sized n) live t.vault later e in
          unmasked_alike (parse_document b.config).doc _ last e' λ u hu.
            same u
            ∙ ap value_of (
                kept u (
                  live_uuids-all ms t live b u k
                    (subst (λ xs. InList xs t.snapshots b) (of_returns (sym l' ∙ l)) i) hu))
        where
          of_returns : {x y : List Meta} → Reply.returns x ≡ returns y → x ≡ y
          of_returns q = cc q

      sweep-Restorable : Restorable s (sweep dir codec out cfg now ivs s).1
      unfolding sweep
      sweep-Restorable =
          bind-state {B = List Text} (Restorable s) (on_read dir codec out read_dir s) _
            (alike_Restorable s start)
            λ snapshots _.
              let ids =
                (apply_retention parse_date cfg now (listed_of dir codec out snapshots)).remove in
              let s1 = (remove_all dir codec out ivs 0 ids s).1 in
              let v1 = remove_all-SameVault entries ivs sized 0 ids s start in
              bind-state {B = List Text} (Restorable s) (remove_all dir codec out ivs 0 ids s) _
                (alike_Restorable s1 v1)
                λ _ _.
                  bind-state {B = List Text} (Restorable s) (on_read dir codec out read_dir s1) _
                    (alike_Restorable s1 v1)
                    λ ms hms. last_steps ids s1 v1 ms (listed (read_dir s1.snapshots) hms)
        where
          start : SameVault entries s
          start = (entries, h, λ u. refl)

          listed :
              {ms : List Meta} (r : Reply (List Meta))
              → replied dir codec out r ≡ done ms
              → r ≡ returns ms
          listed (returns ns) e = ap returns (cc e)
          listed (throws x) e = cc e

          last_steps :
              (ids : List Text) (t : State dir codec out)
              → SameVault entries t
              → (ms : List Meta) → read_dir t.snapshots ≡ returns ms
              → Restorable s
                  (continue dir codec out {A = List Text} {B = List Text}
                    (live_uuids dir codec out ms t)
                    (λ live u.
                      continue dir codec out {A = ℕ} {B = List Text}
                        (on_vault dir codec out (gc codec (ivs (length ids)) live) u)
                        (λ _. pure dir codec out ids))).1
          last_steps ids t v ms l =
              bind-state {B = List Text} (Restorable s) (live_uuids dir codec out ms t) _
                (subst (Restorable s) (sym (live_uuids-state ms t)) (alike_Restorable t v))
                λ live hl.
                  let gc_at : M dir codec out ℕ =
                    λ u. on_vault dir codec out (gc codec (ivs (length ids)) live) u in
                  let kept =
                    subst (λ u. Restorable s (gc_at u).1) (sym (live_uuids-state ms t))
                      (collected-Restorable (length ids) ms live t v l hl) in
                  bind-state {B = List Text} (Restorable s)
                    (gc_at (live_uuids dir codec out ms t).1) _ kept λ _ _. kept

  -- Whatever a sweep comes to, and also where a call of the transport throws under way, every
  -- snapshot that the directory lists afterwards is unmasked by the vault as before the sweep, where
  -- the vault was readable and the vectors of its writes have 12 bytes.
  pub unmask_doc-sweep :
      (cfg : RetentionConfig) (now : ℕ) (ivs : ℕ → List Byte) (s : State dir codec out)
      (entries : Entries) (ms : List Meta) (b : Bundle)
      → ((i : ℕ) → length (ivs i) ≡ 12)
      → read_payload codec s.vault ≡ read_ok entries
      → read_dir (sweep dir codec out cfg now ivs s).1.snapshots ≡ returns ms
      → InList ms (sweep dir codec out cfg now ivs s).1.snapshots b
      → unmask_doc codec (parse_document b.config).doc (sweep dir codec out cfg now ivs s).1.vault
        ≡ unmask_doc codec (parse_document b.config).doc s.vault
  unmask_doc-sweep cfg now ivs s entries ms b sized h l i =
      sweep-Restorable cfg now ivs sized s entries h ms b l i
