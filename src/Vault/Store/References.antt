-- ===== src/Vault/Store/References.antt =====
-- What `gc`, `addReferences` and `dropSnapshotReferences` of vault/vault.ts leave in the file.
use miharbor.Base.{
  ℕ, ◌≡◌, refl, ap, sym, ◌∙◌, inl, inr, Bool, true, false, Option, none, some, List, [], ◌∷◌, ◌++◌,
  ◌⊎◌, if◌then◌else◌, ltb, length, Bool-cases, arith,
}
use miharbor.Base.Text.{Text, text_eq, eq_of_text_eq}
use miharbor.Base.Dict.{lookup, lookup-insert}
use miharbor.Vault.Unmask.{VaultEntry, Entries}
use miharbor.Vault.Store.File.{VaultCodec, ok, read_payload}
use miharbor.Vault.Store.Sealed.{read_payload-write_payload}
use miharbor.Vault.Store.Sweeps.{gc_keys-same, lookup-swept}
use miharbor.Vault.Store.{
  value_of, is_in, keys, gc_keys, swept, gc, refer, refer_all, rewritten, add_references,
  drop_references, drop_snapshot_references,
}

-- Every uuid has the same value.
abbrev pub SameEntries : Entries → Entries → Type 0
SameEntries before later = (u : Text) → value_of (lookup u before) ≡ value_of (lookup u later)

drop_references-SameEntries :
    (id : Text) (entries : Entries) → SameEntries entries (drop_references id entries).0
unfolding drop_references lookup
drop_references-SameEntries id [] u = refl
drop_references-SameEntries id ((v, e) ∷ entries) u = elim (Bool-cases (is_in id e.referenced_by)) [
  | inl q ↦ elim (Bool-cases (text_eq v u)) [
    | inl h ↦ rw (q, h) refl
    | inr h ↦ rw (q, h) (drop_references-SameEntries id entries u)
  ]
  | inr q ↦ elim (Bool-cases (text_eq v u)) [
    | inl h ↦ rw (q, h) refl
    | inr h ↦ rw (q, h) (drop_references-SameEntries id entries u)
  ]
]

drop_references-unchanged :
    (id : Text) (entries : Entries)
    → (drop_references id entries).1 ≡ false
    → (drop_references id entries).0 ≡ entries
unfolding drop_references
drop_references-unchanged id [] h = refl
drop_references-unchanged id ((v, e) ∷ entries) h = elim (Bool-cases (is_in id e.referenced_by)) [
  | inl q ↦ let flag : true ≡ false = rw q at h in cc flag
  | inr q ↦ rw q (ap (λ es. (v, e) ∷ es) (drop_references-unchanged id entries (rw q at h)))
]

refer-SameEntries :
    (id u : Text) (entries : Entries) (changed : Bool) (o : Option VaultEntry)
    → lookup u entries ≡ o
    → SameEntries entries (refer id u o entries changed).0
refer-SameEntries id u entries changed none h w = refl
refer-SameEntries id u entries changed (some e) h w = elim (Bool-cases (is_in id e.referenced_by)) [
  | inl q ↦ rw q refl
  | inr q ↦ rw (q, lookup-insert) (inserted (Bool-cases (text_eq u w)))
]
  where
    inserted :
        (text_eq u w ≡ true) ⊎ (text_eq u w ≡ false)
        → value_of (lookup w entries)
          ≡ value_of (
              if text_eq u w
              then some (record e { referenced_by = e.referenced_by ++ id ∷ [] })
              else lookup w entries)
    inserted (inl t) = rw (t, sym (eq_of_text_eq u w t), h) refl
    inserted (inr f) = rw f refl

refer_all-SameEntries :
    (id : Text) (us : List Text) (entries : Entries) (changed : Bool)
    → SameEntries entries (refer_all id us entries changed).0
unfolding refer_all
refer_all-SameEntries id [] entries changed w = refl
refer_all-SameEntries id (u ∷ us) entries changed w =
    let r = refer id u (lookup u entries) entries changed in
    refer-SameEntries id u entries changed (lookup u entries) refl w
    ∙ refer_all-SameEntries id us r.0 r.1 w

refer_all-changed :
    (id : Text) (us : List Text) (entries : Entries) → (refer_all id us entries true).1 ≡ true
unfolding refer_all
refer_all-changed id [] entries = refl
refer_all-changed id (u ∷ us) entries = changed_once (refer_all-changed id us) (lookup u entries)
  where
    changed_once :
        ((es : Entries) → (refer_all id us es true).1 ≡ true)
        → (o : Option VaultEntry)
        → (refer_all id us (refer id u o entries true).0 (refer id u o entries true).1).1 ≡ true
    changed_once k none = k entries
    changed_once k (some e) = elim (Bool-cases (is_in id e.referenced_by)) [
      | inl q ↦ rw q (k entries)
      | inr q ↦ rw q (k _)
    ]

refer_all-unchanged :
    (id : Text) (us : List Text) (entries : Entries)
    → (refer_all id us entries false).1 ≡ false
    → (refer_all id us entries false).0 ≡ entries
unfolding refer_all
refer_all-unchanged id [] entries h = refl
refer_all-unchanged id (u ∷ us) entries h =
    unchanged_once (refer_all-unchanged id us entries) (lookup u entries) h
  where
    unchanged_once :
        ((refer_all id us entries false).1 ≡ false → (refer_all id us entries false).0 ≡ entries)
        → (o : Option VaultEntry)
        → (refer_all id us (refer id u o entries false).0 (refer id u o entries false).1).1 ≡ false
        → (refer_all id us (refer id u o entries false).0 (refer id u o entries false).1).0
          ≡ entries
    unchanged_once k none h = k h
    unchanged_once k (some e) h = elim (Bool-cases (is_in id e.referenced_by)) [
      | inl q ↦ rw q (k (rw q at h))
      | inr q ↦ let flag : true ≡ false = sym (refer_all-changed id us _) ∙ (rw q at h) in cc flag
    ]

module _ (codec : VaultCodec) where
  open codec use {Byte}

  module _ (iv : List Byte) (sized : length iv ≡ 12) where
    -- The file after an operation that writes where it changed something.
    rewritten-read :
        (file : Option (List Byte)) (entries : Entries) (r : Entries × Bool)
        → read_payload codec file ≡ ok entries
        → (r.1 ≡ false → r.0 ≡ entries)
        → read_payload codec (rewritten codec iv file r).1 ≡ ok r.0
    rewritten-read file entries (es, true) h same = read_payload-write_payload codec iv es sized
    rewritten-read file entries (es, false) h same = h ∙ ap ok (sym (same refl))

    pub drop_snapshot_references-SameEntries :
        (id : Text) (file : Option (List Byte)) (entries : Entries)
        → read_payload codec file ≡ ok entries
        → (later : Entries) × (read_payload codec (drop_snapshot_references codec iv id file).1
            ≡ ok later)
          × SameEntries entries later
    unfolding drop_snapshot_references
    drop_snapshot_references-SameEntries id file entries h = rw h (
      (drop_references id entries).0,
      rewritten-read file entries (drop_references id entries) h
          (drop_references-unchanged id entries),
      drop_references-SameEntries id entries,
    )

    pub add_references-SameEntries :
        (id : Text) (uuids : List Text) (file : Option (List Byte)) (entries : Entries)
        → read_payload codec file ≡ ok entries
        → (later : Entries) × (read_payload codec (add_references codec iv id uuids file).1
            ≡ ok later)
          × SameEntries entries later
    unfolding add_references
    add_references-SameEntries id uuids file entries h = rw h (
      (refer_all id uuids entries false).0,
      rewritten-read file entries (refer_all id uuids entries false) h
          (refer_all-unchanged id uuids entries),
      refer_all-SameEntries id uuids entries false,
    )

    pub gc-read :
        (live : List Text) (file : Option (List Byte)) (entries : Entries)
        → read_payload codec file ≡ ok entries
        → (later : Entries) × (read_payload codec (gc codec iv live file).1 ≡ ok later)
          × ((u : Text) → is_in u live ≡ true → lookup u entries ≡ lookup u later)
    unfolding gc
    gc-read live file entries h =
        let r = gc_keys live (keys entries) entries 0 in
        rw h (
          r.0,
          swept_read r (gc_keys-same live (keys entries) entries 0),
          λ u i. sym (lookup-swept live entries u ∙ rw i refl),
        )
      where
        swept_read :
            (r : Entries × ℕ)
            → (r.1 ≡ 0 → r.0 ≡ entries)
            → read_payload codec (swept codec iv file r).1 ≡ ok r.0
        swept_read r same = elim (Bool-cases (ltb 0 r.1)) [
          | inl e ↦ rw e (read_payload-write_payload codec iv r.0 sized)
          | inr e ↦ rw e (h ∙ ap ok (sym (same (ground (arith, e)))))
        ]
