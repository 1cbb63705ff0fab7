-- ===== src/Vault/Store/Sealed.antt =====
-- The operations of the vault (vault/vault.ts) across its file.
use miharbor.Base.{
  ℕ, zero, suc, ◌≡◌, refl, sym, ap, ◌∙◌, inl, inr, Bool, true, false, not, Option, none, some, List,
  [], ◌∷◌, ◌++◌, if◌then◌else◌, ltb, length, length-append, Bool-cases, arith, take, drop,
}
use mathlib.Core.List.{append_assoc}
use miharbor.Base.Text.{Text, text_eq}
use miharbor.Base.Dict.{lookup, lookup-insert}
use miharbor.Base.Yaml.{Yaml}
use miharbor.Vault.Unmask.{VaultEntry, Entries, Unmasked, Minting, mask_entries, unmask_entries}
use miharbor.Vault.Unmask.Restores.{texted, unmask-mask}
use miharbor.Vault.Store.File.{VaultCodec, ok, read_payload, write_payload, read_bytes}
use miharbor.Vault.Store.Sweeps.{gc_keys-same, lookup-swept, lookup-gc_listed, gc_listed-same}
use miharbor.Vault.Store.{
  store, resolve, value_of, mask_doc, none_drawn, unmask_doc, is_in, gc_keys, gc_listed, swept, gc,
  gc_set, keys, owners, unmasked,
}

take-append : {A : Type 0} (n : ℕ) (xs ys : List A) → length xs ≡ n → take n (xs ++ ys) ≡ xs
take-append zero [] ys h = refl
take-append zero (x ∷ xs) ys h = absurd (omega (arith, h))
take-append (suc n) [] ys h = absurd (omega (arith, h))
take-append (suc n) (x ∷ xs) ys h = ap (λ zs. x ∷ zs) (take-append n xs ys (omega (arith, h)))

drop-append : {A : Type 0} (n : ℕ) (xs ys : List A) → length xs ≡ n → drop n (xs ++ ys) ≡ ys
drop-append zero [] ys h = refl
drop-append zero (x ∷ xs) ys h = absurd (omega (arith, h))
drop-append (suc n) [] ys h = absurd (omega (arith, h))
drop-append (suc n) (x ∷ xs) ys h = drop-append n xs ys (omega (arith, h))

module _ (codec : VaultCodec) where
  open codec use {
    Byte, encrypt, decrypt, stringify, parse, decrypt-encrypt, length-tag, parse-stringify,
  }

  -- A written file of an initialisation vector, a tag and a ciphertext is read back.
  read_bytes-parts :
      (iv tag cipher plain : List Byte) (entries : Entries)
      → length iv ≡ 12
      → length tag ≡ 16
      → decrypt iv tag cipher ≡ some plain
      → parse plain ≡ some (record { version = 1; entries = entries })
      → read_bytes codec (iv ++ (tag ++ cipher)) ≡ ok entries
  unfolding read_bytes
  read_bytes-parts iv tag cipher plain entries h g d e =
      rw
        (
          long_enough,
          take-append 12 iv (tag ++ cipher) h,
          drop-append 12 iv (tag ++ cipher) h,
          take-append 16 tag cipher g,
          sym (append_assoc iv tag cipher),
          drop-append 28 (iv ++ tag) cipher (omega (arith, length-append iv tag, h, g)),
          d,
          e,
        )
        refl
    where
      long_enough : ltb (length (iv ++ (tag ++ cipher))) 28 ≡ false
      long_enough = ground (arith, h, g, length-append iv (tag ++ cipher), length-append tag cipher)

  pub read_payload-write_payload :
      (iv : List Byte) (entries : Entries)
      → length iv ≡ 12
      → read_payload codec (some (write_payload codec iv entries)) ≡ ok entries
  unfolding read_payload write_payload
  read_payload-write_payload iv entries h =
      read_bytes-parts iv _ _ _ entries h (length-tag iv _) (decrypt-encrypt iv _)
        (parse-stringify _)

  -- The vault reads as it was written, so an operation's later reads see its entries.
  module _ (iv : List Byte) (sized : length iv ≡ 12) where
    resolve-written :
        (u : Text) (entries : Entries)
        → resolve codec u (some (write_payload codec iv entries)) ≡ ok (value_of (lookup u entries))
    unfolding resolve
    resolve-written u entries = rw (read_payload-write_payload iv entries sized) refl

    resolve-read :
        (u : Text) (file : Option (List Byte)) (entries : Entries)
        → read_payload codec file ≡ ok entries
        → resolve codec u file ≡ ok (value_of (lookup u entries))
    unfolding resolve
    resolve-read u file entries h = rw h refl

    pub value_of-pick :
        (b : Bool) (e : VaultEntry) (o : Option VaultEntry)
        → value_of (if b then some e else o) ≡ (if b then some e.value else value_of o)
    value_of-pick true e o = refl
    value_of-pick false e o = refl

    -- After a store the uuid resolves to the stored value, and any other as before.
    pub resolve-store :
        (uuid now value u : Text) (file : Option (List Byte)) (entries : Entries)
        → read_payload codec file ≡ ok entries
        → resolve codec u (store codec iv uuid now value file).1
          ≡ (if text_eq uuid u then ok (some value) else resolve codec u file)
    unfolding store
    resolve-store uuid now value u file entries h =
        rw (h, resolve-written, lookup-insert, value_of-pick)
          (elim (Bool-cases (text_eq uuid u)) [
            | inl e ↦ rw e refl
            | inr e ↦ rw e (sym (resolve-read u file entries h))
          ])

    -- What the file holds after a sweep.
    resolve-swept :
        (file : Option (List Byte)) (entries : Entries) (r : Entries × ℕ) (u : Text)
        → read_payload codec file ≡ ok entries
        → (r.1 ≡ 0 → lookup u r.0 ≡ lookup u entries)
        → resolve codec u (swept codec iv file r).1 ≡ ok (value_of (lookup u r.0))
    resolve-swept file entries r u h same = elim (Bool-cases (ltb 0 r.1)) [
      | inl e ↦ rw e (resolve-written u r.0)
      | inr e ↦ rw e (
          resolve-read u file entries h
          ∙ ap (λ o. ok (value_of o)) (sym (same (ground (arith, e)))))
    ]

    sweep-resolve :
        (file : Option (List Byte)) (entries : Entries) (r : Entries × ℕ) (u : Text) (b : Bool)
        → read_payload codec file ≡ ok entries
        → (r.1 ≡ 0 → r.0 ≡ entries)
        → lookup u r.0 ≡ (if b then lookup u entries else none)
        → resolve codec u (swept codec iv file r).1 ≡ (if b then resolve codec u file else ok none)
    sweep-resolve file entries r u b h same at =
        resolve-swept file entries r u h (λ z. ap (lookup u) (same z)) ∙ elim (Bool-cases b) [
          | inl e ↦
              rw e (ap (λ o. ok (value_of o)) (rw e at at) ∙ sym (resolve-read u file entries h))
          | inr e ↦ rw e (ap (λ o. ok (value_of o)) (rw e at at))
        ]

    -- After a sweep with the live uuids, each of these resolves as before, and any other to nothing.
    pub resolve-gc :
        (live : List Text) (u : Text) (file : Option (List Byte)) (entries : Entries)
        → read_payload codec file ≡ ok entries
        → resolve codec u (gc codec iv live file).1
          ≡ (if is_in u live then resolve codec u file else ok none)
    unfolding gc
    resolve-gc live u file entries h = rw h (
        sweep-resolve file entries (gc_keys live (keys entries) entries 0) u (is_in u live) h
          (gc_keys-same live (keys entries) entries 0) (lookup-swept live entries u))

    -- `gcSet` forgets the uuids that it is given, and no other.
    pub resolve-gc_set :
        (uuids : List Text) (u : Text) (file : Option (List Byte)) (entries : Entries)
        → read_payload codec file ≡ ok entries
        → resolve codec u (gc_set codec iv uuids file).1
          ≡ (if not (is_in u uuids) then resolve codec u file else ok none)
    unfolding gc_set
    resolve-gc_set [] u file entries h = refl
    resolve-gc_set (v ∷ us) u file entries h = rw h (
        sweep-resolve file entries (gc_listed (v ∷ us) entries 0) u (not (is_in u (v ∷ us))) h
          (gc_listed-same (v ∷ us) entries 0)
          (lookup-gc_listed (v ∷ us) entries 0 u ∙ ground (arith, Bool-cases (is_in u (v ∷ us)))))

    unmasked-ok : (r : Unmasked Yaml) (w : Yaml) → unmasked r ≡ ok w → r ≡ Unmasked.ok w
    unmasked-ok (Unmasked.ok d) w h = ground (arith, h)
    unmasked-ok (Unmasked.missing u k) w h = cc

    abbrev masked_by :
        (ℕ → Text) → Text → Option Text → List Text → Yaml → Entries → Yaml × (ℕ × Minting)
    masked_by uuid now snapshot_id fields doc entries =
        mask_entries uuid now (owners snapshot_id) fields doc (none_drawn entries)

    mask_doc_lem :
        (uuid : ℕ → Text) (now : Text) (snapshot_id : Option Text) (fields : List Text) (doc : Yaml)
        (file : Option (List Byte)) (entries : Entries)
        → read_payload codec file ≡ ok entries
        → mask_doc codec iv uuid now snapshot_id fields doc file ≡ (
          ok (
            (masked_by uuid now snapshot_id fields doc entries).0,
            (masked_by uuid now snapshot_id fields doc entries).1.1.minted,
          ),
          some (
              write_payload codec iv
                (masked_by uuid now snapshot_id fields doc entries).1.1.entries),
        )
    unfolding mask_doc
    mask_doc_lem uuid now snapshot_id fields doc file entries h = rw h refl

    unmask_doc_lem :
        (doc : Yaml) (file : Option (List Byte)) (entries : Entries)
        → read_payload codec file ≡ ok entries
        → unmask_doc codec doc file ≡ unmasked (unmask_entries entries doc)
    unfolding unmask_doc
    unmask_doc_lem doc file entries h = rw h refl

    -- A document that is masked and then unmasked by the vault, with uuids that differ and of which
    -- the vault holds none, is what unmasking gave before, with the numbers and Booleans below
    -- secret keys as texts.
    pub unmask_doc-mask_doc :
        (uuid : ℕ → Text) (now : Text) (snapshot_id : Option Text) (fields : List Text)
        (doc w : Yaml) (file : Option (List Byte)) (entries : Entries)
        → ((i j : ℕ) → uuid i ≡ uuid j → i ≡ j)
        → ((i : ℕ) → lookup (uuid i) entries ≡ none)
        → read_payload codec file ≡ ok entries
        → unmask_doc codec (texted uuid now (owners snapshot_id) fields false doc) file ≡ ok w
        → (masked : Yaml) × (uuids : List Text) × ((mask_doc codec iv uuid now snapshot_id fields
              doc file).0
            ≡ ok (masked, uuids))
          × (unmask_doc codec masked (mask_doc codec iv uuid now snapshot_id fields doc file).1
              ≡ ok w)
    unmask_doc-mask_doc uuid now snapshot_id fields doc w file entries differ fresh h e = (
      _,
      _,
      ap (λ r. r.0) at,
      ap (λ r. unmask_doc codec masked r.1) at
          ∙ unmask_doc_lem masked _ _ (read_payload-write_payload iv _ sized)
          ∙ ap unmasked (
              unmask-mask uuid now (owners snapshot_id) fields differ doc w (none_drawn entries)
                (λ i l. fresh i) before),
    )
      where
        at : mask_doc codec iv uuid now snapshot_id fields doc file ≡ (
          ok (
            (masked_by uuid now snapshot_id fields doc entries).0,
            (masked_by uuid now snapshot_id fields doc entries).1.1.minted,
          ),
          some (
              write_payload codec iv
                (masked_by uuid now snapshot_id fields doc entries).1.1.entries),
        )
        at = mask_doc_lem uuid now snapshot_id fields doc file entries h

        masked : Yaml
        masked = (mask_entries uuid now (owners snapshot_id) fields doc (none_drawn entries)).0

        before :
            unmask_entries entries (texted uuid now (owners snapshot_id) fields false doc)
            ≡ Unmasked.ok w
        before = unmasked-ok _ w (sym (unmask_doc_lem _ file entries h) ∙ e)

    -- The vault is readable after `maskDoc`.
    pub mask_doc-read :
        (uuid : ℕ → Text) (now : Text) (snapshot_id : Option Text) (fields : List Text) (doc : Yaml)
        (file : Option (List Byte)) (entries : Entries)
        → read_payload codec file ≡ ok entries
        → (later : Entries) × (read_payload codec
              (mask_doc codec iv uuid now snapshot_id fields doc file).1
            ≡ ok later)
    mask_doc-read uuid now snapshot_id fields doc file entries h = (
      (masked_by uuid now snapshot_id fields doc entries).1.1.entries,
      ap (λ r. read_payload codec r.1) (mask_doc_lem uuid now snapshot_id fields doc file entries h)
          ∙ read_payload-write_payload iv _ sized,
    )
