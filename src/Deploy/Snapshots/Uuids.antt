-- ===== src/Deploy/Snapshots/Uuids.antt =====
-- `extractSentinelUuids` of deploy/snapshot.ts, and what unmasking a document reads of the vault.
use miharbor.Base.{
  ◌≡◌, refl, ap, Bool, true, false, ◌||◌, Option, none, some, List, [], ◌∷◌, ◌++◌, if◌then◌else◌,
  any, arith, Bool-cases, inl, inr,
}
use miharbor.Base.Text.{Text, text_eq, text_eq_refl}
use miharbor.Base.Dict.{lookup}
use miharbor.Base.Yaml.{Yaml, str, scalar, map, seq, alias, Pairs, end, pair, Items, nil, cons}
use miharbor.Vault.Mask.{is_sentinel}
use miharbor.Vault.Unmask.{
  VaultEntry, Entries, ok, uuid_in, key_text, found, restore_text, restore, restore_pairs,
  restore_items, unmask_entries,
}
use miharbor.Vault.Store.{is_in, value_of}

-- The uuid of a value that is a sentinel.
unfoldable pub uuid_of : Yaml → List Text
unfolding is_sentinel
uuid_of (str t) = if is_sentinel t then uuid_in t ∷ [] else []
uuid_of (scalar t) = []
uuid_of (map ps) = []
uuid_of (seq xs) = []
uuid_of (alias t) = []

-- A set of texts, as a list that is only asked for its members.
unfoldable mutual
  unfolding uuid_of

  pub extract_sentinel_uuids : Yaml → List Text
  extract_sentinel_uuids (str t) = []
  extract_sentinel_uuids (scalar t) = []
  extract_sentinel_uuids (map ps) = extract_pairs ps
  extract_sentinel_uuids (seq xs) = extract_items xs
  extract_sentinel_uuids (alias t) = []

  pub extract_pairs : Pairs → List Text
  extract_pairs end = []
  extract_pairs (pair k v ps) =
      uuid_of v ++ (extract_sentinel_uuids k ++ (extract_sentinel_uuids v ++ extract_pairs ps))

  pub extract_items : Items → List Text
  extract_items nil = []
  extract_items (cons x xs) = extract_sentinel_uuids x ++ extract_items xs

-- A test of some member of two lists.
pub any-append : (p : Text → Bool) (us vs : List Text) → any p (us ++ vs) ≡ (any p us || any p vs)
any-append p [] vs = refl
any-append p (u ∷ us) vs = ground (arith, any-append p us vs, Bool-cases (p u))

module _ (before later : Entries) where
  -- The uuids of a list have the same values.
  abbrev pub SameValues : List Text → Type 0
  SameValues us =
      (u : Text) → is_in u us ≡ true → value_of (lookup u before) ≡ value_of (lookup u later)

  same_left : (us vs : List Text) → SameValues (us ++ vs) → SameValues us
  same_left us vs h u i = h u (rw (any-append (text_eq u) us vs, i) refl)

  same_right : (us vs : List Text) → SameValues (us ++ vs) → SameValues vs
  same_right us vs h u i = h u (rw (any-append (text_eq u) us vs, i) (or_true (any (text_eq u) us)))
    where
      or_true : (b : Bool) → (b || true) ≡ true
      or_true true = refl
      or_true false = refl

  found-same :
      (uuid key : Text) (o p : Option VaultEntry)
      → value_of o ≡ value_of p
      → found uuid key o ≡ found uuid key p
  unfolding found
  found-same uuid key none none h = refl
  found-same uuid key none (some e) h = cc h
  found-same uuid key (some e) none h = cc h
  found-same uuid key (some e) (some f) h = ap (λ v. ok (str v)) (value_eq h)
    where
      value_eq : {s t : Text} → some s ≡ some t → s ≡ t
      value_eq h = cc h

  -- What is read for a node below a key, if there is one.
  abbrev uuids_below : Option Text → Yaml → List Text
  uuids_below none v = extract_sentinel_uuids v
  uuids_below (some key) v = uuid_of v ++ extract_sentinel_uuids v

  restore_text-same :
      (key : Option Text) (t : Text)
      → SameValues (uuids_below key (str t))
      → restore_text before key t ≡ restore_text later key t
  unfolding restore_text uuid_of
  restore_text-same none t h = refl
  restore_text-same (some key) t h = elim (Bool-cases (is_sentinel t)) [
    | inl e ↦
        rw e
          (found-same (uuid_in t) key _ _ (h (uuid_in t) (rw (e, text_eq_refl (uuid_in t)) refl)))
    | inr e ↦ rw e refl
  ]

  abbrev RestoresSame : Yaml → Type 0
  RestoresSame v =
      (key : Option Text)
      → SameValues (uuids_below key v)
      → restore before key v ≡ restore later key v

  subtree :
      (key : Option Text) (v : Yaml) (h : SameValues (uuids_below key v))
      → SameValues (extract_sentinel_uuids v)
  subtree none v h = h
  subtree (some key) v h = same_right (uuid_of v) (extract_sentinel_uuids v) h

  value_below :
      (key : Option Text) (v : Yaml)
      → SameValues (uuid_of v)
      → SameValues (extract_sentinel_uuids v)
      → SameValues (uuids_below key v)
  value_below none v hv h = h
  value_below (some key) v hv h = λ u i. in_either u (any (text_eq u) (uuid_of v)) refl i
    where
      in_either :
          (u : Text) (b : Bool)
          → any (text_eq u) (uuid_of v) ≡ b
          → is_in u (uuid_of v ++ extract_sentinel_uuids v) ≡ true
          → value_of (lookup u before) ≡ value_of (lookup u later)
      in_either u true e i = hv u e
      in_either u false e i =
          h u (rw (any-append (text_eq u) (uuid_of v) (extract_sentinel_uuids v), e) at i)

  restore-same : (v : Yaml) → RestoresSame v
  unfolding restore extract_sentinel_uuids
  restore-same v =
      elim v
        as RestoresSame (λ ps.
          SameValues (extract_pairs ps) → restore_pairs before ps ≡ restore_pairs later ps) (λ xs.
            SameValues (extract_items xs) → restore_items before xs ≡ restore_items later xs) [
              | str t ↦ λ key h. restore_text-same key t h
              | scalar t ↦ λ key h. refl
              | map (ps → ih) ↦ λ key h. rw (ih (subtree key (map ps) h)) refl
              | seq (xs → ih) ↦ λ key h. rw (ih (subtree key (seq xs) h)) refl
              | alias t ↦ λ key h. refl
              | end ↦ λ h. refl
              | pair (k → ihk) (v → ihv) (ps → ihp) ↦ λ h.
                  let below = same_right (uuid_of v) _ h in
                  let value = same_right (extract_sentinel_uuids k) _ below in
                  rw
                    (
                      ihk none (same_left (extract_sentinel_uuids k) _ below),
                      ihv (key_text k) (
                          value_below (key_text k) v (same_left (uuid_of v) _ h)
                            (same_left (extract_sentinel_uuids v) _ value)),
                      ihp (same_right (extract_sentinel_uuids v) _ value),
                    )
                    refl
              | nil ↦ λ h. refl
              | cons (x → ihx) (xs → ihs) ↦ λ h.
                  rw
                    (
                      ihx none (same_left (extract_sentinel_uuids x) _ h),
                      ihs (same_right (extract_sentinel_uuids x) _ h),
                    )
                    refl
            ]

  -- Unmasking reads the values of the uuids that are extracted, and of no others.
  pub unmask_entries-same :
      (doc : Yaml)
      → SameValues (extract_sentinel_uuids doc)
      → unmask_entries before doc ≡ unmask_entries later doc
  unfolding unmask_entries
  unmask_entries-same doc h = restore-same doc none h
