-- ===== src/Vault/Store/Tests.antt =====
-- The vault's theorems at a small document and an empty vault.
use miharbor.Base.{ℕ, ◌≡◌, refl, not, none, some, List, [], ◌∷◌, if◌then◌else◌}
use miharbor.Base.Text.{Text, text, text_eq, starts_with, ends_with}
use miharbor.Base.Dict.{lookup}
use miharbor.Base.Yaml.{Yaml, str, map, end, pair}
use miharbor.Vault.Mask.{default_secret_fields, is_sentinel, is_secret_key, is_secret}
use miharbor.Vault.Unmask.Restores.{texted}
use miharbor.Vault.Store.File.{ok, read_payload}
use miharbor.Vault.Store.Cells.{cells, twelve}
use miharbor.Vault.Store.{store, resolve, mask_doc, unmask_doc, gc, gc_set, is_in}
use miharbor.Vault.Store.Sealed.{resolve-store, resolve-gc, resolve-gc_set, unmask_doc-mask_doc}

-- The i-th uuid.
abbrev numbered : ℕ → Text
numbered i = i ∷ []

umbrella : Unit {0}
unfolding lookup text_eq starts_with ends_with read_payload unmask_doc texted is_sentinel
    is_secret_key is_secret
umbrella = tt

numbered_differ : (i j : ℕ) → numbered i ≡ numbered j → i ≡ j
numbered_differ i j e = cc e

abbrev masked_later : Yaml
masked_later = map (pair (str (text "secret")) (str (text "hunter2")) end)

unmask_doc-mask_doc_example :
    (masked : Yaml) × (uuids : List Text) × ((mask_doc cells twelve numbered
        (text "t")
        none
        default_secret_fields
        masked_later
        none).0
      ≡ ok (masked, uuids))
    × (unmask_doc cells masked
          (mask_doc cells twelve numbered (text "t") none default_secret_fields masked_later none).1
        ≡ ok masked_later)
unmask_doc-mask_doc_example =
    unmask_doc-mask_doc cells twelve refl numbered (text "t") none default_secret_fields
      masked_later masked_later none [] numbered_differ (λ i. unfold umbrella in refl)
      (unfold umbrella in refl) (unfold umbrella in refl)

resolve-store_example :
    resolve cells (numbered 1) (store cells twelve (numbered 1) (text "t") (text "hunter2") none).1
    ≡ (if text_eq (numbered 1) (numbered 1)
        then ok (some (text "hunter2"))
        else resolve cells (numbered 1) none)
resolve-store_example =
    resolve-store cells twelve refl (numbered 1) (text "t") (text "hunter2") (numbered 1) none []
      (unfold umbrella in refl)

resolve-gc_example :
    resolve cells (numbered 1) (gc cells twelve (numbered 1 ∷ []) none).1
    ≡ (if is_in (numbered 1) (numbered 1 ∷ []) then resolve cells (numbered 1) none else ok none)
resolve-gc_example =
    resolve-gc cells twelve refl (numbered 1 ∷ []) (numbered 1) none [] (unfold umbrella in refl)

resolve-gc_set_example :
    resolve cells (numbered 1) (gc_set cells twelve (numbered 1 ∷ []) none).1 ≡ (
      if not (is_in (numbered 1) (numbered 1 ∷ []))
      then resolve cells (numbered 1) none
      else ok none)
resolve-gc_set_example =
    resolve-gc_set cells twelve refl (numbered 1 ∷ []) (numbered 1) none []
      (unfold umbrella in refl)
