-- ===== src/Vault/Tests.antt =====
-- Masking a small document.
use miharbor.Base.{◌≡◌, refl, true, List, [], ◌∷◌}
use miharbor.Base.Text.{Text, text, starts_with}
use miharbor.Base.Yaml.{Yaml, str, map, end, pair}
use miharbor.Vault.Mask.{is_sentinel, walk_secrets, default_secret_fields}
use miharbor.Vault.Mask.Again.{walk_secrets-again}

-- A vault that gives each secret the same sentinel and keeps them all.
abbrev number : Text → List Text → Text × List Text
number t kept = (text "$MIHARBOR_VAULT:1", t ∷ kept)

abbrev doc_with_secret : Yaml
doc_with_secret = map (pair (str (text "secret")) (str (text "hunter2")) end)

number-is_sentinel : (t : Text) (kept : List Text) → is_sentinel (number t kept).0 ≡ true
unfolding is_sentinel starts_with
number-is_sentinel t kept = refl

walk_secrets-again_example :
    walk_secrets number default_secret_fields
      (walk_secrets number default_secret_fields doc_with_secret []).0
      []
    ≡ ((walk_secrets number default_secret_fields doc_with_secret []).0, (0, []))
walk_secrets-again_example =
    walk_secrets-again number number default_secret_fields number-is_sentinel doc_with_secret [] []
