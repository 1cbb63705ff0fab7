-- ===== src/Deploy/Pipeline/Unprintable.antt =====
-- A deploy over a configuration that does not parse: step 1 of deploy/pipeline.ts cannot print it.
use miharbor.Base.{◌≡◌, ◌≢◌, true, [], ◌∷◌}
use miharbor.Base.Text.{Text}
use miharbor.Deploy.Effects.{Parsed, Reply, throws, Error, Result, err, Trace}
use miharbor.Deploy.Pipeline.Ends.{Ends}
use miharbor.Deploy.Pipeline.Keeps.{is_harmless}

-- Neither a write of the configuration nor a rollback has been called for.
abbrev pub Untouched : Trace → Type 0
Untouched [] = Unit {0}
Untouched (a ∷ tr) = (is_harmless a ≡ true) × Untouched tr

-- `doc.toString` throws where the document has errors.
abbrev pub Refuses : (Parsed → Reply Text) → Type 0
Refuses serialize = (d : Parsed) → d.errors ≢ [] → (msg : Text) × (serialize d ≡ throws msg)

abbrev pub Failed : {A : Type 0} → Result A → Type 0
Failed {A} r = (e : Error) × (r ≡ err e)

-- A run that does not return, and keeps `Untouched`.
abbrev Fails : {A : Type 0} → Result A × Trace → Type 0
Fails r = Ends (λ _ _. ⊥) (λ _. Untouched) r
