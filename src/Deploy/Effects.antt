-- ===== src/Deploy/Effects.antt =====
-- The outside of the deploy pipeline (deploy/pipeline.ts): what it calls, and what it has called.
-- A run is a function on the trace of its calls and events, newest first; the replies are functions
-- of that trace, so that they may change from call to call in any way.
use miharbor.Base.{ℕ, Bool, true, false, Option, List, ◌∷◌}
use miharbor.Base.Text.{Text}
use miharbor.Base.Yaml.{Yaml}
use miharbor.Linter.Issue.{Issue}

pub data StepId : Type 0 where
  diff lint snapshot preflight write_reload healthcheck rollback : StepId

pub data StepStatus : Type 0 where
  running completed failed : StepStatus

-- `SnapshotMeta['applied_by']`
pub data AppliedBy : Type 0 where
  by_user by_rollback by_auto_rollback by_canonicalization : AppliedBy

-- The `action` of an audit record.
pub data AuditAction : Type 0 where
  deploy manual_rollback auto_rollback canonicalization : AuditAction

pub record Config : Type 0 where
  pub content : Text
  pub hash : Text

pub record Diff : Type 0 where
  pub added : ℕ
  pub removed : ℕ

pub record Validation : Type 0 where
  pub ok : Bool
  pub errors : List Text

pub record HealthResult : Type 0 where
  pub ok : Bool
  pub failed_phase : Option ℕ

-- `parseDocument`: the tree and the messages of the errors.
pub record Parsed : Type 0 where
  pub doc : Yaml
  pub errors : List Text

pub record HealthFailure : Type 0 where
  pub failed_phase : Option ℕ
  pub rolled_back_to : Option Text
  pub rollback_error : Option Text

pub data Error : Type 0 where
  lint_blocked : List Issue → Error
  preflight_failed : Validation → Error
  write_failed : Text → Error
  healthcheck_failed : HealthFailure → Error
  thrown : Text → Error

pub data Result (A : Type 0) : Type 0 where
  ok : A → Result A
  err : Error → Result A

-- The reply of a call: a value, or an exception with its message.
pub data Reply (A : Type 0) : Type 0 where
  returns : A → Reply A
  throws : Text → Reply A

pub data Call : Type 0 where
  read_config list_snapshots reload check_health : Call
  mask unmask lint_doc : Yaml → Call
  create_snapshot : Text → AppliedBy → Call
  validate : Text → Call
  write : Text → Option Text → Call
  apply_rollback : Text → Call
  audit : AuditAction → Text → Diff → Call

-- `did c true` is a call that returned, `did c false` one that threw.
pub data Act : Type 0 where
  emitted : StepId → StepStatus → Act
  did : Call → Bool → Act

abbrev pub Trace : Type 0
Trace = List Act

-- `DeployContext`, with the `yaml` package and the linters. `serialize` is `doc.toString`, which may
-- throw, and which reads the errors that the document was parsed with. `write` is `verifyAndWrite` where the
-- transport has it, and is then given the hash of the configuration that was read.
pub record Context : Type 0 where
  pub parse : Text → Parsed
  pub serialize : Parsed → Reply Text
  pub unified_diff : Text → Text → Diff
  pub on_read : Trace → Reply Config
  pub on_mask : Trace → Yaml → Reply Yaml
  pub on_unmask : Trace → Yaml → Reply Yaml
  pub on_lint : Trace → Yaml → Reply (List Issue)
  pub on_create_snapshot : Trace → Text → AppliedBy → Reply (Option Text)
  pub on_list_snapshots : Trace → Reply (List Text)
  pub on_validate : Trace → Text → Reply Validation
  pub has_verify_and_write : Bool
  pub on_write : Trace → Text → Option Text → Reply (Unit {0})
  pub on_reload : Trace → Reply (Unit {0})
  pub on_healthcheck : Option (Trace → Reply HealthResult)
  pub on_rollback : Option (Trace → Text → Reply Text)
  pub on_audit : Trace → AuditAction → Text → Diff → Reply (Unit {0})
  pub auto_rollback : Bool

abbrev pub M : Type 0 → Type 0
M A = Trace → Result A × Trace

unfoldable pub and_then : {A B : Type 0} → Result A × Trace → (A → M B) → Result B × Trace
and_then (ok a, tr) f = f a tr
and_then (err e, tr) f = (err e, tr)

infixl 5 ◌>>=◌ ◌>>◌
abbrev pub ◌>>=◌ : {A B : Type 0} → M A → (A → M B) → M B
◌>>=◌ m f tr = and_then (m tr) f

abbrev pub ◌>>◌ : {A B : Type 0} → M A → M B → M B
m >> k = m >>= λ _. k

abbrev pub pure : {A : Type 0} → A → M A
pure a tr = (ok a, tr)

abbrev pub raise : {A : Type 0} → Error → M A
raise e tr = (err e, tr)

-- `onStep(step, status)`
abbrev pub emit : StepId → StepStatus → M (Unit {0})
emit s status tr = (ok tt, emitted s status ∷ tr)

unfoldable pub logged : {A : Type 0} → Call → Trace → Reply A → Result A × Trace
logged c tr (returns a) = (ok a, did c true ∷ tr)
logged c tr (throws msg) = (err (thrown msg), did c false ∷ tr)

abbrev pub call : {A : Type 0} → Call → (Trace → Reply A) → M A
call c reply tr = logged c tr (reply tr)

-- What a function that is no call to the outside hands back, without a trace of it.
unfoldable pub answered : {A : Type 0} → Trace → Reply A → Result A × Trace
answered tr (returns a) = (ok a, tr)
answered tr (throws msg) = (err (thrown msg), tr)

abbrev pub answer : {A : Type 0} → Reply A → M A
answer r tr = answered tr r

unfoldable pub handled : {A : Type 0} → Result A × Trace → (Error → M A) → Result A × Trace
handled (ok a, tr) h = (ok a, tr)
handled (err e, tr) h = h e tr

-- `try { m } catch (e) { h(e) }`
abbrev pub catch : {A : Type 0} → M A → (Error → M A) → M A
catch m h tr = handled (m tr) h

-- The handler that reports the step as failed and throws the error again.
abbrev pub fail_step : {A : Type 0} → StepId → Error → M A
fail_step s e = emit s failed >> raise e
