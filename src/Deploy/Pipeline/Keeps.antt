-- ===== src/Deploy/Pipeline/Keeps.antt =====
-- What every step but the write, and every act but a rollback, leaves true of a trace.
use miharbor.Base.{◌≡◌, refl, Bool, true, false, Option, none, some, List, [], ◌∷◌, if◌then◌else◌}
use miharbor.Base.Text.{Text}
use miharbor.Linter.Issue.{Issue}
use miharbor.Deploy.Effects.{
  StepId, StepStatus, running, completed, failed, diff, lint, snapshot, preflight, AppliedBy,
  Config, Validation, Error, lint_blocked, preflight_failed, write_failed, healthcheck_failed,
  thrown, Result, Reply, Call, read_config, list_snapshots, reload, check_health, mask, unmask,
  lint_doc, create_snapshot, validate, write, apply_rollback, audit, Act, emitted, did, Trace,
  Context, ◌>>◌, logged, answered, fail_step, emit, raise,
}
use miharbor.Deploy.Pipeline.{
  diff_step, lint_step, snapshot_step, preflight_step, lint_failed, judged, newest,
  snapshot_or_newest, preflight_threw, parsed_draft,
}
use miharbor.Deploy.Pipeline.Ends.{
  Ends, returned, raised, bind-Ends, catch-Ends, call-Ends, answer-Ends,
}

-- Neither a write of the configuration nor a rollback.
abbrev pub is_harmless : Act → Bool
is_harmless (emitted s st) = true
is_harmless (did read_config b) = true
is_harmless (did list_snapshots b) = true
is_harmless (did reload b) = true
is_harmless (did check_health b) = true
is_harmless (did (mask d) b) = true
is_harmless (did (unmask d) b) = true
is_harmless (did (lint_doc d) b) = true
is_harmless (did (create_snapshot t by) b) = true
is_harmless (did (validate t) b) = true
is_harmless (did (write t h) b) = false
is_harmless (did (apply_rollback t) b) = false
is_harmless (did (audit a t d) b) = true

module _ (I : Trace → Type 0)
    (grow : (a : Act) (tr : Trace) → is_harmless a ≡ true → I tr → I (a ∷ tr)) where
  abbrev pub Keeps : {A : Type 0} → Result A × Trace → Type 0
  Keeps r = Ends (λ _. I) (λ _. I) r

  pub call-Keeps :
      {A : Type 0} (k : Call) (tr : Trace) (r : Reply A)
      → ((b : Bool) → is_harmless (did k b) ≡ true)
      → I tr
      → Keeps (logged k tr r)
  call-Keeps k tr r h i =
      call-Ends k tr r (λ a _. grow (did k true) tr (h true) i)
        (λ msg _. grow (did k false) tr (h false) i)

  pub answer-Keeps : {A : Type 0} (tr : Trace) (r : Reply A) → I tr → Keeps (answered tr r)
  answer-Keeps tr r i = answer-Ends tr r (λ _. i) (λ _. i)

  pub emit-Keeps : (s : StepId) (st : StepStatus) (tr : Trace) → I tr → Keeps (emit s st tr)
  emit-Keeps s st tr i = returned (grow (emitted s st) tr refl i)

  pub fail-Keeps :
      {A : Type 0} (s : StepId) (e : Error) (tr : Trace) → I tr → Keeps (fail_step {A = A} s e tr)
  fail-Keeps s e tr i = bind-Ends (emit-Keeps s failed tr i) (λ _ tr' i'. raised i')

  module _ (c : Context) where
    pub diff_step-Keeps :
        (draft : Text) (current : Config) (tr : Trace) → I tr → Keeps (diff_step c draft current tr)
    unfolding diff_step
    diff_step-Keeps draft current tr i = bind-Ends (emit-Keeps diff running tr i) λ _ _ i₁.
        catch-Ends
          (bind-Ends (call-Keeps _ _ _ (λ b. refl) i₁) λ _ _ i₂.
            bind-Ends (answer-Keeps _ _ i₂) λ _ _ i₃.
              bind-Ends (call-Keeps _ _ _ (λ b. refl) i₃) λ _ _ i₄.
                bind-Ends (answer-Keeps _ _ i₄)
                  λ _ tr₅ i₅. bind-Ends (emit-Keeps diff completed tr₅ i₅) λ _ _ i₆. returned i₆)
          (λ e tr' i'. fail-Keeps diff e tr' i')

    judged-Keeps :
        (errors warnings : List Issue) (tr : Trace) → I tr → Keeps (judged c errors warnings tr)
    judged-Keeps [] warnings tr i = bind-Ends (emit-Keeps lint completed tr i) λ _ _ i'. returned i'
    judged-Keeps (e ∷ errors) warnings tr i =
        bind-Ends (emit-Keeps lint failed tr i) λ _ _ i'. raised i'

    lint_failed-Keeps : (e : Error) (tr : Trace) → I tr → Keeps (lint_failed c e tr)
    lint_failed-Keeps (lint_blocked issues) tr i = raised i
    lint_failed-Keeps (preflight_failed v) tr i = fail-Keeps lint _ tr i
    lint_failed-Keeps (write_failed msg) tr i = fail-Keeps lint _ tr i
    lint_failed-Keeps (healthcheck_failed f) tr i = fail-Keeps lint _ tr i
    lint_failed-Keeps (thrown msg) tr i = fail-Keeps lint _ tr i

    pub lint_step-Keeps : (draft : Text) (tr : Trace) → I tr → Keeps (lint_step c draft tr)
    unfolding lint_step
    lint_step-Keeps draft tr i = bind-Ends (emit-Keeps lint running tr i) λ _ _ i₁.
        catch-Ends
          (bind-Ends (call-Keeps _ _ _ (λ b. refl) i₁) λ issues tr₂ i₂. judged-Keeps _ _ tr₂ i₂)
          lint_failed-Keeps

    newest-Keeps : (ids : List Text) (tr : Trace) → I tr → Keeps (newest c ids tr)
    newest-Keeps [] tr i = fail-Keeps snapshot _ tr i
    newest-Keeps (id ∷ ids) tr i = returned i

    pub snapshot_or_newest-Keeps :
        (made : Option Text) (tr : Trace) → I tr → Keeps (snapshot_or_newest c made tr)
    snapshot_or_newest-Keeps none tr i =
        bind-Ends (call-Keeps _ _ _ (λ b. refl) i) λ ids tr' i'. newest-Keeps ids tr' i'
    snapshot_or_newest-Keeps (some id) tr i = returned i

    pub snapshot_step-Keeps :
        (current : Config) (by : AppliedBy) (tr : Trace)
        → I tr
        → Keeps (snapshot_step c current by tr)
    unfolding snapshot_step
    snapshot_step-Keeps current by tr i = bind-Ends (emit-Keeps snapshot running tr i) λ _ _ i₁.
        bind-Ends
          (catch-Ends (call-Keeps _ _ _ (λ b. refl) i₁) (λ e tr' i'. fail-Keeps snapshot e tr' i'))
          λ made tr₂ i₂.
            bind-Ends (snapshot_or_newest-Keeps made tr₂ i₂)
              λ id tr₃ i₃. bind-Ends (emit-Keeps snapshot completed tr₃ i₃) λ _ _ i₄. returned i₄

    preflight_threw-Keeps : (e : Error) (tr : Trace) → I tr → Keeps (preflight_threw c e tr)
    preflight_threw-Keeps (preflight_failed v) tr i = raised i
    preflight_threw-Keeps (lint_blocked issues) tr i = fail-Keeps preflight _ tr i
    preflight_threw-Keeps (write_failed msg) tr i = fail-Keeps preflight _ tr i
    preflight_threw-Keeps (healthcheck_failed f) tr i = fail-Keeps preflight _ tr i
    preflight_threw-Keeps (thrown msg) tr i = fail-Keeps preflight _ tr i

    accepted :
        (b : Bool) (v : Validation) (tr : Trace)
        → I tr
        → Keeps (
            (if b
                then emit preflight completed
                else emit preflight failed >> raise (preflight_failed v))
              tr)
    accepted true v tr i = emit-Keeps preflight completed tr i
    accepted false v tr i = fail-Keeps preflight _ tr i

    pub preflight_step-Keeps :
        (masked : Text) (tr : Trace) → I tr → Keeps (preflight_step c masked tr)
    unfolding preflight_step
    preflight_step-Keeps masked tr i = bind-Ends (emit-Keeps preflight running tr i) λ _ _ i₁.
        catch-Ends (bind-Ends (call-Keeps _ _ _ (λ b. refl) i₁) λ v tr₂ i₂. accepted v.ok v tr₂ i₂)
          preflight_threw-Keeps

    pub parsed_draft-Keeps :
        (errors : List Text) (tr : Trace) → I tr → Keeps (parsed_draft c errors tr)
    parsed_draft-Keeps [] tr i = returned i
    parsed_draft-Keeps (msg ∷ errors) tr i = bind-Ends (emit-Keeps diff running tr i) λ _ tr₁ i₁.
        bind-Ends (emit-Keeps diff failed tr₁ i₁)
          λ _ tr₂ i₂. bind-Ends (emit-Keeps lint failed tr₂ i₂) λ _ _ i₃. raised i₃
