-- ===== src/Deploy/Pipeline/Completes.antt =====
-- What a step has put on the trace where it returns.
use miharbor.Base.{◌≡◌, refl, inl, inr, Bool, true, false, List, [], ◌∷◌, if◌then◌else◌}
use miharbor.Base.Text.{Text}
use miharbor.Linter.Issue.{Issue}
use miharbor.Deploy.Effects.{
  StepId, fail_step, completed, failed, lint, preflight, AppliedBy, Config, Validation, Error,
  lint_blocked, preflight_failed, write_failed, healthcheck_failed, thrown, create_snapshot, Act,
  emitted, did, Trace, Context, emit, raise, ◌>>◌,
}
use miharbor.Deploy.Pipeline.{
  lint_step, snapshot_step, preflight_step, judged, lint_failed, preflight_threw,
}
use miharbor.Deploy.Pipeline.Ends.{
  Ends, returned, raised, bind-Ends, catch-Ends, call-Ends, weaken-Ends, Has,
}
use miharbor.Deploy.Pipeline.Keeps.{is_harmless, snapshot_or_newest-Keeps}

abbrev pub Anything : Error → Trace → Type 0
Anything e tr = Unit {0}

pub Has-grow : (x a : Act) (tr : Trace) → is_harmless a ≡ true → Has x tr → Has x (a ∷ tr)
Has-grow x a tr h i = inr i

fail_raises :
    {A : Type 0} (P : Trace → Type 0) (s : StepId) (e : Error) (tr : Trace)
    → Ends (λ _. P) Anything (fail_step {A = A} s e tr)
fail_raises P s e tr = bind-Ends {P = λ _ _. Unit {0}} (returned tt) λ _ _ _. raised tt

module _ (c : Context) where
  judged-completes :
      (errors warnings : List Issue) (tr : Trace)
      → Ends (λ _. Has (emitted lint completed)) Anything (judged c errors warnings tr)
  judged-completes [] warnings tr = bind-Ends (returned (inl refl)) λ _ _ i. returned i
  judged-completes (e ∷ errors) warnings tr = fail_raises _ _ _ _

  lint_failed-raises :
      (e : Error) (tr : Trace)
      → Ends (λ _. Has (emitted lint completed)) Anything (lint_failed c e tr)
  lint_failed-raises (lint_blocked issues) tr = raised tt
  lint_failed-raises (preflight_failed v) tr = fail_raises _ _ _ _
  lint_failed-raises (write_failed msg) tr = fail_raises _ _ _ _
  lint_failed-raises (healthcheck_failed f) tr = fail_raises _ _ _ _
  lint_failed-raises (thrown msg) tr = fail_raises _ _ _ _

  pub lint_step-completes :
      (draft : Text) (tr : Trace)
      → Ends (λ _. Has (emitted lint completed)) Anything (lint_step c draft tr)
  unfolding lint_step
  lint_step-completes draft tr = bind-Ends {P = λ _ _. Unit {0}} (returned tt) λ _ _ _.
      catch-Ends {E = Anything}
        (bind-Ends {P = λ _ _. Unit {0}} (call-Ends _ _ _ (λ _ _. tt) (λ _ _. tt))
          λ issues tr₂ _. judged-completes _ _ tr₂)
        (λ e tr' _. lint_failed-raises e tr')

  pub snapshot_step-completes :
      (current : Config) (by : AppliedBy) (tr : Trace)
      → Ends
          (λ _. Has (did (create_snapshot current.content by) true))
          Anything
          (snapshot_step c current by tr)
  unfolding snapshot_step
  snapshot_step-completes current by tr = bind-Ends {P = λ _ _. Unit {0}} (returned tt) λ _ _ _.
      bind-Ends
        (catch-Ends {E = Anything} (call-Ends _ _ _ (λ _ _. inl refl) (λ _ _. tt))
          (λ e tr' _. fail_raises _ _ _ _))
        λ made tr₂ i₂.
          bind-Ends
            (weaken-Ends (snapshot_or_newest-Keeps (Has made_act) (Has-grow made_act) c made tr₂ i₂)
              (λ _ _ i. i) (λ _ _ _. tt))
            λ id tr₃ i₃. bind-Ends (returned (inr i₃)) λ _ _ i₄. returned i₄
    where
      made_act : Act
      made_act = did (create_snapshot current.content by) true

  accepted-completes :
      (b : Bool) (v : Validation) (tr : Trace)
      → Ends
          (λ _. Has (emitted preflight completed))
          Anything
          ((if b
              then emit preflight completed
              else emit preflight failed >> raise (preflight_failed v))
            tr)
  accepted-completes true v tr = returned (inl refl)
  accepted-completes false v tr = fail_raises _ _ _ _

  preflight_threw-raises :
      (e : Error) (tr : Trace)
      → Ends (λ _. Has (emitted preflight completed)) Anything (preflight_threw c e tr)
  preflight_threw-raises (preflight_failed v) tr = raised tt
  preflight_threw-raises (lint_blocked issues) tr = fail_raises _ _ _ _
  preflight_threw-raises (write_failed msg) tr = fail_raises _ _ _ _
  preflight_threw-raises (healthcheck_failed f) tr = fail_raises _ _ _ _
  preflight_threw-raises (thrown msg) tr = fail_raises _ _ _ _

  pub preflight_step-completes :
      (masked : Text) (tr : Trace)
      → Ends (λ _. Has (emitted preflight completed)) Anything (preflight_step c masked tr)
  unfolding preflight_step
  preflight_step-completes masked tr = bind-Ends {P = λ _ _. Unit {0}} (returned tt) λ _ _ _.
      catch-Ends {E = Anything}
        (bind-Ends {P = λ _ _. Unit {0}} (call-Ends _ _ _ (λ _ _. tt) (λ _ _. tt))
          λ v tr₂ _. accepted-completes v.ok v tr₂)
        (λ e tr' _. preflight_threw-raises e tr')
