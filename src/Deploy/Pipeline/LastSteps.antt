-- ===== src/Deploy/Pipeline/LastSteps.antt =====
-- The write and the health check: what they leave true of a trace.
use miharbor.Base.{
  ℕ, ◌≡◌, refl, Bool, true, false, Option, none, some, List, [], ◌∷◌, if◌then◌else◌,
}
use miharbor.Base.Text.{Text}
use miharbor.Deploy.Effects.{
  completed, failed, running, write_reload, healthcheck, rollback, AppliedBy, Config, HealthResult,
  Error, lint_blocked, preflight_failed, write_failed, healthcheck_failed, thrown, Reply, write,
  apply_rollback, Act, did, Trace, Context, emit, pure,
}
use miharbor.Deploy.Pipeline.{
  write_step, health_step, expected_hash, parsed_again, reload_failed, unhealthy, roll_back,
  rollback_failed, should_rollback,
}
use miharbor.Deploy.Pipeline.Ends.{returned, raised, bind-Ends, catch-Ends, call-Ends}
use miharbor.Deploy.Pipeline.Keeps.{
  is_harmless, Keeps, call-Keeps, answer-Keeps, emit-Keeps, fail-Keeps,
}

-- The last two steps keep what writes and rollbacks keep too.
module _ (I : Trace → Type 0)
    (grow : (a : Act) (tr : Trace) → is_harmless a ≡ true → I tr → I (a ∷ tr)) (c : Context) where
  parsed_again-Keeps :
      (errors : List Text) (tr : Trace) → I tr → Keeps I grow (parsed_again c errors tr)
  parsed_again-Keeps [] tr i = returned i
  parsed_again-Keeps (msg ∷ errors) tr i = raised i

  reload_failed-Keeps : (e : Error) (tr : Trace) → I tr → Keeps I grow (reload_failed c e tr)
  reload_failed-Keeps (thrown msg) tr i = raised i
  reload_failed-Keeps (lint_blocked issues) tr i = raised i
  reload_failed-Keeps (preflight_failed v) tr i = raised i
  reload_failed-Keeps (write_failed msg) tr i = raised i
  reload_failed-Keeps (healthcheck_failed f) tr i = raised i

  pub write_step-Keeps :
      (draft : Text) (current : Config) (tr : Trace)
      → ((t : Text) (b : Bool) (tr : Trace)
          → I tr
          → I (did (write t (expected_hash c current)) b ∷ tr))
      → I tr
      → Keeps I grow (write_step c draft current tr)
  unfolding write_step
  write_step-Keeps draft current tr w i =
      bind-Ends (emit-Keeps I grow write_reload running tr i) λ _ tr₁ i₁.
        catch-Ends
          (bind-Ends (parsed_again-Keeps _ tr₁ i₁) λ _ _ i₂.
            bind-Ends (call-Keeps I grow _ _ _ (λ b. refl) i₂) λ plain _ i₃'.
              bind-Ends (answer-Keeps I grow _ _ i₃') λ content tr₃ i₃.
                bind-Ends (call-Ends _ _ _ (λ _ _. w _ true tr₃ i₃) (λ _ _. w _ false tr₃ i₃))
                  λ _ _ i₄.
                    bind-Ends
                      (catch-Ends (call-Keeps I grow _ _ _ (λ b. refl) i₄) reload_failed-Keeps)
                      λ _ tr₅ i₅. emit-Keeps I grow write_reload completed tr₅ i₅)
          (λ e tr' i'. fail-Keeps I grow write_reload e tr' i')

  rollback_failed-Keeps :
      (phase : Option ℕ) (e : Error) (tr : Trace)
      → I tr
      → Keeps I grow (rollback_failed c phase e tr)
  rollback_failed-Keeps phase (thrown msg) tr i =
      bind-Ends (emit-Keeps I grow rollback failed tr i) λ _ _ i'. raised i'
  rollback_failed-Keeps phase (lint_blocked issues) tr i = fail-Keeps I grow rollback _ tr i
  rollback_failed-Keeps phase (preflight_failed v) tr i = fail-Keeps I grow rollback _ tr i
  rollback_failed-Keeps phase (write_failed msg) tr i = fail-Keeps I grow rollback _ tr i
  rollback_failed-Keeps phase (healthcheck_failed f) tr i = fail-Keeps I grow rollback _ tr i

  roll_back-Keeps :
      (reply : Option (Trace → Text → Reply Text)) (phase : Option ℕ) (id : Text) (tr : Trace)
      → ((b : Bool) (tr : Trace) → I tr → I (did (apply_rollback id) b ∷ tr))
      → I tr
      → Keeps I grow (roll_back c reply phase id tr)
  roll_back-Keeps none phase id tr r i = returned i
  roll_back-Keeps (some reply) phase id tr r i =
      bind-Ends (emit-Keeps I grow rollback running tr i) λ _ tr₁ i₁.
        bind-Ends
          (catch-Ends (call-Ends _ _ _ (λ _ _. r true tr₁ i₁) (λ _ _. r false tr₁ i₁))
            (rollback_failed-Keeps phase))
          λ id' tr₂ i₂. bind-Ends (emit-Keeps I grow rollback completed tr₂ i₂) λ _ _ i₃. raised i₃

  maybe_rolled :
      (b : Bool) (hc : HealthResult) (id : Text) (tr : Trace)
      → (b ≡ true → (b' : Bool) (tr : Trace) → I tr → I (did (apply_rollback id) b' ∷ tr))
      → I tr
      → Keeps I grow ((if b then roll_back c c.on_rollback hc.failed_phase id else pure tt) tr)
  maybe_rolled true hc id tr r i = roll_back-Keeps c.on_rollback hc.failed_phase id tr (r refl) i
  maybe_rolled false hc id tr r i = returned i

  -- A rollback of `id` follows only a result of the health check that calls for one.
  pub health_step-Keeps :
      (by : AppliedBy) (id : Text) (reply : Option (Trace → Reply HealthResult)) (tr : Trace)
      → ((hc : HealthResult)
          → should_rollback c by hc ≡ true
          → (b : Bool) (tr : Trace) → I tr
          → I (did (apply_rollback id) b ∷ tr))
      → I tr
      → Keeps I grow (health_step c by id reply tr)
  unfolding health_step
  health_step-Keeps by id none tr r i = returned i
  health_step-Keeps by id (some reply) tr r i =
      bind-Ends (emit-Keeps I grow healthcheck running tr i) λ _ _ i₁.
        bind-Ends (catch-Ends (call-Keeps I grow _ _ _ (λ b. refl) i₁) (λ e tr' i'. returned i'))
          λ hc tr₂ i₂. judged hc.ok hc tr₂ i₂
    where
      judged :
          (b : Bool) (hc : HealthResult) (tr : Trace)
          → I tr
          → Keeps I grow ((if b then emit healthcheck completed else unhealthy c by id hc) tr)
      judged true hc tr i = emit-Keeps I grow healthcheck completed tr i
      judged false hc tr i = bind-Ends (emit-Keeps I grow healthcheck failed tr i) λ _ tr₁ i₁.
          bind-Ends (maybe_rolled (should_rollback c by hc) hc id tr₁ (r hc) i₁) λ _ _ i₂. raised i₂
