-- ===== src/Deploy/Pipeline/Rollbacks.antt =====
-- Which runs roll back, and what a run that succeeds has done.
use miharbor.Base.{◌≡◌, refl, ◌⊎◌, inl, inr, true, &&_parts, subst, is_some, List, [], ◌∷◌}
use miharbor.Base.Text.{Text}
use miharbor.Deploy.Effects.{
  write_reload, AppliedBy, by_user, by_rollback, by_auto_rollback, by_canonicalization, Config,
  HealthResult, Error, returns, lint_blocked, preflight_failed, write_failed, healthcheck_failed,
  thrown, read_config, list_snapshots, reload, check_health, mask, unmask, lint_doc,
  create_snapshot, validate, write, apply_rollback, audit, Act, emitted, did, Trace, Context,
  fail_step, ok,
}
use miharbor.Deploy.Pipeline.{
  run_pipeline, expected_hash, PipelineResult, write_step, parsed_again, reload_failed,
  should_rollback,
}
use miharbor.Deploy.Pipeline.Ends.{
  Ends, returned, raised, bind-Ends, catch-Ends, call-Ends, answer-Ends, both_end, weaken-Ends,
  trace_end, Has, end_value,
}
use miharbor.Deploy.Pipeline.Keeps.{
  is_harmless, call-Keeps, diff_step-Keeps, lint_step-Keeps, snapshot_step-Keeps,
  preflight_step-Keeps, parsed_draft-Keeps,
}
use miharbor.Deploy.Pipeline.Completes.{Anything}
use miharbor.Deploy.Pipeline.LastSteps.{write_step-Keeps, health_step-Keeps}

module _ (c : Context) where
  -- A write of the configuration that was checked against `current`, and the reload after it.
  abbrev pub Applied : Config → Trace → Type 0
  Applied current [] = ⊥
  Applied current (a ∷ tr) =
      ((a ≡ did reload true) × ((t : Text) × Has (did (write t (expected_hash c current)) true) tr))
      ⊎ Applied current tr

  parsed_again-Ends :
      (errors : List Text) (tr : Trace) → Ends (λ _ _. Unit {0}) Anything (parsed_again c errors tr)
  parsed_again-Ends [] tr = returned tt
  parsed_again-Ends (msg ∷ errors) tr = raised tt

  reload_failed-raises :
      (current : Config) (e : Error) (tr : Trace)
      → Ends (λ _. Applied current) Anything (reload_failed c e tr)
  reload_failed-raises current (thrown msg) tr = raised tt
  reload_failed-raises current (lint_blocked issues) tr = raised tt
  reload_failed-raises current (preflight_failed v) tr = raised tt
  reload_failed-raises current (write_failed msg) tr = raised tt
  reload_failed-raises current (healthcheck_failed f) tr = raised tt

  fail_write :
      (current : Config) (e : Error) (tr : Trace)
      → Ends (λ _. Applied current) Anything (fail_step {A = Unit {0}} write_reload e tr)
  fail_write current e tr = bind-Ends {P = λ _ _. Unit {0}} (returned tt) λ _ _ _. raised tt

  write_step-Applied :
      (draft : Text) (current : Config) (tr : Trace)
      → Ends (λ _. Applied current) Anything (write_step c draft current tr)
  unfolding write_step
  write_step-Applied draft current tr = bind-Ends {P = λ _ _. Unit {0}} (returned tt) λ _ tr₁ _.
      catch-Ends {E = Anything}
        (bind-Ends (parsed_again-Ends _ tr₁) λ _ tr₂ _.
          bind-Ends {P = λ _ _. Unit {0}} (call-Ends _ _ _ (λ _ _. tt) (λ _ _. tt)) λ plain _ _.
            bind-Ends {P = λ _ _. Unit {0}} (answer-Ends _ _ (λ _. tt) (λ _. tt)) λ content tr₃ _.
              bind-Ends
                {P = λ _ tr'. (t : Text) × Has (did (write t (expected_hash c current)) true) tr'}
                (call-Ends _ _ _ (λ _ _. (_, inl refl)) (λ _ _. tt))
                λ _ tr₄ wrote.
                  bind-Ends
                    (catch-Ends {E = Anything}
                      (call-Ends {P = λ _. Applied current} _ _ _ (λ _ _. inl (refl, wrote))
                        (λ _ _. tt))
                      (λ e tr' _. reload_failed-raises current e tr'))
                    λ _ _ i. returned (inr i))
        (λ e tr' _. fail_write current e tr')

  Applied-grow :
      (current : Config) (a : Act) (tr : Trace)
      → is_harmless a ≡ true
      → Applied current tr
      → Applied current (a ∷ tr)
  Applied-grow current a tr h i = inr i

  run-Applied :
      (draft : Text) (by : AppliedBy)
      → Ends
          (λ _ tr. (current : Config) × (c.on_read [] ≡ returns current) × Applied current tr)
          Anything
          (run_pipeline c draft by [])
  unfolding run_pipeline
  run-Applied draft by =
      bind-Ends {P = λ current _. c.on_read [] ≡ returns current}
        (call-Ends _ _ _ (λ _ e. e) (λ _ _. tt))
        λ current tr₁ read. bind-Ends (parsed_draft-Keeps Any any c _ tr₁ tt) λ _ tr₂ i₂.
          bind-Ends (diff_step-Keeps Any any c draft current tr₂ i₂) λ d tr₃ i₃.
            bind-Ends (lint_step-Keeps Any any c draft tr₃ i₃) λ warnings tr₄ i₄.
              bind-Ends (snapshot_step-Keeps Any any c current by tr₄ i₄) λ id tr₅ i₅.
                bind-Ends (preflight_step-Keeps Any any c d.0 tr₅ i₅) λ _ tr₆ i₆.
                  bind-Ends (write_step-Applied draft current tr₆) λ _ tr₇ i₇.
                    bind-Ends
                      (weaken-Ends
                        (health_step-Keeps (Applied current) (Applied-grow current) c by id
                          c.on_healthcheck tr₇ (λ _ _ _ _ i. inr i) i₇)
                        (λ _ _ i. i) (λ _ _ _. tt))
                      λ _ tr₈ i₈.
                        bind-Ends
                          (call-Ends {P = λ _. Applied current} _ _ _ (λ _ _. inr i₈) (λ _ _. tt))
                          λ _ _ i₉. returned (current, read, i₉)
    where
      Any : Trace → Type 0
      Any tr = Unit {0}

      any : (a : Act) (tr : Trace) → is_harmless a ≡ true → Any tr → Any (a ∷ tr)
      any a tr h i = tt

  -- A run of the pipeline that returns a result has made a write that returned, with the hash of
  -- the configuration it read first where the transport verifies it, and after that write a reload
  -- of the proxy that returned.
  pub success-Applied :
      (draft : Text) (by : AppliedBy) (r : PipelineResult) (tr : Trace)
      → run_pipeline c draft by [] ≡ (ok r, tr)
      → (current : Config) × (c.on_read [] ≡ returns current) × Applied current tr
  success-Applied draft by r tr e = end_value (subst (Ends _ _) e (run-Applied draft by))

  module _ (by : AppliedBy) where
    -- Each rollback of the trace comes from a deploy by the user, after a write and a reload.
    abbrev pub RollbacksAllowed : Trace → Type 0
    RollbacksAllowed [] = Unit {0}
    RollbacksAllowed (did (apply_rollback t) b ∷ tr) =
        ((by ≡ by_user)
          × (is_some c.on_rollback ≡ true)
          × ((current : Config) × (c.on_read [] ≡ returns current) × Applied current tr))
        × RollbacksAllowed tr
    RollbacksAllowed (emitted s st ∷ tr) = RollbacksAllowed tr
    RollbacksAllowed (did read_config b ∷ tr) = RollbacksAllowed tr
    RollbacksAllowed (did list_snapshots b ∷ tr) = RollbacksAllowed tr
    RollbacksAllowed (did reload b ∷ tr) = RollbacksAllowed tr
    RollbacksAllowed (did check_health b ∷ tr) = RollbacksAllowed tr
    RollbacksAllowed (did (mask d) b ∷ tr) = RollbacksAllowed tr
    RollbacksAllowed (did (unmask d) b ∷ tr) = RollbacksAllowed tr
    RollbacksAllowed (did (lint_doc d) b ∷ tr) = RollbacksAllowed tr
    RollbacksAllowed (did (create_snapshot t a) b ∷ tr) = RollbacksAllowed tr
    RollbacksAllowed (did (validate t) b ∷ tr) = RollbacksAllowed tr
    RollbacksAllowed (did (write t h) b ∷ tr) = RollbacksAllowed tr
    RollbacksAllowed (did (audit a t d) b ∷ tr) = RollbacksAllowed tr

    allow :
        (a : Act) (tr : Trace)
        → is_harmless a ≡ true
        → RollbacksAllowed tr
        → RollbacksAllowed (a ∷ tr)
    allow (emitted s st) tr h i = i
    allow (did read_config b) tr h i = i
    allow (did list_snapshots b) tr h i = i
    allow (did reload b) tr h i = i
    allow (did check_health b) tr h i = i
    allow (did (mask d) b) tr h i = i
    allow (did (unmask d) b) tr h i = i
    allow (did (lint_doc d) b) tr h i = i
    allow (did (create_snapshot t a) b) tr h i = i
    allow (did (validate t) b) tr h i = i
    allow (did (write t h') b) tr h i = cc
    allow (did (apply_rollback t) b) tr h i = cc
    allow (did (audit a t d) b) tr h i = i

    user_only :
        (by : AppliedBy) (hc : HealthResult)
        → should_rollback c by hc ≡ true
        → (by ≡ by_user) × (is_some c.on_rollback ≡ true)
    unfolding should_rollback
    user_only by_user hc e = (refl, (&&_parts (is_some c.on_rollback) _ e).0)
    user_only by_rollback hc e = cc
    user_only by_auto_rollback hc e = cc
    user_only by_canonicalization hc e = cc

    run-RollbacksAllowed :
        (draft : Text)
        → Ends (λ _. RollbacksAllowed) (λ _. RollbacksAllowed) (run_pipeline c draft by [])
    unfolding run_pipeline
    run-RollbacksAllowed draft =
        bind-Ends {P = λ current tr. (c.on_read [] ≡ returns current) × RollbacksAllowed tr}
          (call-Ends _ _ _ (λ _ e. (e, tt)) (λ _ _. tt))
          λ current tr₁ (read, i₁).
            bind-Ends (parsed_draft-Keeps RollbacksAllowed allow c _ tr₁ i₁) λ _ tr₂ i₂.
              bind-Ends (diff_step-Keeps RollbacksAllowed allow c draft current tr₂ i₂) λ d tr₃ i₃.
                bind-Ends (lint_step-Keeps RollbacksAllowed allow c draft tr₃ i₃) λ warnings tr₄ i₄.
                  bind-Ends (snapshot_step-Keeps RollbacksAllowed allow c current by tr₄ i₄)
                    λ id tr₅ i₅.
                      bind-Ends (preflight_step-Keeps RollbacksAllowed allow c d.0 tr₅ i₅)
                        λ _ tr₆ i₆.
                          bind-Ends
                            (both_end
                              (write_step-Keeps RollbacksAllowed allow c draft current tr₆
                                (λ _ _ _ i. i) i₆)
                              (write_step-Applied draft current tr₆))
                            λ _ tr₇ (i₇, applied).
                              bind-Ends
                                (weaken-Ends
                                  (health_step-Keeps
                                    (λ tr. RollbacksAllowed tr × Applied current tr)
                                    (λ a tr h (i, w). (allow a tr h i, inr w)) c by id
                                    c.on_healthcheck tr₇
                                    (λ hc e b tr (i, w). (
                                      (
                                        (
                                          (user_only by hc e).0,
                                          (user_only by hc e).1,
                                          (current, read, w),
                                        ),
                                        i,
                                      ),
                                      inr w,
                                    ))
                                    (i₇, applied))
                                  (λ _ _ i. i.0) (λ _ _ i. i.0))
                                λ _ tr₈ i₈.
                                  bind-Ends (call-Keeps RollbacksAllowed allow _ _ _ (λ b. refl) i₈)
                                    λ _ _ i₉. returned i₉

    -- Each rollback that a run of the pipeline calls for comes from a deploy by the user, with a
    -- rollback function given, and after a write and a reload of this run that both returned; so a
    -- rollback, an auto-rollback and a canonicalization never roll back.
    pub rollbacks_allowed : (draft : Text) → RollbacksAllowed (run_pipeline c draft by []).1
    rollbacks_allowed draft = trace_end (run-RollbacksAllowed draft)
