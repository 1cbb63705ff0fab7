-- ===== src/Deploy/Pipeline/Safety.antt =====
-- What comes before a write of the configuration, step 5 of deploy/pipeline.ts.
use miharbor.Base.{◌≡◌, refl, inr, true, List, [], ◌∷◌}
use miharbor.Base.Text.{Text}
use miharbor.Deploy.Effects.{
  completed, lint, preflight, AppliedBy, Config, returns, read_config, list_snapshots, reload,
  check_health, mask, unmask, lint_doc, create_snapshot, validate, write, apply_rollback, audit,
  Act, emitted, did, Trace, Context, Diff, M, ◌>>◌, call, pure,
}
use miharbor.Linter.Issue.{Issue}
use miharbor.Deploy.Pipeline.{
  write_step, run_pipeline, expected_hash, PipelineResult, audit_action, health_step,
}
use miharbor.Deploy.Pipeline.Ends.{
  Ends, returned, bind-Ends, call-Ends, both_end, weaken-Ends, trace_end, Has,
}
use miharbor.Deploy.Pipeline.Keeps.{
  is_harmless, call-Keeps, diff_step-Keeps, lint_step-Keeps, snapshot_step-Keeps,
  preflight_step-Keeps, parsed_draft-Keeps,
}
use miharbor.Deploy.Pipeline.Completes.{
  lint_step-completes, snapshot_step-completes, preflight_step-completes,
}
use miharbor.Deploy.Pipeline.LastSteps.{write_step-Keeps, health_step-Keeps}

module _ (c : Context) (by : AppliedBy) where
  -- Lint and preflight have been completed, and a snapshot of `current` has been made.
  abbrev pub Checked : Config → Trace → Type 0
  Checked current tr =
      Has (emitted lint completed) tr
      × Has (did (create_snapshot current.content by) true) tr
      × Has (emitted preflight completed) tr

  -- Each write comes after these, is told the hash of the configuration that the run has read
  -- first, and it is that configuration of which the snapshot was made.
  abbrev pub WritesChecked : Trace → Type 0
  WritesChecked [] = Unit {0}
  WritesChecked (did (write t h) b ∷ tr) =
      ((current : Config) × (c.on_read [] ≡ returns current)
        × (h ≡ expected_hash c current)
        × Checked current tr)
      × WritesChecked tr
  WritesChecked (emitted s st ∷ tr) = WritesChecked tr
  WritesChecked (did read_config b ∷ tr) = WritesChecked tr
  WritesChecked (did list_snapshots b ∷ tr) = WritesChecked tr
  WritesChecked (did reload b ∷ tr) = WritesChecked tr
  WritesChecked (did check_health b ∷ tr) = WritesChecked tr
  WritesChecked (did (mask d) b ∷ tr) = WritesChecked tr
  WritesChecked (did (unmask d) b ∷ tr) = WritesChecked tr
  WritesChecked (did (lint_doc d) b ∷ tr) = WritesChecked tr
  WritesChecked (did (create_snapshot t a) b ∷ tr) = WritesChecked tr
  WritesChecked (did (validate t) b ∷ tr) = WritesChecked tr
  WritesChecked (did (apply_rollback t) b ∷ tr) = WritesChecked tr
  WritesChecked (did (audit a t d) b ∷ tr) = WritesChecked tr

  grow : (a : Act) (tr : Trace) → is_harmless a ≡ true → WritesChecked tr → WritesChecked (a ∷ tr)
  grow (emitted s st) tr h i = i
  grow (did read_config b) tr h i = i
  grow (did list_snapshots b) tr h i = i
  grow (did reload b) tr h i = i
  grow (did check_health b) tr h i = i
  grow (did (mask d) b) tr h i = i
  grow (did (unmask d) b) tr h i = i
  grow (did (lint_doc d) b) tr h i = i
  grow (did (create_snapshot t a) b) tr h i = i
  grow (did (validate t) b) tr h i = i
  grow (did (write t h') b) tr h i = cc
  grow (did (apply_rollback t) b) tr h i = cc
  grow (did (audit a t d) b) tr h i = i

  -- The invariant of the steps after the snapshot.
  abbrev Ready : Config → Trace → Type 0
  Ready current tr = WritesChecked tr × Checked current tr

  Ready-grow :
      (current : Config) (a : Act) (tr : Trace)
      → is_harmless a ≡ true
      → Ready current tr
      → Ready current (a ∷ tr)
  Ready-grow current a tr h (i, (l, s, p)) = (grow a tr h i, (inr l, inr s, inr p))

  abbrev Linted : Trace → Type 0
  Linted tr = WritesChecked tr × Has (emitted lint completed) tr

  Linted-grow : (a : Act) (tr : Trace) → is_harmless a ≡ true → Linted tr → Linted (a ∷ tr)
  Linted-grow a tr h (i, l) = (grow a tr h i, inr l)

  abbrev Saved : Config → Trace → Type 0
  Saved current tr = Linted tr × Has (did (create_snapshot current.content by) true) tr

  Saved-grow :
      (current : Config) (a : Act) (tr : Trace)
      → is_harmless a ≡ true
      → Saved current tr
      → Saved current (a ∷ tr)
  Saved-grow current a tr h (i, s) = (Linted-grow a tr h i, inr s)

  -- The run from step 5 on.
  abbrev last_steps : Text → Config → Text → Text × Diff → List Issue → M PipelineResult
  last_steps draft current id d warnings = do
    write_step c draft current
    health_step c by id c.on_healthcheck
    call (audit (audit_action c by) id d.1) (λ tr. c.on_audit tr (audit_action c by) id d.1)
    pure (record { snapshot_id = id; diff = d.1; warnings = warnings })

  write_and_check :
      (draft : Text) (current : Config) (id : Text) (d : Text × Diff) (warnings : List Issue)
      → (tr : Trace) → c.on_read [] ≡ returns current
      → WritesChecked tr
      → Checked current tr
      → Ends (λ _. WritesChecked) (λ _. WritesChecked) (last_steps draft current id d warnings tr)
  write_and_check draft current id d warnings tr read i checked =
      bind-Ends
        (weaken-Ends
          (write_step-Keeps (Ready current) (Ready-grow current) c draft current tr
            (λ t b tr' (j, (l, s, p)).
              (((current, read, refl, (l, s, p)), j), (inr l, inr s, inr p)))
            (i, checked))
          (λ _ _ j. j.0) (λ _ _ j. j.0))
        λ _ tr₇ i₇.
          bind-Ends
            (health_step-Keeps WritesChecked grow c by id c.on_healthcheck tr₇ (λ _ _ _ _ j. j) i₇)
            λ _ tr₈ i₈.
              bind-Ends (call-Keeps WritesChecked grow _ _ _ (λ b. refl) i₈) λ _ _ i₉. returned i₉

  run-Ends :
      (draft : Text) → Ends (λ _. WritesChecked) (λ _. WritesChecked) (run_pipeline c draft by [])
  unfolding run_pipeline
  run-Ends draft =
      bind-Ends {P = λ current tr. (c.on_read [] ≡ returns current) × WritesChecked tr}
        (call-Ends _ _ _ (λ current e. (e, tt)) (λ _ _. tt))
        λ current tr₁ (read, i₁).
          bind-Ends (parsed_draft-Keeps WritesChecked grow c _ tr₁ i₁) λ _ tr₂ i₂.
            bind-Ends (diff_step-Keeps WritesChecked grow c draft current tr₂ i₂) λ d tr₃ i₃.
              bind-Ends
                (both_end (lint_step-Keeps WritesChecked grow c draft tr₃ i₃)
                  (lint_step-completes c draft tr₃))
                λ warnings tr₄ i₄.
                  bind-Ends
                    (both_end
                      (weaken-Ends (snapshot_step-Keeps Linted Linted-grow c current by tr₄ i₄)
                        (λ _ _ i. i) (λ _ _ i. i.0))
                      (snapshot_step-completes c current by tr₄))
                    λ id tr₅ i₅.
                      bind-Ends
                        (both_end
                          (weaken-Ends
                            (preflight_step-Keeps (Saved current) (Saved-grow current) c d.0 tr₅ i₅)
                            (λ _ _ i. i) (λ _ _ i. i.0.0))
                          (preflight_step-completes c d.0 tr₅))
                        λ _ tr₆ ((i₆, s₆), p₆).
                          write_and_check draft current id d warnings tr₆ read i₆.0 (i₆.1, s₆, p₆)

  -- Whatever the transport, the linters, the snapshots and the validation reply, each write of a
  -- run of the pipeline comes after lint and preflight have completed and after createSnapshot has
  -- returned for the content of the configuration read at the start, and is given the hash of that
  -- configuration where the transport verifies it.
  pub writes_checked : (draft : Text) → WritesChecked (run_pipeline c draft by []).1
  writes_checked draft = trace_end (run-Ends draft)
