-- ===== src/Deploy/Pipeline.antt =====
-- `runPipeline` of deploy/pipeline.ts: six steps, each a function here. Progress events of a
-- health check and the events of a nested rollback run belong to the one call that makes them.
pub mod Ends
pub mod Keeps
pub mod Completes
pub mod LastSteps
pub mod Safety
pub mod Rollbacks
pub mod Unprintable
use miharbor.Base.{
  ℕ, Bool, true, false, ◌&&◌, ◌||◌, not, Option, none, some, List, [], ◌∷◌, ◌++◌, if◌then◌else◌,
  ◌==◌, keep, is_some,
}
use miharbor.Base.Text.{Text, text}
use miharbor.Base.Yaml.{Yaml}
use miharbor.Linter.Issue.{Issue, Level, error, warning, info, txt}
use miharbor.Deploy.Sentinels.{resolve_view_sentinels}
use miharbor.Deploy.Effects.{
  StepId, diff, lint, snapshot, preflight, write_reload, healthcheck, rollback, StepStatus, running,
  completed, failed, AppliedBy, by_user, by_rollback, by_auto_rollback, by_canonicalization,
  AuditAction, deploy, manual_rollback, auto_rollback, canonicalization, Config, Diff, Validation,
  HealthResult, Parsed, HealthFailure, Error, lint_blocked, preflight_failed, write_failed,
  healthcheck_failed, thrown, read_config, list_snapshots, reload, check_health, mask, unmask,
  lint_doc, create_snapshot, validate, write, apply_rollback, audit, Context, Trace, Reply, M,
  ◌>>=◌, ◌>>◌, pure, raise, emit, call, answer, catch, fail_step,
}

pub record PipelineResult : Type 0 where
  pub snapshot_id : Text
  pub diff : Diff
  pub warnings : List Issue

abbrev is_error : Issue → Bool
is_error i = level_is_error i.level
  where
    level_is_error : Level → Bool
    level_is_error error = true
    level_is_error warning = false
    level_is_error info = false

unfoldable pub error_issues : List Issue → List Issue
error_issues = keep is_error

unfoldable pub non_error_issues : List Issue → List Issue
non_error_issues = keep (λ i. not (is_error i))

-- The one issue that a draft which is no YAML gives rise to.
abbrev parse_issue : Text → Issue
parse_issue message = record {
  level = error;
  code = "YAML_PARSE_ERROR";
  path = [];
  params = ("message", txt message) ∷ [];
  suggestion = none;
}

module _ (c : Context) where
  open c use {
    parse, serialize, unified_diff, on_read, on_mask, on_unmask, on_lint, on_create_snapshot,
    on_list_snapshots, on_validate, has_verify_and_write, on_write, on_reload, on_healthcheck,
    on_rollback, on_audit,
  }

  -- The draft with its view sentinels resolved, as the steps 1 and 5 parse it.
  unfoldable pub resolved : Text → Config → Yaml
  resolved draft current = (resolve_view_sentinels (parse draft).doc (parse current.content).doc).0

  -- `serialize(doc)`, where the tree of a parsed document has been written to.
  abbrev text_of : Parsed → Yaml → Reply Text
  text_of parsed doc = serialize (record { doc = doc; errors = parsed.errors })

  unfoldable pub diff_step : Text → Config → M (Text × Diff)
  unfolding resolved
  diff_step draft current =
      emit diff running
      >> catch
          (do
            current_masked ←
                call (mask (parse current.content).doc)
                  (λ tr. on_mask tr (parse current.content).doc)
            current_text ← answer (text_of (parse current.content) current_masked)
            draft_masked ←
                call (mask (resolved draft current)) (λ tr. on_mask tr (resolved draft current))
            draft_text ← answer (text_of (parse draft) draft_masked)
            emit diff completed
            pure (draft_text, unified_diff current_text draft_text))
          (fail_step diff)

  -- An error of the linter's own (`DeployLintError`) has been reported where it was thrown.
  abbrev lint_failed : Error → M (List Issue)
  lint_failed (lint_blocked issues) = raise (lint_blocked issues)
  lint_failed (preflight_failed v) = fail_step lint (preflight_failed v)
  lint_failed (write_failed msg) = fail_step lint (write_failed msg)
  lint_failed (healthcheck_failed f) = fail_step lint (healthcheck_failed f)
  lint_failed (thrown msg) = fail_step lint (thrown msg)

  abbrev judged : List Issue → List Issue → M (List Issue)
  judged [] warnings = emit lint completed >> pure warnings
  judged (e ∷ errors) warnings = emit lint failed >> raise (lint_blocked (e ∷ errors))

  unfoldable pub lint_step : Text → M (List Issue)
  unfolding error_issues non_error_issues
  lint_step draft =
      emit lint running
      >> catch
          (do
            issues ← call (lint_doc (parse draft).doc) (λ tr. on_lint tr (parse draft).doc)
            judged (error_issues issues) (non_error_issues issues))
          lint_failed

  abbrev newest : List Text → M Text
  newest [] =
      emit snapshot failed
      >> raise (thrown (text "snapshot manager returned null but no prior snapshot exists"))
  newest (id ∷ ids) = pure id

  -- `null` means that an auto-rollback found its content in the newest snapshot already.
  abbrev snapshot_or_newest : Option Text → M Text
  snapshot_or_newest none = call list_snapshots on_list_snapshots >>= newest
  snapshot_or_newest (some id) = pure id

  unfoldable pub snapshot_step : Config → AppliedBy → M Text
  snapshot_step current by = do
    emit snapshot running
    made ←
        catch
          (call (create_snapshot current.content by)
            (λ tr. on_create_snapshot tr current.content by))
          (fail_step snapshot)
    id ← snapshot_or_newest made
    emit snapshot completed
    pure id

  abbrev preflight_threw : Error → M (Unit {0})
  preflight_threw (preflight_failed v) = raise (preflight_failed v)
  preflight_threw (lint_blocked issues) = fail_step preflight (lint_blocked issues)
  preflight_threw (write_failed msg) = fail_step preflight (write_failed msg)
  preflight_threw (healthcheck_failed f) = fail_step preflight (healthcheck_failed f)
  preflight_threw (thrown msg) = fail_step preflight (thrown msg)

  unfoldable pub preflight_step : Text → M (Unit {0})
  preflight_step draft_masked =
      emit preflight running
      >> catch
          (do
            v ← call (validate draft_masked) (λ tr. on_validate tr draft_masked)
            if v.ok
                then emit preflight completed
                else emit preflight failed >> raise (preflight_failed v))
          preflight_threw

  abbrev parsed_again : List Text → M (Unit {0})
  parsed_again [] = pure tt
  parsed_again (msg ∷ errors) =
      raise (thrown (text "draft YAML parse error at write time: " ++ msg))

  abbrev expected_hash : Config → Option Text
  expected_hash current = if has_verify_and_write then some current.hash else none

  abbrev reload_failed : Error → M (Unit {0})
  reload_failed (thrown msg) = raise (write_failed (text "mihomo reloadConfig failed: " ++ msg))
  reload_failed (lint_blocked issues) = raise (lint_blocked issues)
  reload_failed (preflight_failed v) = raise (preflight_failed v)
  reload_failed (write_failed msg) = raise (write_failed msg)
  reload_failed (healthcheck_failed f) = raise (healthcheck_failed f)

  unfoldable pub write_step : Text → Config → M (Unit {0})
  unfolding resolved
  write_step draft current =
      emit write_reload running
      >> catch
          (do
            parsed_again (parse draft).errors
            plain ←
                call (unmask (resolved draft current)) (λ tr. on_unmask tr (resolved draft current))
            content ← answer (text_of (parse draft) plain)
            call (write content (expected_hash current))
                (λ tr. on_write tr content (expected_hash current))
            catch (call reload on_reload) reload_failed
            emit write_reload completed)
          (fail_step write_reload)

  abbrev is_rollback_path : AppliedBy → Bool
  is_rollback_path by_user = false
  is_rollback_path by_rollback = true
  is_rollback_path by_auto_rollback = true
  is_rollback_path by_canonicalization = true

  abbrev in_phase : Option ℕ → ℕ → Bool
  in_phase none n = false
  in_phase (some k) n = k == n

  -- Phase 1 always rolls back, phase 3 where the option is set.
  unfoldable pub should_rollback : AppliedBy → HealthResult → Bool
  should_rollback by hc =
      not (is_rollback_path by)
      && (is_some on_rollback
          && (in_phase hc.failed_phase 1 || (in_phase hc.failed_phase 3 && c.auto_rollback)))

  abbrev rolled_back : Option ℕ → Text → M (Unit {0})
  rolled_back phase id =
      emit rollback completed
      >> raise (
          healthcheck_failed
            (record { failed_phase = phase; rolled_back_to = some id; rollback_error = none }))

  -- A call raises `thrown` alone, so the last clause is never reached.
  abbrev rollback_failed : Option ℕ → Error → M Text
  rollback_failed phase (thrown msg) =
      emit rollback failed
      >> raise (
          healthcheck_failed
            (record { failed_phase = phase; rolled_back_to = none; rollback_error = some msg }))
  rollback_failed phase e = fail_step rollback e

  abbrev roll_back : Option (Trace → Text → Reply Text) → Option ℕ → Text → M (Unit {0})
  roll_back none phase snapshot_id = pure tt
  roll_back (some reply) phase snapshot_id = do
    emit rollback running
    id ←
        catch (call (apply_rollback snapshot_id) (λ tr. reply tr snapshot_id))
          (rollback_failed phase)
    rolled_back phase id

  -- A runner that throws counts as a failure in phase 1.
  abbrev dead : Error → M HealthResult
  dead e = pure (record { ok = false; failed_phase = some 1 })

  abbrev unhealthy : AppliedBy → Text → HealthResult → M (Unit {0})
  unhealthy by snapshot_id hc = do
    emit healthcheck failed
    if should_rollback by hc then roll_back on_rollback hc.failed_phase snapshot_id else pure tt
    raise (
        healthcheck_failed
          (record { failed_phase = hc.failed_phase; rolled_back_to = none; rollback_error = none }))

  unfoldable pub health_step : AppliedBy → Text → Option (Trace → Reply HealthResult) → M (Unit {0})
  unfolding should_rollback
  health_step by snapshot_id none = pure tt
  health_step by snapshot_id (some reply) = do
    emit healthcheck running
    hc ← catch (call check_health reply) dead
    if hc.ok then emit healthcheck completed else unhealthy by snapshot_id hc

  abbrev audit_action : AppliedBy → AuditAction
  audit_action by_user = deploy
  audit_action by_rollback = manual_rollback
  audit_action by_auto_rollback = auto_rollback
  audit_action by_canonicalization = canonicalization

  -- A draft that is no YAML fails both of the first steps.
  abbrev parsed_draft : List Text → M (Unit {0})
  parsed_draft [] = pure tt
  parsed_draft (msg ∷ errors) = do
    emit diff running
    emit diff failed
    emit lint failed
    raise (lint_blocked (parse_issue msg ∷ []))

  unfoldable pub run_pipeline : Text → AppliedBy → M PipelineResult
  unfolding diff_step lint_step snapshot_step preflight_step write_step health_step
  run_pipeline draft by = do
    current ← call read_config on_read
    parsed_draft (parse draft).errors
    d ← diff_step draft current
    warnings ← lint_step draft
    id ← snapshot_step current by
    preflight_step d.0
    write_step draft current
    health_step by id on_healthcheck
    call (audit (audit_action by) id d.1) (λ tr. on_audit tr (audit_action by) id d.1)
    pure (record { snapshot_id = id; diff = d.1; warnings = warnings })
