-- ===== src/Deploy/Healthcheck/Reports.antt =====
-- The phases that a health check announces, and the result that goes with them.
use miharbor.Base.{ℕ, suc, ◌+◌, ◌≡◌, subst, Bool, true, false, none, some, List, [], ◌∷◌, ◌++◌, map}
use miharbor.Base.Text.{Text}
use miharbor.Deploy.Effects.{StepStatus, running, completed, failed, HealthResult}
use miharbor.Deploy.Healthcheck.{
  Api, Options, or_default, Polled, ended, out_of_fuel, Alive, alive, never_alive, Loaded, loaded,
  not_loaded, Delays, passed, slow, phase4, after_delays, phase3, after_rules, phase2,
  after_version, run_healthcheck, Event, Report, poll_version, event, no_data, version, counts, ran,
}

abbrev Steps : Type 0
Steps = List (ℕ × StepStatus)

-- A phase that began and ended well, before others.
abbrev well : ℕ → Steps → Steps
well n steps = (n, running) ∷ (n, completed) ∷ steps

abbrev badly : ℕ → Steps
badly n = (n, running) ∷ (n, failed) ∷ []

abbrev sound : HealthResult
sound = record { ok = true; failed_phase = none }

abbrev unsound : ℕ → HealthResult
unsound n = record { ok = false; failed_phase = some n }

-- The courses of a health check, by whether phase 4 is asked for.
pub data Course : Bool → Steps → HealthResult → Type 0 where
  api_dead : {b : Bool} → Course b (badly 1) (unsound 1)
  rules_missing : {b : Bool} → Course b (well 1 (badly 2)) sound
  delays_bad : {b : Bool} → Course b (well 1 (well 2 (badly 3))) (unsound 3)
  three_phases : Course false (well 1 (well 2 (well 3 []))) sound
  four_phases : Course true (well 1 (well 2 (well 3 (well 4 [])))) sound

abbrev pub steps_of : List Event → Steps
steps_of = map λ e. (e.phase, e.status)

abbrev Follows : Bool → Polled Report → Type 0
Follows b (ended r) = Course b (steps_of r.events) r.result
Follows b out_of_fuel = Unit

module _ (api : Api) where
  abbrev announced1 : Text → List Event
  announced1 v = event 1 running no_data ∷ event 1 completed (version v) ∷ []

  abbrev announced2 : Text → ℕ → ℕ → List Event
  announced2 v n updating =
      announced1 v ++ event 2 running no_data ∷ event 2 completed (counts n updating) ∷ []

  phase4-Course :
      (b : Bool) (v : Text) (n updating : ℕ) (r : Bool)
      → Course b
          (steps_of
            (phase4 api b (
              announced2 v n updating
              ++ event 3 running no_data ∷ event 3 completed (ran r) ∷ [])).events)
          (phase4 api b (
            announced2 v n updating
            ++ event 3 running no_data ∷ event 3 completed (ran r) ∷ [])).result
  unfolding phase4
  phase4-Course true v n updating r = four_phases
  phase4-Course false v n updating r = three_phases

  after_delays-Course :
      (opts : Options) (v : Text) (n updating : ℕ) (d : Delays api)
      → Follows opts.run_e2e (
          ended (after_delays api opts (announced2 v n updating ++ event 3 running no_data ∷ []) d))
  unfolding after_delays
  after_delays-Course opts v n updating (passed r) = phase4-Course opts.run_e2e v n updating r
  after_delays-Course opts v n updating (slow err) = delays_bad

  after_rules-Course :
      (opts : Options) (v : Text) (l : Polled (Loaded api))
      → Follows opts.run_e2e (after_rules api opts (announced1 v ++ event 2 running no_data ∷ []) l)
  unfolding after_rules phase3
  after_rules-Course opts v out_of_fuel = tt
  after_rules-Course opts v (ended (not_loaded err w)) = rules_missing
  after_rules-Course opts v (ended (loaded n updating w)) = after_delays-Course opts v n updating _

  after_version-Course :
      (opts : Options) (a : Polled (Alive api))
      → Follows opts.run_e2e (after_version api opts (event 1 running no_data ∷ []) a)
  unfolding after_version phase2
  after_version-Course opts out_of_fuel = tt
  after_version-Course opts (ended (never_alive err w)) = api_dead
  after_version-Course opts (ended (alive v w)) = after_rules-Course opts v _

  -- A health check announces the phases in order, each begun before it ends and none after one that
  -- failed; its result is unsound exactly where the last announcement is that phase 1 or phase 3
  -- failed, and names that phase; phase 4 is run where it is asked for and the others went well.
  pub run_healthcheck-Course :
      (opts : Options) (w : api.World) (r : Report)
      → run_healthcheck api opts w ≡ ended r
      → Course opts.run_e2e (steps_of r.events) r.result
  unfolding run_healthcheck
  run_healthcheck-Course opts w r h =
      let timeout = or_default opts.phase1_timeout_ms 10000 in
      subst (Follows opts.run_e2e) h (
        after_version-Course opts (
          poll_version api (suc timeout) ((api.now w).0 + timeout)
            (or_default opts.phase1_interval_ms 500) none (api.now w).1))
