-- ===== src/Deploy/Healthcheck.antt =====
-- deploy/healthcheck.ts: the phases after a deploy. The clock, the sleep and the proxy's API are
-- operations on a world, and an API call may throw.
pub mod Payloads
pub mod Ends
pub mod ComesUp
pub mod Reports
mod Tests
use miharbor.Base.{
  ℕ, zero, suc, ◌+◌, Bool, true, false, ◌||◌, Option, none, some, List, [], ◌∷◌, ◌++◌,
  if◌then◌else◌, ltb, leb, ◌==◌,
}
use miharbor.Base.Text.{Text, text}
use miharbor.Base.Json.{Json}
use miharbor.Deploy.Effects.{
  StepStatus, running, completed, failed, HealthResult, Reply, returns, throws,
}
use miharbor.Deploy.Healthcheck.Payloads.{
  rules_count, count_updating_providers, find_url_test_groups, is_valid_delay,
}

pub record Api : Type 1 where
  pub World : Type 0
  pub now : World → ℕ × World
  pub sleep : ℕ → World → World
  pub get_version : World → Reply Text × World
  -- `Promise.all` of `listRules` and `listProviders`
  pub list_both : World → Reply (Json × Json) × World
  pub list_proxies : World → Reply Json × World
  pub get_proxy_delay : Text → World → Reply Json × World
  -- `JSON.stringify`, and `String` of an index
  pub stringify : Json → Text
  pub index_text : ℕ → Text

pub record Options : Type 0 where
  pub phase1_timeout_ms : Option ℕ
  pub phase1_interval_ms : Option ℕ
  pub phase2_timeout_ms : Option ℕ
  pub phase3_timeout_ms : Option ℕ
  pub run_e2e : Bool

abbrev pub or_default : Option ℕ → ℕ → ℕ
or_default none d = d
or_default (some n) d = n

-- What the callback `onPhase` is told.
pub data PhaseData : Type 0 where
  no_data : PhaseData
  version : Text → PhaseData
  reason : Text → Option Text → PhaseData
  counts : ℕ → ℕ → PhaseData
  ran : Bool → PhaseData
  note : Text → PhaseData

pub record Event : Type 0 where
  pub phase : ℕ
  pub status : StepStatus
  pub info : PhaseData

pub record Diagnostics : Type 0 where
  pub phase : ℕ
  pub message : Text
  pub last_error : Option Text

-- A result with the events, oldest first.
pub record Report : Type 0 where
  pub result : HealthResult
  pub diagnostics : Option Diagnostics
  pub events : List Event

-- The end of a loop or of the whole; `out_of_fuel` is no end of the code.
pub data Polled (A : Type 0) : Type 0 where
  ended : A → Polled A
  out_of_fuel : Polled A

abbrev pub event : ℕ → StepStatus → PhaseData → Event
event n st d = record { phase = n; status = st; info = d }

-- `{ ok: true }`, perhaps with diagnostics
abbrev pub healthy : Option Diagnostics → List Event → Report
healthy d es = record {
  result = record { ok = true; failed_phase = none };
  diagnostics = d;
  events = es;
}

abbrev pub unhealthy : ℕ → Text → Option Text → List Event → Report
unhealthy n why err es = record {
  result = record { ok = false; failed_phase = some n };
  diagnostics = some (record { phase = n; message = why; last_error = err });
  events = es;
}

module _ (api : Api) where
  open api use {
    World, now, sleep, get_version, list_both, list_proxies, get_proxy_delay, stringify, index_text,
  }

  -- The version, or the last error.
  pub data Alive : Type 0 where
    alive : Text → World → Alive
    never_alive : Option Text → World → Alive

  abbrev pub version_reply :
      (Option Text → World → Polled Alive) → Reply Text × World → Polled Alive
  version_reply again (returns v, w) = ended (alive v w)
  version_reply again (throws e, w) = again (some e) w

  -- The loop of phase 1.
  unfoldable pub poll_version : ℕ → ℕ → ℕ → Option Text → World → Polled Alive
  poll_version zero deadline interval err w = out_of_fuel
  poll_version (suc fuel) deadline interval err w =
      let (t, w1) = now w in
      if ltb t deadline
      then version_reply (λ e w2. poll_version fuel deadline interval e (sleep interval w2))
          (get_version w1)
      else ended (never_alive err w1)

  pub data Loaded : Type 0 where
    loaded : ℕ → ℕ → World → Loaded
    not_loaded : Option Text → World → Loaded

  abbrev pub rules_reply :
      (Option Text → World → Polled Loaded)
      → Option Text
      → Reply (Json × Json) × World
      → Polled Loaded
  rules_reply again err (returns (rules, providers), w) =
      if ltb 0 (rules_count rules)
      then ended (loaded (rules_count rules) (count_updating_providers providers) w)
      else again err w
  rules_reply again err (throws e, w) = again (some e) w

  -- The loop of phase 2.
  unfoldable pub poll_rules : ℕ → ℕ → Option Text → World → Polled Loaded
  poll_rules zero deadline err w = out_of_fuel
  poll_rules (suc fuel) deadline err w =
      let (t, w1) = now w in
      if ltb t deadline
      then rules_reply (λ e w2. poll_rules fuel deadline e (sleep 500 w2)) err (list_both w1)
      else ended (not_loaded err w1)

  -- Whether a check ran, or the error of one that failed.
  pub data Delays : Type 0 where
    passed : Bool → Delays
    slow : Text → Delays

  abbrev pub invalid_delay : Text → Json → Text
  invalid_delay name r =
      text "proxy " ++ (name ++ (text " returned invalid delay: " ++ stringify r))

  abbrev pub delay_reply : (World → Delays) → Text → Reply Json × World → Delays
  delay_reply next name (returns r, w) =
      if is_valid_delay r then next w else slow (invalid_delay name r)
  delay_reply next name (throws e, w) = slow e

  -- The loop of phase 3.
  unfoldable pub check_delays : ℕ → List Text → Bool → World → Delays
  check_delays deadline [] p3_ran w = passed p3_ran
  check_delays deadline (name ∷ names) p3_ran w =
      let (t, w1) = now w in
      if leb deadline t
      then passed p3_ran
      else delay_reply (check_delays deadline names true) name (get_proxy_delay name w1)

  abbrev pub proxies_reply : ℕ → Reply Json × World → Delays
  proxies_reply deadline (returns proxies, w) =
      check_delays deadline (find_url_test_groups index_text proxies) false w
  proxies_reply deadline (throws e, w) = slow e

  unfoldable pub phase4 : Bool → List Event → Report
  phase4 false es = healthy none es
  phase4 true es = healthy none (
      es
      ++ event 4 running no_data
        ∷ event 4 completed (note (text "e2e stub — always ok in MVP"))
        ∷ [])

  unfoldable pub after_delays : Options → List Event → Delays → Report
  unfolding phase4
  after_delays opts es (passed p3_ran) =
      phase4 opts.run_e2e (es ++ event 3 completed (ran p3_ran) ∷ [])
  after_delays opts es (slow err) =
      unhealthy 3 (text "delay-check-failed") (some err)
        (es ++ event 3 failed (reason (text "delay-check-failed") (some err)) ∷ [])

  unfoldable pub phase3 : Options → List Event → World → Report
  unfolding after_delays check_delays
  phase3 opts es w =
      let (t, w1) = now w in
      after_delays opts (es ++ event 3 running no_data ∷ [])
        (proxies_reply (t + or_default opts.phase3_timeout_ms 30000) (list_proxies w1))

  unfoldable pub after_rules : Options → List Event → Polled Loaded → Polled Report
  unfolding phase3
  after_rules opts es out_of_fuel = out_of_fuel
  after_rules opts es (ended (not_loaded err w)) = ended (
      healthy
        (some (record {
          phase = 2;
          message = text "rules-not-loaded-within-timeout";
          last_error = err;
        }))
        (es ++ event 2 failed (reason (text "rules-not-loaded") err) ∷ []))
  after_rules opts es (ended (loaded n updating w)) =
      ended (phase3 opts (es ++ event 2 completed (counts n updating) ∷ []) w)

  unfoldable pub phase2 : Options → List Event → World → Polled Report
  unfolding after_rules poll_rules
  phase2 opts es w =
      let (t, w1) = now w in
      let timeout = or_default opts.phase2_timeout_ms 60000 in
      after_rules opts (es ++ event 2 running no_data ∷ [])
        (poll_rules (suc timeout) (t + timeout) none w1)

  unfoldable pub after_version : Options → List Event → Polled Alive → Polled Report
  unfolding phase2
  after_version opts es out_of_fuel = out_of_fuel
  after_version opts es (ended (never_alive err w)) = ended (
      unhealthy 1 (text "api-never-alive") err
        (es ++ event 1 failed (reason (text "api-never-alive") err) ∷ []))
  after_version opts es (ended (alive v w)) =
      phase2 opts (es ++ event 1 completed (version v) ∷ []) w

  -- The fuel of a loop is one more than its timeout in milliseconds.
  unfoldable pub run_healthcheck : Options → World → Polled Report
  unfolding after_version poll_version
  run_healthcheck opts w =
      let (t, w1) = now w in
      let timeout = or_default opts.phase1_timeout_ms 10000 in
      after_version opts (event 1 running no_data ∷ [])
        (poll_version (suc timeout) (t + timeout) (or_default opts.phase1_interval_ms 500) none w1)
