-- ===== src/Deploy/Healthcheck/Ends.antt =====
-- The loops of the health check against the clock.
use miharbor.Base.{
  ℕ, zero, suc, ◌+◌, ◌≤◌, ◌<◌, ◌≡◌, refl, ◌≢◌, inl, inr, Option, none, some, List, [], ◌∷◌, ltb,
  Bool-cases, arith, ltb→lt,
}
use miharbor.Base.Text.{Text}
use miharbor.Base.Json.{Json}
use miharbor.Deploy.Effects.{running, Reply, returns, throws}
use miharbor.Deploy.Healthcheck.Payloads.{rules_count}
use miharbor.Deploy.Healthcheck.{
  Api, Options, or_default, Polled, ended, out_of_fuel, Alive, alive, never_alive, version_reply,
  poll_version, Loaded, loaded, not_loaded, rules_reply, poll_rules, after_rules, phase2,
  after_version, run_healthcheck, Event, event, no_data,
}

-- A clock that does not go back, and sleeps that are not too short.
pub record Clock (api : Api) : Type 0 where
  pub time : api.World → ℕ
  pub reads : (w : api.World) → (api.now w).0 ≡ time w
  pub after_now : (w : api.World) → time w ≤ time (api.now w).1
  pub after_version : (w : api.World) → time w ≤ time (api.get_version w).1
  pub after_lists : (w : api.World) → time w ≤ time (api.list_both w).1
  pub after_sleep : (n : ℕ) (w : api.World) → time w + n ≤ time (api.sleep n w)

module _ (api : Api) (clock : Clock api) where
  open api use {World, now, sleep, get_version, list_both}
  open clock use {time, reads}

  -- Fuel above the time that is left is enough.
  version_reply-Ends :
      (again : Option Text → World → Polled (Alive api)) (n : ℕ) (p : Reply Text × World)
      → n ≤ time p.1
      → ((e : Option Text) (w : World) → n ≤ time w → again e w ≢ out_of_fuel)
      → version_reply api again p ≢ out_of_fuel
  version_reply-Ends again n (returns v, w) h k = λ e. cc e
  version_reply-Ends again n (throws x, w) h k = k (some x) w h

  poll_version-Ends :
      (fuel deadline interval : ℕ) (err : Option Text) (w : World)
      → 0 < interval
      → 0 < fuel
      → deadline < fuel + time w
      → poll_version api fuel deadline interval err w ≢ out_of_fuel
  unfolding poll_version
  poll_version-Ends zero deadline interval err w i z h = absurd (omega (arith, z))
  poll_version-Ends (suc fuel) deadline interval err w i z h =
      elim (Bool-cases (ltb (now w).0 deadline)) [
        | inl e ↦ rw e (
            version_reply-Ends _ (time w) (get_version (now w).1)
              (omega (arith, clock.after_now w, clock.after_version (now w).1))
              λ x v l.
                let early = ltb→lt (now w).0 deadline e in
                poll_version-Ends fuel deadline interval x (sleep interval v) i
                  (omega (arith, h, early, reads w))
                  (omega (arith, h, l, i, clock.after_sleep interval v)))
        | inr e ↦ rw e (λ q. cc q)
      ]

  rules_reply-Ends :
      (again : Option Text → World → Polled (Loaded api)) (n : ℕ) (err : Option Text)
      (p : Reply (Json × Json) × World)
      → n ≤ time p.1
      → ((e : Option Text) (w : World) → n ≤ time w → again e w ≢ out_of_fuel)
      → rules_reply api again err p ≢ out_of_fuel
  rules_reply-Ends again n err (returns (r, ps), w) h k =
      elim (Bool-cases (ltb 0 (rules_count r))) [
        | inl e ↦ rw e (λ q. cc q)
        | inr e ↦ rw e (k err w h)
      ]
  rules_reply-Ends again n err (throws x, w) h k = k (some x) w h

  poll_rules-Ends :
      (fuel deadline : ℕ) (err : Option Text) (w : World)
      → 0 < fuel
      → deadline < fuel + time w
      → poll_rules api fuel deadline err w ≢ out_of_fuel
  unfolding poll_rules
  poll_rules-Ends zero deadline err w z h = absurd (omega (arith, z))
  poll_rules-Ends (suc fuel) deadline err w z h = elim (Bool-cases (ltb (now w).0 deadline)) [
    | inl e ↦ rw e (
        rules_reply-Ends _ (time w) err (list_both (now w).1)
          (omega (arith, clock.after_now w, clock.after_lists (now w).1))
          λ x v l.
            let early = ltb→lt (now w).0 deadline e in
            poll_rules-Ends fuel deadline x (sleep 500 v) (omega (arith, h, early, reads w))
              (omega (arith, h, l, clock.after_sleep 500 v)))
    | inr e ↦ rw e (λ q. cc q)
  ]

  after_rules-Ends :
      (opts : Options) (es : List Event) (l : Polled (Loaded api))
      → l ≢ out_of_fuel
      → after_rules api opts es l ≢ out_of_fuel
  unfolding after_rules
  after_rules-Ends opts es out_of_fuel h = absurd (h refl)
  after_rules-Ends opts es (ended (not_loaded err w)) h = λ q. cc q
  after_rules-Ends opts es (ended (loaded n u w)) h = λ q. cc q

  phase2-Ends : (opts : Options) (es : List Event) (w : World) → phase2 api opts es w ≢ out_of_fuel
  unfolding phase2
  phase2-Ends opts es w =
      let timeout = or_default opts.phase2_timeout_ms 60000 in
      after_rules-Ends opts _ _ (
        poll_rules-Ends (suc timeout) ((now w).0 + timeout) none (now w).1 (omega arith)
          (omega (arith, reads w, clock.after_now w)))

  after_version-Ends :
      (opts : Options) (es : List Event) (a : Polled (Alive api))
      → a ≢ out_of_fuel
      → after_version api opts es a ≢ out_of_fuel
  unfolding after_version
  after_version-Ends opts es out_of_fuel h = absurd (h refl)
  after_version-Ends opts es (ended (never_alive err w)) h = λ q. cc q
  after_version-Ends opts es (ended (alive v w)) h = phase2-Ends opts _ w

  -- The health check comes to an end, whatever the API answers, where the clock does not go back, a
  -- sleep is not shorter than asked for, and the interval of the polls is not 0.
  pub run_healthcheck-Ends :
      (opts : Options) (w : World)
      → 0 < or_default opts.phase1_interval_ms 500
      → run_healthcheck api opts w ≢ out_of_fuel
  unfolding run_healthcheck
  run_healthcheck-Ends opts w i =
      let timeout = or_default opts.phase1_timeout_ms 10000 in
      after_version-Ends opts (event 1 running no_data ∷ []) _ (
        poll_version-Ends (suc timeout) ((now w).0 + timeout) _ none (now w).1 i (omega arith)
          (omega (arith, reads w, clock.after_now w)))
