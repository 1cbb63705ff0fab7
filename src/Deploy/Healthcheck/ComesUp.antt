-- ===== src/Deploy/Healthcheck/ComesUp.antt =====
-- The first phase of the health check where the API comes up in time.
use miharbor.Base.{
  ℕ, zero, suc, ◌+◌, ◌≤◌, ◌<◌, ◌≡◌, refl, ◌≢◌, inl, inr, Bool, true, false, Option, none, some,
  List, [], ◌∷◌, ltb, Bool-cases, arith, ltb→lt, lt→ltb,
}
use miharbor.Base.Text.{Text}
use miharbor.Deploy.Effects.{running, Reply, returns, throws}
use miharbor.Deploy.Healthcheck.{
  Api, Options, or_default, Polled, ended, out_of_fuel, Alive, alive, never_alive, version_reply,
  poll_version, Loaded, loaded, not_loaded, Delays, passed, slow, phase4, after_delays, phase3,
  after_rules, phase2, after_version, run_healthcheck, Event, Report, event, no_data,
}
use miharbor.Deploy.Healthcheck.Ends.{Clock, run_healthcheck-Ends}

module _ (api : Api) (clock : Clock api) where
  open api use {World, now, sleep, get_version}
  open clock use {time, reads}

  abbrev IsAlive : Polled (Alive api) → Type 0
  IsAlive (ended (alive v w)) = Unit
  IsAlive (ended (never_alive err w)) = ⊥
  IsAlive out_of_fuel = Unit

  answered-IsAlive :
      (again : Option Text → World → Polled (Alive api)) (p : Reply Text × World) (v : Text)
      → p.0 ≡ returns v
      → IsAlive (version_reply api again p)
  answered-IsAlive again (returns x, w) v h = tt
  answered-IsAlive again (throws x, w) v h = absurd (cc h)

  again-IsAlive :
      (again : Option Text → World → Polled (Alive api)) (p : Reply Text × World)
      → ((e : Option Text) → IsAlive (again e p.1))
      → IsAlive (version_reply api again p)
  again-IsAlive again (returns x, w) k = tt
  again-IsAlive again (throws x, w) k = k (some x)

  poll_version-IsAlive :
      (up round deadline interval fuel : ℕ) (err : Option Text) (w : World)
      → ((w : World) → up ≤ time w → (v : Text) × ((get_version w).0 ≡ returns v))
      → ((w : World)
          → time (now w).1 < up
          → time (sleep interval (get_version (now w).1).1) ≤ time (now w).1 + round)
      → up + round ≤ deadline
      → time w < deadline
      → IsAlive (poll_version api fuel deadline interval err w)
  unfolding poll_version
  poll_version-IsAlive up round deadline interval zero err w answers rounds h l = tt
  poll_version-IsAlive up round deadline interval (suc fuel) err w answers rounds h l =
      let again : Option Text → World → Polled (Alive api) =
        λ e v. poll_version api fuel deadline interval e (sleep interval v) in
      rw (lt→ltb (now w).0 deadline (omega (arith, l, reads w)))
        (elim (Bool-cases (ltb (time (now w).1) up)) [
          | inl e ↦
              let early = ltb→lt (time (now w).1) up e in
              again-IsAlive again (get_version (now w).1) λ x.
                poll_version-IsAlive up round deadline interval fuel x
                  (sleep interval (get_version (now w).1).1) answers rounds h
                  (omega (arith, h, early, rounds w early))
          | inr e ↦
              let (v, a) = answers (now w).1 (ground (arith, e)) in
              answered-IsAlive again (get_version (now w).1) v a
        ])

  abbrev PastPhase1 : Polled Report → Type 0
  PastPhase1 (ended r) = r.result.failed_phase ≢ some 1
  PastPhase1 out_of_fuel = Unit

  phase4-past : (b : Bool) (es : List Event) → (phase4 api b es).result.failed_phase ≢ some 1
  unfolding phase4
  phase4-past true es = λ q. cc q
  phase4-past false es = λ q. cc q

  after_delays-past :
      (opts : Options) (es : List Event) (d : Delays api)
      → (after_delays api opts es d).result.failed_phase ≢ some 1
  unfolding after_delays
  after_delays-past opts es (passed r) = phase4-past opts.run_e2e _
  after_delays-past opts es (slow x) = λ q. not_one (of_some q)
    where
      of_some : {a b : ℕ} → some a ≡ some b → a ≡ b
      of_some q = cc q

      three : ℕ
      three = 3

      not_one : three ≢ 1
      not_one e = omega (arith, e)

  after_rules-PastPhase1 :
      (opts : Options) (es : List Event) (l : Polled (Loaded api))
      → PastPhase1 (after_rules api opts es l)
  unfolding after_rules phase3
  after_rules-PastPhase1 opts es out_of_fuel = tt
  after_rules-PastPhase1 opts es (ended (not_loaded err w)) = λ q. cc q
  after_rules-PastPhase1 opts es (ended (loaded n u w)) = after_delays-past opts _ _

  after_version-PastPhase1 :
      (opts : Options) (es : List Event) (a : Polled (Alive api))
      → IsAlive a
      → PastPhase1 (after_version api opts es a)
  unfolding after_version phase2
  after_version-PastPhase1 opts es out_of_fuel h = tt
  after_version-PastPhase1 opts es (ended (never_alive err w)) h = absurd h
  after_version-PastPhase1 opts es (ended (alive v w)) h = after_rules-PastPhase1 opts _ _

  -- Where the API answers at every time from `up` on, a failed poll before that and its sleep take at
  -- most `round`, the last such round ends within the timeout of phase 1 and the first poll starts
  -- within it, the health check ends with a report that does not fail in phase 1.
  pub run_healthcheck-comes_up :
      (opts : Options) (w : World) (up round : ℕ)
      → 0 < or_default opts.phase1_interval_ms 500
      → ((v : World) → up ≤ time v → (t : Text) × ((get_version v).0 ≡ returns t))
      → ((v : World)
          → time (now v).1 < up
          → time (sleep (or_default opts.phase1_interval_ms 500) (get_version (now v).1).1)
            ≤ time (now v).1 + round)
      → up + round ≤ time w + or_default opts.phase1_timeout_ms 10000
      → time (now w).1 < time w + or_default opts.phase1_timeout_ms 10000
      → (r : Report) × (run_healthcheck api opts w ≡ ended r) × (r.result.failed_phase ≢ some 1)
  unfolding run_healthcheck
  run_healthcheck-comes_up opts w up round i answers rounds h l =
      let timeout = or_default opts.phase1_timeout_ms 10000 in
      report_of _ (run_healthcheck-Ends api clock opts w i) (
        after_version-PastPhase1 opts (event 1 running no_data ∷ []) _ (
          poll_version-IsAlive up round ((now w).0 + timeout)
            (or_default opts.phase1_interval_ms 500) (suc timeout) none (now w).1 answers rounds
            (omega (arith, h, reads w)) (omega (arith, l, reads w))))
    where
      report_of :
          (p : Polled Report)
          → p ≢ out_of_fuel
          → PastPhase1 p
          → (r : Report) × (p ≡ ended r) × (r.result.failed_phase ≢ some 1)
      report_of (ended r) n k = (r, refl, k)
      report_of out_of_fuel n k = absurd (n refl)
