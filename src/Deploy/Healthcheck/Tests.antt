-- ===== src/Deploy/Healthcheck/Tests.antt =====
-- Health checks of a proxy that comes up after a while.
use miharbor.Base.{
  ℕ, ◌+◌, ◌≤◌, ◌<◌, ◌≡◌, refl, ◌≢◌, true, none, some, [], ◌∷◌, if◌then◌else◌, leb, Bool-cases,
  arith,
}
use miharbor.Base.Text.{Text, text, text_eq}
use miharbor.Base.Dict.{lookup}
use miharbor.Base.Json.{null, num, str, arr, obj, nil, cons, end, field}
use miharbor.Deploy.Effects.{running, completed, returns, throws}
use miharbor.Deploy.Healthcheck.{
  Api, Options, Report, ended, out_of_fuel, run_healthcheck, event, no_data, version, counts, ran,
  note,
}
use miharbor.Deploy.Healthcheck.Payloads.{
  rules_count, find_url_test_groups, is_valid_delay, count_updating_providers,
}
use miharbor.Deploy.Healthcheck.Ends.{Clock, run_healthcheck-Ends}
use miharbor.Deploy.Healthcheck.ComesUp.{run_healthcheck-comes_up}
use miharbor.Deploy.Healthcheck.Reports.{Course, steps_of, run_healthcheck-Course}

-- The world is the time; the API answers from 700 on.
abbrev slow_start : Api
slow_start = record {
  World = ℕ;
  now = λ w. (w, w);
  sleep = λ n w. w + n;
  get_version = λ w. if leb 700 w then (returns (text "1.19"), w) else (throws (text "refused"), w);
  list_both = λ w. (returns (arr (cons (str (text "MATCH,DIRECT")) nil), null), w);
  list_proxies = λ w. (
    returns (obj (field (text "auto") (obj (field (text "type") (str (text "URLTest")) end)) end)),
    w,
  );
  get_proxy_delay = λ name w. (returns (obj (field (text "delay") (num 30) end)), w);
  stringify = λ j. text "{}";
  index_text = λ i. text "0";
}

later : (w : ℕ) → w ≤ (slow_start.get_version w).1
later w = ground (arith, Bool-cases (leb 700 w))

abbrev ticking : Clock slow_start
ticking = record {
  time = λ w. w;
  reads = λ w. refl;
  after_now = λ w. omega arith;
  after_version = later;
  after_lists = λ w. omega arith;
  after_sleep = λ n w. omega arith;
}

abbrev with_e2e : Options
with_e2e = record {
  phase1_timeout_ms = some 2000;
  phase1_interval_ms = none;
  phase2_timeout_ms = none;
  phase3_timeout_ms = none;
  run_e2e = true;
}

run_healthcheck-Ends_example : run_healthcheck slow_start with_e2e 0 ≢ out_of_fuel
run_healthcheck-Ends_example = run_healthcheck-Ends slow_start ticking with_e2e 0 (omega arith)

answers : (w : ℕ) → 700 ≤ w → (t : Text) × ((slow_start.get_version w).0 ≡ returns t)
answers w h = (text "1.19", ground (arith, h))

rounds : (w : ℕ) → w < 700 → (slow_start.get_version w).1 + 500 ≤ w + 500
rounds w h = ground (arith, Bool-cases (leb 700 w))

run_healthcheck-comes_up_example :
    (r : Report) × (run_healthcheck slow_start with_e2e 0 ≡ ended r)
    × (r.result.failed_phase ≢ some 1)
run_healthcheck-comes_up_example =
    run_healthcheck-comes_up slow_start ticking with_e2e 0 700 500 (omega arith) answers rounds
      (omega arith) (omega arith)

-- Two polls fail, the third is answered.
abbrev good_report : Report
good_report = record {
  result = record { ok = true; failed_phase = none };
  diagnostics = none;
  events =
      event 1 running no_data
      ∷ event 1 completed (version (text "1.19"))
      ∷ event 2 running no_data
      ∷ event 2 completed (counts 1 0)
      ∷ event 3 running no_data
      ∷ event 3 completed (ran true)
      ∷ event 4 running no_data
      ∷ event 4 completed (note (text "e2e stub — always ok in MVP"))
      ∷ [];
}

good_run : run_healthcheck slow_start with_e2e 0 ≡ ended good_report
unfolding run_healthcheck rules_count text_eq lookup find_url_test_groups is_valid_delay
    count_updating_providers
good_run = refl

run_healthcheck-Course_example : Course true (steps_of good_report.events) good_report.result
run_healthcheck-Course_example = run_healthcheck-Course slow_start with_e2e 0 good_report good_run
