-- ===== src/Auth/Tests.antt =====
-- Runs of the rate limiter and its store, and instances of their theorems.
use miharbor.Base.{
  ◌≡◌, refl, ◌≤◌, ◌+◌, ◌-◌, true, false, none, some, List, [], ◌∷◌, ◌++◌, if◌then◌else◌, arith, ltb,
}
use miharbor.Base.Text.{Text, text, text_eq}
use miharbor.Base.Dict.{lookup, insert, erase}
use miharbor.Base.Json.{Json, JsonCodec}
use miharbor.Auth.Entry.{Entry}
use miharbor.Auth.RateLimitStore.{FileStore, missing, save, load, flush, dispose, payload}
use miharbor.Auth.RateLimitStore.Roundtrip.{surviving, load-flush}
use miharbor.Auth.RateLimit.{Options, Limiter, Call, fails, create, persist, check, fail, run, step}
use miharbor.Auth.RateLimit.PerIp.{effects, lookup-run}
use miharbor.Auth.RateLimit.History.{failures, locked_needs_failures}
use miharbor.Auth.RateLimit.Lockout.{
  burst, locked_for, free_with, burst_locks, burst_counts, late_fail_unlocks,
}
use miharbor.Auth.RateLimit.Restart.{lockout_survives_restart}

limiter : Unit {0}
unfolding run step check fail persist lookup insert erase text_eq create save load flush dispose
    payload
limiter = tt

abbrev ann : Text
ann = text "10.0.0.1"

abbrev bob : Text
bob = text "10.0.0.2"

abbrev strict : Options
strict = record { max_fails = 3; fail_window_ms = 100; lockout_ms = 50 }

abbrev empty : Limiter
empty = record {
  entries = [];
  store = some (record { pending = none; timer = false; disposed = false });
}

abbrev kept_json : JsonCodec
kept_json = record { Raw = Json; stringify = λ j. j; parse = some; parse-stringify = λ j. refl }

abbrev burst_of_ann : List Call
burst_of_ann = fails ann 10 ∷ fails bob 11 ∷ fails ann 12 ∷ fails ann 13 ∷ []

locked_after_burst : (check strict ann 20 (run strict burst_of_ann empty)).1.locked ≡ true
unfolding limiter
locked_after_burst = refl

bob_is_free : (check strict bob 20 (run strict burst_of_ann empty)).1.locked ≡ false
unfolding limiter
bob_is_free = refl

locked_needs_failures_example : 3 ≤ failures ann burst_of_ann
locked_needs_failures_example =
    locked_needs_failures strict empty.store ann burst_of_ann 20 (unfold limiter in refl)

lookup-run_example :
    lookup ann (run strict burst_of_ann empty).entries
    ≡ effects strict ann burst_of_ann (lookup ann [])
lookup-run_example = lookup-run strict ann burst_of_ann empty

burst_locks_example :
    (check strict ann 40
      (run strict (fails ann 10 ∷ burst ann (12 ∷ []) ++ fails ann 13 ∷ []) empty)).1
    ≡ (if ltb 40 (13 + 50) then locked_for (13 + 50 - 40) 3 else free_with 0)
burst_locks_example =
    burst_locks strict ann empty 10 13 40 (12 ∷ []) (unfold limiter in refl) (omega arith)
      (omega arith) (omega arith) (omega arith)

burst_counts_example :
    (check strict ann 40 (run strict (fails ann 10 ∷ burst ann (12 ∷ [])) empty)).1 ≡ free_with 2
burst_counts_example =
    burst_counts strict ann empty 10 40 (12 ∷ []) (unfold limiter in refl) (omega arith)
      (omega arith) (omega arith)

abbrev held : Entry
held = record { fails = 3; first_fail_at = 10; locked_until = 140 }

abbrev holding : Limiter
holding = record { entries = (ann, held) ∷ []; store = none }

late_fail_unlocks_example :
    ((check strict ann 120 holding).1.locked ≡ true)
    × ((check strict ann 120 (run strict (fails ann 120 ∷ []) holding)).1 ≡ free_with 1)
late_fail_unlocks_example =
    late_fail_unlocks strict ann holding held 120 (unfold limiter in refl) (omega arith)
      (omega arith)

abbrev twice : Entry
twice = record { fails = 2; first_fail_at = 10; locked_until = 0 }

abbrev about_to_lock : Limiter
about_to_lock = record { entries = (ann, twice) ∷ []; store = empty.store }

abbrev stored_lock : FileStore
stored_lock = record {
  pending = some ((ann, record { fails = 3; first_fail_at = 10; locked_until = 63 }) ∷ []);
  timer = true;
  disposed = false;
}

abbrev new_store : FileStore
new_store = record { pending = none; timer = false; disposed = false }

lockout_survives_restart_example :
    (check strict ann 60 (
      create
        (load kept_json (some 100) 60 (dispose kept_json true 20 (stored_lock, missing)).1)
        (some new_store))).1.locked
    ≡ true
lockout_survives_restart_example =
    lockout_survives_restart kept_json strict (some 100) ann 13 20 60 about_to_lock new_store
      stored_lock missing (some new_store) refl refl (unfold limiter in (refl, tt))
      (unfold limiter in refl) (unfold limiter in refl) (omega arith)

load-flush_example :
    lookup ann (load kept_json (some 100) 60 (flush kept_json true 20 (stored_lock, missing)).1)
    ≡ surviving
        (some 100)
        60
        (lookup ann ((ann, record { fails = 3; first_fail_at = 10; locked_until = 63 }) ∷ []))
        none
load-flush_example =
    load-flush kept_json (some 100) 20 60 stored_lock missing _ ann refl
      (unfold limiter in (refl, tt))
