-- ===== src/Auth/RateLimit/Lockout.antt =====
-- What auth/rate-limit.ts answers after a burst of failures of one IP.
use miharbor.Base.{
  ℕ, ◌+◌, ◌-◌, ◌≤◌, ◌<◌, ◌≡◌, refl, ◌∙◌, ap, true, false, Option, none, some, List, [], ◌∷◌, ◌++◌,
  if◌then◌else◌, arith, ltb, length, All,
}
use miharbor.Base.Text.{Text, text_eq_refl}
use miharbor.Base.Dict.{lookup}
use miharbor.Auth.Entry.{Entry}
use miharbor.Auth.RateLimit.{
  Options, Limiter, LockState, is_stale, fresh, check, Call, fails, run, state_of,
}
use miharbor.Auth.RateLimit.PerIp.{after_fail, effect, effects, lookup-run}

-- A burst of failures of one IP.
abbrev pub burst : Text → List ℕ → List Call
burst ip [] = []
burst ip (t ∷ ts) = fails ip t ∷ burst ip ts

abbrev pub counting : ℕ → ℕ → Entry
counting n t0 = record { fails = n; first_fail_at = t0; locked_until = 0 }

-- Fails within the window, the maximum not reached.
effects-burst :
    (o : Options) (ip : Text) (t0 n : ℕ) (ts : List ℕ)
    → All (λ t. t ≤ t0 + o.fail_window_ms) ts
    → n + length ts < o.max_fails
    → effects o ip (burst ip ts) (some (counting n t0)) ≡ some (counting (n + length ts) t0)
unfolding effects
effects-burst o ip t0 n [] w h = ap (λ k. some (counting k t0)) (omega arith)
effects-burst o ip t0 n (t ∷ ts) w h =
    ap (effects o ip (burst ip ts)) one
    ∙ effects-burst o ip t0 (n + 1) ts w.1 (omega arith)
    ∙ ap (λ k. some (counting k t0)) (omega arith)
  where
    one : effect o ip (fails ip t) (some (counting n t0)) ≡ some (counting (n + 1) t0)
    one = unfold effect after_fail is_stale in ground (arith, text_eq_refl ip, w.0)

effects-append :
    (o : Options) (ip : Text) (cs ds : List Call) (e : Option Entry)
    → effects o ip (cs ++ ds) e ≡ effects o ip ds (effects o ip cs e)
unfolding effects
effects-append o ip [] ds e = refl
effects-append o ip (c ∷ cs) ds e = effects-append o ip cs ds (effect o ip c e)

effect-fresh :
    (o : Options) (ip : Text) (t : ℕ) → effect o ip (fails ip t) none ≡ some (counting 1 t)
unfolding effect after_fail fresh
effect-fresh o ip t = rw (text_eq_refl ip)

effect-last :
    (o : Options) (ip : Text) (t0 t n : ℕ)
    → t ≤ t0 + o.fail_window_ms
    → n + 1 ≡ o.max_fails
    → effect o ip (fails ip t) (some (counting n t0))
      ≡ some (record { fails = n + 1; first_fail_at = t0; locked_until = t + o.lockout_ms })
unfolding effect after_fail is_stale
effect-last o ip t0 t n w h = ground (arith, text_eq_refl ip)

effects-fresh_burst :
    (o : Options) (ip : Text) (t0 : ℕ) (ts : List ℕ)
    → All (λ t. t ≤ t0 + o.fail_window_ms) ts
    → length ts + 1 < o.max_fails
    → effects o ip (fails ip t0 ∷ burst ip ts) none ≡ some (counting (length ts + 1) t0)
unfolding effects
effects-fresh_burst o ip t0 ts w h =
    ap (effects o ip (burst ip ts)) (effect-fresh o ip t0)
    ∙ effects-burst o ip t0 1 ts w (omega arith)
    ∙ ap (λ k. some (counting k t0)) (omega arith)

effects-one :
    (o : Options) (ip : Text) (c : Call) (e : Option Entry) {f : Option Entry}
    → effect o ip c e ≡ f
    → effects o ip (c ∷ []) e ≡ f
unfolding effects
effects-one o ip c e h = h

effects-full_burst :
    (o : Options) (ip : Text) (t0 tn : ℕ) (ts : List ℕ)
    → All (λ u. u ≤ t0 + o.fail_window_ms) ts
    → tn ≤ t0 + o.fail_window_ms
    → length ts + 2 ≡ o.max_fails
    → effects o ip (fails ip t0 ∷ burst ip ts ++ fails ip tn ∷ []) none
      ≡ some (record { fails = o.max_fails; first_fail_at = t0; locked_until = tn + o.lockout_ms })
effects-full_burst o ip t0 tn ts w wn full =
    effects-append o ip (fails ip t0 ∷ burst ip ts) (fails ip tn ∷ []) none
    ∙ ap (effects o ip (fails ip tn ∷ [])) (effects-fresh_burst o ip t0 ts w (omega arith))
    ∙ effects-one o ip (fails ip tn) _ (effect-last o ip t0 tn (length ts + 1) wn (omega arith))
    ∙ ap (λ k. some (record { fails = k; first_fail_at = t0; locked_until = tn + o.lockout_ms }))
        (omega arith)

check_at :
    (o : Options) (ip : Text) (t : ℕ) (l : Limiter) {e : Option Entry}
    → lookup ip l.entries ≡ e
    → (check o ip t l).1 ≡ (state_of o ip t l e).1
unfolding check
check_at o ip t l found = ap (λ x. (state_of o ip t l x).1) found

entry_after :
    (o : Options) (ip : Text) (cs : List Call) (l : Limiter) {e f : Option Entry}
    → lookup ip l.entries ≡ e
    → effects o ip cs e ≡ f
    → lookup ip (run o cs l).entries ≡ f
entry_after o ip cs l found reached = lookup-run o ip cs l ∙ ap (effects o ip cs) found ∙ reached

abbrev pub locked_for : ℕ → ℕ → LockState
locked_for ms n = record { locked = true; retry_after_ms = some ms; fails = n }

abbrev pub free_with : ℕ → LockState
free_with n = record { locked = false; retry_after_ms = none; fails = n }

-- With `max_fails` at least 2 and `lockout_ms` more than 0, let an IP that has no entry fail
-- `max_fails` times, each time at most a window after the first: until `lockout_ms` after the last
-- failure `check` answers that the IP is locked, and how long it has to wait; from then on the IP is
-- free, with no failure counted.
pub burst_locks :
    (o : Options) (ip : Text) (l : Limiter) (t0 tn t : ℕ) (ts : List ℕ)
    → lookup ip l.entries ≡ none
    → All (λ u. u ≤ t0 + o.fail_window_ms) ts
    → tn ≤ t0 + o.fail_window_ms
    → length ts + 2 ≡ o.max_fails
    → 0 < o.lockout_ms
    → (check o ip t (run o (fails ip t0 ∷ burst ip ts ++ fails ip tn ∷ []) l)).1 ≡ (
        if ltb t (tn + o.lockout_ms)
        then locked_for (tn + o.lockout_ms - t) o.max_fails
        else free_with 0)
unfolding state_of
burst_locks o ip l t0 tn t ts new w wn full pos =
    check_at o ip t _ (
      entry_after o ip (fails ip t0 ∷ burst ip ts ++ fails ip tn ∷ []) l new
        (effects-full_burst o ip t0 tn ts w wn full))
    ∙ ground arith

-- Let an IP that has no entry fail at least once and fewer than `max_fails` times. Where the other
-- failures and the check come at most a window after the first, the IP is free, and `check` counts
-- the failures.
pub burst_counts :
    (o : Options) (ip : Text) (l : Limiter) (t0 t : ℕ) (ts : List ℕ)
    → lookup ip l.entries ≡ none
    → All (λ u. u ≤ t0 + o.fail_window_ms) ts
    → t ≤ t0 + o.fail_window_ms
    → length ts + 1 < o.max_fails
    → (check o ip t (run o (fails ip t0 ∷ burst ip ts) l)).1 ≡ free_with (length ts + 1)
unfolding state_of
burst_counts o ip l t0 t ts new w wt few =
    check_at o ip t _
      (entry_after o ip (fails ip t0 ∷ burst ip ts) l new (effects-fresh_burst o ip t0 ts w few))
    ∙ ground arith

-- A failure recorded for an IP while it is locked out lifts the lock, if the first failure lies
-- more than a window back: `check` then finds the IP free. (A login whose password is still being
-- verified when others trip the lock records such a failure.)
pub late_fail_unlocks :
    (o : Options) (ip : Text) (l : Limiter) (e : Entry) (t : ℕ)
    → lookup ip l.entries ≡ some e
    → t < e.locked_until
    → e.first_fail_at + o.fail_window_ms < t
    → ((check o ip t l).1.locked ≡ true)
      × ((check o ip t (run o (fails ip t ∷ []) l)).1 ≡ free_with 1)
unfolding state_of
late_fail_unlocks o ip l e t found locked late = (
  ap (λ v. v.locked) (check_at o ip t l found) ∙ ground arith,
  check_at o ip t _ (entry_after o ip (fails ip t ∷ []) l found restarted) ∙ ground arith,
)
  where
    restarted : effects o ip (fails ip t ∷ []) (some e) ≡ some (counting 1 t)
    restarted = unfold effects effect after_fail is_stale fresh in ground (arith, text_eq_refl ip)
