-- ===== src/Auth/RateLimit/PerIp.antt =====
-- The limiter of auth/rate-limit.ts seen as a machine for each IP.
use miharbor.Base.{
  ℕ, ◌+◌, ◌≡◌, refl, ◌∙◌, ap, Option, none, some, List, [], ◌∷◌, if◌then◌else◌, arith, ltb, leb,
  Option-cases, inl, inr,
}
use miharbor.Base.Text.{Text, text_eq, text_eq_iff}
use miharbor.Base.Dict.{lookup, lookup-insert, lookup-erase, Unique, insert-Unique, erase-Unique}
use miharbor.Auth.Entry.{Entry}
use miharbor.Auth.RateLimit.{
  Options, Limiter, is_stale, fresh, check, fail, success, reset, Call, checks, fails, succeeds,
  resets, step, run, persist, fail_entry,
}

bumped : Options → ℕ → Entry → Entry
bumped o t e = if leb o.max_fails e.fails then record e { locked_until = t + o.lockout_ms } else e

unfoldable pub after_fail : Options → ℕ → Option Entry → Option Entry
unfolding bumped
after_fail o t none = some (fresh t)
after_fail o t (some e) =
    some (if is_stale o t e then fresh t else bumped o t (record e { fails = e.fails + 1 }))

unfoldable pub after_check : Options → ℕ → Option Entry → Option Entry
after_check o t none = none
after_check o t (some e) =
    if ltb t e.locked_until then some e else if is_stale o t e then none else some e

-- What a call does to the entry of `ip`.
unfoldable pub effect : Options → Text → Call → Option Entry → Option Entry
effect o ip (checks j t) e = if text_eq j ip then after_check o t e else e
effect o ip (fails j t) e = if text_eq j ip then after_fail o t e else e
effect o ip (succeeds j) e = if text_eq j ip then none else e
effect o ip resets e = none

unfoldable pub effects : Options → Text → List Call → Option Entry → Option Entry
effects o ip [] e = e
effects o ip (c ∷ cs) e = effects o ip cs (effect o ip c e)

lookup-fail :
    (o : Options) (j ip : Text) (t : ℕ) (l : Limiter)
    → lookup ip (fail o j t l).0.entries
      ≡ (if text_eq j ip then after_fail o t (lookup j l.entries) else lookup ip l.entries)
unfolding fail persist after_fail
lookup-fail o j ip t l = elim (Option-cases (lookup j l.entries)) [
  | inl e ↦ rw (e, fail_entry) (lookup-insert j ip _ l.entries)
  | inr (x, e) ↦
      rw (e, fail_entry)
        (ground (
          arith,
          lookup-insert j ip (fresh t) l.entries,
          lookup-insert j ip (record x { fails = x.fails + 1 }) l.entries,
          lookup-insert j ip (record x { fails = x.fails + 1; locked_until = t + o.lockout_ms })
              l.entries,
        ))
]

lookup-check :
    (o : Options) (j ip : Text) (t : ℕ) (l : Limiter)
    → lookup ip (check o j t l).0.entries
      ≡ (if text_eq j ip then after_check o t (lookup ip l.entries) else lookup ip l.entries)
unfolding check after_check is_stale
lookup-check o j ip t l =
    ground (arith, lookup-erase j ip l.entries, text_eq_iff j ip, Option-cases (lookup j l.entries))

lookup-success :
    (j ip : Text) (l : Limiter)
    → lookup ip (success j l).entries ≡ (if text_eq j ip then none else lookup ip l.entries)
unfolding success persist
lookup-success j ip l =
    ground (arith, lookup-erase j ip l.entries, text_eq_iff j ip, Option-cases (lookup j l.entries))

lookup-step :
    (o : Options) (ip : Text) (c : Call) (l : Limiter)
    → lookup ip (step o c l).entries ≡ effect o ip c (lookup ip l.entries)
unfolding step effect
lookup-step o ip (checks j t) l = lookup-check o j ip t l
lookup-step o ip (fails j t) l = ground (arith, lookup-fail o j ip t l, text_eq_iff j ip)
lookup-step o ip (succeeds j) l = lookup-success j ip l
lookup-step o ip resets l = unfold reset persist lookup in refl

-- After any calls on any limiter, the entry of an IP is the one which the machine of that IP
-- reaches from its first entry; the calls for other IPs (a reset apart) leave it as it was.
pub lookup-run :
    (o : Options) (ip : Text) (cs : List Call) (l : Limiter)
    → lookup ip (run o cs l).entries ≡ effects o ip cs (lookup ip l.entries)
unfolding run effects
lookup-run o ip [] l = refl
lookup-run o ip (c ∷ cs) l =
    lookup-run o ip cs (step o c l) ∙ ap (effects o ip cs) (lookup-step o ip c l)

fail-Unique :
    (o : Options) (j : Text) (t : ℕ) (l : Limiter)
    → Unique l.entries
    → Unique (fail o j t l).0.entries
unfolding fail persist
fail-Unique o j t l u = elim (Option-cases (lookup j l.entries)) [
  | inl e ↦ rw (e, fail_entry) (insert-Unique j _ l.entries u)
  | inr (x, e) ↦
      rw (e, fail_entry)
        (ground (
          arith,
          insert-Unique j (fresh t) l.entries u,
          insert-Unique j (record x { fails = x.fails + 1 }) l.entries u,
          insert-Unique j (record x { fails = x.fails + 1; locked_until = t + o.lockout_ms })
              l.entries u,
        ))
]

-- The map keeps one entry for each IP.
pub step-Unique :
    (o : Options) (c : Call) (l : Limiter) → Unique l.entries → Unique (step o c l).entries
unfolding step check success persist reset
step-Unique o (checks j t) l u =
    ground (arith, erase-Unique j l.entries u, Option-cases (lookup j l.entries))
step-Unique o (fails j t) l u = fail-Unique o j t l u
step-Unique o (succeeds j) l u =
    ground (arith, erase-Unique j l.entries u, Option-cases (lookup j l.entries))
step-Unique o resets l u = tt

pub run-Unique :
    (o : Options) (cs : List Call) (l : Limiter) → Unique l.entries → Unique (run o cs l).entries
unfolding run
run-Unique o [] l u = u
run-Unique o (c ∷ cs) l u = run-Unique o cs (step o c l) (step-Unique o c l u)
