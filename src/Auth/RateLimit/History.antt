-- ===== src/Auth/RateLimit/History.antt =====
-- The failures of an IP in the history of a limiter (auth/rate-limit.ts).
use miharbor.Base.{
  ℕ, ◌+◌, ◌≤◌, ◌<◌, ◌≡◌, true, Option, none, some, List, [], ◌∷◌, if◌then◌else◌, arith,
  Option-cases, Bool-cases, inl, inr,
}
use miharbor.Base.Text.{Text, text_eq}
use miharbor.Base.Dict.{lookup}
use miharbor.Auth.Entry.{Entry}
use miharbor.Auth.RateLimitStore.{FileStore}
use miharbor.Auth.RateLimit.{
  Options, Limiter, create, is_stale, fresh, check, Call, checks, fails, succeeds, resets, run,
}
use miharbor.Auth.RateLimit.PerIp.{after_fail, after_check, effect, effects, lookup-run}

-- How often `ip` has failed in a history.
pub failures : Text → List Call → ℕ
failures ip [] = 0
failures ip (fails j t ∷ cs) = if text_eq j ip then failures ip cs + 1 else failures ip cs
failures ip (_ ∷ cs) = failures ip cs

-- An entry counts at most `n` failures, and a lock is backed by `max_fails` of them.
abbrev Backed : Options → ℕ → Option Entry → Type 0
Backed o n none = Unit {0}
Backed o n (some e) = (e.fails ≤ n) × (0 < e.locked_until → o.max_fails ≤ e.fails)

after_fail-Backed :
    (o : Options) (t n : ℕ) (e : Option Entry) → Backed o n e → Backed o (n + 1) (after_fail o t e)
unfolding after_fail is_stale fresh
after_fail-Backed o t n none b = (omega arith, omega arith)
after_fail-Backed o t n (some e) b = ground arith

Backed-mono : (o : Options) (m n : ℕ) (e : Option Entry) → m ≤ n → Backed o m e → Backed o n e
Backed-mono o m n none h b = tt
Backed-mono o m n (some e) h b = (omega (arith, b.0), b.1)

checked-Backed :
    (o : Options) (t n : ℕ) (e : Option Entry) → Backed o n e → Backed o n (after_check o t e)
unfolding after_check
checked-Backed o t n none b = tt
checked-Backed o t n (some e) b = ground arith

effects-Backed :
    (o : Options) (ip : Text) (cs : List Call) (n : ℕ) (e : Option Entry)
    → Backed o n e
    → Backed o (n + failures ip cs) (effects o ip cs e)
unfolding effects effect failures
effects-Backed o ip [] n e b = Backed-mono o n (n + 0) e (omega arith) b
effects-Backed o ip (checks j t ∷ cs) n e b = elim (Bool-cases (text_eq j ip)) [
  | inl own ↦ rw (own, effect) (effects-Backed o ip cs n _ (checked-Backed o t n e b))
  | inr other ↦ rw (other, effect) (effects-Backed o ip cs n e b)
]
effects-Backed o ip (fails j t ∷ cs) n e b = elim (Bool-cases (text_eq j ip)) [
  | inl own ↦
      rw (own, effect, failures)
        (Backed-mono o _ _ _ (omega arith)
          (effects-Backed o ip cs (n + 1) _ (after_fail-Backed o t n e b)))
  | inr other ↦ rw (other, effect, failures) (effects-Backed o ip cs n e b)
]
effects-Backed o ip (succeeds j ∷ cs) n e b = elim (Bool-cases (text_eq j ip)) [
  | inl own ↦ rw (own, effect) (effects-Backed o ip cs n none tt)
  | inr other ↦ rw (other, effect) (effects-Backed o ip cs n e b)
]
effects-Backed o ip (resets ∷ cs) n e b = effects-Backed o ip cs n none tt

locked-needs-Backed :
    (o : Options) (ip : Text) (t n : ℕ) (l : Limiter)
    → Backed o n (lookup ip l.entries)
    → (check o ip t l).1.locked ≡ true
    → o.max_fails ≤ n
unfolding check
locked-needs-Backed o ip t n l b h = ground (arith, Option-cases (lookup ip l.entries))

-- Whatever calls a new limiter has seen, of all IPs and at whatever times: where `check` answers
-- that an IP is locked out, that IP has failed at least `max_fails` times.
pub locked_needs_failures :
    (o : Options) (store : Option FileStore) (ip : Text) (cs : List Call) (t : ℕ)
    → (check o ip t (run o cs (create [] store))).1.locked ≡ true
    → o.max_fails ≤ failures ip cs
unfolding create
locked_needs_failures o store ip cs t h =
    locked-needs-Backed o ip t (failures ip cs) (run o cs (create [] store)) backed h
  where
    backed : Backed o (failures ip cs) (lookup ip (run o cs (create [] store)).entries)
    backed = rw (lookup-run o ip cs (create [] store)) (
        Backed-mono o _ _ _ (omega arith)
          (effects-Backed o ip cs 0 (lookup ip []) (unfold lookup in tt)))
