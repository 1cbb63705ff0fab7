-- ===== src/Auth/RateLimit/Restart.antt =====
-- The limiter with its store (auth/rate-limit-store.ts) across a restart of the server.
use miharbor.Base.{
  ℕ, ◌+◌, ◌<◌, ◌≡◌, refl, ◌∙◌, ap, true, false, Option, none, some, arith, Option-cases, inl, inr,
}
use miharbor.Base.Text.{Text}
use miharbor.Base.Dict.{lookup, lookup-insert_self, Unique}
use miharbor.Base.Json.{JsonCodec}
use miharbor.Auth.Entry.{Entry}
use miharbor.Auth.RateLimitStore.{FileStore, Disk, PruneBefore, should_prune, load, dispose, save}
use miharbor.Auth.RateLimitStore.Roundtrip.{load-flush, surviving}
use miharbor.Auth.RateLimit.{
  Options, Limiter, check, fail, fail_entry, create, persist, state_of, step, fails,
}
use miharbor.Auth.RateLimit.PerIp.{step-Unique}

fail_locked :
    (o : Options) (ip : Text) (t : ℕ) (l : Limiter)
    → (fail o ip t l).1.locked ≡ true
    → (e : Entry) × (lookup ip (fail o ip t l).0.entries ≡ some e)
      × (e.locked_until ≡ t + o.lockout_ms)
unfolding fail persist
fail_locked o ip t l h = elim (Option-cases (lookup ip l.entries)) [
  | inl e ↦ cc (rw (e, fail_entry) at h)
  | inr (x, e) ↦ (
    record x { fails = x.fails + 1; locked_until = t + o.lockout_ms },
    rw (e, fail_entry)
        (ground (
          arith,
          (rw (e, fail_entry) at h),
          lookup-insert_self ip (record x { fails = x.fails + 1; locked_until = t + o.lockout_ms })
              l.entries,
        )),
    refl,
  )
]

fail-saved :
    (o : Options) (ip : Text) (t : ℕ) (l : Limiter) (s s' : FileStore)
    → l.store ≡ some s
    → s.disposed ≡ false
    → (fail o ip t l).0.store ≡ some s'
    → (s'.pending ≡ some (fail o ip t l).0.entries) × (s'.disposed ≡ false)
unfolding fail persist save
fail-saved o ip t l s s' stored live kept = elim (Option-cases (lookup ip l.entries)) [
  | inl e ↦ rw (e, fail_entry) (ground (arith, (rw (e, fail_entry) at kept)))
  | inr (x, e) ↦ rw (e, fail_entry) (ground (arith, (rw (e, fail_entry) at kept)))
]

check_locked :
    (o : Options) (ip : Text) (t : ℕ) (l : Limiter) (e : Entry)
    → lookup ip l.entries ≡ some e
    → t < e.locked_until
    → (check o ip t l).1.locked ≡ true
unfolding check
check_locked o ip t l e found h = rw (found, state_of) (ground arith)

-- If a failure locks an IP out, and the store is disposed of (with a write that succeeds) and
-- loaded again before the lockout has ended, with or without a prune policy, then `check` of the
-- new limiter answers that the IP is locked.
pub lockout_survives_restart :
    (c : JsonCodec) (o : Options) (prune : PruneBefore) (ip : Text) (t t1 t2 : ℕ) (l : Limiter)
    (s s' : FileStore) (disk : Disk c.Raw) (next : Option FileStore)
    → l.store ≡ some s
    → s.disposed ≡ false
    → Unique l.entries
    → (fail o ip t l).1.locked ≡ true
    → (fail o ip t l).0.store ≡ some s'
    → t2 < t + o.lockout_ms
    → (check o ip t2 (create (load c prune t2 (dispose c true t1 (s', disk)).1) next)).1.locked
      ≡ true
unfolding create dispose
lockout_survives_restart c o prune ip t t1 t2 l s s' disk next stored live u h kept soon =
    let (e, found, until) = fail_locked o ip t l h in
    let (pending, live') = fail-saved o ip t l s s' stored live kept in
    rw live' (
      check_locked o ip t2 _ e
        (load-flush c prune t1 t2 (record s' { disposed = true; timer = false }) disk _ ip pending
            (unfold step in step-Unique o (fails ip t) l u)
          ∙ ap (λ x. surviving prune t2 x none) found
          ∙ survives e (omega arith))
        (omega arith))
  where
    survives : (e : Entry) → t2 < e.locked_until → surviving prune t2 (some e) none ≡ some e
    survives e h = unfold should_prune in ground (arith, Option-cases prune)
