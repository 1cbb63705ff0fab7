-- ===== src/Auth/RateLimit.antt =====
-- auth/rate-limit.ts: failed logins are counted for each IP, and too many of them within the
-- window lock it out. `t - firstFailAt` of the source is negative where the clock has gone back;
-- the truncated difference passes the same test, since a window is not negative.
pub mod PerIp
pub mod History
pub mod Lockout
pub mod Restart
use miharbor.Base.{
  ℕ, suc, ◌+◌, ◌-◌, ◌*◌, Bool, true, false, ◌&&◌, ◌||◌, Option, none, some, List, [], ◌∷◌,
  if◌then◌else◌, ltb, leb, is_some,
}
use miharbor.Base.Text.{Text}
use miharbor.Base.Dict.{lookup, insert, erase}
use miharbor.Auth.Entry.{Entry, Entries}
use miharbor.Auth.RateLimitStore.{FileStore, save}

pub record Options : Type 0 where
  pub max_fails : ℕ
  pub fail_window_ms : ℕ
  pub lockout_ms : ℕ

abbrev pub defaults : Options
defaults = record { max_fails = 5; fail_window_ms = 5 * 60 * 1000; lockout_ms = 15 * 60 * 1000 }

pub record Limiter : Type 0 where
  pub entries : Entries
  pub store : Option FileStore

-- The answer of `check` and `fail`; `fail` leaves `fails` out, so it answers by `Verdict`.
pub record Verdict : Type 0 where
  pub locked : Bool
  pub retry_after_ms : Option ℕ

pub record LockState : Type 0 where
  pub locked : Bool
  pub retry_after_ms : Option ℕ
  pub fails : ℕ

abbrev free : LockState
free = record { locked = false; retry_after_ms = none; fails = 0 }

abbrev pass : Verdict
pass = record { locked = false; retry_after_ms = none }

-- `createRateLimiter`, with `initialEntries`.
unfoldable pub create : Entries → Option FileStore → Limiter
create initial store = record { entries = initial; store = store }

abbrev saved : Entries → Option FileStore → Option FileStore
saved m none = none
saved m (some s) = some (save m s)

-- Every mutation but the ones of `check` hands the map to the store.
unfoldable pub persist : Limiter → Limiter
persist l = record l { store = saved l.entries l.store }

state_of : Options → Text → ℕ → Limiter → Option Entry → Limiter × LockState
state_of o ip t l none = (l, free)
state_of o ip t l (some e) =
    if ltb t e.locked_until
    then (l, record { locked = true; retry_after_ms = some (e.locked_until - t); fails = e.fails })
    else if ltb 0 e.locked_until && leb e.locked_until t
    then (record l { entries = erase ip l.entries }, free)
    else if ltb o.fail_window_ms (t - e.first_fail_at)
    then (record l { entries = erase ip l.entries }, free)
    else (l, record { locked = false; retry_after_ms = none; fails = e.fails })

-- `check`, which is `currentState`: it drops an entry whose lock or window has run out.
unfoldable pub check : Options → Text → ℕ → Limiter → Limiter × LockState
unfolding state_of
check o ip t l = state_of o ip t l (lookup ip l.entries)

abbrev set_entry : Text → Entry → Limiter → Limiter
set_entry ip e l = persist (record l { entries = insert ip e l.entries })

-- A missing entry, a window that has run out or a lockout that has ended: start anew.
unfoldable pub is_stale : Options → ℕ → Entry → Bool
is_stale o t e =
    ltb o.fail_window_ms (t - e.first_fail_at) || (ltb 0 e.locked_until && leb e.locked_until t)

unfoldable pub fresh : ℕ → Entry
fresh t = record { fails = 1; first_fail_at = t; locked_until = 0 }

counted : Options → Text → ℕ → Entry → Limiter → Limiter × Verdict
counted o ip t e l =
    if leb o.max_fails e.fails
    then (
      set_entry ip (record e { locked_until = t + o.lockout_ms }) l,
      record { locked = true; retry_after_ms = some o.lockout_ms },
    )
    else (set_entry ip e l, pass)

fail_entry : Options → Text → ℕ → Limiter → Option Entry → Limiter × Verdict
unfolding counted is_stale fresh
fail_entry o ip t l none = (set_entry ip (fresh t) l, pass)
fail_entry o ip t l (some e) =
    if is_stale o t e
    then (set_entry ip (fresh t) l, pass)
    else counted o ip t (record e { fails = e.fails + 1 }) l

unfoldable pub fail : Options → Text → ℕ → Limiter → Limiter × Verdict
unfolding fail_entry
fail o ip t l = fail_entry o ip t l (lookup ip l.entries)

unfoldable pub success : Text → Limiter → Limiter
success ip l =
    if is_some (lookup ip l.entries) then persist (record l { entries = erase ip l.entries }) else l

unfoldable pub reset : Limiter → Limiter
reset l = persist (record l { entries = [] })

-- The calls that a server makes on its one limiter, in the order in which they reach it.
pub data Call : Type 0 where
  checks fails : Text → ℕ → Call
  succeeds : Text → Call
  resets : Call

unfoldable pub step : Options → Call → Limiter → Limiter
step o (checks ip t) l = (check o ip t l).0
step o (fails ip t) l = (fail o ip t l).0
step o (succeeds ip) l = success ip l
step o resets l = reset l

-- Oldest call first.
unfoldable pub run : Options → List Call → Limiter → Limiter
run o [] l = l
run o (c ∷ cs) l = run o cs (step o c l)
