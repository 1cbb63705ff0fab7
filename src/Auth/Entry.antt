-- ===== src/Auth/Entry.antt =====
-- `RateLimitEntry` of auth/rate-limit.ts. Times are milliseconds since the epoch.
use miharbor.Base.{ℕ, List}
use miharbor.Base.Text.{Text}

pub record Entry : Type 0 where
  pub fails : ℕ
  pub first_fail_at : ℕ
  pub locked_until : ℕ

-- The limiter's `Map<string, RateLimitEntry>`, keyed by the IP.
abbrev pub Entries : Type 0
Entries = List (Text × Entry)
